-- ===== src/Runtime/Canister/Answers.antt =====
-- How the end of a message of canister.rs answers it: `maybe_final_reply` and the two completions.
use ic_kit.Base.{
  ℕ, ◌≡◌, refl, sym, ap, ◌∙◌, true, false, not, ◌||◌, Option, none, some, [], ◌∷◌, ◌++◌, arith,
  Option-cases, Bool-cases, inl, inr, subst, unwrap_or,
}
use ic_kit.Certified.HashTree.{Bytes, as_bytes}
use ic_kit.Dict.{find, erase, find-erase}
use ic_kit.Runtime.Types.{canister_error}
use ic_kit.Runtime.Call.{CallReply, reject}
use ic_kit.Runtime.Canister.State.{Canister, discard_call_queue}
use ic_kit.Runtime.Canister.Replies.{awaits}
use ic_kit.Runtime.Canister.Message.{
  is_some, is_empty, answer, maybe_final_reply, roll_back, after_panic, after_ok,
}

-- What became of the message with this number between two states: its channel still waits, or it got one
-- reply and waits no more. No other channel is touched.
pub data Verdict (id : ℕ) (c d : Canister) : Type 0 where
  kept : d.sent ≡ c.sent → d.msg_reply_senders ≡ c.msg_reply_senders → Verdict id c d
  answered :
      (channel : ℕ) (r : CallReply)
      → find id c.msg_reply_senders ≡ some channel
      → d.sent ≡ c.sent ++ (channel, r) ∷ []
      → d.msg_reply_senders ≡ erase id c.msg_reply_senders
      → Verdict id c d

-- A message without an answer has requests that are pending or calls about to be sent.
pub record Closed (id : ℕ) (c d : Canister) : Type 0 where
  pub verdict : Verdict id c d
  pub busy :
      awaits id d ≡ true
      → is_some (find id d.pending_outgoing_requests) || not (is_empty d.call_queue) ≡ true
  pub pending : d.pending_outgoing_requests ≡ c.pending_outgoing_requests

awaits-erase :
    (id : ℕ) (c d : Canister)
    → d.msg_reply_senders ≡ erase id c.msg_reply_senders
    → awaits id d ≡ false
unfolding awaits
awaits-erase id c d e =
    let f = find-erase id id c.msg_reply_senders in ground (arith, ap (find id) e)

module _ (message : Option Bytes) (cycles id : ℕ) (c : Canister) where
  maybe_final_reply-idle :
      find id c.msg_reply_senders ≡ none
      → c.request_id ≡ some id
      → maybe_final_reply message cycles c ≡ c
  unfolding maybe_final_reply
  maybe_final_reply-idle e r = ground arith

  maybe_final_reply-busy :
      is_some (find id c.pending_outgoing_requests) || not (is_empty c.call_queue) ≡ true
      → c.request_id ≡ some id
      → maybe_final_reply message cycles c ≡ c
  unfolding maybe_final_reply
  maybe_final_reply-busy e r = ground arith

  -- The rejection at the end of a message.
  abbrev rejection : CallReply
  rejection =
      reject canister_error (unwrap_or message (as_bytes "Canister did not reply to the call"))
        cycles

  abbrev dismissed : ℕ → Canister
  dismissed channel = answer channel rejection (record c {
    msg_reply_senders = erase id c.msg_reply_senders;
    cycles_available_store = erase id c.cycles_available_store;
  })

  maybe_final_reply-dismissed :
      (channel : ℕ)
      → is_some (find id c.pending_outgoing_requests) || not (is_empty c.call_queue) ≡ false
      → find id c.msg_reply_senders ≡ some channel
      → c.request_id ≡ some id
      → maybe_final_reply message cycles c ≡ dismissed channel
  unfolding maybe_final_reply
  maybe_final_reply-dismissed channel b f r = ground arith

  pub maybe_final_reply-Closed :
      c.request_id ≡ some id → Closed id c (maybe_final_reply message cycles c)
  maybe_final_reply-Closed r =
      elim (Bool-cases
        (is_some (find id c.pending_outgoing_requests) || not (is_empty c.call_queue))) [
          | inl b ↦
              subst (Closed id c) (sym (maybe_final_reply-busy b r))
                (record { verdict = kept refl refl; busy = λ w. b; pending = refl })
          | inr b ↦ elim (Option-cases (find id c.msg_reply_senders)) [
            | inl f ↦ subst (Closed id c) (sym (maybe_final_reply-idle f r)) (record {
              verdict = kept refl refl;
              busy = λ w. unfold awaits in ground arith;
              pending = refl;
            })
            | inr (channel, f) ↦
                subst (Closed id c) (sym (maybe_final_reply-dismissed channel b f r)) (record {
                  verdict = answered channel rejection f refl refl;
                  busy = λ w. let w' = awaits-erase id c (dismissed channel) refl in cc;
                  pending = refl;
                })
          ]
        ]

Verdict-from :
    (id : ℕ) (b c d : Canister)
    → b.sent ≡ c.sent
    → b.msg_reply_senders ≡ c.msg_reply_senders
    → Verdict id b d
    → Verdict id c d
Verdict-from id b c d s w (kept ks kw) = kept (ks ∙ s) (kw ∙ w)
Verdict-from id b c d s w (answered channel r f ks kw) =
    answered channel r (ap (find id) (sym w) ∙ f) (ks ∙ ap (λ l. l ++ (channel, r) ∷ []) s)
      (kw ∙ ap (erase id) w)

pub Closed-from :
    (id : ℕ) (b c d : Canister)
    → b.sent ≡ c.sent
    → b.msg_reply_senders ≡ c.msg_reply_senders
    → b.pending_outgoing_requests ≡ c.pending_outgoing_requests
    → Closed id b d
    → Closed id c d
Closed-from id b c d s w p h = record {
  verdict = Verdict-from id b c d s w h.verdict;
  busy = h.busy;
  pending = h.pending ∙ p;
}

module _ (id : ℕ) (c : Canister) (now : c.request_id ≡ some id) where
  -- Where the task has replied.
  abbrev pub delivered : ℕ → CallReply → Canister
  delivered channel r =
      answer channel r
        (record c { msg_reply = none; msg_reply_senders = erase id c.msg_reply_senders })

  after_ok-none :
      c.msg_reply ≡ none → after_ok id c ≡ some (maybe_final_reply none c.env.cycles_available c)
  unfolding after_ok
  after_ok-none e = rw e refl

  pub after_ok-some :
      (r : CallReply) (channel : ℕ)
      → c.msg_reply ≡ some r
      → find id c.msg_reply_senders ≡ some channel
      → after_ok id c ≡ some (delivered channel r)
  unfolding after_ok
  after_ok-some r channel e f =
      let gone : find id (delivered channel r).msg_reply_senders ≡ none =
        find-erase id id c.msg_reply_senders ∙ ground arith in
      let idle =
        maybe_final_reply-idle none c.env.cycles_available id (delivered channel r) gone now in
      let step : after_ok id c
          ≡ some (maybe_final_reply none c.env.cycles_available (delivered channel r)) =
        ground arith in
      step ∙ ap some idle

  after_ok-panic :
      (r : CallReply)
      → c.msg_reply ≡ some r
      → find id c.msg_reply_senders ≡ none
      → after_ok id c ≡ none
  unfolding after_ok
  after_ok-panic r e f = ground arith

  -- A completed task leaves its message answered, or busy.
  pub after_ok-Closed : (d : Canister) → after_ok id c ≡ some d → Closed id c d
  after_ok-Closed d h = elim (Option-cases c.msg_reply) [
    | inl e ↦
        let q = after_ok-none e in
        subst (Closed id c) (let x : maybe_final_reply none c.env.cycles_available c ≡ d = cc in x)
          (maybe_final_reply-Closed none c.env.cycles_available id c now)
    | inr (r, e) ↦ elim (Option-cases (find id c.msg_reply_senders)) [
      | inl f ↦ let q = after_ok-panic r e f in absurd (cc)
      | inr (channel, f) ↦
          let q = after_ok-some r channel e f in
          subst (Closed id c) (let x : delivered channel r ≡ d = cc in x) (record {
            verdict = answered channel r f refl refl;
            busy = λ w. let w' = awaits-erase id c (delivered channel r) refl in cc;
            pending = refl;
          })
    ]
  ]

  pub after_panic-Closed : (message : Bytes) → Closed id c (after_panic id message c)
  unfolding after_panic roll_back discard_call_queue
  after_panic-Closed message =
      Closed-from id (roll_back id c) c _ refl refl refl
        (maybe_final_reply-Closed (some message) _ id (roll_back id c) now)
