-- ===== src/Runtime/Canister/Faults.antt =====
-- Where canister.rs does not do what it means to.
use ic_kit.Base.{
  ℕ, zero, suc, ◌^◌, ◌<◌, ◌≡◌, ap, ◌∙◌, arith, Bool, true, false, Option, none, some, ◌>>=◌, refl,
  List, [], ◌∷◌, ◌++◌, Option-cases, inl, inr, length,
}
use ic_kit.Certified.HashTree.{Bytes}
use ic_kit.Dict.{find, find-put}
use ic_kit.Runtime.Types.{Host, Env, CanisterCall}
use ic_kit.Runtime.Call.{CallReply, reply}
use ic_kit.Runtime.StableMemory.{HeapStableMemory, stable_read, read_byte}
use ic_kit.Runtime.Canister.Task.{Task, Code, nothing}
use ic_kit.Runtime.Canister.State.{
  Canister, PendingCall, add128, extend, amount128, discard_pending_call, discard_call_queue,
}
use ic_kit.Runtime.Canister.Take.{
  CanisterMessage, custom, incoming, response, Job, take_message, settle,
}
use ic_kit.Runtime.Canister.Silent.{Silent, Kept, perform-Kept}
use ic_kit.Runtime.Canister.Pending.{send_calls-Sends}
use ic_kit.Runtime.Canister.Guard.{Outcome, returned, may_reply, copy_to_canister}
use ic_kit.Runtime.Canister.Replies.{is_replied, msg_reply}
use ic_kit.Runtime.Canister.Calls.{add_cycles, call_cycles_add128}
use ic_kit.Runtime.Canister.System.{stable64_read}
use ic_kit.Runtime.Canister.Frame.{AtEnd, Quiet, perform-Quiet}
use ic_kit.Runtime.Canister.Answers.{after_ok-some, delivered}
use ic_kit.Runtime.Canister.Message.{
  Ended, completed, trapped, crashed, reset, begin, roll_back, maybe_final_reply, after_panic,
  after_ok, perform, work, send_calls, flush, process_message,
}

-- A failure, or a panic.
abbrev pub Fails : Outcome → Type 0
Fails (returned _ _) = ⊥
Fails _ = Unit

length-stable_read :
    (offset size : ℕ) (m : HeapStableMemory) (buf : Bytes)
    → stable_read offset size m ≡ some buf
    → length buf ≡ size
unfolding stable_read
length-stable_read offset zero m buf e = ground arith
length-stable_read offset (suc n) m buf e = elim (Option-cases (read_byte offset m)) [
  | inl f ↦ absurd (ground arith)
  | inr (b, f) ↦ elim (Option-cases (stable_read (suc offset) n m)) [
    | inl g ↦ absurd (ground arith)
    | inr (after, g) ↦ let ih = length-stable_read (suc offset) n m after g in ground arith
  ]
]

-- Reading the stable memory at an offset other than 0, both numbers of 64 bits, never succeeds, whatever it holds: the offset is
-- applied to the buffer too, which is as long as the part that is read.
pub stable64_read-Fails :
    (dst offset size : ℕ) (c : Canister)
    → 0 < offset
    → offset < 2 ^ 64
    → size < 2 ^ 64
    → Fails (stable64_read dst offset size c)
unfolding stable64_read copy_to_canister
stable64_read-Fails dst offset size c h w v =
    elim (Option-cases (stable_read offset size c.stable)) [
      | inl e ↦ ground arith
      | inr (buf, e) ↦ let l = length-stable_read offset size c.stable buf e in ground arith
    ]

amount128-low : (low : ℕ) → amount128 0 low ≡ 0
unfolding amount128 extend
amount128-low low = omega arith

-- An amount of cycles below 2 ^ 64, whose high half is 0, is not added: the call under construction and the
-- balance stay as they are.
pub call_cycles_add128-nothing :
    (low : ℕ) (c : Canister) (p : PendingCall)
    → c.pending_call ≡ some p
    → p.payment < 2 ^ 128
    → call_cycles_add128 0 low c ≡ returned nothing c
unfolding call_cycles_add128 add_cycles add128
call_cycles_add128-nothing low c p e h = let z = amount128-low low in ground arith

maybe_final_reply-msg_reply :
    (message : Option Bytes) (cycles : ℕ) (c : Canister)
    → (maybe_final_reply message cycles c).msg_reply ≡ c.msg_reply
unfolding maybe_final_reply
maybe_final_reply-msg_reply message cycles c = ground arith

-- What becomes of a reply that is there when the next message comes, by how the task of that message ends: it is
-- sent on the message's channel, or is still there.
abbrev pub Leaks :
    ℕ → CallReply → Canister → Ended → Option (Canister × List CanisterCall × ℕ) → Type 0
Leaks channel r c (completed _) (some p) = p.0.sent ≡ c.sent ++ (channel, r) ∷ []
Leaks channel r c (trapped _ _) (some p) = p.0.msg_reply ≡ some r
Leaks channel r c crashed _ = Unit
Leaks channel r c _ none = ⊥

send_calls-msg_reply :
    (id : ℕ) (queue : List PendingCall) (counter : ℕ) (c : Canister)
    → (send_calls id queue counter c).0.msg_reply ≡ c.msg_reply
unfolding send_calls
send_calls-msg_reply id [] counter c = refl
send_calls-msg_reply id (p ∷ queue) counter c = send_calls-msg_reply id queue _ _

flush-msg_reply : (id counter : ℕ) (c : Canister) → (flush id counter c).0.msg_reply ≡ c.msg_reply
unfolding flush
flush-msg_reply id counter c =
    send_calls-msg_reply id c.call_queue counter (record c { call_queue = [] })

flush-sent : (id counter : ℕ) (c : Canister) → (flush id counter c).0.sent ≡ c.sent
unfolding flush
flush-sent id counter c =
    (send_calls-Sends id c.call_queue counter (record c { call_queue = [] })).sent

after_panic-msg_reply :
    (id : ℕ) (message : Bytes) (c : Canister) → (after_panic id message c).msg_reply ≡ c.msg_reply
unfolding after_panic roll_back discard_call_queue
after_panic-msg_reply id message c = maybe_final_reply-msg_reply (some message) _ (roll_back id c)

reset-keeps : (c : Canister) → ((reset c).msg_reply ≡ c.msg_reply) × ((reset c).sent ≡ c.sent)
unfolding reset discard_call_queue discard_pending_call
reset-keeps c = ground arith

module _ ⦃host : Host⦄ ⦃code : Code⦄ where
  take_message-same :
      (m : CanisterMessage) (asked : Bool) (c : Canister) (job : Job)
      → take_message m asked c ≡ some job
      → (job.canister.msg_reply ≡ c.msg_reply) × (job.canister.sent ≡ c.sent)
  unfolding take_message settle
  take_message-same (custom id env task) asked c job e = ground arith
  take_message-same (incoming id env) asked c job e = ground arith
  take_message-same (response reply_to env) asked c job e =
      elim (Option-cases (find reply_to c.outgoing_calls)) [
        | inl n ↦ absurd (ground (arith, e, n))
        | inr (callbacks, f) ↦
            ground
              (arith, e, f, Option-cases (find callbacks.message_id c.pending_outgoing_requests))
      ]

  -- What `begin` sets, where the message has a channel.
  begin-channel :
      (id : ℕ) (env : Env) (channel : ℕ) (c : Canister)
      → let b = begin id env (some channel) c in
        (find id b.msg_reply_senders ≡ some channel)
        × (b.request_id ≡ some id)
        × (b.msg_reply ≡ c.msg_reply)
        × (b.sent ≡ c.sent)
  unfolding begin
  begin-channel id env channel c =
      let g = find-put id id channel c.msg_reply_senders in ground arith

  ended-Leaks :
      (id channel counter : ℕ) (r : CallReply) (c b : Canister) (e : Ended)
      → c.msg_reply ≡ some r
      → (find id b.msg_reply_senders ≡ some channel)
        × (b.request_id ≡ some id)
        × (b.msg_reply ≡ c.msg_reply)
        × (b.sent ≡ c.sent)
      → AtEnd (Quiet b) e
      → AtEnd (Kept b) e
      → Leaks channel r c e (do
        c' ← elim e [
          | completed d ↦ after_ok id d
          | trapped message d ↦ some (after_panic id message d)
          | crashed ↦ none
        ]
        some (flush id counter c'))
  ended-Leaks id channel counter r c b (completed d) h (f, now, same, sent) q k =
      let s =
        after_ok-some id d (q.request ∙ now) r channel (k ∙ same ∙ h)
          (ap (find id) q.senders ∙ f) in
      rw s (
        flush-sent id counter (delivered id d (q.request ∙ now) channel r)
        ∙ ap (λ l. l ++ (channel, r) ∷ []) (q.sent ∙ sent))
  ended-Leaks id channel counter r c b (trapped message d) h (f, now, same, sent) q k =
      flush-msg_reply id counter (after_panic id message d)
      ∙ after_panic-msg_reply id message d
      ∙ k
      ∙ same
      ∙ h
  ended-Leaks id channel counter r c b crashed h p q k = tt

  work-Leaks :
      (job : Job) (task : Task) (channel counter : ℕ) (r : CallReply)
      → job.canister.msg_reply ≡ some r
      → Silent task
      → Leaks channel r job.canister
          (perform task (begin job.id job.env (some channel) job.canister))
          (do c' ← work job task (some channel); some (flush job.id counter c'))
  unfolding work
  work-Leaks job task channel counter r h silent =
      let b = begin job.id job.env (some channel) job.canister in
      ended-Leaks job.id channel counter r job.canister b (perform task b) h
        (begin-channel job.id job.env channel job.canister) (perform-Quiet task b)
        (perform-Kept task b silent)

  Leaks-sent :
      (channel : ℕ) (r : CallReply) (c d : Canister) (e : Ended)
      (o : Option (Canister × List CanisterCall × ℕ))
      → d.sent ≡ c.sent
      → Leaks channel r d e o
      → Leaks channel r c e o
  Leaks-sent channel r c d (completed _) (some p) s h = h ∙ ap (λ l. l ++ (channel, r) ∷ []) s
  Leaks-sent channel r c d (trapped _ _) (some p) s h = h
  Leaks-sent channel r c d crashed o s h = tt
  Leaks-sent channel r c d (completed _) none s h = h
  Leaks-sent channel r c d (trapped _ _) none s h = h

  -- A reply that a task has made stays when the task then traps. The next message that comes with a reply
  -- channel and whose task makes no reply or rejection of its own is answered with it where the task
  -- completes; where that task traps too, the reply is there still.
  pub after_panic-Leaks :
      (id : ℕ) (trap_message : Bytes) (c : Canister) (r : CallReply)
      → c.msg_reply ≡ some r
      → (message : CanisterMessage) (channel counter : ℕ) (job : Job) (task : Task)
      → take_message message true (reset (after_panic id trap_message c)) ≡ some job
      → job.task ≡ some task
      → Silent task
      → Leaks channel r
          (after_panic id trap_message c)
          (perform task (begin job.id job.env (some channel) job.canister))
          (process_message message (some channel) counter (after_panic id trap_message c))
  unfolding process_message
  after_panic-Leaks id trap_message c r e message channel counter job task f g silent =
      let d = after_panic id trap_message c in
      let p = reset-keeps d in
      let q = take_message-same message true (reset d) job f in
      rw (f, g)
        (Leaks-sent channel r d job.canister _ _ (q.1 ∙ p.1) (
          work-Leaks job task channel counter r
            (q.0 ∙ p.0 ∙ after_panic-msg_reply id trap_message c ∙ e) silent))

  -- After a reply, which gives all available cycles back, the number of available cycles is still stored for
  -- the message, and its next callback has them available once more.
  pub msg_reply-again :
      (id : ℕ) (env : Env) (c : Canister)
      → may_reply c.env.entry_mode ≡ true
      → c.request_id ≡ some id
      → is_replied id c ≡ false
      → find id c.cycles_available_store ≡ some c.env.cycles_available
      → (d : Canister) → msg_reply c ≡ returned nothing d
      → (d.msg_reply ≡ some (reply c.msg_reply_data c.env.cycles_available))
        × ((begin id env none d).env.cycles_available ≡ c.env.cycles_available)
  unfolding msg_reply begin
  msg_reply-again id env c m q n f d h = ground arith
