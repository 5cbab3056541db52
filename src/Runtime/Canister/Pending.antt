-- ===== src/Runtime/Canister/Pending.antt =====
-- The requests of canister.rs that are pending: what the ends of messages and the replies do to them.
use ic_kit.Base.{
  ℕ, ◌≡◌, refl, sym, ap, ◌∙◌, Bool, true, false, not, Option, none, some, ◌>>=◌, List, [], ◌∷◌,
  arith, ◌==◌, Bool-cases, inl, inr, subst, unwrap_or,
}
use ic_kit.Dict.{Dict, find, put, erase, find-erase, find-put, add, discard}
use ic_kit.Runtime.Types.{Env, new_request_id}
use ic_kit.Runtime.Canister.State.{Canister, PendingCall}
use ic_kit.Runtime.Canister.Replies.{awaits}
use ic_kit.Runtime.Canister.Frame.{AtEnd, Quiet}
use ic_kit.Runtime.Canister.Answers.{
  Verdict, kept, answered, Closed, Closed-from, after_ok-Closed, after_panic-Closed,
}
use ic_kit.Runtime.Canister.Take.{settle}
use ic_kit.Runtime.Canister.Message.{
  is_some, is_empty, send_calls, begin, completed, trapped, crashed, Ended, after_ok, after_panic,
}

-- Nothing is said where the runtime panics.
abbrev pub Unless : {A : Type 0} → (A → Type 0) → Option A → Type 0
Unless P none = Unit
Unless P (some a) = P a

pub Unless-bind :
    {A B : Type 0} (P : A → Type 0) (Q : B → Type 0) (m : Option A) (f : A → Option B)
    → Unless P m
    → ((a : A) → m ≡ some a → P a → Unless Q (f a))
    → Unless Q (m >>= f)
Unless-bind P Q none f h k = tt
Unless-bind P Q (some a) f h k = k a refl h

pub anything : {A : Type 0} (m : Option A) → Unless (λ a. Unit {0}) m
anything none = tt
anything (some a) = tt

-- `contains_key` on the pending requests.
abbrev pub has_pending : ℕ → Canister → Bool
has_pending id c = is_some (find id c.pending_outgoing_requests)

-- Every message that awaits its answer has requests pending.
abbrev pub IsLive : Canister → Type 0
IsLive c = (i : ℕ) → awaits i c ≡ true → has_pending i c ≡ true

-- The same, but for one message.
abbrev pub LiveBut : ℕ → Canister → Type 0
LiveBut id c = (i : ℕ) → (i == id) ≡ false → awaits i c ≡ true → has_pending i c ≡ true

pub record Sends (id : ℕ) (queue : List PendingCall) (c d : Canister) : Type 0 where
  pub senders : d.msg_reply_senders ≡ c.msg_reply_senders
  pub sent : d.sent ≡ c.sent
  pub stays : (i : ℕ) → has_pending i c ≡ true → has_pending i d ≡ true
  pub busy : not (is_empty queue) ≡ true → has_pending id d ≡ true

pub send_calls-Sends :
    (id : ℕ) (queue : List PendingCall) (counter : ℕ) (c : Canister)
    → Sends id queue c (send_calls id queue counter c).0
unfolding send_calls
send_calls-Sends id [] counter c = record {
  senders = refl;
  sent = refl;
  stays = λ i h. h;
  busy = λ h. cc;
}
send_calls-Sends id (p ∷ queue) counter c =
    let next = (new_request_id counter).1 in
    let s : List ℕ =
      add (new_request_id counter).0 (unwrap_or (find id c.pending_outgoing_requests) []) in
    let c1 = record c {
      pending_outgoing_requests = put id s c.pending_outgoing_requests;
      outgoing_calls = put (new_request_id counter).0 p.callbacks c.outgoing_calls;
    } in
    let h = send_calls-Sends id queue next c1 in
    record {
      senders = h.senders;
      sent = h.sent;
      stays = λ i w.
          h.stays i (let e = find-put i id s c.pending_outgoing_requests in ground (arith, e));
      busy = λ w.
          h.stays id (let e = find-put id id s c.pending_outgoing_requests in ground (arith, e));
    }

pub ended-Closed :
    (id : ℕ) (b : Canister) (e : Ended) (d : Canister)
    → b.request_id ≡ some id
    → AtEnd (Quiet b) e
    → (elim e as (λ e. Option Canister) [
      | completed c ↦ after_ok id c
      | trapped message c ↦ some (after_panic id message c)
      | crashed ↦ none
    ])
      ≡ some d
    → Closed id b d
ended-Closed id b (completed c) d now q h =
    Closed-from id c b d q.sent q.senders q.pending (after_ok-Closed id c (q.request ∙ now) d h)
ended-Closed id b (trapped message c) d now q h = Closed-from id c b d q.sent q.senders q.pending (
    subst (Closed id c) (let x : after_panic id message c ≡ d = cc in x)
      (after_panic-Closed id c (q.request ∙ now) message))
ended-Closed id b crashed d now q h = absurd (cc)

pub Verdict-awaits :
    (id : ℕ) (c d : Canister)
    → Verdict id c d
    → (i : ℕ) → (i == id) ≡ false
    → awaits i d ≡ true
    → awaits i c ≡ true
unfolding awaits
Verdict-awaits id c d (kept ks kw) i ne w = let e = ap (find i) kw in ground (arith, e)
Verdict-awaits id c d (answered channel r f ks kw) i ne w =
    let e = ap (find i) kw in let g = find-erase i id c.msg_reply_senders in ground (arith, e, g)

pub awaits-same :
    (i : ℕ) (c d : Canister)
    → c.msg_reply_senders ≡ d.msg_reply_senders
    → awaits i c ≡ true
    → awaits i d ≡ true
unfolding awaits
awaits-same i c d e w = let f = ap (find i) e in ground (arith, f)

pub begin-awaits :
    (id : ℕ) (env : Env) (channel : Option ℕ) (c : Canister) (i : ℕ)
    → (i == id) ≡ false
    → awaits i (begin id env channel c) ≡ true
    → awaits i c ≡ true
unfolding awaits begin
begin-awaits id env none c i ne w = w
begin-awaits id env (some ch) c i ne w =
    let g = find-put i id ch c.msg_reply_senders in ground (arith, g)

pub own :
    (id i : ℕ) (b d e : Canister)
    → Sends id d.call_queue (record d { call_queue = [] }) e
    → Closed id b d
    → awaits i d ≡ true
    → (i == id) ≡ true
    → has_pending i e ≡ true
own id i b d e s k w same =
    let q : i ≡ id = ground arith in
    let busy = k.busy (subst (λ j. awaits j d ≡ true) q w) in
    subst (λ j. has_pending j e ≡ true) (sym q)
      (elim (Bool-cases (has_pending id d)) [
        | inl p ↦ s.stays id p
        | inr np ↦ s.busy (ground arith)
      ])

-- What `settle` leaves as it was.
pub record Settled (id : ℕ) (c d : Canister) : Type 0 where
  pub senders : d.msg_reply_senders ≡ c.msg_reply_senders
  pub others : (i : ℕ) → (i == id) ≡ false → has_pending i d ≡ has_pending i c

shrunk :
    (id i : ℕ) (set : List ℕ) (pending : Dict (List ℕ))
    → (i == id) ≡ false
    → is_some (find i (elim set [ [] ↦ erase id pending | j ∷ js ↦ put id (j ∷ js) pending ]))
      ≡ is_some (find i pending)
shrunk id i [] pending ne = let g = find-erase i id pending in ground (arith, g)
shrunk id i (j ∷ js) pending ne = let g = find-put i id (j ∷ js) pending in ground (arith, g)

pub settle-Settled : (id reply_to : ℕ) (c : Canister) → Unless (Settled id c) (settle id reply_to c)
unfolding settle
settle-Settled id reply_to c =
    Unless-bind (λ set. Unit {0}) (Settled id c) (find id c.pending_outgoing_requests) _
      (anything _)
      λ set e u. record {
        senders = refl;
        others = λ i ne. shrunk id i (discard reply_to set) c.pending_outgoing_requests ne;
      }
