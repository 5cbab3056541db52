-- ===== src/Runtime/Canister/Resumed.antt =====
-- A reply to a call that canister.rs has made is processed to the end.
use ic_kit.Base.{
  ℕ, ◌≡◌, refl, sym, ap, ◌∙◌, true, false, Option, none, some, ◌>>=◌, List, [], arith, Option-cases,
  inl, inr, subst, Returns, Returns-imp,
}
use ic_kit.Dict.{find}
use ic_kit.Runtime.Types.{CanisterCall, Host, Env}
use ic_kit.Runtime.Canister.Task.{Task, Code}
use ic_kit.Runtime.Canister.State.{
  Canister, RequestCallbacks, discard_call_queue, discard_pending_call,
}
use ic_kit.Runtime.Canister.Replies.{awaits}
use ic_kit.Runtime.Canister.Frame.{AtEnd}
use ic_kit.Runtime.Canister.ReplyOnce.{MayAnswer, perform-MayAnswer}
use ic_kit.Runtime.Canister.Take.{
  settle, take_message, response, Job, is_callback, callback_task, chosen,
}
use ic_kit.Runtime.Canister.Message.{
  is_some, flush, begin, reset, work, perform, completed, trapped, crashed, Ended, after_ok,
  after_panic, process_message,
}
use ic_kit.Runtime.Canister.Pending.{has_pending, send_calls-Sends, own}
use ic_kit.Runtime.Canister.Live.{work-Closed}
use ic_kit.Runtime.Canister.Answered.{Survives}
use ic_kit.Runtime.Canister.Track.{IsTracked}
use ic_kit.Runtime.Canister.Tracked.{Tracks}

-- A message that still waits for its answer has requests pending.
abbrev pub Waits : ℕ → Canister → Type 0
Waits id c = awaits id c ≡ true → has_pending id c ≡ true

after_ok-MayAnswer :
    (id : ℕ) (c : Canister) → MayAnswer id c → Returns (λ d. Unit {0}) (after_ok id c)
unfolding after_ok awaits
after_ok-MayAnswer id c m = let r = m.reply in ground arith

ended-MayAnswer :
    (id : ℕ) (b : Canister) (e : Ended)
    → MayAnswer id b
    → AtEnd (λ c. (i : ℕ) → MayAnswer i b → MayAnswer i c) e
    → Survives e
    → Returns
        (λ d. Unit {0})
        (elim e as (λ e. Option Canister) [
          | completed c ↦ after_ok id c
          | trapped message c ↦ some (after_panic id message c)
          | crashed ↦ none
        ])
ended-MayAnswer id b (completed c) m p s = after_ok-MayAnswer id c (p id m)
ended-MayAnswer id b (trapped message c) m p s = tt
ended-MayAnswer id b crashed m p s = absurd s

-- Where a request's callbacks are there, the set that it is pending in is there as well.
set_of :
    (counter reply_to : ℕ) (callbacks : RequestCallbacks) (c : Canister)
    → Tracks counter c
    → find reply_to c.outgoing_calls ≡ some callbacks
    → is_some (find callbacks.message_id c.pending_outgoing_requests) ≡ true
set_of counter reply_to callbacks c t e =
    let a = t.agree callbacks.message_id reply_to in ground (arith, a)

module _ ⦃host : Host⦄ ⦃code : Code⦄ where
  begin-MayAnswer :
      (id : ℕ) (env : Env) (c : Canister) → c.msg_reply ≡ none → MayAnswer id (begin id env none c)
  unfolding begin
  begin-MayAnswer id env c e = ground arith

  work-Waits :
      (job : Job) (task : Task) (counter : ℕ)
      → job.canister.msg_reply ≡ none
      → Survives (perform task (begin job.id job.env none job.canister))
      → Returns
          (λ (r : Canister × List CanisterCall × ℕ). Waits job.id r.0)
          (do c' ← work job task none; some (flush job.id counter c'))
  unfolding work flush awaits
  work-Waits job task counter e s =
      let b = begin job.id job.env none job.canister in
      let total =
        ended-MayAnswer job.id b (perform task b) (begin-MayAnswer job.id job.env job.canister e)
          (perform-MayAnswer task b) s in
      elim (Option-cases (work job task none)) [
        | inl f ↦ absurd (subst (Returns (λ d. Unit {0})) f total)
        | inr (d, f) ↦
            let k = work-Closed job task none d f in
            let sends =
              send_calls-Sends job.id d.call_queue counter (record d { call_queue = [] }) in
            rw f (λ w.
              own job.id job.id b d (flush job.id counter d).0 sends k
                (let g = ap (find job.id) sends.senders in ground arith) (ground arith))
      ]

  -- What becomes of the reply to a request with these callbacks.
  record Picked (callbacks : RequestCallbacks) (env : Env) (job : Job) : Type 0 where
    id : job.id ≡ callbacks.message_id
    env_same : job.env ≡ env
    task : job.task ≡ some (callback_task (chosen env.entry_mode callbacks))
    reply : job.canister.msg_reply ≡ none

  take_message-Picked :
      (counter reply_to : ℕ) (env : Env) (callbacks : RequestCallbacks) (c : Canister)
      → Tracks counter c
      → c.msg_reply ≡ none
      → find reply_to c.outgoing_calls ≡ some callbacks
      → is_callback env.entry_mode ≡ true
      → Returns (Picked callbacks env) (take_message (response reply_to env) false c)
  unfolding take_message settle
  take_message-Picked counter reply_to env callbacks c t n e m =
      let s = set_of counter reply_to callbacks c t e in
      elim (Option-cases (find callbacks.message_id c.pending_outgoing_requests)) [
        | inl f ↦ absurd (ground arith)
        | inr (set, f) ↦
            rw (e, m, f) (record { id = refl; env_same = refl; task = refl; reply = n })
      ]

  reset-same :
      (c : Canister)
      → ((reset c).msg_reply ≡ c.msg_reply)
        × ((reset c).outgoing_calls ≡ c.outgoing_calls)
        × ((reset c).pending_outgoing_requests ≡ c.pending_outgoing_requests)
  unfolding reset discard_call_queue discard_pending_call
  reset-same c = ground arith

  -- Where the tables agree and no reply is left over, the reply to a request that the canister has made, in a
  -- callback mode and with a callback that makes no system call in which the runtime panics, is processed to
  -- the end: the message that made the request is answered by then, or has requests pending.
  pub process_message-Waits :
      (counter reply_to : ℕ) (env : Env) (callbacks : RequestCallbacks) (c : Canister)
      → Tracks counter c
      → c.msg_reply ≡ none
      → find reply_to c.outgoing_calls ≡ some callbacks
      → is_callback env.entry_mode ≡ true
      → ((job : Job) (task : Task)
          → take_message (response reply_to env) false (reset c) ≡ some job
          → job.task ≡ some task
          → Survives (perform task (begin job.id job.env none job.canister)))
      → Returns
          (λ r. Waits callbacks.message_id r.0)
          (process_message (response reply_to env) none counter c)
  unfolding process_message
  process_message-Waits counter reply_to env callbacks c t n e m s =
      let q = reset-same c in
      let t' : Tracks counter (reset c) =
        subst (λ p. IsTracked counter p (reset c).outgoing_calls) (sym q.2)
          (subst (IsTracked counter c.pending_outgoing_requests) (sym q.1) t) in
      let picked =
        take_message-Picked counter reply_to env callbacks (reset c) t' (q.0 ∙ n)
          (ap (find reply_to) q.1 ∙ e) m in
      elim (Option-cases (take_message (response reply_to env) false (reset c))) [
        | inl f ↦ absurd (subst (Returns (Picked callbacks env)) f picked)
        | inr (job, f) ↦
            let p : Picked callbacks env job = subst (Returns (Picked callbacks env)) f picked in
            rw (f, p.task)
              (Returns-imp (λ (r : Canister × List CanisterCall × ℕ). Waits job.id r.0) _ _
                (work-Waits job _ counter p.reply (s job _ f p.task))
                λ r. subst (λ i. Waits i r.0) p.id)
      ]
