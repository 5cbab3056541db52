-- ===== src/Runtime/Canister/Answered.antt =====
-- Every request that canister.rs processes is answered on its channel, or waits for calls of its own.
use ic_kit.Base.{
  ℕ, ◌≡◌, refl, ap, ◌∙◌, true, false, Option, none, some, ◌>>=◌, List, [], ◌∷◌, ◌++◌, arith,
  Option-cases, ◌⊎◌, inl, inr, subst, Returns, Returns-imp,
}
use ic_kit.Dict.{find, find-put}
use ic_kit.Runtime.Types.{CanisterCall, Host, Env}
use ic_kit.Runtime.Call.{CallReply}
use ic_kit.Runtime.Canister.Task.{Task, Code}
use ic_kit.Runtime.Canister.State.{Canister, discard_call_queue}
use ic_kit.Runtime.Canister.Replies.{awaits}
use ic_kit.Runtime.Canister.Frame.{AtEnd, Quiet, discard_pending_call-Quiet, perform-Quiet}
use ic_kit.Runtime.Canister.Answers.{Closed, Verdict, kept, answered}
use ic_kit.Runtime.Canister.Take.{is_internal, entry_task, take_message, incoming, Job}
use ic_kit.Runtime.Canister.Message.{
  Ended, completed, trapped, crashed, flush, begin, reset, work, perform, process_message, answer,
  no_method, after_ok, after_panic,
}
use ic_kit.Runtime.Canister.Pending.{has_pending, Sends, send_calls-Sends, own}
use ic_kit.Runtime.Canister.Live.{work-Closed}

-- The task makes no system call in which the runtime itself panics.
abbrev pub Survives : Ended → Type 0
Survives crashed = ⊥
Survives _ = Unit

-- One reply was sent on the request's channel, or none was and requests of its own are pending.
-- `before` are the replies sent before it.
abbrev pub Answered : ℕ → ℕ → List (ℕ × CallReply) → Canister → Type 0
Answered id channel before d =
    ((r : CallReply) × (d.sent ≡ before ++ (channel, r) ∷ []))
    ⊎ ((d.sent ≡ before) × (has_pending id d ≡ true))

after_ok-Returns :
    (id channel : ℕ) (c : Canister)
    → find id c.msg_reply_senders ≡ some channel
    → Returns (λ d. Unit {0}) (after_ok id c)
unfolding after_ok
after_ok-Returns id channel c e = ground arith

ended-Returns :
    (id channel : ℕ) (b : Canister) (e : Ended)
    → find id b.msg_reply_senders ≡ some channel
    → AtEnd (Quiet b) e
    → Survives e
    → Returns
        (λ d. Unit {0})
        (elim e as (λ e. Option Canister) [
          | completed c ↦ after_ok id c
          | trapped message c ↦ some (after_panic id message c)
          | crashed ↦ none
        ])
ended-Returns id channel b (completed c) f q s =
    after_ok-Returns id channel c (ap (find id) q.senders ∙ f)
ended-Returns id channel b (trapped message c) f q s = tt
ended-Returns id channel b crashed f q s = absurd s

begin-find :
    (id channel : ℕ) (env : Env) (c : Canister)
    → find id (begin id env (some channel) c).msg_reply_senders ≡ some channel
unfolding begin
begin-find id channel env c =
    let g = find-put id id channel c.msg_reply_senders in ground (arith, g)

Closed-Answered :
    (id channel : ℕ) (b d e : Canister)
    → find id b.msg_reply_senders ≡ some channel
    → Closed id b d
    → Sends id d.call_queue (record d { call_queue = [] }) e
    → Verdict id b d
    → Answered id channel b.sent e
unfolding awaits
Closed-Answered id channel b d e f k s (kept ks kw) =
    let w : awaits id d ≡ true = let g = ap (find id) kw in ground arith in
    inr (s.sent ∙ ks, own id id b d e s k w (ground arith))
Closed-Answered id channel b d e f k s (answered channel' r g ks kw) =
    let same : channel' ≡ channel = ground arith in
    inl (r, s.sent ∙ subst (λ ch. d.sent ≡ b.sent ++ (ch, r) ∷ []) same ks)

module _ ⦃host : Host⦄ ⦃code : Code⦄ where
  reset-sent : (c : Canister) → (reset c).sent ≡ c.sent
  unfolding reset discard_call_queue
  reset-sent c = let q = discard_pending_call-Quiet c in q.sent

  work-Answered :
      (job : Job) (task : Task) (channel counter : ℕ)
      → Survives (perform task (begin job.id job.env (some channel) job.canister))
      → Returns
          (λ r. Answered job.id channel job.canister.sent r.0)
          (do c' ← work job task (some channel); some (flush job.id counter c'))
  unfolding work flush begin
  work-Answered job task channel counter s =
      let b = begin job.id job.env (some channel) job.canister in
      let f = begin-find job.id channel job.env job.canister in
      let total = ended-Returns job.id channel b (perform task b) f (perform-Quiet task b) s in
      elim (Option-cases (work job task (some channel))) [
        | inl e ↦ absurd (subst (Returns (λ d. Unit {0})) e total)
        | inr (d, e) ↦
            let k = work-Closed job task (some channel) d e in
            let sends =
              send_calls-Sends job.id d.call_queue counter (record d { call_queue = [] }) in
            rw e (Closed-Answered job.id channel b d (flush job.id counter d).0 f k sends k.verdict)
      ]

  job-Answered :
      (job : Job) (channel counter : ℕ) (task : Option Task)
      → ((t : Task)
          → task ≡ some t
          → Survives (perform t (begin job.id job.env (some channel) job.canister)))
      → Returns
          (λ (r : Canister × List CanisterCall × ℕ). Answered job.id channel job.canister.sent r.0)
          (elim task [
            | none ↦ some (answer channel (no_method job.env) job.canister, [], counter)
            | some task ↦ do c' ← work job task (some channel); some (flush job.id counter c')
          ])
  job-Answered job channel counter none s = inl (no_method job.env, refl)
  job-Answered job channel counter (some task) s =
      work-Answered job task channel counter (s task refl)

  -- A request that comes with a reply channel, from an entry mode of its own, and whose method makes no system
  -- call in which the runtime panics, is processed to the end: one reply was sent on its channel, or none was
  -- and calls made for it are pending.
  pub process_message-Answered :
      (id : ℕ) (env : Env) (channel counter : ℕ) (c : Canister)
      → is_internal env.entry_mode ≡ false
      → ((task : Task)
          → entry_task env (reset c) ≡ some task
          → Survives (perform task (begin id env (some channel) (reset c))))
      → Returns
          (λ r. Answered id channel c.sent r.0)
          (process_message (incoming id env) (some channel) counter c)
  unfolding process_message take_message
  process_message-Answered id env channel counter c m s =
      let job : Job = record {
        id = id;
        env = env;
        task = entry_task env (reset c);
        canister = reset c;
      } in
      rw m (
        Returns-imp
          (λ (r : Canister × List CanisterCall × ℕ). Answered id channel (reset c).sent r.0) _ _
          (job-Answered job channel counter (entry_task env (reset c)) s)
          λ r. subst (λ l. Answered id channel l r.0) (reset-sent c))
