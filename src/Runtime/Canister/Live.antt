-- ===== src/Runtime/Canister/Live.antt =====
-- No message of canister.rs is forgotten: one that is not answered has requests pending.
use ic_kit.Base.{
  ℕ, ◌≡◌, refl, ap, ◌∙◌, Bool, true, false, Option, none, some, ◌>>=◌, List, [], arith, ◌==◌,
  Bool-cases, inl, inr,
}
use ic_kit.Dict.{find, erase}
use ic_kit.Runtime.Types.{CanisterCall, Host, Env}
use ic_kit.Runtime.Canister.Task.{Task, Code}
use ic_kit.Runtime.Canister.State.{Canister, RequestCallbacks, discard_call_queue}
use ic_kit.Runtime.Canister.Replies.{awaits}
use ic_kit.Runtime.Canister.Frame.{discard_pending_call-Quiet, perform-Quiet}
use ic_kit.Runtime.Canister.Answers.{Closed}
use ic_kit.Runtime.Canister.Take.{
  settle, take_message, CanisterMessage, custom, incoming, response, Job, is_callback,
  callback_task, chosen,
}
use ic_kit.Runtime.Canister.Message.{
  is_some, flush, begin, reset, work, perform, process_message, answer, no_method,
}
use ic_kit.Runtime.Canister.Pending.{
  Unless, Unless-bind, anything, IsLive, LiveBut, send_calls-Sends, ended-Closed, Verdict-awaits,
  awaits-same, begin-awaits, own, Settled, settle-Settled,
}

module _ ⦃host : Host⦄ ⦃code : Code⦄ where
  -- A message whose task is worked off gets at most one reply, on its own channel, and no other channel is
  -- touched; without an answer it has requests pending or calls about to be sent.
  pub work-Closed :
      (job : Job) (task : Task) (channel : Option ℕ) (d : Canister)
      → work job task channel ≡ some d
      → Closed job.id (begin job.id job.env channel job.canister) d
  unfolding work begin
  work-Closed job task channel d h =
      ended-Closed job.id _ (perform task (begin job.id job.env channel job.canister)) d refl
        (perform-Quiet task _) h

  flush-IsLive :
      (job : Job) (task : Task) (channel : Option ℕ) (counter : ℕ) (d : Canister)
      → LiveBut job.id job.canister
      → work job task channel ≡ some d
      → IsLive (flush job.id counter d).0
  unfolding flush begin
  flush-IsLive job task channel counter d live h i w =
      let k = work-Closed job task channel d h in
      let s = send_calls-Sends job.id d.call_queue counter (record d { call_queue = [] }) in
      let w' : awaits i d ≡ true = awaits-same i (flush job.id counter d).0 d s.senders w in
      elim (Bool-cases (i == job.id)) [
        | inl e ↦ own job.id i _ d (flush job.id counter d).0 s k w' e
        | inr ne ↦
            let v = Verdict-awaits job.id _ d k.verdict i ne w' in
            let u = live i ne (begin-awaits job.id job.env channel job.canister i ne v) in
            s.stays i (ap is_some (ap (find i) k.pending) ∙ u)
      ]

  record Ready (job : Job) : Type 0 where
    live : LiveBut job.id job.canister
    lone : job.task ≡ none → IsLive job.canister

  response-Ready :
      (reply_to : ℕ) (env : Env) (c : Canister)
      → IsLive c
      → (callbacks : RequestCallbacks) (b : Bool)
      → Unless Ready (elim b [
        | false ↦ none
        | true ↦ do
          c' ←
              settle callbacks.message_id reply_to
                (record c { outgoing_calls = erase reply_to c.outgoing_calls })
          some (record {
            id = callbacks.message_id;
            env = env;
            task = some (callback_task (chosen env.entry_mode callbacks));
            canister = c';
          })
      ])
  response-Ready reply_to env c h callbacks false = tt
  response-Ready reply_to env c h callbacks true =
      Unless-bind (Settled callbacks.message_id _) Ready (settle callbacks.message_id reply_to _) _
        (settle-Settled callbacks.message_id reply_to _)
        λ d e s. record {
          live = λ i ne w. s.others i ne ∙ h i (awaits-same i d c s.senders w);
          lone = λ none_task. absurd (cc);
        }

  take_message-Ready :
      (message : CanisterMessage) (asked : Bool) (c : Canister)
      → IsLive c
      → Unless Ready (take_message message asked c)
  unfolding take_message settle
  take_message-Ready (custom id env task) asked c h =
      let r = λ (i : ℕ) (ne : (i == id) ≡ false). h i in ground arith
  take_message-Ready (incoming id env) asked c h = ground arith
  take_message-Ready (response reply_to env) asked c h =
      Unless-bind (λ callbacks. Unit {0}) Ready (find reply_to c.outgoing_calls) _ (anything _)
        λ callbacks e u. response-Ready reply_to env c h callbacks (is_callback env.entry_mode)

  reset-IsLive : (c : Canister) → IsLive c → IsLive (reset c)
  unfolding reset discard_call_queue
  reset-IsLive c h i w =
      let q = discard_pending_call-Quiet c in
      ap is_some (ap (find i) q.pending) ∙ h i (awaits-same i (reset c) c q.senders w)

  job-IsLive :
      (job : Job) (channel : Option ℕ) (counter : ℕ)
      → Ready job
      → (task : Option Task) → job.task ≡ task
      → Unless
          (λ (r : Canister × List CanisterCall × ℕ). IsLive r.0)
          (elim task [
            | none ↦ elim channel [
              | none ↦ none
              | some ch ↦ some (answer ch (no_method job.env) job.canister, [], counter)
            ]
            | some task ↦ do c' ← work job task channel; some (flush job.id counter c')
          ])
  job-IsLive job none counter ready none e = tt
  job-IsLive job (some ch) counter ready none e = λ i w.
      ready.lone e i
        (awaits-same i (answer ch (no_method job.env) job.canister) job.canister refl w)
  job-IsLive job channel counter ready (some task) e =
      Unless-bind (λ d. Unit {0}) (λ r. IsLive r.0) (work job task channel) _ (anything _)
        λ d h u. flush-IsLive job task channel counter d ready.live h

  -- Processing a message keeps it so that every message without an answer has requests pending.
  pub process_message-IsLive :
      (message : CanisterMessage) (channel : Option ℕ) (counter : ℕ) (c : Canister)
      → IsLive c
      → Unless (λ r. IsLive r.0) (process_message message channel counter c)
  unfolding process_message
  process_message-IsLive message channel counter c h =
      Unless-bind Ready (λ r. IsLive r.0) (take_message message (is_some channel) (reset c)) _
        (take_message-Ready message (is_some channel) (reset c) (reset-IsLive c h))
        λ job e ready. job-IsLive job channel counter ready job.task refl
