-- ===== src/Runtime/Canister/Tracked.antt =====
-- The tables of canister.rs that follow the calls agree from message to message.
use ic_kit.Base.{
  ℕ, ◌+◌, ◌^◌, ◌<◌, ◌≡◌, sym, ◌∙◌, Bool, true, false, Option, none, some, ◌>>=◌, List, [], arith,
  subst, length,
}
use ic_kit.Certified.HashTree.{Bytes}
use ic_kit.Dict.{find, erase}
use ic_kit.Runtime.Types.{CanisterCall, Host, Env}
use ic_kit.Runtime.Canister.Task.{Task, Code}
use ic_kit.Runtime.Canister.State.{
  Canister, RequestCallbacks, discard_call_queue, discard_pending_call,
}
use ic_kit.Runtime.Canister.Frame.{AtEnd, Quiet, perform-Quiet}
use ic_kit.Runtime.Canister.Owner.{AllCarry, IsOwned, perform-IsOwned}
use ic_kit.Runtime.Canister.Track.{IsTracked, settled-IsTracked, send_calls-IsTracked, drop}
use ic_kit.Runtime.Canister.Take.{
  settle, take_message, CanisterMessage, custom, incoming, response, Job, is_callback,
  callback_task, chosen,
}
use ic_kit.Runtime.Canister.Message.{
  is_some, flush, begin, reset, work, perform, completed, trapped, crashed, Ended, after_ok,
  after_panic, process_message, answer, no_method, maybe_final_reply, roll_back,
}
use ic_kit.Runtime.Canister.Pending.{Unless, Unless-bind, anything}

-- The tables of a canister agree.
abbrev pub Tracks : ℕ → Canister → Type 0
Tracks counter c = IsTracked counter c.pending_outgoing_requests c.outgoing_calls

-- So they do, and no call is left over.
record IsFresh (counter : ℕ) (c : Canister) : Type 0 where
  tracks : Tracks counter c
  call : c.pending_call ≡ none
  queue : c.call_queue ≡ []

-- The tables stand as they did, and the queue's calls carry the number.
record IsKept (id : ℕ) (c d : Canister) : Type 0 where
  pending : d.pending_outgoing_requests ≡ c.pending_outgoing_requests
  calls : d.outgoing_calls ≡ c.outgoing_calls
  queue : AllCarry id d.call_queue

maybe_final_reply-IsKept :
    (message : Option Bytes) (cycles id : ℕ) (c : Canister)
    → AllCarry id c.call_queue
    → IsKept id c (maybe_final_reply message cycles c)
unfolding maybe_final_reply
maybe_final_reply-IsKept message cycles id c h = ground arith

after_panic-IsKept :
    (id : ℕ) (message : Bytes) (c : Canister) → IsKept id c (after_panic id message c)
unfolding after_panic roll_back discard_call_queue
after_panic-IsKept id message c =
    let k =
      maybe_final_reply-IsKept (some message) (roll_back id c).env.cycles_available id
        (roll_back id c) tt in
    record { pending = k.pending; calls = k.calls; queue = k.queue }

after_ok-IsKept :
    (id : ℕ) (c d : Canister) → AllCarry id c.call_queue → after_ok id c ≡ some d → IsKept id c d
unfolding after_ok maybe_final_reply
after_ok-IsKept id c d h e = ground arith

ended-IsKept :
    (id : ℕ) (b : Canister) (e : Ended) (d : Canister)
    → IsOwned id b
    → AtEnd (Quiet b) e
    → AtEnd (λ c. (i : ℕ) → IsOwned i b → IsOwned i c) e
    → (elim e as (λ e. Option Canister) [
      | completed c ↦ after_ok id c
      | trapped message c ↦ some (after_panic id message c)
      | crashed ↦ none
    ])
      ≡ some d
    → IsKept id b d
ended-IsKept id b (completed c) d o q p h =
    let own = p id o in
    let k = after_ok-IsKept id c d own.queue h in
    record { pending = k.pending ∙ q.pending; calls = k.calls ∙ q.calls; queue = k.queue }
ended-IsKept id b (trapped message c) d o q p h =
    let k : IsKept id c d =
      subst (IsKept id c) (let x : after_panic id message c ≡ d = cc in x)
        (after_panic-IsKept id message c) in
    record { pending = k.pending ∙ q.pending; calls = k.calls ∙ q.calls; queue = k.queue }
ended-IsKept id b crashed d o q p h = absurd (cc)

settle-IsFresh :
    (counter reply_to : ℕ) (callbacks : RequestCallbacks) (c : Canister)
    → IsFresh counter c
    → find reply_to c.outgoing_calls ≡ some callbacks
    → Unless (IsFresh counter) (
        settle callbacks.message_id reply_to
          (record c { outgoing_calls = erase reply_to c.outgoing_calls }))
unfolding settle drop
settle-IsFresh counter reply_to callbacks c f e =
    Unless-bind (λ set. Unit {0}) (IsFresh counter)
      (find callbacks.message_id c.pending_outgoing_requests) _ (anything _)
      λ set g u. record {
        tracks =
            settled-IsTracked counter reply_to c.pending_outgoing_requests c.outgoing_calls
              callbacks set f.tracks e g;
        call = f.call;
        queue = f.queue;
      }

module _ ⦃host : Host⦄ ⦃code : Code⦄ where
  response-IsFresh :
      (counter reply_to : ℕ) (env : Env) (c : Canister) (callbacks : RequestCallbacks) (b : Bool)
      → IsFresh counter c
      → find reply_to c.outgoing_calls ≡ some callbacks
      → Unless
          (λ job. IsFresh counter job.canister)
          (elim b as (λ b. Option Job) [
            | false ↦ none
            | true ↦ do
              c' ←
                  settle callbacks.message_id reply_to
                    (record c { outgoing_calls = erase reply_to c.outgoing_calls })
              some (record {
                id = callbacks.message_id;
                env = env;
                task = some (callback_task (chosen env.entry_mode callbacks));
                canister = c';
              })
          ])
  response-IsFresh counter reply_to env c callbacks false f e = tt
  response-IsFresh counter reply_to env c callbacks true f e =
      Unless-bind (IsFresh counter) (λ job. IsFresh counter job.canister)
        (settle callbacks.message_id reply_to _) _ (settle-IsFresh counter reply_to callbacks c f e)
        λ d g h. h

  take_message-IsFresh :
      (counter : ℕ) (message : CanisterMessage) (asked : Bool) (c : Canister)
      → IsFresh counter c
      → Unless (λ job. IsFresh counter job.canister) (take_message message asked c)
  unfolding take_message settle
  take_message-IsFresh counter (custom id env task) asked c f = ground arith
  take_message-IsFresh counter (incoming id env) asked c f = ground arith
  take_message-IsFresh counter (response reply_to env) asked c f =
      Unless-bind (λ callbacks. Unit {0}) (λ job. IsFresh counter job.canister)
        (find reply_to c.outgoing_calls) _ (anything _)
        λ callbacks e u.
          response-IsFresh counter reply_to env c callbacks (is_callback env.entry_mode) f e

  reset-IsFresh : (counter : ℕ) (c : Canister) → Tracks counter c → IsFresh counter (reset c)
  unfolding reset discard_call_queue discard_pending_call
  reset-IsFresh counter c t = ground arith

  begin-IsOwned :
      (counter id : ℕ) (env : Env) (channel : Option ℕ) (c : Canister)
      → IsFresh counter c
      → IsOwned id (begin id env channel c)
  unfolding begin
  begin-IsOwned counter id env channel c f = let p = f.call in let q = f.queue in ground arith

  work-IsKept :
      (counter : ℕ) (job : Job) (task : Task) (channel : Option ℕ) (d : Canister)
      → IsFresh counter job.canister
      → work job task channel ≡ some d
      → IsKept job.id job.canister d
  unfolding work begin
  work-IsKept counter job task channel d f h =
      let b = begin job.id job.env channel job.canister in
      let k =
        ended-IsKept job.id b (perform task b) d
          (begin-IsOwned counter job.id job.env channel job.canister f) (perform-Quiet task b)
          (perform-IsOwned task b) h in
      record { pending = k.pending; calls = k.calls; queue = k.queue }

  job-Tracks :
      (counter : ℕ) (job : Job) (channel : Option ℕ)
      → IsFresh counter job.canister
      → (task : Option Task)
      → Unless
          (λ (r : Canister × List CanisterCall × ℕ). counter + length r.1 < 2 ^ 64 → Tracks r.2 r.0)
          (elim task as (λ t. Option (Canister × List CanisterCall × ℕ)) [
            | none ↦ elim channel [
              | none ↦ none
              | some ch ↦ some (answer ch (no_method job.env) job.canister, [], counter)
            ]
            | some task ↦ do c' ← work job task channel; some (flush job.id counter c')
          ])
  unfolding flush
  job-Tracks counter job none f none = tt
  job-Tracks counter job (some ch) f none = λ h. f.tracks
  job-Tracks counter job channel f (some task) =
      Unless-bind (λ d. Unit {0}) (λ r. counter + length r.1 < 2 ^ 64 → Tracks r.2 r.0)
        (work job task channel) _ (anything _)
        λ d e u h.
          let k = work-IsKept counter job task channel d f e in
          let t : Tracks counter d =
            subst (λ p. IsTracked counter p d.outgoing_calls) (sym k.pending)
              (subst (IsTracked counter job.canister.pending_outgoing_requests) (sym k.calls)
                f.tracks) in
          send_calls-IsTracked job.id d.call_queue counter (record d { call_queue = [] }) k.queue h
            t

  -- Where the request numbers do not wrap, processing a message, unless the runtime panics, keeps the two
  -- tables of outgoing requests in agreement: a request is pending for a message just if its callbacks are of
  -- that message, no message has an empty set of pending requests, and the numbers in use are below the
  -- counter.
  pub process_message-Tracks :
      (message : CanisterMessage) (channel : Option ℕ) (counter : ℕ) (c : Canister)
      → Tracks counter c
      → Unless
          (λ r. counter + length r.1 < 2 ^ 64 → Tracks r.2 r.0)
          (process_message message channel counter c)
  unfolding process_message
  process_message-Tracks message channel counter c t =
      Unless-bind (λ job. IsFresh counter job.canister)
        (λ r. counter + length r.1 < 2 ^ 64 → Tracks r.2 r.0)
        (take_message message (is_some channel) (reset c)) _
        (take_message-IsFresh counter message (is_some channel) (reset c)
          (reset-IsFresh counter c t))
        λ job e f. job-Tracks counter job channel f job.task
