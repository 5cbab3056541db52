-- ===== src/Runtime/Canister/Message.antt =====
-- `Canister::process_message` of ic-kit-runtime/src/canister.rs, and what it calls. `none` is a panic of
-- the runtime: a failed `assert!`, `unwrap` or `expect`.
use ic_kit.Base.{
  ℕ, Bool, true, false, not, ◌||◌, Option, none, some, ◌>>=◌, List, [], ◌∷◌, ◌++◌, if◌then◌else◌,
  unwrap_or,
}
use ic_kit.Certified.HashTree.{Bytes, as_bytes}
use ic_kit.Dict.{find, put, erase, add}
use ic_kit.Runtime.Types.{
  Host, Env, CanisterCall, destination_invalid, canister_error, new_request_id,
}
use ic_kit.Runtime.Call.{CallReply, reject}
use ic_kit.Runtime.Canister.Task.{Task, finish, panic, request, Code}
use ic_kit.Runtime.Canister.State.{
  Canister, PendingCall, add128, discard_pending_call, discard_call_queue,
}
use ic_kit.Runtime.Canister.Guard.{returned, failed, panicked}
use ic_kit.Runtime.Canister.System.{proxy}
use ic_kit.Runtime.Canister.Take.{CanisterMessage, Job, take_message}

-- How the execution thread ends a task: `Completion`, or not at all where the runtime panics.
pub data Ended : Type 0 where
  completed : Canister → Ended
  trapped : Bytes → Canister → Ended
  crashed : Ended

-- The loop of `perform`. A failed system call makes the thread panic.
unfoldable pub run : ⦃host : Host⦄ → Task → Canister → Ended
run finish c = completed c
run (panic message) c = trapped message c
run (request call k) c = elim (proxy call c) [
  | returned value c' ↦ run (k value) c'
  | failed message c' ↦ trapped (as_bytes "Canister trapped: " ++ message) c'
  | panicked ↦ crashed
]

-- `perform`: the call under construction is discarded however the task ended.
unfoldable pub perform : ⦃host : Host⦄ → Task → Canister → Ended
unfolding run discard_pending_call
perform task c = elim (run task c) [
  | completed c' ↦ completed (discard_pending_call c')
  | trapped message c' ↦ trapped message (discard_pending_call c')
  | crashed ↦ crashed
]

-- The reset at the start of a message.
unfoldable pub reset : Canister → Canister
unfolding discard_call_queue discard_pending_call
reset c = record (discard_call_queue (discard_pending_call c)) {
  request_id = none;
  cycles_accepted = 0;
}

-- `chan.send(reply)`
abbrev pub answer : ℕ → CallReply → Canister → Canister
answer channel r c = record c { sent = c.sent ++ (channel, r) ∷ [] }

-- `contains_key`
abbrev pub is_some : {A : Type 0} → Option A → Bool
is_some none = false
is_some (some _) = true

abbrev pub is_empty : {A : Type 0} → List A → Bool
is_empty [] = true
is_empty (_ ∷ _) = false

unfoldable pub maybe_final_reply : Option Bytes → ℕ → Canister → Canister
unfolding find erase
maybe_final_reply message cycles c = elim c.request_id [
  | none ↦ c
  | some id ↦
      if is_some (find id c.pending_outgoing_requests) || not (is_empty c.call_queue)
      then c
      else elim (find id c.msg_reply_senders) [
        | none ↦ c
        | some channel ↦
            answer channel
              (reject canister_error
                (unwrap_or message (as_bytes "Canister did not reply to the call")) cycles)
              (record c {
                msg_reply_senders = erase id c.msg_reply_senders;
                cycles_available_store = erase id c.cycles_available_store;
              })
      ]
]

-- The state in which the task of a message starts.
unfoldable pub begin : ℕ → Env → Option ℕ → Canister → Canister
unfolding find put add128
begin id env channel c =
    let available = unwrap_or (find id c.cycles_available_store) env.cycles_available in
    record c {
      request_id = some id;
      env = record env {
        cycles_available = available;
        balance = add128 env.balance env.cycles_refunded;
      };
      cycles_available_store = elim (find id c.cycles_available_store) [
        | none ↦ put id env.cycles_available c.cycles_available_store
        | some _ ↦ c.cycles_available_store
      ];
      msg_reply_senders = elim channel [
        | none ↦ c.msg_reply_senders
        | some ch ↦ put id ch c.msg_reply_senders
      ];
    }

-- `Completion::Panicked`, up to the final reply: no call goes out, and the cycles accepted are available again.
unfoldable pub roll_back : ℕ → Canister → Canister
unfolding discard_call_queue add128 put
roll_back id c =
    let d = discard_call_queue c in
    let available = add128 d.env.cycles_available d.cycles_accepted in
    record d {
      env = record (d.env) { cycles_available = available };
      cycles_accepted = 0;
      cycles_available_store = put id available d.cycles_available_store;
    }

unfoldable pub after_panic : ℕ → Bytes → Canister → Canister
unfolding roll_back maybe_final_reply
after_panic id message c =
    let d = roll_back id c in maybe_final_reply (some message) d.env.cycles_available d

-- `Completion::Ok`
unfoldable pub after_ok : ℕ → Canister → Option Canister
unfolding find erase maybe_final_reply
after_ok id c = elim c.msg_reply [
  | none ↦ some (maybe_final_reply none c.env.cycles_available c)
  | some r ↦ elim (find id c.msg_reply_senders) [
    | none ↦ none
    | some channel ↦
        let d =
          answer channel r
            (record c { msg_reply = none; msg_reply_senders = erase id c.msg_reply_senders }) in
        some (maybe_final_reply none d.env.cycles_available d)
  ]
]

-- The loop over the queue of calls, with the counter of requests.
unfoldable pub send_calls : ℕ → List PendingCall → ℕ → Canister → Canister × List CanisterCall × ℕ
unfolding find put add new_request_id
send_calls id [] counter c = (c, [], counter)
send_calls id (p ∷ queue) counter c =
    let (request_id, next) = new_request_id counter in
    let pending = unwrap_or (find id c.pending_outgoing_requests) [] in
    let r = send_calls id queue next (record c {
      pending_outgoing_requests = put id (add request_id pending) c.pending_outgoing_requests;
      outgoing_calls = put request_id p.callbacks c.outgoing_calls;
    }) in
    (
      r.0,
      record {
        sender = c.canister_id;
        request_id = request_id;
        callee = p.callee;
        method = p.method;
        payment = p.payment;
        arg = p.arg;
      }
          ∷ r.1,
      r.2,
    )

-- The end of `process_message`: the calls are taken from the queue.
unfoldable pub flush : ℕ → ℕ → Canister → Canister × List CanisterCall × ℕ
unfolding send_calls
flush id counter c = send_calls id c.call_queue counter (record c { call_queue = [] })

-- The message of the rejection where there is no such method.
unfoldable pub no_method : Env → CallReply
no_method env =
    reject destination_invalid
      (as_bytes "Canister does not have a '"
        ++ (unwrap_or env.method_name [] ++ as_bytes "' method."))
      env.cycles_available

module _ ⦃host : Host⦄ ⦃code : Code⦄ where
  -- A job whose task is known.
  unfoldable pub work : Job → Task → Option ℕ → Option Canister
  unfolding perform begin after_ok after_panic
  work job task channel = elim (perform task (begin job.id job.env channel job.canister)) [
    | completed c ↦ after_ok job.id c
    | trapped message c ↦ some (after_panic job.id message c)
    | crashed ↦ none
  ]

  -- The canister, the calls to be sent and the counter of requests. The reply channel is a number.
  unfoldable pub process_message :
      CanisterMessage → Option ℕ → ℕ → Canister → Option (Canister × List CanisterCall × ℕ)
  unfolding reset take_message work flush no_method
  process_message message channel counter c = do
    job ← take_message message (is_some channel) (reset c)
    elim job.task [
      | none ↦ elim channel [
        | none ↦ none
        | some ch ↦ some (answer ch (no_method job.env) job.canister, [], counter)
      ]
      | some task ↦ do c' ← work job task channel; some (flush job.id counter c')
    ]
