-- ===== src/Tests/Messages.antt =====
-- Messages at a canister of the runtime: runs of `process_message`, and the theorems at small canisters.
use ic_kit.Base.{
  ap, unwrap_or, Returns, subst, ℕ, ◌≡◌, refl, arith, true, List, [], ◌∷◌, Option, some, none,
}
use ic_kit.Certified.HashTree.{as_bytes}
use ic_kit.Dict.{put, find, erase}
use ic_kit.Runtime.Types.{
  Host, Env, default_env, update, CanisterCall, get_entry_point_name, get_possible_entry_point_name,
}
use ic_kit.Runtime.Call.{CallReply, reply}
use ic_kit.Runtime.Canister.Task.{SysCall, Task, finish, panic, request, Code}
use ic_kit.Runtime.Canister.State.{
  extend, Canister, PendingCall, new_canister, add128, refund_all, discard_pending_call,
  discard_call_queue,
}
use ic_kit.Runtime.Canister.Guard.{may_reply, may_call}
use ic_kit.Runtime.Canister.Replies.{awaits, is_replied, msg_reply, msg_reply_data_append}
use ic_kit.Runtime.Canister.Calls.{call_new, start_call, call_cycles_add, call_perform, add_cycles}
use ic_kit.Runtime.Canister.System.{proxy}
use ic_kit.Runtime.Canister.Take.{
  custom, incoming, Job, take_message, is_callback, is_internal, entry_task, symbol, same_bytes,
}
use ic_kit.Runtime.Canister.Message.{
  begin, run, perform, work, after_panic, after_ok, process_message, reset, maybe_final_reply,
  flush, send_calls,
}
use ic_kit.Runtime.Canister.Frame.{AtEnd}
use ic_kit.Runtime.Canister.Answers.{Closed}
use ic_kit.Runtime.Canister.Pending.{Unless, IsLive}
use ic_kit.Runtime.Canister.Live.{work-Closed, process_message-IsLive}
use ic_kit.Runtime.Canister.Answered.{Answered, Survives, process_message-Answered}
use ic_kit.Runtime.Canister.Refund.{Balanced, perform-Balanced, after_panic-restores}
use ic_kit.Runtime.Canister.Permissions.{Permitted, proxy-Permitted}
use ic_kit.Runtime.Canister.Faults.{Leaks, after_panic-Leaks}
use ic_kit.Runtime.Canister.Silent.{silent_finish}

instance abbrev pub toy_host : Host
toy_host = record {
  anonymous = 4 ∷ [];
  from_slice = λ bs. bs;
  to_text = λ bs. bs;
  from_utf8_lossy = λ bs. bs;
  now = 0;
}

-- Replies with the byte 42.
abbrev pub ping : Task
ping = request (SysCall.msg_reply_data_append (42 ∷ [])) λ _. request SysCall.msg_reply λ _. finish

-- Makes a call with 100 cycles and then panics.
abbrev spend : Task
spend = request (SysCall.call_new (1 ∷ []) (as_bytes "ping") 0 0 0 0) λ _.
    request (SysCall.call_cycles_add 100)
      λ _. request SysCall.call_perform λ _. panic (as_bytes "no")

-- Every callback replies.
instance abbrev pub toy_code : Code
toy_code = record { function = λ fun env. ping }

abbrev pub home : Canister
unfolding new_canister
home = record (new_canister (5 ∷ [])) {
  symbol_table = (as_bytes "canister_update ping", ping) ∷ [];
}

abbrev pub call_env : Env
unfolding default_env
call_env = record (default_env toy_host) {
  entry_mode = update;
  method_name = some (as_bytes "ping");
  cycles_available = 30;
}

-- The canister at work on request 7, whose reply channel is 9.
abbrev at_work : Canister
unfolding begin
at_work = begin 7 call_env (some 9) home

-- The replies sent by a run.
answers : Option (Canister × List CanisterCall × ℕ) → Option (List (ℕ × CallReply))
answers none = none
answers (some r) = some r.0.sent

ping_replies :
    answers (process_message (incoming 7 call_env) (some 9) 8 home)
    ≡ some ((9, reply (42 ∷ []) 30) ∷ [])
unfolding answers process_message reset discard_pending_call discard_call_queue refund_all
    take_message is_callback is_internal entry_task get_entry_point_name symbol same_bytes work
    begin put find erase add128 perform run proxy msg_reply_data_append may_reply awaits msg_reply
    is_replied after_ok maybe_final_reply flush send_calls call_env home
ping_replies = refl

-- The job of request 7, and where its task leads.
abbrev ping_job : Job
ping_job = record { id = 7; env = call_env; task = some ping; canister = home }

replied : Canister
unfolding at_work home
replied = record at_work {
  sent = (9, reply (42 ∷ []) 30) ∷ [];
  msg_reply_senders = [];
  env = record (at_work.env) { cycles_available = 0 };
}

work-Closed_example : Closed 7 at_work replied
unfolding replied at_work call_env home work perform run proxy msg_reply_data_append may_reply
    awaits msg_reply is_replied discard_pending_call after_ok maybe_final_reply find erase put begin
    add128
work-Closed_example = work-Closed ping_job ping (some 9) replied refl

process_message-Answered_example :
    Returns (λ r. Answered 7 9 [] r.0) (process_message (incoming 7 call_env) (some 9) 8 home)
unfolding call_env home reset discard_pending_call discard_call_queue refund_all is_internal
    entry_task get_entry_point_name get_possible_entry_point_name symbol same_bytes perform run
    proxy msg_reply_data_append may_reply awaits msg_reply is_replied begin find put erase add128
process_message-Answered_example = process_message-Answered 7 call_env 9 8 home refl λ task e.
    subst (λ t. Survives (perform t (begin 7 call_env (some 9) (reset home))))
      (ap (λ o. unwrap_or o finish) e) tt

process_message-IsLive_example :
    Unless (λ r. IsLive r.0) (process_message (incoming 7 call_env) (some 9) 8 home)
unfolding home awaits find
process_message-IsLive_example =
    process_message-IsLive (incoming 7 call_env) (some 9) 8 home λ i w. absurd (cc)

perform-Balanced_example : AtEnd (Balanced at_work) (perform spend at_work)
unfolding at_work call_env home begin add128 find put erase
perform-Balanced_example = perform-Balanced spend at_work refl refl (omega arith) (omega arith)

-- What `spend` leaves behind.
abbrev spent : Canister
unfolding at_work
spent = record at_work {
  env = record (at_work.env) { balance = 99999999999888 };
  call_queue =
      record {
        callee = 1 ∷ [];
        method = as_bytes "ping";
        callbacks = record { message_id = 7; reply = (0, 0); reject = (0, 0); cleanup = none };
        payment = 100;
        arg = [];
      }
      ∷ [];
}

after_panic-restores_example :
    ((after_panic 7 (as_bytes "no") spent).env.balance ≡ at_work.env.balance)
    × ((after_panic 7 (as_bytes "no") spent).call_queue ≡ [])
unfolding spent at_work call_env home begin add128 find put erase perform run proxy call_new
    may_call discard_pending_call start_call call_cycles_add add_cycles extend call_perform
after_panic-restores_example =
    after_panic-restores 7 spend (as_bytes "no") at_work spent refl refl (omega arith) (omega arith)
      refl

proxy-Permitted_example : Permitted SysCall.msg_reply at_work (proxy SysCall.msg_reply at_work)
unfolding at_work call_env home begin may_call
proxy-Permitted_example = proxy-Permitted SysCall.msg_reply at_work λ h. refl

abbrev pending : PendingCall
pending = record {
  callee = 1 ∷ [];
  method = as_bytes "ping";
  callbacks = record { message_id = 7; reply = (0, 0); reject = (0, 0); cleanup = none };
  payment = 100;
  arg = [];
}

abbrev calling : Canister
calling = record home { pending_call = some pending }

-- A canister whose task has replied, and is about to trap.
abbrev about_to_trap : Canister
about_to_trap = record at_work { msg_reply = some (reply (42 ∷ []) 30) }

-- The task that comes next, which only ends.
abbrev next_job : Job
next_job = record {
  id = 8;
  env = call_env;
  task = some finish;
  canister = reset (after_panic 7 (as_bytes "no") about_to_trap);
}

next_taken :
    take_message
      (custom 8 call_env finish)
      true
      (reset (after_panic 7 (as_bytes "no") about_to_trap))
    ≡ some next_job
unfolding take_message call_env is_callback
next_taken = refl

after_panic-Leaks_example :
    let d = after_panic 7 (as_bytes "no") about_to_trap in
    Leaks 3
      (reply (42 ∷ []) 30)
      d
      (perform finish (begin 8 call_env (some 3) next_job.canister))
      (process_message (custom 8 call_env finish) (some 3) 0 d)
after_panic-Leaks_example =
    after_panic-Leaks 7 (as_bytes "no") about_to_trap (reply (42 ∷ []) 30) refl
      (custom 8 call_env finish) 3 0 next_job finish next_taken refl silent_finish

-- After `msg_reply`.
abbrev has_replied : Canister
unfolding at_work
has_replied = record at_work {
  msg_reply_data = [];
  env = record (at_work.env) { cycles_available = 0 };
  msg_reply = some (reply [] 30);
}
