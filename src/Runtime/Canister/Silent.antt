-- ===== src/Runtime/Canister/Silent.antt =====
-- The tasks of canister.rs that make no reply of their own, and what they leave of one that is there.
use ic_kit.Base.{◌≡◌, refl, ◌∙◌, Bool, true, false, arith, ◌++◌}
use ic_kit.Certified.HashTree.{Bytes, as_bytes}
use ic_kit.Runtime.Types.{Host}
use ic_kit.Runtime.Canister.Task.{SysCall, Value, Task, finish, panic, request}
use ic_kit.Runtime.Canister.State.{Canister, discard_pending_call}
use ic_kit.Runtime.Canister.Guard.{Outcome, returned, failed, panicked}
use ic_kit.Runtime.Canister.Replies.{
  msg_arg_data_size, msg_arg_data_copy, msg_caller_size, msg_caller_copy, msg_reject_code,
  msg_reject_msg_size, msg_reject_msg_copy, msg_reply_data_append, msg_reply, msg_reject,
  msg_method_name_size, msg_method_name_copy,
}
use ic_kit.Runtime.Canister.Cycles.{
  msg_cycles_available, msg_cycles_available128, msg_cycles_refunded, msg_cycles_refunded128,
  msg_cycles_accept, msg_cycles_accept128, canister_cycle_balance, canister_cycle_balance128,
}
use ic_kit.Runtime.Canister.Calls.{
  call_new, call_on_cleanup, call_data_append, call_cycles_add, call_cycles_add128, call_perform,
}
use ic_kit.Runtime.Canister.System.{
  canister_stable_size, canister_stable_grow, canister_stable_write, canister_stable_read, proxy,
  canister_self_size, canister_self_copy, stable64_size, stable64_grow, stable64_write,
  stable64_read, trap,
}
use ic_kit.Runtime.Canister.Message.{Ended, completed, trapped, crashed, run, perform}
use ic_kit.Runtime.Canister.Frame.{After, AtEnd, AtEnd-imp}

-- The calls that reply.
unfoldable pub is_answer : SysCall → Bool
is_answer SysCall.msg_reply = true
is_answer (SysCall.msg_reject _) = true
is_answer _ = false

pub data Silent : Task → Type 0 where
  silent_finish : Silent finish
  silent_panic : {message : Bytes} → Silent (panic message)
  silent_request :
      {call : SysCall} {k : Value → Task}
      → is_answer call ≡ false
      → ((value : Value) → Silent (k value))
      → Silent (request call k)

-- The reply that is there stays.
abbrev pub Kept : Canister → Canister → Type 0
Kept c d = d.msg_reply ≡ c.msg_reply

module _ ⦃host : Host⦄ where
  proxy-Kept :
      (call : SysCall) (c : Canister) → is_answer call ≡ false → After (Kept c) (proxy call c)
  unfolding canister_stable_size canister_stable_grow canister_stable_write canister_stable_read
      proxy canister_self_size canister_self_copy stable64_size stable64_grow stable64_write
      stable64_read trap msg_arg_data_size msg_arg_data_copy msg_caller_size msg_caller_copy
      msg_reject_code msg_reject_msg_size msg_reject_msg_copy msg_reply_data_append msg_reply
      msg_reject msg_method_name_size msg_method_name_copy msg_cycles_available
      msg_cycles_available128 msg_cycles_refunded msg_cycles_refunded128 msg_cycles_accept
      msg_cycles_accept128 canister_cycle_balance canister_cycle_balance128 call_new call_on_cleanup
      call_data_append call_cycles_add call_cycles_add128 call_perform is_answer
  proxy-Kept SysCall.msg_arg_data_size c e = ground arith
  proxy-Kept (SysCall.msg_arg_data_copy dst offset size) c e = ground arith
  proxy-Kept SysCall.msg_caller_size c e = ground arith
  proxy-Kept (SysCall.msg_caller_copy dst offset size) c e = ground arith
  proxy-Kept SysCall.msg_reject_code c e = ground arith
  proxy-Kept SysCall.msg_reject_msg_size c e = ground arith
  proxy-Kept (SysCall.msg_reject_msg_copy dst offset size) c e = ground arith
  proxy-Kept (SysCall.msg_reply_data_append bytes) c e = ground arith
  proxy-Kept SysCall.msg_reply c e = absurd (cc)
  proxy-Kept (SysCall.msg_reject bytes) c e = absurd (cc)
  proxy-Kept SysCall.msg_cycles_available c e = ground arith
  proxy-Kept (SysCall.msg_cycles_available128 dst) c e = ground arith
  proxy-Kept SysCall.msg_cycles_refunded c e = ground arith
  proxy-Kept (SysCall.msg_cycles_refunded128 dst) c e = ground arith
  proxy-Kept (SysCall.msg_cycles_accept max_amount) c e = ground arith
  proxy-Kept (SysCall.msg_cycles_accept128 high low dst) c e = ground arith
  proxy-Kept SysCall.canister_self_size c e = ground arith
  proxy-Kept (SysCall.canister_self_copy dst offset size) c e = ground arith
  proxy-Kept SysCall.canister_cycle_balance c e = ground arith
  proxy-Kept (SysCall.canister_cycle_balance128 dst) c e = ground arith
  proxy-Kept SysCall.canister_status c e = ground arith
  proxy-Kept SysCall.msg_method_name_size c e = ground arith
  proxy-Kept (SysCall.msg_method_name_copy dst offset size) c e = ground arith
  proxy-Kept SysCall.accept_message c e = ground arith
  proxy-Kept (SysCall.call_new callee name rf re jf je) c e = ground arith
  proxy-Kept (SysCall.call_on_cleanup fun env) c e = ground arith
  proxy-Kept (SysCall.call_data_append bytes) c e = ground arith
  proxy-Kept (SysCall.call_cycles_add amount) c e = ground arith
  proxy-Kept (SysCall.call_cycles_add128 high low) c e = ground arith
  proxy-Kept SysCall.call_perform c e = ground arith
  proxy-Kept SysCall.stable_size c e = ground arith
  proxy-Kept (SysCall.stable_grow new_pages) c e = ground arith
  proxy-Kept (SysCall.stable_write offset bytes) c e = ground arith
  proxy-Kept (SysCall.stable_read dst offset size) c e = ground arith
  proxy-Kept SysCall.stable64_size c e = ground arith
  proxy-Kept (SysCall.stable64_grow new_pages) c e = ground arith
  proxy-Kept (SysCall.stable64_write offset bytes) c e = ground arith
  proxy-Kept (SysCall.stable64_read dst offset size) c e = ground arith
  proxy-Kept (SysCall.certified_data_set bytes) c e = ground arith
  proxy-Kept SysCall.data_certificate_present c e = ground arith
  proxy-Kept SysCall.data_certificate_size c e = ground arith
  proxy-Kept (SysCall.data_certificate_copy dst offset size) c e = ground arith
  proxy-Kept SysCall.time c e = ground arith
  proxy-Kept (SysCall.performance_counter counter_type) c e = ground arith
  proxy-Kept (SysCall.debug_print bytes) c e = ground arith
  proxy-Kept (SysCall.trap bytes) c e = ground arith

  request-Kept :
      (c : Canister) (o : Outcome) (k : Value → Task)
      → After (Kept c) o
      → ((value : Value) (d : Canister) → AtEnd (Kept d) (run (k value) d))
      → AtEnd (Kept c) (elim o [
        | returned value d ↦ run (k value) d
        | failed message d ↦ trapped (as_bytes "Canister trapped: " ++ message) d
        | panicked ↦ crashed
      ])
  request-Kept c (returned value d) k h f =
      AtEnd-imp (Kept d) (Kept c) (run (k value) d) (f value d) (λ e g. g ∙ h)
  request-Kept c (failed message d) k h f = h
  request-Kept c panicked k h f = tt

  run-Kept : (task : Task) (c : Canister) → Silent task → AtEnd (Kept c) (run task c)
  unfolding run
  run-Kept finish c silent_finish = refl
  run-Kept (panic message) c silent_panic = refl
  run-Kept (request call k) c (silent_request e f) =
      request-Kept c (proxy call c) k (proxy-Kept call c e)
        (λ value d. run-Kept (k value) d (f value))

  discarded-Kept :
      (c : Canister) (e : Ended)
      → AtEnd (Kept c) e
      → AtEnd (Kept c) (elim e [
        | completed d ↦ completed (discard_pending_call d)
        | trapped message d ↦ trapped message (discard_pending_call d)
        | crashed ↦ crashed
      ])
  unfolding discard_pending_call
  discarded-Kept c (completed d) h = ground arith
  discarded-Kept c (trapped message d) h = ground arith
  discarded-Kept c crashed h = tt

  pub perform-Kept : (task : Task) (c : Canister) → Silent task → AtEnd (Kept c) (perform task c)
  unfolding perform
  perform-Kept task c s = discarded-Kept c (run task c) (run-Kept task c s)
