-- ===== src/Runtime/Canister/ReplyOnce.antt =====
-- A reply of a message of canister.rs is made only while its channel is there.
use ic_kit.Base.{ℕ, ◌≡◌, true, arith, some}
use ic_kit.Runtime.Canister.Owner.{every_number}
use ic_kit.Runtime.Canister.Message.{is_some}
use ic_kit.Runtime.Types.{Host}
use ic_kit.Runtime.Canister.Task.{SysCall, Task}
use ic_kit.Runtime.Canister.State.{Canister, discard_pending_call}
use ic_kit.Runtime.Canister.Replies.{
  awaits, msg_arg_data_size, msg_arg_data_copy, msg_caller_size, msg_caller_copy, msg_reject_code,
  msg_reject_msg_size, msg_reject_msg_copy, msg_reply_data_append, msg_reply, msg_reject,
  msg_method_name_size, msg_method_name_copy,
}
use ic_kit.Runtime.Canister.Cycles.{
  msg_cycles_available, msg_cycles_available128, msg_cycles_refunded, msg_cycles_refunded128,
  msg_cycles_accept, msg_cycles_accept128, canister_cycle_balance, canister_cycle_balance128,
}
use ic_kit.Runtime.Canister.Calls.{
  call_new, call_on_cleanup, call_data_append, call_cycles_add, call_cycles_add128, call_perform,
}
use ic_kit.Runtime.Canister.System.{
  canister_stable_size, canister_stable_grow, canister_stable_write, canister_stable_read, proxy,
  canister_self_size, canister_self_copy, stable64_size, stable64_grow, stable64_write,
  stable64_read, trap,
}
use ic_kit.Runtime.Canister.Message.{perform}
use ic_kit.Runtime.Canister.Frame.{After, AtEnd, perform-keeps}

-- The message being processed is `id`, and where it has made a reply its channel is there.
pub record MayAnswer (id : ℕ) (c : Canister) : Type 0 where
  pub request_id : c.request_id ≡ some id
  pub reply : is_some c.msg_reply ≡ true → awaits id c ≡ true

module _ ⦃host : Host⦄ where
  proxy-MayAnswer :
      (call : SysCall) (c : Canister) (id : ℕ)
      → MayAnswer id c
      → After (MayAnswer id) (proxy call c)
  unfolding canister_stable_size canister_stable_grow canister_stable_write canister_stable_read
      proxy canister_self_size canister_self_copy stable64_size stable64_grow stable64_write
      stable64_read trap msg_arg_data_size msg_arg_data_copy msg_caller_size msg_caller_copy
      msg_reject_code msg_reject_msg_size msg_reject_msg_copy msg_reply_data_append msg_reply
      msg_reject msg_method_name_size msg_method_name_copy msg_cycles_available
      msg_cycles_available128 msg_cycles_refunded msg_cycles_refunded128 msg_cycles_accept
      msg_cycles_accept128 canister_cycle_balance canister_cycle_balance128 call_new call_on_cleanup
      call_data_append call_cycles_add call_cycles_add128 call_perform
  proxy-MayAnswer SysCall.msg_arg_data_size c id h = ground arith
  proxy-MayAnswer (SysCall.msg_arg_data_copy dst offset size) c id h = ground arith
  proxy-MayAnswer SysCall.msg_caller_size c id h = ground arith
  proxy-MayAnswer (SysCall.msg_caller_copy dst offset size) c id h = ground arith
  proxy-MayAnswer SysCall.msg_reject_code c id h = ground arith
  proxy-MayAnswer SysCall.msg_reject_msg_size c id h = ground arith
  proxy-MayAnswer (SysCall.msg_reject_msg_copy dst offset size) c id h = ground arith
  proxy-MayAnswer (SysCall.msg_reply_data_append bytes) c id h = ground arith
  proxy-MayAnswer SysCall.msg_reply c id h = ground arith
  proxy-MayAnswer (SysCall.msg_reject bytes) c id h = ground arith
  proxy-MayAnswer SysCall.msg_cycles_available c id h = ground arith
  proxy-MayAnswer (SysCall.msg_cycles_available128 dst) c id h = ground arith
  proxy-MayAnswer SysCall.msg_cycles_refunded c id h = ground arith
  proxy-MayAnswer (SysCall.msg_cycles_refunded128 dst) c id h = ground arith
  proxy-MayAnswer (SysCall.msg_cycles_accept max_amount) c id h = ground arith
  proxy-MayAnswer (SysCall.msg_cycles_accept128 high low dst) c id h = ground arith
  proxy-MayAnswer SysCall.canister_self_size c id h = ground arith
  proxy-MayAnswer (SysCall.canister_self_copy dst offset size) c id h = ground arith
  proxy-MayAnswer SysCall.canister_cycle_balance c id h = ground arith
  proxy-MayAnswer (SysCall.canister_cycle_balance128 dst) c id h = ground arith
  proxy-MayAnswer SysCall.canister_status c id h = ground arith
  proxy-MayAnswer SysCall.msg_method_name_size c id h = ground arith
  proxy-MayAnswer (SysCall.msg_method_name_copy dst offset size) c id h = ground arith
  proxy-MayAnswer SysCall.accept_message c id h = ground arith
  proxy-MayAnswer (SysCall.call_new callee name rf re jf je) c id h = ground arith
  proxy-MayAnswer (SysCall.call_on_cleanup fun env) c id h = ground arith
  proxy-MayAnswer (SysCall.call_data_append bytes) c id h = ground arith
  proxy-MayAnswer (SysCall.call_cycles_add amount) c id h = ground arith
  proxy-MayAnswer (SysCall.call_cycles_add128 high low) c id h = ground arith
  proxy-MayAnswer SysCall.call_perform c id h = ground arith
  proxy-MayAnswer SysCall.stable_size c id h = ground arith
  proxy-MayAnswer (SysCall.stable_grow new_pages) c id h = ground arith
  proxy-MayAnswer (SysCall.stable_write offset bytes) c id h = ground arith
  proxy-MayAnswer (SysCall.stable_read dst offset size) c id h = ground arith
  proxy-MayAnswer SysCall.stable64_size c id h = ground arith
  proxy-MayAnswer (SysCall.stable64_grow new_pages) c id h = ground arith
  proxy-MayAnswer (SysCall.stable64_write offset bytes) c id h = ground arith
  proxy-MayAnswer (SysCall.stable64_read dst offset size) c id h = ground arith
  proxy-MayAnswer (SysCall.certified_data_set bytes) c id h = ground arith
  proxy-MayAnswer SysCall.data_certificate_present c id h = ground arith
  proxy-MayAnswer SysCall.data_certificate_size c id h = ground arith
  proxy-MayAnswer (SysCall.data_certificate_copy dst offset size) c id h = ground arith
  proxy-MayAnswer SysCall.time c id h = ground arith
  proxy-MayAnswer (SysCall.performance_counter counter_type) c id h = ground arith
  proxy-MayAnswer (SysCall.debug_print bytes) c id h = ground arith
  proxy-MayAnswer (SysCall.trap bytes) c id h = ground arith

  discard_pending_call-MayAnswer :
      (c : Canister) (id : ℕ) → MayAnswer id c → MayAnswer id (discard_pending_call c)
  unfolding discard_pending_call awaits
  discard_pending_call-MayAnswer c id h = ground arith

  pub perform-MayAnswer :
      (task : Task) (c : Canister)
      → AtEnd (λ d. (id : ℕ) → MayAnswer id c → MayAnswer id d) (perform task c)
  perform-MayAnswer =
      perform-keeps (λ c d. (id : ℕ) → MayAnswer id c → MayAnswer id d) (λ c id h. h)
        (λ c d e p q id h. q id (p id h))
        (λ call c.
          every_number (λ id. MayAnswer id c) MayAnswer (proxy call c) (proxy-MayAnswer call c))
        discard_pending_call-MayAnswer
