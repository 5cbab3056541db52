-- ===== src/Runtime/Canister/Frame.antt =====
-- What no system call of canister.rs changes, however it ends.
use ic_kit.Base.{◌≡◌, ◌++◌, refl, ◌∙◌, arith}
use ic_kit.Certified.HashTree.{as_bytes}
use ic_kit.Runtime.Types.{Host}
use ic_kit.Runtime.Canister.Task.{SysCall, Value, Task, finish, panic, request}
use ic_kit.Runtime.Canister.State.{Canister, discard_pending_call}
use ic_kit.Runtime.Canister.Guard.{Outcome, returned, failed, panicked}
use ic_kit.Runtime.Canister.Replies.{
  msg_arg_data_size, msg_arg_data_copy, msg_caller_size, msg_caller_copy, msg_reject_code,
  msg_reject_msg_size, msg_reject_msg_copy, msg_reply_data_append, msg_reply, msg_reject,
  msg_method_name_size, msg_method_name_copy,
}
use ic_kit.Runtime.Canister.Cycles.{
  msg_cycles_available, msg_cycles_available128, msg_cycles_refunded, msg_cycles_refunded128,
  msg_cycles_accept, msg_cycles_accept128, canister_cycle_balance, canister_cycle_balance128,
}
use ic_kit.Runtime.Canister.Calls.{
  call_new, call_on_cleanup, call_data_append, call_cycles_add, call_cycles_add128, call_perform,
}
use ic_kit.Runtime.Canister.System.{
  canister_stable_size, canister_stable_grow, canister_stable_write, canister_stable_read, proxy,
  canister_self_size, canister_self_copy, stable64_size, stable64_grow, stable64_write,
  stable64_read, trap,
}
use ic_kit.Runtime.Canister.Message.{Ended, completed, trapped, crashed, run, perform}

-- The canister after a system call, where the runtime has not panicked.
abbrev pub After : (Canister → Type 0) → Outcome → Type 0
After P (returned _ c) = P c
After P (failed _ c) = P c
After P panicked = Unit

abbrev pub AtEnd : (Canister → Type 0) → Ended → Type 0
AtEnd P (completed c) = P c
AtEnd P (trapped _ c) = P c
AtEnd P crashed = Unit

pub AtEnd-imp :
    (P Q : Canister → Type 0) (e : Ended) → AtEnd P e → ((d : Canister) → P d → Q d) → AtEnd Q e
AtEnd-imp P Q (completed c) h f = f c h
AtEnd-imp P Q (trapped _ c) h f = f c h
AtEnd-imp P Q crashed h f = tt

-- A relation that every system call keeps, and the discarding of a call, is kept by a task.
module _ ⦃host : Host⦄ (R : Canister → Canister → Type 0) (here : (c : Canister) → R c c)
    (then_by : (c d e : Canister) → R c d → R d e → R c e)
    (by_call : (call : SysCall) (c : Canister) → After (R c) (proxy call c))
    (by_discard : (c : Canister) → R c (discard_pending_call c)) where
  step_kept :
      (c : Canister) (o : Outcome) (k : Value → Task)
      → After (R c) o
      → ((value : Value) (d : Canister) → AtEnd (R d) (run (k value) d))
      → AtEnd (R c) (elim o [
        | returned value d ↦ run (k value) d
        | failed message d ↦ trapped (as_bytes "Canister trapped: " ++ message) d
        | panicked ↦ crashed
      ])
  step_kept c (returned value d) k h f =
      AtEnd-imp (R d) (R c) (run (k value) d) (f value d) (λ e. then_by c d e h)
  step_kept c (failed message d) k h f = h
  step_kept c panicked k h f = tt

  run-keeps : (task : Task) (c : Canister) → AtEnd (R c) (run task c)
  unfolding run
  run-keeps finish c = here c
  run-keeps (panic message) c = here c
  run-keeps (request call k) c =
      step_kept c (proxy call c) k (by_call call c) (λ value d. run-keeps (k value) d)

  discarded :
      (c : Canister) (e : Ended)
      → AtEnd (R c) e
      → AtEnd (R c) (elim e [
        | completed d ↦ completed (discard_pending_call d)
        | trapped message d ↦ trapped message (discard_pending_call d)
        | crashed ↦ crashed
      ])
  discarded c (completed d) h = then_by c d _ h (by_discard d)
  discarded c (trapped message d) h = then_by c d _ h (by_discard d)
  discarded c crashed h = tt

  pub perform-keeps : (task : Task) (c : Canister) → AtEnd (R c) (perform task c)
  unfolding perform
  perform-keeps task c = discarded c (run task c) (run-keeps task c)

-- The requests, their channels and callbacks, and the replies sent are the same.
pub record Quiet (c d : Canister) : Type 0 where
  pub senders : d.msg_reply_senders ≡ c.msg_reply_senders
  pub pending : d.pending_outgoing_requests ≡ c.pending_outgoing_requests
  pub calls : d.outgoing_calls ≡ c.outgoing_calls
  pub request : d.request_id ≡ c.request_id
  pub sent : d.sent ≡ c.sent

pub Quiet-refl : (c : Canister) → Quiet c c
Quiet-refl c = record { senders = refl; pending = refl; calls = refl; request = refl; sent = refl }

pub Quiet-trans : (c d e : Canister) → Quiet c d → Quiet d e → Quiet c e
Quiet-trans c d e p q = record {
  senders = q.senders ∙ p.senders;
  pending = q.pending ∙ p.pending;
  calls = q.calls ∙ p.calls;
  request = q.request ∙ p.request;
  sent = q.sent ∙ p.sent;
}

module _ ⦃host : Host⦄ where
  proxy-Quiet : (call : SysCall) (c : Canister) → After (Quiet c) (proxy call c)
  unfolding canister_stable_size canister_stable_grow canister_stable_write canister_stable_read
      proxy canister_self_size canister_self_copy stable64_size stable64_grow stable64_write
      stable64_read trap msg_arg_data_size msg_arg_data_copy msg_caller_size msg_caller_copy
      msg_reject_code msg_reject_msg_size msg_reject_msg_copy msg_reply_data_append msg_reply
      msg_reject msg_method_name_size msg_method_name_copy msg_cycles_available
      msg_cycles_available128 msg_cycles_refunded msg_cycles_refunded128 msg_cycles_accept
      msg_cycles_accept128 canister_cycle_balance canister_cycle_balance128 call_new call_on_cleanup
      call_data_append call_cycles_add call_cycles_add128 call_perform
  proxy-Quiet SysCall.msg_arg_data_size c = ground arith
  proxy-Quiet (SysCall.msg_arg_data_copy dst offset size) c = ground arith
  proxy-Quiet SysCall.msg_caller_size c = ground arith
  proxy-Quiet (SysCall.msg_caller_copy dst offset size) c = ground arith
  proxy-Quiet SysCall.msg_reject_code c = ground arith
  proxy-Quiet SysCall.msg_reject_msg_size c = ground arith
  proxy-Quiet (SysCall.msg_reject_msg_copy dst offset size) c = ground arith
  proxy-Quiet (SysCall.msg_reply_data_append bytes) c = ground arith
  proxy-Quiet SysCall.msg_reply c = ground arith
  proxy-Quiet (SysCall.msg_reject bytes) c = ground arith
  proxy-Quiet SysCall.msg_cycles_available c = ground arith
  proxy-Quiet (SysCall.msg_cycles_available128 dst) c = ground arith
  proxy-Quiet SysCall.msg_cycles_refunded c = ground arith
  proxy-Quiet (SysCall.msg_cycles_refunded128 dst) c = ground arith
  proxy-Quiet (SysCall.msg_cycles_accept max_amount) c = ground arith
  proxy-Quiet (SysCall.msg_cycles_accept128 high low dst) c = ground arith
  proxy-Quiet SysCall.canister_self_size c = ground arith
  proxy-Quiet (SysCall.canister_self_copy dst offset size) c = ground arith
  proxy-Quiet SysCall.canister_cycle_balance c = ground arith
  proxy-Quiet (SysCall.canister_cycle_balance128 dst) c = ground arith
  proxy-Quiet SysCall.canister_status c = ground arith
  proxy-Quiet SysCall.msg_method_name_size c = ground arith
  proxy-Quiet (SysCall.msg_method_name_copy dst offset size) c = ground arith
  proxy-Quiet SysCall.accept_message c = ground arith
  proxy-Quiet (SysCall.call_new callee name rf re jf je) c = ground arith
  proxy-Quiet (SysCall.call_on_cleanup fun env) c = ground arith
  proxy-Quiet (SysCall.call_data_append bytes) c = ground arith
  proxy-Quiet (SysCall.call_cycles_add amount) c = ground arith
  proxy-Quiet (SysCall.call_cycles_add128 high low) c = ground arith
  proxy-Quiet SysCall.call_perform c = ground arith
  proxy-Quiet SysCall.stable_size c = ground arith
  proxy-Quiet (SysCall.stable_grow new_pages) c = ground arith
  proxy-Quiet (SysCall.stable_write offset bytes) c = ground arith
  proxy-Quiet (SysCall.stable_read dst offset size) c = ground arith
  proxy-Quiet SysCall.stable64_size c = ground arith
  proxy-Quiet (SysCall.stable64_grow new_pages) c = ground arith
  proxy-Quiet (SysCall.stable64_write offset bytes) c = ground arith
  proxy-Quiet (SysCall.stable64_read dst offset size) c = ground arith
  proxy-Quiet (SysCall.certified_data_set bytes) c = ground arith
  proxy-Quiet SysCall.data_certificate_present c = ground arith
  proxy-Quiet SysCall.data_certificate_size c = ground arith
  proxy-Quiet (SysCall.data_certificate_copy dst offset size) c = ground arith
  proxy-Quiet SysCall.time c = ground arith
  proxy-Quiet (SysCall.performance_counter counter_type) c = ground arith
  proxy-Quiet (SysCall.debug_print bytes) c = ground arith
  proxy-Quiet (SysCall.trap bytes) c = ground arith

  pub discard_pending_call-Quiet : (c : Canister) → Quiet c (discard_pending_call c)
  unfolding discard_pending_call
  discard_pending_call-Quiet c = ground arith

  pub perform-Quiet : (task : Task) (c : Canister) → AtEnd (Quiet c) (perform task c)
  perform-Quiet = perform-keeps Quiet Quiet-refl Quiet-trans proxy-Quiet discard_pending_call-Quiet
