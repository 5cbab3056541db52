-- ===== src/Runtime/Canister/Owner.antt =====
-- The calls of a message of canister.rs carry its number in their callbacks.
use ic_kit.Base.{
  ℕ, ◌≡◌, arith, Option, none, some, Option-cases, inl, inr, subst, List, [], ◌∷◌, ◌++◌,
}
use ic_kit.Runtime.Canister.Guard.{Outcome, returned, failed, panicked}
use ic_kit.Runtime.Types.{Host}
use ic_kit.Runtime.Canister.Task.{SysCall, Task}
use ic_kit.Runtime.Canister.State.{Canister, PendingCall, discard_pending_call}
use ic_kit.Runtime.Canister.Replies.{
  msg_arg_data_size, msg_arg_data_copy, msg_caller_size, msg_caller_copy, msg_reject_code,
  msg_reject_msg_size, msg_reject_msg_copy, msg_reply_data_append, msg_reply, msg_reject,
  msg_method_name_size, msg_method_name_copy,
}
use ic_kit.Runtime.Canister.Cycles.{
  msg_cycles_available, msg_cycles_available128, msg_cycles_refunded, msg_cycles_refunded128,
  msg_cycles_accept, msg_cycles_accept128, canister_cycle_balance, canister_cycle_balance128,
}
use ic_kit.Runtime.Canister.Calls.{
  call_new, call_on_cleanup, call_data_append, call_cycles_add, call_cycles_add128, call_perform,
}
use ic_kit.Runtime.Canister.System.{
  canister_stable_size, canister_stable_grow, canister_stable_write, canister_stable_read, proxy,
  canister_self_size, canister_self_copy, stable64_size, stable64_grow, stable64_write,
  stable64_read, trap,
}
use ic_kit.Runtime.Canister.Message.{perform}
use ic_kit.Runtime.Canister.Frame.{After, AtEnd, perform-keeps}

-- A call carries the number `id`, and so do those of a queue.
abbrev pub Carries : ℕ → Option PendingCall → Type 0
Carries id none = Unit
Carries id (some p) = p.callbacks.message_id ≡ id

abbrev pub AllCarry : ℕ → List PendingCall → Type 0
AllCarry id [] = Unit
AllCarry id (p ∷ queue) = (p.callbacks.message_id ≡ id) × AllCarry id queue

-- The message being processed is `id`, and its calls carry the number.
pub record IsOwned (id : ℕ) (c : Canister) : Type 0 where
  pub request_id : c.request_id ≡ some id
  pub call : Carries id c.pending_call
  pub queue : AllCarry id c.call_queue

AllCarry-append :
    (id : ℕ) (queue : List PendingCall) (p : PendingCall)
    → AllCarry id queue
    → p.callbacks.message_id ≡ id
    → AllCarry id (queue ++ p ∷ [])
AllCarry-append id [] p h e = (e, tt)
AllCarry-append id (q ∷ queue) p h e = (h.0, AllCarry-append id queue p h.1 e)

pub every_number :
    (P : ℕ → Type 0) (Q : ℕ → Canister → Type 0) (o : Outcome)
    → ((id : ℕ) → P id → After (Q id) o)
    → After (λ d. (id : ℕ) → P id → Q id d) o
every_number P Q (returned value d) f = f
every_number P Q (failed message d) f = f
every_number P Q panicked f = tt

module _ ⦃host : Host⦄ where
  proxy-IsOwned :
      (call : SysCall) (c : Canister) (id : ℕ) → IsOwned id c → After (IsOwned id) (proxy call c)
  unfolding canister_stable_size canister_stable_grow canister_stable_write canister_stable_read
      proxy canister_self_size canister_self_copy stable64_size stable64_grow stable64_write
      stable64_read trap msg_arg_data_size msg_arg_data_copy msg_caller_size msg_caller_copy
      msg_reject_code msg_reject_msg_size msg_reject_msg_copy msg_reply_data_append msg_reply
      msg_reject msg_method_name_size msg_method_name_copy msg_cycles_available
      msg_cycles_available128 msg_cycles_refunded msg_cycles_refunded128 msg_cycles_accept
      msg_cycles_accept128 canister_cycle_balance canister_cycle_balance128 call_new call_on_cleanup
      call_data_append call_cycles_add call_cycles_add128 call_perform
  proxy-IsOwned SysCall.msg_arg_data_size c id h = ground arith
  proxy-IsOwned (SysCall.msg_arg_data_copy dst offset size) c id h = ground arith
  proxy-IsOwned SysCall.msg_caller_size c id h = ground arith
  proxy-IsOwned (SysCall.msg_caller_copy dst offset size) c id h = ground arith
  proxy-IsOwned SysCall.msg_reject_code c id h = ground arith
  proxy-IsOwned SysCall.msg_reject_msg_size c id h = ground arith
  proxy-IsOwned (SysCall.msg_reject_msg_copy dst offset size) c id h = ground arith
  proxy-IsOwned (SysCall.msg_reply_data_append bytes) c id h = ground arith
  proxy-IsOwned SysCall.msg_reply c id h = ground arith
  proxy-IsOwned (SysCall.msg_reject bytes) c id h = ground arith
  proxy-IsOwned SysCall.msg_cycles_available c id h = ground arith
  proxy-IsOwned (SysCall.msg_cycles_available128 dst) c id h = ground arith
  proxy-IsOwned SysCall.msg_cycles_refunded c id h = ground arith
  proxy-IsOwned (SysCall.msg_cycles_refunded128 dst) c id h = ground arith
  proxy-IsOwned (SysCall.msg_cycles_accept max_amount) c id h = ground arith
  proxy-IsOwned (SysCall.msg_cycles_accept128 high low dst) c id h = ground arith
  proxy-IsOwned SysCall.canister_self_size c id h = ground arith
  proxy-IsOwned (SysCall.canister_self_copy dst offset size) c id h = ground arith
  proxy-IsOwned SysCall.canister_cycle_balance c id h = ground arith
  proxy-IsOwned (SysCall.canister_cycle_balance128 dst) c id h = ground arith
  proxy-IsOwned SysCall.canister_status c id h = ground arith
  proxy-IsOwned SysCall.msg_method_name_size c id h = ground arith
  proxy-IsOwned (SysCall.msg_method_name_copy dst offset size) c id h = ground arith
  proxy-IsOwned SysCall.accept_message c id h = ground arith
  proxy-IsOwned (SysCall.call_new callee name rf re jf je) c id h = ground arith
  proxy-IsOwned (SysCall.call_on_cleanup fun env) c id h = ground arith
  proxy-IsOwned (SysCall.call_data_append bytes) c id h = ground arith
  proxy-IsOwned (SysCall.call_cycles_add amount) c id h = ground arith
  proxy-IsOwned (SysCall.call_cycles_add128 high low) c id h = ground arith
  proxy-IsOwned SysCall.call_perform c id h = elim (Option-cases c.pending_call) [
    | inl e ↦ ground arith
    | inr (p, e) ↦
        let f = AllCarry-append id c.call_queue p h.queue (subst (Carries id) e h.call) in
        ground (arith, f)
  ]
  proxy-IsOwned SysCall.stable_size c id h = ground arith
  proxy-IsOwned (SysCall.stable_grow new_pages) c id h = ground arith
  proxy-IsOwned (SysCall.stable_write offset bytes) c id h = ground arith
  proxy-IsOwned (SysCall.stable_read dst offset size) c id h = ground arith
  proxy-IsOwned SysCall.stable64_size c id h = ground arith
  proxy-IsOwned (SysCall.stable64_grow new_pages) c id h = ground arith
  proxy-IsOwned (SysCall.stable64_write offset bytes) c id h = ground arith
  proxy-IsOwned (SysCall.stable64_read dst offset size) c id h = ground arith
  proxy-IsOwned (SysCall.certified_data_set bytes) c id h = ground arith
  proxy-IsOwned SysCall.data_certificate_present c id h = ground arith
  proxy-IsOwned SysCall.data_certificate_size c id h = ground arith
  proxy-IsOwned (SysCall.data_certificate_copy dst offset size) c id h = ground arith
  proxy-IsOwned SysCall.time c id h = ground arith
  proxy-IsOwned (SysCall.performance_counter counter_type) c id h = ground arith
  proxy-IsOwned (SysCall.debug_print bytes) c id h = ground arith
  proxy-IsOwned (SysCall.trap bytes) c id h = ground arith

  discard_pending_call-IsOwned :
      (c : Canister) (id : ℕ) → IsOwned id c → IsOwned id (discard_pending_call c)
  unfolding discard_pending_call
  discard_pending_call-IsOwned c id h = ground arith

  pub perform-IsOwned :
      (task : Task) (c : Canister)
      → AtEnd (λ d. (id : ℕ) → IsOwned id c → IsOwned id d) (perform task c)
  perform-IsOwned =
      perform-keeps (λ c d. (id : ℕ) → IsOwned id c → IsOwned id d) (λ c id h. h)
        (λ c d e p q id h. q id (p id h))
        (λ call c. every_number (λ id. IsOwned id c) IsOwned (proxy call c) (proxy-IsOwned call c))
        discard_pending_call-IsOwned
