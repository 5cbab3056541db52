-- ===== src/Runtime/Canister/Conserve.antt =====
-- No system call of canister.rs makes or loses cycles, while the sums fit in 128 bits.
use ic_kit.Base.{ℕ, ◌+◌, ◌^◌, ◌<◌, ◌≡◌, refl, ◌∙◌, arith, Option, none, some, List, [], ◌∷◌, ◌++◌}
use ic_kit.Runtime.Types.{Host}
use ic_kit.Runtime.Call.{CallReply, cycles_refunded}
use ic_kit.Runtime.Canister.Task.{SysCall, Task}
use ic_kit.Runtime.Canister.State.{
  Canister, PendingCall, add128, refund, discard_pending_call, max_cycles_per_response,
}
use ic_kit.Runtime.Canister.Replies.{
  msg_arg_data_size, msg_arg_data_copy, msg_caller_size, msg_caller_copy, msg_reject_code,
  msg_reject_msg_size, msg_reject_msg_copy, msg_reply_data_append, msg_reply, msg_reject,
  msg_method_name_size, msg_method_name_copy,
}
use ic_kit.Runtime.Canister.Cycles.{
  msg_cycles_available, msg_cycles_available128, msg_cycles_refunded, msg_cycles_refunded128,
  msg_cycles_accept, msg_cycles_accept128, canister_cycle_balance, canister_cycle_balance128,
}
use ic_kit.Runtime.Canister.Calls.{
  call_new, call_on_cleanup, call_data_append, call_cycles_add, call_cycles_add128, call_perform,
}
use ic_kit.Runtime.Canister.System.{
  canister_stable_size, canister_stable_grow, canister_stable_write, canister_stable_read, proxy,
  canister_self_size, canister_self_copy, stable64_size, stable64_grow, stable64_write,
  stable64_read, trap,
}
use ic_kit.Runtime.Canister.Message.{perform}
use ic_kit.Runtime.Canister.Frame.{After, AtEnd, perform-keeps}

-- The cycles set aside for a call.
abbrev pub held : PendingCall → ℕ
held p = max_cycles_per_response + p.payment

abbrev pub held_by : Option PendingCall → ℕ
held_by none = 0
held_by (some p) = held p

abbrev pub queue_held : List PendingCall → ℕ
queue_held [] = 0
queue_held (p ∷ queue) = held p + queue_held queue

-- The canister's cycles: its balance, and what its calls that are not yet sent set aside.
abbrev pub holdings : Canister → ℕ
holdings c = c.env.balance + held_by c.pending_call + queue_held c.call_queue

abbrev pub replied : Option CallReply → ℕ
replied none = 0
replied (some r) = cycles_refunded r

-- The message's cycles: available, accepted, or given back by the reply.
abbrev pub provided : Canister → ℕ
provided c = c.env.cycles_available + c.cycles_accepted + replied c.msg_reply

queue_held-append :
    (queue : List PendingCall) (p : PendingCall)
    → queue_held (queue ++ p ∷ []) ≡ queue_held queue + held p
queue_held-append [] p = omega arith
queue_held-append (q ∷ queue) p = omega (arith, queue_held-append queue p)

pub record Conserved (c d : Canister) : Type 0 where
  pub cycles : holdings c < 2 ^ 128 → holdings d ≡ holdings c
  pub provision : provided c < 2 ^ 128 → provided d ≡ provided c

add128-exact : (a b : ℕ) → a + b < 2 ^ 128 → add128 a b ≡ a + b
unfolding add128
add128-exact a b h = omega arith

module _ ⦃host : Host⦄ where
  proxy-Conserved : (call : SysCall) (c : Canister) → After (Conserved c) (proxy call c)
  unfolding cycles_refunded canister_stable_size canister_stable_grow canister_stable_write
      canister_stable_read proxy canister_self_size canister_self_copy stable64_size stable64_grow
      stable64_write stable64_read trap msg_arg_data_size msg_arg_data_copy msg_caller_size
      msg_caller_copy msg_reject_code msg_reject_msg_size msg_reject_msg_copy msg_reply_data_append
      msg_reply msg_reject msg_method_name_size msg_method_name_copy msg_cycles_available
      msg_cycles_available128 msg_cycles_refunded msg_cycles_refunded128 msg_cycles_accept
      msg_cycles_accept128 canister_cycle_balance canister_cycle_balance128 call_new call_on_cleanup
      call_data_append call_cycles_add call_cycles_add128 call_perform
  proxy-Conserved SysCall.msg_arg_data_size c = ground arith
  proxy-Conserved (SysCall.msg_arg_data_copy dst offset size) c = ground arith
  proxy-Conserved SysCall.msg_caller_size c = ground arith
  proxy-Conserved (SysCall.msg_caller_copy dst offset size) c = ground arith
  proxy-Conserved SysCall.msg_reject_code c = ground arith
  proxy-Conserved SysCall.msg_reject_msg_size c = ground arith
  proxy-Conserved (SysCall.msg_reject_msg_copy dst offset size) c = ground arith
  proxy-Conserved (SysCall.msg_reply_data_append bytes) c = ground arith
  proxy-Conserved SysCall.msg_reply c = ground arith
  proxy-Conserved (SysCall.msg_reject bytes) c = ground arith
  proxy-Conserved SysCall.msg_cycles_available c = ground arith
  proxy-Conserved (SysCall.msg_cycles_available128 dst) c = ground arith
  proxy-Conserved SysCall.msg_cycles_refunded c = ground arith
  proxy-Conserved (SysCall.msg_cycles_refunded128 dst) c = ground arith
  proxy-Conserved (SysCall.msg_cycles_accept max_amount) c = ground arith
  proxy-Conserved (SysCall.msg_cycles_accept128 high low dst) c = ground arith
  proxy-Conserved SysCall.canister_self_size c = ground arith
  proxy-Conserved (SysCall.canister_self_copy dst offset size) c = ground arith
  proxy-Conserved SysCall.canister_cycle_balance c = ground arith
  proxy-Conserved (SysCall.canister_cycle_balance128 dst) c = ground arith
  proxy-Conserved SysCall.canister_status c = ground arith
  proxy-Conserved SysCall.msg_method_name_size c = ground arith
  proxy-Conserved (SysCall.msg_method_name_copy dst offset size) c = ground arith
  proxy-Conserved SysCall.accept_message c = ground arith
  proxy-Conserved (SysCall.call_new callee name rf re jf je) c = ground arith
  proxy-Conserved (SysCall.call_on_cleanup fun env) c = ground arith
  proxy-Conserved (SysCall.call_data_append bytes) c = ground arith
  proxy-Conserved (SysCall.call_cycles_add amount) c = ground arith
  proxy-Conserved (SysCall.call_cycles_add128 high low) c = ground arith
  proxy-Conserved SysCall.call_perform c = grind (arith, queue_held-append)
  proxy-Conserved SysCall.stable_size c = ground arith
  proxy-Conserved (SysCall.stable_grow new_pages) c = ground arith
  proxy-Conserved (SysCall.stable_write offset bytes) c = ground arith
  proxy-Conserved (SysCall.stable_read dst offset size) c = ground arith
  proxy-Conserved SysCall.stable64_size c = ground arith
  proxy-Conserved (SysCall.stable64_grow new_pages) c = ground arith
  proxy-Conserved (SysCall.stable64_write offset bytes) c = ground arith
  proxy-Conserved (SysCall.stable64_read dst offset size) c = ground arith
  proxy-Conserved (SysCall.certified_data_set bytes) c = ground arith
  proxy-Conserved SysCall.data_certificate_present c = ground arith
  proxy-Conserved SysCall.data_certificate_size c = ground arith
  proxy-Conserved (SysCall.data_certificate_copy dst offset size) c = ground arith
  proxy-Conserved SysCall.time c = ground arith
  proxy-Conserved (SysCall.performance_counter counter_type) c = ground arith
  proxy-Conserved (SysCall.debug_print bytes) c = ground arith
  proxy-Conserved (SysCall.trap bytes) c = ground arith

  Conserved-trans : (c d e : Canister) → Conserved c d → Conserved d e → Conserved c e
  Conserved-trans c d e p q = record {
    cycles = λ h. q.cycles (rw (p.cycles h) h) ∙ p.cycles h;
    provision = λ h. q.provision (rw (p.provision h) h) ∙ p.provision h;
  }

  discard_pending_call-Conserved : (c : Canister) → Conserved c (discard_pending_call c)
  unfolding discard_pending_call refund add128
  discard_pending_call-Conserved c = ground arith

  Conserved-refl : (c : Canister) → Conserved c c
  Conserved-refl c = record { cycles = λ h. refl; provision = λ h. refl }

  pub perform-Conserved : (task : Task) (c : Canister) → AtEnd (Conserved c) (perform task c)
  perform-Conserved =
      perform-keeps Conserved Conserved-refl Conserved-trans proxy-Conserved
        discard_pending_call-Conserved
