-- ===== src/Runtime/Canister/System.antt =====
-- `impl Ic0CallHandlerProxy for Canister`: the rest of the system calls, and the dispatch of a request.
use ic_kit.Base.{ℕ, ◌+◌, ◌-◌, ◌^◌, ◌%◌, ◌&&◌, none, some, ◌++◌, length, ltb, if◌then◌else◌}
use ic_kit.Certified.HashTree.{Bytes, as_bytes}
use ic_kit.Runtime.Types.{Host}
use ic_kit.Runtime.StableMemory.{stable_size, stable_grow, stable_read, stable_write}
use ic_kit.Runtime.Canister.Task.{SysCall, nothing, number}
use ic_kit.Runtime.Canister.State.{Canister}
use ic_kit.Runtime.Canister.Guard.{Outcome, returned, failed, panicked, copy_to_canister}
use ic_kit.Runtime.Canister.Replies.{
  msg_arg_data_size, msg_arg_data_copy, msg_caller_size, msg_caller_copy, msg_reject_code,
  msg_reject_msg_size, msg_reject_msg_copy, msg_reply_data_append, msg_reply, msg_reject,
  msg_method_name_size, msg_method_name_copy,
}
use ic_kit.Runtime.Canister.Cycles.{
  msg_cycles_available, msg_cycles_available128, msg_cycles_refunded, msg_cycles_refunded128,
  msg_cycles_accept, msg_cycles_accept128, canister_cycle_balance, canister_cycle_balance128,
}
use ic_kit.Runtime.Canister.Calls.{
  call_new, call_on_cleanup, call_data_append, call_cycles_add, call_cycles_add128, call_perform,
}

unfoldable pub canister_self_size : Canister → Outcome
canister_self_size c = returned (number (length c.canister_id)) c

unfoldable pub canister_self_copy : ℕ → ℕ → ℕ → Canister → Outcome
unfolding copy_to_canister
canister_self_copy dst offset size c = copy_to_canister dst offset size c.canister_id c

-- `x as u64` on the bits of an `i32`.
unfoldable pub extend64 : ℕ → ℕ
extend64 n = if ltb n (2 ^ 31) then n else n + (2 ^ 64 - 2 ^ 32)

unfoldable pub canister_stable_size : Canister → Outcome
unfolding stable_size
canister_stable_size c =
    let size = stable_size c.stable in
    if ltb size (2 ^ 31)
    then returned (number size) c
    else failed (as_bytes "Invalid stable size") c

-- The sum is an `i32`, positive below 2 ^ 31; -1 is all ones.
unfoldable pub canister_stable_grow : ℕ → Canister → Outcome
unfolding stable_size stable_grow extend64
canister_stable_grow new_pages c =
    let sum = (stable_size c.stable + new_pages) % 2 ^ 32 in
    if ltb sum (2 ^ 31) && ltb (2 ^ 31 - 1) sum
    then returned (number (2 ^ 32 - 1)) c
    else let r = stable_grow (extend64 new_pages) c.stable in
      returned (number (elim r.1 [ none ↦ 2 ^ 32 - 1 | some size ↦ size % 2 ^ 32 ]))
        (record c { stable = r.0 })

unfoldable pub canister_stable_write : ℕ → Bytes → Canister → Outcome
unfolding stable_write extend64
canister_stable_write offset bytes c = elim (stable_write (extend64 offset) bytes c.stable) [
  | none ↦ panicked
  | some m ↦ returned nothing (record c { stable = m })
]

unfoldable pub canister_stable_read : ℕ → ℕ → ℕ → Canister → Outcome
unfolding stable_read extend64 copy_to_canister
canister_stable_read dst offset size c = elim (stable_read (extend64 offset) size c.stable) [
  | none ↦ panicked
  | some buf ↦ copy_to_canister dst (extend64 offset) size buf c
]

unfoldable pub stable64_size : Canister → Outcome
unfolding stable_size
stable64_size c = returned (number (stable_size c.stable)) c

-- -1 is all ones.
unfoldable pub stable64_grow : ℕ → Canister → Outcome
unfolding stable_grow
stable64_grow new_pages c =
    let r = stable_grow new_pages c.stable in
    returned (number (elim r.1 [ none ↦ 2 ^ 64 - 1 | some size ↦ size ]))
      (record c { stable = r.0 })

unfoldable pub stable64_write : ℕ → Bytes → Canister → Outcome
unfolding stable_write
stable64_write offset bytes c = elim (stable_write offset bytes c.stable) [
  | none ↦ panicked
  | some m ↦ returned nothing (record c { stable = m })
]

-- The buffer is copied from the same offset as the stable memory.
unfoldable pub stable64_read : ℕ → ℕ → ℕ → Canister → Outcome
unfolding stable_read copy_to_canister
stable64_read dst offset size c = elim (stable_read offset size c.stable) [
  | none ↦ panicked
  | some buf ↦ copy_to_canister dst offset size buf c
]

unfoldable pub trap : ⦃host : Host⦄ → Bytes → Canister → Outcome
trap ⦃host⦄ bytes c =
    failed (as_bytes "Canister trapped: '" ++ (host.from_utf8_lossy bytes ++ as_bytes "'")) c

-- `Request::proxy`. A `todo!()` panics.
unfoldable pub proxy : ⦃host : Host⦄ → SysCall → Canister → Outcome
proxy SysCall.msg_arg_data_size = msg_arg_data_size
proxy (SysCall.msg_arg_data_copy dst offset size) = msg_arg_data_copy dst offset size
proxy SysCall.msg_caller_size = msg_caller_size
proxy (SysCall.msg_caller_copy dst offset size) = msg_caller_copy dst offset size
proxy SysCall.msg_reject_code = msg_reject_code
proxy SysCall.msg_reject_msg_size = msg_reject_msg_size
proxy (SysCall.msg_reject_msg_copy dst offset size) = msg_reject_msg_copy dst offset size
proxy (SysCall.msg_reply_data_append bytes) = msg_reply_data_append bytes
proxy SysCall.msg_reply = msg_reply
proxy (SysCall.msg_reject bytes) = msg_reject bytes
proxy SysCall.msg_cycles_available = msg_cycles_available
proxy (SysCall.msg_cycles_available128 dst) = msg_cycles_available128 dst
proxy SysCall.msg_cycles_refunded = msg_cycles_refunded
proxy (SysCall.msg_cycles_refunded128 dst) = msg_cycles_refunded128 dst
proxy (SysCall.msg_cycles_accept max_amount) = msg_cycles_accept max_amount
proxy (SysCall.msg_cycles_accept128 high low dst) = msg_cycles_accept128 high low dst
proxy SysCall.canister_self_size = canister_self_size
proxy (SysCall.canister_self_copy dst offset size) = canister_self_copy dst offset size
proxy SysCall.canister_cycle_balance = canister_cycle_balance
proxy (SysCall.canister_cycle_balance128 dst) = canister_cycle_balance128 dst
proxy SysCall.canister_status = λ c. returned (number 1) c
proxy SysCall.msg_method_name_size = msg_method_name_size
proxy (SysCall.msg_method_name_copy dst offset size) = msg_method_name_copy dst offset size
proxy SysCall.accept_message = λ c. panicked
proxy (SysCall.call_new callee name rf re jf je) = call_new callee name rf re jf je
proxy (SysCall.call_on_cleanup fun env) = call_on_cleanup fun env
proxy (SysCall.call_data_append bytes) = call_data_append bytes
proxy (SysCall.call_cycles_add amount) = call_cycles_add amount
proxy (SysCall.call_cycles_add128 high low) = call_cycles_add128 high low
proxy SysCall.call_perform = call_perform
proxy SysCall.stable_size = canister_stable_size
proxy (SysCall.stable_grow new_pages) = canister_stable_grow new_pages
proxy (SysCall.stable_write offset bytes) = canister_stable_write offset bytes
proxy (SysCall.stable_read dst offset size) = canister_stable_read dst offset size
proxy SysCall.stable64_size = stable64_size
proxy (SysCall.stable64_grow new_pages) = stable64_grow new_pages
proxy (SysCall.stable64_write offset bytes) = stable64_write offset bytes
proxy (SysCall.stable64_read dst offset size) = stable64_read dst offset size
proxy (SysCall.certified_data_set bytes) = λ c. panicked
proxy SysCall.data_certificate_present = λ c. panicked
proxy SysCall.data_certificate_size = λ c. panicked
proxy (SysCall.data_certificate_copy dst offset size) = λ c. panicked
proxy SysCall.time = λ c. returned (number c.env.time) c
proxy (SysCall.performance_counter counter_type) = λ c. panicked
proxy (SysCall.debug_print bytes) = λ c. returned nothing c
proxy (SysCall.trap bytes) = trap bytes
