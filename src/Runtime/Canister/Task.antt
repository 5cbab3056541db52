-- ===== src/Runtime/Canister/Task.antt =====
-- What runs on a canister's execution thread: it makes system calls of ic-kit-sys/src/ic0.rs, gets their
-- results, and ends or panics. The code of the canister itself is not known here.
use ic_kit.Base.{ℕ}
use ic_kit.Certified.HashTree.{Bytes}

-- The system calls, with the argument types of ic0.rs. A source in the canister's memory, `(src, size)`, is
-- the bytes that stand there; an `i32` or an `i64` is its 32 or 64 bits.
pub data SysCall : Type 0 where
  msg_arg_data_size : SysCall
  msg_arg_data_copy : ℕ → ℕ → ℕ → SysCall
  msg_caller_size : SysCall
  msg_caller_copy : ℕ → ℕ → ℕ → SysCall
  msg_reject_code : SysCall
  msg_reject_msg_size : SysCall
  msg_reject_msg_copy : ℕ → ℕ → ℕ → SysCall
  msg_reply_data_append : Bytes → SysCall
  msg_reply : SysCall
  msg_reject : Bytes → SysCall
  msg_cycles_available : SysCall
  msg_cycles_available128 : ℕ → SysCall
  msg_cycles_refunded : SysCall
  msg_cycles_refunded128 : ℕ → SysCall
  msg_cycles_accept : ℕ → SysCall
  msg_cycles_accept128 : ℕ → ℕ → ℕ → SysCall
  canister_self_size : SysCall
  canister_self_copy : ℕ → ℕ → ℕ → SysCall
  canister_cycle_balance : SysCall
  canister_cycle_balance128 : ℕ → SysCall
  canister_status : SysCall
  msg_method_name_size : SysCall
  msg_method_name_copy : ℕ → ℕ → ℕ → SysCall
  accept_message : SysCall
  call_new : Bytes → Bytes → ℕ → ℕ → ℕ → ℕ → SysCall
  call_on_cleanup : ℕ → ℕ → SysCall
  call_data_append : Bytes → SysCall
  call_cycles_add : ℕ → SysCall
  call_cycles_add128 : ℕ → ℕ → SysCall
  call_perform : SysCall
  stable_size : SysCall
  stable_grow : ℕ → SysCall
  stable_write : ℕ → Bytes → SysCall
  stable_read : ℕ → ℕ → ℕ → SysCall
  stable64_size : SysCall
  stable64_grow : ℕ → SysCall
  stable64_write : ℕ → Bytes → SysCall
  stable64_read : ℕ → ℕ → ℕ → SysCall
  certified_data_set : Bytes → SysCall
  data_certificate_present : SysCall
  data_certificate_size : SysCall
  data_certificate_copy : ℕ → ℕ → ℕ → SysCall
  time : SysCall
  performance_counter : ℕ → SysCall
  debug_print : Bytes → SysCall
  trap : Bytes → SysCall

-- What a system call gives back: a number, or bytes written to the canister's memory at an address.
pub data Value : Type 0 where
  nothing : Value
  number : ℕ → Value
  wrote : ℕ → Bytes → Value

pub data Task : Type 0 where
  finish : Task
  panic : Bytes → Task
  request : SysCall → (Value → Task) → Task

-- The function that a callback's number stands for, `transmute::<isize, fn(isize)>`, at its argument.
pub record Code : Type 0 where
  pub function : ℕ → ℕ → Task
