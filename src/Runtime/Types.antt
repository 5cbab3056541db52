-- ===== src/Runtime/Types.antt =====
-- ic-kit-runtime/src/types.rs: the environments and messages of canisters; `RejectionCode` is of
-- ic-kit-sys/src/types.rs. Strings are their bytes. `u128` and `u64` numbers are natural numbers.
use ic_kit.Base.{ℕ, ◌+◌, ◌%◌, ◌^◌, Option, none, [], ◌∷◌, ◌++◌, unwrap_or, ◌==◌, if◌then◌else◌}
use ic_kit.Certified.HashTree.{Bytes, as_bytes}

-- The code that is outside the repository: `Principal::anonymous()` and `from_slice` of ic_types,
-- the text that a principal is printed as, `String::from_utf8_lossy`, and the clock.
pub record Host : Type 0 where
  pub anonymous : Bytes
  pub from_slice : Bytes → Bytes
  pub to_text : Bytes → Bytes
  pub from_utf8_lossy : Bytes → Bytes
  pub now : ℕ

-- `RequestId::new`: the number, and the counter after `fetch_add`.
unfoldable pub new_request_id : ℕ → ℕ × ℕ
new_request_id counter = (counter, (counter + 1) % 2 ^ 64)

pub data EntryMode : Type 0 where
  init pre_upgrade post_upgrade heartbeat inspect_message update query : EntryMode
  reply_callback reject_callback cleanup_callback custom_task : EntryMode

pub data RejectionCode : Type 0 where
  no_error sys_fatal sys_transient destination_invalid canister_reject canister_error unknown :
      RejectionCode

-- `rejection_code as i32`.
unfoldable pub code_number : RejectionCode → ℕ
code_number no_error = 0
code_number sys_fatal = 1
code_number sys_transient = 2
code_number destination_invalid = 3
code_number canister_reject = 4
code_number canister_error = 5
code_number unknown = 6

-- `From<i32> for RejectionCode`, on the numbers that are not negative.
unfoldable pub rejection_of : ℕ → RejectionCode
rejection_of n =
    if n == 0
    then no_error
    else if n == 1
    then sys_fatal
    else if n == 2
    then sys_transient
    else if n == 3
    then destination_invalid
    else if n == 4
    then canister_reject
    else if n == 5
    then canister_error
    else unknown

pub record Env : Type 0 where
  pub balance : ℕ
  pub entry_mode : EntryMode
  pub sender : Bytes
  pub method_name : Option Bytes
  pub cycles_available : ℕ
  pub cycles_refunded : ℕ
  pub args : Bytes
  pub rejection_code : RejectionCode
  pub rejection_message : Bytes
  pub time : ℕ

-- `CANDID_EMPTY_ARG`
abbrev pub candid_empty_arg : Bytes
candid_empty_arg = 68 ∷ 73 ∷ 68 ∷ 76 ∷ 0 ∷ 0 ∷ []

unfoldable pub default_env : Host → Env
default_env host = record {
  balance = 100000000000000;
  entry_mode = custom_task;
  sender = host.anonymous;
  method_name = none;
  cycles_available = 0;
  cycles_refunded = 0;
  args = candid_empty_arg;
  rejection_code = no_error;
  rejection_message = [];
  time = host.now;
}

pub record CanisterCall : Type 0 where
  pub sender : Bytes
  pub request_id : ℕ
  pub callee : Bytes
  pub method : Bytes
  pub payment : ℕ
  pub arg : Bytes

-- `Env::get_entry_point_name`
unfoldable pub get_entry_point_name : Env → Bytes
get_entry_point_name env = elim env.entry_mode [
  | init ↦ as_bytes "canister_init"
  | pre_upgrade ↦ as_bytes "canister_pre_upgrade"
  | post_upgrade ↦ as_bytes "canister_post_upgrade"
  | heartbeat ↦ as_bytes "canister_heartbeat"
  | inspect_message ↦ as_bytes "canister_inspect_message"
  | update ↦ as_bytes "canister_update " ++ unwrap_or env.method_name []
  | query ↦ as_bytes "canister_query " ++ unwrap_or env.method_name []
  | reply_callback ↦ as_bytes "reply callback"
  | reject_callback ↦ as_bytes "reject callback"
  | cleanup_callback ↦ as_bytes "cleanup callback"
  | custom_task ↦ as_bytes "ic-kit: custom"
]

-- `Env::get_possible_entry_point_name`
unfoldable pub get_possible_entry_point_name : Env → Bytes
unfolding get_entry_point_name
get_possible_entry_point_name env = elim env.entry_mode [
  | update ↦ as_bytes "canister_query " ++ unwrap_or env.method_name []
  | query ↦ as_bytes "canister_update " ++ unwrap_or env.method_name []
  | _ ↦ get_entry_point_name env
]
