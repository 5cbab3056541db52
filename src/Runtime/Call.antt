-- ===== src/Runtime/Call.antt =====
-- ic-kit-runtime/src/call.rs: the replies of canisters, and the builder of calls.
use ic_kit.Base.{ℕ, Bool, true, false, ◌⊎◌, inl, inr, Option, none, some, unwrap_or}
use ic_kit.Certified.HashTree.{Bytes}
use ic_kit.Runtime.EnvBuilder.{
  with_entry_mode, with_sender, with_method_name, with_cycles_available, with_cycles_refunded,
  with_raw_args, with_rejection_code, with_rejection_message,
}
use ic_kit.Runtime.Types.{
  Host, Env, default_env, RejectionCode, no_error, update, reply_callback, reject_callback,
  CanisterCall, candid_empty_arg, new_request_id,
}

pub data CallReply : Type 0 where
  -- `data` and `cycles_refunded`.
  reply : Bytes → ℕ → CallReply
  -- `rejection_code`, `rejection_message` and `cycles_refunded`.
  reject : RejectionCode → Bytes → ℕ → CallReply

-- The environment of `CallReply::to_message`.
unfoldable pub reply_env : Host → CallReply → Env
unfolding default_env with_entry_mode with_raw_args with_cycles_refunded with_rejection_code
    with_rejection_message
reply_env host (reply bytes refund) =
    with_cycles_refunded refund
      (with_raw_args bytes (with_entry_mode reply_callback (default_env host)))
reply_env host (reject code message refund) = with_rejection_message message (
    with_rejection_code code
      (with_cycles_refunded refund (with_entry_mode reject_callback (default_env host))))

-- The environment of `From<CanisterCall> for CanisterMessage`.
unfoldable pub request_env : Host → CanisterCall → Env
unfolding default_env with_entry_mode with_sender with_method_name with_raw_args
    with_cycles_available
request_env host call = with_cycles_available call.payment (
    with_raw_args call.arg (
      with_method_name call.method
        (with_sender call.sender (with_entry_mode update (default_env host)))))

unfoldable pub rejection_code : CallReply → RejectionCode
rejection_code (reply _ _) = no_error
rejection_code (reject code _ _) = code

unfoldable pub rejection_message : CallReply → Option Bytes
rejection_message (reply _ _) = none
rejection_message (reject _ message _) = some message

unfoldable pub cycles_refunded : CallReply → ℕ
cycles_refunded (reply _ refund) = refund
cycles_refunded (reject _ _ refund) = refund

unfoldable pub is_ok : CallReply → Bool
is_ok (reply _ _) = true
is_ok (reject _ _ _) = false

unfoldable pub is_error : CallReply → Bool
is_error (reply _ _) = false
is_error (reject _ _ _) = true

-- `From<&CallReply> for Result<&[u8], CallError>`: the bytes, or the rejection.
unfoldable pub bytes : CallReply → (RejectionCode × Bytes) ⊎ Bytes
bytes (reply data' _) = inr data'
bytes (reject code message _) = inl (code, message)

pub record CallBuilder : Type 0 where
  pub canister_id : Bytes
  pub method_name : Bytes
  pub sender : Bytes
  pub payment : ℕ
  pub arg : Option Bytes

unfoldable pub new_builder : Host → Bytes → Bytes → CallBuilder
new_builder host canister_id method_name = record {
  canister_id = canister_id;
  method_name = method_name;
  sender = host.anonymous;
  payment = 0;
  arg = none;
}

-- `with_arg_raw`; `none` is the panic where the argument is set already.
unfoldable pub with_arg_raw : Bytes → CallBuilder → Option CallBuilder
with_arg_raw bytes b = elim b.arg [ none ↦ some (record b { arg = some bytes }) | some _ ↦ none ]

unfoldable pub with_payment : ℕ → CallBuilder → CallBuilder
with_payment cycles b = record b { payment = cycles }

unfoldable pub with_caller : Bytes → CallBuilder → CallBuilder
with_caller caller b = record b { sender = caller }

-- `From<&CallBuilder> for CanisterCall`, and the counter of requests after it.
unfoldable pub build_call : ℕ → CallBuilder → CanisterCall × ℕ
unfolding new_request_id
build_call counter b =
    let (id, counter) = new_request_id counter in
    (
      record {
        sender = b.sender;
        request_id = id;
        callee = b.canister_id;
        method = b.method_name;
        payment = b.payment;
        arg = unwrap_or b.arg candid_empty_arg;
      },
      counter,
    )
