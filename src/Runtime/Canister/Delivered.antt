-- ===== src/Runtime/Canister/Delivered.antt =====
-- What a callback of canister.rs reads of the reply that it is run for.
use ic_kit.Base.{ℕ, ◌%◌, ◌^◌, ◌<◌, ◌≡◌, refl, ap, arith, none, [], ◌∷◌, length}
use ic_kit.Certified.HashTree.{Bytes}
use ic_kit.Runtime.Types.{Host, default_env, code_number}
use ic_kit.Runtime.EnvBuilder.{
  with_entry_mode, with_raw_args, with_cycles_refunded, with_rejection_code, with_rejection_message,
}
use ic_kit.Runtime.Call.{CallReply, reply, reject, reply_env}
use ic_kit.Runtime.Canister.Task.{number, wrote}
use ic_kit.Runtime.Canister.State.{Canister}
use ic_kit.Runtime.Canister.Guard.{
  returned, slice, copy_to_canister, sizes_args, copies_args, in_callback, in_reject,
}
use ic_kit.Runtime.Canister.Replies.{
  msg_arg_data_size, msg_arg_data_copy, msg_reject_code, msg_reject_msg_size, msg_reject_msg_copy,
}
use ic_kit.Runtime.Canister.Message.{begin}

slice-length : (bytes : Bytes) → slice 0 (length bytes) bytes ≡ bytes
unfolding slice
slice-length [] = refl
slice-length (b ∷ bytes) = ap (λ bs. b ∷ bs) (slice-length bytes)

-- A copy of the whole.
copy_to_canister-length :
    (dst : ℕ) (bytes : Bytes) (c : Canister)
    → length bytes < 2 ^ 64
    → copy_to_canister dst 0 (length bytes) bytes c ≡ returned (wrote dst bytes) c
unfolding copy_to_canister
copy_to_canister-length dst bytes c h =
    let e : length bytes % 2 ^ 64 ≡ length bytes = omega arith in
    let s = slice-length bytes in ground arith

-- The length and the bytes of what was replied; or the code, and the length and the bytes of the message.
abbrev pub Reads : CallReply → ℕ → Canister → Type 0
Reads (reply data' refund) dst c =
    (msg_arg_data_size c ≡ returned (number (length data')) c)
    × (msg_arg_data_copy dst 0 (length data') c ≡ returned (wrote dst data') c)
Reads (reject code message refund) dst c =
    (msg_reject_code c ≡ returned (number (code_number code)) c)
    × (msg_reject_msg_size c ≡ returned (number (length message)) c)
    × (msg_reject_msg_copy dst 0 (length message) c ≡ returned (wrote dst message) c)

-- The bytes that a reply carries.
abbrev pub payload : CallReply → Bytes
payload (reply data' _) = data'
payload (reject _ message _) = message

-- A callback run for a reply, whose bytes are fewer than 2 ^ 64, reads what the reply was made with: its bytes
-- where it is a success, its code and its message where it is a rejection.
pub reply_env-Reads :
    ⦃host : Host⦄ (r : CallReply) (id dst : ℕ) (c : Canister)
    → length (payload r) < 2 ^ 64
    → Reads r dst (begin id (reply_env host r) none c)
unfolding begin reply_env default_env with_entry_mode with_raw_args with_cycles_refunded
    with_rejection_code with_rejection_message msg_arg_data_size msg_arg_data_copy msg_reject_code
    msg_reject_msg_size msg_reject_msg_copy sizes_args copies_args in_callback in_reject
reply_env-Reads (reply data' refund) id dst c h = (refl, copy_to_canister-length dst data' _ h)
reply_env-Reads (reject code message refund) id dst c h =
    (refl, refl, copy_to_canister-length dst message _ h)
