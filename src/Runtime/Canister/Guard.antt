-- ===== src/Runtime/Canister/Guard.antt =====
-- What a system call of canister.rs ends in, the entry modes it may be made from, and the copies to the
-- canister's memory.
use ic_kit.Base.{
  ℕ, zero, suc, ◌+◌, ◌/◌, ◌%◌, ◌^◌, Bool, true, false, none, some, [], ◌∷◌, ◌++◌, length, ltb,
  if◌then◌else◌,
}
use ic_kit.Certified.HashTree.{Bytes, as_bytes}
use ic_kit.Runtime.Types.{
  EntryMode, init, pre_upgrade, post_upgrade, heartbeat, inspect_message, update, query,
  reply_callback, reject_callback, custom_task, get_entry_point_name,
}
use ic_kit.Runtime.Canister.Task.{Value, wrote}
use ic_kit.Runtime.Canister.State.{Canister}

-- `Ok`, `Err`, and a panic of the runtime itself.
pub data Outcome : Type 0 where
  returned : Value → Canister → Outcome
  failed : Bytes → Canister → Outcome
  panicked : Outcome

-- `Err(format!("{} can not be called from '{}'", name, self.env.get_entry_point_name()))`
unfoldable pub forbidden : Bytes → Canister → Bytes
unfolding get_entry_point_name
forbidden name c =
    name ++ (as_bytes " can not be called from '" ++ (get_entry_point_name c.env ++ as_bytes "'"))

-- The match on the entry mode: one of the modes listed, or an error.
abbrev pub guarded : (EntryMode → Bool) → Bytes → Canister → Outcome → Outcome
guarded permits name c body = if permits c.env.entry_mode then body else failed (forbidden name c) c

-- `self.request_id.expect(…)`
abbrev pub with_request : Canister → (ℕ → Outcome) → Outcome
with_request c body = elim c.request_id [ none ↦ panicked | some id ↦ body id ]

-- The modes of `msg_arg_data_size`.
unfoldable pub sizes_args : EntryMode → Bool
sizes_args custom_task = true
sizes_args init = true
sizes_args update = true
sizes_args query = true
sizes_args reply_callback = true
sizes_args inspect_message = true
sizes_args _ = false

-- The modes of `msg_arg_data_copy`.
unfoldable pub copies_args : EntryMode → Bool
copies_args custom_task = true
copies_args init = true
copies_args post_upgrade = true
copies_args update = true
copies_args query = true
copies_args reply_callback = true
copies_args inspect_message = true
copies_args _ = false

-- The modes of `msg_caller_size` and `msg_caller_copy`.
unfoldable pub knows_caller : EntryMode → Bool
knows_caller custom_task = true
knows_caller init = true
knows_caller post_upgrade = true
knows_caller pre_upgrade = true
knows_caller update = true
knows_caller query = true
knows_caller inspect_message = true
knows_caller _ = false

-- The modes of `msg_reject_code`, `msg_cycles_refunded` and `msg_cycles_refunded128`.
unfoldable pub in_callback : EntryMode → Bool
in_callback custom_task = true
in_callback reply_callback = true
in_callback reject_callback = true
in_callback _ = false

-- The modes of `msg_reject_msg_size` and `msg_reject_msg_copy`.
unfoldable pub in_reject : EntryMode → Bool
in_reject custom_task = true
in_reject reject_callback = true
in_reject _ = false

-- The modes of `msg_reply_data_append`, `msg_reply` and `msg_reject`.
unfoldable pub may_reply : EntryMode → Bool
may_reply custom_task = true
may_reply update = true
may_reply query = true
may_reply reply_callback = true
may_reply reject_callback = true
may_reply _ = false

-- The modes of the calls on available cycles.
unfoldable pub has_cycles : EntryMode → Bool
has_cycles custom_task = true
has_cycles update = true
has_cycles reply_callback = true
has_cycles reject_callback = true
has_cycles _ = false

-- The modes of `msg_method_name_size` and `msg_method_name_copy`.
unfoldable pub inspects : EntryMode → Bool
inspects custom_task = true
inspects inspect_message = true
inspects _ = false

-- The modes of `call_new`.
unfoldable pub may_call : EntryMode → Bool
may_call custom_task = true
may_call update = true
may_call reply_callback = true
may_call reject_callback = true
may_call heartbeat = true
may_call _ = false

-- `data[offset..offset + size]` where it is in range.
unfoldable pub slice : ℕ → ℕ → Bytes → Bytes
slice offset zero bytes = []
slice offset (suc size) [] = []
slice zero (suc size) (b ∷ bytes) = b ∷ slice zero size bytes
slice (suc offset) (suc size) (b ∷ bytes) = slice offset (suc size) bytes

-- `copy_to_canister`. The end of the range is a `usize`; a range that ends before it starts panics.
unfoldable pub copy_to_canister : ℕ → ℕ → ℕ → Bytes → Canister → Outcome
unfolding slice
copy_to_canister dst offset size bytes c =
    let end = (offset + size) % 2 ^ 64 in
    if ltb (length bytes) end
    then failed (as_bytes "Out of bound read.") c
    else if ltb end offset
    then panicked
    else returned (wrote dst (slice offset size bytes)) c

-- `to_le_bytes`, of the given number of bytes.
unfoldable pub to_le_bytes : ℕ → ℕ → Bytes
to_le_bytes zero n = []
to_le_bytes (suc k) n = (n % 256) ∷ to_le_bytes k (n / 256)
