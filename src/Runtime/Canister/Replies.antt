-- ===== src/Runtime/Canister/Replies.antt =====
-- The system calls of canister.rs on the message's arguments, caller, rejection and reply.
use ic_kit.Base.{ℕ, Bool, true, false, not, none, some, [], ◌++◌, length, if◌then◌else◌}
use ic_kit.Certified.HashTree.{Bytes, as_bytes}
use ic_kit.Dict.{find}
use ic_kit.Runtime.Types.{Host, code_number, canister_reject}
use ic_kit.Runtime.Call.{reply, reject}
use ic_kit.Runtime.Canister.Task.{nothing, number}
use ic_kit.Runtime.Canister.State.{Canister}
use ic_kit.Runtime.Canister.Guard.{
  Outcome, returned, failed, panicked, guarded, with_request, sizes_args, copies_args, knows_caller,
  in_callback, in_reject, may_reply, inspects, copy_to_canister,
}

unfoldable pub msg_arg_data_size : Canister → Outcome
unfolding sizes_args
msg_arg_data_size c =
    guarded sizes_args (as_bytes "msg_arg_data_size") c (returned (number (length c.env.args)) c)

unfoldable pub msg_arg_data_copy : ℕ → ℕ → ℕ → Canister → Outcome
unfolding copies_args copy_to_canister
msg_arg_data_copy dst offset size c =
    guarded copies_args (as_bytes "msg_arg_data_copy") c
      (copy_to_canister dst offset size c.env.args c)

unfoldable pub msg_caller_size : Canister → Outcome
unfolding knows_caller
msg_caller_size c =
    guarded knows_caller (as_bytes "msg_caller_size") c (returned (number (length c.env.sender)) c)

unfoldable pub msg_caller_copy : ℕ → ℕ → ℕ → Canister → Outcome
unfolding knows_caller copy_to_canister
msg_caller_copy dst offset size c =
    guarded knows_caller (as_bytes "msg_caller_copy") c
      (copy_to_canister dst offset size c.env.sender c)

unfoldable pub msg_reject_code : Canister → Outcome
unfolding in_callback code_number
msg_reject_code c =
    guarded in_callback (as_bytes "msg_reject_code") c
      (returned (number (code_number c.env.rejection_code)) c)

unfoldable pub msg_reject_msg_size : Canister → Outcome
unfolding in_reject
msg_reject_msg_size c =
    guarded in_reject (as_bytes "msg_reject_msg_size") c
      (returned (number (length c.env.rejection_message)) c)

unfoldable pub msg_reject_msg_copy : ℕ → ℕ → ℕ → Canister → Outcome
unfolding in_reject copy_to_canister
msg_reject_msg_copy dst offset size c =
    guarded in_reject (as_bytes "msg_reject_msg_copy") c
      (copy_to_canister dst offset size c.env.rejection_message c)

-- `self.msg_reply_senders.contains_key(&id)`
unfoldable pub awaits : ℕ → Canister → Bool
unfolding find
awaits id c = elim (find id c.msg_reply_senders) [ none ↦ false | some _ ↦ true ]

unfoldable pub msg_reply_data_append : Bytes → Canister → Outcome
unfolding may_reply awaits
msg_reply_data_append bytes c = guarded may_reply (as_bytes "msg_reply_data_append") c (
    with_request c λ id.
      if awaits id c
      then returned nothing (record c { msg_reply_data = c.msg_reply_data ++ bytes })
      else failed (as_bytes "msg_reply_data_append may only be invoked before canister responses.")
          c)

-- `self.msg_reply.is_some() || !self.msg_reply_senders.contains_key(&message_id)`
unfoldable pub is_replied : ℕ → Canister → Bool
unfolding awaits
is_replied id c = elim c.msg_reply [ none ↦ not (awaits id c) | some _ ↦ true ]

unfoldable pub msg_reply : Canister → Outcome
unfolding may_reply is_replied
msg_reply c = guarded may_reply (as_bytes "msg_reply") c (
    with_request c λ id.
      if is_replied id c
      then failed (as_bytes "Current call is already replied to.") c
      else returned nothing (record c {
        msg_reply_data = [];
        env = record (c.env) { cycles_available = 0 };
        msg_reply = some (reply c.msg_reply_data c.env.cycles_available);
      }))

unfoldable pub msg_reject : ⦃host : Host⦄ → Bytes → Canister → Outcome
unfolding may_reply is_replied
msg_reject ⦃host⦄ bytes c = guarded may_reply (as_bytes "msg_reject") c (
    with_request c λ id.
      if is_replied id c
      then failed (as_bytes "Current call is already replied to.")
          (record c { msg_reply_data = [] })
      else returned nothing (record c {
        msg_reply_data = [];
        env = record (c.env) { cycles_available = 0 };
        msg_reply =
            some (reject canister_reject (host.from_utf8_lossy bytes) c.env.cycles_available);
      }))

unfoldable pub msg_method_name_size : Canister → Outcome
unfolding inspects
msg_method_name_size c =
    guarded inspects (as_bytes "msg_method_name_size") c
      (elim c.env.method_name [ none ↦ panicked | some name ↦ returned (number (length name)) c ])

unfoldable pub msg_method_name_copy : ℕ → ℕ → ℕ → Canister → Outcome
unfolding inspects copy_to_canister
msg_method_name_copy dst offset size c =
    guarded inspects (as_bytes "msg_method_name_copy") c (elim c.env.method_name [
      | none ↦ panicked
      | some name ↦ copy_to_canister dst offset size name c
    ])
