-- ===== src/Runtime/Canister/Permissions.antt =====
-- The table of ic-kit-sys/src/ic0.rs: from where each system call may be made.
use ic_kit.Base.{Bool, true, false, ◌≡◌, arith}
use ic_kit.Runtime.Types.{
  Host, EntryMode, init, pre_upgrade, post_upgrade, heartbeat, inspect_message, update, query,
  reply_callback, reject_callback, custom_task,
}
use ic_kit.Runtime.Canister.Task.{SysCall}
use ic_kit.Runtime.Canister.State.{Canister}
use ic_kit.Runtime.Canister.Guard.{Outcome, returned, may_call}
use ic_kit.Runtime.Canister.Replies.{
  msg_arg_data_size, msg_arg_data_copy, msg_caller_size, msg_caller_copy, msg_reject_code,
  msg_reject_msg_size, msg_reject_msg_copy, msg_reply_data_append, msg_reply, msg_reject,
  msg_method_name_size, msg_method_name_copy,
}
use ic_kit.Runtime.Canister.Cycles.{
  msg_cycles_available, msg_cycles_available128, msg_cycles_refunded, msg_cycles_refunded128,
  msg_cycles_accept, msg_cycles_accept128, canister_cycle_balance, canister_cycle_balance128,
}
use ic_kit.Runtime.Canister.Calls.{
  call_new, call_on_cleanup, call_data_append, call_cycles_add, call_cycles_add128, call_perform,
}
use ic_kit.Runtime.Canister.System.{
  canister_stable_size, canister_stable_grow, canister_stable_write, canister_stable_read, proxy,
  canister_self_size, canister_self_copy, stable64_size, stable64_grow, stable64_write,
  stable64_read, trap,
}
use ic_kit.Runtime.Canister.Message.{is_some}

-- The letters of the table's comments. `init` and `post_upgrade` are both I; a custom task is the simulator's
-- own and may do everything.
abbrev Letters : Type 0
Letters = EntryMode → Bool

init_update_query_reply_inspect : Letters
init_update_query_reply_inspect init = true
init_update_query_reply_inspect post_upgrade = true
init_update_query_reply_inspect inspect_message = true
init_update_query_reply_inspect update = true
init_update_query_reply_inspect query = true
init_update_query_reply_inspect reply_callback = true
init_update_query_reply_inspect custom_task = true
init_update_query_reply_inspect _ = false

entry_points : Letters
entry_points init = true
entry_points pre_upgrade = true
entry_points post_upgrade = true
entry_points inspect_message = true
entry_points update = true
entry_points query = true
entry_points custom_task = true
entry_points _ = false

reply_or_reject : Letters
reply_or_reject reply_callback = true
reply_or_reject reject_callback = true
reply_or_reject custom_task = true
reply_or_reject _ = false

reject_only : Letters
reject_only reject_callback = true
reject_only custom_task = true
reject_only _ = false

answering : Letters
answering update = true
answering query = true
answering reply_callback = true
answering reject_callback = true
answering custom_task = true
answering _ = false

funded : Letters
funded update = true
funded reply_callback = true
funded reject_callback = true
funded custom_task = true
funded _ = false

inspect_only : Letters
inspect_only inspect_message = true
inspect_only custom_task = true
inspect_only _ = false

storing : Letters
storing init = true
storing post_upgrade = true
storing pre_upgrade = true
storing update = true
storing reply_callback = true
storing reject_callback = true
storing heartbeat = true
storing custom_task = true
storing _ = false

calling : Letters
calling heartbeat = true
calling update = true
calling reply_callback = true
calling reject_callback = true
calling custom_task = true
calling _ = false

-- The table, a row for a call; the calls that are not listed have a star.
pub spec_permits : SysCall → Letters
spec_permits SysCall.msg_arg_data_size = init_update_query_reply_inspect
spec_permits (SysCall.msg_arg_data_copy _ _ _) = init_update_query_reply_inspect
spec_permits SysCall.msg_caller_size = entry_points
spec_permits (SysCall.msg_caller_copy _ _ _) = entry_points
spec_permits SysCall.msg_reject_code = reply_or_reject
spec_permits SysCall.msg_reject_msg_size = reject_only
spec_permits (SysCall.msg_reject_msg_copy _ _ _) = reject_only
spec_permits (SysCall.msg_reply_data_append _) = answering
spec_permits SysCall.msg_reply = answering
spec_permits (SysCall.msg_reject _) = answering
spec_permits SysCall.msg_cycles_available = funded
spec_permits (SysCall.msg_cycles_available128 _) = funded
spec_permits SysCall.msg_cycles_refunded = reply_or_reject
spec_permits (SysCall.msg_cycles_refunded128 _) = reply_or_reject
spec_permits (SysCall.msg_cycles_accept _) = funded
spec_permits (SysCall.msg_cycles_accept128 _ _ _) = funded
spec_permits SysCall.msg_method_name_size = inspect_only
spec_permits (SysCall.msg_method_name_copy _ _ _) = inspect_only
spec_permits SysCall.accept_message = inspect_only
spec_permits (SysCall.call_new _ _ _ _ _ _) = calling
spec_permits (SysCall.call_on_cleanup _ _) = calling
spec_permits (SysCall.call_data_append _) = calling
spec_permits (SysCall.call_cycles_add _) = calling
spec_permits (SysCall.call_cycles_add128 _ _) = calling
spec_permits SysCall.call_perform = calling
spec_permits (SysCall.certified_data_set _) = storing
spec_permits _ = λ mode. true

-- A call that returns was permitted, and a call is under construction only where one may be made.
abbrev pub Permitted : SysCall → Canister → Outcome → Type 0
Permitted call c (returned _ d) =
    (spec_permits call c.env.entry_mode ≡ true)
    × (is_some d.pending_call ≡ true → may_call d.env.entry_mode ≡ true)
Permitted call c _ = Unit

module _ ⦃host : Host⦄ where
  -- Where a call is under construction only in a mode that may make calls, a system call that returns was made
  -- from an entry point that the table of ic0.rs names for it, or from a custom task; and that stays so.
  pub proxy-Permitted :
      (call : SysCall) (c : Canister)
      → (is_some c.pending_call ≡ true → may_call c.env.entry_mode ≡ true)
      → Permitted call c (proxy call c)
  unfolding canister_stable_size canister_stable_grow canister_stable_write canister_stable_read
      proxy canister_self_size canister_self_copy stable64_size stable64_grow stable64_write
      stable64_read trap msg_arg_data_size msg_arg_data_copy msg_caller_size msg_caller_copy
      msg_reject_code msg_reject_msg_size msg_reject_msg_copy msg_reply_data_append msg_reply
      msg_reject msg_method_name_size msg_method_name_copy msg_cycles_available
      msg_cycles_available128 msg_cycles_refunded msg_cycles_refunded128 msg_cycles_accept
      msg_cycles_accept128 canister_cycle_balance canister_cycle_balance128 call_new call_on_cleanup
      call_data_append call_cycles_add call_cycles_add128 call_perform
      init_update_query_reply_inspect entry_points reply_or_reject reject_only answering funded
      inspect_only calling spec_permits
  proxy-Permitted SysCall.msg_arg_data_size c h = ground arith
  proxy-Permitted (SysCall.msg_arg_data_copy dst offset size) c h = ground arith
  proxy-Permitted SysCall.msg_caller_size c h = ground arith
  proxy-Permitted (SysCall.msg_caller_copy dst offset size) c h = ground arith
  proxy-Permitted SysCall.msg_reject_code c h = ground arith
  proxy-Permitted SysCall.msg_reject_msg_size c h = ground arith
  proxy-Permitted (SysCall.msg_reject_msg_copy dst offset size) c h = ground arith
  proxy-Permitted (SysCall.msg_reply_data_append bytes) c h = ground arith
  proxy-Permitted SysCall.msg_reply c h = ground arith
  proxy-Permitted (SysCall.msg_reject bytes) c h = ground arith
  proxy-Permitted SysCall.msg_cycles_available c h = ground arith
  proxy-Permitted (SysCall.msg_cycles_available128 dst) c h = ground arith
  proxy-Permitted SysCall.msg_cycles_refunded c h = ground arith
  proxy-Permitted (SysCall.msg_cycles_refunded128 dst) c h = ground arith
  proxy-Permitted (SysCall.msg_cycles_accept max_amount) c h = ground arith
  proxy-Permitted (SysCall.msg_cycles_accept128 high low dst) c h = ground arith
  proxy-Permitted SysCall.canister_self_size c h = ground arith
  proxy-Permitted (SysCall.canister_self_copy dst offset size) c h = ground arith
  proxy-Permitted SysCall.canister_cycle_balance c h = ground arith
  proxy-Permitted (SysCall.canister_cycle_balance128 dst) c h = ground arith
  proxy-Permitted SysCall.canister_status c h = ground arith
  proxy-Permitted SysCall.msg_method_name_size c h = ground arith
  proxy-Permitted (SysCall.msg_method_name_copy dst offset size) c h = ground arith
  proxy-Permitted SysCall.accept_message c h = ground arith
  proxy-Permitted (SysCall.call_new callee name rf re jf je) c h = ground arith
  proxy-Permitted (SysCall.call_on_cleanup fun env) c h = ground arith
  proxy-Permitted (SysCall.call_data_append bytes) c h = ground arith
  proxy-Permitted (SysCall.call_cycles_add amount) c h = ground arith
  proxy-Permitted (SysCall.call_cycles_add128 high low) c h = ground arith
  proxy-Permitted SysCall.call_perform c h = ground arith
  proxy-Permitted SysCall.stable_size c h = ground arith
  proxy-Permitted (SysCall.stable_grow new_pages) c h = ground arith
  proxy-Permitted (SysCall.stable_write offset bytes) c h = ground arith
  proxy-Permitted (SysCall.stable_read dst offset size) c h = ground arith
  proxy-Permitted SysCall.stable64_size c h = ground arith
  proxy-Permitted (SysCall.stable64_grow new_pages) c h = ground arith
  proxy-Permitted (SysCall.stable64_write offset bytes) c h = ground arith
  proxy-Permitted (SysCall.stable64_read dst offset size) c h = ground arith
  proxy-Permitted (SysCall.certified_data_set bytes) c h = ground arith
  proxy-Permitted SysCall.data_certificate_present c h = ground arith
  proxy-Permitted SysCall.data_certificate_size c h = ground arith
  proxy-Permitted (SysCall.data_certificate_copy dst offset size) c h = ground arith
  proxy-Permitted SysCall.time c h = ground arith
  proxy-Permitted (SysCall.performance_counter counter_type) c h = ground arith
  proxy-Permitted (SysCall.debug_print bytes) c h = ground arith
  proxy-Permitted (SysCall.trap bytes) c h = ground arith
