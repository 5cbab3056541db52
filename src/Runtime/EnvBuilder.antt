-- ===== src/Runtime/EnvBuilder.antt =====
-- ic-kit-runtime/src/types.rs: how environments are built.
use ic_kit.Base.{ℕ, some}
use ic_kit.Certified.HashTree.{Bytes}
use ic_kit.Runtime.Types.{
  Host, Env, EntryMode, init, pre_upgrade, post_upgrade, heartbeat, update, query, RejectionCode,
  default_env,
}

unfoldable pub with_balance : ℕ → Env → Env
with_balance cycles env = record env { balance = cycles }

unfoldable pub with_time : ℕ → Env → Env
with_time n env = record env { time = n }

unfoldable pub with_entry_mode : EntryMode → Env → Env
with_entry_mode mode env = record env { entry_mode = mode }

unfoldable pub with_sender : Bytes → Env → Env
with_sender id env = record env { sender = id }

unfoldable pub with_cycles_available : ℕ → Env → Env
with_cycles_available cycles env = record env { cycles_available = cycles }

unfoldable pub with_cycles_refunded : ℕ → Env → Env
with_cycles_refunded cycles env = record env { cycles_refunded = cycles }

unfoldable pub with_rejection_code : RejectionCode → Env → Env
with_rejection_code code env = record env { rejection_code = code }

unfoldable pub with_rejection_message : Bytes → Env → Env
with_rejection_message message env = record env { rejection_message = message }

unfoldable pub with_method_name : Bytes → Env → Env
with_method_name name env = record env { method_name = some name }

unfoldable pub with_raw_args : Bytes → Env → Env
with_raw_args argument env = record env { args = argument }

-- `Env::update` and `Env::query`.
unfoldable pub update_env : Host → Bytes → Env
unfolding default_env with_entry_mode with_method_name
update_env host method_name =
    with_method_name method_name (with_entry_mode update (default_env host))

unfoldable pub query_env : Host → Bytes → Env
unfolding default_env with_entry_mode with_method_name
query_env host method_name = with_method_name method_name (with_entry_mode query (default_env host))

unfoldable pub init_env : Host → Env
unfolding default_env with_entry_mode
init_env host = with_entry_mode init (default_env host)

unfoldable pub pre_upgrade_env : Host → Env
unfolding default_env with_entry_mode
pre_upgrade_env host = with_entry_mode pre_upgrade (default_env host)

unfoldable pub post_upgrade_env : Host → Env
unfolding default_env with_entry_mode
post_upgrade_env host = with_entry_mode post_upgrade (default_env host)

unfoldable pub heartbeat_env : Host → Env
unfolding default_env with_entry_mode
heartbeat_env host = with_entry_mode heartbeat (default_env host)
