-- ===== src/Runtime/Canister/State.antt =====
-- The state of `Canister` in ic-kit-runtime/src/canister.rs. The threads and channels have no part in it
-- but for the replies sent, kept in `sent` with the number of the channel. The receivers are taken to be
-- alive, as those of replica.rs are: a task of theirs awaits them.
use ic_kit.Base.{ℕ, ◌+◌, ◌-◌, ◌*◌, ◌%◌, ◌^◌, Option, none, some, List, [], ◌∷◌, ltb, if◌then◌else◌}
use ic_kit.Certified.HashTree.{Bytes}
use ic_kit.Dict.{Dict}
use ic_kit.Runtime.Types.{Env, Host, default_env}
use ic_kit.Runtime.Call.{CallReply}
use ic_kit.Runtime.StableMemory.{HeapStableMemory, default_memory}
use ic_kit.Runtime.Canister.Task.{Task}

-- `(callback_fun, callback_env)`, each the 64 bits of an `isize`.
abbrev pub Callback : Type 0
Callback = ℕ × ℕ

pub record RequestCallbacks : Type 0 where
  pub message_id : ℕ
  pub reply : Callback
  pub reject : Callback
  pub cleanup : Option Callback

-- The tuple of `pending_call` and of `call_queue`.
pub record PendingCall : Type 0 where
  pub callee : Bytes
  pub method : Bytes
  pub callbacks : RequestCallbacks
  pub payment : ℕ
  pub arg : Bytes

pub record Canister : Type 0 where
  pub canister_id : Bytes
  pub symbol_table : List (Bytes × Task)
  pub msg_reply_data : Bytes
  pub msg_reply_senders : Dict ℕ
  pub msg_reply : Option CallReply
  pub cycles_available_store : Dict ℕ
  pub cycles_accepted : ℕ
  pub pending_outgoing_requests : Dict (List ℕ)
  pub outgoing_calls : Dict RequestCallbacks
  pub env : Env
  pub stable : HeapStableMemory
  pub request_id : Option ℕ
  pub call_queue : List PendingCall
  pub pending_call : Option PendingCall
  pub sent : List (ℕ × CallReply)

unfoldable pub new_canister : ⦃host : Host⦄ → Bytes → Canister
unfolding default_env default_memory
new_canister ⦃host⦄ id = record {
  canister_id = id;
  symbol_table = [];
  msg_reply_data = [];
  msg_reply_senders = [];
  msg_reply = none;
  cycles_available_store = [];
  cycles_accepted = 0;
  pending_outgoing_requests = [];
  outgoing_calls = [];
  env = default_env host;
  stable = default_memory;
  request_id = none;
  call_queue = [];
  pending_call = none;
  sent = [];
}

-- Addition on `u128`, which wraps.
unfoldable pub add128 : ℕ → ℕ → ℕ
add128 a b = (a + b) % 2 ^ 128

-- `x as u128` on the bits of an `i64`, which extends its sign.
unfoldable pub extend : ℕ → ℕ
extend n = if ltb n (2 ^ 63) then n else n + (2 ^ 128 - 2 ^ 64)

-- `high << 64 + low`, in which `+` binds more tightly: the shift is by `64 + low`, of which `<<` takes the
-- low 7 bits.
unfoldable pub amount128 : ℕ → ℕ → ℕ
unfolding add128 extend
amount128 high low = extend high * 2 ^ (add128 64 (extend low) % 128) % 2 ^ 128

-- `MAX_CYCLES_PER_RESPONSE`
abbrev pub max_cycles_per_response : ℕ
max_cycles_per_response = 12

-- What discarding a call gives back.
unfoldable pub refund : ℕ → PendingCall → ℕ
unfolding add128
refund balance p = add128 balance (add128 max_cycles_per_response p.payment)

unfoldable pub discard_pending_call : Canister → Canister
unfolding refund
discard_pending_call c = elim c.pending_call [
  | none ↦ c
  | some p ↦ record c {
    pending_call = none;
    env = record (c.env) { balance = refund c.env.balance p };
  }
]

-- The loop of `discard_call_queue` pops from the end.
unfoldable pub refund_all : List PendingCall → ℕ → ℕ
unfolding refund
refund_all [] balance = balance
refund_all (p ∷ queue) balance = refund (refund_all queue balance) p

unfoldable pub discard_call_queue : Canister → Canister
unfolding refund_all
discard_call_queue c = record c {
  call_queue = [];
  env = record (c.env) { balance = refund_all c.call_queue c.env.balance };
}
