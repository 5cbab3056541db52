-- ===== src/Runtime/Canister/Take.antt =====
-- The match on the message in `Canister::process_message` of ic-kit-runtime/src/canister.rs: the request that
-- is worked on, and its task. `none` is a failed `assert!`, `unwrap` or `expect`.
use ic_kit.Base.{
  ℕ, ◌-◌, ◌^◌, Bool, true, false, not, ◌&&◌, Option, none, some, ◌>>=◌, List, [], ◌∷◌,
  if◌then◌else◌, ◌==◌,
}
use ic_kit.Certified.HashTree.{Bytes}
use ic_kit.Runtime.StableMemory.{HeapStableMemory}
use ic_kit.Dict.{find, put, erase, discard}
use ic_kit.Runtime.Types.{
  Env, EntryMode, reply_callback, reject_callback, cleanup_callback, custom_task,
  get_entry_point_name, get_possible_entry_point_name,
}
use ic_kit.Runtime.Canister.Task.{Task, finish, Code}
use ic_kit.Runtime.Canister.State.{Canister, Callback, RequestCallbacks}

pub data CanisterMessage : Type 0 where
  custom : ℕ → Env → Task → CanisterMessage
  incoming : ℕ → Env → CanisterMessage
  response : ℕ → Env → CanisterMessage

-- Equal strings.
unfoldable pub same_bytes : Bytes → Bytes → Bool
same_bytes [] [] = true
same_bytes (a ∷ as') (b ∷ bs) = a == b && same_bytes as' bs
same_bytes _ _ = false

unfoldable pub symbol : Bytes → List (Bytes × Task) → Option Task
unfolding same_bytes
symbol name [] = none
symbol name ((key, task) ∷ table) = if same_bytes key name then some task else symbol name table

-- `symbol_table.get(..).or_else(..)`
unfoldable pub entry_task : Env → Canister → Option Task
unfolding symbol get_entry_point_name get_possible_entry_point_name
entry_task env c = elim (symbol (get_entry_point_name env) c.symbol_table) [
  | some task ↦ some task
  | none ↦ symbol (get_possible_entry_point_name env) c.symbol_table
]

unfoldable pub is_callback : EntryMode → Bool
is_callback reply_callback = true
is_callback reject_callback = true
is_callback _ = false

-- The modes that a request may not have.
unfoldable pub is_internal : EntryMode → Bool
is_internal reply_callback = true
is_internal reject_callback = true
is_internal cleanup_callback = true
is_internal custom_task = true
is_internal _ = false

-- The task of a callback; all ones, -1, stands for a one-way call.
unfoldable pub callback_task : ⦃code : Code⦄ → Callback → Task
callback_task ⦃code⦄ cb = if cb.0 == 2 ^ 64 - 1 then finish else code.function cb.0 cb.1

-- What the match on the message gives: the request that is worked on, its environment and its task.
pub record Job : Type 0 where
  pub id : ℕ
  pub env : Env
  pub task : Option Task
  pub canister : Canister

-- Which callback the entry mode asks for; there are no others when it is asked.
unfoldable pub chosen : EntryMode → RequestCallbacks → Callback
chosen reply_callback callbacks = callbacks.reply
chosen _ callbacks = callbacks.reject

-- A reply removes its request from those pending of the message that made it.
unfoldable pub settle : ℕ → ℕ → Canister → Option Canister
unfolding find put erase discard
settle id reply_to c = do
  set ← find id c.pending_outgoing_requests
  some (record c {
    pending_outgoing_requests = elim (discard reply_to set) [
      | [] ↦ erase id c.pending_outgoing_requests
      | i ∷ is' ↦ put id (i ∷ is') c.pending_outgoing_requests
    ];
  })

-- The match on the message. `asked` says whether a reply channel came with it.
unfoldable pub take_message : ⦃code : Code⦄ → CanisterMessage → Bool → Canister → Option Job
unfolding is_callback is_internal entry_task callback_task chosen settle find erase
take_message (custom id env task) asked c =
    if asked && not (is_callback env.entry_mode)
    then some (record { id = id; env = env; task = some task; canister = c })
    else none
take_message (incoming id env) asked c =
    if asked && not (is_internal env.entry_mode)
    then some (record { id = id; env = env; task = entry_task env c; canister = c })
    else none
take_message (response reply_to env) asked c = do
  callbacks ← find reply_to c.outgoing_calls
  elim (is_callback env.entry_mode) [
    | false ↦ none
    | true ↦ do
      c' ←
          settle callbacks.message_id reply_to
            (record c { outgoing_calls = erase reply_to c.outgoing_calls })
      some (record {
        id = callbacks.message_id;
        env = env;
        task = some (callback_task (chosen env.entry_mode callbacks));
        canister = c';
      })
  ]

-- `with_method`; `none` is the panic where the name is taken. `println!` is left out.
unfoldable pub with_method : Bytes → Task → Canister → Option Canister
unfolding symbol
with_method name task c = elim (symbol name c.symbol_table) [
  | some _ ↦ none
  | none ↦ some (record c { symbol_table = (name, task) ∷ c.symbol_table })
]

unfoldable pub with_stable : HeapStableMemory → Canister → Canister
with_stable stable c = record c { stable = stable }
