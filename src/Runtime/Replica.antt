-- ===== src/Runtime/Replica.antt =====
-- ic-kit-runtime/src/replica.rs: the state of the replica, and what its worker does with each message. A
-- channel whose receiver has been dropped takes no more messages: that of a canister where its worker has
-- ended, and one for a reply where nothing waits for it. `none` is a panic.
pub mod NextId
pub mod Route
use ic_kit.Base.{
  ℕ, zero, suc, ◌+◌, ◌/◌, ◌%◌, ◌^◌, Bool, true, false, Option, none, some, ◌>>=◌, List, [], ◌∷◌,
  ◌++◌, length, if◌then◌else◌,
}
use ic_kit.Certified.HashTree.{Bytes, as_bytes}
use ic_kit.Dict.{member}
use ic_kit.Runtime.Types.{Host, Env, destination_invalid}
use ic_kit.Runtime.Call.{CallReply, reject}
use ic_kit.Runtime.Canister.State.{Canister}
use ic_kit.Runtime.Canister.Take.{CanisterMessage, custom, incoming, response, same_bytes}

-- `CanisterWorkerMessage::Message`: the message and the reply channel.
abbrev pub WorkerMessage : Type 0
WorkerMessage = CanisterMessage × Option ℕ

-- The channel of a canister: whether its worker runs, and the messages that the worker has not taken yet.
pub record Channel : Type 0 where
  pub running : Bool
  pub waiting : List WorkerMessage

-- `answers` are the replies that the replica itself sends; the receivers of the reply channels in `dropped`
-- are gone.
pub record ReplicaState : Type 0 where
  pub canisters : List (Bytes × Channel)
  pub created : List Bytes
  pub answers : List (ℕ × CallReply)
  pub dropped : List ℕ

-- `HashMap::get`
unfoldable pub lookup : {A : Type 0} → Bytes → List (Bytes × A) → Option A
unfolding same_bytes
lookup id [] = none
lookup id ((key, a) ∷ table) = if same_bytes key id then some a else lookup id table

-- `HashMap::contains_key`
unfoldable pub contains_key : {A : Type 0} → Bytes → List (Bytes × A) → Bool
unfolding same_bytes
contains_key id [] = false
contains_key id ((key, a) ∷ table) = if same_bytes key id then true else contains_key id table

-- `HashSet::insert`
unfoldable pub insert_id : Bytes → List Bytes → List Bytes
unfolding same_bytes
insert_id id [] = id ∷ []
insert_id id (key ∷ set) =
    let rest = insert_id id set in if same_bytes key id then key ∷ set else key ∷ rest

-- `canister_id`
unfoldable pub canister_id : ⦃host : Host⦄ → ℕ → Bytes
canister_id ⦃host⦄ n = host.from_slice (
    (n / 2 ^ 56 % 256)
    ∷ (n / 2 ^ 48 % 256)
    ∷ (n / 2 ^ 40 % 256)
    ∷ (n / 2 ^ 32 % 256)
    ∷ (n / 2 ^ 24 % 256)
    ∷ (n / 2 ^ 16 % 256)
    ∷ (n / 2 ^ 8 % 256)
    ∷ (n % 256)
    ∷ 1
    ∷ 1
    ∷ [])

-- The loop of `get_next_canister_id`, on fuel.
unfoldable pub next_id_from : ⦃host : Host⦄ {A : Type 0} → ℕ → List (Bytes × A) → ℕ → Option Bytes
unfolding canister_id contains_key
next_id_from zero canisters id = none
next_id_from (suc fuel) canisters id =
    let rest = next_id_from fuel canisters ((id + 1) % 2 ^ 64) in
    if contains_key (canister_id id) canisters then rest else some (canister_id id)

-- One round more than there are canisters.
unfoldable pub get_next_canister_id : ⦃host : Host⦄ → ReplicaState → Option Bytes
unfolding next_id_from
get_next_canister_id s = next_id_from (length s.canisters + 1) s.canisters (length s.created)

unfoldable pub create_canister : ⦃host : Host⦄ → ReplicaState → Option (ReplicaState × Bytes)
unfolding get_next_canister_id insert_id
create_canister s = do
  id ← get_next_canister_id s
  some (record s { created = insert_id id s.created }, id)

-- The canister's worker starts with an empty channel.
unfoldable pub install_code : Canister → ReplicaState → Option ReplicaState
unfolding contains_key
install_code canister s =
    if contains_key canister.canister_id s.canisters
    then none
    else some (record s {
      canisters = (canister.canister_id, record { running = true; waiting = [] }) ∷ s.canisters;
    })

-- `UnboundedSender::send`, which fails where the receiver is gone.
unfoldable pub enqueue : WorkerMessage → Channel → Option Channel
enqueue m channel =
    if channel.running then some (record channel { waiting = channel.waiting ++ m ∷ [] }) else none

-- `chan.send` on the channel of the canister.
unfoldable pub send :
    Bytes → WorkerMessage → List (Bytes × Channel) → Option (List (Bytes × Channel))
unfolding same_bytes enqueue
send id m [] = some []
send id m ((key, channel) ∷ table) =
    let rest = send id m table in
    if same_bytes key id
    then (do c ← enqueue m channel; some ((key, c) ∷ table))
    else (do t ← rest; some ((key, channel) ∷ t))

-- The cycles that the rejection of a message gives back.
unfoldable pub refund_of : CanisterMessage → ℕ
refund_of (custom id env task) = env.cycles_available
refund_of (incoming id env) = env.cycles_refunded
refund_of (response reply_to env) = 0

unfoldable pub no_canister : ⦃host : Host⦄ → Bytes → CanisterMessage → CallReply
unfolding refund_of
no_canister ⦃host⦄ id message =
    reject destination_invalid
      (as_bytes "Canister '" ++ (host.to_text id ++ as_bytes "' does not exists"))
      (refund_of message)

unfoldable pub canister_request :
    ⦃host : Host⦄ → Bytes → CanisterMessage → Option ℕ → ReplicaState → Option ReplicaState
unfolding contains_key send no_canister member
canister_request id message reply_sender s =
    if contains_key id s.canisters
    then (do
      table ← send id (message, reply_sender) s.canisters
      some (record s { canisters = table }))
    else elim reply_sender [
      | none ↦ none
      | some channel ↦
          if member channel s.dropped
          then none
          else some (record s { answers = s.answers ++ (channel, no_canister id message) ∷ [] })
    ]

unfoldable pub canister_reply : Bytes → CanisterMessage → ReplicaState → Option ReplicaState
unfolding contains_key send
canister_reply id message s =
    if contains_key id s.canisters
    then (do table ← send id (message, none) s.canisters; some (record s { canisters = table }))
    else none
