-- ===== src/Tests/Replicas.antt =====
-- The replica and the stable memory of the runtime: the theorems at small states.
use ic_kit.Base.{◌≡◌, refl, arith, [], ◌∷◌, none, some, true, false, length, Returns}
use ic_kit.Certified.HashTree.{Bytes}
use ic_kit.Dict.{member}
use ic_kit.Runtime.StableMemory.{
  HeapStableMemory, at, assign, write_byte, stable_write, stable_read,
}
use ic_kit.Runtime.StableMemory.Laws.{stable_read-stable_write}
use ic_kit.Runtime.Canister.Take.{incoming, same_bytes}
use ic_kit.Runtime.Replica.{
  ReplicaState, lookup, enqueue, send, contains_key, canister_id, canister_request,
  get_next_canister_id, next_id_from,
}
use ic_kit.Runtime.Replica.NextId.{Next, get_next_canister_id-Next}
use ic_kit.Runtime.Replica.Route.{
  Requests, AllRunning, sent_to, request_all, Routed, request_all-Routed,
}
use ic_kit.Tests.Messages.{toy_host, call_env}

-- Growing, in a memory small enough to hold one page of four bytes.
abbrev scratch : HeapStableMemory
scratch = record { pages = (0 ∷ 0 ∷ 0 ∷ 0 ∷ []) ∷ []; max_pages = 2 }

abbrev written : HeapStableMemory
written = record { pages = (0 ∷ 8 ∷ 9 ∷ 0 ∷ []) ∷ []; max_pages = 2 }

abbrev pair : Bytes
pair = 8 ∷ 9 ∷ []

stable_read-stable_write_example : stable_read 1 (length pair) written ≡ some pair
unfolding stable_write write_byte at assign
stable_read-stable_write_example = stable_read-stable_write pair 1 scratch written refl

-- A replica where the first id is taken.
abbrev replica : ReplicaState
unfolding canister_id
replica = record {
  canisters = (canister_id 0, record { running = true; waiting = [] }) ∷ [];
  created = [];
  answers = [];
  dropped = [];
}

get_next_canister_id-Next_example :
    Returns
      (Next replica.canisters (length replica.created) (length replica.canisters))
      (get_next_canister_id replica)
unfolding replica
get_next_canister_id-Next_example = get_next_canister_id-Next replica (λ a b p q e. e) (omega arith)

-- The id found is that of the number 1.
next_id : get_next_canister_id replica ≡ some (canister_id 1)
unfolding replica get_next_canister_id next_id_from contains_key same_bytes canister_id
next_id = refl

only_canister : AllRunning replica.canisters
unfolding replica lookup
only_canister id channel e = ground arith

-- Two requests for the canister, and one between them for another.
abbrev requests : Requests
requests =
    (canister_id 0, incoming 7 call_env, 9)
    ∷ (canister_id 1, incoming 8 call_env, 10)
    ∷ (canister_id 0, incoming 9 call_env, 11)
    ∷ []

request_all-Routed_example : Returns (Routed requests replica) (request_all requests replica)
unfolding member replica
request_all-Routed_example =
    request_all-Routed requests replica only_canister (refl, (refl, (refl, tt)))

order :
    sent_to (canister_id 0) requests
    ≡ (incoming 7 call_env, some 9) ∷ (incoming 9 call_env, some 11) ∷ []
unfolding sent_to same_bytes canister_id
order = refl

-- A request for a canister whose worker has ended.
ended :
    canister_request (canister_id 0) (incoming 7 call_env) (some 9) (record replica {
      canisters = (canister_id 0, record { running = false; waiting = [] }) ∷ [];
    })
    ≡ none
unfolding canister_request contains_key send enqueue same_bytes canister_id
ended = refl
