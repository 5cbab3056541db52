-- ===== src/Runtime/Replica/Route.antt =====
-- Where replica.rs sends the requests that it is given, one after another.
use ic_kit.Base.{
  ◌≡◌, refl, sym, ap, ◌∙◌, arith, true, false, ℕ, Option, none, some, ◌>>=◌, List, [], ◌∷◌, ◌++◌,
  append_assoc, append-nil, Bool-cases, Option-cases, inl, inr, Returns, Returns-bind, Returns-imp,
  subst, if◌then◌else◌,
}
use ic_kit.Certified.HashTree.{Bytes}
use ic_kit.Dict.{member}
use ic_kit.Runtime.Types.{Host}
use ic_kit.Runtime.Call.{CallReply}
use ic_kit.Runtime.Canister.Take.{CanisterMessage, same_bytes}
use ic_kit.Runtime.Replica.{
  ReplicaState, WorkerMessage, Channel, lookup, contains_key, enqueue, send, canister_request,
  no_canister,
}
use ic_kit.Runtime.Replica.NextId.{same_bytes-eq}
use mathlib.Core.Option as Option

-- A channel with messages behind those that wait.
abbrev pub behind : List WorkerMessage → Channel → Channel
behind ms channel = record channel { waiting = channel.waiting ++ ms }

-- Every canister's worker runs.
abbrev pub AllRunning : List (Bytes × Channel) → Type 0
AllRunning table =
    (id : Bytes) (channel : Channel) → lookup id table ≡ some channel → channel.running ≡ true

contains_key-lookup :
    (id : Bytes) (table : List (Bytes × Channel))
    → contains_key id table ≡ false
    → lookup id table ≡ none
unfolding contains_key lookup
contains_key-lookup id [] e = refl
contains_key-lookup id ((key, channel) ∷ table) e = ground (arith, contains_key-lookup id table)

-- What `send` does to a table in which the canister's worker runs.
record Sent (id : Bytes) (m : WorkerMessage) (table sent : List (Bytes × Channel)) : Type 0 where
  looked_up :
      (other : Bytes)
      → lookup other sent ≡ (
          if same_bytes id other
          then Option.map (behind (m ∷ [])) (lookup other table)
          else lookup other table)
  same_keys : (other : Bytes) → contains_key other sent ≡ contains_key other table

lookup-head :
    (id other key : Bytes) (c d : Channel) (table : List (Bytes × Channel)) (m : WorkerMessage)
    → same_bytes key id ≡ true
    → d ≡ behind (m ∷ []) c
    → lookup other ((key, d) ∷ table) ≡ (
        if same_bytes id other
        then Option.map (behind (m ∷ [])) (lookup other ((key, c) ∷ table))
        else lookup other ((key, c) ∷ table))
unfolding lookup
lookup-head id other key c d table m e f =
    let g : same_bytes key other ≡ same_bytes id other =
      ap (λ k. same_bytes k other) (same_bytes-eq key id e) in
    ground (arith, g)

lookup-tail :
    (id other key : Bytes) (c : Channel) (table sent : List (Bytes × Channel)) (m : WorkerMessage)
    → same_bytes key id ≡ false
    → Sent id m table sent
    → lookup other ((key, c) ∷ sent) ≡ (
        if same_bytes id other
        then Option.map (behind (m ∷ [])) (lookup other ((key, c) ∷ table))
        else lookup other ((key, c) ∷ table))
unfolding lookup
lookup-tail id other key c table sent m e s =
    let ih = s.looked_up other in
    elim (Bool-cases (same_bytes id other)) [
      | inl f ↦
          let g : same_bytes key id ≡ same_bytes key other =
            ap (same_bytes key) (same_bytes-eq id other f) in
          ground (arith, ih)
      | inr f ↦ ground (arith, ih)
    ]

enqueue-behind :
    (m : WorkerMessage) (channel : Channel)
    → channel.running ≡ true
    → enqueue m channel ≡ some (behind (m ∷ []) channel)
unfolding enqueue
enqueue-behind m channel e = ground arith

send-Sent :
    (id : Bytes) (m : WorkerMessage) (table : List (Bytes × Channel))
    → ((channel : Channel) → lookup id table ≡ some channel → channel.running ≡ true)
    → Returns (Sent id m table) (send id m table)
unfolding send lookup contains_key
send-Sent id m [] run = record { looked_up = λ other. ground arith; same_keys = λ other. refl }
send-Sent id m ((key, channel) ∷ table) run = elim (Bool-cases (same_bytes key id)) [
  | inl e ↦
      let q = enqueue-behind m channel (run channel (ground arith)) in
      rw (e, q)
        (record {
          looked_up =
              λ other. lookup-head id other key channel (behind (m ∷ []) channel) table m e refl;
          same_keys = λ other. refl;
        })
  | inr e ↦
      let run_tail : (c : Channel) → lookup id table ≡ some c → c.running ≡ true =
        λ c f. run c (ground (arith, f)) in
      rw e (
        Returns-bind (Sent id m table) _ (send id m table) _ (send-Sent id m table run_tail)
          λ sent s. record {
            looked_up = λ other. lookup-tail id other key channel table sent m e s;
            same_keys = λ other. ground (arith, s.same_keys other);
          })
]

map-behind_nil : (o : Option Channel) → Option.map (behind []) o ≡ o
map-behind_nil none = refl
map-behind_nil (some channel) =
    ap (λ ms. some (record channel { waiting = ms })) (append-nil channel.waiting)

map-behind_append :
    (a b : List WorkerMessage) (o : Option Channel)
    → Option.map (behind b) (Option.map (behind a) o) ≡ Option.map (behind (a ++ b)) o
map-behind_append a b none = refl
map-behind_append a b (some channel) =
    ap (λ ms. some (record channel { waiting = ms })) (append_assoc channel.waiting a b)

-- The requests, each with its canister and its reply channel.
abbrev pub Requests : Type 0
Requests = List (Bytes × CanisterMessage × ℕ)

-- The messages of those for a canister, in their order.
unfoldable pub sent_to : Bytes → Requests → List WorkerMessage
sent_to other [] = []
sent_to other ((id, message, channel) ∷ requests) =
    let rest = sent_to other requests in
    if same_bytes id other then (message, some channel) ∷ rest else rest

sent_to-cons :
    (other id : Bytes) (message : CanisterMessage) (channel : ℕ) (requests : Requests)
    → sent_to other ((id, message, channel) ∷ requests)
      ≡ sent_to other ((id, message, channel) ∷ []) ++ sent_to other requests
unfolding sent_to
sent_to-cons other id message channel requests = ground arith

-- The receivers of their reply channels are there.
abbrev pub AllHeard : List ℕ → Requests → Type 0
AllHeard dropped [] = Unit
AllHeard dropped ((id, message, channel) ∷ requests) =
    (member channel dropped ≡ false) × AllHeard dropped requests

module _ ⦃host : Host⦄ where
  -- The rejections of those whose canister is not in the table, in their order.
  unfoldable pub rejections : List (Bytes × Channel) → Requests → List (ℕ × CallReply)
  rejections table [] = []
  rejections table ((id, message, channel) ∷ requests) =
      let rest = rejections table requests in
      if contains_key id table then rest else (channel, no_canister id message) ∷ rest

  -- The requests handled in their order.
  unfoldable pub request_all : Requests → ReplicaState → Option ReplicaState
  request_all [] s = some s
  request_all ((id, message, channel) ∷ requests) s = do
    s ← canister_request id message (some channel) s
    request_all requests s

  -- What becomes of requests.
  pub record Routed (requests : Requests) (s d : ReplicaState) : Type 0 where
    pub channels :
        (id : Bytes)
        → lookup id d.canisters ≡ Option.map (behind (sent_to id requests)) (lookup id s.canisters)
    pub answers : d.answers ≡ s.answers ++ rejections s.canisters requests
    pub created : d.created ≡ s.created

  rejections-same :
      (a b : List (Bytes × Channel)) (requests : Requests)
      → ((id : Bytes) → contains_key id a ≡ contains_key id b)
      → rejections a requests ≡ rejections b requests
  unfolding rejections
  rejections-same a b [] e = refl
  rejections-same a b ((id, message, channel) ∷ requests) e =
      rw (e id, rejections-same a b requests e) refl

  rejections-cons :
      (table : List (Bytes × Channel)) (id : Bytes) (message : CanisterMessage) (channel : ℕ)
      (requests : Requests)
      → rejections table ((id, message, channel) ∷ requests)
        ≡ rejections table ((id, message, channel) ∷ []) ++ rejections table requests
  unfolding rejections
  rejections-cons table id message channel requests = ground arith

  -- One request, which leaves the keys of the table and the dropped receivers as they are.
  record Step (requests : Requests) (s d : ReplicaState) : Type 0 where
    routed : Routed requests s d
    same_keys : (id : Bytes) → contains_key id d.canisters ≡ contains_key id s.canisters
    dropped : d.dropped ≡ s.dropped

  canister_request-Step :
      (id : Bytes) (message : CanisterMessage) (channel : ℕ) (s : ReplicaState)
      → AllRunning s.canisters
      → member channel s.dropped ≡ false
      → Returns
          (Step ((id, message, channel) ∷ []) s)
          (canister_request id message (some channel) s)
  unfolding canister_request sent_to rejections
  canister_request-Step id message channel s run heard =
      elim (Bool-cases (contains_key id s.canisters)) [
        | inl e ↦ rw e (
            Returns-bind (Sent id (message, some channel) s.canisters) _
              (send id (message, some channel) s.canisters) _
              (send-Sent id (message, some channel) s.canisters (run id))
              λ sent h. record {
                routed = record {
                  channels = λ other.
                      ground (arith, h.looked_up other, map-behind_nil (lookup other s.canisters));
                  answers = ground (arith, append-nil s.answers);
                  created = refl;
                };
                same_keys = h.same_keys;
                dropped = refl;
              })
        | inr e ↦
            rw (e, heard)
              (record {
                routed = record {
                  channels = λ other. ground (
                    arith,
                    same_bytes-eq id other,
                    contains_key-lookup id s.canisters e,
                    ap (λ k. lookup k s.canisters),
                    map-behind_nil (lookup other s.canisters),
                  );
                  answers = ground (arith, e);
                  created = refl;
                };
                same_keys = λ other. refl;
                dropped = refl;
              })
      ]

  after_Step :
      (id : Bytes) (message : CanisterMessage) (channel : ℕ) (requests : Requests)
      (s t d : ReplicaState)
      → Step ((id, message, channel) ∷ []) s t
      → Routed requests t d
      → Routed ((id, message, channel) ∷ requests) s d
  after_Step id message channel requests s t d a b = record {
    channels = λ other.
        b.channels other
        ∙ ap (Option.map (behind (sent_to other requests))) (a.routed.channels other)
        ∙ map-behind_append (sent_to other ((id, message, channel) ∷ [])) (sent_to other requests)
            (lookup other s.canisters)
        ∙ ap (λ ms. Option.map (behind ms) (lookup other s.canisters))
            (sym (sent_to-cons other id message channel requests));
    answers =
        b.answers
        ∙ ap (λ l. l ++ rejections t.canisters requests) a.routed.answers
        ∙ append_assoc s.answers (rejections s.canisters ((id, message, channel) ∷ []))
            (rejections t.canisters requests)
        ∙ ap (λ l. s.answers ++ (rejections s.canisters ((id, message, channel) ∷ []) ++ l))
            (rejections-same t.canisters s.canisters requests a.same_keys)
        ∙ ap (λ l. s.answers ++ l) (sym (rejections-cons s.canisters id message channel requests));
    created = b.created ∙ a.routed.created;
  }

  Step-AllRunning :
      (requests : Requests) (s t : ReplicaState)
      → Step requests s t
      → AllRunning s.canisters
      → AllRunning t.canisters
  Step-AllRunning requests s t a run id channel e =
      let f = a.routed.channels id in
      elim (Option-cases (lookup id s.canisters)) [
        | inl n ↦ absurd (ground (arith, f, e, n))
        | inr (before, g) ↦ let r = run id before g in ground (arith, f, e, g, r)
      ]

  -- After requests with reply channels whose receivers are there, where the canisters' workers run, each
  -- canister's channel has those for it behind what waited there, in their order, and each request for a
  -- canister that is not installed is rejected on its reply channel, in their order too: none is lost,
  -- doubled or sent elsewhere.
  pub request_all-Routed :
      (requests : Requests) (s : ReplicaState)
      → AllRunning s.canisters
      → AllHeard s.dropped requests
      → Returns (Routed requests s) (request_all requests s)
  unfolding request_all sent_to rejections
  request_all-Routed [] s run heard = record {
    channels = λ id. sym (map-behind_nil (lookup id s.canisters));
    answers = sym (append-nil s.answers);
    created = refl;
  }
  request_all-Routed ((id, message, channel) ∷ requests) s run heard =
      Returns-bind (Step ((id, message, channel) ∷ []) s) _
        (canister_request id message (some channel) s) _
        (canister_request-Step id message channel s run heard.0)
        λ t a.
          let heard_after = subst (λ dropped. AllHeard dropped requests) (sym a.dropped) heard.1 in
          Returns-imp (Routed requests t) _ (request_all requests t)
            (request_all-Routed requests t (Step-AllRunning _ s t a run) heard_after)
            λ d b. after_Step id message channel requests s t d a b
