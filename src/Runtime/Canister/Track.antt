-- ===== src/Runtime/Canister/Track.antt =====
-- The two tables of canister.rs that follow the calls it has made agree: `pending_outgoing_requests` and
-- `outgoing_calls`.
use ic_kit.Base.{
  ℕ, ◌+◌, ◌%◌, ◌^◌, ◌<◌, ◌≡◌, refl, Bool, true, false, Option, none, some, List, [], ◌∷◌, arith,
  ◌==◌, if◌then◌else◌, unwrap_or, length, subst,
}
use ic_kit.Dict.{Dict, find, put, erase, find-erase, find-put, member, add, discard}
use ic_kit.Runtime.Types.{new_request_id}
use ic_kit.Runtime.Canister.State.{Canister, PendingCall, RequestCallbacks}
use ic_kit.Runtime.Canister.Owner.{AllCarry}
use ic_kit.Runtime.Canister.Message.{is_some, send_calls}

member-discard :
    (i k : ℕ) (s : List ℕ) → member i (discard k s) ≡ (if k == i then false else member i s)
unfolding member discard
member-discard i k [] = ground arith
member-discard i k (j ∷ s) = ground (arith, member-discard i k s)

member-add : (i k : ℕ) (s : List ℕ) → member i (add k s) ≡ (if k == i then true else member i s)
unfolding member add
member-add i k s = ground arith

-- The request `k` is pending for the message `id`.
abbrev pub pends : ℕ → ℕ → Dict (List ℕ) → Bool
pends id k pending = elim (find id pending) [ none ↦ false | some s ↦ member k s ]

-- The callbacks of the request `k` are those of the message `id`.
abbrev pub owns : ℕ → ℕ → Dict RequestCallbacks → Bool
owns id k calls = elim (find k calls) [ none ↦ false | some callbacks ↦ callbacks.message_id == id ]

-- Each request that is pending has its callbacks, and only those; no message has an empty set of them; and the
-- numbers of the requests are below the counter.
pub record IsTracked (counter : ℕ) (pending : Dict (List ℕ)) (calls : Dict RequestCallbacks)
    : Type 0 where
  pub agree : (id k : ℕ) → pends id k pending ≡ owns id k calls
  pub busy : (id : ℕ) → find id pending ≡ some [] → ⊥
  pub below : (k : ℕ) → is_some (find k calls) ≡ true → k < counter

unfoldable pub drop : ℕ → List ℕ → Dict (List ℕ) → Dict (List ℕ)
drop id set pending = elim set [ [] ↦ erase id pending | i ∷ is' ↦ put id (i ∷ is') pending ]

pends-drop :
    (id i k : ℕ) (set : List ℕ) (pending : Dict (List ℕ))
    → pends i k (drop id set pending) ≡ (if id == i then member k set else pends i k pending)
unfolding drop member
pends-drop id i k [] pending = let g = find-erase i id pending in ground (arith, g)
pends-drop id i k (j ∷ js) pending = let g = find-put i id (j ∷ js) pending in ground (arith, g)

busy-drop :
    (id i : ℕ) (set : List ℕ) (pending : Dict (List ℕ))
    → (find i pending ≡ some [] → ⊥)
    → find i (drop id set pending) ≡ some []
    → ⊥
unfolding drop
busy-drop id i [] pending h = let g = find-erase i id pending in ground (arith, g, h)
busy-drop id i (j ∷ js) pending h = let g = find-put i id (j ∷ js) pending in ground (arith, g, h)

-- A reply takes its request out of both tables.
pub settled-IsTracked :
    (counter reply_to : ℕ) (pending : Dict (List ℕ)) (calls : Dict RequestCallbacks)
    → (callbacks : RequestCallbacks) (set : List ℕ) → IsTracked counter pending calls
    → find reply_to calls ≡ some callbacks
    → find callbacks.message_id pending ≡ some set
    → IsTracked counter
        (drop callbacks.message_id (discard reply_to set) pending)
        (erase reply_to calls)
settled-IsTracked counter reply_to pending calls callbacks set t e f = record {
  agree = λ i k.
      let a = pends-drop callbacks.message_id i k (discard reply_to set) pending in
      let b = member-discard k reply_to set in
      let g = find-erase k reply_to calls in
      let h = t.agree i k in let u = t.agree i reply_to in ground (arith, a, b, g, h, u);
  busy = λ i. busy-drop callbacks.message_id i (discard reply_to set) pending (t.busy i);
  below = λ k. let g = find-erase k reply_to calls in let h = t.below k in ground (arith, g, h);
}

member-unwrap_or :
    (k : ℕ) (o : Option (List ℕ))
    → member k (unwrap_or o []) ≡ (elim o [ none ↦ false | some s ↦ member k s ])
unfolding member
member-unwrap_or k none = refl
member-unwrap_or k (some s) = refl

-- Sending a call puts its request into both tables.
sent-IsTracked :
    (id counter : ℕ) (pending : Dict (List ℕ)) (calls : Dict RequestCallbacks)
    (callbacks : RequestCallbacks)
    → IsTracked counter pending calls
    → callbacks.message_id ≡ id
    → IsTracked
        (counter + 1)
        (put id (add counter (unwrap_or (find id pending) [])) pending)
        (put counter callbacks calls)
unfolding member
sent-IsTracked id counter pending calls callbacks t e =
    let set : List ℕ = unwrap_or (find id pending) [] in
    record {
      agree = λ i k.
          let a = find-put i id (add counter set) pending in
          let b = member-add k counter set in
          let g = find-put k counter callbacks calls in
          let h = t.agree i k in
          let l = t.below k in
          let m = member-unwrap_or k (find id pending) in
          let h' = t.agree id k in ground (arith, a, b, g, h, h', l, m, e);
      busy = λ i.
          let a = find-put i id (add counter set) pending in
          let b = member-add counter counter set in let h = t.busy i in ground (arith, a, b, h);
      below = λ k.
          let g = find-put k counter callbacks calls in let h = t.below k in ground (arith, g, h);
    }

-- The same for a queue of calls that carry the number of the message.
pub send_calls-IsTracked :
    (id : ℕ) (queue : List PendingCall) (counter : ℕ) (c : Canister)
    → AllCarry id queue
    → counter + length (send_calls id queue counter c).1 < 2 ^ 64
    → IsTracked counter c.pending_outgoing_requests c.outgoing_calls
    → let r = send_calls id queue counter c in
      IsTracked r.2 r.0.pending_outgoing_requests r.0.outgoing_calls
unfolding send_calls new_request_id
send_calls-IsTracked id [] counter c o h t = t
send_calls-IsTracked id (p ∷ queue) counter c o h t =
    let exact : counter + 1 ≡ (counter + 1) % 2 ^ 64 = omega arith in
    let set : List ℕ = add counter (unwrap_or (find id c.pending_outgoing_requests) []) in
    let s =
      sent-IsTracked id counter c.pending_outgoing_requests c.outgoing_calls p.callbacks t o.0 in
    send_calls-IsTracked id queue ((counter + 1) % 2 ^ 64)
      (record c {
        pending_outgoing_requests = put id set c.pending_outgoing_requests;
        outgoing_calls = put counter p.callbacks c.outgoing_calls;
      })
      o.1 (omega arith)
      (subst
        (λ n.
          IsTracked n (put id set c.pending_outgoing_requests)
            (put counter p.callbacks c.outgoing_calls))
        exact s)
