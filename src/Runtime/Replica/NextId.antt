-- ===== src/Runtime/Replica/NextId.antt =====
-- The search of replica.rs for a canister id that is not in use ends.
use ic_kit.Base.{
  ℕ, zero, suc, ◌+◌, ◌/◌, ◌%◌, ◌^◌, ◌≤◌, ◌<◌, ◌≡◌, refl, sym, ◌∙◌, arith, true, false, List, [],
  ◌∷◌, length, Bool-cases, ◌⊎◌, inl, inr, subst, Returns, Returns-imp, if◌then◌else◌,
}
use ic_kit.Certified.HashTree.{Bytes}
use ic_kit.Runtime.Types.{Host}
use ic_kit.Runtime.Canister.Take.{same_bytes}
use ic_kit.Runtime.Replica.{
  contains_key, canister_id, next_id_from, get_next_canister_id, ReplicaState,
}

pub same_bytes-eq : (a b : Bytes) → same_bytes a b ≡ true → a ≡ b
unfolding same_bytes
same_bytes-eq [] [] h = refl
same_bytes-eq [] (b ∷ bs) h = absurd (ground arith)
same_bytes-eq (a ∷ as') [] h = absurd (ground arith)
same_bytes-eq (a ∷ as') (b ∷ bs) h = let ih = same_bytes-eq as' bs in ground arith

-- The eight bytes of a number below 2 ^ 64 determine it.
u64-inj :
    (n m : ℕ)
    → n < 2 ^ 64
    → m < 2 ^ 64
    → n / 2 ^ 56 % 256 ≡ m / 2 ^ 56 % 256
    → n / 2 ^ 48 % 256 ≡ m / 2 ^ 48 % 256
    → n / 2 ^ 40 % 256 ≡ m / 2 ^ 40 % 256
    → n / 2 ^ 32 % 256 ≡ m / 2 ^ 32 % 256
    → n / 2 ^ 24 % 256 ≡ m / 2 ^ 24 % 256
    → n / 2 ^ 16 % 256 ≡ m / 2 ^ 16 % 256
    → n / 2 ^ 8 % 256 ≡ m / 2 ^ 8 % 256
    → n % 256 ≡ m % 256
    → n ≡ m
u64-inj n m h k a b c d e f g i = omega arith

-- `from_slice` of two different ids of ten bytes are two different principals.
abbrev pub Distinguishes : Host → Type 0
Distinguishes host =
    (a b : Bytes) → length a ≡ 10 → length b ≡ 10 → host.from_slice a ≡ host.from_slice b → a ≡ b

canister_id-inj :
    ⦃host : Host⦄
    → Distinguishes host
    → (n m : ℕ) → n < 2 ^ 64
    → m < 2 ^ 64
    → canister_id n ≡ canister_id m
    → n ≡ m
unfolding canister_id
canister_id-inj d n m h k e =
    let f = d _ _ refl refl e in let g = u64-inj n m h k in ground (arith, f, g)

eq_or_lt : (n m : ℕ) → n ≤ m → (n ≡ m) ⊎ (n < m)
eq_or_lt n m h = ground arith

module _ {A : Type 0} where
  without : Bytes → List (Bytes × A) → List (Bytes × A)
  without id [] = []
  without id ((key, a) ∷ table) =
      let rest = without id table in if same_bytes key id then rest else (key, a) ∷ rest

  contains_key-without :
      (id other : Bytes) (table : List (Bytes × A))
      → (id ≡ other → ⊥)
      → contains_key other (without id table) ≡ contains_key other table
  unfolding without contains_key
  contains_key-without id other [] ne = refl
  contains_key-without id other ((key, a) ∷ table) ne =
      let ih = contains_key-without id other table ne in
      let p = same_bytes-eq key id in
      let q = same_bytes-eq key other in
      elim (Bool-cases (same_bytes key id)) [
        | inl e ↦ elim (Bool-cases (same_bytes key other)) [
          | inl f ↦ absurd (ne (sym (p e) ∙ q f))
          | inr f ↦ ground (arith, ih)
        ]
        | inr e ↦ ground (arith, ih)
      ]

  length-without :
      (id : Bytes) (table : List (Bytes × A)) → length (without id table) ≤ length table
  unfolding without
  length-without id [] = omega arith
  length-without id ((key, a) ∷ table) = ground (arith, length-without id table)

  length-without_lt :
      (id : Bytes) (table : List (Bytes × A))
      → contains_key id table ≡ true
      → length (without id table) < length table
  unfolding without contains_key
  length-without_lt id [] h = absurd (ground arith)
  length-without_lt id ((key, a) ∷ table) h =
      let ih = length-without_lt id table in ground (arith, length-without id table, ih)

  -- The first number from `start` on, and at most `n` further, whose id is not in the table.
  pub record Next ⦃host : Host⦄ (table : List (Bytes × A)) (start n : ℕ) (id : Bytes) : Type 0 where
    pub k : ℕ
    pub above : start ≤ k
    pub below : k ≤ start + n
    pub named : id ≡ canister_id k
    pub free : contains_key id table ≡ false
    pub first : (j : ℕ) → start ≤ j → j < k → contains_key (canister_id j) table ≡ true

  earlier :
      ⦃host : Host⦄
      → (start m n : ℕ) → (table : List (Bytes × A)) → (id : Bytes)
      → contains_key (canister_id start) table ≡ true
      → m < n
      → Next table (start + 1) m id
      → Next table start n id
  earlier start m n table id e h r = record {
    k = r.k;
    above = let a = r.above in omega arith;
    below = let a = r.below in omega arith;
    named = r.named;
    free = r.free;
    first = λ j p q. elim (eq_or_lt start j p) [
      | inl f ↦ subst (λ i. contains_key (canister_id i) table ≡ true) f e
      | inr f ↦ r.first j (omega arith) q
    ];
  }

  next_id_from-Next :
      ⦃host : Host⦄
      → Distinguishes host
      → (fuel start : ℕ) (table left : List (Bytes × A)) → length left < fuel
      → start + length left < 2 ^ 64
      → ((j : ℕ)
          → start ≤ j
          → j < 2 ^ 64
          → contains_key (canister_id j) left ≡ contains_key (canister_id j) table)
      → Returns (Next table start (length left)) (next_id_from fuel table start)
  unfolding next_id_from
  next_id_from-Next d zero start table left h b same = absurd (omega arith)
  next_id_from-Next d (suc fuel) start table left h b same =
      elim (Bool-cases (contains_key (canister_id start) table)) [
        | inr e ↦ rw e (record {
          k = start;
          above = omega arith;
          below = omega arith;
          named = refl;
          free = e;
          first = λ j p q. absurd (omega arith);
        })
        | inl e ↦
            let rest = without (canister_id start) left in
            let shorter =
              length-without_lt (canister_id start) left
                (same start (omega arith) (omega arith) ∙ e) in
            let exact : (start + 1) % 2 ^ 64 ≡ start + 1 = omega (arith, shorter) in
            let step =
              next_id_from-Next d fuel (start + 1) table rest (omega (arith, shorter))
                (omega (arith, shorter))
                λ j p q.
                  contains_key-without (canister_id start) (canister_id j) left
                    (λ f. absurd (omega (arith, canister_id-inj d start j (omega arith) q f)))
                  ∙ same j (omega arith) q in
            rw (e, exact)
              (Returns-imp (Next table (start + 1) (length rest)) (Next table start (length left)) _
                step λ id r. earlier start (length rest) (length left) table id e shorter r)
      ]

module _ ⦃host : Host⦄ where
  -- `get_next_canister_id` ends: where the ids are told apart and the counts fit in 64 bits, it returns the id
  -- of the first number, from the count of the ids created on, under which no canister is installed. That
  -- number is at most the count of the ids and of the canisters together.
  pub get_next_canister_id-Next :
      (s : ReplicaState)
      → Distinguishes host
      → length s.created + length s.canisters < 2 ^ 64
      → Returns (Next s.canisters (length s.created) (length s.canisters)) (get_next_canister_id s)
  unfolding get_next_canister_id
  get_next_canister_id-Next s d h =
      next_id_from-Next d (length s.canisters + 1) (length s.created) s.canisters s.canisters
        (omega arith) h λ j p q. refl
