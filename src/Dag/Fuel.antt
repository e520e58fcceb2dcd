-- ===== src/Dag/Fuel.antt =====
-- The walk ends: each round takes a CID off the queue, and a block is expanded once.
use py_ipfs_lite.Prelude.{
  ℕ, zero, suc, ◌+◌, ◌≤◌, true, false, List, [], ◌∷◌, ◌++◌, Key, ◌==◌, mem, ==_iff, Bool-cases,
  length, length-append, if◌then◌else◌, ◌≡◌, ◌≢◌, ap, inl, inr, arith,
}
use py_ipfs_lite.Errors.{Result, ok, raise}
use py_ipfs_lite.Dag.{out_of_fuel, walk_from, walk_dag}
use py_ipfs_lite.Dag.Reach.{walk-old, walk-raise, walk-ok, Round-cases}

abbrev pub pushed : {B : Type 0} → Result (List B) → List B
pushed (ok cs) = cs
pushed (raise e) = []

module _ {B : Type 0} ⦃e : Key B⦄ (expand : B → Result (List B)) where
  -- The links in the blocks of `stored` that have not been visited.
  unfoldable pub pending : List B → List B → ℕ
  pending [] visited = 0
  pending (c ∷ cs) visited =
      (if mem c visited then 0 else length (pushed (expand c))) + pending cs visited

  pending-cons-le : (x : B) (stored v : List B) → pending stored (x ∷ v) ≤ pending stored v
  unfolding pending
  pending-cons-le x [] v = omega arith
  pending-cons-le x (c ∷ cs) v = ground (arith, pending-cons-le x cs v)

  pending-cons :
      (x : B) (stored v : List B)
      → mem x stored ≡ true
      → mem x v ≡ false
      → length (pushed (expand x)) + pending stored (x ∷ v) ≤ pending stored v
  unfolding pending
  pending-cons x [] v s n = absurd (ground arith)
  pending-cons x (c ∷ cs) v s n = elim (Bool-cases (x == c)) [
    | inl y ↦ ground (arith, ==_iff x c, ==_iff c x, pending-cons-le x cs v)
    | inr d ↦ ground (arith, ==_iff x c, ==_iff c x, pending-cons x cs v)
  ]

  module _ (stored : List B)
      (only_stored : (c : B) → mem c stored ≡ false → pushed (expand c) ≡ []) where
    round_measure :
        (x : B) (v : List B)
        → mem x v ≡ false
        → length (pushed (expand x)) + pending stored (x ∷ v) ≤ pending stored v
    round_measure x v n = elim (Bool-cases (mem x stored)) [
      | inl s ↦ pending-cons x stored v s n
      | inr s ↦ omega (arith, ap (length {A = B}) (only_stored x s), pending-cons-le x stored v)
    ]

    fuel_suffices :
        (fuel : ℕ) (queue visited : List B)
        → length queue + pending stored visited ≤ fuel
        → (walk_from expand fuel queue visited).outcome ≢ out_of_fuel
    unfolding walk_from
    fuel_suffices f [] v h = λ p. ground arith
    fuel_suffices zero (x ∷ q) v h = absurd (omega arith)
    fuel_suffices (suc f) (x ∷ q) v h = elim (Round-cases expand x v) [
      | inl old ↦ rw (walk-old expand f x q v old) (fuel_suffices f q v (omega arith))
      | inr (inl (err, new, r)) ↦ rw (walk-raise expand f x q v err new r) (λ p. ground arith)
      | inr (inr (cs, new, r)) ↦
          let m = round_measure x v new in
          let m' = rw r at m in
          rw (walk-ok expand f x q v cs new r)
            (fuel_suffices f (q ++ cs) (x ∷ v) (omega (arith, length-append q cs, m')))
    ]

    -- Where only finitely many blocks have links, the walk ends, for every fuel from one more than
    -- the number of their links on: it is never cut off.
    pub walk-ends :
        (fuel : ℕ) (root : B)
        → 1 + pending stored [] ≤ fuel
        → (walk_dag expand fuel root).outcome ≢ out_of_fuel
    walk-ends fuel root h = fuel_suffices fuel (root ∷ []) [] h
