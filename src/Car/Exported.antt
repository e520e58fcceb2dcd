-- ===== src/Car/Exported.antt =====
-- The blocks of an archive are those of the walk from its root.
use py_ipfs_lite.Prelude.{
  ℕ, zero, suc, Option, none, some, List, [], ◌∷◌, ◌++◌, ◌≡◌, refl, sym, ap, subst, Key, mem, All,
  In, Bool-cases, Option-cases, inl, inr, arith,
}
use py_ipfs_lite.Errors.{Result, ok, raise, ◌>>=◌, block_not_found, ok-injective}
use py_ipfs_lite.Dag.{Walk, finished, walk_from}
use py_ipfs_lite.Dag.Reach.{Reach, Reach-walk}
use py_ipfs_lite.Car.Frames.{Bytes}
use py_ipfs_lite.Car.Blocks.{Block, export_from}

-- The CIDs of some blocks.
abbrev pub cids : List Block → List Bytes
cids [] = []
cids (b ∷ bs) = b.0 ∷ cids bs

some-injective : {A : Type 0} {a b : A} → some a ≡ some b → a ≡ b
some-injective h = ground arith

module _ ⦃e : Key Bytes⦄ (fetch : Bytes → Option Bytes) (links : Bytes → Bytes → List Bytes) where
  -- What a walk that raises on a missing block appends to its queue.
  abbrev linked : Bytes → Option Bytes → Result (List Bytes)
  linked c none = raise block_not_found
  linked c (some content) = ok (links c content)

  abbrev pub expand_strict : Bytes → Result (List Bytes)
  expand_strict c = linked c (fetch c)

  -- The blocks are those of a walk that finishes, with the data that was fetched.
  pub record Matches (bs : List Block) (w : Walk Bytes) : Type 0 where
    pub ends : w.outcome ≡ finished
    pub same : cids bs ≡ w.yielded
    pub data_of : All (λ b. fetch b.0 ≡ some b.1) bs

  abbrev extended : Bytes → Bytes → Option (Result (List Block)) → Option (Result (List Block))
  extended c content none = none
  extended c content (some rest) = some (rest >>= (λ blocks. ok ((c, content) ∷ blocks)))

  extended-ok :
      (c content : Bytes) (o : Option (Result (List Block))) (bs : List Block)
      → extended c content o ≡ some (ok bs)
      → (rest : List Block) × (o ≡ some (ok rest)) × (bs ≡ (c, content) ∷ rest)
  extended-ok c content none bs h = cc
  extended-ok c content (some (raise err)) bs h = cc
  extended-ok c content (some (ok rest)) bs h = (rest, refl, sym (ok-injective (some-injective h)))

  pub export_from-Matches :
      (fuel : ℕ) (queue visited : List Bytes) (bs : List Block)
      → export_from fetch links fuel queue visited ≡ some (ok bs)
      → Matches bs (walk_from expand_strict fuel queue visited)
  unfolding export_from walk_from
  export_from-Matches fuel [] visited bs h =
      subst (λ z. Matches z (record { yielded = []; outcome = finished }))
        (ok-injective (some-injective h)) (record { ends = refl; same = refl; data_of = tt })
  export_from-Matches zero (c ∷ queue) visited bs h = cc
  export_from-Matches (suc fuel) (c ∷ queue) visited bs h = elim (Bool-cases (mem c visited)) [
    | inl y ↦
        rw (y, walk_from) (export_from-Matches fuel queue visited bs (rw (y, export_from) at h))
    | inr n ↦ elim (Option-cases (fetch c)) [
      | inl p ↦ absurd (missing (rw (n, p, export_from) at h))
      | inr (content, p) ↦
          let (rest, q, same) =
            extended-ok c content
              (export_from fetch links fuel (queue ++ links c content) (c ∷ visited)) bs
              (rw (n, p, export_from) at h) in
          let m = export_from-Matches fuel (queue ++ links c content) (c ∷ visited) rest q in
          subst (λ z. Matches z (walk_from expand_strict (suc fuel) (c ∷ queue) visited)) (sym same)
            (rw (n, p, walk_from)
              (record { ends = m.ends; same = ap (λ z. c ∷ z) m.same; data_of = (p, m.data_of) }))
    ]
  ]
    where
      missing :
          ◌≡◌ {A = Option (Result (List Block))} (some (raise block_not_found)) (some (ok bs)) → ⊥
      missing h = cc

  In-cids : (c : Bytes) (bs : List Block) → In c (cids bs) → (content : Bytes) × In (c, content) bs
  In-cids c [] i = absurd i
  In-cids c (b ∷ bs) (inl p) = (b.1, inl (ap (λ z. (z, b.1)) p))
  In-cids c (b ∷ bs) (inr i) = let (content, j) = In-cids c bs i in (content, inr j)

  All-In : (P : Block → Type 0) (b : Block) (bs : List Block) → All P bs → In b bs → P b
  All-In P b [] h i = absurd i
  All-In P b (x ∷ bs) h (inl p) = subst P (sym p) h.0
  All-In P b (x ∷ bs) h (inr i) = All-In P b bs h.1 i

  -- An export that returns has written every block that can be reached from the root along the links,
  -- with the data that the block store or the exchange has under its CID.
  pub export_from-Reach :
      (fuel : ℕ) (root c : Bytes) (bs : List Block)
      → export_from fetch links fuel (root ∷ []) [] ≡ some (ok bs)
      → Reach expand_strict root c
      → (content : Bytes) × In (c, content) bs × (fetch c ≡ some content)
  export_from-Reach fuel root c bs h r =
      let m = export_from-Matches fuel (root ∷ []) [] bs h in
      let i = Reach-walk expand_strict fuel root c m.ends r in
      let (content, j) = In-cids c bs (subst (In c) (sym m.same) i) in
      (content, j, All-In (λ b. fetch b.0 ≡ some b.1) (c, content) bs m.data_of j)
