-- ===== src/Dag/Reach.antt =====
-- The walk against reachability: it yields exactly what can be reached, each CID once.
use py_ipfs_lite.Prelude.{
  ℕ, zero, suc, true, false, List, [], ◌∷◌, ◌++◌, Key, ◌==◌, mem, In, In-append, In-append_left,
  In-append_right, ==_iff, Bool-cases, ◌≡◌, refl, sym, subst, ◌⊎◌, inl, inr, arith,
}
use py_ipfs_lite.Errors.{Error, Result, ok, raise, Result-cases}
use py_ipfs_lite.Dict.{Distinct}
use py_ipfs_lite.Dag.{finished, failed, walk_from, walk_dag, yield}

-- The CIDs that can be reached from a root, by the links that the walk follows.
pub data Reach {B : Type 0} (expand : B → Result (List B)) (root : B) : B → Type 0 where
  start : Reach expand root root
  link :
      {c d : B} (cs : List B)
      → Reach expand root c
      → expand c ≡ ok cs
      → In d cs
      → Reach expand root d

module _ {B : Type 0} ⦃e : Key B⦄ (expand : B → Result (List B)) where
  module _ (f : ℕ) (x : B) (q v : List B) where
    pub walk-old : mem x v ≡ true → walk_from expand (suc f) (x ∷ q) v ≡ walk_from expand f q v
    unfolding walk_from
    walk-old h = rw (h, walk_from)

    pub walk-raise :
        (err : Error)
        → mem x v ≡ false
        → expand x ≡ raise err
        → walk_from expand (suc f) (x ∷ q) v ≡ record { yielded = x ∷ []; outcome = failed err }
    unfolding walk_from
    walk-raise err h r = rw (h, r, walk_from)

    pub walk-ok :
        (cs : List B)
        → mem x v ≡ false
        → expand x ≡ ok cs
        → walk_from expand (suc f) (x ∷ q) v ≡ yield x (walk_from expand f (q ++ cs) (x ∷ v))
    unfolding walk_from
    walk-ok cs h r = rw (h, r, walk_from)

  -- The three ways that a round of the loop goes.
  pub Round-cases :
      (x : B) (v : List B)
      → (mem x v ≡ true)
        ⊎ ((err : Error) × (mem x v ≡ false) × (expand x ≡ raise err))
        ⊎ ((cs : List B) × (mem x v ≡ false) × (expand x ≡ ok cs))
  Round-cases x v = elim (Bool-cases (mem x v)) [
    | inl old ↦ inl old
    | inr new ↦ elim (Result-cases (expand x)) [
      | inl (cs, r) ↦ inr (inr (cs, new, r))
      | inr (err, r) ↦ inr (inl (err, new, r))
    ]
  ]

  -- What is yielded has every property that the queue has and that links keep.
  yields_invariant :
      (P : B → Type 0)
      → ((c d : B) (cs : List B) → P c → expand c ≡ ok cs → In d cs → P d)
      → (fuel : ℕ) (queue visited : List B) → ((c : B) → In c queue → P c)
      → (c : B) → In c (walk_from expand fuel queue visited).yielded
      → P c
  unfolding walk_from
  yields_invariant P step zero [] v h c m = elim m [ ]
  yields_invariant P step zero (x ∷ q) v h c m = elim m [ ]
  yields_invariant P step (suc f) [] v h c m = elim m [ ]
  yields_invariant P step (suc f) (x ∷ q) v h c m = elim (Round-cases x v) [
    | inl old ↦
        yields_invariant P step f q v (λ d k. h d (inr k)) c (rw (walk-old f x q v old) at m)
    | inr (inl (err, new, r)) ↦ elim (rw (walk-raise f x q v err new r) at m) [
      | inl p ↦ subst P (sym p) (h x (inl refl))
      | inr k ↦ absurd k
    ]
    | inr (inr (cs, new, r)) ↦ elim (rw (walk-ok f x q v cs new r) at m) [
      | inl p ↦ subst P (sym p) (h x (inl refl))
      | inr k ↦
          yields_invariant P step f (q ++ cs) (x ∷ v)
            (λ d i. elim (In-append d q cs i) [
              | inl l ↦ h d (inr l)
              | inr l ↦ step x d cs (h x (inl refl)) r l
            ])
            c k
    ]
  ]

  -- Every CID that the walk yields can be reached from its root.
  pub walk-Reach :
      (fuel : ℕ) (root c : B) → In c (walk_dag expand fuel root).yielded → Reach expand root c
  walk-Reach fuel root c =
      yields_invariant (Reach expand root) (λ a b cs r p i. link cs r p i) fuel (root ∷ []) []
        (λ a i. elim i [ inl p ↦ subst (Reach expand root) (sym p) start | inr k ↦ absurd k ]) c

  -- No CID is yielded that was visited before, and none twice.
  walk_fresh :
      (fuel : ℕ) (queue visited : List B) (c : B)
      → mem c visited ≡ true
      → mem c (walk_from expand fuel queue visited).yielded ≡ false
  unfolding walk_from
  walk_fresh zero [] v c h = refl
  walk_fresh zero (x ∷ q) v c h = refl
  walk_fresh (suc f) [] v c h = refl
  walk_fresh (suc f) (x ∷ q) v c h = elim (Round-cases x v) [
    | inl old ↦ rw (walk-old f x q v old) (walk_fresh f q v c h)
    | inr (inl (err, new, r)) ↦ rw (walk-raise f x q v err new r) (ground (arith, ==_iff c x))
    | inr (inr (cs, new, r)) ↦
        rw (walk-ok f x q v cs new r) (ground (arith, ==_iff c x, walk_fresh f (q ++ cs) (x ∷ v) c))
  ]

  -- The walk yields no CID twice.
  walk_from-Distinct :
      (fuel : ℕ) (queue visited : List B) → Distinct (walk_from expand fuel queue visited).yielded
  unfolding walk_from
  walk_from-Distinct zero [] v = tt
  walk_from-Distinct zero (x ∷ q) v = tt
  walk_from-Distinct (suc f) [] v = tt
  walk_from-Distinct (suc f) (x ∷ q) v = elim (Round-cases x v) [
    | inl old ↦ rw (walk-old f x q v old) (walk_from-Distinct f q v)
    | inr (inl (err, new, r)) ↦ rw (walk-raise f x q v err new r) (refl, tt)
    | inr (inr (cs, new, r)) ↦ rw (walk-ok f x q v cs new r) (
      walk_fresh f (q ++ cs) (x ∷ v) x (ground (arith, ==_iff x x)),
      walk_from-Distinct f (q ++ cs) (x ∷ v),
    )
  ]

  -- No CID is yielded twice.
  pub walk-Distinct : (fuel : ℕ) (root : B) → Distinct (walk_dag expand fuel root).yielded
  walk-Distinct fuel root = walk_from-Distinct fuel (root ∷ []) []

  Seen : List B → List B → B → Type 0
  Seen v ys c = (mem c v ≡ true) ⊎ In c ys

  Seen-later : (x c : B) (v ys : List B) → Seen (x ∷ v) ys c → Seen v (x ∷ ys) c
  unfolding Seen
  Seen-later x c v ys (inr i) = inr (inr i)
  Seen-later x c v ys (inl h) = elim (Bool-cases (c == x)) [
    | inl y ↦ inr (inl ((==_iff c x).0 y))
    | inr n ↦ inl (ground arith)
  ]

  -- A walk that finishes has yielded the queue, up to what was visited before.
  queue-Seen :
      (fuel : ℕ) (queue visited : List B)
      → (walk_from expand fuel queue visited).outcome ≡ finished
      → (c : B) → In c queue
      → Seen visited (walk_from expand fuel queue visited).yielded c
  unfolding walk_from Seen
  queue-Seen f [] v h c i = elim i [ ]
  queue-Seen zero (x ∷ q) v h c i = absurd (ground arith)
  queue-Seen (suc f) (x ∷ q) v h c i = elim (Round-cases x v) [
    | inl old ↦ elim i [
      | inl p ↦ inl (subst (λ a. mem a v ≡ true) (sym p) old)
      | inr k ↦ rw (walk-old f x q v old) (queue-Seen f q v (rw (walk-old f x q v old) at h) c k)
    ]
    | inr (inl (err, new, r)) ↦ absurd (ground (arith, walk-raise f x q v err new r))
    | inr (inr (cs, new, r)) ↦
        let h' = rw (walk-ok f x q v cs new r) at h in
        rw (walk-ok f x q v cs new r) (elim i [
          | inl p ↦ inr (inl p)
          | inr k ↦
              Seen-later x c v _ (queue-Seen f (q ++ cs) (x ∷ v) h' c (In-append_left c q cs k))
        ])
  ]

  -- And with each CID it has yielded what that links to.
  links-Seen :
      (fuel : ℕ) (queue visited : List B)
      → (walk_from expand fuel queue visited).outcome ≡ finished
      → (c d : B) (cs : List B) → In c (walk_from expand fuel queue visited).yielded
      → expand c ≡ ok cs
      → In d cs
      → Seen visited (walk_from expand fuel queue visited).yielded d
  unfolding walk_from Seen
  links-Seen zero [] v h c d cs i p k = elim i [ ]
  links-Seen (suc f) [] v h c d cs i p k = elim i [ ]
  links-Seen zero (x ∷ q) v h c d cs i p k = elim i [ ]
  links-Seen (suc f) (x ∷ q) v h c d cs i p k = elim (Round-cases x v) [
    | inl old ↦ rw (walk-old f x q v old) (
        links-Seen f q v (rw (walk-old f x q v old) at h) c d cs (rw (walk-old f x q v old) at i) p
          k)
    | inr (inl (err, new, r)) ↦ absurd (ground (arith, walk-raise f x q v err new r))
    | inr (inr (ds, new, r)) ↦
        let h' = rw (walk-ok f x q v ds new r) at h in
        let i' = rw (walk-ok f x q v ds new r) at i in
        rw (walk-ok f x q v ds new r) (
          Seen-later x d v _ (elim i' [
            | inl e' ↦
                queue-Seen f (q ++ ds) (x ∷ v) h' d
                  (In-append_right d q ds (subst (In d) (ground arith) k))
            | inr j ↦ links-Seen f (q ++ ds) (x ∷ v) h' c d cs j p k
          ]))
  ]

  -- A walk that finishes has yielded every CID that can be reached from its root.
  pub Reach-walk :
      (fuel : ℕ) (root c : B)
      → (walk_dag expand fuel root).outcome ≡ finished
      → Reach expand root c
      → In c (walk_dag expand fuel root).yielded
  unfolding Seen
  Reach-walk fuel root c h start = elim (queue-Seen fuel (root ∷ []) [] h c (inl refl)) [
    | inl no' ↦ absurd (ground arith)
    | inr i ↦ i
  ]
  Reach-walk fuel root d h (link {c} cs r p k) =
      elim (links-Seen fuel (root ∷ []) [] h c d cs (Reach-walk fuel root c h r) p k) [
        | inl no' ↦ absurd (ground arith)
        | inr i ↦ i
      ]
