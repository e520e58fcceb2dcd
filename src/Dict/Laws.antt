-- ===== src/Dict/Laws.antt =====
-- What can be read from a dictionary after an operation, and which keys it has.
use py_ipfs_lite.Prelude.{
  ◌+◌, ◌≤◌, ◌≡◌, refl, inl, inr, true, false, none, some, List, [], ◌∷◌, Key, ◌==◌, if◌then◌else◌,
  ==_iff, arith, length, mem, In, Bool-cases, Option-cases, not, ◌&&◌, ◌||◌,
}
use py_ipfs_lite.Dict.Defs.{Dict, keys, get, put, remove, has}

-- A key is not stored twice.
abbrev pub Distinct : {K : Type 0} ⦃e : Key K⦄ → List K → Type 0
Distinct [] = Unit
Distinct (k ∷ ks) = (mem k ks ≡ false) × Distinct ks

module _ {K V : Type 0} ⦃e : Key K⦄ where
  pub get-put :
      (k j : K) (v : V) (d : Dict K V) → get j (put k v d) ≡ (if k == j then some v else get j d)
  unfolding get put
  get-put k j v [] = refl
  get-put k j v ((i, w) ∷ d) = ground (arith, ==_iff k j, ==_iff i k, ==_iff i j, get-put k j v d)

  pub get-remove :
      (k j : K) (d : Dict K V) → get j (remove k d) ≡ (if k == j then none else get j d)
  unfolding get remove
  get-remove k j [] = ground arith
  get-remove k j ((i, w) ∷ d) = ground (arith, ==_iff k j, ==_iff i k, ==_iff i j, get-remove k j d)

  pub get-eq_none : (k : K) (d : Dict K V) → get k d ≡ none → ¬ In k (keys d)
  unfolding get
  get-eq_none k [] h m = elim m [ ]
  get-eq_none k ((j, w) ∷ d) h (inl p) = ground (arith, ==_iff j k)
  get-eq_none k ((j, w) ∷ d) h (inr m) = get-eq_none k d (ground (arith, ==_iff j k)) m

  pub get-In : (k : K) (v : V) (d : Dict K V) → get k d ≡ some v → In k (keys d)
  unfolding get
  get-In k v [] h = ground arith
  get-In k v ((j, w) ∷ d) h = elim (Bool-cases (j == k)) [
    | inl t ↦ inl (ground (arith, ==_iff j k))
    | inr f ↦ inr (get-In k v d (ground arith))
  ]

  pub keys-put_old : (k : K) (v w : V) (d : Dict K V) → get k d ≡ some w → keys (put k v d) ≡ keys d
  unfolding get put
  keys-put_old k v w [] h = ground arith
  keys-put_old k v w ((j, u) ∷ d) h = ground (arith, keys-put_old k v w d)

  pub length-put-le : (k : K) (v : V) (d : Dict K V) → length (put k v d) ≤ length d + 1
  unfolding put
  length-put-le k v [] = ground arith
  length-put-le k v ((j, u) ∷ d) = ground (arith, length-put-le k v d)

  pub length-put_new :
      (k : K) (v : V) (d : Dict K V) → get k d ≡ none → length (put k v d) ≡ length d + 1
  unfolding get put
  length-put_new k v [] h = ground arith
  length-put_new k v ((j, u) ∷ d) h = ground (arith, length-put_new k v d)

  pub mem-keys-put :
      (k j : K) (v : V) (d : Dict K V) → mem j (keys (put k v d)) ≡ (j == k || mem j (keys d))
  unfolding put
  mem-keys-put k j v [] = refl
  mem-keys-put k j v ((i, w) ∷ d) =
      ground (arith, ==_iff k j, ==_iff i k, ==_iff j k, ==_iff j i, mem-keys-put k j v d)

  pub mem-keys-remove :
      (k j : K) (d : Dict K V) → mem j (keys (remove k d)) ≡ (not (k == j) && mem j (keys d))
  unfolding remove
  mem-keys-remove k j [] = ground arith
  mem-keys-remove k j ((i, w) ∷ d) =
      ground (arith, ==_iff k j, ==_iff i k, ==_iff j i, mem-keys-remove k j d)

  pub has-eq-mem : (k : K) (d : Dict K V) → has k d ≡ mem k (keys d)
  unfolding get
  has-eq-mem k [] = refl
  has-eq-mem k ((j, w) ∷ d) = ground (arith, ==_iff j k, ==_iff k j, has-eq-mem k d)

  pub put-Distinct :
      (k : K) (v : V) (d : Dict K V) → Distinct (keys d) → Distinct (keys (put k v d))
  unfolding put
  put-Distinct k v [] h = (refl, tt)
  put-Distinct k v ((i, w) ∷ d) h =
      ground (arith, ==_iff i k, mem-keys-put k i v d, put-Distinct k v d h.1)

  pub remove-Distinct : (k : K) (d : Dict K V) → Distinct (keys d) → Distinct (keys (remove k d))
  unfolding remove
  remove-Distinct k [] h = tt
  remove-Distinct k ((i, w) ∷ d) h = ground (arith, mem-keys-remove k i d, remove-Distinct k d h.1)

  pub remove_absent : (k : K) (d : Dict K V) → get k d ≡ none → remove k d ≡ d
  unfolding get remove
  remove_absent k [] h = refl
  remove_absent k ((i, w) ∷ d) h = ground (arith, remove_absent k d)

  pub length-remove :
      (k : K) (d : Dict K V) (v : V)
      → Distinct (keys d)
      → get k d ≡ some v
      → length (remove k d) + 1 ≡ length d
  unfolding get remove
  length-remove k [] v h g = ground arith
  length-remove k ((i, w) ∷ d) v h g =
      ground (arith, ==_iff i k, length-remove k d v h.1, remove_absent k d, has-eq-mem k d)

  pub length-remove-has :
      (k : K) (d : Dict K V)
      → Distinct (keys d)
      → has k d ≡ true
      → length (remove k d) + 1 ≡ length d
  length-remove-has k d h g = elim (Option-cases (get k d)) [
    | inl n ↦ absurd (ground (arith, n))
    | inr (v, p) ↦ length-remove k d v h p
  ]

  pub length-remove-le : (k : K) (d : Dict K V) → length (remove k d) ≤ length d
  unfolding remove
  length-remove-le k [] = ground arith
  length-remove-le k ((i, w) ∷ d) = ground (arith, length-remove-le k d)

pub ruleset dict_laws = (get-put, get-remove)
