-- ===== src/Prelude/Lists.antt =====
-- Lists measured and indexed by native numbers, membership tests and the laws shared by the parts.
use Prim.Native.Nat.{ℕ, zero, suc, ◌+◌, ◌-◌, min}
use mathlib.Core.Path.{◌≡◌, refl}
use mathlib.Core.Logic.{◌⊎◌, inl, inr}
use mathlib.Core.Bool.{Bool, true, false, ◌||◌}
use mathlib.Core.List.{List, [], ◌∷◌, ◌++◌}
use native.Mathlib.Omega.{arith}
use py_ipfs_lite.Prelude.Tests.{Key, ◌==◌, ==_iff, Bool-cases}

module _ {ℓ} {A : Type ℓ} where
  abbrev pub length : List A → ℕ
  length [] = 0
  length (x ∷ xs) = suc (length xs)

  abbrev pub take : ℕ → List A → List A
  take zero xs = []
  take (suc n) [] = []
  take (suc n) (x ∷ xs) = x ∷ take n xs

  abbrev pub drop : ℕ → List A → List A
  drop zero xs = xs
  drop (suc n) [] = []
  drop (suc n) (x ∷ xs) = drop n xs

  pub length-append : (xs ys : List A) → length (xs ++ ys) ≡ length xs + length ys
  length-append [] ys = omega arith
  length-append (x ∷ xs) ys = omega (arith, length-append xs ys)

  pub length-take : (n : ℕ) (xs : List A) → length (take n xs) ≡ min n (length xs)
  length-take zero xs = omega arith
  length-take (suc n) [] = omega arith
  length-take (suc n) (x ∷ xs) = omega (arith, length-take n xs)

  pub length-drop : (n : ℕ) (xs : List A) → length (drop n xs) ≡ length xs - n
  length-drop zero xs = omega arith
  length-drop (suc n) [] = omega arith
  length-drop (suc n) (x ∷ xs) = omega (arith, length-drop n xs)

-- A predicate on every member, by recursion, so that it computes to tuples.
abbrev pub All {ℓ κ} : {A : Type ℓ} → (A → Type κ) → List A → Type κ
All P [] = Unit
All P (x ∷ xs) = P x × All P xs

-- Membership with its position, so that it can be taken apart.
abbrev pub In : {A : Type 0} → A → List A → Type 0
In a [] = ⊥
In a (x ∷ xs) = (a ≡ x) ⊎ In a xs

module _ {A : Type 0} where
  pub In-append_left : (a : A) (xs ys : List A) → In a xs → In a (xs ++ ys)
  In-append_left a [] ys h = elim h [ ]
  In-append_left a (x ∷ xs) ys (inl e) = inl e
  In-append_left a (x ∷ xs) ys (inr h) = inr (In-append_left a xs ys h)

  pub In-append_right : (a : A) (xs ys : List A) → In a ys → In a (xs ++ ys)
  In-append_right a [] ys h = h
  In-append_right a (x ∷ xs) ys h = inr (In-append_right a xs ys h)

  pub In-append : (a : A) (xs ys : List A) → In a (xs ++ ys) → In a xs ⊎ In a ys
  In-append a [] ys h = inr h
  In-append a (x ∷ xs) ys (inl e) = inl (inl e)
  In-append a (x ∷ xs) ys (inr h) = elim (In-append a xs ys h) [
    | inl l ↦ inl (inr l)
    | inr r ↦ inr r
  ]

-- `x in xs`
module _ {A : Type 0} ⦃e : Key A⦄ where
  abbrev pub mem : A → List A → Bool
  mem a [] = false
  mem a (x ∷ xs) = a == x || mem a xs

  pub mem→In : (a : A) (xs : List A) → mem a xs ≡ true → In a xs
  mem→In a [] h = ground arith
  mem→In a (x ∷ xs) h = elim (Bool-cases (a == x)) [
    | inl t ↦ inl ((==_iff a x).0 t)
    | inr f ↦ inr (mem→In a xs (ground arith))
  ]

  pub In→mem : (a : A) (xs : List A) → In a xs → mem a xs ≡ true
  In→mem a [] h = elim h [ ]
  In→mem a (x ∷ xs) (inl p) = ground (arith, ==_iff a x)
  In→mem a (x ∷ xs) (inr h) = ground (arith, In→mem a xs h)

  pub mem-append : (a : A) (xs ys : List A) → mem a (xs ++ ys) ≡ (mem a xs || mem a ys)
  mem-append a [] ys = refl
  mem-append a (x ∷ xs) ys = ground (arith, mem-append a xs ys)
