-- ===== src/Content/Yields.antt =====
-- What generators yield that end normally: one after the other, in a loop, and in batches.
use py_ipfs_lite.Prelude.{
  ℕ, zero, suc, ◌≤◌, Bool, true, false, Option, none, some, List, [], ◌∷◌, ◌++◌, ◌≡◌, refl, sym, ap,
  ◌∙◌, subst, string_eq, length, take, drop, arith, append_assoc, length-drop, append-nil,
}
use py_ipfs_lite.Files.Transfer.{Chunk, Stream, concat}
use py_ipfs_lite.Content.Stream.{
  and_then, after, leaf_data, batches, stream_links, stream_batches, batch_size,
}

abbrev pub data_of : Option Chunk → Chunk
data_of none = []
data_of (some c) = c

pub batch_size-positive : (b : Bool) → 1 ≤ batch_size b
batch_size-positive true = omega arith
batch_size-positive false = omega arith

-- A stream that ends normally and has these bytes.
abbrev pub Yields : Stream → Chunk → Type 0
Yields s bytes = (s.ends_with ≡ none) × (concat s.chunks ≡ bytes)

concat-append : (xs ys : List Chunk) → concat (xs ++ ys) ≡ concat xs ++ concat ys
unfolding concat
concat-append [] ys = refl
concat-append (x ∷ xs) ys =
    ap (λ z. x ++ z) (concat-append xs ys) ∙ sym (append_assoc x (concat xs) (concat ys))

and_then-Yields :
    (s t : Stream) (x y : Chunk) → Yields s x → Yields t y → Yields (and_then s t) (x ++ y)
and_then-Yields s t x y (e, p) (f, q) =
    let r : after s.ends_with t ≡ t = ap (λ o. after o t) e in
    (
      ap (λ z. z.ends_with) r ∙ f,
      ap (λ z. concat (s.chunks ++ z.chunks)) r
          ∙ (concat-append s.chunks t.chunks
              ∙ (ap (λ z. z ++ concat t.chunks) p ∙ ap (λ z. x ++ z) q)),
    )

pub leaf_data-Yields : (d : Option Chunk) → Yields (leaf_data d) (data_of d)
unfolding concat
leaf_data-Yields none = (refl, refl)
leaf_data-Yields (some []) = (refl, refl)
leaf_data-Yields (some (b ∷ bs)) = (refl, append-nil (b ∷ bs))

take-drop : {A : Type 0} (n : ℕ) (xs : List A) → take n xs ++ drop n xs ≡ xs
take-drop zero xs = refl
take-drop (suc n) [] = refl
take-drop (suc n) (x ∷ xs) = ap (λ z. x ∷ z) (take-drop n xs)

-- One generator for each link, and the bytes of each.
abbrev pub AllYield : {A : Type 0} → (A → Stream) → List A → List Chunk → Type 0
AllYield s [] [] = Unit
AllYield s (l ∷ ls) (c ∷ cs) = Yields (s l) c × AllYield s ls cs
AllYield s _ _ = ⊥

stream_links-Yields :
    {A : Type 0} (s : A → Stream) (ls : List A) (cs : List Chunk)
    → AllYield s ls cs
    → Yields (stream_links s ls) (concat cs)
unfolding stream_links concat
stream_links-Yields s [] [] h = (refl, refl)
stream_links-Yields s [] (c ∷ cs) h = elim h [ ]
stream_links-Yields s (l ∷ ls) [] h = elim h [ ]
stream_links-Yields s (l ∷ ls) (c ∷ cs) h =
    and_then-Yields (s l) (stream_links s ls) c (concat cs) h.0 (stream_links-Yields s ls cs h.1)

AllYield-take :
    {A : Type 0} (s : A → Stream) (n : ℕ) (ls : List A) (cs : List Chunk)
    → AllYield s ls cs
    → AllYield s (take n ls) (take n cs)
AllYield-take s zero ls cs h = tt
AllYield-take s (suc n) [] [] h = tt
AllYield-take s (suc n) [] (c ∷ cs) h = elim h [ ]
AllYield-take s (suc n) (l ∷ ls) [] h = elim h [ ]
AllYield-take s (suc n) (l ∷ ls) (c ∷ cs) h = (h.0, AllYield-take s n ls cs h.1)

AllYield-drop :
    {A : Type 0} (s : A → Stream) (n : ℕ) (ls : List A) (cs : List Chunk)
    → AllYield s ls cs
    → AllYield s (drop n ls) (drop n cs)
AllYield-drop s zero ls cs h = h
AllYield-drop s (suc n) [] [] h = tt
AllYield-drop s (suc n) [] (c ∷ cs) h = elim h [ ]
AllYield-drop s (suc n) (l ∷ ls) [] h = elim h [ ]
AllYield-drop s (suc n) (l ∷ ls) (c ∷ cs) h = AllYield-drop s n ls cs h.1

-- The batches yield what the links yield one after the other.
pub stream_batches-Yields :
    {A : Type 0} (s : A → Stream) (fuel n : ℕ) (ls : List A) (cs : List Chunk)
    → 1 ≤ n
    → length ls ≤ fuel
    → AllYield s ls cs
    → Yields (stream_batches s (batches fuel n ls)) (concat cs)
unfolding stream_batches batches concat
stream_batches-Yields s zero n [] [] p q h = (refl, refl)
stream_batches-Yields s zero n [] (c ∷ cs) p q h = elim h [ ]
stream_batches-Yields s zero n (l ∷ ls) cs p q h = absurd (omega (arith, q))
stream_batches-Yields s (suc fuel) n [] [] p q h = (refl, refl)
stream_batches-Yields s (suc fuel) n [] (c ∷ cs) p q h = elim h [ ]
stream_batches-Yields s (suc fuel) n (l ∷ ls) cs p q h =
    let first =
      stream_links-Yields s (take n (l ∷ ls)) (take n cs) (AllYield-take s n (l ∷ ls) cs h) in
    let rest =
      stream_batches-Yields s fuel n (drop n (l ∷ ls)) (drop n cs) p
        (omega (arith, p, q, length-drop n (l ∷ ls))) (AllYield-drop s n (l ∷ ls) cs h) in
    subst (Yields (stream_batches s (batches (suc fuel) n (l ∷ ls))))
      (sym (concat-append (take n cs) (drop n cs)) ∙ ap concat (take-drop n cs))
      (and_then-Yields (stream_links s (take n (l ∷ ls)))
        (stream_batches s (batches fuel n (drop n (l ∷ ls)))) (concat (take n cs))
        (concat (drop n cs)) first rest)
