-- ===== src/Maintenance/Pruner.antt =====
-- `_connection_pruner_loop`, one round. `disconnects` says whether the disconnect of a peer returns;
-- then its connections are gone.
use py_ipfs_lite.Prelude.{
  ℕ, zero, suc, ◌+◌, ◌-◌, ◌<◌, String, Bool, true, false, ◌||◌, Option, none, some, List, [], ◌∷◌,
  ◌≡◌, refl, sym, ap, ◌∙◌, string_eq, ◌==◌, if◌then◌else◌, mem, leb, arith, Bool-cases, length,
  take, length-take, ==_iff, beq_refl, if_both,
}
use py_ipfs_lite.Dict.{
  Dict, keys, get, remove, has-eq-mem, length-remove-has, remove-Distinct, Distinct,
  mem-keys-remove,
}
use py_ipfs_lite.Maintenance.KeepAlive.{any_open}
use py_ipfs_lite.Pubsub.Topics.{insert_by, sorted_by}

abbrev pub high : ℕ
high = 40

abbrev pub low : ℕ
low = 20

abbrev pub or_none : {A : Type 0} → Option (List A) → List A
or_none none = []
or_none (some xs) = xs

-- 1 for a peer with an open connection, and 0 for one that is more expendable
abbrev pub conn_score : Dict String (List Bool) → String → ℕ
conn_score connections p = if any_open (or_none (get p connections)) then 1 else 0

abbrev pub candidates : Dict String (List Bool) → List String
candidates connections =
    sorted_by (λ p q. leb (conn_score connections p) (conn_score connections q)) (keys connections)

-- The loop over the candidates: how many were evicted, and the connections that are left.
unfoldable pub evict_from :
    (String → Bool) → List String → Dict String (List Bool) → ℕ × Dict String (List Bool)
evict_from disconnects [] d = (0, d)
evict_from disconnects (p ∷ ps) d =
    let (n, d') = evict_from disconnects ps (if disconnects p then remove p d else d) in
    ((if disconnects p then n + 1 else n), d')

unfoldable pub prune : (String → Bool) → Dict String (List Bool) → ℕ × Dict String (List Bool)
unfolding evict_from sorted_by
prune disconnects connections =
    if leb (length connections) high
    then (0, connections)
    else evict_from disconnects (take (length connections - low) (candidates connections))
        connections

length-keys : (d : Dict String (List Bool)) → length (keys d) ≡ length d
length-keys [] = refl
length-keys (x ∷ d) = ap suc (length-keys d)

length-insert_by :
    (f : String → String → Bool) (x : String) (ys : List String)
    → length (insert_by f x ys) ≡ length ys + 1
unfolding insert_by
length-insert_by f x [] = ground arith
length-insert_by f x (y ∷ ys) = ground (arith, length-insert_by f x ys)

length-sorted_by :
    (f : String → String → Bool) (xs : List String) → length (sorted_by f xs) ≡ length xs
unfolding sorted_by
length-sorted_by f [] = refl
length-sorted_by f (x ∷ xs) =
    ground (arith, length-insert_by f x (sorted_by f xs), length-sorted_by f xs)

mem-insert_by :
    (f : String → String → Bool) (z x : String) (ys : List String)
    → mem z (insert_by f x ys) ≡ (z == x || mem z ys)
unfolding insert_by
mem-insert_by f z x [] = refl
mem-insert_by f z x (y ∷ ys) = ground (arith, mem-insert_by f z x ys)

mem-sorted_by :
    (f : String → String → Bool) (z : String) (xs : List String) → mem z (sorted_by f xs) ≡ mem z xs
unfolding sorted_by
mem-sorted_by f z [] = refl
mem-sorted_by f z (x ∷ xs) =
    ground (arith, mem-insert_by f z x (sorted_by f xs), mem-sorted_by f z xs)

insert_by-Distinct :
    (f : String → String → Bool) (x : String) (ys : List String)
    → mem x ys ≡ false
    → Distinct ys
    → Distinct (insert_by f x ys)
unfolding insert_by
insert_by-Distinct f x [] m d = (refl, tt)
insert_by-Distinct f x (y ∷ ys) m d = ground (
  arith,
  m,
  d,
  mem-insert_by f y x ys,
  ==_iff x y,
  ==_iff y x,
  insert_by-Distinct f x ys (ground (arith, m)) d.1,
)

sorted_by-Distinct :
    (f : String → String → Bool) (xs : List String) → Distinct xs → Distinct (sorted_by f xs)
unfolding sorted_by
sorted_by-Distinct f [] d = tt
sorted_by-Distinct f (x ∷ xs) d =
    insert_by-Distinct f x (sorted_by f xs) (mem-sorted_by f x xs ∙ d.0)
      (sorted_by-Distinct f xs d.1)

mem-take : (z : String) (n : ℕ) (xs : List String) → mem z (take n xs) ≡ true → mem z xs ≡ true
mem-take z zero xs m = ground (arith, m)
mem-take z (suc n) [] m = m
mem-take z (suc n) (x ∷ xs) m = ground (arith, m, mem-take z n xs)

take-Distinct : (n : ℕ) (xs : List String) → Distinct xs → Distinct (take n xs)
take-Distinct zero xs d = tt
take-Distinct (suc n) [] d = tt
take-Distinct (suc n) (x ∷ xs) d =
    (ground (arith, d.0, mem-take x n xs, Bool-cases (mem x (take n xs))), take-Distinct n xs d.1)

-- Where every disconnect returns, each of the peers is gone.
length-evict_from :
    (f : String → Bool) (ps : List String) (d : Dict String (List Bool))
    → ((p : String) → f p ≡ true)
    → Distinct ps
    → ((p : String) → mem p ps ≡ true → mem p (keys d) ≡ true)
    → Distinct (keys d)
    → length (evict_from f ps d).1 + length ps ≡ length d
unfolding evict_from
length-evict_from f [] d h u m k = ground arith
length-evict_from f (p ∷ ps) d h u m k =
    let present = has-eq-mem p d ∙ m p (ground (arith, beq_refl p)) in
    rw (h p) (
      omega (
        arith,
        length-evict_from f ps (remove p d) h u.1
            (λ q i. ground (arith, mem-keys-remove p q d, m q, i, u.0, ==_iff p q))
            (remove-Distinct p d k),
        length-remove-has p d k present,
      ))

-- Above the high mark, where every disconnect returns, a round leaves as many peers as the low mark.
pub prune-length :
    (disconnects : String → Bool) (connections : Dict String (List Bool))
    → ((p : String) → disconnects p ≡ true)
    → Distinct (keys connections)
    → high < length connections
    → length (prune disconnects connections).1 ≡ low
unfolding prune
prune-length f d h k l =
    let n = length d - low in
    let ps = take n (candidates d) in
    let all =
      length-evict_from f ps d h (take-Distinct n (candidates d) (sorted_by-Distinct _ (keys d) k))
        (λ p i. sym (mem-sorted_by _ p (keys d)) ∙ mem-take p n (candidates d) i) k in
    let same = length-take n (candidates d) in
    let size = length-sorted_by (λ p q. leb (conn_score d p) (conn_score d q)) (keys d) in
    if_both (λ (z : ℕ × Dict String (List Bool)). length z.1 ≡ low) (leb (length d) high)
      {x = (0, d)} {y = evict_from f ps d} (λ b. absurd (ground (arith, b, l)))
      (λ b. omega (arith, all, same, size, length-keys d, l))
