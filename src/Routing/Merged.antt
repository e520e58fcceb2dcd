-- ===== src/Routing/Merged.antt =====
-- What `TieredRouting.find_providers` returns.
use py_ipfs_lite.Prelude.{
  ℕ, zero, suc, ◌≤◌, ◌<◌, String, true, false, ◌&&◌, ◌||◌, List, [], ◌∷◌, ◌++◌, map, ◌≡◌, refl, sym,
  ap, ◌∙◌, subst, ◌==◌, length, take, mem, leb, string_eq, arith, In, inl, inr, mem-append,
  length-take, eq_iff, append-nil, append_assoc, if_both,
}
use py_ipfs_lite.Errors.{Result, ok, raise}
use py_ipfs_lite.Dict.{Distinct}
use py_ipfs_lite.Routing.Tiered.{
  PeerInfo, Router, merge, merged, answered, find_from, find_providers,
}

abbrev pub ids : List PeerInfo → List String
ids = map (λ p. p.peer_id)

ids-append : (xs ys : List PeerInfo) → ids (xs ++ ys) ≡ ids xs ++ ids ys
ids-append [] ys = refl
ids-append (x ∷ xs) ys = ap (λ z. x.peer_id ∷ z) (ids-append xs ys)

Distinct-append :
    (xs : List String) (x : String) → Distinct xs → mem x xs ≡ false → Distinct (xs ++ (x ∷ []))
Distinct-append [] x d h = (refl, tt)
Distinct-append (y ∷ xs) x d h = (
  ground (arith, mem-append y xs (x ∷ []), d.0, eq_iff x y, eq_iff y x),
  Distinct-append xs x d.1 (ground (arith, h)),
)

-- The peers seen are those found, and no peer is found twice.
pub record IsMerged (seen : List String) (found : List PeerInfo) : Type 0 where
  pub same : (x : String) → mem x seen ≡ mem x (ids found)
  pub once : Distinct (ids found)

merge-IsMerged :
    (ps : List PeerInfo) (seen : List String) (found : List PeerInfo)
    → IsMerged seen found
    → IsMerged (merge ps seen found).0 (merge ps seen found).1
unfolding merge
merge-IsMerged [] seen found h = h
merge-IsMerged (p ∷ ps) seen found h =
    if_both (λ (m : List String × List PeerInfo). IsMerged m.0 m.1) (mem p.peer_id seen)
      (λ e. merge-IsMerged ps seen found h)
      (λ e. merge-IsMerged ps (p.peer_id ∷ seen) (found ++ (p ∷ [])) (record {
        same = λ x. ap (λ b. x == p.peer_id || b) (h.same x) ∙ more x;
        once =
            subst Distinct (sym (ids-append found (p ∷ [])))
              (Distinct-append (ids found) p.peer_id h.once (sym (h.same p.peer_id) ∙ e));
      }))
  where
    more : (x : String) → (x == p.peer_id || mem x (ids found)) ≡ mem x (ids (found ++ (p ∷ [])))
    more x = ground (arith, ids-append found (p ∷ []), mem-append x (ids found) (p.peer_id ∷ []))

merge-prefix :
    (ps : List PeerInfo) (seen : List String) (found : List PeerInfo)
    → (ys : List PeerInfo) × ((merge ps seen found).1 ≡ found ++ ys)
unfolding merge
merge-prefix [] seen found = ([], sym (append-nil found))
merge-prefix (p ∷ ps) seen found =
    if_both (λ (m : List String × List PeerInfo). (ys : List PeerInfo) × (m.1 ≡ found ++ ys))
      (mem p.peer_id seen) (λ e. merge-prefix ps seen found)
      (λ e.
        let (ys, h) = merge-prefix ps (p.peer_id ∷ seen) (found ++ (p ∷ [])) in
        (p ∷ ys, h ∙ append_assoc found (p ∷ []) ys))

merged-IsMerged :
    (a : Result (List PeerInfo)) (seen : List String) (found : List PeerInfo)
    → IsMerged seen found
    → IsMerged (merged a seen found).0 (merged a seen found).1
merged-IsMerged (raise e) seen found h = h
merged-IsMerged (ok ps) seen found h = merge-IsMerged ps seen found h

merged-prefix :
    (a : Result (List PeerInfo)) (seen : List String) (found : List PeerInfo)
    → (ys : List PeerInfo) × ((merged a seen found).1 ≡ found ++ ys)
merged-prefix (raise e) seen found = ([], sym (append-nil found))
merged-prefix (ok ps) seen found = merge-prefix ps seen found

module _ (key : String) (count : ℕ) where
  find_from-once :
      (rs : List Router) (seen : List String) (found : List PeerInfo)
      → IsMerged seen found
      → Distinct (ids (find_from rs key count seen found))
  unfolding find_from
  find_from-once [] seen found h = h.once
  find_from-once (r ∷ rs) seen found h =
      let next = merged-IsMerged (r.find_providers key count) seen found h in
      if_both (λ l. Distinct (ids l))
        (answered (r.find_providers key count)
          && leb count (length (merged (r.find_providers key count) seen found).1))
        (λ e. next.once) (λ e. find_from-once rs _ _ next)

  find_from-prefix :
      (rs : List Router) (seen : List String) (found : List PeerInfo)
      → (ys : List PeerInfo) × (find_from rs key count seen found ≡ found ++ ys)
  unfolding find_from
  find_from-prefix [] seen found = ([], sym (append-nil found))
  find_from-prefix (r ∷ rs) seen found =
      let m = merged (r.find_providers key count) seen found in
      let (ys, h) = merged-prefix (r.find_providers key count) seen found in
      let (zs, g) = find_from-prefix rs m.0 m.1 in
      if_both (λ l. (ys : List PeerInfo) × (l ≡ found ++ ys))
        (answered (r.find_providers key count) && leb count (length m.1)) (λ e. (ys, h))
        (λ e. (ys ++ zs, g ∙ ap (λ l. l ++ zs) h ∙ append_assoc found ys zs))

mem-take :
    (x : String) (n : ℕ) (ps : List PeerInfo)
    → mem x (ids ps) ≡ false
    → mem x (ids (take n ps)) ≡ false
mem-take x zero ps h = refl
mem-take x (suc n) [] h = refl
mem-take x (suc n) (p ∷ ps) h = ground (arith, mem-take x n ps)

take-Distinct : (n : ℕ) (ps : List PeerInfo) → Distinct (ids ps) → Distinct (ids (take n ps))
take-Distinct zero ps d = tt
take-Distinct (suc n) [] d = tt
take-Distinct (suc n) (p ∷ ps) d = (mem-take p.peer_id n ps d.0, take-Distinct n ps d.1)

take_all : (n : ℕ) (ps : List PeerInfo) → length (take n ps) < n → take n ps ≡ ps
take_all zero ps h = absurd (ground (arith, h))
take_all (suc n) [] h = refl
take_all (suc n) (p ∷ ps) h = ap (λ z. p ∷ z) (take_all n ps (ground (arith, h)))

-- `find_providers` returns at most `count` peers, and none of them twice.
pub find_providers-Distinct :
    (rs : List Router) (key : String) (count : ℕ)
    → (length (find_providers rs key count) ≤ count) × Distinct (ids (find_providers rs key count))
unfolding find_providers
find_providers-Distinct rs key count = (
  ground (arith, length-take count (find_from rs key count [] [])),
  take-Distinct count _
      (find_from-once key count rs [] [] (record { same = λ x. refl; once = tt })),
)

module _ (x : String) where
  merge-seen :
      (ps : List PeerInfo) (seen : List String) (found : List PeerInfo)
      → (mem x seen || mem x (ids ps)) ≡ true
      → mem x (merge ps seen found).0 ≡ true
  unfolding merge
  merge-seen [] seen found h = ground (arith, h)
  merge-seen (p ∷ ps) seen found h =
      if_both (λ (m : List String × List PeerInfo). mem x m.0 ≡ true) (mem p.peer_id seen)
        (λ e. merge-seen ps seen found (ground (arith, h, e, eq_iff x p.peer_id)))
        (λ e. merge-seen ps (p.peer_id ∷ seen) (found ++ (p ∷ [])) (ground (arith, h)))

  prefix_mem :
      (found ys l : List PeerInfo)
      → l ≡ found ++ ys
      → mem x (ids found) ≡ true
      → mem x (ids l) ≡ true
  prefix_mem found ys l e h =
      ground (arith, ap ids e, ids-append found ys, mem-append x (ids found) (ids ys))

  module _ (key : String) (count : ℕ) (r : Router) (ps : List PeerInfo) where
    find_from_all :
        (rs : List Router) (seen : List String) (found : List PeerInfo)
        → In r rs
        → r.find_providers key count ≡ ok ps
        → mem x (ids ps) ≡ true
        → IsMerged seen found
        → length (find_from rs key count seen found) < count
        → mem x (ids (find_from rs key count seen found)) ≡ true
    unfolding find_from
    find_from_all [] seen found i a m h = elim i [ ]
    find_from_all (q ∷ rs) seen found i a m h =
        let answer = q.find_providers key count in
        let next = merged answer seen found in
        if_both (λ l. length l < count → mem x (ids l) ≡ true)
          (answered answer && leb count (length next.1)) (λ e s. absurd (ground (arith, e, s)))
          (λ e s. elim i [
            | inl same ↦
                let (ys, g) = find_from-prefix key count rs next.0 next.1 in
                let a' : q.find_providers key count ≡ ok ps =
                  subst (λ (w : Router). w.find_providers key count ≡ ok ps) same a in
                prefix_mem next.1 ys _ g (
                  sym ((merged-IsMerged answer seen found h).same x)
                  ∙ subst (λ b. mem x (merged b seen found).0 ≡ true) (sym a')
                      (merge-seen ps seen found (ground (arith, m))))
            | inr later ↦
                find_from_all rs next.0 next.1 later a m (merged-IsMerged answer seen found h) s
          ])

-- Where fewer peers than `count` are returned, every peer in the answer of a router is among them.
pub find_providers_complete :
    (rs : List Router) (key : String) (count : ℕ) (r : Router) (ps : List PeerInfo) (x : String)
    → In r rs
    → r.find_providers key count ≡ ok ps
    → mem x (ids ps) ≡ true
    → length (find_providers rs key count) < count
    → mem x (ids (find_providers rs key count)) ≡ true
unfolding find_providers
find_providers_complete rs key count r ps x i a m s =
    let all = find_from rs key count [] [] in
    let same : take count all ≡ all = take_all count all s in
    ap (λ l. mem x (ids l)) same
    ∙ find_from_all x key count r ps rs [] [] i a m (record { same = λ y. refl; once = tt })
        (subst (λ l. length l < count) same s)
