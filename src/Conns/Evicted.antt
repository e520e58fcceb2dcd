-- ===== src/Conns/Evicted.antt =====
-- Which peers lose their stats when there are too many.
use py_ipfs_lite.Prelude.{
  ℕ, ◌+◌, ◌-◌, ◌≤◌, ◌<◌, String, true, false, ◌&&◌, none, some, List, [], ◌∷◌, ◌==◌, ◌≡◌, refl, sym,
  ap, ◌∙◌, string_eq, nat_eq, if◌then◌else◌, mem, length, take, leb, ltb, nat_beq, arith, eq_iff,
  if_both, ◌⊎◌, inl, inr, Bool-cases,
}
use py_ipfs_lite.Dict.{
  Dict, get, remove, keys, Distinct, get-remove, has-eq-mem, length-remove-has, remove-Distinct,
  mem-keys-remove,
}
use py_ipfs_lite.Conns.Table.{PeerConnectionStats, Conns}
use py_ipfs_lite.Conns.Capacity.{
  to_remove, pop_all, evicted, stale_keys, enforce_capacity, prune_table,
}

get-pop_all :
    (p : String) (ks : List String) (d : Dict String PeerConnectionStats)
    → get p (pop_all ks d) ≡ (if mem p ks then none else get p d)
unfolding pop_all
get-pop_all p [] d = refl
get-pop_all p (k ∷ ks) d =
    ground (arith, get-pop_all p ks (remove k d), get-remove k p d, eq_iff k p, eq_iff p k)

-- A peer that is chosen is in the dictionary, and no peer is chosen twice.
mem-to_remove :
    (total n : ℕ) (p : String) (d : Dict String PeerConnectionStats)
    → mem p (to_remove total n d) ≡ true
    → mem p (keys d) ≡ true
unfolding to_remove
mem-to_remove total n p [] h = h
mem-to_remove total n p ((k, st) ∷ d) h =
    let ih = mem-to_remove total (if nat_beq st.current_connections 0 then n + 1 else n) p d in
    ground (arith, h, ih)

mem-to_remove_not :
    (total n : ℕ) (p : String) (d : Dict String PeerConnectionStats)
    → mem p (keys d) ≡ false
    → mem p (to_remove total n d) ≡ false
mem-to_remove_not total n p d h = elim (Bool-cases (mem p (to_remove total n d))) [
  | inl y ↦ absurd (ground (arith, h, mem-to_remove total n p d y))
  | inr f ↦ f
]

to_remove-idle :
    (total n : ℕ) (p : String) (st : PeerConnectionStats) (d : Dict String PeerConnectionStats)
    → Distinct (keys d)
    → get p d ≡ some st
    → 0 < st.current_connections
    → mem p (to_remove total n d) ≡ false
unfolding to_remove get
to_remove-idle total n p st [] h g c = refl
to_remove-idle total n p st ((k, w) ∷ d) h g c =
    let n' = if nat_beq w.current_connections 0 then n + 1 else n in
    elim (Bool-cases (k == p)) [
      | inl y ↦ ground (
        arith,
        g,
        c,
        y,
        mem-to_remove_not total n' p d (sym (ap (λ z. mem z (keys d)) ((eq_iff k p).0 y)) ∙ h.0),
        eq_iff p k,
      )
      | inr f ↦ ground (
        arith,
        f,
        eq_iff p k,
        eq_iff k p,
        to_remove-idle total n' p st d h.1 (ground (arith, g, f)) c,
      )
    ]

-- Either enough are chosen, or every peer without a connection is.
to_remove-enough :
    (total n : ℕ) (d : Dict String PeerConnectionStats)
    → (total ≤ length (to_remove total n d) + n + 300)
      ⊎ ((p : String) (st : PeerConnectionStats)
          → get p d ≡ some st
          → st.current_connections ≡ 0
          → mem p (to_remove total n d) ≡ true)
unfolding to_remove get
to_remove-enough total n [] = inr (λ p st g c. absurd (ground (arith, g)))
to_remove-enough total n ((k, w) ∷ d) =
    let n' = if nat_beq w.current_connections 0 then n + 1 else n in
    elim (to_remove-enough total n' d) [
      | inl e ↦ inl (ground (arith, e))
      | inr f ↦ elim (Bool-cases (nat_beq w.current_connections 0 && leb (total - (n + 1)) 300)) [
        | inl y ↦ inl (ground (arith, y))
        | inr z ↦ inr (λ p st g c. elim (Bool-cases (k == p)) [
          | inl y ↦ ground (arith, g, c, y, eq_iff k p, eq_iff p k)
          | inr q ↦ ground (arith, q, z, eq_iff p k, f p st (ground (arith, g, q)) c)
        ])
      ]
    ]

to_remove-Distinct :
    (total n : ℕ) (d : Dict String PeerConnectionStats)
    → Distinct (keys d)
    → Distinct (to_remove total n d)
unfolding to_remove
to_remove-Distinct total n [] h = tt
to_remove-Distinct total n ((k, w) ∷ d) h =
    let n' = if nat_beq w.current_connections 0 then n + 1 else n in
    let absent = mem-to_remove_not total n' k d h.0 in
    let ih = to_remove-Distinct total n' d h.1 in
    if_both Distinct (nat_beq w.current_connections 0)
      (λ e.
        if_both (λ rest. Distinct (k ∷ rest)) (leb (total - (n + 1)) 300) (λ x. (refl, tt))
          (λ x. (absent, ih)))
      (λ e. ih)

length-pop_all :
    (ks : List String) (d : Dict String PeerConnectionStats)
    → Distinct ks
    → Distinct (keys d)
    → ((p : String) → mem p ks ≡ true → mem p (keys d) ≡ true)
    → length (pop_all ks d) + length ks ≡ length d
unfolding pop_all
length-pop_all [] d c h f = ground arith
length-pop_all (k ∷ ks) d c h f =
    let one = length-remove-has k d h (has-eq-mem k d ∙ f k (ground (arith, eq_iff k k))) in
    let rest = length-pop_all ks (remove k d) c.1 (remove-Distinct k d h) (λ p m. inside p m) in
    ground (arith, one, rest)
  where
    inside : (p : String) → mem p ks ≡ true → mem p (keys (remove k d)) ≡ true
    inside p m = elim (Bool-cases (k == p)) [
      | inl y ↦ absurd (ground (arith, m, sym (ap (λ z. mem z ks) ((eq_iff k p).0 y)) ∙ c.0))
      | inr q ↦ ground (arith, mem-keys-remove k p d, q, f p (ground (arith, m)))
    ]

module _ (now : ℕ) (s : Conns) (h : Distinct (keys s.stats)) where
  abbrev chosen : List String
  chosen = to_remove (length s.stats) 0 s.stats

  enforce_big :
      leb (length s.stats) 500 ≡ false → (enforce_capacity now s).stats ≡ pop_all chosen s.stats
  unfolding enforce_capacity
  enforce_big e =
      let t : Conns = record s { stats = pop_all (evicted s) s.stats } in
      let picked : evicted s ≡ chosen = ground (arith, e) in
      if_both (λ (z : Conns). z.stats ≡ pop_all chosen s.stats) (leb (length s.stats) 500) {x = s}
        {y = prune_table now t} (λ b. absurd (ground (arith, b, e)))
        (λ b.
          if_both (λ (z : Conns). z.stats ≡ pop_all chosen s.stats) (ltb 500 (length t.table))
            {x = record t { table = pop_all (take 300 (stale_keys now t.heap t.table)) t.table }}
            {y = t} (λ x. ap (λ l. pop_all l s.stats) picked)
            (λ x. ap (λ l. pop_all l s.stats) picked))

  enforce_small : leb (length s.stats) 500 ≡ true → (enforce_capacity now s).stats ≡ s.stats
  unfolding enforce_capacity
  enforce_small e =
      if_both (λ (z : Conns). z.stats ≡ s.stats) (leb (length s.stats) 500) {x = s}
        {y = prune_table now (record s { stats = pop_all (evicted s) s.stats })} (λ b. refl)
        (λ b. absurd (ground (arith, b, e)))

  -- A peer with a connection keeps its stats.
  pub enforce-connected :
      (p : String) (st : PeerConnectionStats)
      → get p s.stats ≡ some st
      → 0 < st.current_connections
      → get p (enforce_capacity now s).stats ≡ some st
  enforce-connected p st g c = elim (Bool-cases (leb (length s.stats) 500)) [
    | inl e ↦ ap (get p) (enforce_small e) ∙ g
    | inr e ↦
        ap (get p) (enforce_big e)
        ∙ (get-pop_all p chosen s.stats
            ∙ ground (arith, to_remove-idle (length s.stats) 0 p st s.stats h g c, g))
  ]

  -- After an eviction at most 300 peers are left, or each one left has a connection.
  pub enforce-bounded :
      500 < length s.stats
      → (length (enforce_capacity now s).stats ≤ 300)
        ⊎ ((p : String) (st : PeerConnectionStats)
            → get p (enforce_capacity now s).stats ≡ some st
            → 0 < st.current_connections)
  enforce-bounded big =
      let e : leb (length s.stats) 500 ≡ false = ground (arith, big) in
      elim (to_remove-enough (length s.stats) 0 s.stats) [
        | inl few ↦ inl (
            ground (
              arith,
              ap length (enforce_big e),
              few,
              length-pop_all chosen s.stats (to_remove-Distinct (length s.stats) 0 s.stats h) h
                  (λ p m. mem-to_remove (length s.stats) 0 p s.stats m),
            ))
        | inr all ↦ inr (λ p st g.
            left p st (sym (get-pop_all p chosen s.stats) ∙ (sym (ap (get p) (enforce_big e)) ∙ g))
              (all p st))
      ]
    where
      kept :
          (p : String) (st : PeerConnectionStats)
          → (if mem p chosen then none else get p s.stats) ≡ some st
          → get p s.stats ≡ some st
      kept p st g = ground (arith, g)

      left :
          (p : String) (st : PeerConnectionStats)
          → (if mem p chosen then none else get p s.stats) ≡ some st
          → (get p s.stats ≡ some st → st.current_connections ≡ 0 → mem p chosen ≡ true)
          → 0 < st.current_connections
      left p st g f = elim (Bool-cases (nat_beq st.current_connections 0)) [
        | inl z ↦ absurd (ground (arith, g, f (kept p st g) (ground (arith, z))))
        | inr z ↦ ground (arith, z)
      ]
