-- ===== src/Conns/Others.antt =====
-- What a disconnect leaves of the details of other peers' connections.
use py_ipfs_lite.Prelude.{
  ℕ, zero, suc, ◌+◌, inl, inr, String, false, Option, none, some, List, [], ◌∷◌, ◌==◌, ◌≡◌, refl,
  sym, ap, ◌∙◌, subst, string_eq, nat_eq, length, take, ltb, leb, mem, arith, Bool-cases,
  Option-cases, if_both, ==_iff,
}
use py_ipfs_lite.Dict.{Dict, keys, get, remove, get-remove, Distinct, remove-Distinct}
use py_ipfs_lite.Conns.Table.{
  ConnMeta, PeerConnectionStats, Conns, deref, meta_at, is_recycled, pop_meta,
}
use py_ipfs_lite.Conns.Capacity.{
  pop_all, is_older, stale_keys, prune_table, evicted, enforce_capacity,
}
use py_ipfs_lite.Conns.Events.{
  mark_disconnected, pop_muxed, disconnected, disconnection, append_event,
}
use py_ipfs_lite.Conns.Lookups.{pop_both-other}

get-pop_ids :
    (k : ℕ) (ks : List ℕ) (d : Dict ℕ ℕ) → mem k ks ≡ false → get k (pop_all ks d) ≡ get k d
unfolding pop_all
get-pop_ids k [] d h = refl
get-pop_ids k (i ∷ ks) d h =
    get-pop_ids k ks (remove i d) (ground (arith, h))
    ∙ ground (arith, get-remove i k d, h, ==_iff i k, ==_iff k i)

pub mem-take : (k n : ℕ) (xs : List ℕ) → mem k xs ≡ false → mem k (take n xs) ≡ false
mem-take k zero xs h = refl
mem-take k (suc n) [] h = refl
mem-take k (suc n) (x ∷ xs) h = ground (arith, h, mem-take k n xs (ground (arith, h)))

mem-stale_keys :
    (now k : ℕ) (heap : Dict ℕ ConnMeta) (table : Dict ℕ ℕ)
    → mem k (keys table) ≡ false
    → mem k (stale_keys now heap table) ≡ false
unfolding stale_keys
mem-stale_keys now k heap [] h = refl
mem-stale_keys now k heap ((i, r) ∷ table) h =
    if_both (λ l. mem k l ≡ false) (is_older now (deref heap (some r)))
      (λ b. ground (arith, h, mem-stale_keys now k heap table (ground (arith, h))))
      (λ b. mem-stale_keys now k heap table (ground (arith, h)))

pub stale_keys-fresh :
    (now k r : ℕ) (heap : Dict ℕ ConnMeta) (table : Dict ℕ ℕ)
    → Distinct (keys table)
    → get k table ≡ some r
    → is_older now (deref heap (some r)) ≡ false
    → mem k (stale_keys now heap table) ≡ false
unfolding stale_keys get
stale_keys-fresh now k r heap [] d g f = refl
stale_keys-fresh now k r heap ((i, j) ∷ table) d g f = elim (Bool-cases (i == k)) [
  | inl y ↦
      let absent : mem k (keys table) ≡ false =
        subst (λ z. mem z (keys table) ≡ false) ((==_iff i k).0 y) d.0 in
      let same : j ≡ r = ground (arith, g, y) in
      if_both (λ l. mem k l ≡ false) (is_older now (deref heap (some j)))
        (λ b. absurd (ground (arith, b, f, ap (λ z. is_older now (deref heap (some z))) same)))
        (λ b. mem-stale_keys now k heap table absent)
  | inr n ↦
      let ih = stale_keys-fresh now k r heap table d.1 (ground (arith, g, n)) f in
      if_both (λ l. mem k l ≡ false) (is_older now (deref heap (some j)))
        (λ b. ground (arith, ih, n, ==_iff i k, ==_iff k i)) (λ b. ih)
]

module _ (now k : ℕ) (m : ConnMeta) (fresh : is_older now (some m) ≡ false) where
  prune-fresh :
      (s : Conns)
      → Distinct (keys s.table)
      → meta_at k s ≡ some m
      → meta_at k (prune_table now s) ≡ some m
  prune-fresh s d h =
      if_both (λ (z : Conns). meta_at k z ≡ some m) (ltb 500 (length s.table)) {x = pruned} {y = s}
        (λ b. ap (deref s.heap) (get-pop_ids k _ s.table (mem-take k 300 _ kept)) ∙ h) (λ b. h)
    where
      pruned : Conns
      pruned = record s { table = pop_all (take 300 (stale_keys now s.heap s.table)) s.table }

      kept : mem k (stale_keys now s.heap s.table) ≡ false
      kept = elim (Option-cases (get k s.table)) [
        | inl e ↦ absurd (ground (arith, h, ap (deref s.heap) e))
        | inr (r, e) ↦
            stale_keys-fresh now k r s.heap s.table d e
              (ap (is_older now) (sym (ap (deref s.heap) e) ∙ h) ∙ fresh)
      ]

  enforce-fresh :
      (s : Conns)
      → Distinct (keys s.table)
      → meta_at k s ≡ some m
      → meta_at k (enforce_capacity now s) ≡ some m
  unfolding enforce_capacity
  enforce-fresh s d h =
      if_both (λ (z : Conns). meta_at k z ≡ some m) (leb (length s.stats) 500) {x = s}
        {y = prune_table now (record s { stats = pop_all (evicted s) s.stats })} (λ b. h)
        (λ b. prune-fresh (record s { stats = pop_all (evicted s) s.stats }) d h)

  pop_meta-Distinct :
      (id : ℕ) (p : String) (s : Conns)
      → Distinct (keys s.table)
      → Distinct (keys (pop_meta id p s).1.table)
  unfolding pop_meta
  pop_meta-Distinct id p s d =
      if_both (λ (r : Option ConnMeta × Conns). Distinct (keys r.1.table))
        (is_recycled p (meta_at id s)) (λ b. d) (λ b. remove-Distinct id s.table d)

  pop_muxed-Distinct :
      (muxed : Option ℕ) (p : String) (s : Conns)
      → Distinct (keys s.table)
      → Distinct (keys (pop_muxed muxed p s).table)
  pop_muxed-Distinct none p s d = d
  pop_muxed-Distinct (some id) p s d = pop_meta-Distinct id p s d

  -- The stats of the peer and the event change nothing of the details.
  mark-details :
      (p : String) (o : Option PeerConnectionStats) (s : Conns)
      → ((mark_disconnected now p o s).table ≡ s.table)
        × ((mark_disconnected now p o s).heap ≡ s.heap)
  mark-details p none s = (refl, refl)
  mark-details p (some st) s = (refl, refl)

  -- Where the ids of the table are distinct: a disconnect leaves the details of a connection of another
  -- peer, under whatever id they stand, where the connection is at most ten minutes old.
  pub disconnected-other :
      (p : String) (conn : ℕ) (muxed : Option ℕ) (s : Conns)
      → Distinct (keys s.table)
      → meta_at k s ≡ some m
      → (m.peer_id == p) ≡ false
      → meta_at k (disconnected now p conn muxed s) ≡ some m
  unfolding disconnected
  disconnected-other p conn muxed s d h q =
      let s2 = pop_muxed muxed p (pop_meta conn p s).1 in
      let s3 =
        mark_disconnected now p (get p s2.stats)
          (record s2 { total_disconnected_events = s2.total_disconnected_events + 1 }) in
      let s4 : Conns = record s3 {
        recent_disconnections =
            append_event (disconnection now p (pop_meta conn p s).0 (get p s2.stats))
              s3.recent_disconnections;
      } in
      let (t, u) =
        mark-details p (get p s2.stats)
          (record s2 { total_disconnected_events = s2.total_disconnected_events + 1 }) in
      let found : meta_at k s4 ≡ some m =
        ap (λ z. deref z (get k s4.table)) u
        ∙ (ap (λ z. deref s2.heap (get k z)) t ∙ pop_both-other conn muxed k p m s h q) in
      let distinct : Distinct (keys s4.table) =
        subst (λ z. Distinct (keys z)) (sym t)
          (pop_muxed-Distinct muxed p (pop_meta conn p s).1 (pop_meta-Distinct conn p s d)) in
      if_both (λ (z : Conns). meta_at k z ≡ some m) (ltb 2_000 (length s4.stats))
        {x = enforce_capacity now s4} {y = s4} (λ b. enforce-fresh s4 distinct found) (λ b. found)
