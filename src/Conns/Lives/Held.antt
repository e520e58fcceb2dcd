-- ===== src/Conns/Lives/Held.antt =====
-- One object under both ids of a connection, kept by the events of others.
use py_ipfs_lite.Prelude.{
  ℕ, ◌+◌, ◌-◌, ◌<◌, String, false, Option, none, some, List, [], ◌∷◌, ◌≡◌, ap, ◌∙◌, string_eq,
  nat_eq, length, take, ltb, leb, mem, arith, if_both, ==_iff,
}
use py_ipfs_lite.Dict.{Dict, keys, get, remove, get-remove, Distinct, remove-Distinct}
use py_ipfs_lite.Conns.Table.{
  ConnMeta, PeerConnectionStats, Conns, deref, meta_at, is_recycled, pop_meta,
}
use py_ipfs_lite.Conns.Capacity.{
  pop_all, is_older, stale_keys, prune_table, evicted, enforce_capacity,
}
use py_ipfs_lite.Conns.Events.{
  mark_disconnected, pop_muxed, disconnected, disconnection, append_event,
}
use py_ipfs_lite.Conns.Others.{mem-take, stale_keys-fresh}
use py_ipfs_lite.Conns.Lives.{disconnects, Differs, DiffersIf, IsOther}

module _ (conn muxed : ℕ) where
  -- Both ids lead to one object, and no other id does.
  pub record Held (r : ℕ) (p : String) (start n : ℕ) (table : Dict ℕ ℕ) (heap : Dict ℕ ConnMeta)
      (next : ℕ) : Type 0 where
    pub object : ConnMeta
    pub by_conn : get conn table ≡ some r
    pub by_muxed : get muxed table ≡ some r
    pub found : get r heap ≡ some object
    pub peer : object.peer_id ≡ p
    pub began : object.start ≡ start
    pub count : object.streams_served ≡ n
    pub alone : (id : ℕ) → Differs conn muxed id → get id table ≡ some r → ⊥
    pub below : r < next
    pub distinct : Distinct (keys table)

  module _ (r : ℕ) (p : String) (start : ℕ) where
    abbrev pub HeldIn : ℕ → Conns → Type 0
    HeldIn n s = Held r p start n s.table s.heap s.next

    remove-Held :
        {n next : ℕ} {heap : Dict ℕ ConnMeta} (c : ℕ) (table : Dict ℕ ℕ)
        → Differs conn muxed c
        → Held r p start n table heap next
        → Held r p start n (remove c table) heap next
    remove-Held c table d h = record {
      object = h.object;
      by_conn = ground (arith, get-remove c conn table, d.0, h.by_conn);
      by_muxed = ground (arith, get-remove c muxed table, d.1, h.by_muxed);
      found = h.found;
      peer = h.peer;
      began = h.began;
      count = h.count;
      alone = λ id o g. h.alone id o (ground (arith, get-remove c id table, g));
      below = h.below;
      distinct = remove-Distinct c table h.distinct;
    }

    pop_all-Held :
        {n next : ℕ} {heap : Dict ℕ ConnMeta} (ks : List ℕ) (table : Dict ℕ ℕ)
        → mem conn ks ≡ false
        → mem muxed ks ≡ false
        → Held r p start n table heap next
        → Held r p start n (pop_all ks table) heap next
    unfolding pop_all
    pop_all-Held [] table a b h = h
    pop_all-Held (k ∷ ks) table a b h =
        pop_all-Held ks (remove k table) (ground (arith, a)) (ground (arith, b)) (
          remove-Held k table
            (
              ground (arith, a, ==_iff k conn, ==_iff conn k),
              ground (arith, b, ==_iff k muxed, ==_iff muxed k),
            )
            h)

    pop_meta-Held :
        {n : ℕ} (c : ℕ) (q : String) (s : Conns)
        → Differs conn muxed c
        → HeldIn n s
        → HeldIn n (pop_meta c q s).1
    unfolding pop_meta
    pop_meta-Held {n} c q s d h =
        if_both (λ (z : Option ConnMeta × Conns). HeldIn n z.1) (is_recycled q (meta_at c s))
          {x = (none, s)} {y = (meta_at c s, record s { table = remove c s.table })} (λ b. h)
          (λ b. remove-Held c s.table d h)

    pop_muxed-Held :
        {n : ℕ} (m : Option ℕ) (q : String) (s : Conns)
        → DiffersIf conn muxed m
        → HeldIn n s
        → HeldIn n (pop_muxed m q s)
    pop_muxed-Held none q s d h = h
    pop_muxed-Held (some id) q s d h = pop_meta-Held id q s d h

    mark-Held :
        {n : ℕ} (now : ℕ) (q : String) (o : Option PeerConnectionStats) (s : Conns)
        → HeldIn n s
        → HeldIn n (mark_disconnected now q o s)
    mark-Held now q none s h = h
    mark-Held now q (some st) s h = record h {}

    enforce-Held :
        {n : ℕ} (now : ℕ) (s : Conns)
        → ltb 600_000 (now - start) ≡ false
        → HeldIn n s
        → HeldIn n (enforce_capacity now s)
    unfolding enforce_capacity
    enforce-Held {n} now s f h =
        let young : is_older now (deref s.heap (some r)) ≡ false =
          ap (is_older now) h.found ∙ (ap (λ z. ltb 600_000 (now - z)) h.began ∙ f) in
        let t : Conns = record s { stats = pop_all (evicted s) s.stats } in
        let kept : (id : ℕ)
            → get id s.table ≡ some r
            → mem id (take 300 (stale_keys now s.heap s.table)) ≡ false =
          λ id g. mem-take id 300 _ (stale_keys-fresh now id r s.heap s.table h.distinct g young) in
        if_both (λ (z : Conns). HeldIn n z) (leb (length s.stats) 500) {x = s}
          {y = prune_table now t} (λ b. h)
          (λ b.
            if_both (λ (z : Conns). HeldIn n z) (ltb 500 (length t.table))
              {x = record t { table = pop_all (take 300 (stale_keys now t.heap t.table)) t.table }}
              {y = t} (λ c. pop_all-Held _ s.table (kept conn h.by_conn) (kept muxed h.by_muxed) h)
              (λ c. h))

    pub disconnect-Held :
        {n : ℕ} (now : ℕ) (q : String) (c : ℕ) (m : Option ℕ) (s : Conns)
        → IsOther conn muxed start (disconnects now q c m)
        → HeldIn n s
        → HeldIn n (disconnected now q c m s)
    unfolding disconnected
    disconnect-Held {n} now q c m s (a, b, f) h =
        let s2 = pop_muxed m q (pop_meta c q s).1 in
        let counted : Conns = record s2 {
          total_disconnected_events = s2.total_disconnected_events + 1;
        } in
        let s3 = mark_disconnected now q (get q s2.stats) counted in
        let s4 : Conns = record s3 {
          recent_disconnections =
              append_event (disconnection now q (pop_meta c q s).0 (get q s2.stats))
                s3.recent_disconnections;
        } in
        let held2 = pop_muxed-Held m q (pop_meta c q s).1 b (pop_meta-Held c q s a h) in
        let held4 : HeldIn n s4 = mark-Held now q (get q s2.stats) counted held2 in
        if_both (λ (z : Conns). HeldIn n z) (ltb 2_000 (length s4.stats))
          {x = enforce_capacity now s4} {y = s4} (λ x. enforce-Held now s4 f held4) (λ x. held4)
