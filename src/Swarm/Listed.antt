-- ===== src/Swarm/Listed.antt =====
-- What the list of connected peers holds.
use py_ipfs_lite.Prelude.{
  ℕ, ◌≤◌, String, false, not, ◌&&◌, ◌||◌, List, [], ◌∷◌, ◌≡◌, refl, ◌∙◌, sym, ap, subst, Option,
  none, some, ◌==◌, string_eq, nat_eq, mem, arith, All, ==_iff, if_both, beq_refl,
}
use py_ipfs_lite.Errors.{Result, ok, ◌>>=◌, >>=-ok, ok-injective}
use py_ipfs_lite.Dict.{Dict, get, Distinct}
use py_ipfs_lite.Tracker.Types.{PeerStreamStats}
use py_ipfs_lite.Conns.Table.{ConnMeta, Conns}
use py_ipfs_lite.Pubsub.Topics.{insert_by, sorted_by}
use py_ipfs_lite.Swarm.Connected.{
  PeerEntry, conn_meta_from, entry, entries, lives_longer, list_connected_peers, diagnosed,
}

abbrev pub peers_of : List PeerEntry → List String
peers_of [] = []
peers_of (x ∷ xs) = x.peer ∷ peers_of xs

-- The longest connection comes first.
abbrev pub IsDescending : List PeerEntry → Type 0
IsDescending [] = Unit
IsDescending (x ∷ xs) = All (λ y. y.duration ≤ x.duration) xs × IsDescending xs

mem-insert_by :
    (z : String) (x : PeerEntry) (ys : List PeerEntry)
    → mem z (peers_of (insert_by lives_longer x ys)) ≡ (z == x.peer || mem z (peers_of ys))
unfolding insert_by
mem-insert_by z x [] = refl
mem-insert_by z x (y ∷ ys) =
    if_both (λ l. mem z (peers_of l) ≡ (z == x.peer || (z == y.peer || mem z (peers_of ys))))
      (lives_longer x y) (λ b. refl) (λ b. ground (arith, mem-insert_by z x ys))

mem-sorted_by :
    (z : String) (xs : List PeerEntry)
    → mem z (peers_of (sorted_by lives_longer xs)) ≡ mem z (peers_of xs)
unfolding sorted_by
mem-sorted_by z [] = refl
mem-sorted_by z (x ∷ xs) =
    ground (arith, mem-insert_by z x (sorted_by lives_longer xs), mem-sorted_by z xs)

insert_by-Distinct :
    (x : PeerEntry) (ys : List PeerEntry)
    → mem x.peer (peers_of ys) ≡ false
    → Distinct (peers_of ys)
    → Distinct (peers_of (insert_by lives_longer x ys))
unfolding insert_by
insert_by-Distinct x [] m d = (refl, tt)
insert_by-Distinct x (y ∷ ys) m d =
    if_both (λ l. Distinct (peers_of l)) (lives_longer x y) (λ b. (m, d))
      (λ b. (
        ground
            (arith, mem-insert_by y.peer x ys, d.0, m, ==_iff x.peer y.peer, ==_iff y.peer x.peer),
        insert_by-Distinct x ys (ground (arith, m)) d.1,
      ))

sorted_by-Distinct :
    (xs : List PeerEntry) → Distinct (peers_of xs) → Distinct (peers_of (sorted_by lives_longer xs))
unfolding sorted_by
sorted_by-Distinct [] d = tt
sorted_by-Distinct (x ∷ xs) d =
    insert_by-Distinct x (sorted_by lives_longer xs) (mem-sorted_by x.peer xs ∙ d.0)
      (sorted_by-Distinct xs d.1)

All-weaken :
    (a b : ℕ) (xs : List PeerEntry)
    → a ≤ b
    → All (λ y. y.duration ≤ a) xs
    → All (λ y. y.duration ≤ b) xs
All-weaken a b [] h p = tt
All-weaken a b (x ∷ xs) h p = (omega (arith, h, p.0), All-weaken a b xs h p.1)

All-insert_by :
    (b : ℕ) (x : PeerEntry) (ys : List PeerEntry)
    → x.duration ≤ b
    → All (λ y. y.duration ≤ b) ys
    → All (λ y. y.duration ≤ b) (insert_by lives_longer x ys)
unfolding insert_by
All-insert_by b x [] h p = (h, tt)
All-insert_by b x (y ∷ ys) h p =
    if_both (All (λ z. z.duration ≤ b)) (lives_longer x y) (λ e. (h, p))
      (λ e. (p.0, All-insert_by b x ys h p.1))

insert_by-IsDescending :
    (x : PeerEntry) (ys : List PeerEntry)
    → IsDescending ys
    → IsDescending (insert_by lives_longer x ys)
unfolding insert_by
insert_by-IsDescending x [] d = (tt, tt)
insert_by-IsDescending x (y ∷ ys) d =
    if_both IsDescending (lives_longer x y)
      (λ b.
        let le : y.duration ≤ x.duration = ground (arith, b) in
        ((le, All-weaken y.duration x.duration ys le d.0), d))
      (λ b.
        (All-insert_by y.duration x ys (ground (arith, b)) d.0, insert_by-IsDescending x ys d.1))

sorted_by-IsDescending : (xs : List PeerEntry) → IsDescending (sorted_by lives_longer xs)
unfolding sorted_by
sorted_by-IsDescending [] = tt
sorted_by-IsDescending (x ∷ xs) =
    insert_by-IsDescending x (sorted_by lives_longer xs) (sorted_by-IsDescending xs)

module _ (round1 : ℕ → ℕ) (log : String → Result (Unit {0})) (now : ℕ)
    (addrs : String → List String) where
  module _ (metas : Dict String ConnMeta) (stream_stats : Dict String PeerStreamStats) where
    abbrev all_entries : List String → List String → Result (List PeerEntry)
    all_entries = entries round1 log now addrs metas stream_stats

    -- What the loop adds for a peer that was not seen.
    abbrev rest_of : String → List String → List String → Result (List PeerEntry)
    rest_of p ps seen = do
      _ ← diagnosed (log p) (get p metas)
      es ← all_entries ps (p ∷ seen)
      ok (entry round1 log now addrs (get p metas) (get p stream_stats) p ∷ es)

    rest_of-ok :
        (p : String) (ps seen : List String) (es : List PeerEntry)
        → rest_of p ps seen ≡ ok es
        → (rest : List PeerEntry) × (all_entries ps (p ∷ seen) ≡ ok rest)
          × (entry round1 log now addrs (get p metas) (get p stream_stats) p ∷ rest ≡ es)
    rest_of-ok p ps seen es h =
        let (_, _, k) =
          >>=-ok (diagnosed (log p) (get p metas))
            (λ _. do
              es ← all_entries ps (p ∷ seen)
              ok (entry round1 log now addrs (get p metas) (get p stream_stats) p ∷ es))
            h in
        let (rest, q, k') =
          >>=-ok (all_entries ps (p ∷ seen))
            (λ es. ok (entry round1 log now addrs (get p metas) (get p stream_stats) p ∷ es)) k in
        (rest, q, ok-injective k')

    mem-entries :
        (z : String) (ps seen : List String) (es : List PeerEntry)
        → all_entries ps seen ≡ ok es
        → mem z (peers_of es) ≡ (mem z ps && not (mem z seen))
    unfolding entries entry
    mem-entries z [] seen es h = ap (λ l. mem z (peers_of l)) (sym (ok-injective h))
    mem-entries z (p ∷ ps) seen es h =
        if_both (λ r. r ≡ ok es → mem z (peers_of es) ≡ ((z == p || mem z ps) && not (mem z seen)))
          (mem p seen) {x = all_entries ps seen} {y = rest_of p ps seen}
          (λ b h. ground (arith, mem-entries z ps seen es h, b, ==_iff z p))
          (λ b h.
            let (rest, q, e) = rest_of-ok p ps seen es h in
            ap (λ l. mem z (peers_of l)) (sym e)
            ∙ ground (arith, mem-entries z ps (p ∷ seen) rest q, b, ==_iff z p))
          h

    entries-Distinct :
        (ps seen : List String) (es : List PeerEntry)
        → all_entries ps seen ≡ ok es
        → Distinct (peers_of es)
    unfolding entries entry
    entries-Distinct [] seen es h = subst (λ l. Distinct (peers_of l)) (ok-injective h) tt
    entries-Distinct (p ∷ ps) seen es h =
        if_both (λ r. r ≡ ok es → Distinct (peers_of es)) (mem p seen) {x = all_entries ps seen}
          {y = rest_of p ps seen} (λ b h. entries-Distinct ps seen es h)
          (λ b h.
            let (rest, q, e) = rest_of-ok p ps seen es h in
            subst (λ l. Distinct (peers_of l)) e
              (
                ground (arith, mem-entries p ps (p ∷ seen) rest q, beq_refl p),
                entries-Distinct ps (p ∷ seen) rest q,
              ))
          h

    diagnosed-ok : (r : Result (Unit {0})) (m : Option ConnMeta) → r ≡ ok tt → diagnosed r m ≡ ok tt
    diagnosed-ok r none h = h
    diagnosed-ok r (some m) h =
        if_both (λ x. x ≡ ok tt) (m.details.transport == "unknown") (λ b. h) (λ b. refl)

    entries_return :
        ((p : String) → log p ≡ ok tt)
        → (ps seen : List String) → (es : List PeerEntry) × (all_entries ps seen ≡ ok es)
    unfolding entries
    entries_return logs [] seen = ([], refl)
    entries_return logs (p ∷ ps) seen =
        if_both (λ r. (es : List PeerEntry) × (r ≡ ok es)) (mem p seen)
          (λ b. entries_return logs ps seen)
          (λ b.
            let (es, q) = entries_return logs ps (p ∷ seen) in
            (
              entry round1 log now addrs (get p metas) (get p stream_stats) p ∷ es,
              rw (diagnosed-ok (log p) (get p metas) (logs p), q),
            ))

  -- Whether the diagnostic lines can be written or not: a list that is returned has exactly the peers of
  -- the network, each once, the longest connected first.
  listed-lem :
      (tracker : Conns) (stream_stats : Dict String PeerStreamStats) (peers : List String)
      (listed : List PeerEntry)
      → list_connected_peers round1 log now addrs tracker stream_stats peers ≡ ok listed
      → ((z : String) → mem z (peers_of listed) ≡ mem z peers)
        × Distinct (peers_of listed)
        × IsDescending listed
  unfolding list_connected_peers
  listed-lem tracker stream_stats peers listed h =
      let metas = conn_meta_from tracker.heap tracker.table [] in
      let (es, p, k) =
        >>=-ok (all_entries metas stream_stats peers []) (λ es. ok (sorted_by lives_longer es)) h in
      subst
        (λ l.
          ((z : String) → mem z (peers_of l) ≡ mem z peers)
          × Distinct (peers_of l)
          × IsDescending l)
        (ok-injective k)
        (
          λ z. ground (arith, mem-sorted_by z es, mem-entries metas stream_stats z peers [] es p),
          sorted_by-Distinct es (entries-Distinct metas stream_stats peers [] es p),
          sorted_by-IsDescending es,
        )

  -- Where the diagnostic lines can be written: the call returns, and lists exactly the peers of the
  -- network, each once, in the order of the rounded durations, the longest first.
  pub list_connected_peers-lem :
      ((p : String) → log p ≡ ok tt)
      → (tracker : Conns) (stream_stats : Dict String PeerStreamStats) (peers : List String)
      → (listed : List PeerEntry) × (list_connected_peers round1 log now addrs tracker stream_stats
            peers
          ≡ ok listed)
        × ((z : String) → mem z (peers_of listed) ≡ mem z peers)
        × Distinct (peers_of listed)
        × IsDescending listed
  unfolding list_connected_peers
  list_connected_peers-lem logs tracker stream_stats peers =
      let metas = conn_meta_from tracker.heap tracker.table [] in
      let (es, p) = entries_return metas stream_stats logs peers [] in
      let returned : list_connected_peers round1 log now addrs tracker stream_stats peers
          ≡ ok (sorted_by lives_longer es) =
        ap (λ r. r >>= (λ es. ok (sorted_by lives_longer es))) p in
      let (exact, once, ordered) =
        listed-lem tracker stream_stats peers (sorted_by lives_longer es) returned in
      (sorted_by lives_longer es, returned, exact, once, ordered)
