-- ===== src/Tracker/Leaks.antt =====
-- What a sweep reports, and how many finalized keys are remembered.
use py_ipfs_lite.Prelude.{
  ℕ, ◌-◌, ◌<◌, ◌≤◌, String, true, false, ◌&&◌, List, [], ◌∷◌, ◌≡◌, refl, sym, subst, string_eq,
  arith, inl, inr, eq_iff, length, All, In,
}
use py_ipfs_lite.Dict.{Dict, put, remove, length-put-le, length-remove-le}
use py_ipfs_lite.Tracker.Types.{StreamRecord, Tracker, max_finalized_keys}
use py_ipfs_lite.Tracker.Signals.{World, stream_dead, connection_gone}
use py_ipfs_lite.Tracker.Streams.{refreshed, mark_finalized, expired_keys, remove_all, pop_first}
use py_ipfs_lite.Tracker.Sweep.{
  report, LiveTable, Verdict, dead, kept, flagged, judge, sweep_one, sweep_from,
}

module _ (now threshold : ℕ) (world : World) (live : LiveTable) where
  -- A reported record was not reported before, is old, and its stream and its connection are live.
  pub record IsLeak (r : StreamRecord) : Type 0 where
    pub is_old : threshold < now - r.opened_at
    pub is_live : stream_dead (world r.stream) ≡ false
    pub is_connected :
        (live.has_network
          && connection_gone (world r.stream) r.peer_id live.live_ids live.live_peers)
        ≡ false
    pub is_marked : r.suspected_leak ≡ true

  judge-flagged :
      (r : StreamRecord)
      → judge now threshold world live r ≡ flagged
      → (r.suspected_leak ≡ false) × IsLeak (record r { suspected_leak = true })
  unfolding judge
  judge-flagged r h = (
    ground (arith, h),
    record {
      is_old = ground (arith, h);
      is_live = ground (arith, h);
      is_connected = ground (arith, h);
      is_marked = refl;
    },
  )

  report-IsLeak :
      (key : String) (r : StreamRecord) (v : Verdict) (leaked : Dict String StreamRecord)
      → judge now threshold world live r ≡ v
      → All (λ e. IsLeak e.1) leaked
      → All (λ e. IsLeak e.1) (report key r v leaked)
  report-IsLeak key r dead leaked h m = m
  report-IsLeak key r kept leaked h m = m
  report-IsLeak key r flagged leaked h m = ((judge-flagged r h).1, m)

  -- Every record that a sweep reports is older than the threshold, its stream is not dead, its
  -- connection is not gone, and it is marked.
  pub sweep_from-IsLeak :
      (rest : Dict String StreamRecord) (t : Tracker)
      → All (λ e. IsLeak e.1) (sweep_from now threshold world live rest t).1
  unfolding sweep_from
  sweep_from-IsLeak [] t = tt
  sweep_from-IsLeak ((key, r) ∷ rest) t =
      report-IsLeak key (refreshed (world r.stream) r) _ _ refl
        (sweep_from-IsLeak rest (sweep_one now threshold world live key r t))

  report-In :
      (e : String × StreamRecord) (key : String) (r : StreamRecord) (v : Verdict)
      (leaked : Dict String StreamRecord)
      → In e leaked
      → In e (report key r v leaked)
  report-In e key r flagged leaked m = inr m
  report-In e key r dead leaked m = m
  report-In e key r kept leaked m = m

  -- A sweep reports every record of the snapshot that is judged a leak after its refresh.
  pub sweep_from_complete :
      (key : String) (r : StreamRecord) (rest : Dict String StreamRecord) (t : Tracker)
      → In (key, r) rest
      → judge now threshold world live (refreshed (world r.stream) r) ≡ flagged
      → In
          (key, record (refreshed (world r.stream) r) { suspected_leak = true })
          (sweep_from now threshold world live rest t).1
  unfolding sweep_from
  sweep_from_complete key r [] t m h = elim m [ ]
  sweep_from_complete key r ((j, w) ∷ rest) t (inl e) h =
      let leaked =
        (sweep_from now threshold world live rest (sweep_one now threshold world live j w t)).1 in
      subst
        (λ x.
          In (key, record (refreshed (world r.stream) r) { suspected_leak = true })
            (report x.0 (refreshed (world x.1.stream) x.1)
              (judge now threshold world live (refreshed (world x.1.stream) x.1)) leaked))
        e
        (subst
          (λ v.
            In (key, record (refreshed (world r.stream) r) { suspected_leak = true })
              (report key (refreshed (world r.stream) r) v leaked))
          (sym h) (inl refl))
  sweep_from_complete key r ((j, w) ∷ rest) t (inr m) h =
      report-In _ j (refreshed (world w.stream) w) _ _ (sweep_from_complete key r rest _ m h)

remove_all_le : (ks : List String) (d : Dict String ℕ) → length (remove_all ks d) ≤ length d
unfolding remove_all
remove_all_le [] d = ground arith
remove_all_le (k ∷ ks) d = ground (arith, remove_all_le ks (remove k d), length-remove-le k d)

pop_first_le : (d : Dict String ℕ) → length (pop_first d) ≤ length d - 1
unfolding remove
pop_first_le [] = ground arith
pop_first_le ((k, ts) ∷ d) = ground (arith, length-remove-le k d, eq_iff k k)

-- The memory of finalized keys stays within its bound, where it was within it before.
pub mark_finalized_bounded :
    (now : ℕ) (key : String) (d : Dict String ℕ)
    → length d ≤ max_finalized_keys
    → length (mark_finalized now key d) ≤ max_finalized_keys
unfolding mark_finalized
mark_finalized_bounded now key d h =
    let d' = put key now d in
    let ks = expired_keys now d' in
    ground (arith, remove_all_le ks d', length-put-le key now d, pop_first_le (remove_all ks d'))
