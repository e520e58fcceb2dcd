-- ===== src/Tracker/Loops.antt =====
-- The loops of `disconnected` and `check_for_leaks` keep the invariant of the tracker.
use py_ipfs_lite.Prelude.{
  ℕ, String, Bool, true, false, some, [], ◌∷◌, ◌≡◌, refl, string_eq, if◌then◌else◌, arith, subst,
  sym, eq_iff, mem,
}
use py_ipfs_lite.Dict.{
  Dict, Distinct, keys, get, put, remove, get-put, get-remove, put-Distinct, remove-Distinct,
}
use py_ipfs_lite.Tracker.Types.{StreamRecord, Tracker, stats_of, set_stats}
use py_ipfs_lite.Tracker.Signals.{World, on_conn}
use py_ipfs_lite.Tracker.Streams.{refresh, refreshed, with_reset}
use py_ipfs_lite.Tracker.Sweep.{
  LiveTable, Verdict, dead, kept, flagged, act, flag_stats, finalize_record, end_streams, judge,
  sweep_one, sweep_from, check_for_leaks,
}
use py_ipfs_lite.Tracker.Balance.{Counts, closed-Counts, change-Counts}
use py_ipfs_lite.Tracker.Renew.{refreshed-Counts}
use py_ipfs_lite.Tracker.Ledger.{
  AgreesWith, IsBalanced, apart, back, streams-close_record, streams-refresh,
}
use py_ipfs_lite.Tracker.Kept.{IsBalanced-from, finalize_record-IsBalanced}

-- The records of the first dictionary are in the second one, under different keys.
pub Held : Dict String StreamRecord → Dict String StreamRecord → Type 0
Held [] d = Unit
Held ((k, r) ∷ rest) d = (get k d ≡ some r) × (mem k (keys rest) ≡ false) × Held rest d

Held-put :
    (k : String) (r : StreamRecord) (rest d : Dict String StreamRecord)
    → mem k (keys rest) ≡ false
    → Held rest d
    → Held rest (put k r d)
unfolding Held
Held-put k r [] d h m = tt
Held-put k r ((j, w) ∷ rest) d h m = (
  ground (arith, get-put k j r d, eq_iff k j, eq_iff j k, m.0),
  m.1,
  Held-put k r rest d (ground (arith, h)) m.2,
)

Held-remove :
    (k : String) (rest d : Dict String StreamRecord)
    → mem k (keys rest) ≡ false
    → Held rest d
    → Held rest (remove k d)
unfolding Held
Held-remove k [] d h m = tt
Held-remove k ((j, w) ∷ rest) d h m = (
  ground (arith, get-remove k j d, eq_iff k j, eq_iff j k, m.0),
  m.1,
  Held-remove k rest d (ground (arith, h)) m.2,
)

Held-cons :
    (k : String) (r : StreamRecord) (rest d : Dict String StreamRecord)
    → mem k (keys rest) ≡ false
    → Held rest d
    → Held rest ((k, r) ∷ d)
unfolding Held get
Held-cons k r [] d h m = tt
Held-cons k r ((j, w) ∷ rest) d h m =
    (ground (arith, eq_iff k j, eq_iff j k, m.0), m.1, Held-cons k r rest d (ground (arith, h)) m.2)

Held-refl : (d : Dict String StreamRecord) → Distinct (keys d) → Held d d
unfolding Held get
Held-refl [] h = tt
Held-refl ((k, r) ∷ d) h =
    (ground (arith, eq_iff k k), h.0, Held-cons k r d d h.0 (Held-refl d h.1))

module _ (now : ℕ) (world : World) where
  streams-finalize_record :
      (key : String) (r : StreamRecord) (t : Tracker)
      → (finalize_record now world key r t).streams ≡ remove key t.streams
  unfolding finalize_record
  streams-finalize_record key r t = streams-close_record now key (with_reset (world r.stream) r) _

  end_one :
      (key : String) (r : StreamRecord) (rest : Dict String StreamRecord) (t : Tracker)
      → Held ((key, r) ∷ rest) t.streams
      → IsBalanced t
      → (c : Bool)
      → Held rest (if c then finalize_record now world key r t else t).streams
        × IsBalanced (if c then finalize_record now world key r t else t)
  unfolding Held
  end_one key r rest t h b true = (
    subst (Held rest) (sym (streams-finalize_record key r t))
        (Held-remove key rest t.streams h.1 h.2),
    finalize_record-IsBalanced now world key r t h.0 b,
  )
  end_one key r rest t h b false = (h.2, b)

  pub end_streams-IsBalanced :
      (conn_id muxed_id : ℕ) (rest : Dict String StreamRecord) (t : Tracker)
      → Held rest t.streams
      → IsBalanced t
      → IsBalanced (end_streams now world conn_id muxed_id rest t)
  unfolding end_streams Held
  end_streams-IsBalanced conn_id muxed_id [] t h b = b
  end_streams-IsBalanced conn_id muxed_id ((key, r) ∷ rest) t h b =
      let step = end_one key r rest t h b (on_conn (world r.stream) conn_id muxed_id) in
      end_streams-IsBalanced conn_id muxed_id rest _ step.0 step.1

-- The loop of `disconnected` over the streams keeps the counters of every peer in agreement with
-- the live records.
pub end_all-IsBalanced :
    (now : ℕ) (world : World) (conn_id muxed_id : ℕ) (t : Tracker)
    → IsBalanced t
    → IsBalanced (end_streams now world conn_id muxed_id t.streams t)
end_all-IsBalanced now world conn_id muxed_id t b =
    end_streams-IsBalanced now world conn_id muxed_id t.streams t (Held-refl t.streams b.distinct) b

flag-Counts :
    (p q : String) (n o i : ℕ) (t : Tracker)
    → Counts n o i (stats_of p t)
    → Counts n o i (stats_of p (set_stats q (flag_stats (stats_of q t)) t))
flag-Counts p q n o i t c =
    change-Counts p n o i flag_stats q t
      (λ e. record {
        open_now = c.open_now;
        outbound_now = c.outbound_now;
        inbound_now = c.inbound_now;
        history = c.history;
      })
      (λ e. c)

module _ (now : ℕ) (world : World) (key : String) where
  module _ (rest : Dict String StreamRecord) (h : mem key (keys rest) ≡ false) where
    act-Held :
        (v : Verdict) (r : StreamRecord) (t : Tracker)
        → Held rest t.streams
        → Held rest (act now world key r v t).streams
    act-Held dead r t m =
        subst (Held rest) (sym (streams-finalize_record now world key r t))
          (Held-remove key rest t.streams h m)
    act-Held kept r t m = Held-put key r rest t.streams h m
    act-Held flagged r t m = Held-put key _ rest t.streams h m

  -- The record is aside: the counters have it and the dictionary has an older one.
  act-IsBalanced :
      (v : Verdict) (r : StreamRecord) (t : Tracker)
      → Distinct (keys t.streams)
      → ((p : String) → AgreesWith p r (remove key t.streams) (stats_of p t))
      → IsBalanced (act now world key r v t)
  unfolding finalize_record
  act-IsBalanced dead r t h c =
      IsBalanced-from _ (remove key t.streams) (streams-finalize_record now world key r t)
        (remove-Distinct key t.streams h)
        (λ p.
          closed-Counts p _ _ _ now key (record t { streams = remove key t.streams })
            (with_reset (world r.stream) r) (c p))
  act-IsBalanced kept r t h c =
      IsBalanced-from _ (put key r t.streams) refl (put-Distinct key r t.streams h)
        (λ p. back key r t.streams h p _ (c p))
  act-IsBalanced flagged r t h c =
      IsBalanced-from _ (put key (record r { suspected_leak = true }) t.streams) refl
        (put-Distinct key _ t.streams h)
        (λ p.
          back key (record r { suspected_leak = true }) t.streams h p _
            (flag-Counts p r.peer_id _ _ _ t (c p)))

module _ (now threshold : ℕ) (world : World) (live : LiveTable) where
  sweep_one-IsBalanced :
      (key : String) (r : StreamRecord) (rest : Dict String StreamRecord) (t : Tracker)
      → Held ((key, r) ∷ rest) t.streams
      → IsBalanced t
      → Held rest (sweep_one now threshold world live key r t).streams
        × IsBalanced (sweep_one now threshold world live key r t)
  unfolding Held sweep_one
  sweep_one-IsBalanced key r rest t h b =
      let ref = world r.stream in
      let t' = refresh ref r t in
      let v = judge now threshold world live (refreshed ref r) in
      let e = streams-refresh ref r t in
      (
        act-Held now world key rest h.1 v (refreshed ref r) t' (subst (Held rest) (sym e) h.2),
        act-IsBalanced now world key v (refreshed ref r) t'
            (subst (λ d. Distinct (keys d)) (sym e) b.distinct)
            (λ p.
              subst (λ d. AgreesWith p (refreshed ref r) (remove key d) (stats_of p t')) (sym e)
                (refreshed-Counts p _ _ _ ref r t
                  (apart key r t.streams b.distinct p _ h.0 (b.agrees p)))),
      )

  sweep_from-IsBalanced :
      (rest : Dict String StreamRecord) (t : Tracker)
      → Held rest t.streams
      → IsBalanced t
      → IsBalanced (sweep_from now threshold world live rest t).0
  unfolding sweep_from Held
  sweep_from-IsBalanced [] t h b = b
  sweep_from-IsBalanced ((key, r) ∷ rest) t h b =
      let step = sweep_one-IsBalanced key r rest t h b in sweep_from-IsBalanced rest _ step.0 step.1

  -- A sweep keeps the counters of every peer in agreement with the live records.
  pub check_for_leaks-IsBalanced :
      (t : Tracker) → IsBalanced t → IsBalanced (check_for_leaks now threshold world live t).0
  check_for_leaks-IsBalanced t b =
      sweep_from-IsBalanced t.streams t (Held-refl t.streams b.distinct) b
