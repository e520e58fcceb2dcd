-- ===== src/Tracker/Runs.antt =====
-- Any sequence of events of the tracker.
use py_ipfs_lite.Prelude.{
  ℕ, ◌≤◌, String, Bool, true, false, ◌||◌, none, List, [], ◌∷◌, ◌==◌, ◌≡◌, refl, sym, ap, ◌∙◌,
  subst, string_eq, if◌then◌else◌, mem, arith, Bool-cases, inl, inr, eq_iff, All,
}
use py_ipfs_lite.Dict.{Dict, get, remove, has, get-remove}
use py_ipfs_lite.Conns.Capacity.{pop_all}
use py_ipfs_lite.Tracker.Types.{
  Direction, outbound, inbound, PeerStreamStats, no_stats, StreamRecord, Tracker, new_tracker,
  or_default, stats_of,
}
use py_ipfs_lite.Tracker.Signals.{StreamObj, World}
use py_ipfs_lite.Tracker.Streams.{opened_stream, closed_stream}
use py_ipfs_lite.Tracker.Sweep.{LiveTable, end_streams, check_for_leaks, reset_stream_stats}
use py_ipfs_lite.Tracker.Tally.{is_direction, at_peer, at_peer_to, sum_of}
use py_ipfs_lite.Tracker.Ledger.{Agrees, IsBalanced}
use py_ipfs_lite.Tracker.Kept.{
  new_tracker-IsBalanced, opened_stream-IsBalanced, closed_stream-IsBalanced,
}
use py_ipfs_lite.Tracker.Loops.{end_all-IsBalanced, check_for_leaks-IsBalanced}

-- The part of `_enforce_stats_capacity` on the stats of streams.
abbrev pub evict : List String → Tracker → Tracker
evict pids t = record t {
  peer_stream_stats = pop_all pids t.peer_stream_stats;
  peer_lifetime = pop_all pids t.peer_lifetime;
}

-- An event: a stream under a key that is not in use, the notification of one that is known, a sweep,
-- the end of a connection, the eviction of peers that have no live streams, a reset.
pub data Step (t : Tracker) : Tracker → Type 0 where
  opens :
      (now : ℕ) (key q : String) (stream : ℕ) (obj : StreamObj)
      → has key t.streams ≡ false
      → Step t (opened_stream now key q stream obj t)
  closes :
      (now : ℕ) (world : World) (key q : String) (obj : StreamObj)
      → (has key t.streams || has key t.finalized_keys) ≡ true
      → Step t (closed_stream now world key q obj t).1
  sweeps :
      (now threshold : ℕ) (world : World) (live : LiveTable)
      → Step t (check_for_leaks now threshold world live t).0
  disconnects :
      (now : ℕ) (world : World) (conn_id muxed_id : ℕ)
      → Step t (end_streams now world conn_id muxed_id t.streams t)
  evicts :
      (pids : List String)
      → All (λ p. sum_of (at_peer p) t.streams ≡ 0) pids
      → Step t (evict pids t)
  resets : Step t (reset_stream_stats t)

pub data Reached : Tracker → Type 0 where
  starts : Reached new_tracker
  steps : (t u : Tracker) → Reached t → Step t u → Reached u

get-pop_all :
    (p : String) (ks : List String) (d : Dict String PeerStreamStats)
    → get p (pop_all ks d) ≡ (if mem p ks then none else get p d)
unfolding pop_all
get-pop_all p [] d = refl
get-pop_all p (k ∷ ks) d =
    ground (arith, get-pop_all p ks (remove k d), get-remove k p d, eq_iff k p, eq_iff p k)

sum_of_to_le :
    (e : Direction) (p : String) (d : Dict String StreamRecord)
    → sum_of (at_peer_to e p) d ≤ sum_of (at_peer p) d
unfolding sum_of
sum_of_to_le e p [] = ground arith
sum_of_to_le e p ((k, r) ∷ d) =
    ground (arith, sum_of_to_le e p d, one_le (is_direction e r.direction))
  where
    one_le : (b : Bool) → (if b then 1 else 0) ≤ 1
    one_le b = ground arith

member_idle :
    (p : String) (pids : List String) (d : Dict String StreamRecord)
    → All (λ q. sum_of (at_peer q) d ≡ 0) pids
    → mem p pids ≡ true
    → sum_of (at_peer p) d ≡ 0
member_idle p [] d h m = absurd (ground (arith, m))
member_idle p (q ∷ qs) d h m = elim (Bool-cases (p == q)) [
  | inl y ↦ ap (λ z. sum_of (at_peer z) d) ((eq_iff p q).0 y) ∙ h.0
  | inr f ↦ member_idle p qs d h.1 (ground (arith, m, f))
]

evict-IsBalanced :
    (pids : List String) (t : Tracker)
    → All (λ p. sum_of (at_peer p) t.streams ≡ 0) pids
    → IsBalanced t
    → IsBalanced (evict pids t)
evict-IsBalanced pids t h b = record { distinct = b.distinct; agrees = go }
  where
    go : (p : String) → Agrees p t.streams (stats_of p (evict pids t))
    go p = elim (Bool-cases (mem p pids)) [
      | inl m ↦
          let zero_open = member_idle p pids t.streams h m in
          subst (Agrees p t.streams)
            (sym (ap (or_default no_stats) (get-pop_all p pids t.peer_stream_stats ∙ gone m)))
            (record {
              open_now = sym zero_open;
              outbound_now = ground (arith, zero_open, sum_of_to_le outbound p t.streams);
              inbound_now = ground (arith, zero_open, sum_of_to_le inbound p t.streams);
              history = refl;
            })
      | inr f ↦
          subst (Agrees p t.streams)
            (sym (ap (or_default no_stats) (get-pop_all p pids t.peer_stream_stats ∙ stays f)))
            (b.agrees p)
    ]
      where
        gone : mem p pids ≡ true → (if mem p pids then none else get p t.peer_stream_stats) ≡ none
        gone m = ground (arith, m)

        stays :
            mem p pids ≡ false
            → (if mem p pids then none else get p t.peer_stream_stats) ≡ get p t.peer_stream_stats
        stays f = ground (arith, f)

Step-IsBalanced : (t u : Tracker) → Step t u → IsBalanced t → IsBalanced u
unfolding get sum_of
Step-IsBalanced t _ (opens now key q stream obj h) b =
    opened_stream-IsBalanced now key q stream obj t h b
Step-IsBalanced t _ (closes now world key q obj h) b =
    closed_stream-IsBalanced now world key q obj t h b
Step-IsBalanced t _ (sweeps now threshold world live) b =
    check_for_leaks-IsBalanced now threshold world live t b
Step-IsBalanced t _ (disconnects now world c m) b = end_all-IsBalanced now world c m t b
Step-IsBalanced t _ (evicts pids h) b = evict-IsBalanced pids t h b
Step-IsBalanced t _ resets b = record {
  distinct = tt;
  agrees = λ p. record { open_now = refl; outbound_now = refl; inbound_now = refl; history = refl };
}

-- After any sequence of these events the counters of every peer agree with the live records.
pub Reached-IsBalanced : (t : Tracker) → Reached t → IsBalanced t
Reached-IsBalanced t starts = new_tracker-IsBalanced
Reached-IsBalanced t (steps s _ r m) = Step-IsBalanced s t m (Reached-IsBalanced s r)
