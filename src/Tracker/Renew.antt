-- ===== src/Tracker/Renew.antt =====
-- What `_refresh_record_metadata` and the flag of a leak do to the counters of a peer.
use py_ipfs_lite.Prelude.{
  ℕ, ◌+◌, String, Bool, true, false, Option, none, some, ◌==◌, ◌≡◌, refl, string_eq, if◌then◌else◌,
  arith, Bool-cases, eq_iff, inl, inr, subst, sym,
}
use py_ipfs_lite.Dict.{has}
use py_ipfs_lite.Tracker.Types.{
  Direction, outbound, inbound, unknown, StreamRecord, Tracker, bump, stats_of, set_stats,
}
use py_ipfs_lite.Tracker.Signals.{StreamObj, stream_direction}
use py_ipfs_lite.Tracker.Streams.{
  bucket_moved, opened_stats, opened_total, move_bucket, refresh, refreshed, new_direction,
  count_protocol, count_direction, refresh_protocol, refresh_direction, to_count, or_unknown,
}
use py_ipfs_lite.Tracker.Balance.{
  Counts, CountsWith, change-Counts, Counts-here, counted_here, Counts-elsewhere, counted_elsewhere,
  learned_stats-Counts, stats_of-opened_total,
}

module _ (p : String) (n o i : ℕ) where
  protocol-Counts :
      (old new : Option String) (q : String) (t : Tracker)
      → Counts n o i (stats_of p t)
      → Counts n o i (stats_of p (refresh_protocol old new q t))
  unfolding move_bucket
  protocol-Counts (some old) new q t c = c
  protocol-Counts none none q t c = c
  protocol-Counts none (some new) q t c = if_Counts (has q t.peer_stream_stats) _ (
      change-Counts p n o i (bucket_moved new) q t
        (λ e. record {
          open_now = c.open_now;
          outbound_now = c.outbound_now;
          inbound_now = c.inbound_now;
          history = c.history;
        })
        (λ e. c))
    where
      if_Counts :
          (b : Bool) (t' : Tracker)
          → Counts n o i (stats_of p t')
          → Counts n o i (stats_of p (if b then t' else t))
      if_Counts true t' c' = c'
      if_Counts false t' c' = c

  count-Counts :
      (r : StreamRecord) (t : Tracker)
      → Counts n o i (stats_of p t)
      → Counts n o i (stats_of p (count_protocol r t))
  count-Counts r t c = go (to_count r.protocol r.counted_in_proto_total) r.direction
    where
      go :
          (b : Bool) (d : Direction)
          → Counts n o i (
              stats_of p (
                if b
                then count_direction d (or_unknown r.protocol) (record t {
                  by_protocol_total = bump (or_unknown r.protocol) t.by_protocol_total;
                })
                else t))
      go false d = c
      go true outbound = c
      go true inbound = c
      go true unknown = c

module _ (p : String) (n o i : ℕ) where
  direction-Counts :
      (r : StreamRecord) (new : Direction) (t : Tracker)
      → CountsWith p r n o i (stats_of p t)
      → CountsWith p
          (record r { direction = new_direction r.direction new })
          n
          o
          i
          (stats_of p (refresh_direction r.direction (new_direction r.direction new) r.peer_id t))
  direction-Counts r new t c = go r.direction c
    where
      go :
          (d : Direction)
          → CountsWith p (record r { direction = d }) n o i (stats_of p t)
          → CountsWith p
              (record r { direction = new_direction d new })
              n
              o
              i
              (stats_of p (refresh_direction d (new_direction d new) r.peer_id t))
      go outbound c = c
      go inbound c = c
      go unknown c = known (has r.peer_id t.peer_stream_stats) refl
        where
          r' : StreamRecord
          r' = record r { direction = unknown }

          known :
              (b : Bool)
              → has r.peer_id t.peer_stream_stats ≡ b
              → CountsWith p
                  (record r { direction = new })
                  n
                  o
                  i
                  (stats_of p (
                    if b
                    then opened_total new
                        (set_stats r.peer_id (opened_stats new (stats_of r.peer_id t)) t)
                    else t))
          known true h =
              subst (CountsWith p (record r { direction = new }) n o i)
                (sym (
                  stats_of-opened_total new p
                    (set_stats r.peer_id (opened_stats new (stats_of r.peer_id t)) t)))
                (change-Counts p _ _ _ (opened_stats new) r.peer_id t
                  (λ e.
                    Counts-here n o i p (record r { direction = new }) _ e
                      (learned_stats-Counts (n + 1) o i new _ (counted_here n o i p r' _ e c)))
                  (λ e.
                    Counts-elsewhere n o i p (record r { direction = new }) _ e
                      (counted_elsewhere n o i p r' _ e c)))
          known false h = elim (Bool-cases (r.peer_id == p)) [
            | inl e ↦ absurd (no_stats_open e h)
            | inr e ↦
                Counts-elsewhere n o i p (record r { direction = new }) _ e
                  (counted_elsewhere n o i p r' _ e c)
          ]
            where
              no_stats_open :
                  (r.peer_id == p) ≡ true → has r.peer_id t.peer_stream_stats ≡ false → ⊥
              no_stats_open e h = ground (arith, eq_iff r.peer_id p, c.open_now)

  pub refreshed-Counts :
      (ref : Option StreamObj) (r : StreamRecord) (t : Tracker)
      → CountsWith p r n o i (stats_of p t)
      → CountsWith p (refreshed ref r) n o i (stats_of p (refresh ref r t))
  unfolding refresh
  refreshed-Counts ref r t c =
      let r' = refreshed ref r in
      let t' = refresh_direction r.direction r'.direction r.peer_id t in
      count-Counts p _ _ _ (record r' { counted_in_proto_total = r.counted_in_proto_total })
        (refresh_protocol r.protocol r'.protocol r.peer_id t')
        (protocol-Counts p _ _ _ r.protocol r'.protocol r.peer_id t'
          (direction-Counts r (stream_direction ref) t c))
