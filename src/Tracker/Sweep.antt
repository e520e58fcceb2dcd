-- ===== src/Tracker/Sweep.antt =====
-- `_finalize_record`, `check_for_leaks` and the part of `disconnected` that ends streams.
use py_ipfs_lite.Prelude.{
  ℕ, ◌+◌, ◌-◌, String, Bool, true, ◌&&◌, List, [], ◌∷◌, string_eq, if◌then◌else◌, ltb,
}
use py_ipfs_lite.Dict.{Dict, put, remove}
use py_ipfs_lite.Tracker.Types.{PeerStreamStats, StreamRecord, Tracker, stats_of, set_stats}
use py_ipfs_lite.Tracker.Signals.{World, stream_dead, connection_gone, on_conn}
use py_ipfs_lite.Tracker.Streams.{refresh, refreshed, close_record, with_reset}

-- `_finalize_record`
unfoldable pub finalize_record : ℕ → World → String → StreamRecord → Tracker → Tracker
unfolding close_record
finalize_record now world key r t =
    close_record now key (with_reset (world r.stream) r)
      (record t { streams = remove key t.streams })

-- The loop of `disconnected` over the streams; a connection is given by its object ids.
unfoldable pub end_streams : ℕ → World → ℕ → ℕ → List (String × StreamRecord) → Tracker → Tracker
unfolding finalize_record
end_streams now world conn_id muxed_id [] t = t
end_streams now world conn_id muxed_id ((key, r) ∷ rest) t =
    end_streams now world conn_id muxed_id rest
      (if on_conn (world r.stream) conn_id muxed_id then finalize_record now world key r t else t)

-- What the swarm's table says: the live object ids and peers, if the tracker has a network.
pub record LiveTable : Type 0 where
  pub has_network : Bool
  pub live_ids : List ℕ
  pub live_peers : List String

-- What the sweep does with one record, after its refresh.
pub data Verdict : Type 0 where
  dead kept flagged : Verdict

unfoldable pub judge : ℕ → ℕ → World → LiveTable → StreamRecord → Verdict
judge now threshold world live r =
    let ref = world r.stream in
    if stream_dead ref
    then dead
    else if live.has_network && connection_gone ref r.peer_id live.live_ids live.live_peers
    then dead
    else if r.suspected_leak
    then kept
    else if ltb threshold (now - r.opened_at)
    then flagged
    else kept

abbrev pub flag_stats : PeerStreamStats → PeerStreamStats
flag_stats s = record s { suspected_leaks = s.suspected_leaks + 1 }

abbrev pub act : ℕ → World → String → StreamRecord → Verdict → Tracker → Tracker
act now world key r dead t = finalize_record now world key r t
act now world key r kept t = record t { streams = put key r t.streams }
act now world key r flagged t =
    set_stats r.peer_id (flag_stats (stats_of r.peer_id t))
      (record t { streams = put key (record r { suspected_leak = true }) t.streams })

-- One round of the loop of `check_for_leaks`. The record is changed in place, so the tracker holds
-- the refreshed one.
unfoldable pub sweep_one : ℕ → ℕ → World → LiveTable → String → StreamRecord → Tracker → Tracker
unfolding judge finalize_record refresh
sweep_one now threshold world live key r t =
    let r' = refreshed (world r.stream) r in
    act now world key r' (judge now threshold world live r') (refresh (world r.stream) r t)

abbrev pub report :
    String → StreamRecord → Verdict → List (String × StreamRecord) → List (String × StreamRecord)
report key r flagged leaked = (key, record r { suspected_leak = true }) ∷ leaked
report key r _ leaked = leaked

-- The loop over a snapshot of the streams: the tracker, and the records that were flagged.
unfoldable pub sweep_from :
    ℕ
    → ℕ
    → World
    → LiveTable
    → List (String × StreamRecord)
    → Tracker
    → Tracker × List (String × StreamRecord)
unfolding sweep_one
sweep_from now threshold world live [] t = (t, [])
sweep_from now threshold world live ((key, r) ∷ rest) t =
    let r' = refreshed (world r.stream) r in
    let (t', leaked) =
      sweep_from now threshold world live rest (sweep_one now threshold world live key r t) in
    (t', report key r' (judge now threshold world live r') leaked)

abbrev pub check_for_leaks :
    ℕ → ℕ → World → LiveTable → Tracker → Tracker × List (String × StreamRecord)
check_for_leaks now threshold world live t = sweep_from now threshold world live t.streams t

-- `reset_stream_stats`
abbrev pub reset_stream_stats : Tracker → Tracker
reset_stream_stats t = record t {
  streams = [];
  peer_stream_stats = [];
  peer_lifetime = [];
  finalized_keys = [];
}

-- `avg_stream_lifetime`: the sum and the count; None where the count is 0.
unfoldable pub lifetime_totals : Dict String (ℕ × ℕ) → ℕ × ℕ
lifetime_totals [] = (0, 0)
lifetime_totals ((p, (sum, n)) ∷ d) =
    let (total, count) = lifetime_totals d in (sum + total, n + count)
