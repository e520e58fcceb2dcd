-- ===== src/Swarm/Connected.antt =====
-- `list_connected_peers` and `count_connections`. Times are milliseconds. `round1` is what round(_, 1)
-- of Python makes of a number of seconds, and `log` how the diagnostic lines about a peer are written.
use py_ipfs_lite.Prelude.{
  ℕ, ◌+◌, ◌-◌, String, Bool, true, not, ◌&&◌, Option, none, some, List, [], ◌∷◌, ◌==◌, string_eq,
  nat_eq, if◌then◌else◌, mem, leb, ltb,
}
use py_ipfs_lite.Errors.{Result, ok, ◌>>=◌}
use py_ipfs_lite.Dict.{Dict, get, put}
use py_ipfs_lite.Tracker.Types.{PeerStreamStats}
use py_ipfs_lite.Conns.Table.{ConnMeta, Conns, deref}
use py_ipfs_lite.Conns.Details.{Details}
use py_ipfs_lite.Pubsub.Topics.{sorted_by}

-- An entry of the list
pub record PeerEntry : Type 0 where
  pub peer : String
  pub addrs : List String
  pub connected_at : Option ℕ
  pub duration : ℕ
  pub transport : String
  pub direction : String
  pub age_tier : String
  pub streams_total : ℕ
  pub streams_outbound : ℕ
  pub streams_inbound : ℕ

-- The details replace those that are kept, where they are older.
abbrev pub older : ConnMeta → Option ConnMeta → Bool
older m none = true
older m (some kept) = ltb m.start kept.start

abbrev pub keep_older : Option ConnMeta → Dict String ConnMeta → Dict String ConnMeta
keep_older none d = d
keep_older (some m) d =
    if not (m.peer_id == "") && not (m.peer_id == "unknown") && older m (get m.peer_id d)
    then put m.peer_id m d
    else d

-- `conn_meta_map`: the oldest details of each peer, over the values of `_conn_meta`.
unfoldable pub conn_meta_from :
    Dict ℕ ConnMeta → Dict ℕ ℕ → Dict String ConnMeta → Dict String ConnMeta
conn_meta_from heap [] d = d
conn_meta_from heap ((id, r) ∷ table) d =
    conn_meta_from heap table (keep_older (deref heap (some r)) d)

unfoldable pub age_tier_of : ℕ → String
age_tier_of duration =
    if leb 1_800_000 duration
    then "over_30m"
    else (if leb 600_000 duration
        then "10m_to_30m"
        else (if leb 300_000 duration
            then "5m_to_10m"
            else (if leb 120_000 duration then "2m_to_5m" else "under_2m")))

abbrev pub duration_of : (ℕ → ℕ) → ℕ → Option ConnMeta → ℕ
duration_of round1 now none = 0
duration_of round1 now (some m) = round1 (now - m.start)

abbrev pub detail : (Details → String) → Option ConnMeta → String
detail f none = "unknown"
detail f (some m) = f m.details

abbrev pub started : Option ConnMeta → Option ℕ
started none = none
started (some m) = some m.start

abbrev pub stream_count : (PeerStreamStats → ℕ) → Option PeerStreamStats → ℕ
stream_count f none = 0
stream_count f (some st) = f st

-- key=duration, reverse=True
abbrev pub lives_longer : PeerEntry → PeerEntry → Bool
lives_longer a b = leb b.duration a.duration

-- The diagnostic line about a peer whose details are missing, or lack the transport.
abbrev pub diagnosed : Result (Unit {0}) → Option ConnMeta → Result (Unit {0})
diagnosed log none = log
diagnosed log (some m) = if m.details.transport == "unknown" then log else ok tt

module _ (round1 : ℕ → ℕ) (log : String → Result (Unit {0})) (now : ℕ)
    (addrs : String → List String) where
  unfoldable pub entry : Option ConnMeta → Option PeerStreamStats → String → PeerEntry
  unfolding age_tier_of
  entry meta stats p = record {
    peer = p;
    addrs = addrs p;
    connected_at = started meta;
    duration = duration_of round1 now meta;
    transport = detail (λ d. d.transport) meta;
    direction = detail (λ d. d.direction) meta;
    age_tier = age_tier_of (duration_of round1 now meta);
    streams_total = stream_count (λ s. s.current_open) stats;
    streams_outbound = stream_count (λ s. s.current_open_outbound) stats;
    streams_inbound = stream_count (λ s. s.current_open_inbound) stats;
  }

  module _ (metas : Dict String ConnMeta) (stream_stats : Dict String PeerStreamStats) where
    -- The loop over the connected peers, by their texts; one that was seen is passed over.
    unfoldable pub entries : List String → List String → Result (List PeerEntry)
    unfolding entry
    entries [] seen = ok []
    entries (p ∷ ps) seen =
        let rest = entries ps (p ∷ seen) in
        let rest_seen = entries ps seen in
        if mem p seen then rest_seen else do
          _ ← diagnosed (log p) (get p metas)
          es ← rest
          ok (entry (get p metas) (get p stream_stats) p ∷ es)

  -- `peers` are the keys of the network's table of connections.
  unfoldable pub list_connected_peers :
      Conns → Dict String PeerStreamStats → List String → Result (List PeerEntry)
  unfolding conn_meta_from entries sorted_by
  list_connected_peers tracker stream_stats peers = do
    es ← entries (conn_meta_from tracker.heap tracker.table []) stream_stats peers []
    ok (sorted_by lives_longer es)

-- The number of connections, each peer with a list of them.
unfoldable pub count_connections : Dict String ℕ → ℕ
count_connections [] = 0
count_connections ((p, n) ∷ d) = n + count_connections d
