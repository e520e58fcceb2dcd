-- ===== src/Conns/Events.antt =====
-- `connected`, `disconnected` and `mark_ping_completed`, without the streams, which Tracker ends.
use py_ipfs_lite.Prelude.{
  ℕ, ◌+◌, ◌-◌, String, Bool, true, false, not, ◌&&◌, ◌||◌, Option, none, some, List, [], ◌∷◌, ◌++◌,
  ◌==◌, string_eq, nat_eq, if◌then◌else◌, length, drop, ltb, leb, contains,
}
use py_ipfs_lite.Dict.{get, put}
use py_ipfs_lite.Conns.Details.{Details, first_of}
use py_ipfs_lite.Conns.Table.{
  ConnMeta, PeerConnectionStats, no_stats, Disconnection, Conns, store_meta, pop_meta,
}
use py_ipfs_lite.Conns.Capacity.{enforce_capacity}

abbrev pub stats_at : String → Conns → PeerConnectionStats
stats_at p s = elim (get p s.stats) [ none ↦ no_stats | some st ↦ st ]

-- A detail replaces the old one where it is known.
abbrev pub known : String → Option String → Option String
known new old = if new == "unknown" then old else some new

abbrev pub connected_stats : ℕ → Details → PeerConnectionStats → PeerConnectionStats
connected_stats now d st = record st {
  total_connections = st.total_connections + 1;
  current_connections = st.current_connections + 1;
  first_connected_at = first_of st.first_connected_at (some now);
  last_connected_at = some now;
  transport = known d.transport st.transport;
  security = known d.security st.security;
  muxer = known d.muxer st.muxer;
}

abbrev pub new_meta : ℕ → String → Details → ConnMeta
new_meta now peer_id d = record {
  details = d;
  peer_id = peer_id;
  start = now;
  streams_served = 0;
  protocols = [];
}

-- `conn` and `muxed` are the ids of the two objects.
unfoldable pub connected : ℕ → String → Details → ℕ → Option ℕ → Conns → Conns
connected now peer_id d conn muxed s =
    let t = store_meta conn muxed (new_meta now peer_id d) s in
    record t {
      total_connected_events = s.total_connected_events + 1;
      stats = put peer_id (connected_stats now d (stats_at peer_id s)) s.stats;
    }

abbrev pub any_contains : String → List String → Bool
any_contains part [] = false
any_contains part (p ∷ ps) = contains part p || any_contains part ps

-- Durations are milliseconds: 5, 45 and 590 seconds.
unfoldable pub reason_hint : Option ℕ → ℕ → List String → String
reason_hint none streams_served protocols = "remote_closed_or_idle"
reason_hint (some duration) streams_served protocols =
    if ltb duration 5_000 && not (ltb 0 streams_served)
    then "handshake_failed_or_dial_cancelled"
    else (if any_contains "kad" protocols && ltb duration 45_000
        then "dht_lookup_hop_completed"
        else (if leb 590_000 duration then "idle_timeout" else "remote_closed_or_idle"))

abbrev pub disconnected_stats : ℕ → PeerConnectionStats → PeerConnectionStats
disconnected_stats now st = record st {
  current_connections = st.current_connections - 1;
  last_disconnected_at = some now;
}

-- stats = self.stats.get(peer_id), changed in place where it is there
abbrev pub mark_disconnected : ℕ → String → Option PeerConnectionStats → Conns → Conns
mark_disconnected now p none s = s
mark_disconnected now p (some st) s = record s { stats = put p (disconnected_stats now st) s.stats }

abbrev pub from_stats :
    (PeerConnectionStats → Option String) → Option PeerConnectionStats → Option String
from_stats f none = none
from_stats f (some st) = f st

-- The event, from the details that were taken out and the stats of the peer. `protocols` is a set,
-- which the event lists in order.
unfoldable pub disconnection :
    ℕ → String → Option ConnMeta → Option PeerConnectionStats → Disconnection
unfolding reason_hint
disconnection now peer_id none stats = record {
  peer_id = peer_id;
  connected_at = none;
  disconnected_at = now;
  duration = none;
  direction = some "unknown";
  transport = from_stats (λ st. st.transport) stats;
  security = from_stats (λ st. st.security) stats;
  muxer = from_stats (λ st. st.muxer) stats;
  remote_addr = none;
  streams_served = 0;
  protocols = [];
  reason_hint = reason_hint none 0 [];
}
disconnection now peer_id (some m) stats = record {
  peer_id = peer_id;
  connected_at = some m.start;
  disconnected_at = now;
  duration = some (now - m.start);
  direction = some m.details.direction;
  transport = some m.details.transport;
  security = some m.details.security;
  muxer = some m.details.muxer;
  remote_addr = m.details.remote_addr;
  streams_served = m.streams_served;
  protocols = m.protocols;
  reason_hint = reason_hint (some (now - m.start)) m.streams_served m.protocols;
}

-- deque(maxlen=500)
abbrev pub max_recent : ℕ
max_recent = 500

abbrev pub append_event : Disconnection → List Disconnection → List Disconnection
append_event e es = drop (length es + 1 - max_recent) (es ++ (e ∷ []))

abbrev pub pop_muxed : Option ℕ → String → Conns → Conns
pop_muxed none peer_id s = s
pop_muxed (some m) peer_id s = (pop_meta m peer_id s).1

unfoldable pub disconnected : ℕ → String → ℕ → Option ℕ → Conns → Conns
unfolding pop_meta disconnection enforce_capacity
disconnected now peer_id conn muxed s =
    let (meta, s1) = pop_meta conn peer_id s in
    let s2 = pop_muxed muxed peer_id s1 in
    let stats = get peer_id s2.stats in
    let s3 =
      mark_disconnected now peer_id stats
        (record s2 { total_disconnected_events = s2.total_disconnected_events + 1 }) in
    let s4 = record s3 {
      recent_disconnections =
          append_event (disconnection now peer_id meta stats) s3.recent_disconnections;
    } in
    if ltb 2_000 (length s4.stats) then enforce_capacity now s4 else s4

abbrev pub pinged : ℕ → PeerConnectionStats → PeerConnectionStats
pinged now st = record st {
  ping_completed = true;
  first_ping_at = first_of st.first_ping_at (some now);
  last_ping_at = some now;
}

unfoldable pub mark_ping_completed : ℕ → String → Conns → Conns
mark_ping_completed now p s = elim (get p s.stats) [
  | none ↦ s
  | some st ↦ record s { stats = put p (pinged now st) s.stats }
]
