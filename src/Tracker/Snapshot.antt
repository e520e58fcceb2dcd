-- ===== src/Tracker/Snapshot.antt =====
-- `stream_stats_snapshot`: the report on streams. Averages are sums with their counts.
use py_ipfs_lite.Prelude.{
  ℕ, ◌+◌, ◌-◌, ◌≤◌, ◌≡◌, String, Option, none, some, List, [], ◌∷◌, string_eq, if◌then◌else◌,
  length, ltb, nat_beq, arith,
}
use py_ipfs_lite.Dict.{Dict, get, put}
use py_ipfs_lite.Tracker.Types.{
  bump, Direction, outbound, inbound, unknown, PeerStreamStats, StreamRecord, Tracker,
}
use py_ipfs_lite.Tracker.Signals.{World}
use py_ipfs_lite.Tracker.Streams.{or_unknown, refreshed, refresh}
use py_ipfs_lite.Tracker.Sweep.{kept, act, lifetime_totals}

-- Every record is refreshed in place.
unfoldable pub refresh_all : World → List (String × StreamRecord) → Tracker → Tracker
unfolding refresh
refresh_all world [] t = t
refresh_all world ((key, r) ∷ rest) t =
    refresh_all world rest
      (act 0 world key (refreshed (world r.stream) r) kept (refresh (world r.stream) r t))

abbrev pub is_outbound : Direction → ℕ
is_outbound outbound = 1
is_outbound _ = 0

abbrev pub is_inbound : Direction → ℕ
is_inbound inbound = 1
is_inbound _ = 0

-- sum(1 for r in self.streams.values() if r.direction == ...)
unfoldable pub count_directions : (Direction → ℕ) → Dict String StreamRecord → ℕ
count_directions f [] = 0
count_directions f ((k, r) ∷ d) = f r.direction + count_directions f d

unfoldable pub open_by_proto : Dict String StreamRecord → Dict String ℕ → Dict String ℕ
open_by_proto [] counts = counts
open_by_proto ((k, r) ∷ d) counts = open_by_proto d (bump (or_unknown r.protocol) counts)

-- A peer in the report, with the sum and the count of its lifetimes, if there is any.
pub record PeerLine : Type 0 where
  pub peer_id : String
  pub stats : PeerStreamStats
  pub avg_lifetime : Option (ℕ × ℕ)

abbrev pub avg_of : Option (ℕ × ℕ) → Option (ℕ × ℕ)
avg_of none = none
avg_of (some (sum, n)) = if ltb 0 n then some (sum, n) else none

-- Peers for which no stream was opened are left out.
unfoldable pub per_peer : Dict String (ℕ × ℕ) → Dict String PeerStreamStats → List PeerLine
per_peer lifetime [] = []
per_peer lifetime ((p, s) ∷ d) =
    let rest = per_peer lifetime d in
    if nat_beq s.total_opened 0
    then rest
    else record { peer_id = p; stats = s; avg_lifetime = avg_of (get p lifetime) } ∷ rest

-- How long each stream has been open.
unfoldable pub open_for : ℕ → Dict String StreamRecord → List (String × ℕ)
open_for now [] = []
open_for now ((k, r) ∷ d) = (r.peer_id, now - r.opened_at) ∷ open_for now d

pub record StreamSnapshot : Type 0 where
  pub current_open_streams : ℕ
  pub active_outbound : ℕ
  pub active_inbound : ℕ
  pub active_unknown : ℕ
  pub open_streams_by_protocol : Dict String ℕ
  pub open_streams : List (String × ℕ)
  pub avg_lifetime_seconds : Option (ℕ × ℕ)
  pub peers : List PeerLine

abbrev pub report_on : ℕ → Tracker → StreamSnapshot
report_on now t =
    let out = count_directions is_outbound t.streams in
    let into = count_directions is_inbound t.streams in
    record {
      current_open_streams = length t.streams;
      active_outbound = out;
      active_inbound = into;
      active_unknown = length t.streams - (out + into);
      open_streams_by_protocol = open_by_proto t.streams [];
      open_streams = open_for now t.streams;
      avg_lifetime_seconds = avg_of (some (lifetime_totals t.peer_lifetime));
      peers = per_peer t.peer_lifetime t.peer_stream_stats;
    }

-- `stream_stats_snapshot`, with the tracker afterwards
unfoldable pub stream_stats_snapshot : ℕ → World → Tracker → StreamSnapshot × Tracker
unfolding refresh_all count_directions open_by_proto per_peer open_for
stream_stats_snapshot now world t = let t' = refresh_all world t.streams t in (report_on now t', t')

-- The sum of the counts
unfoldable pub total_of : Dict String ℕ → ℕ
total_of [] = 0
total_of ((k, n) ∷ d) = n + total_of d

total_of-bump : (p : String) (d : Dict String ℕ) → total_of (bump p d) ≡ total_of d + 1
unfolding total_of get put
total_of-bump p [] = ground arith
total_of-bump p ((k, n) ∷ d) = ground (arith, total_of-bump p d)

total_of-open_by_proto :
    (d : Dict String StreamRecord) (counts : Dict String ℕ)
    → total_of (open_by_proto d counts) ≡ total_of counts + length d
unfolding open_by_proto
total_of-open_by_proto [] counts = ground arith
total_of-open_by_proto ((k, r) ∷ d) counts = ground (
  arith,
  total_of-open_by_proto d (bump (or_unknown r.protocol) counts),
  total_of-bump (or_unknown r.protocol) counts,
)

directions_le :
    (d : Dict String StreamRecord)
    → count_directions is_outbound d + count_directions is_inbound d ≤ length d
unfolding count_directions
directions_le [] = omega arith
directions_le ((k, r) ∷ d) = omega (arith, directions_le d, one r.direction)
  where
    one : (x : Direction) → is_outbound x + is_inbound x ≤ 1
    one outbound = omega arith
    one inbound = omega arith
    one unknown = omega arith

-- In a snapshot the streams by direction, and those by protocol, add up to the open streams.
pub snapshot-total :
    (now : ℕ) (world : World) (t : Tracker)
    → let s = (stream_stats_snapshot now world t).0 in
      (s.active_outbound + s.active_inbound + s.active_unknown ≡ s.current_open_streams)
      × (total_of s.open_streams_by_protocol ≡ s.current_open_streams)
unfolding stream_stats_snapshot total_of
snapshot-total now world t =
    let streams = (refresh_all world t.streams t).streams in
    (omega (arith, directions_le streams), omega (arith, total_of-open_by_proto streams []))
