-- ===== src/Tracker/Streams.antt =====
-- `opened_stream`, `closed_stream`, `_refresh_record_metadata`, `_mark_finalized` and
-- `_record_lifetime`.
use py_ipfs_lite.Prelude.{
  ℕ, ◌+◌, ◌-◌, max, String, Bool, false, not, ◌&&◌, ◌||◌, Option, none, some, List, [], ◌∷◌, ◌==◌,
  string_eq, if◌then◌else◌, length, ltb,
}
use py_ipfs_lite.Errors.{Result, ok, raise, type_error}
use py_ipfs_lite.Dict.{Dict, get, put, remove, has}
use py_ipfs_lite.Tracker.Types.{
  Direction, outbound, inbound, unknown, PeerStreamStats, StreamRecord, Tracker, max_finalized_keys,
  finalized_ttl, or_default, bump, stats_of, set_stats,
}
use py_ipfs_lite.Tracker.Signals.{StreamObj, World, stream_protocol, stream_direction, is_reset}

-- One more stream of a direction: in the stats of a peer, and in the totals.
abbrev pub opened_stats : Direction → PeerStreamStats → PeerStreamStats
opened_stats outbound s = record s {
  total_opened_outbound = s.total_opened_outbound + 1;
  current_open_outbound = s.current_open_outbound + 1;
}
opened_stats inbound s = record s {
  total_opened_inbound = s.total_opened_inbound + 1;
  current_open_inbound = s.current_open_inbound + 1;
}
opened_stats unknown s = s

abbrev pub opened_total : Direction → Tracker → Tracker
opened_total outbound t = record t { total_outbound_opened = t.total_outbound_opened + 1 }
opened_total inbound t = record t { total_inbound_opened = t.total_inbound_opened + 1 }
opened_total unknown t = t

-- And one fewer.
abbrev pub closed_stats : Direction → PeerStreamStats → PeerStreamStats
closed_stats outbound s = record s { current_open_outbound = s.current_open_outbound - 1 }
closed_stats inbound s = record s { current_open_inbound = s.current_open_inbound - 1 }
closed_stats unknown s = s

abbrev pub closed_total : Direction → Tracker → Tracker
closed_total outbound t = record t { total_outbound_closed = t.total_outbound_closed + 1 }
closed_total inbound t = record t { total_inbound_closed = t.total_inbound_closed + 1 }
closed_total unknown t = t

abbrev pub count_opened : String → PeerStreamStats → PeerStreamStats
count_opened proto s = record s {
  total_opened = s.total_opened + 1;
  current_open = s.current_open + 1;
  max_concurrent_open = max s.max_concurrent_open (s.current_open + 1);
  by_protocol = bump proto s.by_protocol;
}

-- `record.protocol or "unknown"`
abbrev pub or_unknown : Option String → String
or_unknown none = "unknown"
or_unknown (some p) = if p == "" then "unknown" else p

abbrev pub opened_record : ℕ → String → ℕ → StreamObj → StreamRecord
opened_record now peer_id stream obj = record {
  peer_id = peer_id;
  opened_at = now;
  stream = stream;
  protocol = obj.protocol;
  direction = obj.direction;
  was_reset = false;
  suspected_leak = false;
  counted_in_proto_total = false;
}

-- `key`, `peer_id` and `stream` are what `_stream_key`, `_stream_peer_id` and `weakref.ref` give.
unfoldable pub opened_stream : ℕ → String → String → ℕ → StreamObj → Tracker → Tracker
opened_stream now key peer_id stream obj t =
    let s =
      opened_stats obj.direction (count_opened (or_unknown obj.protocol) (stats_of peer_id t)) in
    opened_total obj.direction (
      set_stats peer_id s
        (record t { streams = put key (opened_record now peer_id stream obj) t.streams }))

-- The peer's by_protocol bucket moves from "unknown" to the negotiated protocol.
unfoldable pub move_bucket : String → Dict String ℕ → Dict String ℕ
move_bucket new d =
    let n = or_default 0 (get "unknown" d) in
    bump new (if ltb 1 n then put "unknown" (n - 1) d else remove "unknown" d)

-- Where the direction became known.
abbrev pub refresh_direction : Direction → Direction → String → Tracker → Tracker
refresh_direction unknown new peer_id t =
    if has peer_id t.peer_stream_stats
    then opened_total new (set_stats peer_id (opened_stats new (stats_of peer_id t)) t)
    else t
refresh_direction _ new peer_id t = t

abbrev pub bucket_moved : String → PeerStreamStats → PeerStreamStats
bucket_moved new s = record s { by_protocol = move_bucket new s.by_protocol }

-- Where the protocol became known.
abbrev pub refresh_protocol : Option String → Option String → String → Tracker → Tracker
refresh_protocol none (some new) peer_id t =
    if has peer_id t.peer_stream_stats
    then set_stats peer_id (bucket_moved new (stats_of peer_id t)) t
    else t
refresh_protocol _ _ peer_id t = t

abbrev pub count_direction : Direction → String → Tracker → Tracker
count_direction outbound p t = record t { by_protocol_outbound = bump p t.by_protocol_outbound }
count_direction inbound p t = record t { by_protocol_inbound = bump p t.by_protocol_inbound }
count_direction unknown p t = t

-- `protocol and protocol != "unknown" and not counted_in_proto_total`
abbrev pub to_count : Option String → Bool → Bool
to_count none counted = false
to_count (some p) counted = not (p == "") && not (p == "unknown") && not counted

abbrev pub count_protocol : StreamRecord → Tracker → Tracker
count_protocol r t =
    if to_count r.protocol r.counted_in_proto_total
    then (let p = or_unknown r.protocol in
        count_direction r.direction p (record t { by_protocol_total = bump p t.by_protocol_total }))
    else t

abbrev pub new_direction : Direction → Direction → Direction
new_direction unknown seen = seen
new_direction d seen = d

abbrev pub new_protocol : Option String → Option String → Option String
new_protocol none seen = seen
new_protocol p seen = p

-- `_refresh_record_metadata`: the record afterwards.
abbrev pub refreshed : Option StreamObj → StreamRecord → StreamRecord
refreshed ref r =
    let p = new_protocol r.protocol (stream_protocol ref) in
    record r {
      protocol = p;
      direction = new_direction r.direction (stream_direction ref);
      counted_in_proto_total = r.counted_in_proto_total || to_count p r.counted_in_proto_total;
    }

-- `_refresh_record_metadata`: the tracker afterwards.
unfoldable pub refresh : Option StreamObj → StreamRecord → Tracker → Tracker
unfolding move_bucket
refresh ref r t =
    let r' = refreshed ref r in
    count_protocol (record r' { counted_in_proto_total = r.counted_in_proto_total })
      (refresh_protocol r.protocol r'.protocol r.peer_id
        (refresh_direction r.direction r'.direction r.peer_id t))

-- The keys at the front that have expired; the scan stops at the first that has not.
unfoldable pub expired_keys : ℕ → Dict String ℕ → List String
expired_keys now [] = []
expired_keys now ((k, ts) ∷ d) =
    let rest = expired_keys now d in if ltb finalized_ttl (now - ts) then k ∷ rest else []

unfoldable pub remove_all : List String → Dict String ℕ → Dict String ℕ
remove_all [] d = d
remove_all (k ∷ ks) d = remove_all ks (remove k d)

abbrev pub pop_first : Dict String ℕ → Dict String ℕ
pop_first [] = []
pop_first ((k, ts) ∷ d) = remove k ((k, ts) ∷ d)

-- `_mark_finalized`, on the dictionary
unfoldable pub mark_finalized : ℕ → String → Dict String ℕ → Dict String ℕ
unfolding expired_keys remove_all
mark_finalized now key d =
    let d' = put key now d in
    let kept = remove_all (expired_keys now d') d' in
    if ltb max_finalized_keys (length kept) then pop_first kept else kept

-- `_record_lifetime`
abbrev pub record_lifetime : String → ℕ → Tracker → Tracker
record_lifetime peer_id duration t =
    let (total, count) = or_default (0, 0) (get peer_id t.peer_lifetime) in
    record t { peer_lifetime = put peer_id (total + duration, count + 1) t.peer_lifetime }

abbrev pub count_closed : StreamRecord → PeerStreamStats → PeerStreamStats
count_closed r s = record s {
  total_closed = s.total_closed + 1;
  current_open = s.current_open - 1;
  total_resets = if r.was_reset then s.total_resets + 1 else s.total_resets;
}

-- What `closed_stream` and `_finalize_record` share: the counters of a record that is not live any
-- more, its lifetime where it was seen to open, and its key among the finalized ones.
unfoldable pub close_record : ℕ → String → StreamRecord → Tracker → Tracker
close_record now key r t =
    let s = closed_stats r.direction (count_closed r (stats_of r.peer_id t)) in
    let t' = closed_total r.direction (set_stats r.peer_id s t) in
    let t'' = if ltb 0 r.opened_at then record_lifetime r.peer_id (now - r.opened_at) t' else t' in
    record t'' { finalized_keys = mark_finalized now key t''.finalized_keys }

-- The record of a stream that the tracker has not seen to open.
abbrev pub unseen_record : String → StreamRecord
unseen_record peer_id = record {
  peer_id = peer_id;
  opened_at = 0;
  stream = 0;
  protocol = none;
  direction = unknown;
  was_reset = false;
  suspected_leak = false;
  counted_in_proto_total = false;
}

abbrev pub with_reset : Option StreamObj → StreamRecord → StreamRecord
with_reset obj r = record r { was_reset = r.was_reset || is_reset obj }

-- `closed_stream`, by what the table has under the key. The last call of `logger.debug` formats
-- `record.duration` with `:.2f`, which raises `TypeError` where the duration is None.
abbrev pub closed_as :
    ℕ
    → World
    → String
    → String
    → StreamObj
    → Tracker
    → Option StreamRecord
    → Result (Unit {0}) × Tracker
closed_as now world key peer_id obj t (some r) =
    let ref = world r.stream in
    let t' = refresh ref r (record t { streams = remove key t.streams }) in
    let r' = with_reset (some obj) (refreshed ref r) in
    (if ltb 0 r.opened_at then ok tt else raise type_error, close_record now key r' t')
closed_as now world key peer_id obj t none =
    if has key t.finalized_keys
    then (ok tt, t)
    else (raise type_error, close_record now key (with_reset (some obj) (unseen_record peer_id)) t)

unfoldable pub closed_stream :
    ℕ → World → String → String → StreamObj → Tracker → Result (Unit {0}) × Tracker
unfolding close_record refresh
closed_stream now world key peer_id obj t =
    closed_as now world key peer_id obj t (get key t.streams)
