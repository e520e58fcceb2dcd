-- ===== src/Tracker/Types.antt =====
-- The state of the tracker, as far as streams go.
use py_ipfs_lite.Prelude.{ℕ, ◌+◌, String, Bool, Option, none, some, string_eq, []}
use py_ipfs_lite.Dict.{Dict, get, put}

pub data Direction : Type 0 where
  outbound inbound unknown : Direction

pub record PeerStreamStats : Type 0 where
  pub total_opened : ℕ
  pub total_opened_outbound : ℕ
  pub total_opened_inbound : ℕ
  pub total_closed : ℕ
  pub current_open : ℕ
  pub current_open_outbound : ℕ
  pub current_open_inbound : ℕ
  pub max_concurrent_open : ℕ
  pub total_resets : ℕ
  pub suspected_leaks : ℕ
  pub by_protocol : Dict String ℕ

-- PeerStreamStats(peer_id=...)
abbrev pub no_stats : PeerStreamStats
no_stats = record {
  total_opened = 0;
  total_opened_outbound = 0;
  total_opened_inbound = 0;
  total_closed = 0;
  current_open = 0;
  current_open_outbound = 0;
  current_open_inbound = 0;
  max_concurrent_open = 0;
  total_resets = 0;
  suspected_leaks = 0;
  by_protocol = [];
}

-- `stream` stands for the weak reference to the stream object.
pub record StreamRecord : Type 0 where
  pub peer_id : String
  pub opened_at : ℕ
  pub stream : ℕ
  pub protocol : Option String
  pub direction : Direction
  pub was_reset : Bool
  pub suspected_leak : Bool
  pub counted_in_proto_total : Bool

pub record Tracker : Type 0 where
  pub streams : Dict String StreamRecord
  pub peer_stream_stats : Dict String PeerStreamStats
  -- peer_id -> (sum of durations, count)
  pub peer_lifetime : Dict String (ℕ × ℕ)
  pub total_outbound_opened : ℕ
  pub total_inbound_opened : ℕ
  pub total_outbound_closed : ℕ
  pub total_inbound_closed : ℕ
  pub by_protocol_total : Dict String ℕ
  pub by_protocol_outbound : Dict String ℕ
  pub by_protocol_inbound : Dict String ℕ
  pub finalized_keys : Dict String ℕ

-- `__init__`
abbrev pub new_tracker : Tracker
new_tracker = record {
  streams = [];
  peer_stream_stats = [];
  peer_lifetime = [];
  total_outbound_opened = 0;
  total_inbound_opened = 0;
  total_outbound_closed = 0;
  total_inbound_closed = 0;
  by_protocol_total = [];
  by_protocol_outbound = [];
  by_protocol_inbound = [];
  finalized_keys = [];
}

abbrev pub max_finalized_keys : ℕ
max_finalized_keys = 2_000

-- 300 seconds
abbrev pub finalized_ttl : ℕ
finalized_ttl = 300_000

abbrev pub or_default {ℓ} : {A : Type ℓ} → A → Option A → A
or_default a none = a
or_default a (some b) = b

-- d[k] = d.get(k, 0) + 1
abbrev pub bump : String → Dict String ℕ → Dict String ℕ
bump k d = put k (or_default 0 (get k d) + 1) d

-- peer_stream_stats.setdefault(p, PeerStreamStats(peer_id=p))
abbrev pub stats_of : String → Tracker → PeerStreamStats
stats_of p t = or_default no_stats (get p t.peer_stream_stats)

abbrev pub set_stats : String → PeerStreamStats → Tracker → Tracker
set_stats p s t = record t { peer_stream_stats = put p s t.peer_stream_stats }
