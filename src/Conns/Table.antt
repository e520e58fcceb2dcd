-- ===== src/Conns/Table.antt =====
-- The state for connections, and the table of their details.
use py_ipfs_lite.Prelude.{
  ℕ, ◌+◌, String, Bool, false, not, ◌||◌, Option, none, some, List, [], ◌∷◌, ◌++◌, ◌==◌, string_eq,
  nat_eq, if◌then◌else◌, mem,
}
use py_ipfs_lite.Dict.{Dict, get, put, remove}
use py_ipfs_lite.Conns.Details.{Details}

-- The object `conn_meta`
pub record ConnMeta : Type 0 where
  pub details : Details
  pub peer_id : String
  pub start : ℕ
  pub streams_served : ℕ
  pub protocols : List String

pub record PeerConnectionStats : Type 0 where
  pub total_connections : ℕ
  pub current_connections : ℕ
  pub first_connected_at : Option ℕ
  pub last_connected_at : Option ℕ
  pub last_disconnected_at : Option ℕ
  pub security : Option String
  pub muxer : Option String
  pub transport : Option String
  pub ping_completed : Bool
  pub first_ping_at : Option ℕ
  pub last_ping_at : Option ℕ

abbrev pub no_stats : PeerConnectionStats
no_stats = record {
  total_connections = 0;
  current_connections = 0;
  first_connected_at = none;
  last_connected_at = none;
  last_disconnected_at = none;
  security = none;
  muxer = none;
  transport = none;
  ping_completed = false;
  first_ping_at = none;
  last_ping_at = none;
}

-- An entry of `recent_disconnections`
pub record Disconnection : Type 0 where
  pub peer_id : String
  pub connected_at : Option ℕ
  pub disconnected_at : ℕ
  pub duration : Option ℕ
  pub direction : Option String
  pub transport : Option String
  pub security : Option String
  pub muxer : Option String
  pub remote_addr : Option String
  pub streams_served : ℕ
  pub protocols : List String
  pub reason_hint : String

pub record Conns : Type 0 where
  pub stats : Dict String PeerConnectionStats
  -- `_conn_meta`: from the id of an object to a reference
  pub table : Dict ℕ ℕ
  -- the objects, by reference, and the next reference
  pub heap : Dict ℕ ConnMeta
  pub next : ℕ
  pub total_connected_events : ℕ
  pub total_disconnected_events : ℕ
  pub recent_disconnections : List Disconnection

abbrev pub deref : Dict ℕ ConnMeta → Option ℕ → Option ConnMeta
deref heap none = none
deref heap (some r) = get r heap

-- `_conn_meta.get(id)`
abbrev pub meta_at : ℕ → Conns → Option ConnMeta
meta_at id s = deref s.heap (get id s.table)

abbrev pub store_ids : ℕ → Option ℕ → ℕ → Dict ℕ ℕ → Dict ℕ ℕ
store_ids conn none r table = put conn r table
store_ids conn (some muxed) r table = put muxed r (put conn r table)

-- A new object under the ids of the connection and of its muxed connection.
abbrev pub store_meta : ℕ → Option ℕ → ConnMeta → Conns → Conns
store_meta conn muxed m s = record s {
  table = store_ids conn muxed s.next s.table;
  heap = put s.next m s.heap;
  next = s.next + 1;
}

-- The stored details belong to another peer: the id was used again.
abbrev pub is_recycled : String → Option ConnMeta → Bool
is_recycled peer_id none = false
is_recycled peer_id (some m) = not (m.peer_id == peer_id)

-- The details under an id, taken out unless they are another peer's.
abbrev pub pop_found : ℕ → String → Option ConnMeta → Conns → Option ConnMeta × Conns
pop_found id peer_id m s =
    if is_recycled peer_id m then (none, s) else (m, record s { table = remove id s.table })

unfoldable pub pop_meta : ℕ → String → Conns → Option ConnMeta × Conns
pop_meta id peer_id s = pop_found id peer_id (meta_at id s) s

-- What `opened_stream` does to the details of its connection.
abbrev pub add_protocol : Option String → List String → List String
add_protocol none ps = ps
add_protocol (some p) ps = if p == "" || mem p ps then ps else ps ++ (p ∷ [])

abbrev pub served : Option String → ConnMeta → ConnMeta
served protocol m = record m {
  streams_served = m.streams_served + 1;
  protocols = add_protocol protocol m.protocols;
}

abbrev pub put_served : ℕ → Option String → Option ConnMeta → Conns → Conns
put_served r protocol none s = s
put_served r protocol (some m) s = record s { heap = put r (served protocol m) s.heap }

abbrev pub serve_ref : Option ℕ → Option String → Conns → Conns
serve_ref none protocol s = s
serve_ref (some r) protocol s = put_served r protocol (get r s.heap) s

unfoldable pub serve : Option ℕ → Option String → Conns → Conns
serve none protocol s = s
serve (some muxed) protocol s = serve_ref (get muxed s.table) protocol s
