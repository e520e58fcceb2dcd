-- ===== src/Tracker/Signals.antt =====
-- What the tracker reads from a stream object: its protocol, its direction, and the signs that it
-- is dead (`_record_stream_dead`, `_record_connection_gone`, `_record_on_conn`).
use py_ipfs_lite.Prelude.{
  ℕ, String, Bool, true, false, not, ◌&&◌, ◌||◌, Option, none, some, List, [], ◌∷◌, ◌==◌, nat_eq,
  string_eq, mem, if◌then◌else◌, is_some,
}
use py_ipfs_lite.Tracker.Types.{Direction, unknown}

-- An attribute that is read, and called where it is a method: it may be missing or raise.
pub data Probe : Type 0 where
  missing raises : Probe
  answers : Bool → Probe

-- The muxed stream: `is_closed`, and the name of its `_state`.
pub record MuxedStream : Type 0 where
  pub is_closed : Probe
  pub state : Option String

-- A connection: its object id, and its `is_closed`.
pub record Conn : Type 0 where
  pub id : ℕ
  pub is_closed : Probe

pub record StreamObj : Type 0 where
  pub is_closed : Probe
  pub muxed_stream : Option MuxedStream
  pub state : Option String
  pub swarm_conn : Option Conn
  pub muxed_conn : Option Conn
  pub protocol : Option String
  pub direction : Direction

-- The stream objects as they are at one moment; `none` where the object is gone.
abbrev pub World : Type 0
World = ℕ → Option StreamObj

-- `_stream_protocol` and `_stream_direction`, also of None
abbrev pub stream_protocol : Option StreamObj → Option String
stream_protocol none = none
stream_protocol (some o) = o.protocol

abbrev pub stream_direction : Option StreamObj → Direction
stream_direction none = unknown
stream_direction (some o) = o.direction

-- getattr(state, "name", "") == "RESET"
abbrev pub is_reset : Option StreamObj → Bool
is_reset none = false
is_reset (some o) = elim o.state [ none ↦ false | some n ↦ n == "RESET" ]

abbrev says_yes : Probe → Bool
says_yes (answers b) = b
says_yes _ = false

state_in : Option String → List String → Bool
state_in none names = false
state_in (some n) names = mem n names

-- 2) The muxed stream; an exception of `is_closed` skips the test of its state.
muxed_dead : Option MuxedStream → Bool
muxed_dead none = false
muxed_dead (some m) = elim m.is_closed [
  | raises ↦ false
  | answers true ↦ true
  | _ ↦ state_in m.state ("CLOSED" ∷ "RESET" ∷ "closed" ∷ "reset" ∷ [])
]

abbrev conn_closed : Option Conn → Bool
conn_closed none = false
conn_closed (some c) = says_yes c.is_closed

-- `_record_stream_dead`
unfoldable pub stream_dead : Option StreamObj → Bool
unfolding state_in muxed_dead
stream_dead none = true
stream_dead (some o) = elim o.is_closed [
  | answers b ↦ b
  | _ ↦
      muxed_dead o.muxed_stream
      || state_in o.state ("CLOSE_BOTH" ∷ "RESET" ∷ "ERROR" ∷ [])
      || conn_closed o.swarm_conn
      || conn_closed o.muxed_conn
]

abbrev conn_of : (StreamObj → Option Conn) → Option StreamObj → Option Conn
conn_of f none = none
conn_of f (some o) = f o

abbrev registered : Option Conn → List ℕ → Bool
registered none live = false
registered (some c) live = mem c.id live

-- `_record_connection_gone`
unfoldable pub connection_gone : Option StreamObj → String → List ℕ → List String → Bool
connection_gone ref peer_id live_ids live_peers =
    let swarm_conn = conn_of (λ o. o.swarm_conn) ref in
    let muxed_conn = conn_of (λ o. o.muxed_conn) ref in
    if registered swarm_conn live_ids
    then false
    else if registered muxed_conn live_ids
    then false
    else if not (peer_id == "unknown") && not (mem peer_id live_peers)
    then true
    else is_some swarm_conn || is_some muxed_conn

-- `_record_on_conn`
unfoldable pub on_conn : Option StreamObj → ℕ → ℕ → Bool
on_conn ref conn_id conn_muxed_id =
    (elim (conn_of (λ o. o.swarm_conn) ref) [ none ↦ false | some c ↦ c.id == conn_id ])
    || (not (conn_muxed_id == 0) && (elim (conn_of (λ o. o.muxed_conn) ref) [
      | none ↦ false
      | some c ↦ c.id == conn_muxed_id
    ]))
