-- ===== src/Conns/Details.antt =====
-- `_extract_conn_details`, `_extract_peer_id` and `_stream_direction`, from what the attributes of
-- the objects answer. An attribute that raises counts as missing.
use py_ipfs_lite.Prelude.{
  String, Bool, true, false, ◌||◌, Option, none, some, ◌==◌, string_eq, if◌then◌else◌, contains,
}
use py_ipfs_lite.Tracker.Types.{Direction, outbound, inbound, unknown}

-- What is read of a connection. `direction` is already in lower case, `raw_addr` is the multiaddr of
-- the raw connection, and the last four are names of types.
pub record ConnView : Type 0 where
  pub direction : Option String
  pub actual_addr : Option String
  pub remote_addr : Option String
  pub raw_addr : Option String
  pub muxed_type : Option String
  pub secured_type : Option String
  pub raw_type : Option String

pub record Details : Type 0 where
  pub direction : String
  pub transport : String
  pub security : String
  pub muxer : String
  pub remote_addr : Option String

abbrev pub or_unknown : Option String → String
or_unknown none = "unknown"
or_unknown (some s) = s

abbrev pub first_of {ℓ} : {A : Type ℓ} → Option A → Option A → Option A
first_of none b = b
first_of (some a) b = some a

-- Transport, security and muxer, by the type of the muxed connection.
abbrev pub by_muxer : Option String → Option String → String × String × String
by_muxer none secured = ("unknown", "unknown", "unknown")
by_muxer (some m) secured =
    let found : String × String × String =
      if contains "QUIC" m
      then ("quic-v1", "tls1.3", "quic")
      else (if contains "Yamux" m
          then ("tcp", "unknown", "yamux")
          else (if contains "Mplex" m
              then ("tcp", "unknown", "mplex")
              else ("unknown", "unknown", "unknown"))) in
    elim secured [
      | none ↦ found
      | some s ↦
          if contains "Noise" s
          then (found.0, "Noise", found.2)
          else (if contains "TLS" s then (found.0, "tls", found.2) else found)
    ]

-- The transport by the type of the raw connection, where it is still unknown.
abbrev pub by_raw : Option String → String → String
by_raw none transport = transport
by_raw (some t) transport =
    if transport == "unknown"
    then (if contains "TCP" t || contains "Socket" t
        then "tcp"
        else (if contains "WebSocket" t
            then "websocket"
            else (if contains "QUIC" t then "quic-v1" else transport)))
    else transport

abbrev pub unknown_to : String → String → String
unknown_to new s = if s == "unknown" then new else s

-- What the text of the address tells.
abbrev pub by_addr : Option String → String × String × String → String × String × String
by_addr none found = found
by_addr (some a) (transport, security, muxer) =
    if contains "/quic-v1" a || contains "/quic" a
    then ("quic-v1", unknown_to "tls1.3" security, unknown_to "quic" muxer)
    else (if contains "/ws" a || contains "/wss" a
        then ("websocket", security, muxer)
        else (if contains "/tcp/" a
            then (unknown_to "tcp" transport, security, muxer)
            else (transport, security, muxer)))

unfoldable pub extract_details : ConnView → Details
extract_details c =
    let addr = first_of c.actual_addr (first_of c.remote_addr c.raw_addr) in
    let (t, s, m) = by_muxer c.muxed_type c.secured_type in
    let (transport, security, muxer) = by_addr addr (by_raw c.raw_type t, s, m) in
    record {
      direction = or_unknown c.direction;
      transport = transport;
      security =
          if muxer == "yamux" || muxer == "mplex" then unknown_to "Noise" security else security;
      muxer = muxer;
      remote_addr = addr;
    }

-- The `muxed_conn.peer_id` in base58, or else the connection's `peer_id` as a text.
abbrev pub extract_peer_id : Option String → Option String → Option String
extract_peer_id (some muxed) own = some muxed
extract_peer_id none none = none
extract_peer_id none (some p) = if p == "unknown" then none else some p

-- A `_direction`: its name and its text, both in lower case.
pub record DirectionView : Type 0 where
  pub name : Option String
  pub text : String

abbrev pub named : Option String → Direction
named none = unknown
named (some n) = if n == "inbound" then inbound else (if n == "outbound" then outbound else unknown)

abbrev pub or_direction : Direction → Direction → Direction
or_direction unknown d = d
or_direction d _ = d

abbrev pub read_direction : Option DirectionView → Direction
read_direction none = unknown
read_direction (some v) = or_direction (named v.name) (
    if contains "inbound" v.text
    then inbound
    else (if contains "outbound" v.text then outbound else unknown))

abbrev pub flag_direction : Option Bool → Option Bool → Direction
flag_direction (some true) initiator = outbound
flag_direction (some false) initiator = inbound
flag_direction none (some true) = outbound
flag_direction none (some false) = inbound
flag_direction none none = unknown

-- `_stream_direction`: the stream's own, then that of the muxed stream, then its flags `is_outbound`
-- and `is_initiator`.
abbrev pub stream_direction_of :
    Option DirectionView → Option DirectionView → Option Bool → Option Bool → Direction
stream_direction_of own muxed is_outbound is_initiator =
    or_direction (read_direction own)
      (or_direction (read_direction muxed) (flag_direction is_outbound is_initiator))
