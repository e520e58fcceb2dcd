-- ===== src/Conns/Lives.antt =====
-- The events that reach the details of connections, and which of them leave those of one connection
-- alone.
pub mod Held
pub mod Steps
pub mod Sound
pub mod Served
use py_ipfs_lite.Prelude.{
  ℕ, suc, ◌+◌, ◌-◌, ◌<◌, String, Bool, true, false, Option, none, some, List, [], ◌∷◌, ◌==◌, ◌≡◌,
  refl, sym, ap, ◌∙◌, subst, inl, inr, string_eq, nat_eq, length, take, ltb, leb, mem, arith,
  Bool-cases, Option-cases, if_both, if◌then◌else◌, ==_iff, eq_iff, ◌||◌,
}
use py_ipfs_lite.Dict.{
  Dict, keys, get, put, remove, get-put, get-remove, Distinct, put-Distinct, remove-Distinct,
}
use py_ipfs_lite.Conns.Details.{Details}
use py_ipfs_lite.Conns.Table.{
  ConnMeta, PeerConnectionStats, Conns, deref, meta_at, is_recycled, pop_found, pop_meta, served,
  put_served, serve_ref, serve, store_ids,
}
use py_ipfs_lite.Conns.Capacity.{
  pop_all, is_older, stale_keys, prune_table, evicted, enforce_capacity,
}
use py_ipfs_lite.Conns.Events.{
  new_meta, connected, mark_disconnected, pop_muxed, disconnected, disconnection, append_event,
}
use py_ipfs_lite.Conns.Others.{mem-take, stale_keys-fresh}

-- The calls that reach the details: a connection is made, a stream is opened on a muxed connection, a
-- connection ends.
pub data Event : Type 0 where
  connects : (now : ℕ) (peer_id : String) (d : Details) (conn : ℕ) (muxed : Option ℕ) → Event
  serves : (muxed : Option ℕ) (protocol : Option String) → Event
  disconnects : (now : ℕ) (peer_id : String) (conn : ℕ) (muxed : Option ℕ) → Event

abbrev pub happen : Event → Conns → Conns
happen (connects now p d c m) s = connected now p d c m s
happen (serves m protocol) s = serve m protocol s
happen (disconnects now p c m) s = disconnected now p c m s

unfoldable pub run : List Event → Conns → Conns
unfolding connected serve disconnected
run [] s = s
run (e ∷ es) s = run es (happen e s)

module _ (conn muxed : ℕ) where
  abbrev pub Differs : ℕ → Type 0
  Differs id = ((id == conn) ≡ false) × ((id == muxed) ≡ false)

  abbrev pub DiffersIf : Option ℕ → Type 0
  DiffersIf none = Unit
  DiffersIf (some id) = Differs id

  abbrev pub NotConn : Option ℕ → Type 0
  NotConn none = Unit
  NotConn (some id) = (id == conn) ≡ false

  -- Events of other connections, and streams, while the connection that began at `start` is at most
  -- ten minutes old at each disconnect.
  abbrev pub IsOther : ℕ → Event → Type 0
  IsOther start (connects now p d c m) = Differs c × DiffersIf m
  IsOther start (serves m protocol) = NotConn m
  IsOther start (disconnects now p c m) =
      Differs c × DiffersIf m × (ltb 600_000 (now - start) ≡ false)

  abbrev pub AllOther : ℕ → List Event → Type 0
  AllOther start [] = Unit
  AllOther start (e ∷ es) = IsOther start e × AllOther start es

  abbrev pub on_muxed : Option ℕ → ℕ
  on_muxed none = 0
  on_muxed (some id) = if id == muxed then 1 else 0

  abbrev pub opened : Event → ℕ
  opened (serves m protocol) = on_muxed m
  opened _ = 0

  -- The streams that are opened on the muxed connection.
  abbrev pub streams : List Event → ℕ
  streams [] = 0
  streams (e ∷ es) = opened e + streams es

-- The tracker as it is made.
abbrev pub no_connections : Conns
no_connections = record {
  stats = [];
  table = [];
  heap = [];
  next = 0;
  total_connected_events = 0;
  total_disconnected_events = 0;
  recent_disconnections = [];
}
