-- ===== src/Conns/Tests.antt =====
-- A connection with two streams, and an eviction that has nothing to do.
use py_ipfs_lite.Prelude.{none, some, List, [], ◌∷◌, ◌≡◌, refl, string_eq, nat_eq}
use py_ipfs_lite.Dict.{get, put}
use py_ipfs_lite.Conns.Details.{ConnView, Details, extract_details}
use py_ipfs_lite.Conns.Table.{ConnMeta, PeerConnectionStats, no_stats, Conns, meta_at, pop_meta}
use py_ipfs_lite.Conns.Events.{connected, disconnected, new_meta}
use py_ipfs_lite.Conns.Others.{disconnected-other}
use py_ipfs_lite.Conns.Lives.{Event, connects, serves, disconnects, run, no_connections}
use py_ipfs_lite.Conns.Lives.Served.{pop_meta-run}

abbrev view : ConnView
view = record {
  direction = some "outbound";
  actual_addr = none;
  remote_addr = some "/ip4/1.2.3.4/udp/4001/quic-v1";
  raw_addr = none;
  muxed_type = some "QUICConnection";
  secured_type = none;
  raw_type = none;
}

quic_view : (extract_details view).transport ≡ "quic-v1"
unfolding extract_details
quic_view = refl

abbrev details : Details
details = record {
  direction = "outbound";
  transport = "tcp";
  security = "Noise";
  muxer = "yamux";
  remote_addr = none;
}

abbrev one : Conns
one = connected 1_000 "alice" details 7 (some 8) no_connections

-- Streams on the connection 7 of "alice", while "bob" comes and goes.
abbrev meanwhile : List Event
meanwhile =
    serves (some 8) (some "/ipfs/kad/1.0.0")
    ∷ connects 2_000 "bob" details 9 (some 10)
    ∷ serves (some 10) none
    ∷ disconnects 4_000 "bob" 9 (some 10)
    ∷ serves (some 8) none
    ∷ []

pop_meta-run_example :
    (n : ConnMeta) × ((pop_meta 7 "alice" (
        run meanwhile (
          connected 1_000 "alice" details 7
            (some 8)
            (run (connects 500 "bob" details 7 none ∷ []) no_connections)))).0
      ≡ some n)
    × (n.streams_served ≡ 2)
    × (n.peer_id ≡ "alice")
    × (n.start ≡ 1_000)
pop_meta-run_example =
    pop_meta-run 7 8 1_000 "alice" details (connects 500 "bob" details 7 none ∷ []) meanwhile (
      refl,
      (((refl, refl), (refl, refl)), (refl, (((refl, refl), (refl, refl), refl), (refl, tt)))),
    )

disconnected-other_example :
    meta_at 7 (disconnected 5_000 "bob" 7 (some 7) one) ≡ some (new_meta 1_000 "alice" details)
unfolding connected get put
disconnected-other_example =
    disconnected-other 5_000 7 (new_meta 1_000 "alice" details) refl "bob" 7 (some 7) one
      (refl, (refl, tt)) refl refl

abbrev busy : PeerConnectionStats
busy = record no_stats { current_connections = 1 }
