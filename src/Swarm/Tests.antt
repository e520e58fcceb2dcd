-- ===== src/Swarm/Tests.antt =====
-- Two connections, the younger one in the tracker twice, and a tag store of one peer.
use py_ipfs_lite.Prelude.{
  ℕ, ◌*◌, ◌/◌, ◌≤◌, String, true, false, none, some, List, [], ◌∷◌, ◌≡◌, refl, mem, string_eq,
  nat_eq, inl, inr,
}
use py_ipfs_lite.Errors.{Result, ok, raise, os_error}
use py_ipfs_lite.Dict.{Dict, get, put, remove, get-put, get-remove, Distinct}
use py_ipfs_lite.Conns.Details.{Details}
use py_ipfs_lite.Conns.Table.{ConnMeta, Conns}
use py_ipfs_lite.Swarm.Connected.{PeerEntry, entry, entries, list_connected_peers, conn_meta_from}
use py_ipfs_lite.Swarm.Listed.{peers_of, IsDescending, list_connected_peers-lem}
use py_ipfs_lite.Swarm.Oldest.{conn_meta_from-start}
use py_ipfs_lite.Swarm.Tags.{
  TagLib, TakenBack, set_peer_tag, remove_peer_tag, set_peer_tag-remove_peer_tag,
}

abbrev details : Details
details = record {
  direction = "inbound";
  transport = "tcp";
  security = "Noise";
  muxer = "yamux";
  remote_addr = none;
}

abbrev meta : String → ℕ → ConnMeta
meta p t = record { details = details; peer_id = p; start = t; streams_served = 0; protocols = [] }

abbrev tracker : Conns
tracker = record {
  stats = [];
  table = (1, 1) ∷ (2, 1) ∷ (3, 2) ∷ (4, 3) ∷ [];
  heap = (1, meta "bob" 500) ∷ (2, meta "alice" 100) ∷ (3, meta "bob" 700) ∷ [];
  next = 4;
  total_connected_events = 3;
  total_disconnected_events = 0;
  recent_disconnections = [];
}

abbrev no_addrs : String → List String
no_addrs p = []

-- Tenths of a second, downwards.
abbrev tenths : ℕ → ℕ
tenths n = 100 * (n / 100)

abbrev written : String → Result (Unit {0})
written p = ok tt

list_connected_peers_example :
    (listed : List PeerEntry) × (list_connected_peers tenths written 1_000 no_addrs tracker []
        ("bob" ∷ "alice" ∷ [])
      ≡ ok listed)
    × ((z : String) → mem z (peers_of listed) ≡ mem z ("bob" ∷ "alice" ∷ []))
    × Distinct (peers_of listed)
    × IsDescending listed
list_connected_peers_example =
    list_connected_peers-lem tenths written 1_000 no_addrs (λ p. refl) tracker []
      ("bob" ∷ "alice" ∷ [])

-- A peer without details, where the diagnostic file cannot be opened.
unknown_peer :
    list_connected_peers tenths
      (λ p. raise os_error)
      1_000
      no_addrs
      tracker
      []
      ("bob" ∷ "carol" ∷ [])
    ≡ raise os_error
unfolding list_connected_peers entries entry conn_meta_from get put
unknown_peer = refl

conn_meta_from-start_example :
    (k : ConnMeta) × (get "bob" (conn_meta_from tracker.heap tracker.table []) ≡ some k)
    × (k.start ≤ 700)
unfolding get
conn_meta_from-start_example =
    conn_meta_from-start 4 3 (meta "bob" 700) tracker.heap tracker.table []
      (inr (inr (inr (inl refl)))) refl refl refl

-- The tag store as the tags of one peer.
abbrev tags : TagLib String (Dict String ℕ)
tags = record {
  from_multiaddr = λ t. ok t;
  from_base58 = λ t. ok t;
  text_length = λ t. 4;
  is_address = λ t. false;
  tag_peer = λ p tag value s. put tag value s;
  untag_peer = λ p tag s. remove tag s;
  get_tag_info = λ p s. some (record { tags = s; total_value = 0 });
  protect = λ p tag s. s;
  unprotect = λ p tag s. (false, s);
  get_all_peers = λ s. [];
}

set_peer_tag-remove_peer_tag_example :
    (s : Dict String ℕ) × (some (("other", 1) ∷ []) ≡ some s)
    × TakenBack tags
        (λ p tag value s x. get-put tag x value s)
        (λ p tag s x. get-remove tag x s)
        "keep"
        7
        "alice"
        s
        (remove_peer_tag tags true "alice" "keep"
          (set_peer_tag tags true "alice" "keep" 7 (some (("other", 1) ∷ []))).1)
unfolding set_peer_tag get
set_peer_tag-remove_peer_tag_example =
    set_peer_tag-remove_peer_tag tags (λ p tag value s x. get-put tag x value s)
      (λ p tag s x. get-remove tag x s) "alice" "keep" 7 (some (("other", 1) ∷ [])) ("alice", 7)
      refl
