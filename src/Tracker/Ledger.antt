-- ===== src/Tracker/Ledger.antt =====
-- The invariant of the tracker: the counters of each peer agree with the records of its streams.
use py_ipfs_lite.Prelude.{
  ℕ, ◌+◌, String, Bool, true, false, Option, none, some, ◌≡◌, refl, string_eq, if◌then◌else◌, arith,
  sym, ◌∙◌, ltb,
}
use py_ipfs_lite.Dict.{Dict, Distinct, keys, get, put, remove}
use py_ipfs_lite.Tracker.Types.{
  Direction, outbound, inbound, unknown, PeerStreamStats, StreamRecord, Tracker, stats_of,
}
use py_ipfs_lite.Tracker.Signals.{StreamObj}
use py_ipfs_lite.Tracker.Streams.{
  opened_total, closed_total, refresh, refreshed, close_record, refresh_direction, refresh_protocol,
  count_protocol, count_direction, to_count, or_unknown,
}
use py_ipfs_lite.Tracker.Tally.{at_peer, at_peer_to, sum_of, sum_of-put, sum_of-remove}
use py_ipfs_lite.Tracker.Balance.{Counts, CountsWith}

-- The stats count the records of the dictionary that belong to the peer.
abbrev pub Agrees : String → Dict String StreamRecord → PeerStreamStats → Type 0
Agrees p d =
    Counts (sum_of (at_peer p) d) (sum_of (at_peer_to outbound p) d)
      (sum_of (at_peer_to inbound p) d)

abbrev pub AgreesWith : String → StreamRecord → Dict String StreamRecord → PeerStreamStats → Type 0
AgreesWith p r d =
    CountsWith p r (sum_of (at_peer p) d) (sum_of (at_peer_to outbound p) d)
      (sum_of (at_peer_to inbound p) d)

pub record IsBalanced (t : Tracker) : Type 0 where
  pub distinct : Distinct (keys t.streams)
  pub agrees : (p : String) → Agrees p t.streams (stats_of p t)

module _ (k : String) (r : StreamRecord) (d : Dict String StreamRecord)
    (h : Distinct (keys d)) where
  sum_of-put_apart : (f : StreamRecord → ℕ) → sum_of f (put k r d) ≡ sum_of f (remove k d) + f r
  sum_of-put_apart f = ground (arith, sum_of-put f k r d, sum_of-remove f k d h)

  sum_of_held : (f : StreamRecord → ℕ) → get k d ≡ some r → sum_of f d ≡ sum_of f (remove k d) + f r
  sum_of_held f g = ground (arith, sum_of-remove f k d h)

  -- To put a record aside, and to put it back.
  pub apart :
      (p : String) (s : PeerStreamStats)
      → get k d ≡ some r
      → Agrees p d s
      → AgreesWith p r (remove k d) s
  apart p s g c = record {
    open_now = c.open_now ∙ sum_of_held (at_peer p) g;
    outbound_now = c.outbound_now ∙ sum_of_held (at_peer_to outbound p) g;
    inbound_now = c.inbound_now ∙ sum_of_held (at_peer_to inbound p) g;
    history = c.history;
  }

  pub back :
      (p : String) (s : PeerStreamStats) → AgreesWith p r (remove k d) s → Agrees p (put k r d) s
  back p s c = record {
    open_now = c.open_now ∙ sym (sum_of-put_apart (at_peer p));
    outbound_now = c.outbound_now ∙ sym (sum_of-put_apart (at_peer_to outbound p));
    inbound_now = c.inbound_now ∙ sym (sum_of-put_apart (at_peer_to inbound p));
    history = c.history;
  }

-- The streams that an operation leaves as they are.
pub streams-opened_total : (d : Direction) (t : Tracker) → (opened_total d t).streams ≡ t.streams
streams-opened_total outbound t = refl
streams-opened_total inbound t = refl
streams-opened_total unknown t = refl

streams-closed_total : (d : Direction) (t : Tracker) → (closed_total d t).streams ≡ t.streams
streams-closed_total outbound t = refl
streams-closed_total inbound t = refl
streams-closed_total unknown t = refl

streams-if :
    (b : Bool) (t t' : Tracker) (d : Dict String StreamRecord)
    → t.streams ≡ d
    → t'.streams ≡ d
    → (if b then t else t').streams ≡ d
streams-if true t t' d h h' = h
streams-if false t t' d h h' = h'

pub streams-close_record :
    (now : ℕ) (key : String) (r : StreamRecord) (t : Tracker)
    → (close_record now key r t).streams ≡ t.streams
unfolding close_record
streams-close_record now key r t =
    streams-if (ltb 0 r.opened_at) _ _ t.streams (streams-closed_total r.direction _)
      (streams-closed_total r.direction _)

streams-refresh_direction :
    (d e : Direction) (q : String) (t : Tracker) → (refresh_direction d e q t).streams ≡ t.streams
streams-refresh_direction outbound e q t = refl
streams-refresh_direction inbound e q t = refl
streams-refresh_direction unknown e q t = streams-if _ _ _ t.streams (streams-opened_total e _) refl

streams-refresh_protocol :
    (a b : Option String) (q : String) (t : Tracker)
    → (refresh_protocol a b q t).streams ≡ t.streams
streams-refresh_protocol (some a) b q t = refl
streams-refresh_protocol none none q t = refl
streams-refresh_protocol none (some b) q t = streams-if _ _ _ t.streams refl refl

streams-count_direction :
    (d : Direction) (p : String) (t : Tracker) → (count_direction d p t).streams ≡ t.streams
streams-count_direction outbound p t = refl
streams-count_direction inbound p t = refl
streams-count_direction unknown p t = refl

streams-count_protocol : (r : StreamRecord) (t : Tracker) → (count_protocol r t).streams ≡ t.streams
streams-count_protocol r t =
    streams-if (to_count r.protocol r.counted_in_proto_total) _ _ t.streams
      (streams-count_direction r.direction (or_unknown r.protocol) _) refl

pub streams-refresh :
    (ref : Option StreamObj) (r : StreamRecord) (t : Tracker)
    → (refresh ref r t).streams ≡ t.streams
unfolding refresh
streams-refresh ref r t =
    let r' = refreshed ref r in
    let t' = refresh_direction r.direction r'.direction r.peer_id t in
    streams-count_protocol (record r' { counted_in_proto_total = r.counted_in_proto_total })
      (refresh_protocol r.protocol r'.protocol r.peer_id t')
    ∙ streams-refresh_protocol r.protocol r'.protocol r.peer_id t'
    ∙ streams-refresh_direction r.direction r'.direction r.peer_id t
