-- ===== src/Tracker/Balance.antt =====
-- How each step of the tracker changes the counters of one peer.
use py_ipfs_lite.Prelude.{
  ℕ, ◌+◌, ◌-◌, String, Bool, true, false, ◌==◌, ◌≡◌, refl, string_eq, if◌then◌else◌, arith, eq_iff,
  ltb, Bool-cases, inl, inr, subst, sym, ◌∙◌,
}
use py_ipfs_lite.Dict.{put, get-put}
use py_ipfs_lite.Tracker.Types.{
  Direction, outbound, inbound, unknown, PeerStreamStats, StreamRecord, Tracker, stats_of,
  set_stats,
}
use py_ipfs_lite.Tracker.Signals.{StreamObj}
use py_ipfs_lite.Tracker.Streams.{
  closed_total, record_lifetime, opened_record, count_opened, count_closed, or_unknown,
  opened_stats, closed_stats, opened_total, opened_stream, close_record,
}
use py_ipfs_lite.Tracker.Tally.{in_direction, at_peer, at_peer_to}

-- The stats count `n` open streams, `o` outbound and `i` inbound ones.
pub record Counts (n o i : ℕ) (s : PeerStreamStats) : Type 0 where
  pub open_now : s.current_open ≡ n
  pub outbound_now : s.current_open_outbound ≡ o
  pub inbound_now : s.current_open_inbound ≡ i
  pub history : s.total_opened ≡ s.total_closed + s.current_open

-- The same with the record `r` more, as the peer `p` sees it.
abbrev pub CountsWith : String → StreamRecord → ℕ → ℕ → ℕ → PeerStreamStats → Type 0
CountsWith p r n o i =
    Counts (n + at_peer p r) (o + at_peer_to outbound p r) (i + at_peer_to inbound p r)

-- A change of the stats of the peer `q`, as the peer `p` sees it.
pub stats_of-set_stats :
    (f : PeerStreamStats → PeerStreamStats) (p q : String) (t : Tracker)
    → stats_of p (set_stats q (f (stats_of q t)) t)
      ≡ (if q == p then f (stats_of p t) else stats_of p t)
stats_of-set_stats f p q t = elim (Bool-cases (q == p)) [
  | inl e ↦
      subst
        (λ z.
          stats_of z (set_stats q (f (stats_of q t)) t)
          ≡ (if q == z then f (stats_of z t) else stats_of z t))
        ((eq_iff q p).0 e)
        (ground (arith, get-put q q (f (stats_of q t)) t.peer_stream_stats, eq_iff q q))
  | inr e ↦ ground (arith, get-put q p (f (stats_of q t)) t.peer_stream_stats)
]

-- The totals of the tracker do not change the stats.
pub stats_of-opened_total :
    (d : Direction) (p : String) (t : Tracker) → stats_of p (opened_total d t) ≡ stats_of p t
stats_of-opened_total outbound p t = refl
stats_of-opened_total inbound p t = refl
stats_of-opened_total unknown p t = refl

pub stats_of-closed_total :
    (d : Direction) (p : String) (t : Tracker) → stats_of p (closed_total d t) ≡ stats_of p t
stats_of-closed_total outbound p t = refl
stats_of-closed_total inbound p t = refl
stats_of-closed_total unknown p t = refl

stats_of_lifetime :
    (b : Bool) (p q : String) (n : ℕ) (t : Tracker)
    → stats_of p (if b then record_lifetime q n t else t) ≡ stats_of p t
stats_of_lifetime true p q n t = refl
stats_of_lifetime false p q n t = refl

module _ (n o i : ℕ) where
  opened_stats-Counts :
      (d : Direction) (proto : String) (s : PeerStreamStats)
      → Counts n o i s
      → Counts
          (n + 1)
          (o + in_direction outbound d)
          (i + in_direction inbound d)
          (opened_stats d (count_opened proto s))
  opened_stats-Counts outbound proto s c = record {
    open_now = ground arith;
    outbound_now = ground arith;
    inbound_now = ground arith;
    history = ground arith;
  }
  opened_stats-Counts inbound proto s c = record {
    open_now = ground arith;
    outbound_now = ground arith;
    inbound_now = ground arith;
    history = ground arith;
  }
  opened_stats-Counts unknown proto s c = record {
    open_now = ground arith;
    outbound_now = ground arith;
    inbound_now = ground arith;
    history = ground arith;
  }

  closed_stats-Counts :
      (r : StreamRecord) (s : PeerStreamStats)
      → Counts
          (n + 1)
          (o + in_direction outbound r.direction)
          (i + in_direction inbound r.direction)
          s
      → Counts n o i (closed_stats r.direction (count_closed r s))
  closed_stats-Counts r s c = go r.direction c
    where
      go :
          (d : Direction)
          → Counts (n + 1) (o + in_direction outbound d) (i + in_direction inbound d) s
          → Counts n o i (closed_stats d (count_closed r s))
      go outbound c = record {
        open_now = ground arith;
        outbound_now = ground arith;
        inbound_now = ground arith;
        history = ground arith;
      }
      go inbound c = record {
        open_now = ground arith;
        outbound_now = ground arith;
        inbound_now = ground arith;
        history = ground arith;
      }
      go unknown c = record {
        open_now = ground arith;
        outbound_now = ground arith;
        inbound_now = ground arith;
        history = ground arith;
      }

  -- The direction becomes known.
  pub learned_stats-Counts :
      (d : Direction) (s : PeerStreamStats)
      → Counts n (o + in_direction outbound unknown) (i + in_direction inbound unknown) s
      → Counts n (o + in_direction outbound d) (i + in_direction inbound d) (opened_stats d s)
  learned_stats-Counts outbound s c = record {
    open_now = ground arith;
    outbound_now = ground arith;
    inbound_now = ground arith;
    history = ground arith;
  }
  learned_stats-Counts inbound s c = record {
    open_now = ground arith;
    outbound_now = ground arith;
    inbound_now = ground arith;
    history = ground arith;
  }
  learned_stats-Counts unknown s c = record {
    open_now = ground arith;
    outbound_now = ground arith;
    inbound_now = ground arith;
    history = ground arith;
  }

module _ (p : String) where
  -- To show what `p` has after a change of the stats of `q`: the peers may be the same or not.
  pub change-Counts :
      (n o i : ℕ) (f : PeerStreamStats → PeerStreamStats) (q : String) (t : Tracker)
      → ((q == p) ≡ true → Counts n o i (f (stats_of p t)))
      → ((q == p) ≡ false → Counts n o i (stats_of p t))
      → Counts n o i (stats_of p (set_stats q (f (stats_of q t)) t))
  change-Counts n o i f q t same other = elim (Bool-cases (q == p)) [
    | inl e ↦ subst (Counts n o i) (ground (arith, stats_of-set_stats f p q t)) (same e)
    | inr e ↦ subst (Counts n o i) (ground (arith, stats_of-set_stats f p q t)) (other e)
  ]

module _ (n o i : ℕ) (p : String) (r : StreamRecord) (s : PeerStreamStats) where
  pub Counts-here :
      (r.peer_id == p) ≡ true
      → Counts
          (n + 1)
          (o + in_direction outbound r.direction)
          (i + in_direction inbound r.direction)
          s
      → CountsWith p r n o i s
  Counts-here e c = record {
    open_now = ground arith;
    outbound_now = ground arith;
    inbound_now = ground arith;
    history = c.history;
  }

  pub counted_here :
      (r.peer_id == p) ≡ true
      → CountsWith p r n o i s
      → Counts
          (n + 1)
          (o + in_direction outbound r.direction)
          (i + in_direction inbound r.direction)
          s
  counted_here e c = record {
    open_now = ground arith;
    outbound_now = ground arith;
    inbound_now = ground arith;
    history = c.history;
  }

  pub Counts-elsewhere : (r.peer_id == p) ≡ false → Counts n o i s → CountsWith p r n o i s
  Counts-elsewhere e c = record {
    open_now = ground arith;
    outbound_now = ground arith;
    inbound_now = ground arith;
    history = c.history;
  }

  pub counted_elsewhere : (r.peer_id == p) ≡ false → CountsWith p r n o i s → Counts n o i s
  counted_elsewhere e c = record {
    open_now = ground arith;
    outbound_now = ground arith;
    inbound_now = ground arith;
    history = c.history;
  }

module _ (p : String) (n o i now : ℕ) (key : String) (t : Tracker) where
  pub opened-Counts :
      (q : String) (stream : ℕ) (obj : StreamObj)
      → Counts n o i (stats_of p t)
      → CountsWith p
          (opened_record now q stream obj)
          n
          o
          i
          (stats_of p (opened_stream now key q stream obj t))
  unfolding opened_stream
  opened-Counts q stream obj c =
      let r = opened_record now q stream obj in
      let f : PeerStreamStats → PeerStreamStats =
        λ s. opened_stats obj.direction (count_opened (or_unknown obj.protocol) s) in
      let t' : Tracker = record t { streams = put key r t.streams } in
      subst (CountsWith p r n o i)
        (sym (stats_of-opened_total obj.direction p (set_stats q (f (stats_of q t)) t')))
        (change-Counts p _ _ _ f q t'
          (λ e. Counts-here n o i p r _ e (opened_stats-Counts n o i obj.direction _ _ c))
          (λ e. Counts-elsewhere n o i p r _ e c))

  -- A record that counted is closed.
  pub closed-Counts :
      (r : StreamRecord)
      → CountsWith p r n o i (stats_of p t)
      → Counts n o i (stats_of p (close_record now key r t))
  unfolding close_record
  closed-Counts r c =
      let f : PeerStreamStats → PeerStreamStats =
        λ s. closed_stats r.direction (count_closed r s) in
      let t' = set_stats r.peer_id (f (stats_of r.peer_id t)) t in
      subst (Counts n o i)
        (sym (stats_of-closed_total r.direction p t')
          ∙ sym (
              stats_of_lifetime (ltb 0 r.opened_at) p r.peer_id (now - r.opened_at)
                (closed_total r.direction t')))
        (change-Counts p n o i f r.peer_id t
          (λ e. closed_stats-Counts n o i r _ (counted_here n o i p r _ e c))
          (λ e. counted_elsewhere n o i p r _ e c))
