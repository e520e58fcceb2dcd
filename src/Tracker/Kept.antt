-- ===== src/Tracker/Kept.antt =====
-- The operations of the tracker keep its invariant.
use py_ipfs_lite.Prelude.{
  ℕ, String, true, false, ◌||◌, Option, none, some, ◌≡◌, refl, string_eq, arith, Bool-cases, inl,
  inr, subst, sym, ◌∙◌,
}
use py_ipfs_lite.Dict.{
  Dict, Distinct, keys, has, get, put, remove, remove_absent, put-Distinct, remove-Distinct,
}
use py_ipfs_lite.Tracker.Types.{StreamRecord, Tracker, new_tracker, stats_of}
use py_ipfs_lite.Tracker.Signals.{StreamObj, World}
use py_ipfs_lite.Tracker.Streams.{
  opened_record, opened_stream, refresh, refreshed, close_record, closed_as, closed_stream,
  with_reset,
}
use py_ipfs_lite.Tracker.Sweep.{finalize_record}
use py_ipfs_lite.Tracker.Tally.{sum_of}
use py_ipfs_lite.Tracker.Balance.{opened-Counts, closed-Counts}
use py_ipfs_lite.Tracker.Renew.{refreshed-Counts}
use py_ipfs_lite.Tracker.Ledger.{
  Agrees, IsBalanced, apart, back, streams-opened_total, streams-close_record, streams-refresh,
}

-- `IsBalanced` of a tracker, from what its streams are.
pub IsBalanced-from :
    (t : Tracker) (d : Dict String StreamRecord)
    → t.streams ≡ d
    → Distinct (keys d)
    → ((p : String) → Agrees p d (stats_of p t))
    → IsBalanced t
IsBalanced-from t d e h c = record {
  distinct = subst (λ x. Distinct (keys x)) (sym e) h;
  agrees = λ p. subst (λ x. Agrees p x (stats_of p t)) (sym e) (c p);
}

pub new_tracker-IsBalanced : IsBalanced new_tracker
unfolding sum_of get
new_tracker-IsBalanced = record {
  distinct = tt;
  agrees = λ p. record { open_now = refl; outbound_now = refl; inbound_now = refl; history = refl };
}

-- Where the key of an opened stream is not in use, the counters of every peer stay in agreement
-- with the live records.
pub opened_stream-IsBalanced :
    (now : ℕ) (key q : String) (stream : ℕ) (obj : StreamObj) (t : Tracker)
    → has key t.streams ≡ false
    → IsBalanced t
    → IsBalanced (opened_stream now key q stream obj t)
unfolding opened_stream
opened_stream-IsBalanced now key q stream obj t h b =
    let r = opened_record now q stream obj in
    IsBalanced-from (opened_stream now key q stream obj t) (put key r t.streams)
      (streams-opened_total obj.direction _) (put-Distinct key r t.streams b.distinct)
      (λ p. back key r t.streams b.distinct p _ (
        opened-Counts p _ _ _ now key t q stream obj (
          subst (λ d. Agrees p d (stats_of p t))
            (sym (remove_absent key t.streams (ground (arith, h)))) (b.agrees p))))

module _ (now : ℕ) (world : World) (key : String) (r : StreamRecord) (t : Tracker)
    (g : get key t.streams ≡ some r) where
  -- The record of a live stream is finalized.
  pub finalize_record-IsBalanced : IsBalanced t → IsBalanced (finalize_record now world key r t)
  unfolding finalize_record
  finalize_record-IsBalanced b =
      IsBalanced-from (finalize_record now world key r t) (remove key t.streams)
        (streams-close_record now key (with_reset (world r.stream) r) _)
        (remove-Distinct key t.streams b.distinct)
        (λ p.
          closed-Counts p _ _ _ now key (record t { streams = remove key t.streams })
            (with_reset (world r.stream) r) (apart key r t.streams b.distinct p _ g (b.agrees p)))

  closed_known-IsBalanced :
      (obj : Option StreamObj)
      → IsBalanced t
      → IsBalanced (
          close_record now key
            (with_reset obj (refreshed (world r.stream) r))
            (refresh (world r.stream) r (record t { streams = remove key t.streams })))
  closed_known-IsBalanced obj b =
      let t' : Tracker = record t { streams = remove key t.streams } in
      let r' = refreshed (world r.stream) r in
      IsBalanced-from _ (remove key t.streams)
        (streams-close_record now key (with_reset obj r') (refresh (world r.stream) r t')
          ∙ streams-refresh (world r.stream) r t')
        (remove-Distinct key t.streams b.distinct)
        (λ p. closed-Counts p _ _ _ now key (refresh (world r.stream) r t') (with_reset obj r') (
          refreshed-Counts p _ _ _ (world r.stream) r t'
            (apart key r t.streams b.distinct p _ g (b.agrees p))))

-- Where the key of a closed stream is live or finalized, the counters of every peer stay in
-- agreement with the live records.
pub closed_stream-IsBalanced :
    (now : ℕ) (world : World) (key q : String) (obj : StreamObj) (t : Tracker)
    → (has key t.streams || has key t.finalized_keys) ≡ true
    → IsBalanced t
    → IsBalanced (closed_stream now world key q obj t).1
unfolding closed_stream
closed_stream-IsBalanced now world key q obj t h b = go (get key t.streams) refl
  where
    go :
        (m : Option StreamRecord)
        → get key t.streams ≡ m
        → IsBalanced (closed_as now world key q obj t m).1
    go (some r) g = closed_known-IsBalanced now world key r t g (some obj) b
    go none g = elim (Bool-cases (has key t.finalized_keys)) [
      | inl f ↦ subst IsBalanced (ground (arith, f)) b
      | inr f ↦ absurd (ground (arith, f, g))
    ]
