-- ===== src/Pubsub/Rules.antt =====
-- The rules of the scorer, for a whole pass.
use py_ipfs_lite.Prelude.{
  ℕ, ◌+◌, ◌≤◌, max, String, Bool, true, false, ◌&&◌, List, [], ◌∷◌, ◌==◌, ◌≡◌, refl, sym, ap, ◌∙◌,
  string_eq, if◌then◌else◌, mem, length, arith, In, inl, inr, Bool-cases,
}
use py_ipfs_lite.Dict.{Dict, get, remove, keys, get-eq_none}
use py_ipfs_lite.Pubsub.Topics.{TopicStats, Settings, Topics, is_protected, has_path, sorted_by}
use py_ipfs_lite.Pubsub.Scorer.{
  leave_from, leaves, leave_topic, leave_pass, confirmed, join_pass, scan, base_count, ranks_first,
  is_stale, discovery_pass,
}
use py_ipfs_lite.Pubsub.Passes.{
  leave_from-protected, leave_from-length, leave_from-absent, leave_from-stale, join_from-mem,
  join_from-length,
}
use py_ipfs_lite.Pubsub.Joins.{All-sorted_by, IsConfirmed, confirmed-IsConfirmed, join_from-new}

remove-In :
    (e : String × TopicStats) (k : String) (d : Dict String TopicStats) → In e (remove k d) → In e d
unfolding remove
remove-In e k [] m = m
remove-In e k ((j, v) ∷ d) m = go (j == k) (remove-In e k d) m
  where
    go :
        (b : Bool)
        → (In e (remove k d) → In e d)
        → In e (if b then remove k d else (j, v) ∷ remove k d)
        → In e ((j, v) ∷ d)
    go true ih h = inr (ih h)
    go false ih (inl h) = inl h
    go false ih (inr h) = inr (ih h)

leave_from-In :
    (c : Settings) (n : ℕ) (e : String × TopicStats) (ts : List String) (s : Topics)
    → In e (leave_from c n ts s).1.topic_stats
    → In e s.topic_stats
unfolding leave_from
leave_from-In c n e [] s m = m
leave_from-In c n e (t ∷ ts) s m =
    go (leaves c n t s) (leave_from-In c n e ts (if leaves c n t s then leave_topic t s else s) m)
  where
    go : (b : Bool) → In e (if b then leave_topic t s else s).topic_stats → In e s.topic_stats
    go true h = remove-In e t s.topic_stats h
    go false h = h

In-keys : (e : String × TopicStats) (d : Dict String TopicStats) → In e d → In e.0 (keys d)
In-keys e [] m = elim m [ ]
In-keys e ((k, v) ∷ d) (inl h) = inl (ap (λ p. p.0) h)
In-keys e ((k, v) ∷ d) (inr m) = inr (In-keys e d m)

if_subscriptions :
    (b : Bool) (x y : Topics) (d : List String)
    → x.subscriptions ≡ d
    → y.subscriptions ≡ d
    → (if b then x else y).subscriptions ≡ d
if_subscriptions true x y d h k = h
if_subscriptions false x y d h k = k

module _ (earlier : String → String → Bool) (accepts : String → Bool) (writes : Bool) (c : Settings)
    (counts : Dict String ℕ) (s : Topics) where
  abbrev pub after_pass : Topics
  after_pass = (discovery_pass earlier accepts writes c counts s).1

  abbrev after_leaving : Topics
  after_leaving = (leave_pass c (scan c counts s)).1

  -- Saving leaves the subscriptions alone.
  after_pass_lem : after_pass.subscriptions ≡ (join_pass accepts c after_leaving).1.subscriptions
  unfolding discovery_pass
  after_pass_lem =
      let joined = (join_pass accepts c after_leaving).1 in
      if_subscriptions _ _ _ joined.subscriptions
        (if_subscriptions (has_path c && writes) _ _ joined.subscriptions refl refl) refl

  -- A protected topic that is subscribed to stays subscribed to.
  pub pass-protected :
      (x : String)
      → is_protected c x ≡ true
      → mem x s.subscriptions ≡ true
      → mem x after_pass.subscriptions ≡ true
  pass-protected x p m =
      ap (mem x) after_pass_lem
      ∙ join_from-mem accepts _ x _ after_leaving
          (leave_from-protected c _ x s.subscriptions (scan c counts s) p m)

  -- A pass joins no topic above the cap: the subscriptions are no more than before, or than the cap.
  pub pass-length :
      length after_pass.subscriptions
      ≤ max (length s.subscriptions) (base_count c + c.auto_join_max_topics)
  pass-length = ground (
    arith,
    ap length after_pass_lem,
    join_from-length accepts (base_count c + c.auto_join_max_topics)
        (sorted_by ranks_first (
          confirmed (max 1 c.join_confirmations) after_leaving.subscriptions
            after_leaving.topic_stats))
        after_leaving,
    leave_from-length c (max 1 c.leave_misses) s.subscriptions (scan c counts s),
  )

  -- A topic that a pass has newly subscribed to is announced often enough, and the subscription was
  -- accepted.
  pub pass-confirmed :
      (x : String)
      → mem x s.subscriptions ≡ false
      → mem x after_pass.subscriptions ≡ true
      → (st : TopicStats) × In (x, st) (scan c counts s).topic_stats
        × (max 1 c.join_confirmations ≤ st.hits)
        × (accepts x ≡ true)
  pass-confirmed x m h =
      let conf = max 1 c.join_confirmations in
      let candidates = confirmed conf after_leaving.subscriptions after_leaving.topic_stats in
      let P = IsConfirmed conf after_leaving.topic_stats after_leaving.subscriptions in
      let (st, (i, hits, _), ok) =
        join_from-new accepts _ P x (sorted_by ranks_first candidates) after_leaving
          (All-sorted_by P ranks_first candidates
            (confirmed-IsConfirmed conf after_leaving.subscriptions after_leaving.topic_stats))
          (leave_from-absent c (max 1 c.leave_misses) x s.subscriptions (scan c counts s) m)
          (sym (ap (mem x) after_pass_lem) ∙ h) in
      (
        st,
        leave_from-In c (max 1 c.leave_misses) (x, st) s.subscriptions (scan c counts s) i,
        hits,
        ok,
      )

  -- A topic that is subscribed to, by whoever it was, that is not protected, and that has stats whose
  -- misses have reached `leave_misses` after the scan, is left.
  pub pass-stale :
      (x : String)
      → mem x s.subscriptions ≡ true
      → is_protected c x ≡ false
      → is_stale (max 1 c.leave_misses) (get x (scan c counts s).topic_stats) ≡ true
      → mem x after_pass.subscriptions ≡ false
  pass-stale x m p h = elim (Bool-cases (mem x after_pass.subscriptions)) [
    | inr f ↦ f
    | inl y ↦ absurd (back y)
  ]
    where
      back : mem x after_pass.subscriptions ≡ true → ⊥
      back y =
          let conf = max 1 c.join_confirmations in
          let candidates = confirmed conf after_leaving.subscriptions after_leaving.topic_stats in
          let P = IsConfirmed conf after_leaving.topic_stats after_leaving.subscriptions in
          let gone =
            leave_from-stale c (max 1 c.leave_misses) x s.subscriptions (scan c counts s) m p h in
          let (st, (i, _, _), _) =
            join_from-new accepts _ P x (sorted_by ranks_first candidates) after_leaving
              (All-sorted_by P ranks_first candidates
                (confirmed-IsConfirmed conf after_leaving.subscriptions after_leaving.topic_stats))
              gone.0 (sym (ap (mem x) after_pass_lem) ∙ y) in
          get-eq_none x after_leaving.topic_stats gone.1
            (In-keys (x, st) after_leaving.topic_stats i)
