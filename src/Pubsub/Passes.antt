-- ===== src/Pubsub/Passes.antt =====
-- What a pass of the scorer does to the subscriptions.
use py_ipfs_lite.Prelude.{
  ℕ, ◌+◌, ◌≤◌, max, String, Bool, true, false, not, ◌&&◌, none, List, [], ◌∷◌, ◌==◌, ◌≡◌, sym,
  subst, string_eq, if◌then◌else◌, mem, length, leb, arith, eq_iff, if_both, mem-append,
  length-append, inl, inr, Bool-cases,
}
use py_ipfs_lite.Dict.{get, get-remove}
use py_ipfs_lite.Pubsub.Topics.{TopicStats, Settings, Topics, is_protected, discard, subscribe}
use py_ipfs_lite.Pubsub.Scorer.{leaves, leave_topic, leave_from, join_topic, join_from, is_stale}

mem-discard : (t u : String) (xs : List String) → mem t (discard u xs) ≡ (not (u == t) && mem t xs)
unfolding discard
mem-discard t u [] = ground arith
mem-discard t u (x ∷ xs) = ground (arith, mem-discard t u xs, eq_iff x u, eq_iff t x, eq_iff u t)

length-discard-le : (u : String) (xs : List String) → length (discard u xs) ≤ length xs
unfolding discard
length-discard-le u [] = ground arith
length-discard-le u (x ∷ xs) = ground (arith, length-discard-le u xs)

module _ (c : Settings) (n : ℕ) where
  abbrev left_or_kept : String → Topics → Topics
  left_or_kept t s = if leaves c n t s then leave_topic t s else s

  protected_stays :
      (x t : String) (s : Topics)
      → is_protected c x ≡ true
      → leaves c n t s ≡ true
      → (t == x) ≡ false
  protected_stays x t s p e = elim (Bool-cases (t == x)) [
    | inl y ↦
        absurd (
          go (is_protected c t) (subst (λ z. is_protected c z ≡ true) (sym ((eq_iff t x).0 y)) p) e)
    | inr f ↦ f
  ]
    where
      go : (b : Bool) → b ≡ true → (not b && is_stale n (get t s.topic_stats)) ≡ true → ⊥
      go true h k = cc
      go false h k = cc

  pub leave_from-protected :
      (x : String) (ts : List String) (s : Topics)
      → is_protected c x ≡ true
      → mem x s.subscriptions ≡ true
      → mem x (leave_from c n ts s).1.subscriptions ≡ true
  unfolding leave_from
  leave_from-protected x [] s p m = m
  leave_from-protected x (t ∷ ts) s p m = leave_from-protected x ts (left_or_kept t s) p (
      if_both (λ (z : Topics). mem x z.subscriptions ≡ true) (leaves c n t s)
        (λ e. ground (arith, mem-discard x t s.subscriptions, protected_stays x t s p e, m))
        (λ e. m))

  pub leave_from-length :
      (ts : List String) (s : Topics)
      → length (leave_from c n ts s).1.subscriptions ≤ length s.subscriptions
  unfolding leave_from
  leave_from-length [] s = ground arith
  leave_from-length (t ∷ ts) s =
      let step : length (left_or_kept t s).subscriptions ≤ length s.subscriptions =
        if_both (λ (z : Topics). length z.subscriptions ≤ length s.subscriptions) (leaves c n t s)
          (λ e. length-discard-le t s.subscriptions) (λ e. ground arith) in
      ground (arith, step, leave_from-length ts (left_or_kept t s))

  -- A topic that is not subscribed to stays so.
  pub leave_from-absent :
      (x : String) (ts : List String) (s : Topics)
      → mem x s.subscriptions ≡ false
      → mem x (leave_from c n ts s).1.subscriptions ≡ false
  unfolding leave_from
  leave_from-absent x [] s m = m
  leave_from-absent x (t ∷ ts) s m = leave_from-absent x ts (left_or_kept t s) (
      if_both (λ (z : Topics). mem x z.subscriptions ≡ false) (leaves c n t s)
        (λ e. ground (arith, mem-discard x t s.subscriptions, m)) (λ e. m))

  -- Neither subscribed to nor with stats.
  abbrev pub Gone : String → Topics → Type 0
  Gone x s = (mem x s.subscriptions ≡ false) × (get x s.topic_stats ≡ none)

  leave_topic-Gone : (x t : String) (s : Topics) → Gone x s → Gone x (leave_topic t s)
  leave_topic-Gone x t s g = (
    ground (arith, mem-discard x t s.subscriptions, g.0),
    ground (arith, get-remove t x s.topic_stats, g.1),
  )

  leave_from-Gone :
      (x : String) (ts : List String) (s : Topics) → Gone x s → Gone x (leave_from c n ts s).1
  unfolding leave_from
  leave_from-Gone x [] s g = g
  leave_from-Gone x (t ∷ ts) s g =
      leave_from-Gone x ts (left_or_kept t s)
        (if_both (Gone x) (leaves c n t s) (λ e. leave_topic-Gone x t s g) (λ e. g))

  left_now :
      (x t : String) (s : Topics)
      → x ≡ t
      → is_protected c x ≡ false
      → is_stale n (get x s.topic_stats) ≡ true
      → Gone x (left_or_kept t s)
  left_now x t s e p h =
      subst (λ z. Gone x (left_or_kept z s)) e
        (if_both (Gone x) (leaves c n x s)
          (λ k. (
            ground (arith, mem-discard x x s.subscriptions, eq_iff x x),
            ground (arith, get-remove x x s.topic_stats, eq_iff x x),
          ))
          (λ k. absurd (ground (arith, k, p, h))))

  -- A stale topic that the loop meets is left.
  pub leave_from-stale :
      (x : String) (ts : List String) (s : Topics)
      → mem x ts ≡ true
      → is_protected c x ≡ false
      → is_stale n (get x s.topic_stats) ≡ true
      → Gone x (leave_from c n ts s).1
  unfolding leave_from
  leave_from-stale x [] s m p h = absurd (ground (arith, m))
  leave_from-stale x (t ∷ ts) s m p h = elim (Bool-cases (t == x)) [
    | inl y ↦ leave_from-Gone x ts (left_or_kept t s) (left_now x t s (sym ((eq_iff t x).0 y)) p h)
    | inr f ↦
        leave_from-stale x ts (left_or_kept t s) (ground (arith, m, f, eq_iff x t, eq_iff t x)) p (
          if_both (λ (z : Topics). is_stale n (get x z.topic_stats) ≡ true) (leaves c n t s)
            (λ e. ground (arith, get-remove t x s.topic_stats, f, h)) (λ e. h))
  ]

module _ (accepts : String → Bool) (cap : ℕ) where
  pub join_topic-mem :
      (x t : String) (s : Topics)
      → mem x s.subscriptions ≡ true
      → mem x (join_topic accepts t s).subscriptions ≡ true
  unfolding subscribe
  join_topic-mem x t s m = ground (arith, mem-append x s.subscriptions (t ∷ []), m)

  pub join_from-mem :
      (x : String) (cs : List (String × TopicStats)) (s : Topics)
      → mem x s.subscriptions ≡ true
      → mem x (join_from accepts cap cs s).1.subscriptions ≡ true
  unfolding join_from
  join_from-mem x [] s m = m
  join_from-mem x ((t, st) ∷ cs) s m =
      if_both (λ (z : ℕ × Topics). mem x z.1.subscriptions ≡ true)
        (leb cap (length s.subscriptions)) (λ e. m)
        (λ e. join_from-mem x cs (join_topic accepts t s) (join_topic-mem x t s m))

  join_topic-length :
      (t : String) (s : Topics)
      → length (join_topic accepts t s).subscriptions ≤ length s.subscriptions + 1
  unfolding subscribe
  join_topic-length t s = ground (arith, length-append s.subscriptions (t ∷ []))

  pub join_from-length :
      (cs : List (String × TopicStats)) (s : Topics)
      → length (join_from accepts cap cs s).1.subscriptions ≤ max (length s.subscriptions) cap
  unfolding join_from
  join_from-length [] s = ground arith
  join_from-length ((t, st) ∷ cs) s =
      if_both (λ (z : ℕ × Topics). length z.1.subscriptions ≤ max (length s.subscriptions) cap)
        (leb cap (length s.subscriptions)) (λ e. ground arith)
        (λ e.
          ground (arith, e, join_topic-length t s, join_from-length cs (join_topic accepts t s)))
