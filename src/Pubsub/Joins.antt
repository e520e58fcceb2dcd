-- ===== src/Pubsub/Joins.antt =====
-- Which topics a pass of the scorer joins and leaves.
use py_ipfs_lite.Prelude.{
  ℕ, ◌+◌, ◌≤◌, String, Bool, true, false, not, ◌&&◌, List, [], ◌∷◌, ◌≡◌, refl, sym, subst,
  string_eq, mem, length, leb, arith, eq_iff, if_both, In, mem-append, inl, inr, Bool-cases, All,
}
use py_ipfs_lite.Dict.{Dict}
use py_ipfs_lite.Pubsub.Topics.{TopicStats, Topics, subscribe, sorted_by, insert_by}
use py_ipfs_lite.Pubsub.Scorer.{confirmed, join_topic, join_from}

module _ {A : Type 0} (P : A → Type 0) (first : A → A → Bool) where
  All-insert_by : (x : A) (ys : List A) → P x → All P ys → All P (insert_by first x ys)
  unfolding insert_by
  All-insert_by x [] p h = (p, tt)
  All-insert_by x (y ∷ ys) p h =
      if_both (All P) (first x y) (λ e. (p, h)) (λ e. (h.0, All-insert_by x ys p h.1))

  pub All-sorted_by : (xs : List A) → All P xs → All P (sorted_by first xs)
  unfolding sorted_by
  All-sorted_by [] h = tt
  All-sorted_by (x ∷ xs) h = All-insert_by x (sorted_by first xs) h.0 (All-sorted_by xs h.1)

-- The topic has been seen often enough.
abbrev pub IsConfirmed : ℕ → Dict String TopicStats → List String → String × TopicStats → Type 0
IsConfirmed join_conf stats subscriptions e =
    In e stats × (join_conf ≤ e.1.hits) × (mem e.0 subscriptions ≡ false)

module _ (join_conf : ℕ) (subscriptions : List String) where
  -- The same candidates, in a longer dictionary
  later :
      (all : Dict String TopicStats) (d : String × TopicStats) (cs : List (String × TopicStats))
      → All (IsConfirmed join_conf all subscriptions) cs
      → All (IsConfirmed join_conf (d ∷ all) subscriptions) cs
  later all d [] h = tt
  later all d (c ∷ cs) h = ((inr h.0.0, h.0.1, h.0.2), later all d cs h.1)

  pub confirmed-IsConfirmed :
      (stats : Dict String TopicStats)
      → All (IsConfirmed join_conf stats subscriptions) (confirmed join_conf subscriptions stats)
  unfolding confirmed
  confirmed-IsConfirmed [] = tt
  confirmed-IsConfirmed ((t, st) ∷ stats) =
      let rest = later stats (t, st) _ (confirmed-IsConfirmed stats) in
      if_both (All (IsConfirmed join_conf ((t, st) ∷ stats) subscriptions))
        (leb join_conf st.hits && not (mem t subscriptions))
        (λ e. ((inl refl, ground (arith, e), ground (arith, e)), rest)) (λ e. rest)

module _ (accepts : String → Bool) (cap : ℕ) (P : String × TopicStats → Type 0) (x : String) where
  join_topic-new :
      (t : String) (s : Topics)
      → mem x s.subscriptions ≡ false
      → mem x (join_topic accepts t s).subscriptions ≡ true
      → (x ≡ t) × (accepts t ≡ true)
  unfolding subscribe
  join_topic-new t s m h = ground (arith, m, h, mem-append x s.subscriptions (t ∷ []), eq_iff x t)

  pub join_from-new :
      (cs : List (String × TopicStats)) (s : Topics)
      → All P cs
      → mem x s.subscriptions ≡ false
      → mem x (join_from accepts cap cs s).1.subscriptions ≡ true
      → (st : TopicStats) × P (x, st) × (accepts x ≡ true)
  unfolding join_from
  join_from-new [] s h m = λ k. absurd (ground (arith, m, k))
  join_from-new ((t, st) ∷ cs) s h m =
      if_both
        (λ (z : ℕ × Topics).
          mem x z.1.subscriptions ≡ true → (st : TopicStats) × P (x, st) × (accepts x ≡ true))
        (leb cap (length s.subscriptions)) {x = (0, s)}
        {y = (let r = join_from accepts cap cs (join_topic accepts t s) in (r.0 + 1, r.1))}
        (λ e k. absurd (ground (arith, m, k)))
        (λ e k. elim (Bool-cases (mem x (join_topic accepts t s).subscriptions)) [
          | inl y ↦
              let (same, ok) = join_topic-new t s m y in
              (
                st,
                subst (λ z. P (z, st)) (sym same) h.0,
                subst (λ z. accepts z ≡ true) (sym same) ok,
              )
          | inr f ↦ join_from-new cs (join_topic accepts t s) h.1 f k
        ])
