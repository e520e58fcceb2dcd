-- ===== src/Pubsub/Streaks.antt =====
-- The streaks of a topic over the scans.
use py_ipfs_lite.Prelude.{ℕ, ◌+◌, ◌≤◌, ◌<◌, List, [], ◌∷◌, ◌≡◌, ◌∙◌, length, All, arith}
use py_ipfs_lite.Pubsub.Topics.{TopicStats}
use py_ipfs_lite.Pubsub.Scorer.{scored}

-- The stats after the scans of a topic, given how many peers announced it in each.
unfoldable pub scored_all : ℕ → ℕ → List ℕ → TopicStats → TopicStats
unfolding scored
scored_all min_peers leave_after [] st = st
scored_all min_peers leave_after (c ∷ cs) st =
    scored_all min_peers leave_after cs (scored min_peers leave_after c st)

module _ (min_peers leave_after : ℕ) where
  misses-scored_all :
      (cs : List ℕ) (st : TopicStats)
      → All (λ c. c < min_peers) cs
      → (scored_all min_peers leave_after cs st).misses ≡ st.misses + length cs
  unfolding scored_all scored
  misses-scored_all [] st h = ground arith
  misses-scored_all (c ∷ cs) st h =
      misses-scored_all cs (scored min_peers leave_after c st) h.1 ∙ ground (arith, h.0)

  -- After a scan with enough announcers, the misses are the number of scans since then, where all of
  -- these had too few.
  pub misses-scored_lem :
      (c : ℕ) (cs : List ℕ) (st : TopicStats)
      → min_peers ≤ c
      → All (λ n. n < min_peers) cs
      → (scored_all min_peers leave_after (c ∷ cs) st).misses ≡ length cs
  unfolding scored_all scored
  misses-scored_lem c cs st e h =
      misses-scored_all cs (scored min_peers leave_after c st) h ∙ ground (arith, e)

  -- Where two misses are tolerated, a scan with too few announcers between two good ones does not
  -- interrupt the count of hits.
  pub hits-scored_lem :
      (a b c : ℕ) (st : TopicStats)
      → 2 ≤ leave_after
      → min_peers ≤ a
      → b < min_peers
      → min_peers ≤ c
      → (scored_all min_peers leave_after (a ∷ b ∷ c ∷ []) st).hits ≡ st.hits + 2
  unfolding scored_all scored
  hits-scored_lem a b c st l h m k = ground (arith, l, h, m, k)
