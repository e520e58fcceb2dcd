-- ===== src/Tracker/Tally.antt =====
-- Sums over the records of live streams.
use py_ipfs_lite.Prelude.{
  ℕ, ◌+◌, String, Bool, true, false, Option, none, some, [], ◌∷◌, ◌==◌, ◌≡◌, string_eq,
  if◌then◌else◌, arith, eq_iff,
}
use py_ipfs_lite.Dict.{Dict, Distinct, keys, get, put, remove, remove_absent, has-eq-mem}
use py_ipfs_lite.Tracker.Types.{Direction, outbound, inbound, unknown, StreamRecord}

abbrev pub is_direction : Direction → Direction → Bool
is_direction outbound outbound = true
is_direction inbound inbound = true
is_direction unknown unknown = true
is_direction _ _ = false

-- 1 for a record of the peer, 0 for another; likewise for a direction.
abbrev pub at_peer : String → StreamRecord → ℕ
at_peer p r = if r.peer_id == p then 1 else 0

abbrev pub in_direction : Direction → Direction → ℕ
in_direction d e = if is_direction d e then 1 else 0

abbrev pub at_peer_to : Direction → String → StreamRecord → ℕ
at_peer_to d p r = if r.peer_id == p then in_direction d r.direction else 0

unfoldable pub sum_of : (StreamRecord → ℕ) → Dict String StreamRecord → ℕ
sum_of f [] = 0
sum_of f ((k, r) ∷ d) = f r + sum_of f d

abbrev pub at_key : (StreamRecord → ℕ) → Option StreamRecord → ℕ
at_key f none = 0
at_key f (some r) = f r

module _ (f : StreamRecord → ℕ) (k : String) where
  pub sum_of-put :
      (r : StreamRecord) (d : Dict String StreamRecord)
      → sum_of f (put k r d) + at_key f (get k d) ≡ f r + sum_of f d
  unfolding sum_of get put
  sum_of-put r [] = ground arith
  sum_of-put r ((j, w) ∷ d) = ground (arith, sum_of-put r d)

  pub sum_of-remove :
      (d : Dict String StreamRecord)
      → Distinct (keys d)
      → sum_of f (remove k d) + at_key f (get k d) ≡ sum_of f d
  unfolding sum_of get remove
  sum_of-remove [] h = ground arith
  sum_of-remove ((j, w) ∷ d) h =
      ground (arith, sum_of-remove d h.1, remove_absent k d, has-eq-mem k d, eq_iff j k)
