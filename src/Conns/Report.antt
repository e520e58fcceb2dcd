-- ===== src/Conns/Report.antt =====
-- The distributions of `connection_stats_snapshot`, over the recent disconnections. Durations are
-- milliseconds.
use py_ipfs_lite.Prelude.{
  ℕ, ◌+◌, ◌/◌, ◌≡◌, String, ◌&&◌, none, some, List, [], ◌∷◌, string_eq, if◌then◌else◌, length, ltb,
  leb, arith,
}
use py_ipfs_lite.Dict.{Dict, get, put}
use py_ipfs_lite.Conns.Table.{Disconnection}

-- [item["duration_seconds"] for item in recent if it is not None]
unfoldable pub durations : List Disconnection → List ℕ
durations [] = []
durations (e ∷ es) = let rest = durations es in elim e.duration [ none ↦ rest | some d ↦ d ∷ rest ]

-- sum(1 for d in ds if low <= d < high)
unfoldable pub between : ℕ → ℕ → List ℕ → ℕ
between low high [] = 0
between low high (d ∷ ds) = (if leb low d && ltb d high then 1 else 0) + between low high ds

unfoldable pub at_least : ℕ → List ℕ → ℕ
at_least low [] = 0
at_least low (d ∷ ds) = (if leb low d then 1 else 0) + at_least low ds

pub record Lifespans : Type 0 where
  pub under_5s : ℕ
  pub to_35s : ℕ
  pub to_2m : ℕ
  pub to_5m : ℕ
  pub to_10m : ℕ
  pub to_30m : ℕ
  pub over_30m : ℕ

unfoldable pub lifespans : List ℕ → Lifespans
unfolding between at_least
lifespans ds = record {
  under_5s = between 0 5_000 ds;
  to_35s = between 5_000 35_000 ds;
  to_2m = between 35_000 120_000 ds;
  to_5m = between 120_000 300_000 ds;
  to_10m = between 300_000 600_000 ds;
  to_30m = between 600_000 1_800_000 ds;
  over_30m = at_least 1_800_000 ds;
}

unfoldable pub sum : List ℕ → ℕ
sum [] = 0
sum (d ∷ ds) = d + sum ds

-- The average, rounded down where the source has a float.
abbrev pub average : List ℕ → ℕ
average [] = 0
average (d ∷ ds) = sum (d ∷ ds) / length (d ∷ ds)

-- reasons_dist
unfoldable pub count_reasons : List Disconnection → Dict String ℕ → Dict String ℕ
count_reasons [] d = d
count_reasons (e ∷ es) d =
    count_reasons es
      (put e.reason_hint ((elim (get e.reason_hint d) [ none ↦ 0 | some n ↦ n ]) + 1) d)

abbrev pub total : Lifespans → ℕ
total l = l.under_5s + l.to_35s + l.to_2m + l.to_5m + l.to_10m + l.to_30m + l.over_30m

-- Each duration is counted in exactly one class.
pub total-lifespans : (ds : List ℕ) → total (lifespans ds) ≡ length ds
unfolding lifespans between at_least
total-lifespans [] = ground arith
total-lifespans (d ∷ ds) = ground (arith, total-lifespans ds)
