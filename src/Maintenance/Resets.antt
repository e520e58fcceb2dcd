-- ===== src/Maintenance/Resets.antt =====
-- `_stream_leak_monitor_loop`, one round: where the tracker reports leaks, the streams of all
-- connections that are old and have no protocol are reset.
use py_ipfs_lite.Prelude.{
  ℕ, ◌-◌, max, String, Bool, false, Option, none, some, List, [], ◌∷◌, ◌++◌, if◌then◌else◌, ltb,
  nat_beq, is_some,
}

-- What is read of a stream: `_protocol`, `open_seconds` and `_created_at`.
pub record OpenStream : Type 0 where
  pub protocol : Option String
  pub open_for : Option ℕ
  pub created_at : Option ℕ

-- A creation time of 0 counts as missing.
abbrev pub since : ℕ → Option ℕ → Option ℕ
since now none = none
since now (some t) = if nat_beq t 0 then none else some (now - t)

abbrev pub age : ℕ → OpenStream → Option ℕ
age now s = elim s.open_for [ none ↦ since now s.created_at | some n ↦ some n ]

abbrev pub older : ℕ → Option ℕ → Bool
older threshold none = false
older threshold (some n) = ltb threshold n

abbrev pub to_reset : ℕ → ℕ → OpenStream → Bool
to_reset now threshold s = if is_some s.protocol then false else older threshold (age now s)

-- The streams of a list that are reset.
unfoldable pub resets_of : ℕ → ℕ → List OpenStream → List OpenStream
resets_of now threshold [] = []
resets_of now threshold (s ∷ ss) =
    let rest = resets_of now threshold ss in if to_reset now threshold s then s ∷ rest else rest

-- The connections, each with its streams.
unfoldable pub all_resets : ℕ → ℕ → List (List OpenStream) → List OpenStream
unfolding resets_of
all_resets now threshold [] = []
all_resets now threshold (c ∷ cs) = resets_of now threshold c ++ all_resets now threshold cs

-- max(1.0, threshold)
abbrev pub at_least_1s : ℕ → ℕ
at_least_1s n = max 1_000 n

unfoldable pub monitor_round : ℕ → ℕ → Bool → List (List OpenStream) → List OpenStream
unfolding all_resets
monitor_round now configured leaked connections =
    if leaked then all_resets now (at_least_1s configured) connections else []
