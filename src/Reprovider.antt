-- ===== src/Reprovider.antt =====
-- py_ipfs_lite/reprovider.py: which CIDs are announced, and how many of them with success. One round
-- of `start` is one call; the interval and the log are not modelled.
use py_ipfs_lite.Prelude.{
  ℕ, ◌+◌, String, Bool, true, false, ◌||◌, List, [], ◌∷◌, ◌==◌, string_eq, if◌then◌else◌,
}
use py_ipfs_lite.Errors.{Result, ok, raise, ◌>>=◌}
use py_ipfs_lite.Dict.{Dict, keys}

-- The CIDs of a strategy; an unknown one has none.
abbrev pub selected : String → Result (List String) → Dict String String → Result (List String)
selected strategy all_keys pins =
    if strategy == "all"
    then all_keys
    else (if strategy == "pinned" || strategy == "roots" then ok (keys pins) else ok [])

-- One for an announcement that returns in time, whatever it returns.
abbrev pub success : Result Bool → ℕ
success (ok _) = 1
success (raise _) = 0

-- The loop; each CID is announced, also after a failure.
unfoldable pub announce : (String → Result Bool) → List String → ℕ
announce provide [] = 0
announce provide (c ∷ cids) = success (provide c) + announce provide cids

-- The number of successes; nothing is done without a routing.
abbrev pub reprovide :
    Bool → String → Result (List String) → Dict String String → (String → Result Bool) → Result ℕ
reprovide false strategy all_keys pins provide = ok 0
reprovide true strategy all_keys pins provide =
    selected strategy all_keys pins >>= (λ cids. ok (announce provide cids))
