-- ===== src/Routing/Tiered.antt =====
-- `TieredRouting`.
use py_ipfs_lite.Prelude.{
  ℕ, String, Bool, true, false, not, ◌&&◌, ◌||◌, Option, none, some, List, [], ◌∷◌, ◌++◌,
  if◌then◌else◌, length, take, mem, leb, string_eq,
}
use py_ipfs_lite.Errors.{Result, ok, raise, routing_error}

-- `PeerInfo`
pub record PeerInfo : Type 0 where
  pub peer_id : String
  pub addrs : List String

-- What a router answers when it is asked.
pub record Router : Type 0 where
  pub find_providers : String → ℕ → Result (List PeerInfo)
  pub provide : String → Result Bool
  pub get_value : String → Result (Option String)
  pub put_value : String → String → Result (Unit {0})

-- The peers that are not seen yet are appended.
unfoldable pub merge : List PeerInfo → List String → List PeerInfo → List String × List PeerInfo
merge [] seen found = (seen, found)
merge (p ∷ ps) seen found =
    if mem p.peer_id seen
    then merge ps seen found
    else merge ps (p.peer_id ∷ seen) (found ++ (p ∷ []))

-- What a router's answer does to the two lists.
abbrev pub merged :
    Result (List PeerInfo) → List String → List PeerInfo → List String × List PeerInfo
merged (raise _) seen found = (seen, found)
merged (ok ps) seen found = merge ps seen found

-- `break` is only reached where the router has answered with some provider.
abbrev pub answered : Result (List PeerInfo) → Bool
answered (ok (p ∷ ps)) = true
answered _ = false

unfoldable pub find_from : List Router → String → ℕ → List String → List PeerInfo → List PeerInfo
unfolding merge
find_from [] key count seen found = found
find_from (r ∷ rs) key count seen found =
    let answer = r.find_providers key count in
    let m = merged answer seen found in
    let rest = find_from rs key count m.0 m.1 in
    if answered answer && leb count (length m.1) then m.1 else rest

unfoldable pub find_providers : List Router → String → ℕ → List PeerInfo
unfolding find_from
find_providers rs key count = take count (find_from rs key count [] [])

abbrev pub says_yes : Result Bool → Bool
says_yes (ok b) = b
says_yes (raise _) = false

unfoldable pub provide_from : List Router → String → Bool → Bool
provide_from [] key success = success
provide_from (r ∷ rs) key success = provide_from rs key (success || says_yes (r.provide key))

abbrev pub provide : List Router → String → Bool
provide rs key = provide_from rs key false

abbrev pub value_of : Result (Option String) → Option String
value_of (ok v) = v
value_of (raise _) = none

abbrev pub value_or : Option String → Option String → Option String
value_or (some v) rest = some v
value_or none rest = rest

unfoldable pub get_value : List Router → String → Option String
get_value [] key = none
get_value (r ∷ rs) key = let rest = get_value rs key in value_or (value_of (r.get_value key)) rest

abbrev pub is_ok : Result (Unit {0}) → Bool
is_ok (ok _) = true
is_ok (raise _) = false

-- The loop of `put_value`: whether a router has accepted, and whether one has raised.
unfoldable pub put_from : List Router → String → String → Bool → Bool → Bool × Bool
put_from [] key value success failed = (success, failed)
put_from (r ∷ rs) key value success failed =
    let accepts = is_ok (r.put_value key value) in
    put_from rs key value (success || accepts) (failed || not accepts)

unfoldable pub put_value : List Router → String → String → Result (Unit {0})
unfolding put_from
put_value rs key value =
    let (success, failed) = put_from rs key value false false in
    if failed && not success then raise routing_error else ok tt
