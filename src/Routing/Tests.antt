-- ===== src/Routing/Tests.antt =====
-- Runs of the routers.
use py_ipfs_lite.Prelude.{
  ◌≤◌, String, true, none, some, List, [], ◌∷◌, ◌≡◌, refl, arith, inl, inr, length, mem, string_eq,
}
use py_ipfs_lite.Errors.{ok, raise, other_error}
use py_ipfs_lite.Dict.{Distinct}
use py_ipfs_lite.Routing.Tiered.{PeerInfo, Router, merge, find_from, find_providers}
use py_ipfs_lite.Routing.Merged.{ids, find_providers-Distinct, find_providers_complete}

abbrev peer : String → PeerInfo
peer p = record { peer_id = p; addrs = [] }

abbrev dht : Router
dht = record {
  find_providers = λ key count. ok (peer "a" ∷ peer "b" ∷ peer "a" ∷ []);
  provide = λ key. raise other_error;
  get_value = λ key. ok none;
  put_value = λ key value. raise other_error;
}

abbrev ipni : Router
ipni = record {
  find_providers = λ key count. ok (peer "b" ∷ peer "c" ∷ []);
  provide = λ key. ok true;
  get_value = λ key. ok (some "v");
  put_value = λ key value. ok tt;
}

abbrev both : List Router
both = dht ∷ ipni ∷ []

three_found : ids (find_providers both "k" 20) ≡ ("a" ∷ "b" ∷ "c" ∷ [])
unfolding find_providers find_from merge
three_found = refl

find_providers-Distinct_example :
    (length (find_providers both "k" 2) ≤ 2) × Distinct (ids (find_providers both "k" 2))
find_providers-Distinct_example = find_providers-Distinct both "k" 2

find_providers_complete_example : mem "c" (ids (find_providers both "k" 20)) ≡ true
unfolding find_providers find_from merge
find_providers_complete_example =
    find_providers_complete both "k" 20 ipni (peer "b" ∷ peer "c" ∷ []) "c" (inr (inl refl)) refl
      refl (ground arith)
