-- ===== src/Dag/Tests.antt =====
-- A DAG of four blocks, with a diamond and a link to a block that is not stored.
use py_ipfs_lite.Prelude.{
  String, true, false, some, List, [], ◌∷◌, map, string_eq, mem, In, ◌≡◌, ◌≢◌, refl, inl, arith,
}
use py_ipfs_lite.Errors.{Result, ok, raise, block_not_found, type_error}
use py_ipfs_lite.Dict.{Dict, keys, get, has-eq-mem}
use py_ipfs_lite.Dag.{DagLib, finished, out_of_fuel, failed, expand, walk_from, walk_dag}
use py_ipfs_lite.Dag.Reach.{start, link, Reach-walk}
use py_ipfs_lite.Dag.Fuel.{pending, pushed, walk-ends}

-- A block is the list of its links.
abbrev lib : DagLib String (List String)
lib = record {
  parse_cid_codec = λ c. ok "dag-pb";
  normalise_codec = λ c. ok c;
  codec_dag_pb = "dag-pb";
  decode_dag_pb = λ b. ok (map some b);
  decode_node = λ b c. raise type_error;
  parse_link = λ v. raise type_error;
}

abbrev store : Dict String (List String)
store =
    ("root", "left" ∷ "right" ∷ [])
    ∷ ("left", "leaf" ∷ [])
    ∷ ("right", "leaf" ∷ "gone" ∷ [])
    ∷ ("leaf", [])
    ∷ []

abbrev links : String → Result (List String)
links = expand lib false (λ c. ok (get c store)) true

abbrev strict_links : String → Result (List String)
strict_links = expand lib true (λ c. ok (get c store)) true

walk_test :
    walk_dag links 10 "root"
    ≡ record { yielded = "root" ∷ "left" ∷ "right" ∷ "leaf" ∷ "gone" ∷ []; outcome = finished }
unfolding walk_from expand get
walk_test = refl

strict_test : walk_dag strict_links 10 "root" ≡ record {
  yielded = "root" ∷ "left" ∷ "right" ∷ "leaf" ∷ "gone" ∷ [];
  outcome = failed block_not_found;
}
unfolding walk_from expand get
strict_test = refl

Reach-walk_example : In "left" (walk_dag links 10 "root").yielded
unfolding walk_from expand get
Reach-walk_example =
    Reach-walk links 10 "root" "left" refl (link ("left" ∷ "right" ∷ []) start refl (inl refl))

only_stored : (c : String) → mem c (keys store) ≡ false → pushed (links c) ≡ []
unfolding expand
only_stored c h = ground (arith, has-eq-mem c store)

walk-ends_example : (walk_dag links 6 "root").outcome ≢ out_of_fuel
unfolding pending expand get
walk-ends_example = walk-ends links (keys store) only_stored 6 "root" (omega arith)
