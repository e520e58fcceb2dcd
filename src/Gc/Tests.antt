-- ===== src/Gc/Tests.antt =====
-- A collection with one recursive and one direct pin.
use py_ipfs_lite.Prelude.{
  ◌+◌, String, true, none, some, List, [], ◌∷◌, map, string_eq, ◌==◌, if◌then◌else◌, ◌≡◌, refl, sym,
  inl, arith, length,
}
use py_ipfs_lite.Errors.{Result, ok, raise, type_error, os_error}
use py_ipfs_lite.Dict.{Dict, get, remove}
use py_ipfs_lite.Dag.{DagLib, expand, walk_from}
use py_ipfs_lite.Dag.Reach.{start, link}
use py_ipfs_lite.Dag.Fuel.{pending}
use py_ipfs_lite.Gc.{StoreCalls, gc}
use py_ipfs_lite.Gc.Swept.{gc_keeps_pinned, gc_counts, gc_reclaims}

abbrev lib : DagLib String (List String)
lib = record {
  parse_cid_codec = λ c. ok "dag-pb";
  normalise_codec = λ c. ok c;
  codec_dag_pb = "dag-pb";
  decode_dag_pb = λ b. ok (map some b);
  decode_node = λ b c. raise type_error;
  parse_link = λ v. raise type_error;
}

abbrev show : String → Result String
show c = ok c

abbrev parse : String → Result String
parse c = ok c

abbrev no_faults : StoreCalls String
no_faults = record { lists = ok tt; gets = λ b. ok tt; deletes = λ b. ok tt }

abbrev store : Dict String (List String)
store = ("a", "b" ∷ []) ∷ ("b", []) ∷ ("c", "d" ∷ []) ∷ ("d", []) ∷ ("e", []) ∷ []

-- "a" with what it links to, and "c" alone
abbrev pins : Dict String String
pins = ("a", "recursive") ∷ ("c", "direct") ∷ []

gc_test : gc lib show parse no_faults true store pins ≡ (
  ok (record { reclaimed_blocks = 2; retained_blocks = 3 }),
  ("a", "b" ∷ []) ∷ ("b", []) ∷ ("c", "d" ∷ []) ∷ [],
)
unfolding gc expand walk_from pending get remove
gc_test = refl

gc_keeps_pinned_example : get "b" (gc lib show parse no_faults true store pins).1 ≡ get "b" store
unfolding expand walk_from pending get
gc_keeps_pinned_example =
    gc_keeps_pinned lib show parse no_faults (λ b. (b, refl)) (λ b s p. sym p) true store pins "a"
      "recursive" "a" "b" (inl refl) refl (λ err p. ground arith)
      (link ("b" ∷ []) start refl (inl refl))

gc_counts_example : 2 + length (gc lib show parse no_faults true store pins).1 ≡ length store
unfolding gc expand walk_from pending get remove
gc_counts_example =
    gc_counts lib show parse no_faults (λ b. (b, refl)) (λ b s p. sym p) true store pins
      (record { reclaimed_blocks = 2; retained_blocks = 3 })
      (refl, (refl, (refl, (refl, (refl, tt))))) refl

-- Nothing is pinned, so nothing is kept.
gc_reclaims_example : get "e" (gc lib show parse no_faults true store []).1 ≡ none
unfolding gc get remove
gc_reclaims_example =
    gc_reclaims lib show parse no_faults (λ b. (b, refl)) (λ b s p. sym p) true store []
      (record { reclaimed_blocks = 5; retained_blocks = 0 }) "e" refl (λ k t r i. absurd i)

-- A delete that raises ends the call, and what was deleted before stays deleted.
abbrev no_delete_d : StoreCalls String
no_delete_d = record {
  lists = ok tt;
  gets = λ b. ok tt;
  deletes = λ b. if b == "d" then raise os_error else ok tt;
}

delete_raises :
    gc lib show parse no_delete_d true store [] ≡ (raise os_error, ("d", []) ∷ ("e", []) ∷ [])
unfolding gc expand walk_from pending get remove
delete_raises = refl
