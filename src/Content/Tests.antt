-- ===== src/Content/Tests.antt =====
-- A file of two blocks, a pinned collection, and a node.
use py_ipfs_lite.Prelude.{
  String, true, false, Option, none, some, List, [], ◌∷◌, ◌≡◌, refl, sym, ap, string_eq, map, inl,
  arith, ◌==◌, if◌then◌else◌, ==_iff,
}
use py_ipfs_lite.Errors.{Result, ok, raise, type_error}
use py_ipfs_lite.Dict.{Dict, get, put}
use py_ipfs_lite.Files.Transfer.{Chunk}
use py_ipfs_lite.Reader.{new_reader}
use py_ipfs_lite.Dag.{DagLib, expand, walk_from}
use py_ipfs_lite.Dag.Fuel.{pending}
use py_ipfs_lite.Gc.{StoreCalls, gc}
use py_ipfs_lite.Ipld.{
  Value, text, node, Bytes, Codecs, check_nan, convert, serialised, encode_node,
}
use py_ipfs_lite.Ipld.Plain.{IsIpld}
use py_ipfs_lite.Content.Stream.{FileLib, get_file}
use py_ipfs_lite.Content.Trees.{
  Tree, raw_block, branch, no_more, more, Stored, height, content, get_file-content,
}
use py_ipfs_lite.Content.Pins.{list_pins, note_pins, note, update}
use py_ipfs_lite.Content.Kept.{list_pins-gc}
use py_ipfs_lite.Content.Nodes.{CidLib, add_node, get_node, add_node-get_node}

abbrev files : FileLib String
files = record {
  parse_cid_codec = λ c. if c == "root" then ok "dag-pb" else ok "raw";
  is_directory_node = λ b. ok false;
  decode_dag_pb = λ b. ok ("left" ∷ "right" ∷ [], none);
}

abbrev fetch : String → Result (Option Chunk)
fetch c =
    if c == "left"
    then ok (some (1 ∷ 2 ∷ []))
    else if c == "right"
    then ok (some (3 ∷ []))
    else ok (some (0 ∷ []))

abbrev two_leaves : Tree
two_leaves = branch (raw_block (1 ∷ 2 ∷ [])) (more (raw_block (3 ∷ [])) no_more)

two_leaves-Stored : Stored files true fetch "root" two_leaves
unfolding Stored
two_leaves-Stored =
    ("left", "right" ∷ [], none, (0 ∷ [], refl, refl, refl, refl), (refl, refl), ((refl, refl), tt))

get_file-content_example :
    get_file files true fetch 2 none true "root" ≡ ok (new_reader (1 ∷ 2 ∷ 3 ∷ []))
unfolding height content
get_file-content_example =
    get_file-content files true fetch 2 none true "root" two_leaves refl two_leaves-Stored
      (omega arith)

abbrev lib : DagLib String (List String)
lib = record {
  parse_cid_codec = λ c. ok "dag-pb";
  normalise_codec = λ c. ok c;
  codec_dag_pb = "dag-pb";
  decode_dag_pb = λ b. ok (map some b);
  decode_node = λ b c. raise type_error;
  parse_link = λ v. raise type_error;
}

abbrev show : String → Result String
show c = ok c

abbrev parse : String → Result String
parse c = ok c

abbrev no_faults : StoreCalls String
no_faults = record { lists = ok tt; gets = λ b. ok tt; deletes = λ b. ok tt }

abbrev store : Dict String (List String)
store = ("a", "b" ∷ []) ∷ ("b", []) ∷ ("c", []) ∷ []

abbrev pins : Dict String String
pins = ("a", "recursive") ∷ ("c", "direct") ∷ []

abbrev listed : Dict String String
listed = ("a", "recursive") ∷ ("c", "direct") ∷ ("b", "indirect") ∷ []

list_pins-gc_example : get "b" (gc lib show parse no_faults true store pins).1 ≡ get "b" store
unfolding list_pins note_pins note update expand walk_from pending get put
list_pins-gc_example =
    list_pins-gc lib show parse no_faults (λ b. (b, refl)) (λ b s p. sym p) true store pins
      (("b", "indirect") ∷ []) "b" "b" refl (inl refl) refl

-- CIDs that are the data with its codec.
abbrev Cid : Type 0
Cid = String

abbrev cids : CidLib Cid
cids = record {
  compute_cid_v1 = λ b codec. codec;
  format_cid = λ c. c;
  parse_cid = λ s. ok s;
  parse_cid_codec = λ c. ok c;
}

-- Codecs that know two texts and refuse all else.
abbrev dumps : Value → Result Bytes
dumps (text s) = if s == "yes" then ok (1 ∷ []) else raise type_error
dumps v = raise type_error

abbrev loads : Bytes → Result Value
loads b = ok (text "yes")

abbrev codecs : Codecs
codecs = record {
  json_dumps = dumps;
  json_loads = loads;
  cbor_dumps = dumps;
  cbor_loads = loads;
  dag_pb_node = λ b. raise type_error;
  utf8 = λ s. [];
}

dumps-loads : (v : Value) (b : Bytes) → IsIpld v → dumps v ≡ ok b → loads b ≡ ok v
dumps-loads (text s) b i h = ap (λ z. ok (text z)) (ground (arith, h, ==_iff s "yes"))
dumps-loads v b i h = cc

add_node-get_node_example :
    get_node cids codecs true
      (ok tt)
      (ok none)
      "dag-json"
      (add_node cids codecs true (node "yes") "dag-json" []).1
    ≡ ok (text "yes")
unfolding add_node encode_node check_nan serialised convert IsIpld
add_node-get_node_example =
    add_node-get_node cids codecs dumps-loads dumps-loads (λ c. refl) (λ b codec. refl) (node "yes")
      "dag-json" [] "dag-json" (λ _. tt) refl (ok tt) (ok none)
