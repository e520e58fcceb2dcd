-- ===== src/Ipld.antt =====
-- py_ipfs_lite/peer/ipld.py (the codecs) and `extract_cids` of py_ipfs_lite/dag_utils.py.
-- JSON, CBOR and UnixFS coding are parameters.
pub mod Links
pub mod Plain
mod Tests
use py_ipfs_lite.Prelude.{
  ℕ, suc, ◌+◌, String, Bool, true, false, Option, none, some, List, [], ◌∷◌, ◌++◌, drop, mem,
  string_eq, ◌==◌, nat_eq, if◌then◌else◌,
}
use py_ipfs_lite.Errors.{Error, Result, ok, raise, ◌>>=◌, type_error, value_error}

abbrev pub Bytes : Type 0
Bytes = List ℕ

-- The values that a decoded node is made of. `node` is an `IPLDNode`, by its CID; a float is known
-- by its bits and by whether it is finite; the keys of a dictionary are texts.
mutual
  pub data Value : Type 0 where
    null : Value
    bool : Bool → Value
    int : ℕ → Value
    negint : ℕ → Value
    float : (finite : Bool) (bits : ℕ) → Value
    text : String → Value
    bytes : Bytes → Value
    list : Items → Value
    dict : Fields → Value
    tag : ℕ → Value → Value
    node : String → Value

  pub data Items : Type 0 where
    nil : Items
    cons : Value → Items → Items

  pub data Fields : Type 0 where
    end : Fields
    field : String → Value → Fields → Fields

-- `_check_nan`: a list or a dictionary is searched, a CBOR tag is not.
unfoldable mutual
  pub check_nan : Value → Result (Unit {0})
  check_nan (float false b) = raise value_error
  check_nan (list xs) = check_items xs
  check_nan (dict fs) = check_fields fs
  check_nan _ = ok tt

  pub check_items : Items → Result (Unit {0})
  check_items nil = ok tt
  check_items (cons v xs) = do _ ← check_nan v; check_items xs

  pub check_fields : Fields → Result (Unit {0})
  check_fields end = ok tt
  check_fields (field k v fs) = do _ ← check_nan v; check_fields fs

-- `_convert_ipld_nodes`
unfoldable mutual
  pub convert : Value → Value
  convert (node c) = text c
  convert (dict fs) = dict (convert_fields fs)
  convert (list xs) = list (convert_items xs)
  convert v = v

  pub convert_items : Items → Items
  convert_items nil = nil
  convert_items (cons v xs) = cons (convert v) (convert_items xs)

  pub convert_fields : Fields → Fields
  convert_fields end = end
  convert_fields (field k v fs) = field k (convert v) (convert_fields fs)

-- What json.dumps with `_IPLDNodeEncoder` writes of a value: an `IPLDNode` is its text, and what JSON
-- has no form for is refused by `default`.
unfoldable mutual
  pub serialised : Value → Result Value
  serialised (node c) = ok (text c)
  serialised (bytes b) = raise type_error
  serialised (tag t v) = raise type_error
  serialised (list xs) = do ys ← serialised_items xs; ok (list ys)
  serialised (dict fs) = do gs ← serialised_fields fs; ok (dict gs)
  serialised v = ok v

  pub serialised_items : Items → Result Items
  serialised_items nil = ok nil
  serialised_items (cons v xs) = do w ← serialised v; ys ← serialised_items xs; ok (cons w ys)

  pub serialised_fields : Fields → Result Fields
  serialised_fields end = ok end
  serialised_fields (field k v fs) = do
    w ← serialised v
    gs ← serialised_fields fs
    ok (field k w gs)

-- What `IPLDNode`, JSON, CBOR and dag-pb contribute.
pub record Codecs : Type 0 where
  pub json_dumps : Value → Result Bytes
  pub json_loads : Bytes → Result Value
  pub cbor_dumps : Value → Result Bytes
  pub cbor_loads : Bytes → Result Value
  -- {"Links": links, "Data": unixfs}
  pub dag_pb_node : Bytes → Result Value
  pub utf8 : String → Bytes

abbrev pub encode_raw : Codecs → Value → Result Bytes
encode_raw lib (bytes b) = ok b
encode_raw lib (text s) = ok (lib.utf8 s)
encode_raw lib _ = raise type_error

unfoldable pub encode_node : Codecs → Value → String → Result Bytes
encode_node lib v codec = do
  _ ← (if mem codec ("dag-json" ∷ "dag-cbor" ∷ "cbor" ∷ []) then check_nan v else ok tt)
  if codec == "dag-json"
      then (do w ← serialised v; lib.json_dumps w)
      else if mem codec ("dag-cbor" ∷ "cbor" ∷ [])
      then lib.cbor_dumps (convert v)
      else if codec == "raw"
      then encode_raw lib v
      else raise value_error

unfoldable pub decode_node : Codecs → Bytes → String → Result Value
decode_node lib data' codec =
    if codec == "dag-json"
    then lib.json_loads data'
    else if mem codec ("dag-cbor" ∷ "cbor" ∷ [])
    then lib.cbor_loads data'
    else if codec == "raw"
    then ok (bytes data')
    else if codec == "dag-pb"
    then lib.dag_pb_node data'
    else raise value_error
