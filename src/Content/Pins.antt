-- ===== src/Content/Pins.antt =====
-- `add_pin`, `remove_pin` and `list_pins` of the peer. `show` and `parse` are as for gc, and the walks
-- have the fuel that gc gives them.
use py_ipfs_lite.Prelude.{
  String, Bool, true, false, ◌||◌, List, [], ◌∷◌, Key, ◌==◌, string_eq, if◌then◌else◌,
}
use py_ipfs_lite.Errors.{Result, ok, raise, ◌>>=◌, value_error}
use py_ipfs_lite.Dict.{Dict, put, has}
use py_ipfs_lite.Dag.{DagLib}
use py_ipfs_lite.Pin.{only_type}
use py_ipfs_lite.Gc.{StoreCalls, ensure_started, walk_pin}

-- `_to_cid_str` has made a text of the CID; the pin store is under Pin.
abbrev pub pin_type_of : Bool → String
pin_type_of recursive = if recursive then "recursive" else "direct"

-- dict.update
unfoldable pub update : {V : Type 0} → Dict String V → Dict String V → Dict String V
update d [] = d
update d ((k, v) ∷ e) = update (put k v d) e

module _ {B Block : Type 0} ⦃e : Key B⦄ (lib : DagLib B Block) (show : B → Result String)
    (parse : String → Result B) (calls : StoreCalls B) where
  -- The loop over what the walk from a pin yields; an exception of `show` ends it.
  unfoldable pub note : B → Dict String String → List B → Dict String String → Dict String String
  note root stored [] indirect = indirect
  note root stored (c ∷ cs) indirect = elim (c == root) [
    | true ↦ note root stored cs indirect
    | false ↦ elim (show c) [
      | raise _ ↦ indirect
      | ok s ↦ note root stored cs (if has s stored then indirect else put s "indirect" indirect)
    ]
  ]

  abbrev pub note_pin :
      Dict B Block → Dict String String → String → String → Dict String String → Dict String String
  note_pin store stored cid_str pin_type indirect =
      if pin_type == "recursive"
      then (elim (parse cid_str) [
        | raise _ ↦ indirect
        | ok root ↦
            note root stored (walk_pin lib show parse calls store true root).yielded indirect
      ])
      else indirect

  unfoldable pub note_pins :
      Dict B Block
      → Dict String String
      → Dict String String
      → Dict String String
      → Dict String String
  unfolding note
  note_pins store stored [] indirect = indirect
  note_pins store stored ((s, t) ∷ pins) indirect =
      note_pins store stored pins (note_pin store stored s t indirect)

  unfoldable pub list_pins :
      Bool → String → Dict B Block → Dict String String → Result (Dict String String)
  unfolding note_pins update
  list_pins started type_filter store stored = do
    _ ← ensure_started started
    let indirect = note_pins store stored stored []
    if type_filter == "direct" || type_filter == "recursive"
        then ok (only_type type_filter stored)
        else if type_filter == "indirect"
        then ok indirect
        else if type_filter == "all"
        then ok (update stored indirect)
        else raise value_error
