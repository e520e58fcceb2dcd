-- ===== src/Pin.antt =====
-- py_ipfs_lite/pin.py: the pins of a peer, kept in memory and in a JSON file.
-- The JSON codec and the CID parser are parameters. An `Io` says which call of the file system in
-- `_save` fails, if one does, and how the clean-up goes.
pub mod Persist
pub mod Kinds
mod Tests
use py_ipfs_lite.Prelude.{
  String, ◌==◌, ◌&&◌, ◌||◌, Bool, true, false, not, Option, none, some, List, [], ◌∷◌, map,
  if◌then◌else◌, string_eq,
}
use py_ipfs_lite.Errors.{Error, Result, ok, raise, pin_not_found, pin_error, value_error, os_error}
use py_ipfs_lite.Dict.{Dict, get, put, remove, has}

pub record PinStore : Type 0 where
  pub path : Option String
  -- cid_str -> "direct" | "recursive"
  pub pins : Dict String String

-- What a value of the file's "pins" is: old files hold booleans.
pub data PinValue : Type 0 where
  flag : Bool → PinValue
  kind : String → PinValue

-- The pin file, and the temporary file beside it; `none` where there is no such file.
pub record Files (Text : Type 0) : Type 0 where
  pub pin_file : Option Text
  pub tmp_file : Option Text

-- What becomes of the temporary file after a failure: it is removed, or that fails, or `exists`
-- raises, which stands outside any `try`.
pub data Cleanup : Type 0 where
  unlinked left exists_raises : Cleanup

-- The file system's part in one `_save`. What a failed write leaves in the temporary file is
-- arbitrary.
pub data Io (Text : Type 0) : Type 0 where
  done : Io Text
  mkdir_fails : Io Text
  open_fails : (cleanup : Cleanup) → Io Text
  write_fails : (partial : Text) (cleanup : Cleanup) → Io Text
  replace_fails : (cleanup : Cleanup) → Io Text

-- `not self.path`
abbrev pub has_path : Option String → Bool
has_path none = false
has_path (some p) = not (p == "")

abbrev pub migrate : PinValue → String
migrate (flag v) = if v then "recursive" else "direct"
migrate (kind v) = v

abbrev clean_up : {Text : Type 0} → Cleanup → Files Text → Result Unit × Files Text
clean_up unlinked fs = (ok tt, record fs { tmp_file = none })
clean_up left fs = (ok tt, fs)
clean_up exists_raises fs = (raise os_error, fs)

-- The loop of `_load` over the entries of the file's "pins".
unfoldable pub migrate_all : Dict String String → List (String × PinValue) → Dict String String
migrate_all d [] = d
migrate_all d ((k, v) ∷ r) = migrate_all (put k (migrate v) d) r

-- `dump d` is the JSON text of {"pins": d}. `load` gives the "pins" of a JSON text, and `none` where
-- decoding or reading it raises. `parse_cid` raises on what is no CID.
module _ {Text Cid : Type 0} (dump : Dict String String → Text)
    (load : Text → Option (Dict String PinValue)) (parse_cid : String → Result Cid) where
  load_pins : Option Text → Dict String String
  load_pins none = []
  load_pins (some t) = elim (load t) [ none ↦ [] | some raw ↦ migrate_all [] raw ]

  -- `__init__` and `_load`
  unfoldable pub init : Option String → Files Text → PinStore
  unfolding load_pins
  init path fs = record { path = path; pins = if has_path path then load_pins fs.pin_file else [] }

  -- `_save`; `mkdir`, and `exists` after a failure, stand outside its `try`
  unfoldable pub save : Io Text → PinStore → Files Text → Result Unit × Files Text
  save io s fs = if has_path s.path then attempt io else (ok tt, fs)
    where
      attempt : Io Text → Result Unit × Files Text
      attempt done = (ok tt, record { pin_file = some (dump s.pins); tmp_file = none })
      attempt mkdir_fails = (raise os_error, fs)
      attempt (open_fails c) = clean_up c fs
      attempt (write_fails t c) = clean_up c (record fs { tmp_file = some t })
      attempt (replace_fails c) = clean_up c (record fs { tmp_file = some (dump s.pins) })

  store_and_save : Io Text → PinStore → Files Text → Result Unit × PinStore × Files Text
  store_and_save io s fs = let (r, fs') = save io s fs in (r, s, fs')

  -- The tests of `add_pin` before the pins change: `ok true` goes on, `ok false` returns.
  unfoldable pub check_add : PinStore → String → String → Result Bool
  check_add s cid_str pin_type = elim (parse_cid cid_str) [
    | raise e ↦ raise e
    | ok _ ↦
        if not (pin_type == "direct" || pin_type == "recursive")
        then raise value_error
        else elim (get cid_str s.pins) [
          | none ↦ ok true
          | some existing ↦
              if existing == pin_type
              then ok false
              else if existing == "recursive" && pin_type == "direct"
              then raise pin_error
              else ok true
        ]
  ]

  unfoldable pub add_pin :
      Io Text → PinStore → Files Text → String → String → Result Unit × PinStore × Files Text
  unfolding check_add store_and_save save
  add_pin io s fs cid_str pin_type = elim (check_add s cid_str pin_type) [
    | raise e ↦ (raise e, s, fs)
    | ok false ↦ (ok tt, s, fs)
    | ok true ↦ store_and_save io (record s { pins = put cid_str pin_type s.pins }) fs
  ]

  unfoldable pub remove_pin :
      Io Text → PinStore → Files Text → String → Result Unit × PinStore × Files Text
  unfolding store_and_save save
  remove_pin io s fs cid_str =
      if has cid_str s.pins
      then store_and_save io (record s { pins = remove cid_str s.pins }) fs
      else (raise pin_not_found, s, fs)

abbrev pub is_pinned : PinStore → String → Bool
is_pinned s cid_str = has cid_str s.pins

abbrev pub get_pin_type : PinStore → String → Option String
get_pin_type s cid_str = get cid_str s.pins

-- The comprehension {k: v for k, v in items if v == type_filter}.
unfoldable pub only_type : String → Dict String String → Dict String String
only_type t [] = []
only_type t ((k, v) ∷ d) = let rest = only_type t d in if v == t then (k, v) ∷ rest else rest

unfoldable pub get_pins : PinStore → String → Dict String String
unfolding only_type
get_pins s type_filter =
    if type_filter == "all"
    then s.pins
    else if type_filter == "direct" || type_filter == "recursive"
    then only_type type_filter s.pins
    else []
