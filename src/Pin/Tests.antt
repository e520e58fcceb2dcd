-- ===== src/Pin/Tests.antt =====
-- Runs of the pin store, with a codec that keeps the dictionary and a parser that accepts all.
use py_ipfs_lite.Prelude.{
  ◌≡◌, refl, ◌⊎◌, String, ◌==◌, true, false, Option, none, some, [], ◌∷◌, if◌then◌else◌, string_eq,
}
use py_ipfs_lite.Errors.{Result, ok, raise, os_error, pin_error}
use py_ipfs_lite.Dict.{Dict, get, put}
use py_ipfs_lite.Pin.{
  PinStore, PinValue, flag, kind, Files, left, exists_raises, done, mkdir_fails, write_fails,
  add_pin, remove_pin, migrate_all,
}
use py_ipfs_lite.Pin.Persist.{
  as_kinds, IsSaved, Reloads, add_pin-IsSaved, remove_pin-IsSaved, add_pin_crash_safe,
}
use py_ipfs_lite.Pin.Kinds.{save_raises, add_pin-ok, add_pin-raise}

abbrev Text : Type 0
Text = Dict String String

abbrev dump : Dict String String → Text
dump d = d

abbrev load : Text → Option (Dict String PinValue)
load t = some (as_kinds t)

abbrev parse_cid : String → Result String
parse_cid c = ok c

abbrev one_pin : PinStore
one_pin = record { path = some "pins.json"; pins = ("a", "recursive") ∷ [] }

abbrev saved : Files Text
saved = record { pin_file = some one_pin.pins; tmp_file = none }

one_pin-IsSaved : IsSaved dump load parse_cid one_pin saved
one_pin-IsSaved = record { distinct = (refl, tt); written = refl }

migrates :
    migrate_all [] (("a", flag true) ∷ ("b", flag false) ∷ ("c", kind "direct") ∷ [])
    ≡ ("a", "recursive") ∷ ("b", "direct") ∷ ("c", "direct") ∷ []
unfolding migrate_all put
migrates = refl

no_downgrade :
    add_pin dump load parse_cid done one_pin saved "a" "direct" ≡ (raise pin_error, one_pin, saved)
unfolding add_pin get
no_downgrade = refl

-- `mkdir` raises after the pin is stored in memory.
mkdir_error_keeps_pin :
    (add_pin dump load parse_cid mkdir_fails one_pin saved "b" "direct").1.pins
    ≡ ("a", "recursive") ∷ ("b", "direct") ∷ []
unfolding add_pin get put
mkdir_error_keeps_pin = refl

add_pin-ok_example :
    ((j : String)
      → get j (add_pin dump load parse_cid done one_pin saved "b" "direct").1.pins
        ≡ (if "b" == j then some "direct" else get j one_pin.pins))
    × (◌≡◌ {A = String} "direct" "direct" ⊎ ◌≡◌ {A = String} "direct" "recursive")
    × (get "b" one_pin.pins ≡ some "recursive" → ◌≡◌ {A = String} "direct" "recursive")
unfolding add_pin get
add_pin-ok_example = add_pin-ok dump load parse_cid one_pin "b" "direct" done saved refl

-- The pin is stored and `exists` raises.
add_pin-raise_example :
    (((add_pin dump load parse_cid (write_fails [] exists_raises) one_pin saved "b" "direct").1
        ≡ one_pin)
      × ((add_pin dump load parse_cid (write_fails [] exists_raises) one_pin saved "b" "direct").2
          ≡ saved))
    ⊎ ((os_error ≡ os_error)
        × (save_raises {Text = Text} (write_fails [] exists_raises) ≡ true)
        × ((add_pin dump load parse_cid (write_fails [] exists_raises) one_pin saved "b" "direct").1
            ≡ record one_pin { pins = put "b" "direct" one_pin.pins })
        × ((add_pin dump load parse_cid
              (write_fails [] exists_raises)
              one_pin
              saved
              "b"
              "direct").2.pin_file
            ≡ saved.pin_file))
unfolding add_pin get
add_pin-raise_example =
    add_pin-raise dump load parse_cid one_pin "b" "direct" (write_fails [] exists_raises) saved
      os_error refl

add_then_saved :
    IsSaved dump load parse_cid
      (add_pin dump load parse_cid done one_pin saved "b" "direct").1
      (add_pin dump load parse_cid done one_pin saved "b" "direct").2
add_then_saved = add_pin-IsSaved dump load parse_cid one_pin saved "b" "direct" refl one_pin-IsSaved

remove_then_saved :
    IsSaved dump load parse_cid
      (remove_pin dump load parse_cid done one_pin saved "a").1
      (remove_pin dump load parse_cid done one_pin saved "a").2
remove_then_saved = remove_pin-IsSaved dump load parse_cid one_pin saved "a" refl one_pin-IsSaved

add_pin_crash_safe_example :
    Reloads dump load parse_cid one_pin
      (add_pin dump load parse_cid (write_fails [] left) one_pin saved "b" "direct").2
      one_pin.pins
    ⊎ Reloads dump load parse_cid one_pin
        (add_pin dump load parse_cid (write_fails [] left) one_pin saved "b" "direct").2
        (add_pin dump load parse_cid (write_fails [] left) one_pin saved "b" "direct").1.pins
add_pin_crash_safe_example =
    add_pin_crash_safe dump load parse_cid (λ d h. refl) (write_fails [] left) one_pin saved "b"
      "direct" refl one_pin-IsSaved
