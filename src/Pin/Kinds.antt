-- ===== src/Pin/Kinds.antt =====
-- The pins that pin.py keeps: what a call changes, and what it refuses.
use py_ipfs_lite.Prelude.{
  ◌≡◌, refl, ◌⊎◌, inl, inr, ◌↔◌, String, ◌==◌, ◌||◌, Bool, true, false, Option, none, some, [], ◌∷◌,
  if◌then◌else◌, arith, eq_iff, string_eq, is_some, Option-cases, Bool-cases,
}
use py_ipfs_lite.Errors.{Error, Result, ok, raise, os_error, pin_not_found, Result-cases}
use py_ipfs_lite.Dict.{Dict, Distinct, keys, get, put, get-put, get-remove, has-eq-mem}
use py_ipfs_lite.Pin.{
  PinStore, PinValue, Files, Cleanup, exists_raises, Io, done, mkdir_fails, open_fails, write_fails,
  replace_fails, add_pin, remove_pin, check_add, only_type, get_pins,
}

abbrev IsKind : String → Type 0
IsKind t = (t ≡ "direct") ⊎ (t ≡ "recursive")

abbrev cleanup_raises : Cleanup → Bool
cleanup_raises exists_raises = true
cleanup_raises _ = false

-- Where a call outside the `try` of `_save` raises.
abbrev pub save_raises : {Text : Type 0} → Io Text → Bool
save_raises mkdir_fails = true
save_raises (open_fails c) = cleanup_raises c
save_raises (write_fails t c) = cleanup_raises c
save_raises (replace_fails c) = cleanup_raises c
save_raises done = false

module _ {Text Cid : Type 0} (dump : Dict String String → Text)
    (load : Text → Option (Dict String PinValue)) (parse_cid : String → Result Cid) (s : PinStore)
    (c t : String) where
  -- Where `add_pin` goes past its tests: the kind is one of the two, and "direct" does not replace
  -- "recursive". Where it returns early, the pin is there already.
  check_add-ok :
      (b : Bool)
      → check_add dump load parse_cid s c t ≡ ok b
      → IsKind t
        × (get c s.pins ≡ some "recursive" → t ≡ "recursive")
        × (b ≡ false → get c s.pins ≡ some t)
  unfolding check_add
  check_add-ok b h = elim (Option-cases (get c s.pins)) [
    | inl e ↦ (ground (arith, eq_iff t "direct", eq_iff t "recursive"), ground arith, ground arith)
    | inr (x, e) ↦ (
      ground (arith, eq_iff t "direct", eq_iff t "recursive"),
      ground (arith, eq_iff x t, eq_iff x "recursive", eq_iff t "direct", eq_iff t "recursive"),
      ground (arith, eq_iff x t),
    )
  ]

  module _ (io : Io Text) (fs : Files Text) where
    -- A call of `add_pin` that returns has pinned the CID with the kind that was asked for, and
    -- left every other pin as it was. The kind is "direct" or "recursive", and a recursive pin
    -- has not become a direct one.
    pub add_pin-ok :
        (add_pin dump load parse_cid io s fs c t).0 ≡ ok tt
        → ((j : String)
            → get j (add_pin dump load parse_cid io s fs c t).1.pins
              ≡ (if c == j then some t else get j s.pins))
          × IsKind t
          × (get c s.pins ≡ some "recursive" → t ≡ "recursive")
    unfolding add_pin
    add_pin-ok h = elim (Result-cases (check_add dump load parse_cid s c t)) [
      | inl (true, e) ↦ (
        λ j. ground (arith, e, get-put c j t s.pins),
        (check_add-ok true e).0,
        (check_add-ok true e).1,
      )
      | inl (false, e) ↦ (
        λ j. ground (arith, e, check_add-ok false e, eq_iff c j),
        (check_add-ok false e).0,
        (check_add-ok false e).1,
      )
      | inr (x, e) ↦ absurd (ground (arith, e))
    ]

    -- A call of `add_pin` that raises has changed neither the pins nor the files, or else it raises the
    -- `OSError` of `mkdir`, or of `exists` after a failure: then the pin is stored in memory and the
    -- pin file is as before.
    pub add_pin-raise :
        (e : Error)
        → (add_pin dump load parse_cid io s fs c t).0 ≡ raise e
        → (((add_pin dump load parse_cid io s fs c t).1 ≡ s)
            × ((add_pin dump load parse_cid io s fs c t).2 ≡ fs))
          ⊎ ((e ≡ os_error)
              × (save_raises io ≡ true)
              × ((add_pin dump load parse_cid io s fs c t).1 ≡ record s { pins = put c t s.pins })
              × ((add_pin dump load parse_cid io s fs c t).2.pin_file ≡ fs.pin_file))
    unfolding add_pin
    add_pin-raise e h = ground arith

    -- `remove_pin` raises `PinNotFoundError` exactly where the CID is not pinned, and then changes
    -- nothing; otherwise it removes that pin from memory and no other.
    pub remove_pin_lem :
        ((is_some (get c s.pins) ≡ false)
          ↔ ((remove_pin dump load parse_cid io s fs c).0 ≡ raise pin_not_found))
        × ((is_some (get c s.pins) ≡ false) → (remove_pin dump load parse_cid io s fs c).1 ≡ s)
        × ((is_some (get c s.pins) ≡ true)
            → (j : String)
            → get j (remove_pin dump load parse_cid io s fs c).1.pins
              ≡ (if c == j then none else get j s.pins))
    unfolding remove_pin
    remove_pin_lem = (
      (
        λ h. ground arith,
        λ h. elim (Bool-cases (is_some (get c s.pins))) [ inl y ↦ ground (arith, y) | inr n ↦ n ],
      ),
      λ h. ground arith,
      λ h j. ground (arith, get-remove c j s.pins),
    )

abbrev pub filtered : String → Option String → Option String
filtered t none = none
filtered t (some v) = if v == t then some v else none

pub get-only_type :
    (t j : String) (d : Dict String String)
    → Distinct (keys d)
    → get j (only_type t d) ≡ filtered t (get j d)
unfolding get only_type
get-only_type t j [] h = refl
get-only_type t j ((k, v) ∷ d) h =
    ground (arith, get-only_type t j d h.1, has-eq-mem k d, eq_iff k j)

-- With distinct keys, a pin is listed under a filter "direct" or "recursive" exactly where it is of
-- that kind, with the filter "all" every pin is listed, and with another filter none is.
pub get_pins_lem :
    (s : PinStore) (t j : String)
    → Distinct (keys s.pins)
    → get j (get_pins s t) ≡ (
        if t == "all"
        then get j s.pins
        else if t == "direct" || t == "recursive"
        then filtered t (get j s.pins)
        else none)
unfolding get_pins get
get_pins_lem s t j h = ground (arith, get-only_type t j s.pins h)
