-- ===== src/Pin/Persist.antt =====
-- Save and load of pin.py: what a restart finds.
use py_ipfs_lite.Prelude.{
  ◌≡◌, refl, sym, ap, ◌∙◌, ◌⊎◌, inl, inr, String, true, false, Option, some, List, [], ◌∷◌, ◌++◌,
  map, arith, eq_iff, mem, mem-append, string_eq, append-nil, append_assoc, map-append,
}
use py_ipfs_lite.Errors.{Result}
use py_ipfs_lite.Dict.{Dict, Distinct, keys, put, put-Distinct, remove-Distinct}
use py_ipfs_lite.Pin.{
  PinStore, PinValue, kind, Files, Io, done, has_path, migrate_all, init, load_pins, add_pin,
  remove_pin,
}

-- What the JSON codec reads back from `json.dump` of texts.
abbrev pub as_kinds : Dict String String → Dict String PinValue
as_kinds = map (λ e. (e.0, kind e.1))

put_new :
    (k v : String) (d : Dict String String) → mem k (keys d) ≡ false → put k v d ≡ d ++ (k, v) ∷ []
unfolding put
put_new k v [] h = refl
put_new k v ((j, w) ∷ d) h = ground (arith, eq_iff j k, eq_iff k j, put_new k v d)

abbrev Apart : List String → Dict String String → Type 0
Apart ks [] = Unit
Apart ks ((k, v) ∷ d) = (mem k ks ≡ false) × Apart ks d

Apart-snoc :
    (ks : List String) (k : String) (d : Dict String String)
    → Apart ks d
    → mem k (keys d) ≡ false
    → Apart (ks ++ k ∷ []) d
Apart-snoc ks k [] a h = tt
Apart-snoc ks k ((j, w) ∷ d) a h = (
  ground (arith, mem-append j ks (k ∷ []), eq_iff j k, eq_iff k j),
  Apart-snoc ks k d a.1 (ground arith),
)

migrate_as_kinds :
    (acc d : Dict String String)
    → Distinct (keys d)
    → Apart (keys acc) d
    → migrate_all acc (as_kinds d) ≡ acc ++ d
unfolding migrate_all
migrate_as_kinds acc [] h a = sym (append-nil acc)
migrate_as_kinds acc ((k, v) ∷ d) h a =
    ap (λ a. migrate_all a (as_kinds d)) (put_new k v acc a.0)
    ∙ migrate_as_kinds (acc ++ (k, v) ∷ []) d h.1
        (rw map-append (Apart-snoc (keys acc) k d a.1 h.0))
    ∙ append_assoc acc ((k, v) ∷ []) d

Apart-nil : (d : Dict String String) → Apart [] d
Apart-nil [] = tt
Apart-nil (x ∷ d) = (refl, Apart-nil d)

-- A pin file and a store that hold the same pins.
module _ {Text Cid : Type 0} (dump : Dict String String → Text)
    (load : Text → Option (Dict String PinValue)) (parse_cid : String → Result Cid) where
  -- The file is what the last save wrote, and no key is stored twice.
  pub record IsSaved (s : PinStore) (fs : Files Text) : Type 0 where
    pub distinct : Distinct (keys s.pins)
    pub written : fs.pin_file ≡ some (dump s.pins)

  abbrev pub Reloads : PinStore → Files Text → Dict String String → Type 0
  Reloads s fs d = init dump load parse_cid s.path fs ≡ record s { pins = d }

  abbrev pub Roundtrip : Type 0
  Roundtrip = (d : Dict String String) → Distinct (keys d) → load (dump d) ≡ some (as_kinds d)

  -- Where a JSON text reads back as it was written, a store made from a file has the pins that
  -- were written to it.
  pub init-dump :
      Roundtrip
      → (s : PinStore) (fs : Files Text) (d : Dict String String) → has_path s.path ≡ true
      → Distinct (keys d)
      → fs.pin_file ≡ some (dump d)
      → Reloads s fs d
  unfolding init
  init-dump roundtrip s fs d p h w =
      rw (p, w, load_pins, roundtrip d h, migrate_as_kinds [] d h (Apart-nil d))

  -- After a successful call with a working file system the file holds the pins in memory.
  pub add_pin-IsSaved :
      (s : PinStore) (fs : Files Text) (c t : String)
      → has_path s.path ≡ true
      → IsSaved s fs
      → IsSaved
          (add_pin dump load parse_cid done s fs c t).1
          (add_pin dump load parse_cid done s fs c t).2
  unfolding add_pin
  add_pin-IsSaved s fs c t p h = record {
    distinct = ground (arith, h.distinct, put-Distinct c t s.pins h.distinct);
    written = ground arith;
  }

  pub remove_pin-IsSaved :
      (s : PinStore) (fs : Files Text) (c : String)
      → has_path s.path ≡ true
      → IsSaved s fs
      → IsSaved
          (remove_pin dump load parse_cid done s fs c).1
          (remove_pin dump load parse_cid done s fs c).2
  unfolding remove_pin
  remove_pin-IsSaved s fs c p h = record {
    distinct = ground (arith, h.distinct, remove-Distinct c s.pins h.distinct);
    written = ground arith;
  }

  add_pin-Distinct :
      (io : Io Text) (s : PinStore) (fs : Files Text) (c t : String)
      → Distinct (keys s.pins)
      → Distinct (keys (add_pin dump load parse_cid io s fs c t).1.pins)
  unfolding add_pin
  add_pin-Distinct io s fs c t h = ground (arith, put-Distinct c t s.pins h)

  add_pin_atomic :
      (io : Io Text) (s : PinStore) (fs : Files Text) (c t : String)
      → ((add_pin dump load parse_cid io s fs c t).2.pin_file ≡ fs.pin_file)
        ⊎ ((add_pin dump load parse_cid io s fs c t).2.pin_file
            ≡ some (dump (add_pin dump load parse_cid io s fs c t).1.pins))
  unfolding add_pin
  add_pin_atomic io s fs c t = ground arith

  -- Where a JSON text reads back as it was written, the store has a path, the file holds the pins in
  -- memory and no CID is pinned twice: whatever the file system does in a call of `add_pin`, a restart
  -- after it finds the pins from before the call or the pins after it.
  pub add_pin_crash_safe :
      Roundtrip
      → (io : Io Text) (s : PinStore) (fs : Files Text) (c t : String) → has_path s.path ≡ true
      → IsSaved s fs
      → Reloads s (add_pin dump load parse_cid io s fs c t).2 s.pins
        ⊎ Reloads s
            (add_pin dump load parse_cid io s fs c t).2
            (add_pin dump load parse_cid io s fs c t).1.pins
  add_pin_crash_safe roundtrip io s fs c t p h = elim (add_pin_atomic io s fs c t) [
    | inl old ↦ inl (init-dump roundtrip s _ s.pins p h.distinct (old ∙ h.written))
    | inr new ↦ inr (init-dump roundtrip s _ _ p (add_pin-Distinct io s fs c t h.distinct) new)
  ]
