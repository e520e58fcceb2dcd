-- ===== src/Content/Kept.antt =====
-- The pins that `list_pins` lists, and gc.
use py_ipfs_lite.Prelude.{
  String, Bool, true, false, some, List, [], ◌∷◌, ◌≡◌, refl, sym, ap, ◌∙◌, subst, Key, ◌==◌,
  string_eq, In, mem→In, In→mem, ◌⊎◌, inl, inr, arith, Bool-cases, ==_iff,
}
use py_ipfs_lite.Errors.{Result, ok, Result-cases, ok-injective}
use py_ipfs_lite.Dict.{Dict, keys, get, put, has, get-put, has-eq-mem, mem-keys-put}
use py_ipfs_lite.Dag.{DagLib}
use py_ipfs_lite.Gc.{StoreCalls, walk_pin, gc}
use py_ipfs_lite.Gc.Marked.{In-mark_pins}
use py_ipfs_lite.Gc.Swept.{gc_keeps_marked}
use py_ipfs_lite.Content.Pins.{update, note, note_pin, note_pins, list_pins}

-- A key that the second dictionary lacks.
update_other :
    (x : String) (d e : Dict String String) → has x e ≡ false → get x (update d e) ≡ get x d
unfolding update get
update_other x d [] h = refl
update_other x d ((k, v) ∷ e) h =
    update_other x (put k v d) e (ground (arith, h, ==_iff k x))
    ∙ ground (arith, get-put k x v d, h)

module _ {B Block : Type 0} ⦃e : Key B⦄ (lib : DagLib B Block) (show : B → Result String)
    (parse : String → Result B) (calls : StoreCalls B) where
  -- An indirect pin: a CID that the walk from a recursive pin yields, other than the root, and that is
  -- not pinned itself.
  pub record IsIndirect (store : Dict B Block) (stored pins : Dict String String) (s : String)
      : Type 0 where
    pub cid_str : String
    pub root : B
    pub block : B
    pub pinned : In (cid_str, "recursive") pins
    pub parses : parse cid_str ≡ ok root
    pub yields : In block (walk_pin lib show parse calls store true root).yielded
    pub shows : show block ≡ ok s
    pub other : (block == root) ≡ false
    pub unpinned : has s stored ≡ false

  IsIndirect-cons :
      {store : Dict B Block} {stored pins : Dict String String} {s : String} (x : String × String)
      → IsIndirect store stored pins s
      → IsIndirect store stored (x ∷ pins) s
  IsIndirect-cons x m = record {
    cid_str = m.cid_str;
    root = m.root;
    block = m.block;
    pinned = inr m.pinned;
    parses = m.parses;
    yields = m.yields;
    shows = m.shows;
    other = m.other;
    unpinned = m.unpinned;
  }

  In-put :
      (s k v : String) (d : Dict String String) → In s (keys (put k v d)) → (s ≡ k) ⊎ In s (keys d)
  In-put s k v d i = elim (Bool-cases (s == k)) [
    | inl y ↦ inl ((==_iff s k).0 y)
    | inr n ↦
        inr (
          mem→In s (keys d)
            (ground (arith, mem-keys-put k s v d, In→mem s (keys (put k v d)) i, n)))
  ]

  note-In :
      (root : B) (stored : Dict String String) (cs : List B) (d : Dict String String) (s : String)
      → In s (keys (note lib show parse calls root stored cs d))
      → In s (keys d)
        ⊎ ((c : B) × In c cs × (show c ≡ ok s) × ((c == root) ≡ false) × (has s stored ≡ false))
  unfolding note
  note-In root stored [] d s i = inl i
  note-In root stored (c ∷ cs) d s i = elim (Bool-cases (c == root)) [
    | inl y ↦ elim (note-In root stored cs d s (rw (y, note) at i)) [
      | inl j ↦ inl j
      | inr (x, m, p', n', u) ↦ inr (x, inr m, p', n', u)
    ]
    | inr n ↦ elim (Result-cases (show c)) [
      | inr (x, p) ↦ inl (rw (n, p, note) at i)
      | inl (t, p) ↦ elim (Bool-cases (has t stored)) [
        | inl h ↦ elim (note-In root stored cs d s (rw (n, p, h, note) at i)) [
          | inl j ↦ inl j
          | inr (x, m, p', n', u) ↦ inr (x, inr m, p', n', u)
        ]
        | inr h ↦ elim (note-In root stored cs (put t "indirect" d) s (rw (n, p, h, note) at i)) [
          | inl j ↦ elim (In-put s t "indirect" d j) [
            | inl q ↦
                inr (c, inl refl, p ∙ ap ok (sym q), n, subst (λ z. has z stored ≡ false) (sym q) h)
            | inr l ↦ inl l
          ]
          | inr (x, m, p', n', u) ↦ inr (x, inr m, p', n', u)
        ]
      ]
    ]
  ]

  note_pins-IsIndirect :
      (store : Dict B Block) (stored pins d : Dict String String) (s : String)
      → In s (keys (note_pins lib show parse calls store stored pins d))
      → In s (keys d) ⊎ IsIndirect store stored pins s
  unfolding note_pins
  note_pins-IsIndirect store stored [] d s i = inl i
  note_pins-IsIndirect store stored ((k, t) ∷ pins) d s i =
      elim (note_pins-IsIndirect store stored pins
        (note_pin lib show parse calls store stored k t d) s i) [
          | inr m ↦ inr (IsIndirect-cons (k, t) m)
          | inl j ↦ elim (Bool-cases (t == "recursive")) [
            | inr n ↦ inl (rw n at j)
            | inl y ↦ elim (Result-cases (parse k)) [
              | inr (x, p) ↦ inl (rw (y, p, note_pin) at j)
              | inl (root, p) ↦
                  elim (note-In root stored (walk_pin lib show parse calls store true root).yielded
                    d s (rw (y, p, note_pin) at j)) [
                      | inl l ↦ inl l
                      | inr (c, m, q, n, u) ↦ inr (record {
                        cid_str = k;
                        root = root;
                        block = c;
                        pinned = inl (ap (λ z. (k, z)) (sym ((==_iff t "recursive").0 y)));
                        parses = p;
                        yields = m;
                        shows = q;
                        other = n;
                        unpinned = u;
                      })
                    ]
            ]
          ]
        ]

  -- What is listed as indirect can be reached from a recursive pin, and is not pinned itself.
  pub list_pins-IsIndirect :
      (store : Dict B Block) (stored ps : Dict String String) (s : String)
      → list_pins lib show parse calls true "indirect" store stored ≡ ok ps
      → In s (keys ps)
      → IsIndirect store stored stored s
  unfolding list_pins
  list_pins-IsIndirect store stored ps s h i =
      elim (note_pins-IsIndirect store stored stored [] s
        (subst (λ z. In s (keys z)) (sym (ok-injective h)) i)) [ inl j ↦ absurd j | inr m ↦ m ]

  -- A pin is listed with its own type, whatever other pins reach it.
  pub list_pins-stored :
      (store : Dict B Block) (stored ps : Dict String String) (s t : String)
      → list_pins lib show parse calls true "all" store stored ≡ ok ps
      → get s stored ≡ some t
      → get s ps ≡ some t
  unfolding list_pins
  list_pins-stored store stored ps s t h g =
      ap (get s) (sym (ok-injective h))
      ∙ (update_other s stored (note_pins lib show parse calls store stored stored []) absent ∙ g)
    where
      absent : has s (note_pins lib show parse calls store stored stored []) ≡ false
      absent = elim (Bool-cases (has s (note_pins lib show parse calls store stored stored []))) [
        | inr n ↦ n
        | inl y ↦
            elim (note_pins-IsIndirect store stored stored [] s (
              mem→In s (keys (note_pins lib show parse calls store stored stored []))
                (sym (has-eq-mem s (note_pins lib show parse calls store stored stored [])) ∙ y))) [
                  | inl j ↦ absurd j
                  | inr m ↦ absurd (ground (arith, m.unpinned, g))
                ]
      ]

  -- Where every CID has a display text that parses back to it, gc keeps the block of every CID that is
  -- listed as indirect.
  pub list_pins-gc :
      ((b : B) → (s : String) × (show b ≡ ok s))
      → ((b : B) (s : String) → show b ≡ ok s → parse s ≡ ok b)
      → (started : Bool) (store : Dict B Block) (stored ps : Dict String String) (c : B)
        (s : String)
      → list_pins lib show parse calls true "indirect" store stored ≡ ok ps
      → In s (keys ps)
      → show c ≡ ok s
      → get c (gc lib show parse calls started store stored).1 ≡ get c store
  list_pins-gc shows roundtrip started store stored ps c s h i q =
      let m = list_pins-IsIndirect store stored ps s h i in
      gc_keeps_marked lib show parse calls shows roundtrip started store stored c s q (
        In-mark_pins lib show parse calls shows store stored [] m.cid_str "recursive" m.root m.block
          s m.pinned m.parses m.yields m.shows)
