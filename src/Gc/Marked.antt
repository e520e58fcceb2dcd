-- ===== src/Gc/Marked.antt =====
-- What `gc` marks as reachable: the display texts of what the walks of the pins yield.
use py_ipfs_lite.Prelude.{
  String, false, List, [], ◌∷◌, Key, ◌==◌, mem, In, mem→In, Bool-cases, string_eq, ◌≡◌, refl, sym,
  ◌∙◌, subst, ◌⊎◌, inl, inr, arith, ap,
}
use py_ipfs_lite.Errors.{Result, ok, ◌>>=◌, Result-cases, >>=-ok, ok-injective}
use py_ipfs_lite.Dict.{Dict}
use py_ipfs_lite.Dag.{DagLib}
use py_ipfs_lite.Gc.{StoreCalls, add, to_set, minus, all_keys, mark, mark_pin, mark_pins, walk_pin}

module _ {A : Type 0} ⦃e : Key A⦄ where
  pub In-add : (a x : A) (xs : List A) → In a (add x xs) → (a ≡ x) ⊎ In a xs
  In-add a x xs i = elim (Bool-cases (mem x xs)) [ inl y ↦ inr (rw y at i) | inr n ↦ rw n at i ]

  pub add-In : (a x : A) (xs : List A) → (a ≡ x) ⊎ In a xs → In a (add x xs)
  add-In a x xs i = elim (Bool-cases (mem x xs)) [
    | inl y ↦ rw y (elim i [ inl p ↦ subst (λ b. In b xs) (sym p) (mem→In x xs y) | inr j ↦ j ])
    | inr n ↦ rw n i
  ]

  pub In-to_set : (a : A) (xs : List A) → In a (to_set xs) → In a xs
  In-to_set a [] i = i
  In-to_set a (x ∷ xs) i = elim (In-add a x (to_set xs) i) [
    | inl p ↦ inl p
    | inr j ↦ inr (In-to_set a xs j)
  ]

  pub to_set-In : (a : A) (xs : List A) → In a xs → In a (to_set xs)
  to_set-In a [] i = i
  to_set-In a (x ∷ xs) (inl p) = add-In a x (to_set xs) (inl p)
  to_set-In a (x ∷ xs) (inr i) = add-In a x (to_set xs) (inr (to_set-In a xs i))

  pub In-minus : (a : A) (xs ys : List A) → In a (minus xs ys) → In a xs × (mem a ys ≡ false)
  In-minus a [] ys i = absurd i
  In-minus a (x ∷ xs) ys i = elim (Bool-cases (mem x ys)) [
    | inl y ↦ let r = In-minus a xs ys (rw y at i) in (inr r.0, r.1)
    | inr n ↦ elim (rw n at i) [
      | inl p ↦ (inl p, subst (λ b. mem b ys ≡ false) (sym p) n)
      | inr j ↦ let r = In-minus a xs ys j in (inr r.0, r.1)
    ]
  ]

  pub minus-In : (a : A) (xs ys : List A) → In a xs → mem a ys ≡ false → In a (minus xs ys)
  minus-In a [] ys i h = absurd i
  minus-In a (x ∷ xs) ys i h = elim (Bool-cases (mem x ys)) [
    | inl y ↦ rw y (elim i [
      | inl p ↦ absurd (ground (arith, ap (λ b. mem b ys) p))
      | inr j ↦ minus-In a xs ys j h
    ])
    | inr n ↦ rw n (elim i [ inl p ↦ inl p | inr j ↦ inr (minus-In a xs ys j h) ])
  ]

module _ {B Block : Type 0} ⦃e : Key B⦄ (lib : DagLib B Block) (show : B → Result String)
    (parse : String → Result B) (calls : StoreCalls B) where
  all_keys-cons :
      (x : B) (bs : List B) (ss : List String)
      → all_keys lib show parse calls (x ∷ bs) ≡ ok ss
      → (t : String) × (ts : List String) × (show x ≡ ok t)
        × (all_keys lib show parse calls bs ≡ ok ts)
        × (t ∷ ts ≡ ss)
  unfolding all_keys
  all_keys-cons x bs ss h =
      let (t, p, h') =
        >>=-ok (show x) (λ t. do ts ← all_keys lib show parse calls bs; ok (t ∷ ts)) h in
      let (ts, q, h'') = >>=-ok (all_keys lib show parse calls bs) (λ ts. ok (t ∷ ts)) h' in
      (t, ts, p, q, ok-injective h'')

  pub all_keys-In :
      (bs : List B) (ss : List String)
      → all_keys lib show parse calls bs ≡ ok ss
      → (b : B) (s : String) → In b bs
      → show b ≡ ok s
      → In s ss
  all_keys-In [] ss h b s i p = absurd i
  all_keys-In (x ∷ bs) ss h b s i p =
      let (t, ts, p', q, k) = all_keys-cons x bs ss h in
      subst (In s) k (elim i [
        | inl j ↦ inl (ok-injective (sym p ∙ ap show j ∙ p'))
        | inr j ↦ inr (all_keys-In bs ts q b s j p)
      ])

  pub In-all_keys :
      (bs : List B) (ss : List String)
      → all_keys lib show parse calls bs ≡ ok ss
      → (s : String) → In s ss
      → (b : B) × In b bs × (show b ≡ ok s)
  unfolding all_keys
  In-all_keys [] [] h s i = absurd i
  In-all_keys [] (t ∷ ss) h s i = absurd (ground arith)
  In-all_keys (x ∷ bs) ss h s i =
      let (t, ts, p, q, k) = all_keys-cons x bs ss h in
      elim (subst (In s) (sym k) i) [
        | inl j ↦ (x, inl refl, p ∙ ap ok (sym j))
        | inr j ↦ let (b, m, r) = In-all_keys bs ts q s j in (b, inr m, r)
      ]

  -- What is marked stays marked.
  In-mark_old :
      (cs : List B) (r : List String) (s : String) → In s r → In s (mark lib show parse calls cs r)
  unfolding mark
  In-mark_old [] r s i = i
  In-mark_old (c ∷ cs) r s i = elim (Result-cases (show c)) [
    | inl (t, p) ↦ rw (p, mark) (In-mark_old cs (add t r) s (add-In s t r (inr i)))
    | inr (x, p) ↦ rw (p, mark) i
  ]

  In-mark_pins_old :
      (store : Dict B Block) (pins : Dict String String) (r : List String) (s : String)
      → In s r
      → In s (mark_pins lib show parse calls store pins r)
  unfolding mark_pins
  In-mark_pins_old store [] r s i = i
  In-mark_pins_old store ((k, t) ∷ pins) r s i =
      In-mark_pins_old store pins (mark_pin lib show parse calls store k t r) s
        (elim (Result-cases (parse k)) [
          | inl (root, p) ↦ rw (p, mark_pin) (In-mark_old _ r s i)
          | inr (x, p) ↦ rw (p, mark_pin) i
        ])

  -- What a pin's walk yields is marked.
  In-mark :
      ((b : B) → (s : String) × (show b ≡ ok s))
      → (cs : List B) (r : List String) (c : B) (s : String) → In c cs
      → show c ≡ ok s
      → In s (mark lib show parse calls cs r)
  unfolding mark
  In-mark shows [] r c s i p = absurd i
  In-mark shows (x ∷ cs) r c s i p =
      let (t, q) = shows x in
      rw (q, mark)
        (elim i [
          | inl j ↦
              In-mark_old cs (add t r) s (add-In s t r (inl (ok-injective (sym p ∙ ap show j ∙ q))))
          | inr j ↦ In-mark shows cs (add t r) c s j p
        ])

  pub In-mark_pins :
      ((b : B) → (s : String) × (show b ≡ ok s))
      → (store : Dict B Block) (pins : Dict String String) (r : List String)
      → (k t : String) (root c : B) (s : String) → In (k, t) pins
      → parse k ≡ ok root
      → In c (walk_pin lib show parse calls store (t == "recursive") root).yielded
      → show c ≡ ok s
      → In s (mark_pins lib show parse calls store pins r)
  unfolding mark_pins
  In-mark_pins shows store [] r k t root c s m p i q = absurd m
  In-mark_pins shows store ((k', t') ∷ pins) r k t root c s (inl m) p i q =
      In-mark_pins_old store pins (mark_pin lib show parse calls store k' t' r) s (
        subst (λ (e : String × String). In s (mark_pin lib show parse calls store e.0 e.1 r)) m
          (rw (p, mark_pin) (In-mark shows _ r c s i q)))
  In-mark_pins shows store ((k', t') ∷ pins) r k t root c s (inr m) p i q =
      In-mark_pins shows store pins (mark_pin lib show parse calls store k' t' r) k t root c s m p i
        q

  -- And nothing else is.
  mark-In :
      (cs : List B) (r : List String) (s : String)
      → In s (mark lib show parse calls cs r)
      → In s r ⊎ ((c : B) × In c cs × (show c ≡ ok s))
  unfolding mark
  mark-In [] r s i = inl i
  mark-In (c ∷ cs) r s i = elim (Result-cases (show c)) [
    | inl (t, p) ↦ elim (mark-In cs (add t r) s (rw (p, mark) at i)) [
      | inl j ↦ elim (In-add s t r j) [
        | inl q ↦ inr (c, inl refl, p ∙ ap ok (sym q))
        | inr l ↦ inl l
      ]
      | inr (d, m, q) ↦ inr (d, inr m, q)
    ]
    | inr (x, p) ↦ inl (rw (p, mark) at i)
  ]

  -- A mark that comes from a pin.
  pub record MarkOf (store : Dict B Block) (pins : Dict String String) (s : String) : Type 0 where
    pub cid_str : String
    pub pin_type : String
    pub root : B
    pub block : B
    pub pinned : In (cid_str, pin_type) pins
    pub parses : parse cid_str ≡ ok root
    pub yields :
        In block (walk_pin lib show parse calls store (pin_type == "recursive") root).yielded
    pub shows : show block ≡ ok s

  abbrev MarkOf-cons :
      {store : Dict B Block} {pins : Dict String String} {s : String} (x : String × String)
      → MarkOf store pins s
      → MarkOf store (x ∷ pins) s
  MarkOf-cons x m = record {
    cid_str = m.cid_str;
    pin_type = m.pin_type;
    root = m.root;
    block = m.block;
    pinned = inr m.pinned;
    parses = m.parses;
    yields = m.yields;
    shows = m.shows;
  }

  pub mark_pins-In :
      (store : Dict B Block) (pins : Dict String String) (r : List String) (s : String)
      → In s (mark_pins lib show parse calls store pins r)
      → In s r ⊎ MarkOf store pins s
  unfolding mark_pins
  mark_pins-In store [] r s i = inl i
  mark_pins-In store ((k, t) ∷ pins) r s i =
      elim (mark_pins-In store pins (mark_pin lib show parse calls store k t r) s i) [
        | inr m ↦ inr (MarkOf-cons (k, t) m)
        | inl j ↦ elim (Result-cases (parse k)) [
          | inr (x, p) ↦ inl (rw (p, mark_pin) at j)
          | inl (root, p) ↦ elim (mark-In _ r s (rw (p, mark_pin) at j)) [
            | inl l ↦ inl l
            | inr (c, m, q) ↦ inr (record {
              cid_str = k;
              pin_type = t;
              root = root;
              block = c;
              pinned = inl refl;
              parses = p;
              yields = m;
              shows = q;
            })
          ]
        ]
      ]
