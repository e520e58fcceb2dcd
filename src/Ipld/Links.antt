-- ===== src/Ipld/Links.antt =====
-- `extract_cids` of py_ipfs_lite/dag_utils.py: the CIDs that a decoded node links to.
use py_ipfs_lite.Prelude.{
  ℕ, String, Bool, false, Option, none, some, List, [], ◌∷◌, ◌++◌, drop, string_eq, nat_eq, ◌==◌,
  if◌then◌else◌, ◌≡◌, refl, ◌∙◌, ◌↔◌, inl, inr, In, In-append, In-append_left, In-append_right,
  arith, Bool-cases, subst, sym,
}
use py_ipfs_lite.Errors.{Result, ok, raise, ◌>>=◌, type_error}
use py_ipfs_lite.Ipld.{
  Value, Items, Fields, null, bool, int, negint, float, text, bytes, list, dict, tag, node, nil,
  cons, end, field,
}

-- curr["/"], if the key is there
abbrev pub slash : Fields → Option Value
slash end = none
slash (field k v fs) = if k == "/" then some v else slash fs

abbrev tail_text : String → String
tail_text String.[] = String.[]
tail_text (String.◌∷◌ c s) = s

abbrev tail_items : Items → Items
tail_items nil = nil
tail_items (cons v xs) = xs

-- curr.value[1:]
abbrev pub slice_one : Value → Result Value
slice_one (text s) = ok (text (tail_text s))
slice_one (bytes b) = ok (bytes (drop 1 b))
slice_one (list xs) = ok (list (tail_items xs))
slice_one _ = raise type_error

-- `parse_link` is `cid_to_bytes(parse_cid(v))`.
module _ {B : Type 0} (parse_link : Value → Result B) (strict : Bool) where
  -- try: cids.append(...) except: if strict_missing: raise
  abbrev pub attempt : Result B → Result (List B)
  attempt (ok c) = ok (c ∷ [])
  attempt (raise e) = if strict then raise e else ok []

  abbrev pub slash_link : Option Value → Result (List B)
  slash_link (some (text s)) = attempt (parse_link (text s))
  slash_link (some (bytes b)) = attempt (parse_link (bytes b))
  slash_link _ = ok []

  -- `cids.extend`: what a later part adds stands behind what is there
  abbrev pub also : Result (List B) → Result (List B) → Result (List B)
  also m n = do a ← m; b ← n; ok (a ++ b)

  unfoldable mutual
    pub extract : Value → Result (List B)
    extract (dict fs) = also (slash_link (slash fs)) (extract_fields fs)
    extract (list xs) = extract_items xs
    extract (tag t v) = if t == 42 then attempt (slice_one v >>= parse_link) else ok []
    extract _ = ok []

    pub extract_items : Items → Result (List B)
    extract_items nil = ok []
    extract_items (cons v xs) = also (extract v) (extract_items xs)

    pub extract_fields : Fields → Result (List B)
    extract_fields end = ok []
    extract_fields (field k v fs) = also (extract v) (extract_fields fs)

module _ {B : Type 0} (parse_link : Value → Result B) where
  -- What it is for a value to link to a CID: somewhere in it, through lists and dictionaries, there
  -- is a dictionary with a CID under "/", or a CBOR tag 42 with a CID behind its first byte.
  mutual
    pub data Links (c : B) : Value → Type 0 where
      slash_text :
          (fs : Fields) (s : String)
          → slash fs ≡ some (text s)
          → parse_link (text s) ≡ ok c
          → Links c (dict fs)
      slash_bytes :
          (fs : Fields) (b : List ℕ)
          → slash fs ≡ some (bytes b)
          → parse_link (bytes b) ≡ ok c
          → Links c (dict fs)
      tag42 : (t : ℕ) (v : Value) → t ≡ 42 → (slice_one v >>= parse_link) ≡ ok c → Links c (tag t v)
      in_list : {xs : Items} → LinksItems c xs → Links c (list xs)
      in_dict : {fs : Fields} → LinksFields c fs → Links c (dict fs)

    pub data LinksItems (c : B) : Items → Type 0 where
      first : {v : Value} {xs : Items} → Links c v → LinksItems c (cons v xs)
      later : {v : Value} {xs : Items} → LinksItems c xs → LinksItems c (cons v xs)

    pub data LinksFields (c : B) : Fields → Type 0 where
      value : {k : String} {v : Value} {fs : Fields} → Links c v → LinksFields c (field k v fs)
      rest :
          {k : String} {v : Value} {fs : Fields} → LinksFields c fs → LinksFields c (field k v fs)

also-ok :
    {B : Type 0} (m n : Result (List B)) (cs : List B)
    → (do a ← m; b ← n; ok (a ++ b)) ≡ ok cs
    → (a : List B) × (b : List B) × (m ≡ ok a) × (n ≡ ok b) × (cs ≡ a ++ b)
also-ok (ok a) (ok b) cs h = (a, b, refl, refl, ground arith)
also-ok (ok a) (raise e) cs h = absurd (ground arith)
also-ok (raise e) n cs h = absurd (ground arith)

In-none : {B : Type 0} (c : B) (cs : List B) → ◌≡◌ {A = Result (List B)} (ok []) (ok cs) → ¬ In c cs
In-none c [] h m = m
In-none c (x ∷ cs) h m = ground arith

module _ {B : Type 0} (parse_link : Value → Result B) (strict : Bool) where
  attempt-ok :
      (r : Result B) (cs : List B) (c : B)
      → attempt parse_link strict r ≡ ok cs
      → (In c cs → r ≡ ok c) × (r ≡ ok c → In c cs)
  attempt-ok (ok d) [] c h = absurd (ground arith)
  attempt-ok (ok d) (x ∷ []) c h =
      (elim [ inl e ↦ ground arith | inr m ↦ absurd m ], λ e. inl (ground arith))
  attempt-ok (ok d) (x ∷ y ∷ cs) c h = absurd (ground arith)
  attempt-ok (raise e) cs c h =
      (λ m. absurd (In-none c cs (ground arith) m), λ p. absurd (ground arith))

  slash_sound :
      (fs : Fields) (cs : List B) (c : B)
      → slash_link parse_link strict (slash fs) ≡ ok cs
      → In c cs
      → Links parse_link c (dict fs)
  slash_sound fs cs c h m = go (slash fs) refl h
    where
      go :
          (o : Option Value)
          → slash fs ≡ o
          → slash_link parse_link strict o ≡ ok cs
          → Links parse_link c (dict fs)
      go (some (text s)) e g = slash_text fs s e ((attempt-ok (parse_link (text s)) cs c g).0 m)
      go (some (bytes b)) e g = slash_bytes fs b e ((attempt-ok (parse_link (bytes b)) cs c g).0 m)
      go (some v) e g = absurd (In-none c cs g m)
      go none e g = absurd (In-none c cs g m)

  extract_tag-ok :
      (t : ℕ) (v : Value) (cs : List B) (c : B)
      → extract parse_link strict (tag t v) ≡ ok cs
      → (In c cs → (t ≡ 42) × ((slice_one v >>= parse_link) ≡ ok c))
        × (t ≡ 42 → (slice_one v >>= parse_link) ≡ ok c → In c cs)
  unfolding extract
  extract_tag-ok t v cs c h = elim (Bool-cases (t == 42)) [
    | inl y ↦
        let ih = attempt-ok (slice_one v >>= parse_link) cs c (rw y at h) in
        (λ m. (ground arith, ih.0 m), λ _ e. ih.1 e)
    | inr n ↦ (λ m. absurd (In-none c cs (rw n at h) m), λ e _. absurd (ground arith))
  ]

  mutual
    unfolding extract

    sound :
        (v : Value) (cs : List B) (c : B)
        → extract parse_link strict v ≡ ok cs
        → In c cs
        → Links parse_link c v
    sound (dict fs) cs c h m =
        let (a, b, p, q, e) = also-ok _ _ cs h in
        elim (In-append c a b (subst (In c) e m)) [
          | inl l ↦ slash_sound fs a c p l
          | inr r ↦ in_dict (sound_fields fs b c q r)
        ]
    sound (list xs) cs c h m = in_list (sound_items xs cs c h m)
    sound (tag t v) cs c h m = let (e, p) = (extract_tag-ok t v cs c h).0 m in tag42 t v e p
    sound _ cs c h m = absurd (In-none c cs h m)

    sound_items :
        (xs : Items) (cs : List B) (c : B)
        → extract_items parse_link strict xs ≡ ok cs
        → In c cs
        → LinksItems parse_link c xs
    sound_items nil cs c h m = absurd (In-none c cs h m)
    sound_items (cons v xs) cs c h m =
        let (a, b, p, q, e) = also-ok _ _ cs h in
        elim (In-append c a b (subst (In c) e m)) [
          | inl l ↦ first (sound v a c p l)
          | inr r ↦ later (sound_items xs b c q r)
        ]

    sound_fields :
        (fs : Fields) (cs : List B) (c : B)
        → extract_fields parse_link strict fs ≡ ok cs
        → In c cs
        → LinksFields parse_link c fs
    sound_fields end cs c h m = absurd (In-none c cs h m)
    sound_fields (field k v fs) cs c h m =
        let (a, b, p, q, e) = also-ok _ _ cs h in
        elim (In-append c a b (subst (In c) e m)) [
          | inl l ↦ value (sound v a c p l)
          | inr r ↦ rest (sound_fields fs b c q r)
        ]

  slash_complete :
      (fs : Fields) (v : Value) (cs : List B) (c : B)
      → slash fs ≡ some v
      → (attempt parse_link strict (parse_link v) ≡ slash_link parse_link strict (some v))
      → parse_link v ≡ ok c
      → slash_link parse_link strict (slash fs) ≡ ok cs
      → In c cs
  slash_complete fs v cs c e a p h = (attempt-ok (parse_link v) cs c (a ∙ (rw e at h))).1 p

  mutual
    unfolding extract

    complete :
        (v : Value) (cs : List B) (c : B)
        → extract parse_link strict v ≡ ok cs
        → Links parse_link c v
        → In c cs
    complete (dict fs) cs c h (slash_text _ s e p) =
        let (a, b, x, y, k) = also-ok _ _ cs h in
        subst (In c) (sym k) (In-append_left c a b (slash_complete fs (text s) a c e refl p x))
    complete (dict fs) cs c h (slash_bytes _ s e p) =
        let (a, b, x, y, k) = also-ok _ _ cs h in
        subst (In c) (sym k) (In-append_left c a b (slash_complete fs (bytes s) a c e refl p x))
    complete (dict fs) cs c h (in_dict m) =
        let (a, b, x, y, k) = also-ok _ _ cs h in
        subst (In c) (sym k) (In-append_right c a b (complete_fields fs b c y m))
    complete (list xs) cs c h (in_list m) = complete_items xs cs c h m
    complete (tag t v) cs c h (tag42 _ _ e p) = (extract_tag-ok t v cs c h).1 e p
    complete null cs c h m = elim m [ ]
    complete (bool _) cs c h m = elim m [ ]
    complete (int _) cs c h m = elim m [ ]
    complete (negint _) cs c h m = elim m [ ]
    complete (float _ _) cs c h m = elim m [ ]
    complete (text _) cs c h m = elim m [ ]
    complete (bytes _) cs c h m = elim m [ ]
    complete (node _) cs c h m = elim m [ ]

    complete_items :
        (xs : Items) (cs : List B) (c : B)
        → extract_items parse_link strict xs ≡ ok cs
        → LinksItems parse_link c xs
        → In c cs
    complete_items nil cs c h m = elim m [ ]
    complete_items (cons v xs) cs c h (first m) =
        let (a, b, x, y, k) = also-ok _ _ cs h in
        subst (In c) (sym k) (In-append_left c a b (complete v a c x m))
    complete_items (cons v xs) cs c h (later m) =
        let (a, b, x, y, k) = also-ok _ _ cs h in
        subst (In c) (sym k) (In-append_right c a b (complete_items xs b c y m))

    complete_fields :
        (fs : Fields) (cs : List B) (c : B)
        → extract_fields parse_link strict fs ≡ ok cs
        → LinksFields parse_link c fs
        → In c cs
    complete_fields end cs c h m = elim m [ ]
    complete_fields (field _ v fs) cs c h (value m) =
        let (a, b, x, y, k) = also-ok _ _ cs h in
        subst (In c) (sym k) (In-append_left c a b (complete v a c x m))
    complete_fields (field _ v fs) cs c h (rest m) =
        let (a, b, x, y, k) = also-ok _ _ cs h in
        subst (In c) (sym k) (In-append_right c a b (complete_fields fs b c y m))

  -- In both modes, where `extract_cids` returns, its list holds exactly the CIDs that the node
  -- links to, at any depth of lists and dictionaries.
  pub extract_iff_Links :
      (v : Value) (cs : List B) (c : B)
      → extract parse_link strict v ≡ ok cs
      → In c cs ↔ Links parse_link c v
  extract_iff_Links v cs c h = (sound v cs c h, complete v cs c h)

-- A value of `extract`, kept.
abbrev Returns : {B : Type 0} → Result (List B) → Type 0
Returns {B} r = (cs : List B) × (r ≡ ok cs)

also-Returns :
    {B : Type 0} (m n : Result (List B))
    → Returns m
    → Returns n
    → Returns (do a ← m; b ← n; ok (a ++ b))
also-Returns m n (a, p) (b, q) = (a ++ b, rw (p, q))

module _ {B : Type 0} (parse_link : Value → Result B) where
  attempt-Returns : (r : Result B) → Returns (attempt parse_link false r)
  attempt-Returns (ok c) = (c ∷ [], refl)
  attempt-Returns (raise e) = ([], refl)

  slash_link-Returns : (o : Option Value) → Returns (slash_link parse_link false o)
  slash_link-Returns (some (text s)) = attempt-Returns (parse_link (text s))
  slash_link-Returns (some (bytes b)) = attempt-Returns (parse_link (bytes b))
  slash_link-Returns (some v) = ([], refl)
  slash_link-Returns none = ([], refl)

  mutual
    unfolding extract

    extract_lax : (v : Value) → Returns (extract parse_link false v)
    extract_lax (dict fs) = also-Returns _ _ (slash_link-Returns (slash fs)) (fields_lax fs)
    extract_lax (list xs) = items_lax xs
    extract_lax (tag t v) = elim (Bool-cases (t == 42)) [
      | inl y ↦ rw y (attempt-Returns (slice_one v >>= parse_link))
      | inr n ↦ rw n ([], refl)
    ]
    extract_lax _ = ([], refl)

    items_lax : (xs : Items) → Returns (extract_items parse_link false xs)
    items_lax nil = ([], refl)
    items_lax (cons v xs) = also-Returns _ _ (extract_lax v) (items_lax xs)

    fields_lax : (fs : Fields) → Returns (extract_fields parse_link false fs)
    fields_lax end = ([], refl)
    fields_lax (field k v fs) = also-Returns _ _ (extract_lax v) (fields_lax fs)

  -- Without `strict_missing`, `extract_cids` raises on no value.
  pub extract_total : (v : Value) → (cs : List B) × (extract parse_link false v ≡ ok cs)
  extract_total v = extract_lax v
