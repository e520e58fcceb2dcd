-- ===== src/Ipld/Plain.antt =====
-- The values that a block of JSON or CBOR can hold, and what `_IPLDNodeEncoder` makes of a value.
use py_ipfs_lite.Prelude.{String, Bool, true, false, ◌||◌, ◌==◌, string_eq, ◌≡◌, ap, ◌∙◌}
use py_ipfs_lite.Errors.{ok, ◌>>=◌, >>=-ok, ok-injective}
use py_ipfs_lite.Ipld.{
  Bytes, Value, null, bool, int, negint, float, text, bytes, list, dict, tag, node, Items, nil,
  cons, Fields, end, field, convert, convert_items, convert_fields, serialised, serialised_items,
  serialised_fields,
}

abbrev pub has_key : String → Fields → Bool
has_key k end = false
has_key k (field k' v fs) = k == k' || has_key k fs

-- The IPLD data model: each key of a dictionary once, finite floats, no tag but that of a link, and no
-- `IPLDNode`.
unfoldable mutual
  pub IsIpld : Value → Type 0
  IsIpld (node c) = ⊥
  IsIpld (tag t v) = (t ≡ 42) × ((b : Bytes) × (v ≡ bytes b))
  IsIpld (float finite b) = finite ≡ true
  IsIpld (list xs) = AllIpld xs
  IsIpld (dict fs) = AllIpldFields fs
  IsIpld _ = Unit

  pub AllIpld : Items → Type 0
  AllIpld nil = Unit
  AllIpld (cons v xs) = IsIpld v × AllIpld xs

  pub AllIpldFields : Fields → Type 0
  AllIpldFields end = Unit
  AllIpldFields (field k v fs) = (has_key k fs ≡ false) × IsIpld v × AllIpldFields fs

-- Where `_IPLDNodeEncoder` refuses nothing, it does what `_convert_ipld_nodes` does.
mutual
  unfolding serialised convert

  pub serialised-convert : (v w : Value) → serialised v ≡ ok w → convert v ≡ w
  serialised-convert (node c) w h = ok-injective h
  serialised-convert (list xs) w h =
      let (ys, p, k) = >>=-ok (serialised_items xs) (λ ys. ok (list ys)) h in
      ap list (items xs ys p) ∙ ok-injective k
  serialised-convert (dict fs) w h =
      let (gs, p, k) = >>=-ok (serialised_fields fs) (λ gs. ok (dict gs)) h in
      ap dict (fields fs gs p) ∙ ok-injective k
  serialised-convert null w h = ok-injective h
  serialised-convert (bool b) w h = ok-injective h
  serialised-convert (int n) w h = ok-injective h
  serialised-convert (negint n) w h = ok-injective h
  serialised-convert (float finite b) w h = ok-injective h
  serialised-convert (text s) w h = ok-injective h
  serialised-convert (bytes b) w h = cc
  serialised-convert (tag t v) w h = cc

  items : (xs ys : Items) → serialised_items xs ≡ ok ys → convert_items xs ≡ ys
  items nil ys h = ok-injective h
  items (cons v xs) ys h =
      let (w, p, k) = >>=-ok (serialised v) (λ w. do zs ← serialised_items xs; ok (cons w zs)) h in
      let (zs, q, k') = >>=-ok (serialised_items xs) (λ zs. ok (cons w zs)) k in
      ap (λ x. cons x (convert_items xs)) (serialised-convert v w p)
      ∙ (ap (cons w) (items xs zs q) ∙ ok-injective k')

  fields : (fs gs : Fields) → serialised_fields fs ≡ ok gs → convert_fields fs ≡ gs
  fields end gs h = ok-injective h
  fields (field x v fs) gs h =
      let (w, p, k) =
        >>=-ok (serialised v) (λ w. do hs ← serialised_fields fs; ok (field x w hs)) h in
      let (hs, q, k') = >>=-ok (serialised_fields fs) (λ hs. ok (field x w hs)) k in
      ap (λ z. field x z (convert_fields fs)) (serialised-convert v w p)
      ∙ (ap (field x w) (fields fs hs q) ∙ ok-injective k')
