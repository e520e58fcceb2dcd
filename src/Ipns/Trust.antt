-- ===== src/Ipns/Trust.antt =====
-- What a record that passes `validate_ipns_record` is known to be.
use py_ipfs_lite.Prelude.{
  ℕ, ◌≤◌, String, Bool, true, false, ◌&&◌, Option, none, some, [], ◌∷◌, ◌++◌, ◌≡◌, ◌⊎◌, inl, inr,
  refl, ap, if◌then◌else◌, ltb, arith, if_cases, sym, ◌∙◌, subst, Option-cases, ◌==◌, string_eq,
  eq_iff,
}
use py_ipfs_lite.Errors.{Result, ok, raise, ◌>>=◌, value_error, >>=-ok, ok-injective}
use py_ipfs_lite.Ipns.Records.{
  IpnsEntry, Crypto, is_empty, signature_prefix, ensure, fields_match, or_error, belongs,
  public_key, signed_v1, signed_v2, has_v2, check_signature, is_fresh, check_expiry, validate,
}

ensure-ok : (b : Bool) {u : Unit {0}} → ensure b ≡ ok u → b ≡ true
ensure-ok true h = refl
ensure-ok false h = cc

module _ {PublicKey : Type 0} (c : Crypto PublicKey) (now : ℕ) (e : IpnsEntry)
    (peer_id : String) where
  -- The key is the one that the peer id inlines, or its id is the peer id.
  pub IsKeyOf : PublicKey → Type 0
  IsKeyOf k = (c.extract_public_key peer_id ≡ some k) ⊎ (c.id_from_pubkey k ≡ peer_id)

  -- Signed with V2, where the signed data has the values of the record, or else with V1.
  pub IsSigned : PublicKey → Type 0
  IsSigned k =
      ((c.verify k (signature_prefix ++ e.signed_data) e.signature_v2 ≡ true)
        × (fields_match e (c.cbor_loads e.signed_data) ≡ true))
      ⊎ ((has_v2 c e ≡ false)
          × (c.verify k (e.value ++ e.validity ++ (e.validity_type ∷ [])) e.signature_v1 ≡ true))

  public_key-IsKeyOf : (k : PublicKey) → public_key c e peer_id ≡ ok k → IsKeyOf k
  unfolding IsKeyOf
  public_key-IsKeyOf k h = elim (if_cases (is_empty e.pub_key) h) [
    | inl (_, g) ↦ inl (inlined (c.extract_public_key peer_id) g)
    | inr (_, g) ↦ inr (named (>>=-ok (or_error c (c.deserialize e.pub_key)) (belongs c peer_id) g))
  ]
    where
      inlined : (o : Option PublicKey) → or_error c o ≡ ok k → o ≡ some k
      inlined none g = cc
      inlined (some x) g = ap some (ok-injective g)

      named :
          (x : PublicKey) × (or_error c (c.deserialize e.pub_key) ≡ ok x)
            × (belongs c peer_id x ≡ ok k)
          → c.id_from_pubkey k ≡ peer_id
      named (x, _, b) = elim (if_cases (c.id_from_pubkey x == peer_id) b) [
        | inl (y, same) ↦
            ap c.id_from_pubkey (sym (ok-injective same))
            ∙ (eq_iff (c.id_from_pubkey x) peer_id).0 y
        | inr (_, bad) ↦ cc
      ]

  check_signature-IsSigned : (k : PublicKey) → check_signature c e k ≡ ok tt → IsSigned k
  unfolding IsSigned
  check_signature-IsSigned k h = elim (if_cases (has_v2 c e) h) [
    | inl (_, g) ↦ inl (both _ _ (ensure-ok (signed_v2 c e k) g))
    | inr (n, g) ↦ elim (if_cases (is_empty e.signature_v1) g) [
      | inl (_, bad) ↦ cc
      | inr (_, v) ↦ inr (n, first (if_cases (ltb 255 e.validity_type) v))
    ]
  ]
    where
      both : (a b : Bool) → (a && b) ≡ true → (a ≡ true) × (b ≡ true)
      both a b m = (ground (arith, m), ground (arith, m))

      first :
          ((ltb 255 e.validity_type ≡ true) × (raise value_error ≡ ok tt))
            ⊎ ((ltb 255 e.validity_type ≡ false) × (ensure (signed_v1 c e k) ≡ ok tt))
          → signed_v1 c e k ≡ true
      first (inl (_, bad)) = cc
      first (inr (_, good)) = ensure-ok (signed_v1 c e k) good

  fresh :
      (o : Option String)
      → check_expiry c now o ≡ ok tt
      → (text : String) × (eol : ℕ) × (o ≡ some text) × (c.parse_date text ≡ some eol) × (now ≤ eol)
  fresh none h = cc
  fresh (some text) h = elim (Option-cases (c.parse_date text)) [
    | inl n ↦ absurd (ground (arith, h, n))
    | inr (eol, p) ↦
        (text, eol, refl, p, ground (arith, ensure-ok (is_fresh c now (c.parse_date text)) h, p))
  ]

  -- A record that validates is signed with a key of the peer, over its data with V2 where the data
  -- has its values or else over value, validity and type with V1, and it has not expired.
  pub validate-IsSigned :
      {r : IpnsEntry}
      → validate c now e peer_id ≡ ok r
      → (k : PublicKey) × IsKeyOf k
        × IsSigned k
        × (text : String) × (eol : ℕ) × (c.decode_utf8 e.validity ≡ some text)
        × (c.parse_date text ≡ some eol)
        × (now ≤ eol)
  unfolding validate
  validate-IsSigned h =
      let (_, p, _) =
        >>=-ok
          (public_key c e peer_id
            >>= (λ k. check_signature c e k)
            >>= (λ _. check_expiry c now (c.decode_utf8 e.validity)))
          (λ _. ok e) h in
      let (_, q, x) =
        >>=-ok (public_key c e peer_id >>= (λ k. check_signature c e k))
          (λ _. check_expiry c now (c.decode_utf8 e.validity)) p in
      let (k, a, b) = >>=-ok (public_key c e peer_id) (λ k. check_signature c e k) q in
      let (text, eol, d, g, le) = fresh (c.decode_utf8 e.validity) x in
      (k, public_key-IsKeyOf k a, check_signature-IsSigned k b, text, eol, d, g, le)

  -- A record without a signature V2 that validates does so with any other sequence.
  pub validate_v1 :
      (n : ℕ)
      → has_v2 c e ≡ false
      → validate c now e peer_id ≡ ok e
      → validate c now (record e { sequence = n }) peer_id ≡ ok (record e { sequence = n })
  unfolding validate
  validate_v1 n v h =
      let (_, p, _) =
        >>=-ok
          (public_key c e peer_id
            >>= (λ k. check_signature c e k)
            >>= (λ _. check_expiry c now (c.decode_utf8 e.validity)))
          (λ _. ok e) h in
      let (_, q, x) =
        >>=-ok (public_key c e peer_id >>= (λ k. check_signature c e k))
          (λ _. check_expiry c now (c.decode_utf8 e.validity)) p in
      let (k, a, b) = >>=-ok (public_key c e peer_id) (λ k. check_signature c e k) q in
      let e' : IpnsEntry = record e { sequence = n } in
      subst
        (λ r.
          (r
            >>= (λ j. check_signature c e' j)
            >>= (λ _. check_expiry c now (c.decode_utf8 e.validity))
            >>= (λ _. ok e'))
          ≡ ok e')
        (sym a)
        (subst
          (λ s.
            (s >>= (λ _. check_expiry c now (c.decode_utf8 e.validity)) >>= (λ _. ok e')) ≡ ok e')
          (sym (unsigned_lem k ∙ b)) (subst (λ t. (t >>= (λ _. ok e')) ≡ ok e') (sym x) refl))
    where
      unsigned_lem :
          (k : PublicKey) → check_signature c (record e { sequence = n }) k ≡ check_signature c e k
      unsigned_lem k = go (has_v2 c e) _ _ _ v
        where
          go :
              (b : Bool) (x y z : Result (Unit {0}))
              → b ≡ false
              → (if b then x else z) ≡ (if b then y else z)
          go true x y z w = absurd (ground (arith, w))
          go false x y z w = refl
