-- ===== src/Ipns/Records.antt =====
-- `validate_ipns_record` and the checks of `create_ipns_record`.
use py_ipfs_lite.Prelude.{
  ℕ, String, Bool, true, false, not, ◌&&◌, Option, none, some, List, [], ◌∷◌, ◌++◌, if◌then◌else◌,
  nat_beq, ltb, leb, ◌==◌, string_eq,
}
use py_ipfs_lite.Errors.{Result, ok, raise, ◌>>=◌, routing_error, value_error}

abbrev pub Bytes : Type 0
Bytes = List ℕ

abbrev pub same_bytes : Bytes → Bytes → Bool
same_bytes [] [] = true
same_bytes (x ∷ xs) (y ∷ ys) = nat_beq x y && same_bytes xs ys
same_bytes _ _ = false

-- `IpnsEntry`, with its field `data` as `signed_data`; an empty field is [].
pub record IpnsEntry : Type 0 where
  pub value : Bytes
  pub validity : Bytes
  pub validity_type : ℕ
  pub sequence : ℕ
  pub ttl : ℕ
  pub pub_key : Bytes
  pub signature_v1 : Bytes
  pub signature_v2 : Bytes
  pub signed_data : Bytes

-- The dictionary that the CBOR data holds; none where a key is missing.
pub record SignedFields : Type 0 where
  pub value : Option Bytes
  pub validity : Option Bytes
  pub validity_type : Option ℕ
  pub sequence : Option ℕ
  pub ttl : Option ℕ

-- What the libraries do: the key that an id inlines, deserialize_public_key, ID.from_pubkey, verify,
-- cbor2.loads, bytes.decode, and the date that the validity writes; none where they raise or have nothing.
pub record Crypto (PublicKey : Type 0) : Type 0 where
  pub extract_public_key : String → Option PublicKey
  pub deserialize : Bytes → Option PublicKey
  pub id_from_pubkey : PublicKey → String
  pub verify : PublicKey → Bytes → Bytes → Bool
  pub cbor_loads : Bytes → Option SignedFields
  pub decode_utf8 : Bytes → Option String
  pub parse_date : String → Option ℕ

abbrev pub is_empty : Bytes → Bool
is_empty [] = true
is_empty _ = false

-- b"ipns-signature:"
abbrev pub signature_prefix : Bytes
signature_prefix =
    105 ∷ 112 ∷ 110 ∷ 115 ∷ 45 ∷ 115 ∷ 105 ∷ 103 ∷ 110 ∷ 97 ∷ 116 ∷ 117 ∷ 114 ∷ 101 ∷ 58 ∷ []

abbrev pub ensure : Bool → Result (Unit {0})
ensure true = ok tt
ensure false = raise routing_error

abbrev pub found {ℓ} : {A : Type ℓ} → (A → A → Bool) → A → Option A → Bool
found same a none = false
found same a (some b) = same a b

-- The TTL is compared only where the data has it.
abbrev pub ttl_matches : ℕ → Option ℕ → Bool
ttl_matches t none = true
ttl_matches t (some u) = nat_beq t u

abbrev pub fields_match : IpnsEntry → Option SignedFields → Bool
fields_match e none = false
fields_match e (some d) =
    found same_bytes e.value d.value
    && found same_bytes e.validity d.validity
    && found nat_beq e.validity_type d.validity_type
    && found nat_beq e.sequence d.sequence
    && ttl_matches e.ttl d.ttl

module _ {PublicKey : Type 0} (c : Crypto PublicKey) where
  -- 1. The public key
  abbrev pub or_error : Option PublicKey → Result PublicKey
  or_error none = raise routing_error
  or_error (some k) = ok k

  abbrev pub belongs : String → PublicKey → Result PublicKey
  belongs peer_id k = if c.id_from_pubkey k == peer_id then ok k else raise routing_error

  abbrev pub public_key : IpnsEntry → String → Result PublicKey
  public_key e peer_id =
      if is_empty e.pub_key
      then or_error (c.extract_public_key peer_id)
      else (or_error (c.deserialize e.pub_key) >>= belongs peer_id)

  -- 2. The signature
  abbrev pub signed_v2 : IpnsEntry → PublicKey → Bool
  signed_v2 e k =
      c.verify k (signature_prefix ++ e.signed_data) e.signature_v2
      && fields_match e (c.cbor_loads e.signed_data)

  abbrev pub signed_v1 : IpnsEntry → PublicKey → Bool
  signed_v1 e k = c.verify k (e.value ++ e.validity ++ (e.validity_type ∷ [])) e.signature_v1

  abbrev pub has_v2 : IpnsEntry → Bool
  has_v2 e = not (is_empty e.signature_v2) && not (is_empty e.signed_data)

  -- bytes([n]) raises ValueError where n is above 255.
  abbrev pub check_v1 : IpnsEntry → PublicKey → Result (Unit {0})
  check_v1 e k = if ltb 255 e.validity_type then raise value_error else ensure (signed_v1 e k)

  abbrev pub check_signature : IpnsEntry → PublicKey → Result (Unit {0})
  check_signature e k =
      if has_v2 e
      then ensure (signed_v2 e k)
      else (if is_empty e.signature_v1 then raise routing_error else check_v1 e k)

  -- 3. The expiry; `decode` stands outside the try.
  abbrev pub is_fresh : ℕ → Option ℕ → Bool
  is_fresh now none = false
  is_fresh now (some eol) = leb now eol

  abbrev pub check_expiry : ℕ → Option String → Result (Unit {0})
  check_expiry now none = raise value_error
  check_expiry now (some text) = ensure (is_fresh now (c.parse_date text))

  unfoldable pub validate : ℕ → IpnsEntry → String → Result IpnsEntry
  validate now e peer_id =
      public_key e peer_id
      >>= (λ k. check_signature e k)
      >>= (λ _. check_expiry now (c.decode_utf8 e.validity))
      >>= (λ _. ok e)
