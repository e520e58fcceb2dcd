-- ===== src/Errors.antt =====
-- exceptions.py and the exceptions of Python that the modelled code raises or catches. An exception
-- is a value; its message is not modelled.
use py_ipfs_lite.Prelude.{Bool, true, false, ◌≡◌, refl, ◌⊎◌, inl, inr, arith}

pub data Error : Type 0 where
  block_not_found pin_not_found pin_error peer_not_started routing_error : Error
  car_parse_error invalid_cid dag_too_deep payload_too_large : Error
  type_error value_error key_error index_error attribute_error eof_error os_error : Error
  cbor_error not_implemented recursion_error http_error other_error : Error

pub data Result (A : Type 0) : Type 0 where
  ok : A → Result A
  raise : Error → Result A

infixl 5 ◌>>=◌
abbrev pub ◌>>=◌ : {A B : Type 0} → Result A → (A → Result B) → Result B
ok a >>= f = f a
raise e >>= f = raise e

-- isinstance(e, IPFSLiteError)
abbrev pub is_ipfs_lite_error : Error → Bool
is_ipfs_lite_error block_not_found = true
is_ipfs_lite_error pin_not_found = true
is_ipfs_lite_error pin_error = true
is_ipfs_lite_error peer_not_started = true
is_ipfs_lite_error routing_error = true
is_ipfs_lite_error car_parse_error = true
is_ipfs_lite_error invalid_cid = true
is_ipfs_lite_error dag_too_deep = true
is_ipfs_lite_error payload_too_large = true
is_ipfs_lite_error _ = false

pub Result-cases :
    {A : Type 0} (r : Result A) → ((a : A) × (r ≡ ok a)) ⊎ ((e : Error) × (r ≡ raise e))
Result-cases (ok a) = inl (a, refl)
Result-cases (raise e) = inr (e, refl)

-- Inversion of a bind that returns.
pub >>=-ok :
    {X Y : Type 0} (r : Result X) (k : X → Result Y) {y : Y}
    → (r >>= k) ≡ ok y
    → (x : X) × (r ≡ ok x) × (k x ≡ ok y)
>>=-ok (ok x) k h = (x, refl, h)
>>=-ok (raise err) k h = cc

pub ok-injective : {A : Type 0} {a b : A} → ok a ≡ ok b → a ≡ b
ok-injective h = ground arith
