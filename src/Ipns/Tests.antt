-- ===== src/Ipns/Tests.antt =====
-- A record under toy keys, where a signature is the message itself.
use py_ipfs_lite.Prelude.{ℕ, ◌≤◌, ◌<◌, String, true, none, some, [], ◌∷◌, ◌++◌, ◌≡◌, refl, arith}
use py_ipfs_lite.Errors.{ok, raise, routing_error}
use py_ipfs_lite.Ipns.Records.{same_bytes, IpnsEntry, Crypto, signature_prefix, validate}
use py_ipfs_lite.Ipns.Trust.{IsKeyOf, IsSigned, validate-IsSigned, validate_v1}
use py_ipfs_lite.Ipns.Sequence.{
  Call, publish_name, max_sequence, publish_name_grows, publish_name_stuck,
}

abbrev toy : Crypto String
toy = record {
  extract_public_key = λ p. some p;
  deserialize = λ b. none;
  id_from_pubkey = λ k. k;
  verify = λ k m s. same_bytes m s;
  cbor_loads = λ b. some (record {
    value = some (1 ∷ []);
    validity = some (2 ∷ []);
    validity_type = some 0;
    sequence = some 5;
    ttl = none;
  });
  decode_utf8 = λ b. some "2100";
  parse_date = λ t. some 2_100;
}

abbrev base : IpnsEntry
base = record {
  value = 1 ∷ [];
  validity = 2 ∷ [];
  validity_type = 0;
  sequence = 5;
  ttl = 0;
  pub_key = [];
  signature_v1 = 1 ∷ 2 ∷ 0 ∷ [];
  signature_v2 = [];
  signed_data = [];
}

abbrev signed : IpnsEntry
signed = record base { signature_v2 = signature_prefix ++ (9 ∷ []); signed_data = 9 ∷ [] }

validate-IsSigned_example :
    (k : String) × IsKeyOf toy 2_026 signed "alice" k
    × IsSigned toy 2_026 signed "alice" k
    × (text : String) × (eol : ℕ) × (some "2100" ≡ some text)
    × (some 2_100 ≡ some eol)
    × (2_026 ≤ eol)
unfolding validate
validate-IsSigned_example = validate-IsSigned toy 2_026 signed "alice" {r = signed} refl

validate_v1_example :
    validate toy 2_026 (record base { sequence = max_sequence }) "alice"
    ≡ ok (record base { sequence = max_sequence })
unfolding validate
validate_v1_example = validate_v1 toy 2_026 base "alice" max_sequence refl refl

abbrev call : Call
call = record {
  has_datastore = true;
  can_read = true;
  can_write = true;
  remote = none;
  time = 1_700;
  lifetime_hours = 24;
  accepts = true;
}

abbrev clock_back : Call
clock_back = record call { time = 3 }

publish_name_grows_example : 1_701 < 1_702
unfolding publish_name
publish_name_grows_example = publish_name_grows call clock_back none 1_701 1_702 refl refl refl refl

publish_name_stuck_example :
    ((publish_name call (some max_sequence)).result ≡ raise routing_error)
    × ((t : ℕ) × ((publish_name call (some max_sequence)).stored ≡ some t) × (max_sequence ≤ t))
publish_name_stuck_example = publish_name_stuck call max_sequence refl (ground arith)
