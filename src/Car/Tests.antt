-- ===== src/Car/Tests.antt =====
-- An archive of two blocks, whose CIDs have two bytes.
use py_ipfs_lite.Prelude.{
  ℕ, ◌≡◌, ◌↔◌, refl, List, [], ◌∷◌, Bool, true, false, ◌&&◌, ◌==◌, nat_eq, Option, none, some,
  arith, Key, if◌then◌else◌,
}
use py_ipfs_lite.Errors.{Result, ok, raise, type_error}
use py_ipfs_lite.Dict.{Dict, get}
use py_ipfs_lite.Dag.{DagLib}
use py_ipfs_lite.Dag.Reach.{Reach}
use py_ipfs_lite.Car.Exported.{expand_strict}
use py_ipfs_lite.Car.Archive.{Header, archive, import_car}
use py_ipfs_lite.Car.Imported.{ReadsBack, import_car-Reach}
use py_ipfs_lite.Car.Frames.{Bytes, read_varint}
use py_ipfs_lite.Car.Blocks.{Block, sections, export_from, read_blocks}
use py_ipfs_lite.Car.RoundTrip.{IsReadable, read_blocks-sections}

-- The encoding of a number below 128
abbrev small : ℕ → Bytes
small n = n ∷ []

abbrev two : Bytes → Result ℕ
two full = ok 2

abbrev trusted : Bytes → Bytes → Bool
trusted cid content = true

abbrev root : Block
root = (1 ∷ 9 ∷ [], 5 ∷ 6 ∷ [])

abbrev leaf : Block
leaf = (1 ∷ 8 ∷ [], [])

root-IsReadable : IsReadable small two trusted root
unfolding read_varint
root-IsReadable = record {
  has_varint = λ f. refl;
  non_empty = ground arith;
  has_length = refl;
  is_right = refl;
}

leaf-IsReadable : IsReadable small two trusted leaf
unfolding read_varint
leaf-IsReadable = record {
  has_varint = λ f. refl;
  non_empty = ground arith;
  has_length = refl;
  is_right = refl;
}

two_blocks_again :
    read_blocks two trusted 3 (sections small (root ∷ leaf ∷ [])) ≡ (root ∷ leaf ∷ [], some (ok tt))
two_blocks_again =
    read_blocks-sections small two trusted (root ∷ leaf ∷ [])
      (root-IsReadable, (leaf-IsReadable, tt))

abbrev same_bytes : Bytes → Bytes → Bool
same_bytes [] [] = true
same_bytes (x ∷ xs) (y ∷ ys) = x == y && same_bytes xs ys
same_bytes _ _ = false

same_bytes_iff : (x y : Bytes) → (same_bytes x y ≡ true) ↔ (x ≡ y)
same_bytes_iff [] [] = (λ h. refl, λ p. refl)
same_bytes_iff [] (y ∷ ys) = (λ h. cc, λ p. cc)
same_bytes_iff (x ∷ xs) [] = (λ h. cc, λ p. cc)
same_bytes_iff (x ∷ xs) (y ∷ ys) =
    let (f, g) = same_bytes_iff xs ys in
    (λ h. ap2 (ground (arith, h)) (f (ground (arith, h))), λ p. ground (arith, p, g))
  where
    ap2 : x ≡ y → xs ≡ ys → x ∷ xs ≡ y ∷ ys
    ap2 p q = cc

instance abbrev bytes_eq : Key Bytes
bytes_eq = record { same = same_bytes; same_iff = same_bytes_iff }

abbrev fetch : Bytes → Option Bytes
fetch c = if c == root.0 then some root.1 else if c == leaf.0 then some leaf.1 else none

abbrev links : Bytes → Bytes → List Bytes
links c content = if c == root.0 then leaf.0 ∷ [] else []

abbrev header : Bytes → Bytes
header c = 7 ∷ []

abbrev loads : Bytes → Result Header
loads h = ok (record { version_one = true; tagged_roots = root.0 ∷ [] })

abbrev parse_cid : Bytes → Result Bytes
parse_cid c = ok c

abbrev lib : DagLib Bytes Bytes
lib = record {
  parse_cid_codec = λ c. ok "raw";
  normalise_codec = λ c. ok c;
  codec_dag_pb = "dag-pb";
  decode_dag_pb = λ b. raise type_error;
  decode_node = λ b c. raise type_error;
  parse_link = λ v. raise type_error;
}

root-ReadsBack : ReadsBack small header loads parse_cid two trusted lib root.0
unfolding read_varint
root-ReadsBack = record { has_varint = λ f. refl; has_header = refl; has_root = refl }

abbrev imported : Option (Result (List Bytes)) × Dict Bytes Bytes
imported =
    import_car loads parse_cid two trusted lib 3 false
      (archive small header root.0 (root ∷ leaf ∷ [])) []

import_car-Reach_example :
    (imported.0 ≡ some (ok (root.0 ∷ [])))
    × ((c : Bytes)
        → Reach (expand_strict fetch links) root.0 c
        → (content : Bytes) × (fetch c ≡ some content) × (get c imported.1 ≡ some content))
unfolding export_from
import_car-Reach_example =
    import_car-Reach small header loads parse_cid two trusted lib fetch links 3 root.0
      (root ∷ leaf ∷ []) [] refl root-ReadsBack (root-IsReadable, (leaf-IsReadable, tt))
