-- ===== src/Car/Archive.antt =====
-- `export_car` and `import_car` as a whole: the header, the output file, and the checks of the roots.
-- A file is given as its bytes; the temporary file is left out.
use py_ipfs_lite.Prelude.{
  ℕ, ◌+◌, Bool, true, Option, none, some, List, [], ◌∷◌, ◌++◌, Key, length, if◌then◌else◌,
}
use py_ipfs_lite.Errors.{
  Error, Result, ok, raise, ◌>>=◌, car_parse_error, cbor_error, type_error, index_error, eof_error,
  value_error, attribute_error, recursion_error,
}
use py_ipfs_lite.Dict.{Dict, keys, get, put, has}
use py_ipfs_lite.Dag.{DagLib, expand, Outcome, finished, failed, out_of_fuel, walk_dag}
use py_ipfs_lite.Dag.Fuel.{pending}
use py_ipfs_lite.Car.Frames.{Bytes, read_exactly, read_length}
use py_ipfs_lite.Car.Blocks.{Block, sections, export_from, read_blocks}

-- What is written for a root; `header` is `dumps` of the header's dictionary.
abbrev pub archive : (ℕ → Bytes) → (Bytes → Bytes) → Bytes → List Block → Bytes
archive encode header root bs = encode (length (header root)) ++ (header root ++ sections encode bs)

-- `export_car` after the root was parsed: what the output path holds, which is replaced where
-- nothing raises, and how the call ends; none where the fuel runs out.
abbrev pub replaced :
    Bytes
    → (List Block → Bytes)
    → Option (Result (List Block))
    → Option Bytes
    → Option (Option Bytes × Result (Unit {0}))
replaced root file none output = none
replaced root file (some (raise err)) output = some (output, raise err)
replaced root file (some (ok bs)) output = some (some (file bs), ok tt)

unfoldable pub export_car :
    ⦃e : Key Bytes⦄
    → (Bytes → Option Bytes)
    → (Bytes → Bytes → List Bytes)
    → (ℕ → Bytes)
    → (Bytes → Bytes)
    → ℕ
    → Bytes
    → Option Bytes
    → Option (Option Bytes × Result (Unit {0}))
unfolding export_from sections
export_car fetch links encode header fuel root output =
    replaced root (archive encode header root) (export_from fetch links fuel (root ∷ []) []) output

-- The errors that `import_car` turns into CarParseError.
abbrev pub wrapped : Error → Error
wrapped cbor_error = car_parse_error
wrapped type_error = car_parse_error
wrapped index_error = car_parse_error
wrapped eof_error = car_parse_error
wrapped value_error = car_parse_error
wrapped attribute_error = car_parse_error
wrapped e = e

-- blockstore.put for each block
unfoldable pub put_all : ⦃e : Key Bytes⦄ → List Block → Dict Bytes Bytes → Dict Bytes Bytes
put_all [] store = store
put_all (b ∷ bs) store = put_all bs (put b.0 b.1 store)

-- The dictionary of a header: whether its version is 1, and the CIDs of its tagged roots.
pub record Header : Type 0 where
  pub version_one : Bool
  pub tagged_roots : List Bytes

module _ ⦃e : Key Bytes⦄ (loads : Bytes → Result Header) (parse_cid : Bytes → Result Bytes)
    (cid_len : Bytes → Result ℕ) (verified : Bytes → Bytes → Bool) (lib : DagLib Bytes Bytes) where
  -- The walk over the blocks that are stored, which raises on a missing one.
  abbrev pub strict_links : Dict Bytes Bytes → Bytes → Result (List Bytes)
  strict_links store = expand lib true (λ c. ok (get c store)) true

  unfoldable pub parse_roots : List Bytes → Result (List Bytes)
  parse_roots [] = ok []
  parse_roots (r ∷ rs) = do c ← parse_cid r; cs ← parse_roots rs; ok (c ∷ cs)

  abbrev pub roots_of : Header → Result (List Bytes)
  roots_of h = if h.version_one then parse_roots h.tagged_roots else raise car_parse_error

  -- The roots, and the rest of the file.
  abbrev pub read_header : ℕ → Bytes → Result (List Bytes × Bytes)
  read_header n f =
      read_exactly n f
      >>= (λ (h, rest). loads h >>= (λ d. roots_of d >>= (λ roots. ok (roots, rest))))

  abbrev pub ended : Outcome → Result (Unit {0})
  ended finished = ok tt
  ended (failed err) = raise car_parse_error
  ended out_of_fuel = raise recursion_error

  -- The strict walk from a root, with the fuel that is enough for the store.
  abbrev pub check_dag : Dict Bytes Bytes → Bytes → Result (Unit {0})
  check_dag store root =
      ended
        (walk_dag (strict_links store) (1 + pending (strict_links store) (keys store) [])
          root).outcome

  unfoldable pub check_roots : Bool → Dict Bytes Bytes → List Bytes → Result (Unit {0})
  check_roots strict store [] = ok tt
  check_roots strict store (r ∷ rs) =
      if has r store
      then (if strict then check_dag store r else ok tt) >>= (λ _. check_roots strict store rs)
      else raise car_parse_error

  -- After the loop: the roots are checked, unless the loop has raised.
  abbrev pub finish :
      Bool
      → List Bytes
      → Dict Bytes Bytes
      → Option (Result (Unit {0}))
      → Option (Result (List Bytes)) × Dict Bytes Bytes
  finish strict roots store none = (none, store)
  finish strict roots store (some (raise err)) = (some (raise (wrapped err)), store)
  finish strict roots store (some (ok _)) =
      (some (check_roots strict store roots >>= (λ _. ok roots)), store)

  abbrev pub import_blocks :
      ℕ
      → Bool
      → Dict Bytes Bytes
      → Result (List Bytes × Bytes)
      → Option (Result (List Bytes)) × Dict Bytes Bytes
  import_blocks fuel strict store (raise err) = (some (raise (wrapped err)), store)
  import_blocks fuel strict store (ok (roots, rest)) =
      let (bs, end) = read_blocks cid_len verified fuel rest in
      finish strict roots (put_all bs store) end

  -- An empty file has no roots; an EOFError in the length of the header is not turned.
  abbrev pub import_body :
      ℕ
      → Bool
      → Dict Bytes Bytes
      → Result (ℕ × Bytes)
      → Option (Result (List Bytes)) × Dict Bytes Bytes
  import_body fuel strict store (raise type_error) = (some (ok []), store)
  import_body fuel strict store (raise err) = (some (raise err), store)
  import_body fuel strict store (ok (n, f)) = import_blocks fuel strict store (read_header n f)

  -- `import_car`: the roots or the error, none where the fuel runs out, and the block store.
  unfoldable pub import_car :
      ℕ → Bool → Bytes → Dict Bytes Bytes → Option (Result (List Bytes)) × Dict Bytes Bytes
  unfolding check_roots put_all read_blocks parse_roots
  import_car fuel strict file store = import_body fuel strict store (read_length file)
