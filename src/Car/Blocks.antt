-- ===== src/Car/Blocks.antt =====
-- The sections of `export_car` and the loop of `import_car` that reads them.
use py_ipfs_lite.Prelude.{
  ℕ, zero, suc, ◌+◌, Bool, true, false, Option, none, some, List, [], ◌∷◌, ◌++◌, if◌then◌else◌,
  length, drop, take, Key, mem,
}
use py_ipfs_lite.Errors.{Result, ok, raise, ◌>>=◌, type_error, value_error, block_not_found}
use py_ipfs_lite.Car.Frames.{Bytes, read_exactly, read_length}

-- A CID and the data of its block.
abbrev pub Block : Type 0
Block = Bytes × Bytes

-- `encode` is `varint.encode`.
module _ (encode : ℕ → Bytes) where
  abbrev pub section : Block → Bytes
  section (cid, content) = encode (length cid + length content) ++ (cid ++ content)

  unfoldable pub sections : List Block → Bytes
  sections [] = []
  sections (b ∷ bs) = section b ++ sections bs

-- `fetch` asks the block store and then the exchange; `links` are the links that a block's codec
-- gives, none where the block does not decode.
module _ ⦃e : Key Bytes⦄ (fetch : Bytes → Option Bytes) (links : Bytes → Bytes → List Bytes) where
  abbrev pub or_missing : Option Bytes → Result Bytes
  or_missing none = raise block_not_found
  or_missing (some content) = ok content

  -- The loop of `export_car`: the blocks in the order in which they are written, and none where the
  -- fuel runs out.
  unfoldable pub export_from : ℕ → List Bytes → List Bytes → Option (Result (List Block))
  export_from fuel [] visited = some (ok [])
  export_from zero (c ∷ queue) visited = none
  export_from (suc fuel) (c ∷ queue) visited = elim (mem c visited) [
    | true ↦ export_from fuel queue visited
    | false ↦ elim (fetch c) [
      | none ↦ some (raise block_not_found)
      | some content ↦ elim (export_from fuel (queue ++ links c content) (c ∷ visited)) [
        | none ↦ none
        | some rest ↦ some (rest >>= (λ blocks. ok ((c, content) ∷ blocks)))
      ]
    ]
  ]

-- The next frame and the rest of the file. The end of the file before a length is a TypeError, which
-- ends the loop.
abbrev pub read_frame : Result (ℕ × Bytes) → Result (Option (Bytes × Bytes))
read_frame (raise type_error) = ok none
read_frame (raise err) = raise err
read_frame (ok (n, f)) = read_exactly n f >>= (λ frame. ok (some frame))

unfoldable pub next_frame : Bytes → Result (Option (Bytes × Bytes))
next_frame f = read_frame (read_length f)

-- `cid_len` is `get_cid_len`; `verified` compares the hash of the data with the one in the CID.
module _ (cid_len : Bytes → Result ℕ) (verified : Bytes → Bytes → Bool) where
  abbrev pub checked : Block → Result Block
  checked (cid, content) = if verified cid content then ok (cid, content) else raise value_error

  abbrev pub split_block : Bytes → Result Block
  split_block full = cid_len full >>= (λ n. checked (take n full, drop n full))

  abbrev pub is_empty : Bytes → Bool
  is_empty [] = true
  is_empty _ = false

  -- What the loop does with a frame: an empty one ends it, and a block is stored before it goes on.
  -- The blocks stored, and how the loop has ended; none where the fuel runs out.
  abbrev pub then_store :
      Result Block
      → List Block × Option (Result (Unit {0}))
      → List Block × Option (Result (Unit {0}))
  then_store (raise err) rest = ([], some (raise err))
  then_store (ok b) rest = (b ∷ rest.0, rest.1)

  abbrev pub after_frame :
      Bytes → List Block × Option (Result (Unit {0})) → List Block × Option (Result (Unit {0}))
  after_frame full rest =
      if is_empty full then ([], some (ok tt)) else then_store (split_block full) rest

  unfoldable pub read_blocks : ℕ → Bytes → List Block × Option (Result (Unit {0}))
  unfolding next_frame
  read_blocks zero f = ([], none)
  read_blocks (suc fuel) f = elim (next_frame f) [
    | raise err ↦ ([], some (raise err))
    | ok none ↦ ([], some (ok tt))
    | ok (some (full, rest)) ↦ after_frame full (read_blocks fuel rest)
  ]
