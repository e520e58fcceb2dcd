-- ===== src/Files/Transfer.antt =====
-- `add_file_from_stream`, `get_file_stream` and `get_file_bytes`.
use py_ipfs_lite.Prelude.{
  ℕ, ◌+◌, Option, none, some, List, [], ◌∷◌, ◌++◌, if◌then◌else◌, length, ltb,
}
use py_ipfs_lite.Errors.{Error, Result, ok, raise, ◌>>=◌, payload_too_large}

abbrev pub Chunk : Type 0
Chunk = List ℕ

-- An asynchronous iterator: what it yields, and the exception that it ends with, if any.
pub record Stream : Type 0 where
  pub chunks : List Chunk
  pub ends_with : Option Error

abbrev pub end_of : Option Error → Result (Unit {0})
end_of none = ok tt
end_of (some e) = raise e

-- The loop that writes the upload to the temporary file: the file and its
-- size, or the exception.
unfoldable pub write_chunks : ℕ → List Chunk → Option Error → ℕ → Chunk → Result (Chunk × ℕ)
write_chunks max_size [] e size written = end_of e >>= (λ _. ok (written, size))
write_chunks max_size (c ∷ cs) e size written =
    let rest = write_chunks max_size cs e (size + length c) (written ++ c) in
    if ltb max_size (size + length c) then raise payload_too_large else rest

-- max_size or default: 0 counts as missing
abbrev pub limit_or : ℕ → Option ℕ → ℕ
limit_or default none = default
limit_or default (some n) = if ltb 0 n then n else default

-- `add_file` is `peer.add_file`, given the content of the temporary file. The result is the CID and
-- the size.
unfoldable pub add_file_from_stream :
    {Cid : Type 0} → (Chunk → Result Cid) → ℕ → Option ℕ → Stream → Result (Cid × ℕ)
unfolding write_chunks
add_file_from_stream add_file default max_size s =
    write_chunks (limit_or default max_size) s.chunks s.ends_with 0 []
    >>= (λ (file, size). add_file file >>= (λ cid. ok (cid, size)))

-- The loop of `get_file_stream` after the first chunk.
unfoldable pub pass_chunks : ℕ → List Chunk → Option Error → ℕ → Stream
pass_chunks max_size [] e size = record { chunks = []; ends_with = e }
pass_chunks max_size (c ∷ cs) e size =
    let rest = pass_chunks max_size cs e (size + length c) in
    if ltb max_size (size + length c)
    then record { chunks = []; ends_with = some payload_too_large }
    else record { chunks = c ∷ rest.chunks; ends_with = rest.ends_with }

abbrev pub non_empty : Chunk → List Chunk → List Chunk
non_empty [] cs = cs
non_empty (b ∷ c) cs = (b ∷ c) ∷ cs

abbrev pub pass_first : ℕ → List Chunk → Option Error → Stream
pass_first max_size [] e = record { chunks = []; ends_with = e }
pass_first max_size (c ∷ cs) e =
    let rest = pass_chunks max_size cs e (length c) in
    record { chunks = non_empty c rest.chunks; ends_with = rest.ends_with }

-- The first chunk is yielded before the size is compared.
unfoldable pub get_file_stream : ℕ → Option ℕ → Stream → Stream
unfolding pass_chunks
get_file_stream default max_size s = pass_first (limit_or default max_size) s.chunks s.ends_with

unfoldable pub concat : List Chunk → Chunk
concat [] = []
concat (c ∷ cs) = c ++ concat cs

unfoldable pub get_file_bytes : ℕ → Option ℕ → Stream → Result Chunk
unfolding concat get_file_stream
get_file_bytes default max_size s =
    let out = get_file_stream default max_size s in
    end_of out.ends_with >>= (λ _. ok (concat out.chunks))
