-- ===== src/Files/Tests.antt =====
-- Uploads and downloads of two chunks.
use py_ipfs_lite.Prelude.{ℕ, ◌≤◌, max, none, [], ◌∷◌, ◌≡◌, refl, length}
use py_ipfs_lite.Errors.{Result, ok}
use py_ipfs_lite.Files.Transfer.{
  Chunk, Stream, limit_or, pass_chunks, get_file_stream, get_file_bytes, concat,
}
use py_ipfs_lite.Files.Limits.{first_length, get_file_bytes-ok, first_chunk_unlimited}

abbrev two_chunks : Stream
two_chunks = record { chunks = (1 ∷ 2 ∷ []) ∷ (3 ∷ []) ∷ []; ends_with = none }

abbrev three : Chunk
three = 1 ∷ 2 ∷ 3 ∷ []

abbrev to_length : Chunk → Result ℕ
to_length c = ok (length c)

get_file_bytes-ok_example :
    (three ≡ concat two_chunks.chunks)
    × (length three ≤ max (first_length two_chunks.chunks) (limit_or 3 none))
unfolding get_file_bytes get_file_stream pass_chunks concat
get_file_bytes-ok_example = get_file_bytes-ok 3 none two_chunks three refl

first_chunk_example :
    get_file_bytes 1 none (record { chunks = (7 ∷ 8 ∷ 9 ∷ []) ∷ []; ends_with = none })
    ≡ ok (7 ∷ 8 ∷ 9 ∷ [])
first_chunk_example = first_chunk_unlimited 1 none (7 ∷ 8 ∷ 9 ∷ [])
