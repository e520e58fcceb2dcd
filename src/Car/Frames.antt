-- ===== src/Car/Frames.antt =====
-- `_read_exactly`, `_read_varint` and `get_cid_len`.
use py_ipfs_lite.Prelude.{
  ℕ, ◌+◌, ◌-◌, ◌*◌, ◌%◌, Bool, false, ◌&&◌, List, [], ◌∷◌, if◌then◌else◌, length, drop, take, leb,
  nat_beq,
}
use py_ipfs_lite.Errors.{Error, Result, ok, raise, ◌>>=◌, eof_error, type_error}

abbrev pub Bytes : Type 0
Bytes = List ℕ

-- The bytes, and the rest of the file.
abbrev pub read_exactly : ℕ → Bytes → Result (Bytes × Bytes)
read_exactly n f = if leb n (length f) then ok (take n f, drop n f) else raise eof_error

-- `unit` is 1 << shift; the bits that are or-ed in are not set yet, so they are added. An end of the
-- file is a TypeError before the first byte and an EOFError later.
unfoldable pub read_varint : Error → ℕ → ℕ → Bytes → Result (ℕ × Bytes)
read_varint at_end unit result [] = raise at_end
read_varint at_end unit result (val ∷ f) =
    let n = result + (val % 128) * unit in
    let more = read_varint eof_error (unit * 128) n f in if leb 128 val then more else ok (n, f)

abbrev pub read_length : Bytes → Result (ℕ × Bytes)
read_length f = read_varint type_error 1 0 f

abbrev pub is_cid_v0 : Bytes → Bool
is_cid_v0 (a ∷ b ∷ rest) = nat_beq a 18 && nat_beq b 32 && leb 32 (length rest)
is_cid_v0 _ = false

-- `decode_stream` is `varint.decode_stream`: the number and the rest of the stream.
module _ (decode_stream : Bytes → Result (ℕ × Bytes)) where
  -- Where the stream stands after the hash of length `mh_len`.
  abbrev pub cid_end : Bytes → ℕ × Bytes → ℕ
  cid_end content (mh_len, rest) = length content - length (drop mh_len rest)

  abbrev pub get_cid_len : Bytes → Result ℕ
  get_cid_len content =
      if is_cid_v0 content
      then ok 34
      else (decode_stream content
          >>= (λ (version, s). decode_stream s)
          >>= (λ (codec, s). decode_stream s)
          >>= (λ (mh_code, s). decode_stream s)
          >>= (λ found. ok (cid_end content found)))
