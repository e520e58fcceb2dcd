-- ===== src/Reader.antt =====
-- `SeekableReader` of py_ipfs_lite/peer/ipld.py: a cursor over bytes in memory.
pub mod Split
mod Tests
use py_ipfs_lite.Prelude.{
  ℕ, ◌+◌, ◌-◌, Option, none, some, List, length, drop, take, min, if◌then◌else◌, nat_beq,
}
use py_ipfs_lite.Errors.{Error, Result, ok, raise, value_error}

pub record SeekableReader : Type 0 where
  pub content : List ℕ
  pub pos : ℕ

-- `__init__`
abbrev pub new_reader : List ℕ → SeekableReader
new_reader content = record { content = content; pos = 0 }

-- The argument of `read`: -1, or a number of bytes. Other negative numbers are not modelled.
pub data Amount : Type 0 where
  everything : Amount
  bytes : ℕ → Amount

unfoldable pub read : Amount → SeekableReader → List ℕ × SeekableReader
read everything r = (drop r.pos r.content, record r { pos = length r.content })
read (bytes n) r =
    let result = take n (drop r.pos r.content) in (result, record r { pos = r.pos + length result })

-- An offset of Python: not negative, or the negative of the number.
pub data Offset : Type 0 where
  forward back : ℕ → Offset

-- max(0, base + offset)
abbrev pub moved : ℕ → Offset → ℕ
moved base (forward n) = base + n
moved base (back n) = base - n

abbrev pub clamped : ℕ → SeekableReader → Result ℕ × SeekableReader
clamped p r = let q = min p (length r.content) in (ok q, record r { pos = q })

unfoldable pub seek : Offset → ℕ → SeekableReader → Result ℕ × SeekableReader
seek offset whence r =
    if nat_beq whence 0
    then clamped (moved 0 offset) r
    else (if nat_beq whence 1
        then clamped (moved r.pos offset) r
        else (if nat_beq whence 2
            then clamped (moved (length r.content) offset) r
            else (raise value_error, r)))

abbrev pub tell : SeekableReader → ℕ
tell r = r.pos
