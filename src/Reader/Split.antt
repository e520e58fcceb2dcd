-- ===== src/Reader/Split.antt =====
-- Reading in parts gives the same bytes as reading at once.
use py_ipfs_lite.Prelude.{
  subst, ℕ, zero, suc, ◌+◌, ◌≤◌, List, [], ◌∷◌, ◌++◌, ◌≡◌, refl, sym, ap, ◌∙◌, length, drop, take,
  arith, length-take, length-drop,
}
use py_ipfs_lite.Reader.{SeekableReader, everything, bytes, read, Offset, seek}

drop_again : (n : ℕ) (xs : List ℕ) → take n xs ++ drop (length (take n xs)) xs ≡ xs
drop_again zero xs = refl
drop_again (suc n) [] = refl
drop_again (suc n) (x ∷ xs) = ap (λ z. x ∷ z) (drop_again n xs)

drop_nil : (n : ℕ) → drop {A = ℕ} n [] ≡ []
drop_nil zero = refl
drop_nil (suc n) = refl

drop-drop : (p q : ℕ) (xs : List ℕ) → drop (p + q) xs ≡ drop q (drop p xs)
drop-drop zero q xs = ap (λ n. drop n xs) (ground arith)
drop-drop (suc p) q [] = drop_nil (suc p + q) ∙ sym (drop_nil q)
drop-drop (suc p) q (x ∷ xs) =
    let e : suc (p + q) ≡ suc p + q = ground arith in
    subst (λ n. drop n (x ∷ xs) ≡ drop q (drop p xs)) e (drop-drop p q xs)

-- From a position within the content, some bytes and then the rest are the rest at once, and the position stays within
-- the content.
pub read-read :
    (n : ℕ) (r : SeekableReader)
    → r.pos ≤ length r.content
    → (((read (bytes n) r).0 ++ (read everything (read (bytes n) r).1).0) ≡ (read everything r).0)
      × ((read (bytes n) r).1.pos ≤ length r.content)
unfolding read
read-read n r h = (
  ap (λ l. take n (drop r.pos r.content) ++ l) (drop-drop r.pos _ r.content)
      ∙ drop_again n (drop r.pos r.content),
  ground (arith, h, length-take n (drop r.pos r.content), length-drop r.pos r.content),
)

-- A position within the content stays within it.
pub seek_le :
    (offset : Offset) (whence : ℕ) (r : SeekableReader)
    → r.pos ≤ length r.content
    → (seek offset whence r).1.pos ≤ length r.content
unfolding seek
seek_le offset whence r h = ground (arith, h)
