-- ===== src/Car/RoundTrip.antt =====
-- What `export_car` writes is what `import_car` reads.
use py_ipfs_lite.Prelude.{
  ℕ, suc, ◌+◌, ◌<◌, Bool, true, Option, some, List, [], ◌∷◌, ◌++◌, ◌≡◌, refl, sym, ap, ◌∙◌, subst,
  length, drop, take, arith, All, append_assoc, length-append, leb, if_both,
}
use py_ipfs_lite.Errors.{Result, ok, ◌>>=◌}
use py_ipfs_lite.Car.Frames.{Bytes, read_exactly, read_length, read_varint}
use py_ipfs_lite.Car.Blocks.{
  Block, section, sections, checked, split_block, is_empty, then_store, read_frame, next_frame,
  after_frame, read_blocks,
}

take_append : (xs ys : Bytes) → take (length xs) (xs ++ ys) ≡ xs
take_append [] ys = refl
take_append (x ∷ xs) ys = ap (λ z. x ∷ z) (take_append xs ys)

drop_append : (xs ys : Bytes) → drop (length xs) (xs ++ ys) ≡ ys
drop_append [] ys = refl
drop_append (x ∷ xs) ys = drop_append xs ys

pair_path : {a b c d : Bytes} → a ≡ b → c ≡ d → ◌≡◌ {A = Bytes × Bytes} (a, c) (b, d)
pair_path p q = cc

pub read_exactly_lem : (xs ys : Bytes) → read_exactly (length xs) (xs ++ ys) ≡ ok (xs, ys)
read_exactly_lem xs ys =
    if_both (λ (r : Result (Bytes × Bytes)). r ≡ ok (xs, ys)) (leb (length xs) (length (xs ++ ys)))
      (λ e. ap ok (pair_path (take_append xs ys) (drop_append xs ys)))
      (λ e. absurd (ground (arith, e, length-append xs ys)))

module _ (encode : ℕ → Bytes) (cid_len : Bytes → Result ℕ) (verified : Bytes → Bytes → Bool) where
  -- The block can be told from its frame: its length is encoded as `_read_varint` decodes it, it has
  -- a CID whose length is found, and its hash is right.
  pub record IsReadable (b : Block) : Type 0 where
    pub has_varint :
        (f : Bytes)
        → read_length (encode (length b.0 + length b.1) ++ f) ≡ ok (length b.0 + length b.1, f)
    pub non_empty : 0 < length b.0
    pub has_length : cid_len (b.0 ++ b.1) ≡ ok (length b.0)
    pub is_right : verified b.0 b.1 ≡ true

  split_block_lem : (b : Block) → IsReadable b → split_block cid_len verified (b.0 ++ b.1) ≡ ok b
  split_block_lem b h =
      subst
        (λ (r : Result ℕ).
          (r >>= (λ n. checked cid_len verified (take n (b.0 ++ b.1), drop n (b.0 ++ b.1)))) ≡ ok b)
        (sym h.has_length)
        (ap (checked cid_len verified) (pair_path (take_append b.0 b.1) (drop_append b.0 b.1))
          ∙ ground (arith, h.is_right))

  step :
      (fuel : ℕ) (f full rest : Bytes)
      → next_frame f ≡ ok (some (full, rest))
      → read_blocks cid_len verified (suc fuel) f
        ≡ after_frame cid_len verified full (read_blocks cid_len verified fuel rest)
  unfolding read_blocks
  step fuel f full rest e = ground (arith, e)

  framed :
      (b : Block) (f : Bytes)
      → IsReadable b
      → next_frame (section encode b ++ f) ≡ ok (some (b.0 ++ b.1, f))
  unfolding next_frame
  framed b f h =
      ap next_frame (append_assoc (encode (length b.0 + length b.1)) (b.0 ++ b.1) f)
      ∙ ap read_frame (h.has_varint ((b.0 ++ b.1) ++ f))
      ∙ ap (λ n. read_frame (ok (n, (b.0 ++ b.1) ++ f))) (sym (length-append b.0 b.1))
      ∙ ap (λ (r : Result (Bytes × Bytes)). r >>= (λ frame. ok (some frame)))
          (read_exactly_lem (b.0 ++ b.1) f)

  stored :
      (b : Block) (rest : List Block × Option (Result (Unit {0})))
      → IsReadable b
      → after_frame cid_len verified (b.0 ++ b.1) rest ≡ (b ∷ rest.0, rest.1)
  stored b rest h =
      if_both (λ (r : List Block × Option (Result (Unit {0}))). r ≡ (b ∷ rest.0, rest.1))
        (is_empty cid_len verified (b.0 ++ b.1)) (λ e. absurd (not_empty b.0 b.1 h.non_empty e))
        (λ e. ap (λ r. then_store cid_len verified r rest) (split_block_lem b h))
    where
      not_empty : (x y : Bytes) → 0 < length x → is_empty cid_len verified (x ++ y) ≡ true → ⊥
      not_empty [] y l e = ground (arith, l)
      not_empty (x ∷ xs) y l e = ground (arith, e)

  read_section :
      (fuel : ℕ) (b : Block) (f : Bytes)
      → IsReadable b
      → read_blocks cid_len verified (suc fuel) (section encode b ++ f)
        ≡ (b ∷ (read_blocks cid_len verified fuel f).0, (read_blocks cid_len verified fuel f).1)
  read_section fuel b f h =
      step fuel (section encode b ++ f) (b.0 ++ b.1) f (framed b f h)
      ∙ stored b (read_blocks cid_len verified fuel f) h

  -- Where every block is readable, all blocks that are written are stored again in their order, and
  -- the loop ends without an error.
  pub read_blocks-sections :
      (bs : List Block)
      → All IsReadable bs
      → read_blocks cid_len verified (suc (length bs)) (sections encode bs) ≡ (bs, some (ok tt))
  unfolding read_blocks sections read_varint
  read_blocks-sections [] h = refl
  read_blocks-sections (b ∷ bs) h =
      read_section (suc (length bs)) b (sections encode bs) h.0
      ∙ ap (λ r. (b ∷ r.0, r.1)) (read_blocks-sections bs h.1)
