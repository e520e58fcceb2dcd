-- ===== src/Files/Limits.antt =====
-- The limits on uploads and downloads.
use py_ipfs_lite.Prelude.{
  ℕ, ◌+◌, ◌≤◌, max, Option, none, some, List, [], ◌∷◌, ◌++◌, ◌≡◌, refl, sym, ap, ◌∙◌, length, ltb,
  arith, inl, inr, length-append, append-nil, append_assoc, if_cases, if_both,
}
use py_ipfs_lite.Errors.{Error, Result, ok, ◌>>=◌, >>=-ok, ok-injective}
use py_ipfs_lite.Files.Transfer.{
  Chunk, Stream, end_of, limit_or, write_chunks, add_file_from_stream, pass_chunks, pass_first,
  get_file_stream, get_file_bytes, concat, non_empty,
}

end_of-ok : (e : Option Error) {u : Unit {0}} → end_of e ≡ ok u → e ≡ none
end_of-ok none h = refl
end_of-ok (some x) h = cc

write_chunks-ok :
    (max_size : ℕ) (cs : List Chunk) (e : Option Error) (size : ℕ) (written file : Chunk) (n : ℕ)
    → size ≡ length written
    → size ≤ max_size
    → write_chunks max_size cs e size written ≡ ok (file, n)
    → (file ≡ written ++ concat cs) × (n ≡ length file) × (n ≤ max_size) × (e ≡ none)
unfolding write_chunks concat
write_chunks-ok max_size [] e size written file n s le h =
    let (_, z, g) = >>=-ok (end_of e) (λ _. ok (written, size)) h in
    let same = ok-injective g in
    let f : written ≡ file = ap (λ x. x.0) same in
    let m : size ≡ n = ap (λ x. x.1) same in
    (
      sym f ∙ sym (append-nil written),
      sym m ∙ s ∙ ap length f,
      ground (arith, le, m),
      end_of-ok e z,
    )
write_chunks-ok max_size (c ∷ cs) e size written file n s le h =
    elim (if_cases (ltb max_size (size + length c)) h) [
      | inl (_, bad) ↦ cc
      | inr (lt, g) ↦
          let (f, l, m, z) =
            write_chunks-ok max_size cs e (size + length c) (written ++ c) file n
              (ground (arith, s, length-append written c)) (ground (arith, lt)) g in
          (f ∙ append_assoc written c (concat cs), l, m, z)
    ]

-- An upload that returns has added all chunks of a stream that ends normally, and has reported their
-- size, which is within the limit.
pub add_file_from_stream-ok :
    {Cid : Type 0} (add_file : Chunk → Result Cid) (default : ℕ) (max_size : Option ℕ) (s : Stream)
    (cid : Cid) (n : ℕ)
    → add_file_from_stream add_file default max_size s ≡ ok (cid, n)
    → (add_file (concat s.chunks) ≡ ok cid)
      × (n ≡ length (concat s.chunks))
      × (n ≤ limit_or default max_size)
      × (s.ends_with ≡ none)
unfolding add_file_from_stream
add_file_from_stream-ok add_file default max_size s cid n h =
    let ((file, size), w, g) =
      >>=-ok (write_chunks (limit_or default max_size) s.chunks s.ends_with 0 [])
        (λ (file, size). add_file file >>= (λ cid. ok (cid, size))) h in
    let (_, a, e) = >>=-ok (add_file file) (λ cid. ok (cid, size)) g in
    let (f, l, m, z) =
      write_chunks-ok (limit_or default max_size) s.chunks s.ends_with 0 [] file size refl
        (ground arith) w in
    let same = ok-injective e in
    let k : size ≡ n = ap (λ x. x.1) same in
    (
      ap add_file (sym f) ∙ a ∙ ap ok (ap (λ x. x.0) same),
      sym k ∙ l ∙ ap length f,
      ground (arith, m, k),
      z,
    )

pass_chunks-ok :
    (max_size : ℕ) (cs : List Chunk) (e : Option Error) (size : ℕ)
    → (pass_chunks max_size cs e size).ends_with ≡ none
    → ((pass_chunks max_size cs e size).chunks ≡ cs)
      × (size + length (concat cs) ≤ max size max_size)
unfolding pass_chunks concat
pass_chunks-ok max_size [] e size h = (refl, ground arith)
pass_chunks-ok max_size (c ∷ cs) e size h =
    if_both
      (λ (out : Stream).
        out.ends_with ≡ none
        → (out.chunks ≡ (c ∷ cs)) × (size + length (c ++ concat cs) ≤ max size max_size))
      (ltb max_size (size + length c)) (λ t g. absurd (ground (arith, g)))
      (λ f g.
        let (same, le) = pass_chunks-ok max_size cs e (size + length c) g in
        (ap (λ z. c ∷ z) same, ground (arith, le, f, length-append c (concat cs))))
      h

concat-non_empty : (c : Chunk) (cs : List Chunk) → concat (non_empty c cs) ≡ c ++ concat cs
unfolding concat
concat-non_empty [] cs = refl
concat-non_empty (b ∷ c) cs = refl

abbrev pub first_length : List Chunk → ℕ
first_length [] = 0
first_length (c ∷ cs) = length c

pass_first-ok :
    (max_size : ℕ) (cs : List Chunk) (e : Option Error)
    → (pass_first max_size cs e).ends_with ≡ none
    → (concat (pass_first max_size cs e).chunks ≡ concat cs)
      × (length (concat cs) ≤ max (first_length cs) max_size)
unfolding concat
pass_first-ok max_size [] e h = (refl, ground arith)
pass_first-ok max_size (c ∷ cs) e h =
    let (same, le) = pass_chunks-ok max_size cs e (length c) h in
    (
      concat-non_empty c _ ∙ ap (λ l. c ++ concat l) same,
      ground (arith, le, length-append c (concat cs)),
    )

-- A download that returns has all bytes of the stream, and no more than the larger of the limit and
-- the length of the first chunk.
pub get_file_bytes-ok :
    (default : ℕ) (max_size : Option ℕ) (s : Stream) (file : Chunk)
    → get_file_bytes default max_size s ≡ ok file
    → (file ≡ concat s.chunks)
      × (length file ≤ max (first_length s.chunks) (limit_or default max_size))
unfolding get_file_bytes get_file_stream concat
get_file_bytes-ok default max_size s file h =
    let out = get_file_stream default max_size s in
    let (_, e, g) = >>=-ok (end_of out.ends_with) (λ _. ok (concat out.chunks)) h in
    let (same, le) =
      pass_first-ok (limit_or default max_size) s.chunks s.ends_with (end_of-ok out.ends_with e) in
    let f : file ≡ concat s.chunks = sym (ok-injective g) ∙ same in
    (f, ground (arith, le, ap length f))

-- A stream of one chunk is returned whole, whatever the limit is.
pub first_chunk_unlimited :
    (default : ℕ) (max_size : Option ℕ) (c : Chunk)
    → get_file_bytes default max_size (record { chunks = c ∷ []; ends_with = none }) ≡ ok c
unfolding get_file_bytes get_file_stream pass_chunks concat
first_chunk_unlimited default max_size c = ap ok (concat-non_empty c [] ∙ append-nil c)
