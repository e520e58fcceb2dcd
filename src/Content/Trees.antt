-- ===== src/Content/Trees.antt =====
-- A file as a tree, its bytes, and that a download of it returns them.
use py_ipfs_lite.Prelude.{
  ℕ, zero, suc, ◌≤◌, max, Bool, false, Option, some, List, [], ◌∷◌, ◌++◌, ◌≡◌, refl, sym, ap, ◌∙◌,
  subst, string_eq, length, arith, append-nil,
}
use py_ipfs_lite.Errors.{Result, ok, ◌>>=◌}
use py_ipfs_lite.Files.Transfer.{Chunk, Stream, concat, end_of}
use py_ipfs_lite.Reader.{new_reader}
use py_ipfs_lite.Content.Yields.{
  data_of, batch_size-positive, Yields, leaf_data-Yields, AllYield, stream_batches-Yields,
}
use py_ipfs_lite.Content.Stream.{
  FileLib, batch_size, stream_block, stream_fetched, stream_file, stream_dag_pb, fetch_stream,
  get_file, dialled,
}

-- A raw block, a UnixFS node without links, or one with links.
mutual
  pub data Tree : Type 0 where
    raw_block : Chunk → Tree
    leaf : Option Chunk → Tree
    branch : Tree → Forest → Tree

  pub data Forest : Type 0 where
    no_more : Forest
    more : Tree → Forest → Forest

-- The bytes of a file, by the order of its links.
unfoldable mutual
  pub content : Tree → Chunk
  content (raw_block c) = c
  content (leaf d) = data_of d
  content (branch t ts) = content t ++ contents ts

  pub contents : Forest → Chunk
  contents no_more = []
  contents (more t ts) = content t ++ contents ts

-- The bytes of each tree of a forest.
unfoldable pub pieces : Forest → List Chunk
pieces no_more = []
pieces (more t ts) = content t ∷ pieces ts

unfoldable mutual
  pub height : Tree → ℕ
  height (raw_block c) = 1
  height (leaf d) = 1
  height (branch t ts) = suc (max (height t) (heights ts))

  pub heights : Forest → ℕ
  heights no_more = 0
  heights (more t ts) = max (height t) (heights ts)

concat-pieces : (ts : Forest) → concat (pieces ts) ≡ contents ts
unfolding concat pieces content
concat-pieces no_more = refl
concat-pieces (more t ts) = ap (λ z. content t ++ z) (concat-pieces ts)

module _ {Cid : Type 0} (lib : FileLib Cid) (batch_fetch : Bool)
    (fetch : Cid → Result (Option Chunk)) where
  open lib use {parse_cid_codec, is_directory_node, decode_dag_pb}

  -- The block under a CID is a UnixFS node of a file, with these links and data.
  abbrev pub IsNode : Cid → List Cid → Option Chunk → Type 0
  IsNode c ls d =
      (block : Chunk) × (fetch c ≡ ok (some block))
      × (parse_cid_codec c ≡ ok "dag-pb")
      × (is_directory_node block ≡ ok false)
      × (decode_dag_pb block ≡ ok (ls, d))

  -- The tree is stored under a CID: each of its blocks can be fetched, and decodes to its links.
  unfoldable mutual
    pub Stored : Cid → Tree → Type 0
    Stored c (raw_block b) = (fetch c ≡ ok (some b)) × (parse_cid_codec c ≡ ok "raw")
    Stored c (leaf d) = IsNode c [] d
    Stored c (branch t ts) =
        (l : Cid) × (ls : List Cid) × (d : Option Chunk) × IsNode c (l ∷ ls) d
        × Stored l t
        × AllStored ls ts

    pub AllStored : List Cid → Forest → Type 0
    AllStored [] no_more = Unit
    AllStored (l ∷ ls) (more t ts) = Stored l t × AllStored ls ts
    AllStored _ _ = ⊥

  abbrev stream : ℕ → Cid → Stream
  stream = fetch_stream lib batch_fetch fetch

  stream-IsNode :
      (fuel : ℕ) (c : Cid) (ls : List Cid) (d : Option Chunk)
      → IsNode c ls d
      → stream (suc fuel) c ≡ stream_file lib batch_fetch fetch (stream fuel) (ok (ls, d))
  unfolding fetch_stream
  stream-IsNode fuel c ls d (block, f, k, n, e) =
      ap (stream_fetched lib batch_fetch fetch (stream fuel) c) f
      ∙ (ap (stream_block lib batch_fetch fetch (stream fuel) block) k
          ∙ (ap (stream_dag_pb lib batch_fetch fetch (stream fuel) block) n
              ∙ ap (stream_file lib batch_fetch fetch (stream fuel)) e))

  mutual
    unfolding height content Stored fetch_stream concat pieces

    Stored-Yields :
        (fuel : ℕ) (c : Cid) (t : Tree)
        → height t ≤ fuel
        → Stored c t
        → Yields (stream fuel c) (content t)
    Stored-Yields zero c (raw_block b) h s = absurd (omega (arith, h))
    Stored-Yields zero c (leaf d) h s = absurd (omega (arith, h))
    Stored-Yields zero c (branch t ts) h s = absurd (omega (arith, h))
    Stored-Yields (suc fuel) c (raw_block b) h (f, k) =
        subst (λ z. Yields z b)
          (sym (
            ap (stream_fetched lib batch_fetch fetch (stream fuel) c) f
            ∙ ap (stream_block lib batch_fetch fetch (stream fuel) b) k))
          (refl, append-nil b)
    Stored-Yields (suc fuel) c (leaf d) h n =
        subst (λ z. Yields z (data_of d)) (sym (stream-IsNode fuel c [] d n)) (leaf_data-Yields d)
    Stored-Yields (suc fuel) c (branch t ts) h (l, ls, d, n, s, ss) =
        subst (λ z. Yields z (content (branch t ts))) (sym (stream-IsNode fuel c (l ∷ ls) d n))
          (subst (Yields (stream_file lib batch_fetch fetch (stream fuel) (ok (l ∷ ls, d))))
            (concat-pieces (more t ts))
            (stream_batches-Yields (stream fuel) (length (l ∷ ls)) (batch_size batch_fetch) (l ∷ ls)
              (pieces (more t ts)) (batch_size-positive batch_fetch) (omega arith)
              (
                Stored-Yields fuel l t (omega (arith, h)) s,
                AllStored-AllYield fuel ls ts (omega (arith, h)) ss,
              )))

    AllStored-AllYield :
        (fuel : ℕ) (ls : List Cid) (ts : Forest)
        → heights ts ≤ fuel
        → AllStored ls ts
        → AllYield (stream fuel) ls (pieces ts)
    AllStored-AllYield fuel [] no_more h s = tt
    AllStored-AllYield fuel [] (more t ts) h s = elim s [ ]
    AllStored-AllYield fuel (l ∷ ls) no_more h s = elim s [ ]
    AllStored-AllYield fuel (l ∷ ls) (more t ts) h (s, ss) = (
      Stored-Yields fuel l t (omega (arith, h)) s,
      AllStored-AllYield fuel ls ts (omega (arith, h)) ss,
    )

  -- Where a file is stored under a CID, its provider can be dialled if the root is missing, and the
  -- fuel is at least its height, a download returns a reader over its bytes in the order of the
  -- links, whether blocks are fetched in batches or one by one.
  pub get_file-content :
      (fuel : ℕ) (provider : Option (Result (Unit {0}))) (has_root : Bool) (c : Cid) (t : Tree)
      → dialled lib batch_fetch fetch provider has_root ≡ ok tt
      → Stored c t
      → height t ≤ fuel
      → get_file lib batch_fetch fetch fuel provider has_root c ≡ ok (new_reader (content t))
  unfolding get_file
  get_file-content fuel provider has_root c t d s h =
      let (e, p) = Stored-Yields fuel c t h s in
      ap
        (λ r. r >>= (λ _.
          end_of (stream fuel c).ends_with
          >>= (λ _. ok (new_reader (concat (stream fuel c).chunks)))))
        d
      ∙ (ap (λ o. end_of o >>= (λ _. ok (new_reader (concat (stream fuel c).chunks)))) e
          ∙ ap (λ z. ok (new_reader z)) p)
