-- ===== src/Car/Imported.antt =====
-- What is exported is imported again.
use py_ipfs_lite.Prelude.{
  ℕ, suc, Bool, true, false, Option, some, List, [], ◌∷◌, ◌++◌, ◌≡◌, refl, sym, ap, ◌∙◌, subst, Key,
  mem, length, All, In, inl, inr, arith, ==_iff, beq_refl, if◌then◌else◌, is_some,
}
use py_ipfs_lite.Errors.{Result, ok, raise, ◌>>=◌, car_parse_error}
use py_ipfs_lite.Dict.{Dict, get, put, has, get-put, Distinct}
use py_ipfs_lite.Dag.{DagLib}
use py_ipfs_lite.Dag.Reach.{Reach, walk-Distinct}
use py_ipfs_lite.Car.Frames.{Bytes, read_length}
use py_ipfs_lite.Car.Blocks.{Block, sections, export_from}
use py_ipfs_lite.Car.RoundTrip.{IsReadable, read_exactly_lem, read_blocks-sections}
use py_ipfs_lite.Car.Exported.{cids, export_from-Matches, export_from-Reach, expand_strict}
use py_ipfs_lite.Car.Archive.{
  archive, put_all, Header, parse_roots, roots_of, read_header, finish, import_blocks, import_body,
  import_car, check_roots,
}

module _ ⦃e : Key Bytes⦄ where
  put_all_other :
      (c : Bytes) (bs : List Block) (store : Dict Bytes Bytes)
      → mem c (cids bs) ≡ false
      → get c (put_all bs store) ≡ get c store
  unfolding put_all
  put_all_other c [] store h = refl
  put_all_other c (b ∷ bs) store h =
      put_all_other c bs (put b.0 b.1 store) (ground (arith, h))
      ∙ ground (arith, get-put b.0 c b.1 store, h, ==_iff c b.0, ==_iff b.0 c)

  In-cids : (c content : Bytes) (bs : List Block) → In (c, content) bs → In c (cids bs)
  In-cids c content [] i = absurd i
  In-cids c content (b ∷ bs) (inl p) = inl (ap (λ z. z.0) p)
  In-cids c content (b ∷ bs) (inr i) = inr (In-cids c content bs i)

  put_all-get :
      (c content : Bytes) (bs : List Block) (store : Dict Bytes Bytes)
      → Distinct (cids bs)
      → In (c, content) bs
      → get c (put_all bs store) ≡ some content
  unfolding put_all
  put_all-get c content [] store d i = absurd i
  put_all-get c content (b ∷ bs) store d (inl p) =
      subst (λ (z : Block). get z.0 (put_all bs (put b.0 b.1 store)) ≡ some z.1) (sym p)
        (put_all_other b.0 bs (put b.0 b.1 store) d.0
          ∙ ground (arith, get-put b.0 b.0 b.1 store, beq_refl b.0))
  put_all-get c content (b ∷ bs) store d (inr i) =
      put_all-get c content bs (put b.0 b.1 store) d.1 i

  module _ (encode : ℕ → Bytes) (header : Bytes → Bytes) (loads : Bytes → Result Header)
      (parse_cid : Bytes → Result Bytes) (cid_len : Bytes → Result ℕ)
      (verified : Bytes → Bytes → Bool) (lib : DagLib Bytes Bytes) where
    -- The header of a root is read back: its length, its version and the root.
    pub record ReadsBack (root : Bytes) : Type 0 where
      pub has_varint :
          (f : Bytes)
          → read_length (encode (length (header root)) ++ f) ≡ ok (length (header root), f)
      pub has_header :
          loads (header root) ≡ ok (record { version_one = true; tagged_roots = root ∷ [] })
      pub has_root : parse_cid root ≡ ok root

    read_header_lem :
        (root rest : Bytes)
        → ReadsBack root
        → read_header loads parse_cid cid_len verified lib
            (length (header root))
            (header root ++ rest)
          ≡ ok (root ∷ [], rest)
    unfolding parse_roots
    read_header_lem root rest r =
        ap
          (λ z. z >>= (λ (h, rest). loads h >>= (λ d.
            roots_of loads parse_cid cid_len verified lib d >>= (λ roots. ok (roots, rest)))))
          (read_exactly_lem (header root) rest)
        ∙ (ap
              (λ z. z >>= (λ d.
                roots_of loads parse_cid cid_len verified lib d >>= (λ roots. ok (roots, rest))))
              r.has_header
            ∙ ap (λ z. (z >>= (λ c. ok (c ∷ []))) >>= (λ roots. ok (roots, rest))) r.has_root)

    -- The import of an archive, in terms of its blocks.
    import_archive :
        (root : Bytes) (bs : List Block) (store : Dict Bytes Bytes)
        → ReadsBack root
        → All (IsReadable encode cid_len verified) bs
        → import_car loads parse_cid cid_len verified lib
            (suc (length bs))
            false
            (archive encode header root bs)
            store
          ≡ finish loads parse_cid cid_len verified lib false
              (root ∷ [])
              (put_all bs store)
              (some (ok tt))
    unfolding import_car
    import_archive root bs store r a =
        ap (import_body loads parse_cid cid_len verified lib (suc (length bs)) false store)
          (r.has_varint (header root ++ sections encode bs))
        ∙ (ap (import_blocks loads parse_cid cid_len verified lib (suc (length bs)) false store)
              (read_header_lem root (sections encode bs) r)
            ∙ ap
                (λ z.
                  finish loads parse_cid cid_len verified lib false (root ∷ []) (put_all z.0 store)
                    z.1)
                (read_blocks-sections encode cid_len verified bs a))

    -- Where the header of a root is read back and every exported block is readable: an import of what
    -- was exported, without the strict walk, returns the root, and afterwards every block that can be
    -- reached from the root is in the store, with the data that was exported.
    pub import_car-Reach :
        (fetch : Bytes → Option Bytes) (links : Bytes → Bytes → List Bytes) (fuel : ℕ)
        (root : Bytes) (bs : List Block)
        → (store : Dict Bytes Bytes) → export_from fetch links fuel (root ∷ []) [] ≡ some (ok bs)
        → ReadsBack root
        → All (IsReadable encode cid_len verified) bs
        → let imported =
            import_car loads parse_cid cid_len verified lib
              (suc (length bs))
              false
              (archive encode header root bs)
              store in
          (imported.0 ≡ some (ok (root ∷ [])))
          × ((c : Bytes)
              → Reach (expand_strict fetch links) root c
              → (content : Bytes) × (fetch c ≡ some content) × (get c imported.1 ≡ some content))
    unfolding check_roots
    import_car-Reach fetch links fuel root bs store x r a =
        let imported =
          import_car loads parse_cid cid_len verified lib (suc (length bs)) false
            (archive encode header root bs) store in
        let same = import_archive root bs store r a in
        let m = export_from-Matches fetch links fuel (root ∷ []) [] bs x in
        let distinct =
          subst Distinct (sym m.same) (walk-Distinct (expand_strict fetch links) fuel root) in
        let stored : (c content : Bytes)
            → In (c, content) bs
            → get c (put_all bs store) ≡ some content =
          λ c content i. put_all-get c content bs store distinct i in
        let (content, i, _) = export_from-Reach fetch links fuel root root bs x Reach.start in
        let there : has root (put_all bs store) ≡ true = ap is_some (stored root content i) in
        (
          ap (λ z. z.0) same
              ∙ ap
                  (λ b. some (
                    (if b then ok tt >>= (λ _. ok tt) else raise car_parse_error)
                    >>= (λ _. ok (root ∷ []))))
                  there,
          λ c y.
              let (d, j, f) = export_from-Reach fetch links fuel root c bs x y in
              (d, f, ap (λ z. get c z.1) same ∙ stored c d j),
        )
