-- ===== src/Content/Nodes.antt =====
-- `add_node`, `get_node`, `remove_node`, `get_many` and `add_file` of the peer. Announcing a CID in
-- the background changes nothing here and is left out.
use py_ipfs_lite.Prelude.{
  String, Bool, true, false, Option, none, some, List, [], ◌∷◌, ◌≡◌, sym, ap, ◌∙◌, Key, ◌==◌,
  string_eq, if◌then◌else◌, mem, arith, inl, inr, beq_refl, refl, ◌||◌,
}
use py_ipfs_lite.Errors.{
  Result, ok, raise, ◌>>=◌, block_not_found, value_error, >>=-ok, ok-injective, Result-cases,
}
use py_ipfs_lite.Dict.{Dict, get, put, remove, get-put, get-remove}
use py_ipfs_lite.Ipld.{
  Value, bytes, text, Bytes, Codecs, encode_node, encode_raw, decode_node, convert, check_nan,
  serialised,
}
use py_ipfs_lite.Ipld.Plain.{IsIpld, serialised-convert}
use py_ipfs_lite.Gc.{ensure_started}

-- The CIDs of libp2p.
pub record CidLib (Cid : Type 0) : Type 0 where
  pub compute_cid_v1 : Bytes → String → Cid
  pub format_cid : Cid → String
  pub parse_cid : String → Result Cid
  pub parse_cid_codec : Cid → Result String

module _ {Cid : Type 0} ⦃e : Key Cid⦄ (cids : CidLib Cid) (codecs : Codecs) where
  open cids use {compute_cid_v1, format_cid, parse_cid, parse_cid_codec}

  abbrev pub stored_node : String → Result Bytes → Dict Cid Bytes → Result String × Dict Cid Bytes
  stored_node codec (raise err) store = (raise err, store)
  stored_node codec (ok data') store =
      let cid = compute_cid_v1 data' codec in (ok (format_cid cid), put cid data' store)

  unfoldable pub add_node : Bool → Value → String → Dict Cid Bytes → Result String × Dict Cid Bytes
  add_node started v codec store =
      stored_node codec (do _ ← ensure_started started; encode_node codecs v codec) store

  abbrev pub or_answer : Option Bytes → Result (Option Bytes) → Result Bytes
  or_answer (some block) answer = ok block
  or_answer none (raise err) = raise err
  or_answer none (ok none) = raise block_not_found
  or_answer none (ok (some block)) = ok block

  -- `connects` is how the dial of the provider ends, ok where none is given, and `answer` what the
  -- exchange gives within the timeout.
  unfoldable pub get_node :
      Bool → Result (Unit {0}) → Result (Option Bytes) → String → Dict Cid Bytes → Result Value
  get_node started connects answer cid_str store = do
    _ ← ensure_started started
    cid ← parse_cid cid_str
    data' ← or_answer (get cid store) (connects >>= (λ _. answer))
    codec ← parse_cid_codec cid
    decode_node codecs data' codec

  abbrev pub removed_node : Result Cid → Dict Cid Bytes → Result (Unit {0}) × Dict Cid Bytes
  removed_node (raise err) store = (raise err, store)
  removed_node (ok cid) store = (ok tt, remove cid store)

  unfoldable pub remove_node : Bool → String → Dict Cid Bytes → Result (Unit {0}) × Dict Cid Bytes
  remove_node started cid_str store =
      removed_node (do _ ← ensure_started started; parse_cid cid_str) store

  -- The tasks of `get_many`: each result has the place of its CID, and where some raise, so does the
  -- call (with a group of exceptions, of which this is the first).
  unfoldable pub get_many : (String → Result Value) → List String → Result (List Value)
  get_many get_one [] = ok []
  get_many get_one (c ∷ cs) = do v ← get_one c; vs ← get_many get_one cs; ok (v ∷ vs)

  -- What a value becomes in a block of a codec.
  abbrev as_raw : Value → Value
  as_raw (text s) = bytes (codecs.utf8 s)
  as_raw v = v

  abbrev pub read_back : String → Value → Value
  read_back codec v =
      if mem codec ("dag-json" ∷ "dag-cbor" ∷ "cbor" ∷ []) then convert v else as_raw v

  encode_raw-bytes : (v : Value) (b : Bytes) → encode_raw codecs v ≡ ok b → bytes b ≡ as_raw v
  encode_raw-bytes (bytes c) b h = ap bytes (sym (ok-injective h))
  encode_raw-bytes (text s) b h = ap bytes (sym (ok-injective h))
  encode_raw-bytes v b h = cc

  get_node-local :
      (connects : Result (Unit {0})) (answer : Result (Option Bytes)) (s : String) (c : Cid)
      (b : Bytes)
      → (codec : String) (store : Dict Cid Bytes) (w : Value) → parse_cid s ≡ ok c
      → get c store ≡ some b
      → parse_cid_codec c ≡ ok codec
      → decode_node codecs b codec ≡ ok w
      → get_node true connects answer s store ≡ ok w
  unfolding get_node
  get_node-local connects answer s c b codec store w p g k d =
      ap
        (λ r. r >>= (λ cid.
          or_answer (get cid store) (connects >>= (λ _. answer))
          >>= (λ data'. parse_cid_codec cid >>= (λ codec'. decode_node codecs data' codec'))))
        p
      ∙ (ap
            (λ o.
              or_answer o (connects >>= (λ _. answer))
              >>= (λ data'. parse_cid_codec c >>= (λ codec'. decode_node codecs data' codec')))
            g
          ∙ (ap (λ r. r >>= (λ codec'. decode_node codecs b codec')) k ∙ d))

  module _
      (json : (w : Value) (b : Bytes)
        → IsIpld w
        → codecs.json_dumps w ≡ ok b
        → codecs.json_loads b ≡ ok w)
      (cbor : (w : Value) (b : Bytes)
        → IsIpld w
        → codecs.cbor_dumps w ≡ ok b
        → codecs.cbor_loads b ≡ ok w) where
    json_decodes :
        (v : Value) (b : Bytes)
        → IsIpld (convert v)
        → (serialised v >>= codecs.json_dumps) ≡ ok b
        → codecs.json_loads b ≡ ok (convert v)
    json_decodes v b i h =
        let (w, p, k) = >>=-ok (serialised v) codecs.json_dumps h in
        json (convert v) b i (ap codecs.json_dumps (serialised-convert v w p) ∙ k)

    decode_chosen :
        (x y z : Bool) (v : Value) (b : Bytes) (other : Result Value)
        → (x || y ≡ true → IsIpld (convert v))
        → (if x
            then serialised v >>= codecs.json_dumps
            else if y
            then codecs.cbor_dumps (convert v)
            else if z
            then encode_raw codecs v
            else raise value_error)
          ≡ ok b
        → (if x
            then codecs.json_loads b
            else if y
            then codecs.cbor_loads b
            else if z
            then ok (bytes b)
            else other)
          ≡ ok (if x || y then convert v else as_raw v)
    decode_chosen true y z v b other i h = json_decodes v b (i refl) h
    decode_chosen false true z v b other i h = cbor (convert v) b (i refl) h
    decode_chosen false false true v b other i h = ap ok (encode_raw-bytes v b h)
    decode_chosen false false false v b other i h = cc

    encode_decode :
        (v : Value) (codec : String) (b : Bytes)
        → (mem codec ("dag-json" ∷ "dag-cbor" ∷ "cbor" ∷ []) ≡ true → IsIpld (convert v))
        → encode_node codecs v codec ≡ ok b
        → decode_node codecs b codec ≡ ok (read_back codec v)
    unfolding encode_node decode_node
    encode_decode v codec b i h =
        let (_, _, k) =
          >>=-ok (if mem codec ("dag-json" ∷ "dag-cbor" ∷ "cbor" ∷ []) then check_nan v else ok tt)
            _ h in
        decode_chosen (codec == "dag-json") (mem codec ("dag-cbor" ∷ "cbor" ∷ [])) (codec == "raw")
          v b _ i k

    -- Where JSON and CBOR round trip on the values of the IPLD data model, the CIDs of libp2p round trip
    -- and keep their codec, and the node, with its `IPLDNode`s as texts, is such a value if its codec
    -- is dag-json, dag-cbor or cbor: the text that a call of `add_node` returns reads the node back,
    -- whatever the exchange says, as its codec keeps it: with `IPLDNode`s as texts, and as bytes with
    -- raw.
    pub add_node-get_node :
        ((c : Cid) → parse_cid (format_cid c) ≡ ok c)
        → ((b : Bytes) (codec : String) → parse_cid_codec (compute_cid_v1 b codec) ≡ ok codec)
        → (v : Value) (codec : String) (store : Dict Cid Bytes) (s : String)
        → (mem codec ("dag-json" ∷ "dag-cbor" ∷ "cbor" ∷ []) ≡ true → IsIpld (convert v))
        → (add_node true v codec store).0 ≡ ok s
        → (connects : Result (Unit {0})) (answer : Result (Option Bytes))
        → get_node true connects answer s (add_node true v codec store).1 ≡ ok (read_back codec v)
    unfolding add_node get_node
    add_node-get_node parses codec_of v codec store s i h connects answer =
        elim (Result-cases (encode_node codecs v codec)) [
          | inr (err, p) ↦ absurd (ground (arith, h, p))
          | inl (b, p) ↦
              let cid = compute_cid_v1 b codec in
              let added : add_node true v codec store ≡ (ok (format_cid cid), put cid b store) =
                ap (λ r. stored_node codec r store) p in
              get_node-local connects answer s cid b codec (add_node true v codec store).1
                (read_back codec v)
                (ap parse_cid (ok-injective (sym h ∙ ap (λ r. r.0) added)) ∙ parses cid)
                (ap (λ r. get cid r.1) added
                  ∙ ground (arith, get-put cid cid b store, beq_refl cid))
                (codec_of b codec) (encode_decode v codec b i p)
        ]

  -- A removal of a CID that parses returns, and the block is gone.
  pub remove_node-get :
      (s : String) (c : Cid) (store : Dict Cid Bytes)
      → parse_cid s ≡ ok c
      → ((remove_node true s store).0 ≡ ok tt) × (get c (remove_node true s store).1 ≡ none)
  unfolding remove_node
  remove_node-get s c store p = (
    ap (λ r. (removed_node r store).0) p,
    ap (λ r. get c (removed_node r store).1) p ∙ ground (arith, get-remove c c store, beq_refl c),
  )
