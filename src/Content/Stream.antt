-- ===== src/Content/Stream.antt =====
-- `get_file`: the generator `fetch_stream`, which follows the links of a file depth first. A CID is
-- given; `fetch` is what the exchange answers within the timeout. A recursion that is deeper than
-- the fuel raises.
use py_ipfs_lite.Prelude.{
  ℕ, zero, suc, String, Bool, true, false, Option, none, some, List, [], ◌∷◌, ◌++◌, ◌==◌, string_eq,
  if◌then◌else◌, length, take, drop,
}
use py_ipfs_lite.Errors.{Error, Result, ok, raise, ◌>>=◌, block_not_found, recursion_error}
use py_ipfs_lite.Files.Transfer.{Chunk, Stream, concat, end_of}
use py_ipfs_lite.Reader.{SeekableReader, new_reader}

-- What is used of libp2p.
pub record FileLib (Cid : Type 0) : Type 0 where
  pub parse_cid_codec : Cid → Result String
  pub is_directory_node : Chunk → Result Bool
  -- the CIDs of the links, and the data of the UnixFS node if there is one
  pub decode_dag_pb : Chunk → Result (List Cid × Option Chunk)

abbrev pub no_chunks : Stream
no_chunks = record { chunks = []; ends_with = none }

abbrev pub one_chunk : Chunk → Stream
one_chunk c = record { chunks = c ∷ []; ends_with = none }

abbrev pub fails : Error → Stream
fails e = record { chunks = []; ends_with = some e }

-- One generator and then, if it ends normally, another.
abbrev pub after : Option Error → Stream → Stream
after (some e) t = fails e
after none t = t

abbrev pub and_then : Stream → Stream → Stream
and_then s t =
    let rest = after s.ends_with t in
    record { chunks = s.chunks ++ rest.chunks; ends_with = rest.ends_with }

-- if unixfs and unixfs.data: yield it
abbrev pub leaf_data : Option Chunk → Stream
leaf_data none = no_chunks
leaf_data (some []) = no_chunks
leaf_data (some (b ∷ bs)) = one_chunk (b ∷ bs)

-- links[i : i + batch_size] for i in range(0, len(links), batch_size); the fuel is a bound on the
-- number of batches.
unfoldable pub batches : {A : Type 0} → ℕ → ℕ → List A → List (List A)
batches zero n xs = []
batches (suc fuel) n [] = []
batches (suc fuel) n (x ∷ xs) = take n (x ∷ xs) ∷ batches fuel n (drop n (x ∷ xs))

-- The loops over the links of a batch, and over the batches; `s` is the generator of a link.
unfoldable pub stream_links : {A : Type 0} → (A → Stream) → List A → Stream
stream_links s [] = no_chunks
stream_links s (l ∷ ls) = and_then (s l) (stream_links s ls)

unfoldable pub stream_batches : {A : Type 0} → (A → Stream) → List (List A) → Stream
unfolding stream_links
stream_batches s [] = no_chunks
stream_batches s (b ∷ bs) = and_then (stream_links s b) (stream_batches s bs)

-- 32 where the configuration asks for batches
abbrev pub batch_size : Bool → ℕ
batch_size true = 32
batch_size false = 1

module _ {Cid : Type 0} (lib : FileLib Cid) (batch_fetch : Bool)
    (fetch : Cid → Result (Option Chunk)) where
  -- A directory: only its first entry is streamed.
  abbrev pub stream_directory : (Cid → Stream) → Result (List Cid × Option Chunk) → Stream
  stream_directory s (raise e) = fails e
  stream_directory s (ok ([], data')) = no_chunks
  stream_directory s (ok (l ∷ ls, data')) = s l

  -- The prefetch of a batch only warms the exchange, and its exceptions are logged.
  abbrev pub stream_file : (Cid → Stream) → Result (List Cid × Option Chunk) → Stream
  stream_file s (raise e) = fails e
  stream_file s (ok ([], data')) = leaf_data data'
  stream_file s (ok (l ∷ ls, data')) =
      stream_batches s (batches (length (l ∷ ls)) (batch_size batch_fetch) (l ∷ ls))

  abbrev pub stream_dag_pb : (Cid → Stream) → Chunk → Result Bool → Stream
  stream_dag_pb s block (raise e) = fails e
  stream_dag_pb s block (ok true) = stream_directory s (lib.decode_dag_pb block)
  stream_dag_pb s block (ok false) = stream_file s (lib.decode_dag_pb block)

  abbrev pub stream_block : (Cid → Stream) → Chunk → Result String → Stream
  stream_block s block (raise e) = fails e
  stream_block s block (ok codec) =
      if codec == "raw"
      then one_chunk block
      else (if codec == "dag-pb"
          then stream_dag_pb s block (lib.is_directory_node block)
          else no_chunks)

  abbrev pub stream_fetched : (Cid → Stream) → Cid → Result (Option Chunk) → Stream
  stream_fetched s cid (raise e) = fails e
  stream_fetched s cid (ok none) = fails block_not_found
  stream_fetched s cid (ok (some block)) = stream_block s block (lib.parse_cid_codec cid)

  unfoldable pub fetch_stream : ℕ → Cid → Stream
  unfolding stream_batches batches
  fetch_stream zero cid = fails recursion_error
  fetch_stream (suc fuel) cid = stream_fetched (fetch_stream fuel) cid (fetch cid)

  -- `connects` is how the dial of the provider ends, where one is given and the root is missing.
  abbrev pub dialled : Option (Result (Unit {0})) → Bool → Result (Unit {0})
  dialled none has_root = ok tt
  dialled (some r) true = ok tt
  dialled (some r) false = r

  -- `get_file` without a path: the whole file behind a cursor.
  unfoldable pub get_file : ℕ → Option (Result (Unit {0})) → Bool → Cid → Result SeekableReader
  unfolding fetch_stream concat
  get_file fuel provider has_root cid = dialled provider has_root >>= (λ _.
      end_of (fetch_stream fuel cid).ends_with
      >>= (λ _. ok (new_reader (concat (fetch_stream fuel cid).chunks))))

  -- And with a path: what the output file contains at the end, and how the call ends.
  unfoldable pub get_file_to :
      ℕ → Option (Result (Unit {0})) → Bool → Cid → Option Chunk × Result (Unit {0})
  unfolding fetch_stream concat
  get_file_to fuel provider has_root cid = elim (dialled provider has_root) [
    | raise e ↦ (none, raise e)
    | ok _ ↦
        (some (concat (fetch_stream fuel cid).chunks), end_of (fetch_stream fuel cid).ends_with)
  ]
