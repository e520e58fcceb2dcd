-- ===== src/Dag.antt =====
-- `walk_dag` of py_ipfs_lite/dag_utils.py: a breadth-first walk over the blocks of a DAG.
-- The block store, the CID codec and the dag-pb decoder are parameters.
pub mod Reach
pub mod Fuel
mod Tests
use py_ipfs_lite.Prelude.{
  ℕ, zero, suc, String, Bool, true, false, not, Option, none, some, List, [], ◌∷◌, ◌++◌, Key, ◌==◌,
  ◌||◌, mem, if◌then◌else◌, string_eq,
}
use py_ipfs_lite.Errors.{Error, Result, ok, raise, ◌>>=◌, block_not_found}
use py_ipfs_lite.Ipld.{Value}
use py_ipfs_lite.Ipld.Links.{extract}

-- What the walk uses of libp2p, and of `_decode_node`. `B` is the type of a CID's bytes.
pub record DagLib (B Block : Type 0) : Type 0 where
  pub parse_cid_codec : B → Result String
  pub normalise_codec : String → Result String
  pub codec_dag_pb : String
  -- the `cid` of each link that has one
  pub decode_dag_pb : Block → Result (List (Option B))
  pub decode_node : Block → String → Result Value
  -- cid_to_bytes(parse_cid(v))
  pub parse_link : Value → Result B

pub data Outcome : Type 0 where
  finished out_of_fuel : Outcome
  failed : Error → Outcome

-- What the generator yields, and how it ends.
pub record Walk (B : Type 0) : Type 0 where
  pub yielded : List B
  pub outcome : Outcome

abbrev pub with_cid : {B : Type 0} → List (Option B) → List B
with_cid [] = []
with_cid (none ∷ ls) = with_cid ls
with_cid (some c ∷ ls) = c ∷ with_cid ls

-- except Exception: if strict_missing: raise
abbrev pub swallow : {A : Type 0} → Bool → Result (List A) → Result (List A)
swallow strict (ok cs) = ok cs
swallow strict (raise e) = if strict then raise e else ok []

module _ {B Block : Type 0} (lib : DagLib B Block) (strict_missing : Bool) where
  open lib use {
    parse_cid_codec, normalise_codec, codec_dag_pb, decode_dag_pb, decode_node, parse_link,
  }

  -- The CIDs that a block appends to the queue.
  unfoldable pub children : B → Block → Result (List B)
  children curr_cid block = do
    codec ← parse_cid_codec curr_cid
    norm_codec ← normalise_codec codec
    if norm_codec == codec_dag_pb
        then swallow strict_missing (do links ← decode_dag_pb block; ok (with_cid links))
        else if mem norm_codec ("dag-json" ∷ "dag-cbor" ∷ "dag-jose" ∷ "ipld" ∷ [])
        then swallow strict_missing
            (do decoded ← decode_node block codec; extract parse_link strict_missing decoded)
        else ok []

  module _ (get_block : B → Result (Option Block)) (recursive : Bool) where
    abbrev pub fetched : B → Result (Option Block) → Result (List B)
    fetched curr_cid (raise e) = raise e
    fetched curr_cid (ok none) = if strict_missing then raise block_not_found else ok []
    fetched curr_cid (ok (some block)) = children curr_cid block

    -- The body of the loop behind `yield`: what it appends to the queue, or what it raises.
    unfoldable pub expand : B → Result (List B)
    unfolding children
    expand curr_cid = if not recursive then ok [] else fetched curr_cid (get_block curr_cid)

abbrev pub yield : {B : Type 0} → B → Walk B → Walk B
yield c w = record w { yielded = c ∷ w.yielded }

module _ {B : Type 0} ⦃e : Key B⦄ (expand : B → Result (List B)) where
  -- The loop, over the queue and the visited CIDs.
  unfoldable pub walk_from : ℕ → List B → List B → Walk B
  walk_from fuel [] visited = record { yielded = []; outcome = finished }
  walk_from zero (c ∷ queue) visited = record { yielded = []; outcome = out_of_fuel }
  walk_from (suc fuel) (c ∷ queue) visited = elim (mem c visited) [
    | true ↦ walk_from fuel queue visited
    | false ↦ elim (expand c) [
      | raise err ↦ record { yielded = c ∷ []; outcome = failed err }
      | ok cs ↦ yield c (walk_from fuel (queue ++ cs) (c ∷ visited))
    ]
  ]

  abbrev pub walk_dag : ℕ → B → Walk B
  walk_dag fuel root = walk_from fuel (root ∷ []) []
