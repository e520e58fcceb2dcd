-- ===== src/Blocks.antt =====
-- `fetch_block` and `has_block` of py_ipfs_lite/peer/_content.py, for a peer that is started: the
-- block store as a dictionary from the bytes of a CID, and the exchange as its answer.
use py_ipfs_lite.Prelude.{
  ◌≡◌, subst, Bool, true, Option, none, some, Key, arith, Option-cases, inl, inr, beq_refl,
}
use py_ipfs_lite.Errors.{Result, ok, raise, block_not_found}
use py_ipfs_lite.Dict.{Dict, get, put, has, get-put}

module _ {Cid Block : Type 0} ⦃e : Key Cid⦄ where
  abbrev pub has_block : Cid → Dict Cid Block → Bool
  has_block cid store = has cid store

  -- The block goes into the store where `cache` is true; a failing `put` is only logged.
  abbrev pub cached : Bool → Bool → Cid → Block → Dict Cid Block → Dict Cid Block
  cached true true cid block store = put cid block store
  cached _ _ cid block store = store

  abbrev pub from_exchange :
      Bool → Bool → Cid → Result (Option Block) → Dict Cid Block → Result Block × Dict Cid Block
  from_exchange cache put_works cid (raise err) store = (raise err, store)
  from_exchange cache put_works cid (ok none) store = (raise block_not_found, store)
  from_exchange cache put_works cid (ok (some block)) store =
      (ok block, cached cache put_works cid block store)

  abbrev pub local_or :
      Option Block → Result Block × Dict Cid Block → Dict Cid Block → Result Block × Dict Cid Block
  local_or (some block) remote store = (ok block, store)
  local_or none remote store = remote

  -- `answer` is what the exchange gives within the timeout; a timeout raises.
  unfoldable pub fetch_block :
      Bool → Bool → Cid → Result (Option Block) → Dict Cid Block → Result Block × Dict Cid Block
  fetch_block cache put_works cid answer store =
      local_or (get cid store) (from_exchange cache put_works cid answer store) store

  -- Where the block is cached and the store works, a block that is returned is in the store.
  fetch_block-get :
      (cid : Cid) (answer : Result (Option Block)) (store : Dict Cid Block) (block : Block)
      → (fetch_block true true cid answer store).0 ≡ ok block
      → get cid (fetch_block true true cid answer store).1 ≡ some block
  unfolding fetch_block
  fetch_block-get cid answer store block h = elim (Option-cases (get cid store)) [
    | inl n ↦
        go answer
          (subst (λ o. (local_or o (from_exchange true true cid answer store) store).0 ≡ ok block) n
            h)
          n
    | inr (b, p) ↦ ground (arith, h, p)
  ]
    where
      go :
          (a : Result (Option Block))
          → (from_exchange true true cid a store).0 ≡ ok block
          → get cid store ≡ none
          → get cid (local_or (get cid store) (from_exchange true true cid a store) store).1
            ≡ some block
      go (raise err) g n = cc
      go (ok none) g n = cc
      go (ok (some b)) g n = ground (arith, g, n, get-put cid cid b store, beq_refl cid)
