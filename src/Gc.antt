-- ===== src/Gc.antt =====
-- `gc` of py_ipfs_lite/peer/_content.py, over a block store and a pin store.
-- `calls` says which calls of the block store raise; one that raises changes nothing.
-- `show` is `format_cid_for_display(parse_cid(b))`, `parse` is `cid_to_bytes(parse_cid(s))`. The
-- fuel of a walk is computed from the store, so that no walk is cut off.
pub mod Marked
pub mod Swept
mod Tests
use py_ipfs_lite.Prelude.{
  ℕ, suc, ◌+◌, String, Bool, true, false, not, Option, none, some, List, [], ◌∷◌, ◌++◌, Key, ◌==◌,
  ◌&&◌, ◌||◌, mem, if◌then◌else◌, string_eq, length,
}
use py_ipfs_lite.Errors.{Error, Result, ok, raise, ◌>>=◌, peer_not_started}
use py_ipfs_lite.Dict.{Dict, keys, get, put, remove, has}
use py_ipfs_lite.Dag.{DagLib, Walk, Outcome, finished, failed, out_of_fuel, expand, walk_dag}
use py_ipfs_lite.Dag.Fuel.{pending}
use py_ipfs_lite.Pin.{only_type}

pub record GcResult : Type 0 where
  pub reclaimed_blocks : ℕ
  pub retained_blocks : ℕ

-- How the calls of the block store end: `all_keys`, and `get` and `delete` of a CID.
pub record StoreCalls (B : Type 0) : Type 0 where
  pub lists : Result (Unit {0})
  pub gets : B → Result (Unit {0})
  pub deletes : B → Result (Unit {0})

-- `_ensure_started`
abbrev pub ensure_started : Bool → Result (Unit {0})
ensure_started true = ok tt
ensure_started false = raise peer_not_started

-- Adding to a set, kept as a list without repetitions.
abbrev pub add : {A : Type 0} ⦃e : Key A⦄ → A → List A → List A
add a xs = if mem a xs then xs else a ∷ xs

-- set(xs)
abbrev pub to_set : {A : Type 0} ⦃e : Key A⦄ → List A → List A
to_set [] = []
to_set (x ∷ xs) = add x (to_set xs)

-- xs - ys, for sets
abbrev pub minus : {A : Type 0} ⦃e : Key A⦄ → List A → List A → List A
minus [] ys = []
minus (x ∷ xs) ys = let rest = minus xs ys in if mem x ys then rest else x ∷ rest

module _ {B Block : Type 0} ⦃e : Key B⦄ (lib : DagLib B Block) (show : B → Result String)
    (parse : String → Result B) (calls : StoreCalls B) where
  -- `blockstore.all_keys()`
  unfoldable pub all_keys : List B → Result (List String)
  all_keys [] = ok []
  all_keys (b ∷ bs) = do s ← show b; ss ← all_keys bs; ok (s ∷ ss)

  abbrev pub links_of : Dict B Block → Bool → B → Result (List B)
  links_of store recursive = expand lib false (λ c. do _ ← calls.gets c; ok (get c store)) recursive

  abbrev pub walk_fuel : Dict B Block → Bool → ℕ
  walk_fuel store recursive = 1 + pending (links_of store recursive) (keys store) []

  abbrev pub walk_pin : Dict B Block → Bool → B → Walk B
  walk_pin store recursive root =
      walk_dag (links_of store recursive) (walk_fuel store recursive) root

  -- The loop over one pin's walk; an exception of `show` ends it, and what was added stays.
  unfoldable pub mark : List B → List String → List String
  mark [] reachable = reachable
  mark (c ∷ cs) reachable = elim (show c) [ raise _ ↦ reachable | ok s ↦ mark cs (add s reachable) ]

  abbrev pub mark_pin : Dict B Block → String → String → List String → List String
  mark_pin store cid_str pin_type reachable = elim (parse cid_str) [
    | raise _ ↦ reachable
    | ok root ↦ mark (walk_pin store (pin_type == "recursive") root).yielded reachable
  ]

  unfoldable pub mark_pins : Dict B Block → Dict String String → List String → List String
  unfolding mark
  mark_pins store [] reachable = reachable
  mark_pins store ((s, t) ∷ pins) reachable = mark_pins store pins (mark_pin store s t reachable)

  abbrev pub deleted : String → Result B
  deleted s = do b ← parse s; _ ← calls.deletes b; ok b

  -- The loop that deletes: the error that ends it, or how many were deleted.
  unfoldable pub sweep : List String → Dict B Block → Result ℕ × Dict B Block
  sweep [] store = (ok 0, store)
  sweep (s ∷ ss) store = elim (deleted s) [
    | raise err ↦ (raise err, store)
    | ok b ↦ let (r, store') = sweep ss (remove b store) in (do n ← r; ok (n + 1), store')
  ]

  abbrev pub listing : Bool → Dict B Block → Result (List String)
  listing started store = do _ ← ensure_started started; _ ← calls.lists; all_keys (keys store)

  unfoldable pub gc : Bool → Dict B Block → Dict String String → Result GcResult × Dict B Block
  unfolding all_keys mark_pins sweep
  gc started store pins = elim (listing started store) [
    | raise err ↦ (raise err, store)
    | ok ss ↦
        let reachable = mark_pins store pins [] in
        let (r, store') = sweep (minus (to_set ss) reachable) store in
        (do n ← r; ok (record { reclaimed_blocks = n; retained_blocks = length reachable }), store')
  ]
