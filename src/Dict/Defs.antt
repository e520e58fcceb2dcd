-- ===== src/Dict/Defs.antt =====
-- The operations of `dict`.
use py_ipfs_lite.Prelude.{
  Bool, Option, none, some, List, [], ◌∷◌, map, Key, ◌==◌, if◌then◌else◌, is_some,
}

abbrev pub Dict : Type 0 → Type 0 → Type 0
Dict K V = List (K × V)

module _ {K V : Type 0} where
  -- list(d), list(d.keys())
  abbrev pub keys : Dict K V → List K
  keys = map (λ e. e.0)

module _ {K V : Type 0} ⦃e : Key K⦄ where
  -- d.get(k)
  unfoldable pub get : K → Dict K V → Option V
  get k [] = none
  get k ((j, v) ∷ d) = if j == k then some v else get k d

  -- d[k] = v
  unfoldable pub put : K → V → Dict K V → Dict K V
  put k v [] = (k, v) ∷ []
  put k v ((j, w) ∷ d) = if j == k then (j, v) ∷ d else (j, w) ∷ put k v d

  -- d.pop(k, None), del d[k]
  unfoldable pub remove : K → Dict K V → Dict K V
  remove k [] = []
  remove k ((j, w) ∷ d) = let rest = remove k d in if j == k then rest else (j, w) ∷ rest

  -- k in d
  abbrev pub has : K → Dict K V → Bool
  has k d = is_some (get k d)
