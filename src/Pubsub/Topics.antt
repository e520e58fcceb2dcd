-- ===== src/Pubsub/Topics.antt =====
-- The state of the mixin and its subscriptions.
use py_ipfs_lite.Prelude.{
  ℕ, String, Bool, not, ◌&&◌, ◌||◌, Option, List, [], ◌∷◌, ◌++◌, ◌==◌, string_eq, if◌then◌else◌,
  mem,
}
use py_ipfs_lite.Dict.{Dict, remove}

-- An entry of `_topic_stats`
pub record TopicStats : Type 0 where
  pub hits : ℕ
  pub misses : ℕ
  pub max_peers : ℕ

abbrev pub no_stats : TopicStats
no_stats = record { hits = 0; misses = 0; max_peers = 0 }

-- What is read of the configuration; `own_topic` is `_own_ipns_topic`, "" where it is missing.
pub record Settings : Type 0 where
  pub pubsub_topics : List String
  pub own_topic : String
  pub auto_join_min_peers : ℕ
  pub join_confirmations : ℕ
  pub leave_misses : ℕ
  pub auto_join_max_topics : ℕ
  pub persist_topics : Bool
  -- what `_auto_pubsub_path` finds of the block store: in memory, or with no path
  pub has_directory : Bool

-- A message in a buffer, with its sender and its content
pub record Message : Type 0 where
  pub sender : String
  pub body : List ℕ

-- A subscription object has no state that is read, so only the topics are kept.
pub record Topics : Type 0 where
  -- the keys of `_pubsub_subscriptions`
  pub subscriptions : List String
  pub messages : Dict String (List Message)
  -- the set `_auto_joined_topics`
  pub auto_joined : List String
  pub topic_stats : Dict String TopicStats
  -- the list in auto_pubsub_topics.json, if the file is there
  pub saved : Option (List String)

-- `_protected_pubsub_topics`: the own topic is left out where it is empty.
abbrev pub is_protected : Settings → String → Bool
is_protected s topic = mem topic s.pubsub_topics || topic == s.own_topic && not (topic == "")

-- `_auto_pubsub_path() is not None`
abbrev pub has_path : Settings → Bool
has_path s = s.persist_topics && s.has_directory

-- set.discard, dict.pop
unfoldable pub discard : String → List String → List String
discard t [] = []
discard t (x ∷ xs) = let rest = discard t xs in if x == t then rest else x ∷ rest

-- set.add
abbrev pub include : String → List String → List String
include t xs = if mem t xs then xs else xs ++ (t ∷ [])

-- `subscribe_pubsub_topic`; `accepts` is whether `pubsub.subscribe` returns.
unfoldable pub subscribe : Bool → String → Topics → Topics
subscribe accepts topic s =
    if accepts && not (mem topic s.subscriptions)
    then record s { subscriptions = s.subscriptions ++ (topic ∷ []) }
    else s

-- `unsubscribe_pubsub_topic`
unfoldable pub unsubscribe : String → Topics → Bool × Topics
unfolding discard
unsubscribe topic s = (
  mem topic s.subscriptions,
  record s { subscriptions = discard topic s.subscriptions; messages = remove topic s.messages },
)

unfoldable pub insert_by {ℓ} : {A : Type ℓ} → (A → A → Bool) → A → List A → List A
insert_by first x [] = x ∷ []
insert_by first x (y ∷ ys) =
    let rest = insert_by first x ys in if first x y then x ∷ y ∷ ys else y ∷ rest

-- `sorted`, which is stable: `first x y` says that `x` may stand before `y`.
unfoldable pub sorted_by {ℓ} : {A : Type ℓ} → (A → A → Bool) → List A → List A
unfolding insert_by
sorted_by first [] = []
sorted_by first (x ∷ xs) = insert_by first x (sorted_by first xs)
