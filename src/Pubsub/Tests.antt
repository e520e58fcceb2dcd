-- ===== src/Pubsub/Tests.antt =====
-- A peer with one configured topic, one that it joined by hand, and one that others announce.
use py_ipfs_lite.Prelude.{
  ℕ, String, Bool, true, false, none, [], ◌∷◌, ◌≡◌, refl, arith, mem, string_eq,
}
use py_ipfs_lite.Dict.{Dict, get, put, remove}
use py_ipfs_lite.Pubsub.Topics.{
  no_stats, Settings, Topics, subscribe, discard, insert_by, sorted_by,
}
use py_ipfs_lite.Pubsub.Scorer.{
  scored, scan_from, announced, leave_from, join_from, confirmed, discovery_pass,
}
use py_ipfs_lite.Pubsub.Streaks.{scored_all, misses-scored_lem, hits-scored_lem}
use py_ipfs_lite.Pubsub.Rules.{after_pass, pass-protected, pass-stale}

abbrev settings : Settings
settings = record {
  pubsub_topics = "news" ∷ [];
  own_topic = "";
  auto_join_min_peers = 2;
  join_confirmations = 1;
  leave_misses = 1;
  auto_join_max_topics = 5;
  persist_topics = true;
  has_directory = true;
}

abbrev state : Topics
state = record {
  subscriptions = "news" ∷ "manual" ∷ [];
  messages = [];
  auto_joined = [];
  topic_stats = [];
  saved = none;
}

abbrev counts : Dict String ℕ
counts = ("manual", 1) ∷ ("shared", 3) ∷ []

abbrev any_order : String → String → Bool
any_order a b = true

abbrev accepts : String → Bool
accepts t = true

one_joined_one_left : (discovery_pass any_order accepts true settings counts state).0 ≡ (1, 1)
unfolding discovery_pass scan_from announced leave_from join_from confirmed sorted_by insert_by
    subscribe discard scored get put remove
one_joined_one_left = refl

pass-protected_example :
    mem "news" (after_pass any_order accepts true settings counts state).subscriptions ≡ true
pass-protected_example =
    pass-protected any_order accepts true settings counts state "news" refl refl

pass-stale_example :
    mem "manual" (after_pass any_order accepts true settings counts state).subscriptions ≡ false
unfolding scan_from announced scored get put
pass-stale_example = pass-stale any_order accepts true settings counts state "manual" refl refl refl

good_then_missed : (scored_all 2 4 (3 ∷ 1 ∷ 0 ∷ []) no_stats).misses ≡ 2
good_then_missed = misses-scored_lem 2 4 3 (1 ∷ 0 ∷ []) no_stats (ground arith) (ground arith)

hits-scored_example : (scored_all 2 4 (3 ∷ 0 ∷ 2 ∷ []) no_stats).hits ≡ 2
hits-scored_example =
    hits-scored_lem 2 4 3 0 2 no_stats (ground arith) (ground arith) (ground arith) (ground arith)
