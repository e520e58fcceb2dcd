-- ===== src/Pubsub/Scorer.antt =====
-- `_pubsub_discovery_pass`, `_save_auto_pubsub_topics`, and the topics that `_init_pubsub` joins.
use py_ipfs_lite.Prelude.{
  ℕ, ◌+◌, max, String, Bool, false, not, ◌&&◌, Option, none, some, List, [], ◌∷◌, ◌++◌, ◌==◌,
  string_eq, if◌then◌else◌, mem, length, leb, ltb,
}
use py_ipfs_lite.Dict.{Dict, keys, get, put, remove}
use py_ipfs_lite.Pubsub.Topics.{
  TopicStats, no_stats, Settings, Topics, is_protected, has_path, discard, include, subscribe,
  sorted_by,
}

abbrev pub or_else {ℓ} : {A : Type ℓ} → A → Option A → A
or_else a none = a
or_else a (some b) = b

-- One scan of a topic that `c` peers announce.
unfoldable pub scored : ℕ → ℕ → ℕ → TopicStats → TopicStats
scored min_peers leave_after c st =
    if leb min_peers c
    then record { hits = st.hits + 1; misses = 0; max_peers = max st.max_peers c }
    else (if leb leave_after (st.misses + 1)
        then record { hits = 0; misses = st.misses + 1; max_peers = 0 }
        else record st { misses = st.misses + 1 })

-- `counts` is how many peers announce each topic.
abbrev pub scan_topic :
    ℕ → ℕ → Dict String ℕ → String → Dict String TopicStats → Dict String TopicStats
scan_topic min_peers leave_after counts topic stats =
    put topic
      (scored min_peers leave_after (or_else 0 (get topic counts))
        (or_else no_stats (get topic stats)))
      stats

unfoldable pub scan_from :
    ℕ → ℕ → Dict String ℕ → List String → Dict String TopicStats → Dict String TopicStats
scan_from min_peers leave_after counts [] stats = stats
scan_from min_peers leave_after counts (t ∷ ts) stats =
    scan_from min_peers leave_after counts ts (scan_topic min_peers leave_after counts t stats)

-- {t for t, c in counts.items() if c >= 1}, without the topics of the first set
unfoldable pub announced : Dict String ℕ → List String → List String
announced [] known = []
announced ((t, c) ∷ counts) known =
    let rest = announced counts known in if leb 1 c && not (mem t known) then t ∷ rest else rest

-- The union of the two sets; the order in which a set is visited is left to Python, and here the
-- topics that have stats come first.
abbrev pub scanned : Dict String ℕ → Dict String TopicStats → List String
scanned counts stats = keys stats ++ announced counts (keys stats)

-- A topic whose announcers have been too few for long.
abbrev pub is_stale : ℕ → Option TopicStats → Bool
is_stale leave_after none = false
is_stale leave_after (some st) = leb leave_after st.misses

-- The exception of `unsubscribe` is only logged.
abbrev pub leave_topic : String → Topics → Topics
leave_topic topic s = record s {
  subscriptions = discard topic s.subscriptions;
  auto_joined = discard topic s.auto_joined;
  topic_stats = remove topic s.topic_stats;
}

abbrev pub leaves : Settings → ℕ → String → Topics → Bool
leaves c leave_after topic s =
    not (is_protected c topic) && is_stale leave_after (get topic s.topic_stats)

-- The loop of the leave pass, over a copy of the subscriptions; how many were left.
unfoldable pub leave_from : Settings → ℕ → List String → Topics → ℕ × Topics
leave_from c leave_after [] s = (0, s)
leave_from c leave_after (t ∷ ts) s =
    let go = leaves c leave_after t s in
    let (left, s') = leave_from c leave_after ts (if go then leave_topic t s else s) in
    ((if go then left + 1 else left), s')

-- The candidates, before they are ranked.
unfoldable pub confirmed : ℕ → List String → Dict String TopicStats → List (String × TopicStats)
confirmed join_conf subscriptions [] = []
confirmed join_conf subscriptions ((t, st) ∷ stats) =
    let rest = confirmed join_conf subscriptions stats in
    if leb join_conf st.hits && not (mem t subscriptions) then (t, st) ∷ rest else rest

-- key=max_peers, reverse=True
abbrev pub ranks_first : String × TopicStats → String × TopicStats → Bool
ranks_first a b = leb b.1.max_peers a.1.max_peers

abbrev pub join_topic : (String → Bool) → String → Topics → Topics
join_topic accepts topic s =
    let s' = subscribe (accepts topic) topic s in
    record s' { auto_joined = include topic s'.auto_joined }

-- The loop of the join pass; `cap` is base_count + max_extra.
unfoldable pub join_from : (String → Bool) → ℕ → List (String × TopicStats) → Topics → ℕ × Topics
join_from accepts cap [] s = (0, s)
join_from accepts cap ((t, st) ∷ candidates) s =
    let (joined, s') = join_from accepts cap candidates (join_topic accepts t s) in
    if leb cap (length s.subscriptions) then (0, s) else (joined + 1, s')

-- `_save_auto_pubsub_topics`; `earlier` compares two texts, `writes` is whether the file is written.
abbrev pub save : (String → String → Bool) → Bool → Settings → Topics → Topics
save earlier writes c s =
    if has_path c && writes then record s { saved = some (sorted_by earlier s.auto_joined) } else s

abbrev pub base_count : Settings → ℕ
base_count c = length c.pubsub_topics + (if c.own_topic == "" then 0 else 1)

abbrev pub scan : Settings → Dict String ℕ → Topics → Topics
scan c counts s = record s {
  topic_stats =
      scan_from (max 1 c.auto_join_min_peers) (max 1 c.leave_misses) counts
        (scanned counts s.topic_stats) s.topic_stats;
}

abbrev pub leave_pass : Settings → Topics → ℕ × Topics
leave_pass c s = leave_from c (max 1 c.leave_misses) s.subscriptions s

abbrev pub join_pass : (String → Bool) → Settings → Topics → ℕ × Topics
join_pass accepts c s =
    join_from accepts (base_count c + c.auto_join_max_topics)
      (sorted_by ranks_first (confirmed (max 1 c.join_confirmations) s.subscriptions s.topic_stats))
      s

-- `_pubsub_discovery_pass`, of a peer that runs: (joined, left) and the state.
unfoldable pub discovery_pass :
    (String → String → Bool)
    → (String → Bool)
    → Bool
    → Settings
    → Dict String ℕ
    → Topics
    → (ℕ × ℕ) × Topics
unfolding scan_from leave_from join_from confirmed sorted_by
discovery_pass earlier accepts writes c counts s =
    let (left, s1) = leave_pass c (scan c counts s) in
    let (joined, s2) = join_pass accepts c s1 in
    ((joined, left), if ltb 0 (joined + left) then save earlier writes c s2 else s2)

-- What `_init_pubsub` subscribes to: configured topics, the own one, and those saved in an earlier run.
unfoldable pub subscribe_all : (String → Bool) → List String → Topics → Topics
unfolding subscribe
subscribe_all accepts [] s = s
subscribe_all accepts (t ∷ ts) s = subscribe_all accepts ts (subscribe (accepts t) t s)

unfoldable pub rejoin : (String → Bool) → List String → Topics → Topics
unfolding subscribe
rejoin accepts [] s = s
rejoin accepts (t ∷ ts) s =
    rejoin accepts ts (if mem t s.subscriptions then s else join_topic accepts t s)

abbrev pub loaded : Settings → Topics → List String
loaded c s = if has_path c then or_else [] s.saved else []

unfoldable pub init_pubsub : (String → Bool) → Settings → Topics → Topics
unfolding subscribe_all rejoin
init_pubsub accepts c s =
    let s1 = subscribe_all accepts c.pubsub_topics s in
    let s2 = if c.own_topic == "" then s1 else subscribe (accepts c.own_topic) c.own_topic s1 in
    if c.persist_topics && ltb 0 c.auto_join_min_peers then rejoin accepts (loaded c s2) s2 else s2
