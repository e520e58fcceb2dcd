-- ===== src/Config/Tests.antt =====
-- A configuration whose low mark the environment sets, and an upload's parameters.
use py_ipfs_lite.Prelude.{
  ℕ, String, true, false, Option, none, some, [], ◌∷◌, ◌==◌, string_eq, if◌then◌else◌, ◌≡◌, refl,
  mem,
}
use py_ipfs_lite.Errors.{Result, ok, raise, value_error}
use py_ipfs_lite.Config.{
  ℤ, pos, negsuc, is_positive, greater, Texts, Config, post_init, AddParams, hash_names,
  add_params_init,
}
use py_ipfs_lite.Config.Valid.{add_params_init-ok}
use py_ipfs_lite.Config.Limits.{max_inbound, max_inbound-post_init}

abbrev int : String → Result ℤ
int t =
    if t == "20"
    then ok (pos 20)
    else if t == "262144"
    then ok (pos 262_144)
    else if t == "-1"
    then ok (negsuc 0)
    else raise value_error

abbrev py : Texts ℕ
py = record {
  int = int;
  float = λ t. raise value_error;
  strip = λ t. t;
  lower = λ t. t;
  split_commas = λ t. t ∷ [];
  starts_with_size = λ t. t == "size-262144";
  after_size = λ t. "262144";
  isdigit = λ t. true;
}

abbrev low_is : String → String → Option String
low_is t name = if name == "IPFS_LITE_CONN_MGR_LOW_WATER" then some t else none

abbrev config : Config ℕ
config = record {
  reprovide_interval_seconds = pos 43_200;
  reprovider_strategy = "all";
  conn_mgr_high_water = pos 100;
  conn_mgr_low_water = pos 50;
  conn_mgr_inbound_slots = none;
  blockstore_type = "filesystem";
  announce_addrs = [];
  enable_libp2p_metrics = true;
  enable_pubsub = false;
  pubsub_topics = [];
  gossipsub_degree = pos 6;
  gossipsub_degree_low = pos 4;
  gossipsub_degree_high = pos 12;
  gossipsub_heartbeat_interval = 1;
  gossipsub_time_to_live = pos 60;
  pubsub_auto_join_min_peers = pos 2;
  transports = "tcp,ws,quic";
}

low_twenty : post_init py (low_is "20") config ≡ ok (record config { conn_mgr_low_water = pos 20 })
unfolding post_init
low_twenty = refl

negative_low : post_init py (low_is "-1") config ≡ raise value_error
unfolding post_init
negative_low = refl

max_inbound-post_init_example :
    greater (pos 50) (max_inbound (record config { conn_mgr_low_water = pos 20 })) ≡ false
unfolding post_init
max_inbound-post_init_example =
    max_inbound-post_init py (low_is "20") config (record config { conn_mgr_low_water = pos 20 })
      refl refl

-- The number of inbound slots is not checked.
abbrev slots_are : String → String → Option String
slots_are t name = if name == "IPFS_LITE_CONN_MGR_INBOUND_SLOTS" then some t else none

negative_slots :
    post_init py (slots_are "-1") config
    ≡ ok (record config { conn_mgr_inbound_slots = some (negsuc 0) })
unfolding post_init
negative_slots = refl

abbrev params : AddParams
params = record {
  chunker = "size-262144";
  layout = "balanced";
  hash_fun = "sha2-256";
  max_links = pos 174;
}

params_pass :
    ((n : ℤ) × (int "262144" ≡ ok n) × (is_positive n ≡ true))
    × (mem params.layout ("balanced" ∷ "trickle" ∷ []) ≡ true)
    × (mem params.hash_fun hash_names ≡ true)
    × (greater (pos 1) (pos 174) ≡ false)
unfolding add_params_init
params_pass = add_params_init-ok py params refl
