-- ===== src/Config.antt =====
-- py_ipfs_lite/config.py: the checks of `Config` and `AddParams`. The environment is a function, and
-- the operations of Python on texts and numbers are parameters; `F` is the type of floats.
pub mod Limits
pub mod Valid
mod Tests
use py_ipfs_lite.Prelude.{
  ℕ, suc, ◌+◌, String, Bool, true, false, not, ◌&&◌, ◌||◌, Option, none, some, List, [], ◌∷◌, ◌==◌,
  string_eq, if◌then◌else◌, mem, ltb, leb, nat_beq, is_some,
}
use py_ipfs_lite.Errors.{Error, Result, ok, raise, ◌>>=◌, value_error}

-- Integers of Python: `negsuc n` is -(n + 1).
pub data ℤ : Type 0 where
  pos negsuc : ℕ → ℤ

abbrev pub is_negative : ℤ → Bool
is_negative (pos n) = false
is_negative (negsuc n) = true

abbrev pub is_zero : ℤ → Bool
is_zero (pos n) = nat_beq n 0
is_zero (negsuc n) = false

-- a > b
abbrev pub greater : ℤ → ℤ → Bool
greater (pos a) (pos b) = ltb b a
greater (pos a) (negsuc b) = true
greater (negsuc a) (pos b) = false
greater (negsuc a) (negsuc b) = ltb a b

pub record Texts (F : Type 0) : Type 0 where
  pub int : String → Result ℤ
  pub float : String → Result F
  pub strip : String → String
  pub lower : String → String
  pub split_commas : String → List String
  pub starts_with_size : String → Bool
  -- text[5:]
  pub after_size : String → String
  pub isdigit : String → Bool

-- The fields that `__post_init__` reads or sets.
pub record Config (F : Type 0) : Type 0 where
  pub reprovide_interval_seconds : ℤ
  pub reprovider_strategy : String
  pub conn_mgr_high_water : ℤ
  pub conn_mgr_low_water : ℤ
  pub conn_mgr_inbound_slots : Option ℤ
  pub blockstore_type : String
  pub announce_addrs : List String
  pub enable_libp2p_metrics : Bool
  pub enable_pubsub : Bool
  pub pubsub_topics : List String
  pub gossipsub_degree : ℤ
  pub gossipsub_degree_low : ℤ
  pub gossipsub_degree_high : ℤ
  pub gossipsub_heartbeat_interval : F
  pub gossipsub_time_to_live : ℤ
  pub pubsub_auto_join_min_peers : ℤ
  pub transports : String

abbrev pub ensure : Bool → Result (Unit {0})
ensure b = if b then ok tt else raise value_error

-- A variable that is set replaces a field, read by a function that may raise.
abbrev pub read_as : {A : Type 0} → (String → Result A) → Option String → A → Result A
read_as f none a = ok a
read_as f (some t) a = f t

module _ {F : Type 0} (py : Texts F) (getenv : String → Option String) where
  open py use {int, float, strip, lower, split_commas}

  -- env.strip().lower() not in ("0", "false", "no", "off")
  abbrev pub flag : Option String → Bool → Bool
  flag none b = b
  flag (some t) b = not (mem (lower (strip t)) ("0" ∷ "false" ∷ "no" ∷ "off" ∷ []))

  -- tuple(t.strip() for t in ts if t.strip())
  unfoldable pub stripped : List String → List String
  stripped [] = []
  stripped (t ∷ ts) = let rest = stripped ts in if strip t == "" then rest else strip t ∷ rest

  -- A variable that is set and not empty replaces a tuple.
  unfoldable pub texts : Option String → List String → List String
  unfolding stripped
  texts none ts = ts
  texts (some t) ts = if t == "" then ts else stripped (split_commas t)

  abbrev pub lowered : Option String → String → String
  lowered none t = t
  lowered (some e) t = lower (strip e)

  abbrev pub optional : Option String → Option ℤ → Result (Option ℤ)
  optional none o = ok o
  optional (some t) o = int t >>= (λ n. ok (some n))

  -- The addresses of the environment, where there are none yet
  abbrev pub or_texts : List String → List String → List String
  or_texts [] env = env
  or_texts (a ∷ addrs) env = a ∷ addrs

  -- The environment, applied to the fields that it can replace.
  unfoldable pub read_env : Config F → Result (Config F)
  unfolding texts
  read_env c = do
    low ← read_as int (getenv "IPFS_LITE_CONN_MGR_LOW_WATER") c.conn_mgr_low_water
    high ← read_as int (getenv "IPFS_LITE_CONN_MGR_HIGH_WATER") c.conn_mgr_high_water
    slots ← optional (getenv "IPFS_LITE_CONN_MGR_INBOUND_SLOTS") c.conn_mgr_inbound_slots
    min_peers ←
        read_as int (getenv "IPFS_LITE_PUBSUB_AUTO_JOIN_MIN_PEERS") c.pubsub_auto_join_min_peers
    degree ← read_as int (getenv "IPFS_LITE_GOSSIPSUB_DEGREE") c.gossipsub_degree
    degree_low ← read_as int (getenv "IPFS_LITE_GOSSIPSUB_DEGREE_LOW") c.gossipsub_degree_low
    degree_high ← read_as int (getenv "IPFS_LITE_GOSSIPSUB_DEGREE_HIGH") c.gossipsub_degree_high
    heartbeat ←
        read_as float (getenv "IPFS_LITE_GOSSIPSUB_HEARTBEAT_INTERVAL")
          c.gossipsub_heartbeat_interval
    ttl ← read_as int (getenv "IPFS_LITE_GOSSIPSUB_TTL") c.gossipsub_time_to_live
    ok (record c {
      conn_mgr_low_water = low;
      conn_mgr_high_water = high;
      conn_mgr_inbound_slots = slots;
      enable_libp2p_metrics =
          flag (getenv "IPFS_LITE_ENABLE_LIBP2P_METRICS") c.enable_libp2p_metrics;
      enable_pubsub = flag (getenv "IPFS_LITE_ENABLE_PUBSUB") c.enable_pubsub;
      pubsub_topics = texts (getenv "IPFS_LITE_PUBSUB_TOPICS") c.pubsub_topics;
      pubsub_auto_join_min_peers = min_peers;
      gossipsub_degree = degree;
      gossipsub_degree_low = degree_low;
      gossipsub_degree_high = degree_high;
      gossipsub_heartbeat_interval = heartbeat;
      gossipsub_time_to_live = ttl;
      announce_addrs = or_texts c.announce_addrs (texts (getenv "IPFS_LITE_ANNOUNCE_ADDRS") []);
      transports = lowered (getenv "IPFS_LITE_TRANSPORTS") c.transports;
    })

  -- `Config.__post_init__`: the configuration with the environment applied, or ValueError.
  unfoldable pub post_init : Config F → Result (Config F)
  unfolding read_env
  post_init c = do
    _ ← ensure (not (is_zero c.reprovide_interval_seconds))
    _ ← ensure (mem c.reprovider_strategy ("all" ∷ "pinned" ∷ "roots" ∷ []))
    d ← read_env c
    _ ← ensure (not (is_negative d.conn_mgr_low_water || is_negative d.conn_mgr_high_water))
    _ ← ensure (not (greater d.conn_mgr_low_water d.conn_mgr_high_water))
    _ ← ensure (mem d.blockstore_type ("filesystem" ∷ "memory" ∷ []))
    ok d

-- What an upload asks for, but for two flags that no check reads.
pub record AddParams : Type 0 where
  pub chunker : String
  pub layout : String
  pub hash_fun : String
  pub max_links : ℤ

abbrev pub hash_names : List String
hash_names = "sha2-256" ∷ "sha2-512" ∷ "sha3-256" ∷ "sha3-512" ∷ "blake2b-256" ∷ []

abbrev pub is_positive : ℤ → Bool
is_positive n = greater n (pos 0)

module _ {F : Type 0} (py : Texts F) where
  open py use {int, starts_with_size, after_size, isdigit}

  -- not digits, or int(digits) <= 0
  abbrev pub check_size : Bool → Result ℤ → Result (Unit {0})
  check_size false n = raise value_error
  check_size true (raise err) = raise err
  check_size true (ok n) = ensure (is_positive n)

  -- `AddParams.__post_init__`
  unfoldable pub add_params_init : AddParams → Result (Unit {0})
  add_params_init p = do
    _ ← ensure (starts_with_size p.chunker)
    _ ← check_size (isdigit (after_size p.chunker)) (int (after_size p.chunker))
    _ ← ensure (mem p.layout ("balanced" ∷ "trickle" ∷ []))
    _ ← ensure (mem p.hash_fun hash_names)
    ensure (not (greater (pos 1) p.max_links))
