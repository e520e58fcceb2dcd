-- ===== src/Config/Valid.antt =====
-- What the checks promise of the values they let through.
use py_ipfs_lite.Prelude.{
  String, Bool, true, false, not, ◌||◌, Option, [], ◌∷◌, ◌≡◌, refl, sym, ap, ◌∙◌, subst, string_eq,
  mem, arith,
}
use py_ipfs_lite.Errors.{Result, ok, raise, ◌>>=◌, >>=-ok, ok-injective}
use py_ipfs_lite.Config.{
  ℤ, pos, is_negative, is_zero, greater, is_positive, Texts, Config, ensure, read_as, optional,
  read_env, post_init, AddParams, hash_names, check_size, add_params_init,
}

pub ensure-ok : (b : Bool) → ensure b ≡ ok tt → b ≡ true
ensure-ok true h = refl
ensure-ok false h = cc

-- What the six checks of `__post_init__` ask of the configuration that it leaves.
pub record IsValid {F : Type 0} (c : Config F) : Type 0 where
  pub interval : is_zero c.reprovide_interval_seconds ≡ false
  pub strategy : mem c.reprovider_strategy ("all" ∷ "pinned" ∷ "roots" ∷ []) ≡ true
  pub low : is_negative c.conn_mgr_low_water ≡ false
  pub high : is_negative c.conn_mgr_high_water ≡ false
  pub ordered : greater c.conn_mgr_low_water c.conn_mgr_high_water ≡ false
  pub store : mem c.blockstore_type ("filesystem" ∷ "memory" ∷ []) ≡ true

-- A predicate on what a call returns, if it returns.
abbrev Ensures : {A : Type 0} → (A → Type 0) → Result A → Type 0
Ensures {A} Q r = (d : A) → r ≡ ok d → Q d

bind-Ensures :
    {A B : Type 0} (Q : B → Type 0) (r : Result A) (k : A → Result B)
    → ((x : A) → Ensures Q (k x))
    → Ensures Q (r >>= k)
bind-Ensures Q (ok x) k h = h x
bind-Ensures Q (raise err) k h = λ d e. cc

-- The environment does not set these three fields.
abbrev SameFields : {F : Type 0} → Config F → Config F → Type 0
SameFields c d =
    (d.reprovide_interval_seconds ≡ c.reprovide_interval_seconds)
    × (d.reprovider_strategy ≡ c.reprovider_strategy)
    × (d.blockstore_type ≡ c.blockstore_type)

read_env-SameFields :
    {F : Type 0} (py : Texts F) (getenv : String → Option String) (c d : Config F)
    → read_env py getenv c ≡ ok d
    → SameFields c d
unfolding read_env
read_env-SameFields py getenv c =
    let Q = SameFields c in
    bind-Ensures Q (read_as py.int (getenv "IPFS_LITE_CONN_MGR_LOW_WATER") c.conn_mgr_low_water) _
      (λ low.
        bind-Ensures Q
          (read_as py.int (getenv "IPFS_LITE_CONN_MGR_HIGH_WATER") c.conn_mgr_high_water) _
          (λ high.
            bind-Ensures Q
              (optional py getenv (getenv "IPFS_LITE_CONN_MGR_INBOUND_SLOTS")
                c.conn_mgr_inbound_slots)
              _
              (λ slots.
                bind-Ensures Q
                  (read_as py.int (getenv "IPFS_LITE_PUBSUB_AUTO_JOIN_MIN_PEERS")
                    c.pubsub_auto_join_min_peers)
                  _
                  (λ min_peers.
                    bind-Ensures Q
                      (read_as py.int (getenv "IPFS_LITE_GOSSIPSUB_DEGREE") c.gossipsub_degree) _
                      (λ degree.
                        bind-Ensures Q
                          (read_as py.int (getenv "IPFS_LITE_GOSSIPSUB_DEGREE_LOW")
                            c.gossipsub_degree_low)
                          _
                          (λ degree_low.
                            bind-Ensures Q
                              (read_as py.int (getenv "IPFS_LITE_GOSSIPSUB_DEGREE_HIGH")
                                c.gossipsub_degree_high)
                              _
                              (λ degree_high.
                                bind-Ensures Q
                                  (read_as py.float
                                    (getenv "IPFS_LITE_GOSSIPSUB_HEARTBEAT_INTERVAL")
                                    c.gossipsub_heartbeat_interval)
                                  _
                                  (λ heartbeat.
                                    bind-Ensures Q
                                      (read_as py.int (getenv "IPFS_LITE_GOSSIPSUB_TTL")
                                        c.gossipsub_time_to_live)
                                      _
                                      (λ ttl. λ d e. (
                                        ap (λ z. z.reprovide_interval_seconds)
                                            (sym (ok-injective e)),
                                        ap (λ z. z.reprovider_strategy) (sym (ok-injective e)),
                                        ap (λ z. z.blockstore_type) (sym (ok-injective e)),
                                      ))))))))))

-- Whatever the environment says, a configuration that `__post_init__` lets through passes its checks.
pub post_init-IsValid :
    {F : Type 0} (py : Texts F) (getenv : String → Option String) (c d : Config F)
    → post_init py getenv c ≡ ok d
    → IsValid d
unfolding post_init
post_init-IsValid py getenv c d h0 =
    let (_, interval, h1) = >>=-ok (ensure (not (is_zero c.reprovide_interval_seconds))) _ h0 in
    let (_, strategy, h2) =
      >>=-ok (ensure (mem c.reprovider_strategy ("all" ∷ "pinned" ∷ "roots" ∷ []))) _ h1 in
    let (e, env, h3) = >>=-ok (read_env py getenv c) _ h2 in
    let (_, signs, h4) =
      >>=-ok (ensure (not (is_negative e.conn_mgr_low_water || is_negative e.conn_mgr_high_water)))
        _ h3 in
    let (_, order, h5) =
      >>=-ok (ensure (not (greater e.conn_mgr_low_water e.conn_mgr_high_water))) _ h4 in
    let (_, store, h6) =
      >>=-ok (ensure (mem e.blockstore_type ("filesystem" ∷ "memory" ∷ []))) _ h5 in
    let (f, g, _) = read_env-SameFields py getenv c e env in
    let signs' =
      ensure-ok (not (is_negative e.conn_mgr_low_water || is_negative e.conn_mgr_high_water))
        signs in
    subst IsValid (ok-injective h6) (record {
      interval =
          ap is_zero f
          ∙ ground (arith, ensure-ok (not (is_zero c.reprovide_interval_seconds)) interval);
      strategy =
          ap (λ z. mem z ("all" ∷ "pinned" ∷ "roots" ∷ [])) g
          ∙ ensure-ok (mem c.reprovider_strategy ("all" ∷ "pinned" ∷ "roots" ∷ [])) strategy;
      low = ground (arith, signs');
      high = ground (arith, signs');
      ordered =
          ground
            (arith, ensure-ok (not (greater e.conn_mgr_low_water e.conn_mgr_high_water)) order);
      store = ensure-ok (mem e.blockstore_type ("filesystem" ∷ "memory" ∷ [])) store;
    })

-- Parameters that `AddParams` lets through have a chunk size above 0, a known layout and a known hash.
pub add_params_init-ok :
    {F : Type 0} (py : Texts F) (p : AddParams)
    → add_params_init py p ≡ ok tt
    → ((n : ℤ) × (py.int (py.after_size p.chunker) ≡ ok n) × (is_positive n ≡ true))
      × (mem p.layout ("balanced" ∷ "trickle" ∷ []) ≡ true)
      × (mem p.hash_fun hash_names ≡ true)
      × (greater (pos 1) p.max_links ≡ false)
unfolding add_params_init
add_params_init-ok py p h0 =
    let (_, _, h1) = >>=-ok (ensure (py.starts_with_size p.chunker)) _ h0 in
    let (_, size, h2) =
      >>=-ok
        (check_size py (py.isdigit (py.after_size p.chunker)) (py.int (py.after_size p.chunker))) _
        h1 in
    let (_, layout, h3) = >>=-ok (ensure (mem p.layout ("balanced" ∷ "trickle" ∷ []))) _ h2 in
    let (_, hash, h4) = >>=-ok (ensure (mem p.hash_fun hash_names)) _ h3 in
    (
      sized (py.isdigit (py.after_size p.chunker)) (py.int (py.after_size p.chunker)) size,
      ensure-ok _ layout,
      ensure-ok _ hash,
      ground (arith, ensure-ok _ h4),
    )
  where
    sized :
        (b : Bool) (r : Result ℤ)
        → check_size py b r ≡ ok tt
        → (n : ℤ) × (r ≡ ok n) × (is_positive n ≡ true)
    sized false r h = cc
    sized true (raise err) h = cc
    sized true (ok n) h = (n, refl, ensure-ok (is_positive n) h)
