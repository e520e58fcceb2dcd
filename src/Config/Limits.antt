-- ===== src/Config/Limits.antt =====
-- The limits of connections that `start` of py_ipfs_lite/peer/_lifecycle.py sets from a configuration.
use py_ipfs_lite.Prelude.{
  ℕ, ◌+◌, ◌-◌, ◌≤◌, String, true, false, Option, none, some, ◌≡◌, sym, subst, leb, ltb,
  if◌then◌else◌, arith, if_both,
}
use py_ipfs_lite.Errors.{ok}
use py_ipfs_lite.Config.{ℤ, pos, negsuc, is_negative, greater, Texts, Config, post_init}
use py_ipfs_lite.Config.Valid.{post_init-IsValid}

-- a - b
abbrev pub diff : ℕ → ℕ → ℤ
diff a b = if leb b a then pos (a - b) else negsuc (b - a - 1)

abbrev pub plus_nat : ℤ → ℕ → ℤ
plus_nat (pos a) n = pos (a + n)
plus_nat (negsuc a) n = diff n (a + 1)

abbrev pub difference : ℤ → ℤ → ℤ
difference (pos a) (pos b) = diff a b
difference (pos a) (negsuc b) = pos (a + b + 1)
difference (negsuc a) (pos b) = negsuc (a + b)
difference (negsuc a) (negsuc b) = diff b a

-- max(1, n)
abbrev pub at_least_one : ℤ → ℤ
at_least_one n = if greater n (pos 1) then n else pos 1

pub record ConnectionConfig : Type 0 where
  pub min_connections : ℤ
  pub low_watermark : ℤ
  pub high_watermark : ℤ
  pub max_connections : ℤ

abbrev pub connection_config : {F : Type 0} → Config F → ConnectionConfig
connection_config c = record {
  min_connections = c.conn_mgr_low_water;
  low_watermark = c.conn_mgr_low_water;
  high_watermark = c.conn_mgr_high_water;
  max_connections = plus_nat c.conn_mgr_high_water 50;
}

abbrev pub inbound_of : Option ℤ → ConnectionConfig → ℤ
inbound_of (some slots) k = slots
inbound_of none k = at_least_one (difference k.max_connections k.min_connections)

-- The tokens of the limiter of inbound connections.
unfoldable pub max_inbound : {F : Type 0} → Config F → ℤ
max_inbound c = inbound_of c.conn_mgr_inbound_slots (connection_config c)

marks :
    (low high : ℤ)
    → is_negative low ≡ false
    → is_negative high ≡ false
    → greater low high ≡ false
    → greater (pos 50) (at_least_one (difference (plus_nat high 50) low)) ≡ false
marks (negsuc l) high a b o = absurd (ground (arith, a))
marks (pos l) (negsuc h) a b o = absurd (ground (arith, b))
marks (pos l) (pos h) a b o =
    let le : l ≤ h = ground (arith, o) in
    let big : leb l (h + 50) ≡ true = ground (arith, le) in
    rw big (
      if_both (λ z. greater (pos 50) z ≡ false) (ltb 1 (h + 50 - l)) (λ x. ground (arith, le))
        (λ x. absurd (ground (arith, x, le))))

-- Whatever the environment says: a configuration that `__post_init__` lets through and that sets no
-- number of inbound slots leaves room for at least 50 inbound connections.
pub max_inbound-post_init :
    {F : Type 0} (py : Texts F) (getenv : String → Option String) (c d : Config F)
    → post_init py getenv c ≡ ok d
    → d.conn_mgr_inbound_slots ≡ none
    → greater (pos 50) (max_inbound d) ≡ false
unfolding max_inbound
max_inbound-post_init py getenv c d h e =
    let v = post_init-IsValid py getenv c d h in
    subst (λ o. greater (pos 50) (inbound_of o (connection_config d)) ≡ false) (sym e)
      (marks d.conn_mgr_low_water d.conn_mgr_high_water v.low v.high v.ordered)
