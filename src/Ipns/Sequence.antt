-- ===== src/Ipns/Sequence.antt =====
-- `publish_name`: the sequence number of a new record, and where it is kept.
use py_ipfs_lite.Prelude.{
  ℕ, ◌+◌, ◌≤◌, ◌<◌, max, Bool, true, ◌&&◌, Option, none, some, ◌≡◌, if◌then◌else◌, leb, arith,
  Bool-cases, inl, inr,
}
use py_ipfs_lite.Errors.{Result, ok, raise, routing_error}

-- What surrounds one call: whether the datastore can be read and written, the sequence of the record
-- that the routing has (none where it has none or does not answer), the clock, the lifetime that is
-- asked for, and whether the routing accepts the new record in time.
pub record Call : Type 0 where
  pub has_datastore : Bool
  pub can_read : Bool
  pub can_write : Bool
  pub remote : Option ℕ
  pub time : ℕ
  pub lifetime_hours : ℕ
  pub accepts : Bool

-- The result, the sequence in the datastore afterwards, and the sequence of the record that was
-- handed to the routing.
pub record Published : Type 0 where
  pub result : Result (Unit {0})
  pub stored : Option ℕ
  pub sent : Option ℕ

abbrev pub or_zero : Option ℕ → ℕ
or_zero none = 0
or_zero (some n) = n

abbrev pub last_sequence : Call → Option ℕ → ℕ
last_sequence c stored = if c.has_datastore && c.can_read then or_zero stored else 0

abbrev pub next_sequence : Call → Option ℕ → ℕ
next_sequence c stored = max (max (last_sequence c stored) (or_zero c.remote)) c.time + 1

abbrev pub store : Call → ℕ → Option ℕ → Option ℕ
store c n stored = if c.has_datastore && c.can_write then some n else stored

-- 0xFFFFFFFFFFFFFFFF
abbrev pub max_sequence : ℕ
max_sequence = 18_446_744_073_709_551_615

-- The arguments that `create_ipns_record` takes; it raises ValueError for others.
abbrev pub is_valid_record : ℕ → ℕ → Bool
is_valid_record sequence lifetime =
    leb sequence max_sequence && leb 1 lifetime && leb lifetime 876_000

unfoldable pub publish_name : Call → Option ℕ → Published
publish_name c stored =
    let n = next_sequence c stored in
    let is_valid = is_valid_record n c.lifetime_hours in
    record {
      result = if is_valid && c.accepts then ok tt else raise routing_error;
      stored = store c n stored;
      sent = if is_valid then some n else none;
    }

-- Where the datastore keeps what the first of two calls writes and the second can read it, the
-- second record has the higher sequence, whatever the clock and the routing say.
pub publish_name_grows :
    (c d : Call) (stored : Option ℕ) (m n : ℕ)
    → (c.has_datastore && c.can_write) ≡ true
    → (d.has_datastore && d.can_read) ≡ true
    → (publish_name c stored).sent ≡ some m
    → (publish_name d (publish_name c stored).stored).sent ≡ some n
    → m < n
unfolding publish_name
publish_name_grows c d stored m n w r h g = ground (arith, w, r, h, g)

-- Where the datastore can be read and has at least the highest sequence, a call raises and the
-- datastore still has such a sequence.
pub publish_name_stuck :
    (c : Call) (s : ℕ)
    → (c.has_datastore && c.can_read) ≡ true
    → max_sequence ≤ s
    → ((publish_name c (some s)).result ≡ raise routing_error)
      × ((t : ℕ) × ((publish_name c (some s)).stored ≡ some t) × (max_sequence ≤ t))
unfolding publish_name
publish_name_stuck c s r h = (
  ground (arith, r, h),
  elim (Bool-cases (c.has_datastore && c.can_write)) [
    | inl w ↦ (next_sequence c (some s), ground (arith, w), ground (arith, r, h))
    | inr w ↦ (s, ground (arith, w), h)
  ],
)
