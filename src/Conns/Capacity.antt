-- ===== src/Conns/Capacity.antt =====
-- `_enforce_stats_capacity`, on the stats of connections and on the table of details.
use py_ipfs_lite.Prelude.{
  ℕ, ◌+◌, ◌-◌, String, Bool, false, Option, none, some, List, [], ◌∷◌, string_eq, nat_eq,
  if◌then◌else◌, length, take, ltb, leb, nat_beq, Key,
}
use py_ipfs_lite.Dict.{Dict, remove}
use py_ipfs_lite.Conns.Table.{ConnMeta, PeerConnectionStats, Conns, deref}

-- The peers without a connection, until at most 300 would be left; `total` is len(self.stats) and
-- `n` how many are chosen already.
unfoldable pub to_remove : ℕ → ℕ → Dict String PeerConnectionStats → List String
to_remove total n [] = []
to_remove total n ((pid, st) ∷ stats) =
    let idle = nat_beq st.current_connections 0 in
    let rest = to_remove total (if idle then n + 1 else n) stats in
    if idle then pid ∷ (if leb (total - (n + 1)) 300 then [] else rest) else rest

-- for pid in pids: d.pop(pid, None)
unfoldable pub pop_all : {K V : Type 0} ⦃e : Key K⦄ → List K → Dict K V → Dict K V
pop_all [] d = d
pop_all (k ∷ ks) d = pop_all ks (remove k d)

abbrev pub is_older : ℕ → Option ConnMeta → Bool
is_older now none = false
is_older now (some m) = ltb 600_000 (now - m.start)

-- The ids whose details are older than ten minutes.
unfoldable pub stale_keys : ℕ → Dict ℕ ConnMeta → Dict ℕ ℕ → List ℕ
stale_keys now heap [] = []
stale_keys now heap ((k, r) ∷ table) =
    let rest = stale_keys now heap table in
    if is_older now (deref heap (some r)) then k ∷ rest else rest

abbrev pub prune_table : ℕ → Conns → Conns
prune_table now s =
    if ltb 500 (length s.table)
    then record s { table = pop_all (take 300 (stale_keys now s.heap s.table)) s.table }
    else s

-- `peer_stream_stats` and `_peer_lifetime` lose the same peers.
abbrev pub evicted : Conns → List String
evicted s = if leb (length s.stats) 500 then [] else to_remove (length s.stats) 0 s.stats

unfoldable pub enforce_capacity : ℕ → Conns → Conns
unfolding to_remove pop_all stale_keys
enforce_capacity now s =
    if leb (length s.stats) 500
    then s
    else prune_table now (record s { stats = pop_all (evicted s) s.stats })
