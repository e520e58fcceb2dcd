-- ===== src/Conns/Lives/Sound.antt =====
-- Every sequence of events leaves a sound table.
use py_ipfs_lite.Prelude.{
  ℕ, ◌+◌, ◌<◌, String, Option, none, some, List, [], ◌∷◌, ◌==◌, ◌≡◌, inl, inr, string_eq, nat_eq,
  length, take, ltb, leb, arith, Bool-cases, if_both,
}
use py_ipfs_lite.Dict.{
  Dict, keys, get, put, remove, get-put, get-remove, Distinct, put-Distinct, remove-Distinct,
}
use py_ipfs_lite.Conns.Table.{
  ConnMeta, PeerConnectionStats, Conns, meta_at, is_recycled, pop_meta, put_served, serve_ref,
  serve, store_ids,
}
use py_ipfs_lite.Conns.Capacity.{pop_all, stale_keys, prune_table, evicted, enforce_capacity}
use py_ipfs_lite.Conns.Events.{
  connected, mark_disconnected, pop_muxed, disconnected, disconnection, append_event,
}
use py_ipfs_lite.Conns.Lives.{Event, connects, serves, disconnects, happen, run}

-- The ids of the table lead to objects that were made, and none stands twice.
pub record Sound (table : Dict ℕ ℕ) (next : ℕ) : Type 0 where
  pub distinct : Distinct (keys table)
  pub below : (id r : ℕ) → get id table ≡ some r → r < next

remove-Sound :
    {next : ℕ} (c : ℕ) (table : Dict ℕ ℕ) → Sound table next → Sound (remove c table) next
remove-Sound c table h = record {
  distinct = remove-Distinct c table h.distinct;
  below = λ id r g. h.below id r (ground (arith, g, get-remove c id table));
}

put-Sound :
    {next : ℕ} (c k : ℕ) (table : Dict ℕ ℕ)
    → k < next
    → Sound table next
    → Sound (put c k table) next
put-Sound {next} c k table l h = record {
  distinct = put-Distinct c k table h.distinct;
  below = λ id r g. elim (Bool-cases (c == id)) [
    | inl y ↦ ground (arith, g, y, get-put c id k table, l)
    | inr f ↦ h.below id r (ground (arith, g, f, get-put c id k table))
  ];
}

pop_all-Sound :
    {next : ℕ} (ks : List ℕ) (table : Dict ℕ ℕ) → Sound table next → Sound (pop_all ks table) next
unfolding pop_all
pop_all-Sound [] table h = h
pop_all-Sound (k ∷ ks) table h = pop_all-Sound ks (remove k table) (remove-Sound k table h)

abbrev pub SoundIn : Conns → Type 0
SoundIn s = Sound s.table s.next

pop_meta-Sound : (c : ℕ) (q : String) (s : Conns) → SoundIn s → SoundIn (pop_meta c q s).1
unfolding pop_meta
pop_meta-Sound c q s h =
    if_both (λ (z : Option ConnMeta × Conns). SoundIn z.1) (is_recycled q (meta_at c s))
      {x = (none, s)} {y = (meta_at c s, record s { table = remove c s.table })} (λ b. h)
      (λ b. remove-Sound c s.table h)

pop_muxed-Sound : (m : Option ℕ) (q : String) (s : Conns) → SoundIn s → SoundIn (pop_muxed m q s)
pop_muxed-Sound none q s h = h
pop_muxed-Sound (some id) q s h = pop_meta-Sound id q s h

mark-Sound :
    (now : ℕ) (q : String) (o : Option PeerConnectionStats) (s : Conns)
    → SoundIn s
    → SoundIn (mark_disconnected now q o s)
mark-Sound now q none s h = h
mark-Sound now q (some st) s h = record h {}

enforce-Sound : (now : ℕ) (s : Conns) → SoundIn s → SoundIn (enforce_capacity now s)
unfolding enforce_capacity
enforce-Sound now s h =
    let t : Conns = record s { stats = pop_all (evicted s) s.stats } in
    if_both SoundIn (leb (length s.stats) 500) {x = s} {y = prune_table now t} (λ b. h)
      (λ b.
        if_both SoundIn (ltb 500 (length t.table))
          {x = record t { table = pop_all (take 300 (stale_keys now t.heap t.table)) t.table }}
          {y = t} (λ c. pop_all-Sound (take 300 (stale_keys now s.heap s.table)) s.table h)
          (λ c. h))

disconnected-Sound :
    (now : ℕ) (q : String) (c : ℕ) (m : Option ℕ) (s : Conns)
    → SoundIn s
    → SoundIn (disconnected now q c m s)
unfolding disconnected
disconnected-Sound now q c m s h =
    let s2 = pop_muxed m q (pop_meta c q s).1 in
    let counted : Conns = record s2 {
      total_disconnected_events = s2.total_disconnected_events + 1;
    } in
    let s3 = mark_disconnected now q (get q s2.stats) counted in
    let s4 : Conns = record s3 {
      recent_disconnections =
          append_event (disconnection now q (pop_meta c q s).0 (get q s2.stats))
            s3.recent_disconnections;
    } in
    let sound : SoundIn s4 =
      mark-Sound now q (get q s2.stats) counted
        (pop_muxed-Sound m q (pop_meta c q s).1 (pop_meta-Sound c q s h)) in
    if_both SoundIn (ltb 2_000 (length s4.stats)) {x = enforce_capacity now s4} {y = s4}
      (λ x. enforce-Sound now s4 sound) (λ x. sound)

put_served-Sound :
    (r : ℕ) (pr : Option String) (o : Option ConnMeta) (s : Conns)
    → SoundIn s
    → SoundIn (put_served r pr o s)
put_served-Sound r pr none s h = h
put_served-Sound r pr (some m) s h = record h {}

serve_ref-Sound :
    (o : Option ℕ) (pr : Option String) (s : Conns) → SoundIn s → SoundIn (serve_ref o pr s)
serve_ref-Sound none pr s h = h
serve_ref-Sound (some r) pr s h = put_served-Sound r pr (get r s.heap) s h

later-Sound : (table : Dict ℕ ℕ) (next : ℕ) → Sound table next → Sound table (next + 1)
later-Sound table next h = record {
  distinct = h.distinct;
  below = λ id r g. omega (arith, h.below id r g);
}

store_ids-Sound :
    {next : ℕ} (c : ℕ) (m : Option ℕ) (k : ℕ) (table : Dict ℕ ℕ)
    → k < next
    → Sound table next
    → Sound (store_ids c m k table) next
store_ids-Sound c none k table l h = put-Sound c k table l h
store_ids-Sound c (some id) k table l h = put-Sound id k (put c k table) l (put-Sound c k table l h)

happen-Sound : (e : Event) (s : Conns) → SoundIn s → SoundIn (happen e s)
unfolding connected serve
happen-Sound (connects now q d c m) s h =
    let t = store_ids-Sound c m s.next s.table (omega arith) (later-Sound s.table s.next h) in
    record { distinct = t.distinct; below = t.below }
happen-Sound (serves none pr) s h = h
happen-Sound (serves (some id) pr) s h = serve_ref-Sound (get id s.table) pr s h
happen-Sound (disconnects now q c m) s h = disconnected-Sound now q c m s h

pub run-Sound : (es : List Event) (s : Conns) → SoundIn s → SoundIn (run es s)
unfolding run
run-Sound [] s h = h
run-Sound (e ∷ es) s h = run-Sound es (happen e s) (happen-Sound e s h)
