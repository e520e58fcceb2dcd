-- ===== src/Maintenance/KeepAlive.antt =====
-- `_keep_alive_loop`: each sweep starts a ping for the peers that are due.
use py_ipfs_lite.Prelude.{
  ℕ, ◌+◌, ◌-◌, ◌<◌, String, Bool, true, false, not, ◌&&◌, ◌||◌, Option, none, some, List, [], ◌∷◌,
  ◌++◌, ◌≡◌, sym, string_eq, if◌then◌else◌, mem, leb, arith, Bool-cases, inl, inr, beq_refl,
  mem-append, In, In→mem, mem→In, subst,
}
use py_ipfs_lite.Dict.{Dict, get, put, get-put, Distinct, keys}
use py_ipfs_lite.Pubsub.Topics.{discard}

-- `_inflight_pings` and `_last_ping_time`
pub record Pings : Type 0 where
  pub inflight : List String
  pub last_ping_time : Dict String ℕ

-- any(not c.is_closed for c in conns)
abbrev pub any_open : List Bool → Bool
any_open [] = false
any_open (is_closed ∷ cs) = not is_closed || any_open cs

-- The peers with a connection that is not closed.
unfoldable pub connected_peers : Dict String (List Bool) → List String
connected_peers [] = []
connected_peers ((p, conns) ∷ d) =
    let rest = connected_peers d in if any_open conns then p ∷ rest else rest

abbrev pub last_ping : Option ℕ → ℕ
last_ping none = 0
last_ping (some t) = t

abbrev pub is_due : ℕ → Pings → String → Bool
is_due now s p = not (mem p s.inflight) && leb 15_000 (now - last_ping (get p s.last_ping_time))

unfoldable pub peers_to_ping : ℕ → Pings → List String → List String
peers_to_ping now s [] = []
peers_to_ping now s (p ∷ ps) =
    let rest = peers_to_ping now s ps in if is_due now s p then p ∷ rest else rest

-- One sweep: the peers whose pings are started, and the state.
unfoldable pub sweep_pings : ℕ → Dict String (List Bool) → Pings → List String × Pings
unfolding connected_peers peers_to_ping
sweep_pings now connections s =
    let ps = peers_to_ping now s (connected_peers connections) in
    (ps, record s { inflight = s.inflight ++ ps })

-- The task of a ping sets the time, however the ping went, since `_ping_peer` swallows a failure.
unfoldable pub ping_recorded : ℕ → String → Pings → Pings
ping_recorded now p s = record s { last_ping_time = put p now s.last_ping_time }

-- And it ends a little later.
unfoldable pub ping_ended : String → Pings → Pings
unfolding discard
ping_ended p s = record s { inflight = discard p s.inflight }

peers_to_ping-In :
    (now : ℕ) (s : Pings) (ps : List String) (p : String)
    → In p (peers_to_ping now s ps)
    → In p ps × (is_due now s p ≡ true)
unfolding peers_to_ping
peers_to_ping-In now s [] p i = absurd i
peers_to_ping-In now s (q ∷ ps) p i = elim (Bool-cases (is_due now s q)) [
  | inr n ↦ let (j, d) = peers_to_ping-In now s ps p (rw n at i) in (inr j, d)
  | inl y ↦ elim (rw y at i) [
    | inl k ↦ (inl k, subst (λ z. is_due now s z ≡ true) (sym k) y)
    | inr j ↦ let (j', d) = peers_to_ping-In now s ps p j in (inr j', d)
  ]
]

not_In : (p : String) (xs : List String) → ¬ In p xs → mem p xs ≡ false
not_In p xs h = elim (Bool-cases (mem p xs)) [ inl y ↦ absurd (h (mem→In p xs y)) | inr n ↦ n ]

Distinct-peers_to_ping :
    (now : ℕ) (s : Pings) (ps : List String) → Distinct ps → Distinct (peers_to_ping now s ps)
unfolding peers_to_ping
Distinct-peers_to_ping now s [] d = tt
Distinct-peers_to_ping now s (p ∷ ps) d = elim (Bool-cases (is_due now s p)) [
  | inr n ↦ rw n (Distinct-peers_to_ping now s ps d.1)
  | inl y ↦ rw y (
    not_In p (peers_to_ping now s ps)
        (λ i. absurd (ground (arith, d.0, In→mem p ps (peers_to_ping-In now s ps p i).0))),
    Distinct-peers_to_ping now s ps d.1,
  )
]

connected_peers-In :
    (d : Dict String (List Bool)) (p : String) → In p (connected_peers d) → In p (keys d)
unfolding connected_peers
connected_peers-In [] p i = i
connected_peers-In ((q, conns) ∷ d) p i = elim (Bool-cases (any_open conns)) [
  | inr n ↦ inr (connected_peers-In d p (rw n at i))
  | inl y ↦ elim (rw y at i) [ inl k ↦ inl k | inr j ↦ inr (connected_peers-In d p j) ]
]

Distinct-connected_peers :
    (d : Dict String (List Bool)) → Distinct (keys d) → Distinct (connected_peers d)
unfolding connected_peers
Distinct-connected_peers [] h = tt
Distinct-connected_peers ((q, conns) ∷ d) h = elim (Bool-cases (any_open conns)) [
  | inr n ↦ rw n (Distinct-connected_peers d h.1)
  | inl y ↦ rw y (
    not_In q (connected_peers d)
        (λ i. absurd (ground (arith, h.0, In→mem q (keys d) (connected_peers-In d q i)))),
    Distinct-connected_peers d h.1,
  )
]

Distinct-join :
    (xs ys : List String)
    → Distinct xs
    → Distinct ys
    → ((p : String) → In p ys → mem p xs ≡ false)
    → Distinct (xs ++ ys)
Distinct-join [] ys d c h = c
Distinct-join (x ∷ xs) ys d c h = (
  ground (
    arith,
    mem-append x xs ys,
    d.0,
    not_In x ys (λ i. absurd (ground (arith, h x i, beq_refl x))),
  ),
  Distinct-join xs ys d.1 c (λ p i. ground (arith, h p i)),
)

-- Where the keys of the table of connections are distinct, and the peers in flight are, these stay
-- distinct in a sweep: no peer is pinged twice at a time.
pub sweep_pings-Distinct :
    (now : ℕ) (connections : Dict String (List Bool)) (s : Pings)
    → Distinct (keys connections)
    → Distinct s.inflight
    → Distinct (sweep_pings now connections s).1.inflight
unfolding sweep_pings
sweep_pings-Distinct now connections s k d =
    let ps = connected_peers connections in
    Distinct-join s.inflight (peers_to_ping now s ps) d
      (Distinct-peers_to_ping now s ps (Distinct-connected_peers connections k))
      (λ p i. ground (arith, (peers_to_ping-In now s ps p i).1))

-- Where the ping of a peer that a sweep has started is recorded `d` after it, the next sweep, 15 s
-- later and less than `d` late, does not ping the peer again.
pub sweep_pings_skips :
    (now d late : ℕ) (first second : Dict String (List Bool)) (s : Pings) (p : String)
    → late < d
    → let started = (sweep_pings now first s).1 in
      let done = ping_ended p (ping_recorded (now + d) p started) in
      mem p (sweep_pings (now + 15_000 + late) second done).0 ≡ false
unfolding sweep_pings ping_recorded ping_ended
sweep_pings_skips now d late first second s p l =
    let done = ping_ended p (ping_recorded (now + d) p (sweep_pings now first s).1) in
    not_In p (sweep_pings (now + 15_000 + late) second done).0 (λ i. absurd (
      ground (
        arith,
        (peers_to_ping-In (now + 15_000 + late) done (connected_peers second) p i).1,
        get-put p p (now + d) s.last_ping_time,
        beq_refl p,
        l,
      )))
