-- ===== src/Swarm/Oldest.antt =====
-- The details that the list shows of a peer are its oldest ones.
use py_ipfs_lite.Prelude.{
  ℕ, ◌≤◌, ◌<◌, String, false, not, ◌&&◌, Option, none, some, [], ◌∷◌, ◌≡◌, sym, ap, ◌∙◌, ◌==◌,
  string_eq, nat_eq, arith, ==_iff, Bool-cases, Option-cases, inl, inr, subst, if_both, In,
  beq_refl,
}
use py_ipfs_lite.Dict.{Dict, get, put, get-put}
use py_ipfs_lite.Conns.Table.{ConnMeta, deref}
use py_ipfs_lite.Swarm.Connected.{older, keep_older, conn_meta_from}

-- There are details of the peer, at least as old as `n`.
abbrev pub OldAs : String → ℕ → Dict String ConnMeta → Type 0
OldAs p n d = (m : ConnMeta) × (get p d ≡ some m) × (m.start ≤ n)

keep_older-OldAs :
    (p : String) (n : ℕ) (o : Option ConnMeta) (d : Dict String ConnMeta)
    → OldAs p n d
    → OldAs p n (keep_older o d)
keep_older-OldAs p n none d h = h
keep_older-OldAs p n (some m) d (k, g, l) =
    if_both (OldAs p n)
      (not (m.peer_id == "") && not (m.peer_id == "unknown") && older m (get m.peer_id d))
      {x = put m.peer_id m d} {y = d}
      (λ b. elim (Bool-cases (m.peer_id == p)) [
        | inl y ↦
            let same = (==_iff m.peer_id p).0 y in
            let lt : m.start < k.start =
              ground (arith, b, ap (older m) (ap (λ z. get z d) same ∙ g)) in
            (m, get-put m.peer_id p m d ∙ ground (arith, y), omega (arith, lt, l))
        | inr f ↦ (k, get-put m.peer_id p m d ∙ ground (arith, f, g), l)
      ])
      (λ b. (k, g, l))

conn_meta_from-OldAs :
    (p : String) (n : ℕ) (heap : Dict ℕ ConnMeta) (table : Dict ℕ ℕ) (d : Dict String ConnMeta)
    → OldAs p n d
    → OldAs p n (conn_meta_from heap table d)
unfolding conn_meta_from
conn_meta_from-OldAs p n heap [] d h = h
conn_meta_from-OldAs p n heap ((id, r) ∷ table) d h =
    conn_meta_from-OldAs p n heap table (keep_older (deref heap (some r)) d)
      (keep_older-OldAs p n (deref heap (some r)) d h)

keep_older-new :
    (m : ConnMeta) (d : Dict String ConnMeta)
    → (m.peer_id == "") ≡ false
    → (m.peer_id == "unknown") ≡ false
    → OldAs m.peer_id m.start (keep_older (some m) d)
keep_older-new m d e u = elim (Bool-cases (older m (get m.peer_id d))) [
  | inl y ↦
      (m, ground (arith, y, e, u, get-put m.peer_id m.peer_id m d, beq_refl m.peer_id), omega arith)
  | inr f ↦ elim (Option-cases (get m.peer_id d)) [
    | inl g ↦ absurd (ground (arith, f, g))
    | inr (k, g) ↦ (k, ground (arith, f, g, e, u), ground (arith, ap (older m) (sym g) ∙ f))
  ]
]

-- For every connection in the tracker's table whose peer is known, the details that are kept of that
-- peer are at least as old.
pub conn_meta_from-start :
    (id r : ℕ) (m : ConnMeta) (heap : Dict ℕ ConnMeta) (table : Dict ℕ ℕ) (d : Dict String ConnMeta)
    → In (id, r) table
    → get r heap ≡ some m
    → (m.peer_id == "") ≡ false
    → (m.peer_id == "unknown") ≡ false
    → (k : ConnMeta) × (get m.peer_id (conn_meta_from heap table d) ≡ some k) × (k.start ≤ m.start)
unfolding conn_meta_from
conn_meta_from-start id r m heap [] d i g e u = absurd i
conn_meta_from-start id r m heap ((j, q) ∷ table) d (inl p) g e u =
    conn_meta_from-OldAs m.peer_id m.start heap table (keep_older (get q heap) d) (
      subst (λ o. OldAs m.peer_id m.start (keep_older o d))
        (sym g ∙ ap (λ z. get z heap) (ap (λ z. z.1) p)) (keep_older-new m d e u))
conn_meta_from-start id r m heap ((j, q) ∷ table) d (inr i) g e u =
    conn_meta_from-start id r m heap table (keep_older (get q heap) d) i g e u
