-- ===== src/Conns/Lookups.antt =====
-- The lookups of a disconnect.
use py_ipfs_lite.Prelude.{
  ℕ, String, false, Option, none, some, ◌==◌, ◌≡◌, ap, ◌∙◌, subst, string_eq, nat_eq, arith,
  Bool-cases, if_both, ==_iff, inl, inr,
}
use py_ipfs_lite.Dict.{get-remove}
use py_ipfs_lite.Conns.Table.{ConnMeta, Conns, deref, meta_at, is_recycled, pop_meta}
use py_ipfs_lite.Conns.Events.{pop_muxed}

pop_meta-other :
    (id k : ℕ) (p : String) (m : ConnMeta) (s : Conns)
    → meta_at k s ≡ some m
    → (m.peer_id == p) ≡ false
    → meta_at k (pop_meta id p s).1 ≡ some m
unfolding pop_meta
pop_meta-other id k p m s h q =
    if_both (λ (r : Option ConnMeta × Conns). meta_at k r.1 ≡ some m) (is_recycled p (meta_at id s))
      (λ e. h)
      (λ e. elim (Bool-cases (id == k)) [
        | inl y ↦
            absurd (same (subst (λ z. is_recycled p (meta_at z s) ≡ false) ((==_iff id k).0 y) e))
        | inr f ↦ ap (deref s.heap) (ground (arith, get-remove id k s.table, f)) ∙ h
      ])
  where
    same : is_recycled p (meta_at k s) ≡ false → ⊥
    same e = absurd (ground (arith, subst (λ o. is_recycled p o ≡ false) h e, q))

-- The two lookups of a disconnect take out no details of another peer.
pub pop_both-other :
    (conn : ℕ) (muxed : Option ℕ) (k : ℕ) (p : String) (m : ConnMeta) (s : Conns)
    → meta_at k s ≡ some m
    → (m.peer_id == p) ≡ false
    → meta_at k (pop_muxed muxed p (pop_meta conn p s).1) ≡ some m
pop_both-other conn none k p m s h q = pop_meta-other conn k p m s h q
pop_both-other conn (some id) k p m s h q =
    pop_meta-other id k p m (pop_meta conn p s).1 (pop_meta-other conn k p m s h q) q
