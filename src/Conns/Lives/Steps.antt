-- ===== src/Conns/Lives/Steps.antt =====
-- What each event does to the object of a connection.
use py_ipfs_lite.Prelude.{
  ℕ, ◌+◌, String, false, Option, none, some, List, [], ◌∷◌, ◌==◌, ◌≡◌, sym, ap, ◌∙◌, subst, inl,
  inr, string_eq, nat_eq, arith, Bool-cases, Option-cases, ==_iff,
}
use py_ipfs_lite.Dict.{Dict, get, put, get-put, put-Distinct}
use py_ipfs_lite.Conns.Details.{Details}
use py_ipfs_lite.Conns.Table.{ConnMeta, Conns, served, put_served, serve_ref, serve, store_ids}
use py_ipfs_lite.Conns.Events.{new_meta, connected, disconnected}
use py_ipfs_lite.Conns.Lives.{
  Event, connects, serves, disconnects, happen, run, Differs, DiffersIf, IsOther, AllOther, opened,
  streams,
}
use py_ipfs_lite.Conns.Lives.Held.{Held, HeldIn, disconnect-Held}

module _ (conn muxed : ℕ) where
  module _ (r : ℕ) (p : String) (start : ℕ) where
    -- A stream on the muxed connection counts, one elsewhere changes another object.
    serve_own-Held :
        {n : ℕ} (pr : Option String) (s : Conns)
        → HeldIn conn muxed r p start n s
        → HeldIn conn muxed r p start (n + 1) (serve (some muxed) pr s)
    unfolding serve
    serve_own-Held {n} pr s h =
        subst (λ o. HeldIn conn muxed r p start (n + 1) (serve_ref o pr s)) (sym h.by_muxed)
          (subst (λ o. HeldIn conn muxed r p start (n + 1) (put_served r pr o s)) (sym h.found)
            (record {
              object = served pr h.object;
              by_conn = h.by_conn;
              by_muxed = h.by_muxed;
              found = ground (arith, get-put r r (served pr h.object) s.heap);
              peer = h.peer;
              began = h.began;
              count = ap (λ z. z + 1) h.count;
              alone = h.alone;
              below = h.below;
              distinct = h.distinct;
            }))

    put_other-Held :
        {n : ℕ} (r' : ℕ) (pr : Option String) (o : Option ConnMeta) (s : Conns)
        → (r' == r) ≡ false
        → HeldIn conn muxed r p start n s
        → HeldIn conn muxed r p start n (put_served r' pr o s)
    put_other-Held r' pr none s d h = h
    put_other-Held r' pr (some m) s d h = record {
      object = h.object;
      by_conn = h.by_conn;
      by_muxed = h.by_muxed;
      found = ground (arith, get-put r' r (served pr m) s.heap, d, h.found);
      peer = h.peer;
      began = h.began;
      count = h.count;
      alone = h.alone;
      below = h.below;
      distinct = h.distinct;
    }

    serve_other-Held :
        {n : ℕ} (id : ℕ) (pr : Option String) (s : Conns)
        → Differs conn muxed id
        → HeldIn conn muxed r p start n s
        → HeldIn conn muxed r p start n (serve (some id) pr s)
    unfolding serve
    serve_other-Held {n} id pr s d h = elim (Option-cases (get id s.table)) [
      | inl e ↦ subst (λ o. HeldIn conn muxed r p start n (serve_ref o pr s)) (sym e) h
      | inr (r', e) ↦
          subst (λ o. HeldIn conn muxed r p start n (serve_ref o pr s)) (sym e)
            (put_other-Held r' pr (get r' s.heap) s
              (elim (Bool-cases (r' == r)) [
                | inr f ↦ f
                | inl y ↦ absurd (h.alone id d (e ∙ ap some ((==_iff r' r).0 y)))
              ])
              h)
    ]

    -- A new connection gets a new object.
    put-Held :
        {n next : ℕ} {heap : Dict ℕ ConnMeta} (c k : ℕ) (table : Dict ℕ ℕ)
        → (k == r) ≡ false
        → Differs conn muxed c
        → Held conn muxed r p start n table heap next
        → Held conn muxed r p start n (put c k table) heap next
    put-Held c k table k_new d h = record {
      object = h.object;
      by_conn = ground (arith, get-put c conn k table, d.0, h.by_conn);
      by_muxed = ground (arith, get-put c muxed k table, d.1, h.by_muxed);
      found = h.found;
      peer = h.peer;
      began = h.began;
      count = h.count;
      alone = λ id o g. h.alone id o (ground (arith, get-put c id k table, g, ==_iff k r, k_new));
      below = h.below;
      distinct = put-Distinct c k table h.distinct;
    }

    store_ids-Held :
        {n next : ℕ} {heap : Dict ℕ ConnMeta} (c : ℕ) (m : Option ℕ) (k : ℕ) (table : Dict ℕ ℕ)
        → (k == r) ≡ false
        → Differs conn muxed c
        → DiffersIf conn muxed m
        → Held conn muxed r p start n table heap next
        → Held conn muxed r p start n (store_ids c m k table) heap next
    store_ids-Held c none k table k_new d e h = put-Held c k table k_new d h
    store_ids-Held c (some id) k table k_new d e h =
        put-Held id k (put c k table) k_new e (put-Held c k table k_new d h)

    connect-Held :
        {n : ℕ} (now : ℕ) (q : String) (d : Details) (c : ℕ) (m : Option ℕ) (s : Conns)
        → Differs conn muxed c
        → DiffersIf conn muxed m
        → HeldIn conn muxed r p start n s
        → HeldIn conn muxed r p start n (connected now q d c m s)
    unfolding connected
    connect-Held now q d c m s a b h =
        let k_new : (s.next == r) ≡ false = ground (arith, h.below, ==_iff s.next r) in
        let t = store_ids-Held c m s.next s.table k_new a b h in
        record {
          object = h.object;
          by_conn = t.by_conn;
          by_muxed = t.by_muxed;
          found = ground (arith, get-put s.next r (new_meta now q d) s.heap, k_new, h.found);
          peer = h.peer;
          began = h.began;
          count = h.count;
          alone = t.alone;
          below = ground (arith, h.below);
          distinct = t.distinct;
        }

    happen-Held :
        {n : ℕ} (e : Event) (s : Conns)
        → IsOther conn muxed start e
        → HeldIn conn muxed r p start n s
        → HeldIn conn muxed r p start (n + opened conn muxed e) (happen e s)
    unfolding serve
    happen-Held {n} (connects now q d c m) s (a, b) h =
        subst (λ z. HeldIn conn muxed r p start z (connected now q d c m s)) (omega arith)
          (connect-Held now q d c m s a b h)
    happen-Held {n} (serves none pr) s o h =
        subst (λ z. HeldIn conn muxed r p start z s) (omega arith) h
    happen-Held {n} (serves (some id) pr) s o h = elim (Bool-cases (id == muxed)) [
      | inl y ↦
          subst (λ z. HeldIn conn muxed r p start z (serve (some id) pr s)) (ground (arith, y))
            (subst (λ z. HeldIn conn muxed r p start (n + 1) (serve (some z) pr s))
              (sym ((==_iff id muxed).0 y)) (serve_own-Held pr s h))
      | inr f ↦
          subst (λ z. HeldIn conn muxed r p start z (serve (some id) pr s)) (ground (arith, f))
            (serve_other-Held id pr s (o, f) h)
    ]
    happen-Held {n} (disconnects now q c m) s o h =
        subst (λ z. HeldIn conn muxed r p start z (disconnected now q c m s)) (omega arith)
          (disconnect-Held conn muxed r p start now q c m s o h)

    pub run-Held :
        (es : List Event) (n : ℕ) (s : Conns)
        → AllOther conn muxed start es
        → HeldIn conn muxed r p start n s
        → HeldIn conn muxed r p start (n + streams conn muxed es) (run es s)
    unfolding run
    run-Held [] n s o h = subst (λ z. HeldIn conn muxed r p start z s) (omega arith) h
    run-Held (e ∷ es) n s o h =
        subst (λ z. HeldIn conn muxed r p start z (run es (happen e s))) (omega arith)
          (run-Held es (n + opened conn muxed e) (happen e s) o.1 (happen-Held e s o.0 h))
