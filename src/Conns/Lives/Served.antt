-- ===== src/Conns/Lives/Served.antt =====
-- What the disconnect of a connection finds.
use py_ipfs_lite.Prelude.{
  ℕ, ◌<◌, String, Option, some, List, ◌≡◌, refl, sym, ap, ◌∙◌, subst, string_eq, nat_eq, arith,
  ==_iff, eq_iff,
}
use py_ipfs_lite.Dict.{get, put, get-put, put-Distinct}
use py_ipfs_lite.Conns.Details.{Details}
use py_ipfs_lite.Conns.Table.{ConnMeta, Conns, deref, meta_at, pop_found, pop_meta}
use py_ipfs_lite.Conns.Events.{new_meta, connected}
use py_ipfs_lite.Conns.Lives.{Event, run, AllOther, streams, no_connections}
use py_ipfs_lite.Conns.Lives.Held.{HeldIn}
use py_ipfs_lite.Conns.Lives.Steps.{run-Held}
use py_ipfs_lite.Conns.Lives.Sound.{SoundIn, run-Sound}

module _ (conn muxed : ℕ) where
  connected-Held :
      (now : ℕ) (p : String) (d : Details) (s : Conns)
      → SoundIn s
      → HeldIn conn muxed s.next p now 0 (connected now p d conn (some muxed) s)
  unfolding connected
  connected-Held now p d s h = record {
    object = new_meta now p d;
    by_conn = ground (
      arith,
      get-put muxed conn s.next (put conn s.next s.table),
      get-put conn conn s.next s.table,
    );
    by_muxed = ground (arith, get-put muxed muxed s.next (put conn s.next s.table));
    found = ground (arith, get-put s.next s.next (new_meta now p d) s.heap);
    peer = refl;
    began = refl;
    count = refl;
    alone = λ id o g.
        let old : get id s.table ≡ some s.next = ground (
          arith,
          o,
          g,
          get-put muxed id s.next (put conn s.next s.table),
          get-put conn id s.next s.table,
          ==_iff conn id,
          ==_iff id conn,
          ==_iff muxed id,
          ==_iff id muxed,
        ) in
        absurd (ground (arith, h.below id s.next old));
    below = omega arith;
    distinct =
        put-Distinct muxed s.next (put conn s.next s.table)
          (put-Distinct conn s.next s.table h.distinct);
  }

none_there : (id r : ℕ) → get id no_connections.table ≡ some r → r < 0
unfolding get
none_there id r g = cc

-- After any events a connection is made. Then events follow of connections with other ids, where each
-- disconnect among them comes at most ten minutes after the connection was made, and streams, whose
-- muxed connection has not the id of the connection itself: the details that the disconnect finds
-- under the id of the connection count exactly the streams that were opened on its muxed connection,
-- and have its peer and its start.
pub pop_meta-run :
    (conn muxed now : ℕ) (p : String) (d : Details) (before after : List Event)
    → AllOther conn muxed now after
    → (n : ConnMeta) × ((pop_meta conn p
          (run after (connected now p d conn (some muxed) (run before no_connections)))).0
        ≡ some n)
      × (n.streams_served ≡ streams conn muxed after)
      × (n.peer_id ≡ p)
      × (n.start ≡ now)
unfolding pop_meta
pop_meta-run conn muxed now p d before after o =
    let s = run before no_connections in
    let sound =
      run-Sound before no_connections
        (record { distinct = tt; below = λ id r g. none_there id r g }) in
    let t = run after (connected now p d conn (some muxed) s) in
    let h =
      run-Held conn muxed s.next p now after 0 (connected now p d conn (some muxed) s) o
        (connected-Held conn muxed now p d s sound) in
    let found : meta_at conn t ≡ some h.object = ap (deref t.heap) h.by_conn ∙ h.found in
    (
      h.object,
      subst (λ (x : Option ConnMeta). (pop_found conn p x t).0 ≡ some h.object) (sym found)
          (ground (arith, eq_iff h.object.peer_id p, h.peer)),
      h.count ∙ omega arith,
      h.peer,
      h.began,
    )
