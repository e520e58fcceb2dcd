-- ===== src/Gc/Swept.antt =====
-- What `gc` deletes, and what it keeps.
use py_ipfs_lite.Prelude.{
  ℕ, ◌+◌, String, Bool, true, false, none, List, [], ◌∷◌, Key, ◌==◌, mem, In, In→mem, mem→In,
  Bool-cases, Option-cases, string_eq, ◌≡◌, ◌≢◌, refl, sym, ◌∙◌, subst, inl, inr, arith, ap, ==_iff,
  length, is_some,
}
use py_ipfs_lite.Errors.{Error, Result, ok, ◌>>=◌, Result-cases, >>=-ok, ok-injective}
use py_ipfs_lite.Dict.{
  Dict, keys, get, remove, get-remove, has-eq-mem, get-In, Distinct, remove-Distinct,
  length-remove-has,
}
use py_ipfs_lite.Dag.{DagLib, Outcome, finished, failed, out_of_fuel, expand}
use py_ipfs_lite.Dag.Reach.{Reach, Reach-walk, walk-Reach}
use py_ipfs_lite.Dag.Fuel.{walk-ends}
use py_ipfs_lite.Gc.{
  StoreCalls, ensure_started, GcResult, deleted, listing, to_set, minus, all_keys, mark_pins,
  walk_pin, links_of, sweep, gc,
}
use py_ipfs_lite.Gc.Marked.{
  In-to_set, to_set-In, In-minus, minus-In, In-all_keys, all_keys-In, In-mark_pins, mark_pins-In,
}

Outcome-cases : (o : Outcome) → o ≢ out_of_fuel → ((err : Error) → o ≢ failed err) → o ≡ finished
Outcome-cases finished h f = refl
Outcome-cases out_of_fuel h f = absurd (h refl)
Outcome-cases (failed err) h f = absurd (f err refl)

module _ {B Block : Type 0} ⦃e : Key B⦄ (lib : DagLib B Block) (show : B → Result String)
    (parse : String → Result B) (calls : StoreCalls B) where
  -- The walks of `gc` are not cut off: each finishes or raises.
  walk_pin_ends :
      (store : Dict B Block) (recursive : Bool) (root : B)
      → (walk_pin lib show parse calls store recursive root).outcome ≢ out_of_fuel
  unfolding expand
  walk_pin_ends store recursive root =
      walk-ends (links_of lib show parse calls store recursive) (keys store)
        (λ c h. ground (arith, has-eq-mem c store)) _ root (omega arith)

  deleted-parse : (s : String) (b : B) → deleted lib show parse calls s ≡ ok b → parse s ≡ ok b
  deleted-parse s b h =
      let (c, p, h') = >>=-ok (parse s) (λ c. do _ ← calls.deletes c; ok c) h in
      let (_, _, h'') = >>=-ok (calls.deletes c) (λ _. ok c) h' in p ∙ h''

  listing-all_keys :
      (started : Bool) (store : Dict B Block) (ss : List String)
      → listing lib show parse calls started store ≡ ok ss
      → all_keys lib show parse calls (keys store) ≡ ok ss
  listing-all_keys started store ss h =
      let (_, _, h') =
        >>=-ok (ensure_started started)
          (λ _. do _ ← calls.lists; all_keys lib show parse calls (keys store)) h in
      let (_, _, h'') = >>=-ok calls.lists (λ _. all_keys lib show parse calls (keys store)) h' in
      h''

  get-remove_ne : (b c : B) (store : Dict B Block) → b ≢ c → get c (remove b store) ≡ get c store
  get-remove_ne b c store h = ground (arith, get-remove b c store, ==_iff b c)

  sweep_keeps :
      (ss : List String) (store : Dict B Block) (c : B)
      → ((s : String) → In s ss → parse s ≢ ok c)
      → get c (sweep lib show parse calls ss store).1 ≡ get c store
  unfolding sweep
  sweep_keeps [] store c h = refl
  sweep_keeps (s ∷ ss) store c h = elim (Result-cases (deleted lib show parse calls s)) [
    | inl (b, p) ↦
        rw (p, sweep)
          (sweep_keeps ss (remove b store) c (λ t i. h t (inr i))
            ∙ get-remove_ne b c store (λ q. h s (inl refl) (deleted-parse s b p ∙ ap ok q)))
    | inr (x, p) ↦ rw (p, sweep) refl
  ]

  sweep-none :
      (ss : List String) (store : Dict B Block) (c : B)
      → get c store ≡ none
      → get c (sweep lib show parse calls ss store).1 ≡ none
  unfolding sweep
  sweep-none [] store c h = h
  sweep-none (s ∷ ss) store c h = elim (Result-cases (deleted lib show parse calls s)) [
    | inl (b, p) ↦
        rw (p, sweep) (sweep-none ss (remove b store) c (ground (arith, get-remove b c store)))
    | inr (x, p) ↦ rw (p, sweep) h
  ]

  sweep_deletes :
      (ss : List String) (store : Dict B Block) (n : ℕ) (s : String) (c : B)
      → (sweep lib show parse calls ss store).0 ≡ ok n
      → In s ss
      → parse s ≡ ok c
      → get c (sweep lib show parse calls ss store).1 ≡ none
  unfolding sweep
  sweep_deletes [] store n s c h i p = absurd i
  sweep_deletes (t ∷ ss) store n s c h i p = elim (Result-cases (deleted lib show parse calls t)) [
    | inr (x, q) ↦ absurd (ground (arith, q))
    | inl (b, q) ↦
        let (m, h', _) =
          >>=-ok (sweep lib show parse calls ss (remove b store)).0 _ (rw (q, sweep) at h) in
        rw (q, sweep)
          (elim i [
            | inl j ↦
                let k : b ≡ c = ok-injective (sym (deleted-parse t b q) ∙ ap parse (sym j) ∙ p) in
                sweep-none ss (remove b store) c (ground (arith, get-remove b c store, ==_iff b c))
            | inr j ↦ sweep_deletes ss (remove b store) m s c h' j p
          ])
  ]

  module _ (shows : (b : B) → (s : String) × (show b ≡ ok s))
      (roundtrip : (b : B) (s : String) → show b ≡ ok s → parse s ≡ ok b) where
    -- `gc` leaves the block of a CID alone whose text is marked.
    pub gc_keeps_marked :
        (started : Bool) (store : Dict B Block) (pins : Dict String String) (c : B) (s : String)
        → show c ≡ ok s
        → In s (mark_pins lib show parse calls store pins [])
        → get c (gc lib show parse calls started store pins).1 ≡ get c store
    unfolding gc
    gc_keeps_marked started store pins c s sc marked =
        elim (Result-cases (listing lib show parse calls started store)) [
          | inr (x, q) ↦ rw (q, gc) refl
          | inl (ss, q) ↦
              rw (q, gc)
                (sweep_keeps _ store c λ s' i pc.
                  let (i', unmarked) =
                    In-minus s' (to_set ss) (mark_pins lib show parse calls store pins []) i in
                  let (b, _, sb) =
                    In-all_keys lib show parse calls (keys store) ss
                      (listing-all_keys started store ss q) s' (In-to_set s' ss i') in
                  let same : s ≡ s' =
                    ok-injective
                      (sym sc ∙ ap show (sym (ok-injective (sym (roundtrip b s' sb) ∙ pc))) ∙ sb) in
                  ground (arith, In→mem s (mark_pins lib show parse calls store pins []) marked))
        ]

    -- Where every CID has a display text that parses back to it, whether or not calls of the store
    -- raise: `gc` leaves every block alone that can be reached from a pin that parses and whose walk
    -- raises nothing (from a direct pin only its own block).
    pub gc_keeps_pinned :
        (started : Bool) (store : Dict B Block) (pins : Dict String String)
        (cid_str pin_type : String) (root c : B)
        → In (cid_str, pin_type) pins
        → parse cid_str ≡ ok root
        → ((err : Error)
            → (walk_pin lib show parse calls store (pin_type == "recursive") root).outcome
              ≢ failed err)
        → Reach (links_of lib show parse calls store (pin_type == "recursive")) root c
        → get c (gc lib show parse calls started store pins).1 ≡ get c store
    gc_keeps_pinned started store pins k t root c m p fine r =
        let (s, sc) = shows c in
        let done = Outcome-cases _ (walk_pin_ends store (t == "recursive") root) fine in
        gc_keeps_marked started store pins c s sc (
          In-mark_pins lib show parse calls shows store pins [] k t root c s m p
            (Reach-walk (links_of lib show parse calls store (t == "recursive")) _ root c done r)
            sc)

    -- A sweep over the texts of stored blocks, each text once, that returns has deleted one block for
    -- each.
    sweep_counts :
        (ss : List String) (store : Dict B Block) (n : ℕ)
        → Distinct ss
        → ((s : String) → In s ss → (b : B) × (show b ≡ ok s) × (is_some (get b store) ≡ true))
        → Distinct (keys store)
        → (sweep lib show parse calls ss store).0 ≡ ok n
        → n + length (sweep lib show parse calls ss store).1 ≡ length store
    unfolding sweep
    sweep_counts [] store n d h u k = omega (arith, ok-injective k)
    sweep_counts (s ∷ ss) store n d h u k =
        let (b, p, i) = h s (inl refl) in
        let later : (t : String)
            → In t ss
            → (c : B) × (show c ≡ ok t) × (is_some (get c (remove b store)) ≡ true) =
          λ t j.
            let (c, q, l) = h t (inr j) in
            let apart : b ≢ c = λ k. absurd (
              ground (
                arith,
                d,
                In→mem s ss (subst (λ x. In x ss) (ok-injective (sym q ∙ ap show (sym k) ∙ p)) j),
              )) in
            (c, q, rw (get-remove_ne b c store apart) l) in
        elim (Result-cases (deleted lib show parse calls s)) [
          | inr (x, q) ↦ absurd (ground (arith, q))
          | inl (b', q) ↦
              let same : b ≡ b' = ok-injective (sym (roundtrip b s p) ∙ deleted-parse s b' q) in
              let q' : deleted lib show parse calls s ≡ ok b = q ∙ ap ok (sym same) in
              let (m, r, k') =
                >>=-ok (sweep lib show parse calls ss (remove b store)).0 (λ m. ok (m + 1))
                  (rw (q', sweep) at k) in
              rw (q', sweep)
                (omega (
                  arith,
                  ok-injective k',
                  sweep_counts ss (remove b store) m d.1 later (remove-Distinct b store u) r,
                  length-remove-has b store u i,
                ))
        ]

    to_set-Distinct : (ss : List String) → Distinct (to_set ss)
    to_set-Distinct [] = tt
    to_set-Distinct (s ∷ ss) = ground (arith, to_set-Distinct ss)

    minus-Distinct : (ss ts : List String) → Distinct ss → Distinct (minus ss ts)
    minus-Distinct [] ts d = tt
    minus-Distinct (s ∷ ss) ts d = elim (Bool-cases (mem s ts)) [
      | inl y ↦ rw y (minus-Distinct ss ts d.1)
      | inr n ↦ rw n (
        (elim (Bool-cases (mem s (minus ss ts))) [
          | inl m ↦ absurd (ground (arith, d, In→mem s ss (In-minus s ss ts (mem→In s _ m)).0))
          | inr m ↦ m
        ]),
        minus-Distinct ss ts d.1,
      )
    ]

    -- Where every CID has a display text that parses back to it and the keys of the store are
    -- distinct: a `gc` that returns has shrunk the store by the number that it reports.
    pub gc_counts :
        (started : Bool) (store : Dict B Block) (pins : Dict String String) (g : GcResult)
        → Distinct (keys store)
        → (gc lib show parse calls started store pins).0 ≡ ok g
        → g.reclaimed_blocks + length (gc lib show parse calls started store pins).1 ≡ length store
    unfolding gc
    gc_counts started store pins g u h =
        elim (Result-cases (listing lib show parse calls started store)) [
          | inr (x, q) ↦ absurd (ground (arith, q))
          | inl (ss, q) ↦
              let marked = mark_pins lib show parse calls store pins [] in
              let (n, r, k) =
                >>=-ok (sweep lib show parse calls (minus (to_set ss) marked) store).0 _
                  (rw (q, gc) at h) in
              rw (q, gc)
                (ap
                    (λ z.
                      z.reclaimed_blocks
                      + length (sweep lib show parse calls (minus (to_set ss) marked) store).1)
                    (sym (ok-injective k))
                  ∙ sweep_counts (minus (to_set ss) marked) store n
                      (minus-Distinct (to_set ss) marked (to_set-Distinct ss))
                      (λ s i.
                        let (b, j, p) =
                          In-all_keys lib show parse calls (keys store) ss
                            (listing-all_keys started store ss q) s
                            (In-to_set s ss (In-minus s (to_set ss) marked i).0) in
                        (b, p, has-eq-mem b store ∙ In→mem b (keys store) j))
                      u r)
        ]

    -- A sweep of what no pin marks, where it returns, takes out what no pin reaches.
    swept :
        (started : Bool) (store : Dict B Block) (pins : Dict String String) (ss : List String)
        (c : B) (n : ℕ)
        → listing lib show parse calls started store ≡ ok ss
        → (sweep lib show parse calls
            (minus (to_set ss) (mark_pins lib show parse calls store pins []))
            store).0
          ≡ ok n
        → ((cid_str pin_type : String) (root : B)
            → In (cid_str, pin_type) pins
            → parse cid_str ≡ ok root
            → ¬ Reach (links_of lib show parse calls store (pin_type == "recursive")) root c)
        → get c
            (sweep lib show parse calls
              (minus (to_set ss) (mark_pins lib show parse calls store pins []))
              store).1
          ≡ none
    swept started store pins ss c n q r free = elim (Option-cases (get c store)) [
      | inl absent ↦ sweep-none _ store c absent
      | inr (b, stored) ↦
          let marked = mark_pins lib show parse calls store pins [] in
          let (s, sc) = shows c in
          let unmarked : mem s marked ≡ false = elim (Bool-cases (mem s marked)) [
            | inr m ↦ m
            | inl m ↦ elim (mark_pins-In lib show parse calls store pins [] s (mem→In s marked m)) [
              | inl i ↦ absurd i
              | inr o ↦ absurd (
                  free o.cid_str o.pin_type o.root o.pinned o.parses (
                    subst (Reach _ o.root)
                      (ok-injective (sym (roundtrip o.block s o.shows) ∙ roundtrip c s sc))
                      (walk-Reach _ _ o.root o.block o.yields)))
            ]
          ] in
          sweep_deletes (minus (to_set ss) marked) store n s c r
            (minus-In s (to_set ss) marked
              (to_set-In s ss (
                all_keys-In lib show parse calls (keys store) ss
                  (listing-all_keys started store ss q) c s (get-In c b store stored) sc))
              unmarked)
            (roundtrip c s sc)
    ]

    -- Where every CID has a display text that parses back to it: a `gc` that returns has deleted every
    -- block that no pin reaches.
    pub gc_reclaims :
        (started : Bool) (store : Dict B Block) (pins : Dict String String) (g : GcResult) (c : B)
        → (gc lib show parse calls started store pins).0 ≡ ok g
        → ((cid_str pin_type : String) (root : B)
            → In (cid_str, pin_type) pins
            → parse cid_str ≡ ok root
            → ¬ Reach (links_of lib show parse calls store (pin_type == "recursive")) root c)
        → get c (gc lib show parse calls started store pins).1 ≡ none
    unfolding gc
    gc_reclaims started store pins g c h free =
        elim (Result-cases (listing lib show parse calls started store)) [
          | inr (x, q) ↦ absurd (ground (arith, q))
          | inl (ss, q) ↦
              let marked = mark_pins lib show parse calls store pins [] in
              let (n, r, _) =
                >>=-ok (sweep lib show parse calls (minus (to_set ss) marked) store).0 _
                  (rw (q, gc) at h) in
              rw (q, gc) (swept started store pins ss c n q r free)
        ]
