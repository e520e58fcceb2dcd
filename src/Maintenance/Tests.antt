-- ===== src/Maintenance/Tests.antt =====
-- Sweeps over one peer, and a round of the pruner over 41.
use py_ipfs_lite.Prelude.{
  String, Bool, true, false, List, [], ◌∷◌, ◌≡◌, refl, arith, length, mem, string_eq,
}
use py_ipfs_lite.Dict.{Dict, get, Distinct}
use py_ipfs_lite.Maintenance.KeepAlive.{
  Pings, connected_peers, peers_to_ping, sweep_pings, ping_recorded, ping_ended,
  sweep_pings-Distinct, sweep_pings_skips,
}
use py_ipfs_lite.Maintenance.Pruner.{low, prune, prune-length}

abbrev one_open : List Bool
one_open = false ∷ []

abbrev alice : Dict String (List Bool)
alice = ("alice", one_open) ∷ []

abbrev no_pings : Pings
no_pings = record { inflight = []; last_ping_time = [] }

first_sweep : (sweep_pings 20_000 alice no_pings).0 ≡ ("alice" ∷ [])
unfolding sweep_pings connected_peers peers_to_ping get
first_sweep = refl

sweep_pings-Distinct_example : Distinct (sweep_pings 20_000 alice no_pings).1.inflight
sweep_pings-Distinct_example = sweep_pings-Distinct 20_000 alice no_pings (refl, tt) tt

-- The ping takes 30 ms, the second sweep is 2 ms late.
sweep_pings_skips_example :
    mem "alice"
      (sweep_pings 35_002 alice
        (ping_ended "alice" (ping_recorded 20_030 "alice" (sweep_pings 20_000 alice no_pings).1))).0
    ≡ false
sweep_pings_skips_example = sweep_pings_skips 20_000 30 2 alice alice no_pings "alice" (omega arith)

abbrev crowd : Dict String (List Bool)
crowd =
    ("p1", one_open)
    ∷ ("p2", one_open)
    ∷ ("p3", one_open)
    ∷ ("p4", one_open)
    ∷ ("p5", one_open)
    ∷ ("p6", one_open)
    ∷ ("p7", one_open)
    ∷ ("p8", one_open)
    ∷ ("p9", one_open)
    ∷ ("p10", one_open)
    ∷ ("p11", one_open)
    ∷ ("p12", one_open)
    ∷ ("p13", one_open)
    ∷ ("p14", one_open)
    ∷ ("p15", one_open)
    ∷ ("p16", one_open)
    ∷ ("p17", one_open)
    ∷ ("p18", one_open)
    ∷ ("p19", one_open)
    ∷ ("p20", one_open)
    ∷ ("p21", one_open)
    ∷ ("p22", one_open)
    ∷ ("p23", one_open)
    ∷ ("p24", one_open)
    ∷ ("p25", one_open)
    ∷ ("p26", one_open)
    ∷ ("p27", one_open)
    ∷ ("p28", one_open)
    ∷ ("p29", one_open)
    ∷ ("p30", one_open)
    ∷ ("p31", one_open)
    ∷ ("p32", one_open)
    ∷ ("p33", one_open)
    ∷ ("p34", one_open)
    ∷ ("p35", one_open)
    ∷ ("p36", one_open)
    ∷ ("p37", one_open)
    ∷ ("p38", one_open)
    ∷ ("p39", one_open)
    ∷ ("p40", one_open)
    ∷ ("p41", one_open)
    ∷ []

crowd_pruned : length (prune (λ p. true) crowd).1 ≡ low
crowd_pruned =
    prune-length (λ p. true) crowd (λ p. refl)
      (
        refl,
        (
          refl,
          (
            refl,
            (
              refl,
              (
                refl,
                (
                  refl,
                  (
                    refl,
                    (
                      refl,
                      (
                        refl,
                        (
                          refl,
                          (
                            refl,
                            (
                              refl,
                              (
                                refl,
                                (
                                  refl,
                                  (
                                    refl,
                                    (
                                      refl,
                                      (
                                        refl,
                                        (
                                          refl,
                                          (
                                            refl,
                                            (
                                              refl,
                                              (
                                                refl,
                                                (
                                                  refl,
                                                  (
                                                    refl,
                                                    (
                                                      refl,
                                                      (
                                                        refl,
                                                        (
                                                          refl,
                                                          (
                                                            refl,
                                                            (
                                                            refl,
                                                            (
                                                            refl,
                                                            (
                                                            refl,
                                                            (
                                                            refl,
                                                            (
                                                            refl,
                                                            (
                                                            refl,
                                                            (
                                                            refl,
                                                            (
                                                            refl,
                                                            (
                                                            refl,
                                                            (
                                                            refl,
                                                            (refl, (refl, (refl, (refl, tt)))),
                                                            ),
                                                            ),
                                                            ),
                                                            ),
                                                            ),
                                                            ),
                                                            ),
                                                            ),
                                                            ),
                                                            ),
                                                          ),
                                                        ),
                                                      ),
                                                    ),
                                                  ),
                                                ),
                                              ),
                                            ),
                                          ),
                                        ),
                                      ),
                                    ),
                                  ),
                                ),
                              ),
                            ),
                          ),
                        ),
                      ),
                    ),
                  ),
                ),
              ),
            ),
          ),
        ),
      )
      (omega arith)
