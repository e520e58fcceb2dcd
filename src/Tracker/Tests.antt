-- ===== src/Tracker/Tests.antt =====
-- Runs of the tracker on a stream of one peer.
use py_ipfs_lite.Prelude.{false, none, some, [], ◌≡◌, refl, All, string_eq}
use py_ipfs_lite.Dict.{get, put}
use py_ipfs_lite.Tracker.Types.{outbound, Tracker, new_tracker, stats_of}
use py_ipfs_lite.Tracker.Signals.{StreamObj, World, missing}
use py_ipfs_lite.Tracker.Streams.{opened_stream, closed_stream}
use py_ipfs_lite.Tracker.Sweep.{LiveTable, sweep_from}
use py_ipfs_lite.Tracker.Ledger.{IsBalanced}
use py_ipfs_lite.Tracker.Runs.{Reached, starts, steps, opens, closes, Reached-IsBalanced}
use py_ipfs_lite.Tracker.Leaks.{IsLeak, sweep_from-IsLeak}

abbrev bitswap : StreamObj
bitswap = record {
  is_closed = missing;
  muxed_stream = none;
  state = none;
  swarm_conn = none;
  muxed_conn = none;
  protocol = some "/ipfs/bitswap";
  direction = outbound;
}

abbrev world : World
world n = some bitswap

abbrev no_table : LiveTable
no_table = record { has_network = false; live_ids = []; live_peers = [] }

abbrev one_stream : Tracker
one_stream = opened_stream 1_000 "k" "alice" 7 bitswap new_tracker

open_then_close : Reached (closed_stream 2_000 world "k" "alice" bitswap one_stream).1
unfolding get put opened_stream
open_then_close =
    steps one_stream _
      (steps new_tracker one_stream starts (opens 1_000 "k" "alice" 7 bitswap refl))
      (closes 2_000 world "k" "alice" bitswap refl)

Reached-IsBalanced_example : IsBalanced (closed_stream 2_000 world "k" "alice" bitswap one_stream).1
Reached-IsBalanced_example = Reached-IsBalanced _ open_then_close

sweep_from-IsLeak_example :
    All
      (λ e. IsLeak 900_000 600_000 world no_table e.1)
      (sweep_from 900_000 600_000 world no_table one_stream.streams one_stream).1
sweep_from-IsLeak_example =
    sweep_from-IsLeak 900_000 600_000 world no_table one_stream.streams one_stream

-- A notification of a stream that the tracker has not seen raises, after the counters have changed.
unseen_raises :
    (stats_of "alice"
      (closed_stream 2_000 world "unseen" "alice" bitswap one_stream).1).current_open
    ≡ 0
unfolding closed_stream opened_stream get put
unseen_raises = refl
