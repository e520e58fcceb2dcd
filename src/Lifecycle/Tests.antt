-- ===== src/Lifecycle/Tests.antt =====
-- A peer that starts, and whose `close` is called.
use py_ipfs_lite.Prelude.{true, false, [], ◌∷◌, ◌≡◌, refl, inl}
use py_ipfs_lite.Errors.{ok, raise, os_error}
use py_ipfs_lite.Lifecycle.{
  stopped, stopping, no_close, reprovider, keep_alive, warm_up, Peer, Flags, Calls, new_peer,
  begin_close, start,
}
use py_ipfs_lite.Lifecycle.Closing.{
  no_task_raises, some_task_raises, task_raises, aclose_returns, Settles, here, next, task_ends,
  closes_again, close_never_stops,
}

abbrev calls : Calls
calls = record {
  creates = ok tt;
  runs_host = ok tt;
  starts_exchange = ok tt;
  inits_pubsub = ok tt;
  exchange_tasks = 0;
}

abbrev flags : Flags
flags = record {
  reprovides = true;
  routing_starts = false;
  stream_monitor_enabled = false;
  enable_pubsub = false;
  discovers = false;
}

abbrev closing : Peer
closing = (start calls flags new_peer).1

-- The warm-up ends while the close waits.
abbrev later : Peer
later = record (begin_close closing) { tasks = reprovider ∷ keep_alive ∷ [] }

warm_up_ends : Settles no_task_raises flags (begin_close closing) (begin_close later)
unfolding start begin_close
warm_up_ends =
    next later (begin_close later)
      (next (begin_close closing) later here
        (task_ends (reprovider ∷ []) (keep_alive ∷ []) warm_up refl refl))
      closes_again

close_never_stops_example : (begin_close later).state ≡ stopping
unfolding start
close_never_stops_example =
    close_never_stops calls flags new_peer (begin_close later) refl refl warm_up_ends

-- Where exchange.start raises, the close that follows in `start` waits for the reprovider.
start_waits :
    (start (record calls { starts_exchange = raise os_error }) flags new_peer).1.state ≡ stopping
unfolding start begin_close
start_waits = refl

-- Where the reprovider raises, the nursery is left and the close ends.
abbrev cancelled : Peer
cancelled = record (begin_close closing) { tasks = [] }

abbrev ended : Peer
ended = record cancelled { state = stopped; stage = no_close }

raise_stops : Settles some_task_raises flags (begin_close closing) ended
unfolding start begin_close
raise_stops =
    next cancelled ended
      (next (begin_close closing) cancelled here (task_raises refl reprovider (inl refl)))
      (aclose_returns refl refl)
