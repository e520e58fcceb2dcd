-- ===== src/Lifecycle.antt =====
-- `start` and `close` of py_ipfs_lite/peer/_lifecycle.py and the states of py_ipfs_lite/peer/state.py.
-- The host, the routing and the exchange are wired by calls that return or raise. A nursery of trio
-- is left by `aclose` of the exit stack only when all of its tasks have ended; one that raises cancels
-- the others.
pub mod Closing
mod Tests
use py_ipfs_lite.Prelude.{
  ℕ, zero, suc, Bool, true, false, ◌&&◌, Option, none, some, List, [], ◌∷◌, ◌++◌, ◌≡◌,
  if◌then◌else◌,
}
use py_ipfs_lite.Errors.{Error, Result, ok, raise, peer_not_started}

pub data PeerState : Type 0 where
  stopped starting running stopping : PeerState

-- The tasks of the peer's nursery, but for those of the pub/sub services.
pub data Task : Type 0 where
  reprovider routing_loop warm_up keep_alive leak_monitor topic_discovery : Task
  -- the background task of a call of `provide`
  background_provide : Task
  -- a task of the exchange, which `set_nursery` gives the nursery
  exchange_task : Task

-- Where a call of `close` is: nowhere, or in `aclose`.
pub data Stage : Type 0 where
  no_close in_aclose : Stage

pub record Peer : Type 0 where
  pub state : PeerState
  pub tasks : List Task
  pub stage : Stage

-- What `start` reads of the configuration and of the parts.
pub record Flags : Type 0 where
  -- reprovide_interval_seconds >= 0
  pub reprovides : Bool
  pub routing_starts : Bool
  pub stream_monitor_enabled : Bool
  pub enable_pubsub : Bool
  -- pubsub_auto_join_min_peers > 0
  pub discovers : Bool

-- How the calls of `start` end: the creation of the parts, host.run, exchange.start, _init_pubsub.
pub record Calls : Type 0 where
  pub creates : Result (Unit {0})
  pub runs_host : Result (Unit {0})
  pub starts_exchange : Result (Unit {0})
  pub inits_pubsub : Result (Unit {0})
  -- how many tasks exchange.start leaves in the nursery
  pub exchange_tasks : ℕ

abbrev pub new_peer : Peer
new_peer = record { state = stopped; tasks = []; stage = no_close }

-- `_ensure_started`, and `_started`
abbrev pub is_running : PeerState → Bool
is_running running = true
is_running _ = false

abbrev pub ensure_started : Peer → Result (Unit {0})
ensure_started p = if is_running p.state then ok tt else raise peer_not_started

abbrev pub when : Bool → Task → List Task
when b t = if b then t ∷ [] else []

-- `close`, up to the point where it waits.
abbrev pub is_closing : PeerState → Bool
is_closing stopped = true
is_closing stopping = true
is_closing _ = false

unfoldable pub begin_close : Peer → Peer
begin_close p = if is_closing p.state then p else record p { state = stopping; stage = in_aclose }

-- except Exception: await self.close(); raise
abbrev pub unless_raised :
    Result (Unit {0}) → Peer → Result (Unit {0}) × Peer → Result (Unit {0}) × Peer
unless_raised (ok _) p rest = rest
unless_raised (raise err) p rest = (raise err, begin_close p)

abbrev pub is_started : PeerState → Bool
is_started running = true
is_started starting = true
is_started _ = false

abbrev pub with_tasks : List Task → Peer → Peer
with_tasks ts p = record p { tasks = p.tasks ++ ts }

abbrev pub repeated : ℕ → Task → List Task
repeated zero t = []
repeated (suc n) t = t ∷ repeated n t

-- The tasks that follow the start of the exchange.
abbrev pub loops : Flags → List Task
loops f =
    when f.routing_starts routing_loop
    ++ (warm_up ∷ keep_alive ∷ when f.stream_monitor_enabled leak_monitor)

abbrev pub pubsub_call : Flags → Calls → Result (Unit {0})
pubsub_call f c = if f.enable_pubsub then c.inits_pubsub else ok tt

-- `start`: how the calls end, and the peer; where one raises, a `close` has begun.
unfoldable pub start : Calls → Flags → Peer → Result (Unit {0}) × Peer
unfolding begin_close
start c f p =
    let p1 = record p { state = starting } in
    let p2 = with_tasks (reprovider ∷ repeated c.exchange_tasks exchange_task) p1 in
    let p3 = with_tasks (loops f) p2 in
    let p4 = with_tasks (when (f.enable_pubsub && f.discovers) topic_discovery) p3 in
    if is_started p.state
    then (ok tt, p)
    else unless_raised c.creates p1 (
        unless_raised c.runs_host p1 (
          unless_raised c.starts_exchange p2
            (unless_raised (pubsub_call f c) p3 (ok tt, record p4 { state = running }))))
