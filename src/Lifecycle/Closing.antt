-- ===== src/Lifecycle/Closing.antt =====
-- What a call of `close` waits for.
use py_ipfs_lite.Prelude.{
  Bool, true, false, ◌&&◌, List, [], ◌∷◌, ◌++◌, ◌≡◌, ◌≢◌, refl, sym, ap, subst, In, In-append,
  In-append_left, In-append_right, inl, inr, if◌then◌else◌, if_both, arith,
}
use py_ipfs_lite.Errors.{Result, ok, raise}
use py_ipfs_lite.Lifecycle.{
  stopped, running, stopping, Task, exchange_task, repeated, reprovider, routing_loop, warm_up,
  keep_alive, leak_monitor, topic_discovery, no_close, in_aclose, Peer, Flags, Calls, when,
  begin_close, is_started, unless_raised, loops, pubsub_call, start,
}

-- The tasks that end without being cancelled: the loops of the reprovider, of the pings and of the
-- leak monitor do not, and the discovery of topics ends when the peer no longer runs.
abbrev pub ends : Flags → Task → Bool
ends f reprovider = if f.reprovides then false else true
ends f keep_alive = false
ends f leak_monitor = false
ends f _ = true

-- Whether a task of the nursery may end with an exception.
pub data Failures : Type 0 where
  no_task_raises some_task_raises : Failures

-- What happens while a `close` waits, where nothing outside cancels it and `start` is not called.
pub data Settle (r : Failures) (f : Flags) (p : Peer) : Peer → Type 0 where
  task_ends :
      (before after : List Task) (t : Task)
      → p.tasks ≡ before ++ t ∷ after
      → ends f t ≡ true
      → Settle r f p (record p { tasks = before ++ after })
  -- the exchange starts a task
  exchange_spawns : Settle r f p (record p { tasks = exchange_task ∷ p.tasks })
  -- a task ends with an exception: the nursery cancels the others, and is left
  task_raises :
      r ≡ some_task_raises → (t : Task) → In t p.tasks → Settle r f p (record p { tasks = [] })
  -- `close` is called again
  closes_again : Settle r f p (begin_close p)
  -- the nursery is empty, and `aclose` returns or raises what a task has raised, which is logged: the
  -- exchange is stopped, and the peer is stopped
  aclose_returns :
      p.stage ≡ in_aclose
      → p.tasks ≡ []
      → Settle r f p (record p { state = stopped; stage = no_close })

pub data Settles (r : Failures) (f : Flags) (p : Peer) : Peer → Type 0 where
  here : Settles r f p p
  next : (q q' : Peer) → Settles r f p q → Settle r f q q' → Settles r f p q'

-- A loop that never ends keeps the close where it is.
record IsStuck (f : Flags) (t : Task) (p : Peer) : Type 0 where
  waits : p.state ≡ stopping
  there : In t p.tasks

In-split : (t x : Task) (xs ys : List Task) → t ≢ x → In t (xs ++ x ∷ ys) → In t (xs ++ ys)
In-split t x xs ys n i = elim (In-append t xs (x ∷ ys) i) [
  | inl l ↦ In-append_left t xs ys l
  | inr (inl e) ↦ absurd (n e)
  | inr (inr r) ↦ In-append_right t xs ys r
]

Settle-IsStuck :
    (f : Flags) (t : Task) (p q : Peer)
    → ends f t ≡ false
    → Settle no_task_raises f p q
    → IsStuck f t p
    → IsStuck f t q
unfolding begin_close
Settle-IsStuck f t p _ e (task_ends before after x s h) i = record {
  waits = i.waits;
  there =
      In-split t x before after (λ same. absurd (ground (arith, e, h, ap (ends f) same)))
        (subst (In t) s i.there);
}
Settle-IsStuck f t p _ e exchange_spawns i = record { waits = i.waits; there = inr i.there }
Settle-IsStuck f t p _ e (task_raises may x m) i = absurd (ground (arith, may))
Settle-IsStuck f t p _ e closes_again i = subst (IsStuck f t) (sym (same p i.waits)) i
  where
    same : (p : Peer) → p.state ≡ stopping → begin_close p ≡ p
    same p w = ground (arith, w)
Settle-IsStuck f t p _ e (aclose_returns s h) i = absurd (subst (In t) h i.there)

Settles-IsStuck :
    (f : Flags) (t : Task) (p q : Peer)
    → ends f t ≡ false
    → Settles no_task_raises f p q
    → IsStuck f t p
    → IsStuck f t q
Settles-IsStuck f t p _ e here i = i
Settles-IsStuck f t p q e (next r _ ss s) i =
    Settle-IsStuck f t r q e s (Settles-IsStuck f t p r e ss i)

abbrev IsUp : Result (Unit {0}) × Peer → Type 0
IsUp z = (z.0 ≡ ok tt) → (z.1.state ≡ running) × In keep_alive z.1.tasks

unless_raised-IsUp :
    (r : Result (Unit {0})) (p : Peer) (rest : Result (Unit {0}) × Peer)
    → IsUp rest
    → IsUp (unless_raised r p rest)
unless_raised-IsUp (ok _) p rest h = h
unless_raised-IsUp (raise err) p rest h = λ e. cc

-- What a call of `start` has done that returns.
start-IsUp : (c : Calls) (f : Flags) (p : Peer) → p.state ≡ stopped → IsUp (start c f p)
unfolding start
start-IsUp c f p s =
    let loop : In keep_alive (loops f) =
      In-append_right keep_alive (when f.routing_starts routing_loop)
        (warm_up ∷ keep_alive ∷ when f.stream_monitor_enabled leak_monitor) (inr (inl refl)) in
    let there : In keep_alive (
        ((p.tasks ++ (reprovider ∷ repeated c.exchange_tasks exchange_task)) ++ loops f)
        ++ when (f.enable_pubsub && f.discovers) topic_discovery) =
      In-append_left keep_alive
        ((p.tasks ++ (reprovider ∷ repeated c.exchange_tasks exchange_task)) ++ loops f) _
        (In-append_right keep_alive
          (p.tasks ++ (reprovider ∷ repeated c.exchange_tasks exchange_task)) (loops f) loop) in
    if_both IsUp (is_started p.state) {x = (ok tt, p)} (λ b. absurd (ground (arith, b, s)))
      (λ b. unless_raised-IsUp c.creates _ _ (
        unless_raised-IsUp c.runs_host _ _ (
          unless_raised-IsUp c.starts_exchange _ _
            (unless_raised-IsUp (pubsub_call f c) _ _ (λ e. (refl, there))))))

begin_close-Settles :
    (f : Flags) (t : Task) (p q : Peer)
    → ends f t ≡ false
    → p.state ≡ running
    → In t p.tasks
    → Settles no_task_raises f (begin_close p) q
    → q.state ≡ stopping
unfolding begin_close
begin_close-Settles f t p q e r i ss =
    (Settles-IsStuck f t (begin_close p) q e ss
      (record { waits = ground (arith, r); there = subst (In t) (ground (arith, r)) i })).waits

-- Where no task of the nursery raises, nothing outside cancels the call and `start` is not called
-- again: after a `start` of a stopped peer that returns, a `close` never leaves `aclose`; whatever
-- tasks end and however often `close` is called, the peer stays at STOPPING.
pub close_never_stops :
    (c : Calls) (f : Flags) (p q : Peer)
    → p.state ≡ stopped
    → (start c f p).0 ≡ ok tt
    → Settles no_task_raises f (begin_close (start c f p).1) q
    → q.state ≡ stopping
close_never_stops c f p q s h ss =
    let (r, i) = start-IsUp c f p s h in
    begin_close-Settles f keep_alive (start c f p).1 q refl r i ss
