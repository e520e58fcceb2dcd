-- ===== src/RwLock.antt =====
-- `RWLock` of py_ipfs_lite/peer/ipld.py: any number of tasks that take the lock to read or to write,
-- interleaved in any order. trio switches tasks only where one waits, so each step below runs from
-- one such point to the next. A waiting task may also be cancelled, and `Cancellation` says where.
pub mod Safety
pub mod Progress
pub mod Cancel
pub mod Refines
mod Tests
use py_ipfs_lite.Prelude.{ℕ, suc, ◌+◌, ◌-◌, ◌<◌, Bool, true, false, List, [], ◌∷◌, ◌++◌, ◌≡◌, ◌≢◌}

-- Where a task is.
pub data Phase : Type 0 where
  -- outside
  idle : Phase
  -- in `read_lock`, waiting for `_read_count_lock`
  read_wait : Phase
  -- holding `_read_count_lock` as the first reader, waiting for `_write_lock`
  read_first : Phase
  -- at the `yield` of `read_lock`
  reading : Phase
  -- in the `finally` of `read_lock`, waiting for `_read_count_lock`
  read_exit : Phase
  -- in `write_lock`, waiting for `_write_lock`
  write_wait : Phase
  -- at the `yield` of `write_lock`
  writing : Phase

pub record Lock : Type 0 where
  -- the value of the semaphore `_write_lock`
  pub write_free : ℕ
  pub read_count : ℕ
  -- `_read_count_lock` is held
  pub count_held : Bool

-- The lock and the tasks.
pub record System : Type 0 where
  pub lock : Lock
  pub tasks : List Phase

-- What a task inside one of the two context managers does next, from a point where it waits.
pub data Advance (l : Lock) : Phase → Lock → Phase → Type 0 where
  -- `_read_count` was not 0
  join_readers :
      l.count_held ≡ false
      → 0 < l.read_count
      → Advance l read_wait (record l { read_count = l.read_count + 1 }) reading
  -- `_read_count` is 1 now: on to `_write_lock.acquire()`, with `_read_count_lock` held
  be_first :
      l.count_held ≡ false
      → l.read_count ≡ 0
      → Advance l read_wait
          (record l { read_count = l.read_count + 1; count_held = true })
          read_first
  first_acquires :
      0 < l.write_free
      → Advance l read_first
          (record l { write_free = l.write_free - 1; count_held = false })
          reading
  end_read : Advance l reading l read_exit
  leave_readers :
      l.count_held ≡ false
      → l.read_count - 1 ≢ 0
      → Advance l read_exit (record l { read_count = l.read_count - 1 }) idle
  last_leaves :
      l.count_held ≡ false
      → l.read_count - 1 ≡ 0
      → Advance l read_exit
          (record l { read_count = l.read_count - 1; write_free = l.write_free + 1 })
          idle
  writer_acquires :
      0 < l.write_free → Advance l write_wait (record l { write_free = l.write_free - 1 }) writing
  end_write : Advance l writing (record l { write_free = l.write_free + 1 }) idle

-- Where tasks are cancelled: only where they wait to enter and have taken nothing, or also at the two
-- points where `read_lock` has changed `_read_count`.
pub data Cancellation : Type 0 where
  harmless anywhere : Cancellation

-- And where it enters one, or is cancelled: trio raises `Cancelled` in `_write_lock.acquire()`, and
-- `__aexit__` gives `_read_count_lock` back; or in the `async with` of the `finally`.
pub data Move (c : Cancellation) (l : Lock) : Phase → Lock → Phase → Type 0 where
  advance : {p q : Phase} {m : Lock} → Advance l p m q → Move c l p m q
  enter_read : Move c l idle l read_wait
  enter_write : Move c l idle l write_wait
  cancel_read_wait : Move c l read_wait l idle
  cancel_write_wait : Move c l write_wait l idle
  cancel_in_first : c ≡ anywhere → Move c l read_first (record l { count_held = false }) idle
  cancel_in_exit : c ≡ anywhere → Move c l read_exit l idle

pub data Step (c : Cancellation) (s : System) : System → Type 0 where
  move :
      (before after : List Phase) (p q : Phase) (m : Lock)
      → s.tasks ≡ before ++ p ∷ after
      → Move c s.lock p m q
      → Step c s (record { lock = m; tasks = before ++ q ∷ after })

-- `__init__`
abbrev pub unlocked : Lock
unlocked = record { write_free = 1; read_count = 0; count_held = false }

abbrev pub AllIdle : List Phase → Type 0
AllIdle [] = Unit
AllIdle (p ∷ ps) = (p ≡ idle) × AllIdle ps

pub data Reached (c : Cancellation) : System → Type 0 where
  begin :
      (tasks : List Phase) → AllIdle tasks → Reached c (record { lock = unlocked; tasks = tasks })
  step : {s t : System} → Reached c s → Step c s t → Reached c t
