-- ===== src/RwLock/Cancel.antt =====
-- Cancellation at the two points where `read_lock` has changed `_read_count`: the counter is not
-- put back. After either, the lock no longer does its work.
use py_ipfs_lite.Prelude.{ℕ, ◌+◌, ◌<◌, false, List, ◌∷◌, ◌++◌, ◌≡◌, refl, arith, ap, In, subst}
use py_ipfs_lite.RwLock.{
  harmless, cancel_in_first, cancel_in_exit, Phase, idle, read_wait, read_first, reading, read_exit,
  writing, Lock, System, Advance, join_readers, be_first, first_acquires, end_read, leave_readers,
  last_leaves, writer_acquires, end_write, Move, advance, enter_read, enter_write, cancel_read_wait,
  cancel_write_wait, Step, move, Reached,
}
use py_ipfs_lite.RwLock.Safety.{
  counted, at_first, at_writing, tally, tally-append, Reached-IsConsistent, In-tally,
  tally_first-le,
}

-- trio raises `Cancelled` in `_write_lock.acquire()`, and `__aexit__` gives `_read_count_lock` back;
-- or in the `async with self._read_count_lock` of the `finally`.
pub data CancelMove (l : Lock) : Phase → Lock → Phase → Type 0 where
  cancel_first : CancelMove l read_first (record l { count_held = false }) idle
  cancel_exit : CancelMove l read_exit l idle

-- A reader that is cancelled while it waits as the first one behind a writer lets the next reader
-- in beside that writer: with the lock as it is left, a waiting reader goes straight to reading.
pub cancel_first_breaks_exclusion :
    {s : System} (xs ys : List Phase)
    → Reached harmless s
    → s.tasks ≡ xs ++ read_first ∷ ys
    → In writing (xs ++ ys)
    → (m : Lock) × (n : Lock) × CancelMove s.lock read_first m idle × Advance m read_wait n reading
cancel_first_breaks_exclusion {s} xs ys r e w =
    let c = Reached-IsConsistent r in
    (
      record s.lock { count_held = false },
      _,
      cancel_first,
      join_readers refl
          (omega (arith, c.readers, ap (tally counted) e, tally-append counted xs read_first ys)),
    )

-- No permit is left, and the counter is too high for a reader ever to give one back.
pub record IsStuck (s : System) : Type 0 where
  pub no_permit : s.lock.write_free ≡ 0
  pub not_held : s.lock.count_held ≡ false
  pub no_writer : tally at_writing s.tasks ≡ 0
  pub no_first : tally at_first s.tasks ≡ 0
  pub too_high : tally counted s.tasks < s.lock.read_count

record StuckBeside (l : Lock) (c f w : ℕ) (p : Phase) : Type 0 where
  no_permit : l.write_free ≡ 0
  not_held : l.count_held ≡ false
  no_writer : w + at_writing p ≡ 0
  no_first : f + at_first p ≡ 0
  too_high : c + counted p < l.read_count

Move-StuckBeside :
    {l m : Lock} {p q : Phase} (c f w : ℕ)
    → Move harmless l p m q
    → StuckBeside l c f w p
    → StuckBeside m c f w q
Move-StuckBeside c f w (advance (join_readers h k)) a = ground arith
Move-StuckBeside c f w (advance (be_first h k)) a = ground arith
Move-StuckBeside c f w (advance (first_acquires h)) a = ground arith
Move-StuckBeside c f w (advance end_read) a = ground arith
Move-StuckBeside c f w (advance (leave_readers h k)) a = ground arith
Move-StuckBeside c f w (advance (last_leaves h k)) a = ground arith
Move-StuckBeside c f w (advance (writer_acquires h)) a = ground arith
Move-StuckBeside c f w (advance end_write) a = ground arith
Move-StuckBeside c f w enter_read a = ground arith
Move-StuckBeside c f w enter_write a = ground arith
Move-StuckBeside c f w cancel_read_wait a = ground arith
Move-StuckBeside c f w cancel_write_wait a = ground arith
Move-StuckBeside c f w (cancel_in_first h) a = absurd (ground (arith, h))
Move-StuckBeside c f w (cancel_in_exit h) a = absurd (ground (arith, h))

IsStuck→StuckBeside :
    (l : Lock) (xs : List Phase) (p : Phase) (ys : List Phase)
    → IsStuck (record { lock = l; tasks = xs ++ p ∷ ys })
    → StuckBeside l
        (tally counted xs + tally counted ys)
        (tally at_first xs + tally at_first ys)
        (tally at_writing xs + tally at_writing ys)
        p
IsStuck→StuckBeside l xs p ys c = ground (
  arith,
  tally-append counted xs p ys,
  tally-append at_first xs p ys,
  tally-append at_writing xs p ys,
)

StuckBeside→IsStuck :
    (l : Lock) (xs : List Phase) (p : Phase) (ys : List Phase)
    → StuckBeside l
        (tally counted xs + tally counted ys)
        (tally at_first xs + tally at_first ys)
        (tally at_writing xs + tally at_writing ys)
        p
    → IsStuck (record { lock = l; tasks = xs ++ p ∷ ys })
StuckBeside→IsStuck l xs p ys c = ground (
  arith,
  tally-append counted xs p ys,
  tally-append at_first xs p ys,
  tally-append at_writing xs p ys,
)

Step-IsStuck : {s t : System} → Step harmless s t → IsStuck s → IsStuck t
Step-IsStuck {s} (move xs ys p q m e mv) c = StuckBeside→IsStuck m xs q ys (
    Move-StuckBeside _ _ _ mv (
      IsStuck→StuckBeside s.lock xs p ys
        (subst (λ ps. IsStuck (record { lock = s.lock; tasks = ps })) e c)))

pub data Later (s : System) : System → Type 0 where
  now : Later s s
  then_step : {t u : System} → Later s t → Step harmless t u → Later s u

Later-IsStuck : {s t : System} → Later s t → IsStuck s → IsStuck t
Later-IsStuck now c = c
Later-IsStuck (then_step r st) c = Step-IsStuck st (Later-IsStuck r c)

cancel_exit-IsStuck :
    {s : System} (xs ys : List Phase)
    → Reached harmless s
    → s.tasks ≡ xs ++ read_exit ∷ ys
    → IsStuck (record { lock = s.lock; tasks = xs ++ idle ∷ ys })
cancel_exit-IsStuck {s} xs ys r e =
    let c = Reached-IsConsistent r in
    ground (
      arith,
      c,
      ap (tally counted) e,
      ap (tally at_first) e,
      ap (tally at_writing) e,
      tally-append counted xs read_exit ys,
      tally-append at_first xs read_exit ys,
      tally-append at_writing xs read_exit ys,
      tally-append counted xs idle ys,
      tally-append at_first xs idle ys,
      tally-append at_writing xs idle ys,
      tally_first-le xs,
      tally_first-le ys,
    )

-- After one reader is cancelled in the `finally` of `read_lock`, no task ever gets the write lock
-- again, whatever the tasks do, where no task is cancelled in `read_lock` again.
pub cancel_exit_starves_writers :
    {s t : System} (xs ys : List Phase)
    → Reached harmless s
    → s.tasks ≡ xs ++ read_exit ∷ ys
    → Later (record { lock = s.lock; tasks = xs ++ idle ∷ ys }) t
    → ¬ In writing t.tasks
cancel_exit_starves_writers {s} {t} xs ys r e l i =
    let k = Later-IsStuck l (cancel_exit-IsStuck xs ys r e) in
    absurd (omega (arith, k.no_writer, In-tally at_writing writing t.tasks refl i))
