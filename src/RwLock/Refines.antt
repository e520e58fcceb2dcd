-- ===== src/RwLock/Refines.antt =====
-- The readers-writer lock that the tasks are promised, and that `RWLock` is one.
use py_ipfs_lite.Prelude.{ℕ, ◌+◌, ◌≤◌, List, ◌∷◌, ◌++◌, ◌≡◌, refl, sym, arith, subst}
use py_ipfs_lite.RwLock.{
  harmless, cancel_in_first, cancel_in_exit, Phase, Lock, System, Move, advance, enter_read,
  join_readers, be_first, first_acquires, end_read, leave_readers, last_leaves, enter_write,
  writer_acquires, end_write, cancel_read_wait, cancel_write_wait, Step, move, Reached,
}
use py_ipfs_lite.RwLock.Safety.{
  counted, at_first, at_writing, at_reading, tally, tally-append, tally_first-le, rest_of, Agrees,
  IsConsistent, IsConsistent→Agrees, Reached-IsConsistent,
}

-- Who is inside: the abstract state.
pub record Access : Type 0 where
  pub readers : ℕ
  pub writers : ℕ

-- What may happen between two abstract states.
pub data Permitted (a b : Access) : Type 0 where
  stays : b.readers ≡ a.readers → b.writers ≡ a.writers → Permitted a b
  starts_reading : a.writers ≡ 0 → b.writers ≡ 0 → b.readers ≡ a.readers + 1 → Permitted a b
  ends_reading : b.writers ≡ a.writers → a.readers ≡ b.readers + 1 → Permitted a b
  starts_writing : a.readers ≡ 0 → a.writers ≡ 0 → b.readers ≡ 0 → b.writers ≡ 1 → Permitted a b
  ends_writing : a.writers ≡ 1 → b.writers ≡ 0 → b.readers ≡ a.readers → Permitted a b

abbrev pub access_of : List Phase → Access
access_of ps = record { readers = tally at_reading ps; writers = tally at_writing ps }

-- The tasks inside, where one task is in the phase `p` and the others are counted in `r` and `w`.
abbrev access_with : ℕ → ℕ → Phase → Access
access_with r w p = record { readers = r + at_reading p; writers = w + at_writing p }

Move-Permitted :
    {l m : Lock} {p q : Phase} (c f w r : ℕ)
    → r + f ≤ c
    → Move harmless l p m q
    → Agrees l c f w p
    → Permitted (access_with r w p) (access_with r w q)
Move-Permitted c f w r le enter_read a = stays refl refl
Move-Permitted c f w r le (advance (join_readers h k)) a =
    starts_reading (ground arith) (ground arith) (ground arith)
Move-Permitted c f w r le (advance (be_first h k)) a = stays refl refl
Move-Permitted c f w r le (advance (first_acquires h)) a =
    starts_reading (ground arith) (ground arith) (ground arith)
Move-Permitted c f w r le (advance end_read) a = ends_reading refl (ground arith)
Move-Permitted c f w r le (advance (leave_readers h k)) a = stays refl refl
Move-Permitted c f w r le (advance (last_leaves h k)) a = stays refl refl
Move-Permitted c f w r le enter_write a = stays refl refl
Move-Permitted c f w r le (advance (writer_acquires h)) a =
    starts_writing (ground arith) (ground arith) (ground arith) (ground arith)
Move-Permitted c f w r le (advance end_write) a =
    ends_writing (ground arith) (ground arith) (ground arith)
Move-Permitted c f w r le cancel_read_wait a = stays refl refl
Move-Permitted c f w r le cancel_write_wait a = stays refl refl
Move-Permitted c f w r le (cancel_in_first h) a = absurd (ground (arith, h))
Move-Permitted c f w r le (cancel_in_exit h) a = absurd (ground (arith, h))

access-split :
    (xs : List Phase) (p : Phase) (ys : List Phase)
    → access_with (rest_of at_reading xs ys) (rest_of at_writing xs ys) p ≡ access_of (xs ++ p ∷ ys)
access-split xs p ys =
    ground (arith, tally-append at_reading xs p ys, tally-append at_writing xs p ys)

-- Where no task is cancelled while it waits for `_write_lock` as the first reader or in the `finally`
-- of `read_lock`: every step from a state that is reached is one that a readers-writer lock permits,
-- or changes nothing of who is inside.
pub Step-Permitted :
    {s t : System}
    → Reached harmless s
    → Step harmless s t
    → Permitted (access_of s.tasks) (access_of t.tasks)
Step-Permitted {s} r (move xs ys p q m e mv) =
    subst (λ ps. Permitted (access_of ps) (access_of (xs ++ q ∷ ys))) (sym e)
      (subst (λ z. Permitted z (access_of (xs ++ q ∷ ys))) (access-split xs p ys)
        (subst (Permitted (access_with (rest_of at_reading xs ys) (rest_of at_writing xs ys) p))
          (access-split xs q ys)
          (Move-Permitted (rest_of counted xs ys) (rest_of at_first xs ys)
            (rest_of at_writing xs ys) (rest_of at_reading xs ys)
            (omega (arith, tally_first-le xs, tally_first-le ys)) mv
            (IsConsistent→Agrees s.lock xs p ys (
              subst (λ ps. IsConsistent (record { lock = s.lock; tasks = ps })) e
                (Reached-IsConsistent r))))))
