-- ===== src/RwLock/Safety.antt =====
-- Mutual exclusion.
use py_ipfs_lite.Prelude.{
  ℕ, ◌+◌, ◌-◌, ◌≤◌, min, Bool, true, false, List, [], ◌∷◌, ◌++◌, ◌≡◌, refl, ◌⊎◌, inl, inr, arith,
  ap, subst, In,
}
use py_ipfs_lite.RwLock.{
  harmless, cancel_in_first, cancel_in_exit, Phase, idle, read_first, reading, read_exit, writing,
  Lock, System, Move, advance, enter_read, join_readers, be_first, first_acquires, end_read,
  leave_readers, last_leaves, enter_write, writer_acquires, end_write, cancel_read_wait,
  cancel_write_wait, Step, move, AllIdle, Reached, begin, step,
}

-- A task between the increment and the decrement of `_read_count`.
abbrev pub counted : Phase → ℕ
counted read_first = 1
counted reading = 1
counted read_exit = 1
counted _ = 0

abbrev pub at_first : Phase → ℕ
at_first read_first = 1
at_first _ = 0

abbrev pub at_writing : Phase → ℕ
at_writing writing = 1
at_writing _ = 0

abbrev pub at_reading : Phase → ℕ
at_reading reading = 1
at_reading _ = 0

-- How many tasks are in a phase.
unfoldable pub tally : (Phase → ℕ) → List Phase → ℕ
tally f [] = 0
tally f (p ∷ ps) = f p + tally f ps

pub tally-append :
    (f : Phase → ℕ) (xs : List Phase) (p : Phase) (ys : List Phase)
    → tally f (xs ++ p ∷ ys) ≡ tally f xs + f p + tally f ys
unfolding tally
tally-append f [] p ys = omega arith
tally-append f (x ∷ xs) p ys = omega (arith, tally-append f xs p ys)

abbrev to_number : Bool → ℕ
to_number true = 1
to_number false = 0

-- The lock agrees with the tasks: the counter counts the readers, the inner lock is held by the
-- first reader while it waits, who is then the only one counted, and the one permit of
-- `_write_lock` is free, with a writer, or with the readers.
pub record IsConsistent (s : System) : Type 0 where
  pub readers : s.lock.read_count ≡ tally counted s.tasks
  pub first : to_number s.lock.count_held ≡ tally at_first s.tasks
  pub alone : (tally at_first s.tasks ≡ 0) ⊎ (tally counted s.tasks ≤ 1)
  pub permit :
      s.lock.write_free
        + tally at_writing s.tasks
        + min 1 (tally counted s.tasks - tally at_first s.tasks)
      ≡ 1

-- The same for the tallies of a system in which one task is in the phase `p`.
module _ (l : Lock) (c f w : ℕ) where
  pub record Agrees (p : Phase) : Type 0 where
    pub readers : l.read_count ≡ c + counted p
    pub first : to_number l.count_held ≡ f + at_first p
    pub alone : (f + at_first p ≡ 0) ⊎ (c + counted p ≤ 1)
    pub permit : l.write_free + (w + at_writing p) + min 1 ((c + counted p) - (f + at_first p)) ≡ 1

Move-Agrees :
    {l m : Lock} {p q : Phase} (c f w : ℕ)
    → f ≤ c
    → Move harmless l p m q
    → Agrees l c f w p
    → Agrees m c f w q
Move-Agrees c f w le enter_read a = ground arith
Move-Agrees c f w le (advance (join_readers h k)) a = ground arith
Move-Agrees c f w le (advance (be_first h k)) a = ground arith
Move-Agrees c f w le (advance (first_acquires h)) a = ground arith
Move-Agrees c f w le (advance end_read) a = ground arith
Move-Agrees c f w le (advance (leave_readers h k)) a = ground arith
Move-Agrees c f w le (advance (last_leaves h k)) a = ground arith
Move-Agrees c f w le enter_write a = ground arith
Move-Agrees c f w le (advance (writer_acquires h)) a = ground arith
Move-Agrees c f w le (advance end_write) a = ground arith
Move-Agrees c f w le cancel_read_wait a = ground arith
Move-Agrees c f w le cancel_write_wait a = ground arith
Move-Agrees c f w le (cancel_in_first h) a = absurd (ground (arith, h))
Move-Agrees c f w le (cancel_in_exit h) a = absurd (ground (arith, h))

pub tally_first-le : (ps : List Phase) → tally at_reading ps + tally at_first ps ≤ tally counted ps
unfolding tally
tally_first-le [] = omega arith
tally_first-le (p ∷ ps) = ground (arith, tally_first-le ps)

-- The tallies of all tasks but one.
abbrev pub rest_of : (Phase → ℕ) → List Phase → List Phase → ℕ
rest_of f xs ys = tally f xs + tally f ys

pub IsConsistent→Agrees :
    (l : Lock) (xs : List Phase) (p : Phase) (ys : List Phase)
    → IsConsistent (record { lock = l; tasks = xs ++ p ∷ ys })
    → Agrees l (rest_of counted xs ys) (rest_of at_first xs ys) (rest_of at_writing xs ys) p
IsConsistent→Agrees l xs p ys c = ground (
  arith,
  tally-append counted xs p ys,
  tally-append at_first xs p ys,
  tally-append at_writing xs p ys,
)

Agrees→IsConsistent :
    (l : Lock) (xs : List Phase) (p : Phase) (ys : List Phase)
    → Agrees l (rest_of counted xs ys) (rest_of at_first xs ys) (rest_of at_writing xs ys) p
    → IsConsistent (record { lock = l; tasks = xs ++ p ∷ ys })
Agrees→IsConsistent l xs p ys c = ground (
  arith,
  tally-append counted xs p ys,
  tally-append at_first xs p ys,
  tally-append at_writing xs p ys,
)

-- Every step without such a cancellation keeps the lock consistent.
pub Step-IsConsistent : {s t : System} → Step harmless s t → IsConsistent s → IsConsistent t
Step-IsConsistent {s} (move xs ys p q m e mv) c = Agrees→IsConsistent m xs q ys (
    Move-Agrees _ _ _ (omega (arith, tally_first-le xs, tally_first-le ys)) mv (
      IsConsistent→Agrees s.lock xs p ys
        (subst (λ ps. IsConsistent (record { lock = s.lock; tasks = ps })) e c)))

tally_idle : (f : Phase → ℕ) (ps : List Phase) → f idle ≡ 0 → AllIdle ps → tally f ps ≡ 0
unfolding tally
tally_idle f [] h a = refl
tally_idle f (p ∷ ps) h a = omega (arith, ap f a.0, tally_idle f ps h a.1)

-- The lock stays consistent with the tasks.
pub Reached-IsConsistent : {s : System} → Reached harmless s → IsConsistent s
Reached-IsConsistent (begin ps a) = ground (
  arith,
  tally_idle counted ps refl a,
  tally_idle at_first ps refl a,
  tally_idle at_writing ps refl a,
)
Reached-IsConsistent (step r st) = Step-IsConsistent st (Reached-IsConsistent r)

pub In-tally : (f : Phase → ℕ) (p : Phase) (ps : List Phase) → f p ≡ 1 → In p ps → 1 ≤ tally f ps
unfolding tally
In-tally f p [] h i = absurd i
In-tally f p (x ∷ ps) h (inl e) = omega (arith, ap f e)
In-tally f p (x ∷ ps) h (inr i) = omega (arith, In-tally f p ps h i)

pub tally_split :
    (f : Phase → ℕ) (xs ys : List Phase) → tally f (xs ++ ys) ≡ tally f xs + tally f ys
unfolding tally
tally_split f [] ys = omega arith
tally_split f (x ∷ xs) ys = omega (arith, tally_split f xs ys)

-- Mutual exclusion, where no task is cancelled while it waits for `_write_lock` as the first reader or
-- in the `finally` of `read_lock`: while one task is inside `write_lock`, no other is inside
-- `write_lock` and none is inside `read_lock`.
pub mutual_exclusion :
    {s : System} (xs ys : List Phase)
    → Reached harmless s
    → s.tasks ≡ xs ++ writing ∷ ys
    → (¬ In writing (xs ++ ys)) × (¬ In reading (xs ++ ys))
mutual_exclusion {s} xs ys r e =
    let a = IsConsistent→Agrees s.lock xs writing ys (
      subst (λ ps. IsConsistent (record { lock = s.lock; tasks = ps })) e
        (Reached-IsConsistent r)) in
    (
      λ i. absurd (
          omega (
            arith,
            a.permit,
            In-tally at_writing writing (xs ++ ys) refl i,
            tally_split at_writing xs ys,
          )),
      λ i. absurd (
          omega (
            arith,
            a.permit,
            In-tally at_reading reading (xs ++ ys) refl i,
            tally_split at_reading xs ys,
            tally_first-le xs,
            tally_first-le ys,
          )),
    )
