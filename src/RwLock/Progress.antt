-- ===== src/RwLock/Progress.antt =====
-- No deadlock: a task that has not left can always go on, or waits for one that can.
use py_ipfs_lite.Prelude.{
  ℕ, ◌+◌, ◌-◌, false, List, [], ◌∷◌, ◌≡◌, refl, ◌⊎◌, inl, inr, arith, In, ℕ_discrete,
}
use py_ipfs_lite.RwLock.{
  harmless, Phase, idle, read_wait, read_first, reading, read_exit, write_wait, writing, Lock,
  System, Advance, be_first, first_acquires, end_read, leave_readers, last_leaves, writer_acquires,
  end_write, AllIdle, Reached,
}
use py_ipfs_lite.RwLock.Safety.{
  counted, at_first, at_writing, tally, IsConsistent, Reached-IsConsistent, In-tally,
}

-- A task that can advance.
abbrev pub CanAdvance : System → Type 0
CanAdvance s = (p : Phase) × (q : Phase) × (m : Lock) × In p s.tasks × Advance s.lock p m q

-- The tasks, from which one in a given phase can be picked.
abbrev count_in : Phase → Phase → ℕ
count_in read_wait read_wait = 1
count_in read_first read_first = 1
count_in reading reading = 1
count_in read_exit read_exit = 1
count_in write_wait write_wait = 1
count_in writing writing = 1
count_in _ _ = 0

find : (p : Phase) (ps : List Phase) → (In p ps) ⊎ (tally (count_in p) ps ≡ 0)
unfolding tally
find p [] = inr refl
find p (q ∷ ps) = elim (find p ps) [ inl i ↦ inl (inr i) | inr h ↦ here p q h ]
  where
    here :
        (p q : Phase)
        → tally (count_in p) ps ≡ 0
        → (In p (q ∷ ps)) ⊎ (count_in p q + tally (count_in p) ps ≡ 0)
    here read_wait read_wait h = inl (inl refl)
    here read_first read_first h = inl (inl refl)
    here reading reading h = inl (inl refl)
    here read_exit read_exit h = inl (inl refl)
    here write_wait write_wait h = inl (inl refl)
    here writing writing h = inl (inl refl)
    here _ _ h = inr (omega (arith, h))

tallies :
    (ps : List Phase)
    → (tally counted ps
        ≡ tally (count_in read_first) ps
          + tally (count_in reading) ps
          + tally (count_in read_exit) ps)
      × (tally at_first ps ≡ tally (count_in read_first) ps)
      × (tally at_writing ps ≡ tally (count_in writing) ps)
unfolding tally
tallies [] = (refl, refl, refl)
tallies (p ∷ ps) = ground (arith, tallies ps)

all_idle :
    (ps : List Phase)
    → tally (count_in read_wait) ps ≡ 0
    → tally (count_in read_first) ps ≡ 0
    → tally (count_in reading) ps ≡ 0
    → tally (count_in read_exit) ps ≡ 0
    → tally (count_in write_wait) ps ≡ 0
    → tally (count_in writing) ps ≡ 0
    → AllIdle ps
unfolding tally
all_idle [] a b c d e f = tt
all_idle (p ∷ ps) a b c d e f = ground (arith, all_idle ps)

leave : (l : Lock) → l.count_held ≡ false → (m : Lock) × Advance l read_exit m idle
leave l h = elim (ℕ_discrete (l.read_count - 1) 0) [
  | yes e ↦ (_, last_leaves h e)
  | no n ↦ (_, leave_readers h n)
]

-- Where no task is cancelled while it waits for `_write_lock` as the first reader or in the `finally`
-- of `read_lock`: in every state that is reached, all tasks are outside, or one can advance.
pub no_deadlock : {s : System} → Reached harmless s → AllIdle s.tasks ⊎ CanAdvance s
no_deadlock {s} r = elim (find reading s.tasks) [
  | inl i ↦ inr (reading, read_exit, s.lock, i, end_read)
  | inr no_reading ↦ elim (find writing s.tasks) [
    | inl i ↦ inr (writing, idle, _, i, end_write)
    | inr no_writing ↦ elim (find read_first s.tasks) [
      | inl i ↦
          let one = In-tally at_first read_first s.tasks refl i in
          inr (
            read_first,
            reading,
            _,
            i,
            first_acquires (omega (arith, c.permit, c.alone, tallies s.tasks, one)),
          )
      | inr no_first ↦
          let free : s.lock.count_held ≡ false = ground (arith, c.first, tallies s.tasks) in
          elim (find read_exit s.tasks) [
            | inl i ↦ let (m, a) = leave s.lock free in inr (read_exit, idle, m, i, a)
            | inr no_exit ↦ elim (find read_wait s.tasks) [
              | inl i ↦ inr (
                read_wait,
                read_first,
                _,
                i,
                be_first free (omega (arith, c.readers, tallies s.tasks)),
              )
              | inr no_wait ↦ elim (find write_wait s.tasks) [
                | inl i ↦ inr (
                  write_wait,
                  writing,
                  _,
                  i,
                  writer_acquires (omega (arith, c.permit, tallies s.tasks)),
                )
                | inr no_write ↦
                    inl (all_idle s.tasks no_wait no_first no_reading no_exit no_write no_writing)
              ]
            ]
          ]
    ]
  ]
]
  where
    c : IsConsistent s
    c = Reached-IsConsistent r
