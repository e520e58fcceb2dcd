-- ===== src/RwLock/Tests.antt =====
-- Schedules of three tasks.
use py_ipfs_lite.Prelude.{true, false, List, [], ◌∷◌, In, refl, ◌⊎◌, inl, arith}
use py_ipfs_lite.RwLock.{
  harmless, anywhere, cancel_in_first, Phase, idle, read_wait, read_first, reading, read_exit,
  write_wait, writing, Lock, System, Advance, be_first, join_readers, first_acquires, end_read,
  writer_acquires, advance, enter_read, enter_write, move, unlocked, AllIdle, Reached, begin, step,
}
use py_ipfs_lite.RwLock.Safety.{mutual_exclusion}
use py_ipfs_lite.RwLock.Refines.{Permitted, access_of, Step-Permitted}
use py_ipfs_lite.RwLock.Progress.{CanAdvance, no_deadlock}
use py_ipfs_lite.RwLock.Cancel.{
  CancelMove, cancel_first_breaks_exclusion, now, cancel_exit_starves_writers,
}

abbrev of_tasks : Lock → List Phase → System
of_tasks l ps = record { lock = l; tasks = ps }

abbrev s1 : System
s1 = of_tasks unlocked (write_wait ∷ idle ∷ idle ∷ [])

abbrev taken : Lock
taken = record { write_free = 0; read_count = 0; count_held = false }

abbrev s2 : System
s2 = of_tasks taken (writing ∷ idle ∷ idle ∷ [])

s2-Reached : Reached harmless s2
s2-Reached =
    step
      (step (begin (idle ∷ idle ∷ idle ∷ []) (refl, (refl, (refl, tt))))
        (move [] (idle ∷ idle ∷ []) idle write_wait unlocked refl enter_write))
      (move [] (idle ∷ idle ∷ []) write_wait writing taken refl
        (advance (writer_acquires (omega arith))))

abbrev waiting : Lock
waiting = record { write_free = 0; read_count = 1; count_held = true }

-- A writer inside, and a reader behind it.
s3-Reached : Reached harmless (of_tasks waiting (writing ∷ read_first ∷ idle ∷ []))
s3-Reached =
    step (step s2-Reached (move (writing ∷ []) (idle ∷ []) idle read_wait taken refl enter_read)) (
      move (writing ∷ []) (idle ∷ []) read_wait read_first waiting refl
        (advance (be_first refl refl)))

mutual_exclusion_example :
    (¬ In writing (read_first ∷ idle ∷ [])) × (¬ In reading (read_first ∷ idle ∷ []))
mutual_exclusion_example = mutual_exclusion [] (read_first ∷ idle ∷ []) s3-Reached refl

no_deadlock_example :
    AllIdle (writing ∷ read_first ∷ idle ∷ [])
    ⊎ CanAdvance (of_tasks waiting (writing ∷ read_first ∷ idle ∷ []))
no_deadlock_example = no_deadlock s3-Reached

cancel_first_example :
    (m : Lock) × (n : Lock) × CancelMove waiting read_first m idle × Advance m read_wait n reading
cancel_first_example =
    cancel_first_breaks_exclusion (writing ∷ []) (idle ∷ []) s3-Reached refl (inl refl)

abbrev alone : Lock
alone = record { write_free = 1; read_count = 1; count_held = true }

abbrev one_reader : Lock
one_reader = record { write_free = 0; read_count = 1; count_held = false }

s4-Reached : Reached harmless (of_tasks one_reader (read_exit ∷ []))
s4-Reached =
    step
      (step
        (step
          (step (begin (idle ∷ []) (refl, tt)) (move [] [] idle read_wait unlocked refl enter_read))
          (move [] [] read_wait read_first alone refl (advance (be_first refl refl))))
        (move [] [] read_first reading one_reader refl (advance (first_acquires (omega arith)))))
      (move [] [] reading read_exit one_reader refl (advance end_read))

cancel_exit_example : ¬ In writing (idle ∷ [])
cancel_exit_example = cancel_exit_starves_writers [] [] s4-Reached refl now

s1-Reached : Reached harmless s1
s1-Reached =
    step (begin (idle ∷ idle ∷ idle ∷ []) (refl, (refl, (refl, tt))))
      (move [] (idle ∷ idle ∷ []) idle write_wait unlocked refl enter_write)

Step-Permitted_example :
    Permitted (access_of (write_wait ∷ idle ∷ idle ∷ [])) (access_of (writing ∷ idle ∷ idle ∷ []))
Step-Permitted_example = Step-Permitted s1-Reached (
    move [] (idle ∷ idle ∷ []) write_wait writing taken refl
      (advance (writer_acquires (omega arith))))

-- With cancellations anywhere, a writer and a reader meet.
abbrev joined : Lock
joined = record { write_free = 0; read_count = 2; count_held = false }

writer_meets_reader : Reached anywhere (of_tasks joined (writing ∷ reading ∷ []))
writer_meets_reader =
    step
      (step
        (step
          (step
            (step
              (step
                (step (begin (idle ∷ idle ∷ []) (refl, (refl, tt)))
                  (move [] (idle ∷ []) idle write_wait unlocked refl enter_write))
                (move [] (idle ∷ []) write_wait writing taken refl
                  (advance (writer_acquires (omega arith)))))
              (move (writing ∷ []) [] idle read_wait taken refl enter_read))
            (move (writing ∷ []) [] read_wait read_first waiting refl
              (advance (be_first refl refl))))
          (move (writing ∷ []) [] read_first idle one_reader refl (cancel_in_first refl)))
        (move (writing ∷ []) [] idle read_wait one_reader refl enter_read))
      (move (writing ∷ []) [] read_wait reading joined refl
        (advance (join_readers refl (omega arith))))
