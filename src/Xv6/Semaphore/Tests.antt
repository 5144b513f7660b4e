-- ===== src/Xv6/Semaphore/Tests.antt =====
-- The theorems about kernel/semaphore.c at concrete tables and systems.
use fa_maf_sis_op.Prelude.{ℕ, ◌+◌, ◌≡◌, refl, some, [], ◌∷◌, arith, if◌then◌else◌, ◌==◌}
use fa_maf_sis_op.Prelude.Int.{pos, negsuc}
use fa_maf_sis_op.Xv6.Semaphore.{
  failure, Table, sem_open, sem_close, sem_up, sem_down, closed_sem_value,
}
use fa_maf_sis_op.Xv6.Semaphore.Table.{
  opened as opened_counter, closed as closed_counter, upped as upped_counter,
  downed as downed_counter, Does, calls_refine,
}
use fa_maf_sis_op.Xv6.Semaphore.System.{
  State, running, asleep, woken, System, opened, closed, upped, downed, up_step, down_step, Run,
  start, later, after_up, after_down,
}
use fa_maf_sis_op.Xv6.Semaphore.Counts.{IsOpen, ups, downs, run_counts}
use fa_maf_sis_op.Xv6.Semaphore.Closing.{close_before_resume, reopen_forgets}

-- Semaphore 3 is open with value 1, the others are closed.
abbrev table : Table
table j = if j == 3 then pos 1 else closed_sem_value

abbrev all_run : System
all_run = record { table = table; state = λ p. running }

-- Process 0 has been wakened, process 1 sleeps.
abbrev states : ℕ → State
states p = if p == 0 then woken 3 else if p == 1 then asleep 4 else running

abbrev waiting : System
waiting = record { table = λ j. if j == 4 then pos 0 else table j; state = states }

calls_refine_example :
    Does table 3 (opened_counter (some 1) (pos 7)) (sem_open table (pos 3) (pos 7))
    × Does table 3 (closed_counter (some 1)) (sem_close table (pos 3))
    × Does table 3 (upped_counter (some 1)) (sem_up table (pos 3))
    × Does table 3 (downed_counter (some 1)) (sem_down table (pos 3))
calls_refine_example = calls_refine table 3 (pos 7) (omega arith) (omega arith) (omega arith)

-- Process 0 lowers semaphore 3, process 1 raises it.
abbrev lowered : System
lowered = after_down all_run 0 3 (sem_down table (pos 3))

abbrev raised : System
raised = after_up lowered 3 (sem_up lowered.table (pos 3))

two_calls : Run all_run (upped 3 ∷ downed 3 ∷ []) raised
unfolding sem_up sem_down
two_calls = later (later start (down_step 0 (pos 3) refl)) (up_step 1 (pos 3) refl)

run_counts_example :
    (m : ℕ) × IsOpen 3 m raised
    × (m + downs 3 (upped 3 ∷ downed 3 ∷ []) ≡ 1 + ups 3 (upped 3 ∷ downed 3 ∷ []))
run_counts_example =
    run_counts (record { value = refl; bounded = omega arith; idle = λ p h. cc }) two_calls
      (tt, (tt, tt))

close_before_resume_example :
    (t : System) × Run waiting (downed 3 ∷ closed 3 ∷ []) t
    × (t.table 3 ≡ negsuc 1)
    × ((v : ℕ) → sem_open t.table (pos 3) (pos v) ≡ (failure, t.table))
close_before_resume_example = close_before_resume 0 2 3 1 (omega arith) refl refl refl

reopen_forgets_example :
    (t : System) × Run waiting (opened 4 ∷ closed 4 ∷ []) t
    × (t.state 1 ≡ asleep 4)
    × (t.table 4 ≡ pos 5)
reopen_forgets_example = reopen_forgets 1 2 4 5 (omega arith) refl refl refl
