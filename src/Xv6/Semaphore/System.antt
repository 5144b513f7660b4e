-- ===== src/Xv6/Semaphore/System.antt =====
-- Processes that call the semaphores of kernel/semaphore.c, one locked section at a time, in any
-- order, and what `sleep`, `wakeup` and `kill` of kernel/proc.c do to their states.
use fa_maf_sis_op.Prelude.{ℕ, ◌≡◌, List, [], ◌∷◌, ◌==◌, if◌then◌else◌, update}
use fa_maf_sis_op.Prelude.Int.{ℤ}
use fa_maf_sis_op.Xv6.Semaphore.{
  success, Table, index, sem_open, sem_close, sem_up, Down, returned, slept, sem_down_loop,
  sem_down,
}

-- Outside the four calls, asleep on a semaphore in `sem_down`, or `RUNNABLE` behind that `sleep`.
pub data State : Type 0 where
  running : State
  asleep woken : ℕ → State

pub record System : Type 0 where
  pub table : Table
  pub state : ℕ → State

-- The test of `wakeup` and `kill`: a sleeping process becomes runnable.
unfoldable pub wake : ℕ → State → State
wake i running = running
wake i (asleep k) = if k == i then woken k else asleep k
wake i (woken k) = woken k

unfoldable pub wakeup : (ℕ → State) → ℕ → ℕ → State
unfolding wake
wakeup state i p = wake i (state p)

-- What a step did: a call that succeeded on a semaphore, or nothing of that kind.
pub data Event : Type 0 where
  quiet : Event
  opened closed upped downed : ℕ → Event

abbrev pub if_success : ℕ → Event → Event
if_success result e = if result == success then e else quiet

abbrev pub down_event : Down → ℕ → Event
down_event (returned result) i = if_success result (downed i)
down_event slept i = quiet

abbrev pub down_state : Down → ℕ → State
down_state (returned result) i = running
down_state slept i = asleep i

-- The end of a section of `sem_down` of process `p` on semaphore `i`.
abbrev pub after_down : System → (p i : ℕ) → Down × Table → System
after_down s p i (d, t) = record { table = t; state = update s.state p (down_state d i) }

-- The end of a `sem_up`, which wakes the sleepers if it succeeded.
abbrev pub after_up : System → (i : ℕ) → ℕ × Table → System
after_up s i (result, t) = record {
  table = t;
  state = if result == success then wakeup s.state i else s.state;
}

pub data Step (s : System) : Event → System → Type 0 where
  open_step :
      (p : ℕ) (sem value : ℤ)
      → s.state p ≡ running
      → Step s
          (if_success (sem_open s.table sem value).0 (opened (index sem)))
          (record s { table = (sem_open s.table sem value).1 })
  close_step :
      (p : ℕ) (sem : ℤ)
      → s.state p ≡ running
      → Step s
          (if_success (sem_close s.table sem).0 (closed (index sem)))
          (record s { table = (sem_close s.table sem).1 })
  up_step :
      (p : ℕ) (sem : ℤ)
      → s.state p ≡ running
      → Step s
          (if_success (sem_up s.table sem).0 (upped (index sem)))
          (after_up s (index sem) (sem_up s.table sem))
  down_step :
      (p : ℕ) (sem : ℤ)
      → s.state p ≡ running
      → Step s
          (down_event (sem_down s.table sem).0 (index sem))
          (after_down s p (index sem) (sem_down s.table sem))
  resume_step :
      (p i : ℕ)
      → s.state p ≡ woken i
      → Step s
          (down_event (sem_down_loop s.table i).0 i)
          (after_down s p i (sem_down_loop s.table i))
  kill_step :
      (p i : ℕ)
      → s.state p ≡ asleep i
      → Step s quiet (record s { state = update s.state p (woken i) })

-- A run, with its events from the last to the first.
pub data Run (s : System) : List Event → System → Type 0 where
  start : Run s [] s
  later : {es : List Event} {e : Event} {t u : System} → Run s es t → Step t e u → Run s (e ∷ es) u
