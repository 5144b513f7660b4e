-- ===== src/Xv6/Semaphore/Closing.antt =====
-- What `sem_close` does to processes in `sem_down`: it wakes none, and one that is already awake does
-- not see that its semaphore is closed.
use fa_maf_sis_op.Prelude.{ℕ, ◌<◌, ◌≡◌, [], ◌∷◌, update, arith}
use mathlib.Core.Path.{subst}
use fa_maf_sis_op.Prelude.Int.{pos, negsuc}
use fa_maf_sis_op.Xv6.Semaphore.{
  nsemaphore, success, failure, Table, sem_open, sem_close, Down, returned, sem_down_loop,
  closed_sem_value,
}
use fa_maf_sis_op.Xv6.Semaphore.System.{
  running, asleep, woken, System, opened, closed, downed, if_success, down_event, after_down, Step,
  open_step, close_step, resume_step, Run, start, later,
}

close_lem :
    (t : Table) (i n : ℕ)
    → i < nsemaphore
    → t i ≡ pos n
    → sem_close t (pos i) ≡ (success, update t i closed_sem_value)
unfolding sem_close
close_lem t i n h v = ground arith

open_lem :
    (t : Table) (i v : ℕ)
    → i < nsemaphore
    → t i ≡ closed_sem_value
    → sem_open t (pos i) (pos v) ≡ (success, update t i (pos v))
unfolding sem_open
open_lem t i v h e = ground arith

close_Step :
    {s : System} (q i n : ℕ)
    → s.state q ≡ running
    → i < nsemaphore
    → s.table i ≡ pos n
    → Step s (closed i) (record s { table = update s.table i closed_sem_value })
close_Step {s} q i n r h v =
    subst (λ (c : ℕ × Table). Step s (if_success c.0 (closed i)) (record s { table = c.1 }))
      (close_lem s.table i n h v) (close_step q (pos i) r)

open_Step :
    {s : System} (q i v : ℕ)
    → s.state q ≡ running
    → i < nsemaphore
    → s.table i ≡ closed_sem_value
    → Step s (opened i) (record s { table = update s.table i (pos v) })
open_Step {s} q i v r h e =
    subst (λ (c : ℕ × Table). Step s (if_success c.0 (opened i)) (record s { table = c.1 }))
      (open_lem s.table i v h e) (open_step q (pos i) (pos v) r)

loop_closed :
    (t : Table) (i : ℕ)
    → t i ≡ closed_sem_value
    → sem_down_loop t i ≡ (returned success, update t i (negsuc 1))
unfolding sem_down_loop
loop_closed t i e = ground arith

resume_Step :
    {s : System} (p i : ℕ)
    → s.state p ≡ woken i
    → s.table i ≡ closed_sem_value
    → Step s
        (downed i)
        (record { table = update s.table i (negsuc 1); state = update s.state p running })
resume_Step {s} p i w e =
    subst (λ (c : Down × Table). Step s (down_event c.0 i) (after_down s p i c))
      (loop_closed s.table i e) (resume_step p i w)

-- If a process has been wakened on semaphore `i` and another closes it before the first runs, then
-- the first returns from `sem_down` with success and leaves the value -2: the semaphore is not
-- closed any more, no value is open, and `sem_open` of it fails.
pub close_before_resume :
    {s : System} (p q i n : ℕ)
    → i < nsemaphore
    → s.state p ≡ woken i
    → s.state q ≡ running
    → s.table i ≡ pos n
    → (t : System) × Run s (downed i ∷ closed i ∷ []) t
      × (t.table i ≡ negsuc 1)
      × ((v : ℕ) → sem_open t.table (pos i) (pos v) ≡ (failure, t.table))
unfolding sem_open
close_before_resume {s} p q i n h w r v = (
  record {
    table = update (update s.table i closed_sem_value) i (negsuc 1);
    state = update s.state p running;
  },
  later (later start (close_Step q i n r h v)) (resume_Step p i w (ground arith)),
  ground arith,
  λ u. ground arith,
)

-- A process that sleeps on semaphore `i` sleeps on when another closes it and opens it again, with
-- any value: then the value may be positive and the process asleep.
pub reopen_forgets :
    {s : System} (p q i v : ℕ)
    → i < nsemaphore
    → s.state p ≡ asleep i
    → s.state q ≡ running
    → s.table i ≡ pos 0
    → (t : System) × Run s (opened i ∷ closed i ∷ []) t
      × (t.state p ≡ asleep i)
      × (t.table i ≡ pos v)
reopen_forgets {s} p q i v h a r e = (
  record s { table = update (update s.table i closed_sem_value) i (pos v) },
  later (later start (close_Step q i 0 r h e)) (open_Step q i v r h (ground arith)),
  a,
  ground arith,
)
