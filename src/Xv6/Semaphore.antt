-- ===== src/Xv6/Semaphore.antt =====
-- lab02/sistop-famaf-so25lab2g34/kernel/semaphore.c: the table of named semaphores. Each section that
-- holds a semaphore's spin lock is one function: `sem_down` is two, since `sleep` gives the lock back.
-- Messages on the console are left out.
pub mod Table
pub mod System
pub mod Counts
pub mod Closing
mod Tests
use fa_maf_sis_op.Prelude.{
  ℕ, zero, suc, ◌≡◌, Bool, true, false, not, ◌||◌, leb, ◌==◌, if◌then◌else◌, update,
}
use fa_maf_sis_op.Prelude.Int.{ℤ, pos, negsuc, eq_ℤ, is_neg, suc_ℤ, pred_ℤ}

-- `NSEMAPHORE` of kernel/param.h.
abbrev pub nsemaphore : ℕ
nsemaphore = 64

abbrev pub int_max : ℕ
int_max = 2147483647

abbrev pub closed_sem_value : ℤ
closed_sem_value = negsuc 0

abbrev pub success : ℕ
success = 1

abbrev pub failure : ℕ
failure = 0

-- The field `value` of each semaphore, an `int`.
abbrev pub Table : Type 0
Table = ℕ → ℤ

-- A number that is not negative, as an index of the table.
abbrev pub index : ℤ → ℕ
index (pos n) = n
index (negsuc n) = 0

-- The `for` of `seminit`, from index `i` on.
unfoldable pub init_from : (rounds i : ℕ) → Table → Table
init_from zero i t = t
init_from (suc rounds) i t = init_from rounds (suc i) (update t i closed_sem_value)

unfoldable pub seminit : Table → Table
unfolding init_from
seminit t = init_from nsemaphore 0 t

unfoldable pub sem_valid : ℤ → ℕ
sem_valid sem = if is_neg sem || leb nsemaphore (index sem) then failure else success

unfoldable pub sem_open : Table → (sem value : ℤ) → ℕ × Table
unfolding sem_valid
sem_open t sem value =
    if sem_valid sem == failure
    then (failure, t)
    else if is_neg value
    then (failure, t)
    else if not (eq_ℤ (t (index sem)) closed_sem_value)
    then (failure, t)
    else (success, update t (index sem) value)

unfoldable pub sem_close : Table → (sem : ℤ) → ℕ × Table
unfolding sem_valid
sem_close t sem =
    if sem_valid sem == failure
    then (failure, t)
    else if eq_ℤ (t (index sem)) closed_sem_value
    then (failure, t)
    else (success, update t (index sem) closed_sem_value)

-- `wakeup` is called exactly if the result is `success`.
unfoldable pub sem_up : Table → (sem : ℤ) → ℕ × Table
unfolding sem_valid
sem_up t sem =
    if sem_valid sem == failure
    then (failure, t)
    else if eq_ℤ (t (index sem)) closed_sem_value
    then (failure, t)
    else if eq_ℤ (t (index sem)) (pos int_max)
    then (failure, t)
    else (success, update t (index sem) (suc_ℤ (t (index sem))))

-- How a section of `sem_down` ends.
pub data Down : Type 0 where
  returned : ℕ → Down
  slept : Down

-- `sem_down` from the test of its `while` on; also what follows each `sleep`.
unfoldable pub sem_down_loop : Table → ℕ → Down × Table
sem_down_loop t i =
    if eq_ℤ (t i) (pos 0) then (slept, t) else (returned success, update t i (pred_ℤ (t i)))

-- `sem_down` up to its result or its first `sleep`.
unfoldable pub sem_down : Table → (sem : ℤ) → Down × Table
unfolding sem_valid sem_down_loop
sem_down t sem =
    if sem_valid sem == failure
    then (returned failure, t)
    else if eq_ℤ (t (index sem)) closed_sem_value
    then (returned failure, t)
    else sem_down_loop t (index sem)
