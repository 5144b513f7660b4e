-- ===== src/Xv6/Semaphore/Table.antt =====
-- The table of semaphores refines a table of optional counters.
use fa_maf_sis_op.Prelude.{
  ℕ, zero, suc, ◌+◌, ◌≤◌, ◌<◌, ◌≡◌, ◌≢◌, refl, ap, ◌∙◌, inl, inr, Bool-cases, true, ◌||◌, Option,
  none, some, leb, ltb, ◌==◌, if◌then◌else◌, update, arith,
}
use fa_maf_sis_op.Prelude.Int.{ℤ, pos, negsuc, is_neg}
use fa_maf_sis_op.Xv6.Semaphore.{
  nsemaphore, int_max, closed_sem_value, success, failure, Table, index, init_from, seminit,
  sem_open, sem_close, sem_up, Down, returned, slept, sem_down,
}

-- What a value stands for: a closed semaphore, or a counter.
abbrev pub counter : ℤ → Option ℕ
counter (pos n) = some n
counter (negsuc n) = none

-- A value of a semaphore that is closed, or open with a counter that an `int` holds.
abbrev pub IsValue : ℤ → Type 0
IsValue (pos n) = n ≤ int_max
IsValue (negsuc n) = n ≡ 0

-- A number that an `int` holds.
abbrev pub IsInt : ℤ → Type 0
IsInt (pos n) = n ≤ int_max
IsInt (negsuc n) = n ≤ int_max

-- What a call makes of the counter of its semaphore, with its result.
abbrev pub opened : Option ℕ → ℤ → ℕ × Option ℕ
opened c (negsuc n) = (failure, c)
opened none (pos n) = (success, some n)
opened (some m) (pos n) = (failure, some m)

abbrev pub closed : Option ℕ → ℕ × Option ℕ
closed none = (failure, none)
closed (some m) = (success, none)

abbrev pub upped : Option ℕ → ℕ × Option ℕ
upped none = (failure, none)
upped (some m) = if ltb m int_max then (success, some (suc m)) else (failure, some m)

abbrev pub downed : Option ℕ → Down × Option ℕ
downed none = (returned failure, none)
downed (some zero) = (slept, some zero)
downed (some (suc m)) = (returned success, some m)

-- A call with result `r` and new table `t'` does to semaphore `i` what `spec` says, keeps its value
-- a value, and leaves the other semaphores alone.
pub record Does {R : Type 0} (t : Table) (i : ℕ) (spec : R × Option ℕ) (call : R × Table)
    : Type 0 where
  pub result : call.0 ≡ spec.0
  pub value : counter (call.1 i) ≡ spec.1
  pub is_value : IsValue (call.1 i)
  pub others : (j : ℕ) → j ≢ i → call.1 j ≡ t j

sem_open-Does :
    (t : Table) (i : ℕ) (value : ℤ)
    → i < nsemaphore
    → IsValue (t i)
    → IsInt value
    → Does t i (opened (counter (t i)) value) (sem_open t (pos i) value)
unfolding sem_open
sem_open-Does t i (pos n) h v b = record {
  result = ground arith;
  value = ground arith;
  is_value = ground arith;
  others = λ j ne. ground arith;
}
sem_open-Does t i (negsuc n) h v b = record {
  result = ground arith;
  value = ground arith;
  is_value = ground arith;
  others = λ j ne. ground arith;
}

sem_close-Does :
    (t : Table) (i : ℕ)
    → i < nsemaphore
    → IsValue (t i)
    → Does t i (closed (counter (t i))) (sem_close t (pos i))
unfolding sem_close
sem_close-Does t i h v = record {
  result = ground arith;
  value = ground arith;
  is_value = ground arith;
  others = λ j ne. ground arith;
}

sem_up-Does :
    (t : Table) (i : ℕ)
    → i < nsemaphore
    → IsValue (t i)
    → Does t i (upped (counter (t i))) (sem_up t (pos i))
unfolding sem_up
sem_up-Does t i h v = record {
  result = ground arith;
  value = ground arith;
  is_value = ground arith;
  others = λ j ne. ground arith;
}

sem_down-Does :
    (t : Table) (i : ℕ)
    → i < nsemaphore
    → IsValue (t i)
    → Does t i (downed (counter (t i))) (sem_down t (pos i))
unfolding sem_down
sem_down-Does t i h v = record {
  result = ground arith;
  value = ground arith;
  is_value = ground arith;
  others = λ j ne. ground arith;
}

-- On a semaphore of the table that holds a value of an `int` from -1 on, and for any `int` as the
-- value to open it with, the four calls are those of an optional counter: opening one that is closed
-- with a value that is not negative, closing one that is open, counting up below the largest `int`,
-- and counting down or sleeping at 0; in every other case, a negative value included, they fail and
-- the counter stays. No other semaphore changes.
pub calls_refine :
    (t : Table) (i : ℕ) (value : ℤ)
    → i < nsemaphore
    → IsValue (t i)
    → IsInt value
    → Does t i (opened (counter (t i)) value) (sem_open t (pos i) value)
      × Does t i (closed (counter (t i))) (sem_close t (pos i))
      × Does t i (upped (counter (t i))) (sem_up t (pos i))
      × Does t i (downed (counter (t i))) (sem_down t (pos i))
calls_refine t i value h v b = (
  sem_open-Does t i value h v b,
  sem_close-Does t i h v,
  sem_up-Does t i h v,
  sem_down-Does t i h v,
)

-- Every call on a number that names no semaphore fails and changes nothing.
pub calls_invalid :
    (t : Table) (sem : ℤ)
    → (is_neg sem || leb nsemaphore (index sem)) ≡ true
    → ((value : ℤ) → sem_open t sem value ≡ (failure, t))
      × (sem_close t sem ≡ (failure, t))
      × (sem_up t sem ≡ (failure, t))
      × (sem_down t sem ≡ (returned failure, t))
unfolding sem_open sem_close sem_up sem_down
calls_invalid t sem h = (λ value. rw h, rw h, rw h, rw h)

init_from-kept : (rounds i j : ℕ) (t : Table) → j < i → init_from rounds i t j ≡ t j
unfolding init_from
init_from-kept zero i j t h = refl
init_from-kept (suc rounds) i j t h =
    init_from-kept rounds (suc i) j (update t i closed_sem_value) (omega arith) ∙ ground arith

init_from-closed :
    (rounds i j : ℕ) (t : Table)
    → i ≤ j
    → j < i + rounds
    → init_from rounds i t j ≡ closed_sem_value
unfolding init_from
init_from-closed zero i j t lo hi = absurd (omega arith)
init_from-closed (suc rounds) i j t lo hi = elim (Bool-cases (j == i)) [
  | inl same ↦
      init_from-kept rounds (suc i) j (update t i closed_sem_value) (ground arith) ∙ rw same
  | inr other ↦
      init_from-closed rounds (suc i) j (update t i closed_sem_value) (ground arith) (ground arith)
]

-- After `seminit` every semaphore of the table is closed.
pub seminit-closed : (t : Table) (i : ℕ) → i < nsemaphore → counter (seminit t i) ≡ none
unfolding seminit
seminit-closed t i h = ap counter (init_from-closed nsemaphore 0 i t (omega arith) (omega arith))
