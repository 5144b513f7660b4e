-- ===== src/Xv6/Semaphore/Counts.antt =====
-- A semaphore that stays open: its value counts the calls, and nobody sleeps while it is positive.
use fa_maf_sis_op.Prelude.{
  ℕ, ◌+◌, ◌-◌, ◌≤◌, ◌≡◌, ◌≢◌, List, [], ◌∷◌, ◌==◌, if◌then◌else◌, update, arith,
}
use fa_maf_sis_op.Prelude.Int.{ℤ, pos}
use fa_maf_sis_op.Xv6.Semaphore.{
  int_max, index, sem_open, sem_close, sem_up, sem_down_loop, sem_down,
}
use fa_maf_sis_op.Xv6.Semaphore.System.{
  asleep, woken, System, wakeup, Event, quiet, opened, closed, upped, downed, if_success,
  down_event, after_down, after_up, Step, open_step, close_step, up_step, down_step, resume_step,
  kill_step, Run, start, later,
}

-- How often semaphore `i` was raised and lowered.
unfoldable pub ups_of : ℕ → Event → ℕ
ups_of i (upped k) = if k == i then 1 else 0
ups_of i quiet = 0
ups_of i (opened k) = 0
ups_of i (closed k) = 0
ups_of i (downed k) = 0

unfoldable pub downs_of : ℕ → Event → ℕ
downs_of i (downed k) = if k == i then 1 else 0
downs_of i quiet = 0
downs_of i (opened k) = 0
downs_of i (closed k) = 0
downs_of i (upped k) = 0

unfoldable pub ups : ℕ → List Event → ℕ
unfolding ups_of
ups i [] = 0
ups i (e ∷ es) = ups_of i e + ups i es

unfoldable pub downs : ℕ → List Event → ℕ
unfolding downs_of
downs i [] = 0
downs i (e ∷ es) = downs_of i e + downs i es

-- No `sem_close` of semaphore `i` has succeeded.
abbrev pub KeepsOpen : ℕ → Event → Type 0
KeepsOpen i (closed k) = k ≢ i
KeepsOpen i quiet = Unit
KeepsOpen i (opened k) = Unit
KeepsOpen i (upped k) = Unit
KeepsOpen i (downed k) = Unit

abbrev pub StaysOpen : ℕ → List Event → Type 0
StaysOpen i [] = Unit
StaysOpen i (e ∷ es) = KeepsOpen i e × StaysOpen i es

-- Semaphore `i` is open with value `n`, and no process sleeps on it unless `n` is 0.
pub record IsOpen (i n : ℕ) (s : System) : Type 0 where
  pub value : s.table i ≡ pos n
  pub bounded : n ≤ int_max
  pub idle : (p : ℕ) → s.state p ≡ asleep i → n ≡ 0

-- The step with event `e` to `t` keeps semaphore `i` open, and its value counts the call.
record Kept (i n : ℕ) (e : Event) (t : System) : Type 0 where
  enough : downs_of i e ≤ n + ups_of i e
  is_open : IsOpen i (n + ups_of i e - downs_of i e) t

module _ {i n : ℕ} {s : System} (o : IsOpen i n s) where
  open_Kept :
      (sem value : ℤ)
      → Kept i n
          (if_success (sem_open s.table sem value).0 (opened (index sem)))
          (record s { table = (sem_open s.table sem value).1 })
  unfolding sem_open ups_of downs_of
  open_Kept sem value = record {
    enough = ground arith;
    is_open = record {
      value = ground (arith, o.value);
      bounded = ground (arith, o.bounded);
      idle = λ p h. ground (arith, o.idle p);
    };
  }

  close_Kept :
      (sem : ℤ)
      → KeepsOpen i (if_success (sem_close s.table sem).0 (closed (index sem)))
      → Kept i n
          (if_success (sem_close s.table sem).0 (closed (index sem)))
          (record s { table = (sem_close s.table sem).1 })
  unfolding sem_close ups_of downs_of
  close_Kept sem kept = record {
    enough = ground arith;
    is_open = record {
      value = ground (arith, o.value);
      bounded = ground (arith, o.bounded);
      idle = λ p h. ground (arith, o.idle p);
    };
  }

  up_Kept :
      (sem : ℤ)
      → Kept i n
          (if_success (sem_up s.table sem).0 (upped (index sem)))
          (after_up s (index sem) (sem_up s.table sem))
  unfolding sem_up ups_of downs_of wakeup
  up_Kept sem = record {
    enough = ground arith;
    is_open = record {
      value = ground (arith, o.value);
      bounded = ground (arith, o.bounded, o.value);
      idle = λ p h. ground (arith, o.idle p);
    };
  }

  loop_Kept :
      (p k : ℕ)
      → Kept i n
          (down_event (sem_down_loop s.table k).0 k)
          (after_down s p k (sem_down_loop s.table k))
  unfolding sem_down_loop ups_of downs_of
  loop_Kept p k = record {
    enough = ground (arith, o.value);
    is_open = record {
      value = ground (arith, o.value);
      bounded = ground (arith, o.bounded, o.value);
      idle = λ q h. ground (arith, o.idle q, o.value);
    };
  }

  down_Kept :
      (p : ℕ) (sem : ℤ)
      → Kept i n
          (down_event (sem_down s.table sem).0 (index sem))
          (after_down s p (index sem) (sem_down s.table sem))
  unfolding sem_down ups_of downs_of
  down_Kept p sem = record {
    enough = ground (arith, o.value);
    is_open = record {
      value = ground (arith, o.value);
      bounded = ground (arith, o.bounded, o.value);
      idle = λ q h. ground (arith, o.idle q, o.value);
    };
  }

-- A wakened process sleeps no more, and the others keep their state.
kill_Kept :
    {i n : ℕ} {s : System} (p k : ℕ)
    → IsOpen i n s
    → Kept i n quiet (record s { state = update s.state p (woken k) })
unfolding ups_of downs_of
kill_Kept {i} {n} {s} p k o = record {
  enough = omega arith;
  is_open = record {
    value = ground (arith, o.value);
    bounded = ground (arith, o.bounded);
    idle = λ q h. ground (arith, o.idle q);
  };
}

Step-Kept :
    {i n : ℕ} {s : System} {e : Event} {t : System}
    → Step s e t
    → IsOpen i n s
    → KeepsOpen i e
    → Kept i n e t
Step-Kept (open_step p sem value r) o kept = open_Kept o sem value
Step-Kept (close_step p sem r) o kept = close_Kept o sem kept
Step-Kept (up_step p sem r) o kept = up_Kept o sem
Step-Kept (down_step p sem r) o kept = down_Kept o p sem
Step-Kept (resume_step p k w) o kept = loop_Kept o p k
Step-Kept (kill_step p k w) o kept = kill_Kept p k o

-- In any run of any number of processes from a state where semaphore `i` is open with value `n` and
-- that closes it at no point, it stays open with a value that is `n` plus the successful calls of
-- `sem_up` minus those of `sem_down`, fits an `int`, and is 0 whenever a process sleeps on it.
pub run_counts :
    {i n : ℕ} {s : System} {es : List Event} {t : System}
    → IsOpen i n s
    → Run s es t
    → StaysOpen i es
    → (m : ℕ) × IsOpen i m t × (m + downs i es ≡ n + ups i es)
unfolding ups downs
run_counts {i} {n} o start kept = (n, o, omega arith)
run_counts {i} {n} {es = e ∷ es} o (later r st) kept =
    let (m, o', c) = run_counts o r kept.1 in
    let k = Step-Kept st o' kept.0 in
    (m + ups_of i e - downs_of i e, k.is_open, omega (arith, k.enough))
