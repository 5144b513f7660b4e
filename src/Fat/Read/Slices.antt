-- ===== src/Fat/Read/Slices.antt =====
-- Parts of the bytes of a volume, for reads that start within a cluster.
use fa_maf_sis_op.Prelude.{
  ℕ, zero, suc, ◌+◌, ◌*◌, ◌/◌, ◌%◌, ◌≤◌, ◌≡◌, refl, ap, ◌∙◌, List, ◌∷◌, ◌++◌, take, drop, arith,
}
use native.Mathlib.Nat.{div-add-mod, mul-mod_right, mul-suc}
use fa_maf_sis_op.Fat.Disk.{bytes_at}
use fa_maf_sis_op.Fat.Disk.Transfer.{bytes_at-same}

-- `n` bytes from `m` on, within the first `b`.
pub take-within :
    (c : ℕ → ℕ) (o p b m n : ℕ) (rest : List ℕ)
    → p ≡ o + m
    → m + n ≤ b
    → take n (drop m (bytes_at c o b ++ rest)) ≡ bytes_at c p n
take-within c o p b zero zero rest e h = refl
take-within c o p zero zero (suc n) rest e h = absurd (omega arith)
take-within c o p (suc b) zero (suc n) rest e h =
    ap (λ r. c o ∷ r) (take-within c (suc o) (suc o) b 0 n rest (omega arith) (omega arith))
    ∙ bytes_at-same c {o = o} {p = p} {n = suc n} {m = suc n} (omega arith) refl
take-within c o p zero (suc m) n rest e h = absurd (omega arith)
take-within c o p (suc b) (suc m) n rest e h =
    take-within c (suc o) p b m n rest (omega arith) (omega arith)

-- All `k` bytes from `m` on, and `j` more behind them.
pub take-across :
    (c : ℕ → ℕ) (o p b m k j n : ℕ) (rest : List ℕ)
    → p ≡ o + m
    → k + m ≡ b
    → k + j ≡ n
    → take n (drop m (bytes_at c o b ++ rest)) ≡ bytes_at c p k ++ take j rest
take-across c o p zero zero zero j n rest e f h = ap (λ i. take i rest) (omega arith)
take-across c o p (suc b) zero zero j n rest e f h = absurd (omega arith)
take-across c o p zero zero (suc k) j n rest e f h = absurd (omega arith)
take-across c o p (suc b) zero (suc k) j zero rest e f h = absurd (omega arith)
take-across c o p (suc b) zero (suc k) j (suc n) rest e f h =
    ap (λ r. c o ∷ r)
      (take-across c (suc o) (suc o) b 0 k j n rest (omega arith) (omega arith) (omega arith))
    ∙ ap (λ r. r ++ take j rest)
        (bytes_at-same c {o = o} {p = p} {n = suc k} {m = suc k} (omega arith) refl)
take-across c o p zero (suc m) k j n rest e f h = absurd (omega arith)
take-across c o p (suc b) (suc m) k j n rest e f h =
    take-across c (suc o) p b m k j n rest (omega arith) (omega arith) h

-- The offset behind a read up to the end of a block.
pub aligned : (o b r : ℕ) → o % b + r ≡ b → (o + r) % b ≡ 0
aligned o b r h = ap (λ k. k % b) whole ∙ mul-mod_right b (suc (o / b))
  where
    whole : o + r ≡ b * suc (o / b)
    whole = omega (arith, div-add-mod o b, mul-suc b (o / b))
