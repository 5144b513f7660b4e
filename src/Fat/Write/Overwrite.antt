-- ===== src/Fat/Write/Overwrite.antt =====
-- Bytes written over a part of a list of bytes.
use fa_maf_sis_op.Prelude.{
  ℕ, zero, suc, ◌+◌, ◌≤◌, ◌≡◌, refl, ap, List, [], ◌∷◌, ◌++◌, length, take, drop, arith,
}

-- The list `xs` with `buf` over its elements from index `n` on.
abbrev pub overwrite : List ℕ → (n : ℕ) → List ℕ → List ℕ
overwrite [] n buf = []
overwrite (x ∷ xs) zero [] = x ∷ xs
overwrite (x ∷ xs) zero (b ∷ buf) = b ∷ overwrite xs zero buf
overwrite (x ∷ xs) (suc n) buf = x ∷ overwrite xs n buf

pub overwrite-nil : (xs : List ℕ) (n : ℕ) → overwrite xs n [] ≡ xs
overwrite-nil [] n = refl
overwrite-nil (x ∷ xs) zero = refl
overwrite-nil (x ∷ xs) (suc n) = ap (λ r. x ∷ r) (overwrite-nil xs n)

-- Behind a first part.
pub overwrite-behind :
    (xs ys : List ℕ) (k n : ℕ) (buf : List ℕ)
    → k ≡ length xs + n
    → overwrite (xs ++ ys) k buf ≡ xs ++ overwrite ys n buf
overwrite-behind [] ys k n buf e = ap (λ j. overwrite ys j buf) {x = k} {y = n} (omega arith)
overwrite-behind (x ∷ xs) ys zero n buf e = absurd (omega arith)
overwrite-behind (x ∷ xs) ys (suc k) n buf e =
    ap (λ r. x ∷ r) (overwrite-behind xs ys k n buf (omega arith))

-- Over the end of a first part.
pub overwrite-across :
    (xs ys : List ℕ) (n k : ℕ) (buf : List ℕ)
    → n + k ≡ length xs
    → overwrite xs n (take k buf) ++ overwrite ys 0 (drop k buf) ≡ overwrite (xs ++ ys) n buf
overwrite-across [] ys zero zero buf e = refl
overwrite-across [] ys zero (suc k) buf e = absurd (omega arith)
overwrite-across [] ys (suc n) k buf e = absurd (omega arith)
overwrite-across (x ∷ xs) ys zero zero buf e = absurd (omega arith)
overwrite-across (x ∷ xs) ys zero (suc k) [] e = ap (λ r. x ∷ (xs ++ r)) (overwrite-nil ys 0)
overwrite-across (x ∷ xs) ys zero (suc k) (b ∷ buf) e =
    ap (λ r. b ∷ r) (overwrite-across xs ys zero k buf (omega arith))
overwrite-across (x ∷ xs) ys (suc n) k buf e =
    ap (λ r. x ∷ r) (overwrite-across xs ys n k buf (omega arith))

-- What was written is read.
pub take-drop-overwrite :
    (xs : List ℕ) (n : ℕ) (buf : List ℕ)
    → n + length buf ≤ length xs
    → take (length buf) (drop n (overwrite xs n buf)) ≡ buf
take-drop-overwrite [] zero [] h = refl
take-drop-overwrite [] zero (b ∷ buf) h = absurd (omega arith)
take-drop-overwrite [] (suc n) buf h = absurd (omega arith)
take-drop-overwrite (x ∷ xs) zero [] h = refl
take-drop-overwrite (x ∷ xs) zero (b ∷ buf) h =
    ap (λ r. b ∷ r) (take-drop-overwrite xs zero buf (omega arith))
take-drop-overwrite (x ∷ xs) (suc n) buf h = take-drop-overwrite xs n buf (omega arith)
