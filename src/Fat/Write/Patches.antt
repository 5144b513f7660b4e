-- ===== src/Fat/Write/Patches.antt =====
-- What a write makes of the bytes in a range, for fat_file.c.
use fa_maf_sis_op.Prelude.{
  ℕ, zero, suc, ◌+◌, ◌-◌, ◌≤◌, ◌≡◌, ◌⊎◌, inl, inr, refl, ap, sym, ◌∙◌, List, [], ◌∷◌, length,
  get_or, get_or-end, arith,
}
use fa_maf_sis_op.Fat.Disk.{bytes_at, patched}
use fa_maf_sis_op.Fat.Disk.Transfer.{patched-before, patched-from, patched-nil, patched-patched}
use fa_maf_sis_op.Fat.Write.Overwrite.{overwrite, overwrite-nil}

-- Bytes that are not written stay as they are.
pub bytes_at-apart :
    (k : ℕ → ℕ) (o : ℕ) (xs : List ℕ) (p n : ℕ)
    → (p + n ≤ o) ⊎ (o + length xs ≤ p)
    → bytes_at (patched k o xs) p n ≡ bytes_at k p n
bytes_at-apart k o xs p zero apart = refl
bytes_at-apart k o xs p (suc n) (inl before) =
    ap (λ b. b ∷ bytes_at (patched k o xs) (suc p) n) (patched-before k o xs p (omega arith))
    ∙ ap (λ r. k p ∷ r) (bytes_at-apart k o xs (suc p) n (inl (omega arith)))
bytes_at-apart k o xs p (suc n) (inr behind) =
    ap (λ b. b ∷ bytes_at (patched k o xs) (suc p) n)
      (patched-from k o xs p (omega arith) ∙ get_or-end xs (p - o) (k p) (omega arith))
    ∙ ap (λ r. k p ∷ r) (bytes_at-apart k o xs (suc p) n (inr (omega arith)))

patched-same : (k : ℕ → ℕ) (o p : ℕ) (xs : List ℕ) → o ≡ p → patched k o xs ≡ patched k p xs
patched-same k o p xs e = ap (λ q. patched k q xs) e

at_first : (k : ℕ → ℕ) (p b : ℕ) (xs : List ℕ) → patched k p (b ∷ xs) p ≡ b
at_first k p b xs =
    patched-from k p (b ∷ xs) p (omega arith)
    ∙ ap (λ i. get_or (b ∷ xs) i (k p)) {x = p - p} {y = 0} (omega arith)

-- Bytes that are written within a range.
pub bytes_at-within :
    (k : ℕ → ℕ) (p n m : ℕ) (xs : List ℕ)
    → m + length xs ≤ n
    → bytes_at (patched k (p + m) xs) p n ≡ overwrite (bytes_at k p n) m xs
bytes_at-within k p n m [] h =
    ap (λ c. bytes_at c p n) (patched-nil k (p + m)) ∙ sym (overwrite-nil (bytes_at k p n) m)
bytes_at-within k p zero m (x ∷ xs) h = absurd (omega arith)
bytes_at-within k p (suc n) zero (x ∷ xs) h =
    ap (λ c. bytes_at c p (suc n)) (patched-same k (p + 0) p (x ∷ xs) (omega arith))
    ∙ ap (λ b. b ∷ bytes_at (patched k p (x ∷ xs)) (suc p) n) (at_first k p x xs)
    ∙ ap (λ r. x ∷ r)
        (ap (λ c. bytes_at c (suc p) n)
            (sym (patched-patched k p (suc p + 0) (x ∷ []) xs (omega arith)))
          ∙ bytes_at-within (patched k p (x ∷ [])) (suc p) n 0 xs (omega arith)
          ∙ ap (λ r. overwrite r 0 xs) (bytes_at-apart k p (x ∷ []) (suc p) n (inr (omega arith))))
bytes_at-within k p (suc n) (suc m) (x ∷ xs) h =
    ap (λ b. b ∷ bytes_at (patched k (p + suc m) (x ∷ xs)) (suc p) n)
      (patched-before k (p + suc m) (x ∷ xs) p (omega arith))
    ∙ ap (λ r. k p ∷ r)
        (ap (λ c. bytes_at c (suc p) n)
            (patched-same k (p + suc m) (suc p + m) (x ∷ xs) (omega arith))
          ∙ bytes_at-within k (suc p) n m (x ∷ xs) (omega arith))
