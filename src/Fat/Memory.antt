-- ===== src/Fat/Memory.antt =====
-- Machine numbers and arrays of lab03: an access outside an array is undefined behaviour, `none`.
use fa_maf_sis_op.Prelude.{
  ℕ, zero, suc, ◌%◌, ◌<◌, ◌≡◌, ◌≢◌, refl, ap, Option, none, some, List, [], ◌∷◌, length, get_elem?,
  arith,
}

-- What a `u32` and a `size_t` keep of a number.
abbrev pub u32 : ℕ → ℕ
u32 n = n % 0x100000000

abbrev pub size_t : ℕ → ℕ
size_t n = n % 0x10000000000000000

infixl 5 ◌>>=◌
abbrev pub ◌>>=◌ {ℓ κ} : {A : Type ℓ} {B : Type κ} → Option A → (A → Option B) → Option B
none >>= f = none
some a >>= f = f a

-- `array[i] = v`
abbrev pub set_elem : List ℕ → ℕ → ℕ → Option (List ℕ)
set_elem [] i v = none
set_elem (x ∷ xs) zero v = some (v ∷ xs)
set_elem (x ∷ xs) (suc i) v = set_elem xs i v >>= λ ys. some (x ∷ ys)

-- What is read behind a write: the new entry at its index, else the old one.
pub record Written (xs : List ℕ) (i v : ℕ) (ys : List ℕ) : Type 0 where
  pub here : get_elem? ys i ≡ some v
  pub there : (j : ℕ) → j ≢ i → get_elem? ys j ≡ get_elem? xs j
  pub size : length ys ≡ length xs

Written-there_zero :
    (x v : ℕ) (xs : List ℕ) (j : ℕ) → j ≢ 0 → get_elem? (v ∷ xs) j ≡ get_elem? (x ∷ xs) j
Written-there_zero x v xs zero ne = absurd (ne refl)
Written-there_zero x v xs (suc j) ne = refl

Written-there_suc :
    (x : ℕ) (xs ys : List ℕ) (i v : ℕ)
    → Written xs i v ys
    → (j : ℕ) → j ≢ suc i
    → get_elem? (x ∷ ys) j ≡ get_elem? (x ∷ xs) j
Written-there_suc x xs ys i v w zero ne = refl
Written-there_suc x xs ys i v w (suc j) ne = w.there j (λ e. ne (ap suc e))

pub set_elem-Written :
    (xs : List ℕ) (i v : ℕ)
    → i < length xs
    → (ys : List ℕ) × (set_elem xs i v ≡ some ys) × Written xs i v ys
set_elem-Written [] i v h = absurd (omega arith)
set_elem-Written (x ∷ xs) zero v h =
    (v ∷ xs, refl, record { here = refl; there = Written-there_zero x v xs; size = refl })
set_elem-Written (x ∷ xs) (suc i) v h =
    let (ys, eq, w) = set_elem-Written xs i v (omega arith) in
    (
      x ∷ ys,
      rw eq,
      record { here = w.here; there = Written-there_suc x xs ys i v w; size = ap suc w.size },
    )
