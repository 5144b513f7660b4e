-- ===== src/MyBash/StrExtra.antt =====
-- lab01/sistop-famaf-so25lab1g34/strextra.c: joining two strings in a fresh buffer.
use fa_maf_sis_op.Prelude.{
  ℕ, zero, suc, ◌+◌, ◌≡◌, refl, Option, none, some, List, [], ◌∷◌, ◌++◌, arith, ◌==◌, if◌then◌else◌,
  length, replicate, length-append, All-append, ◌≢◌, Text, IsText,
}
use mathlib.Core.Option
use native.Mathlib.Nat.{zero-add, suc-add}

-- `strlen` of a buffer: the bytes before the first NUL.
unfoldable pub strlen : List ℕ → ℕ
strlen [] = 0
strlen (c ∷ cs) = if c == 0 then 0 else suc (strlen cs)

-- The string in a buffer.
unfoldable pub text_of : List ℕ → Text
text_of [] = []
text_of (c ∷ cs) = if c == 0 then [] else c ∷ text_of cs

-- `strncpy(dst, src, n)`: `n` bytes, filled up with NULs behind the end of `src`. `none` is a write
-- beyond the buffer.
unfoldable pub strncpy : List ℕ → Text → ℕ → Option (List ℕ)
strncpy dst src zero = some dst
strncpy [] src (suc n) = none
strncpy (d ∷ dst) [] (suc n) = Option.map (λ r. 0 ∷ r) (strncpy dst [] n)
strncpy (d ∷ dst) (c ∷ src) (suc n) = Option.map (λ r. c ∷ r) (strncpy dst src n)

-- The bytes that `strncat` writes at the first NUL: at most `n` of `src`, then a NUL.
unfoldable pub put_text : List ℕ → Text → ℕ → Option (List ℕ)
put_text [] src n = none
put_text (d ∷ dst) src zero = some (0 ∷ dst)
put_text (d ∷ dst) [] (suc n) = some (0 ∷ dst)
put_text (d ∷ dst) (c ∷ src) (suc n) = Option.map (λ r. c ∷ r) (put_text dst src n)

-- `strncat(dst, src, n)`
unfoldable pub strncat : List ℕ → Text → ℕ → Option (List ℕ)
strncat [] src n = none
strncat (d ∷ dst) src n =
    if d == 0 then put_text (d ∷ dst) src n else Option.map (λ r. d ∷ r) (strncat dst src n)

-- `strmerge`; `none` is a write out of bounds or a failed `assert`. The arguments are not `NULL`, and
-- `calloc` gives a buffer.
unfoldable pub strmerge : Text → Text → Option (List ℕ)
strmerge s1 s2 =
    let len_s1 = strlen s1 in
    let len_s2 = strlen s2 in
    elim (strncpy (replicate (len_s1 + len_s2 + 1) 0) s1 len_s1) [
      | none ↦ none
      | some merge ↦ elim (strncat merge s2 len_s2) [
        | none ↦ none
        | some merged ↦ if strlen merged == strlen s1 + strlen s2 then some merged else none
      ]
    ]

pub strlen-length : (s : Text) → IsText s → strlen s ≡ length s
unfolding strlen
strlen-length [] h = refl
strlen-length (c ∷ s) h = ground (arith, strlen-length s h.1)

strlen-append_nul : (s r : Text) → IsText s → strlen (s ++ 0 ∷ r) ≡ length s
unfolding strlen
strlen-append_nul [] r h = refl
strlen-append_nul (c ∷ s) r h = ground (arith, strlen-append_nul s r h.1)

pub text_of-append_nul : (s r : Text) → IsText s → text_of (s ++ 0 ∷ r) ≡ s
unfolding text_of
text_of-append_nul [] r h = refl
text_of-append_nul (c ∷ s) r h = ground (arith, text_of-append_nul s r h.1)

strncpy-replicate :
    (s : Text) (k : ℕ)
    → strncpy (replicate (length s + k) 0) s (length s) ≡ some (s ++ replicate k 0)
unfolding strncpy
strncpy-replicate [] k = rw zero-add
strncpy-replicate (c ∷ s) k = rw (suc-add, strncpy-replicate s k)

put_text-replicate :
    (t : Text) → put_text (replicate (suc (length t)) 0) t (length t) ≡ some (t ++ 0 ∷ [])
unfolding put_text
put_text-replicate [] = refl
put_text-replicate (c ∷ t) = rw (put_text-replicate t)

strncat-append :
    (s t : Text)
    → IsText s
    → strncat (s ++ replicate (suc (length t)) 0) t (length t) ≡ some (s ++ t ++ 0 ∷ [])
unfolding strncat
strncat-append [] t h = put_text-replicate t
strncat-append (c ∷ s) t h = ground (arith, strncat-append s t h.1)

-- Of two strings without NULs `strmerge` makes a buffer that holds their concatenation and one final
-- NUL: no write falls outside the buffer and the final `assert` holds.
pub strmerge-append :
    (s1 s2 : Text) → IsText s1 → IsText s2 → strmerge s1 s2 ≡ some (s1 ++ s2 ++ 0 ∷ [])
unfolding strmerge
strmerge-append s1 s2 h1 h2 =
    rw
      (
        strlen-length s1 h1,
        strlen-length s2 h2,
        room,
        strncpy-replicate s1 (suc (length s2)),
        strmerge,
      )
      (rw (strlen-length s2 h2, strncat-append s1 s2 h1, strmerge)
        (rw (strlen-append_nul (s1 ++ s2) [] (All-append (λ c. c ≢ 0) s1 s2 h1 h2), strmerge)
          (ground (arith, length-append s1 s2, strlen-length s1 h1, strlen-length s2 h2))))
  where
    room : length s1 + length s2 + 1 ≡ length s1 + suc (length s2)
    room = omega arith
