-- ===== src/Fat/Filename/Paths.antt =====
-- `filepath_from_name` of fat_filename_util.c and the size of its buffer.
use fa_maf_sis_op.Prelude.{
  ℕ, ◌+◌, ◌≡◌, ◌≢◌, ◌⊎◌, inl, inr, none, some, [], ◌∷◌, ◌++◌, length, length-append, Text, arith,
  ℕ_discrete,
}
use fa_maf_sis_op.Fat.Filename.{slash, in_buffer, separator, last_char, filepath_from_name}

fits :
    (parent name : Text)
    → in_buffer (length parent + length name + 1) (parent ++ name) ≡ some (parent ++ name)
unfolding in_buffer
fits parent name = ground (arith, length-append parent name)

overflows :
    (parent name : Text)
    → in_buffer (length parent + length name + 1) (parent ++ slash ∷ name) ≡ none
unfolding in_buffer
overflows parent name = ground (arith, length-append parent (slash ∷ name))

separator-slash : (c : ℕ) → c ≡ slash → separator c ≡ []
unfolding separator
separator-slash c same = ground arith

separator-other : (c : ℕ) → c ≢ slash → separator c ≡ slash ∷ []
unfolding separator
separator-other c other = ground arith

-- To a path that ends in the separator `filepath_from_name` appends the name, within its buffer. To
-- any other path that is not empty it appends the separator too, and writes past its buffer.
pub filepath_from_name_lem :
    (parent name : Text) (c : ℕ)
    → last_char parent ≡ some c
    → ((c ≡ slash) × (filepath_from_name parent name ≡ some (parent ++ name)))
      ⊎ ((c ≢ slash) × (filepath_from_name parent name ≡ none))
unfolding filepath_from_name
filepath_from_name_lem parent name c ends = elim (ℕ_discrete c slash) [
  | yes same ↦ inl (same, rw (ends, separator-slash c same) (fits parent name))
  | no other ↦ inr (other, rw (ends, separator-other c other) (overflows parent name))
]
