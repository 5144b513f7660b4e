-- ===== src/Fat/Filename.antt =====
-- lab03/sistop-famaf-so25lab3g34/fat_filename_util.c: names of directory entries, which are arrays of
-- 8 and 3 bytes padded with blanks, and names in paths, which are C strings. An access outside an
-- array is undefined behaviour, here `none`.
pub mod RoundTrip
pub mod Paths
mod Tests
use fa_maf_sis_op.Prelude.{
  ℕ, zero, suc, ◌+◌, Bool, true, false, not, ◌&&◌, ◌||◌, Option, none, some, List, [], ◌∷◌, ◌++◌,
  ltb, leb, ◌==◌, if◌then◌else◌, length, get_elem?, take, drop, replicate, Text, codes,
}
use fa_maf_sis_op.Fat.Memory.{◌>>=◌}

abbrev pub space : ℕ
space = 32

abbrev pub dot : ℕ
dot = 46

abbrev pub slash : ℕ
slash = 47

abbrev one_of : List ℕ → ℕ → Bool
one_of [] c = false
one_of (x ∷ xs) c = (c == x) || one_of xs c

-- `_fat_char_tab`
unfoldable pub char_legal_in_filename : ℕ → Bool
char_legal_in_filename c =
    (leb 97 c && leb c 122)
    || (leb 65 c && leb c 90)
    || (leb 48 c && leb c 57)
    || (leb 128 c && leb c 255)
    || one_of (codes " $%-_@~`!(){}^#&") c

-- The characters of an array up to its end, a NUL or a blank: the loop of `file_extension_valid`, and
-- that of `file_basename_valid` from its second round on.
unfoldable pub rest_legal : List ℕ → Bool
rest_legal [] = true
rest_legal (c ∷ name) =
    let rest = rest_legal name in
    if (c == 0) || (c == space) then true else char_legal_in_filename c && rest

unfoldable pub file_basename_valid : List ℕ → Option Bool
file_basename_valid [] = none
file_basename_valid (c ∷ base_name) = some (
    if (c == 0) || (c == space) || (c == 0xe5)
    then false
    else char_legal_in_filename c && rest_legal base_name)

unfoldable pub file_extension_valid : List ℕ → Bool
file_extension_valid extension = rest_legal extension

-- What a round of `filename_len` makes of the character before `len`; `shorter` is the next round.
unfoldable pub len_from : Option ℕ → (len : ℕ) → Option ℕ → Option ℕ
len_from none len shorter = none
len_from (some c) len shorter = if not (c == space) && not (c == 0) then some len else shorter

unfoldable pub filename_len : List ℕ → ℕ → Option ℕ
filename_len name zero = some 0
filename_len name (suc len) = len_from (get_elem? name len) (suc len) (filename_len name len)

-- The extension with its dot, if there is one.
unfoldable pub dotted : List ℕ → (extension_len : ℕ) → Text
dotted src_extension extension_len =
    if extension_len == 0 then [] else dot ∷ take extension_len src_extension

-- The text that is written to `dst_name_p`, without its NUL.
unfoldable pub build_filename : (src_name src_extension : List ℕ) → Option Text
build_filename src_name src_extension = do
  name_len ← filename_len src_name 8
  extension_len ← filename_len src_extension 3
  some (
      if name_len == 0
      then slash ∷ []
      else take name_len src_name ++ dotted src_extension extension_len)

-- `strrchr(s, '.')`, as an index.
unfoldable pub last_dot : Text → Option ℕ
last_dot [] = none
last_dot (c ∷ s) = elim (last_dot s) [
  | none ↦ if c == dot then some 0 else none
  | some i ↦ some (suc i)
]

-- `memcpy` to the start of an array.
unfoldable pub memcpy : List ℕ → List ℕ → Option (List ℕ)
memcpy array [] = some array
memcpy [] (x ∷ xs) = none
memcpy (a ∷ array) (x ∷ xs) = memcpy array xs >>= λ rest. some (x ∷ rest)

unfoldable pub at_most : ℕ → ℕ → ℕ
at_most bound n = if ltb bound n then bound else n

-- The arrays of the base and the extension, given the index of the dot.
unfoldable pub filename_parts : Text → Option ℕ → Option (List ℕ × List ℕ)
filename_parts src_name none = do
  base ← memcpy (replicate 8 space) (take (at_most 8 (length src_name)) src_name)
  some (base, replicate 3 space)
filename_parts src_name (some i) = do
  extension ←
      memcpy (replicate 3 space)
        (take (at_most 3 (length (drop (suc i) src_name))) (drop (suc i) src_name))
  base ← memcpy (replicate 8 space) (take (at_most 8 i) src_name)
  some (base, extension)

unfoldable pub filename_from_path : Text → Option (List ℕ × List ℕ)
filename_from_path src_name = filename_parts src_name (last_dot src_name)

-- The separator that is appended to a path that ends in `c`.
unfoldable pub separator : ℕ → Text
separator c = if not (c == slash) then slash ∷ [] else []

-- The character at `filepath_len - 1`; before the start of an empty path there is none.
abbrev pub last_char : Text → Option ℕ
last_char [] = none
last_char (c ∷ s) = get_elem? (c ∷ s) (length s)

-- A text with its NUL in a buffer of `size` bytes.
unfoldable pub in_buffer : (size : ℕ) → Text → Option Text
in_buffer size text = if ltb size (length text + 1) then none else some text

unfoldable pub filepath_from_name : (parent_filepath file_name : Text) → Option Text
filepath_from_name parent_filepath file_name = do
  c ← last_char parent_filepath
  in_buffer (length parent_filepath + length file_name + 1)
      (parent_filepath ++ (separator c ++ file_name))
