-- ===== src/Fat/Filename/Tests.antt =====
-- Sample names, and the theorems of fat_filename_util.c on them.
use fa_maf_sis_op.Prelude.{◌≡◌, ◌≢◌, ◌⊎◌, refl, none, some, Text, codes, true, false, arith}
use fa_maf_sis_op.Fat.Memory.{◌>>=◌}
use fa_maf_sis_op.Fat.Filename.{
  char_legal_in_filename, rest_legal, slash, filename_from_path, build_filename, filepath_from_name,
  file_basename_valid,
}
use fa_maf_sis_op.Fat.Filename.RoundTrip.{IsName, build_filename-filename_from_path}
use fa_maf_sis_op.Fat.Filename.Paths.{filepath_from_name_lem}

abbrev readme : Text
readme = codes "README"

abbrev md : Text
md = codes "md"

readme-IsName : IsName 8 readme
readme-IsName = record { room = omega arith; trimmed = (omega arith, omega arith) }

md-IsName : IsName 3 md
md-IsName = record { room = omega arith; trimmed = (omega arith, omega arith) }

build_filename-filename_from_path_example :
    (filename_from_path (codes "README.md") >>= λ (b, e). build_filename b e)
    ≡ some (codes "README.md")
build_filename-filename_from_path_example =
    build_filename-filename_from_path readme md (omega arith) readme-IsName md-IsName
      (omega arith, (omega arith, tt)) (λ empty. cc)

filepath_from_name_lem_example :
    ((107 ≡ slash)
      × (filepath_from_name (codes "/disk") (codes "a.txt") ≡ some (codes "/diska.txt")))
    ⊎ ((107 ≢ slash) × (filepath_from_name (codes "/disk") (codes "a.txt") ≡ none))
filepath_from_name_lem_example = filepath_from_name_lem (codes "/disk") (codes "a.txt") 107 refl

readme_valid : file_basename_valid (codes "README  ") ≡ some true
unfolding file_basename_valid char_legal_in_filename rest_legal
readme_valid = refl

dot_invalid : file_basename_valid (codes "A.B     ") ≡ some false
unfolding file_basename_valid char_legal_in_filename rest_legal
dot_invalid = refl
