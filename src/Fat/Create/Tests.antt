-- ===== src/Fat/Create/Tests.antt =====
-- A file made on a small volume.
use fa_maf_sis_op.Prelude.{ℕ, ◌≡◌, refl, false, some, List, [], codes, arith}
use fa_maf_sis_op.Fat.Create.{fat_file_init}
use fa_maf_sis_op.Fat.Create.Correct.{fat_file_init_lem}
use fa_maf_sis_op.Fat.Entry.{file_start_cluster}
use fa_maf_sis_op.Fat.FatFile.{FatFile}
use fa_maf_sis_op.Fat.File.Append.{FirstFree}
use fa_maf_sis_op.Fat.Filename.{
  filename_from_path, build_filename, filename_parts, last_dot, memcpy, at_most, filename_len,
  len_from, dotted,
}
use fa_maf_sis_op.Fat.Table.Chain.{Chain}
use fa_maf_sis_op.Fat.Sample.{volume, volume-IsFat32, memory, bytes, new_year}

abbrev two_letters : List ℕ
two_letters = codes "AB      "

abbrev text_file : List ℕ
text_file = codes "TXT"

has_parts : filename_from_path (codes "AB.TXT") ≡ some (two_letters, text_file)
unfolding filename_from_path filename_parts last_dot memcpy at_most
has_parts = refl

has_name : build_filename two_letters text_file ≡ some (codes "AB.TXT")
unfolding build_filename filename_len len_from dotted
has_name = refl

fat_file_init_lem_example :
    (f : ℕ) × (fat_map : List ℕ) × (disk' : ℕ → ℕ) × (file : FatFile) × (fat_file_init memory
        new_year 0
        (λ path. path)
        volume
        bytes
        false
        (codes "AB.TXT")
      ≡ some (some file, record volume { fat_map = fat_map }, disk'))
    × FirstFree volume f
    × (file.start_cluster ≡ f)
    × (file_start_cluster file.dentry ≡ f)
    × (file.name ≡ codes "AB.TXT")
    × (file.filepath ≡ codes "AB.TXT")
    × (file.dentry.file_size ≡ 0)
    × Chain (record volume { fat_map = fat_map }) f []
    × ((c : ℕ) (ds : List ℕ) → Chain volume c ds → Chain (record volume { fat_map = fat_map }) c ds)
fat_file_init_lem_example =
    fat_file_init_lem memory new_year 0 (λ path. path) volume bytes (codes "AB.TXT")
      (codes "AB.TXT") two_letters text_file 5 volume-IsFat32 (omega arith) (omega arith)
      (omega arith) (omega arith) refl (λ disk word offset. refl) has_parts has_name
