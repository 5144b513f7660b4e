-- ===== src/Fat/Write/Tests.antt =====
-- A write over the end of a cluster of a small volume.
use fa_maf_sis_op.Prelude.{ℕ, ◌≡◌, refl, some, List, [], ◌∷◌, arith}
use fa_maf_sis_op.Fat.Entry.{DirEntry}
use fa_maf_sis_op.Fat.FatFile.{FatFile}
use fa_maf_sis_op.Fat.Read.{fat_file_pread}
use fa_maf_sis_op.Fat.Write.{fat_file_pwrite}
use fa_maf_sis_op.Fat.Write.Correct.{Wrote, fat_file_pwrite_lem}
use fa_maf_sis_op.Fat.Write.ReadBack.{fat_file_pread-fat_file_pwrite}
use fa_maf_sis_op.Fat.Sample.{
  large, large-IsFat32, large-Chain, large_two_valid, large_room, memory, memory-Reads,
  memory-Writes, bytes, file, directory, new_year,
}

abbrev nines : List ℕ
nines = 9 ∷ 9 ∷ 9 ∷ 9 ∷ 9 ∷ 9 ∷ 9 ∷ 9 ∷ 9 ∷ 9 ∷ []

-- A file of thirty bytes.
abbrev thirty : FatFile
thirty = record file { dentry = record file.dentry { file_size = 30 } }

fat_file_pwrite_lem_example :
    Wrote memory large bytes thirty directory nines 30
      (4 ∷ [])
      (fat_file_pwrite memory 11 new_year 0 large bytes thirty directory nines 30)
fat_file_pwrite_lem_example =
    fat_file_pwrite_lem memory memory-Writes 11 new_year 0 large bytes thirty directory nines 30
      (4 ∷ []) large-IsFat32 large_two_valid large-Chain (omega arith) (omega arith)
      (omega (arith, large_room)) (omega arith) (omega arith) (refl, refl) (omega arith)
      (omega arith) (λ e. omega (arith, e), (λ e. omega (arith, e), tt))

fat_file_pread-fat_file_pwrite_example :
    (e e' : DirEntry) × (after final : ℕ → ℕ) × (fat_file_pwrite memory 11 new_year 0 large bytes
        thirty directory nines 30
      ≡ some (10, large, record file { dentry = e }, after))
    × (fat_file_pread memory 11 new_year 5 large after (record file { dentry = e }) directory 10 30
        ≡ some (nines, 10, record file { dentry = e' }, final))
fat_file_pread-fat_file_pwrite_example =
    fat_file_pread-fat_file_pwrite memory memory-Reads memory-Writes 11 new_year 0 5 large bytes
      thirty directory nines 30 (4 ∷ []) large-IsFat32 large_two_valid large-Chain
      (omega (arith, large_room)) (omega arith) (omega arith) (omega (arith, large_room))
      (omega arith) (omega arith) (refl, refl) (omega arith) (omega arith)
      (λ e. omega (arith, e), (λ e. omega (arith, e), tt))
