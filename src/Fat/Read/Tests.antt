-- ===== src/Fat/Read/Tests.antt =====
-- A read from the file of a small volume.
use fa_maf_sis_op.Prelude.{ℕ, ◌-◌, ◌≡◌, some, [], ◌∷◌, drop, take, arith}
use fa_maf_sis_op.Fat.Entry.{DirEntry}
use fa_maf_sis_op.Fat.Read.{min, fat_file_pread}
use fa_maf_sis_op.Fat.Read.Contents.{contents}
use fa_maf_sis_op.Fat.Read.Correct.{fat_file_pread_lem}
use fa_maf_sis_op.Fat.Sample.{
  volume, volume-IsFat32, sample-Chain, two_valid, memory, memory-Reads, bytes, file, directory,
  new_year, file_room,
}

-- Three of the bytes from place 2 on, over the end of a cluster.
fat_file_pread_lem_example :
    (e : DirEntry) × (after : ℕ → ℕ) × (fat_file_pread memory 4 new_year 0 volume bytes file
        directory 3 2
      ≡ some (
        take (min 3 (7 - 2)) (drop 2 (contents volume bytes (2 ∷ 4 ∷ []))),
        min 3 (7 - 2),
        record file { dentry = e },
        after,
      ))
fat_file_pread_lem_example =
    fat_file_pread_lem memory memory-Reads 4 new_year 0 volume bytes file directory 3 2 (4 ∷ [])
      volume-IsFat32 two_valid sample-Chain file_room (omega arith) (omega arith) (omega arith)
