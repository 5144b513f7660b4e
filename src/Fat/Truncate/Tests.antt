-- ===== src/Fat/Truncate/Tests.antt =====
-- The file of a small volume, cut and removed.
use fa_maf_sis_op.Prelude.{ℕ, ◌<◌, ◌≡◌, refl, some, List, [], ◌∷◌, arith}
use fa_maf_sis_op.Fat.Disk.{device}
use fa_maf_sis_op.Fat.Table.{bytes_per_cluster, get_clusters_for_size}
use fa_maf_sis_op.Fat.Truncate.{max, free_all, fat_file_truncate}
use fa_maf_sis_op.Fat.Truncate.Freed.{Freed, free_all-Freed}
use fa_maf_sis_op.Fat.Truncate.Correct.{Truncated, fat_file_truncate_lem}
use fa_maf_sis_op.Fat.File.Append.{Writes}
use fa_maf_sis_op.Fat.Sample.{
  volume, volume-IsFat32, sample-Chain, two_valid, memory, bytes, file, directory, new_year,
  file_room,
}

memory_takes : Writes (device memory)
memory_takes disk word offset = refl

free_all-Freed_example :
    (fat_map : List ℕ) × (disk' : ℕ → ℕ) × (free_all (device memory) 3 volume bytes 2
      ≡ some (record volume { fat_map = fat_map }, disk'))
    × Freed volume.fat_map (2 ∷ 4 ∷ []) fat_map
free_all-Freed_example =
    free_all-Freed (device memory) 3 volume bytes 2 (4 ∷ []) memory_takes volume-IsFat32
      (omega arith) two_valid sample-Chain (omega arith)

fewer_clusters : max 1 (get_clusters_for_size volume 3) < max 1 (get_clusters_for_size volume 7)
unfolding max get_clusters_for_size bytes_per_cluster
fewer_clusters = omega arith

fat_file_truncate_lem_example :
    Truncated memory volume file 3
      (4 ∷ [])
      (fat_file_truncate memory 2 new_year 0 0 volume bytes file directory 3)
fat_file_truncate_lem_example =
    fat_file_truncate_lem memory memory_takes 2 new_year 0 volume bytes file directory 3 (4 ∷ [])
      volume-IsFat32 (omega arith) two_valid sample-Chain file_room (omega arith) (omega arith)
      (omega arith) fewer_clusters (omega arith)
