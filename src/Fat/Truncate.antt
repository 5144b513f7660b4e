-- ===== src/Fat/Truncate.antt =====
-- lab03/sistop-famaf-so25lab3g34: `fat_file_truncate` of fat_file.c, and the loop of fat_fuse_ops.c
-- (`fat_fuse_unlink`, `fat_fuse_rmdir`) that frees the clusters of a file.
pub mod Freed
pub mod Cut
pub mod Correct
mod Tests
use fa_maf_sis_op.Prelude.{
  ℕ, zero, suc, Bool, true, false, not, ◌||◌, Option, none, some, List, [], ◌∷◌, ◌==◌,
  if◌then◌else◌, ltb, leb,
}
use fa_maf_sis_op.Prelude.Int.{ℤ, pos, eq_ℤ}
use fa_maf_sis_op.Fat.Memory.{◌>>=◌}
use fa_maf_sis_op.Fat.Dates.{Tm}
use fa_maf_sis_op.Fat.Disk.{DiskApi, device}
use fa_maf_sis_op.Fat.Entry.{fill_dentry_time_now}
use fa_maf_sis_op.Fat.Table.{
  FatTable, Device, end_of_chain_max, cluster_free, get_next_cluster, get_clusters_for_size,
  seek_cluster, is_valid, set_next_cluster,
}
use fa_maf_sis_op.Fat.FatFile.{FatFile, write_dir_entry}

-- The macro of fat_util.h.
unfoldable pub max : ℕ → ℕ → ℕ
max a b = if ltb b a then a else b

module _ (device : Device) where
  -- What follows a write to the table: the loop stops at an error.
  unfoldable pub unless_error :
      (FatTable → device.Disk → Option (ℤ × FatTable × device.Disk))
      → ℤ × FatTable × device.Disk
      → Option (ℤ × FatTable × device.Disk)
  unless_error go_on (error, table, disk) =
      if not (eq_ℤ error (pos 0)) then some (error, table, disk) else go_on table disk

  -- The `while` of `fat_file_truncate`, with the error that ended it.
  unfoldable pub free_on :
      ℕ → FatTable → device.Disk → (last_cluster : ℕ) → Option (ℤ × FatTable × device.Disk)
  free_on zero table disk last_cluster = none
  free_on (suc fuel) table disk last_cluster =
      let round = (do
        next_cluster ← get_next_cluster table last_cluster
        written ← set_next_cluster device table disk last_cluster cluster_free
        unless_error (λ table disk. free_on fuel table disk next_cluster) written) in
      if is_valid last_cluster then round else some (pos 0, table, disk)

  -- The `while` of `fat_fuse_unlink`, which looks at no error.
  unfoldable pub free_all :
      ℕ → FatTable → device.Disk → (cluster : ℕ) → Option (FatTable × device.Disk)
  free_all zero table disk cluster = none
  free_all (suc fuel) table disk cluster =
      let round = (do
        next_cluster ← get_next_cluster table cluster
        (error, table, disk) ← set_next_cluster device table disk cluster cluster_free
        free_all fuel table disk next_cluster) in
      if is_valid cluster then round else some (table, disk)

  -- The chain behind `last_cluster` is cut off and freed.
  unfoldable pub cut_behind :
      ℕ → FatTable → device.Disk → (last_cluster : ℕ) → Option (ℤ × FatTable × device.Disk)
  cut_behind fuel table disk last_cluster = do
    next_cluster ← get_next_cluster table last_cluster
    written ← set_next_cluster device table disk last_cluster end_of_chain_max
    unless_error (λ table disk. free_on fuel table disk next_cluster) written

module _ (api : DiskApi) where
  -- The new size in the entry, if there was no error.
  unfoldable pub finish_truncate :
      (ℕ → Tm)
      → (now : ℕ) → (file parent : FatFile) → (offset : ℕ) → ℤ × FatTable × api.Disk
      → FatTable × FatFile × api.Disk
  finish_truncate gmtime now file parent offset (error, table, disk) =
      let sized : FatFile = record file { dentry = record file.dentry { file_size = offset } } in
      let dated : FatFile = record sized {
        dentry = (fill_dentry_time_now gmtime now sized.dentry false true).1;
      } in
      let (error', disk') = write_dir_entry api table disk parent dated in
      if not (eq_ℤ error (pos 0)) then (table, file, disk) else (table, dated, disk')

  -- `errno` is what the caller left in it; the search never sets it.
  unfoldable pub fat_file_truncate :
      ℕ
      → (ℕ → Tm)
      → (now errno : ℕ) → FatTable
      → api.Disk
      → (file parent : FatFile) → (offset : ℕ) → Option (FatTable × FatFile × api.Disk)
  fat_file_truncate fuel gmtime now errno table disk file parent offset =
      let current_num_clusters = max 1 (get_clusters_for_size table file.dentry.file_size) in
      let new_num_clusters = max 1 (get_clusters_for_size table offset) in
      let cut = (do
        last_cluster ← seek_cluster table file.start_cluster offset
        (if not (errno == 0)
            then some (table, file, disk)
            else (cut_behind (device api) fuel table disk last_cluster >>= λ r.
                some (finish_truncate gmtime now file parent offset r)))) in
      if ltb file.dentry.file_size offset || leb current_num_clusters new_num_clusters
      then some (table, file, disk)
      else cut
