-- ===== src/Fat/Write.antt =====
-- lab03/sistop-famaf-so25lab3g34/fat_file.c: `fat_file_pwrite`. The buffer is the list of its bytes,
-- less those behind the pointer `buf`; what is left in `errno` is left out.
pub mod Overwrite
pub mod Patches
pub mod Clusters
pub mod Loop
pub mod First
pub mod EntryKept
pub mod Correct
pub mod ReadBack
mod Tests
use fa_maf_sis_op.Prelude.{
  ℕ, zero, suc, ◌+◌, ◌-◌, ◌%◌, Bool, true, false, not, ◌&&◌, ◌||◌, Option, none, some, List, ◌==◌,
  if◌then◌else◌, ltb, length, take, drop,
}
use fa_maf_sis_op.Fat.Memory.{◌>>=◌, u32}
use fa_maf_sis_op.Fat.Dates.{Tm}
use fa_maf_sis_op.Fat.Disk.{DiskApi, device, full_pwrite}
use fa_maf_sis_op.Fat.Entry.{fill_dentry_time_now}
use fa_maf_sis_op.Fat.Table.{
  FatTable, bytes_per_cluster, get_cluster_remaining_bytes, mask_offset, cluster_offset,
  seek_cluster, is_valid,
}
use fa_maf_sis_op.Fat.File.{next_or_new_cluster}
use fa_maf_sis_op.Fat.FatFile.{FatFile, write_dir_entry}

module _ (api : DiskApi) where
  -- The cluster for the next round, and that round unless there is no such cluster.
  unfoldable pub on_next :
      (FatTable → api.Disk → (cluster : ℕ) → Option (ℕ × FatTable × api.Disk))
      → (bytes_remaining : ℕ) → ℕ × FatTable × api.Disk
      → Option (ℕ × FatTable × api.Disk)
  on_next loop bytes_remaining (cluster, table, disk) =
      if cluster == 0 || not (is_valid cluster)
      then some (bytes_remaining, table, disk)
      else loop table disk cluster

  -- What follows a `full_pwrite` of `n` bytes; `loop` is the next round.
  unfoldable pub after_write_cluster :
      (FatTable → api.Disk → (cluster : ℕ) → Option (ℕ × FatTable × api.Disk))
      → FatTable
      → (cluster n bytes_remaining : ℕ) → ℕ × api.Disk
      → Option (ℕ × FatTable × api.Disk)
  after_write_cluster loop table cluster n bytes_remaining (written, disk) =
      let next =
        (next_or_new_cluster (device api) table disk cluster
          >>= on_next loop (bytes_remaining - written)) in
      if not (written == n)
      then some (bytes_remaining - written, table, disk)
      else if ltb 0 (bytes_remaining - written)
      then next
      else loop table disk cluster

  -- The `while` of `fat_file_pwrite`, with the number of bytes that remain; `none` also when the fuel
  -- runs out.
  unfoldable pub write_clusters :
      ℕ
      → FatTable
      → api.Disk
      → (cluster : ℕ) → (buf : List ℕ) → (offset : ℕ) → Option (ℕ × FatTable × api.Disk)
  write_clusters zero table disk cluster buf offset = none
  write_clusters (suc fuel) table disk cluster buf offset =
      let n = get_cluster_remaining_bytes table (length buf) offset in
      let round =
        (full_pwrite api (suc fuel) disk (take n buf)
            (cluster_offset table cluster + mask_offset offset table)
          >>= after_write_cluster
              (λ table disk cluster.
                write_clusters fuel table disk cluster (drop n buf) (offset + n))
              table cluster n (length buf)) in
      if ltb 0 (length buf) then round else some (0, table, disk)

  -- The end of `fat_file_pwrite`: the size and the dates of the file.
  unfoldable pub finish_write :
      (ℕ → Tm)
      → (now : ℕ) → (file parent : FatFile) → (size offset : ℕ) → ℕ × FatTable × api.Disk
      → ℕ × FatTable × FatFile × api.Disk
  finish_write gmtime now file parent size offset (bytes_remaining, table, disk) =
      let sized : FatFile = record file {
        dentry = record file.dentry {
          file_size =
              if ltb file.dentry.file_size (offset + size - bytes_remaining)
              then u32 (offset + size - bytes_remaining)
              else file.dentry.file_size;
        };
      } in
      let dated : FatFile = record sized {
        dentry = (fill_dentry_time_now gmtime now sized.dentry false true).1;
      } in
      let (error, disk) = write_dir_entry api table disk parent dated in
      (size - bytes_remaining, table, dated, disk)

  -- From the first cluster to write on.
  unfoldable pub write_from :
      ℕ
      → (ℕ → Tm)
      → (now : ℕ) → (file parent : FatFile) → (buf : List ℕ) → (offset : ℕ)
      → ℕ × FatTable × api.Disk
      → Option (ℕ × FatTable × FatFile × api.Disk)
  write_from fuel gmtime now file parent buf offset (cluster, table, disk) =
      if cluster == 0
      then some (0, table, file, disk)
      else (write_clusters fuel table disk cluster buf offset >>= λ r.
          some (finish_write gmtime now file parent (length buf) offset r))

  -- The first cluster to write, which may be a new one.
  unfoldable pub first_cluster :
      FatTable → api.Disk → (file : FatFile) → (offset : ℕ) → Option (ℕ × FatTable × api.Disk)
  first_cluster table disk file offset = do
    cluster ← seek_cluster table file.start_cluster (if offset == 0 then 0 else offset - 1)
    (if (offset % bytes_per_cluster table == 0 && not (cluster == 0)) && not (offset == 0)
        then next_or_new_cluster (device api) table disk cluster
        else some (cluster, table, disk))

  -- The result, the table, the file and the disk.
  unfoldable pub fat_file_pwrite :
      ℕ
      → (ℕ → Tm)
      → (now : ℕ) → FatTable
      → api.Disk
      → (file parent : FatFile) → (buf : List ℕ) → (offset : ℕ)
      → Option (ℕ × FatTable × FatFile × api.Disk)
  fat_file_pwrite fuel gmtime now table disk file parent buf offset =
      if ltb file.dentry.file_size offset
      then some (0, table, file, disk)
      else (first_cluster table disk file offset
          >>= write_from fuel gmtime now file parent buf offset)
