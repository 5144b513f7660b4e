-- ===== src/Fat/Read.antt =====
-- lab03/sistop-famaf-so25lab3g34/fat_file.c: `fat_file_pread`. The bytes in the buffer are those up to
-- the pointer `buf` at the end; what is left in `errno` is left out.
pub mod Contents
pub mod Loop
pub mod Correct
pub mod Slices
mod Tests
use fa_maf_sis_op.Prelude.{
  ℕ, zero, suc, ◌+◌, ◌-◌, Bool, true, false, not, Option, none, some, List, [], ◌∷◌, ◌++◌, ◌==◌,
  if◌then◌else◌, ltb, length,
}
use fa_maf_sis_op.Fat.Memory.{◌>>=◌}
use fa_maf_sis_op.Fat.Dates.{Tm}
use fa_maf_sis_op.Fat.Disk.{DiskApi, full_pread}
use fa_maf_sis_op.Fat.Entry.{fill_dentry_time_now}
use fa_maf_sis_op.Fat.Table.{
  FatTable, get_next_cluster, get_cluster_remaining_bytes, mask_offset, cluster_offset,
  seek_cluster, is_valid,
}
use fa_maf_sis_op.Fat.FatFile.{FatFile, write_dir_entry}

-- The macro of fat_util.h.
unfoldable pub min : ℕ → ℕ → ℕ
min a b = if ltb a b then a else b

module _ (api : DiskApi) where
  -- What follows a `full_pread` of `n` bytes; `loop` is the next round.
  unfoldable pub after_cluster :
      FatTable
      → (ℕ → List ℕ → api.Disk → Option (List ℕ × ℕ × api.Disk))
      → (cluster n bytes_remaining : ℕ) → List ℕ
      → List ℕ × api.Disk
      → Option (List ℕ × ℕ × api.Disk)
  after_cluster table loop cluster n bytes_remaining buf (bytes, disk) =
      if not (length bytes == n)
      then some (buf, bytes_remaining, disk)
      else (get_next_cluster table cluster >>= λ next. loop next (buf ++ bytes) disk)

  -- The `while` of `fat_file_pread`, with the bytes read, those that remain, and the disk.
  unfoldable pub read_clusters :
      ℕ
      → FatTable
      → api.Disk
      → (cluster : ℕ) → List ℕ
      → (bytes_remaining offset : ℕ) → Option (List ℕ × ℕ × api.Disk)
  read_clusters zero table disk cluster buf bytes_remaining offset = none
  read_clusters (suc fuel) table disk cluster buf bytes_remaining offset =
      let n = get_cluster_remaining_bytes table bytes_remaining offset in
      let round =
        (full_pread api (suc fuel) disk n (cluster_offset table cluster + mask_offset offset table)
          >>= after_cluster table
              (λ next buf disk.
                read_clusters fuel table disk next buf (bytes_remaining - n) (offset + n))
              cluster n bytes_remaining buf) in
      if ltb 0 bytes_remaining
      then (if not (is_valid cluster) then some (buf, bytes_remaining, disk) else round)
      else some (buf, bytes_remaining, disk)

  -- The end of `fat_file_pread`: the date of access is written.
  unfoldable pub finish_read :
      (ℕ → Tm)
      → (now : ℕ) → FatTable
      → (file parent : FatFile) → (size : ℕ) → List ℕ × ℕ × api.Disk
      → List ℕ × ℕ × FatFile × api.Disk
  finish_read gmtime now table file parent size (buf, bytes_remaining, disk) =
      let file : FatFile = record file {
        dentry = (fill_dentry_time_now gmtime now file.dentry false false).1;
      } in
      let (error, disk) = write_dir_entry api table disk parent file in
      (buf, size - bytes_remaining, file, disk)

  -- From the search of the cluster on, with the size clipped to the file's.
  unfoldable pub read_from :
      ℕ
      → (ℕ → Tm)
      → (now : ℕ) → FatTable
      → api.Disk
      → (file parent : FatFile) → (size offset : ℕ) → (cluster : ℕ)
      → Option (List ℕ × ℕ × FatFile × api.Disk)
  read_from fuel gmtime now table disk file parent size offset cluster =
      if cluster == 0
      then some ([], 0, file, disk)
      else (read_clusters fuel table disk cluster [] size offset >>= λ r.
          some (finish_read gmtime now table file parent size r))

  -- The bytes, the result, the file and the disk.
  unfoldable pub fat_file_pread :
      ℕ
      → (ℕ → Tm)
      → (now : ℕ) → FatTable
      → api.Disk
      → (file parent : FatFile) → (size offset : ℕ) → Option (List ℕ × ℕ × FatFile × api.Disk)
  fat_file_pread fuel gmtime now table disk file parent size offset =
      let clipped = min size (file.dentry.file_size - offset) in
      if ltb file.dentry.file_size offset
      then some ([], 0, file, disk)
      else if clipped == 0
      then some ([], 0, file, disk)
      else (seek_cluster table file.start_cluster offset
          >>= read_from fuel gmtime now table disk file parent clipped offset)
