-- ===== src/Fat/BigBrother.antt =====
-- lab03/sistop-famaf-so25lab3g34/big_brother.c and big_brother.h: the hidden directory of the access
-- log. Of the volume only its table and the first cluster of the root directory are used. Memory that
-- `calloc` cannot give is left out.
pub mod Orphan
mod Tests
use fa_maf_sis_op.Prelude.{
  ℕ, zero, suc, ◌+◌, Bool, true, false, not, ◌&&◌, Option, none, some, List, [], ◌∷◌, ◌==◌,
  if◌then◌else◌, ltb, length, Text, codes,
}
use fa_maf_sis_op.Prelude.Int.{ℤ}
use fa_maf_sis_op.Fat.Memory.{◌>>=◌}
use fa_maf_sis_op.Fat.Dates.{Tm}
use fa_maf_sis_op.Fat.Disk.{DiskApi, device, full_pread, full_pwrite}
use fa_maf_sis_op.Fat.Entry.{
  DirEntry, entry_size, entry_bytes, entry_of_bytes, fat_file_init_direntry,
}
use fa_maf_sis_op.Fat.Table.{
  FatTable, bad_sector, end_of_chain_min, get_next_cluster, get_next_free_cluster, set_next_cluster,
  cluster_offset, is_bad_sector,
}

-- `strncmp(a, b, n) == 0`
unfoldable pub prefix_eq : ℕ → Text → Text → Bool
prefix_eq zero a b = true
prefix_eq (suc n) [] [] = true
prefix_eq (suc n) [] (d ∷ b) = false
prefix_eq (suc n) (c ∷ a) [] = false
prefix_eq (suc n) (c ∷ a) (d ∷ b) = (c == d) && prefix_eq n a b

-- `MAX_CLUSTERS_TO_SCAN`
abbrev pub max_clusters_to_scan : ℕ
max_clusters_to_scan = 10000

-- The texts of `BB_LOG_FILE` and `BB_DIRNAME`.
abbrev pub bb_log_file : Text
bb_log_file = codes "/bb/fs.log"

abbrev pub bb_dirname : Text
bb_dirname = codes "/bb"

unfoldable pub bb_is_log_file_dentry : DirEntry → Bool
bb_is_log_file_dentry dir_entry =
    prefix_eq 2 (codes "fs") dir_entry.base_name && prefix_eq 3 (codes "log") dir_entry.extension

unfoldable pub bb_is_log_filepath : Text → Bool
bb_is_log_filepath filepath = prefix_eq 8 bb_log_file filepath

unfoldable pub bb_is_log_dirpath : Text → Bool
bb_is_log_dirpath filepath = prefix_eq 15 bb_dirname filepath

-- `EIO`
abbrev pub eio : ℕ
eio = 5

module _ (api : DiskApi) where
  -- The test of the bytes that were read: the result and what is in `errno` afterwards.
  unfoldable pub log_entry : List ℕ × api.Disk → Bool × ℕ × api.Disk
  log_entry (dentry, disk) =
      if not (length dentry == entry_size)
      then (false, eio, disk)
      else (bb_is_log_file_dentry (entry_of_bytes dentry), 0, disk)

  -- `errno` was 0 before the call; the bytes are read in at most one call each.
  unfoldable pub cluster_contains_fs_log :
      FatTable → api.Disk → (cluster : ℕ) → Option (Bool × ℕ × api.Disk)
  cluster_contains_fs_log table disk cluster = do
    read ← full_pread api (suc entry_size) disk entry_size (cluster_offset table cluster)
    some (log_entry read)

  -- What follows the look at a bad cluster; `loop` is the next round.
  unfoldable pub after_look :
      (api.Disk → Option (ℕ × api.Disk))
      → (cluster : ℕ) → Bool × ℕ × api.Disk
      → Option (ℕ × api.Disk)
  after_look loop cluster (found, errno, disk) =
      if found
      then some (cluster, disk)
      else if not (errno == 0)
      then some (max_clusters_to_scan + 1, disk)
      else loop disk

  -- The `while` of `bb_find_orphan_cluster`; `none` also when the fuel runs out.
  unfoldable pub find_orphan : ℕ → FatTable → api.Disk → (cluster : ℕ) → Option (ℕ × api.Disk)
  find_orphan zero table disk cluster = none
  find_orphan (suc fuel) table disk cluster =
      let loop : api.Disk → Option (ℕ × api.Disk) =
        λ disk. find_orphan fuel table disk (cluster + 1) in
      let looked = (cluster_contains_fs_log table disk cluster >>= after_look loop cluster) in
      let round = (do
        fat_entry ← get_next_cluster table cluster
        if is_bad_sector fat_entry then looked else loop disk) in
      if ltb cluster max_clusters_to_scan then round else some (max_clusters_to_scan, disk)

  unfoldable pub bb_find_orphan_cluster :
      ℕ → FatTable → api.Disk → (root_dir_start_cluster : ℕ) → Option (ℕ × api.Disk)
  bb_find_orphan_cluster fuel table disk root_dir_start_cluster =
      find_orphan fuel table disk root_dir_start_cluster

  -- The errors of the two writes to the table are not looked at, nor that of the entry.
  unfoldable pub bb_create_cluster :
      (ℕ → Tm)
      → (now : ℕ) → (basename : Text → Text) → FatTable
      → api.Disk
      → Option (ℕ × FatTable × api.Disk)
  bb_create_cluster gmtime now basename table disk = do
    bb_cluster ← get_next_free_cluster table
    (error, table, disk) ← set_next_cluster (device api) table disk bb_cluster bad_sector
    fslog_cluster ← get_next_free_cluster table
    (error, table, disk) ← set_next_cluster (device api) table disk fslog_cluster end_of_chain_min
    fslog ← fat_file_init_direntry gmtime now basename false bb_log_file fslog_cluster
    (written, disk) ←
        full_pwrite api (suc entry_size) disk (entry_bytes fslog) (cluster_offset table bb_cluster)
    some (bb_cluster, table, disk)
