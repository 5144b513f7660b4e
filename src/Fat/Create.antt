-- ===== src/Fat/Create.antt =====
-- lab03/sistop-famaf-so25lab3g34/fat_file.c: how files are made. A file that is given up is `none`;
-- `basename`, `gmtime_r` and the time are parameters, as for its entry. The entry of a file is
-- that of zeros until it is set.
pub mod Correct
mod Tests
use fa_maf_sis_op.Prelude.{
  ℕ, ◌+◌, ◌&&◌, Bool, true, false, not, Option, none, some, List, [], ◌==◌, if◌then◌else◌, ltb,
  replicate, Text,
}
use fa_maf_sis_op.Prelude.Int.{ℤ, pos, negsuc, eq_ℤ}
use fa_maf_sis_op.Fat.Memory.{◌>>=◌}
use fa_maf_sis_op.Fat.Dates.{Tm}
use fa_maf_sis_op.Fat.Disk.{Reply, DiskApi, device, returned}
use fa_maf_sis_op.Fat.Entry.{
  DirEntry, zero_entry, entry_of_bytes, file_start_cluster, fat_file_init_direntry,
  is_end_of_directory, ignore_dentry,
}
use fa_maf_sis_op.Fat.FatFile.{FatFile}
use fa_maf_sis_op.Fat.Filename.{build_filename, filepath_from_name}
use fa_maf_sis_op.Fat.Table.{
  FatTable, end_of_chain_max, bytes_per_cluster, cluster_offset, get_next_free_cluster,
  is_cluster_used, set_next_cluster,
}

unfoldable pub fat_file_init_empty : (filepath : Text) → FatFile
fat_file_init_empty filepath = record {
  dentry = zero_entry;
  name = [];
  filepath = filepath;
  start_cluster = 0;
  nentries = 0;
  pos_in_parent = 0;
  num_times_opened = 0;
  children_read = false;
}

unfoldable pub fat_file_init_orphan_dir :
    (ℕ → Tm)
    → (now : ℕ) → (basename : Text → Text) → (name : Text) → (start_cluster : ℕ) → Option FatFile
fat_file_init_orphan_dir gmtime now basename name start_cluster = do
  orphan_entry ← fat_file_init_direntry gmtime now basename true name start_cluster
  built ← build_filename orphan_entry.base_name orphan_entry.extension
  some (record (fat_file_init_empty name) {
    dentry = orphan_entry;
    name = built;
    start_cluster = start_cluster;
  })

-- The entry of a child and its place in the parent, whose path its name is put behind.
unfoldable pub init_file_from_dentry : DirEntry → (parent : FatFile) → Option FatFile
init_file_from_dentry dentry parent = do
  name ← build_filename dentry.base_name dentry.extension
  filepath ← filepath_from_name parent.filepath name
  some (record (fat_file_init_empty filepath) {
    dentry = dentry;
    name = name;
    start_cluster = file_start_cluster dentry;
    pos_in_parent = parent.nentries;
  })

module _ (api : DiskApi) where
  -- Zeros over a cluster; 0, or -1 if not all of them were written.
  unfoldable pub clear_cluster : FatTable → api.Disk → (cluster : ℕ) → ℤ × api.Disk
  clear_cluster table disk cluster =
      let (reply, disk) =
        api.pwrite disk (replicate (bytes_per_cluster table) 0) (cluster_offset table cluster) in
      (
        if not (eq_ℤ (returned reply) (pos (bytes_per_cluster table))) then negsuc 0 else pos 0,
        disk,
      )

  -- The end of `fat_file_init`: the cluster of a directory is cleared.
  unfoldable pub cleared_file :
      (is_dir : Bool) → FatFile → FatTable → api.Disk → Option FatFile × FatTable × api.Disk
  cleared_file is_dir file table disk =
      let (error, after) = clear_cluster table disk file.start_cluster in
      if is_dir
      then (if not (eq_ℤ error (pos 0)) then none else some file, table, after)
      else (some file, table, disk)

  -- From the first free cluster on, which is not used.
  unfoldable pub init_at :
      (ℕ → Tm)
      → (now : ℕ) → (basename : Text → Text) → FatTable
      → api.Disk
      → (is_dir : Bool) → (filepath : Text) → (start_cluster : ℕ)
      → Option (Option FatFile × FatTable × api.Disk)
  init_at gmtime now basename table disk is_dir filepath start_cluster = do
    dentry ← fat_file_init_direntry gmtime now basename is_dir filepath start_cluster
    name ← build_filename dentry.base_name dentry.extension
    (error, table, disk) ← set_next_cluster (device api) table disk start_cluster end_of_chain_max
    (if not (eq_ℤ error (pos 0))
        then some (none, table, disk)
        else some (
            cleared_file is_dir
              (record (fat_file_init_empty filepath) {
                dentry = dentry;
                name = name;
                start_cluster = file_start_cluster dentry;
              })
              table disk))

  unfoldable pub fat_file_init :
      (ℕ → Tm)
      → (now : ℕ) → (basename : Text → Text) → FatTable
      → api.Disk
      → (is_dir : Bool) → (filepath : Text) → Option (Option FatFile × FatTable × api.Disk)
  fat_file_init gmtime now basename table disk is_dir filepath = do
    start_cluster ← get_next_free_cluster table
    used ← is_cluster_used table start_cluster
    (if used
        then some (none, table, disk)
        else init_at gmtime now basename table disk is_dir filepath start_cluster)
