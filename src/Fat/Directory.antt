-- ===== src/Fat/Directory.antt =====
-- lab03/sistop-famaf-so25lab3g34/fat_file.c: `parse_dir_entries_in_cluster` and
-- `fat_file_read_children`. The list of children is GLib's `GList`, and `NULL` the empty one.
pub mod Places
mod Tests
use fa_maf_sis_op.Prelude.{
  ℕ, zero, suc, ◌+◌, ◌/◌, Bool, true, false, not, Option, none, some, List, [], ◌∷◌, ◌++◌, ◌==◌,
  if◌then◌else◌, length, take, drop,
}
use fa_maf_sis_op.Fat.Memory.{◌>>=◌}
use fa_maf_sis_op.Fat.Create.{init_file_from_dentry}
use fa_maf_sis_op.Fat.Disk.{DiskApi, full_pread}
use fa_maf_sis_op.Fat.Entry.{
  DirEntry, entry_size, entry_of_bytes, is_end_of_directory, ignore_dentry,
}
use fa_maf_sis_op.Fat.FatFile.{FatFile}
use fa_maf_sis_op.Fat.Table.{
  FatTable, is_valid_cluster_number, bytes_per_cluster, get_next_cluster, cluster_offset, is_valid,
}

-- The entries in a buffer, as the pointer `disk_dentry_ptr` goes over them.
unfoldable pub entries_in : (count : ℕ) → (buffer : List ℕ) → List DirEntry
entries_in zero buffer = []
entries_in (suc count) buffer =
    entry_of_bytes (take entry_size buffer) ∷ entries_in count (drop entry_size buffer)

-- The `for` of `parse_dir_entries_in_cluster`, with the directory and the list of children.
unfoldable pub parse_entries :
    List DirEntry
    → (dir_entries_processed : ℕ) → (dir : FatFile) → (elems : List FatFile)
    → Option (FatFile × List FatFile)
parse_entries [] processed dir elems = some (dir, elems)
parse_entries (e ∷ es) processed dir elems =
    let dir' : FatFile = record dir { nentries = processed } in
    let loop : List FatFile → Option (FatFile × List FatFile) =
      λ elems. parse_entries es (suc processed) dir' elems in
    let child = (init_file_from_dentry e dir' >>= λ child. loop (elems ++ child ∷ [])) in
    let entry = (ignore_dentry e >>= λ ignored. (if ignored then loop elems else child)) in
    if is_end_of_directory e then some (record dir' { children_read = true }, elems) else entry

unfoldable pub parse_dir_entries_in_cluster :
    FatTable
    → (buffer : List ℕ) → (dir : FatFile) → (elems : List FatFile) → Option (FatFile × List FatFile)
parse_dir_entries_in_cluster table buffer dir elems =
    parse_entries (entries_in (bytes_per_cluster table / entry_size) buffer) 0 dir elems

module _ (api : DiskApi) where
  -- What follows the reading of a cluster; `loop` is the next round.
  unfoldable pub after_directory :
      FatTable
      → (FatFile
          → List FatFile
          → api.Disk
          → (cluster : ℕ) → Option (List FatFile × FatFile × api.Disk))
      → (dir : FatFile) → List FatFile
      → (cluster : ℕ) → List ℕ × api.Disk
      → Option (List FatFile × FatFile × api.Disk)
  after_directory table loop dir elems cluster (buf, disk) =
      let parsed = (do
        (dir, elems) ← parse_dir_entries_in_cluster table buf dir elems
        next ← get_next_cluster table cluster
        loop dir elems disk next) in
      if not (length buf == bytes_per_cluster table) then some ([], dir, disk) else parsed

  -- The `while` of `fat_file_read_children`; `none` also when the fuel runs out.
  unfoldable pub read_directory :
      ℕ
      → FatTable
      → (dir : FatFile) → List FatFile
      → api.Disk
      → (cluster : ℕ) → Option (List FatFile × FatFile × api.Disk)
  read_directory zero table dir elems disk cluster = none
  read_directory (suc fuel) table dir elems disk cluster =
      let round =
        (full_pread api (suc (bytes_per_cluster table)) disk (bytes_per_cluster table)
            (cluster_offset table cluster)
          >>= after_directory table (read_directory fuel table) dir elems cluster) in
      if is_valid cluster then round else some (elems, record dir { children_read = true }, disk)

  -- The children, the directory and the disk.
  unfoldable pub fat_file_read_children :
      ℕ → FatTable → api.Disk → (dir : FatFile) → Option (List FatFile × FatFile × api.Disk)
  fat_file_read_children fuel table disk dir =
      if not (is_valid_cluster_number table dir.start_cluster)
      then some ([], dir, disk)
      else read_directory fuel table dir [] disk dir.start_cluster
