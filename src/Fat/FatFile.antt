-- ===== src/Fat/FatFile.antt =====
-- lab03/sistop-famaf-so25lab3g34/fat_file.h and fat_file.c: files in memory and their entries in the
-- parent's cluster. The table that all files share is an argument; every function of the code that
-- makes a file gives it an entry, so that `dentry` is never `NULL`.
pub mod Entries
mod Tests
use fa_maf_sis_op.Prelude.{
  ℕ, zero, suc, ◌+◌, ◌-◌, ◌*◌, Bool, true, false, not, Option, none, some, List, [], ◌∷◌, ◌==◌,
  if◌then◌else◌, ltb, leb, length, replicate, Text,
}
use fa_maf_sis_op.Prelude.Int.{ℤ, pos, negsuc}
use Prim.Native.Nat.{bit_and}
use fa_maf_sis_op.Fat.Memory.{◌>>=◌, u32}
use fa_maf_sis_op.Fat.Dates.{Tm, fill_time}
use fa_maf_sis_op.Fat.Disk.{Reply, done, interrupted, failed, DiskApi, returned}
use fa_maf_sis_op.Fat.Entry.{DirEntry, entry_bytes, entry_size, attribute_directory}
use fa_maf_sis_op.Fat.Table.{FatTable, bytes_per_cluster, cluster_offset}

-- `struct fat_file_s`; `nentries` is the union of the fields for directories and for files.
pub record FatFile : Type 0 where
  pub dentry : DirEntry
  pub name : Text
  pub filepath : Text
  pub start_cluster : ℕ
  pub nentries : ℕ
  pub pos_in_parent : ℕ
  pub num_times_opened : ℕ
  pub children_read : Bool

unfoldable pub fat_file_is_directory : FatFile → Bool
fat_file_is_directory file = not (bit_and file.dentry.attribs attribute_directory == 0)

-- The counter has 31 bits.
unfoldable pub fat_file_inc_num_times_opened : Option FatFile → Option FatFile
fat_file_inc_num_times_opened none = none
fat_file_inc_num_times_opened (some file) = some (record file {
  num_times_opened =
      if file.num_times_opened + 1 == 0x80000000 then 0 else file.num_times_opened + 1;
})

unfoldable pub fat_file_dec_num_times_opened : Option FatFile → Option FatFile
fat_file_dec_num_times_opened none = none
fat_file_dec_num_times_opened (some file) = some (record file {
  num_times_opened = if file.num_times_opened == 0 then 0x7FFFFFFF else file.num_times_opened - 1;
})

-- What a `ssize_t` is in a comparison with a `size_t`.
abbrev pub to_size_t : ℤ → ℕ
to_size_t (pos n) = n
to_size_t (negsuc n) = 0xFFFFFFFFFFFFFFFF - n

module _ (api : DiskApi) where
  -- The test of what `pwrite` returned for an entry.
  unfoldable pub entry_written : Reply ℕ × api.Disk → ℤ × api.Disk
  entry_written (reply, disk) =
      (if ltb (to_size_t (returned reply)) entry_size then negsuc 0 else pos 0, disk)

  unfoldable pub write_dir_entry : FatTable → api.Disk → (parent file : FatFile) → ℤ × api.Disk
  write_dir_entry table disk parent file =
      let parent_offset = cluster_offset table parent.start_cluster in
      let written = entry_written (
        api.pwrite disk (entry_bytes file.dentry)
          (file.pos_in_parent * entry_size + parent_offset)) in
      if leb (bytes_per_cluster table) (file.pos_in_parent * entry_size)
      then (negsuc 0, disk)
      else written

  -- The parent and the child afterwards.
  unfoldable pub fat_file_dentry_add_child :
      FatTable → api.Disk → (parent child : FatFile) → FatFile × FatFile × api.Disk
  fat_file_dentry_add_child table disk parent child =
      let child = record child { pos_in_parent = parent.nentries } in
      let (error, disk) = write_dir_entry table disk parent child in
      (record parent { nentries = u32 (parent.nentries + 1) }, child, disk)

  -- `fat_utime`; the buffer holds the times of access and of modification.
  unfoldable pub fat_utime :
      (ℕ → Tm)
      → FatTable
      → api.Disk
      → (file parent : FatFile) → (actime modtime : ℕ) → FatFile × api.Disk
  fat_utime gmtime table disk file parent actime modtime =
      let access = (fill_time gmtime true actime).0 in
      let modified = fill_time gmtime true modtime in
      let dated : DirEntry = record file.dentry {
        last_access_date = access;
        last_modified_date = modified.0;
      } in
      let timed : DirEntry = elim modified.1 [
        | none ↦ dated
        | some t ↦ record dated { last_modified_time = t }
      ] in
      let file : FatFile = record file { dentry = timed } in
      let (error, disk) = write_dir_entry table disk parent file in (file, disk)
