-- ===== src/Fat/Entry.antt =====
-- lab03/sistop-famaf-so25lab3g34/fat_file.h and fat_file.c: directory entries, on disk and in memory.
-- `gmtime_r` and the time are parameters, and so is `basename` of the C library. Memory that `calloc`
-- cannot give is left out.
pub mod Bytes
use fa_maf_sis_op.Prelude.{
  ℕ, zero, suc, ◌+◌, ◌*◌, ◌/◌, ◌%◌, ◌^◌, Bool, true, false, not, ◌&&◌, ◌||◌, Option, none, some,
  List, [], ◌∷◌, ◌++◌, ◌==◌, if◌then◌else◌, take, drop, get_or, Text,
}
use fa_maf_sis_op.Prelude.Int.{ℤ, pos, negsuc}
use Prim.Native.Nat.{bit_and, bit_or}
use fa_maf_sis_op.Fat.Memory.{◌>>=◌}
use fa_maf_sis_op.Fat.Dates.{Tm, fill_time}
use fa_maf_sis_op.Fat.Disk.{le32}
use fa_maf_sis_op.Fat.Filename.{filename_from_path, file_basename_valid, file_extension_valid}

-- `struct fat_dir_entry_s`; the union holds the high half of the start cluster.
pub record DirEntry : Type 0 where
  pub base_name : List ℕ
  pub extension : List ℕ
  pub attribs : ℕ
  pub reserved : ℕ
  pub create_time_fine_res : ℕ
  pub create_time : ℕ
  pub create_date : ℕ
  pub last_access_date : ℕ
  pub fat32_start_cluster_high : ℕ
  pub last_modified_time : ℕ
  pub last_modified_date : ℕ
  pub start_cluster_low : ℕ
  pub file_size : ℕ

abbrev pub attribute_volume : ℕ
attribute_volume = 0x08

abbrev pub attribute_directory : ℕ
attribute_directory = 0x10

abbrev pub attribute_archive : ℕ
attribute_archive = 0x20

-- `sizeof(struct fat_dir_entry_s)`
abbrev pub entry_size : ℕ
entry_size = 32

abbrev pub le16 : ℕ → List ℕ
le16 n = n % 256 ∷ n / 256 % 256 ∷ []

-- The fields behind the name, and the whole structure, as its bytes lie on the disk.
unfoldable pub tail_bytes : DirEntry → List ℕ
tail_bytes e =
    e.attribs
    ∷ e.reserved
    ∷ e.create_time_fine_res
    ∷ (le16 e.create_time
        ++ (le16 e.create_date
            ++ (le16 e.last_access_date
                ++ (le16 e.fat32_start_cluster_high
                    ++ (le16 e.last_modified_time
                        ++ (le16 e.last_modified_date
                            ++ (le16 e.start_cluster_low ++ le32 e.file_size)))))))

unfoldable pub entry_bytes : DirEntry → List ℕ
entry_bytes e = e.base_name ++ (e.extension ++ tail_bytes e)

abbrev pub u16_at : List ℕ → ℕ → ℕ
u16_at bytes i = get_or bytes i 0 + 256 * get_or bytes (suc i) 0

-- The structure that 32 bytes of a buffer are read as.
unfoldable pub entry_of_bytes : List ℕ → DirEntry
entry_of_bytes bytes =
    let rest = drop 3 (drop 8 bytes) in
    record {
      base_name = take 8 bytes;
      extension = take 3 (drop 8 bytes);
      attribs = get_or rest 0 0;
      reserved = get_or rest 1 0;
      create_time_fine_res = get_or rest 2 0;
      create_time = u16_at rest 3;
      create_date = u16_at rest 5;
      last_access_date = u16_at rest 7;
      fat32_start_cluster_high = u16_at rest 9;
      last_modified_time = u16_at rest 11;
      last_modified_date = u16_at rest 13;
      start_cluster_low = u16_at rest 15;
      file_size = u16_at rest 17 + 65536 * u16_at rest 19;
    }

-- The dates that a change of the content sets, and those of a mere access.
unfoldable pub fill_modified_dates : ℕ × Option ℕ → DirEntry → DirEntry
fill_modified_dates (entry_date, none) e = record e {
  last_modified_date = entry_date;
  last_access_date = entry_date;
}
fill_modified_dates (entry_date, some entry_time) e = record e {
  last_modified_date = entry_date;
  last_modified_time = entry_time;
  last_access_date = entry_date;
}

unfoldable pub fill_created_dates : Bool → DirEntry → DirEntry
fill_created_dates fill_create e =
    if fill_create
    then record e { create_date = e.last_modified_date; create_time = e.last_modified_time }
    else e

-- `fill_dentry_time_now`, at time `now`; it succeeds if `fill_create` comes with `fill_modified`.
unfoldable pub fill_dentry_time_now :
    (ℕ → Tm) → (now : ℕ) → DirEntry → (fill_create fill_modified : Bool) → ℤ × DirEntry
fill_dentry_time_now gmtime now e fill_create fill_modified =
    if not (not fill_create || fill_modified) then (negsuc 0, e) else (
      pos 0,
      fill_created_dates fill_create (
          if fill_modified
          then fill_modified_dates (fill_time gmtime true now) e
          else record e { last_access_date = (fill_time gmtime false now).0 }),
    )

unfoldable pub set_first_cluster : DirEntry → (cluster : ℕ) → DirEntry
set_first_cluster e cluster = record e {
  start_cluster_low = cluster % 65536;
  fat32_start_cluster_high = cluster / 65536 % 65536;
}

unfoldable pub file_start_cluster : DirEntry → ℕ
file_start_cluster e = bit_or e.start_cluster_low (e.fat32_start_cluster_high * 2 ^ 16)

-- What `calloc` gives.
abbrev pub zero_entry : DirEntry
zero_entry = record {
  base_name = [];
  extension = [];
  attribs = 0;
  reserved = 0;
  create_time_fine_res = 0;
  create_time = 0;
  create_date = 0;
  last_access_date = 0;
  fat32_start_cluster_high = 0;
  last_modified_time = 0;
  last_modified_date = 0;
  start_cluster_low = 0;
  file_size = 0;
}

unfoldable pub fat_file_init_direntry :
    (ℕ → Tm)
    → (now : ℕ) → (basename : Text → Text) → (is_dir : Bool) → (filepath : Text)
    → (start_cluster : ℕ) → Option DirEntry
fat_file_init_direntry gmtime now basename is_dir filepath start_cluster = do
  (base, ext) ← filename_from_path (basename filepath)
  let named = record zero_entry {
    base_name = base;
    extension = ext;
    attribs = if is_dir then attribute_directory else attribute_archive;
  } in
      some (set_first_cluster (fill_dentry_time_now gmtime now named true true).1 start_cluster)

unfoldable pub is_end_of_directory : DirEntry → Bool
is_end_of_directory e = get_or e.base_name 0 0 == 0

-- `none` is a read behind the base name, which has eight bytes.
unfoldable pub ignore_dentry : DirEntry → Option Bool
ignore_dentry e = do
  base_valid ← file_basename_valid e.base_name
  some (
      not (bit_and e.attribs attribute_volume == 0)
      || not base_valid
      || not (file_extension_valid e.extension))
