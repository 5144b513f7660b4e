-- ===== src/Fat/Sample.antt =====
-- A small volume with a file, for the tests of lab03/sistop-famaf-so25lab3g34.
use fa_maf_sis_op.Prelude.{ℕ, ◌*◌, ◌≤◌, ◌≡◌, refl, sym, ap, true, false, [], ◌∷◌, length, arith}
use fa_maf_sis_op.Fat.Dates.{Tm}
use fa_maf_sis_op.Fat.Disk.{done, DiskApi, bytes_at, patched}
use fa_maf_sis_op.Fat.Disk.Transfer.{Reads, Writes, length-bytes_at, bytes_at-same, take-all}
use fa_maf_sis_op.Fat.Entry.{DirEntry}
use fa_maf_sis_op.Fat.Entry.Bytes.{IsEntry}
use fa_maf_sis_op.Fat.FatFile.{FatFile}
use fa_maf_sis_op.Fat.Table.{FatTable, end_of_chain_max, is_valid_cluster_number, bytes_per_cluster}
use fa_maf_sis_op.Fat.Table.Chain.{Chain, IsFat32}

-- Four clusters of four bytes: 2 and 4 are a file, 3 is one, and 5 is free.
abbrev pub volume : FatTable
volume = record {
  fat_map = 0x0FFFFFF8 ∷ 0x0FFFFFFF ∷ 4 ∷ 0x0FFFFFF8 ∷ 0x0FFFFFFF ∷ 0 ∷ [];
  fat_offset = 32;
  num_data_clusters = 4;
  data_start_offset = 64;
  cluster_order = 2;
}

pub volume-IsFat32 : IsFat32 volume
volume-IsFat32 = omega arith

pub sample-Chain : Chain volume 2 (4 ∷ [])
unfolding is_valid_cluster_number
sample-Chain = ((refl, refl), (end_of_chain_max, refl, omega arith, refl))

pub two_valid : is_valid_cluster_number volume 2 ≡ true
unfolding is_valid_cluster_number
two_valid = refl

-- A disk in memory, which never fails.
abbrev pub memory : DiskApi
memory = record {
  Disk = ℕ → ℕ;
  pread = λ disk count offset. (done (bytes_at disk offset count), disk);
  pwrite = λ disk bytes offset. (done (length bytes), patched disk offset bytes);
  content = λ disk. disk;
}

pub memory-Reads : Reads memory
memory-Reads disk count offset h = record {
  bytes = bytes_at disk offset count;
  after = disk;
  reply = refl;
  some_read = omega (arith, length-bytes_at disk offset count);
  at_most_count = omega (arith, length-bytes_at disk offset count);
  are_content = bytes_at-same disk refl (omega (arith, length-bytes_at disk offset count));
  kept = refl;
}

pub memory-Writes : Writes memory
memory-Writes disk bytes offset h = record {
  count = length bytes;
  after = patched disk offset bytes;
  reply = refl;
  some_written = h;
  at_most_length = omega arith;
  is_patched = ap (patched disk offset) (sym (take-all (length bytes) bytes refl));
}

-- The byte at each place is the place.
abbrev pub bytes : ℕ → ℕ
bytes i = i

abbrev pub entry : DirEntry
entry = record {
  base_name = 65 ∷ 32 ∷ 32 ∷ 32 ∷ 32 ∷ 32 ∷ 32 ∷ 32 ∷ [];
  extension = 67 ∷ 32 ∷ 32 ∷ [];
  attribs = 32;
  reserved = 0;
  create_time_fine_res = 0;
  create_time = 10;
  create_date = 33;
  last_access_date = 33;
  fat32_start_cluster_high = 0;
  last_modified_time = 10;
  last_modified_date = 33;
  start_cluster_low = 2;
  file_size = 7;
}

pub entry-IsEntry : IsEntry entry
entry-IsEntry = record {
  base_eight = refl;
  extension_three = refl;
  create_time_fits = omega arith;
  create_date_fits = omega arith;
  access_fits = omega arith;
  high_fits = omega arith;
  time_fits = omega arith;
  date_fits = omega arith;
  low_fits = omega arith;
  size_fits = omega arith;
}

abbrev pub file : FatFile
file = record {
  dentry = entry;
  name = [];
  filepath = [];
  start_cluster = 2;
  nentries = 0;
  pos_in_parent = 0;
  num_times_opened = 1;
  children_read = false;
}

abbrev pub directory : FatFile
directory = record file { start_cluster = 3 }

abbrev pub new_year : ℕ → Tm
new_year now = record { tm_sec = 0; tm_min = 0; tm_hour = 0; tm_mday = 1; tm_mon = 0; tm_year = 80 }

pub file_room : file.dentry.file_size ≤ bytes_per_cluster volume * 2
unfolding bytes_per_cluster
file_room = omega arith

-- The volume with clusters of 32 bytes.
abbrev pub large : FatTable
large = record volume { cluster_order = 5 }

pub large-IsFat32 : IsFat32 large
large-IsFat32 = omega arith

pub large-Chain : Chain large 2 (4 ∷ [])
unfolding is_valid_cluster_number
large-Chain = ((refl, refl), (end_of_chain_max, refl, omega arith, refl))

pub large_two_valid : is_valid_cluster_number large 2 ≡ true
unfolding is_valid_cluster_number
large_two_valid = refl

pub large_room : 64 ≤ bytes_per_cluster large * 2
unfolding bytes_per_cluster
large_room = omega arith
