-- ===== src/Fat/Directory/Tests.antt =====
-- A directory whose cluster is full, with one entry.
use fa_maf_sis_op.Prelude.{ℕ, ◌≡◌, refl, some, [], ◌∷◌, codes, arith}
use fa_maf_sis_op.Fat.Create.{fat_file_init_empty, init_file_from_dentry}
use fa_maf_sis_op.Fat.Directory.{parse_entries}
use fa_maf_sis_op.Fat.Directory.Places.{IsUsed, IsAdded, parse_entries_lem}
use fa_maf_sis_op.Fat.Entry.{
  is_end_of_directory, ignore_dentry, file_start_cluster, entry_bytes, tail_bytes,
}
use fa_maf_sis_op.Fat.Disk.{patched}
use fa_maf_sis_op.Fat.Disk.Transfer.{DidWrite}
use fa_maf_sis_op.Fat.FatFile.Entries.{entry_place}
use fa_maf_sis_op.Fat.Table.Sizes.{bytes_per_cluster_pos}
use fa_maf_sis_op.Fat.FatFile.{FatFile, fat_file_dentry_add_child}
use fa_maf_sis_op.Fat.Filename.{
  file_basename_valid, char_legal_in_filename, rest_legal, file_extension_valid, build_filename,
  filename_len, len_from, filepath_from_name, in_buffer, dotted, separator,
}
use fa_maf_sis_op.Fat.Sample.{large, memory, bytes, entry, entry-IsEntry, file, directory}

abbrev root : FatFile
root = record directory { filepath = codes "/" }

entry_used : IsUsed entry
unfolding is_end_of_directory
entry_used = refl

abbrev child : FatFile
child = record (fat_file_init_empty (codes "/A.C")) {
  dentry = entry;
  name = codes "A.C";
  start_cluster = 2;
}

is_parsed : parse_entries (entry ∷ []) 0 root [] ≡ some (root, child ∷ [])
unfolding parse_entries is_end_of_directory ignore_dentry init_file_from_dentry fat_file_init_empty
    file_basename_valid char_legal_in_filename rest_legal file_extension_valid build_filename
    filename_len len_from filepath_from_name in_buffer dotted separator file_start_cluster
is_parsed = refl

abbrev after : ℕ → ℕ
after = patched bytes (entry_place large root file) (entry_bytes entry)

abbrev whole_write : DidWrite memory bytes (entry_bytes entry) (entry_place large root file)
unfolding entry_bytes tail_bytes
whole_write = record {
  count = 32;
  after = after;
  reply = refl;
  some_written = omega arith;
  at_most_length = omega arith;
  is_patched = refl;
}

parse_entries_lem_example :
    IsAdded memory large root file 0 after (fat_file_dentry_add_child memory large bytes root file)
unfolding whole_write
parse_entries_lem_example =
    parse_entries_lem memory large bytes entry [] [] root root file (child ∷ []) (entry_used, tt) tt
      is_parsed (bytes_per_cluster_pos large) entry-IsEntry whole_write refl
