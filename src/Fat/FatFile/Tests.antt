-- ===== src/Fat/FatFile/Tests.antt =====
-- The entry of a file on a disk in memory, and on one that fails.
use fa_maf_sis_op.Prelude.{ℕ, ◌*◌, ◌≤◌, ◌<◌, ◌≡◌, ◌⊎◌, refl, arith}
use fa_maf_sis_op.Prelude.Int.{pos, negsuc}
use fa_maf_sis_op.Fat.Disk.{failed, DiskApi, bytes_at, patched}
use fa_maf_sis_op.Fat.Disk.Transfer.{DidWrite}
use fa_maf_sis_op.Fat.Entry.{entry_bytes, entry_of_bytes, tail_bytes}
use fa_maf_sis_op.Fat.FatFile.{write_dir_entry}
use fa_maf_sis_op.Fat.FatFile.Entries.{entry_place, write_dir_entry_lem, write_dir_entry_failed}
use fa_maf_sis_op.Fat.Table.{bytes_per_cluster}
use fa_maf_sis_op.Fat.Table.Sizes.{bytes_per_cluster_pos}
use fa_maf_sis_op.Fat.Sample.{large, memory, bytes, entry, entry-IsEntry, file, directory}

abbrev place : ℕ
place = entry_place large directory file

abbrev after : ℕ → ℕ
after = patched bytes place (entry_bytes entry)

abbrev whole_write : DidWrite memory bytes (entry_bytes entry) place
unfolding entry_bytes tail_bytes
whole_write = record {
  count = 32;
  after = after;
  reply = refl;
  some_written = omega arith;
  at_most_length = omega arith;
  is_patched = refl;
}

write_dir_entry_lem_example :
    ((bytes_per_cluster large ≤ 0 * 32)
      × (write_dir_entry memory large bytes directory file ≡ (negsuc 0, bytes)))
    ⊎ ((0 * 32 < bytes_per_cluster large)
        × (write_dir_entry memory large bytes directory file ≡ (pos 0, after))
        × (entry_of_bytes (bytes_at after place 32) ≡ entry))
unfolding whole_write
write_dir_entry_lem_example =
    write_dir_entry_lem memory large bytes directory file entry-IsEntry whole_write refl

abbrev broken : DiskApi
broken = record memory { pwrite = λ disk bytes offset. (failed, disk) }

write_dir_entry_failed_example : (write_dir_entry broken large bytes directory file).0 ≡ pos 0
write_dir_entry_failed_example = write_dir_entry_failed broken large bytes directory file room refl
  where
    room : 0 * 32 < bytes_per_cluster large
    room = bytes_per_cluster_pos large
