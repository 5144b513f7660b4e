-- ===== src/Fat/Write/EntryKept.antt =====
-- What `write_dir_entry` of fat_file.c leaves of the bytes behind the parent's cluster.
use fa_maf_sis_op.Prelude.{
  ℕ, zero, suc, ◌+◌, ◌*◌, ◌^◌, ◌≤◌, ◌<◌, ◌≡◌, ◌⊎◌, inl, inr, ap, ◌∙◌, ◌++◌, true, false, leb,
  length, length-append, length-take_le, take, arith, dec_lt,
}
use native.Mathlib.Nat.{two-pow-succ}
use fa_maf_sis_op.Fat.Disk.{DiskApi, bytes_at}
use fa_maf_sis_op.Fat.Disk.Transfer.{Writes}
use fa_maf_sis_op.Fat.Entry.{DirEntry, entry_bytes, tail_bytes}
use fa_maf_sis_op.Fat.FatFile.{FatFile, entry_written, write_dir_entry}
use fa_maf_sis_op.Fat.FatFile.Entries.{entry_place}
use fa_maf_sis_op.Fat.Table.{FatTable, bytes_per_cluster, cluster_offset}
use fa_maf_sis_op.Fat.Write.Patches.{bytes_at-apart}

-- A name of eight characters with an extension of three.
abbrev pub IsNamed : DirEntry → Type 0
IsNamed e = (length e.base_name ≡ 8) × (length e.extension ≡ 3)

length-entry_bytes : (e : DirEntry) → IsNamed e → length (entry_bytes e) ≡ 32
unfolding entry_bytes tail_bytes
length-entry_bytes e h = omega (
  arith,
  length-append e.base_name (e.extension ++ tail_bytes e),
  length-append e.extension (tail_bytes e),
  h.0,
  h.1,
)

blocks : (n : ℕ) → 5 ≤ n → (x : ℕ) × (2 ^ n ≡ x * 32)
blocks zero h = absurd (omega arith)
blocks (suc n) h = elim (dec_lt n 5) [
  | yes lt ↦ (1, ap (λ k. 2 ^ k) {x = suc n} {y = 5} (omega arith))
  | no ge ↦ let (x, e) = blocks n (omega arith) in (x + x, two-pow-succ n ∙ omega (arith, e))
]

-- A cluster of at least 32 bytes holds whole entries.
whole_entries :
    (table : FatTable) (i : ℕ)
    → 5 ≤ table.cluster_order
    → i * 32 < bytes_per_cluster table
    → i * 32 + 32 ≤ bytes_per_cluster table
unfolding bytes_per_cluster
whole_entries table i large h = let (x, e) = blocks table.cluster_order large in omega (arith, e)

module _ (api : DiskApi) (writes : Writes api) where
  pub write_dir_entry-Away :
      (table : FatTable) (disk : api.Disk) (parent file : FatFile) (p n : ℕ)
      → IsNamed file.dentry
      → 5 ≤ table.cluster_order
      → (p + n ≤ cluster_offset table parent.start_cluster)
        ⊎ (cluster_offset table parent.start_cluster + bytes_per_cluster table ≤ p)
      → bytes_at (api.content (write_dir_entry api table disk parent file).1) p n
        ≡ bytes_at (api.content disk) p n
  unfolding write_dir_entry entry_written
  write_dir_entry-Away table disk parent file p n named large away =
      elim (dec_lt (file.pos_in_parent * 32) (bytes_per_cluster table)) [
        | no full ↦ rw (is_full full)
        | yes room ↦
            let w =
              writes disk (entry_bytes file.dentry) (entry_place table parent file)
                (omega (arith, length-entry_bytes file.dentry named)) in
            rw (has_room room, w.reply)
              (ap (λ k. bytes_at k p n) w.is_patched
                ∙ bytes_at-apart (api.content disk) (entry_place table parent file)
                    (take w.count (entry_bytes file.dentry)) p n
                    (apart (length (take w.count (entry_bytes file.dentry)))
                      (omega (
                        arith,
                        length-take_le w.count (entry_bytes file.dentry),
                        w.at_most_length,
                        length-entry_bytes file.dentry named,
                      ))
                      (whole_entries table file.pos_in_parent large room) away))
      ]
    where
      is_full :
          ¬ (file.pos_in_parent * 32 < bytes_per_cluster table)
          → leb (bytes_per_cluster table) (file.pos_in_parent * 32) ≡ true
      is_full full = ground arith

      has_room :
          file.pos_in_parent * 32 < bytes_per_cluster table
          → leb (bytes_per_cluster table) (file.pos_in_parent * 32) ≡ false
      has_room room = ground arith

      apart :
          (l : ℕ)
          → l ≤ 32
          → file.pos_in_parent * 32 + 32 ≤ bytes_per_cluster table
          → (p + n ≤ cluster_offset table parent.start_cluster)
            ⊎ (cluster_offset table parent.start_cluster + bytes_per_cluster table ≤ p)
          → (p + n ≤ entry_place table parent file) ⊎ (entry_place table parent file + l ≤ p)
      apart l small fits (inl before) = inl (omega arith)
      apart l small fits (inr behind) = inr (omega arith)
