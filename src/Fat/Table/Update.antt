-- ===== src/Fat/Table/Update.antt =====
-- `fat_table_set_next_cluster` of fat_table.c: the entry on disk and in memory.
use fa_maf_sis_op.Prelude.{
  ℕ, ◌+◌, ◌*◌, ◌<◌, ◌≡◌, ◌⊎◌, true, false, Bool-cases, inl, inr, some, List, length,
}
use fa_maf_sis_op.Prelude.Int.{ℤ, pos, negsuc}
use fa_maf_sis_op.Fat.Memory.{u32, Written, set_elem-Written}
use fa_maf_sis_op.Fat.Table.{FatTable, Device, not_positive, after_write, set_next_cluster}

module _ (device : Device) where
  -- The one write to the disk that a call makes.
  abbrev pub written : device.Disk → (cur_cluster next_cluster fat_offset : ℕ) → ℤ × device.Disk
  written disk cur_cluster next_cluster fat_offset =
      device.pwrite disk next_cluster (u32 (cur_cluster * 4) + fat_offset)

  -- For a cluster with an entry in the table, `fat_table_set_next_cluster` writes that entry on the
  -- disk. If nothing was written it gives -1 and leaves the table; else it gives 0 and the table in
  -- memory has the new entry there, all the others and all fields as before.
  pub set_next_cluster_lem :
      (table : FatTable) (disk : device.Disk) (cur_cluster next_cluster : ℕ)
      → cur_cluster < length table.fat_map
      → let w = written disk cur_cluster next_cluster table.fat_offset in
        ((not_positive w.0 ≡ true)
          × (set_next_cluster device table disk cur_cluster next_cluster
              ≡ some (negsuc 0, table, w.1)))
        ⊎ ((not_positive w.0 ≡ false)
            × (fat_map : List ℕ) × (set_next_cluster device table disk cur_cluster next_cluster
                ≡ some (pos 0, record table { fat_map = fat_map }, w.1))
            × Written table.fat_map cur_cluster next_cluster fat_map)
  unfolding set_next_cluster after_write
  set_next_cluster_lem table disk cur_cluster next_cluster h =
      let w = written disk cur_cluster next_cluster table.fat_offset in
      let (fat_map, eq, new) = set_elem-Written table.fat_map cur_cluster next_cluster h in
      elim (Bool-cases (not_positive w.0)) [
        | inl failed ↦ inl (failed, rw failed)
        | inr done ↦ inr (done, fat_map, rw (done, eq), new)
      ]
