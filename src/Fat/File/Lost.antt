-- ===== src/Fat/File/Lost.antt =====
-- `next_or_new_cluster` of fat_file.c when the first of its two writes fails.
use fa_maf_sis_op.Prelude.{
  ℕ, ◌<◌, ◌≡◌, ◌≢◌, Bool, true, false, some, List, inl, inr, length, get_elem?,
}
use fa_maf_sis_op.Prelude.Int.{pos, negsuc}
use fa_maf_sis_op.Fat.Memory.{Written}
use fa_maf_sis_op.Fat.Table.{FatTable, Device, end_of_chain_max, not_positive, set_next_cluster}
use fa_maf_sis_op.Fat.Table.Update.{set_next_cluster_lem, written}
use fa_maf_sis_op.Fat.File.{add_cluster}

clash : {b : Bool} → b ≡ true → ¬ (b ≡ false)
clash h k = cc

module _ (device : Device) where
  set_next_cluster-failed :
      (table : FatTable) (disk : device.Disk) (a f : ℕ)
      → a < length table.fat_map
      → not_positive (written device disk a f table.fat_offset).0 ≡ true
      → set_next_cluster device table disk a f
        ≡ some (negsuc 0, table, (written device disk a f table.fat_offset).1)
  set_next_cluster-failed table disk a f bound failed =
      elim (set_next_cluster_lem device table disk a f bound) [
        | inl (failed, eq) ↦ eq
        | inr (done, fat_map, eq, new) ↦ absurd (clash failed done)
      ]

  set_next_cluster-done :
      (table : FatTable) (disk : device.Disk) (a f : ℕ)
      → a < length table.fat_map
      → not_positive (written device disk a f table.fat_offset).0 ≡ false
      → (fat_map : List ℕ) × (set_next_cluster device table disk a f
          ≡ some (
            pos 0,
            record table { fat_map = fat_map },
            (written device disk a f table.fat_offset).1,
          ))
        × Written table.fat_map a f fat_map
  set_next_cluster-done table disk a f bound done =
      elim (set_next_cluster_lem device table disk a f bound) [
        | inl (failed, eq) ↦ absurd (clash failed done)
        | inr (done, fat_map, eq, new) ↦ (fat_map, eq, new)
      ]

  -- If the write of the entry of the last cluster fails and that of the new cluster's succeeds, the
  -- new cluster is the result all the same: it is marked as used, and the last cluster's entry in the
  -- table is as before, so that no chain leads to the new one through it.
  pub add_cluster_lost :
      (table : FatTable) (disk : device.Disk) (a f : ℕ)
      → a ≢ f
      → a < length table.fat_map
      → f < length table.fat_map
      → let first = written device disk a f table.fat_offset in
        let second = written device first.1 f end_of_chain_max table.fat_offset in
        not_positive first.0 ≡ true
        → not_positive second.0 ≡ false
        → (fat_map : List ℕ) × (add_cluster device table disk a f
            ≡ some (f, record table { fat_map = fat_map }, second.1))
          × (get_elem? fat_map f ≡ some end_of_chain_max)
          × (get_elem? fat_map a ≡ get_elem? table.fat_map a)
  unfolding add_cluster
  add_cluster_lost table disk a f ne bound_a bound_f failed done =
      let first = written device disk a f table.fat_offset in
      let (fat_map, eq, new) =
        set_next_cluster-done table first.1 f end_of_chain_max bound_f done in
      (
        fat_map,
        rw (set_next_cluster-failed table disk a f bound_a failed, eq),
        new.here,
        new.there a ne,
      )
