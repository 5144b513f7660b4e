-- ===== src/Fat/BigBrother/Orphan.antt =====
-- What `bb_find_orphan_cluster` of big_brother.c finds.
use fa_maf_sis_op.Prelude.{
  ℕ, zero, suc, ◌+◌, ◌≤◌, ◌<◌, ◌≡◌, true, false, Bool-cases, Option-cases, inl, inr, some, ltb,
  ◌==◌, refl, length, get_elem?, get_elem?-none, arith, dec_lt, ◌∙◌,
}
use fa_maf_sis_op.Fat.Disk.{DiskApi}
use fa_maf_sis_op.Fat.Table.{
  FatTable, is_valid_cluster_number, get_next_cluster, next_of_entry, is_bad_sector,
}
use fa_maf_sis_op.Fat.Table.Chain.{IsFat32, is_valid_cluster_number_lem}
use fa_maf_sis_op.Fat.BigBrother.{max_clusters_to_scan, find_orphan, bb_find_orphan_cluster}

-- The next cluster of a FAT32 volume is never the mark of a bad one.
next_not_bad :
    (table : FatTable) (c : ℕ)
    → IsFat32 table
    → c < length table.fat_map
    → (e : ℕ) × (get_next_cluster table c ≡ some e) × (is_bad_sector e ≡ false)
unfolding get_next_cluster next_of_entry is_bad_sector
next_not_bad table c fat32 bound = elim (Option-cases (get_elem? table.fat_map c)) [
  | inl gone ↦ absurd (omega (arith, get_elem?-none table.fat_map c gone))
  | inr (e, at) ↦ elim (Bool-cases (is_valid_cluster_number table e)) [
    | inl good ↦ (e, rw (at, good), not_bad e good)
    | inr bad ↦ (0x0FFFFFFF, rw (at, bad), refl)
  ]
]
  where
    not_bad : (e : ℕ) → is_valid_cluster_number table e ≡ true → (e == 0x0FFFFFF7) ≡ false
    not_bad e good = ground (arith, is_valid_cluster_number_lem table e fat32 good)

module _ (api : DiskApi) where
  goes_on :
      (fuel : ℕ) (table : FatTable) (disk : api.Disk) (c e : ℕ)
      → c < max_clusters_to_scan
      → get_next_cluster table c ≡ some e
      → is_bad_sector e ≡ false
      → find_orphan api (suc fuel) table disk c ≡ find_orphan api fuel table disk (c + 1)
  unfolding find_orphan
  goes_on fuel table disk c e lt link good = rw (below, link, good)
    where
      below : ltb c max_clusters_to_scan ≡ true
      below = ground arith

  find_orphan-nothing :
      (fuel : ℕ) (table : FatTable) (disk : api.Disk) (c : ℕ)
      → IsFat32 table
      → max_clusters_to_scan ≤ length table.fat_map
      → c ≤ max_clusters_to_scan
      → max_clusters_to_scan < c + fuel
      → find_orphan api fuel table disk c ≡ some (max_clusters_to_scan, disk)
  unfolding find_orphan
  find_orphan-nothing zero table disk c fat32 mapped le enough = absurd (omega arith)
  find_orphan-nothing (suc fuel) table disk c fat32 mapped le enough =
      elim (dec_lt c max_clusters_to_scan) [
        | yes lt ↦
            let (e, link, good) = next_not_bad table c fat32 (omega arith) in
            goes_on fuel table disk c e lt link good
            ∙ find_orphan-nothing fuel table disk (c + 1) fat32 mapped (omega arith) (omega arith)
        | no end ↦ rw (past end)
      ]
    where
      past : ¬ (c < max_clusters_to_scan) → ltb c max_clusters_to_scan ≡ false
      past end = ground arith

  -- On a table whose number of clusters lies below the marks of bad and last clusters, as a count that
  -- has not wrapped does, and that has an entry for each of the clusters below 10000, whatever its
  -- entries and the disk hold, `bb_find_orphan_cluster` from any cluster up to 10000 finds no cluster,
  -- reads nothing, and ends at 10000. Its fuel is more than the clusters to scan.
  pub bb_find_orphan_cluster_lem :
      (fuel : ℕ) (table : FatTable) (disk : api.Disk) (root_dir_start_cluster : ℕ)
      → IsFat32 table
      → max_clusters_to_scan ≤ length table.fat_map
      → root_dir_start_cluster ≤ max_clusters_to_scan
      → max_clusters_to_scan < root_dir_start_cluster + fuel
      → bb_find_orphan_cluster api fuel table disk root_dir_start_cluster
        ≡ some (max_clusters_to_scan, disk)
  unfolding bb_find_orphan_cluster
  bb_find_orphan_cluster_lem = find_orphan-nothing
