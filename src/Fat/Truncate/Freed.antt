-- ===== src/Fat/Truncate/Freed.antt =====
-- The loops of fat_file.c (`fat_file_truncate`) and fat_fuse_ops.c (`fat_fuse_unlink`,
-- `fat_fuse_rmdir`) that free the clusters of a chain.
use fa_maf_sis_op.Prelude.{
  ℕ, zero, suc, ◌+◌, ◌≤◌, ◌<◌, ◌≡◌, ◌≢◌, refl, sym, ◌∙◌, true, false, Option, some, List, [], ◌∷◌,
  All, All-map, length, get_elem?, arith,
}
use fa_maf_sis_op.Prelude.Int.{ℤ, pos}
use fa_maf_sis_op.Fat.Memory.{Written}
use fa_maf_sis_op.Fat.Table.{
  FatTable, Device, cluster_free, end_of_chain_max, is_valid_cluster_number, get_next_cluster,
  set_next_cluster, is_valid, is_eoc, is_bad_sector,
}
use fa_maf_sis_op.Fat.Table.Chain.{
  Chain, IsFat32, get_next_cluster-Ends, get_next_cluster-Links, is_valid_cluster_number_lem,
}
use fa_maf_sis_op.Fat.Table.Acyclic.{Chain-acyclic, Chain-same}
use fa_maf_sis_op.Fat.File.Append.{Writes, set_next_cluster-Writes}
use fa_maf_sis_op.Fat.Read.Contents.{is_valid-number}
use fa_maf_sis_op.Fat.Truncate.{free_on, free_all, unless_error}

-- The map in which the entries of the clusters are free, and all others as they were.
pub record Freed (xs : List ℕ) (cs ys : List ℕ) : Type 0 where
  pub freed : All (λ c. get_elem? ys c ≡ some cluster_free) cs
  pub others : (j : ℕ) → All (λ c. c ≢ j) cs → get_elem? ys j ≡ get_elem? xs j
  pub size : length ys ≡ length xs

Freed-∷ :
    (xs ys zs : List ℕ) (c : ℕ) (ds : List ℕ)
    → All (λ d. d ≢ c) ds
    → Written xs c cluster_free ys
    → Freed ys ds zs
    → Freed xs (c ∷ ds) zs
Freed-∷ xs ys zs c ds apart w f = record {
  freed = (f.others c apart ∙ w.here, f.freed);
  others = λ j (ne, rest). f.others j rest ∙ w.there j (λ e. ne (sym e));
  size = f.size ∙ w.size;
}

-- A loop that frees a cluster and goes on with the next one, until a cluster is none of the volume.
pub record Frees (device : Device) (R : Type 0) (result : FatTable → device.Disk → R)
    (loop : ℕ → FatTable → device.Disk → ℕ → Option R) : Type 0 where
  pub stop :
      (fuel : ℕ) (table : FatTable) (disk : device.Disk) (c : ℕ)
      → is_valid c ≡ false
      → loop (suc fuel) table disk c ≡ some (result table disk)
  pub step :
      (fuel : ℕ) (table table' : FatTable) (disk disk' : device.Disk) (c next : ℕ)
      → is_valid c ≡ true
      → get_next_cluster table c ≡ some next
      → set_next_cluster device table disk c cluster_free ≡ some (pos 0, table', disk')
      → loop (suc fuel) table disk c ≡ loop fuel table' disk' next

pub end_invalid : is_valid end_of_chain_max ≡ false
unfolding is_valid is_eoc is_bad_sector
end_invalid = refl

pub free_on-Frees :
    (device : Device)
    → Frees device
        (ℤ × FatTable × device.Disk)
        (λ table disk. (pos 0, table, disk))
        (free_on device)
unfolding free_on unless_error
free_on-Frees device = record {
  stop = λ fuel table disk c invalid. rw invalid;
  step = λ fuel table table' disk disk' c next valid link written. rw (valid, link, written);
}

free_all-Frees :
    (device : Device)
    → Frees device (FatTable × device.Disk) (λ table disk. (table, disk)) (free_all device)
unfolding free_all
free_all-Frees device = record {
  stop = λ fuel table disk c invalid. rw invalid;
  step = λ fuel table table' disk disk' c next valid link written. rw (valid, link, written);
}

pub mapped :
    (table : FatTable) (c : ℕ)
    → IsFat32 table
    → table.num_data_clusters + 2 ≤ length table.fat_map
    → is_valid_cluster_number table c ≡ true
    → c < length table.fat_map
mapped table c fat32 whole ok = omega (arith, is_valid_cluster_number_lem table c fat32 ok)

pub kept_number :
    (table : FatTable) (fat_map : List ℕ) (c : ℕ)
    → is_valid_cluster_number table c ≡ true
    → is_valid_cluster_number (record table { fat_map = fat_map }) c ≡ true
unfolding is_valid_cluster_number
kept_number table fat_map c ok = ok

module _ (device : Device) (R : Type 0) (result : FatTable → device.Disk → R)
    (loop : ℕ → FatTable → device.Disk → ℕ → Option R) (frees : Frees device R result loop)
    (writes : Writes device) where
  loop-Freed :
      (fuel : ℕ) (table : FatTable) (disk : device.Disk) (c : ℕ) (ds : List ℕ)
      → IsFat32 table
      → table.num_data_clusters + 2 ≤ length table.fat_map
      → is_valid_cluster_number table c ≡ true
      → Chain table c ds
      → length ds + 1 < fuel
      → (fat_map : List ℕ) × (disk' : device.Disk) × (loop fuel table disk c
          ≡ some (result (record table { fat_map = fat_map }) disk'))
        × Freed table.fat_map (c ∷ ds) fat_map
  loop-Freed zero table disk c ds fat32 whole ok chain enough = absurd (omega arith)
  loop-Freed (suc zero) table disk c ds fat32 whole ok chain enough = absurd (omega arith)
  loop-Freed (suc (suc fuel)) table disk c [] fat32 whole ok chain enough =
      let (fat_map, disk', eq, w) =
        set_next_cluster-Writes device table disk c cluster_free writes
          (mapped table c fat32 whole ok) in
      let table' = record table { fat_map = fat_map } in
      (
        fat_map,
        disk',
        frees.step (suc fuel) table table' disk disk' c end_of_chain_max
              (is_valid-number table c fat32 ok) (get_next_cluster-Ends table c chain) eq
            ∙ frees.stop fuel table' disk' end_of_chain_max end_invalid,
        Freed-∷ table.fat_map fat_map fat_map c [] tt w
            (record { freed = tt; others = λ j h. refl; size = refl }),
      )
  loop-Freed (suc (suc fuel)) table disk c (d ∷ ds) fat32 whole ok (link, chain) enough =
      let (fat_map, disk', eq, w) =
        set_next_cluster-Writes device table disk c cluster_free writes
          (mapped table c fat32 whole ok) in
      let table' = record table { fat_map = fat_map } in
      let apart = Chain-acyclic table c (d ∷ ds) (link, chain) in
      let (final, disk'', eq', f) =
        loop-Freed (suc fuel) table' disk' d ds fat32 (omega (arith, w.size))
          (kept_number table fat_map d link.1)
          (Chain-same table fat_map d ds (All-map (d ∷ ds) (λ j ne. w.there j ne) apart) chain)
          (omega arith) in
      (
        final,
        disk'',
        frees.step (suc fuel) table table' disk disk' c d (is_valid-number table c fat32 ok)
              (get_next_cluster-Links table c d link) eq
            ∙ eq',
        Freed-∷ table.fat_map fat_map final c (d ∷ ds) apart w f,
      )

-- The loop of `fat_file_truncate` on a chain.
pub free_on-Freed :
    (device : Device) (fuel : ℕ) (table : FatTable) (disk : device.Disk) (c : ℕ) (ds : List ℕ)
    → Writes device
    → IsFat32 table
    → table.num_data_clusters + 2 ≤ length table.fat_map
    → is_valid_cluster_number table c ≡ true
    → Chain table c ds
    → length ds + 1 < fuel
    → (fat_map : List ℕ) × (disk' : device.Disk) × (free_on device fuel table disk c
        ≡ some (pos 0, record table { fat_map = fat_map }, disk'))
      × Freed table.fat_map (c ∷ ds) fat_map
free_on-Freed device fuel table disk c ds writes =
    loop-Freed device _ _ (free_on device) (free_on-Frees device) writes fuel table disk c ds

-- On a FAT32 volume whose disk takes every write, the loop of `fat_fuse_unlink` and `fat_fuse_rmdir`
-- from the first cluster of a chain that ends stops, frees each cluster of the chain, and leaves every
-- other entry of the table. Its fuel is more than the number of clusters.
pub free_all-Freed :
    (device : Device) (fuel : ℕ) (table : FatTable) (disk : device.Disk) (c : ℕ) (ds : List ℕ)
    → Writes device
    → IsFat32 table
    → table.num_data_clusters + 2 ≤ length table.fat_map
    → is_valid_cluster_number table c ≡ true
    → Chain table c ds
    → length ds + 1 < fuel
    → (fat_map : List ℕ) × (disk' : device.Disk) × (free_all device fuel table disk c
        ≡ some (record table { fat_map = fat_map }, disk'))
      × Freed table.fat_map (c ∷ ds) fat_map
free_all-Freed device fuel table disk c ds writes =
    loop-Freed device _ _ (free_all device) (free_all-Frees device) writes fuel table disk c ds
