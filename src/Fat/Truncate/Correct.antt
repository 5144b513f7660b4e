-- ===== src/Fat/Truncate/Correct.antt =====
-- `fat_file_truncate` of fat_file.c: the chain and the size of the file afterwards.
use fa_maf_sis_op.Prelude.{
  ℕ, zero, suc, ◌+◌, ◌*◌, ◌/◌, ◌≤◌, ◌<◌, ◌≡◌, ◌≢◌, refl, ap, sym, ◌∙◌, true, false, ◌||◌, Option,
  some, List, [], ◌∷◌, All, ltb, leb, length, get_elem?, take, drop, drop-nil, arith,
}
use mathlib.Core.Path.{subst}
use native.Mathlib.Nat.{div-lt_iff_lt-mul, le-mul_of_pos_right, mul_comm}
use fa_maf_sis_op.Prelude.Int.{pos}
use fa_maf_sis_op.Fat.Dates.{Tm, fill_time}
use fa_maf_sis_op.Fat.Disk.{DiskApi, device}
use fa_maf_sis_op.Fat.Entry.{
  DirEntry, fill_dentry_time_now, fill_modified_dates, fill_created_dates,
}
use fa_maf_sis_op.Fat.Table.{
  FatTable, cluster_free, is_valid_cluster_number, bytes_per_cluster, get_clusters_for_size,
}
use fa_maf_sis_op.Fat.Table.Chain.{Chain, IsFat32, seek_cluster-Chain}
use fa_maf_sis_op.Fat.Table.Sizes.{get_clusters_for_size_lem, bytes_per_cluster_pos}
use fa_maf_sis_op.Fat.File.Append.{Writes}
use fa_maf_sis_op.Fat.FatFile.{FatFile}
use fa_maf_sis_op.Fat.Read.Contents.{Chain-From}
use fa_maf_sis_op.Fat.Truncate.{max, finish_truncate, fat_file_truncate}
use fa_maf_sis_op.Fat.Truncate.Cut.{Chain-Cut, cut_behind-Cut}

fewer : (a b : ℕ) → max 1 a < max 1 b → a < b
unfolding max
fewer a b h = ground arith

-- An offset that needs fewer clusters than the size lies in the chain that holds the size.
offset_inside :
    (table : FatTable) (offset size n : ℕ)
    → size < 0x100000000
    → table.cluster_order ≤ 30
    → offset ≤ size
    → size ≤ bytes_per_cluster table * n
    → max 1 (get_clusters_for_size table offset) < max 1 (get_clusters_for_size table size)
    → (offset / bytes_per_cluster table < n) × (offset / bytes_per_cluster table < 0x100000000)
offset_inside table offset size n fits order within room less =
    let b = bytes_per_cluster table in
    let h = bytes_per_cluster_pos table in
    let c = get_clusters_for_size table offset in
    let clusters = get_clusters_for_size_lem table offset (omega arith) order in
    let least = (get_clusters_for_size_lem table size fits order).1 c in
    let lt = fewer c (get_clusters_for_size table size) less in
    (
      (div-lt_iff_lt-mul h).1 (short b c (omega (arith, mul_comm b n)) clusters.0 least lt),
      (div-lt_iff_lt-mul h).1 (omega (arith, le-mul_of_pos_right 0x100000000 h)),
    )
  where
    short :
        (b c : ℕ)
        → size ≤ n * b
        → offset ≤ c * b
        → (size ≤ c * b → get_clusters_for_size table size ≤ c)
        → c < get_clusters_for_size table size
        → offset < n * b
    short b c room inside least lt = grind arith

finish-sized :
    (api : DiskApi) (gmtime : ℕ → Tm) (now : ℕ) (file parent : FatFile) (offset : ℕ)
    (table : FatTable) (disk : api.Disk)
    → (e : DirEntry) × (after : api.Disk) × (finish_truncate api gmtime now file parent offset
          (pos 0, table, disk)
        ≡ (table, record file { dentry = e }, after))
      × (e.file_size ≡ offset)
unfolding finish_truncate fill_dentry_time_now fill_created_dates fill_modified_dates fill_time
finish-sized api gmtime now file parent offset table disk = (_, _, refl, refl)

behind_first :
    (q c : ℕ) (ds : List ℕ) (f : ℕ) (os : List ℕ) → drop q (c ∷ ds) ≡ f ∷ os → drop q ds ≡ os
behind_first zero c ds f os e = cc
behind_first (suc q) c [] f os e = absurd (clash (sym (drop-nil q) ∙ e))
  where
    clash : ¬ ([] ≡ f ∷ os)
    clash h = cc
behind_first (suc q) c (d ∷ ds) f os e = behind_first q d ds f os e

-- The file has the new size, its chain ends at the cluster of the offset, the clusters behind that one
-- are free, and every other entry of the table is as before.
abbrev pub Truncated :
    (api : DiskApi)
    → FatTable
    → FatFile
    → (offset : ℕ) → List ℕ
    → Option (FatTable × FatFile × api.Disk)
    → Type 0
Truncated api table file offset ds r =
    let q = offset / bytes_per_cluster table in
    (fat_map : List ℕ) × (e : DirEntry) × (after : api.Disk) × (r
      ≡ some (record table { fat_map = fat_map }, record file { dentry = e }, after))
    × (e.file_size ≡ offset)
    × Chain (record table { fat_map = fat_map }) file.start_cluster (take q ds)
    × All (λ c. get_elem? fat_map c ≡ some cluster_free) (drop q ds)
    × ((j : ℕ)
        → All (λ c. c ≢ j) (drop q (file.start_cluster ∷ ds))
        → get_elem? fat_map j ≡ get_elem? table.fat_map j)

module _ (api : DiskApi) (writes : Writes (device api)) where
  -- From the search of the cluster on, with the offset in the chain.
  truncate_some :
      (fuel : ℕ) (gmtime : ℕ → Tm) (now : ℕ) (table : FatTable) (disk : api.Disk)
      (file parent : FatFile) (offset : ℕ) (ds : List ℕ)
      → IsFat32 table
      → table.num_data_clusters + 2 ≤ length table.fat_map
      → is_valid_cluster_number table file.start_cluster ≡ true
      → Chain table file.start_cluster ds
      → offset ≤ file.dentry.file_size
      → max 1 (get_clusters_for_size table offset)
        < max 1 (get_clusters_for_size table file.dentry.file_size)
      → offset / bytes_per_cluster table < suc (length ds)
      → offset / bytes_per_cluster table < 0x100000000
      → length ds < fuel
      → Truncated api table file offset ds
          (fat_file_truncate api fuel gmtime now 0 table disk file parent offset)
  unfolding fat_file_truncate bytes_per_cluster
  truncate_some fuel gmtime now table disk file parent offset ds fat32 whole ok chain within less
        inside fits enough =
      let q = offset / bytes_per_cluster table in
      let r = Chain-From table file.start_cluster ds q ok chain inside in
      let (fat_map, disk', eq, cut) =
        cut_behind-Cut (device api) writes fuel table disk r.first r.others fat32 whole r.valid
          r.chain (omega (arith, r.count)) in
      let (e, after, finished, sized) =
        finish-sized api gmtime now file parent offset (record table { fat_map = fat_map }) disk' in
      (
        fat_map,
        e,
        after,
        rw (
          goes_on,
          seek_cluster-Chain table file.start_cluster offset ds fat32 ok chain fits ∙ ap some r.at,
          eq,
          finished,
        ),
        sized,
        Chain-Cut table fat_map r.first r.others fat32 cut q file.start_cluster ds r.rest chain,
        subst (All (λ c. get_elem? fat_map c ≡ some cluster_free))
            (sym (behind_first q file.start_cluster ds r.first r.others r.rest)) cut.freed,
        λ j h. cut.others j (subst (All (λ c. c ≢ j)) r.rest h),
      )
    where
      goes_on :
          (ltb file.dentry.file_size offset
            || leb
                (max 1 (get_clusters_for_size table file.dentry.file_size))
                (max 1 (get_clusters_for_size table offset)))
          ≡ false
      goes_on = ground arith

  -- `fat_file_truncate` of a file on a FAT32 volume to an offset within it that needs fewer clusters
  -- than its size, when `errno` is 0 and the disk takes every write. The file gets that size, its chain
  -- ends at the cluster of the offset, every cluster behind that one is free, and every other entry of
  -- the table is as before. The chain has room for the size, which is a `u32`, clusters have at most
  -- 2^30 bytes, and there is more fuel than clusters behind the first.
  pub fat_file_truncate_lem :
      (fuel : ℕ) (gmtime : ℕ → Tm) (now : ℕ) (table : FatTable) (disk : api.Disk)
      (file parent : FatFile) (offset : ℕ) (ds : List ℕ)
      → IsFat32 table
      → table.num_data_clusters + 2 ≤ length table.fat_map
      → is_valid_cluster_number table file.start_cluster ≡ true
      → Chain table file.start_cluster ds
      → file.dentry.file_size ≤ bytes_per_cluster table * suc (length ds)
      → file.dentry.file_size < 0x100000000
      → table.cluster_order ≤ 30
      → offset ≤ file.dentry.file_size
      → max 1 (get_clusters_for_size table offset)
        < max 1 (get_clusters_for_size table file.dentry.file_size)
      → length ds < fuel
      → Truncated api table file offset ds
          (fat_file_truncate api fuel gmtime now 0 table disk file parent offset)
  fat_file_truncate_lem fuel gmtime now table disk file parent offset ds fat32 whole ok chain room
        small order within less enough =
      let (inside, fits) =
        offset_inside table offset file.dentry.file_size (suc (length ds)) small order within room
          less in
      truncate_some fuel gmtime now table disk file parent offset ds fat32 whole ok chain within
        less inside fits enough
