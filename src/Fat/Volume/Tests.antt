-- ===== src/Fat/Volume/Tests.antt =====
-- The boot sectors of two small volumes.
use fa_maf_sis_op.Prelude.{
  ℕ, zero, suc, ◌-◌, ◌/◌, ◌^◌, ◌≤◌, ◌<◌, ◌≡◌, refl, [], true, false, ltb, if◌then◌else◌, arith,
  dec_lt, List, replicate,
}
use mathlib.Core.Path.{subst}
use native.Mathlib.Nat.{two-pow-succ, pow-le-pow_right}
use fa_maf_sis_op.Fat.Volume.{
  accepted, BootSector, Volume, is_power_of_2, info_sector, remove_trailing_spaces, c_string,
}
use fa_maf_sis_op.Fat.Volume.Accepted.{IsClzl, IsAccepted, read_boot_fields_lem}
use fa_maf_sis_op.Fat.Volume.Boot.{
  read_boot_fields, read_dos_2_0_bpb, bsr, check_sector, check_cluster, read_tables,
  read_dos_3_31_bpb, read_fat32_ebpb, read_sectors_per_fat, read_fat32_fields, read_nonfat32_ebpb,
  count_clusters, num_data_sectors,
}

-- The position of the highest bit.
unfoldable log : ℕ → ℕ → ℕ
log zero n = 0
log (suc fuel) n = let rest = log fuel (n / 2) in if ltb n 2 then 0 else suc rest

unfoldable clzl : ℕ → ℕ
clzl n = 63 - log 64 n

log-bounds : (fuel n : ℕ) → 0 < n → n < 2 ^ fuel → (2 ^ log fuel n ≤ n) × (n < 2 ^ suc (log fuel n))
unfolding log
log-bounds zero n h lt = absurd (omega arith)
log-bounds (suc fuel) n h lt = elim (dec_lt n 2) [
  | yes one ↦ rw (small one) (omega arith, omega arith)
  | no more ↦
      let (lo, hi) = log-bounds fuel (n / 2) (omega arith) (omega (arith, two-pow-succ fuel)) in
      rw (large more) (
        omega (arith, two-pow-succ (log fuel (n / 2))),
        omega (arith, two-pow-succ (suc (log fuel (n / 2)))),
      )
]
  where
    small : n < 2 → ltb n 2 ≡ true
    small one = ground arith

    large : ¬ (n < 2) → ltb n 2 ≡ false
    large more = ground arith

clzl-IsClzl : IsClzl clzl
unfolding clzl
clzl-IsClzl n h lt =
    let (lo, hi) = log-bounds 64 n h lt in
    let le : log 64 n ≤ 63 = elim (dec_lt (log 64 n) 64) [
      | yes l ↦ omega arith
      | no g ↦ absurd (
          omega
            (arith, pow-le-pow_right {n = 2} (omega arith) {i = 64} {j = log 64 n} (omega arith)))
    ] in
    let same : log 64 n ≡ 63 - (63 - log 64 n) = omega arith in
    (omega arith, subst (λ k. 2 ^ k ≤ n) same lo, subst (λ k. n < 2 ^ suc k) same hi)

-- Sixteen kibisectors of 512 bytes, two to a cluster.
abbrev boot_sec : BootSector
boot_sec = record {
  oem_name = [];
  bytes_per_sector = 512;
  sectors_per_cluster = 2;
  reserved_sectors = 32;
  num_tables = 2;
  max_root_entries = 0;
  total_sectors = 16384;
  media_descriptor = 248;
  sectors_per_fat = 0;
  sectors_per_track = 0;
  num_heads = 0;
  hidden_sectors = 0;
  total_sectors_32 = 0;
  sectors_per_fat_32 = 65;
  drive_description = 0;
  version = 0;
  root_dir_start_cluster = 2;
  fs_info_sector = 1;
  alt_boot_sector = 6;
  physical_drive_num = 128;
  extended_boot_sig = 41;
  volume_id = 1;
  volume_label = [];
  fs_type = [];
}

-- A volume of which nothing is read yet.
abbrev blank : Volume
blank = record {
  oem_name = [];
  bytes_per_sector = 0;
  sector_order = 0;
  sectors_per_cluster = 0;
  sectors_per_cluster_order = 0;
  reserved_sectors = 0;
  num_tables = 0;
  max_root_entries = 0;
  media_descriptor = 0;
  total_sectors = 0;
  sectors_per_fat = 0;
  sectors_per_track = 0;
  num_heads = 0;
  hidden_sectors = 0;
  drive_description = 0;
  version = 0;
  root_dir_start_cluster = 0;
  fs_info_sector = 0;
  alt_boot_sector = 0;
  physical_drive_num = 0;
  extended_boot_sig = 0;
  volume_id = 0;
  volume_label = [];
  fs_type = [];
  cluster_order = 0;
  num_data_clusters = 0;
}

abbrev read : Volume
read = record blank {
  bytes_per_sector = 512;
  sector_order = 9;
  sectors_per_cluster = 2;
  sectors_per_cluster_order = 1;
  reserved_sectors = 32;
  num_tables = 2;
  media_descriptor = 248;
  total_sectors = 16384;
  sectors_per_fat = 65;
  root_dir_start_cluster = 2;
  fs_info_sector = 1;
  alt_boot_sector = 6;
  physical_drive_num = 128;
  extended_boot_sig = 41;
  volume_id = 1;
  cluster_order = 10;
  num_data_clusters = 8176;
}

is_accepted : read_boot_fields clzl blank boot_sec ≡ accepted read
unfolding read_boot_fields read_dos_2_0_bpb bsr check_sector is_power_of_2 clzl log check_cluster
    read_tables read_dos_3_31_bpb read_fat32_ebpb read_sectors_per_fat read_fat32_fields info_sector
    read_nonfat32_ebpb count_clusters remove_trailing_spaces num_data_sectors c_string
is_accepted = refl

read_boot_fields_lem_example : IsAccepted read
read_boot_fields_lem_example =
    read_boot_fields_lem clzl blank read boot_sec clzl-IsClzl (omega arith) (omega arith)
      is_accepted

-- The entries of a table of 65 sectors, all free.
abbrev free_map : List ℕ
free_map = replicate 8320 0

-- A volume of a hundred thousand sectors.
abbrev large_sec : BootSector
large_sec = record boot_sec { total_sectors = 0; total_sectors_32 = 100000 }

abbrev large_read : Volume
large_read = record read { total_sectors = 0; num_data_clusters = 2147483632 }
