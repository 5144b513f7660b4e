-- ===== src/Fat/Volume/Count.antt =====
-- The number of clusters that `read_boot_sector` of fat_volume.c counts.
use fa_maf_sis_op.Prelude.{ℕ, ◌+◌, ◌-◌, ◌*◌, ◌/◌, ◌^◌}
use fa_maf_sis_op.Fat.Volume.{Volume}

-- The sectors that are not in the data area, but for the tables.
abbrev pub other_sectors : Volume → ℕ
other_sectors v = v.reserved_sectors + v.max_root_entries * 32 / 2 ^ v.sector_order

-- The sectors before the data area, as `fat_volume_mount` adds them up.
abbrev pub sectors_before_data : Volume → ℕ
sectors_before_data v =
    v.num_tables * v.sectors_per_fat
    + v.reserved_sectors
    + v.max_root_entries / 2 ^ (v.sector_order - 5)
