-- ===== src/Fat/Volume/Boot.antt =====
-- The functions of fat_volume.c that read the boot sector.
use fa_maf_sis_op.Prelude.{
  ℕ, ◌+◌, ◌-◌, ◌*◌, ◌/◌, ◌^◌, not, ◌&&◌, ◌||◌, Option, none, some, List, ◌==◌, if◌then◌else◌, ltb,
  length,
}
use fa_maf_sis_op.Fat.Memory.{u32, size_t}
use fa_maf_sis_op.Fat.Disk.{DiskApi, full_pread}
use fa_maf_sis_op.Fat.Table.{FatTable}
use fa_maf_sis_op.Fat.Volume.{
  Checked, accepted, refused, aborted, ◌>>=◌, BootSector, boot_sector_of_bytes, Volume, c_string,
  remove_trailing_spaces, is_power_of_2, info_sector,
}

module _ (clzl : ℕ → ℕ) where
  -- The position of the highest bit, with an `assert` that there is one.
  unfoldable pub bsr : ℕ → Checked ℕ
  bsr n = if n == 0 then aborted else accepted (63 - clzl n)

  -- The checks of the number of tables, and the fields that follow.
  unfoldable pub read_tables : Volume → BootSector → Checked Volume
  read_tables vol boot_sec =
      if not (boot_sec.num_tables == 1) && not (boot_sec.num_tables == 2)
      then refused
      else accepted (record vol {
        cluster_order = vol.sector_order + vol.sectors_per_cluster_order;
        reserved_sectors = boot_sec.reserved_sectors;
        num_tables = boot_sec.num_tables;
        max_root_entries = boot_sec.max_root_entries;
        total_sectors = boot_sec.total_sectors;
        media_descriptor = boot_sec.media_descriptor;
        sectors_per_fat = boot_sec.sectors_per_fat;
      })

  -- The check of the sectors of a cluster, once their order is known.
  unfoldable pub check_cluster : Volume → BootSector → (order : ℕ) → Checked Volume
  check_cluster vol boot_sec order =
      if not (is_power_of_2 boot_sec.sectors_per_cluster) || ltb 7 order
      then refused
      else read_tables
          (record vol {
            sectors_per_cluster = boot_sec.sectors_per_cluster;
            sectors_per_cluster_order = order;
          })
          boot_sec

  -- The check of the bytes of a sector, once their order is known.
  unfoldable pub check_sector : Volume → BootSector → (order : ℕ) → Checked Volume
  check_sector vol boot_sec order =
      if not (is_power_of_2 boot_sec.bytes_per_sector) || ltb order 5 || ltb 12 order
      then refused
      else (bsr boot_sec.sectors_per_cluster
          >>= check_cluster
              (record vol { bytes_per_sector = boot_sec.bytes_per_sector; sector_order = order })
              boot_sec)

  unfoldable pub read_dos_2_0_bpb : Volume → BootSector → Checked Volume
  read_dos_2_0_bpb vol boot_sec = bsr boot_sec.bytes_per_sector >>= check_sector vol boot_sec

unfoldable pub read_dos_3_31_bpb : Volume → BootSector → Checked Volume
read_dos_3_31_bpb vol boot_sec = accepted (record vol {
  sectors_per_track = boot_sec.sectors_per_track;
  num_heads = boot_sec.num_heads;
  hidden_sectors = boot_sec.hidden_sectors;
})

unfoldable pub read_nonfat32_ebpb : Volume → BootSector → Checked Volume
read_nonfat32_ebpb vol ebpb = accepted (record vol {
  physical_drive_num = ebpb.physical_drive_num;
  extended_boot_sig = ebpb.extended_boot_sig;
  volume_id = ebpb.volume_id;
  volume_label = remove_trailing_spaces (c_string ebpb.volume_label);
  fs_type = remove_trailing_spaces (c_string ebpb.fs_type);
})

-- The 32-bit number of sectors of a table, if there is one; it must fit a `size_t` in bytes.
unfoldable pub read_sectors_per_fat : Volume → (sectors_per_fat : ℕ) → Checked Volume
read_sectors_per_fat vol sectors_per_fat =
    let vol' = record vol { sectors_per_fat = sectors_per_fat } in
    if sectors_per_fat == 0
    then accepted vol
    else if not
        (size_t (sectors_per_fat * 2 ^ vol.sector_order) / 2 ^ vol.sector_order == sectors_per_fat)
    then refused
    else accepted vol'

-- The rest of `read_fat32_ebpb`.
unfoldable pub read_fat32_fields : BootSector → Volume → Checked Volume
read_fat32_fields ebpb vol =
    let sector = info_sector ebpb.fs_info_sector in
    if not (ebpb.version == 0)
    then refused
    else if ebpb.root_dir_start_cluster == 0
    then refused
    else if not (sector == 0) && ltb vol.sector_order 9
    then refused
    else accepted (record vol {
      drive_description = ebpb.drive_description;
      version = ebpb.version;
      root_dir_start_cluster = ebpb.root_dir_start_cluster;
      fs_info_sector = sector;
      alt_boot_sector = ebpb.alt_boot_sector;
    })

unfoldable pub read_fat32_ebpb : Volume → BootSector → Checked Volume
read_fat32_ebpb vol ebpb =
    read_sectors_per_fat vol ebpb.sectors_per_fat_32 >>= read_fat32_fields ebpb

-- The sectors of the data area, and the clusters of it; the differences are `u32`.
unfoldable pub num_data_sectors : Volume → ℕ
num_data_sectors vol = u32 (
    vol.total_sectors
    + (0x100000000 - vol.reserved_sectors)
    + (0x100000000 - vol.max_root_entries * 32 / 2 ^ vol.sector_order))

unfoldable pub count_clusters : Volume → Checked Volume
count_clusters vol =
    accepted
      (record vol { num_data_clusters = num_data_sectors vol / 2 ^ vol.sectors_per_cluster_order })

-- `read_boot_sector` behind the reading of the bytes.
unfoldable pub read_boot_fields : (ℕ → ℕ) → Volume → BootSector → Checked Volume
read_boot_fields clzl vol boot_sec =
    read_dos_2_0_bpb clzl
      (record vol { oem_name = remove_trailing_spaces (c_string boot_sec.oem_name) }) boot_sec
    >>= λ vol. read_dos_3_31_bpb vol boot_sec >>= λ vol.
        read_fat32_ebpb vol boot_sec >>= λ vol. read_nonfat32_ebpb vol boot_sec >>= count_clusters

module _ (api : DiskApi) where
  -- The test of the number of bytes.
  unfoldable pub check_bytes : (ℕ → ℕ) → Volume → List ℕ × api.Disk → Checked Volume × api.Disk
  check_bytes clzl vol (buf, disk) = (
    if not (length buf == 128)
        then refused
        else read_boot_fields clzl vol (boot_sector_of_bytes buf),
    disk,
  )

  unfoldable pub read_boot_sector : (ℕ → ℕ) → Volume → api.Disk → Option (Checked Volume × api.Disk)
  read_boot_sector clzl vol disk = elim (full_pread api 129 disk 128 0) [
    | none ↦ none
    | some r ↦ some (check_bytes clzl vol r)
  ]

-- The table of a volume that `fat_volume_mount` makes, with the map that `map_fat` has mapped.
unfoldable pub mounted : (fat_map : List ℕ) → Volume → FatTable
mounted fat_map vol = record {
  fat_map = fat_map;
  fat_offset = vol.reserved_sectors * 2 ^ vol.sector_order;
  num_data_clusters = vol.num_data_clusters;
  data_start_offset =
      u32 (
        vol.num_tables * vol.sectors_per_fat
        + vol.reserved_sectors
        + vol.max_root_entries / 2 ^ (vol.sector_order - 5))
      * 2 ^ vol.sector_order;
  cluster_order = vol.cluster_order;
}
