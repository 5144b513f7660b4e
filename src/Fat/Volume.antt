-- ===== src/Fat/Volume.antt =====
-- lab03/sistop-famaf-so25lab3g34/fat_volume.c and fat_volume.h: the boot sector and its checks. The
-- compiler's `__builtin_clzl` is a parameter; messages and what is left in `errno` are left out.
pub mod Boot
pub mod PowerOfTwo
pub mod Accepted
pub mod Count
mod Tests
use fa_maf_sis_op.Prelude.{
  ℕ, zero, suc, ◌+◌, ◌-◌, ◌*◌, ◌/◌, ◌^◌, Bool, true, false, not, ◌&&◌, ◌||◌, Option, none, some,
  List, [], ◌∷◌, ◌==◌, if◌then◌else◌, ltb, take, drop, get_or, length, Text,
}
use Prim.Native.Nat.{bit_and}
use fa_maf_sis_op.Fat.Memory.{u32, size_t}
use fa_maf_sis_op.Fat.Disk.{DiskApi, full_pread}
use fa_maf_sis_op.Fat.Entry.{u16_at}
use fa_maf_sis_op.Fat.Table.{FatTable}

-- A result, an error with -1, or a failed `assert`.
pub data Checked {ℓ} (A : Type ℓ) : Type ℓ where
  accepted : A → Checked A
  refused : Checked A
  aborted : Checked A

infixl 5 ◌>>=◌
abbrev pub ◌>>=◌ {ℓ κ} : {A : Type ℓ} {B : Type κ} → Checked A → (A → Checked B) → Checked B
accepted a >>= f = f a
refused >>= f = refused
aborted >>= f = aborted

-- `struct fat_boot_sector_disk`, with the numbers that its bytes stand for.
pub record BootSector : Type 0 where
  pub oem_name : List ℕ
  pub bytes_per_sector : ℕ
  pub sectors_per_cluster : ℕ
  pub reserved_sectors : ℕ
  pub num_tables : ℕ
  pub max_root_entries : ℕ
  pub total_sectors : ℕ
  pub media_descriptor : ℕ
  pub sectors_per_fat : ℕ
  pub sectors_per_track : ℕ
  pub num_heads : ℕ
  pub hidden_sectors : ℕ
  pub total_sectors_32 : ℕ
  pub sectors_per_fat_32 : ℕ
  pub drive_description : ℕ
  pub version : ℕ
  pub root_dir_start_cluster : ℕ
  pub fs_info_sector : ℕ
  pub alt_boot_sector : ℕ
  pub physical_drive_num : ℕ
  pub extended_boot_sig : ℕ
  pub volume_id : ℕ
  pub volume_label : List ℕ
  pub fs_type : List ℕ

abbrev pub u32_at : List ℕ → ℕ → ℕ
u32_at bytes i = u16_at bytes i + 65536 * u16_at bytes (i + 2)

-- The structure that a buffer is read as; it is packed.
unfoldable pub boot_sector_of_bytes : List ℕ → BootSector
boot_sector_of_bytes buf = record {
  oem_name = take 8 (drop 3 buf);
  bytes_per_sector = u16_at buf 11;
  sectors_per_cluster = get_or buf 13 0;
  reserved_sectors = u16_at buf 14;
  num_tables = get_or buf 16 0;
  max_root_entries = u16_at buf 17;
  total_sectors = u16_at buf 19;
  media_descriptor = get_or buf 21 0;
  sectors_per_fat = u16_at buf 22;
  sectors_per_track = u16_at buf 24;
  num_heads = u16_at buf 26;
  hidden_sectors = u32_at buf 28;
  total_sectors_32 = u32_at buf 32;
  sectors_per_fat_32 = u32_at buf 36;
  drive_description = u16_at buf 40;
  version = u16_at buf 42;
  root_dir_start_cluster = u32_at buf 44;
  fs_info_sector = u16_at buf 48;
  alt_boot_sector = u16_at buf 50;
  physical_drive_num = get_or buf 64 0;
  extended_boot_sig = get_or buf 66 0;
  volume_id = u32_at buf 67;
  volume_label = take 11 (drop 71 buf);
  fs_type = take 8 (drop 82 buf);
}

-- The part of `struct fat_volume_s` that the boot sector fills, with the fields of its table.
pub record Volume : Type 0 where
  pub oem_name : Text
  pub bytes_per_sector : ℕ
  pub sector_order : ℕ
  pub sectors_per_cluster : ℕ
  pub sectors_per_cluster_order : ℕ
  pub reserved_sectors : ℕ
  pub num_tables : ℕ
  pub max_root_entries : ℕ
  pub media_descriptor : ℕ
  pub total_sectors : ℕ
  pub sectors_per_fat : ℕ
  pub sectors_per_track : ℕ
  pub num_heads : ℕ
  pub hidden_sectors : ℕ
  pub drive_description : ℕ
  pub version : ℕ
  pub root_dir_start_cluster : ℕ
  pub fs_info_sector : ℕ
  pub alt_boot_sector : ℕ
  pub physical_drive_num : ℕ
  pub extended_boot_sig : ℕ
  pub volume_id : ℕ
  pub volume_label : Text
  pub fs_type : Text
  pub cluster_order : ℕ
  pub num_data_clusters : ℕ

-- The C string in an array: what stands before its first 0.
unfoldable pub c_string : List ℕ → Text
c_string [] = []
c_string (c ∷ bytes) = let rest = c_string bytes in if c == 0 then [] else c ∷ rest

-- A character and what follows it, less the spaces at the end.
unfoldable pub unless_space : ℕ → Text → Text
unless_space c [] = if c == 32 then [] else c ∷ []
unless_space c (d ∷ s) = c ∷ d ∷ s

unfoldable pub remove_trailing_spaces : Text → Text
remove_trailing_spaces [] = []
remove_trailing_spaces (c ∷ s) = unless_space c (remove_trailing_spaces s)

unfoldable pub is_power_of_2 : ℕ → Bool
is_power_of_2 n = (bit_and n (n - 1) == 0) && not (n == 0)

-- `fs_info_sector` is 0 if it is marked as missing.
unfoldable pub info_sector : ℕ → ℕ
info_sector sector = if sector == 0xFFFF then 0 else sector
