-- ===== src/Fat/Table.antt =====
-- lab03/sistop-famaf-so25lab3g34/fat_table.c and fat_table.h: the file allocation table. An entry
-- that is read or written behind the mapped table is undefined behaviour, here `none`. The `pwrite`
-- of the system is a parameter, which holds the file descriptor; offsets are not negative.
pub mod Chain
pub mod Free
pub mod Update
pub mod Extend
pub mod Acyclic
pub mod Sizes
use fa_maf_sis_op.Prelude.{
  ℕ, zero, suc, ◌+◌, ◌-◌, ◌*◌, ◌/◌, ◌%◌, ◌^◌, Bool, true, false, not, ◌&&◌, Option, none, some,
  List, [], ◌∷◌, ltb, leb, ◌==◌, if◌then◌else◌, length, get_elem?,
}
use fa_maf_sis_op.Prelude.Int.{ℤ, pos, negsuc}
use Prim.Native.Nat.{bit_and}
use fa_maf_sis_op.Fat.Memory.{◌>>=◌, set_elem, u32, size_t}

-- `FAT_CLUSTER_END_OF_CHAIN_MIN`, `FAT_CLUSTER_END_OF_CHAIN_MAX`, `FAT_CLUSTER_FREE` and
-- `FAT_CLUSTER_BAD_SECTOR`
abbrev pub end_of_chain_min : ℕ
end_of_chain_min = 0x0FFFFFF8

abbrev pub end_of_chain_max : ℕ
end_of_chain_max = 0x0FFFFFFF

abbrev pub cluster_free : ℕ
cluster_free = 0

abbrev pub bad_sector : ℕ
bad_sector = 0x0FFFFFF7

pub record FatTable : Type 0 where
  pub fat_map : List ℕ
  pub fat_offset : ℕ
  pub num_data_clusters : ℕ
  pub data_start_offset : ℕ
  pub cluster_order : ℕ

unfoldable pub is_valid_cluster_number : FatTable → ℕ → Bool
is_valid_cluster_number table cluster =
    leb 1 cluster && ltb cluster (u32 (table.num_data_clusters + 2))

-- What `fat_table_get_next_cluster` makes of the entry that it has read.
unfoldable pub next_of_entry : FatTable → Option ℕ → Option ℕ
next_of_entry table none = none
next_of_entry table (some next_cluster) =
    if not (is_valid_cluster_number table next_cluster)
    then some end_of_chain_max
    else some next_cluster

unfoldable pub get_next_cluster : FatTable → ℕ → Option ℕ
get_next_cluster table cur_cluster = next_of_entry table (get_elem? table.fat_map cur_cluster)

-- The shift is one of an `int` in the code, and the order below 31, as that of a volume always is.
unfoldable pub bytes_per_cluster : FatTable → ℕ
bytes_per_cluster table = 2 ^ table.cluster_order

unfoldable pub mask_offset : ℕ → FatTable → ℕ
mask_offset offset table = bit_and offset (bytes_per_cluster table - 1)

unfoldable pub get_cluster_remaining_bytes : FatTable → (bytes_remaining offset : ℕ) → ℕ
get_cluster_remaining_bytes table bytes_remaining offset =
    let in_cluster = bytes_per_cluster table - mask_offset offset table in
    if ltb in_cluster bytes_remaining then in_cluster else bytes_remaining

unfoldable pub get_clusters_for_size : FatTable → ℕ → ℕ
get_clusters_for_size table file_size =
    u32 (size_t (file_size + (bytes_per_cluster table - 1)) / 2 ^ table.cluster_order)

-- The test of the `while` of `fat_table_get_next_free_cluster` at index `i`; `rest` goes on.
unfoldable pub free_entry : Option ℕ → ℕ → Option ℕ → Option ℕ
free_entry none i rest = none
free_entry (some entry) i rest = if not (entry == cluster_free) then rest else some i

-- That `while` from index `i` on; `none` also when the fuel runs out.
unfoldable pub find_free : ℕ → List ℕ → ℕ → Option ℕ
find_free zero fat_map i = none
find_free (suc fuel) fat_map i =
    free_entry (get_elem? fat_map i) i (find_free fuel fat_map (u32 (suc i)))

-- The check of what the `while` has found.
unfoldable pub checked_free : FatTable → Option ℕ → Option ℕ
checked_free table none = none
checked_free table (some cluster) =
    if not (is_valid_cluster_number table cluster) then some end_of_chain_max else some cluster

unfoldable pub get_next_free_cluster : FatTable → Option ℕ
get_next_free_cluster table =
    checked_free table (find_free (suc (length table.fat_map)) table.fat_map 2)

-- The difference is a `u32`, and wraps around on clusters 0 and 1.
unfoldable pub cluster_offset : FatTable → ℕ → ℕ
cluster_offset table cluster =
    table.data_start_offset + u32 (cluster + 0xFFFFFFFE) * 2 ^ table.cluster_order

-- What `fat_table_is_cluster_used` tests of the entry.
unfoldable pub entry_used : Option ℕ → Option Bool
entry_used none = none
entry_used (some entry) = some (not (entry == 0))

unfoldable pub is_cluster_used : FatTable → ℕ → Option Bool
is_cluster_used table cluster = entry_used (get_elem? table.fat_map cluster)

-- The volume file: `pwrite` of one entry at an offset, with the number of bytes or -1.
pub record Device : Type 1 where
  pub Disk : Type 0
  pub pwrite : Disk → (word offset : ℕ) → ℤ × Disk

-- `n <= 0`
abbrev pub not_positive : ℤ → Bool
not_positive (pos n) = n == 0
not_positive (negsuc n) = true

module _ (device : Device) where
  -- What follows the `pwrite`: the entry in memory changes only if it was written.
  unfoldable pub after_write :
      FatTable
      → (cur_cluster next_cluster : ℕ) → ℤ × device.Disk
      → Option (ℤ × FatTable × device.Disk)
  after_write table cur_cluster next_cluster (written_bytes, disk) =
      if not_positive written_bytes then some (negsuc 0, table, disk) else (do
        fat_map ← set_elem table.fat_map cur_cluster next_cluster
        some (pos 0, record table { fat_map = fat_map }, disk))

  unfoldable pub set_next_cluster :
      FatTable → device.Disk → (cur_cluster next_cluster : ℕ) → Option (ℤ × FatTable × device.Disk)
  set_next_cluster table disk cur_cluster next_cluster =
      after_write table cur_cluster next_cluster
        (device.pwrite disk next_cluster (u32 (cur_cluster * 4) + table.fat_offset))

-- The `for` of `fat_table_seek_cluster`.
unfoldable pub move_positions : FatTable → ℕ → ℕ → Option ℕ
move_positions table zero start_cluster = some start_cluster
move_positions table (suc positions) start_cluster =
    let next = (do
      cluster ← get_next_cluster table start_cluster
      move_positions table positions cluster) in
    if start_cluster == end_of_chain_max then some 0 else next

unfoldable pub seek_cluster : FatTable → (start_cluster offset : ℕ) → Option ℕ
seek_cluster table start_cluster offset =
    move_positions table (u32 (offset / 2 ^ table.cluster_order)) start_cluster

unfoldable pub is_eoc : ℕ → Bool
is_eoc cluster = leb end_of_chain_min cluster && leb cluster end_of_chain_max

unfoldable pub is_bad_sector : ℕ → Bool
is_bad_sector cluster = cluster == bad_sector

unfoldable pub is_valid : ℕ → Bool
is_valid cluster = not (is_eoc cluster) && not (is_bad_sector cluster)
