-- ===== src/Fat/Table/Sizes.antt =====
-- The sizes in bytes and clusters of fat_table.c.
use fa_maf_sis_op.Prelude.{
  ℕ, suc, ◌+◌, ◌-◌, ◌*◌, ◌/◌, ◌%◌, ◌^◌, ◌≤◌, ◌<◌, ◌≡◌, ◌⊎◌, ltb, if◌then◌else◌, arith,
}
use native.Mathlib.Nat.{
  mod-eq_of_lt, mod-lt, div-lt_iff_lt-mul, lt-div-mul-add, pow-le-pow_right, suc-mul,
  le-mul_of_pos_right,
}
use fa_maf_sis_op.Fat.Bits.{pow_pos, bit_and-mask}
use fa_maf_sis_op.Fat.Table.{
  FatTable, bytes_per_cluster, mask_offset, get_cluster_remaining_bytes, get_clusters_for_size,
}

-- A transfer from an offset ends within the cluster of the offset, transfers at most the bytes that
-- remain and something if any remain, and either all of them or up to the end of the cluster.
pub get_cluster_remaining_bytes_lem :
    (table : FatTable) (bytes_remaining offset : ℕ)
    → let r = get_cluster_remaining_bytes table bytes_remaining offset in
      let in_cluster = offset % bytes_per_cluster table in
      (r ≤ bytes_remaining)
      × (in_cluster + r ≤ bytes_per_cluster table)
      × (0 < bytes_remaining → 0 < r)
      × ((r ≡ bytes_remaining) ⊎ (in_cluster + r ≡ bytes_per_cluster table))
unfolding get_cluster_remaining_bytes mask_offset bytes_per_cluster
get_cluster_remaining_bytes_lem table bytes_remaining offset =
    rw (bit_and-mask table.cluster_order offset) (
      least (2 ^ table.cluster_order) (offset % 2 ^ table.cluster_order)
        (mod-lt offset (pow_pos table.cluster_order)))
  where
    least :
        (b m : ℕ)
        → m < b
        → let r = if ltb (b - m) bytes_remaining then b - m else bytes_remaining in
          (r ≤ bytes_remaining)
          × (m + r ≤ b)
          × (0 < bytes_remaining → 0 < r)
          × ((r ≡ bytes_remaining) ⊎ (m + r ≡ b))
    least b m lt = ground arith

-- The least number of blocks of `b` bytes that hold `size` bytes.
rounded_up :
    (b size : ℕ)
    → 0 < b
    → (size ≤ (size + (b - 1)) / b * b) × ((d : ℕ) → size ≤ d * b → (size + (b - 1)) / b ≤ d)
rounded_up b size h = (
  omega (arith, lt-div-mul-add {a = size + (b - 1)} h),
  λ d le.
      omega (arith, (div-lt_iff_lt-mul {k = b} {x = size + (b - 1)} {y = suc d} h).1 (next d le)),
)
  where
    next : (d : ℕ) → size ≤ d * b → size + (b - 1) < suc d * b
    next d le = omega (arith, suc-mul d b)

-- For a `u32` size and clusters of at most 2^30 bytes, no arithmetic wraps and the result is the least
-- number of clusters that hold the size.
pub get_clusters_for_size_lem :
    (table : FatTable) (size : ℕ)
    → size < 0x100000000
    → table.cluster_order ≤ 30
    → let c = get_clusters_for_size table size in
      (size ≤ c * bytes_per_cluster table) × ((d : ℕ) → size ≤ d * bytes_per_cluster table → c ≤ d)
unfolding get_clusters_for_size bytes_per_cluster
get_clusters_for_size_lem table size fits order =
    let b = 2 ^ table.cluster_order in
    let h = pow_pos table.cluster_order in
    let small = pow-le-pow_right {n = 2} (omega arith) order in
    rw (mod-eq_of_lt (unwrapped small), mod-eq_of_lt (result_fits h)) (rounded_up b size h)
  where
    unwrapped :
        2 ^ table.cluster_order ≤ 2 ^ 30
        → size + (2 ^ table.cluster_order - 1) < 0x10000000000000000
    unwrapped small = omega arith

    result_fits :
        0 < 2 ^ table.cluster_order
        → (size + (2 ^ table.cluster_order - 1)) / 2 ^ table.cluster_order < 0x100000000
    result_fits h =
        omega
          (arith, (rounded_up (2 ^ table.cluster_order) size h).1 size (le-mul_of_pos_right size h))

pub mask_offset_lem :
    (table : FatTable) (offset : ℕ) → mask_offset offset table ≡ offset % bytes_per_cluster table
unfolding mask_offset bytes_per_cluster
mask_offset_lem table offset = bit_and-mask table.cluster_order offset

pub bytes_per_cluster_pos : (table : FatTable) → 0 < bytes_per_cluster table
unfolding bytes_per_cluster
bytes_per_cluster_pos table = pow_pos table.cluster_order
