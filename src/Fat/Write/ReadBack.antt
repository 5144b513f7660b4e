-- ===== src/Fat/Write/ReadBack.antt =====
-- `fat_file_pread` of fat_file.c gives what `fat_file_pwrite` has written.
use fa_maf_sis_op.Prelude.{
  ℕ, suc, ◌+◌, ◌-◌, ◌*◌, ◌/◌, ◌≤◌, ◌<◌, ◌≡◌, ◌≢◌, ap, ◌∙◌, true, some, List, [], ◌∷◌, All, length,
  length-append, take, drop, arith,
}
use native.Mathlib.Nat.{mul-suc, div-lt_iff_lt-mul, le-mul_of_pos_right}
use fa_maf_sis_op.Fat.Dates.{Tm}
use fa_maf_sis_op.Fat.Disk.{DiskApi, bytes_at}
use fa_maf_sis_op.Fat.Disk.Transfer.{Reads, Writes, length-bytes_at}
use fa_maf_sis_op.Fat.Entry.{DirEntry}
use fa_maf_sis_op.Fat.FatFile.{FatFile}
use fa_maf_sis_op.Fat.Read.{min, fat_file_pread}
use fa_maf_sis_op.Fat.Read.Contents.{contents}
use fa_maf_sis_op.Fat.Read.Correct.{fat_file_pread_lem}
use fa_maf_sis_op.Fat.Table.{FatTable, is_valid_cluster_number, bytes_per_cluster, cluster_offset}
use fa_maf_sis_op.Fat.Table.Chain.{Chain, IsFat32}
use fa_maf_sis_op.Fat.Table.Sizes.{bytes_per_cluster_pos}
use fa_maf_sis_op.Fat.Truncate.{max}
use fa_maf_sis_op.Fat.Write.{fat_file_pwrite}
use fa_maf_sis_op.Fat.Write.Overwrite.{take-drop-overwrite}
use fa_maf_sis_op.Fat.Write.Clusters.{IsNumber}
use fa_maf_sis_op.Fat.Write.EntryKept.{IsNamed}
use fa_maf_sis_op.Fat.Write.Correct.{fat_file_pwrite_lem}

length-contents :
    (table : FatTable) (k : ℕ → ℕ) (cs : List ℕ)
    → length (contents table k cs) ≡ bytes_per_cluster table * length cs
length-contents table k [] = omega arith
length-contents table k (c ∷ cs) = omega (
  arith,
  length-append (bytes_at k (cluster_offset table c) (bytes_per_cluster table))
      (contents table k cs),
  length-bytes_at k (cluster_offset table c) (bytes_per_cluster table),
  length-contents table k cs,
  mul-suc (bytes_per_cluster table) (length cs),
)

max-bounds : (a b : ℕ) → (a ≤ max a b) × (b ≤ max a b) × ((c : ℕ) → a ≤ c → b ≤ c → max a b ≤ c)
unfolding max
max-bounds a b = ground arith

min-all : (a b : ℕ) → a ≤ b → min a b ≡ a
unfolding min
min-all a b h = ground arith

module _ (api : DiskApi) (reads : Reads api) (writes : Writes api) where
  -- What `fat_file_pwrite` writes at an offset within a file, `fat_file_pread` of as many bytes at that
  -- offset of the file that results gives back, on a disk that takes every write and can be read. The
  -- volume is a FAT32 one with clusters of at least 32 bytes; the chain of the file has room for its
  -- size and for the bytes, of which there is at least one, and does not hold the parent's first
  -- cluster; the bytes end below 4 GiB; the entry has a name of eight characters and an extension of
  -- three; and there is more fuel than bytes.
  pub fat_file_pread-fat_file_pwrite :
      (fuel : ℕ) (gmtime : ℕ → Tm) (now later : ℕ) (table : FatTable) (disk : api.Disk)
      (file parent : FatFile) (buf : List ℕ) (offset : ℕ) (ds : List ℕ)
      → IsFat32 table
      → is_valid_cluster_number table file.start_cluster ≡ true
      → Chain table file.start_cluster ds
      → file.dentry.file_size ≤ bytes_per_cluster table * suc (length ds)
      → offset ≤ file.dentry.file_size
      → 0 < length buf
      → offset + length buf ≤ bytes_per_cluster table * suc (length ds)
      → offset + length buf < 0x100000000
      → length buf < fuel
      → IsNamed file.dentry
      → 5 ≤ table.cluster_order
      → IsNumber parent.start_cluster
      → All (λ c. c ≢ parent.start_cluster) (file.start_cluster ∷ ds)
      → (e e' : DirEntry) × (after final : api.Disk) × (fat_file_pwrite api fuel gmtime now table
            disk file parent buf offset
          ≡ some (length buf, table, record file { dentry = e }, after))
        × (fat_file_pread api fuel gmtime later table after
              (record file { dentry = e })
              parent
              (length buf)
              offset
            ≡ some (buf, length buf, record file { dentry = e' }, final))
  unfolding bytes_per_cluster
  fat_file_pread-fat_file_pwrite fuel gmtime now later table disk file parent buf offset ds fat32 ok
        chain has_room within some_bytes room small enough named large number others =
      let b = bytes_per_cluster table in
      let cs = file.start_cluster ∷ ds in
      let (e, after, eq, sized, stored, kept) =
        fat_file_pwrite_lem api writes fuel gmtime now table disk file parent buf offset ds fat32 ok
          chain within some_bytes room small enough named large number others in
      let bounds = max-bounds (offset + length buf) file.dentry.file_size in
      let fits : offset / b < 0x100000000 =
        (div-lt_iff_lt-mul (bytes_per_cluster_pos table)).1
          (omega (arith, le-mul_of_pos_right 0x100000000 (bytes_per_cluster_pos table))) in
      let (e', final, eq') =
        fat_file_pread_lem api reads fuel gmtime later table after (record file { dentry = e })
          parent (length buf) offset ds fat32 ok chain
          (omega (arith, bounds.2 (b * suc (length ds)) room has_room)) (omega arith) fits enough in
      let all = min-all (length buf) (e.file_size - offset) (omega arith) in
      (
        e,
        e',
        after,
        final,
        eq,
        eq'
            ∙ ap
                (λ n. some (
                  take n (drop offset (contents table (api.content after) cs)),
                  n,
                  record file { dentry = e' },
                  final,
                ))
                all
            ∙ ap (λ x. some (x, length buf, record file { dentry = e' }, final))
                (ap (λ x. take (length buf) (drop offset x)) stored
                  ∙ take-drop-overwrite (contents table (api.content disk) cs) offset buf
                      (omega (arith, length-contents table (api.content disk) cs))),
      )
