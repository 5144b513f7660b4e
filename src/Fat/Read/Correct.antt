-- ===== src/Fat/Read/Correct.antt =====
-- `fat_file_pread` of fat_file.c gives a part of the contents of the file's chain of clusters.
use fa_maf_sis_op.Prelude.{
  ℕ, suc, ◌+◌, ◌-◌, ◌*◌, ◌/◌, ◌%◌, ◌^◌, ◌≤◌, ◌<◌, ◌≡◌, ◌⊎◌, inl, inr, ap, sym, ◌∙◌, true, false,
  some, List, [], ◌∷◌, ◌==◌, ltb, length, take, drop, arith,
}
use native.Mathlib.Nat.{mul-add, mul_comm, div-add-mod, div-lt_iff_lt-mul}
use fa_maf_sis_op.Fat.Memory.{◌>>=◌}
use fa_maf_sis_op.Fat.Dates.{Tm}
use fa_maf_sis_op.Fat.Disk.{DiskApi}
use fa_maf_sis_op.Fat.Disk.Transfer.{Reads}
use fa_maf_sis_op.Fat.Entry.{DirEntry, fill_dentry_time_now}
use fa_maf_sis_op.Fat.Table.{FatTable, is_valid_cluster_number, bytes_per_cluster, seek_cluster}
use fa_maf_sis_op.Fat.Table.Chain.{Chain, IsFat32, seek_cluster-Chain, is_valid_cluster_number_lem}
use fa_maf_sis_op.Fat.Table.Sizes.{bytes_per_cluster_pos}
use fa_maf_sis_op.Fat.FatFile.{FatFile, write_dir_entry}
use fa_maf_sis_op.Fat.Read.{min, read_clusters, finish_read, read_from, fat_file_pread}
use fa_maf_sis_op.Fat.Read.Contents.{contents, Chain-From, contents-drop}
use fa_maf_sis_op.Fat.Read.Loop.{Gives, read_clusters_lem}

-- Nothing is read, or something within the size and the bound.
min-cases : (n b : ℕ) → (min n b ≡ 0) ⊎ ((0 < min n b) × (min n b ≤ n) × (min n b ≤ b))
unfolding min
min-cases n b = ground arith

module _ (api : DiskApi) (reads : Reads api) where
  -- The end of a read that found its first cluster.
  read_from_lem :
      (fuel : ℕ) (gmtime : ℕ → Tm) (now : ℕ) (table : FatTable) (disk : api.Disk)
      (file parent : FatFile) (size offset c : ℕ) (bytes : List ℕ)
      → 0 < c
      → Gives api disk bytes (read_clusters api fuel table disk c [] size offset)
      → (e : DirEntry) × (after : api.Disk) × (read_from api fuel gmtime now table disk file parent
            size offset c
          ≡ some (bytes, size, record file { dentry = e }, after))
  unfolding read_from finish_read
  read_from_lem fuel gmtime now table disk file parent size offset c bytes h (after, eq, kept) =
      let e = (fill_dentry_time_now gmtime now file.dentry false false).1 in
      let written = write_dir_entry api table after parent (record file { dentry = e }) in
      (
        e,
        written.1,
        rw (is_cluster, eq)
            (ap (λ n. some (bytes, n, record file { dentry = e }, written.1)) {x = size - 0}
              {y = size} (omega arith)),
      )
    where
      is_cluster : (c == 0) ≡ false
      is_cluster = ground arith

  -- A read of something, from the search of its first cluster on.
  read_some :
      (fuel : ℕ) (gmtime : ℕ → Tm) (now : ℕ) (table : FatTable) (disk : api.Disk)
      (file parent : FatFile) (size offset : ℕ) (ds : List ℕ)
      → IsFat32 table
      → is_valid_cluster_number table file.start_cluster ≡ true
      → Chain table file.start_cluster ds
      → offset / bytes_per_cluster table < 0x100000000
      → 0 < size
      → offset + size ≤ bytes_per_cluster table * suc (length ds)
      → size < fuel
      → (e : DirEntry) × (after : api.Disk) × ((seek_cluster table file.start_cluster offset
            >>= read_from api fuel gmtime now table disk file parent size offset)
          ≡ some (
            take size (drop offset (contents table (api.content disk) (file.start_cluster ∷ ds))),
            size,
            record file { dentry = e },
            after,
          ))
  unfolding bytes_per_cluster
  read_some fuel gmtime now table disk file parent size offset ds fat32 ok chain fits some_bytes
        room enough =
      let b = bytes_per_cluster table in
      let q = offset / b in
      let content = api.content disk in
      let cs = file.start_cluster ∷ ds in
      let whole : offset ≡ b * q + offset % b = omega (arith, div-add-mod offset b) in
      let short : q < suc (length ds) =
        (div-lt_iff_lt-mul (bytes_per_cluster_pos table)).1
          (omega (arith, mul_comm b (suc (length ds)))) in
      let r = Chain-From table file.start_cluster ds q ok chain short in
      let rest = r.rest in
      let given =
        read_clusters_lem api reads fuel table disk r.first r.others [] size offset fat32 r.valid
          r.chain enough
          (omega (arith, r.count, ap (λ k. b * k) r.count, mul-add b (suc (length r.others)) q)) in
      let (e, after, eq) =
        read_from_lem fuel gmtime now table disk file parent size offset r.first _
          ((is_valid_cluster_number_lem table r.first fat32 r.valid).0) given in
      (
        e,
        after,
        ap (λ s. s >>= read_from api fuel gmtime now table disk file parent size offset)
              (seek_cluster-Chain table file.start_cluster offset ds fat32 ok chain fits
                ∙ ap some r.at)
            ∙ eq
            ∙ ap (λ x. some (take size x, size, record file { dentry = e }, after))
                (sym (
                  contents-drop table content cs q (offset % b) offset (omega arith) whole
                  ∙ ap (λ x. drop (offset % b) (contents table content x)) rest)),
      )

  -- A file of a FAT32 volume whose chain has room for its size, and a read from an offset within the
  -- file, on a disk that can be read: `fat_file_pread` reads as many bytes as were asked for, or as the
  -- file has behind the offset, and gives exactly these bytes of the contents of its chain. Of the file
  -- only the entry changes. The offset counts fewer than 2^32 clusters.
  pub fat_file_pread_lem :
      (fuel : ℕ) (gmtime : ℕ → Tm) (now : ℕ) (table : FatTable) (disk : api.Disk)
      (file parent : FatFile) (size offset : ℕ) (ds : List ℕ)
      → IsFat32 table
      → is_valid_cluster_number table file.start_cluster ≡ true
      → Chain table file.start_cluster ds
      → file.dentry.file_size ≤ bytes_per_cluster table * suc (length ds)
      → offset ≤ file.dentry.file_size
      → offset / 2 ^ table.cluster_order < 0x100000000
      → size < fuel
      → (e : DirEntry) × (after : api.Disk) × (fat_file_pread api fuel gmtime now table disk file
            parent size offset
          ≡ some (
            take
                (min size (file.dentry.file_size - offset))
                (drop offset (contents table (api.content disk) (file.start_cluster ∷ ds))),
            min size (file.dentry.file_size - offset),
            record file { dentry = e },
            after,
          ))
  unfolding fat_file_pread bytes_per_cluster
  fat_file_pread_lem fuel gmtime now table disk file parent size offset ds fat32 ok chain room
        within fits enough =
      elim (min-cases size (file.dentry.file_size - offset)) [
        | inl e ↦ (file.dentry, disk, rw (inside, e))
        | inr (h, b, c) ↦
            let n = min size (file.dentry.file_size - offset) in
            let (e, after, eq) =
              read_some fuel gmtime now table disk file parent n offset ds fat32 ok chain fits h
                (omega arith) (omega arith) in
            (e, after, rw (inside, not_zero n h) eq)
      ]
    where
      not_zero : (n : ℕ) → 0 < n → (n == 0) ≡ false
      not_zero n h = ground arith

      inside : ltb file.dentry.file_size offset ≡ false
      inside = ground arith
