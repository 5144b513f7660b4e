-- ===== src/Fat/Write/Correct.antt =====
-- `fat_file_pwrite` of fat_file.c on a file whose chain has room for the buffer.
use fa_maf_sis_op.Prelude.{
  ℕ, suc, ◌+◌, ◌-◌, ◌*◌, ◌/◌, ◌%◌, ◌≤◌, ◌<◌, ◌≡◌, ◌≢◌, refl, ap, sym, ◌∙◌, true, false, Option,
  some, List, [], ◌∷◌, ◌++◌, All, All-drop, ◌==◌, if◌then◌else◌, ltb, length, drop, arith,
}
use native.Mathlib.Nat.{
  mod-lt, div-lt_iff_lt-mul, le-mul_of_pos_right, mul_comm, mul-add, div-add-mod,
}
use fa_maf_sis_op.Fat.Memory.{u32}
use fa_maf_sis_op.Fat.Dates.{Tm, fill_time}
use fa_maf_sis_op.Fat.Disk.{DiskApi, bytes_at}
use fa_maf_sis_op.Fat.Disk.Transfer.{Writes}
use fa_maf_sis_op.Fat.Entry.{
  DirEntry, fill_dentry_time_now, fill_modified_dates, fill_created_dates,
}
use fa_maf_sis_op.Fat.FatFile.{FatFile, write_dir_entry}
use fa_maf_sis_op.Fat.Read.Contents.{contents, From, Chain-From}
use fa_maf_sis_op.Fat.Table.{FatTable, is_valid_cluster_number, bytes_per_cluster, cluster_offset}
use fa_maf_sis_op.Fat.Table.Chain.{Chain, IsFat32, is_valid_cluster_number_lem}
use fa_maf_sis_op.Fat.Table.Acyclic.{Chain-acyclic}
use fa_maf_sis_op.Fat.Table.Sizes.{bytes_per_cluster_pos}
use fa_maf_sis_op.Fat.Truncate.{max}
use fa_maf_sis_op.Fat.Write.{
  write_clusters, finish_write, write_from, fat_file_pwrite, first_cluster,
}
use fa_maf_sis_op.Fat.Write.Overwrite.{overwrite}
use fa_maf_sis_op.Fat.Write.Clusters.{
  IsNumber, Distinct, written, written-Away, cluster-Away, cluster_offset-Apart, contents-written,
}
use fa_maf_sis_op.Fat.Write.Loop.{write_clusters_lem}
use fa_maf_sis_op.Fat.Write.First.{first_cluster_lem}
use fa_maf_sis_op.Fat.Write.EntryKept.{IsNamed, write_dir_entry-Away}

-- The clusters of a chain are numbers, and different ones.
pub Chain-Distinct :
    (table : FatTable) (c : ℕ) (ds : List ℕ)
    → IsFat32 table
    → is_valid_cluster_number table c ≡ true
    → Chain table c ds
    → Distinct (c ∷ ds)
Chain-Distinct table c [] fat32 ok chain =
    (omega (arith, is_valid_cluster_number_lem table c fat32 ok), tt, tt)
Chain-Distinct table c (d ∷ ds) fat32 ok (link, chain) = (
  omega (arith, is_valid_cluster_number_lem table c fat32 ok),
  Chain-acyclic table c (d ∷ ds) (link, chain),
  Chain-Distinct table d ds fat32 link.1 chain,
)

-- Contents of clusters whose bytes are the same.
contents-same :
    (table : FatTable) (k k' : ℕ → ℕ) (cs : List ℕ)
    → All
        (λ c.
          bytes_at k' (cluster_offset table c) (bytes_per_cluster table)
          ≡ bytes_at k (cluster_offset table c) (bytes_per_cluster table))
        cs
    → contents table k' cs ≡ contents table k cs
contents-same table k k' [] h = refl
contents-same table k k' (c ∷ cs) (here, rest) =
    ap (λ r. r ++ contents table k' cs) here
    ∙ ap (λ r. bytes_at k (cluster_offset table c) (bytes_per_cluster table) ++ r)
        (contents-same table k k' cs rest)

new_size :
    (o n f : ℕ)
    → o + n < 0x100000000
    → (if ltb f (o + n - 0) then u32 (o + n - 0) else f) ≡ max (o + n) f
unfolding max
new_size o n f h = ground arith

-- The end of a write of all bytes.
finish-all :
    (api : DiskApi) (gmtime : ℕ → Tm) (now : ℕ) (file parent : FatFile) (size offset : ℕ)
    (table : FatTable) (disk : api.Disk)
    → offset + size < 0x100000000
    → IsNamed file.dentry
    → (e : DirEntry) × (finish_write api gmtime now file parent size offset (0, table, disk) ≡ (
      size,
      table,
      record file { dentry = e },
      (write_dir_entry api table disk parent (record file { dentry = e })).1,
    ))
      × (e.file_size ≡ max (offset + size) file.dentry.file_size)
      × IsNamed e
unfolding finish_write fill_dentry_time_now fill_created_dates fill_modified_dates fill_time max
finish-all api gmtime now file parent size offset table disk fits named = (
  _,
  ap
      (λ s. (
        s,
        table,
        (finish_write api gmtime now file parent size offset (0, table, disk)).2,
        (finish_write api gmtime now file parent size offset (0, table, disk)).3,
      ))
      {x = size - 0} {y = size} (omega arith),
  new_size offset size file.dentry.file_size fits,
  named,
)

-- The file has got the buffer: all of it is counted, the size covers it, the contents of the chain hold
-- it at the offset and are as before elsewhere, and so is every cluster but the parent's.
abbrev pub Wrote :
    (api : DiskApi)
    → FatTable
    → api.Disk
    → (file parent : FatFile) → (buf : List ℕ) → (offset : ℕ) → List ℕ
    → Option (ℕ × FatTable × FatFile × api.Disk)
    → Type 0
Wrote api table disk file parent buf offset ds r =
    (e : DirEntry) × (after : api.Disk) × (r
      ≡ some (length buf, table, record file { dentry = e }, after))
    × (e.file_size ≡ max (offset + length buf) file.dentry.file_size)
    × (contents table (api.content after) (file.start_cluster ∷ ds)
        ≡ overwrite (contents table (api.content disk) (file.start_cluster ∷ ds)) offset buf)
    × ((d : ℕ)
        → IsNumber d
        → d ≢ parent.start_cluster
        → All (λ c. c ≢ d) (file.start_cluster ∷ ds)
        → bytes_at (api.content after) (cluster_offset table d) (bytes_per_cluster table)
          ≡ bytes_at (api.content disk) (cluster_offset table d) (bytes_per_cluster table))

module _ (api : DiskApi) (writes : Writes api) where
  write_from-all :
      (fuel : ℕ) (gmtime : ℕ → Tm) (now : ℕ) (table : FatTable) (disk after : api.Disk)
      (file parent : FatFile) (buf : List ℕ) (offset c : ℕ)
      → 1 ≤ c
      → write_clusters api fuel table disk c buf offset ≡ some (0, table, after)
      → write_from api fuel gmtime now file parent buf offset (c, table, disk)
        ≡ some (finish_write api gmtime now file parent (length buf) offset (0, table, after))
  unfolding write_from
  write_from-all fuel gmtime now table disk after file parent buf offset c h eq =
      rw (is_cluster, eq)
    where
      is_cluster : (c == 0) ≡ false
      is_cluster = ground arith

  pwrite-parts :
      (fuel : ℕ) (gmtime : ℕ → Tm) (now : ℕ) (table : FatTable) (disk after : api.Disk)
      (file parent : FatFile) (buf : List ℕ) (offset c : ℕ)
      → offset ≤ file.dentry.file_size
      → 1 ≤ c
      → first_cluster api table disk file offset ≡ some (c, table, disk)
      → write_clusters api fuel table disk c buf offset ≡ some (0, table, after)
      → fat_file_pwrite api fuel gmtime now table disk file parent buf offset
        ≡ some (finish_write api gmtime now file parent (length buf) offset (0, table, after))
  unfolding fat_file_pwrite
  pwrite-parts fuel gmtime now table disk after file parent buf offset c within h first eq =
      rw (no_gap, first)
        (write_from-all fuel gmtime now table disk after file parent buf offset c h eq)
    where
      no_gap : ltb file.dentry.file_size offset ≡ false
      no_gap = ground arith

  -- What the write of the entry leaves of clusters other than the parent's.
  kept :
      (table : FatTable) (disk : api.Disk) (file parent : FatFile) (e : DirEntry) (d : ℕ)
      → IsNamed e
      → 5 ≤ table.cluster_order
      → IsNumber parent.start_cluster
      → IsNumber d
      → d ≢ parent.start_cluster
      → bytes_at
          (api.content (write_dir_entry api table disk parent (record file { dentry = e })).1)
          (cluster_offset table d)
          (bytes_per_cluster table)
        ≡ bytes_at (api.content disk) (cluster_offset table d) (bytes_per_cluster table)
  kept table disk file parent e d named large number number' ne =
      write_dir_entry-Away api writes table disk parent (record file { dentry = e })
        (cluster_offset table d) (bytes_per_cluster table) named large
        (cluster_offset-Apart table d parent.start_cluster number' number ne)

  all_kept :
      (table : FatTable) (disk : api.Disk) (file parent : FatFile) (e : DirEntry) (cs : List ℕ)
      → IsNamed e
      → 5 ≤ table.cluster_order
      → IsNumber parent.start_cluster
      → Distinct cs
      → All (λ c. c ≢ parent.start_cluster) cs
      → contents table
          (api.content (write_dir_entry api table disk parent (record file { dentry = e })).1)
          cs
        ≡ contents table (api.content disk) cs
  all_kept table disk file parent e [] named large number distinct others = refl
  all_kept table disk file parent e (c ∷ cs) named large number (number', apart, distinct)
        (ne, others) =
      λ i.
        kept table disk file parent e c named large number number' ne i
        ++ all_kept table disk file parent e cs named large number distinct others i

  -- A write of some bytes, from the position of its first cluster on.
  wrote :
      (fuel : ℕ) (gmtime : ℕ → Tm) (now : ℕ) (table : FatTable) (disk : api.Disk)
      (file parent : FatFile) (buf : List ℕ) (offset : ℕ) (ds : List ℕ)
      (r : From table (file.start_cluster ∷ ds) (offset / bytes_per_cluster table))
      → IsFat32 table
      → is_valid_cluster_number table file.start_cluster ≡ true
      → Chain table file.start_cluster ds
      → offset ≤ file.dentry.file_size
      → offset + length buf ≤ bytes_per_cluster table * suc (length ds)
      → offset + length buf < 0x100000000
      → length buf < fuel
      → IsNamed file.dentry
      → 5 ≤ table.cluster_order
      → IsNumber parent.start_cluster
      → All (λ c. c ≢ parent.start_cluster) (file.start_cluster ∷ ds)
      → Wrote api table disk file parent buf offset ds
          (fat_file_pwrite api fuel gmtime now table disk file parent buf offset)
  wrote fuel gmtime now table disk file parent buf offset ds r fat32 ok chain within room small
        enough named large number others =
      let b = bytes_per_cluster table in
      let q = offset / b in
      let m = offset % b in
      let cs = file.start_cluster ∷ ds in
      let distinct = Chain-Distinct table file.start_cluster ds fat32 ok chain in
      let whole : offset ≡ b * q + m = omega (arith, div-add-mod offset b) in
      let lt : m < b = mod-lt offset (bytes_per_cluster_pos table) in
      let fits : q < 0x100000000 =
        (div-lt_iff_lt-mul (bytes_per_cluster_pos table)).1
          (omega (arith, le-mul_of_pos_right 0x100000000 (bytes_per_cluster_pos table))) in
      let (after, eq, stored) =
        write_clusters_lem api writes fuel table disk r.first r.others buf offset fat32 r.chain
          enough (omega (arith, ap (λ k. b * k) r.count, mul-add b (suc (length r.others)) q)) in
      let (e, finished, sized, named') =
        finish-all api gmtime now file parent (length buf) offset table after small named in
      let final = (write_dir_entry api table after parent (record file { dentry = e })).1 in
      let over : api.content after ≡ written table (api.content disk) (drop q cs) m buf =
        stored ∙ ap (λ x. written table (api.content disk) x m buf) (sym r.rest) in
      (
        e,
        final,
        pwrite-parts fuel gmtime now table disk after file parent buf offset r.first within
              (is_valid_cluster_number_lem table r.first fat32 r.valid).0
              (first_cluster_lem api table disk file ds fat32 ok chain offset q r refl fits) eq
            ∙ ap some finished,
        sized,
        all_kept table after file parent e cs named' large number distinct others
            ∙ ap (λ k. contents table k cs) over
            ∙ contents-written table (api.content disk) cs q m buf offset whole (omega arith)
                distinct,
        λ d number' ne apart.
            kept table after file parent e d named' large number number' ne
            ∙ ap (λ k. bytes_at k (cluster_offset table d) b) over
            ∙ written-Away table (api.content disk) (drop q cs) m buf (cluster_offset table d) b
                (omega arith) (All-drop _ q cs (cluster-Away table d cs number' distinct apart)),
      )

  -- A write of some bytes at an offset within a file of a FAT32 volume whose chain has room for them, on
  -- a disk that takes every write: `fat_file_pwrite` writes all of them. The size of the file is then at
  -- least the end of the write and no smaller than before, the contents of its chain are the old ones
  -- with the bytes over them from the offset on, and the bytes of every cluster that is neither in the
  -- chain nor the first of the parent are as before. The file stays below 4 GiB, its entry has a name of
  -- eight characters and an extension of three, a cluster has at least 32 bytes, the parent's first
  -- cluster is not in the chain, and there is more fuel than bytes.
  pub fat_file_pwrite_lem :
      (fuel : ℕ) (gmtime : ℕ → Tm) (now : ℕ) (table : FatTable) (disk : api.Disk)
      (file parent : FatFile) (buf : List ℕ) (offset : ℕ) (ds : List ℕ)
      → IsFat32 table
      → is_valid_cluster_number table file.start_cluster ≡ true
      → Chain table file.start_cluster ds
      → offset ≤ file.dentry.file_size
      → 0 < length buf
      → offset + length buf ≤ bytes_per_cluster table * suc (length ds)
      → offset + length buf < 0x100000000
      → length buf < fuel
      → IsNamed file.dentry
      → 5 ≤ table.cluster_order
      → IsNumber parent.start_cluster
      → All (λ c. c ≢ parent.start_cluster) (file.start_cluster ∷ ds)
      → Wrote api table disk file parent buf offset ds
          (fat_file_pwrite api fuel gmtime now table disk file parent buf offset)
  fat_file_pwrite_lem fuel gmtime now table disk file parent buf offset ds fat32 ok chain within
        some_bytes room =
      wrote fuel gmtime now table disk file parent buf offset ds
        (Chain-From table file.start_cluster ds (offset / bytes_per_cluster table) ok chain (
          (div-lt_iff_lt-mul (bytes_per_cluster_pos table)).1
            (omega (arith, mul_comm (bytes_per_cluster table) (suc (length ds))))))
        fat32 ok chain within room
