-- ===== src/Fat/Create/Correct.antt =====
-- What `fat_file_init` of fat_file.c makes of the table.
use fa_maf_sis_op.Prelude.{
  ℕ, ◌+◌, ◌≤◌, ◌<◌, ◌≡◌, ◌≢◌, refl, ◌∙◌, Bool, true, false, some, List, [], ◌∷◌, All, All-map,
  length, get_elem?-bound, Text, arith,
}
use fa_maf_sis_op.Prelude.Int.{pos}
use fa_maf_sis_op.Fat.Memory.{Written}
use fa_maf_sis_op.Fat.Dates.{Tm, fill_time}
use fa_maf_sis_op.Fat.Disk.{DiskApi, device}
use fa_maf_sis_op.Fat.Entry.{
  DirEntry, zero_entry, attribute_archive, file_start_cluster, fat_file_init_direntry,
  set_first_cluster, fill_dentry_time_now, fill_created_dates, fill_modified_dates,
}
use fa_maf_sis_op.Fat.Entry.Bytes.{file_start_cluster-set_first_cluster}
use fa_maf_sis_op.Fat.FatFile.{FatFile}
use fa_maf_sis_op.Fat.File.Append.{Writes, set_next_cluster-Writes, FirstFree, FirstFree-IsNextFree}
use fa_maf_sis_op.Fat.Filename.{build_filename, filename_from_path}
use fa_maf_sis_op.Fat.Table.{
  FatTable, end_of_chain_max, entry_used, get_next_free_cluster, is_cluster_used, set_next_cluster,
  is_valid_cluster_number,
}
use fa_maf_sis_op.Fat.Table.Acyclic.{Chain-same}
use fa_maf_sis_op.Fat.Table.Chain.{Chain, IsFat32, is_valid_cluster_number_lem}
use fa_maf_sis_op.Fat.Table.Extend.{other_than_free}
use fa_maf_sis_op.Fat.Table.Free.{IsFree, get_next_free_cluster-IsNextFree}
use fa_maf_sis_op.Fat.Create.{fat_file_init_empty, cleared_file, init_at, fat_file_init}

-- A free cluster is in no chain.
Chain-other :
    (table : FatTable) (f c : ℕ) (ds : List ℕ)
    → IsFat32 table
    → IsFree table.fat_map f
    → Chain table c ds
    → All (λ d. d ≢ f) (c ∷ ds)
Chain-other table f c [] fat32 free (e, at, used, bad) =
    (other_than_free table f c e free at used, tt)
Chain-other table f c (d ∷ ds) fat32 free ((at, ok), chain) = (
  other_than_free table f c d free at (omega (arith, is_valid_cluster_number_lem table d fat32 ok)),
  Chain-other table f d ds fat32 free chain,
)

Written-Chain :
    (table : FatTable) (f : ℕ) (fat_map : List ℕ)
    → IsFat32 table
    → Written table.fat_map f end_of_chain_max fat_map
    → Chain (record table { fat_map = fat_map }) f []
unfolding is_valid_cluster_number
Written-Chain table f fat_map fat32 w = (end_of_chain_max, w.here, omega arith, ground arith)

-- The entry of a new file whose name has its two parts.
named_entry :
    (gmtime : ℕ → Tm) (now : ℕ) (basename : Text → Text) (filepath : Text) (base ext : List ℕ)
    (f : ℕ)
    → filename_from_path (basename filepath) ≡ some (base, ext)
    → f < 0x100000000
    → (e : DirEntry) × (fat_file_init_direntry gmtime now basename false filepath f ≡ some e)
      × (e.base_name ≡ base)
      × (e.extension ≡ ext)
      × (file_start_cluster e ≡ f)
      × (e.file_size ≡ 0)
unfolding fat_file_init_direntry set_first_cluster fill_dentry_time_now fill_created_dates
    fill_modified_dates fill_time
named_entry gmtime now basename filepath base ext f named small =
    let plain : DirEntry = record zero_entry {
      base_name = base;
      extension = ext;
      attribs = attribute_archive;
    } in
    let dated = (fill_dentry_time_now gmtime now plain true true).1 in
    (
      set_first_cluster dated f,
      rw named,
      refl,
      refl,
      file_start_cluster-set_first_cluster dated f small,
      refl,
    )

module _ (api : DiskApi) where
  free_start :
      (gmtime : ℕ → Tm) (now : ℕ) (basename : Text → Text) (table : FatTable) (disk : api.Disk)
      (is_dir : Bool) (filepath : Text) (f : ℕ)
      → get_next_free_cluster table ≡ some f
      → IsFree table.fat_map f
      → fat_file_init api gmtime now basename table disk is_dir filepath
        ≡ init_at api gmtime now basename table disk is_dir filepath f
  unfolding fat_file_init is_cluster_used entry_used
  free_start gmtime now basename table disk is_dir filepath f found free = rw (found, free)

  regular :
      (gmtime : ℕ → Tm) (now : ℕ) (basename : Text → Text) (table table' : FatTable)
      (disk disk' : api.Disk) (filepath name : Text) (f : ℕ) (e : DirEntry)
      → fat_file_init_direntry gmtime now basename false filepath f ≡ some e
      → build_filename e.base_name e.extension ≡ some name
      → set_next_cluster (device api) table disk f end_of_chain_max ≡ some (pos 0, table', disk')
      → init_at api gmtime now basename table disk false filepath f
        ≡ some (
          some (record (fat_file_init_empty filepath) {
            dentry = e;
            name = name;
            start_cluster = file_start_cluster e;
          }),
          table',
          disk',
        )
  unfolding init_at cleared_file
  regular gmtime now basename table table' disk disk' filepath name f e made built written =
      rw (made, built, written)

  -- `fat_file_init` of a file that is no directory, on a FAT32 volume with a free cluster whose disk
  -- takes every write, and with a name that has its two parts. The file starts at the first free
  -- cluster, with the name, the path and the size 0, its entry holds that cluster, and that cluster
  -- alone is its chain. Every chain of the volume is as before.
  pub fat_file_init_lem :
      (gmtime : ℕ → Tm) (now : ℕ) (basename : Text → Text) (table : FatTable) (disk : api.Disk)
      (filepath name : Text) (base ext : List ℕ) (r : ℕ)
      → IsFat32 table
      → table.num_data_clusters + 2 ≤ length table.fat_map
      → length table.fat_map < 0x100000000
      → 2 ≤ r
      → r < table.num_data_clusters + 2
      → IsFree table.fat_map r
      → Writes (device api)
      → filename_from_path (basename filepath) ≡ some (base, ext)
      → build_filename base ext ≡ some name
      → (f : ℕ) × (fat_map : List ℕ) × (disk' : api.Disk) × (file : FatFile) × (fat_file_init api
            gmtime now basename table disk false filepath
          ≡ some (some file, record table { fat_map = fat_map }, disk'))
        × FirstFree table f
        × (file.start_cluster ≡ f)
        × (file_start_cluster file.dentry ≡ f)
        × (file.name ≡ name)
        × (file.filepath ≡ filepath)
        × (file.dentry.file_size ≡ 0)
        × Chain (record table { fat_map = fat_map }) f []
        × ((c : ℕ) (ds : List ℕ)
            → Chain table c ds
            → Chain (record table { fat_map = fat_map }) c ds)
  unfolding fat_file_init_empty
  fat_file_init_lem gmtime now basename table disk filepath name base ext r fat32 mapped small lo hi
        free writes named built =
      let (f, found, first) =
        FirstFree-IsNextFree table r (get_next_free_cluster table) lo hi free
          (get_next_free_cluster-IsNextFree table (omega arith) small (omega arith)) in
      let (fat_map, disk', written, w) =
        set_next_cluster-Writes (device api) table disk f end_of_chain_max writes
          (get_elem?-bound table.fat_map f 0 first.2) in
      let (e, made, is_base, is_ext, starts, empty) =
        named_entry gmtime now basename filepath base ext f named (omega (arith, first.1)) in
      (
        f,
        fat_map,
        disk',
        _,
        free_start gmtime now basename table disk false filepath f found first.2
            ∙ regular gmtime now basename table (record table { fat_map = fat_map }) disk disk'
                filepath name f e made (rw (is_base, is_ext) built) written,
        first,
        starts,
        starts,
        refl,
        refl,
        empty,
        Written-Chain table f fat_map fat32 w,
        λ c ds chain.
            Chain-same table fat_map c ds
              (All-map (c ∷ ds) (λ j ne. w.there j ne)
                (Chain-other table f c ds fat32 first.2 chain))
              chain,
      )
