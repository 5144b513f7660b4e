-- ===== src/Fat/File/Append.antt =====
-- `next_or_new_cluster` of fat_file.c appends a free cluster to a chain.
use fa_maf_sis_op.Prelude.{
  ℕ, ◌+◌, ◌≤◌, ◌<◌, ◌≡◌, ◌≢◌, refl, sym, ◌∙◌, inl, inr, true, false, Option, none, some, List, [],
  ◌∷◌, ◌++◌, All, length, get_elem?-bound, arith,
}
use fa_maf_sis_op.Prelude.Int.{pos}
use fa_maf_sis_op.Fat.Memory.{Written}
use fa_maf_sis_op.Fat.Table.{
  FatTable, Device, end_of_chain_max, is_valid_cluster_number, get_next_cluster,
  get_next_free_cluster, is_eoc, not_positive, set_next_cluster,
}
use fa_maf_sis_op.Fat.Table.Chain.{Chain, IsFat32, get_next_cluster-Ends}
use fa_maf_sis_op.Fat.Table.Free.{IsFree, IsNextFree, get_next_free_cluster-IsNextFree}
use fa_maf_sis_op.Fat.Table.Update.{set_next_cluster_lem}
use fa_maf_sis_op.Fat.File.{add_cluster, new_cluster, next_or_new_cluster}
use fa_maf_sis_op.Fat.Table.Extend.{
  last, Chain-last, other_than_free, Appended, Chain-kept, Chain-extended,
}

-- A free cluster of the volume, the first one.
abbrev pub FirstFree : FatTable → ℕ → Type 0
FirstFree table f =
    (2 ≤ f)
    × (f < table.num_data_clusters + 2)
    × IsFree table.fat_map f
    × ((j : ℕ) → 2 ≤ j → j < f → ¬ IsFree table.fat_map j)

pub FirstFree-IsNextFree :
    (table : FatTable) (r : ℕ) (o : Option ℕ)
    → 2 ≤ r
    → r < table.num_data_clusters + 2
    → IsFree table.fat_map r
    → IsNextFree table o
    → (f : ℕ) × (o ≡ some f) × FirstFree table f
FirstFree-IsNextFree table r none lo hi free none_free = absurd (none_free r lo free)
FirstFree-IsNextFree table r (some f) lo hi free (inl first) = (f, refl, first)
FirstFree-IsNextFree table r (some f) lo hi free (inr (e, used, j, past, there)) =
    absurd (used r lo hi free)

FirstFree-valid :
    (table : FatTable) (f : ℕ)
    → IsFat32 table
    → FirstFree table f
    → is_valid_cluster_number table f ≡ true
unfolding is_valid_cluster_number
FirstFree-valid table f fat32 (lo, hi, free, first) = ground arith

FirstFree-eoc : (table : FatTable) (f : ℕ) → IsFat32 table → FirstFree table f → is_eoc f ≡ false
unfolding is_eoc
FirstFree-eoc table f fat32 (lo, hi, free, first) = ground arith

-- What the two writes make of the map, if both succeed.
Appended-Written :
    (table : FatTable) (a f : ℕ) (one two : List ℕ)
    → a ≢ f
    → Written table.fat_map a f one
    → Written one f end_of_chain_max two
    → Appended table a f two
Appended-Written table a f one two ne w v = record {
  behind = v.there a ne ∙ w.here;
  end = v.here;
  others = λ j ja jf. v.there j jf ∙ w.there j ja;
}

module _ (device : Device) where
  -- Every write succeeds.
  abbrev pub Writes : Type 0
  Writes =
      (disk : device.Disk) (word offset : ℕ)
      → not_positive (device.pwrite disk word offset).0 ≡ false

  pub set_next_cluster-Writes :
      (table : FatTable) (disk : device.Disk) (a f : ℕ)
      → Writes
      → a < length table.fat_map
      → (fat_map : List ℕ) × (disk' : device.Disk) × (set_next_cluster device table disk a f
          ≡ some (pos 0, record table { fat_map = fat_map }, disk'))
        × Written table.fat_map a f fat_map
  set_next_cluster-Writes table disk a f writes bound =
      elim (set_next_cluster_lem device table disk a f bound) [
        | inl (failed, rest) ↦ absurd (clash (sym failed ∙ writes disk f _))
        | inr (done, fat_map, eq, new) ↦ (fat_map, _, eq, new)
      ]
    where
      clash : ¬ (true ≡ false)
      clash h = cc

  add_cluster-Writes :
      (table : FatTable) (disk : device.Disk) (a f : ℕ)
      → Writes
      → a ≢ f
      → a < length table.fat_map
      → f < length table.fat_map
      → (fat_map : List ℕ) × (disk' : device.Disk) × (add_cluster device table disk a f
          ≡ some (f, record table { fat_map = fat_map }, disk'))
        × Appended table a f fat_map
  unfolding add_cluster
  add_cluster-Writes table disk a f writes ne bound_a bound_f =
      let (one, disk1, eq1, w) = set_next_cluster-Writes table disk a f writes bound_a in
      let (two, disk2, eq2, v) =
        set_next_cluster-Writes (record table { fat_map = one }) disk1 f end_of_chain_max writes
          (omega (arith, w.size)) in
      (two, disk2, rw (eq1, eq2), Appended-Written table a f one two ne w v)

  next_or_new_cluster-add :
      (table : FatTable) (disk : device.Disk) (a f : ℕ)
      → get_next_cluster table a ≡ some end_of_chain_max
      → get_next_free_cluster table ≡ some f
      → is_eoc f ≡ false
      → next_or_new_cluster device table disk a ≡ add_cluster device table disk a f
  unfolding next_or_new_cluster new_cluster is_eoc
  next_or_new_cluster-add table disk a f ends found no_end = rw (ends, found, no_end)

  -- On a FAT32 volume with a free cluster whose disk takes every write, `next_or_new_cluster` at the
  -- last cluster of a chain gives the first free cluster, which then ends that chain. Every chain
  -- without that last cluster is as before.
  pub next_or_new_cluster-Chain :
      (table : FatTable) (disk : device.Disk) (c : ℕ) (ds : List ℕ) (r : ℕ)
      → IsFat32 table
      → table.num_data_clusters + 2 ≤ length table.fat_map
      → length table.fat_map < 0x100000000
      → Chain table c ds
      → 2 ≤ r
      → r < table.num_data_clusters + 2
      → IsFree table.fat_map r
      → Writes
      → (f : ℕ) × (fat_map : List ℕ) × (disk' : device.Disk) × (next_or_new_cluster device table
            disk
            (last c ds)
          ≡ some (f, record table { fat_map = fat_map }, disk'))
        × FirstFree table f
        × Chain (record table { fat_map = fat_map }) c (ds ++ f ∷ [])
        × ((c' : ℕ) (ds' : List ℕ)
            → All (λ j. j ≢ last c ds) (c' ∷ ds')
            → Chain table c' ds'
            → Chain (record table { fat_map = fat_map }) c' ds')
  next_or_new_cluster-Chain table disk c ds r fat32 mapped small chain lo hi free writes =
      let (f, found, first) =
        FirstFree-IsNextFree table r (get_next_free_cluster table) lo hi free
          (get_next_free_cluster-IsNextFree table (omega arith) small (omega arith)) in
      let (e, at, used, bad) = Chain-last table c ds chain in
      let (fat_map, disk', eq, new) =
        add_cluster-Writes table disk (last c ds) f writes
          (other_than_free table f (last c ds) e first.2 at used)
          (get_elem?-bound table.fat_map (last c ds) e at)
          (get_elem?-bound table.fat_map f 0 first.2) in
      let good = FirstFree-valid table f fat32 first in
      (
        f,
        fat_map,
        disk',
        next_or_new_cluster-add table disk (last c ds) f
              (get_next_cluster-Ends table (last c ds) (e, at, used, bad)) found
              (FirstFree-eoc table f fat32 first)
            ∙ eq,
        first,
        Chain-extended table (last c ds) f fat_map fat32 first.2 good new c ds refl chain,
        Chain-kept table (last c ds) f fat_map fat32 first.2 good new,
      )
