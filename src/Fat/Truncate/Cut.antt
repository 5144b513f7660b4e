-- ===== src/Fat/Truncate/Cut.antt =====
-- How `fat_file_truncate` of fat_file.c cuts the chain of a file.
use fa_maf_sis_op.Prelude.{
  ℕ, zero, suc, ◌+◌, ◌≤◌, ◌<◌, ◌≡◌, ◌≢◌, refl, ap, sym, ◌∙◌, true, false, some, List, [], ◌∷◌, All,
  All-map, All-drop, length, get_elem?, take, drop, drop-nil, arith,
}
use mathlib.Core.Path.{subst}
use fa_maf_sis_op.Prelude.Int.{pos}
use fa_maf_sis_op.Fat.Memory.{Written}
use fa_maf_sis_op.Fat.Table.{
  FatTable, Device, cluster_free, end_of_chain_max, is_valid_cluster_number, get_next_cluster,
  set_next_cluster,
}
use fa_maf_sis_op.Fat.Table.Chain.{Chain, IsFat32, get_next_cluster-Ends, get_next_cluster-Links}
use fa_maf_sis_op.Fat.Table.Acyclic.{Chain-acyclic, Chain-same}
use fa_maf_sis_op.Fat.File.Append.{Writes, set_next_cluster-Writes}
use fa_maf_sis_op.Fat.Truncate.{unless_error, free_on, cut_behind}
use fa_maf_sis_op.Fat.Truncate.Freed.{
  Freed, end_invalid, mapped, kept_number, free_on-Freed, free_on-Frees,
}

-- The map in which a cluster ends its chain, and the clusters behind it are free.
pub record Cut (xs : List ℕ) (f : ℕ) (cs ys : List ℕ) : Type 0 where
  pub end : get_elem? ys f ≡ some end_of_chain_max
  pub freed : All (λ c. get_elem? ys c ≡ some cluster_free) cs
  pub others : (j : ℕ) → All (λ c. c ≢ j) (f ∷ cs) → get_elem? ys j ≡ get_elem? xs j

eoc_invalid :
    (table : FatTable) → IsFat32 table → is_valid_cluster_number table end_of_chain_max ≡ false
unfolding is_valid_cluster_number
eoc_invalid table fat32 = ground arith

-- The chain up to the cut.
pub Chain-Cut :
    (table : FatTable) (fat_map : List ℕ) (f : ℕ) (cs : List ℕ)
    → IsFat32 table
    → Cut table.fat_map f cs fat_map
    → (q c : ℕ) (ds : List ℕ) → drop q (c ∷ ds) ≡ f ∷ cs
    → Chain table c ds
    → Chain (record table { fat_map = fat_map }) c (take q ds)
Chain-Cut table fat_map f cs fat32 cut zero c ds e chain = (
  end_of_chain_max,
  ap (get_elem? fat_map) (same_head e) ∙ cut.end,
  omega arith,
  eoc_invalid (record table { fat_map = fat_map }) fat32,
)
  where
    same_head : c ∷ ds ≡ f ∷ cs → c ≡ f
    same_head h = cc
Chain-Cut table fat_map f cs fat32 cut (suc q) c [] e chain = absurd (clash (sym (drop-nil q) ∙ e))
  where
    clash : ¬ ([] ≡ f ∷ cs)
    clash h = cc
Chain-Cut table fat_map f cs fat32 cut (suc q) c (d ∷ ds) e ((at, ok), chain) = (
  (
    cut.others c (
          subst (All (λ x. x ≢ c)) e
            (All-drop (λ x. x ≢ c) q (d ∷ ds) (Chain-acyclic table c (d ∷ ds) ((at, ok), chain))))
        ∙ at,
    kept_number table fat_map d ok,
  ),
  Chain-Cut table fat_map f cs fat32 cut q d ds e chain,
)

Cut-Freed :
    (xs ys zs : List ℕ) (f : ℕ) (cs : List ℕ)
    → All (λ c. c ≢ f) cs
    → Written xs f end_of_chain_max ys
    → Freed ys cs zs
    → Cut xs f cs zs
Cut-Freed xs ys zs f cs apart w free = record {
  end = free.others f apart ∙ w.here;
  freed = free.freed;
  others = λ j (ne, rest). free.others j rest ∙ w.there j (λ e. ne (sym e));
}

module _ (device : Device) (writes : Writes device) where
  cut-step :
      (fuel : ℕ) (table table' : FatTable) (disk disk' : device.Disk) (f next : ℕ)
      → get_next_cluster table f ≡ some next
      → set_next_cluster device table disk f end_of_chain_max ≡ some (pos 0, table', disk')
      → cut_behind device fuel table disk f ≡ free_on device fuel table' disk' next
  unfolding cut_behind unless_error
  cut-step fuel table table' disk disk' f next link eq = rw (link, eq)

  pub cut_behind-Cut :
      (fuel : ℕ) (table : FatTable) (disk : device.Disk) (f : ℕ) (cs : List ℕ)
      → IsFat32 table
      → table.num_data_clusters + 2 ≤ length table.fat_map
      → is_valid_cluster_number table f ≡ true
      → Chain table f cs
      → length cs < fuel
      → (fat_map : List ℕ) × (disk' : device.Disk) × (cut_behind device fuel table disk f
          ≡ some (pos 0, record table { fat_map = fat_map }, disk'))
        × Cut table.fat_map f cs fat_map
  cut_behind-Cut zero table disk f cs fat32 whole ok chain enough = absurd (omega arith)
  cut_behind-Cut (suc fuel) table disk f [] fat32 whole ok chain enough =
      let (fat_map, disk', eq, w) =
        set_next_cluster-Writes device table disk f end_of_chain_max writes
          (mapped table f fat32 whole ok) in
      (
        fat_map,
        disk',
        cut-step (suc fuel) table (record table { fat_map = fat_map }) disk disk' f end_of_chain_max
              (get_next_cluster-Ends table f chain) eq
            ∙ (free_on-Frees device).stop fuel (record table { fat_map = fat_map }) disk'
                end_of_chain_max end_invalid,
        Cut-Freed table.fat_map fat_map fat_map f [] tt w
            (record { freed = tt; others = λ j h. refl; size = refl }),
      )
  cut_behind-Cut (suc fuel) table disk f (d ∷ ds) fat32 whole ok (link, chain) enough =
      let (fat_map, disk', eq, w) =
        set_next_cluster-Writes device table disk f end_of_chain_max writes
          (mapped table f fat32 whole ok) in
      let table' = record table { fat_map = fat_map } in
      let apart = Chain-acyclic table f (d ∷ ds) (link, chain) in
      let (final, disk'', eq', free) =
        free_on-Freed device (suc fuel) table' disk' d ds writes fat32 (omega (arith, w.size))
          (kept_number table fat_map d link.1)
          (Chain-same table fat_map d ds (All-map (d ∷ ds) (λ j ne. w.there j ne) apart) chain)
          (omega arith) in
      (
        final,
        disk'',
        cut-step (suc fuel) table table' disk disk' f d (get_next_cluster-Links table f d link) eq
            ∙ eq',
        Cut-Freed table.fat_map fat_map final f (d ∷ ds) apart w free,
      )
