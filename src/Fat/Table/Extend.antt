-- ===== src/Fat/Table/Extend.antt =====
-- Chains of the table of fat_table.c when a free cluster is put behind the last of one of them.
use fa_maf_sis_op.Prelude.{
  ℕ, ◌≡◌, ◌≢◌, refl, ap, sym, ◌∙◌, true, false, some, List, [], ◌∷◌, ◌++◌, All, get_elem?, arith,
}
use fa_maf_sis_op.Fat.Table.{FatTable, end_of_chain_max, is_valid_cluster_number}
use fa_maf_sis_op.Fat.Table.Chain.{Ends, Chain, IsFat32, is_valid_cluster_number_lem}
use fa_maf_sis_op.Fat.Table.Free.{IsFree}

-- The last cluster of a chain.
abbrev pub last : ℕ → List ℕ → ℕ
last c [] = c
last c (d ∷ ds) = last d ds

pub Chain-last :
    (table : FatTable) (c : ℕ) (ds : List ℕ) → Chain table c ds → Ends table (last c ds)
Chain-last table c [] chain = chain
Chain-last table c (d ∷ ds) (link, chain) = Chain-last table d ds chain

-- The map in which cluster `f`, free before, has become the end of the chain behind cluster `a`.
pub record Appended (table : FatTable) (a f : ℕ) (fat_map : List ℕ) : Type 0 where
  pub behind : get_elem? fat_map a ≡ some f
  pub end : get_elem? fat_map f ≡ some end_of_chain_max
  pub others : (j : ℕ) → j ≢ a → j ≢ f → get_elem? fat_map j ≡ get_elem? table.fat_map j

pub other_than_free :
    (table : FatTable) (f c e : ℕ)
    → IsFree table.fat_map f
    → get_elem? table.fat_map c ≡ some e
    → e ≢ 0
    → c ≢ f
other_than_free table f c e free at used same =
    used (injective (sym at ∙ ap (get_elem? table.fat_map) same ∙ free))
  where
    injective : {x y : ℕ} → some x ≡ some y → x ≡ y
    injective h = cc

module _ (table : FatTable) (a f : ℕ) (fat_map : List ℕ) (fat32 : IsFat32 table)
    (free : IsFree table.fat_map f) (good : is_valid_cluster_number table f ≡ true)
    (new : Appended table a f fat_map) where
  abbrev pub table' : FatTable
  table' = record table { fat_map = fat_map }

  valid_kept : (d : ℕ) → is_valid_cluster_number table' d ≡ is_valid_cluster_number table d
  unfolding is_valid_cluster_number
  valid_kept d = refl

  valid_used : (d : ℕ) → is_valid_cluster_number table d ≡ true → d ≢ 0
  valid_used d ok = omega (arith, is_valid_cluster_number_lem table d fat32 ok)

  eoc_invalid : is_valid_cluster_number table' end_of_chain_max ≡ false
  unfolding is_valid_cluster_number
  eoc_invalid = ground arith

  -- A cluster with a successor is not the end of a chain.
  other_than_end :
      (c d b : ℕ)
      → get_elem? table.fat_map c ≡ some d
      → is_valid_cluster_number table d ≡ true
      → Ends table b
      → c ≢ b
  other_than_end c d b at ok (e, at_end, used, bad) same = cc

  -- A chain without the cluster that is appended to stays as it is.
  pub Chain-kept :
      (c : ℕ) (ds : List ℕ) → All (λ j. j ≢ a) (c ∷ ds) → Chain table c ds → Chain table' c ds
  Chain-kept c [] (ne, rest) (e, at, used, bad) =
      (e, new.others c ne (other_than_free table f c e free at used) ∙ at, used, valid_kept e ∙ bad)
  Chain-kept c (d ∷ ds) (ne, rest) ((at, ok), chain) = (
    (
      new.others c ne (other_than_free table f c d free at (valid_used d ok)) ∙ at,
      valid_kept d ∙ ok,
    ),
    Chain-kept d ds rest chain,
  )

  pub Chain-extended :
      (c : ℕ) (ds : List ℕ) → last c ds ≡ a → Chain table c ds → Chain table' c (ds ++ f ∷ [])
  Chain-extended c [] is_last chain = (
    (ap (get_elem? fat_map) is_last ∙ new.behind, valid_kept f ∙ good),
    (end_of_chain_max, new.end, omega arith, eoc_invalid),
  )
  Chain-extended c (d ∷ ds) is_last ((at, ok), chain) = (
    (
      new.others c
            (λ same.
              other_than_end c d (last d ds) at ok (Chain-last table d ds chain)
                (same ∙ sym is_last))
            (other_than_free table f c d free at (valid_used d ok))
          ∙ at,
      valid_kept d ∙ ok,
    ),
    Chain-extended d ds is_last chain,
  )
