-- ===== src/Fat/Table/Acyclic.antt =====
-- Chains of fat_table.c that end have no cluster twice, and what keeps a chain as it is.
use fa_maf_sis_op.Prelude.{
  ℕ, suc, ◌<◌, ◌≡◌, ◌≢◌, refl, ap, ◌∙◌, List, [], ◌∷◌, All, length, get_elem?, arith,
}
use mathlib.Core.Path.{subst, subst⁻¹}
use fa_maf_sis_op.Fat.Table.{FatTable, is_valid_cluster_number}
use fa_maf_sis_op.Fat.Table.Chain.{Ends, Links, Chain}

clash : (table : FatTable) (c d : ℕ) → Ends table c → ¬ Links table c d
clash table c d (e, at, used, bad) (at', good) = cc

same_next : (table : FatTable) (c d e : ℕ) → Links table c d → Links table c e → d ≡ e
same_next table c d e (at, ok) (at', ok') = cc

-- A cluster starts one chain only, up to its length.
pub Chain-length :
    (table : FatTable) (c b : ℕ) (ds es : List ℕ)
    → b ≡ c
    → Chain table c ds
    → Chain table b es
    → length ds ≡ length es
Chain-length table c b [] [] s h k = refl
Chain-length table c b [] (e ∷ es) s h (link, k) =
    absurd (clash table c e h (subst (λ x. Links table x e) s link))
Chain-length table c b (d ∷ ds) [] s (link, h) k =
    absurd (clash table b d k (subst⁻¹ (λ x. Links table x d) s link))
Chain-length table c b (d ∷ ds) (e ∷ es) s (link, h) (link', k) = ap suc (
    Chain-length table d e ds es
      (same_next table b e d link' (subst⁻¹ (λ x. Links table x d) s link)) h k)

shorter :
    (table : FatTable) (x c : ℕ) (xs ds : List ℕ)
    → Chain table x xs
    → Chain table c ds
    → length ds < length xs
    → All (λ d. d ≢ x) (c ∷ ds)
shorter table x c xs [] whole h lt =
    (λ s. absurd (omega (arith, Chain-length table x c xs [] s whole h)), tt)
shorter table x c xs (d ∷ ds) whole (link, h) lt = (
  λ s. absurd (omega (arith, Chain-length table x c xs (d ∷ ds) s whole (link, h))),
  shorter table x d xs ds whole h (omega arith),
)

-- The clusters behind a cluster of a chain are others.
pub Chain-acyclic :
    (table : FatTable) (c : ℕ) (ds : List ℕ) → Chain table c ds → All (λ d. d ≢ c) ds
Chain-acyclic table c [] h = tt
Chain-acyclic table c (d ∷ ds) (link, h) = shorter table c d (d ∷ ds) ds (link, h) h (omega arith)

-- A chain stays where its entries stay.
pub Chain-same :
    (table : FatTable) (fat_map : List ℕ) (c : ℕ) (ds : List ℕ)
    → All (λ d. get_elem? fat_map d ≡ get_elem? table.fat_map d) (c ∷ ds)
    → Chain table c ds
    → Chain (record table { fat_map = fat_map }) c ds
unfolding is_valid_cluster_number
Chain-same table fat_map c [] (same, rest) (e, at, used, bad) = (e, same ∙ at, used, bad)
Chain-same table fat_map c (d ∷ ds) (same, rest) ((at, ok), chain) =
    ((same ∙ at, ok), Chain-same table fat_map d ds rest chain)
