-- ===== src/Fat/Table/Free.antt =====
-- `fat_table_get_next_free_cluster` of fat_table.c.
use fa_maf_sis_op.Prelude.{
  ℕ, zero, suc, ◌+◌, ◌≤◌, ◌<◌, ◌≡◌, ◌⊎◌, refl, inl, inr, true, false, ◌&&◌, Option, Option-cases,
  none, some, List, ltb, leb, ◌==◌, length, get_elem?, get_elem?-bound, get_elem?-none, arith,
  dec_lt,
}
use mathlib.Core.Path.{subst⁻¹}
use native.Mathlib.Nat.{mod-eq_of_lt}
use fa_maf_sis_op.Fat.Memory.{u32}
use fa_maf_sis_op.Fat.Table.{
  FatTable, end_of_chain_max, is_valid_cluster_number, free_entry, find_free, checked_free,
  get_next_free_cluster,
}

-- The entry of a cluster is there and marks it free.
abbrev pub IsFree : List ℕ → ℕ → Type 0
IsFree fat_map j = get_elem? fat_map j ≡ some 0

-- The first free entry from index `i` on, or `none` if there is none.
abbrev IsFirstFree : List ℕ → ℕ → Option ℕ → Type 0
IsFirstFree fat_map i none = (j : ℕ) → i ≤ j → ¬ IsFree fat_map j
IsFirstFree fat_map i (some r) =
    (i ≤ r) × IsFree fat_map r × ((j : ℕ) → i ≤ j → j < r → ¬ IsFree fat_map j)

eq_or_after : (i j : ℕ) → i ≤ j → (i ≡ j) ⊎ (suc i ≤ j)
eq_or_after i j b = ground arith

IsFirstFree-next :
    (fat_map : List ℕ) (i : ℕ) (o : Option ℕ)
    → ¬ IsFree fat_map i
    → IsFirstFree fat_map (suc i) o
    → IsFirstFree fat_map i o
IsFirstFree-next fat_map i none used h = λ j b free. elim (eq_or_after i j b) [
  | inl e ↦ used (subst⁻¹ (IsFree fat_map) e free)
  | inr lt ↦ h j lt free
]
IsFirstFree-next fat_map i (some r) used (b, free, first) = (
  omega arith,
  free,
  λ j b lt free. elim (eq_or_after i j b) [
    | inl e ↦ used (subst⁻¹ (IsFree fat_map) e free)
    | inr gt ↦ first j gt lt free
  ],
)

past_end : (fat_map : List ℕ) (i j : ℕ) → get_elem? fat_map i ≡ none → i ≤ j → ¬ IsFree fat_map j
past_end fat_map i j gone le free =
    absurd (omega (arith, get_elem?-none fat_map i gone, get_elem?-bound fat_map j 0 free))

find_free-IsFirstFree :
    (fuel : ℕ) (fat_map : List ℕ) (i : ℕ)
    → length fat_map < 0x100000000
    → i ≤ length fat_map
    → length fat_map < i + fuel
    → IsFirstFree fat_map i (find_free fuel fat_map i)
unfolding find_free free_entry
find_free-IsFirstFree zero fat_map i fits b enough = absurd (omega arith)
find_free-IsFirstFree (suc fuel) fat_map i fits b enough =
    elim (Option-cases (get_elem? fat_map i)) [
      | inl gone ↦ rw gone (λ j le free. past_end fat_map i j gone le free)
      | inr (zero, here) ↦ rw here (omega arith, here, λ j le lt free. absurd (omega arith))
      | inr (suc e, here) ↦
          rw (here, used e, mod-eq_of_lt (in_bounds e here))
            (IsFirstFree-next fat_map i (find_free fuel fat_map (suc i)) (λ free. cc)
              (find_free-IsFirstFree fuel fat_map (suc i) fits
                (get_elem?-bound fat_map i (suc e) here) (omega arith)))
    ]
  where
    used : (e : ℕ) → (suc e == 0) ≡ false
    used e = ground arith

    in_bounds : (e : ℕ) → get_elem? fat_map i ≡ some (suc e) → suc i < 0x100000000
    in_bounds e here = omega (arith, get_elem?-bound fat_map i (suc e) here)

-- What the search promises: the first free cluster; or the end of a chain, if every cluster of the
-- volume is used and a free entry follows; or nothing, if no free entry follows at all.
abbrev pub IsNextFree : FatTable → Option ℕ → Type 0
IsNextFree table none = (j : ℕ) → 2 ≤ j → ¬ IsFree table.fat_map j
IsNextFree table (some c) =
    ((2 ≤ c)
      × (c < table.num_data_clusters + 2)
      × IsFree table.fat_map c
      × ((j : ℕ) → 2 ≤ j → j < c → ¬ IsFree table.fat_map j))
    ⊎ ((c ≡ end_of_chain_max)
        × ((j : ℕ) → 2 ≤ j → j < table.num_data_clusters + 2 → ¬ IsFree table.fat_map j)
        × (j : ℕ) × (table.num_data_clusters + 2 ≤ j)
        × IsFree table.fat_map j)

checked_free-IsNextFree :
    (table : FatTable) (o : Option ℕ)
    → table.num_data_clusters + 2 < 0x100000000
    → IsFirstFree table.fat_map 2 o
    → IsNextFree table (checked_free table o)
unfolding checked_free is_valid_cluster_number
checked_free-IsNextFree table none fits h = h
checked_free-IsNextFree table (some r) fits (b, free, first) =
    elim (dec_lt r (table.num_data_clusters + 2)) [
      | yes lt ↦ rw (valid lt) (inl (b, lt, free, first))
      | no ge ↦
          rw (invalid ge) (inr (refl, (λ j lo hi. first j lo (omega arith)), r, omega arith, free))
    ]
  where
    valid :
        r < table.num_data_clusters + 2
        → (leb 1 r && ltb r (u32 (table.num_data_clusters + 2))) ≡ true
    valid lt = rw (mod-eq_of_lt fits) (ground arith)

    invalid :
        ¬ (r < table.num_data_clusters + 2)
        → (leb 1 r && ltb r (u32 (table.num_data_clusters + 2))) ≡ false
    invalid ge = rw (mod-eq_of_lt fits) (ground arith)

-- On a table of fewer than 2^32 entries and clusters the search ends within as many rounds as there
-- are entries. It gives the first free cluster of the volume. If all are used it gives the end of a
-- chain exactly where a free entry follows the last cluster, and reads past the mapped table where
-- none does.
pub get_next_free_cluster-IsNextFree :
    (table : FatTable)
    → table.num_data_clusters + 2 < 0x100000000
    → length table.fat_map < 0x100000000
    → 2 ≤ length table.fat_map
    → IsNextFree table (get_next_free_cluster table)
unfolding get_next_free_cluster
get_next_free_cluster-IsNextFree table clusters fits two =
    checked_free-IsNextFree table _ clusters
      (find_free-IsFirstFree (suc (length table.fat_map)) table.fat_map 2 fits two (omega arith))
