-- ===== src/Fat/Table/Chain.antt =====
-- Chains of clusters in the table of fat_table.c, and `fat_table_seek_cluster` on them.
use fa_maf_sis_op.Prelude.{
  ℕ, zero, suc, ◌+◌, ◌/◌, ◌^◌, ◌≤◌, ◌<◌, ◌≡◌, ◌≢◌, refl, true, false, some, List, [], ◌∷◌, ◌==◌,
  get_elem?, arith,
}
use native.Mathlib.Nat.{mod-eq_of_lt}
use fa_maf_sis_op.Fat.Table.{
  FatTable, end_of_chain_max, is_valid_cluster_number, next_of_entry, get_next_cluster,
  move_positions, seek_cluster,
}

-- A used entry that is no cluster of the volume ends a chain.
abbrev pub Ends : FatTable → ℕ → Type 0
Ends table c =
    (e : ℕ) × (get_elem? table.fat_map c ≡ some e)
    × (e ≢ 0)
    × (is_valid_cluster_number table e ≡ false)

abbrev pub Links : FatTable → (c d : ℕ) → Type 0
Links table c d = (get_elem? table.fat_map c ≡ some d) × (is_valid_cluster_number table d ≡ true)

-- The clusters that follow cluster `c`.
abbrev pub Chain : FatTable → ℕ → List ℕ → Type 0
Chain table c [] = Ends table c
Chain table c (d ∷ ds) = Links table c d × Chain table d ds

-- FAT32 numbers its clusters below the marks of bad clusters and of ends.
abbrev pub IsFat32 : FatTable → Type 0
IsFat32 table = table.num_data_clusters + 2 ≤ 0x0FFFFFF7

pub get_next_cluster-Ends :
    (table : FatTable) (c : ℕ) → Ends table c → get_next_cluster table c ≡ some end_of_chain_max
unfolding get_next_cluster next_of_entry
get_next_cluster-Ends table c (e, at, used, bad) = rw (at, bad)

pub get_next_cluster-Links :
    (table : FatTable) (c d : ℕ) → Links table c d → get_next_cluster table c ≡ some d
unfolding get_next_cluster next_of_entry
get_next_cluster-Links table c d (at, good) = rw (at, good)

-- The clusters of a FAT32 volume.
pub is_valid_cluster_number_lem :
    (table : FatTable) (c : ℕ)
    → IsFat32 table
    → is_valid_cluster_number table c ≡ true
    → (1 ≤ c) × (c < table.num_data_clusters + 2)
unfolding is_valid_cluster_number
is_valid_cluster_number_lem table c fat32 h = ground arith

inner :
    (table : FatTable) (c : ℕ)
    → IsFat32 table
    → is_valid_cluster_number table c ≡ true
    → (c == end_of_chain_max) ≡ false
inner table c fat32 valid = ground (arith, is_valid_cluster_number_lem table c fat32 valid)

-- The cluster at a position; the end of a chain right behind it, and 0 past that.
abbrev pub cluster_at : List ℕ → ℕ → ℕ
cluster_at [] zero = end_of_chain_max
cluster_at [] (suc n) = 0
cluster_at (c ∷ cs) zero = c
cluster_at (c ∷ cs) (suc n) = cluster_at cs n

move_positions-end :
    (table : FatTable) (n : ℕ) → move_positions table n end_of_chain_max ≡ some (cluster_at [] n)
unfolding move_positions
move_positions-end table zero = refl
move_positions-end table (suc n) = refl

move_positions-Chain :
    (table : FatTable) (n c : ℕ) (ds : List ℕ)
    → IsFat32 table
    → is_valid_cluster_number table c ≡ true
    → Chain table c ds
    → move_positions table n c ≡ some (cluster_at (c ∷ ds) n)
unfolding move_positions
move_positions-Chain table zero c ds fat32 valid chain = refl
move_positions-Chain table (suc n) c [] fat32 valid chain =
    rw (inner table c fat32 valid, get_next_cluster-Ends table c chain, move_positions-end table n)
move_positions-Chain table (suc n) c (d ∷ ds) fat32 valid (link, chain) = rw (
  inner table c fat32 valid,
  get_next_cluster-Links table c d link,
  move_positions-Chain table n d ds fat32 link.1 chain,
)

-- On a FAT32 volume `fat_table_seek_cluster` from a cluster whose chain ends gives the cluster at the
-- position of the offset. Right behind the chain it gives the end of a chain, and further on 0; the
-- position fits a `u32`.
pub seek_cluster-Chain :
    (table : FatTable) (start_cluster offset : ℕ) (ds : List ℕ)
    → IsFat32 table
    → is_valid_cluster_number table start_cluster ≡ true
    → Chain table start_cluster ds
    → offset / 2 ^ table.cluster_order < 0x100000000
    → seek_cluster table start_cluster offset
      ≡ some (cluster_at (start_cluster ∷ ds) (offset / 2 ^ table.cluster_order))
unfolding seek_cluster
seek_cluster-Chain table start_cluster offset ds fat32 valid chain fits =
    rw (mod-eq_of_lt fits) (move_positions-Chain table _ start_cluster ds fat32 valid chain)
