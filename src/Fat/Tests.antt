-- ===== src/Fat/Tests.antt =====
-- A small volume, and the theorems of the table and of files on it.
use fa_maf_sis_op.Prelude.{
  ℕ, ◌*◌, ◌≤◌, ◌≡◌, ◌≢◌, refl, Bool, true, false, some, List, [], ◌∷◌, All, get_elem?, arith,
}
use fa_maf_sis_op.Prelude.Int.{ℤ, pos, negsuc}
use fa_maf_sis_op.Fat.Table.{
  Device, end_of_chain_max, get_next_free_cluster, get_clusters_for_size, bytes_per_cluster,
  seek_cluster,
}
use fa_maf_sis_op.Fat.Sample.{volume, volume-IsFat32, sample-Chain, two_valid}
use fa_maf_sis_op.Fat.Table.Chain.{Chain, seek_cluster-Chain}
use fa_maf_sis_op.Fat.Table.Free.{IsNextFree, get_next_free_cluster-IsNextFree}
use fa_maf_sis_op.Fat.Table.Sizes.{get_clusters_for_size_lem}
use fa_maf_sis_op.Fat.File.{add_cluster, next_or_new_cluster}
use fa_maf_sis_op.Fat.File.Lost.{add_cluster_lost}
use fa_maf_sis_op.Fat.File.Append.{FirstFree, next_or_new_cluster-Chain}

-- A disk that takes every write and keeps them all.
abbrev tape : Device
tape = record { Disk = List (ℕ × ℕ); pwrite = λ disk word offset. (pos 4, (word, offset) ∷ disk) }

seek_cluster-Chain_example : seek_cluster volume 2 5 ≡ some 4
seek_cluster-Chain_example =
    seek_cluster-Chain volume 2 5 (4 ∷ []) volume-IsFat32 two_valid sample-Chain (omega arith)

get_next_free_cluster-IsNextFree_example : IsNextFree volume (get_next_free_cluster volume)
get_next_free_cluster-IsNextFree_example =
    get_next_free_cluster-IsNextFree volume (omega arith) (omega arith) (omega arith)

get_clusters_for_size_lem_example :
    (5 ≤ get_clusters_for_size volume 5 * bytes_per_cluster volume)
    × ((d : ℕ) → 5 ≤ d * bytes_per_cluster volume → get_clusters_for_size volume 5 ≤ d)
get_clusters_for_size_lem_example = get_clusters_for_size_lem volume 5 (omega arith) (omega arith)

next_or_new_cluster-Chain_example :
    (f : ℕ) × (fat_map : List ℕ) × (disk' : List (ℕ × ℕ)) × (next_or_new_cluster tape volume [] 4
      ≡ some (f, record volume { fat_map = fat_map }, disk'))
    × FirstFree volume f
    × Chain (record volume { fat_map = fat_map }) 2 (4 ∷ f ∷ [])
    × ((c' : ℕ) (ds' : List ℕ)
        → All (λ j. j ≢ 4) (c' ∷ ds')
        → Chain volume c' ds'
        → Chain (record volume { fat_map = fat_map }) c' ds')
next_or_new_cluster-Chain_example =
    next_or_new_cluster-Chain tape volume [] 2 (4 ∷ []) 5 volume-IsFat32 (omega arith) (omega arith)
      sample-Chain (omega arith) (omega arith) refl (λ disk word offset. refl)

-- A disk that takes no write at first, and each one after that.
abbrev flaky_pwrite : Bool → ℕ → ℕ → ℤ × Bool
flaky_pwrite true word offset = (pos 4, true)
flaky_pwrite false word offset = (negsuc 0, true)

abbrev flaky : Device
flaky = record { Disk = Bool; pwrite = flaky_pwrite }

add_cluster_lost_example :
    (fat_map : List ℕ) × (add_cluster flaky volume false 4 5
      ≡ some (5, record volume { fat_map = fat_map }, true))
    × (get_elem? fat_map 5 ≡ some end_of_chain_max)
    × (get_elem? fat_map 4 ≡ some end_of_chain_max)
add_cluster_lost_example =
    add_cluster_lost flaky volume false 4 5 (omega arith) (omega arith) (omega arith) refl refl
