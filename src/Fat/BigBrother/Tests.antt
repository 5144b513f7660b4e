-- ===== src/Fat/BigBrother/Tests.antt =====
-- A volume whose cluster 2 is marked as bad, and the paths of the log.
use fa_maf_sis_op.Prelude.{
  ℕ, ◌≡◌, refl, true, false, some, ◌∷◌, replicate, length-replicate, codes, arith,
}
use fa_maf_sis_op.Fat.Table.{FatTable}
use fa_maf_sis_op.Fat.BigBrother.{
  prefix_eq, bb_is_log_filepath, bb_is_log_dirpath, bb_find_orphan_cluster,
}
use fa_maf_sis_op.Fat.BigBrother.Orphan.{bb_find_orphan_cluster_lem}
use fa_maf_sis_op.Fat.Sample.{volume, memory, bytes}

abbrev marked : FatTable
marked = record volume {
  fat_map = 0x0FFFFFF8 ∷ 0x0FFFFFFF ∷ 0x0FFFFFF7 ∷ replicate 9997 0;
  num_data_clusters = 9998;
}

bb_find_orphan_cluster_lem_example :
    bb_find_orphan_cluster memory 9999 marked bytes 2 ≡ some (10000, bytes)
bb_find_orphan_cluster_lem_example =
    bb_find_orphan_cluster_lem memory 9999 marked bytes 2 (omega arith)
      (omega (arith, length-replicate {A = ℕ} 9997 0)) (omega arith) (omega arith)

another_file : bb_is_log_filepath (codes "/bb/fs.lock") ≡ true
unfolding bb_is_log_filepath prefix_eq
another_file = refl

another_directory : bb_is_log_dirpath (codes "/bbb") ≡ false
unfolding bb_is_log_dirpath prefix_eq
another_directory = refl
