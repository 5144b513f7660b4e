-- ===== src/Fat/Disk/Tests.antt =====
-- A transfer on a disk in memory.
use fa_maf_sis_op.Prelude.{ℕ, ◌≡◌, some, [], ◌∷◌, arith}
use fa_maf_sis_op.Fat.Disk.{full_pread}
use fa_maf_sis_op.Fat.Disk.Transfer.{full_pread_lem}
use fa_maf_sis_op.Fat.Sample.{memory, memory-Reads, bytes}

full_pread_lem_example :
    (after : ℕ → ℕ) × (full_pread memory 4 bytes 3 10 ≡ some (10 ∷ 11 ∷ 12 ∷ [], after))
    × (after ≡ bytes)
full_pread_lem_example = full_pread_lem memory 4 bytes 3 10 memory-Reads (omega arith)
