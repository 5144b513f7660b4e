-- ===== src/Fat/File.antt =====
-- lab03/sistop-famaf-so25lab3g34/fat_file.c: how a file takes new clusters. The console messages are
-- left out.
pub mod Append
pub mod Lost
use fa_maf_sis_op.Prelude.{ℕ, ◌≡◌, Bool, true, false, not, Option, none, some, ◌==◌, if◌then◌else◌}
use fa_maf_sis_op.Prelude.Int.{ℤ, pos, eq_ℤ}
use fa_maf_sis_op.Fat.Memory.{◌>>=◌}
use fa_maf_sis_op.Fat.Table.{
  FatTable, Device, end_of_chain_max, get_next_cluster, get_next_free_cluster, is_eoc,
  set_next_cluster,
}

module _ (device : Device) where
  -- `next` behind `last_cluster`, then the end of the chain behind `next`. The
  -- error of the first write is not looked at.
  unfoldable pub add_cluster :
      FatTable → device.Disk → (last_cluster next : ℕ) → Option (ℕ × FatTable × device.Disk)
  add_cluster table disk last_cluster next = do
    (error, table, disk) ← set_next_cluster device table disk last_cluster next
    (error, table, disk) ← set_next_cluster device table disk next end_of_chain_max
    if not (eq_ℤ error (pos 0)) then some (0, table, disk) else some (next, table, disk)

  -- What follows the end of the chain: the search of a free cluster.
  unfoldable pub new_cluster :
      FatTable → device.Disk → (last_cluster : ℕ) → Option (ℕ × FatTable × device.Disk)
  new_cluster table disk last_cluster = do
    next ← get_next_free_cluster table
    if is_eoc next then some (0, table, disk) else add_cluster table disk last_cluster next

  unfoldable pub next_or_new_cluster :
      FatTable → device.Disk → (last_cluster : ℕ) → Option (ℕ × FatTable × device.Disk)
  next_or_new_cluster table disk last_cluster = do
    next ← get_next_cluster table last_cluster
    if is_eoc next then new_cluster table disk last_cluster else some (next, table, disk)
