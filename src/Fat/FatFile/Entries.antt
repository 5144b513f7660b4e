-- ===== src/Fat/FatFile/Entries.antt =====
-- What `write_dir_entry` of fat_file.c leaves on the disk.
use fa_maf_sis_op.Prelude.{
  ℕ, suc, ◌+◌, ◌-◌, ◌*◌, ◌≤◌, ◌<◌, ◌≡◌, refl, ap, sym, ◌∙◌, true, false, List, [], ◌∷◌, ◌++◌, leb,
  length, take, get_or, length-append, arith, ◌⊎◌, inl, inr, dec_lt,
}
use fa_maf_sis_op.Prelude.Int.{pos, negsuc}
use fa_maf_sis_op.Fat.Disk.{failed, DiskApi, bytes_at, patched}
use fa_maf_sis_op.Fat.Disk.Transfer.{
  DidWrite, patched-before, patched-from, patched-patched, take-all,
}
use fa_maf_sis_op.Fat.Entry.{DirEntry, entry_bytes, tail_bytes, entry_of_bytes, entry_size}
use fa_maf_sis_op.Fat.Entry.Bytes.{IsEntry, entry_of_bytes-entry_bytes}
use fa_maf_sis_op.Fat.Table.{FatTable, bytes_per_cluster, cluster_offset}
use fa_maf_sis_op.Fat.FatFile.{FatFile, entry_written, write_dir_entry}

length-entry_bytes : (e : DirEntry) → IsEntry e → length (entry_bytes e) ≡ 32
unfolding entry_bytes tail_bytes
length-entry_bytes e h = omega (
  arith,
  length-append e.base_name (e.extension ++ tail_bytes e),
  length-append e.extension (tail_bytes e),
  h.base_eight,
  h.extension_three,
)

-- The bytes that a patch put on the disk.
pub bytes_at-patched :
    (c : ℕ → ℕ) (o : ℕ) (xs : List ℕ) → bytes_at (patched c o xs) o (length xs) ≡ xs
bytes_at-patched c o [] = refl
bytes_at-patched c o (x ∷ xs) =
    ap (λ d. d o ∷ bytes_at d (suc o) (length xs)) (sym one_by_one)
    ∙ ap (λ b. b ∷ bytes_at (patched (patched c o (x ∷ [])) (suc o) xs) (suc o) (length xs)) first
    ∙ ap (λ r. x ∷ r) (bytes_at-patched (patched c o (x ∷ [])) (suc o) xs)
  where
    one_by_one : patched (patched c o (x ∷ [])) (suc o) xs ≡ patched c o (x ∷ xs)
    one_by_one = patched-patched c o (suc o) (x ∷ []) xs (omega arith)

    at_start : get_or (x ∷ []) (o - o) (c o) ≡ x
    at_start = ap (λ k. get_or (x ∷ []) k (c o)) {x = o - o} {y = 0} (omega arith)

    first : patched (patched c o (x ∷ [])) (suc o) xs o ≡ x
    first =
        patched-before (patched c o (x ∷ [])) (suc o) xs o (omega arith)
        ∙ patched-from c o (x ∷ []) o (omega arith)
        ∙ at_start

-- Where the entry of a file lies.
abbrev pub entry_place : FatTable → (parent file : FatFile) → ℕ
entry_place table parent file =
    file.pos_in_parent * entry_size + cluster_offset table parent.start_cluster

module _ (api : DiskApi) where
  -- In a full directory `write_dir_entry` gives -1 and writes nothing. Else, if `pwrite` writes all of
  -- the entry, it gives 0 and the 32 bytes at the file's place in the parent's cluster are read back as
  -- the file's entry.
  pub write_dir_entry_lem :
      (table : FatTable) (disk : api.Disk) (parent file : FatFile)
      → IsEntry file.dentry
      → (w : DidWrite api disk (entry_bytes file.dentry) (entry_place table parent file))
      → w.count ≡ 32
      → ((bytes_per_cluster table ≤ file.pos_in_parent * 32)
          × (write_dir_entry api table disk parent file ≡ (negsuc 0, disk)))
        ⊎ ((file.pos_in_parent * 32 < bytes_per_cluster table)
            × (write_dir_entry api table disk parent file ≡ (pos 0, w.after))
            × (entry_of_bytes (bytes_at (api.content w.after) (entry_place table parent file) 32)
                ≡ file.dentry))
  unfolding write_dir_entry entry_written
  write_dir_entry_lem table disk parent file h w all =
      elim (dec_lt (file.pos_in_parent * 32) (bytes_per_cluster table)) [
        | yes room ↦ inr (
          room,
          rw (has_room room, w.reply, all),
          ap entry_of_bytes
                (on_disk (entry_bytes file.dentry) (length-entry_bytes file.dentry h) w.is_patched)
              ∙ entry_of_bytes-entry_bytes file.dentry h,
        )
        | no full ↦ inl (omega arith, rw (is_full full))
      ]
    where
      has_room :
          file.pos_in_parent * 32 < bytes_per_cluster table
          → leb (bytes_per_cluster table) (file.pos_in_parent * 32) ≡ false
      has_room room = ground arith

      is_full :
          ¬ (file.pos_in_parent * 32 < bytes_per_cluster table)
          → leb (bytes_per_cluster table) (file.pos_in_parent * 32) ≡ true
      is_full full = ground arith

      on_disk :
          (b : List ℕ)
          → length b ≡ 32
          → api.content w.after
            ≡ patched (api.content disk) (entry_place table parent file) (take w.count b)
          → bytes_at (api.content w.after) (entry_place table parent file) 32 ≡ b
      on_disk b length_b e =
          let p = entry_place table parent file in
          let c = api.content disk in
          ap (λ d. bytes_at d p 32) e
          ∙ ap (λ x. bytes_at (patched c p x) p 32) (take-all w.count b (omega arith))
          ∙ ap (bytes_at (patched c p b) p) (sym length_b)
          ∙ bytes_at-patched c p b

  -- If `pwrite` fails, `write_dir_entry` gives 0 all the same: the -1 is compared as an unsigned number.
  pub write_dir_entry_failed :
      (table : FatTable) (disk : api.Disk) (parent file : FatFile)
      → file.pos_in_parent * 32 < bytes_per_cluster table
      → (api.pwrite disk (entry_bytes file.dentry) (entry_place table parent file)).0 ≡ failed
      → (write_dir_entry api table disk parent file).0 ≡ pos 0
  unfolding write_dir_entry entry_written
  write_dir_entry_failed table disk parent file room e = rw (has_room, e)
    where
      has_room : leb (bytes_per_cluster table) (file.pos_in_parent * 32) ≡ false
      has_room = ground arith
