-- ===== src/Fat/Directory/Places.antt =====
-- The place of the next entry that `parse_dir_entries_in_cluster` of fat_file.c leaves in a directory.
use fa_maf_sis_op.Prelude.{
  ℕ, suc, ◌+◌, ◌*◌, ◌<◌, ◌≡◌, ◌⊎◌, ap, sym, ◌∙◌, Bool, true, false, Option, inl, inr, none, some,
  List, [], ◌∷◌, ◌++◌, All, if◌then◌else◌, length, arith,
}
use fa_maf_sis_op.Prelude.Int.{pos}
use fa_maf_sis_op.Fat.Memory.{◌>>=◌, u32}
use fa_maf_sis_op.Fat.Create.{init_file_from_dentry}
use fa_maf_sis_op.Fat.Disk.{DiskApi, bytes_at}
use fa_maf_sis_op.Fat.Disk.Transfer.{DidWrite}
use fa_maf_sis_op.Fat.Entry.{
  DirEntry, is_end_of_directory, ignore_dentry, entry_of_bytes, entry_bytes,
}
use fa_maf_sis_op.Fat.Entry.Bytes.{IsEntry}
use fa_maf_sis_op.Fat.FatFile.{FatFile, fat_file_dentry_add_child, write_dir_entry}
use fa_maf_sis_op.Fat.FatFile.Entries.{write_dir_entry_lem}
use fa_maf_sis_op.Fat.Table.{FatTable, bytes_per_cluster, cluster_offset}
use fa_maf_sis_op.Fat.Directory.{parse_entries}

-- An entry is used if it is not the mark of the end.
abbrev pub IsUsed : DirEntry → Type 0
IsUsed e = is_end_of_directory e ≡ false

module _ {ℓ κ} {A : Type ℓ} {B : Type κ} where
  bind-some :
      (o : Option A) (f : A → Option B) (b : B) → (o >>= f) ≡ some b → (a : A) × (f a ≡ some b)
  bind-some none f b h = absurd (clash h)
    where
      clash : ¬ (none ≡ some b)
      clash h = cc
  bind-some (some a) f b h = (a, h)

module _ {ℓ} {A : Type ℓ} where
  otherwise : (t : Bool) (x y z : A) → t ≡ false → (if t then x else y) ≡ z → y ≡ z
  otherwise true x y z e h = absurd cc
  otherwise false x y z e h = h

  on_mark : (t : Bool) (x y z : A) → t ≡ true → (if t then x else y) ≡ z → x ≡ z
  on_mark true x y z e h = h
  on_mark false x y z e h = absurd cc

  one_of : (t : Bool) (x y z : A) → (if t then x else y) ≡ z → (x ≡ z) ⊎ (y ≡ z)
  one_of true x y z h = inl h
  one_of false x y z h = inr h

first_eq :
    (a b : FatFile) (xs ys : List FatFile)
    → ◌≡◌ {A = Option (FatFile × List FatFile)} (some (a, xs)) (some (b, ys))
    → a ≡ b
first_eq a b xs ys h = cc

-- An entry that is used is passed, with some list of children.
used_step :
    (e : DirEntry) (es : List DirEntry) (p : ℕ) (dir : FatFile) (elems : List FatFile)
    (r : FatFile × List FatFile)
    → IsUsed e
    → parse_entries (e ∷ es) p dir elems ≡ some r
    → (elems' : List FatFile) × (parse_entries es (suc p) (record dir { nentries = p }) elems'
        ≡ some r)
unfolding parse_entries
used_step e es p dir elems r used h =
    let (ignored, g) = bind-some (ignore_dentry e) _ r (otherwise _ _ _ (some r) used h) in
    elim (one_of ignored _ _ (some r) g) [
      | inl eq ↦ (elems, eq)
      | inr eq ↦
          let (child, eq') =
            bind-some (init_file_from_dentry e (record dir { nentries = p })) _ r eq in
          (elems ++ child ∷ [], eq')
    ]

-- A part of the directory without the mark of the end, and the number that it leaves.
used_part :
    (e : DirEntry) (es rest : List DirEntry) (p : ℕ) (dir : FatFile) (elems : List FatFile)
    (r : FatFile × List FatFile)
    → All IsUsed (e ∷ es)
    → parse_entries (e ∷ (es ++ rest)) p dir elems ≡ some r
    → (dir' : FatFile) × (elems' : List FatFile) × (parse_entries rest
          (suc p + length es)
          dir'
          elems'
        ≡ some r)
      × (dir'.nentries ≡ p + length es)
used_part e [] rest p dir elems r (used, none_left) h =
    let (elems', eq) = used_step e rest p dir elems r used h in
    (
      record dir { nentries = p },
      elems',
      ap (λ k. parse_entries rest k (record dir { nentries = p }) elems') {x = suc p + 0}
            {y = suc p} (omega arith)
          ∙ eq,
      omega arith,
    )
used_part e (d ∷ es) rest p dir elems r (used, others) h =
    let (elems', eq) = used_step e (d ∷ (es ++ rest)) p dir elems r used h in
    let (dir', elems'', eq', at) =
      used_part d es rest (suc p) (record dir { nentries = p }) elems' r others eq in
    (
      dir',
      elems'',
      ap (λ k. parse_entries rest k dir' elems'') {x = suc p + suc (length es)}
            {y = suc (suc p) + length es} (omega arith)
          ∙ eq',
      omega (arith, at),
    )

-- What follows the used entries in a cluster: nothing, or the mark of the end first.
abbrev pub IsTail : List DirEntry → Type 0
IsTail [] = Unit
IsTail (mark ∷ rest) = is_end_of_directory mark ≡ true

-- Behind the used entries if the mark is there, and at the last of them in a full cluster.
abbrev pub next_place : (used : ℕ) → (tail : List DirEntry) → ℕ
next_place used [] = used
next_place used (mark ∷ rest) = suc used

at_tail :
    (tail : List DirEntry) (p : ℕ) (dir dir' : FatFile) (elems children : List FatFile)
    → IsTail tail
    → dir.nentries ≡ p
    → parse_entries tail (suc p) dir elems ≡ some (dir', children)
    → dir'.nentries ≡ next_place p tail
unfolding parse_entries
at_tail [] p dir dir' elems children h e eq =
    ap (λ d. d.nentries) (sym (first_eq dir dir' elems children eq)) ∙ e
at_tail (mark ∷ rest) p dir dir' elems children h e eq =
    ap (λ d. d.nentries)
      (sym (
        first_eq (record dir { nentries = suc p; children_read = true }) dir' elems children
          (on_mark _ _ _ (some (dir', children)) h eq)))

-- A child is at its place, in memory and on the disk, and the directory counts on from there.
pub record IsAdded (api : DiskApi) (table : FatTable) (dir child : FatFile) (place : ℕ)
    (after : api.Disk) (r : FatFile × FatFile × api.Disk) : Type 0 where
  pub parent : r.0 ≡ record dir { nentries = u32 (place + 1) }
  pub child_placed : r.1 ≡ record child { pos_in_parent = place }
  pub disk_written : r.2 ≡ after
  pub on_disk :
      entry_of_bytes
        (bytes_at (api.content r.2) (place * 32 + cluster_offset table dir.start_cluster) 32)
      ≡ child.dentry

module _ (api : DiskApi) where
  -- A child that is added to a directory with a number of entries below the cluster's.
  fat_file_dentry_add_child_lem :
      (table : FatTable) (disk : api.Disk) (dir child : FatFile) (place : ℕ)
      → dir.nentries ≡ place
      → place * 32 < bytes_per_cluster table
      → IsEntry child.dentry
      → (w : DidWrite api disk
          (entry_bytes child.dentry)
          (place * 32 + cluster_offset table dir.start_cluster))
      → w.count ≡ 32
      → IsAdded api table dir child place w.after
          (fat_file_dentry_add_child api table disk dir child)
  unfolding fat_file_dentry_add_child
  fat_file_dentry_add_child_lem table disk dir child place at room entry w all =
      let placed : ℕ → FatFile = λ k. record child { pos_in_parent = k } in
      let (e, bytes) = written in
      let same = ap (λ k. (write_dir_entry api table disk dir (placed k)).1) at ∙ ap (λ r. r.1) e in
      record {
        parent = ap (λ k. record dir { nentries = u32 (k + 1) }) at;
        child_placed = ap placed at;
        disk_written = same;
        on_disk =
            ap
              (λ d.
                entry_of_bytes (
                  bytes_at (api.content d) (place * 32 + cluster_offset table dir.start_cluster)
                    32))
              same
            ∙ bytes;
      }
    where
      written :
          (write_dir_entry api table disk dir (record child { pos_in_parent = place })
            ≡ (pos 0, w.after))
          × (entry_of_bytes (
                bytes_at
                  (api.content w.after)
                  (place * 32 + cluster_offset table dir.start_cluster)
                  32)
              ≡ child.dentry)
      written =
          elim (write_dir_entry_lem api table disk dir (record child { pos_in_parent = place })
            entry w all) [
              | inl (full, e) ↦ absurd (omega (arith, full, room))
              | inr (free, e, bytes) ↦ (e, bytes)
            ]

  -- A directory whose cluster holds some used entries, and behind them the mark of the end or nothing.
  -- If the entries are parsed and `pwrite` writes all of the entry, then `fat_file_dentry_add_child`
  -- puts the next child behind the used entries, where the mark is; in a full cluster it puts it in
  -- the place of the last entry. There the 32 bytes on the disk are read back as the child's entry,
  -- and the directory counts on from there. The place lies within a cluster, and the child's entry has
  -- a name of eight characters, an extension of three, and fields that fit their places.
  pub parse_entries_lem :
      (table : FatTable) (disk : api.Disk) (e : DirEntry) (es tail : List DirEntry)
      (dir dir' child : FatFile) (children : List FatFile)
      → All IsUsed (e ∷ es)
      → IsTail tail
      → parse_entries (e ∷ (es ++ tail)) 0 dir [] ≡ some (dir', children)
      → next_place (length es) tail * 32 < bytes_per_cluster table
      → IsEntry child.dentry
      → (w : DidWrite api disk
          (entry_bytes child.dentry)
          (next_place (length es) tail * 32 + cluster_offset table dir'.start_cluster))
      → w.count ≡ 32
      → IsAdded api table dir' child
          (next_place (length es) tail)
          w.after
          (fat_file_dentry_add_child api table disk dir' child)
  parse_entries_lem table disk e es tail dir dir' child children used h eq room entry w all =
      let (before, elems, eq', at) = used_part e es tail 0 dir [] (dir', children) used eq in
      fat_file_dentry_add_child_lem table disk dir' child (next_place (length es) tail)
        (at_tail tail (length es) before dir' elems children h (omega (arith, at)) (
          ap (λ k. parse_entries tail k before elems) {x = suc (length es)} {y = suc 0 + length es}
            (omega arith)
          ∙ eq'))
        room entry w all
