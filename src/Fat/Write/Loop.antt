-- ===== src/Fat/Write/Loop.antt =====
-- The loop of `fat_file_pwrite` of fat_file.c on a chain that has room for the buffer.
use fa_maf_sis_op.Prelude.{
  ℕ, zero, suc, ◌+◌, ◌-◌, ◌*◌, ◌%◌, ◌≤◌, ◌<◌, ◌≡◌, refl, ap, sym, ◌∙◌, true, false, Option, some,
  List, [], ◌∷◌, ◌==◌, ltb, length, take, drop, take-end, drop-end, length-take, length-drop, arith,
  dec_lt, inl, inr,
}
use native.Mathlib.Nat.{mul-suc}
use fa_maf_sis_op.Fat.Memory.{◌>>=◌}
use fa_maf_sis_op.Fat.Disk.{DiskApi, device, full_pwrite, patched}
use fa_maf_sis_op.Fat.Disk.Transfer.{Writes, full_pwrite_lem}
use fa_maf_sis_op.Fat.File.{next_or_new_cluster}
use fa_maf_sis_op.Fat.Read.Contents.{is_valid-number}
use fa_maf_sis_op.Fat.Read.Slices.{aligned}
use fa_maf_sis_op.Fat.Table.{
  FatTable, bytes_per_cluster, get_cluster_remaining_bytes, cluster_offset, is_eoc,
}
use fa_maf_sis_op.Fat.Table.Chain.{
  Chain, Links, IsFat32, get_next_cluster-Links, is_valid_cluster_number_lem,
}
use fa_maf_sis_op.Fat.Table.Sizes.{get_cluster_remaining_bytes_lem, mask_offset_lem}
use fa_maf_sis_op.Fat.Write.{on_next, after_write_cluster, write_clusters}
use fa_maf_sis_op.Fat.Write.Clusters.{written, written-nil}

-- The cluster that follows in a chain, which is taken as it is.
pub next_or_new_cluster-Links :
    (api : DiskApi) (table : FatTable) (disk : api.Disk) (c d : ℕ)
    → IsFat32 table
    → Links table c d
    → next_or_new_cluster (device api) table disk c ≡ some (d, table, disk)
unfolding next_or_new_cluster is_eoc
next_or_new_cluster-Links api table disk c d fat32 link =
    rw (get_next_cluster-Links table c d link, inner)
  where
    inner : is_eoc d ≡ false
    inner = ground (arith, is_valid_cluster_number_lem table d fat32 link.1)

module _ (api : DiskApi) where
  nothing_left :
      (fuel : ℕ) (table : FatTable) (disk : api.Disk) (c : ℕ) (buf : List ℕ) (offset : ℕ)
      → 0 < fuel
      → length buf ≡ 0
      → write_clusters api fuel table disk c buf offset ≡ some (0, table, disk)
  unfolding write_clusters
  nothing_left zero table disk c buf offset h e = absurd (omega arith)
  nothing_left (suc fuel) table disk c buf offset h e = rw e (ground arith)

  last_round :
      (fuel : ℕ) (table : FatTable) (disk after : api.Disk) (c : ℕ) (buf : List ℕ) (offset n : ℕ)
      → 0 < length buf
      → n ≡ length buf
      → get_cluster_remaining_bytes table (length buf) offset ≡ n
      → full_pwrite api
          (suc fuel)
          disk
          (take n buf)
          (cluster_offset table c + offset % bytes_per_cluster table)
        ≡ some (n, after)
      → write_clusters api (suc fuel) table disk c buf offset
        ≡ write_clusters api fuel table after c (drop n buf) (offset + n)
  unfolding write_clusters after_write_cluster
  last_round fuel table disk after c buf offset n some_left all e eq =
      rw (e, is_left, mask_offset_lem table offset, eq, all_written, no_more)
    where
      is_left : ltb 0 (length buf) ≡ true
      is_left = ground arith

      all_written : (n == n) ≡ true
      all_written = ground arith

      no_more : ltb 0 (length buf - n) ≡ false
      no_more = ground arith

  middle_round :
      (fuel : ℕ) (table : FatTable) (disk after : api.Disk) (c d : ℕ) (buf : List ℕ) (offset n : ℕ)
      → IsFat32 table
      → Links table c d
      → n < length buf
      → get_cluster_remaining_bytes table (length buf) offset ≡ n
      → full_pwrite api
          (suc fuel)
          disk
          (take n buf)
          (cluster_offset table c + offset % bytes_per_cluster table)
        ≡ some (n, after)
      → write_clusters api (suc fuel) table disk c buf offset
        ≡ write_clusters api fuel table after d (drop n buf) (offset + n)
  unfolding write_clusters after_write_cluster on_next
  middle_round fuel table disk after c d buf offset n fat32 link more e eq = rw (
    e,
    is_left,
    mask_offset_lem table offset,
    eq,
    all_written,
    is_more,
    next_or_new_cluster-Links api table after c d fat32 link,
    ◌>>=◌,
    is_cluster,
    is_valid-number table d fat32 link.1,
  )
    where
      is_left : ltb 0 (length buf) ≡ true
      is_left = ground arith

      all_written : (n == n) ≡ true
      all_written = ground arith

      is_more : ltb 0 (length buf - n) ≡ true
      is_more = ground arith

      is_cluster : (d == 0) ≡ false
      is_cluster = ground (arith, is_valid_cluster_number_lem table d fat32 link.1)

-- What the loop leaves: nothing remains, the table is as before, and the volume holds the buffer.
abbrev pub Stores : (api : DiskApi) → FatTable → (ℕ → ℕ) → Option (ℕ × FatTable × api.Disk) → Type 0
Stores api table content r =
    (after : api.Disk) × (r ≡ some (0, table, after)) × (api.content after ≡ content)

-- A buffer that ends in the cluster.
written-within :
    (table : FatTable) (k : ℕ → ℕ) (c : ℕ) (cs : List ℕ) (m n : ℕ) (buf : List ℕ)
    → n ≡ length buf
    → m + n ≤ bytes_per_cluster table
    → patched k (cluster_offset table c + m) (take n buf) ≡ written table k (c ∷ cs) m buf
written-within table k c cs m n buf e h =
    let o = cluster_offset table c in
    let b = bytes_per_cluster table in
    ap (patched k (o + m)) (take-end n buf (omega arith) ∙ sym (take-end (b - m) buf (omega arith)))
    ∙ sym (written-nil table (patched k (o + m) (take (b - m) buf)) cs 0)
    ∙ ap (written table (patched k (o + m) (take (b - m) buf)) cs 0)
        (sym (drop-end (b - m) buf (omega arith)))

-- A buffer that goes on in the next cluster.
written-across :
    (table : FatTable) (k k' : ℕ → ℕ) (c : ℕ) (cs : List ℕ) (m n j : ℕ) (buf : List ℕ)
    → m + n ≡ bytes_per_cluster table
    → j ≡ 0
    → k' ≡ patched k (cluster_offset table c + m) (take n buf)
    → written table k' cs j (drop n buf) ≡ written table k (c ∷ cs) m buf
written-across table k k' c cs m n j buf e first same =
    ap (λ x. written table x cs j (drop n buf)) same
    ∙ ap
        (λ i. written table (patched k (cluster_offset table c + m) (take n buf)) cs i (drop n buf))
        first
    ∙ ap
        (λ i. written table (patched k (cluster_offset table c + m) (take i buf)) cs 0 (drop i buf))
        (omega arith)

module _ (api : DiskApi) (writes : Writes api) where
  -- One `full_pwrite` of `n` bytes.
  piece :
      (fuel : ℕ) (disk : api.Disk) (buf : List ℕ) (n o : ℕ)
      → n ≤ length buf
      → length buf ≤ fuel
      → (after : api.Disk) × (full_pwrite api (suc fuel) disk (take n buf) o ≡ some (n, after))
        × (api.content after ≡ patched (api.content disk) o (take n buf))
  piece fuel disk buf n o h enough =
      let (after, eq, kept) =
        full_pwrite_lem api (suc fuel) disk (take n buf) o writes
          (omega (arith, length-take n buf h)) in
      (after, eq ∙ ap (λ l. some (l, after)) (length-take n buf h), kept)

  ends_here :
      (fuel : ℕ) (table : FatTable) (disk : api.Disk) (c : ℕ) (ds buf : List ℕ) (offset n : ℕ)
      → 0 < length buf
      → length buf ≤ fuel
      → n ≡ length buf
      → get_cluster_remaining_bytes table (length buf) offset ≡ n
      → offset % bytes_per_cluster table + n ≤ bytes_per_cluster table
      → Stores api table
          (written table (api.content disk) (c ∷ ds) (offset % bytes_per_cluster table) buf)
          (write_clusters api (suc fuel) table disk c buf offset)
  ends_here fuel table disk c ds buf offset n some_left enough all e within =
      let m = offset % bytes_per_cluster table in
      let (after, eq, stored) =
        piece fuel disk buf n (cluster_offset table c + m) (omega arith) enough in
      (
        after,
        last_round api fuel table disk after c buf offset n some_left all e eq
            ∙ nothing_left api fuel table after c (drop n buf) (offset + n) (omega arith)
                (omega (arith, length-drop n buf)),
        stored ∙ written-within table (api.content disk) c ds m n buf all within,
      )

  pub write_clusters_lem :
      (fuel : ℕ) (table : FatTable) (disk : api.Disk) (c : ℕ) (ds buf : List ℕ) (offset : ℕ)
      → IsFat32 table
      → Chain table c ds
      → length buf < fuel
      → offset % bytes_per_cluster table + length buf ≤ bytes_per_cluster table * suc (length ds)
      → Stores api table
          (written table (api.content disk) (c ∷ ds) (offset % bytes_per_cluster table) buf)
          (write_clusters api fuel table disk c buf offset)
  write_clusters_lem zero table disk c ds buf offset fat32 chain enough room = absurd (omega arith)
  write_clusters_lem (suc fuel) table disk c ds [] offset fat32 chain enough room = (
    disk,
    nothing_left api (suc fuel) table disk c [] offset (omega arith) refl,
    sym (written-nil table (api.content disk) (c ∷ ds) (offset % bytes_per_cluster table)),
  )
  write_clusters_lem (suc fuel) table disk c [] (x ∷ buf) offset fat32 chain enough room =
      let n = get_cluster_remaining_bytes table (suc (length buf)) offset in
      let (at_most, within, some_bytes, stops) =
        get_cluster_remaining_bytes_lem table (suc (length buf)) offset in
      elim stops [
        | inl all ↦
            ends_here fuel table disk c [] (x ∷ buf) offset n (omega arith) (omega arith) all refl
              within
        | inr full ↦
            ends_here fuel table disk c [] (x ∷ buf) offset n (omega arith) (omega arith)
              (omega arith) refl within
      ]
  write_clusters_lem (suc fuel) table disk c (d ∷ ds) (x ∷ buf) offset fat32 (link, chain) enough
        room =
      let b = bytes_per_cluster table in
      let n = get_cluster_remaining_bytes table (suc (length buf)) offset in
      let m = offset % b in
      let (at_most, within, some_bytes, stops) =
        get_cluster_remaining_bytes_lem table (suc (length buf)) offset in
      elim (dec_lt n (suc (length buf))) [
        | no all ↦
            ends_here fuel table disk c (d ∷ ds) (x ∷ buf) offset n (omega arith) (omega arith)
              (omega arith) refl within
        | yes more ↦
            let full : m + n ≡ b = elim stops [ inl e ↦ absurd (omega arith) | inr e ↦ e ] in
            let (after, eq, stored) =
              piece fuel disk (x ∷ buf) n (cluster_offset table c + m) (omega arith)
                (omega arith) in
            let (final, eq', stored') =
              write_clusters_lem fuel table after d ds (drop n (x ∷ buf)) (offset + n) fat32 chain
                (omega (arith, length-drop n (x ∷ buf), some_bytes (omega arith)))
                (omega (
                  arith,
                  length-drop n (x ∷ buf),
                  aligned offset b n full,
                  mul-suc b (suc (length ds)),
                )) in
            (
              final,
              middle_round api fuel table disk after c d (x ∷ buf) offset n fat32 link more refl eq
                  ∙ eq',
              stored'
                  ∙ written-across table (api.content disk) (api.content after) c (d ∷ ds) m n
                      ((offset + n) % b) (x ∷ buf) full (aligned offset b n full) stored,
            )
      ]
