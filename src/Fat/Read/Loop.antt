-- ===== src/Fat/Read/Loop.antt =====
-- The loop of `fat_file_pread` of fat_file.c on a chain.
use fa_maf_sis_op.Prelude.{
  ℕ, zero, suc, ◌+◌, ◌-◌, ◌*◌, ◌%◌, ◌≤◌, ◌<◌, ◌≡◌, inl, inr, refl, ap, sym, ◌∙◌, true, Option, some,
  List, [], ◌∷◌, ◌++◌, ◌==◌, ltb, length, take, drop, arith, dec_lt,
}
use mathlib.Core.List.{append-nil, append_assoc}
use native.Mathlib.Nat.{mul-suc}
use fa_maf_sis_op.Fat.Memory.{◌>>=◌}
use fa_maf_sis_op.Fat.Disk.{DiskApi, bytes_at, full_pread}
use fa_maf_sis_op.Fat.Disk.Transfer.{Reads, full_pread_lem, length-bytes_at}
use fa_maf_sis_op.Fat.Table.{
  FatTable, end_of_chain_max, is_valid_cluster_number, bytes_per_cluster, get_next_cluster,
  get_cluster_remaining_bytes, cluster_offset, is_valid,
}
use fa_maf_sis_op.Fat.Table.Chain.{Chain, IsFat32, get_next_cluster-Ends, get_next_cluster-Links}
use fa_maf_sis_op.Fat.Table.Sizes.{get_cluster_remaining_bytes_lem, mask_offset_lem}
use fa_maf_sis_op.Fat.Read.{after_cluster, read_clusters}
use fa_maf_sis_op.Fat.Read.Slices.{take-within, take-across, aligned}
use fa_maf_sis_op.Fat.Read.Contents.{contents, is_valid-number}

-- One round of the loop.
round :
    (api : DiskApi) (fuel : ℕ) (table : FatTable) (disk after : api.Disk) (c next : ℕ)
    (buf bytes : List ℕ) (remaining offset n : ℕ)
    → 0 < remaining
    → is_valid c ≡ true
    → get_next_cluster table c ≡ some next
    → get_cluster_remaining_bytes table remaining offset ≡ n
    → full_pread api (suc fuel) disk n (cluster_offset table c + offset % bytes_per_cluster table)
      ≡ some (bytes, after)
    → length bytes ≡ n
    → read_clusters api (suc fuel) table disk c buf remaining offset
      ≡ read_clusters api fuel table after next (buf ++ bytes) (remaining - n) (offset + n)
unfolding read_clusters after_cluster
round api fuel table disk after c next buf bytes remaining offset n some_left valid link e eq len =
    rw (e, is_left, valid, mask_offset_lem table offset, eq, all_read, link, ◌>>=◌)
  where
    is_left : ltb 0 remaining ≡ true
    is_left = ground arith

    all_read : (length bytes == n) ≡ true
    all_read = ground arith

nothing_left :
    (api : DiskApi) (fuel : ℕ) (table : FatTable) (disk : api.Disk) (c : ℕ) (buf : List ℕ)
    (remaining offset : ℕ)
    → 0 < fuel
    → remaining ≡ 0
    → read_clusters api fuel table disk c buf remaining offset ≡ some (buf, 0, disk)
unfolding read_clusters
nothing_left api zero table disk c buf remaining offset h e = absurd (omega arith)
nothing_left api (suc fuel) table disk c buf remaining offset h e = rw e (ground arith)

next_exists :
    (table : FatTable) (c : ℕ) (ds : List ℕ)
    → Chain table c ds
    → (next : ℕ) × (get_next_cluster table c ≡ some next)
next_exists table c [] chain = (end_of_chain_max, get_next_cluster-Ends table c chain)
next_exists table c (d ∷ ds) (link, chain) = (d, get_next_cluster-Links table c d link)

-- What the loop gives: the bytes, nothing remaining, and the volume as before.
abbrev pub Gives : (api : DiskApi) → api.Disk → List ℕ → Option (List ℕ × ℕ × api.Disk) → Type 0
Gives api disk bytes r =
    (after : api.Disk) × (r ≡ some (bytes, 0, after)) × (api.content after ≡ api.content disk)

module _ (api : DiskApi) (reads : Reads api) where
  -- A read that ends in the cluster.
  ends_here :
      (fuel : ℕ) (table : FatTable) (disk : api.Disk) (c next : ℕ) (buf rest : List ℕ)
      (remaining offset : ℕ)
      → 0 < remaining
      → remaining ≤ fuel
      → is_valid c ≡ true
      → get_next_cluster table c ≡ some next
      → get_cluster_remaining_bytes table remaining offset ≡ remaining
      → offset % bytes_per_cluster table + remaining ≤ bytes_per_cluster table
      → Gives api disk
          (buf
            ++ take remaining (
                drop (offset % bytes_per_cluster table) (
                  bytes_at (api.content disk) (cluster_offset table c) (bytes_per_cluster table)
                  ++ rest)))
          (read_clusters api (suc fuel) table disk c buf remaining offset)
  ends_here fuel table disk c next buf rest remaining offset some_left h valid link e b =
      let m = offset % bytes_per_cluster table in
      let o = cluster_offset table c + m in
      let (after, eq, kept) = full_pread_lem api (suc fuel) disk remaining o reads (omega arith) in
      (
        after,
        round api fuel table disk after c next buf _ remaining offset remaining some_left valid link
              e eq (length-bytes_at (api.content disk) o remaining)
            ∙ nothing_left api fuel table after next _ (remaining - remaining) (offset + remaining)
                (omega arith) (omega arith)
            ∙ ap (λ x. some (buf ++ x, 0, after))
                (sym (
                  take-within (api.content disk) (cluster_offset table c) o
                    (bytes_per_cluster table) m remaining rest refl b)),
        kept,
      )

  -- A read that goes on in the next cluster, given what the rest of the loop gives.
  goes_on :
      (fuel : ℕ) (table : FatTable) (disk : api.Disk) (c d : ℕ) (ds buf : List ℕ)
      (remaining offset n : ℕ)
      → n < remaining
      → remaining ≤ fuel
      → is_valid c ≡ true
      → get_next_cluster table c ≡ some d
      → get_cluster_remaining_bytes table remaining offset ≡ n
      → offset % bytes_per_cluster table + n ≡ bytes_per_cluster table
      → ((after : api.Disk) (read : List ℕ)
          → Gives api after
              (read
                ++ take (remaining - n) (
                    drop
                      ((offset + n) % bytes_per_cluster table)
                      (contents table (api.content after) (d ∷ ds))))
              (read_clusters api fuel table after d read (remaining - n) (offset + n)))
      → Gives api disk
          (buf
            ++ take remaining (
                drop
                  (offset % bytes_per_cluster table)
                  (contents table (api.content disk) (c ∷ d ∷ ds))))
          (read_clusters api (suc fuel) table disk c buf remaining offset)
  goes_on fuel table disk c d ds buf remaining offset n more h valid link e b rest =
      let m = offset % bytes_per_cluster table in
      let o = cluster_offset table c + m in
      let here = bytes_at (api.content disk) o n in
      let (after, eq, kept) = full_pread_lem api (suc fuel) disk n o reads (omega arith) in
      let (final, eq', kept') = rest after (buf ++ here) in
      (
        final,
        round api fuel table disk after c d buf here remaining offset n (omega arith) valid link e
              eq (length-bytes_at (api.content disk) o n)
            ∙ eq'
            ∙ ap (λ x. some (x, 0, final))
                (append_assoc buf here _
                  ∙ ap (λ x. buf ++ (here ++ x)) (behind after kept)
                  ∙ ap (λ x. buf ++ x)
                      (sym (
                        take-across (api.content disk) (cluster_offset table c) o
                          (bytes_per_cluster table) m n (remaining - n) remaining
                          (contents table (api.content disk) (d ∷ ds)) refl (omega arith)
                          (omega arith)))),
        kept' ∙ kept,
      )
    where
      behind :
          (after : api.Disk)
          → api.content after ≡ api.content disk
          → take (remaining - n) (
              drop
                ((offset + n) % bytes_per_cluster table)
                (contents table (api.content after) (d ∷ ds)))
            ≡ take (remaining - n) (contents table (api.content disk) (d ∷ ds))
      behind after kept =
          ap (λ k. take (remaining - n) (drop k (contents table (api.content after) (d ∷ ds))))
            (aligned offset (bytes_per_cluster table) n b)
          ∙ ap (λ x. take (remaining - n) (contents table x (d ∷ ds))) kept

  -- One round, given what happens if the read goes on behind the cluster.
  step :
      (fuel : ℕ) (table : FatTable) (disk : api.Disk) (c : ℕ) (ds buf : List ℕ)
      (remaining offset : ℕ)
      → IsFat32 table
      → is_valid_cluster_number table c ≡ true
      → Chain table c ds
      → 0 < remaining
      → remaining ≤ fuel
      → (get_cluster_remaining_bytes table remaining offset < remaining
          → offset % bytes_per_cluster table + get_cluster_remaining_bytes table remaining offset
            ≡ bytes_per_cluster table
          → 0 < get_cluster_remaining_bytes table remaining offset
          → Gives api disk
              (buf
                ++ take remaining (
                    drop
                      (offset % bytes_per_cluster table)
                      (contents table (api.content disk) (c ∷ ds))))
              (read_clusters api (suc fuel) table disk c buf remaining offset))
      → Gives api disk
          (buf
            ++ take remaining (
                drop
                  (offset % bytes_per_cluster table)
                  (contents table (api.content disk) (c ∷ ds))))
          (read_clusters api (suc fuel) table disk c buf remaining offset)
  step fuel table disk c ds buf remaining offset fat32 ok chain some_left h on =
      let n = get_cluster_remaining_bytes table remaining offset in
      let (at_most, within, some_bytes, stops) =
        get_cluster_remaining_bytes_lem table remaining offset in
      let (next, link) = next_exists table c ds chain in
      elim (dec_lt n remaining) [
        | no all ↦
            let e : n ≡ remaining = omega arith in
            ends_here fuel table disk c next buf (contents table (api.content disk) ds) remaining
              offset some_left h (is_valid-number table c fat32 ok) link e (omega arith)
        | yes more ↦ elim stops [
          | inl e ↦ absurd (omega arith)
          | inr e ↦ on more e (some_bytes some_left)
        ]
      ]

  -- The loop from a cluster whose chain holds all that remains.
  pub read_clusters_lem :
      (fuel : ℕ) (table : FatTable) (disk : api.Disk) (c : ℕ) (ds buf : List ℕ)
      (remaining offset : ℕ)
      → IsFat32 table
      → is_valid_cluster_number table c ≡ true
      → Chain table c ds
      → remaining < fuel
      → offset % bytes_per_cluster table + remaining ≤ bytes_per_cluster table * suc (length ds)
      → Gives api disk
          (buf
            ++ take remaining (
                drop
                  (offset % bytes_per_cluster table)
                  (contents table (api.content disk) (c ∷ ds))))
          (read_clusters api fuel table disk c buf remaining offset)
  read_clusters_lem zero table disk c ds buf remaining offset fat32 ok chain h b =
      absurd (omega arith)
  read_clusters_lem (suc fuel) table disk c ds buf zero offset fat32 ok chain h b = (
    disk,
    nothing_left api (suc fuel) table disk c buf 0 offset (omega arith) refl
        ∙ ap (λ x. some (x, 0, disk)) (sym (append-nil buf)),
    refl,
  )
  read_clusters_lem (suc fuel) table disk c [] buf (suc k) offset fat32 ok chain h b =
      step fuel table disk c [] buf (suc k) offset fat32 ok chain (omega arith) (omega arith)
        (λ more e some_bytes. absurd (omega arith))
  read_clusters_lem (suc fuel) table disk c (d ∷ ds) buf (suc k) offset fat32 ok (link, chain) h b =
      let n = get_cluster_remaining_bytes table (suc k) offset in
      step fuel table disk c (d ∷ ds) buf (suc k) offset fat32 ok (link, chain) (omega arith)
        (omega arith)
        (λ more e some_bytes.
          goes_on fuel table disk c d ds buf (suc k) offset n more (omega arith)
            (is_valid-number table c fat32 ok) (get_next_cluster-Links table c d link) refl e
            (λ after read.
              read_clusters_lem fuel table after d ds read (suc k - n) (offset + n) fat32 link.1
                chain (omega arith)
                (omega (
                  arith,
                  aligned offset (bytes_per_cluster table) n e,
                  mul-suc (bytes_per_cluster table) (suc (length ds)),
                ))))
