-- ===== src/Fat/Write/First.antt =====
-- The first cluster that `fat_file_pwrite` of fat_file.c writes to, in a chain that has room.
use fa_maf_sis_op.Prelude.{
  ℕ, zero, suc, ◌+◌, ◌-◌, ◌*◌, ◌/◌, ◌%◌, ◌≤◌, ◌<◌, ◌≡◌, ap, ◌∙◌, true, false, not, ◌&&◌, some, List,
  [], ◌∷◌, ◌==◌, if◌then◌else◌, drop, arith, dec_lt,
}
use mathlib.Core.Path.{subst}
use native.Mathlib.Nat.{
  div-lt_iff_lt-mul, le-div_iff_mul-le, suc-mul, mul_comm, mul-suc, div-add-mod, mod-lt,
}
use fa_maf_sis_op.Fat.Disk.{DiskApi}
use fa_maf_sis_op.Fat.FatFile.{FatFile}
use fa_maf_sis_op.Fat.Read.Contents.{From, Chain-From}
use fa_maf_sis_op.Fat.Table.{FatTable, is_valid_cluster_number, bytes_per_cluster, seek_cluster}
use fa_maf_sis_op.Fat.Table.Chain.{
  Chain, Links, IsFat32, cluster_at, seek_cluster-Chain, is_valid_cluster_number_lem,
}
use fa_maf_sis_op.Fat.Table.Sizes.{bytes_per_cluster_pos}
use fa_maf_sis_op.Fat.Write.{first_cluster}
use fa_maf_sis_op.Fat.Write.Loop.{next_or_new_cluster-Links}

-- The quotient of a number that is given by blocks and a rest.
quotient : (b n q m : ℕ) → n ≡ b * q + m → m < b → n / b ≡ q
quotient b n q m e lt = omega (
  arith,
  (le-div_iff_mul-le {k = b} {x = q} {y = n} (omega arith)).1 lower,
  (div-lt_iff_lt-mul {k = b} {x = n} {y = suc q} (omega arith)).1 upper,
)
  where
    lower : q * b ≤ n
    lower = omega (arith, mul_comm b q)

    upper : n < suc q * b
    upper = omega (arith, mul_comm b q, suc-mul q b)

-- The cluster behind the one at a position.
position_next :
    (cs : List ℕ) (q a b : ℕ) (xs ys : List ℕ)
    → drop q cs ≡ a ∷ xs
    → drop (suc q) cs ≡ b ∷ ys
    → xs ≡ b ∷ ys
position_next [] zero a b xs ys e f = cc
position_next [] (suc q) a b xs ys e f = cc
position_next (c ∷ cs) zero a b xs ys e f = tail e ∙ f
  where
    tail : c ∷ cs ≡ a ∷ xs → xs ≡ cs
    tail h = cc
position_next (c ∷ cs) (suc q) a b xs ys e f = position_next cs q a b xs ys e f

From-Links :
    (table : FatTable) (cs : List ℕ) (q : ℕ) (r : From table cs q) (s : From table cs (suc q))
    → Links table r.first s.first
From-Links table cs q r s =
    (subst (Chain table r.first)
      (position_next cs q r.first s.first r.others s.others r.rest s.rest) r.chain).0

module _ (api : DiskApi) where
  -- An offset within a cluster, or at the start of the file.
  inside :
      (table : FatTable) (disk : api.Disk) (file : FatFile) (offset c : ℕ)
      → ((offset % bytes_per_cluster table == 0) && not (c == 0)) && not (offset == 0) ≡ false
      → seek_cluster table file.start_cluster (if offset == 0 then 0 else offset - 1) ≡ some c
      → first_cluster api table disk file offset ≡ some (c, table, disk)
  unfolding first_cluster
  inside table disk file offset c guard eq = rw (eq, guard)

  -- An offset at the start of a later cluster.
  at_start :
      (table : FatTable) (disk : api.Disk) (file : FatFile) (offset c d : ℕ)
      → IsFat32 table
      → ((offset % bytes_per_cluster table == 0) && not (c == 0)) && not (offset == 0) ≡ true
      → seek_cluster table file.start_cluster (if offset == 0 then 0 else offset - 1) ≡ some c
      → Links table c d
      → first_cluster api table disk file offset ≡ some (d, table, disk)
  unfolding first_cluster
  at_start table disk file offset c d fat32 guard eq link =
      rw (eq, guard) (next_or_new_cluster-Links api table disk c d fat32 link)

  module _ (table : FatTable) (disk : api.Disk) (file : FatFile) (ds : List ℕ)
      (fat32 : IsFat32 table) (ok : is_valid_cluster_number table file.start_cluster ≡ true)
      (chain : Chain table file.start_cluster ds) where
    -- The search of an offset in the cluster at a position.
    found :
        (offset q : ℕ) (r : From table (file.start_cluster ∷ ds) q)
        → offset / bytes_per_cluster table ≡ q
        → q < 0x100000000
        → seek_cluster table file.start_cluster offset ≡ some r.first
    unfolding bytes_per_cluster
    found offset q r e fits =
        seek_cluster-Chain table file.start_cluster offset ds fat32 ok chain (omega arith)
        ∙ ap (λ n. some (cluster_at (file.start_cluster ∷ ds) n)) e
        ∙ ap some r.at

    whole :
        (n q : ℕ)
        → suc n / bytes_per_cluster table ≡ q
        → suc n ≡ bytes_per_cluster table * q + suc n % bytes_per_cluster table
    whole n q e = omega (
      arith,
      div-add-mod (suc n) (bytes_per_cluster table),
      ap (λ k. bytes_per_cluster table * k) e,
    )

    within :
        (n q : ℕ) (r : From table (file.start_cluster ∷ ds) q)
        → suc n ≡ bytes_per_cluster table * q + suc n % bytes_per_cluster table
        → 0 < suc n % bytes_per_cluster table
        → suc n % bytes_per_cluster table < bytes_per_cluster table
        → q < 0x100000000
        → first_cluster api table disk file (suc n) ≡ some (r.first, table, disk)
    within n q r e more lt fits = inside table disk file (suc n) r.first guard (
        ap (λ k. seek_cluster table file.start_cluster k) search
        ∙ found n q r
            (quotient (bytes_per_cluster table) n q (suc n % bytes_per_cluster table - 1)
              (omega arith) (omega arith))
            fits)
      where
        guard :
            ((suc n % bytes_per_cluster table == 0) && not (r.first == 0)) && not (suc n == 0)
            ≡ false
        guard = ground arith

        search : (if suc n == 0 then 0 else suc n - 1) ≡ n
        search = ground arith

    behind :
        (n q : ℕ) (r : From table (file.start_cluster ∷ ds) q)
        → suc n ≡ bytes_per_cluster table * q + suc n % bytes_per_cluster table
        → suc n % bytes_per_cluster table ≡ 0
        → q < 0x100000000
        → first_cluster api table disk file (suc n) ≡ some (r.first, table, disk)
    behind n zero r e none fits = absurd (omega arith)
    behind n (suc q) r e none fits =
        let p = Chain-From table file.start_cluster ds q ok chain (omega (arith, r.count)) in
        let b = bytes_per_cluster table in
        at_start table disk file (suc n) p.first r.first fat32
          (guard p.first (is_valid_cluster_number_lem table p.first fat32 p.valid).0)
          (ap (λ k. seek_cluster table file.start_cluster k) search
            ∙ found n q p
                (quotient b n q (b - 1) (omega (arith, mul-suc b q, bytes_per_cluster_pos table))
                  (omega (arith, bytes_per_cluster_pos table)))
                (omega arith))
          (From-Links table (file.start_cluster ∷ ds) q p r)
      where
        guard :
            (c : ℕ)
            → 1 ≤ c
            → ((suc n % bytes_per_cluster table == 0) && not (c == 0)) && not (suc n == 0) ≡ true
        guard c h = ground arith

        search : (if suc n == 0 then 0 else suc n - 1) ≡ n
        search = ground arith

    pub first_cluster_lem :
        (offset q : ℕ) (r : From table (file.start_cluster ∷ ds) q)
        → offset / bytes_per_cluster table ≡ q
        → q < 0x100000000
        → first_cluster api table disk file offset ≡ some (r.first, table, disk)
    first_cluster_lem zero q r e fits =
        inside table disk file 0 r.first (ground arith) (found 0 q r e fits)
    first_cluster_lem (suc n) q r e fits =
        let b = bytes_per_cluster table in
        elim (dec_lt 0 (suc n % b)) [
          | yes more ↦
              within n q r (whole n q e) more (mod-lt (suc n) (bytes_per_cluster_pos table)) fits
          | no aligned ↦ behind n q r (whole n q e) (omega arith) fits
        ]
