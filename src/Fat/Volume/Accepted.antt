-- ===== src/Fat/Volume/Accepted.antt =====
-- The volumes that `read_boot_sector` of fat_volume.c accepts.
use fa_maf_sis_op.Prelude.{
  ℕ, zero, suc, ◌+◌, ◌-◌, ◌/◌, ◌^◌, ◌≤◌, ◌<◌, ◌≡◌, ◌≢◌, ◌⊎◌, refl, ap, sym, ◌∙◌, Bool, true, false,
  not, ◌&&◌, ◌||◌, ◌==◌, if◌then◌else◌, ltb, arith,
}
use mathlib.Core.Path.{subst}
use fa_maf_sis_op.Fat.Volume.{
  Checked, accepted, refused, aborted, ◌>>=◌, BootSector, Volume, is_power_of_2,
}
use fa_maf_sis_op.Fat.Volume.Boot.{
  bsr, read_tables, check_cluster, check_sector, read_dos_2_0_bpb, read_dos_3_31_bpb,
  read_nonfat32_ebpb, read_sectors_per_fat, read_fat32_fields, read_fat32_ebpb, num_data_sectors,
  count_clusters, read_boot_fields,
}
use fa_maf_sis_op.Fat.Volume.PowerOfTwo.{is_power_of_2_lem}

-- What the compiler promises of `__builtin_clzl`: the number of zeros before the highest bit.
abbrev pub IsClzl : (ℕ → ℕ) → Type 0
IsClzl clzl =
    (n : ℕ)
    → 0 < n
    → n < 2 ^ 64
    → (clzl n ≤ 63) × (2 ^ (63 - clzl n) ≤ n) × (n < 2 ^ suc (63 - clzl n))

-- The orders are those of the sizes, and lie in their ranges.
abbrev pub IsMeasured : Volume → Type 0
IsMeasured v =
    (v.bytes_per_sector ≡ 2 ^ v.sector_order)
    × (5 ≤ v.sector_order)
    × (v.sector_order ≤ 12)
    × (v.sectors_per_cluster ≡ 2 ^ v.sectors_per_cluster_order)
    × (v.sectors_per_cluster_order ≤ 7)
    × (v.cluster_order ≡ v.sector_order + v.sectors_per_cluster_order)
    × ((v.num_tables ≡ 1) ⊎ (v.num_tables ≡ 2))

module _ {ℓ κ} {A : Type ℓ} {B : Type κ} where
  bind-accepted :
      (x : Checked A) (f : A → Checked B) (b : B)
      → (x >>= f) ≡ accepted b
      → (a : A) × (x ≡ accepted a) × (f a ≡ accepted b)
  bind-accepted (accepted a) f b h = (a, refl, h)
  bind-accepted refused f b h = absurd (clash h)
    where
      clash : ¬ (refused ≡ accepted b)
      clash h = cc
  bind-accepted aborted f b h = absurd (clash h)
    where
      clash : ¬ (aborted ≡ accepted b)
      clash h = cc

module _ {ℓ} {A : Type ℓ} where
  if-accepted :
      (t : Bool) (x : Checked A) (a : A)
      → (if t then refused else x) ≡ accepted a
      → (t ≡ false) × (x ≡ accepted a)
  if-accepted true x a h = absurd (clash h)
    where
      clash : ¬ (refused ≡ accepted a)
      clash h = cc
  if-accepted false x a h = (refl, h)

  accepted-injective : (a b : A) → accepted a ≡ accepted b → a ≡ b
  accepted-injective a b h = cc

-- The order of a size that passes the test.
bsr-order :
    (clzl : ℕ → ℕ) (n order : ℕ)
    → IsClzl clzl
    → n < 2 ^ 64
    → bsr clzl n ≡ accepted order
    → is_power_of_2 n ≡ true
    → n ≡ 2 ^ order
unfolding bsr
bsr-order clzl zero order h small e test = absurd (clash e)
  where
    clash : ¬ (aborted ≡ accepted order)
    clash h = cc
bsr-order clzl (suc n) order h small e test =
    let (le, lo, hi) = h (suc n) (omega arith) small in
    is_power_of_2_lem (63 - clzl (suc n)) (suc n) lo hi test
    ∙ ap (λ k. 2 ^ k) (accepted-injective (63 - clzl (suc n)) order (e' e))
  where
    not_zero : (suc n == 0) ≡ false
    not_zero = ground arith

    e' :
        (if suc n == 0 then aborted else accepted (63 - clzl (suc n))) ≡ accepted order
        → accepted (63 - clzl (suc n)) ≡ accepted order
    e' h = sym (ap (λ t. if t then aborted else accepted (63 - clzl (suc n))) not_zero) ∙ h

sector_test :
    (p : Bool) (order : ℕ)
    → not p || ltb order 5 || ltb 12 order ≡ false
    → (p ≡ true) × (5 ≤ order) × (order ≤ 12)
sector_test true order e = (refl, ground arith, ground arith)
sector_test false order e = absurd cc

cluster_test : (p : Bool) (order : ℕ) → not p || ltb 7 order ≡ false → (p ≡ true) × (order ≤ 7)
cluster_test true order e = (refl, ground arith)
cluster_test false order e = absurd cc

tables_test : (n : ℕ) → not (n == 1) && not (n == 2) ≡ false → (n ≡ 1) ⊎ (n ≡ 2)
tables_test n e = ground arith

read_dos_2_0_bpb-IsMeasured :
    (clzl : ℕ → ℕ) (vol v : Volume) (boot_sec : BootSector)
    → IsClzl clzl
    → boot_sec.bytes_per_sector < 65536
    → boot_sec.sectors_per_cluster < 256
    → read_dos_2_0_bpb clzl vol boot_sec ≡ accepted v
    → IsMeasured v
unfolding read_dos_2_0_bpb check_sector check_cluster read_tables
read_dos_2_0_bpb-IsMeasured clzl vol v boot_sec h small small' e =
    let (so, eo, e1) = bind-accepted (bsr clzl boot_sec.bytes_per_sector) _ v e in
    let (t1, e2) = if-accepted _ _ v e1 in
    let (co, ec, e3) = bind-accepted (bsr clzl boot_sec.sectors_per_cluster) _ v e2 in
    let (t2, e4) = if-accepted _ _ v e3 in
    let (t3, e5) = if-accepted _ _ v e4 in
    subst IsMeasured (accepted-injective _ v e5) (
      bsr-order clzl boot_sec.bytes_per_sector so h (omega arith) eo (sector_test _ so t1).0,
      (sector_test _ so t1).1,
      (sector_test _ so t1).2,
      bsr-order clzl boot_sec.sectors_per_cluster co h (omega arith) ec (cluster_test _ co t2).0,
      (cluster_test _ co t2).1,
      refl,
      tables_test boot_sec.num_tables t3,
    )

-- The volume with one of two numbers of sectors.
either-IsMeasured :
    (t u : Bool) (a b v : Volume)
    → IsMeasured a
    → IsMeasured b
    → (if t then accepted a else if u then refused else accepted b) ≡ accepted v
    → IsMeasured v
either-IsMeasured true u a b v ha hb e = subst IsMeasured (accepted-injective a v e) ha
either-IsMeasured false u a b v ha hb e =
    subst IsMeasured (accepted-injective b v (if-accepted u (accepted b) v e).1) hb

read_sectors_per_fat-IsMeasured :
    (vol v : Volume) (n : ℕ)
    → IsMeasured vol
    → read_sectors_per_fat vol n ≡ accepted v
    → IsMeasured v
unfolding read_sectors_per_fat
read_sectors_per_fat-IsMeasured vol v n h e =
    either-IsMeasured _ _ vol (record vol { sectors_per_fat = n }) v h h e

read_fat32_ebpb-IsMeasured :
    (vol v : Volume) (ebpb : BootSector)
    → IsMeasured vol
    → read_fat32_ebpb vol ebpb ≡ accepted v
    → IsMeasured v × (v.root_dir_start_cluster ≢ 0)
unfolding read_fat32_ebpb read_fat32_fields
read_fat32_ebpb-IsMeasured vol v ebpb h e =
    let (vol', e1, e2) = bind-accepted (read_sectors_per_fat vol ebpb.sectors_per_fat_32) _ v e in
    let h' = read_sectors_per_fat-IsMeasured vol vol' ebpb.sectors_per_fat_32 h e1 in
    let (t1, e3) = if-accepted _ _ v e2 in
    let (t2, e4) = if-accepted _ _ v e3 in
    let (t3, e5) = if-accepted _ _ v e4 in
    subst (λ v. IsMeasured v × (v.root_dir_start_cluster ≢ 0)) (accepted-injective _ v e5)
      (h', nonzero ebpb.root_dir_start_cluster t2)
  where
    nonzero : (n : ℕ) → (n == 0) ≡ false → n ≢ 0
    nonzero n t e = absurd (ground arith)

-- What a volume holds that is accepted.
abbrev pub IsAccepted : Volume → Type 0
IsAccepted v =
    IsMeasured v
    × (5 ≤ v.cluster_order)
    × (v.cluster_order ≤ 19)
    × (v.root_dir_start_cluster ≢ 0)
    × (v.num_data_clusters ≡ num_data_sectors v / v.sectors_per_cluster)

-- Every volume whose boot sector `read_boot_sector` accepts has a sector of 2^5 to 2^12 bytes, a cluster
-- of 2^0 to 2^7 sectors, so that a cluster has at least 2^5 and at most 2^19 bytes, one or two tables, a
-- first cluster of its root directory, and as many clusters as the sectors of the data area fill. The
-- orders are those that `__builtin_clzl` gives by its documentation.
pub read_boot_fields_lem :
    (clzl : ℕ → ℕ) (vol v : Volume) (boot_sec : BootSector)
    → IsClzl clzl
    → boot_sec.bytes_per_sector < 65536
    → boot_sec.sectors_per_cluster < 256
    → read_boot_fields clzl vol boot_sec ≡ accepted v
    → IsAccepted v
unfolding read_boot_fields read_dos_3_31_bpb read_nonfat32_ebpb count_clusters num_data_sectors
read_boot_fields_lem clzl vol v boot_sec h small small' e =
    let (v1, e1, g1) = bind-accepted (read_dos_2_0_bpb clzl _ boot_sec) _ v e in
    let (v2, e2, g2) = bind-accepted (read_fat32_ebpb _ boot_sec) _ v g1 in
    let (m, root) =
      read_fat32_ebpb-IsMeasured _ v2 boot_sec
        (read_dos_2_0_bpb-IsMeasured clzl _ v1 boot_sec h small small' e1) e2 in
    subst IsAccepted (accepted-injective _ v g2) (
      m,
      omega (arith, m.5, m.1),
      omega (arith, m.5, m.2, m.4),
      root,
      ap (λ k. num_data_sectors v2 / k) (sym m.3),
    )
