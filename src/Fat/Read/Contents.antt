-- ===== src/Fat/Read/Contents.antt =====
-- The contents of chains of clusters, which `fat_file_pread` of fat_file.c reads a part of.
use fa_maf_sis_op.Prelude.{
  ℕ, zero, suc, ◌+◌, ◌*◌, ◌≤◌, ◌<◌, ◌≡◌, refl, ap, ◌∙◌, true, List, [], ◌∷◌, ◌++◌, length, drop,
  arith, drop-append,
}
use native.Mathlib.Nat.{mul-suc}
use fa_maf_sis_op.Fat.Disk.{bytes_at}
use fa_maf_sis_op.Fat.Disk.Transfer.{length-bytes_at}
use fa_maf_sis_op.Fat.Table.{
  FatTable, is_valid_cluster_number, bytes_per_cluster, cluster_offset, is_valid, is_eoc,
  is_bad_sector,
}
use fa_maf_sis_op.Fat.Table.Chain.{Chain, IsFat32, cluster_at, is_valid_cluster_number_lem}

-- The bytes of clusters, one after another.
abbrev pub contents : FatTable → (ℕ → ℕ) → List ℕ → List ℕ
contents table content [] = []
contents table content (c ∷ cs) =
    bytes_at content (cluster_offset table c) (bytes_per_cluster table) ++ contents table content cs

-- A cluster of a FAT32 volume can be followed.
pub is_valid-number :
    (table : FatTable) (c : ℕ)
    → IsFat32 table
    → is_valid_cluster_number table c ≡ true
    → is_valid c ≡ true
unfolding is_valid is_eoc is_bad_sector
is_valid-number table c fat32 h = ground (arith, is_valid_cluster_number_lem table c fat32 h)

-- The part of a chain from a position on.
pub record From (table : FatTable) (cs : List ℕ) (q : ℕ) : Type 0 where
  pub first : ℕ
  pub others : List ℕ
  pub at : cluster_at cs q ≡ first
  pub rest : drop q cs ≡ first ∷ others
  pub count : suc (length others) + q ≡ length cs
  pub valid : is_valid_cluster_number table first ≡ true
  pub chain : Chain table first others

pub Chain-From :
    (table : FatTable) (c : ℕ) (ds : List ℕ) (q : ℕ)
    → is_valid_cluster_number table c ≡ true
    → Chain table c ds
    → q < suc (length ds)
    → From table (c ∷ ds) q
Chain-From table c ds zero ok chain h = record {
  first = c;
  others = ds;
  at = refl;
  rest = refl;
  count = omega arith;
  valid = ok;
  chain = chain;
}
Chain-From table c [] (suc q) ok chain h = absurd (omega arith)
Chain-From table c (d ∷ ds) (suc q) ok (link, chain) h =
    let r = Chain-From table d ds q link.1 chain (omega arith) in
    record {
      first = r.first;
      others = r.others;
      at = r.at;
      rest = r.rest;
      count = omega (arith, r.count);
      valid = r.valid;
      chain = r.chain;
    }

-- The contents from an offset on.
pub contents-drop :
    (table : FatTable) (content : ℕ → ℕ) (cs : List ℕ) (q m n : ℕ)
    → q ≤ length cs
    → n ≡ bytes_per_cluster table * q + m
    → drop n (contents table content cs) ≡ drop m (contents table content (drop q cs))
contents-drop table content cs zero m n h e =
    ap (λ k. drop k (contents table content cs)) (omega arith)
contents-drop table content [] (suc q) m n h e = absurd (omega arith)
contents-drop table content (c ∷ cs) (suc q) m n h e =
    drop-append (bytes_at content (cluster_offset table c) (bytes_per_cluster table))
      (contents table content cs) n (bytes_per_cluster table * q + m)
      (omega (
        arith,
        length-bytes_at content (cluster_offset table c) (bytes_per_cluster table),
        mul-suc (bytes_per_cluster table) q,
      ))
    ∙ contents-drop table content cs q m (bytes_per_cluster table * q + m) (omega arith) refl
