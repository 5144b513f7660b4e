-- ===== src/Fat/Write/Clusters.antt =====
-- What the bytes of clusters become when a buffer is written over a part of a chain, for fat_file.c.
use fa_maf_sis_op.Prelude.{
  ℕ, zero, suc, ◌+◌, ◌-◌, ◌*◌, ◌%◌, ◌^◌, ◌≤◌, ◌<◌, ◌≡◌, ◌≢◌, ◌⊎◌, inl, inr, refl, ap, sym, ◌∙◌,
  List, [], ◌∷◌, ◌++◌, All, All-drop, length-take_le, length, take, drop, drop-nil, take-end, arith,
}
use native.Mathlib.Nat.{mul-le-mul_right, suc-mul, mul-suc}
use fa_maf_sis_op.Fat.Disk.{bytes_at, patched}
use fa_maf_sis_op.Fat.Disk.Transfer.{length-bytes_at, patched-nil}
use fa_maf_sis_op.Fat.Table.{FatTable, bytes_per_cluster, cluster_offset}
use fa_maf_sis_op.Fat.Read.Contents.{contents}
use fa_maf_sis_op.Fat.Write.Overwrite.{overwrite, overwrite-behind, overwrite-across}
use fa_maf_sis_op.Fat.Write.Patches.{bytes_at-apart, bytes_at-within}

-- The volume with a buffer over the bytes of clusters, from a place in the first one on.
abbrev pub written : FatTable → (ℕ → ℕ) → List ℕ → (m : ℕ) → List ℕ → ℕ → ℕ
written table k [] m buf = k
written table k (c ∷ cs) m buf =
    written table (patched k (cluster_offset table c + m) (take (bytes_per_cluster table - m) buf))
      cs 0 (drop (bytes_per_cluster table - m) buf)

-- A cluster number is a `u32`.
abbrev pub IsNumber : ℕ → Type 0
IsNumber c = c < 0x100000000

-- Each cluster is a number, and none stands twice.
abbrev pub Distinct : List ℕ → Type 0
Distinct [] = Unit
Distinct (c ∷ cs) = IsNumber c × All (λ d. d ≢ c) cs × Distinct cs

abbrev pub Apart : (p q n : ℕ) → Type 0
Apart p q n = (p + n ≤ q) ⊎ (q + n ≤ p)

-- The bytes of different clusters do not meet.
pub cluster_offset-Apart :
    (table : FatTable) (c d : ℕ)
    → IsNumber c
    → IsNumber d
    → c ≢ d
    → Apart (cluster_offset table c) (cluster_offset table d) (bytes_per_cluster table)
unfolding cluster_offset bytes_per_cluster
cluster_offset-Apart table c d hc hd ne =
    places ((c + 0xFFFFFFFE) % 0x100000000) ((d + 0xFFFFFFFE) % 0x100000000) (ground arith)
  where
    places :
        (i j : ℕ)
        → (i < j) ⊎ (j < i)
        → Apart
            (table.data_start_offset + i * 2 ^ table.cluster_order)
            (table.data_start_offset + j * 2 ^ table.cluster_order)
            (2 ^ table.cluster_order)
    places i j (inl lt) = inl (
        omega (
          arith,
          mul-le-mul_right (2 ^ table.cluster_order) lt,
          suc-mul i (2 ^ table.cluster_order),
        ))
    places i j (inr lt) = inr (
        omega (
          arith,
          mul-le-mul_right (2 ^ table.cluster_order) lt,
          suc-mul j (2 ^ table.cluster_order),
        ))

-- A range that meets no cluster of the list.
abbrev pub Away : FatTable → List ℕ → (p n : ℕ) → Type 0
Away table cs p n =
    All
      (λ c.
        (p + n ≤ cluster_offset table c) ⊎ (cluster_offset table c + bytes_per_cluster table ≤ p))
      cs

pub written-Away :
    (table : FatTable) (k : ℕ → ℕ) (cs : List ℕ) (m : ℕ) (buf : List ℕ) (p n : ℕ)
    → m ≤ bytes_per_cluster table
    → Away table cs p n
    → bytes_at (written table k cs m buf) p n ≡ bytes_at k p n
written-Away table k [] m buf p n h away = refl
written-Away table k (c ∷ cs) m buf p n h (here, rest) =
    let b = bytes_per_cluster table in
    written-Away table (patched k (cluster_offset table c + m) (take (b - m) buf)) cs 0
      (drop (b - m) buf) p n (omega arith) rest
    ∙ bytes_at-apart k (cluster_offset table c + m) (take (b - m) buf) p n
        (apart (length (take (b - m) buf)) (length-take_le (b - m) buf) here)
  where
    apart :
        (l : ℕ)
        → l ≤ bytes_per_cluster table - m
        → (p + n ≤ cluster_offset table c) ⊎ (cluster_offset table c + bytes_per_cluster table ≤ p)
        → (p + n ≤ cluster_offset table c + m) ⊎ (cluster_offset table c + m + l ≤ p)
    apart l small (inl before) = inl (omega arith)
    apart l small (inr behind) = inr (omega arith)

-- The bytes of a cluster meet no other cluster.
pub cluster-Away :
    (table : FatTable) (c : ℕ) (cs : List ℕ)
    → IsNumber c
    → Distinct cs
    → All (λ d. d ≢ c) cs
    → Away table cs (cluster_offset table c) (bytes_per_cluster table)
cluster-Away table c [] number distinct others = tt
cluster-Away table c (d ∷ cs) number (number', others', distinct) (ne, others) = (
  cluster_offset-Apart table c d number number' (λ e. ne (sym e)),
  cluster-Away table c cs number distinct others,
)

-- The contents of clusters that a write in another cluster leaves.
contents-other :
    (table : FatTable) (k : ℕ → ℕ) (c m : ℕ) (buf : List ℕ) (cs : List ℕ)
    → m ≤ bytes_per_cluster table
    → IsNumber c
    → Distinct cs
    → All (λ d. d ≢ c) cs
    → contents table
        (patched k (cluster_offset table c + m) (take (bytes_per_cluster table - m) buf))
        cs
      ≡ contents table k cs
contents-other table k c m buf [] h number distinct others = refl
contents-other table k c m buf (d ∷ cs) h number (number', others', distinct) (ne, others) =
    let b = bytes_per_cluster table in
    let k' = patched k (cluster_offset table c + m) (take (b - m) buf) in
    ap (λ r. r ++ contents table k' cs)
      (written-Away table k (c ∷ []) m buf (cluster_offset table d) b h
        (cluster_offset-Apart table d c number' number ne, tt))
    ∙ ap (λ r. bytes_at k (cluster_offset table d) b ++ r)
        (contents-other table k c m buf cs h number distinct others)

-- From a place in the first cluster on.
contents-written_first :
    (table : FatTable) (k : ℕ → ℕ) (cs : List ℕ) (m : ℕ) (buf : List ℕ)
    → m ≤ bytes_per_cluster table
    → Distinct cs
    → contents table (written table k cs m buf) cs ≡ overwrite (contents table k cs) m buf
contents-written_first table k [] m buf h distinct = refl
contents-written_first table k (c ∷ cs) m buf h (number, others, distinct) =
    let b = bytes_per_cluster table in
    let o = cluster_offset table c in
    let k' = patched k (o + m) (take (b - m) buf) in
    let rest = drop (b - m) buf in
    ap (λ r. r ++ contents table (written table k' cs 0 rest) cs)
      (written-Away table k' cs 0 rest o b (omega arith)
          (cluster-Away table c cs number distinct others)
        ∙ bytes_at-within k o b m (take (b - m) buf) (omega (arith, length-take_le (b - m) buf)))
    ∙ ap (λ r. overwrite (bytes_at k o b) m (take (b - m) buf) ++ r)
        (contents-written_first table k' cs 0 rest (omega arith) distinct
          ∙ ap (λ r. overwrite r 0 rest)
              (contents-other table k c m buf cs h number distinct others))
    ∙ overwrite-across (bytes_at k o b) (contents table k cs) m (b - m) buf
        (omega (arith, length-bytes_at k o b))

-- From a place in any cluster on.
pub contents-written :
    (table : FatTable) (k : ℕ → ℕ) (cs : List ℕ) (q m : ℕ) (buf : List ℕ) (n : ℕ)
    → n ≡ bytes_per_cluster table * q + m
    → m ≤ bytes_per_cluster table
    → Distinct cs
    → contents table (written table k (drop q cs) m buf) cs ≡ overwrite (contents table k cs) n buf
contents-written table k cs zero m buf n e h distinct =
    contents-written_first table k cs m buf h distinct
    ∙ ap (λ j. overwrite (contents table k cs) j buf) (omega arith)
contents-written table k [] (suc q) m buf n e h distinct = refl
contents-written table k (c ∷ cs) (suc q) m buf n e h (number, others, distinct) =
    let b = bytes_per_cluster table in
    let o = cluster_offset table c in
    ap (λ r. r ++ contents table (written table k (drop q cs) m buf) cs)
      (written-Away table k (drop q cs) m buf o b h
        (All-drop _ q cs (cluster-Away table c cs number distinct others)))
    ∙ ap (λ r. bytes_at k o b ++ r)
        (contents-written table k cs q m buf (b * q + m) refl h distinct)
    ∙ sym (
        overwrite-behind (bytes_at k o b) (contents table k cs) n (b * q + m) buf
          (omega (arith, length-bytes_at k o b, mul-suc b q)))

pub written-nil : (table : FatTable) (k : ℕ → ℕ) (cs : List ℕ) (m : ℕ) → written table k cs m [] ≡ k
written-nil table k [] m = refl
written-nil table k (c ∷ cs) m =
    let b = bytes_per_cluster table in
    let o = cluster_offset table c in
    ap (λ r. written table (patched k (o + m) (take (b - m) [])) cs 0 r) (drop-nil (b - m))
    ∙ written-nil table (patched k (o + m) (take (b - m) [])) cs 0
    ∙ ap (patched k (o + m)) (take-end (b - m) [] (omega arith))
    ∙ patched-nil k (o + m)
