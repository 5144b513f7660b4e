-- ===== src/Fat/Entry/Bytes.antt =====
-- Directory entries as bytes: what `write_dir_entry` writes is read back.
use fa_maf_sis_op.Prelude.{
  ℕ, zero, suc, ◌+◌, ◌*◌, ◌/◌, ◌%◌, ◌<◌, ◌≡◌, refl, ap, ◌∙◌, List, [], ◌∷◌, ◌++◌, take, drop,
  length, arith,
}
use fa_maf_sis_op.Fat.Bits.{bit_or-shifted}
use fa_maf_sis_op.Fat.Entry.{
  DirEntry, tail_bytes, entry_bytes, entry_of_bytes, set_first_cluster, file_start_cluster,
}

-- Each field fits its place.
pub record IsEntry (e : DirEntry) : Type 0 where
  pub base_eight : length e.base_name ≡ 8
  pub extension_three : length e.extension ≡ 3
  pub create_time_fits : e.create_time < 65536
  pub create_date_fits : e.create_date < 65536
  pub access_fits : e.last_access_date < 65536
  pub high_fits : e.fat32_start_cluster_high < 65536
  pub time_fits : e.last_modified_time < 65536
  pub date_fits : e.last_modified_date < 65536
  pub low_fits : e.start_cluster_low < 65536
  pub size_fits : e.file_size < 0x100000000

take-exact : (n : ℕ) (xs ys : List ℕ) → length xs ≡ n → take n (xs ++ ys) ≡ xs
take-exact zero [] ys h = refl
take-exact zero (x ∷ xs) ys h = absurd (omega arith)
take-exact (suc n) [] ys h = absurd (omega arith)
take-exact (suc n) (x ∷ xs) ys h = ap (λ r. x ∷ r) (take-exact n xs ys (omega arith))

drop-exact : (n : ℕ) (xs ys : List ℕ) → length xs ≡ n → drop n (xs ++ ys) ≡ ys
drop-exact zero [] ys h = refl
drop-exact zero (x ∷ xs) ys h = absurd (omega arith)
drop-exact (suc n) [] ys h = absurd (omega arith)
drop-exact (suc n) (x ∷ xs) ys h = drop-exact n xs ys (omega arith)

u16_lem : (n : ℕ) → n < 65536 → n % 256 + 256 * (n / 256 % 256) ≡ n
u16_lem n h = omega arith

u32_lem :
    (n : ℕ)
    → n < 0x100000000
    → n % 256 + 256 * (n / 256 % 256) + 65536 * (n / 65536 % 256 + 256 * (n / 16777216 % 256)) ≡ n
u32_lem n h = omega arith

-- The 32 bytes of an entry whose fields fit their places are read back as the same entry.
pub entry_of_bytes-entry_bytes : (e : DirEntry) → IsEntry e → entry_of_bytes (entry_bytes e) ≡ e
unfolding entry_of_bytes entry_bytes tail_bytes
entry_of_bytes-entry_bytes e h = rw (
  take-exact 8 e.base_name (e.extension ++ tail_bytes e) h.base_eight,
  drop-exact 8 e.base_name (e.extension ++ tail_bytes e) h.base_eight,
  take-exact 3 e.extension (tail_bytes e) h.extension_three,
  drop-exact 3 e.extension (tail_bytes e) h.extension_three,
  u16_lem e.create_time h.create_time_fits,
  u16_lem e.create_date h.create_date_fits,
  u16_lem e.last_access_date h.access_fits,
  u16_lem e.fat32_start_cluster_high h.high_fits,
  u16_lem e.last_modified_time h.time_fits,
  u16_lem e.last_modified_date h.date_fits,
  u16_lem e.start_cluster_low h.low_fits,
  u32_lem e.file_size h.size_fits,
)

-- A start cluster is kept by the two halves of an entry.
pub file_start_cluster-set_first_cluster :
    (e : DirEntry) (cluster : ℕ)
    → cluster < 0x100000000
    → file_start_cluster (set_first_cluster e cluster) ≡ cluster
unfolding file_start_cluster set_first_cluster
file_start_cluster-set_first_cluster e cluster h =
    bit_or-shifted 16 (cluster % 65536) (cluster / 65536 % 65536) (omega arith) ∙ omega arith
