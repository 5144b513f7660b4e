-- ===== src/Fat/Filename/RoundTrip.antt =====
-- Names of paths, written to a directory entry by `filename_from_path` and read back by
-- `build_filename` of fat_filename_util.c.
use fa_maf_sis_op.Prelude.{
  ℕ, zero, suc, ◌+◌, ◌-◌, ◌≤◌, ◌<◌, ◌≡◌, ◌≢◌, refl, ap, ◌∙◌, false, Option, none, some, List, [],
  ◌∷◌, ◌++◌, All, ◌==◌, length, get_elem?, take, drop, replicate, Text, arith,
}
use fa_maf_sis_op.Fat.Memory.{◌>>=◌}
use fa_maf_sis_op.Fat.Filename.{
  space, dot, len_from, filename_len, dotted, build_filename, last_dot, memcpy, at_most,
  filename_parts, filename_from_path,
}

-- A character that does not pad an array.
abbrev pub IsVisible : ℕ → Type 0
IsVisible c = (c ≢ space) × (c ≢ 0)

-- The last character, if there is one, is visible.
abbrev pub IsTrimmed : Text → Type 0
IsTrimmed [] = Unit
IsTrimmed (c ∷ []) = IsVisible c
IsTrimmed (c ∷ d ∷ s) = IsTrimmed (d ∷ s)

-- An array of `n` bytes that holds a name.
abbrev pub padded : ℕ → Text → List ℕ
padded n s = s ++ replicate (n - length s) space

abbrev NoDot : Text → Type 0
NoDot = All (λ c. c ≢ dot)

memcpy-blanks :
    (n k : ℕ) (s : Text)
    → length s + k ≡ n
    → memcpy (replicate n space) s ≡ some (s ++ replicate k space)
unfolding memcpy
memcpy-blanks n k [] h = ap (λ m. some (replicate m space)) (omega arith)
memcpy-blanks zero k (c ∷ s) h = absurd (omega arith)
memcpy-blanks (suc n) k (c ∷ s) h = rw (memcpy-blanks n k s (omega arith))

memcpy-padded : (n : ℕ) (s : Text) → length s ≤ n → memcpy (replicate n space) s ≡ some (padded n s)
memcpy-padded n s h = memcpy-blanks n (n - length s) s (omega arith)

-- Reading behind the name.
padding_at :
    (s : Text) (k m : ℕ)
    → length s ≤ m
    → m < length s + k
    → get_elem? (s ++ replicate k space) m ≡ some space
padding_at [] zero m lo hi = absurd (omega arith)
padding_at [] (suc k) zero lo hi = refl
padding_at [] (suc k) (suc m) lo hi = padding_at [] k m (omega arith) (omega arith)
padding_at (c ∷ s) k zero lo hi = absurd (omega arith)
padding_at (c ∷ s) k (suc m) lo hi = padding_at s k m (omega arith) (omega arith)

end-IsVisible :
    (c : ℕ) (s pad : Text)
    → IsTrimmed (c ∷ s)
    → (d : ℕ) × (get_elem? ((c ∷ s) ++ pad) (length s) ≡ some d) × IsVisible d
end-IsVisible c [] pad h = (c, refl, h)
end-IsVisible c (d ∷ s) pad h = end-IsVisible d s pad h

len_from-visible :
    (d len : ℕ) (shorter : Option ℕ) → IsVisible d → len_from (some d) len shorter ≡ some len
unfolding len_from
len_from-visible d len shorter (ns, nz) = ground arith

filename_len-append :
    (s pad : Text) → IsTrimmed s → filename_len (s ++ pad) (length s) ≡ some (length s)
unfolding filename_len
filename_len-append [] pad h = refl
filename_len-append (c ∷ s) pad h =
    let (d, at, visible) = end-IsVisible c s pad h in
    ap (λ o. len_from o (suc (length s)) (filename_len ((c ∷ s) ++ pad) (length s))) at
    ∙ len_from-visible d (suc (length s)) _ visible

-- The length behind `i` blanks.
filename_len-padding :
    (s : Text) (k m i : ℕ)
    → IsTrimmed s
    → m ≡ length s + i
    → i ≤ k
    → filename_len (s ++ replicate k space) m ≡ some (length s)
unfolding filename_len len_from
filename_len-padding s k m zero h e b =
    ap (filename_len (s ++ replicate k space)) (omega arith)
    ∙ filename_len-append s (replicate k space) h
filename_len-padding s k zero (suc i) h e b = absurd (omega arith)
filename_len-padding s k (suc m) (suc i) h e b =
    rw (padding_at s k m (omega arith) (omega arith))
      (filename_len-padding s k m i h (omega arith) (omega arith))

filename_len-padded :
    (n : ℕ) (s : Text) → IsTrimmed s → length s ≤ n → filename_len (padded n s) n ≡ some (length s)
filename_len-padded n s h b =
    filename_len-padding s (n - length s) n (n - length s) h (omega arith) (omega arith)

take-append : (s t : Text) → take (length s) (s ++ t) ≡ s
take-append [] t = refl
take-append (c ∷ s) t = ap (λ r. c ∷ r) (take-append s t)

take-length : (s : Text) → take (length s) s ≡ s
take-length [] = refl
take-length (c ∷ s) = ap (λ r. c ∷ r) (take-length s)

drop-append : (s : Text) (c : ℕ) (t : Text) → drop (suc (length s)) (s ++ c ∷ t) ≡ t
drop-append [] c t = refl
drop-append (d ∷ s) c t = drop-append s c t

last_dot-none : (s : Text) → NoDot s → last_dot s ≡ none
unfolding last_dot
last_dot-none [] h = refl
last_dot-none (c ∷ s) (ne, h) = rw (last_dot-none s h) (ground arith)

last_dot-append : (s t : Text) → NoDot t → last_dot (s ++ dot ∷ t) ≡ some (length s)
unfolding last_dot
last_dot-append [] t h = rw (last_dot-none t h)
last_dot-append (c ∷ s) t h = rw (last_dot-append s t h)

-- A name of a directory entry as a path spells it.
abbrev pub spelled : (base extension : Text) → Text
spelled base [] = base
spelled base (c ∷ extension) = base ++ dot ∷ c ∷ extension

at_most-within : (bound n : ℕ) → n ≤ bound → at_most bound n ≡ n
unfolding at_most
at_most-within bound n h = ground arith

-- A name that an entry has room for and that no blank ends.
pub record IsName (n : ℕ) (s : Text) : Type 0 where
  pub room : length s ≤ n
  pub trimmed : IsTrimmed s

-- `filename_from_path` splits a name at its last dot into the two arrays.
pub filename_from_path_lem :
    (base extension : Text)
    → IsName 8 base
    → IsName 3 extension
    → NoDot extension
    → (extension ≡ [] → NoDot base)
    → filename_from_path (spelled base extension) ≡ some (padded 8 base, padded 3 extension)
unfolding filename_from_path filename_parts
filename_from_path_lem base [] hb he no_dot alone = rw (
  last_dot-none base (alone refl),
  at_most-within 8 (length base) hb.room,
  take-length base,
  memcpy-padded 8 base hb.room,
)
filename_from_path_lem base (c ∷ extension) hb he no_dot alone = rw (
  last_dot-append base (c ∷ extension) no_dot,
  drop-append base dot (c ∷ extension),
  at_most-within 3 (length (c ∷ extension)) he.room,
  take-length (c ∷ extension),
  memcpy-padded 3 (c ∷ extension) he.room,
  at_most-within 8 (length base) hb.room,
  take-append base (dot ∷ c ∷ extension),
  memcpy-padded 8 base hb.room,
)

take-padded : (n : ℕ) (s : Text) → take (length s) (padded n s) ≡ s
take-padded n s = take-append s _

append_nil : (s : Text) → s ++ [] ≡ s
append_nil [] = refl
append_nil (c ∷ s) = ap (λ r. c ∷ r) (append_nil s)

spelled-dotted :
    (base extension : Text)
    → base ++ dotted (padded 3 extension) (length extension) ≡ spelled base extension
unfolding dotted
spelled-dotted base [] = append_nil base
spelled-dotted base (c ∷ extension) =
    rw (positive (length extension), take-padded 3 (c ∷ extension))
  where
    positive : (n : ℕ) → (suc n == 0) ≡ false
    positive n = ground arith

-- `build_filename` reads the two arrays back.
pub build_filename_lem :
    (base extension : Text)
    → 0 < length base
    → IsName 8 base
    → IsName 3 extension
    → build_filename (padded 8 base) (padded 3 extension) ≡ some (spelled base extension)
unfolding build_filename
build_filename_lem base extension some_base hb he =
    rw
      (
        filename_len-padded 8 base hb.trimmed hb.room,
        filename_len-padded 3 extension he.trimmed he.room,
        take-padded 8 base,
        positive,
      )
      (ap (λ t. some t) (spelled-dotted base extension))
  where
    positive : (length base == 0) ≡ false
    positive = ground arith

-- A name with a base of 1 to 8 characters and an extension of at most 3, neither ended by a blank or a
-- NUL, the extension without a dot, and the base too if there is no extension: written to a directory
-- entry by `filename_from_path` it is read back by `build_filename` as it was.
pub build_filename-filename_from_path :
    (base extension : Text)
    → 0 < length base
    → IsName 8 base
    → IsName 3 extension
    → NoDot extension
    → (extension ≡ [] → NoDot base)
    → (filename_from_path (spelled base extension) >>= λ (b, e). build_filename b e)
      ≡ some (spelled base extension)
build_filename-filename_from_path base extension some_base hb he no_dot alone =
    rw (filename_from_path_lem base extension hb he no_dot alone)
      (build_filename_lem base extension some_base hb he)
