-- ===== src/Fat/Disk/Transfer.antt =====
-- `full_pread` and `full_pwrite` of fat_util.c on a disk whose calls transfer something each time.
use fa_maf_sis_op.Prelude.{
  ℕ, zero, suc, ◌+◌, ◌-◌, ◌≤◌, ◌<◌, ◌≡◌, refl, ap, sym, ◌∙◌, true, false, some, List, [], ◌∷◌, ◌++◌,
  ◌==◌, length, take, drop, get_or, arith, dec_lt, length-drop, length-take, take-append-drop,
  drop-drop, drop-end, get_or-left, get_or-right, get_or-end,
}
use mathlib.Core.Path.{fun_ext}
use mathlib.Core.List.{append-nil, append_assoc}
use fa_maf_sis_op.Fat.Disk.{
  done, DiskApi, bytes_at, patched, after_pread, pread_on, full_pread, after_pwrite, pwrite_on,
  full_pwrite,
}

-- What a successful `pread` promises: some of the bytes asked for, from the offset on, and an
-- unchanged volume.
pub record DidRead (api : DiskApi) (disk : api.Disk) (count offset : ℕ) : Type 0 where
  pub bytes : List ℕ
  pub after : api.Disk
  pub reply : api.pread disk count offset ≡ (done bytes, after)
  pub some_read : 0 < length bytes
  pub at_most_count : length bytes ≤ count
  pub are_content : bytes ≡ bytes_at (api.content disk) offset (length bytes)
  pub kept : api.content after ≡ api.content disk

abbrev pub Reads : DiskApi → Type 0
Reads api = (disk : api.Disk) (count offset : ℕ) → 0 < count → DidRead api disk count offset

-- What a successful `pwrite` promises: some of the bytes are on the volume, all others as before.
pub record DidWrite (api : DiskApi) (disk : api.Disk) (bytes : List ℕ) (offset : ℕ) : Type 0 where
  pub count : ℕ
  pub after : api.Disk
  pub reply : api.pwrite disk bytes offset ≡ (done count, after)
  pub some_written : 0 < count
  pub at_most_length : count ≤ length bytes
  pub is_patched : api.content after ≡ patched (api.content disk) offset (take count bytes)

abbrev pub Writes : DiskApi → Type 0
Writes api =
    (disk : api.Disk) (bytes : List ℕ) (offset : ℕ)
    → 0 < length bytes
    → DidWrite api disk bytes offset

pub length-bytes_at : (c : ℕ → ℕ) (o n : ℕ) → length (bytes_at c o n) ≡ n
length-bytes_at c o zero = refl
length-bytes_at c o (suc n) = ap suc (length-bytes_at c (suc o) n)

pub bytes_at-same : (c : ℕ → ℕ) {o p n m : ℕ} → o ≡ p → n ≡ m → bytes_at c o n ≡ bytes_at c p m
bytes_at-same c e d = λ i. bytes_at c (e i) (d i)

pub bytes_at-append :
    (c : ℕ → ℕ) (o n m : ℕ) → bytes_at c o n ++ bytes_at c (o + n) m ≡ bytes_at c o (n + m)
bytes_at-append c o zero m = bytes_at-same c (omega arith) (omega arith)
bytes_at-append c o (suc n) m =
    ap (λ r. c o ∷ r)
      (ap (λ r. bytes_at c (suc o) n ++ r) (bytes_at-same c (omega arith) refl)
        ∙ bytes_at-append c (suc o) n m)
    ∙ bytes_at-same c {n = suc (n + m)} refl (omega arith)

-- What was read and what is left to read.
rest_read :
    (c : ℕ → ℕ) (o n : ℕ) (bytes : List ℕ)
    → bytes ≡ bytes_at c o (length bytes)
    → length bytes ≤ n
    → bytes ++ bytes_at c (o + length bytes) (n - length bytes) ≡ bytes_at c o n
rest_read c o n bytes e h =
    ap (λ b. b ++ bytes_at c (o + length bytes) (n - length bytes)) e
    ∙ bytes_at-append c o (length bytes) (n - length bytes)
    ∙ bytes_at-same c refl (omega arith)

not_zero : (n : ℕ) → 0 < n → (n == 0) ≡ false
not_zero n h = ground arith

module _ (api : DiskApi) where
  pread_on_lem :
      (fuel : ℕ) (disk : api.Disk) (buf : List ℕ) (remaining offset : ℕ)
      → Reads api
      → remaining < fuel
      → (after : api.Disk) × (pread_on api fuel disk buf remaining offset
          ≡ some (buf ++ bytes_at (api.content disk) offset remaining, after))
        × (api.content after ≡ api.content disk)
  unfolding pread_on after_pread
  pread_on_lem zero disk buf remaining offset reads h = absurd (omega arith)
  pread_on_lem (suc fuel) disk buf zero offset reads h =
      (disk, ap (λ b. some (b, disk)) (sym (append-nil buf)), refl)
  pread_on_lem (suc fuel) disk buf (suc n) offset reads h =
      let r = reads disk (suc n) offset (omega arith) in
      let (after, eq, kept) =
        pread_on_lem fuel r.after (buf ++ r.bytes) (suc n - length r.bytes)
          (offset + length r.bytes) reads (omega (arith, r.some_read, r.at_most_count)) in
      (
        after,
        rw (not_zero (suc n) (omega arith), r.reply, not_zero (length r.bytes) r.some_read, eq)
            (ap (λ b. some (b, after))
              (append_assoc buf r.bytes _
                ∙ ap (λ b. buf ++ b)
                    (ap
                        (λ c.
                          r.bytes ++ bytes_at c (offset + length r.bytes) (suc n - length r.bytes))
                        r.kept
                      ∙ rest_read (api.content disk) offset (suc n) r.bytes r.are_content
                          r.at_most_count))),
        kept ∙ r.kept,
      )

  -- On a disk whose every `pread` transfers something, `full_pread` makes at most one call for each
  -- byte and gives exactly the bytes of the volume from the offset on; the volume is as before.
  pub full_pread_lem :
      (fuel : ℕ) (disk : api.Disk) (count offset : ℕ)
      → Reads api
      → count < fuel
      → (after : api.Disk) × (full_pread api fuel disk count offset
          ≡ some (bytes_at (api.content disk) offset count, after))
        × (api.content after ≡ api.content disk)
  unfolding full_pread
  full_pread_lem fuel disk count offset reads h = pread_on_lem fuel disk [] count offset reads h

pub take-all : (n : ℕ) (xs : List ℕ) → n ≡ length xs → take n xs ≡ xs
take-all zero [] e = refl
take-all zero (x ∷ xs) e = absurd (omega arith)
take-all (suc n) [] e = absurd (omega arith)
take-all (suc n) (x ∷ xs) e = ap (λ r. x ∷ r) (take-all n xs (omega arith))

pub patched-before : (c : ℕ → ℕ) (o : ℕ) (xs : List ℕ) (i : ℕ) → i < o → patched c o xs i ≡ c i
patched-before c o xs i h = ground arith

pub patched-from :
    (c : ℕ → ℕ) (o : ℕ) (xs : List ℕ) (i : ℕ) → o ≤ i → patched c o xs i ≡ get_or xs (i - o) (c i)
patched-from c o xs i h = ground arith

pub patched-nil : (c : ℕ → ℕ) (o : ℕ) → patched c o [] ≡ c
patched-nil c o = fun_ext λ i. ground arith

-- Bytes written behind one another.
pub patched-patched :
    (c : ℕ → ℕ) (o p : ℕ) (xs ys : List ℕ)
    → p ≡ o + length xs
    → patched (patched c o xs) p ys ≡ patched c o (xs ++ ys)
patched-patched c o p xs ys e = fun_ext at_byte
  where
    within : (i : ℕ) → o ≤ i → i < p → patched (patched c o xs) p ys i ≡ patched c o (xs ++ ys) i
    within i from to =
        patched-before (patched c o xs) p ys i to
        ∙ patched-from c o xs i from
        ∙ sym (patched-from c o (xs ++ ys) i from ∙ get_or-left xs ys (i - o) (c i) (omega arith))

    past : (i : ℕ) → o ≤ i → p ≤ i → patched (patched c o xs) p ys i ≡ patched c o (xs ++ ys) i
    past i from to =
        patched-from (patched c o xs) p ys i to
        ∙ ap (get_or ys (i - p))
            (patched-from c o xs i from ∙ get_or-end xs (i - o) (c i) (omega arith))
        ∙ sym (
            patched-from c o (xs ++ ys) i from
            ∙ ap (λ k. get_or (xs ++ ys) k (c i)) {x = i - o} {y = length xs + (i - p)}
                (omega arith)
            ∙ get_or-right xs ys (i - p) (c i))

    at_byte : (i : ℕ) → patched (patched c o xs) p ys i ≡ patched c o (xs ++ ys) i
    at_byte i = elim (dec_lt i o) [
      | yes before ↦
          patched-before (patched c o xs) p ys i (omega arith)
          ∙ patched-before c o xs i before
          ∙ sym (patched-before c o (xs ++ ys) i before)
      | no from ↦ elim (dec_lt i p) [
        | yes to ↦ within i (omega arith) to
        | no after ↦ past i (omega arith) (omega arith)
      ]
    ]

module _ (api : DiskApi) where
  pwrite_on_lem :
      (fuel : ℕ) (buf : List ℕ) (disk : api.Disk) (n offset : ℕ)
      → Writes api
      → n ≤ length buf
      → length buf < n + fuel
      → (after : api.Disk) × (pwrite_on api fuel buf disk n offset ≡ some (length buf, after))
        × (api.content after ≡ patched (api.content disk) offset (drop n buf))
  unfolding pwrite_on after_pwrite
  pwrite_on_lem zero buf disk n offset writes b h = absurd (omega arith)
  pwrite_on_lem (suc fuel) buf disk n offset writes b h = elim (dec_lt n (length buf)) [
    | no all ↦
        let e : n ≡ length buf = omega arith in
        (
          disk,
          rw (all_written e) (ap (λ k. some (k, disk)) e),
          sym (
              ap (patched (api.content disk) offset) (drop-end n buf (omega arith))
              ∙ patched-nil (api.content disk) offset),
        )
    | yes more ↦
        let w = writes disk (drop n buf) offset (omega (arith, length-drop n buf)) in
        let bound : n + w.count ≤ length buf = omega (arith, w.at_most_length, length-drop n buf) in
        let (after, eq, kept) =
          pwrite_on_lem fuel buf w.after (n + w.count) (offset + w.count) writes bound
            (omega (arith, w.some_written)) in
        (
          after,
          rw (some_left more, w.reply, not_zero w.count w.some_written, eq),
          kept
              ∙ ap (λ c. patched c (offset + w.count) (drop (n + w.count) buf)) w.is_patched
              ∙ patched-patched (api.content disk) offset (offset + w.count)
                  (take w.count (drop n buf)) (drop (n + w.count) buf)
                  (ap (λ k. offset + k) (sym (length-take w.count (drop n buf) w.at_most_length)))
              ∙ ap (patched (api.content disk) offset) (
                  ap (λ r. take w.count (drop n buf) ++ r) (sym (drop-drop n w.count buf))
                  ∙ take-append-drop w.count (drop n buf)),
        )
  ]
    where
      all_written : n ≡ length buf → (length buf == n) ≡ true
      all_written e = ground arith

      some_left : n < length buf → (length buf == n) ≡ false
      some_left more = ground arith

  -- On a disk whose every `pwrite` transfers something, `full_pwrite` makes at most one call for each
  -- byte and writes all of them: afterwards the volume has the buffer at the offset, and every other
  -- byte is as before.
  pub full_pwrite_lem :
      (fuel : ℕ) (disk : api.Disk) (buf : List ℕ) (offset : ℕ)
      → Writes api
      → length buf < fuel
      → (after : api.Disk) × (full_pwrite api fuel disk buf offset ≡ some (length buf, after))
        × (api.content after ≡ patched (api.content disk) offset buf)
  unfolding full_pwrite
  full_pwrite_lem fuel disk buf offset writes h =
      pwrite_on_lem fuel buf disk 0 offset writes (omega arith) (omega arith)
