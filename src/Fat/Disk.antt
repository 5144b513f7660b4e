-- ===== src/Fat/Disk.antt =====
-- lab03/sistop-famaf-so25lab3g34/fat_util.c: `full_pread` and `full_pwrite`. The `pread` and `pwrite`
-- of the system are parameters; a use of the buffer before its start is undefined behaviour, `none`.
-- What is left in `errno` is left out.
pub mod Transfer
mod Tests
use fa_maf_sis_op.Prelude.{
  ℕ, zero, suc, ◌+◌, ◌-◌, ◌/◌, ◌%◌, ◌≤◌, ◌≡◌, Bool, true, false, Option, none, some, List, [], ◌∷◌,
  ◌++◌, ◌==◌, if◌then◌else◌, ltb, length, take, drop, get_or,
}
use fa_maf_sis_op.Prelude.Int.{ℤ, pos, negsuc}
use fa_maf_sis_op.Fat.Table.{Device}

-- The result of a call: what was transferred, or -1 with `EINTR` or another error.
pub data Reply {ℓ} (A : Type ℓ) : Type ℓ where
  done : A → Reply A
  interrupted : Reply A
  failed : Reply A

pub record DiskApi : Type 1 where
  pub Disk : Type 0
  pub pread : Disk → (count offset : ℕ) → Reply (List ℕ) × Disk
  pub pwrite : Disk → (bytes : List ℕ) (offset : ℕ) → Reply ℕ × Disk
  -- The bytes of the volume: the code never sees them but through the calls.
  pub content : Disk → ℕ → ℕ

-- `count` bytes from an offset on.
abbrev pub bytes_at : (ℕ → ℕ) → (offset count : ℕ) → List ℕ
bytes_at content offset zero = []
bytes_at content offset (suc count) = content offset ∷ bytes_at content (suc offset) count

-- The volume with bytes written at an offset.
abbrev pub patched : (ℕ → ℕ) → (offset : ℕ) → List ℕ → ℕ → ℕ
patched content offset bytes i =
    if ltb i offset then content i else get_or bytes (i - offset) (content i)

-- The bytes of a `le32`.
abbrev pub le32 : ℕ → List ℕ
le32 n = n % 256 ∷ n / 256 % 256 ∷ n / 65536 % 256 ∷ n / 16777216 % 256 ∷ []

-- The number that `pwrite` returns.
abbrev pub returned : Reply ℕ → ℤ
returned (done n) = pos n
returned interrupted = negsuc 0
returned failed = negsuc 0

-- The disk as fat_table.c writes it, one entry of the table at a time.
abbrev pub device : DiskApi → Device
device api = record {
  Disk = api.Disk;
  pwrite = λ disk word offset.
      let (reply, disk) = api.pwrite disk (le32 word) offset in (returned reply, disk);
}

-- All but the last byte.
unfoldable pub but_last : List ℕ → Option (List ℕ)
but_last [] = none
but_last (b ∷ []) = some []
but_last (b ∷ c ∷ bytes) = elim (but_last (c ∷ bytes)) [ none ↦ none | some init ↦ some (b ∷ init) ]

module _ (api : DiskApi) where
  -- What follows a `pread`, given the bytes in the buffer before it; `loop` is the next round. The
  -- `continue` adds the -1 of an interrupted call to the buffer, the offset and the remaining bytes;
  -- with no byte in the buffer its pointer would lie before its start. The offset is at least the
  -- number of the bytes in the buffer, so that it does not fall below 0.
  unfoldable pub after_pread :
      (api.Disk → List ℕ → (bytes_remaining offset : ℕ) → Option (List ℕ × api.Disk))
      → Reply (List ℕ) × api.Disk
      → List ℕ
      → (bytes_remaining offset : ℕ) → Option (List ℕ × api.Disk)
  after_pread loop (done bytes, disk) buf bytes_remaining offset =
      if length bytes == 0
      then some (buf, disk)
      else loop disk (buf ++ bytes) (bytes_remaining - length bytes) (offset + length bytes)
  after_pread loop (interrupted, disk) buf bytes_remaining offset = elim (but_last buf) [
    | none ↦ none
    | some buf ↦ loop disk buf (bytes_remaining + 1) (offset - 1)
  ]
  after_pread loop (failed, disk) buf bytes_remaining offset = some (buf, disk)

  -- The `for` of `full_pread`; `none` also when the fuel runs out.
  unfoldable pub pread_on :
      ℕ → api.Disk → List ℕ → (bytes_remaining offset : ℕ) → Option (List ℕ × api.Disk)
  pread_on zero disk buf bytes_remaining offset = none
  pread_on (suc fuel) disk buf bytes_remaining offset =
      let round =
        after_pread (pread_on fuel) (api.pread disk bytes_remaining offset) buf bytes_remaining
          offset in
      if bytes_remaining == 0 then some (buf, disk) else round

  -- The bytes that were read; the result is their number.
  unfoldable pub full_pread : ℕ → api.Disk → (count offset : ℕ) → Option (List ℕ × api.Disk)
  full_pread fuel disk count offset = pread_on fuel disk [] count offset

  -- What follows a `pwrite` of the bytes behind the first `n` of `buf`; the offset is at least `n`.
  unfoldable pub after_pwrite :
      (api.Disk → (n offset : ℕ) → Option (ℕ × api.Disk))
      → Reply ℕ × api.Disk
      → (n offset : ℕ) → Option (ℕ × api.Disk)
  after_pwrite loop (done written, disk) n offset =
      if written == 0 then some (n, disk) else loop disk (n + written) (offset + written)
  after_pwrite loop (interrupted, disk) zero offset = none
  after_pwrite loop (interrupted, disk) (suc n) offset = loop disk n (offset - 1)
  after_pwrite loop (failed, disk) n offset = some (n, disk)

  -- The `for` of `full_pwrite`, with `n` bytes of `buf` written.
  unfoldable pub pwrite_on : ℕ → List ℕ → api.Disk → (n offset : ℕ) → Option (ℕ × api.Disk)
  pwrite_on zero buf disk n offset = none
  pwrite_on (suc fuel) buf disk n offset =
      let round =
        after_pwrite (pwrite_on fuel buf) (api.pwrite disk (drop n buf) offset) n offset in
      if length buf == n then some (n, disk) else round

  -- The number of bytes that were written.
  unfoldable pub full_pwrite : ℕ → api.Disk → (buf : List ℕ) (offset : ℕ) → Option (ℕ × api.Disk)
  full_pwrite fuel disk buf offset = pwrite_on fuel buf disk 0 offset
