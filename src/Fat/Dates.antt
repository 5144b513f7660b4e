-- ===== src/Fat/Dates.antt =====
-- lab03/sistop-famaf-so25lab3g34/fat_util.c: dates and times of directory entries. `gmtime_r` and
-- `mktime` are parameters; a `le16` is a `u16`, as on a little-endian machine.
pub mod RoundTrip
mod Tests
use fa_maf_sis_op.Prelude.{
  ℕ, ◌+◌, ◌*◌, ◌/◌, ◌%◌, ◌^◌, Bool, true, false, Option, none, some, if◌then◌else◌,
}
use Prim.Native.Nat.{bit_and, bit_or}

-- What a `u16` keeps of a number.
abbrev pub u16 : ℕ → ℕ
u16 n = n % 0x10000

-- The fields of `struct tm` that are used; the year counts from 1900.
pub record Tm : Type 0 where
  pub tm_sec : ℕ
  pub tm_min : ℕ
  pub tm_hour : ℕ
  pub tm_mday : ℕ
  pub tm_mon : ℕ
  pub tm_year : ℕ

-- `date` of `fill_time`; adding 63556 is subtracting 1980 in a `u16`.
unfoldable pub fill_date : Tm → ℕ
fill_date time_st =
    let day = bit_and (u16 time_st.tm_mday) 0x1F in
    let month = bit_and (u16 (bit_or day ((u16 time_st.tm_mon + 1) * 2 ^ 5))) 0x1FF in
    u16 (bit_or month (u16 (time_st.tm_year + 1900 + 63556) * 2 ^ 9))

-- `tim` of `fill_time`
unfoldable pub fill_tim : Tm → ℕ
fill_tim time_st =
    let seconds = bit_and (u16 (time_st.tm_sec / 2)) 0x1F in
    let minutes = bit_and (u16 (bit_or seconds (u16 time_st.tm_min * 2 ^ 5))) 0x7FF in
    u16 (bit_or minutes (u16 time_st.tm_hour * 2 ^ 11))

-- The date, and the time if there is a place for it.
unfoldable pub fill_time : (ℕ → Tm) → (entry_time : Bool) → (t : ℕ) → ℕ × Option ℕ
fill_time gmtime entry_time t =
    (fill_date (gmtime t), if entry_time then some (fill_tim (gmtime t)) else none)

-- `tm` of `time_to_unix_time`; adding 65535 is subtracting 1 in a `u16`.
unfoldable pub unpacked : (date time : ℕ) → Tm
unpacked date time = record {
  tm_sec = bit_and time 0x1F * 2;
  tm_min = bit_and (time / 2 ^ 5) 0x3F;
  tm_hour = time / 2 ^ 11;
  tm_mday = bit_and date 0x1F;
  tm_mon = u16 (bit_and (date / 2 ^ 5) 0xF + 65535);
  tm_year = u16 (date / 2 ^ 9 + 80);
}

unfoldable pub time_to_unix_time : (Tm → ℕ) → (le_date le_time : ℕ) → ℕ
time_to_unix_time mktime le_date le_time = mktime (unpacked le_date le_time)
