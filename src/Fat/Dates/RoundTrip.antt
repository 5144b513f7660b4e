-- ===== src/Fat/Dates/RoundTrip.antt =====
-- What `time_to_unix_time` of fat_util.c reads of what `fill_time` wrote.
use fa_maf_sis_op.Prelude.{
  ℕ, ◌+◌, ◌-◌, ◌*◌, ◌/◌, ◌%◌, ◌^◌, ◌≤◌, ◌<◌, ◌≡◌, refl, ap, true, some, arith,
}
use Prim.Native.Nat.{bit_and, bit_or}
use fa_maf_sis_op.Fat.Bits.{bit_and-mask, bit_or-shifted}
use fa_maf_sis_op.Fat.Dates.{u16, Tm, fill_date, fill_tim, fill_time, unpacked, time_to_unix_time}

-- A broken-down time of the years 1980 to 2107, leap seconds included.
pub record IsTm (tm : Tm) : Type 0 where
  pub sec : tm.tm_sec ≤ 61
  pub min : tm.tm_min < 60
  pub hour : tm.tm_hour < 24
  pub mday : tm.tm_mday < 32
  pub mon : tm.tm_mon < 12
  pub year_from : 80 ≤ tm.tm_year
  pub year_to : tm.tm_year < 208

mask_five : (a : ℕ) → bit_and a 0x1F ≡ a % 32
mask_five a = bit_and-mask 5 a

or_five : (a b : ℕ) → a < 32 → bit_or a (b * 2 ^ 5) ≡ a + b * 32
or_five a b lt = bit_or-shifted 5 a b lt

five_bits : (a : ℕ) → a < 32 → bit_and (u16 a) 0x1F ≡ a
five_bits a lt = omega (arith, mask_five (u16 a))

-- A date: five bits of day, four of month, seven of year.
date_bits :
    (a b c : ℕ)
    → a < 32
    → b < 16
    → c < 128
    → u16 (bit_or (bit_and (u16 (bit_or (bit_and (u16 a) 0x1F) (b * 2 ^ 5))) 0x1FF) (c * 2 ^ 9))
      ≡ a + b * 32 + c * 512
date_bits a b c la lb lc = rw (five_bits a la, or_five a b la, low) (omega (arith, high))
  where
    low : bit_and (u16 (a + b * 32)) 0x1FF ≡ a + b * 32
    low = omega (arith, bit_and-mask 9 (u16 (a + b * 32)))

    high : bit_or (a + b * 32) (c * 2 ^ 9) ≡ a + b * 32 + c * 512
    high = bit_or-shifted 9 (a + b * 32) c (omega arith)

-- A time: five bits of seconds, six of minutes, five of hours.
time_bits :
    (a b c : ℕ)
    → a < 32
    → b < 64
    → c < 32
    → u16 (bit_or (bit_and (u16 (bit_or (bit_and (u16 a) 0x1F) (b * 2 ^ 5))) 0x7FF) (c * 2 ^ 11))
      ≡ a + b * 32 + c * 2048
time_bits a b c la lb lc = rw (five_bits a la, or_five a b la, low) (omega (arith, high))
  where
    low : bit_and (u16 (a + b * 32)) 0x7FF ≡ a + b * 32
    low = omega (arith, bit_and-mask 11 (u16 (a + b * 32)))

    high : bit_or (a + b * 32) (c * 2 ^ 11) ≡ a + b * 32 + c * 2048
    high = bit_or-shifted 11 (a + b * 32) c (omega arith)

fill_date_lem :
    (tm : Tm) → IsTm tm → fill_date tm ≡ tm.tm_mday + (tm.tm_mon + 1) * 32 + (tm.tm_year - 80) * 512
unfolding fill_date
fill_date_lem tm h =
    rw (mon, year)
      (date_bits tm.tm_mday (tm.tm_mon + 1) (tm.tm_year - 80) h.mday (omega (arith, h.mon))
        (omega (arith, h.year_to)))
  where
    mon : u16 tm.tm_mon ≡ tm.tm_mon
    mon = omega (arith, h.mon)

    year : u16 (tm.tm_year + 1900 + 63556) ≡ tm.tm_year - 80
    year = omega (arith, h.year_from, h.year_to)

fill_tim_lem :
    (tm : Tm) → IsTm tm → fill_tim tm ≡ tm.tm_sec / 2 + tm.tm_min * 32 + tm.tm_hour * 2048
unfolding fill_tim
fill_tim_lem tm h =
    rw (min, hour)
      (time_bits (tm.tm_sec / 2) tm.tm_min tm.tm_hour (omega (arith, h.sec)) (omega (arith, h.min))
        (omega (arith, h.hour)))
  where
    min : u16 tm.tm_min ≡ tm.tm_min
    min = omega (arith, h.min)

    hour : u16 tm.tm_hour ≡ tm.tm_hour
    hour = omega (arith, h.hour)

unpacked_lem :
    (tm : Tm)
    → IsTm tm
    → unpacked (fill_date tm) (fill_tim tm) ≡ record tm { tm_sec = tm.tm_sec / 2 * 2 }
unfolding unpacked
unpacked_lem tm h =
    rw (fill_date_lem tm h, fill_tim_lem tm h) (rw (sec, min, hour, mday, mon, year))
  where
    sec : bit_and (tm.tm_sec / 2 + tm.tm_min * 32 + tm.tm_hour * 2048) 0x1F ≡ tm.tm_sec / 2
    sec = omega (arith, mask_five (tm.tm_sec / 2 + tm.tm_min * 32 + tm.tm_hour * 2048), h.sec)

    min : bit_and ((tm.tm_sec / 2 + tm.tm_min * 32 + tm.tm_hour * 2048) / 32) 0x3F ≡ tm.tm_min
    min = omega (
      arith,
      bit_and-mask 6 ((tm.tm_sec / 2 + tm.tm_min * 32 + tm.tm_hour * 2048) / 32),
      h.sec,
      h.min,
    )

    hour : (tm.tm_sec / 2 + tm.tm_min * 32 + tm.tm_hour * 2048) / 2048 ≡ tm.tm_hour
    hour = omega (arith, h.sec, h.min)

    mday : bit_and (tm.tm_mday + (tm.tm_mon + 1) * 32 + (tm.tm_year - 80) * 512) 0x1F ≡ tm.tm_mday
    mday =
        omega
          (arith, mask_five (tm.tm_mday + (tm.tm_mon + 1) * 32 + (tm.tm_year - 80) * 512), h.mday)

    mon :
        u16
          (bit_and ((tm.tm_mday + (tm.tm_mon + 1) * 32 + (tm.tm_year - 80) * 512) / 32) 0xF + 65535)
        ≡ tm.tm_mon
    mon = omega (
      arith,
      bit_and-mask 4 ((tm.tm_mday + (tm.tm_mon + 1) * 32 + (tm.tm_year - 80) * 512) / 32),
      h.mday,
      h.mon,
    )

    year :
        u16 ((tm.tm_mday + (tm.tm_mon + 1) * 32 + (tm.tm_year - 80) * 512) / 512 + 80) ≡ tm.tm_year
    year = omega (arith, h.mday, h.mon, h.year_from, h.year_to)

-- Of a time of the years 1980 to 2107 whatever `fill_time` writes is read back, but for the lowest
-- bit of the seconds: `time_to_unix_time` passes `mktime` the same fields with even seconds.
pub time_to_unix_time-fill_time :
    (gmtime : ℕ → Tm) (mktime : Tm → ℕ) (t : ℕ)
    → IsTm (gmtime t)
    → (date : ℕ) × (time : ℕ) × (fill_time gmtime true t ≡ (date, some time))
      × (time_to_unix_time mktime date time
          ≡ mktime (record (gmtime t) { tm_sec = (gmtime t).tm_sec / 2 * 2 }))
unfolding fill_time time_to_unix_time
time_to_unix_time-fill_time gmtime mktime t h =
    (fill_date (gmtime t), fill_tim (gmtime t), refl, ap mktime (unpacked_lem (gmtime t) h))
