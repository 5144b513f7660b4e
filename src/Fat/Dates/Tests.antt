-- ===== src/Fat/Dates/Tests.antt =====
-- A sample time, and the theorem of fat_util.c on it.
use fa_maf_sis_op.Prelude.{ℕ, ◌+◌, ◌≡◌, refl, true, some, arith}
use fa_maf_sis_op.Fat.Dates.{Tm, fill_date, fill_time, time_to_unix_time}
use fa_maf_sis_op.Fat.Dates.RoundTrip.{IsTm, time_to_unix_time-fill_time}

-- 2025-11-26 12:30:45
abbrev sample_tm : Tm
sample_tm = record {
  tm_sec = 45;
  tm_min = 30;
  tm_hour = 12;
  tm_mday = 26;
  tm_mon = 10;
  tm_year = 125;
}

sample_tm-IsTm : IsTm sample_tm
sample_tm-IsTm = record {
  sec = omega arith;
  min = omega arith;
  hour = omega arith;
  mday = omega arith;
  mon = omega arith;
  year_from = omega arith;
  year_to = omega arith;
}

date_packed : fill_date sample_tm ≡ 23418
unfolding fill_date
date_packed = refl

time_to_unix_time-fill_time_example :
    (date : ℕ) × (time : ℕ) × (fill_time (λ t. sample_tm) true 7 ≡ (date, some time))
    × (time_to_unix_time (λ tm. tm.tm_sec + tm.tm_min) date time ≡ 74)
time_to_unix_time-fill_time_example =
    time_to_unix_time-fill_time (λ t. sample_tm) (λ tm. tm.tm_sec + tm.tm_min) 7 sample_tm-IsTm
