-- ===== src/HwTime/Tests.antt =====
-- Runs of the hardware clock's reading, and its theorem at a concrete date.
use chaff.Prelude.{ℕ, ◌+◌, ◌*◌, ◌^◌, ◌≡◌, refl, ◌==◌, if◌then◌else◌, arith}
use chaff.HwTime.{days_diff, get_cmos_time}
use chaff.HwTime.Days.{days_before_year, days_before_month, is_leap, days_diff_lem}

-- The 29th of February 2012.
days_diff_lem_example :
    days_diff (1970 + 42) 2 29
    ≡ days_before_year 42 + days_before_month (is_leap (1970 + 42)) 1 + 28
days_diff_lem_example = days_diff_lem 42 1 28 (omega arith) (omega arith) (omega arith)

days_test : days_diff 2012 2 29 ≡ 15399
unfolding days_diff
days_test = refl

-- The registers in binary and 24-hour mode, at 12:00:00 on the 1st of January 2012.
abbrev noon : ℕ → ℕ
noon reg =
    if reg == 4
    then 12
    else if reg == 7
    then 1
    else if reg == 8
    then 1
    else if reg == 9
    then 12
    else if reg == 0xB
    then 6
    else 0

-- The hour of the 24-hour mode is converted like one of 12, so that noon is taken for midnight.
noon_test : get_cmos_time noon ≡ 1325376000 * 2 ^ 32
unfolding get_cmos_time
noon_test = refl
