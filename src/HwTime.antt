-- ===== src/HwTime.antt =====
-- kernel/src/hwTime.c: the time of the hardware clock. The values of its registers are an argument, bytes
-- that are read when the clock is not being updated.
pub mod Days
mod Tests
use Prim.Native.Nat.{bit_and}
use chaff.Prelude.{
  ℕ, zero, suc, ◌+◌, ◌-◌, ◌*◌, ◌/◌, ◌%◌, ◌^◌, Bool, true, false, not, List, [], ◌∷◌, ltb, ◌==◌,
  if◌then◌else◌, sub32, u32_mod,
}

-- `monthdays` and `monthdays2`
abbrev pub month_days : List ℕ
month_days = 0 ∷ 31 ∷ 59 ∷ 90 ∷ 120 ∷ 151 ∷ 181 ∷ 212 ∷ 243 ∷ 273 ∷ 304 ∷ 334 ∷ []

abbrev pub month_days_leap : List ℕ
month_days_leap = 0 ∷ 31 ∷ 60 ∷ 91 ∷ 121 ∷ 152 ∷ 182 ∷ 213 ∷ 244 ∷ 274 ∷ 305 ∷ 335 ∷ []

-- An array's element; the code stays inside the arrays.
abbrev pub element : List ℕ → ℕ → ℕ
element [] i = 0
element (x ∷ xs) zero = x
element (x ∷ xs) (suc i) = element xs i

-- `BCD2Binary`
abbrev pub bcd_to_binary : ℕ → ℕ
bcd_to_binary value = value / 16 * 10 + value % 16

-- `Hour12To24`
pub hour_12_to_24 : ℕ → Bool → ℕ
hour_12_to_24 value use_bcd =
    let low = if use_bcd then bcd_to_binary (value % 128) else value % 128 in
    let hour = if low == 12 then 0 else low in
    if value / 128 % 2 == 0 then hour else (hour + 12) % 256

-- The month as an index, in an unsigned char.
abbrev pub month_index : ℕ → ℕ
month_index month = if ltb 11 ((month + 255) % 256) then 11 else (month + 255) % 256

-- `DaysDiff`, for years from 1970 on.
pub days_diff : ℕ → ℕ → ℕ → ℕ
days_diff year month day =
    sub32
      ((year - 1970) * 365
        + (year - 1970 + 1) / 4
        + (if year % 4 == 0
            then element month_days_leap (month_index month)
            else element month_days (month_index month))
        + day)
      1

-- `CMOSRead`
abbrev pub cmos_read : (ℕ → ℕ) → ℕ → Bool → ℕ
cmos_read registers reg bcd = if bcd then bcd_to_binary (registers reg) else registers reg

-- `TimerGetCMOSTime`
pub get_cmos_time : (ℕ → ℕ) → ℕ
unfolding days_diff hour_12_to_24
get_cmos_time registers =
    let is_bcd = bit_and (registers 0xB) 4 == 0 in
    let is_24_hour = not (bit_and (registers 0xB) 2 == 0) in
    let hours =
      if is_24_hour
      then hour_12_to_24 (cmos_read registers 4 false) is_bcd
      else cmos_read registers 4 is_bcd in
    let days =
      days_diff (cmos_read registers 9 is_bcd + 2000) (cmos_read registers 8 is_bcd)
        (cmos_read registers 7 is_bcd) in
    (cmos_read registers 0 is_bcd + cmos_read registers 2 is_bcd * 60 + hours * 3600 + days * 86400)
    % u32_mod
    * u32_mod
