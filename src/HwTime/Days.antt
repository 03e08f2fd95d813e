-- ===== src/HwTime/Days.antt =====
-- `DaysDiff` against a calendar.
use chaff.Prelude.{
  ℕ, zero, suc, ◌+◌, ◌*◌, ◌/◌, ◌%◌, ◌≤◌, ◌<◌, ◌≡◌, refl, ap, sym, ◌∙◌, inl, inr, Bool, true, false,
  not, ◌&&◌, ◌||◌, ◌==◌, if◌then◌else◌, arith, Bool-cases,
}
use chaff.HwTime.{month_days, month_days_leap, element, month_index, days_diff}

-- A leap year of the Gregorian calendar, and the lengths of its years and months. The months are counted
-- from 0 and the years from 1970.
abbrev pub is_leap : ℕ → Bool
is_leap year = year % 4 == 0 && (not (year % 100 == 0) || year % 400 == 0)

abbrev pub days_before_year : ℕ → ℕ
days_before_year zero = 0
days_before_year (suc n) = days_before_year n + (if is_leap (1970 + n) then 366 else 365)

abbrev pub month_length : Bool → ℕ → ℕ
month_length leap m =
    if m == 1
    then if leap then 29 else 28
    else if m == 3 || m == 5 || m == 8 || m == 10
    then 30
    else 31

abbrev pub days_before_month : Bool → ℕ → ℕ
days_before_month leap zero = 0
days_before_month leap (suc m) = days_before_month leap m + month_length leap m

leap_lem : (n : ℕ) → n < 130 → is_leap (1970 + n) ≡ ((1970 + n) % 4 == 0)
leap_lem n h = ground (arith, h)

before_year_lem : (n : ℕ) → n ≤ 130 → days_before_year n ≡ n * 365 + (n + 1) / 4
before_year_lem zero h = refl
before_year_lem (suc n) h = elim (Bool-cases ((1970 + n) % 4 == 0)) [
  | inl e ↦ rw (leap_lem n h) (rw e (omega (arith, before_year_lem n (omega (arith, h)), leap e)))
  | inr e ↦ rw (leap_lem n h) (rw e (omega (arith, before_year_lem n (omega (arith, h)), common e)))
]
  where
    leap : ((1970 + n) % 4 == 0) ≡ true → (1970 + n) % 4 ≡ 0
    leap e = ground (arith, e)

    common : ((1970 + n) % 4 == 0) ≡ false → 0 < (1970 + n) % 4
    common e = ground (arith, e)

-- Whether two functions agree below a bound.
abbrev agree : (ℕ → ℕ) → (ℕ → ℕ) → ℕ → Bool
agree f g zero = true
agree f g (suc n) = f n == g n && agree f g n

agree_lem : (f g : ℕ → ℕ) (n : ℕ) → agree f g n ≡ true → (m : ℕ) → m < n → f m ≡ g m
agree_lem f g zero a m h = absurd (omega (arith, h))
agree_lem f g (suc n) a m h = elim (Bool-cases (f n == g n)) [
  | inl e ↦ elim (Bool-cases (m == n)) [
    | inl k ↦ rw (last k) (equal e)
    | inr k ↦ agree_lem f g n (both e a) m (before k h)
  ]
  | inr e ↦ ground (arith, e, a)
]
  where
    last : (m == n) ≡ true → m ≡ n
    last k = ground (arith, k)

    equal : (f n == g n) ≡ true → f n ≡ g n
    equal e = ground (arith, e)

    both : (f n == g n) ≡ true → (f n == g n && agree f g n) ≡ true → agree f g n ≡ true
    both e a = sym (ap (λ b. b && agree f g n) e) ∙ a

    before : (m == n) ≡ false → m < suc n → m < n
    before k h = ground (arith, k, h)

-- The tables have the days before each month.
month_lem :
    (leap : Bool) (m : ℕ)
    → m < 12
    → (if leap then element month_days_leap m else element month_days m) ≡ days_before_month leap m
month_lem true m h = agree_lem (element month_days_leap) (days_before_month true) 12 refl m h
month_lem false m h = agree_lem (element month_days) (days_before_month false) 12 refl m h

before_month_bound : (leap : Bool) (m : ℕ) → days_before_month leap m ≤ 31 * m
before_month_bound leap zero = omega arith
before_month_bound leap (suc m) = omega (arith, before_month_bound leap m, month_bound leap m)
  where
    month_bound : (leap : Bool) (m : ℕ) → month_length leap m ≤ 31
    month_bound leap m = ground arith

-- `DaysDiff` of a date from 1970 to 2099 is the number of days from the first of January 1970 on, by the
-- Gregorian calendar; months and days are counted from 0 on its right side.
pub days_diff_lem :
    (n m d : ℕ)
    → n < 130
    → m < 12
    → d < 31
    → days_diff (1970 + n) (suc m) (suc d)
      ≡ days_before_year n + days_before_month (is_leap (1970 + n)) m + d
unfolding days_diff
days_diff_lem n m d hn hm hd = rw (index hm) (
    rw (leap_lem n hn) (
      rw (month_lem ((1970 + n) % 4 == 0) m hm) (
        omega (
          arith,
          hn,
          hm,
          hd,
          before_year_lem n (omega (arith, hn)),
          before_month_bound ((1970 + n) % 4 == 0) m,
        ))))
  where
    index : m < 12 → month_index (suc m) ≡ m
    index hm = ground (arith, hm)
