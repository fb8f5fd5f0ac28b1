-- ===== src/Json/Times.antt =====
-- A time.Time in a document: time.Time.UnmarshalJSON. It first tries parseRFC3339 of package time, and then
-- time.Parse with the layout RFC3339, which takes the same times with the same results and some more:
-- an hour of one digit, a comma in front of the fraction, and an offset of 24 hours or 60 minutes. The
-- escapes of the string are read before, where the library takes none.
use factory_demo.Base.{
  ℕ, zero, suc, ◌+◌, ◌-◌, ◌*◌, ◌/◌, ◌%◌, ◌^◌, [], ◌∷◌, Bool, not, ◌&&◌, ◌||◌, Option, none, some,
  leb, ◌==◌, if◌then◌else◌, length, take,
}
use factory_demo.Base.Int.{ℤ, pos, sub_ℕ, ◌-ℤ◌, ◌*ℤ◌}
use factory_demo.Text.{Text, is_digit, is_empty, value, parse_digits}
use factory_demo.Domain.Values.{Time}
use factory_demo.Json.{Value}
use factory_demo.Json.Structs.{◌>>=◌}

-- A number and the rest of a text.
abbrev Read : Type 0
Read = Option (ℕ × Text)

abbrev between : ℕ → ℕ → Read → Read
between least most none = none
between least most (some (n, s)) = if leb least n && leb n most then some (n, s) else none

abbrev number : ℕ → ℕ → Text → Text → Read
number least most digits rest = elim (parse_digits digits) [
  | none ↦ none
  | some n ↦ between least most (some (n, rest))
]

-- The year: four digits.
abbrev read_year : Text → Read
read_year (a ∷ b ∷ c ∷ d ∷ s) = number 0 9999 (a ∷ b ∷ c ∷ d ∷ []) s
read_year _ = none

-- getnum with two digits, and the test of the range.
abbrev read_two : ℕ → ℕ → Text → Read
read_two least most (a ∷ b ∷ s) = number least most (a ∷ b ∷ []) s
read_two least most _ = none

-- getnum with one digit or two.
abbrev read_hour : Text → Read
read_hour (a ∷ b ∷ s) =
    if is_digit b then number 0 23 (a ∷ b ∷ []) s else number 0 23 (a ∷ []) (b ∷ s)
read_hour (a ∷ []) = number 0 23 (a ∷ []) []
read_hour [] = none

-- A byte of the layout itself.
abbrev read_byte : ℕ → Text → Option Text
read_byte b [] = none
read_byte b (c ∷ s) = if c == b then some s else none

abbrev is_leap : ℕ → Bool
is_leap year = year % 4 == 0 && (not (year % 100 == 0) || year % 400 == 0)

-- daysIn.
unfoldable days_in : ℕ → ℕ → ℕ
days_in year month =
    if month == 2
    then (if is_leap year then 29 else 28)
    else if month == 4 || month == 6 || month == 9 || month == 11
    then 30
    else 31

-- The days of a year in front of a month, where January is the month 1.
unfoldable days_before : ℕ → ℕ → ℕ
unfolding days_in
days_before year zero = 0
days_before year (suc zero) = 0
days_before year (suc (suc month)) = days_before year (suc month) + days_in year (suc month)

-- The days since the first day of the year 0.
unfoldable pub day_number : ℕ → ℕ → ℕ → ℕ
unfolding days_before
day_number year month day =
    year * 365
    + (year + 3) / 4
    + (year + 399) / 400
    - (year + 99) / 100
    + days_before year month
    + (day - 1)

-- Digits in front of a text, and what is behind them.
unfoldable digits_of : Text → Text
digits_of [] = []
digits_of (c ∷ s) = let more = digits_of s in if is_digit c then c ∷ more else []

unfoldable behind_digits : Text → Text
behind_digits [] = []
behind_digits (c ∷ s) = let rest = behind_digits s in if is_digit c then rest else c ∷ s

-- parseNanoseconds: nine digits count.
unfoldable nanoseconds : Text → ℕ
unfolding value
nanoseconds ds = value 0 (take 9 ds) * 10 ^ (9 - length (take 9 ds))

-- A fraction of a second, which is a point or a comma with digits behind it, and the rest; without one
-- the fraction is zero.
unfoldable read_fraction : Text → ℕ × Text
unfolding digits_of behind_digits nanoseconds
read_fraction [] = (0, [])
read_fraction (c ∷ s) =
    if (c == b'.' || c == b',') && not (is_empty (digits_of s))
    then (nanoseconds (digits_of s), behind_digits s)
    else (0, c ∷ s)

-- The sign of an offset.
abbrev signed : ℕ → ℕ → Option ℤ
signed sign seconds =
    if sign == b'+'
    then some (pos seconds)
    else if sign == b'-'
    then some (sub_ℕ 0 seconds)
    else none

-- The offset of a zone in seconds, with nothing behind it: Z, or a sign, hours, a colon and minutes.
unfoldable zone_of : Text → Option ℤ
unfolding parse_digits
zone_of [] = none
zone_of (z ∷ []) = if z == b'Z' then some (pos 0) else none
zone_of (sign ∷ s) = do
  (hours, s) ← read_two 0 24 s
  s ← read_byte b':' s
  (minutes, s) ← read_two 0 60 s
  if is_empty s then signed sign ((hours * 60 + minutes) * 60) else none

-- The nanoseconds from the first day of the year 0 to the zero time, the first day of the year 1.
abbrev zero_nanoseconds : ℕ
zero_nanoseconds = 366 * 86_400 * 1_000_000_000

abbrev instant_of : ℕ → ℕ → ℤ → ℤ
instant_of seconds nanos offset =
    sub_ℕ (seconds * 1_000_000_000 + nanos) zero_nanoseconds -ℤ (offset *ℤ pos 1_000_000_000)

-- time.Parse with the layout RFC3339.
unfoldable pub parse_rfc3339 : Text → Option Time
unfolding parse_digits day_number read_fraction zone_of ◌-ℤ◌ ◌*ℤ◌ days_in
parse_rfc3339 s = do
  (year, s) ← read_year s
  s ← read_byte b'-' s
  (month, s) ← read_two 1 12 s
  s ← read_byte b'-' s
  (day, s) ← read_two 0 99 s
  s ← read_byte b'T' s
  (hour, s) ← read_hour s
  s ← read_byte b':' s
  (minute, s) ← read_two 0 59 s
  s ← read_byte b':' s
  (second, s) ← read_two 0 59 s
  let (nanos, zone) = read_fraction s
  offset ← zone_of zone
  let seconds = ((day_number year month day * 24 + hour) * 60 + minute) * 60 + second
  if leb 1 day && leb day (days_in year month)
      then some (record { instant = instant_of seconds nanos offset; offset = offset })
      else none

-- time.Time.UnmarshalJSON: null leaves the time as it is.
unfoldable pub read_time : Value → Time → Option Time
unfolding parse_rfc3339
read_time Value.null old = some old
read_time (Value.text t) old = parse_rfc3339 t
read_time _ old = none
