-- ===== src/Ctl/Parse.antt =====
-- rsmu_ctl/util.c: numbers on the command line, as `strtoul` reads them. A text is the list of its
-- bytes, without the 0 that ends it; a `long` has 64 bits.
use linux_ptp_driver_package.Prelude.{
  ℕ, ◌+◌, ◌*◌, ◌-◌, List, [], ◌∷◌, ◌/◌, ◌%◌, ◌^◌, ◌≤◌, ◌<◌, ◌≡◌, refl, Bool, true, false, ◌&&◌,
  ◌||◌, not, Option, none, some, arith, if◌then◌else◌, ◌==◌, leb, ltb,
}
use linux_ptp_driver_package.Prelude.Bits.{checked, checked-entry}

-- The value of a digit or letter, or 36 for any other byte.
abbrev pub digit_of : ℕ → ℕ
digit_of c =
    if leb 0x30 c && leb c 0x39
    then c - 0x30
    else if leb 0x61 c && leb c 0x7a
    then c - 0x57
    else if leb 0x41 c && leb c 0x5a
    then c - 0x37
    else 36

abbrev pub is_space : ℕ → Bool
is_space c = (c == 0x20) || (leb 9 c && leb c 13)

unfoldable pub skip_spaces : List ℕ → List ℕ
skip_spaces [] = []
skip_spaces (c ∷ cs) = let rest = skip_spaces cs in if is_space c then rest else c ∷ cs

-- The digits in front, read onto `acc`, and what follows them.
unfoldable pub read_digits : ℕ → ℕ → List ℕ → ℕ × List ℕ
read_digits base acc [] = (acc, [])
read_digits base acc (c ∷ cs) =
    let rest = read_digits base (acc * base + digit_of c) cs in
    if ltb (digit_of c) base then rest else (acc, c ∷ cs)

-- What `strtoul` gives: the value, whether `errno` is ERANGE, and the text at `endptr`; `none` where
-- nothing is converted.
abbrev pub Converted : Type 0
Converted = Option (ℕ × Bool × List ℕ)

abbrev pub ulong_max : ℕ
ulong_max = 2 ^ 64 - 1

-- At least one digit; a value that is too large is cut, and a minus sign negates modulo 2 ^ 64.
unfoldable pub convert : Bool → ℕ → List ℕ → Converted
convert minus base [] = none
convert minus base (c ∷ cs) =
    let (value, rest) = read_digits base 0 (c ∷ cs) in
    if not (ltb (digit_of c) base)
    then none
    else if ltb ulong_max value
    then some (ulong_max, true, rest)
    else some (if minus then (2 ^ 64 - value) % 2 ^ 64 else value, false, rest)

-- The base that a prefix asks for, which `0x` does only before a digit of that base.
unfoldable pub convert_prefixed : Bool → ℕ → List ℕ → Converted
convert_prefixed minus base [] = none
convert_prefixed minus base (c ∷ []) = convert minus (if base == 0 then 10 else base) (c ∷ [])
convert_prefixed minus base (c ∷ d ∷ []) =
    convert minus (if base == 0 then if c == 0x30 then 8 else 10 else base) (c ∷ d ∷ [])
convert_prefixed minus base (c ∷ d ∷ e ∷ cs) =
    let is_hex = (c == 0x30) && (((d == 0x78) || (d == 0x58)) && ltb (digit_of e) 16) in
    if is_hex && ((base == 0) || (base == 16))
    then convert minus 16 (e ∷ cs)
    else convert minus (if base == 0 then if c == 0x30 then 8 else 10 else base) (c ∷ d ∷ e ∷ cs)

unfoldable pub strtoul_signed : ℕ → List ℕ → Converted
strtoul_signed base [] = none
strtoul_signed base (c ∷ cs) =
    if c == 0x2d
    then convert_prefixed true base cs
    else if c == 0x2b
    then convert_prefixed false base cs
    else convert_prefixed false base (c ∷ cs)

unfoldable pub strtoul : ℕ → List ℕ → Converted
strtoul base text = strtoul_signed base (skip_spaces text)

-- `enum parser_result`, with the number that is stored.
pub data ParserResult : Type 0 where
  parsed_ok : ℕ → ParserResult
  malformed : ParserResult
  out_of_range : ParserResult

-- What `get_ranged_uint` makes of the conversion.
abbrev pub ranged : ℕ → ℕ → Converted → ParserResult
ranged min max none = malformed
ranged min max (some (value, erange, [])) =
    if erange || (ltb value min || ltb max value) then out_of_range else parsed_ok value
ranged min max (some (value, erange, c ∷ cs)) = malformed

unfoldable pub get_ranged_uint : List ℕ → ℕ → ℕ → ℕ → ParserResult
get_ranged_uint str_val min max base = ranged min max (strtoul base str_val)

-- The decimal text of a number below 1000.
abbrev pub decimal : ℕ → List ℕ
decimal n =
    if ltb n 10
    then (0x30 + n) ∷ []
    else if ltb n 100
    then (0x30 + n / 10) ∷ (0x30 + n % 10) ∷ []
    else (0x30 + n / 100) ∷ (0x30 + n / 10 % 10) ∷ (0x30 + n % 10) ∷ []

abbrev is_exactly : ℕ → Converted → Bool
is_exactly n none = false
is_exactly n (some (value, erange, [])) = (value == n) && not erange
is_exactly n (some (value, erange, c ∷ cs)) = false

decimal_table : checked 256 (λ n. is_exactly n (strtoul 0 (decimal n))) ≡ true
unfolding checked strtoul strtoul_signed skip_spaces convert_prefixed convert read_digits
decimal_table = refl

is_exactly_eq : (n : ℕ) (c : Converted) → is_exactly n c ≡ true → c ≡ some (n, false, [])
is_exactly_eq n none h = cc
is_exactly_eq n (some (value, true, [])) h = absurd (ground (arith, h))
is_exactly_eq n (some (value, false, [])) h = ground (arith, h)
is_exactly_eq n (some (value, erange, c ∷ cs)) h = cc

ranged_bounds :
    (min max : ℕ) (c : Converted) {n : ℕ} → ranged min max c ≡ parsed_ok n → (min ≤ n) × (n ≤ max)
ranged_bounds min max none h = cc
ranged_bounds min max (some (value, true, [])) h = cc
ranged_bounds min max (some (value, false, [])) h = ground (arith, h)
ranged_bounds min max (some (value, erange, c ∷ cs)) h = cc

ranged_exactly :
    (min max n : ℕ) → min ≤ n → n ≤ max → ranged min max (some (n, false, [])) ≡ parsed_ok n
ranged_exactly min max n low high = ground (arith, low, high)

-- What is stored is in the range, whatever the text and the base.
pub get_ranged_uint_bounds :
    (text : List ℕ) (min max base n : ℕ)
    → get_ranged_uint text min max base ≡ parsed_ok n
    → (min ≤ n) × (n ≤ max)
unfolding get_ranged_uint
get_ranged_uint_bounds text min max base n h = ranged_bounds min max (strtoul base text) h

-- The decimal text of a number up to 255 is read as that number, where it lies in the range.
pub get_ranged_uint-decimal :
    (min max n : ℕ)
    → n < 256
    → min ≤ n
    → n ≤ max
    → get_ranged_uint (decimal n) min max 0 ≡ parsed_ok n
unfolding get_ranged_uint
get_ranged_uint-decimal min max n small low high =
    rw (is_exactly_eq n (strtoul 0 (decimal n)) (checked-entry _ 256 decimal_table n small))
      (ranged_exactly min max n low high)
