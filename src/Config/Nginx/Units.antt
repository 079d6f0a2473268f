-- ===== src/Config/Nginx/Units.antt =====
-- The helpers of internal/config/nginx_translator.go that read numbers, sizes, times and rates.
-- strconv.ParseFloat and the division of a float64 by 60 are given; an int of a float is cut off.
pub mod Prepared
pub mod Printed
use web_server.Prelude.{
  ℕ, ◌*◌, ◌/◌, ◌%◌, ◌^◌, ◌==◌, Bool, true, false, ◌||◌, if◌then◌else◌, List, [], ◌∷◌, map, Option,
  none, some, two_64,
}
use web_server.Text.{Bytes, codes, eqb, lower}
use web_server.Text.Scan.{
  trim_space, cut_prefix, cut_suffix, split_last, first_field, after, before_byte,
}
use web_server.Text.Number.{atoi}
use web_server.Config.{Float}

-- `extractGroupName`: every branch about a port returns the text as it is.
abbrev pub without_scheme : Bytes → Option Bytes → Bytes
without_scheme url none = url
without_scheme url (some rest) = rest

unfoldable pub extract_group_name : Bytes → Bytes
unfolding before_byte after
extract_group_name url = before_byte b'/' (without_scheme url (after (codes "://") url))

-- `parsePort`.
abbrev pub port_of : Bytes → Option ℕ
port_of [] = none
port_of (c ∷ s) = atoi (c ∷ s)

unfoldable pub parse_port : Bytes → Option ℕ
unfolding first_field
parse_port s = port_of (first_field s)

-- The switches on the last byte: the multiplier, if the byte is a unit.
abbrev pub size_unit : ℕ → Option ℕ
size_unit c =
    if c == b'k'
    then some 1024
    else (if c == b'm' then some 1048576 else (if c == b'g' then some 1073741824 else none))

abbrev pub time_unit : ℕ → Option ℕ
time_unit c =
    if c == b's'
    then some 1
    else (if c == b'm'
        then some 60
        else (if c == b'h' then some 3600 else (if c == b'd' then some 86400 else none)))

abbrev pub cut_unit : Bytes → Bytes → Option ℕ → ℕ × Bytes
cut_unit s front none = (1, s)
cut_unit s front (some multiplier) = (multiplier, front)

abbrev pub split_unit : (ℕ → Option ℕ) → Bytes → Option (Bytes × ℕ) → ℕ × Bytes
split_unit unit s none = (1, s)
split_unit unit s (some (front, c)) = cut_unit s front (unit c)

abbrev pub times : ℕ → Option ℕ → ℕ
times multiplier none = 0
times multiplier (some v) = v * multiplier % two_64

abbrev pub scaled : ℕ × Bytes → ℕ
scaled (multiplier, num) = times multiplier (atoi num)

abbrev pub size_of : Bytes → ℕ
size_of s =
    if eqb s [] || eqb s (codes "0") then 0 else scaled (split_unit size_unit s (split_last s))

unfoldable pub parse_size : Bytes → ℕ
parse_size s = size_of (map lower (trim_space s))

abbrev pub seconds_of : Bytes → ℕ
seconds_of [] = 0
seconds_of (c ∷ s) = scaled (split_unit time_unit (c ∷ s) (split_last (c ∷ s)))

unfoldable pub parse_duration_seconds : Bytes → ℕ
parse_duration_seconds s = seconds_of (map lower (trim_space s))

-- The switch on the ending of a rate: the number, and whether it counts for a minute.
abbrev pub per : Bool → Option Bytes → Bytes × Bool → Bytes × Bool
per minute none other = other
per minute (some val) other = (val, minute)

abbrev pub rate_ending : Bytes → Bytes × Bool
rate_ending val = per true (cut_suffix val (codes "r/m")) (
    per false (cut_suffix val (codes "r/s")) (
      per false (cut_suffix val (codes "/s"))
        (per true (cut_suffix val (codes "/m")) (val, false))))

-- `int(f)`.
abbrev pub trunc : Float → ℕ
trunc f = f.mantissa / 2 ^ f.exponent % two_64

module _ (parse_float : Bytes → Option Float) (by_60 : Float → Float) where
  abbrev pub rate_number : Bytes × Bool → Option Float
  rate_number (val, false) = parse_float val
  rate_number (val, true) = elim (parse_float val) [ none ↦ none | some n ↦ some (by_60 n) ]

  abbrev pub rate_arg : Option Bytes → Option Float
  rate_arg none = none
  rate_arg (some val) = rate_number (rate_ending val)

  abbrev pub first_rate : Option Float → Float → Float
  first_rate none other = other
  first_rate (some n) other = n

  -- The loop of `parseRate`: the first argument `rate=` with a number.
  unfoldable pub parse_rate : List Bytes → Float
  parse_rate [] = record { mantissa = 0; exponent = 0 }
  parse_rate (arg ∷ args) = first_rate (rate_arg (cut_prefix arg (codes "rate="))) (parse_rate args)

-- The loop of `parseLimitReqBurst`.
abbrev pub burst_arg : Option Bytes → Option ℕ
burst_arg none = none
burst_arg (some val) = atoi val

abbrev pub first_burst : Option ℕ → ℕ → ℕ
first_burst none other = other
first_burst (some v) other = v

unfoldable pub parse_limit_req_burst : List Bytes → ℕ
parse_limit_req_burst [] = 0
parse_limit_req_burst (arg ∷ args) =
    first_burst (burst_arg (cut_prefix arg (codes "burst="))) (parse_limit_req_burst args)
