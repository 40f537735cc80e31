-- ===== src/Config/Parse.antt =====
-- orDefault and the parsers of config.go: from the text of a variable to its value.
use homesink.Base.{
  ℕ, suc, ◌+◌, ◌-◌, ◌*◌, ◌/◌, Bool, true, false, ◌||◌, List, [], ◌∷◌, ◌++◌, Option, none, some, Str,
  codes, str_eq, to_lower, trim_space, all, ltb, leb, ◌==◌, if◌then◌else◌,
}
use homesink.Base.Int.{ℤ, pos, negsuc, sub_ℕ}
use homesink.Base.Decimal.{is_digit}

pub data LogLevel : Type 0 where
  debug info warn error : LogLevel

-- orDefault and hostnameOr.
abbrev pub or_default_trimmed : Str → Str → Str
or_default_trimmed [] def = def
or_default_trimmed (r ∷ s) def = r ∷ s

unfoldable pub or_default : Str → Str → Str
unfolding trim_space
or_default v def = or_default_trimmed (trim_space v) def

abbrev pub hostname_or : Option Str → Str → Str
hostname_or none fallback = fallback
hostname_or (some []) fallback = fallback
hostname_or (some (r ∷ h)) fallback = r ∷ h

-- parseOnOff, of the trimmed and lowered text.
abbrev on_off : Bool → Str → Option Bool
on_off def s =
    if str_eq s []
    then some def
    else if str_eq s (codes "on")
    then some true
    else if str_eq s (codes "off")
    then some false
    else none

unfoldable pub parse_on_off : Str → Bool → Option Bool
unfolding to_lower trim_space str_eq
parse_on_off v def = on_off def (to_lower (trim_space v))

-- strconv.ParseBool.
unfoldable pub contains_text : Str → List Str → Bool
unfolding str_eq
contains_text s [] = false
contains_text s (t ∷ ts) = str_eq t s || contains_text s ts

abbrev bool_of : Str → Option Bool
bool_of s =
    if contains_text s
      (codes "1" ∷ codes "t" ∷ codes "T" ∷ codes "TRUE" ∷ codes "true" ∷ codes "True" ∷ [])
    then some true
    else if contains_text s
        (codes "0" ∷ codes "f" ∷ codes "F" ∷ codes "FALSE" ∷ codes "false" ∷ codes "False" ∷ [])
    then some false
    else none

abbrev bool_or : Bool → Str → Option Bool
bool_or def [] = some def
bool_or def (r ∷ s) = bool_of (r ∷ s)

unfoldable pub parse_bool : Str → Bool → Option Bool
unfolding trim_space contains_text
parse_bool v def = bool_or def (trim_space v)

-- strconv.ParseInt in base 10 and 64 bits; Atoi is the same where an int has 64 bits.
abbrev pub max_int64 : ℕ
max_int64 = 9223372036854775807

unfoldable pub value_of : ℕ → Str → ℕ
value_of n [] = n
value_of n (r ∷ s) = value_of (n * 10 + (r - 48)) s

abbrev pub magnitude : Str → Option ℕ
magnitude [] = none
magnitude (r ∷ s) = if all is_digit (r ∷ s) then some (value_of 0 (r ∷ s)) else none

abbrev pub up_to : ℕ → (ℕ → ℤ) → Option ℕ → Option ℤ
up_to limit f none = none
up_to limit f (some n) = if leb n limit then some (f n) else none

unfoldable pub parse_int : Str → Option ℤ
unfolding value_of
parse_int [] = none
parse_int (r ∷ s) =
    if r == 45
    then up_to (suc max_int64) (sub_ℕ 0) (magnitude s)
    else if r == 43
    then up_to max_int64 pos (magnitude s)
    else up_to max_int64 pos (magnitude (r ∷ s))

-- parsePositiveInt64.
abbrev pub positive : Option ℤ → Option ℕ
positive none = none
positive (some (negsuc n)) = none
positive (some (pos n)) = if n == 0 then none else some n

abbrev pub positive_or : ℕ → Str → Option ℕ
positive_or def [] = some def
positive_or def (r ∷ s) = positive (parse_int (r ∷ s))

unfoldable pub parse_positive_int64 : Str → ℕ → Option ℕ
unfolding trim_space parse_int
parse_positive_int64 v def = positive_or def (trim_space v)

-- parseWorkers.
abbrev pub resolved_workers : ℕ → ℕ → ℕ
resolved_workers num_cpu n = if n == 0 then if ltb (num_cpu / 2) 1 then 1 else num_cpu / 2 else n

abbrev pub workers_of : ℕ → Option ℤ → Option ℕ
workers_of num_cpu none = none
workers_of num_cpu (some (negsuc n)) = none
workers_of num_cpu (some (pos n)) = some (resolved_workers num_cpu n)

abbrev pub workers_or : ℕ → Str → Option ℕ
workers_or num_cpu [] = some (resolved_workers num_cpu 0)
workers_or num_cpu (r ∷ s) = workers_of num_cpu (parse_int (r ∷ s))

unfoldable pub parse_workers : ℕ → Str → Option ℕ
unfolding trim_space parse_int
parse_workers num_cpu v = workers_or num_cpu (trim_space v)

-- parseLogLevel. Of the letters of the four words, strings.ToLower gives "i" also for U+0130.
unfoldable pub lower_dotted : Str → Str
unfolding to_lower
lower_dotted [] = []
lower_dotted (r ∷ s) = (if r == 0x130 then 0x69 ∷ [] else to_lower (r ∷ [])) ++ lower_dotted s

abbrev level_of : Str → Option LogLevel
level_of s =
    if str_eq s (codes "debug")
    then some debug
    else if str_eq s (codes "info")
    then some info
    else if str_eq s (codes "warn") || str_eq s (codes "warning")
    then some warn
    else if str_eq s (codes "error")
    then some error
    else none

unfoldable pub parse_log_level : Str → Option LogLevel
unfolding lower_dotted trim_space str_eq
parse_log_level v = level_of (lower_dotted (trim_space v))
