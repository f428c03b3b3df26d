-- ===== src/Cron.antt =====
-- The cron expressions of src/engine/consolidation-scheduler.ts. A set of numbers is a list, of which only
-- membership is asked. The expression is split at white space, so that no part of a field has any.
pub mod Times
mod Examples
use agent_working_memory.Base.{
  ℕ, zero, suc, ◌+◌, ◌-◌, ◌*◌, Bool, true, false, not, ◌&&◌, ◌||◌, Option, none, some, List, [],
  ◌∷◌, ◌++◌, length, all, any, select, Text, codes, text_eq, includes, trim, is_space,
  if◌then◌else◌, ltb, leb, ◌==◌,
}

abbrev pub cons_head : ℕ → List Text → List Text
cons_head c [] = (c ∷ []) ∷ []
cons_head c (w ∷ ws) = (c ∷ w) ∷ ws

-- `s.split(d)` for a single character.
unfoldable pub split_on : ℕ → Text → List Text
split_on d [] = [] ∷ []
split_on d (c ∷ s) = let rest = split_on d s in if c == d then [] ∷ rest else cons_head c rest

abbrev pub starts_with_space : Text → Bool
starts_with_space [] = false
starts_with_space (c ∷ s) = is_space c

-- `s.split(/\s+/)`: a run of white space splits once.
unfoldable pub split_spaces : Text → List Text
split_spaces [] = [] ∷ []
split_spaces (c ∷ s) =
    let rest = split_spaces s in
    if is_space c then (if starts_with_space s then rest else [] ∷ rest) else cons_head c rest

abbrev pub is_digit : ℕ → Bool
is_digit c = leb b'0' c && leb c b'9'

-- The value of the digits at the head of a text.
unfoldable pub digits : ℕ → Text → ℕ
digits acc [] = acc
digits acc (c ∷ s) = let rest = digits (acc * 10 + (c - b'0')) s in if is_digit c then rest else acc

abbrev pub drop_plus : Text → Text
drop_plus [] = []
drop_plus (c ∷ s) = if c == b'+' then s else c ∷ s

abbrev pub digits_first : Text → Option ℕ
digits_first [] = none
digits_first (c ∷ s) = if is_digit c then some (digits 0 (c ∷ s)) else none

-- `parseInt(s, 10)` of a text without `-`; `none` is NaN.
unfoldable pub parse_int : Text → Option ℕ
unfolding digits trim
parse_int s = digits_first (drop_plus (trim s))

-- A text cut at its last `/`.
unfoldable pub cut_slash : Text → Option (Text × Text)
cut_slash [] = none
cut_slash (c ∷ s) = elim (cut_slash s) [
  | some (r, d) ↦ some (c ∷ r, d)
  | none ↦ if c == b'/' then some ([], s) else none
]

abbrev pub has_text : Text → Bool
has_text [] = false
has_text (c ∷ s) = true

-- `/^(.+?)\/(\d+)$/`: what stands behind the slash has digits only, so that it is the last slash.
unfoldable pub step_match : Text → Option (Text × ℕ)
unfolding cut_slash digits
step_match part = elim (cut_slash part) [
  | none ↦ none
  | some (r, d) ↦
      if has_text r && (has_text d && all is_digit d) then some (r, digits 0 d) else none
]

-- `for (let n = lo; n <= hi; n += step)`, on fuel.
unfoldable pub up_by : ℕ → ℕ → ℕ → ℕ → List ℕ
up_by zero n hi step = []
up_by (suc fuel) n hi step =
    let rest = up_by fuel (n + step) hi step in if leb n hi then n ∷ rest else []

-- A loop from NaN or to NaN is not entered.
abbrev pub loop : Option ℕ → Option ℕ → ℕ → List ℕ
loop none hi step = []
loop (some lo) none step = []
loop (some lo) (some hi) step = up_by (suc hi) lo hi step

abbrev pub within : ℕ → ℕ → List ℕ → List ℕ
within lo hi = select (λ n. leb lo n && leb n hi)

-- `part.split('-').map(n => parseInt(n, 10))`, of which the first two count.
abbrev pub ends : List Text → Option ℕ × Option ℕ
ends [] = (none, none)
ends (a ∷ []) = (parse_int a, none)
ends (a ∷ b ∷ ws) = (parse_int a, parse_int b)

abbrev pub star : Text
star = codes "*"

unfoldable pub range_ends : Text → ℕ → ℕ → Option ℕ × Option ℕ
unfolding split_on parse_int
range_ends range min max =
    if text_eq range star
    then (some min, some max)
    else if any (λ c. c == b'-') range
    then ends (split_on b'-' range)
    else (parse_int range, some max)

abbrev pub single : ℕ → ℕ → Option ℕ → List ℕ
single min max none = []
single min max (some n) = within min max (n ∷ [])

unfoldable pub part_values : ℕ → ℕ → Text → List ℕ
unfolding step_match range_ends split_on parse_int
part_values min max part = elim (step_match part) [
  | some (range, step) ↦
      let (lo, hi) = range_ends range min max in
      if step == 0 then [] else within min max (loop lo hi step)
  | none ↦
      let (lo, hi) = ends (split_on b'-' part) in
      if any (λ c. c == b'-') part
      then within min max (loop lo hi 1)
      else if text_eq part star
      then loop (some min) (some max) 1
      else single min max (parse_int part)
]

unfoldable pub all_values : ℕ → ℕ → List Text → List ℕ
unfolding part_values
all_values min max [] = []
all_values min max (p ∷ ps) = part_values min max p ++ all_values min max ps

unfoldable pub parse_cron_field : Text → ℕ → ℕ → List ℕ
unfolding all_values split_on
parse_cron_field field min max = all_values min max (split_on b',' field)

abbrev pub has : ℕ → List ℕ → Bool
has n = any (λ x. x == n)

-- What a match reads of a date; the month counts from 0.
pub record Moment : Type 0 where
  pub minutes : ℕ
  pub hours : ℕ
  pub date : ℕ
  pub month : ℕ
  pub day : ℕ

-- `7` is Sunday too.
abbrev pub sunday : ℕ → ℕ
sunday d = if d == 7 then 0 else d

abbrev pub fields_match : Moment → List Text → Bool
fields_match now (a ∷ b ∷ c ∷ d ∷ e ∷ []) =
    has now.minutes (parse_cron_field a 0 59)
    && (has now.hours (parse_cron_field b 0 23)
        && (has now.date (parse_cron_field c 1 31)
            && (has (now.month + 1) (parse_cron_field d 1 12)
                && any (λ x. sunday x == now.day) (parse_cron_field e 0 7))))
fields_match now _ = false

unfoldable pub cron_matches : Moment → Text → Bool
unfolding split_spaces parse_cron_field trim
cron_matches now expr = fields_match now (split_spaces (trim expr))
