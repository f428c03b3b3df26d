-- ===== src/Base/Texts.antt =====
-- Texts as lists of UTF-16 code units, compared as JavaScript compares strings.
use Prim.Native.Nat.{ℕ, zero, suc, ◌+◌, ◌/◌, ◌%◌}
use Prim.Native.Char.{code}
use Prim.Native.String.{String}
use mathlib.Core.Path.{◌≡◌, refl, ◌∙◌}
use mathlib.Core.Logic.{◌↔◌}
use mathlib.Core.Bool.{Bool, true, false, not, ◌&&◌, ◌||◌}
use mathlib.Core.List.{List, [], ◌∷◌, ◌++◌, append-nil, map}
use mathlib.Core.Option.{Option, none, some}
use native.Mathlib.Omega.{arith}
use Prim.Native.Nat.{◌<◌}
use mathlib.Core.Logic.{inl, inr}
use agent_working_memory.Base.Lists.{all, length, length-map}
use agent_working_memory.Base.Tests.{Bool-cases, if◌then◌else◌, ltb, leb, ◌==◌}

abbrev pub Text : Type 0
Text = List ℕ

-- The code units of an ASCII literal.
abbrev pub codes : String → Text
codes String.[] = []
codes (String.◌∷◌ c s) = code c ∷ codes s

-- `a === b`.
unfoldable pub text_eq : Text → Text → Bool
text_eq [] [] = true
text_eq [] (b ∷ v) = false
text_eq (a ∷ u) [] = false
text_eq (a ∷ u) (b ∷ v) = (a == b) && text_eq u v

-- `a < b`: by code units, a proper prefix first.
unfoldable pub text_lt : Text → Text → Bool
text_lt u [] = false
text_lt [] (b ∷ v) = true
text_lt (a ∷ u) (b ∷ v) = let rest = text_lt u v in ltb a b || ((a == b) && rest)

unfoldable pub starts_with : Text → Text → Bool
starts_with [] s = true
starts_with (p ∷ ps) [] = false
starts_with (p ∷ ps) (c ∷ s) = (p == c) && starts_with ps s

-- `s.includes(p)`.
unfoldable pub includes : Text → Text → Bool
unfolding starts_with
includes p [] = starts_with p []
includes p (c ∷ s) = starts_with p (c ∷ s) || includes p s

-- White space: the class `\s` of a regular expression, and what `trim` takes off both ends.
abbrev pub is_space : ℕ → Bool
is_space c =
    (leb 9 c && leb c 13)
    || (c == 32)
    || (c == 160)
    || (c == 5760)
    || (leb 8192 c && leb c 8202)
    || (c == 8232)
    || (c == 8233)
    || (c == 8239)
    || (c == 8287)
    || (c == 12288)
    || (c == 65279)

trim_start : Text → Text
trim_start [] = []
trim_start (c ∷ s) = if is_space c then trim_start s else c ∷ s

reverse_onto : Text → Text → Text
reverse_onto [] acc = acc
reverse_onto (c ∷ s) acc = reverse_onto s (c ∷ acc)

-- `trimEnd`.
unfoldable pub trim_end : Text → Text
unfolding trim_start reverse_onto
trim_end s = reverse_onto (trim_start (reverse_onto s [])) []

unfoldable pub trim : Text → Text
unfolding trim_start trim_end
trim s = trim_end (trim_start s)

-- `toLowerCase` on ASCII letters; the other code units stay.
abbrev lower : ℕ → ℕ
lower c = if leb b'A' c && leb c b'Z' then c + 32 else c

unfoldable pub to_lower : Text → Text
to_lower = map lower

-- `column = 'text'`, which is not true where the column is NULL.
abbrev pub holds_text : Option Text → Text → Bool
holds_text none t = false
holds_text (some s) t = text_eq s t

pub text_eq_iff : (s t : Text) → (text_eq s t ≡ true) ↔ (s ≡ t)
unfolding text_eq
text_eq_iff [] [] = ground arith
text_eq_iff [] (b ∷ v) = ground arith
text_eq_iff (a ∷ u) [] = ground arith
text_eq_iff (a ∷ u) (b ∷ v) = ground (arith, text_eq_iff u v)

pub text_eq_refl : (s : Text) → text_eq s s ≡ true
text_eq_refl s = (text_eq_iff s s).1 refl

pub starts_with_sound : (p s : Text) → starts_with p s ≡ true → (r : Text) × (s ≡ p ++ r)
unfolding starts_with
starts_with_sound [] s h = (s, refl)
starts_with_sound (a ∷ p) [] h = cc
starts_with_sound (a ∷ p) (c ∷ s) h =
    let (r, e) = starts_with_sound p s (ground arith) in (r, ground arith)

-- The decimal digits of a number: `String(n)`. The fuel is the number itself, which its digits
-- cannot outnumber.
decimal_from : ℕ → ℕ → Text → Text
decimal_from zero n acc = acc
decimal_from (suc f) n acc =
    let rest = decimal_from f (n / 10) ((b'0' + n % 10) ∷ acc) in
    if ltb n 10 then (b'0' + n) ∷ acc else rest

unfoldable pub decimal : ℕ → Text
unfolding decimal_from
decimal n = decimal_from (suc n) n []

-- More fuel changes nothing, so that the number itself and one more is enough.
decimal_from_enough :
    (f g n : ℕ) (acc : Text) → n < f → n < g → decimal_from f n acc ≡ decimal_from g n acc
unfolding decimal_from
decimal_from_enough zero g n acc h k = ground arith
decimal_from_enough (suc f) zero n acc h k = ground arith
decimal_from_enough (suc f) (suc g) n acc h k = elim (Bool-cases (ltb n 10)) [
  | inl e ↦ rw e refl
  | inr e ↦
      rw e (decimal_from_enough f g (n / 10) ((b'0' + n % 10) ∷ acc) (ground arith) (ground arith))
]

decimal_fuel : (n more : ℕ) → decimal_from (suc n + more) n [] ≡ decimal n
unfolding decimal
decimal_fuel n more = decimal_from_enough (suc n + more) (suc n) n [] (omega arith) (omega arith)

reverse_onto-reverse_onto :
    (s a b : Text) → reverse_onto (reverse_onto s a) b ≡ reverse_onto a (s ++ b)
unfolding reverse_onto
reverse_onto-reverse_onto [] a b = refl
reverse_onto-reverse_onto (c ∷ s) a b = reverse_onto-reverse_onto s (c ∷ a) b

all-reverse_onto :
    (p : ℕ → Bool) (s a : Text) → all p s ≡ true → all p a ≡ true → all p (reverse_onto s a) ≡ true
unfolding reverse_onto
all-reverse_onto p [] a h k = k
all-reverse_onto p (c ∷ s) a h k = all-reverse_onto p s (c ∷ a) (ground arith) (ground arith)

trim_start-full : (s : Text) → all (λ c. not (is_space c)) s ≡ true → trim_start s ≡ s
unfolding trim_start
trim_start-full [] h = refl
trim_start-full (c ∷ s) h = ground arith

-- Text without white space is not changed by `trim`.
pub trim-full : (s : Text) → all (λ c. not (is_space c)) s ≡ true → trim s ≡ s
unfolding trim trim_end reverse_onto
trim-full s h =
    rw
      (
        trim_start-full s h,
        trim_start-full (reverse_onto s []) (all-reverse_onto (λ c. not (is_space c)) s [] h refl),
      )
      (reverse_onto-reverse_onto s [] [] ∙ append-nil s)

pub to_lower-full : (s : Text) → all (λ c. not (leb b'A' c && leb c b'Z')) s ≡ true → to_lower s ≡ s
unfolding to_lower
to_lower-full [] h = refl
to_lower-full (c ∷ s) h = ground (arith, to_lower-full s)

pub length-to_lower : (s : Text) → length (to_lower s) ≡ length s
unfolding to_lower
length-to_lower s = length-map lower s
