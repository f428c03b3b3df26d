-- ===== src/Rerank.antt =====
-- The passage that a reranker is shown, of src/core/rerank-window.ts: the query's terms, where they occur,
-- and the window that has most of them. `toLowerCase`, which may change a text's length, is the parameter `lower`.
pub mod Hits
pub mod Window
mod Examples
use agent_working_memory.Base.{
  ℕ, zero, suc, ◌+◌, ◌-◌, ◌/◌, Bool, true, false, not, ◌&&◌, ◌||◌, Option, none, some, List, [],
  ◌∷◌, ◌++◌, map, length, take, drop, any, select, sort, Text, codes, text_eq, starts_with,
  if◌then◌else◌, ltb, leb, ◌==◌,
}
use mathlib.Core.Option

-- `[a-z0-9_]` and `[a-z0-9_.\-]`.
abbrev pub is_head : ℕ → Bool
is_head c = (leb b'a' c && leb c b'z') || (leb b'0' c && leb c b'9') || (c == b'_')

abbrev pub is_body : ℕ → Bool
is_body c = is_head c || (c == b'.') || (c == b'-')

unfoldable pub run_of : (ℕ → Bool) → Text → Text
run_of p [] = []
run_of p (c ∷ s) = let rest = run_of p s in if p c then c ∷ rest else []

-- The matches of `[a-z0-9_][a-z0-9_.\-]{1,}`, one after the other; the rest of a match is passed over.
unfoldable pub words : ℕ → Text → List Text
unfolding run_of
words skip [] = []
words (suc skip) (c ∷ s) = words skip s
words zero (c ∷ s) =
    let found = words (length (run_of is_body s)) s in
    let next = words zero s in
    if is_head c && leb 1 (length (run_of is_body s)) then (c ∷ run_of is_body s) ∷ found else next

abbrev stop_words : List Text
stop_words =
    codes "the"
    ∷ codes "and"
    ∷ codes "for"
    ∷ codes "with"
    ∷ codes "that"
    ∷ codes "this"
    ∷ codes "from"
    ∷ codes "what"
    ∷ codes "where"
    ∷ codes "when"
    ∷ codes "which"
    ∷ codes "does"
    ∷ codes "did"
    ∷ codes "was"
    ∷ codes "were"
    ∷ codes "are"
    ∷ codes "is"
    ∷ codes "be"
    ∷ codes "to"
    ∷ codes "of"
    ∷ codes "in"
    ∷ codes "on"
    ∷ codes "at"
    ∷ codes "by"
    ∷ codes "it"
    ∷ codes "as"
    ∷ codes "do"
    ∷ codes "how"
    ∷ codes "why"
    ∷ codes "a"
    ∷ codes "an"
    ∷ codes "or"
    ∷ []

-- `Array.from(new Set(ts))`.
unfoldable pub once : List Text → List Text → List Text
once seen [] = []
once seen (t ∷ ts) =
    let rest = once (t ∷ seen) ts in if any (λ u. text_eq u t) seen then rest else t ∷ rest

unfoldable pub terms : (Text → Text) → Text → List Text
unfolding words once
terms lower query = once [] (
    select (λ t. leb 3 (length t) && not (any (λ w. text_eq w t) stop_words))
      (words zero (lower query)))

-- `s.indexOf(t, from)`.
unfoldable pub index_of : Text → Text → Option ℕ
index_of t [] = if starts_with t [] then some 0 else none
index_of t (c ∷ s) =
    let rest = Option.map suc (index_of t s) in if starts_with t (c ∷ s) then some 0 else rest

unfoldable pub index_of_from : Text → Text → ℕ → Option ℕ
unfolding index_of
index_of_from t s from = Option.map (λ i. from + i) (index_of t (drop from s))

-- `for (;;)`, on fuel; `none` means that the fuel ran out.
unfoldable pub occurrences : ℕ → Text → Text → ℕ → Option (List ℕ)
unfolding index_of_from
occurrences zero t s from = none
occurrences (suc fuel) t s from = elim (index_of_from t s from) [
  | none ↦ some []
  | some i ↦ Option.map (λ is. i ∷ is) (occurrences fuel t s (i + length t))
]

unfoldable pub hits_of : ℕ → List Text → Text → Option (List ℕ)
unfolding occurrences
hits_of fuel [] s = some []
hits_of fuel (t ∷ ts) s = elim (occurrences fuel t s 0) [
  | none ↦ none
  | some is ↦ Option.map (λ more. is ++ more) (hits_of fuel ts s)
]

-- `for (let j = i; j < hits.length && hits[j] - start < budget; j++) count++`.
unfoldable pub covered : ℕ → ℕ → List ℕ → ℕ
covered start budget [] = 0
covered start budget (h ∷ hs) =
    let more = suc (covered start budget hs) in if ltb (h - start) budget then more else 0

-- The window before a hit: `Math.max(0, hits[i] - Math.floor(budget / 5))`.
abbrev pub anchor : ℕ → ℕ → ℕ
anchor budget h = h - budget / 5

abbrev pub exceeds : ℕ → Option ℕ → Bool
exceeds count none = true
exceeds count (some best) = ltb best count

-- The loop over the hits, with the best count so far, `none` for -1.
unfoldable pub best_start : ℕ → List ℕ → ℕ → Option ℕ → ℕ
unfolding covered
best_start budget [] start best = start
best_start budget (h ∷ hs) start best =
    let count = covered (anchor budget h) budget (h ∷ hs) in
    if exceeds count best
    then best_start budget hs (anchor budget h) (some count)
    else best_start budget hs start best

unfoldable pub snap : Text → ℕ → ℕ
unfolding index_of_from
snap content start =
    if ltb 0 start
    then elim (index_of_from (codes " ") content start) [
      | none ↦ start
      | some sp ↦ if ltb (sp - start) 40 then sp + 1 else start
    ]
    else start

abbrev pub dots : Text
dots = 8230 ∷ []

-- The slice at a start, with dots where text is left out.
unfoldable pub window_at : ℕ → Text → ℕ → Text
window_at budget content start =
    (if ltb 0 start then dots else [])
    ++ (take budget (drop start content)
        ++ (if ltb (start + budget) (length content) then dots else []))

abbrev pub after_last : ℕ → ℕ → Bool
after_last x y = ltb y x

unfoldable pub densest_window : (Text → Text) → ℕ → Text → Text → ℕ → Option Text
unfolding hits_of best_start snap window_at
densest_window lower fuel content query budget =
    if leb (length content) budget
    then some content
    else elim (hits_of fuel (terms lower query) (lower content)) [
      | none ↦ none
      | some [] ↦ some (take budget content)
      | some (h ∷ hs) ↦ some (
          window_at budget content
            (snap content (best_start budget (sort after_last (h ∷ hs)) 0 none)))
    ]
