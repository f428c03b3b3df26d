-- ===== src/Coordination/FailureModes.antt =====
-- The failure taxonomy and the hints of src/coordination/failure-modes.ts.
use agent_working_memory.Base.{
  ◌||◌, Option, none, some, [], ◌∷◌, Text, codes, includes, to_lower, if◌then◌else◌,
}
use agent_working_memory.Coordination.Schema.{
  FailureMode, agent_stale, timeout, output_invalid, test_fail, lint_fail, merge_conflict, unknown,
  Mode, known, unchecked,
}

-- The ladder of tests on the text in lower case.
unfoldable pub classify_lower : Text → FailureMode
classify_lower r =
    if includes (codes "stale") r || includes (codes "disconnected") r
    then agent_stale
    else if includes (codes "timeout") r || includes (codes "timed out") r
    then timeout
    else if includes (codes "json") r || includes (codes "schema") r || includes (codes "parse") r
    then output_invalid
    else if includes (codes "test fail") r
        || includes (codes "vitest") r
        || includes (codes "jest") r
    then test_fail
    else if includes (codes "lint") r
        || includes (codes "eslint") r
        || includes (codes "typecheck") r
    then lint_fail
    else if includes (codes "conflict") r
    then merge_conflict
    else unknown

-- An empty or missing result is of an unknown mode.
unfoldable pub classify_failure : Option Text → FailureMode
unfolding classify_lower
classify_failure none = unknown
classify_failure (some []) = unknown
classify_failure (some (c ∷ r)) = classify_lower (to_lower (c ∷ r))

pub mutation_hint : FailureMode → Text
mutation_hint agent_stale =
    codes
      "Previous worker disconnected before completion. Resume from last known state; check git status before re-running destructive commands."
mutation_hint timeout =
    codes
      "Previous attempt timed out. Break work into smaller commits; report progress every 5 minutes."
mutation_hint output_invalid =
    codes
      "Previous output failed validation. Return a single fenced code block; verify JSON parses before submitting."
mutation_hint test_fail =
    codes
      "Previous attempt left tests failing. Run vitest before completion; do NOT mark complete if any test fails."
mutation_hint lint_fail =
    codes
      "Previous attempt had lint/typecheck errors. Run pnpm typecheck and pnpm lint before completion."
mutation_hint merge_conflict =
    codes
      "Previous attempt left merge conflicts unresolved. git pull --rebase, resolve, then re-attempt."
mutation_hint unknown =
    codes
      "Previous attempt failed for an unclassified reason. Investigate the prior result before re-running."

-- `MUTATION_HINTS[mode]` in a template: a mode that is no key of the record reads "undefined".
abbrev pub hint_of : Mode → Text
hint_of (known m) = mutation_hint m
hint_of (unchecked t) = codes "undefined"
