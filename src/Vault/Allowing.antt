-- ===== src/Vault/Allowing.antt =====
-- Which commands a value may be handed to: `allow`, `disallow` and `isAllowed` of src/core/vault.ts.
use agent_working_memory.Base.{
  any-select, ℕ, ◌≡◌, refl, ap, Bool, true, false, some, List, [], ◌∷◌, ◌++◌, Text, any, select,
  text_eq, trim, Bool-cases, inl, inr, Option-cases, arith, ◌∙◌, ◌||◌, ◌&&◌, ◌⊎◌, codes, not,
  text_eq_refl, text_eq_iff, starts_with, subst, sym, starts_with_sound, find?-sound,
  find?-update_where_self,
}
use mathlib.Core.List.{append_assoc}
use agent_working_memory.Vault.{
  Row, Vault, allow_prefix, disallow_prefix, is_allowed, set_allow, has_id, has_prefix, row_of,
  normalise_id, distinct_from, has_shell_chaining, is_chaining,
}

-- What a value's item answers for a command.
answer : Text → List Text → Bool
answer cmd ps = not (has_shell_chaining cmd) && any (has_prefix (trim cmd)) ps

is_allowed-answer :
    (id cmd : Text) (v : Vault) {r : Row}
    → row_of id v ≡ some r
    → is_allowed id cmd v ≡ some (answer cmd r.allow)
unfolding is_allowed answer
is_allowed-answer id cmd v e = rw (is_allowed, e) (ground arith)

answer-true :
    (cmd : Text) (ps : List Text)
    → answer cmd ps ≡ true
    → (has_shell_chaining cmd ≡ false) × (any (has_prefix (trim cmd)) ps ≡ true)
unfolding answer
answer-true cmd ps h = ground arith

-- The item that an id names has its normalised form as id, and carries the new list after an update.
row_of-set_allow :
    (id : Text) (ps : List Text) (v : Vault) {r : Row}
    → row_of id v ≡ some r
    → row_of id (set_allow r.id ps v) ≡ some (record r { allow = ps })
row_of-set_allow id ps v {r} e =
    subst (λ t. row_of id (set_allow t ps v) ≡ some (record r { allow = ps }))
      (sym
        ((text_eq_iff r.id (normalise_id id)).0 (find?-sound (has_id (normalise_id id)) v.items e)))
      (find?-update_where_self (has_id (normalise_id id)) (λ r. record r { allow = ps }) (λ x h. h)
        v.items e)

any-text_eq :
    (q : Text → Bool) (p : Text) (seen : List Text)
    → any (λ t. text_eq t p) seen ≡ true
    → q p ≡ true
    → any q seen ≡ true
any-text_eq q p [] h k = cc
any-text_eq q p (t ∷ seen) h k = elim (Bool-cases (text_eq t p)) [
  | inl e ↦ rw ((text_eq_iff t p).0 e, k) refl
  | inr e ↦ ground (arith, any-text_eq q p seen)
]

-- Taking a prefix once only does not change what is on the list.
any-distinct_from :
    (q : Text → Bool) (seen ps : List Text)
    → (any q (distinct_from seen ps) || any q seen) ≡ (any q ps || any q seen)
any-distinct_from q seen [] = refl
any-distinct_from q seen (p ∷ ps) = elim (Bool-cases (any (λ t. text_eq t p) seen)) [
  | inl e ↦ rw e (ground (arith, any-distinct_from q (p ∷ seen) ps, any-text_eq q p seen))
  | inr e ↦ rw e (ground (arith, any-distinct_from q (p ∷ seen) ps))
]

any-append : (q : Text → Bool) (xs ys : List Text) → any q (xs ++ ys) ≡ (any q xs || any q ys)
any-append q [] ys = refl
any-append q (x ∷ xs) ys = ground (arith, any-append q xs ys)

answer-distinct_from :
    (cmd p : Text) (ps : List Text)
    → answer cmd (distinct_from [] (ps ++ p ∷ []))
      ≡ (answer cmd ps || (not (has_shell_chaining cmd) && has_prefix (trim cmd) p))
unfolding answer
answer-distinct_from cmd p ps =
    let q : Text → Bool = has_prefix (trim cmd) in
    ground (arith, any-distinct_from q [] (ps ++ p ∷ []), any-append q ps (p ∷ []))

answer-select :
    (cmd : Text) (keep : Text → Bool) (ps : List Text)
    → answer cmd (select keep ps)
      ≡ (not (has_shell_chaining cmd) && any (λ p. keep p && has_prefix (trim cmd) p) ps)
unfolding answer
answer-select cmd keep ps =
    ap (◌&&◌ (not (has_shell_chaining cmd))) (any-select (has_prefix (trim cmd)) keep ps)

-- After a prefix is allowed, a command is allowed exactly if it was before, or if it chains nothing and is the trimmed
-- prefix or starts with it and a space.
pub is_allowed-allow_prefix :
    (id prefix cmd : Text) (v : Vault) {w : Vault}
    → allow_prefix id prefix v ≡ some w
    → (b : Bool) × (is_allowed id cmd v ≡ some b)
      × (is_allowed id cmd w
          ≡ some (b || (not (has_shell_chaining cmd) && has_prefix (trim cmd) (trim prefix))))
unfolding allow_prefix
is_allowed-allow_prefix id prefix cmd v {w} e = elim (Option-cases (row_of id v)) [
  | inl n ↦ absurd (ground arith)
  | inr (r, f) ↦
      let ps : List Text = distinct_from [] (r.allow ++ trim prefix ∷ []) in
      let g : set_allow r.id ps v ≡ w = ground arith in
      (
        answer cmd r.allow,
        is_allowed-answer id cmd v f,
        rw (← g) (
            is_allowed-answer id cmd (set_allow r.id ps v) (row_of-set_allow id ps v f)
            ∙ ap some (answer-distinct_from cmd (trim prefix) r.allow)),
      )
]

-- After a prefix is withdrawn, a command is allowed exactly if it chains nothing and another prefix on the item's list
-- allows it.
pub is_allowed-disallow_prefix :
    (id prefix cmd : Text) (v : Vault) {w : Vault}
    → disallow_prefix id prefix v ≡ some w
    → (r : Row) × (row_of id v ≡ some r)
      × (is_allowed id cmd w
          ≡ some (
              not (has_shell_chaining cmd)
              && any (λ p. not (text_eq p (trim prefix)) && has_prefix (trim cmd) p) r.allow))
unfolding disallow_prefix
is_allowed-disallow_prefix id prefix cmd v {w} e = elim (Option-cases (row_of id v)) [
  | inl n ↦ absurd (ground arith)
  | inr (r, f) ↦
      let ps : List Text = select (λ p. not (text_eq p (trim prefix))) r.allow in
      let g : set_allow r.id ps v ≡ w = ground arith in
      (
        r,
        f,
        rw (← g) (
            is_allowed-answer id cmd (set_allow r.id ps v) (row_of-set_allow id ps v f)
            ∙ ap some (answer-select cmd (λ p. not (text_eq p (trim prefix))) r.allow)),
      )
]

-- No character of a text without shell chaining ends a command, and no `$` in it stands before `(`.
has_shell_chaining-false :
    (u s : Text) (c : ℕ)
    → has_shell_chaining (u ++ c ∷ s) ≡ false
    → (is_chaining c ≡ false) × (starts_with (codes "$(") (c ∷ s) ≡ false)
unfolding has_shell_chaining
has_shell_chaining-false [] s c h = ground arith
has_shell_chaining-false (x ∷ u) s c h = has_shell_chaining-false u s c (ground arith)

any-found :
    (q : Text → Bool) (ps : List Text)
    → any q ps ≡ true
    → (p : Text) × (any (text_eq p) ps ≡ true) × (q p ≡ true)
any-found q [] h = cc
any-found q (p ∷ ps) h = elim (Bool-cases (q p)) [
  | inl t ↦ (p, rw (text_eq_refl p) refl, t)
  | inr f ↦ let (p', m, t) = any-found q ps (ground arith) in (p', ground arith, t)
]

has_prefix_sound :
    (c p : Text) → has_prefix c p ≡ true → (c ≡ p) ⊎ ((s : Text) × (c ≡ p ++ b' ' ∷ s))
has_prefix_sound c p h = elim (Bool-cases (text_eq c p)) [
  | inl t ↦ inl ((text_eq_iff c p).0 t)
  | inr f ↦
      let (s, e) = starts_with_sound (p ++ b' ' ∷ []) c (ground arith) in
      inr (s, e ∙ append_assoc p (b' ' ∷ []) s)
]

-- A command that is allowed is, once trimmed, a prefix on the list of the item that the id names, or that prefix, a
-- space and more; and wherever the command is cut, what follows does not start with `;`, `&`, `|`, a backtick,
-- `<`, `>`, a line end or `$(`.
pub is_allowed_sound :
    (id cmd u s : Text) (c : ℕ) (v : Vault)
    → is_allowed id cmd v ≡ some true
    → cmd ≡ u ++ c ∷ s
    → ((r : Row) × (p : Text) × (row_of id v ≡ some r)
        × (any (text_eq p) r.allow ≡ true)
        × ((trim cmd ≡ p) ⊎ ((t : Text) × (trim cmd ≡ p ++ b' ' ∷ t))))
      × (is_chaining c ≡ false)
      × (starts_with (codes "$(") (c ∷ s) ≡ false)
is_allowed_sound id cmd u s c v e q = elim (Option-cases (row_of id v)) [
  | inl n ↦ absurd (unfold is_allowed in ground arith)
  | inr (r, f) ↦
      let (free, listed) = answer-true cmd r.allow (ground (arith, is_allowed-answer id cmd v f)) in
      let (p, m, t) = any-found (has_prefix (trim cmd)) r.allow listed in
      let (k, d) = has_shell_chaining-false u s c (ap has_shell_chaining (sym q) ∙ free) in
      ((r, p, f, m, has_prefix_sound (trim cmd) p t), k, d)
]
