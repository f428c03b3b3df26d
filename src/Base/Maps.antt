-- ===== src/Base/Maps.antt =====
-- The statements on a table under a view of its rows.
use mathlib.Core.Path.{◌≡◌, refl, ap}
use mathlib.Core.Bool.{Bool}
use mathlib.Core.List.{List, [], ◌∷◌, ◌++◌, map}
use native.Mathlib.Omega.{arith}
use agent_working_memory.Base.Tables.{select, any, update_where, delete_where}

module _ {ℓ κ} {A : Type ℓ} {C : Type κ} (g : A → C) where
  pub map-update_where :
      (p : A → Bool) (q : C → Bool) (f : A → A) (h : C → C)
      → ((x : A) → q (g x) ≡ p x)
      → ((x : A) → g (f x) ≡ h (g x))
      → (xs : List A) → map g (update_where p f xs) ≡ update_where q h (map g xs)
  map-update_where p q f h e k [] = refl
  map-update_where p q f h e k (x ∷ xs) = ground (arith, e x, k x, map-update_where p q f h e k xs)

  pub map-delete_where :
      (p : A → Bool) (q : C → Bool)
      → ((x : A) → q (g x) ≡ p x)
      → (xs : List A) → map g (delete_where p xs) ≡ delete_where q (map g xs)
  map-delete_where p q e [] = refl
  map-delete_where p q e (x ∷ xs) = ground (arith, e x, map-delete_where p q e xs)

  pub map-select :
      (p : A → Bool) (q : C → Bool)
      → ((x : A) → q (g x) ≡ p x)
      → (xs : List A) → map g (select p xs) ≡ select q (map g xs)
  map-select p q e [] = refl
  map-select p q e (x ∷ xs) = ground (arith, e x, map-select p q e xs)

  pub map-update_where_kept :
      (p : A → Bool) (f : A → A)
      → ((x : A) → g (f x) ≡ g x)
      → (xs : List A) → map g (update_where p f xs) ≡ map g xs
  map-update_where_kept p f k [] = refl
  map-update_where_kept p f k (x ∷ xs) = ground (arith, k x, map-update_where_kept p f k xs)

  pub any-map :
      (p : A → Bool) (q : C → Bool)
      → ((x : A) → q (g x) ≡ p x)
      → (xs : List A) → any q (map g xs) ≡ any p xs
  any-map p q e [] = refl
  any-map p q e (x ∷ xs) = ground (arith, e x, any-map p q e xs)

  pub map-append : (xs ys : List A) → map g (xs ++ ys) ≡ map g xs ++ map g ys
  map-append [] ys = refl
  map-append (x ∷ xs) ys = ap (◌∷◌ (g x)) (map-append xs ys)
