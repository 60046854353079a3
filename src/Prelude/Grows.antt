-- ===== src/Prelude/Grows.antt =====
-- A list beside an earlier one, of which each element has moved along a relation, and which may be
-- longer: a table of which no row was deleted.
use safe.Prelude.Tests.{if◌then◌else◌, Bool-cases}
use safe.Prelude.Lists.{update, any, find}
use mathlib.Core.Path.{◌≡◌, refl}
use mathlib.Core.Option.{some}
use mathlib.Core.Logic.{inl, inr}
use mathlib.Core.Bool.{Bool, true, false}
use mathlib.Core.List.{List, [], ◌∷◌, ◌++◌}
use native.Mathlib.Omega.{arith}

module _ {A : Type 0} where
  abbrev pub Grows : (A → A → Type 0) → List A → List A → Type 0
  Grows R [] ys = Unit
  Grows R (x ∷ xs) [] = ⊥
  Grows R (x ∷ xs) (y ∷ ys) = R x y × Grows R xs ys

  pub Grows-refl : (R : A → A → Type 0) (xs : List A) → ((x : A) → R x x) → Grows R xs xs
  Grows-refl R [] r = tt
  Grows-refl R (x ∷ xs) r = (r x, Grows-refl R xs r)

  pub Grows-append :
      (R : A → A → Type 0) (xs ys zs : List A) → Grows R xs ys → Grows R xs (ys ++ zs)
  Grows-append R [] ys zs h = tt
  Grows-append R (x ∷ xs) [] zs h = absurd h
  Grows-append R (x ∷ xs) (y ∷ ys) zs h = (h.0, Grows-append R xs ys zs h.1)

  update_row :
      (R : A → A → Type 0) (p : A → Bool) (f : A → A) (x y : A)
      → ((x y : A) → R x y → p y ≡ true → R x (f y))
      → R x y
      → R x (if p y then f y else y)
  update_row R p f x y k h = elim (Bool-cases (p y)) [ inl e ↦ rw e (k x y h e) | inr e ↦ rw e h ]

  pub Grows-update :
      (R : A → A → Type 0) (p : A → Bool) (f : A → A) (xs ys : List A)
      → ((x y : A) → R x y → p y ≡ true → R x (f y))
      → Grows R xs ys
      → Grows R xs (update p f ys)
  Grows-update R p f [] ys k h = tt
  Grows-update R p f (x ∷ xs) [] k h = absurd h
  Grows-update R p f (x ∷ xs) (y ∷ ys) k h =
      (update_row R p f x y k h.0, Grows-update R p f xs ys k h.1)

  -- What some row passes and the relation keeps, some row of the grown list passes.
  pub Grows-any :
      (R : A → A → Type 0) (p : A → Bool) (xs ys : List A)
      → ((x y : A) → R x y → p x ≡ true → p y ≡ true)
      → Grows R xs ys
      → any p xs ≡ true
      → any p ys ≡ true
  Grows-any R p [] ys k h e = absurd_false e
    where
      absurd_false : false ≡ true → any p ys ≡ true
      absurd_false e = cc
  Grows-any R p (x ∷ xs) [] k h e = absurd h
  Grows-any R p (x ∷ xs) (y ∷ ys) k h e = ground (arith, k x y h.0, Grows-any R p xs ys k h.1)

  -- The first row that passes stays the first.
  pub Grows-find :
      (R : A → A → Type 0) (p : A → Bool) (xs ys : List A) (x : A)
      → ((x y : A) → R x y → p x ≡ p y)
      → Grows R xs ys
      → find p xs ≡ some x
      → (y : A) × (find p ys ≡ some y) × R x y
  Grows-find R p [] ys x k h e = cc
  Grows-find R p (z ∷ xs) [] x k h e = absurd h
  Grows-find R p (z ∷ xs) (w ∷ ys) x k h e = elim (Bool-cases (p z)) [
    | inl c ↦
        let same : z ≡ x = ground (arith, e, c) in (w, rw (← k z w h.0, c) refl, rw (← same) h.0)
    | inr c ↦
        let (y, f, r) = Grows-find R p xs ys x k h.1 (ground (arith, e, c)) in
        (y, rw (← k z w h.0, c) f, r)
  ]
