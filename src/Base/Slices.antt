-- ===== src/Base/Slices.antt =====
-- How map, filter, reverse, take and drop commute.
use Prim.Native.Nat.{ℕ, zero, suc, min}
use mathlib.Core.Path.{subst, ◌≡◌, refl, sym, ap, ◌∙◌}
use mathlib.Core.Bool.{Bool}
use mathlib.Core.List.{List, [], ◌∷◌, ◌++◌, map, reverse, reverse-cons, reverse-append, map-append}
use mathlib.Core.Logic.{inl, inr}
use prooflens.Base.Tests.{Bool-cases}
use prooflens.Base.Lists.{length, filter, take, drop, All, length-append, In, In-append_cases}
use native.Mathlib.Omega.{arith}

module _ {A B : Type 0} (f : A → B) where
  pub map-take : (n : ℕ) (xs : List A) → map f (take n xs) ≡ take n (map f xs)
  map-take zero xs = refl
  map-take (suc n) [] = refl
  map-take (suc n) (x ∷ xs) = ap (λ l. f x ∷ l) (map-take n xs)

  pub map-drop : (n : ℕ) (xs : List A) → map f (drop n xs) ≡ drop n (map f xs)
  map-drop zero xs = refl
  map-drop (suc n) [] = refl
  map-drop (suc n) (x ∷ xs) = map-drop n xs

  pub map-reverse : (xs : List A) → map f (reverse xs) ≡ reverse (map f xs)
  map-reverse [] = refl
  map-reverse (x ∷ xs) =
      ap (map f) (reverse-cons x xs)
      ∙ map-append f (reverse xs) (x ∷ [])
      ∙ ap (λ l. l ++ f x ∷ []) (map-reverse xs)
      ∙ sym (reverse-cons (f x) (map f xs))

  -- A filter of the images is a filter of the elements, where the two tests agree.
  pub filter-map :
      (p : B → Bool) (q : A → Bool) (xs : List A)
      → All (λ x. p (f x) ≡ q x) xs
      → filter p (map f xs) ≡ map f (filter q xs)
  filter-map p q [] h = refl
  filter-map p q (x ∷ xs) h = elim (Bool-cases (q x)) [
    | inl holds ↦ rw (h.0, holds, filter-map p q xs h.1)
    | inr fails ↦ rw (h.0, fails, filter-map p q xs h.1)
  ]

module _ {A : Type 0} (p : A → Bool) where
  pub filter-append : (xs ys : List A) → filter p (xs ++ ys) ≡ filter p xs ++ filter p ys
  filter-append [] ys = refl
  filter-append (x ∷ xs) ys = elim (Bool-cases (p x)) [
    | inl holds ↦ rw (holds, filter-append xs ys)
    | inr fails ↦ rw (fails, filter-append xs ys)
  ]

  reverse-one : (x : A) → reverse (filter p (x ∷ [])) ≡ filter p (x ∷ [])
  reverse-one x = elim (Bool-cases (p x)) [ inl holds ↦ rw holds | inr fails ↦ rw fails ]

  pub filter-reverse : (xs : List A) → filter p (reverse xs) ≡ reverse (filter p xs)
  filter-reverse [] = refl
  filter-reverse (x ∷ xs) =
      ap (filter p) (reverse-cons x xs)
      ∙ filter-append (reverse xs) (x ∷ [])
      ∙ ap (λ l. l ++ filter p (x ∷ [])) (filter-reverse xs)
      ∙ ap (λ l. reverse (filter p xs) ++ l) (sym (reverse-one x))
      ∙ sym (reverse-append (filter p (x ∷ [])) (filter p xs))
      ∙ ap reverse (sym (filter-append (x ∷ []) xs))

  pub All-filter {κ} : (P : A → Type κ) (xs : List A) → All P xs → All P (filter p xs)
  All-filter P [] h = tt
  All-filter P (x ∷ xs) h = elim (Bool-cases (p x)) [
    | inl holds ↦ rw holds (h.0, All-filter P xs h.1)
    | inr fails ↦ rw fails (All-filter P xs h.1)
  ]

module _ {A : Type 0} where
  pub length-take : (n : ℕ) (xs : List A) → length (take n xs) ≡ min n (length xs)
  length-take zero xs = omega arith
  length-take (suc n) [] = omega arith
  length-take (suc n) (x ∷ xs) = omega (arith, length-take n xs)

  pub length-reverse : (xs : List A) → length (reverse xs) ≡ length xs
  length-reverse [] = refl
  length-reverse (x ∷ xs) =
      ap length (reverse-cons x xs)
      ∙ omega (arith, length-append (reverse xs) (x ∷ []), length-reverse xs)

pub In-reverse : {A : Type 0} (a : A) (xs : List A) → In a (reverse xs) → In a xs
In-reverse a [] h = h
In-reverse a (x ∷ xs) h =
    elim (In-append_cases a (reverse xs) (x ∷ []) (subst (In a) (reverse-cons x xs) h)) [
      | inl m ↦ inr (In-reverse a xs m)
      | inr (inl e) ↦ inl e
      | inr (inr nothing) ↦ absurd nothing
    ]
