-- ===== src/Base/Distinct.antt =====
-- Lists whose entries differ in a key.
use mathlib.Core.Path.{◌≡◌, refl, sym, subst, ap, ◌∙◌}
use mathlib.Core.Logic.{inl, inr, ◌≢◌}
use mathlib.Core.List.{List, [], ◌∷◌, ◌++◌, map}
use prooflens.Base.Lists.{In, All, All-In, All-In_intro, In-append_cases, In-map, In-filter, filter}
use prooflens.Base.Tests.{Bool-cases}
use mathlib.Core.Bool.{Bool}

module _ {A K : Type 0} (key : A → K) where
  abbrev pub IsDistinctOn : List A → Type 0
  IsDistinctOn [] = Unit
  IsDistinctOn (x ∷ xs) = All (λ y. key x ≢ key y) xs × IsDistinctOn xs

  pub IsDistinctOn-eq :
      (a b : A) (xs : List A) → IsDistinctOn xs → In a xs → In b xs → key a ≡ key b → a ≡ b
  IsDistinctOn-eq a b [] d i k e = absurd i
  IsDistinctOn-eq a b (x ∷ xs) d (inl p) (inl q) e = p ∙ sym q
  IsDistinctOn-eq a b (x ∷ xs) d (inl p) (inr k) e =
      absurd (All-In (λ y. key x ≢ key y) b xs d.0 k (ap key (sym p) ∙ e))
  IsDistinctOn-eq a b (x ∷ xs) d (inr i) (inl q) e =
      absurd (All-In (λ y. key x ≢ key y) a xs d.0 i (ap key (sym q) ∙ sym e))
  IsDistinctOn-eq a b (x ∷ xs) d (inr i) (inr k) e = IsDistinctOn-eq a b xs d.1 i k e

  pub IsDistinctOn-map :
      (f : A → A) (xs : List A)
      → ((a : A) → key (f a) ≡ key a)
      → IsDistinctOn xs
      → IsDistinctOn (map f xs)
  IsDistinctOn-map f [] h d = tt
  IsDistinctOn-map f (x ∷ xs) h d = (
    All-In_intro (λ y. key (f x) ≢ key y) (map f xs)
        (λ y i.
          let (b, k, e) = In-map f y xs i in
          λ same. All-In (λ y. key x ≢ key y) b xs d.0 k (sym (h x) ∙ same ∙ ap key e ∙ h b)),
    IsDistinctOn-map f xs h d.1,
  )

  pub IsDistinctOn-append :
      (x : A) (xs : List A)
      → IsDistinctOn xs
      → ((a : A) → In a xs → key a ≢ key x)
      → IsDistinctOn (xs ++ x ∷ [])
  IsDistinctOn-append x [] d h = (tt, tt)
  IsDistinctOn-append x (y ∷ ys) d h = (
    All-In_intro (λ z. key y ≢ key z) (ys ++ x ∷ [])
        (λ z i. elim (In-append_cases z ys (x ∷ []) i) [
          | inl k ↦ All-In (λ z. key y ≢ key z) z ys d.0 k
          | inr (inl e) ↦ subst (λ w. key y ≢ key w) (sym e) (h y (inl refl))
          | inr (inr none_left) ↦ absurd none_left
        ]),
    IsDistinctOn-append x ys d.1 (λ a i. h a (inr i)),
  )

  pub IsDistinctOn-filter :
      (p : A → Bool) (xs : List A) → IsDistinctOn xs → IsDistinctOn (filter p xs)
  IsDistinctOn-filter p [] d = tt
  IsDistinctOn-filter p (x ∷ xs) d = elim (Bool-cases (p x)) [
    | inl kept ↦ rw kept (
      All-In_intro (λ y. key x ≢ key y) (filter p xs)
          (λ y i. All-In (λ y. key x ≢ key y) y xs d.0 (In-filter p y xs i).0),
      IsDistinctOn-filter p xs d.1,
    )
    | inr dropped ↦ rw dropped (IsDistinctOn-filter p xs d.1)
  ]
