-- ===== src/Base/Assoc.antt =====
-- Python's dict, in insertion order, as an association list: an update of a known key keeps its
-- place, a new key goes to the end.
use mathlib.Core.Path.{◌≡◌, refl, ap, ◌∙◌}
use mathlib.Core.Logic.{◌↔◌, ◌≢◌, inl, inr}
use mathlib.Core.Bool.{Bool, true, false, ◌&&◌}
use mathlib.Core.List.{List, [], ◌∷◌}
use mathlib.Core.Option.{Option, none, some}
use Prim.Native.Nat.{ℕ}
use Prim.Native.String.{String}
use native.Mathlib.Omega.{arith}
use text.Mathlib.TextEquality.{eq_iff}
use prooflens.Base.Lists.{filter}
use prooflens.Base.Tests.{str_eq, ◌==◌, ==_iff, if◌then◌else◌, Bool-cases}

-- Keys are compared by `__eq__`.
pub record Eq {ℓ} (K : Type ℓ) : Type ℓ where
  pub beq : K → K → Bool
  pub beq_iff : (a b : K) → (beq a b ≡ true) ↔ (a ≡ b)

instance abbrev pub string_eq : Eq String
string_eq = record { beq = str_eq; beq_iff = eq_iff }

instance abbrev pub nat_eq : Eq ℕ
nat_eq = record { beq = λ a b. a == b; beq_iff = ==_iff }

-- Keys that are pairs of texts
abbrev pub pair_beq : String × String → String × String → Bool
pair_beq a b = str_eq a.0 b.0 && str_eq a.1 b.1

pub pair_beq_iff : (a b : String × String) → (pair_beq a b ≡ true) ↔ (a ≡ b)
pair_beq_iff (a, c) (b, d) = (
  λ h. pair_eq ((eq_iff a b).0 (ground arith)) ((eq_iff c d).0 (ground arith)),
  λ h.
      let p = (eq_iff a b).1 (ap (λ x. x.0) h) in
      let q = (eq_iff c d).1 (ap (λ x. x.1) h) in ground (arith, p, q),
)
  where
    pair_eq : {a b c d : String} → a ≡ b → c ≡ d → ◌≡◌ {A = String × String} (a, c) (b, d)
    pair_eq p q = cc

instance abbrev pub pair_eq : Eq (String × String)
pair_eq = record { beq = pair_beq; beq_iff = pair_beq_iff }

abbrev pub Dict {ℓ κ} : Type ℓ → Type κ → Type (ℓ ⊔ κ)
Dict K V = List (K × V)

pub beq_refl {ℓ} : {K : Type ℓ} ⦃e : Eq K⦄ (k : K) → e.beq k k ≡ true
beq_refl ⦃e⦄ k = (e.beq_iff k k).1 refl

module _ {ℓ κ} {K : Type ℓ} {V : Type κ} ⦃e : Eq K⦄ where
  -- `d.get(k)`
  abbrev pub lookup : K → Dict K V → Option V
  lookup k [] = none
  lookup k ((j, v) ∷ d) = if e.beq j k then some v else lookup k d

  -- `d[k] = v`
  abbrev pub insert : K → V → Dict K V → Dict K V
  insert k v [] = (k, v) ∷ []
  insert k v ((j, w) ∷ d) = if e.beq j k then (j, v) ∷ d else (j, w) ∷ insert k v d

  -- `del d[k]`
  abbrev pub erase : K → Dict K V → Dict K V
  erase k [] = []
  erase k ((j, w) ∷ d) = if e.beq j k then d else (j, w) ∷ erase k d

  pub lookup-insert :
      (k j : K) (v : V) (d : Dict K V)
      → lookup j (insert k v d) ≡ (if e.beq k j then some v else lookup j d)
  lookup-insert k j v [] = refl
  lookup-insert k j v ((i, w) ∷ d) =
      ground (arith, e.beq_iff k j, e.beq_iff i k, e.beq_iff i j, lookup-insert k j v d)

  pub lookup-insert_self : (k : K) (v : V) (d : Dict K V) → lookup k (insert k v d) ≡ some v
  lookup-insert_self k v d = simp (lookup-insert, beq_refl)

  pub lookup-insert_ne :
      (k j : K) (v : V) (d : Dict K V) → k ≢ j → lookup j (insert k v d) ≡ lookup j d
  lookup-insert_ne k j v d h = rw lookup-insert (ground (arith, e.beq_iff k j))

  pub lookup-erase_ne : (k j : K) (d : Dict K V) → k ≢ j → lookup j (erase k d) ≡ lookup j d
  lookup-erase_ne k j [] h = refl
  lookup-erase_ne k j ((i, w) ∷ d) h =
      ground (arith, e.beq_iff i k, e.beq_iff i j, lookup-erase_ne k j d h)

  -- A found entry that a filter keeps is found after it.
  pub lookup-kept :
      (p : K × V → Bool) (k : K) (v : V) (d : Dict K V)
      → lookup k d ≡ some v
      → p (k, v) ≡ true
      → lookup k (filter p d) ≡ some v
  lookup-kept p k v [] h q = cc
  lookup-kept p k v ((j, w) ∷ d) h q = elim (Bool-cases (e.beq j k)) [
    | inl same ↦
        let here : w ≡ v = first same h in
        let jk = (e.beq_iff j k).0 same in rw (ap p (pair_path jk here) ∙ q, same) (ap some here)
    | inr other ↦
        let later = lookup-kept p k v d (rest other h) q in
        elim (Bool-cases (p (j, w))) [ inl t ↦ rw (t, other) later | inr f ↦ rw f later ]
  ]
    where
      first : e.beq j k ≡ true → lookup k ((j, w) ∷ d) ≡ some v → w ≡ v
      first same found = ground arith

      rest : e.beq j k ≡ false → lookup k ((j, w) ∷ d) ≡ some v → lookup k d ≡ some v
      rest other found = ground arith

      pair_path : j ≡ k → w ≡ v → ◌≡◌ {A = K × V} (j, w) (k, v)
      pair_path a b = cc
