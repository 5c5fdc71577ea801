-- ===== src/Base/Strip.antt =====
-- Laws of `strip`: it is idempotent, and a mapping of the characters that respects whitespace goes
-- through it.
use Prim.Native.Char.{Char}
use Prim.Native.String.{String}
use mathlib.Core.Path.{◌≡◌, refl, ap, ◌∙◌}
use mathlib.Core.Logic.{inl, inr}
use mathlib.Core.Bool.{Bool, true, false, not}
use prooflens.Base.Tests.{Bool-cases}
use prooflens.Base.Text.{is_space, lstrip, rstrip, rstrip_cons, strip}

-- No whitespace at the front
abbrev lead : String → Bool
lead String.[] = true
lead (String.◌∷◌ c s) = not (is_space c)

not-true : (b : Bool) → not b ≡ true → b ≡ false
not-true true h = cc
not-true false h = refl

lead-lstrip : (s : String) → lead (lstrip s) ≡ true
unfolding lstrip
lead-lstrip String.[] = refl
lead-lstrip (String.◌∷◌ c s) = elim (Bool-cases (is_space c)) [
  | inl e ↦ rw (e, lead-lstrip s)
  | inr e ↦ rw (e, e)
]

lstrip_fixed : (s : String) → lead s ≡ true → lstrip s ≡ s
unfolding lstrip
lstrip_fixed String.[] h = refl
lstrip_fixed (String.◌∷◌ c s) h = rw (not-true (is_space c) h)

lead-rstrip_cons : (c : Char) (s : String) → is_space c ≡ false → lead (rstrip_cons c s) ≡ true
lead-rstrip_cons c String.[] h = rw (h, h)
lead-rstrip_cons c (String.◌∷◌ d s) h = rw h

lead-rstrip : (s : String) → lead s ≡ true → lead (rstrip s) ≡ true
unfolding rstrip
lead-rstrip String.[] h = refl
lead-rstrip (String.◌∷◌ c s) h = lead-rstrip_cons c (rstrip s) (not-true (is_space c) h)

rstrip-rstrip_cons :
    (c : Char) (s : String) → rstrip s ≡ s → rstrip (rstrip_cons c s) ≡ rstrip_cons c s
unfolding rstrip
rstrip-rstrip_cons c String.[] h = elim (Bool-cases (is_space c)) [
  | inl e ↦ rw e
  | inr e ↦ rw (e, e)
]
rstrip-rstrip_cons c (String.◌∷◌ d s) h = ap (rstrip_cons c) h

rstrip_idem : (s : String) → rstrip (rstrip s) ≡ rstrip s
unfolding rstrip
rstrip_idem String.[] = refl
rstrip_idem (String.◌∷◌ c s) = rstrip-rstrip_cons c (rstrip s) (rstrip_idem s)

pub strip_idem : (s : String) → strip (strip s) ≡ strip s
unfolding strip
strip_idem s =
    ap rstrip (lstrip_fixed (rstrip (lstrip s)) (lead-rstrip (lstrip s) (lead-lstrip s)))
    ∙ rstrip_idem (lstrip s)

abbrev pub map_text : (Char → Char) → String → String
map_text f String.[] = ""
map_text f (String.◌∷◌ c s) = String.◌∷◌ (f c) (map_text f s)

module _ (f : Char → Char) (respects : (c : Char) → is_space (f c) ≡ is_space c) where
  lstrip-map : (s : String) → lstrip (map_text f s) ≡ map_text f (lstrip s)
  unfolding lstrip
  lstrip-map String.[] = refl
  lstrip-map (String.◌∷◌ c s) = elim (Bool-cases (is_space c)) [
    | inl e ↦ rw (respects c, e) (lstrip-map s)
    | inr e ↦ rw (respects c, e)
  ]

  rstrip_cons-map :
      (c : Char) (s : String) → rstrip_cons (f c) (map_text f s) ≡ map_text f (rstrip_cons c s)
  rstrip_cons-map c String.[] = elim (Bool-cases (is_space c)) [
    | inl e ↦ rw (respects c, e)
    | inr e ↦ rw (respects c, e)
  ]
  rstrip_cons-map c (String.◌∷◌ d s) = refl

  rstrip-map : (s : String) → rstrip (map_text f s) ≡ map_text f (rstrip s)
  unfolding rstrip
  rstrip-map String.[] = refl
  rstrip-map (String.◌∷◌ c s) = ap (rstrip_cons (f c)) (rstrip-map s) ∙ rstrip_cons-map c (rstrip s)

  pub strip-map : (s : String) → strip (map_text f s) ≡ map_text f (strip s)
  unfolding strip
  strip-map s = ap rstrip (lstrip-map s) ∙ rstrip-map (lstrip s)
