-- ===== src/Engine/Verdicts/Severity.antt =====
-- `most_severe` of src/prooflens/engine/verdicts.py picks the fired reason that stands first in
-- REASON_PRIORITY.
use prooflens.Base.{
  ℕ, suc, ◌≤◌, ◌≡◌, refl, ap, sym, ◌∙◌, ◌≢◌, inl, inr, true, List, [], ◌∷◌, none, some, arith, ◌==◌,
  ==_iff, find-eq-some, find-eq-none, In, Option-cases, if◌then◌else◌,
}
use prooflens.Engine.Verdicts.{
  Reason, clear, recycled, screen_recapture, designed_graphic, no_people_or_irrelevant, not_a_visit,
  single_person, no_visit_context, too_blurred, no_content_analysis, ordinal, same_reason,
  reason_priority, has_reason, first_fired, most_severe,
}

-- The place of a reason in a priority list; the list's length where it is missing.
abbrev pub place : Reason → List Reason → ℕ
place r [] = 0
place r (p ∷ ps) = if same_reason p r then 0 else suc (place r ps)

-- 0 is the most severe.
abbrev pub severity : Reason → ℕ
severity r = place r reason_priority

abbrev of_ordinal : ℕ → Reason
of_ordinal n =
    if n == 1
    then recycled
    else if n == 2
    then screen_recapture
    else if n == 3
    then designed_graphic
    else if n == 4
    then no_people_or_irrelevant
    else if n == 5
    then not_a_visit
    else if n == 6
    then single_person
    else if n == 7
    then no_visit_context
    else if n == 8
    then too_blurred
    else if n == 9
    then no_content_analysis
    else clear

of_ordinal-ordinal : (r : Reason) → of_ordinal (ordinal r) ≡ r
of_ordinal-ordinal clear = refl
of_ordinal-ordinal recycled = refl
of_ordinal-ordinal screen_recapture = refl
of_ordinal-ordinal designed_graphic = refl
of_ordinal-ordinal no_people_or_irrelevant = refl
of_ordinal-ordinal not_a_visit = refl
of_ordinal-ordinal single_person = refl
of_ordinal-ordinal no_visit_context = refl
of_ordinal-ordinal too_blurred = refl
of_ordinal-ordinal no_content_analysis = refl

pub same_reason→eq : (a b : Reason) → same_reason a b ≡ true → a ≡ b
unfolding same_reason
same_reason→eq a b h =
    sym (of_ordinal-ordinal a) ∙ ap of_ordinal ((==_iff _ _).0 h) ∙ of_ordinal-ordinal b

pub same_reason_refl : (a : Reason) → same_reason a a ≡ true
unfolding same_reason
same_reason_refl a = (==_iff _ _).1 refl

pub has_reason→In : (r : Reason) (fired : List Reason) → has_reason r fired ≡ true → In r fired
unfolding has_reason
has_reason→In r [] h = cc
has_reason→In r (x ∷ fired) h = ground (arith, same_reason→eq r x, has_reason→In r fired)

pub In→has_reason : (r : Reason) (fired : List Reason) → In r fired → has_reason r fired ≡ true
unfolding has_reason
In→has_reason r [] h = absurd h
In→has_reason r (x ∷ fired) (inl e) = rw (← e) (rw same_reason_refl)
In→has_reason r (x ∷ fired) (inr h) = rw (In→has_reason r fired h) (ground arith)

-- What the loop returns has fired, and nothing that has fired stands before it.
first_fired-fired :
    (ps fired : List Reason) (s : Reason)
    → first_fired ps fired ≡ some s
    → has_reason s fired ≡ true
unfolding first_fired
first_fired-fired ps fired s h = (find-eq-some (λ r. has_reason r fired) ps s h).1

first_fired-place :
    (ps fired : List Reason) (s r : Reason)
    → first_fired ps fired ≡ some s
    → has_reason r fired ≡ true
    → place s ps ≤ place r ps
unfolding first_fired
first_fired-place [] fired s r h m = omega arith
first_fired-place (p ∷ ps) fired s r h m =
    ground (arith, same_reason_refl p, same_reason→eq p r, first_fired-place ps fired s r)

-- Every reason has a place in REASON_PRIORITY.
In-reason_priority : (r : Reason) → In r reason_priority
In-reason_priority r = ground (arith, of_ordinal-ordinal r)

first_fired-ne-none :
    (fired : List Reason) (r : Reason)
    → has_reason r fired ≡ true
    → first_fired reason_priority fired ≢ none
unfolding first_fired
first_fired-ne-none fired r m e =
    cc (m, find-eq-none (λ q. has_reason q fired) reason_priority r e (In-reason_priority r))

-- Whenever a reason fired, `most_severe` is one that fired, and no fired reason is more severe.
pub most_severe_first :
    (fired : List Reason) (r : Reason)
    → In r fired
    → In (most_severe fired) fired × (severity (most_severe fired) ≤ severity r)
unfolding most_severe
most_severe_first fired r m = elim (Option-cases (first_fired reason_priority fired)) [
  | inl e ↦ absurd (first_fired-ne-none fired r (In→has_reason r fired m) e)
  | inr (s, e) ↦ rw e (
    has_reason→In s fired (first_fired-fired reason_priority fired s e),
    first_fired-place reason_priority fired s r e (In→has_reason r fired m),
  )
]

-- Where nothing fired the verdict is clear.
pub most_severe-nil : most_severe [] ≡ clear
unfolding most_severe
most_severe-nil = refl
