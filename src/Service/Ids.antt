-- ===== src/Service/Ids.antt =====
-- src/prooflens/service/ids.py. `str.upper` is an argument, with what the source relies on: it is
-- idempotent, leaves whitespace at the ends alone and empties no text.
use prooflens.Base.{
  strip_idem, String, ◌≡◌, refl, Option, none, some, strip, nonempty, if◌then◌else◌, Bool-cases,
  inl, inr,
}

pub record Casing : Type 0 where
  pub upper : String → String
  pub upper_idem : (s : String) → upper (upper s) ≡ upper s
  pub strip-upper : (s : String) → strip (upper s) ≡ upper (strip s)
  pub upper-nonempty : (s : String) → nonempty (upper s) ≡ nonempty s

module _ (C : Casing) where
  -- `stripped.upper() if stripped else None`
  abbrev pub upper_or_none : String → Option String
  upper_or_none stripped = if nonempty stripped then some (C.upper stripped) else none

  unfoldable pub normalize_id : Option String → Option String
  normalize_id none = none
  normalize_id (some s) = upper_or_none (strip s)

  -- A normalized id is its own normal form, so ids compare equal whether they were normalized once
  -- or more often.
  pub normalize_id_idem : (s : Option String) → normalize_id (normalize_id s) ≡ normalize_id s
  unfolding normalize_id
  normalize_id_idem none = refl
  normalize_id_idem (some s) = elim (Bool-cases (nonempty (strip s))) [
    | inl full ↦ rw (
      full,
      C.strip-upper (strip s),
      strip_idem s,
      C.upper-nonempty (strip s),
      full,
      C.upper_idem (strip s),
    )
    | inr blank ↦ rw blank
  ]
