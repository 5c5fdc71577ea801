-- ===== src/Engine/Checks/Named.antt =====
-- Each check of src/prooflens/engine/checks reports under its own name, and what a check found is
-- what its details say.
use prooflens.Base.{◌≤◌, pos, ◌≡◌, refl, ap, String, Bool, true, Option, none, some, arith, leb_ℤ}
use prooflens.Engine.Number.{Float}
use prooflens.Engine.Config.{Thresholds}
use prooflens.Engine.Types.{HashMatch}
use prooflens.Engine.Imaging.{Imaging}
use prooflens.Engine.Checks.{
  judge_match, judge_hash, blur_run, exif_run, recapture_run, compute_dhash, uniqueness_run,
}
use prooflens.Engine.Checks.Relevance.{ask_twice, content_outcome, relevance_run}
use prooflens.Vision.Schema.{ContentAssessment, Attempt, returned, raised, VisionBackend}

module _ (F : Float) where
  open F use {Carrier}

  judge_match-name :
      (h : String) (o : Option HashMatch) (th : Thresholds Carrier)
      → (judge_match F h o th).name ≡ "uniqueness"
  unfolding judge_match
  judge_match-name h none th = refl
  judge_match-name h (some m) th = refl

  judge_hash-name :
      (o : Option String) (nearest : String → Option HashMatch) (th : Thresholds Carrier)
      → (judge_hash F o nearest th).name ≡ "uniqueness"
  unfolding judge_hash
  judge_hash-name none nearest th = refl
  judge_hash-name (some h) nearest th = judge_match-name h (nearest h) th

  module _ (I : Imaging Carrier) where
    pub exif_run-name : (image : I.Bytes) → (exif_run F I image).name ≡ "exif"
    unfolding exif_run
    exif_run-name image = ground arith

    pub blur_run-name :
        (gray : Option I.Gray) (th : Thresholds Carrier) → (blur_run F I gray th).name ≡ "sharpness"
    unfolding blur_run
    blur_run-name gray th = ground arith

    pub recapture_run-name : (gray : Option I.Gray) → (recapture_run F I gray).name ≡ "recapture"
    unfolding recapture_run
    recapture_run-name gray = ground arith

    pub uniqueness_run-name :
        (image : I.Bytes) (nearest : String → Option HashMatch) (th : Thresholds Carrier)
        → (uniqueness_run F I image nearest th).name ≡ "uniqueness"
    unfolding uniqueness_run
    uniqueness_run-name image nearest th =
        ground (arith, judge_hash-name (compute_dhash F I image) nearest th)

    hashed_available :
        (image : I.Bytes) (h : String)
        → compute_dhash F I image ≡ some h
        → I.imagehash_available ≡ true
    unfolding compute_dhash
    hashed_available image h e = ground arith

    -- An image with a hash is judged by what the store finds for it.
    pub uniqueness_run-hashed :
        (image : I.Bytes) (nearest : String → Option HashMatch) (th : Thresholds Carrier)
        (h : String)
        → compute_dhash F I image ≡ some h
        → uniqueness_run F I image nearest th ≡ judge_match F h (nearest h) th
    unfolding uniqueness_run judge_hash
    uniqueness_run-hashed image nearest th h e = rw e (rw (hashed_available image h e))

  -- The details name the hash, and flag an exact duplicate at a distance up to the threshold.
  pub judge_match-dhash :
      (h : String) (o : Option HashMatch) (th : Thresholds Carrier)
      → (judge_match F h o th).details.dhash ≡ some h
  unfolding judge_match
  judge_match-dhash h none th = refl
  judge_match-dhash h (some m) th = refl

  pub judge_match-exact :
      (h : String) (m : HashMatch) (th : Thresholds Carrier)
      → leb_ℤ (pos m.match_distance) th.dup_exact ≡ true
      → ((judge_match F h (some m) th).details.exact_duplicate ≡ some true)
        × ((judge_match F h (some m) th).available ≡ true)
  unfolding judge_match
  judge_match-exact h m th close = (ap some close, refl)

  -- The content check reports under its name, whatever the backend answers, after one call or two.
  content_outcome-name :
      (a : Attempt ContentAssessment) (real : Bool) → (content_outcome F a real).name ≡ "content"
  unfolding content_outcome
  content_outcome-name (returned a) real = refl
  content_outcome-name (raised e) real = refl

  pub relevance_run-name :
      {Bytes : Type 0} (vision : VisionBackend Bytes) (image : Bytes)
      → ((relevance_run F vision image).0.name ≡ "content")
        × (1 ≤ (relevance_run F vision image).1)
        × ((relevance_run F vision image).1 ≤ 2)
  unfolding relevance_run ask_twice
  relevance_run-name vision image =
      ground (arith, content_outcome-name (ask_twice vision image).0 vision.is_real)
