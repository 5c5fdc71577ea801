-- ===== src/Engine/Checks.antt =====
-- The deterministic checks (src/prooflens/engine/checks): blur, exif, recapture, uniqueness.
pub mod Relevance
pub mod Named
use prooflens.Base.{
  ℕ, ℤ, pos, ◌-ℤ◌, String, Bool, true, false, not, ◌&&◌, ◌||◌, Option, none, some, leb_ℤ, ◌==◌,
  text_append, if◌then◌else◌,
}
use prooflens.Engine.Number.{Float, fmin, zero_float}
use prooflens.Engine.Config.{Thresholds}
use prooflens.Engine.Types.{CheckOutcome, Details, no_details, HashMatch, Trail}
use prooflens.Engine.Imaging.{Imaging, ExifBlock}

module _ {R : Type 0} where
  -- `CheckOutcome(name, available, score, summary, metric, data)`
  abbrev pub outcome : String → Bool → Option R → String → Option R → Details → CheckOutcome R
  outcome n a s t m d = record {
    name = n;
    available = a;
    score = s;
    summary = t;
    metric = m;
    details = d;
    latency_ms = none;
  }

  abbrev pub not_installed : String → String → CheckOutcome R
  not_installed n t = outcome n false none t none no_details

module _ (F : Float) where
  open F use {Carrier, le, add, sub, mul, div, of_int, thousandths, round1}

  -- checks/blur.py: the score of a variance between the floor and full marks.
  unfoldable pub blur_score : Carrier → Thresholds Carrier → Carrier
  blur_score v th =
      if le v th.blur_floor
      then zero_float F
      else if le th.sharp_ok v
      then thousandths 100000
      else mul (div (sub v th.blur_floor) (sub th.sharp_ok th.blur_floor)) (thousandths 100000)

  abbrev pub blur_summary : Carrier → Thresholds Carrier → String
  blur_summary v th =
      if le v th.blur_floor
      then "Unreadable — image is too blurred."
      else if le th.sharp_ok v
      then "Image is sharp."
      else "Slightly soft but readable."

  -- checks/uniqueness.py: the score of a distance from the closest earlier hash.
  unfoldable pub distance_score : ℕ → Thresholds Carrier → Carrier
  unfolding ◌-ℤ◌
  distance_score dist th =
      if leb_ℤ (pos dist) th.dup_exact
      then zero_float F
      else if leb_ℤ (pos dist) th.dup_near
      then thousandths 20000
      else if leb_ℤ th.unique_distance (pos dist)
      then thousandths 100000
      else mul (div (of_int (pos dist -ℤ th.dup_near)) (of_int (th.unique_distance -ℤ th.dup_near)))
          (thousandths 100000)

  abbrev pub distance_summary : ℕ → Thresholds Carrier → String
  distance_summary dist th =
      if leb_ℤ (pos dist) th.dup_exact
      then "Exact duplicate of an earlier upload."
      else if leb_ℤ (pos dist) th.dup_near
      then "Near-duplicate of an earlier upload."
      else if leb_ℤ th.unique_distance (pos dist)
      then "Comfortably different from anything seen before."
      else "Somewhat similar to a previous upload."

  -- The `data` of the uniqueness check before a match is looked at, and after.
  abbrev pub fresh_details : String → Details
  fresh_details h = record no_details {
    dhash = some h;
    exact_duplicate = some false;
    near_duplicate = some false;
  }

  abbrev pub match_details : String → HashMatch → Thresholds Carrier → Details
  match_details h m th = record no_details {
    dhash = some h;
    distance = some m.match_distance;
    exact_duplicate = some (leb_ℤ (pos m.match_distance) th.dup_exact);
    near_duplicate = some (
        not (leb_ℤ (pos m.match_distance) th.dup_exact)
        && leb_ℤ (pos m.match_distance) th.dup_near);
    trail = some (record {
      rep_id = m.match_rep_id;
      opportunity_id = m.match_opportunity_id;
      created_at = m.match_created_at;
    });
  }

  -- The part of `uniqueness.run` after the lookup.
  unfoldable pub judge_match : String → Option HashMatch → Thresholds Carrier → CheckOutcome Carrier
  judge_match h none th =
      outcome "uniqueness" true (some (thousandths 100000))
        "First time this image has been seen for the tenant." none (fresh_details h)
  judge_match h (some m) th =
      outcome "uniqueness" true (some (round1 (distance_score m.match_distance th)))
        (distance_summary m.match_distance th) (some (of_int (pos m.match_distance)))
        (match_details h m th)

  unfoldable pub judge_hash :
      Option String → (String → Option HashMatch) → Thresholds Carrier → CheckOutcome Carrier
  judge_hash none nearest th =
      outcome "uniqueness" true (some (zero_float F)) "Could not decode image." none no_details
  judge_hash (some h) nearest th = judge_match h (nearest h) th

  -- The detector's constants, and its verdict.
  unfoldable pub screen_detected : Carrier → Carrier → Carrier → Bool
  screen_detected moire glare bezel =
      le (thousandths 55000) bezel && (le (thousandths 200000) moire || le (thousandths 12) glare)

  module _ (I : Imaging Carrier) where
    open I use {
      Bytes, Gray, cv2_available, pil_available, imagehash_available, laplacian_variance,
      moire_ratio, glare_fraction, bezel_contrast, getexif,
    }

    unfoldable pub blur_run : Option Gray → Thresholds Carrier → CheckOutcome Carrier
    blur_run gray th =
        if not cv2_available then not_installed "sharpness" "OpenCV not installed." else elim gray [
          | none ↦
              outcome "sharpness" true (some (zero_float F)) "Could not decode image." none
                no_details
          | some g ↦
              let v = laplacian_variance g in
              outcome "sharpness" true (some (round1 (blur_score v th))) (blur_summary v th)
                (some (round1 v)) (record no_details { too_blurred = some (le v th.blur_floor) })
        ]

    -- checks/exif.py, the score of an EXIF block that is there
    unfoldable pub exif_score : ExifBlock → Carrier
    exif_score x =
        let time = if x.has_time_tag then thousandths 15000 else zero_float F in
        let gps = if x.has_gps_ifd then thousandths 10000 else zero_float F in
        fmin F (thousandths 100000) (add (add (thousandths 60000) time) gps)

    unfoldable pub exif_run : Bytes → CheckOutcome Carrier
    exif_run image =
        if not pil_available
        then not_installed "exif" "Pillow not installed."
        else elim (getexif image) [
          | none ↦
              outcome "exif" true (some (thousandths 50000)) "Could not read EXIF." none no_details
          | some x ↦
              if x.entries == 0
              then outcome "exif" true (some (thousandths 45000))
                  "No EXIF present (often stripped in transit)." (some (zero_float F))
                  (record no_details { has_timestamp = some false; has_gps = some false })
              else outcome "exif" true (some (exif_score x))
                  (text_append
                    (text_append "EXIF present" (if x.has_time_tag then " with timestamp" else ""))
                    ".")
                  (some (of_int (pos x.entries)))
                  (record no_details {
                    has_timestamp = some x.has_time_tag;
                    has_gps = some x.has_gps_ifd;
                  })
        ]

    unfoldable pub recapture_run : Option Gray → CheckOutcome Carrier
    recapture_run gray =
        if not cv2_available then not_installed "recapture" "OpenCV not installed." else elim gray [
          | none ↦
              outcome "recapture" true (some (thousandths 50000)) "Could not decode image." none
                no_details
          | some g ↦
              let hit = screen_detected (moire_ratio g) (glare_fraction g) (bezel_contrast g) in
              outcome "recapture" true (some (if hit then zero_float F else thousandths 100000))
                (if hit
                  then "Looks photographed off another screen (edge/glare/moire)."
                  else "No screen-recapture signature detected.")
                (some (I.round2 (moire_ratio g))) (record no_details { screen_detected = some hit })
        ]

    -- `compute_dhash`
    unfoldable pub compute_dhash : Bytes → Option String
    compute_dhash image = if not imagehash_available then none else I.dhash image

    unfoldable pub uniqueness_run :
        Bytes → (String → Option HashMatch) → Thresholds Carrier → CheckOutcome Carrier
    uniqueness_run image nearest th =
        if not imagehash_available
        then not_installed "uniqueness" "imagehash not installed."
        else judge_hash (compute_dhash image) nearest th
