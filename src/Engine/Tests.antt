-- ===== src/Engine/Tests.antt =====
-- Runs of the engine on small inputs, and its theorems at inputs that meet their conditions.
use prooflens.Base.{
  ℕ, pos, String, ◌≡◌, refl, ◌↔◌, true, false, [], ◌∷◌, none, some, In, string_eq, ◌*◌, ◌==◌,
  if◌then◌else◌, leb, lower_is, show_int, strip,
}
use prooflens.Engine.Number.{decimals}
use prooflens.Engine.Config.{default_scoring}
use prooflens.Engine.Types.{CheckOutcome, no_details, Verdict}
use prooflens.Engine.Verdicts.{
  Band, Reason, clear, recycled, not_a_visit, too_blurred, no_content_analysis, same_reason,
  most_severe,
}
use prooflens.Engine.Fusion.{
  by_name, gates, reasons_of, apply_caps, clamp_score, fuse, uniqueness_gates, recapture_gates,
  content_gates, sharpness_gates, assessed_gates, capture_gates, people_gates, meeting_gates,
  confident_gates, conf_high, blend, blend_sums, blend_step, final_band, band_for,
}
use prooflens.Engine.Fusion.Capped.{fuse-capped}
use prooflens.Engine.Fusion.Bands.{fuse-clear_iff, fuse-unassessed_iff, fuse-exact_duplicate}
use prooflens.Engine.HashStore.{
  Row, Store, nearest, nearest_from, remember, hamming_hex, hamming_codes, hex_value, count_ones,
}
use prooflens.Engine.Imaging.{Imaging, load_gray, within_pixel_budget}
use prooflens.Engine.Checks.{
  outcome, blur_run, blur_score, exif_run, recapture_run, screen_detected, compute_dhash,
  judge_hash, judge_match, distance_score, uniqueness_run,
}
use prooflens.Engine.Checks.Relevance.{relevance_run, ask_twice, content_outcome, content_score}
use prooflens.Engine.Pipeline.{
  Context, Times, free_hard_gate_fired, dhash_of, free_checks, content_check, remember_after, score,
}
use prooflens.Engine.Pipeline.InMemory.{in_memory}
use prooflens.Engine.Pipeline.Recycled.{score_twice-recycled}
use prooflens.Vision.Hybrid.{HybridBackend, unusable}
use prooflens.Vision.Schema.{ContentAssessment, returned, VisionBackend, unavailable_vision}

-- A meeting of three, as a vision backend reports it.
abbrev meeting : ContentAssessment
meeting = record {
  people_count = pos 3;
  people_interacting = true;
  setting = "indoor";
  environment = "indoor";
  primary_subject = "people in a room";
  scene_description = "Three people at a desk.";
  emotional_tone = "engaged";
  looks_like_photo_of_a_screen = false;
  is_designed_graphic = false;
  is_meme_or_screenshot = false;
  plausibility = pos 89;
  visit_context = some (pos 80);
  context_confidence = "high";
  reason = "";
  backend = "test";
  model = "test";
}

-- A pool party: people, and next to no visit context.
abbrev pool : ContentAssessment
pool = record meeting { visit_context = some (pos 5) }

abbrev seeing : ContentAssessment → VisionBackend ℕ
seeing a = record { name = "test"; is_real = true; assess = λ n image. returned a }

-- Photos are numbers here: each has its number for a variance, and one of two hashes.
abbrev camera : Imaging ℕ
camera = record {
  Bytes = ℕ;
  Gray = ℕ;
  cv2_available = true;
  pil_available = true;
  imagehash_available = true;
  image_size = λ image. some (4000, 3000);
  imdecode_gray = λ image. some image;
  laplacian_variance = λ g. g * 1000;
  moire_ratio = λ g. 1000;
  glare_fraction = λ g. 0;
  bezel_contrast = λ g. 0;
  getexif = λ image. none;
  dhash = λ image. some (if image == 300 then "00ff00ff00ff00ff" else "123456789abcdef0");
  round2 = λ x. x;
}

abbrev context : VisionBackend ℕ → Context ℕ ℕ
context v = record {
  tenant_id = "acme";
  vision = v;
  scoring = default_scoring decimals;
  rep_id = some "R1";
  opportunity_id = some "O1";
  captured_at = none;
  remember_hash = true;
}

abbrev no_time : Times decimals camera in_memory
no_time i = 0

-- One photo through the pipeline, with everything that it runs through open to the tests.
run : VisionBackend ℕ → ℕ → Store → Verdict ℕ × Store × ℕ
unfolding score free_checks content_check free_hard_gate_fired relevance_run ask_twice
    content_outcome content_score fuse gates uniqueness_gates recapture_gates content_gates
    sharpness_gates assessed_gates capture_gates people_gates meeting_gates confident_gates
    conf_high blend blend_sums blend_step final_band band_for apply_caps clamp_score same_reason
    most_severe exif_run blur_run blur_score uniqueness_run compute_dhash judge_hash judge_match
    distance_score recapture_run screen_detected load_gray nearest nearest_from lower_is
    remember_after dhash_of remember hamming_hex hamming_codes hex_value count_ones
    within_pixel_budget show_int strip
run v image s = score decimals camera in_memory no_time image (context v) s

-- 0.5 * 85.4 + 0.15 * 100 + 0.25 * 100 + 0.1 * 50
meeting_is_clear :
    let (v, s, calls) = run (seeing meeting) 300 [] in
    (v.band ≡ Band.clear) × (v.score ≡ 87700) × (v.reason_code ≡ clear) × (◌≡◌ {A = ℕ} calls 1)
unfolding run
meeting_is_clear = (refl, refl, refl, refl)

pool_is_suspect :
    let (v, s, calls) = run (seeing pool) 300 [] in
    (v.band ≡ Band.suspect) × (v.score ≡ 20000) × (v.reason_code ≡ not_a_visit)
unfolding run
pool_is_suspect = (refl, refl, refl)

-- The backend is asked twice, and the verdict is not a grade.
unavailable_is_unassessed :
    let (v, s, calls) = run (unavailable_vision "no key") 300 [] in
    (v.band ≡ Band.unassessed) × (v.reason_code ≡ no_content_analysis) × (◌≡◌ {A = ℕ} calls 2)
unfolding run
unavailable_is_unassessed = (refl, refl, refl)

-- Sent again, the photo is caught before the backend is asked.
again_is_recycled :
    let (v, s, calls) = run (seeing meeting) 300 (run (seeing meeting) 300 []).1 in
    (v.band ≡ Band.suspect) × (v.score ≡ 15000) × (v.reason_code ≡ recycled) × (◌≡◌ {A = ℕ} calls 0)
unfolding run
again_is_recycled = (refl, refl, refl, refl)

blurred_meeting_is_doubtful :
    let (v, s, calls) = run (seeing meeting) 30 [] in
    (v.band ≡ Band.doubtful) × (v.reason_code ≡ too_blurred)
unfolding run
blurred_meeting_is_doubtful = (refl, refl)

score_twice-recycled_example :
    let (v, s, calls) =
      score decimals camera in_memory no_time 300
        (context (seeing pool))
        (score decimals camera in_memory no_time 300 (context (seeing meeting)) []).1 in
    (v.reason_code ≡ recycled) × (v.band ≡ Band.suspect) × (leb v.score 15000 ≡ true) × (calls ≡ 0)
unfolding compute_dhash
score_twice-recycled_example =
    score_twice-recycled decimals camera in_memory 300 "00ff00ff00ff00ff" no_time no_time
      (context (seeing meeting)) (context (seeing pool)) [] refl refl refl refl refl

abbrev down_hybrid : HybridBackend ℕ
down_hybrid = record {
  name = "hybrid";
  scout_model = "scout-1";
  model = "scout-1+reasoner-1";
  scout_assess = λ n image. returned meeting;
  refine = λ p. unusable "timeout";
}

abbrev duplicate : CheckOutcome ℕ
duplicate =
    outcome "uniqueness" true (some 0) "" none (record no_details { exact_duplicate = some true })

abbrev no_vision : CheckOutcome ℕ
no_vision = outcome "content" false none "" none no_details

abbrev at_the_pool : CheckOutcome ℕ
at_the_pool = outcome "content" true (some 50000) "" none (record no_details {
  people_count = some (pos 3);
  plausibility = some (pos 89);
  visit_context = some (pos 5);
  context_confidence = some "High";
})

fuse-capped_example :
    let s = (fuse decimals (duplicate ∷ []) (default_scoring decimals)).score in
    (leb 0 s ≡ true)
    × (leb s 100000 ≡ true)
    × ((r : Reason) (x : ℕ)
        → In (r, x) (gates (by_name (duplicate ∷ [])) (default_scoring decimals))
        → leb s (clamp_score decimals x) ≡ true)
fuse-capped_example = fuse-capped decimals (duplicate ∷ []) (default_scoring decimals)

fuse-clear_iff_example :
    ((fuse decimals [] (default_scoring decimals)).reason_code ≡ clear)
    ↔ (gates (by_name []) (default_scoring decimals) ≡ [])
fuse-clear_iff_example = fuse-clear_iff decimals [] (default_scoring decimals)

fuse-unassessed_iff_example :
    ((fuse decimals (no_vision ∷ []) (default_scoring decimals)).band ≡ Band.unassessed) ↔ (
      In no_content_analysis
        (reasons_of (gates (by_name (no_vision ∷ [])) (default_scoring decimals)))
      × ((r : Reason)
          → In r (reasons_of (gates (by_name (no_vision ∷ [])) (default_scoring decimals)))
          → r ≡ no_content_analysis))
fuse-unassessed_iff_example =
    fuse-unassessed_iff decimals (no_vision ∷ []) (default_scoring decimals)

fuse-exact_duplicate_example :
    let r = fuse decimals (at_the_pool ∷ duplicate ∷ []) (default_scoring decimals) in
    (r.reason_code ≡ recycled) × (r.band ≡ Band.suspect) × (leb r.score 15000 ≡ true)
fuse-exact_duplicate_example =
    fuse-exact_duplicate decimals (at_the_pool ∷ duplicate ∷ []) duplicate refl refl refl

abbrev row : String → Row
row h = record { dhash = h; rep_id = none; opportunity_id = none; captured_at = none }
