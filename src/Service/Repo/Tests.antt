-- ===== src/Service/Repo/Tests.antt =====
-- The repository of src/prooflens/service/repo.py on three stored results and two keys.
use prooflens.Base.{ℕ, ◌+◌, ◌*◌, String, ◌≡◌, refl, ◌≢◌, [], ◌∷◌, none, some, string_eq, length}
use prooflens.Service.Repo.Samples.{plain, sample}
use prooflens.Service.Repo.{
  ResultView, ResultQuery, Results, matches, list_results, get_result, reviewed, record_review,
}
use prooflens.Service.Repo.Reviews.{record_review-lem}

abbrev stored : ℕ → String → String → ResultView ℕ
stored i tenant band = record sample {
  id = i;
  created_at = i * 1000;
  tenant_id = tenant;
  band = band;
  score = 50;
  reason = "Too blurred to assess — please retake in better light.";
  reason_code = "too_blurred";
  processing_ms = 12;
  rep_id = none;
}

abbrev three : Results ℕ
three = record {
  results = stored 1 "acme" "Doubtful" ∷ stored 2 "other" "Clear" ∷ stored 3 "acme" "Clear" ∷ [];
  audit_log = [];
}

abbrev clear_ones : ResultQuery
clear_ones = record {
  limit = 10;
  offset = 0;
  band = some "Clear";
  review = some "pending";
  reason = none;
  rep_id = none;
  start = some 500;
  end = none;
}

-- The tenant's one result with that band
one_clear : list_results plain "acme" clear_ones three ≡ (stored 3 "acme" "Clear" ∷ [], 1)
unfolding list_results matches
one_clear = refl

record_review-lem_example :
    let (answer, after) = record_review 3 "approve" none "mod" 77 "acme" three in
    ((v : ResultView ℕ)
      → get_result 3 "acme" three ≡ some v
      → (answer ≡ some (reviewed "approve" none "mod" 77 v))
        × (get_result 3 "acme" after ≡ answer)
        × (length after.audit_log ≡ 0 + 1))
    × (get_result 3 "acme" three ≡ none → (answer ≡ none) × (after ≡ three))
    × ((i : ℕ) (other : String)
        → "acme" ≢ other
        → get_result i other after ≡ get_result i other three)
record_review-lem_example = record_review-lem 3 "approve" none "mod" 77 "acme" three
