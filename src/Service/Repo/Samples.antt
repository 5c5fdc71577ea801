-- ===== src/Service/Repo/Samples.antt =====
-- A stored result of src/prooflens/service/repo.py, and ids without letters in two cases, for
-- tests.
use prooflens.Base.{ℕ, [], refl, none, some}
use prooflens.Service.Ids.{Casing}
use prooflens.Service.Repo.{ResultView}

abbrev pub plain : Casing
plain = record {
  upper = λ s. s;
  upper_idem = λ s. refl;
  strip-upper = λ s. refl;
  upper-nonempty = λ s. refl;
}

abbrev pub sample : ResultView ℕ
sample = record {
  id = 1;
  created_at = 0;
  tenant_id = "t1";
  band = "Clear";
  score = 40000;
  reason = "";
  reason_code = "clear";
  rubric_version = "v3";
  checks = [];
  processing_ms = 100000;
  source = "direct";
  opportunity_id = none;
  rep_id = some "REP-1";
  review_status = none;
  review_note = none;
  reviewed_at = none;
  reviewer = none;
  copilot_summary = none;
}
