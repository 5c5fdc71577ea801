-- ===== src/Service/Processor/Samples.antt =====
-- A tenant, a job and the services around it, for the tests of src/prooflens/service/processor.py
-- and of the worker.
use prooflens.Base.{ℕ, String, refl, ◌⊎◌, inr, true, List, [], ◌∷◌, ◌++◌, none, some}
use prooflens.Vision.Schema.{Attempt, returned, raised, VisionBackend}
use prooflens.Engine.Number.{decimals}
use prooflens.Engine.Config.{default_scoring}
use prooflens.Engine.Imaging.{Imaging}
use prooflens.Engine.HashStore.{Store}
use prooflens.Queue.Backoff.{JobError}
use prooflens.Service.Ids.{Casing}
use prooflens.Service.Processor.{TenantView, JobView, World}

abbrev pub plain : Casing
plain = record {
  upper = λ s. s;
  upper_idem = λ s. refl;
  strip-upper = λ s. refl;
  upper-nonempty = λ s. refl;
}

-- Every text is an image, whose hash it is.
abbrev pub flat : Imaging ℕ
flat = record {
  Bytes = String;
  Gray = String;
  cv2_available = true;
  pil_available = true;
  imagehash_available = true;
  image_size = λ b. some (640, 480);
  imdecode_gray = λ b. some b;
  laplacian_variance = λ g. 400000;
  moire_ratio = λ g. 0;
  glare_fraction = λ g. 0;
  bezel_contrast = λ g. 0;
  getexif = λ b. none;
  dhash = λ b. some b;
  round2 = λ x. x;
}

abbrev pub tenant : TenantView ℕ
tenant = record {
  id = "acme";
  slug = "acme";
  webhook_secret = "s";
  field_map = ("band", "f1") ∷ ("score", "f2") ∷ ("reason", "f3") ∷ [];
  scoring = default_scoring decimals;
  vision_backend = "groq";
}

abbrev pub job : JobView
job = record {
  id = 1;
  tenant_id = "acme";
  event_id = "e1";
  attempts = 1;
  max_attempts = 5;
  payload = record {
    image_base64 = some "00ff";
    image_url = none;
    rep_id = some "A7";
    opportunity_id = some "opp";
    captured_at = none;
  };
}

abbrev pub Log : Type 0
Log = List (String × List (String × String))

-- The client of src/prooflens/lsq/fake.py, as one log
abbrev pub logged : String → List (String × String) → Log → JobError ⊎ Log
logged o u l = inr (l ++ (o, u) ∷ [])

abbrev pub no_key : String → Attempt (VisionBackend String)
no_key name = raised "no API key"

abbrev pub start : World ℕ Store Log
start = record { hashes = []; stored = record { results = []; audit_log = [] }; lsq = [] }

abbrev pub no_time : ℕ → ℕ
no_time i = 0

abbrev pub decode : String → Attempt String
decode s = returned s
