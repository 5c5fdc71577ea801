-- ===== src/Api/Webhook/Tests.antt =====
-- The webhook of src/prooflens/api/app.py for one tenant. The body is the event's id and the
-- signature is the secret.
use prooflens.Base.{
  ℕ, zero, suc, text_append, String, ◌≡◌, refl, true, false, List, [], ◌∷◌, Option, none, some, pos,
  strip, lstrip, rstrip, is_space_code, str_eq, if◌then◌else◌,
}
use prooflens.Queue.Jobs.{Job, Settings, claim_batch}
use prooflens.Queue.Sound.{claims}
use prooflens.Queue.Idempotent.{stay, step}
use prooflens.Service.Ids.{normalize_id}
use prooflens.Service.Processor.{JobPayload, TenantView}
use prooflens.Service.Processor.Samples.{plain, tenant}
use prooflens.Db.Organisation.{TenantRow, pg_tenant_by_slug}
use prooflens.Db.JobQueue.{pg_enqueue}
use prooflens.Api.Webhook.{
  WebhookPayload, WebhookAnswer, duplicate, server_error, unknown_tenant, invalid_signature,
  compare_digest, verify, lsq_webhook, limit_body_size,
}
use prooflens.Api.Webhook.Redelivered.{IsDelivered, lsq_webhook-redelivered}

abbrev settings : Settings
settings = record {
  queue_max_attempts = 5;
  queue_backoff_base_seconds = 5;
  queue_backoff_max_seconds = 900;
}

abbrev tenants : List (TenantRow (TenantView ℕ))
tenants =
    record { id = "acme"; slug = "acme"; active = true; view = tenant }
    ∷ record { id = "t2"; slug = "birch"; active = false; view = tenant }
    ∷ []

abbrev sent : String → WebhookPayload
sent body = record {
  event_id = body;
  opportunity_id = "o1";
  rep_id = some " a7";
  captured_at = none;
  image_base64 = some "00ff";
  image_url = none;
}

abbrev parsed : String → Option WebhookPayload
parsed body = if str_eq body "" then none else some (sent body)

abbrev hmac : String → String → String
hmac secret body = secret

abbrev delivered :
    ℕ
    → String
    → String
    → Option String
    → List (Job JobPayload)
    → WebhookAnswer × List (Job JobPayload)
delivered i slug body signature table =
    lsq_webhook plain settings hmac parsed i 100 slug body signature tenants table

wrong_key : (delivered 1 "acme" "e1" (some "x") []).0 ≡ invalid_signature
unfolding lsq_webhook verify compare_digest pg_tenant_by_slug strip lstrip rstrip is_space_code
wrong_key = refl

not_active : (delivered 1 "birch" "e1" (some "s") []).0 ≡ unknown_tenant
unfolding lsq_webhook pg_tenant_by_slug
not_active = refl

-- A signature with a letter that is not ASCII is no 401.
not_ascii : (delivered 1 "acme" "e1" (some "é") []).0 ≡ server_error
unfolding lsq_webhook verify compare_digest pg_tenant_by_slug strip lstrip rstrip is_space_code
not_ascii = refl

too_large : limit_body_size {A = String} (λ s. some (pos 26214401)) (some "26214401") "ok" ≡ none
unfolding limit_body_size
too_large = refl

-- An event's id of 201 characters is longer than its column: a 500, and no job.
abbrev long : ℕ → String
long zero = ""
long (suc n) = text_append "e" (long n)

too_long : delivered 1 "acme" (long 201) (some "s") [] ≡ (server_error, [])
unfolding lsq_webhook verify compare_digest pg_tenant_by_slug strip lstrip rstrip is_space_code
    pg_enqueue
too_long = refl

abbrev once : List (Job JobPayload)
once = (delivered 1 "acme" "e1" (some " s") []).1

lsq_webhook-redelivered_example :
    let later = (claim_batch (λ i. false) 200 5 once).1 in
    IsDelivered plain settings 1 100 "acme" (sent "e1") [] (delivered 1 "acme" "e1" (some " s") [])
    × ((job : Job JobPayload) × (delivered 2 "acme" "e1" (some "s") later
          ≡ (duplicate job.id, later)))
unfolding pg_tenant_by_slug verify compare_digest strip lstrip rstrip is_space_code normalize_id
lsq_webhook-redelivered_example =
    lsq_webhook-redelivered plain settings hmac parsed 1 100 "acme" "e1" (some " s") tenants tenant
      (sent "e1") [] refl refl refl refl (λ n. 0) (claim_batch (λ i. false) 200 5 once).1 2 100 "e1"
      (some "s") (sent "e1") (step stay (claims (λ i. false) 200 5)) refl refl refl
