-- ===== src/Api/Webhook.antt =====
-- The webhook of src/prooflens/api/app.py, with `verify` of src/prooflens/api/security.py, the
-- payload of src/prooflens/api/schemas.py and the limit on a request's body. HMAC, `int` of a
-- header and the parse of the body are arguments.
pub mod Redelivered
mod Tests
use prooflens.Base.{
  ℕ, ◌*◌, String, Bool, true, false, ◌&&◌, List, [], ◌∷◌, Option, none, some, ℤ, pos, negsuc, ltb,
  str_eq, strip, nonempty, codes, if◌then◌else◌,
}
use prooflens.Queue.Jobs.{Job, Settings}
use prooflens.Service.Ids.{Casing, normalize_id}
use prooflens.Service.Processor.{JobPayload, TenantView}
use prooflens.Db.Organisation.{TenantRow, pg_tenant_by_slug}
use prooflens.Db.JobQueue.{Enqueued, pg_enqueue}

-- The fields of WebhookPayload as they are sent
pub record WebhookPayload : Type 0 where
  pub event_id : String
  pub opportunity_id : String
  pub rep_id : Option String
  pub captured_at : Option String
  pub image_base64 : Option String
  pub image_url : Option String

-- `payload.model_dump()` after `_normalize_rep_id`, as the job keeps it
abbrev pub dumped : Casing → WebhookPayload → JobPayload
dumped C p = record {
  image_base64 = p.image_base64;
  image_url = p.image_url;
  rep_id = normalize_id C p.rep_id;
  opportunity_id = some p.opportunity_id;
  captured_at = p.captured_at;
}

abbrev all_ascii : List ℕ → Bool
all_ascii [] = true
all_ascii (c ∷ cs) = ltb c 128 && all_ascii cs

-- `hmac.compare_digest` of two texts: none is the TypeError for text that is not ASCII.
unfoldable pub compare_digest : String → String → Option Bool
compare_digest a b = if all_ascii (codes a) && all_ascii (codes b) then some (str_eq a b) else none

-- `verify`, where `expected` is `sign(secret, body)`
unfoldable pub verify : String → Option String → Option Bool
verify expected none = some false
verify expected (some signature) =
    if nonempty signature then compare_digest expected (strip signature) else some false

-- The answers: an error's status, or the acknowledgement
pub data WebhookAnswer : Type 0 where
  unknown_tenant invalid_signature server_error invalid_payload : WebhookAnswer
  accepted duplicate : ℕ → WebhookAnswer

abbrev pub ack_of : ℕ × Bool → WebhookAnswer
ack_of (job_id, created) = if created then accepted job_id else duplicate job_id

-- Where the job does not fit the table, the exception is a 500 and nothing is stored.
abbrev pub acked : List (Job JobPayload) → Option Enqueued → WebhookAnswer × List (Job JobPayload)
acked table none = (server_error, table)
acked table (some (created, table')) = (ack_of created, table')

module _ {R Body : Type 0} (C : Casing) (cfg : Settings) (sign : String → Body → String)
    (model_validate : Body → Option WebhookPayload) where
  abbrev pub enqueue_payload :
      ℕ
      → ℕ
      → TenantView R
      → List (Job JobPayload)
      → Option WebhookPayload
      → WebhookAnswer × List (Job JobPayload)
  enqueue_payload new_id now tenant table none = (invalid_payload, table)
  enqueue_payload new_id now tenant table (some p) =
      acked table (pg_enqueue cfg new_id now tenant.id p.event_id (dumped C p) table)

  abbrev pub if_signed :
      ℕ
      → ℕ
      → TenantView R
      → Body
      → List (Job JobPayload)
      → Option Bool
      → WebhookAnswer × List (Job JobPayload)
  if_signed new_id now tenant body table none = (server_error, table)
  if_signed new_id now tenant body table (some false) = (invalid_signature, table)
  if_signed new_id now tenant body table (some true) =
      enqueue_payload new_id now tenant table (model_validate body)

  abbrev pub for_tenant :
      ℕ
      → ℕ
      → Body
      → Option String
      → List (Job JobPayload)
      → Option (TenantView R)
      → WebhookAnswer × List (Job JobPayload)
  for_tenant new_id now body signature table none = (unknown_tenant, table)
  for_tenant new_id now body signature table (some tenant) =
      if_signed new_id now tenant body table (verify (sign tenant.webhook_secret body) signature)

  -- `lsq_webhook`: the answer and the jobs after it
  unfoldable pub lsq_webhook :
      ℕ
      → ℕ
      → String
      → Body
      → Option String
      → List (TenantRow (TenantView R))
      → List (Job JobPayload)
      → WebhookAnswer × List (Job JobPayload)
  lsq_webhook new_id now tenant_slug body signature tenants table =
      for_tenant new_id now body signature table (pg_tenant_by_slug tenant_slug tenants)

-- 25 MiB
abbrev pub max_request_body_bytes : ℕ
max_request_body_bytes = 25 * 1024 * 1024

abbrev pub too_big : Option ℤ → Bool
too_big none = false
too_big (some (pos n)) = ltb max_request_body_bytes n
too_big (some (negsuc n)) = false

-- `_limit_body_size`, where none is the 413 and `int_of` is `int` of a text
unfoldable pub limit_body_size {ℓ} :
    {A : Type ℓ} → (String → Option ℤ) → Option String → A → Option A
limit_body_size int_of none answer = some answer
limit_body_size int_of (some cl) answer = if too_big (int_of cl) then none else some answer
