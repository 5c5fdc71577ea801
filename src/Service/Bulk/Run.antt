-- ===== src/Service/Bulk/Run.antt =====
-- `run_bulk_job` of src/prooflens/service/bulk.py: every row gets its own outcome in its own slot,
-- in whatever order the rows run, and no row's error stops the job.
use prooflens.Base.{none, text_take, ℕ, String, ◌≡◌, List, some, get_elem?}
use prooflens.Vision.Schema.{Attempt, returned, raised}
use prooflens.Service.Bulk.{BulkRow, Payload, BulkRowResult}

module _ {S Bytes : Type 0} (fetch_image : String → Attempt Bytes)
    (score_row : Bytes → BulkRow → S → Attempt Payload × S) where
  abbrev Task : Type 0
  Task = ℕ × BulkRow

  -- The outcome of a row: the error of its fetch, or what scoring the fetched image returned or
  -- raised in some state of the store.
  abbrev pub IsOutcome : BulkRow → Attempt Bytes → Attempt Payload → Type 0
  IsOutcome row (raised e) outcome = outcome ≡ raised e
  IsOutcome row (returned image) outcome = (before : S) × (outcome ≡ (score_row image row before).0)

  -- A result with the row's own ids, and with the fields of the payload, or with the error alone,
  -- cut off at 500 characters.
  abbrev pub IsResult : BulkRow → BulkRowResult → Attempt Payload → Type 0
  IsResult row out (returned p) =
      (out.image_url ≡ row.image_url)
      × (out.rep_id ≡ row.rep_id)
      × (out.opportunity_id ≡ row.opportunity_id)
      × (out.band ≡ some p.payload_band)
      × (out.score ≡ some p.payload_score)
      × (out.reason_code ≡ some p.payload_reason_code)
      × (out.result_id ≡ some p.payload_result_id)
      × (out.error ≡ none)
  IsResult row out (raised e) =
      (out.image_url ≡ row.image_url)
      × (out.rep_id ≡ row.rep_id)
      × (out.opportunity_id ≡ row.opportunity_id)
      × (out.band ≡ none)
      × (out.score ≡ none)
      × (out.reason_code ≡ none)
      × (out.result_id ≡ none)
      × (out.error ≡ some (text_take 500 e))

  -- What stands at a row's place after the run
  abbrev pub IsSettled : List BulkRowResult → ℕ → BulkRow → Type 0
  IsSettled results i row =
      (out : BulkRowResult) × (outcome : Attempt Payload) × (get_elem? results i ≡ some out)
      × IsOutcome row (fetch_image row.image_url) outcome
      × IsResult row out outcome
