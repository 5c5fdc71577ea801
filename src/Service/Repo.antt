-- ===== src/Service/Repo.antt =====
-- The results and reviews of InMemoryRepo in src/prooflens/service/repo.py. Ids are numbers. A
-- result's time of creation is in microseconds and its day is that time over the length of a day;
-- every stored result has one.
pub mod Samples
pub mod Reviews
mod Tests
use prooflens.Base.{
  ℕ, ◌+◌, ◌/◌, suc, String, Bool, true, false, not, ◌&&◌, List, [], ◌∷◌, ◌++◌, Option, none, some,
  map, filter, find, length, take, drop, reverse, ltb, leb, ◌==◌, str_eq, Dict, lookup, insert,
  string_eq, or_else, is_none, nonempty, if◌then◌else◌,
}
use prooflens.Engine.Verdicts.{band_name, reason_value}
use prooflens.Engine.Types.{CheckOutcome, Verdict}
use prooflens.Service.Ids.{Casing, normalize_id}
use prooflens.Service.Hierarchy.{HierarchyRow, NodeField, node_match, same_text}

pub record ResultView (R : Type 0) : Type 0 where
  pub id : ℕ
  pub created_at : ℕ
  pub tenant_id : String
  pub band : String
  pub score : R
  pub reason : String
  pub reason_code : String
  pub rubric_version : String
  pub checks : List (CheckOutcome R)
  pub processing_ms : R
  pub source : String
  pub opportunity_id : Option String
  pub rep_id : Option String
  pub review_status : Option String
  pub review_note : Option String
  pub reviewed_at : Option ℕ
  pub reviewer : Option String
  pub copilot_summary : Option String

pub record AuditEvent : Type 0 where
  pub tenant_id : String
  pub result_id : ℕ
  pub decision : String
  pub note : Option String
  pub reviewer : String

pub record Results (R : Type 0) : Type 0 where
  pub results : List (ResultView R)
  pub audit_log : List AuditEvent

-- What a caller asks `list_results` for
pub record ResultQuery : Type 0 where
  pub limit : ℕ
  pub offset : ℕ
  pub band : Option String
  pub review : Option String
  pub reason : Option String
  pub rep_id : Option String
  pub start : Option ℕ
  pub end : Option ℕ

-- `value is None or x == value`
abbrev pub asked : Option String → String → Bool
asked none x = true
asked (some value) x = str_eq x value

-- `normalize_id(r.rep_id) == want`
abbrev pub same_id : Option String → Option String → Bool
same_id none none = true
same_id (some a) (some b) = str_eq a b
same_id _ _ = false

abbrev pub review_is : Option String → Option String → Bool
review_is none status = true
review_is (some review) status =
    if str_eq review "pending"
    then is_none status
    else if nonempty review
    then same_text status review
    else true

abbrev pub from_start : Option ℕ → ℕ → Bool
from_start none t = true
from_start (some start) t = leb start t

abbrev pub before_end : Option ℕ → ℕ → Bool
before_end none t = true
before_end (some end) t = ltb t end

abbrev pub source_of : Option String → Option ℕ → String
source_of (some source) job_id =
    if nonempty source then source else if is_none job_id then "direct" else "webhook"
source_of none job_id = if is_none job_id then "direct" else "webhook"

module _ (C : Casing) where
  abbrev pub rep_is : Option String → Option String → Bool
  rep_is none rep = true
  rep_is (some want) rep = same_id (normalize_id C rep) (normalize_id C (some want))

module _ {R : Type 0} (C : Casing) where
  -- The list comprehensions of `list_results` before those on the hierarchy, in their order
  unfoldable pub matches : String → ResultQuery → ResultView R → Bool
  matches tenant_id q r =
      str_eq r.tenant_id tenant_id
      && asked q.band r.band
      && asked q.reason r.reason_code
      && rep_is C q.rep_id r.rep_id
      && review_is q.review r.review_status
      && from_start q.start r.created_at
      && before_end q.end r.created_at

  -- `list_results` without a hierarchy node: the page and the total.
  unfoldable pub list_results : String → ResultQuery → Results R → List (ResultView R) × ℕ
  list_results tenant_id q s =
      let rows = reverse (filter (matches tenant_id q) s.results) in
      (take q.limit (drop q.offset rows), length rows)

  -- `record_result` under the next id, with the time and the sum of the latencies
  unfoldable pub record_result :
      ℕ
      → ℕ
      → R
      → String
      → Option ℕ
      → Verdict R
      → Option String
      → Option String
      → Option String
      → Option String
      → Results R
      → Results R
  record_result rid now ms tenant_id job_id verdict opportunity_id rep_id source summary s =
      record s {
        results =
            s.results
            ++ record {
              id = rid;
              created_at = now;
              tenant_id = tenant_id;
              band = band_name verdict.band;
              score = verdict.score;
              reason = verdict.reason;
              reason_code = reason_value verdict.reason_code;
              rubric_version = verdict.rubric_version;
              checks = verdict.checks;
              processing_ms = ms;
              source = source_of source job_id;
              opportunity_id = opportunity_id;
              rep_id = normalize_id C rep_id;
              review_status = none;
              review_note = none;
              reviewed_at = none;
              reviewer = none;
              copilot_summary = summary;
            }
              ∷ [];
      }

module _ {R : Type 0} where
  abbrev pub is_result : ℕ → String → ResultView R → Bool
  is_result result_id tenant_id r = r.id == result_id && str_eq r.tenant_id tenant_id

  -- `get_result`
  unfoldable pub get_result : ℕ → String → Results R → Option (ResultView R)
  get_result result_id tenant_id s = find (is_result result_id tenant_id) s.results

  abbrev pub reviewed : String → Option String → String → ℕ → ResultView R → ResultView R
  reviewed decision note reviewer now r = record r {
    review_status = some decision;
    review_note = note;
    reviewed_at = some now;
    reviewer = some reviewer;
  }

  -- The update of the object that `next` found
  abbrev pub update_first :
      (ResultView R → Bool)
      → (ResultView R → ResultView R)
      → List (ResultView R)
      → List (ResultView R)
  update_first p f [] = []
  update_first p f (r ∷ rs) = if p r then f r ∷ rs else r ∷ update_first p f rs

  -- `record_review`: the view it returns, and the state after it.
  unfoldable pub record_review :
      ℕ
      → String
      → Option String
      → String
      → ℕ
      → String
      → Results R
      → Option (ResultView R) × Results R
  record_review result_id decision note reviewer now tenant_id s =
      elim (get_result result_id tenant_id s) [
        | none ↦ (none, s)
        | some view ↦ (
          some (reviewed decision note reviewer now view),
          record {
            results =
                update_first (is_result result_id tenant_id) (reviewed decision note reviewer now)
                  s.results;
            audit_log =
                s.audit_log
                ++ record {
                  tenant_id = view.tenant_id;
                  result_id = result_id;
                  decision = decision;
                  note = note;
                  reviewer = reviewer;
                }
                  ∷ [];
          },
        )
      ]
