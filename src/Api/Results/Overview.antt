-- ===== src/Api/Results/Overview.antt =====
-- `analytics_summary` of src/prooflens/api/scoring.py, over the in-memory repository.
use prooflens.Base.{
  ℕ, Bool, ◌-◌, ◌*◌, String, List, [], ◌∷◌, Option, none, some, map, filter, find, count, ltb, leb,
  ◌==◌, str_eq, lookup, string_eq, or_else, pos, ◌⊎◌, inl, inr, if◌then◌else◌, date_of, midnight,
  isoformat,
}
use prooflens.Engine.Number.{Float, ratio, average, zero_float, is_nonzero}
use prooflens.Engine.Verdicts.{
  Reason, reason_value, reason_text, reason_short_label, reason_priority,
}
use prooflens.Service.Ids.{Casing}
use prooflens.Service.Repo.{ResultView, ResultQuery, Results}
use prooflens.Service.Nodes.{node_filter, list_node_results}
use prooflens.Service.Organisation.{Organisation, get_hierarchy_rows}
use prooflens.Api.DateRange.{
  RangeError, Stamp, resolve_range, day_key, by_day_from, DayPoint, fill_series,
}
use prooflens.Api.Analytics.{has_band}
use prooflens.Api.Analytics.Buckets.{BucketKind}
use prooflens.Api.Analytics.Summary.{RangeSummary, count_reasons, aggregate_range}
use prooflens.Api.Results.{ApiError, invalid_dim, server_error, is_bad_dim, range_failure}

-- What `analytics_summary` is asked for
pub record SummaryRequest : Type 0 where
  pub start_date : Option String
  pub end_date : Option String
  pub from : Option String
  pub to : Option String
  pub bucket : BucketKind
  pub group_by : String
  pub dim : Option String
  pub node : Option String

pub record TopReason : Type 0 where
  pub reason_code : String
  pub reason : String
  pub short_label : String
  pub count : ℕ

pub record Summary (R : Type 0) : Type 0 where
  pub total : ℕ
  pub images_today : ℕ
  pub clear : ℕ
  pub doubtful : ℕ
  pub suspect : ℕ
  pub unassessed : ℕ
  pub suspect_pct : R
  pub avg_score : R
  pub avg_processing_ms : R
  pub duplicates_caught : ℕ
  pub top_reasons : List TopReason
  pub series : List (DayPoint R)
  pub aggregate : RangeSummary R

-- `a if a is not None else b`
abbrev pub first_given : Option String → Option String → Option String
first_given (some a) b = some a
first_given none b = b

-- `sorted`, of counts; `before f e` says that `f` comes before `e`.
abbrev pub insert_count :
    (String × ℕ → String × ℕ → Bool) → String × ℕ → List (String × ℕ) → List (String × ℕ)
insert_count before e [] = e ∷ []
insert_count before e (f ∷ fs) = if before f e then f ∷ insert_count before e fs else e ∷ f ∷ fs

unfoldable pub sort_counts :
    (String × ℕ → String × ℕ → Bool) → List (String × ℕ) → List (String × ℕ)
sort_counts before [] = []
sort_counts before (e ∷ es) = insert_count before e (sort_counts before es)

-- `Counter.most_common`: of equal counts, the first met first
abbrev pub more_common : String × ℕ → String × ℕ → Bool
more_common f e = ltb e.1 f.1

abbrev pub most_common : List (String × ℕ) → List (String × ℕ)
most_common es = sort_counts more_common es

-- `Reason(code)`
unfoldable pub reason_of : String → Option Reason
reason_of code = find (λ r. str_eq (reason_value r) code) reason_priority

abbrev pub reason_named : String → ℕ → Option Reason → Option TopReason
reason_named code n none = none
reason_named code n (some r) = some (record {
  reason_code = code;
  reason = reason_text r;
  short_label = reason_short_label r;
  count = n;
})

abbrev pub and_named : Option TopReason → Option (List TopReason) → Option (List TopReason)
and_named (some t) (some ts) = some (t ∷ ts)
and_named _ _ = none

-- The list of `top_reasons`, or the ValueError of a code that is no reason
unfoldable pub all_named : List (String × ℕ) → Option (List TopReason)
all_named [] = some []
all_named ((code, n) ∷ entries) =
    and_named (reason_named code n (reason_of code)) (all_named entries)

abbrev pub summary_limit : ℕ
summary_limit = 5000

abbrev pub range_query : ℕ → ℕ → ℕ → ResultQuery
range_query limit start end = record {
  limit = limit;
  offset = 0;
  band = none;
  review = none;
  reason = none;
  rep_id = none;
  start = some start;
  end = some end;
}

module _ (F : Float) where
  -- The payload
  abbrev pub summary_of :
      ℕ
      → List (ResultView F.Carrier)
      → ℕ
      → ℕ
      → ℕ
      → RangeSummary F.Carrier
      → List TopReason
      → Summary F.Carrier
  summary_of today items total start end agg top =
      let suspects = count (has_band "Suspect") items in
      record {
        total = total;
        images_today = count (λ r. str_eq (day_key r) (isoformat today)) items;
        clear = count (has_band "Clear") items;
        doubtful = count (has_band "Doubtful") items;
        suspect = suspects;
        unassessed = count (has_band "Unassessed") items;
        suspect_pct =
            if total == 0
            then zero_float F
            else F.round1 (ratio F (F.of_int (pos (100 * suspects))) total);
        avg_score = average F (map (λ r. r.score) items);
        avg_processing_ms = average F (filter (is_nonzero F) (map (λ r. r.processing_ms) items));
        duplicates_caught =
            or_else (lookup (reason_value Reason.recycled) (count_reasons [] items)) 0;
        top_reasons = top;
        series = fill_series F (by_day_from [] items) start end;
        aggregate = agg;
      }

  abbrev pub named_summary :
      (List TopReason → Summary F.Carrier) → Option (List TopReason) → ApiError ⊎ Summary F.Carrier
  named_summary make none = inl server_error
  named_summary make (some top) = inr (make top)

module _ (F : Float) (C : Casing) where
  -- The results of a range, at most 5000 of them, and how many there are
  abbrev pub results_in :
      String
      → SummaryRequest
      → Organisation
      → Results F.Carrier
      → ℕ
      → ℕ
      → List (ResultView F.Carrier) × ℕ
  results_in tenant_id q org s start end =
      list_node_results C tenant_id (range_query summary_limit start end) (node_filter q.dim q.node)
        (get_hierarchy_rows tenant_id org) s

  -- `prev_start_date` has to be a date.
  abbrev pub summarize :
      ℕ
      → String
      → SummaryRequest
      → Organisation
      → Results F.Carrier
      → ℕ
      → ℕ
      → ApiError ⊎ Summary F.Carrier
  summarize today tenant_id q org s start end =
      let (items, total) = results_in tenant_id q org s start end in
      let span_days = date_of end - date_of start in
      let prev_start = midnight (date_of start - span_days) in
      let prev_items = (results_in tenant_id q org s prev_start start).0 in
      let agg =
        aggregate_range F C items prev_items (get_hierarchy_rows tenant_id org) start end q.bucket
          q.group_by today in
      if leb (date_of start) span_days
      then inl server_error
      else named_summary F (summary_of F today items total start end agg)
          (all_named (most_common (count_reasons [] items)))

  abbrev pub summary_for :
      ℕ
      → String
      → SummaryRequest
      → Organisation
      → Results F.Carrier
      → RangeError ⊎ (ℕ × ℕ)
      → ApiError ⊎ Summary F.Carrier
  summary_for today tenant_id q org s (inl e) = inl (range_failure e)
  summary_for today tenant_id q org s (inr (start, end)) =
      summarize today tenant_id q org s start end

  -- `analytics_summary`
  unfoldable pub analytics_summary :
      (String → Option Stamp)
      → ℕ
      → String
      → SummaryRequest
      → Organisation
      → Results F.Carrier
      → ApiError ⊎ Summary F.Carrier
  analytics_summary full today tenant_id q org s =
      if is_bad_dim q.dim
      then inl (invalid_dim (or_else q.dim ""))
      else summary_for today tenant_id q org s
          (resolve_range full today (first_given q.start_date q.from) (first_given q.end_date q.to))
