-- ===== src/Api/Analytics/Summary.antt =====
-- The whole payload of src/prooflens/api/analytics.py.
use prooflens.Base.{
  ℕ, ◌+◌, ◌-◌, String, Bool, List, [], ◌∷◌, Option, none, some, any, Dict, lookup, insert,
  string_eq, or_else, isoformat, date_of, str_eq, if◌then◌else◌,
}
use prooflens.Engine.Number.{Float}
use prooflens.Service.Ids.{Casing}
use prooflens.Service.Hierarchy.{HierarchyRow}
use prooflens.Service.Repo.{ResultView}
use prooflens.Api.Analytics.{
  GroupField, group_by_field, Tally, tally, FlagPrecision, flag_precision, SystemHealth,
  system_health,
}
use prooflens.Api.Analytics.Buckets.{BucketKind, Bucket, build_buckets}
use prooflens.Api.Analytics.Groups.{GroupRow, groups}

-- The first and the last day of a period, as texts
pub record Period : Type 0 where
  pub from_day : String
  pub to_day : String

pub record RangeSummary (R : Type 0) : Type 0 where
  pub series : List (Bucket R)
  pub incomplete : Bool
  pub previous : Tally R
  pub period : Period
  pub previous_period : Period
  pub groups : List (GroupRow R)
  pub reason_counts : Dict String ℕ
  pub flag_precision : FlagPrecision R
  pub system_health : SystemHealth R

-- `dict(Counter(r.reason_code for r in items))`
unfoldable pub count_reasons : {R : Type 0} → Dict String ℕ → List (ResultView R) → Dict String ℕ
count_reasons counts [] = counts
count_reasons counts (r ∷ items) =
    count_reasons (insert r.reason_code (or_else (lookup r.reason_code counts) 0 + 1) counts) items

-- The days of a period from its first to the day before its end
abbrev pub period_of : ℕ → ℕ → Period
period_of first after = record { from_day = isoformat first; to_day = isoformat (after - 1) }

module _ (F : Float) (C : Casing) where
  abbrev pub groups_by :
      List (ResultView F.Carrier)
      → List HierarchyRow
      → Option GroupField
      → List (GroupRow F.Carrier)
  groups_by items rows none = []
  groups_by items rows (some field) = groups F C items rows field

  -- `aggregate_range`; `group_by` is one of the keys of GROUP_BY_FIELD, or "none".
  unfoldable pub aggregate_range :
      List (ResultView F.Carrier)
      → List (ResultView F.Carrier)
      → List HierarchyRow
      → ℕ
      → ℕ
      → BucketKind
      → String
      → ℕ
      → RangeSummary F.Carrier
  aggregate_range items prev_items rows start end bucket group_by today =
      let first = date_of start in
      let after = date_of end in
      let series = build_buckets F items start end bucket today in
      record {
        series = series;
        incomplete = any (λ b. b.incomplete) series;
        previous = tally F prev_items;
        period = period_of first after;
        previous_period = period_of (first - (after - first)) first;
        groups =
            if str_eq group_by "none" then [] else groups_by items rows (group_by_field group_by);
        reason_counts = count_reasons [] items;
        flag_precision = flag_precision F items;
        system_health = system_health F items;
      }
