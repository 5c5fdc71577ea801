-- ===== src/Api/Analytics.antt =====
-- src/prooflens/api/analytics.py: counts over stored results. The parts that slice the results by
-- time and by the organisation are in the children Buckets and Groups.
pub mod Buckets
pub mod Groups
pub mod Summary
pub mod Cover
pub mod Partition
pub mod Filed
pub mod Grouping
pub mod Keyed
pub mod Belonging
mod Tests
use prooflens.Base.{
  ℕ, zero, suc, ◌+◌, ◌-◌, ◌/◌, ◌%◌, String, Bool, true, false, ◌||◌, List, [], ◌∷◌, Option, none,
  some, map, length, count, str_eq, ◌==◌, pos, if◌then◌else◌, date_of, get_elem?, or_else,
}
use prooflens.Engine.Number.{Float, average, ratio, zero_float}
use prooflens.Engine.Verdicts.{Reason, reason_value}
use prooflens.Service.Hierarchy.{NodeField, same_text}
use prooflens.Service.Repo.{ResultView}

-- What a group is made by: a field of the organisation, or the agent
pub data GroupField : Type 0 where
  node_field : NodeField → GroupField
  agent : GroupField

-- GROUP_BY_FIELD
unfoldable pub group_by_field : String → Option GroupField
group_by_field dim =
    if str_eq dim "zone"
    then some (node_field NodeField.zonal_head_field)
    else if str_eq dim "srsm"
    then some (node_field NodeField.srsm_field)
    else if str_eq dim "rsm"
    then some (node_field NodeField.rsm_field)
    else if str_eq dim "sm"
    then some (node_field NodeField.sm_field)
    else if str_eq dim "branch"
    then some (node_field NodeField.branch_field)
    else if str_eq dim "city"
    then some (node_field NodeField.city_field)
    else if str_eq dim "agent"
    then some agent
    else none

abbrev pub scored_date : {R : Type 0} → ResultView R → ℕ
scored_date r = date_of r.created_at

abbrev pub has_band : {R : Type 0} → String → ResultView R → Bool
has_band band r = str_eq r.band band

pub record Tally (R : Type 0) : Type 0 where
  pub clear : ℕ
  pub doubtful : ℕ
  pub suspect : ℕ
  pub unassessed : ℕ
  pub total : ℕ
  pub avg_score : R

-- FlagPrecision and the status of a review that it counts
pub record FlagPrecision (R : Type 0) : Type 0 where
  pub reviewed : ℕ
  pub confirmed : ℕ
  pub overturned : ℕ
  pub precision_pct : Option R

pub record SystemHealth (R : Type 0) : Type 0 where
  pub scored_without_content_pct : Option R
  pub median_processing_ms : Option R

abbrev pub is_confirmed : Option String → Bool
is_confirmed status = same_text status "reject"

abbrev pub is_overturned : Option String → Bool
is_overturned status = same_text status "approve" || same_text status "false_positive"

module _ {R : Type 0} where
  -- The loop of `flag_precision`
  unfoldable pub flag_counts : ℕ → ℕ → List (ResultView R) → ℕ × ℕ
  flag_counts confirmed overturned [] = (confirmed, overturned)
  flag_counts confirmed overturned (r ∷ items) =
      let skipped = flag_counts confirmed overturned items in
      let one_confirmed = flag_counts (confirmed + 1) overturned items in
      let one_overturned = flag_counts confirmed (overturned + 1) items in
      if has_band "Clear" r || has_band "Unassessed" r
      then skipped
      else if is_confirmed r.review_status
      then one_confirmed
      else if is_overturned r.review_status
      then one_overturned
      else skipped

module _ (F : Float) where
  open F use {Carrier, le, add, div, mul, of_int, round1}

  -- `_tally`
  unfoldable pub tally : List (ResultView Carrier) → Tally Carrier
  tally items = record {
    clear = count (has_band "Clear") items;
    doubtful = count (has_band "Doubtful") items;
    suspect = count (has_band "Suspect") items;
    unassessed = count (has_band "Unassessed") items;
    total = length items;
    avg_score = average F (map (λ r. r.score) items);
  }

  -- `round(n / total * 100, 1)` where the total is not 0
  abbrev pub percent : ℕ → ℕ → Option Carrier
  percent n total =
      if total == 0
      then none
      else some (round1 (mul (ratio F (of_int (pos n)) total) (of_int (pos 100))))

  -- `flag_precision`
  unfoldable pub flag_precision : List (ResultView Carrier) → FlagPrecision Carrier
  flag_precision items =
      let (confirmed, overturned) = flag_counts 0 0 items in
      record {
        reviewed = confirmed + overturned;
        confirmed = confirmed;
        overturned = overturned;
        precision_pct = percent confirmed (confirmed + overturned);
      }

  -- `statistics.median`: of an even number of values, the mean of the middle two
  abbrev pub insert_float : Carrier → List Carrier → List Carrier
  insert_float x [] = x ∷ []
  insert_float x (y ∷ ys) = if le x y then x ∷ y ∷ ys else y ∷ insert_float x ys

  abbrev pub sort_floats : List Carrier → List Carrier
  sort_floats [] = []
  sort_floats (x ∷ xs) = insert_float x (sort_floats xs)

  abbrev pub nth : List Carrier → ℕ → Carrier
  nth xs i = or_else (get_elem? xs i) (zero_float F)

  unfoldable pub median : List Carrier → Carrier
  median xs =
      let sorted = sort_floats xs in
      let half = length xs / 2 in
      if length xs % 2 == 1
      then nth sorted half
      else ratio F (add (nth sorted (half - 1)) (nth sorted half)) 2

  -- `system_health`
  unfoldable pub system_health : List (ResultView Carrier) → SystemHealth Carrier
  system_health [] = record { scored_without_content_pct = none; median_processing_ms = none }
  system_health (r ∷ items) = record {
    scored_without_content_pct =
        percent
          (count (λ x. str_eq x.reason_code (reason_value Reason.no_content_analysis)) (r ∷ items))
          (length (r ∷ items));
    median_processing_ms = some (round1 (median (map (λ x. x.processing_ms) (r ∷ items))));
  }
