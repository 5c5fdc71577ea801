-- ===== src/Api/Results/Totals.antt =====
-- The overview of src/prooflens/api/scoring.py as a count of the stored results.
use prooflens.Base.{
  ℕ, ◌+◌, ◌-◌, ◌<◌, min, ◌≡◌, refl, ap, ◌∙◌, String, Bool, false, ◌&&◌, inr, List, [], Option, some,
  count, count_cong, length, take, All, length-take, str_eq, leb, ltb, arith, date_of, midnight,
}
use prooflens.Engine.Number.{Float}
use prooflens.Service.Ids.{Casing}
use prooflens.Service.Hierarchy.{HierarchyRow}
use prooflens.Service.Repo.{ResultView, Results, matches}
use prooflens.Service.Nodes.{NodeFilter, node_filter}
use prooflens.Service.Organisation.{Organisation, get_hierarchy_rows}
use prooflens.Api.DateRange.{Stamp, resolve_range}
use prooflens.Api.Analytics.Summary.{count_reasons, aggregate_range}
use prooflens.Api.Analytics.Partition.{totals, build_buckets-partition}
use prooflens.Api.Results.{is_bad_dim}
use prooflens.Api.Results.Listed.{
  listed-Within, listed-IsVocabulary, is_on_node, is_asked, list_node_results-IsListed,
}
use prooflens.Api.Results.Overview.{
  SummaryRequest, TopReason, Summary, first_given, more_common, most_common, all_named,
  summary_limit, range_query, results_in, summary_of, summarize, analytics_summary,
}
use prooflens.Api.Results.Counts.{
  IsVocabulary, in_bands-length, count_reasons-IsReasonCount, total-count_reasons,
  total-sort_counts, sort_counts-IsReasonCount, named_total, all_named-total,
  resolve_range-IsOpened,
}

module _ {R : Type 0} (C : Casing) (hier : List HierarchyRow) (tenant_id : String) where
  -- The result is the tenant's, was scored in the range and belongs to the node.
  abbrev pub is_in : NodeFilter → ℕ → ℕ → ResultView R → Bool
  is_in f start end r =
      (str_eq r.tenant_id tenant_id && leb start r.created_at && ltb r.created_at end)
      && is_on_node C hier tenant_id f r

  is_asked-in :
      (limit start end : ℕ) (f : NodeFilter) (r : ResultView R)
      → is_asked C hier tenant_id (range_query limit start end) f r ≡ is_in f start end r
  unfolding matches
  is_asked-in limit start end f r = ground arith

module _ (F : Float) (C : Casing) (full : String → Option Stamp) (today : ℕ) where
  abbrev pub HasSummary :
      String → SummaryRequest → Organisation → Results F.Carrier → ℕ → ℕ → Type 0
  HasSummary tenant_id q org s start end =
      (v : Summary F.Carrier) × (analytics_summary F C full today tenant_id q org s ≡ inr v)
      × (v.total
          ≡ count
              (is_in C (get_hierarchy_rows tenant_id org) tenant_id (node_filter q.dim q.node) start
                end)
              s.results)
      × (v.clear + v.doubtful + v.suspect + v.unassessed ≡ min summary_limit v.total)
      × (named_total v.top_reasons ≡ min summary_limit v.total)
      × (totals v.aggregate.series ≡ min summary_limit v.total)

  abbrev previous_in :
      String
      → SummaryRequest
      → Organisation
      → Results F.Carrier
      → ℕ
      → ℕ
      → List (ResultView F.Carrier)
  previous_in tenant_id q org s start end =
      (results_in F C tenant_id q org s (midnight (date_of start - (date_of end - date_of start)))
        start).0

  -- The payload for the results that a range finds
  abbrev payload :
      String
      → SummaryRequest
      → Organisation
      → Results F.Carrier
      → ℕ
      → ℕ
      → List (ResultView F.Carrier)
      → ℕ
      → List TopReason
      → Summary F.Carrier
  payload tenant_id q org s start end items n top =
      summary_of F today items n start end
        (aggregate_range F C items (previous_in tenant_id q org s start end)
          (get_hierarchy_rows tenant_id org) start end q.bucket q.group_by today)
        top

  summarize-payload :
      (tenant_id : String) (q : SummaryRequest) (org : Organisation) (s : Results F.Carrier)
      (start end : ℕ) (items : List (ResultView F.Carrier)) (n : ℕ) (top : List TopReason)
      → results_in F C tenant_id q org s start end ≡ (items, n)
      → leb (date_of start) (date_of end - date_of start) ≡ false
      → all_named (most_common (count_reasons [] items)) ≡ some top
      → summarize F C today tenant_id q org s start end
        ≡ inr (payload tenant_id q org s start end items n top)
  summarize-payload tenant_id q org s start end items n top listed later named =
      rw (listed, later, named)

  -- On a valid node and a range that parses and whose previous period begins in year 1 or later,
  -- over stored results of the fixed vocabulary, the summary is returned. Its total is the number
  -- of the tenant's results in the range, of the node where one is asked for. The bands, the
  -- reasons and the buckets each add up to that total, or to 5000 where there are more results than
  -- that.
  pub analytics_summary-adds_up :
      (tenant_id : String) (q : SummaryRequest) (org : Organisation) (s : Results F.Carrier)
      (start end : ℕ)
      → is_bad_dim q.dim ≡ false
      → resolve_range full today (first_given q.start_date q.from) (first_given q.end_date q.to)
        ≡ inr (start, end)
      → date_of end - date_of start < date_of start
      → All IsVocabulary s.results
      → HasSummary tenant_id q org s start end
  unfolding analytics_summary aggregate_range matches
  analytics_summary-adds_up tenant_id q org s start end good range previous known =
      let hier = get_hierarchy_rows tenant_id org in
      let f = node_filter q.dim q.node in
      let (first, last, opened, ordered) = resolve_range-IsOpened full today _ _ _ range in
      let (found, listed) =
        list_node_results-IsListed C hier tenant_id (range_query summary_limit start end) f s
          refl in
      let items = take summary_limit found in
      let vocabulary =
        listed-IsVocabulary C hier tenant_id _ f s found summary_limit known listed in
      let reasons = count_reasons-IsReasonCount [] items tt vocabulary in
      let (top, named, sum) =
        all_named-total (most_common (count_reasons [] items))
          (sort_counts-IsReasonCount more_common (count_reasons [] items) reasons) in
      let length-items = length-take summary_limit found in
      let page = listed.0 in
      let summary : analytics_summary F C full today tenant_id q org s
          ≡ inr (payload tenant_id q org s start end items (length found) top) =
        rw (good, range)
          (summarize-payload tenant_id q org s start end items (length found) top page
            (later (date_of start) (date_of end - date_of start) previous) named) in
      let closes = ap (λ r. r.1) opened in
      let within =
        listed-Within C hier tenant_id (range_query summary_limit start end) f s found start end
          (last + 1) summary_limit refl (ap some closes) closes listed in
      let filled =
        (build_buckets-partition F items start end today q.bucket
            (omega (arith, previous, ap (λ r. r.0) opened, ap (λ r. r.1) opened, ordered))).1
          within in
      (
        payload tenant_id q org s start end items (length found) top,
        summary,
        listed.1
            ∙ count_cong _ _ (is_asked-in C hier tenant_id summary_limit start end f) s.results,
        in_bands-length items vocabulary ∙ length-items,
        sum
            ∙ total-sort_counts more_common (count_reasons [] items)
            ∙ omega (arith, total-count_reasons [] items)
            ∙ length-items,
        filled ∙ length-items,
      )
    where
      later : (a b : ℕ) → b < a → leb a b ≡ false
      later a b h = ground arith
