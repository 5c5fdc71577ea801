-- ===== src/Api/Dse/Known.antt =====
-- Which agents src/prooflens/api/dse.py has a scorecard for, and what it counts.
use prooflens.Base.{
  count_cong, ℕ, ◌+◌, ◌≤◌, min, ◌≡◌, refl, sym, ap, ◌∙◌, String, Bool, true, false, not, ◌&&◌, ◌⊎◌,
  inl, inr, List, [], Option, none, some, count, length, take, any, All, is_none, string_eq, leb,
  ltb, ◌==◌, Bool-cases, length-take, arith, date_of, if◌then◌else◌,
}
use prooflens.Engine.Number.{Float}
use prooflens.Service.Ids.{Casing, normalize_id}
use prooflens.Service.Repo.{ResultView, Results}
use prooflens.Service.Nodes.{every_node}
use prooflens.Service.Organisation.{Organisation, get_hierarchy_rows}
use prooflens.Api.DateRange.{Stamp, resolve_range}
use prooflens.Api.Analytics.{tally}
use prooflens.Api.Analytics.Buckets.{BucketKind, build_buckets}
use prooflens.Api.Analytics.Partition.{build_buckets-partition}
use prooflens.Api.Analytics.Summary.{count_reasons}
use prooflens.Api.Results.{no_result}
use prooflens.Api.Results.Overview.{TopReason, sort_counts, all_named}
use prooflens.Api.Results.Counts.{
  IsVocabulary, in_bands-length, count_reasons-IsReasonCount, total-count_reasons,
  total-sort_counts, sort_counts-IsReasonCount, named_total, all_named-total, IsOpened,
  resolve_range-IsOpened,
}
use prooflens.Api.Results.Listed.{
  IsListed, list_node_results-IsListed, listed-Within, listed-IsVocabulary,
}
use prooflens.Api.Dse.Rows.{has_row, row_under-latest}
use prooflens.Api.Dse.Scorecard.{
  more_frequent, Scorecard, scorecard_limit, agent_query, named_card, agent_row, agent_results,
  card_of, card_for, dse_scorecard,
}
use prooflens.Api.Dse.Counted.{
  trend_total, trend_total-map, count_mono, is_of_agent, is_of_agent_in, asked-of_agent_in,
  asked-of_agent,
}

unknown_agent :
    (m o : Bool) (t a : ℕ) → m ≡ not o → (m && t == 0 && a == 0) ≡ true → (o ≡ false) × (a ≡ 0)
unknown_agent m o t a e h = ground arith

known_agent :
    (m o : Bool) (t a n : ℕ)
    → m ≡ not o
    → t ≤ n
    → a ≡ n
    → (m && t == 0 && a == 0) ≡ false
    → (o ≡ true) ⊎ (1 ≤ n)
known_agent m true t a n e le same h = inl refl
known_agent m false t a n e le same h = inr (ground arith)

module _ (F : Float) (C : Casing) (today : ℕ) (tenant_id agent_id : String) (bucket : BucketKind)
    (org : Organisation) (s : Results F.Carrier) where
  abbrev pub in_range : ℕ → ℕ → ℕ
  in_range start end = count (is_of_agent_in C tenant_id agent_id start end) s.results

  abbrev pub ever : ℕ
  ever = count (is_of_agent C tenant_id agent_id) s.results

  -- The organisation has a row of the agent.
  abbrev pub has_agent : Bool
  has_agent = has_row (normalize_id C (some agent_id)) (get_hierarchy_rows tenant_id org)

  abbrev pub IsCard : ℕ → ℕ → Scorecard F.Carrier → Type 0
  IsCard start end v =
      (v.counts.total ≡ min scorecard_limit (in_range start end))
      × (v.counts.clear + v.counts.doubtful + v.counts.suspect + v.counts.unassessed
          ≡ v.counts.total)
      × (trend_total v.trend ≡ v.counts.total)
      × (named_total v.top_reasons ≡ v.counts.total)
      × (v.truncated ≡ ltb scorecard_limit (in_range start end))

  card_of-IsCard :
      (found : List (ResultView F.Carrier)) (start end : ℕ)
      → IsOpened (start, end)
      → 1 ≤ date_of start
      → All IsVocabulary s.results
      → IsListed C
          (get_hierarchy_rows tenant_id org)
          tenant_id
          (agent_query scorecard_limit agent_id (some start) (some end))
          every_node
          s
          found
      → (top : List TopReason) × (all_named
            (sort_counts more_frequent (count_reasons [] (take scorecard_limit found)))
          ≡ some top)
        × IsCard start end (
            card_of F C today tenant_id agent_id bucket org s
              (take scorecard_limit found)
              (length found)
              start
              end
              top)
  unfolding tally
  card_of-IsCard found start end (first, last, opened, ordered) one known listed =
      let hier = get_hierarchy_rows tenant_id org in
      let q = agent_query scorecard_limit agent_id (some start) (some end) in
      let items = take scorecard_limit found in
      let vocabulary =
        listed-IsVocabulary C hier tenant_id q every_node s found scorecard_limit known listed in
      let reasons = count_reasons-IsReasonCount [] items tt vocabulary in
      let (top, named, sum) =
        all_named-total (sort_counts more_frequent (count_reasons [] items))
          (sort_counts-IsReasonCount more_frequent (count_reasons [] items) reasons) in
      let closes = ap (λ r. r.1) opened in
      let within =
        listed-Within C hier tenant_id q every_node s found start end (last + 1) scorecard_limit
          refl (ap some closes) closes listed in
      let filled = (build_buckets-partition F items start end today bucket one).1 within in
      let same =
        listed.1
        ∙ count_cong _ _ (asked-of_agent_in C tenant_id agent_id hier scorecard_limit start end)
            s.results in
      (
        top,
        named,
        (
          length-take scorecard_limit found ∙ ap (min scorecard_limit) same,
          in_bands-length items vocabulary,
          trend_total-map F (build_buckets F items start end bucket today) ∙ filled,
          sum
              ∙ total-sort_counts more_frequent (count_reasons [] items)
              ∙ omega (arith, total-count_reasons [] items),
          ap (ltb scorecard_limit) same,
        ),
      )

  abbrev guard : ℕ → ℕ → Bool
  guard total any_total =
      is_none (agent_row F C today tenant_id agent_id bucket org s) && total == 0 && any_total == 0

  answered :
      (start end any_total : ℕ) (items : List (ResultView F.Carrier)) (total : ℕ)
      → agent_results F C today tenant_id agent_id bucket org s scorecard_limit
          (some start)
          (some end)
        ≡ (items, total)
      → (agent_results F C today tenant_id agent_id bucket org s 1 none none).1 ≡ any_total
      → card_for F C today tenant_id agent_id bucket org s (inr (start, end)) ≡ (
          if guard total any_total
          then inl no_result
          else named_card F
              (card_of F C today tenant_id agent_id bucket org s items total start end)
              (all_named (sort_counts more_frequent (count_reasons [] items))))
  answered start end any_total items total page any = rw (page, any)

  in_range-le-ever : (start end : ℕ) → in_range start end ≤ ever
  in_range-le-ever start end =
      count_mono (is_of_agent_in C tenant_id agent_id start end) (is_of_agent C tenant_id agent_id)
        s.results (λ r h. first (is_of_agent C tenant_id agent_id r) (leb start r.created_at) _ h)
    where
      first : (a b c : Bool) → (a && b && c) ≡ true → a ≡ true
      first a b c h = ground arith

  -- For a range that parses and begins at a date, over stored results of the fixed vocabulary: the
  -- agent is not found where the organisation has no row of its id and no result was ever its own.
  -- Otherwise there is a scorecard, of the agent's results in the range or 5000 of them where there
  -- are more, which it says. Its bands, its trend and its reasons each add up to that number.
  pub dse_scorecard-known :
      (full : String → Option Stamp) (from to : Option String) (start end : ℕ)
      → resolve_range full today from to ≡ inr (start, end)
      → 1 ≤ date_of start
      → All IsVocabulary s.results
      → ((dse_scorecard F C today tenant_id agent_id bucket org s full from to ≡ inl no_result)
          × (has_agent ≡ false)
          × (ever ≡ 0))
        ⊎ ((v : Scorecard F.Carrier) × (dse_scorecard F C today tenant_id agent_id bucket org s full
                from to
              ≡ inr v)
            × IsCard start end v
            × ((has_agent ≡ true) ⊎ (1 ≤ ever)))
  unfolding dse_scorecard
  dse_scorecard-known full from to start end range one known =
      let hier = get_hierarchy_rows tenant_id org in
      let (found, listed) =
        list_node_results-IsListed C hier tenant_id
          (agent_query scorecard_limit agent_id (some start) (some end)) every_node s refl in
      let (every, listed') =
        list_node_results-IsListed C hier tenant_id (agent_query 1 agent_id none none) every_node s
          refl in
      let (top, named, card) =
        card_of-IsCard found start end
          (resolve_range-IsOpened full today from to (start, end) range) one known listed in
      let answer =
        answered start end (length every) (take scorecard_limit found) (length found) listed.0
          (ap (λ p. p.1) listed'.0) in
      let own = row_under-latest (normalize_id C (some agent_id)) hier in
      let always =
        listed'.1 ∙ count_cong _ _ (asked-of_agent C tenant_id agent_id hier 1) s.results in
      let within = in_range-le-ever start end in
      let same =
        listed.1
        ∙ count_cong _ _ (asked-of_agent_in C tenant_id agent_id hier scorecard_limit start end)
            s.results in
      elim (Bool-cases (guard (length found) (length every))) [
        | inl unknown ↦
            let (without, never) = unknown_agent _ has_agent _ _ own unknown in
            inl (rw range (answer ∙ rw unknown), without, sym always ∙ never)
        | inr found' ↦ inr (
          card_of F C today tenant_id agent_id bucket org s (take scorecard_limit found)
              (length found) start end top,
          rw range (answer ∙ rw (found', named)),
          card,
          known_agent _ has_agent _ _ ever own (omega (arith, same, within)) always found',
        )
      ]
