-- ===== src/Db/Repo/Refined.antt =====
-- `list_results` of src/prooflens/db/repo.py beside that of InMemoryRepo in
-- src/prooflens/service/repo.py.
use mathlib.Core.List.{reverse-cons}
use prooflens.Base.{
  In-reverse, ℕ, ◌≤◌, String, ◌≡◌, refl, sym, ap, ◌∙◌, ◌≢◌, inl, inr, Bool, false, ◌&&◌, List, [],
  ◌∷◌, ◌++◌, Option, none, some, map, filter, reverse, drop, ltb, str_eq, All, All-In, All-In_intro,
  Bool-cases, arith, map-take, map-drop, map-reverse, filter-map, filter-reverse, All-filter,
  length-map, date_of,
}
use prooflens.Engine.Number.{Float}
use prooflens.Queue.Jobs.{Job}
use prooflens.Service.Ids.{Casing, normalize_id}
use prooflens.Service.Hierarchy.{HierarchyRow, NodeField, node_match}
use prooflens.Service.Repo.{
  ResultView, ResultQuery, AuditEvent, asked, same_id, review_is, from_start, before_end, matches,
  rep_is,
}
use prooflens.Service.Nodes.{
  NodeFilter, every_node, no_result, at_node, page_of, is_at, list_node_results,
}
use prooflens.Service.Processor.{JobPayload}
use prooflens.Db.Repo.{
  ResultRow, band_is, column_is, row_matches, row_is_at, insert_latest, latest_first, view_of,
  to_view, row_page, rows_asked, listed, pg_list_results,
}

module _ {R : Type 0} where
  abbrev NotBefore : ResultRow R → ResultRow R → Type 0
  NotBefore r q = r.created_at ≤ q.created_at

  -- Rows are inserted in the order of their times.
  abbrev pub IsChronological : List (ResultRow R) → Type 0
  IsChronological [] = Unit
  IsChronological (r ∷ rows) = All (λ q. r.created_at ≤ q.created_at) rows × IsChronological rows

  insert_latest-last :
      (r : ResultRow R) (rows : List (ResultRow R))
      → All (NotBefore r) rows
      → insert_latest r rows ≡ rows ++ r ∷ []
  insert_latest-last r [] h = refl
  insert_latest-last r (q ∷ rows) h =
      rw (ltb_false q.created_at r.created_at h.0, insert_latest-last r rows h.1)
    where
      ltb_false : (a b : ℕ) → b ≤ a → ltb a b ≡ false
      ltb_false a b le = ground arith

  latest_first-reverse :
      (rows : List (ResultRow R)) → IsChronological rows → latest_first rows ≡ reverse rows
  unfolding latest_first
  latest_first-reverse [] h = refl
  latest_first-reverse (r ∷ rows) h =
      ap (insert_latest r) (latest_first-reverse rows h.1)
      ∙ insert_latest-last r (reverse rows) (
          All-In_intro (NotBefore r) (reverse rows)
            (λ q i. All-In (NotBefore r) q rows h.0 (In-reverse q rows i)))
      ∙ sym (reverse-cons r rows)

  filter-IsChronological :
      (p : ResultRow R → Bool) (rows : List (ResultRow R))
      → IsChronological rows
      → IsChronological (filter p rows)
  filter-IsChronological p [] h = tt
  filter-IsChronological p (r ∷ rows) h = elim (Bool-cases (p r)) [
    | inl holds ↦ rw holds (All-filter p (NotBefore r) rows h.0, filter-IsChronological p rows h.1)
    | inr fails ↦ rw fails (filter-IsChronological p rows h.1)
  ]

asked-band : (band : Option String) (x : String) → band ≢ some "" → asked band x ≡ band_is band x
asked-band none x h = refl
asked-band (some String.[]) x h = absurd (h refl)
asked-band (some (String.◌∷◌ c s)) x h = refl

-- Two conditions of seven are replaced by equal ones.
seven_conditions :
    (a b b' c d d' e f g : Bool)
    → b ≡ b'
    → d ≡ d'
    → (a && b && c && d && e && f && g) ≡ (a && b' && c && d' && e && f && g)
seven_conditions a b b' c d d' e f g p q = rw (p, q)

module _ (F : Float) (C : Casing) (jobs : List (Job JobPayload)) where
  -- The row holds its representative itself, normalized, as `record_result` writes it.
  abbrev pub IsCurrent : ResultRow F.Carrier → Type 0
  IsCurrent r = ((view_of F jobs r).rep_id ≡ r.rep_id) × (normalize_id C r.rep_id ≡ r.rep_id)

  abbrev pub view_list : List (ResultRow F.Carrier) → List (ResultView F.Carrier)
  view_list rows = map (view_of F jobs) rows

  rep_is-column :
      (want rep column : Option String)
      → rep ≡ column
      → normalize_id C column ≡ column
      → rep_is C want rep ≡ column_is C want column
  rep_is-column none rep column p n = refl
  rep_is-column (some want) rep column p n =
      ap (λ x. same_id x (normalize_id C (some want))) (ap (normalize_id C) p ∙ n)

  matches-view :
      (tid : String) (q : ResultQuery) (r : ResultRow F.Carrier)
      → q.band ≢ some ""
      → IsCurrent r
      → matches C tid q (view_of F jobs r) ≡ row_matches C tid q r
  unfolding matches row_matches to_view
  matches-view tid q r h cur =
      seven_conditions (str_eq r.tenant_id tid) _ _ (asked q.reason r.reason_code) _ _
        (review_is q.review r.review_status) (from_start q.start r.created_at)
        (before_end q.end r.created_at) (asked-band q.band r.band h)
        (rep_is-column q.rep_id _ r.rep_id cur.0 cur.1)

  is_at-view :
      (hier : List HierarchyRow) (field : NodeField) (node : String) (r : ResultRow F.Carrier)
      → IsCurrent r
      → is_at C hier field node (view_of F jobs r) ≡ row_is_at C hier field node r
  unfolding to_view
  is_at-view hier field node r cur =
      ap (λ rep. node_match C hier rep (date_of r.created_at) field node) cur.0

  -- A filter of the views, newest first, is the view of the same filter of the rows.
  filter-view :
      (p : ResultView F.Carrier → Bool) (p' : ResultRow F.Carrier → Bool)
      (rows : List (ResultRow F.Carrier))
      → ((r : ResultRow F.Carrier) → IsCurrent r → p (view_of F jobs r) ≡ p' r)
      → All IsCurrent rows
      → filter p (view_list rows) ≡ view_list (filter p' rows)
  filter-view p p' rows agree cur = filter-map (view_of F jobs) p p' rows (
      All-In_intro (λ r. p (view_of F jobs r) ≡ p' r) rows
        (λ r i. agree r (All-In IsCurrent r rows cur i)))

  page-view :
      (q : ResultQuery) (rows : List (ResultRow F.Carrier))
      → row_page F jobs q rows ≡ page_of q (view_list rows)
  page-view q rows = rw (
    map-take (view_of F jobs) q.limit (drop q.offset rows),
    map-drop (view_of F jobs) q.offset rows,
    length-map (view_of F jobs) rows,
  )

  module _ (tid : String) (q : ResultQuery) (table : List (ResultRow F.Carrier))
      (given : q.band ≢ some "") (cur : All IsCurrent table) (sorted : IsChronological table) where
    abbrev own : List (ResultRow F.Carrier)
    own = filter (row_matches C tid q) table

    own-IsCurrent : All IsCurrent own
    own-IsCurrent = All-filter (row_matches C tid q) IsCurrent table cur

    own-view : filter (matches C tid q) (view_list table) ≡ view_list own
    own-view =
        filter-view (matches C tid q) (row_matches C tid q) table
          (λ r c. matches-view tid q r given c) cur

    asked-reverse : rows_asked F C tid q table ≡ reverse own
    unfolding rows_asked
    asked-reverse =
        latest_first-reverse own (filter-IsChronological (row_matches C tid q) table sorted)

    listed-refines :
        (at : NodeFilter) (hier : List HierarchyRow) (log : List AuditEvent)
        → listed F C jobs q at hier table (some tid)
          ≡ some (
              list_node_results C tid q at hier
                (record { results = view_list table; audit_log = log }))
    unfolding list_node_results
    listed-refines every_node hier log = ap some (
        page-view q (rows_asked F C tid q table)
        ∙ ap (page_of q) (
            ap view_list asked-reverse
            ∙ map-reverse (view_of F jobs) own
            ∙ ap reverse (sym own-view)))
    listed-refines no_result hier log = refl
    listed-refines (at_node field node) hier log = ap some (
        page-view q (filter (row_is_at C hier field node) (rows_asked F C tid q table))
        ∙ ap (page_of q) (
            ap (λ rows. view_list (filter (row_is_at C hier field node) rows)) asked-reverse
            ∙ ap view_list (filter-reverse (row_is_at C hier field node) own)
            ∙ map-reverse (view_of F jobs) (filter (row_is_at C hier field node) own)
            ∙ ap reverse (
                sym (
                  ap (filter (is_at C hier field node)) own-view
                  ∙ filter-view (is_at C hier field node) (row_is_at C hier field node) own
                      (λ r c. is_at-view hier field node r c) own-IsCurrent))))

  -- On a table in the order of its times, whose rows hold their representatives normalized,
  -- Postgres lists the same page and total as the in-memory repository on the views of the rows,
  -- with or without a filter on a node. The tenant's id is in its canonical form, and the band that
  -- is asked for is not the empty text, which Postgres takes for no band at all.
  pub pg_list_results-refines :
      (uuid : String → Option String) (tenant_id : String) (q : ResultQuery) (at : NodeFilter)
      (hier : List HierarchyRow) (table : List (ResultRow F.Carrier)) (log : List AuditEvent)
      → uuid tenant_id ≡ some tenant_id
      → q.band ≢ some ""
      → All IsCurrent table
      → IsChronological table
      → pg_list_results F uuid C jobs tenant_id q at hier table
        ≡ some (
            list_node_results C tenant_id q at hier
              (record { results = view_list table; audit_log = log }))
  unfolding pg_list_results
  pg_list_results-refines uuid tenant_id q at hier table log canonical given cur sorted =
      ap (listed F C jobs q at hier table) canonical
      ∙ listed-refines tenant_id q table given cur sorted at hier log
