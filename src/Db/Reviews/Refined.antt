-- ===== src/Db/Reviews/Refined.antt =====
-- `record_review` of src/prooflens/db/repo.py beside that of InMemoryRepo in
-- src/prooflens/service/repo.py.
use mathlib.Core.List.{map-append}
use prooflens.Base.{
  ℕ, String, ◌≡◌, refl, sym, ap, ◌∙◌, subst, ◌⊎◌, inl, inr, Bool, true, List, [], ◌∷◌, ◌++◌, Option,
  none, some, map, find, ◌&&◌, ◌==◌, ==_iff, eq_iff, str_eq, Bool-cases, arith,
}
use prooflens.Engine.Number.{Float}
use prooflens.Queue.Jobs.{Job}
use prooflens.Service.Repo.{
  ResultView, Results, is_result, get_result, reviewed, update_first, record_review,
}
use prooflens.Service.Processor.{JobPayload}
use prooflens.Db.Repo.{ResultRow, view_of, to_view}
use prooflens.Db.Reviews.{
  Tables, is_row, found_row, decided_row, update_row, stored_review, review_row, is_review_storable,
  pg_record_review,
}

module _ (F : Float) (jobs : List (Job JobPayload)) where
  -- What the tables show: the views of the rows and the audited events
  abbrev pub shown : Tables F.Carrier → Results F.Carrier
  shown s = record {
    results = map (view_of F jobs) s.rows;
    audit_log = map (λ a. a.decided) s.audit;
  }

  abbrev viewed : Option (ResultRow F.Carrier) → Option (ResultView F.Carrier)
  viewed none = none
  viewed (some r) = some (view_of F jobs r)

  find-view :
      (rid : ℕ) (tid : String) (rows : List (ResultRow F.Carrier))
      → find (is_result rid tid) (map (view_of F jobs) rows) ≡ viewed (find (is_row rid tid) rows)
  unfolding to_view
  find-view rid tid [] = refl
  find-view rid tid (r ∷ rows) = elim (Bool-cases (is_row rid tid r)) [
    | inl holds ↦ rw holds
    | inr fails ↦ rw (fails, find-view rid tid rows)
  ]

  update-view :
      (rid : ℕ) (tid decision : String) (note : Option String) (reviewer : String) (now : ℕ)
      (rows : List (ResultRow F.Carrier))
      → update_first
          (is_result rid tid)
          (reviewed decision note reviewer now)
          (map (view_of F jobs) rows)
        ≡ map
            (view_of F jobs)
            (update_row (is_row rid tid) (decided_row decision note reviewer now) rows)
  unfolding to_view
  update-view rid tid decision remark reviewer now [] = refl
  update-view rid tid decision remark reviewer now (r ∷ rows) =
      elim (Bool-cases (is_row rid tid r)) [
        | inl holds ↦ rw holds
        | inr fails ↦ rw (fails, update-view rid tid decision remark reviewer now rows)
      ]

  -- The row that is found has the two ids that were asked for.
  find-is_row :
      (rid : ℕ) (tid : String) (r : ResultRow F.Carrier) (rows : List (ResultRow F.Carrier))
      → find (is_row rid tid) rows ≡ some r
      → (r.id ≡ rid) × (r.tenant_id ≡ tid)
  find-is_row rid tid r [] h = absurd (none_ne h)
    where
      none_ne : {x : ResultRow F.Carrier} → none ≡ some x → ⊥
      none_ne e = cc
  find-is_row rid tid r (q ∷ rows) h = elim (Bool-cases (is_row rid tid q)) [
    | inl holds ↦
        let same = some_inj {x = q} {y = r} (rw holds at h) in
        let found = both (q.id == rid) (str_eq q.tenant_id tid) holds in
        (
          ap (λ x. x.id) (sym same) ∙ (==_iff q.id rid).0 found.0,
          ap (λ x. x.tenant_id) (sym same) ∙ (eq_iff q.tenant_id tid).0 found.1,
        )
    | inr fails ↦ find-is_row rid tid r rows (rw fails at h)
  ]
    where
      some_inj : {x y : ResultRow F.Carrier} → some x ≡ some y → x ≡ y
      some_inj e = cc

      both : (a b : Bool) → (a && b) ≡ true → (a ≡ true) × (b ≡ true)
      both a b e = ground arith

  abbrev pub shown_outcome :
      Option (ResultView F.Carrier) × Tables F.Carrier
      → Option (ResultView F.Carrier) × Results F.Carrier
  shown_outcome (view, s) = (view, shown s)

  module _ (uuid_of : String → Option ℕ) (uuid : String → Option String) (decision : String)
      (remark : Option String) (reviewer : String) (now rid : ℕ) (tid : String)
      (s : Tables F.Carrier) where
    -- `record_review` in memory after the search for the result
    abbrev after_search :
        Option (ResultView F.Carrier) → Option (ResultView F.Carrier) × Results F.Carrier
    after_search found = elim found [
      | none ↦ (none, shown s)
      | some view ↦ (
        some (reviewed decision remark reviewer now view),
        record {
          results =
              update_first (is_result rid tid) (reviewed decision remark reviewer now)
                (shown s).results;
          audit_log =
              (shown s).audit_log
              ++ record {
                tenant_id = view.tenant_id;
                result_id = rid;
                decision = decision;
                note = remark;
                reviewer = reviewer;
              }
                ∷ [];
        },
      )
    ]

    search-view :
        (found : Option (ResultRow F.Carrier))
        → find (is_row rid tid) s.rows ≡ found
        → record_review rid decision remark reviewer now tid (shown s) ≡ after_search (viewed found)
    unfolding record_review get_result
    search-view found h = ap after_search (find-view rid tid s.rows ∙ ap viewed h)

    stored_review-refines :
        (found : Option (ResultRow F.Carrier))
        → find (is_row rid tid) s.rows ≡ found
        → record_review rid decision remark reviewer now tid (shown s)
          ≡ shown_outcome (stored_review F uuid_of uuid jobs decision remark reviewer now s found)
    unfolding to_view
    stored_review-refines none h = search-view none h
    stored_review-refines (some r) h =
        let (ids, tenants) = find-is_row rid tid r s.rows h in
        search-view (some r) h
        ∙ rw (
          ids,
          tenants,
          update-view rid tid decision remark reviewer now s.rows,
          map-append (λ a. a.decided) s.audit _,
        )

  -- A review that the columns take shows in Postgres as the same review in the in-memory
  -- repository: the same view or none, and after it the same results and audited events. The texts
  -- of the two ids are canonical; where either is not a UUID the answer is none and nothing
  -- changes.
  pub pg_record_review-refines :
      (uuid_of : String → Option ℕ) (uuid : String → Option String) (result_id decision : String)
      (remark : Option String) (reviewer : String) (now : ℕ) (tenant_id : String)
      (s : Tables F.Carrier)
      → is_review_storable F uuid_of uuid jobs decision remark reviewer ≡ true
      → (uuid tenant_id ≡ some tenant_id) ⊎ (uuid tenant_id ≡ none)
      → (r : Option (ResultView F.Carrier) × Tables F.Carrier) × (pg_record_review F uuid_of uuid
            jobs result_id decision remark reviewer now tenant_id s
          ≡ some r)
        × (((rid : ℕ) × (uuid_of result_id ≡ some rid)
              × (record_review rid decision remark reviewer now tenant_id (shown s)
                  ≡ shown_outcome r))
            ⊎ (((uuid_of result_id ≡ none) ⊎ (uuid tenant_id ≡ none)) × (r ≡ (none, s))))
  unfolding pg_record_review
  pg_record_review-refines uuid_of uuid result_id decision remark reviewer now tenant_id s fit
        canonical =
      let found = found_row (uuid_of result_id) (uuid tenant_id) s.rows in
      (
        stored_review F uuid_of uuid jobs decision remark reviewer now s found,
        stored found,
        by_ids (uuid_of result_id) (uuid tenant_id) refl refl canonical,
      )
    where
      stored :
          (found : Option (ResultRow F.Carrier))
          → review_row F uuid_of uuid jobs decision remark reviewer now s found
            ≡ some (stored_review F uuid_of uuid jobs decision remark reviewer now s found)
      stored none = refl
      stored (some r) = rw fit

      by_ids :
          (i : Option ℕ) (t : Option String)
          → uuid_of result_id ≡ i
          → uuid tenant_id ≡ t
          → (t ≡ some tenant_id) ⊎ (t ≡ none)
          → let r =
              stored_review F uuid_of uuid jobs decision remark reviewer now s
                (found_row i t s.rows) in
            ((rid : ℕ) × (uuid_of result_id ≡ some rid)
              × (record_review rid decision remark reviewer now tenant_id (shown s)
                  ≡ shown_outcome r))
            ⊎ (((uuid_of result_id ≡ none) ⊎ (uuid tenant_id ≡ none)) × (r ≡ (none, s)))
      by_ids none t e w c = inr (inl e, refl)
      by_ids (some rid) none e w c = inr (inr w, refl)
      by_ids (some rid) (some tid) e w (inl c) =
          let same = some_inj c in
          inl (
            rid,
            e,
            subst
                (λ t.
                  record_review rid decision remark reviewer now tenant_id (shown s)
                  ≡ shown_outcome (
                      stored_review F uuid_of uuid jobs decision remark reviewer now s
                        (find (is_row rid t) s.rows)))
                (sym same)
                (stored_review-refines uuid_of uuid decision remark reviewer now rid tenant_id s
                  (find (is_row rid tenant_id) s.rows) refl),
          )
        where
          some_inj : {a b : String} → some a ≡ some b → a ≡ b
          some_inj e = cc
      by_ids (some rid) (some tid) e w (inr c) = absurd (none_ne c)
        where
          none_ne : {a : String} → some a ≡ none → ⊥
          none_ne e = cc
