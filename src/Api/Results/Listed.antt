-- ===== src/Api/Results/Listed.antt =====
-- The first page of a listing of src/prooflens/service/repo.py, for the endpoints that ask for it.
use prooflens.Base.{
  In-reverse, ◌≤◌, ◌<◌, some, true, All, All-In, All-In_intro, In-take, midnight, date_of, subst,
  arith, leb, ltb, ℕ, zero, suc, drop, ◌≡◌, refl, sym, ap, ◌∙◌, String, Bool, true, false, ◌&&◌,
  List, [], ◌∷◌, filter, count, count_cong, count_none, length, take, reverse, In, In-filter,
  length-filter, length-reverse, arith,
}
use prooflens.Service.Ids.{Casing}
use prooflens.Service.Hierarchy.{HierarchyRow}
use prooflens.Api.Results.Counts.{IsVocabulary}
use prooflens.Api.Analytics.{scored_date}
use prooflens.Service.Repo.{from_start, before_end, ResultView, ResultQuery, Results, matches}
use prooflens.Service.Nodes.{NodeFilter, every_node, no_result, at_node, is_at, list_node_results}

module _ {A : Type 0} where
  count-filter : (p q : A → Bool) (xs : List A) → count p (filter q xs) ≡ count (λ x. q x && p x) xs
  count-filter p q [] = refl
  count-filter p q (x ∷ xs) = ground (arith, count-filter p q xs)

take-nil : {A : Type 0} (n : ℕ) → take {A = A} n [] ≡ []
take-nil zero = refl
take-nil (suc n) = refl

and_true : (b : Bool) → b ≡ (b && true)
and_true b = ground arith

and_false : (b : Bool) → false ≡ (b && false)
and_false b = ground arith

module _ {R : Type 0} (C : Casing) (hier : List HierarchyRow) (tenant_id : String) where
  abbrev pub is_on_node : NodeFilter → ResultView R → Bool
  is_on_node every_node r = true
  is_on_node no_result r = false
  is_on_node (at_node field node) r = is_at C hier field node r

  -- The results that a query asks for, in any order
  abbrev pub is_asked : ResultQuery → NodeFilter → ResultView R → Bool
  is_asked q f r = matches C tenant_id q r && is_on_node f r

  -- The page is the front of a list of just these results, and the total is its length.
  abbrev pub IsListed : ResultQuery → NodeFilter → Results R → List (ResultView R) → Type 0
  IsListed q f s found =
      (list_node_results C tenant_id q f hier s ≡ (take q.limit found, length found))
      × (length found ≡ count (is_asked q f) s.results)
      × ((r : ResultView R) → In r found → In r s.results × (matches C tenant_id q r ≡ true))

  pub list_node_results-IsListed :
      (q : ResultQuery) (f : NodeFilter) (s : Results R)
      → q.offset ≡ 0
      → (found : List (ResultView R)) × IsListed q f s found
  unfolding list_node_results
  list_node_results-IsListed q every_node s first =
      let m = matches C tenant_id q in
      let rows = reverse (filter m s.results) in
      (
        rows,
        (
          ap (λ n. (take q.limit (drop n rows), length rows)) first,
          length-reverse (filter m s.results)
              ∙ length-filter m s.results
              ∙ count_cong m _ (λ r. and_true (m r)) s.results,
          λ r i. In-filter m r s.results (In-reverse r (filter m s.results) i),
        ),
      )
  list_node_results-IsListed q no_result s first = (
    [],
    (
      ap (λ l. (l, 0)) (sym (take-nil q.limit)),
      sym (count_none s.results)
          ∙ count_cong _ _ (λ r. and_false (matches C tenant_id q r)) s.results,
      λ r i. absurd i,
    ),
  )
  list_node_results-IsListed q (at_node field node) s first =
      let m = matches C tenant_id q in
      let at = is_at C hier field node in
      let rows = reverse (filter at (filter m s.results)) in
      (
        rows,
        (
          ap (λ n. (take q.limit (drop n rows), length rows)) first,
          length-reverse (filter at (filter m s.results))
              ∙ length-filter at (filter m s.results)
              ∙ count-filter at m s.results,
          λ r i.
              let there =
                In-filter at r (filter m s.results)
                  (In-reverse r (filter at (filter m s.results)) i) in
              In-filter m r s.results there.0,
        ),
      )

  -- The day of the result is one of the days of the range.
  abbrev pub Within : ℕ → ℕ → ResultView R → Type 0
  Within start end r = (date_of start ≤ scored_date r) × (scored_date r < date_of end)

  matches-range :
      (q : ResultQuery) (r : ResultView R)
      → matches C tenant_id q r ≡ true
      → (from_start q.start r.created_at ≡ true) × (before_end q.end r.created_at ≡ true)
  unfolding matches
  matches-range q r h = ground arith

  matches-Within :
      (q : ResultQuery) (start e : ℕ) (r : ResultView R)
      → q.start ≡ some start
      → q.end ≡ some (midnight e)
      → matches C tenant_id q r ≡ true
      → Within start (midnight e) r
  matches-Within q start e r from to h =
      let h' = matches-range q r h in
      let after : leb start r.created_at ≡ true =
        subst (λ o. from_start o r.created_at ≡ true) from h'.0 in
      let before : ltb r.created_at (midnight e) ≡ true =
        subst (λ o. before_end o r.created_at ≡ true) to h'.1 in
      let early : start ≤ r.created_at = ground (arith, after) in
      let late : r.created_at < midnight e = ground (arith, before) in
      (omega (arith, early), omega (arith, late))

  pub listed-Within :
      (q : ResultQuery) (f : NodeFilter) (s : Results R) (found : List (ResultView R))
      (start end e n : ℕ)
      → q.start ≡ some start
      → q.end ≡ some (midnight e)
      → end ≡ midnight e
      → IsListed q f s found
      → All (Within start end) (take n found)
  listed-Within q f s found start end e n from to opened listed =
      All-In_intro (Within start end) (take n found) (λ r i.
        subst (λ t. Within start t r) (sym opened)
          (matches-Within q start e r from to (listed.2 r (In-take r n found i)).1))

  pub listed-IsVocabulary :
      (q : ResultQuery) (f : NodeFilter) (s : Results R) (found : List (ResultView R)) (n : ℕ)
      → All IsVocabulary s.results
      → IsListed q f s found
      → All IsVocabulary (take n found)
  listed-IsVocabulary q f s found n known listed =
      All-In_intro IsVocabulary (take n found)
        (λ r i. All-In IsVocabulary r s.results known (listed.2 r (In-take r n found i)).0)
