-- ===== src/Api/Dse/Counted.antt =====
-- Counts of an agent's results, as src/prooflens/api/dse.py asks for them.
use prooflens.Base.{
  ℕ, suc, ◌+◌, ◌≤◌, ◌≡◌, refl, ap, String, Bool, true, false, ◌&&◌, inl, inr, List, [], ◌∷◌, none,
  some, map, count, string_eq, str_eq, leb, ltb, Bool-cases, arith, if◌then◌else◌,
}
use prooflens.Engine.Number.{Float}
use prooflens.Service.Ids.{Casing, normalize_id}
use prooflens.Service.Hierarchy.{HierarchyRow}
use prooflens.Service.Repo.{ResultView, matches, same_id}
use prooflens.Service.Nodes.{every_node}
use prooflens.Api.Analytics.Buckets.{Bucket}
use prooflens.Api.Analytics.Partition.{totals}
use prooflens.Api.Results.Listed.{is_asked}
use prooflens.Api.Dse.Scorecard.{TrendPoint, agent_query, trend_point}

-- `sum(t["total"] for t in trend)`
abbrev pub trend_total : {R : Type 0} → List (TrendPoint R) → ℕ
trend_total [] = 0
trend_total (t ∷ ts) = t.bucket.counts.total + trend_total ts

pub trend_total-map :
    (F : Float) (bs : List (Bucket F.Carrier)) → trend_total (map (trend_point F) bs) ≡ totals bs
trend_total-map F [] = refl
trend_total-map F (b ∷ bs) = ap (λ n. b.counts.total + n) (trend_total-map F bs)

pub count_mono :
    {A : Type 0} (p q : A → Bool) (xs : List A)
    → ((x : A) → p x ≡ true → q x ≡ true)
    → count p xs ≤ count q xs
count_mono p q [] h = omega arith
count_mono p q (x ∷ xs) h = elim (Bool-cases (p x)) [
  | inl holds ↦ rw (holds, h x holds) (omega (arith, count_mono p q xs h))
  | inr fails ↦ rw fails (at_most (q x) (count_mono p q xs h))
]
  where
    at_most :
        (b : Bool)
        → count p xs ≤ count q xs
        → count p xs ≤ (if b then suc (count q xs) else count q xs)
    at_most true h = omega arith
    at_most false h = h

module _ {R : Type 0} (C : Casing) (tenant_id agent_id : String) where
  -- The result is the tenant's and the agent's, by the normal form of the ids.
  abbrev pub is_of_agent : ResultView R → Bool
  is_of_agent r =
      str_eq r.tenant_id tenant_id
      && same_id (normalize_id C r.rep_id) (normalize_id C (some agent_id))

  abbrev pub is_of_agent_in : ℕ → ℕ → ResultView R → Bool
  is_of_agent_in start end r = is_of_agent r && leb start r.created_at && ltb r.created_at end

  pub asked-of_agent_in :
      (hier : List HierarchyRow) (limit start end : ℕ) (r : ResultView R)
      → is_asked C hier tenant_id (agent_query limit agent_id (some start) (some end)) every_node r
        ≡ is_of_agent_in start end r
  unfolding matches
  asked-of_agent_in hier limit start end r = ground arith

  pub asked-of_agent :
      (hier : List HierarchyRow) (limit : ℕ) (r : ResultView R)
      → is_asked C hier tenant_id (agent_query limit agent_id none none) every_node r
        ≡ is_of_agent r
  unfolding matches
  asked-of_agent hier limit r = ground arith
