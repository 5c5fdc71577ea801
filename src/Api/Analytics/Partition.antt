-- ===== src/Api/Analytics/Partition.antt =====
-- The results of a range in the buckets of `build_buckets` of src/prooflens/api/analytics.py.
use mathlib.Core.List.{append-nil, append_assoc}
use prooflens.Base.{
  ℕ, ◌+◌, ◌≤◌, ◌<◌, ◌≡◌, refl, sym, ap, ◌∙◌, Bool, true, List, [], ◌∷◌, ◌++◌, map, filter, count,
  length, All, Bool-cases, inl, inr, arith, if◌then◌else◌, date_of,
}
use prooflens.Engine.Number.{Float}
use prooflens.Service.Repo.{ResultView}
use prooflens.Api.Analytics.{scored_date, tally}
use prooflens.Api.Analytics.Buckets.{
  BucketKind, Edge, bucket_edges, in_edge, place, place_all, Bucket, bucket_of, build_buckets,
}
use prooflens.Api.Analytics.Cover.{
  IsChain, bucket_edges-Covers, count-in_edge, count-in_edge_before,
}

map_cong : {A B : Type 0} (f g : A → B) (xs : List A) → ((a : A) → f a ≡ g a) → map f xs ≡ map g xs
map_cong f g [] h = refl
map_cong f g (x ∷ xs) h = cons_eq (h x) (map_cong f g xs h)
  where
    cons_eq : {B : Type 0} {a b : B} {xs ys : List B} → a ≡ b → xs ≡ ys → a ∷ xs ≡ b ∷ ys
    cons_eq p q = cc

module _ {R : Type 0} where
  abbrev holds : ResultView R → Edge → Bool
  holds r b = in_edge (scored_date r) b

  abbrev added : ResultView R → (Edge → List (ResultView R)) → Edge → List (ResultView R)
  added r f b = if holds r b then f b ++ r ∷ [] else f b

  abbrev slices : (Edge → List (ResultView R)) → List Edge → List (Edge × List (ResultView R))
  slices f bs = map (λ b. (b, f b)) bs

  -- Past the slice that holds it, a result changes nothing.
  slices-before :
      (r : ResultView R) (f : Edge → List (ResultView R)) (bs : List Edge)
      → count (holds r) bs ≡ 0
      → slices (added r f) bs ≡ slices f bs
  slices-before r f [] h = refl
  slices-before r f (b ∷ bs) h = ground (arith, slices-before r f bs)

  place-slices :
      (r : ResultView R) (f : Edge → List (ResultView R)) (bs : List Edge) (lo hi : ℕ)
      → IsChain lo bs hi
      → place r (slices f bs) ≡ slices (added r f) bs
  place-slices r f [] lo hi c = refl
  place-slices r f (b ∷ bs) lo hi c = elim (Bool-cases (holds r b)) [
    | inl here ↦
        rw here (ap (λ l. (b, f b ++ r ∷ []) ∷ l) (sym (slices-before r f bs (after here))))
    | inr there ↦ rw (there, place-slices r f bs b.closes hi c.2)
  ]
    where
      after : holds r b ≡ true → count (holds r) bs ≡ 0
      after here = count-in_edge_before (scored_date r) b.closes hi bs c.2 (ground arith)

  abbrev sliced : List (ResultView R) → (Edge → List (ResultView R)) → Edge → List (ResultView R)
  sliced items f b = f b ++ filter (λ r. holds r b) items

  sliced-added :
      (r : ResultView R) (items : List (ResultView R)) (f : Edge → List (ResultView R)) (b : Edge)
      → sliced items (added r f) b ≡ sliced (r ∷ items) f b
  sliced-added r items f b = elim (Bool-cases (holds r b)) [
    | inl here ↦ rw here (append_assoc (f b) (r ∷ []) (filter (λ x. holds x b) items))
    | inr there ↦ rw there
  ]

  -- Each slice ends up with what it held and the results of its days, in order.
  place_all-slices :
      (items : List (ResultView R)) (f : Edge → List (ResultView R)) (bs : List Edge) (lo hi : ℕ)
      → IsChain lo bs hi
      → place_all items (slices f bs) ≡ slices (sliced items f) bs
  unfolding place_all
  place_all-slices [] f bs lo hi c =
      map_cong (λ b. (b, f b)) (λ b. (b, f b ++ [])) bs
        (λ b. ap (λ l. (b, l)) (sym (append-nil (f b))))
  place_all-slices (r ∷ items) f bs lo hi c =
      ap (place_all items) (place-slices r f bs lo hi c)
      ∙ place_all-slices items (added r f) bs lo hi c
      ∙ map_cong (λ b. (b, sliced items (added r f) b)) (λ b. (b, sliced (r ∷ items) f b)) bs
          (λ b. ap (λ l. (b, l)) (sliced-added r items f b))

  -- The sizes of the slices add up to the results, each counted in as many slices as hold it.
  abbrev sizes : List (ResultView R) → List Edge → ℕ
  sizes items [] = 0
  sizes items (b ∷ bs) = length (filter (λ r. holds r b) items) + sizes items bs

  sizes-cons :
      (r : ResultView R) (items : List (ResultView R)) (bs : List Edge)
      → sizes (r ∷ items) bs ≡ count (holds r) bs + sizes items bs
  sizes-cons r items [] = refl
  sizes-cons r items (b ∷ bs) = ground (arith, sizes-cons r items bs)

  sizes-length :
      (items : List (ResultView R)) (bs : List Edge) (lo hi : ℕ)
      → IsChain lo bs hi
      → All (λ (r : ResultView R). (lo ≤ scored_date r) × (scored_date r < hi)) items
      → sizes items bs ≡ length items
  sizes-length [] [] lo hi c h = refl
  sizes-length [] (b ∷ bs) lo hi c h = omega (arith, sizes-length [] bs b.closes hi c.2 tt)
  sizes-length (r ∷ items) bs lo hi c h = omega (
    arith,
    sizes-cons r items bs,
    count-in_edge (scored_date r) lo hi bs c h.0.0 h.0.1,
    sizes-length items bs lo hi c h.1,
  )

-- `sum(b["total"] for b in buckets)`
abbrev pub totals : {R : Type 0} → List (Bucket R) → ℕ
totals [] = 0
totals (b ∷ bs) = b.counts.total + totals bs

module _ (F : Float) (items : List (ResultView F.Carrier)) (start end today : ℕ) where
  -- A bucket of the results of its days
  abbrev pub bucket_on : Edge → Bucket F.Carrier
  bucket_on b = bucket_of F (date_of end) today (b, filter (λ r. in_edge (scored_date r) b) items)

  map-bucket_of :
      (bs : List Edge)
      → map (bucket_of F (date_of end) today) (slices (sliced items (λ _. [])) bs)
        ≡ map bucket_on bs
  map-bucket_of [] = refl
  map-bucket_of (b ∷ bs) = ap (λ l. bucket_on b ∷ l) (map-bucket_of bs)

  totals-map : (bs : List Edge) → totals (map bucket_on bs) ≡ sizes items bs
  unfolding tally
  totals-map [] = refl
  totals-map (b ∷ bs) = ap (λ n. length (filter (λ r. holds r b) items) + n) (totals-map bs)

  -- Each bucket counts and averages exactly the results of its days, the buckets' days do not
  -- overlap, and where every result lies in the range, the buckets' totals add up to the results.
  pub build_buckets-partition :
      (kind : BucketKind)
      → 1 ≤ date_of start
      → (build_buckets F items start end kind today
          ≡ map bucket_on (bucket_edges kind (date_of start) (date_of end)))
        × (All
              (λ (r : ResultView F.Carrier).
                (date_of start ≤ scored_date r) × (scored_date r < date_of end))
              items
            → totals (build_buckets F items start end kind today) ≡ length items)
  unfolding build_buckets
  build_buckets-partition kind one =
      let (lo, before, near, (hi, reach, chain)) =
        bucket_edges-Covers kind (date_of start) (date_of end) one in
      let bs = bucket_edges kind (date_of start) (date_of end) in
      let same =
        ap (map (bucket_of F (date_of end) today)) (place_all-slices items (λ _. []) bs lo hi chain)
        ∙ map-bucket_of bs in
      (
        same,
        λ within.
            ap totals same
            ∙ totals-map bs
            ∙ sizes-length items bs lo hi chain (widen lo hi before reach items within),
      )
    where
      widen :
          (lo hi : ℕ)
          → lo ≤ date_of start
          → date_of end ≤ hi
          → (rs : List (ResultView F.Carrier))
          → All
              (λ (r : ResultView F.Carrier).
                (date_of start ≤ scored_date r) × (scored_date r < date_of end))
              rs
          → All (λ (r : ResultView F.Carrier). (lo ≤ scored_date r) × (scored_date r < hi)) rs
      widen lo hi p q [] h = tt
      widen lo hi p q (r ∷ rs) h = ((omega arith, omega arith), widen lo hi p q rs h.1)
