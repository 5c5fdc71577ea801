-- ===== src/Api/Analytics/Cover.antt =====
-- The edges of the buckets of src/prooflens/api/analytics.py, as slices of the range.
use prooflens.Base.{
  ℕ, zero, suc, ◌+◌, ◌-◌, ◌≤◌, ◌<◌, ◌≡◌, refl, List, [], ◌∷◌, count, ltb, Bool-cases, inl, inr,
  arith, year_of, month_of, to_ordinal, to_ordinal-month, to_ordinal-first, month_nonempty,
  year_of-around, month_of-around,
}
use prooflens.Api.Analytics.Buckets.{
  BucketKind, daily, weekly, monthly, Edge, daily_edges, weekly_edges, monthly_edges, bucket_edges,
  in_edge, next_year, next_month,
}

-- Slices that follow one another from `lo` to `hi`, none of them empty
abbrev pub IsChain : ℕ → List Edge → ℕ → Type 0
IsChain lo [] hi = lo ≡ hi
IsChain lo (b ∷ bs) hi = (b.opens ≡ lo) × (lo < b.closes) × IsChain b.closes bs hi

abbrev pub Covers : ℕ → List Edge → ℕ → Type 0
Covers lo bs e = (hi : ℕ) × (e ≤ hi) × IsChain lo bs hi

daily_edges-Covers : (fuel d e : ℕ) → e ≤ d + fuel → Covers d (daily_edges fuel d e) e
unfolding daily_edges
daily_edges-Covers zero d e h = (d, omega arith, refl)
daily_edges-Covers (suc fuel) d e h = elim (Bool-cases (ltb d e)) [
  | inl more ↦
      let (hi, reach, chain) = daily_edges-Covers fuel (d + 1) e (omega arith) in
      rw more (hi, reach, (refl, omega arith, chain))
  | inr over ↦ rw over (d, ground arith, refl)
]

weekly_edges-Covers : (fuel n d e : ℕ) → e ≤ d + fuel → Covers d (weekly_edges fuel n d e) e
unfolding weekly_edges
weekly_edges-Covers zero n d e h = (d, omega arith, refl)
weekly_edges-Covers (suc fuel) n d e h = elim (Bool-cases (ltb d e)) [
  | inl more ↦
      let (hi, reach, chain) = weekly_edges-Covers fuel (n + 1) (d + 7) e (omega arith) in
      rw more (hi, reach, (refl, omega arith, chain))
  | inr over ↦ rw over (d, ground arith, refl)
]

-- The month after is a month, and it opens between 28 and 31 days later.
month_after :
    (y m : ℕ)
    → 1 ≤ y
    → 1 ≤ m
    → m ≤ 12
    → (1 ≤ next_year y m)
      × (1 ≤ next_month m)
      × (next_month m ≤ 12)
      × (to_ordinal y m 1 + 28 ≤ to_ordinal (next_year y m) (next_month m) 1)
month_after y m one lo hi = (
  ground arith,
  ground arith,
  ground arith,
  omega (arith, to_ordinal-month y m one lo hi, month_nonempty y m lo hi),
)

monthly_edges-Covers :
    (fuel y m e : ℕ)
    → 1 ≤ y
    → 1 ≤ m
    → m ≤ 12
    → e ≤ to_ordinal y m 1 + fuel
    → Covers (to_ordinal y m 1) (monthly_edges fuel y m e) e
unfolding monthly_edges
monthly_edges-Covers zero y m e one lo hi h = (to_ordinal y m 1, omega arith, refl)
monthly_edges-Covers (suc fuel) y m e one lo hi h =
    let (y1, m1, m12, later) = month_after y m one lo hi in
    elim (Bool-cases (ltb (to_ordinal y m 1) e)) [
      | inl more ↦
          let (end, reach, chain) =
            monthly_edges-Covers fuel (next_year y m) (next_month m) e y1 m1 m12 (omega arith) in
          rw more (end, reach, (refl, omega arith, chain))
      | inr over ↦ rw over (to_ordinal y m 1, ground arith, refl)
    ]

-- The edges are contiguous slices, from the first day (for months, at most 30 days before it) at
-- least to the end.
pub bucket_edges-Covers :
    (kind : BucketKind) (s e : ℕ)
    → 1 ≤ s
    → (lo : ℕ) × (lo ≤ s) × (s ≤ lo + 30) × Covers lo (bucket_edges kind s e) e
unfolding bucket_edges
bucket_edges-Covers daily s e h =
    (s, omega arith, omega arith, daily_edges-Covers (e - s) s e (omega arith))
bucket_edges-Covers weekly s e h =
    (s, omega arith, omega arith, weekly_edges-Covers (e - s) 1 s e (omega arith))
bucket_edges-Covers monthly s e h = (
  to_ordinal (year_of s) (month_of s) 1,
  (to_ordinal-first s h).0,
  (to_ordinal-first s h).1,
  monthly_edges-Covers (e - s + 31) (year_of s) (month_of s) e (year_of-around s h).0
      (month_of-around s h).0 (month_of-around s h).1 (omega (arith, to_ordinal-first s h)),
)

-- A day before a chain lies in none of its slices, and a day of the chain in exactly one.
pub count-in_edge_before :
    (d lo hi : ℕ) (bs : List Edge) → IsChain lo bs hi → d < lo → count (in_edge d) bs ≡ 0
count-in_edge_before d lo hi [] c lt = refl
count-in_edge_before d lo hi (b ∷ bs) c lt =
    ground (arith, count-in_edge_before d b.closes hi bs c.2)

pub count-in_edge :
    (d lo hi : ℕ) (bs : List Edge) → IsChain lo bs hi → lo ≤ d → d < hi → count (in_edge d) bs ≡ 1
count-in_edge d lo hi [] c le lt = absurd (omega arith)
count-in_edge d lo hi (b ∷ bs) c le lt =
    ground (arith, count-in_edge d b.closes hi bs c.2, count-in_edge_before d b.closes hi bs c.2)
