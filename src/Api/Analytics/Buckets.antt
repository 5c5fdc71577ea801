-- ===== src/Api/Analytics/Buckets.antt =====
-- The slices of time of src/prooflens/api/analytics.py.
use prooflens.Base.{
  ℕ, zero, suc, ◌+◌, ◌-◌, min, String, Bool, ◌&&◌, List, [], ◌∷◌, ◌++◌, map, ltb, leb, ◌==◌,
  if◌then◌else◌, text_append, show_nat, isoformat, year_month, year_of, month_of, to_ordinal,
  date_of,
}
use prooflens.Engine.Number.{Float}
use prooflens.Service.Repo.{ResultView}
use prooflens.Api.Analytics.{scored_date, Tally, tally}

pub data BucketKind : Type 0 where
  daily weekly monthly : BucketKind

-- (bucket_start_date, bucket_end_date_exclusive, label)
pub record Edge : Type 0 where
  pub opens : ℕ
  pub closes : ℕ
  pub label : String

-- The three loops of `_bucket_edges`. A round moves the day on, so that as many rounds as days are
-- enough.
unfoldable pub daily_edges : ℕ → ℕ → ℕ → List Edge
daily_edges zero d e = []
daily_edges (suc fuel) d e =
    let rest = daily_edges fuel (d + 1) e in
    if ltb d e then record { opens = d; closes = d + 1; label = isoformat d } ∷ rest else []

unfoldable pub weekly_edges : ℕ → ℕ → ℕ → ℕ → List Edge
weekly_edges zero n d e = []
weekly_edges (suc fuel) n d e =
    let rest = weekly_edges fuel (n + 1) (d + 7) e in
    if ltb d e
    then record { opens = d; closes = d + 7; label = text_append "Week " (show_nat n) } ∷ rest
    else []

-- The month after (y, mo)
abbrev pub next_year : ℕ → ℕ → ℕ
next_year y mo = if mo == 12 then y + 1 else y

abbrev pub next_month : ℕ → ℕ
next_month mo = if mo == 12 then 1 else mo + 1

unfoldable pub monthly_edges : ℕ → ℕ → ℕ → ℕ → List Edge
monthly_edges zero y mo e = []
monthly_edges (suc fuel) y mo e =
    let first = to_ordinal y mo 1 in
    let next = to_ordinal (next_year y mo) (next_month mo) 1 in
    let rest = monthly_edges fuel (next_year y mo) (next_month mo) e in
    if ltb first e
    then record { opens = first; closes = next; label = year_month y mo "" } ∷ rest
    else []

-- `_bucket_edges`
unfoldable pub bucket_edges : BucketKind → ℕ → ℕ → List Edge
bucket_edges daily s e = daily_edges (e - s) s e
bucket_edges weekly s e = weekly_edges (e - s) 1 s e
bucket_edges monthly s e = monthly_edges (e - s + 31) (year_of s) (month_of s) e

abbrev pub in_edge : ℕ → Edge → Bool
in_edge d b = leb b.opens d && ltb d b.closes

-- Each result goes to the first bucket that its day lies in.
abbrev pub place :
    {R : Type 0}
    → ResultView R
    → List (Edge × List (ResultView R))
    → List (Edge × List (ResultView R))
place r [] = []
place r ((b, rows) ∷ buckets) =
    if in_edge (scored_date r) b then (b, rows ++ r ∷ []) ∷ buckets else (b, rows) ∷ place r buckets

unfoldable pub place_all :
    {R : Type 0}
    → List (ResultView R)
    → List (Edge × List (ResultView R))
    → List (Edge × List (ResultView R))
place_all [] buckets = buckets
place_all (r ∷ items) buckets = place_all items (place r buckets)

pub record Bucket (R : Type 0) : Type 0 where
  pub bucket_label : String
  pub start : String
  pub end : String
  pub counts : Tally R
  pub incomplete : Bool

module _ (F : Float) where
  abbrev pub bucket_of : ℕ → ℕ → Edge × List (ResultView F.Carrier) → Bucket F.Carrier
  bucket_of range_end today (b, rows) = record {
    bucket_label = b.label;
    start = isoformat b.opens;
    end = isoformat (min (b.closes - 1) (range_end - 1));
    counts = tally F rows;
    incomplete = leb b.opens today && ltb today b.closes;
  }

  abbrev pub opened : List Edge → List (Edge × List (ResultView F.Carrier))
  opened edges = map (λ b. (b, [])) edges

  -- `build_buckets`
  unfoldable pub build_buckets :
      List (ResultView F.Carrier) → ℕ → ℕ → BucketKind → ℕ → List (Bucket F.Carrier)
  build_buckets items start end kind today =
      map (bucket_of (date_of end) today)
        (place_all items (opened (bucket_edges kind (date_of start) (date_of end))))
