-- ===== src/Engine/Number.antt =====
-- Python's float as the engine uses it: an ordered type of finite numbers with arithmetic whose
-- rounding errors are left open. The laws are those of finite IEEE numbers under `<=` and of the
-- built-in `round(x, 1)`.
use prooflens.Base.{
  ℕ, ◌*◌, ◌/◌, ◌+◌, ◌-◌, ◌%◌, ℤ, pos, pos_part, List, [], ◌∷◌, length, ◌≡◌, refl, Bool, true, false,
  not, ◌&&◌, ◌||◌, arith, leb, ltb, ◌==◌, if◌then◌else◌,
}

pub record Float : Type 1 where
  pub Carrier : Type 0
  pub le : Carrier → Carrier → Bool
  pub add : Carrier → Carrier → Carrier
  pub sub : Carrier → Carrier → Carrier
  pub mul : Carrier → Carrier → Carrier
  pub div : Carrier → Carrier → Carrier
  -- `float(n)`
  pub of_int : ℤ → Carrier
  -- The literal with the given number of thousandths.
  pub thousandths : ℕ → Carrier
  -- `round(x, 1)`
  pub round1 : Carrier → Carrier
  -- `round(x, 3)`
  pub round3 : Carrier → Carrier
  -- `int(round(x))` of a number that is not negative
  pub to_int : Carrier → ℕ
  pub le_refl : (a : Carrier) → le a a ≡ true
  pub le_trans : (a b c : Carrier) → le a b ≡ true → le b c ≡ true → le a c ≡ true
  pub le_total : (a b : Carrier) → le a b ≡ false → le b a ≡ true
  pub le-thousandths : (a b : ℕ) → le (thousandths a) (thousandths b) ≡ leb a b
  pub round1_mono : (a b : Carrier) → le a b ≡ true → le (round1 a) (round1 b) ≡ true
  pub round1-thousandths : (n : ℕ) → round1 (thousandths (n * 100)) ≡ thousandths (n * 100)

module _ (F : Float) where
  open F use {Carrier, le, thousandths, le_refl, le_trans, le_total}

  -- `a < b`
  abbrev pub lt : Carrier → Carrier → Bool
  lt a b = not (le b a)

  -- `min(a, b)` and `max(a, b)` keep the first of two equal numbers.
  abbrev pub fmin : Carrier → Carrier → Carrier
  fmin a b = if lt b a then b else a

  abbrev pub fmax : Carrier → Carrier → Carrier
  fmax a b = if lt a b then b else a

  abbrev pub zero_float : Carrier
  zero_float = thousandths 0

  -- `sum(xs)` and `round(sum(xs) / len(xs), 1) if xs else 0.0`
  abbrev pub total_from : Carrier → List Carrier → Carrier
  total_from acc [] = acc
  total_from acc (x ∷ xs) = total_from (F.add acc x) xs

  unfoldable pub fsum : List Carrier → Carrier
  fsum xs = total_from (F.of_int (pos 0)) xs

  abbrev pub ratio : Carrier → ℕ → Carrier
  ratio x n = F.div x (F.of_int (pos n))

  unfoldable pub average : List Carrier → Carrier
  unfolding fsum
  average [] = zero_float
  average (x ∷ xs) = F.round1 (ratio (fsum (x ∷ xs)) (length (x ∷ xs)))

  -- `bool(x)`
  abbrev pub is_nonzero : Carrier → Bool
  is_nonzero x = not (le x zero_float && le zero_float x)

  pub fmin-le_left : (a b : Carrier) → le (fmin a b) a ≡ true
  fmin-le_left a b = ground (arith, le_refl a, le_total a b, le_total b a)

  pub fmin-le_right : (a b : Carrier) → le (fmin a b) b ≡ true
  fmin-le_right a b = ground (arith, le_refl b, le_total a b, le_total b a)

  pub le-fmax_left : (a b : Carrier) → le a (fmax a b) ≡ true
  le-fmax_left a b = ground (arith, le_refl a, le_total b a)

  pub fmax_least : (a b c : Carrier) → le a c ≡ true → le b c ≡ true → le (fmax a b) c ≡ true
  fmax_least a b c p q = ground arith

  pub fmin_mono_right : (a b c : Carrier) → le b c ≡ true → le (fmin a b) (fmin a c) ≡ true
  fmin_mono_right a b c h =
      ground (arith, le_refl a, le_total a b, le_total b a, le_total c a, le_trans a b c)

  pub fmax_mono_right : (a b c : Carrier) → le b c ≡ true → le (fmax a b) (fmax a c) ≡ true
  fmax_mono_right a b c h = ground (
    arith,
    le_refl a,
    le_total a b,
    le_total b a,
    le_total c a,
    le_trans b c a,
    le_total c b,
    le_trans a b c,
  )

-- A concrete float type: numbers of thousandths, with the arithmetic of exact decimals cut off
-- after three places, and rounding of a tie to the even tenth.
abbrev pub round_tenths : ℕ → ℕ
round_tenths n =
    let q = n / 10 in
    let r = n % 10 in if ltb r 5 || (r == 5 && q % 2 == 0) then q * 10 else (q + 1) * 10

abbrev pub round_units : ℕ → ℕ
round_units n =
    let q = n / 100 in let r = n % 100 in if ltb r 50 || (r == 50 && q % 2 == 0) then q else q + 1

pub round_tenths_mono : (a b : ℕ) → leb a b ≡ true → leb (round_tenths a) (round_tenths b) ≡ true
round_tenths_mono a b h = ground arith

pub round_tenths_exact : (n : ℕ) → round_tenths (n * 100) ≡ n * 100
round_tenths_exact n = ground arith

pub nat_le_refl : (a : ℕ) → leb a a ≡ true
nat_le_refl a = ground arith

pub nat_le_trans : (a b c : ℕ) → leb a b ≡ true → leb b c ≡ true → leb a c ≡ true
nat_le_trans a b c p q = ground arith

pub nat_le_total : (a b : ℕ) → leb a b ≡ false → leb b a ≡ true
nat_le_total a b h = ground arith

abbrev pub decimals : Float
decimals = record {
  Carrier = ℕ;
  le = λ a b. leb a b;
  add = λ a b. a + b;
  sub = λ a b. a - b;
  mul = λ a b. a * b / 1000;
  div = λ a b. a * 1000 / b;
  of_int = λ z. pos_part z * 1000;
  thousandths = λ n. n;
  round1 = round_tenths;
  round3 = λ a. a;
  to_int = round_units;
  le_refl = nat_le_refl;
  le_trans = nat_le_trans;
  le_total = nat_le_total;
  le-thousandths = λ a b. refl;
  round1_mono = round_tenths_mono;
  round1-thousandths = round_tenths_exact;
}
