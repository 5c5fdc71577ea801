-- ===== src/Engine/HashStore/Hamming.antt =====
-- `hamming_hex` of src/prooflens/engine/hashstore.py is 0 on equal hashes, symmetric and bounded.
use Prim.Native.Nat.{bit_xor, digits, differ, bit_xor-bitwise}
use prooflens.Base.{
  ℕ, zero, suc, ◌*◌, ◌/◌, ◌%◌, ◌≤◌, max, String, ◌≡◌, refl, ap, ◌∙◌, List, length, codes, arith,
}
use prooflens.Engine.HashStore.{hex_value, count_ones, hamming_codes, hamming_hex}

-- `differ` on the last digits, digit by digit.
abbrev xor_digits : ℕ → ℕ → ℕ → ℕ
xor_digits n a b = digits (λ b. b) differ n a b

differ_self : (x : ℕ) → differ x x ≡ 0
differ_self zero = refl
differ_self (suc x) = differ_self x

xor_digits_self : (n a : ℕ) → a ≤ n → xor_digits n a a ≡ 0
xor_digits_self zero zero h = refl
xor_digits_self zero (suc a) h = absurd (omega arith)
xor_digits_self (suc n) zero h = refl
xor_digits_self (suc n) (suc a) h =
    omega (arith, xor_digits_self n (suc a / 2) (omega arith), differ_self (suc a % 2))

bit_xor_self : (a : ℕ) → bit_xor a a ≡ 0
bit_xor_self a = bit_xor-bitwise a a ∙ xor_digits_self a a (omega arith)

count_ones-zero : (fuel : ℕ) → count_ones fuel 0 ≡ 0
unfolding count_ones
count_ones-zero zero = refl
count_ones-zero (suc fuel) = omega (arith, count_ones-zero fuel)

count_ones-le : (fuel n : ℕ) → count_ones fuel n ≤ fuel
unfolding count_ones
count_ones-le zero n = omega arith
count_ones-le (suc fuel) n = omega (arith, count_ones-le fuel (n / 2))

hamming_codes_self : (a : List ℕ) → hamming_codes a a ≡ 0
unfolding hamming_codes
hamming_codes_self a = ground (
  arith,
  ap (count_ones (4 * length a)) (bit_xor_self (hex_value 0 a)),
  count_ones-zero (4 * length a),
)

-- A hash has distance 0 to itself, and no distance passes 4 bits for each digit of the longer.
pub hamming_hex-self_and_bound :
    (a b : String)
    → (hamming_hex a a ≡ 0) × (hamming_hex a b ≤ 4 * max (length (codes a)) (length (codes b)))
unfolding hamming_hex hamming_codes
hamming_hex-self_and_bound a b = (
  hamming_codes_self (codes a),
  ground (
    arith,
    count_ones-le (4 * length (codes a)) (bit_xor (hex_value 0 (codes a)) (hex_value 0 (codes b))),
  ),
)

pub hamming_hex_self : (a : String) → hamming_hex a a ≡ 0
hamming_hex_self a = (hamming_hex-self_and_bound a a).0
