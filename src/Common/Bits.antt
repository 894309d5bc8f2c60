-- ===== src/Common/Bits.antt =====
-- The bits of a number, and what `|` and `&` do to them.
use Prim.Native.Nat.{
  ℕ, zero, suc, ◌+◌, ◌-◌, ◌*◌, ◌/◌, ◌%◌, ◌^◌, ◌≤◌, ◌<◌, min, max, bit_and, bit_or, digits,
  bit_and-bitwise, bit_or-bitwise,
}
use mathlib.Core.Path.{◌≡◌, refl, ap, ◌∙◌}
use mathlib.Core.Bool.{Bool, true, ◌&&◌, ◌||◌}
use mathlib.Core.Logic.{◌⊎◌, inl, inr}
use native.Mathlib.Omega.{arith}
use native.Mathlib.Nat.{pow-suc}
use mathlib.Core.Bool.{not, false}
use rpc_mt.Common.Tests.{◌==◌, ==→eq, if◌then◌else◌}

-- Bit `q` of `w`, as 0 or 1.
abbrev pub bit : ℕ → ℕ → ℕ
bit w zero = w % 2
bit w (suc q) = bit (w / 2) q

-- The native operations are a recursion on digits with fuel; any fuel of at least `a` will do.
module _ (rest : ℕ → ℕ) (join : ℕ → ℕ → ℕ) where
  fuel_free : (a b k l : ℕ) → a ≤ k → a ≤ l → digits rest join k a b ≡ digits rest join l a b
  fuel_free zero b zero zero hk hl = refl
  fuel_free zero b zero (suc l) hk hl = refl
  fuel_free zero b (suc k) zero hk hl = refl
  fuel_free zero b (suc k) (suc l) hk hl = refl
  fuel_free (suc a) b zero l hk hl = absurd (omega arith)
  fuel_free (suc a) b (suc k) zero hk hl = absurd (omega arith)
  fuel_free (suc a) b (suc k) (suc l) hk hl =
      omega (arith, fuel_free (suc a / 2) (b / 2) k l (omega arith) (omega arith))

pub bit_or_digit : (a b : ℕ) → bit_or a b ≡ bit_or (a / 2) (b / 2) * 2 + max (a % 2) (b % 2)
bit_or_digit zero b = simp bit_or-bitwise (omega arith)
bit_or_digit (suc a) b = simp bit_or-bitwise (
    omega
      (arith, fuel_free (λ y. y) max (suc a / 2) (b / 2) a (suc a / 2) (omega arith) (omega arith)))

pub bit_and_digit : (a b : ℕ) → bit_and a b ≡ bit_and (a / 2) (b / 2) * 2 + min (a % 2) (b % 2)
bit_and_digit zero b = simp bit_and-bitwise (omega arith)
bit_and_digit (suc a) b = simp bit_and-bitwise (
    omega
      (arith, fuel_free (λ y. 0) min (suc a / 2) (b / 2) a (suc a / 2) (omega arith) (omega arith)))

pub bit-bit_or : (q a b : ℕ) → bit (bit_or a b) q ≡ max (bit a q) (bit b q)
bit-bit_or zero a b = omega (arith, bit_or_digit a b)
bit-bit_or (suc q) a b =
    let half : bit_or a b / 2 ≡ bit_or (a / 2) (b / 2) = omega (arith, bit_or_digit a b) in
    rw half (bit-bit_or q (a / 2) (b / 2))

pub bit-bit_and : (q a b : ℕ) → bit (bit_and a b) q ≡ min (bit a q) (bit b q)
bit-bit_and zero a b = omega (arith, bit_and_digit a b)
bit-bit_and (suc q) a b =
    let half : bit_and a b / 2 ≡ bit_and (a / 2) (b / 2) = omega (arith, bit_and_digit a b) in
    rw half (bit-bit_and q (a / 2) (b / 2))

pub bit-zero : (q : ℕ) → bit 0 q ≡ 0
bit-zero zero = refl
bit-zero (suc q) = bit-zero q

pub bit-le-one : (q w : ℕ) → bit w q ≤ 1
bit-le-one zero w = omega arith
bit-le-one (suc q) w = bit-le-one q (w / 2)

pub bit_and-zero : (k a : ℕ) → a ≤ k → bit_and a 0 ≡ 0
bit_and-zero zero zero h = refl
bit_and-zero zero (suc a) h = absurd (omega arith)
bit_and-zero (suc k) zero h = refl
bit_and-zero (suc k) (suc a) h =
    omega (arith, bit_and_digit (suc a) 0, bit_and-zero k (suc a / 2) (omega arith))

bit_or-zero : (k a : ℕ) → a ≤ k → bit_or a 0 ≡ a
bit_or-zero zero zero h = refl
bit_or-zero zero (suc a) h = absurd (omega arith)
bit_or-zero (suc k) zero h = refl
bit_or-zero (suc k) (suc a) h =
    omega (arith, bit_or_digit (suc a) 0, bit_or-zero k (suc a / 2) (omega arith))

-- Of a number whose low `k` bits are clear and one below `2 ^ k`, `|` is the sum.
pub bit_or_disjoint : (k a b : ℕ) → b < 2 ^ k → bit_or (a * 2 ^ k) b ≡ a * 2 ^ k + b
bit_or_disjoint zero a b h =
    let none_left : b ≡ 0 = omega arith in
    rw none_left (omega (arith, bit_or-zero (a * 1) (a * 1) (omega arith)))
bit_or_disjoint (suc k) a b h =
    let half : a * 2 ^ suc k / 2 ≡ a * 2 ^ k = omega (arith, twice) in
    omega (
      arith,
      twice,
      bit_or_digit (a * 2 ^ suc k) b,
      ap (λ (t : ℕ). bit_or t (b / 2)) half,
      bit_or_disjoint k a (b / 2) (omega (arith, pow-suc 2 k)),
    )
  where
    twice : a * 2 ^ suc k ≡ 2 * (a * 2 ^ k)
    twice = ap (λ (t : ℕ). a * t) (pow-suc 2 k) ∙ omega arith

-- `w & (1 << q)` is the value of bit `q`.
pub bit_and-pow : (q w : ℕ) → bit_and w (2 ^ q) ≡ bit w q * 2 ^ q
bit_and-pow zero w = omega (arith, bit_and_digit w 1, bit_and-zero (w / 2) (w / 2) (omega arith))
bit_and-pow (suc q) w = omega (
  arith,
  bit_and_digit w (2 ^ suc q),
  pow-suc 2 q,
  bit_and-pow q (w / 2),
  ap (λ (t : ℕ). bit_and (w / 2) t) half,
  ap (λ (t : ℕ). bit (w / 2) q * t) (pow-suc 2 q),
)
  where
    half : 2 ^ suc q / 2 ≡ 2 ^ q
    half = omega (arith, pow-suc 2 q)

-- A single bit, and the mask of all others.
pub bit-pow : (p q : ℕ) → bit (2 ^ p) q ≡ (if p == q then 1 else 0)
bit-pow zero zero = refl
bit-pow zero (suc q) = ground (arith, bit-zero q)
bit-pow (suc p) zero = ground (arith, pow-suc 2 p)
bit-pow (suc p) (suc q) =
    let half : 2 ^ suc p / 2 ≡ 2 ^ p = omega (arith, pow-suc 2 p) in
    rw half (ground (arith, bit-pow p q))

all_below : ℕ → (ℕ → Bool) → Bool
all_below zero test = true
all_below (suc n) test = test n && all_below n test

all_below_sound :
    (n : ℕ) (test : ℕ → Bool) (x : ℕ) → all_below n test ≡ true → x < n → test x ≡ true
unfolding all_below
all_below_sound zero test x h lt = absurd (omega arith)
all_below_sound (suc n) test x h lt = ground (arith, all_below_sound n test x)

-- `~x` on a 64-bit word.
abbrev pub complement : ℕ → ℕ
complement x = 2 ^ 64 - 1 - x

abbrev complement_row : ℕ → ℕ → Bool
complement_row p q = bit (complement (2 ^ p)) q == (if p == q then 0 else 1)

complement_table : all_below 8 (λ p. all_below 8 (complement_row p)) ≡ true
unfolding all_below
complement_table = refl

pub bit-complement :
    (p q : ℕ) → p < 8 → q < 8 → bit (complement (2 ^ p)) q ≡ (if p == q then 0 else 1)
bit-complement p q hp hq = ==→eq _ _ (
    all_below_sound 8 (complement_row p) q
      (all_below_sound 8 (λ p. all_below 8 (complement_row p)) p complement_table hp) hq)

-- The test that C writes: `(w & (1 << q)) != 0`.
abbrev pub has_bit : ℕ → ℕ → Bool
has_bit w q = not (bit_and w (2 ^ q) == 0)

pow-pos : (q : ℕ) → 0 < 2 ^ q
pow-pos zero = omega arith
pow-pos (suc q) = omega (arith, pow-suc 2 q, pow-pos q)

pub has_bit-bit : (w q : ℕ) → has_bit w q ≡ (bit w q == 1)
has_bit-bit w q = rw (bit_and-pow q w) (elim (cases (bit w q) (bit-le-one q w)) [
  | inl e ↦ rw e (ground arith)
  | inr e ↦ rw e (ground (arith, pow-pos q))
])
  where
    cases : (b : ℕ) → b ≤ 1 → (b ≡ 0) ⊎ (b ≡ 1)
    cases b h = grind arith

pub has_bit-bit_or : (w p q : ℕ) → has_bit (bit_or w (2 ^ p)) q ≡ ((p == q) || has_bit w q)
has_bit-bit_or w p q =
    rw (has_bit-bit (bit_or w (2 ^ p)) q)
      (rw (has_bit-bit w q) (ground (arith, bit-bit_or q w (2 ^ p), bit-pow p q, bit-le-one q w)))

pub has_bit-clear :
    (w p q : ℕ)
    → p < 8
    → q < 8
    → has_bit (bit_and w (complement (2 ^ p))) q ≡ (not (p == q) && has_bit w q)
has_bit-clear w p q hp hq = rw (has_bit-bit (bit_and w (complement (2 ^ p))) q) (
    rw (has_bit-bit w q) (
      ground
        (arith, bit-bit_and q w (complement (2 ^ p)), bit-complement p q hp hq, bit-le-one q w)))

-- `x & 7`.
pub bit_and_seven : (a : ℕ) → bit_and a 7 ≡ a % 8
bit_and_seven a = omega (
  arith,
  bit_and_digit a 7,
  bit_and_digit (a / 2) 3,
  bit_and_digit (a / 2 / 2) 1,
  bit_and-zero (a / 2 / 2 / 2) (a / 2 / 2 / 2) (omega arith),
)

pub has_bit-zero : (q : ℕ) → has_bit 0 q ≡ false
has_bit-zero q = ground (arith, has_bit-bit 0 q, bit-zero q)

bit_and_even : (a b : ℕ) → bit_and a (2 * b) ≡ bit_and (a / 2) b * 2
bit_and_even a b =
    let half : 2 * b / 2 ≡ b = omega arith in
    omega (arith, bit_and_digit a (2 * b), ap (λ (t : ℕ). bit_and (a / 2) t) half)

-- A mask of two bits is clear in `w` where both are.
pub bit_and_getargs_return : (w : ℕ) → bit_and w 0x210 ≡ bit_and w 0x010 + bit_and w 0x200
bit_and_getargs_return w =
    let q = w / 2 / 2 / 2 / 2 in
    omega (
      arith,
      bit_and_even w 264,
      bit_and_even (w / 2) 132,
      bit_and_even (w / 2 / 2) 66,
      bit_and_even (w / 2 / 2 / 2) 33,
      bit_and_digit q 33,
      bit_and-pow 4 (q / 2),
      bit_and-pow 4 w,
      bit_and-pow 9 w,
    )
