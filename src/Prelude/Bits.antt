-- ===== src/Prelude/Bits.antt =====
-- Laws of `bit_and` and `bit_or` at every width, from the recursion on binary digits that the
-- native operations stand for.
use Prim.Native.Nat.{ℕ, zero, suc, ◌+◌, ◌-◌, ◌*◌, ◌/◌, ◌%◌, ◌^◌, ◌≤◌, ◌<◌, min, max}
use Prim.Native.Nat.{bit_and, bit_or, digits, bitwise, bit_and-bitwise, bit_or-bitwise}
use Prim.Native.Nat.{bit_xor, differ, bit_xor-bitwise}
use mathlib.Core.Path.{◌≡◌, refl, sym, ap, ◌∙◌}
use native.Mathlib.Nat.{le_refl, pow-suc, one-le-pow}
use native.Mathlib.Omega.{arith}

module _ (z : ℕ → ℕ) (f : ℕ → ℕ → ℕ) where
  digits_enough : (n m a b : ℕ) → a ≤ n → a ≤ m → digits z f n a b ≡ digits z f m a b
  digits_enough zero zero a b p q = refl
  digits_enough zero (suc m) zero b p q = refl
  digits_enough zero (suc m) (suc a) b p q = absurd (omega arith)
  digits_enough (suc n) zero zero b p q = refl
  digits_enough (suc n) zero (suc a) b p q = absurd (omega arith)
  digits_enough (suc n) (suc m) zero b p q = refl
  digits_enough (suc n) (suc m) (suc a) b p q =
      rw (digits_enough n m (suc a / 2) (b / 2) (omega arith) (omega arith))

  bitwise_digit :
      (a b : ℕ)
      → bitwise z f (suc a) b ≡ bitwise z f (suc a / 2) (b / 2) * 2 + f (suc a % 2) (b % 2)
  bitwise_digit a b =
      omega (arith, digits_enough a (suc a / 2) (suc a / 2) (b / 2) (omega arith) (le_refl _))

-- The lowest digit of each operation.
pub bit_or_digit : (a b : ℕ) → bit_or a b ≡ bit_or (a / 2) (b / 2) * 2 + max (a % 2) (b % 2)
bit_or_digit zero b = simp bit_or-bitwise (omega arith)
bit_or_digit (suc a) b = simp bit_or-bitwise (bitwise_digit (λ y. y) max a b)

pub bit_and_digit : (a b : ℕ) → bit_and a b ≡ bit_and (a / 2) (b / 2) * 2 + min (a % 2) (b % 2)
bit_and_digit zero b = simp bit_and-bitwise (omega arith)
bit_and_digit (suc a) b = simp bit_and-bitwise (bitwise_digit (λ y. 0) min a b)

-- The laws below go from halves to wholes; `n` bounds the arguments.
and_or_within :
    (n x f g : ℕ)
    → x ≤ n
    → f ≤ n
    → g ≤ n
    → bit_and (bit_or x f) g ≡ bit_or (bit_and x g) (bit_and f g)
and_or_within zero zero zero zero p q r = refl
and_or_within zero zero zero (suc g) p q r = absurd (omega arith)
and_or_within zero zero (suc f) g p q r = absurd (omega arith)
and_or_within zero (suc x) f g p q r = absurd (omega arith)
and_or_within (suc n) x f g p q r = ground (
  arith,
  bit_or_digit x f,
  bit_and_digit (bit_or x f) g,
  bit_and_digit x g,
  bit_and_digit f g,
  bit_or_digit (bit_and x g) (bit_and f g),
  and_or_within n (x / 2) (f / 2) (g / 2) (omega arith) (omega arith) (omega arith),
)

-- `&` distributes over `|`.
pub and_or_distrib : (x f g : ℕ) → bit_and (bit_or x f) g ≡ bit_or (bit_and x g) (bit_and f g)
and_or_distrib x f g = and_or_within (x + f + g) x f g (omega arith) (omega arith) (omega arith)

and_assoc_within :
    (n x f g : ℕ) → x ≤ n → f ≤ n → g ≤ n → bit_and (bit_and x f) g ≡ bit_and x (bit_and f g)
and_assoc_within zero zero zero zero p q r = refl
and_assoc_within zero zero zero (suc g) p q r = absurd (omega arith)
and_assoc_within zero zero (suc f) g p q r = absurd (omega arith)
and_assoc_within zero (suc x) f g p q r = absurd (omega arith)
and_assoc_within (suc n) x f g p q r = ground (
  arith,
  bit_and_digit x f,
  bit_and_digit (bit_and x f) g,
  bit_and_digit f g,
  bit_and_digit x (bit_and f g),
  and_assoc_within n (x / 2) (f / 2) (g / 2) (omega arith) (omega arith) (omega arith),
)

pub and_assoc : (x f g : ℕ) → bit_and (bit_and x f) g ≡ bit_and x (bit_and f g)
and_assoc x f g = and_assoc_within (x + f + g) x f g (omega arith) (omega arith) (omega arith)

and_or_self_within : (n x f : ℕ) → x ≤ n → f ≤ n → bit_and (bit_or x f) f ≡ f
and_or_self_within zero zero zero p q = refl
and_or_self_within zero zero (suc f) p q = absurd (omega arith)
and_or_self_within zero (suc x) f p q = absurd (omega arith)
and_or_self_within (suc n) x f p q = ground (
  arith,
  bit_or_digit x f,
  bit_and_digit (bit_or x f) f,
  and_or_self_within n (x / 2) (f / 2) (omega arith) (omega arith),
)

-- A mask that was or-ed in reads back whole.
pub and_or_self : (x f : ℕ) → bit_and (bit_or x f) f ≡ f
and_or_self x f = and_or_self_within (x + f) x f (omega arith) (omega arith)

zero_within : (n x : ℕ) → x ≤ n → (bit_and x 0 ≡ 0) × (bit_or x 0 ≡ x)
zero_within zero zero p = (refl, refl)
zero_within zero (suc x) p = absurd (omega arith)
zero_within (suc n) x p =
    ground (arith, bit_and_digit x 0, bit_or_digit x 0, zero_within n (x / 2) (omega arith))

pub bit_and-zero : (x : ℕ) → bit_and x 0 ≡ 0
bit_and-zero x = (zero_within x x (le_refl x)).0

pub bit_or-zero : (x : ℕ) → bit_or x 0 ≡ x
bit_or-zero x = (zero_within x x (le_refl x)).1

-- The complement of `f` within `k` bits shares no bit with `f`.
pub and_complement : (k f : ℕ) → f < 2 ^ k → bit_and (2 ^ k - 1 - f) f ≡ 0
and_complement zero zero h = refl
and_complement zero (suc f) h = absurd (omega arith)
and_complement (suc k) f h = ground (
  arith,
  pow-suc 2 k,
  bit_and_digit (2 ^ suc k - 1 - f) f,
  and_complement k (f / 2) (omega (arith, pow-suc 2 k)),
)

-- A mask that is disjoint from `f` lies in the complement of `f`.
pub and_complement_disjoint :
    (k f g : ℕ) → f < 2 ^ k → g < 2 ^ k → bit_and f g ≡ 0 → bit_and (2 ^ k - 1 - f) g ≡ g
and_complement_disjoint zero zero zero h i d = refl
and_complement_disjoint zero zero (suc g) h i d = absurd (omega arith)
and_complement_disjoint zero (suc f) g h i d = absurd (omega arith)
and_complement_disjoint (suc k) f g h i d = ground (
  arith,
  pow-suc 2 k,
  bit_and_digit f g,
  bit_and_digit (2 ^ suc k - 1 - f) g,
  and_complement_disjoint k (f / 2) (g / 2),
)

pub bit_or-lt : (k x y : ℕ) → x < 2 ^ k → y < 2 ^ k → bit_or x y < 2 ^ k
bit_or-lt zero zero zero h i = omega arith
bit_or-lt zero zero (suc y) h i = absurd (omega arith)
bit_or-lt zero (suc x) y h i = absurd (omega arith)
bit_or-lt (suc k) x y h i =
    ground (arith, pow-suc 2 k, bit_or_digit x y, bit_or-lt k (x / 2) (y / 2))

and_le_within : (n x y : ℕ) → x ≤ n → bit_and x y ≤ x
and_le_within zero zero y p = omega (arith, bit_and-bitwise 0 y)
and_le_within zero (suc x) y p = absurd (omega arith)
and_le_within (suc n) x y p =
    ground (arith, bit_and_digit x y, and_le_within n (x / 2) (y / 2) (omega arith))

pub bit_and-le : (x y : ℕ) → bit_and x y ≤ x
bit_and-le x y = and_le_within x x y (le_refl x)

mul-double : (q k : ℕ) → q * 2 ^ suc k ≡ 2 * (q * 2 ^ k)
mul-double q k = omega (arith, ap (λ (t : ℕ). q * t) (pow-suc 2 k))

-- `(q << k) | r` is a sum when `r` fits `k` bits.
pub or_shifted : (k q r : ℕ) → r < 2 ^ k → bit_or (q * 2 ^ k) r ≡ q * 2 ^ k + r
or_shifted zero q zero h = omega (arith, bit_or-zero (q * 2 ^ 0))
or_shifted zero q (suc r) h = absurd (omega arith)
or_shifted (suc k) q r h = ground (
  arith,
  pow-suc 2 k,
  bit_or_digit (q * 2 ^ suc k) r,
  mul-double q k,
  or_shifted k q (r / 2) (omega (arith, pow-suc 2 k)),
)

and_low_field : (k q r : ℕ) → r < 2 ^ k → bit_and (q * 2 ^ k + r) (2 ^ k - 1) ≡ r
and_low_field zero q zero h = omega (arith, bit_and-zero (q * 2 ^ 0 + 0))
and_low_field zero q (suc r) h = absurd (omega arith)
and_low_field (suc k) q r h = ground (
  arith,
  pow-suc 2 k,
  bit_and_digit (q * 2 ^ suc k + r) (2 ^ suc k - 1),
  mul-double q k,
  and_low_field k q (r / 2) (omega (arith, pow-suc 2 k)),
)

-- A mask of `k` low bits is the remainder by `2 ^ k`.
pub and_low_mask : (k a : ℕ) → bit_and a (2 ^ k - 1) ≡ a % 2 ^ k
and_low_mask k a = ground (arith, one-le-pow k 2, and_low_field k (a / 2 ^ k) (a % 2 ^ k))

differ_bits : (x y : ℕ) → x < 2 → y < 2 → differ x y ≡ (x + y) % 2
differ_bits zero y h k = omega arith
differ_bits (suc zero) zero h k = refl
differ_bits (suc zero) (suc zero) h k = refl
differ_bits (suc zero) (suc (suc y)) h k = absurd (omega arith)
differ_bits (suc (suc x)) y h k = absurd (omega arith)

pub zero-bit_xor : (b : ℕ) → bit_xor 0 b ≡ b
zero-bit_xor b = bit_xor-bitwise 0 b

differ_digit : (a b : ℕ) → bit_xor a b ≡ bit_xor (a / 2) (b / 2) * 2 + differ (a % 2) (b % 2)
differ_digit zero b = omega (arith, zero-bit_xor b, zero-bit_xor (b / 2))
differ_digit (suc a) b = simp bit_xor-bitwise (bitwise_digit (λ y. y) differ a b)

pub bit_xor_digit : (a b : ℕ) → bit_xor a b ≡ bit_xor (a / 2) (b / 2) * 2 + (a % 2 + b % 2) % 2
bit_xor_digit a b =
    omega (arith, differ_digit a b, differ_bits (a % 2) (b % 2) (omega arith) (omega arith))

xor_twice_within : (n a b : ℕ) → a ≤ n → b ≤ n → bit_xor (bit_xor a b) b ≡ a
xor_twice_within zero zero zero p q = refl
xor_twice_within zero zero (suc b) p q = absurd (omega arith)
xor_twice_within zero (suc a) b p q = absurd (omega arith)
xor_twice_within (suc n) a b p q =
    ground
      (arith, bit_xor_digit a b, bit_xor_digit (bit_xor a b) b, xor_twice_within n (a / 2) (b / 2))

-- The same value xor-ed in twice cancels.
pub xor_twice : (a b : ℕ) → bit_xor (bit_xor a b) b ≡ a
xor_twice a b = xor_twice_within (a + b) a b (omega arith) (omega arith)

or_comm_within : (n a b : ℕ) → a ≤ n → b ≤ n → bit_or a b ≡ bit_or b a
or_comm_within zero zero zero p q = refl
or_comm_within zero zero (suc b) p q = absurd (omega arith)
or_comm_within zero (suc a) b p q = absurd (omega arith)
or_comm_within (suc n) a b p q =
    ground (arith, bit_or_digit a b, bit_or_digit b a, or_comm_within n (a / 2) (b / 2))

pub or_comm : (a b : ℕ) → bit_or a b ≡ bit_or b a
or_comm a b = or_comm_within (a + b) a b (omega arith) (omega arith)

xor_assoc_within :
    (n a b c : ℕ) → a ≤ n → b ≤ n → c ≤ n → bit_xor (bit_xor a b) c ≡ bit_xor a (bit_xor b c)
xor_assoc_within zero zero zero zero p q r = refl
xor_assoc_within zero zero zero (suc c) p q r = absurd (omega arith)
xor_assoc_within zero zero (suc b) c p q r = absurd (omega arith)
xor_assoc_within zero (suc a) b c p q r = absurd (omega arith)
xor_assoc_within (suc n) a b c p q r = omega (
  arith,
  bit_xor_digit a b,
  bit_xor_digit (bit_xor a b) c,
  bit_xor_digit b c,
  bit_xor_digit a (bit_xor b c),
  xor_assoc_within n (a / 2) (b / 2) (c / 2) (omega arith) (omega arith) (omega arith),
  ap (λ x. bit_xor x (c / 2)) half_l,
  ap (λ x. bit_xor (a / 2) x) half_r,
)
  where
    half_l : bit_xor a b / 2 ≡ bit_xor (a / 2) (b / 2)
    half_l = omega (arith, bit_xor_digit a b)

    half_r : bit_xor b c / 2 ≡ bit_xor (b / 2) (c / 2)
    half_r = omega (arith, bit_xor_digit b c)

pub xor_assoc : (a b c : ℕ) → bit_xor (bit_xor a b) c ≡ bit_xor a (bit_xor b c)
xor_assoc a b c = xor_assoc_within (a + b + c) a b c (omega arith) (omega arith) (omega arith)

-- What is xor-ed in from the left twice cancels.
pub xor_twice_left : (a b : ℕ) → bit_xor a (bit_xor a b) ≡ b
xor_twice_left a b =
    sym (xor_assoc a a b)
    ∙ ap (λ x. bit_xor x b) (ap (λ y. bit_xor y a) (sym (zero-bit_xor a)) ∙ xor_twice 0 a)
    ∙ zero-bit_xor b

pub bit_xor-zero : (a : ℕ) → bit_xor a 0 ≡ a
bit_xor-zero a =
    ap (λ x. bit_xor a x) (sym (ap (λ y. bit_xor y a) (sym (zero-bit_xor a)) ∙ xor_twice 0 a))
    ∙ xor_twice_left a a
