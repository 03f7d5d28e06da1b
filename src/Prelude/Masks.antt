-- ===== src/Prelude/Masks.antt =====
-- Masks whose bits lie inside of a number, and what is left when such a mask is taken away.
use Prim.Native.Nat.{ℕ, zero, suc, ◌+◌, ◌-◌, ◌/◌, ◌%◌, ◌≤◌, min, bit_and}
use mathlib.Core.Path.{◌≡◌, refl, sym, ap, ◌∙◌}
use native.Mathlib.Omega.{arith}
use yubikey_personalization.Prelude.Bits.{bit_and_digit, and_assoc, bit_and-le, bit_and-zero}

and_comm_within : (n a b : ℕ) → a ≤ n → b ≤ n → bit_and a b ≡ bit_and b a
and_comm_within zero zero zero p q = refl
and_comm_within zero zero (suc b) p q = absurd (omega arith)
and_comm_within zero (suc a) b p q = absurd (omega arith)
and_comm_within (suc n) a b p q =
    ground (arith, bit_and_digit a b, bit_and_digit b a, and_comm_within n (a / 2) (b / 2))

pub and_comm : (a b : ℕ) → bit_and a b ≡ bit_and b a
and_comm a b = and_comm_within (a + b) a b (omega arith) (omega arith)

and_self_within : (n a : ℕ) → a ≤ n → bit_and a a ≡ a
and_self_within zero zero p = refl
and_self_within zero (suc a) p = absurd (omega arith)
and_self_within (suc n) a p =
    ground (arith, bit_and_digit a a, and_self_within n (a / 2) (omega arith))

pub and_self : (a : ℕ) → bit_and a a ≡ a
and_self a = and_self_within a a (omega arith)

-- Every bit of the mask is set.
abbrev pub Has : ℕ → ℕ → Type 0
Has t m = bit_and t m ≡ m

pub Has-trans : (t a b : ℕ) → Has t a → Has a b → Has t b
Has-trans t a b h k =
    ap (λ x. bit_and t x) (sym k) ∙ sym (and_assoc t a b) ∙ ap (λ x. bit_and x b) h ∙ k

-- What a number has is disjoint from what the number is disjoint from.
pub disjoint_within : (x m b : ℕ) → bit_and x m ≡ 0 → Has x b → bit_and b m ≡ 0
disjoint_within x m b h k =
    ap (λ y. bit_and y m) (sym k ∙ and_comm x b)
    ∙ and_assoc b x m
    ∙ ap (λ y. bit_and b y) h
    ∙ bit_and-zero b

-- The two sides of taking a mask away.
abbrev Taken : ℕ → ℕ → Type 0
Taken t m = (bit_and (t - m) m ≡ 0) × (bit_and t (t - m) ≡ t - m)

Taken-within : (n t m : ℕ) → t ≤ n → Has t m → Taken t m
Taken-within zero zero m p h =
    let nothing : 0 - m ≡ 0 = omega arith in rw nothing (and_comm 0 m ∙ bit_and-zero m, refl)
Taken-within zero (suc t) m p h = absurd (omega arith)
Taken-within (suc n) t m p h =
    let below : m ≤ t = omega (arith, bit_and-le t m) in
    let halves : Has (t / 2) (m / 2) = omega (arith, bit_and_digit t m) in
    let ends : min (t % 2) (m % 2) ≡ m % 2 = omega (arith, bit_and_digit t m) in
    let half : (t - m) / 2 ≡ t / 2 - m / 2 = omega arith in
    let end : (t - m) % 2 ≡ t % 2 - m % 2 = omega arith in
    let (none', kept) = Taken-within n (t / 2) (m / 2) (omega arith) halves in
    (
      omega (arith, bit_and_digit (t - m) m, ap (λ x. bit_and x (m / 2)) half, none'),
      omega (arith, bit_and_digit t (t - m), ap (λ x. bit_and (t / 2) x) half, kept),
    )

pub taken_disjoint : (t m : ℕ) → Has t m → bit_and (t - m) m ≡ 0
taken_disjoint t m h = (Taken-within t t m (omega arith) h).0

pub taken-Has : (t m : ℕ) → Has t m → Has t (t - m)
taken-Has t m h = (Taken-within t t m (omega arith) h).1
