-- ===== src/Version/Value.antt =====
-- The value of the digits of a number, and strncmp as the order of values.
use native.Mathlib.Nat.{pow-suc, suc-mul, add-mul}
use mathlib.Core.Path.{subst}
use yubikey_personalization.Prelude.{
  ℕ, zero, suc, ◌+◌, ◌-◌, ◌*◌, ◌^◌, ◌≤◌, ◌<◌, ◌≡◌, ◌≢◌, ◌⊎◌, inl, inr, refl, sym, ◌∙◌, arith, true,
  Bool-cases, List, [], ◌∷◌, ltb, ◌==◌, length, All,
}
use yubikey_personalization.Version.{below, above, sign, is_digit, strncmp}

-- The number that digits spell out.
abbrev pub value : List ℕ → ℕ
value [] = 0
value (c ∷ s) = (c - 48) * 10 ^ length s + value s

abbrev pub IsDigit : ℕ → Type 0
IsDigit c = is_digit c ≡ true

pub digit_bounds : (c : ℕ) → IsDigit c → (48 ≤ c) × (c ≤ 57)
digit_bounds c h = ground (arith, h)

pub sign_below : (a b : ℕ) → a < b → sign a b ≡ below
sign_below a b h = ground (arith, h)

pub sign_above : (a b : ℕ) → b < a → sign a b ≡ above
sign_above a b h = ground (arith, h)

sign_shift : (k u v : ℕ) → sign (k + u) (k + v) ≡ sign u v
sign_shift k u v = ground arith

-- Numbers with other first digits, the first the smaller, over the same power.
first_digit : (x y p u v : ℕ) → x < y → u < p → x * p + u < y * p + v
first_digit x y p u v h small =
    let e : y ≡ suc x + (y - suc x) = omega (arith, h) in
    subst (λ z. x * p + u < z * p + v) (sym e)
      (omega (arith, suc-mul x p, add-mul (suc x) (y - suc x) p, small))

value-lt : (s : List ℕ) → All IsDigit s → value s < 10 ^ length s
value-lt [] h = omega arith
value-lt (c ∷ s) h =
    let small : c - 48 < 10 = omega (arith, digit_bounds c h.0) in
    omega (
      arith,
      pow-suc 10 (length s),
      first_digit (c - 48) 10 (10 ^ length s) (value s) 0 small (value-lt s h.1),
    )

pub strncmp-value :
    (s t : List ℕ) (n : ℕ)
    → length s ≡ n
    → length t ≡ n
    → All IsDigit s
    → All IsDigit t
    → strncmp s t n ≡ sign (value s) (value t)
strncmp-value [] [] zero hs ht ds dt = refl
strncmp-value [] (d ∷ t) n hs ht ds dt = absurd (omega (arith, hs, ht))
strncmp-value (c ∷ s) [] n hs ht ds dt = absurd (omega (arith, hs, ht))
strncmp-value (c ∷ s) (d ∷ t) zero hs ht ds dt = absurd (omega (arith, hs))
strncmp-value [] [] (suc n) hs ht ds dt = absurd (omega (arith, hs))
strncmp-value (c ∷ s) (d ∷ t) (suc n) hs ht ds dt =
    let hs' : length s ≡ n = omega (arith, hs) in
    let ht' : length t ≡ n = omega (arith, ht) in
    let p = 10 ^ n in
    let us : value s < p = subst (λ m. value s < 10 ^ m) hs' (value-lt s ds.1) in
    let vs : value t < p = subst (λ m. value t < 10 ^ m) ht' (value-lt t dt.1) in
    let bc = digit_bounds c ds.0 in
    let bd = digit_bounds d dt.0 in
    elim (Bool-cases (c == d)) [
      | inl e ↦
          let eq' : d ≡ c = ground (arith, e) in
          rw (e, eq', hs', ht')
            (strncmp-value s t n hs' ht' ds.1 dt.1
              ∙ sym (sign_shift ((c - 48) * p) (value s) (value t)))
      | inr e ↦ elim (Bool-cases (ltb c d)) [
        | inl less ↦
            let h : c < d = ground (arith, less) in
            rw (e, hs', ht')
              (sign_below c d h
                ∙ sym (
                    sign_below _ _ (
                      first_digit (c - 48) (d - 48) p (value s) (value t) (omega (arith, h, bc))
                        us)))
        | inr more ↦
            let h : d < c = ground (arith, more, e) in
            rw (e, hs', ht')
              (sign_above c d h
                ∙ sym (
                    sign_above _ _ (
                      first_digit (d - 48) (c - 48) p (value t) (value s) (omega (arith, h, bd))
                        vs)))
      ]
    ]

-- A numeral: digits, the first of them not zero, or a zero alone.
abbrev pub IsNumeral : List ℕ → Type 0
IsNumeral [] = ⊥
IsNumeral (c ∷ s) = All IsDigit (c ∷ s) × ((c ≢ 48) ⊎ ((c ≡ 48) × (s ≡ [])))

pub value-ge : (c : ℕ) (s : List ℕ) → IsDigit c → c ≢ 48 → 10 ^ length s ≤ value (c ∷ s)
value-ge c s h n =
    let k = c - 49 in
    let e : c - 48 ≡ suc k = omega (arith, n, digit_bounds c h) in
    rw e (omega (arith, suc-mul k (10 ^ length s)))

pow_grows : (n k : ℕ) → 10 ^ n ≤ 10 ^ (n + k)
pow_grows n zero = let e : n + 0 ≡ n = omega arith in rw e (omega arith)
pow_grows n (suc k) =
    let e : n + suc k ≡ suc (n + k) = omega arith in
    rw e (omega (arith, pow-suc 10 (n + k), pow_grows n k))

pub pow_positive : (n : ℕ) → 1 ≤ 10 ^ n
pow_positive zero = omega arith
pow_positive (suc n) = omega (arith, pow-suc 10 n, pow_positive n)

pub value_shorter :
    (c d : ℕ) (s t : List ℕ)
    → All IsDigit (c ∷ s)
    → IsDigit d
    → d ≢ 48
    → length s < length t
    → value (c ∷ s) < value (d ∷ t)
value_shorter c d s t hs hd nd h =
    let e : suc (length s) + (length t - suc (length s)) ≡ length t = omega (arith, h) in
    let grows : 10 ^ suc (length s) ≤ 10 ^ length t =
      subst (λ m. 10 ^ suc (length s) ≤ 10 ^ m) e
        (pow_grows (suc (length s)) (length t - suc (length s))) in
    omega (arith, value-lt (c ∷ s) hs, value-ge d t hd nd, grows)
