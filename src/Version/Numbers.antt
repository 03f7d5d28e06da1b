-- ===== src/Version/Numbers.antt =====
-- Two numbers in front of other characters are compared by their values.
use yubikey_personalization.Prelude.{
  ℕ, zero, suc, ◌<◌, ◌≡◌, ◌≢◌, inl, inr, refl, ap, ◌∙◌, arith, true, false, not, ◌&&◌, Bool-cases,
  List, [], ◌∷◌, ◌++◌, ltb, ◌==◌, length, drop, All, drop-append,
}
use yubikey_personalization.Version.{
  sign, strspn, strncmp, char, go_on, unless_same, skip_zeros, compare_digits, compare_zeros,
  compare_numbers,
}
use yubikey_personalization.Version.Value.{
  value, IsDigit, sign_below, sign_above, strncmp-value, IsNumeral, value-ge, pow_positive,
  value_shorter,
}

-- A text that does not go on with a digit.
abbrev pub IsEnd : List ℕ → Type 0
IsEnd r = strspn r ≡ 0

strspn-append : (s r : List ℕ) → All IsDigit s → IsEnd r → strspn (s ++ r) ≡ length s
strspn-append [] r h e = e
strspn-append (c ∷ s) r h e = rw h.0 (ap suc (strspn-append s r h.1 e))

strncmp-append :
    (s t r q : List ℕ) (n : ℕ)
    → length s ≡ n
    → length t ≡ n
    → strncmp (s ++ r) (t ++ q) n ≡ strncmp s t n
strncmp-append [] [] r q zero hs ht = refl
strncmp-append [] (d ∷ t) r q n hs ht = absurd (omega (arith, hs, ht))
strncmp-append (c ∷ s) [] r q n hs ht = absurd (omega (arith, hs, ht))
strncmp-append (c ∷ s) (d ∷ t) r q zero hs ht = absurd (omega (arith, hs))
strncmp-append [] [] r q (suc n) hs ht = absurd (omega (arith, hs))
strncmp-append (c ∷ s) (d ∷ t) r q (suc n) hs ht = elim (Bool-cases (c == d)) [
  | inl e ↦ rw e (strncmp-append s t r q n (omega (arith, hs)) (omega (arith, ht)))
  | inr e ↦ rw e refl
]

same_lengths :
    (x y : List ℕ) (n : ℕ)
    → strspn x ≡ n
    → strspn y ≡ n
    → compare_digits x y ≡ unless_same (strncmp x y n) (go_on (drop n x) (drop n y))
unfolding compare_digits
same_lengths x y n h k =
    let no : ltb n n ≡ false = ground arith in rw (h, k, no, compare_digits) refl

compare_digits_lem :
    (c d : ℕ) (s t r q : List ℕ)
    → All IsDigit (c ∷ s)
    → All IsDigit (d ∷ t)
    → c ≢ 48
    → d ≢ 48
    → IsEnd r
    → IsEnd q
    → compare_digits ((c ∷ s) ++ r) ((d ∷ t) ++ q)
      ≡ unless_same (sign (value (c ∷ s)) (value (d ∷ t))) (go_on r q)
unfolding compare_digits
compare_digits_lem c d s t r q hs ht nc nd er eq' =
    let p1 = strspn-append (c ∷ s) r hs er in
    let p2 = strspn-append (d ∷ t) q ht eq' in
    elim (Bool-cases (ltb (length s) (length t))) [
      | inl less ↦
          let h : length s < length t = ground (arith, less) in
          let less' : ltb (suc (length s)) (suc (length t)) ≡ true = ground (arith, h) in
          rw (p1, p2, less', sign_below _ _ (value_shorter c d s t hs ht.0 nd h), compare_digits)
            refl
      | inr no_less ↦ elim (Bool-cases (ltb (length t) (length s))) [
        | inl more ↦
            let h : length t < length s = ground (arith, more) in
            let no_less' : ltb (suc (length s)) (suc (length t)) ≡ false = ground (arith, h) in
            let more' : ltb (suc (length t)) (suc (length s)) ≡ true = ground (arith, h) in
            rw
              (
                p1,
                p2,
                no_less',
                more',
                sign_above _ _ (value_shorter d c t s ht hs.0 nc h),
                compare_digits,
              )
              refl
        | inr no_more ↦
            let h : length t ≡ length s = ground (arith, no_less, no_more) in
            let n = suc (length s) in
            let compared : strncmp ((c ∷ s) ++ r) ((d ∷ t) ++ q) n
                ≡ sign (value (c ∷ s)) (value (d ∷ t)) =
              strncmp-append (c ∷ s) (d ∷ t) r q n refl (ap suc h)
              ∙ strncmp-value (c ∷ s) (d ∷ t) n refl (ap suc h) hs ht in
            let sg = sign (value (c ∷ s)) (value (d ∷ t)) in
            let x = (c ∷ s) ++ r in
            let y = (d ∷ t) ++ q in
            same_lengths x y n p1 (p2 ∙ ap suc h)
            ∙ ap (λ o. unless_same o (go_on (drop n x) (drop n y))) compared
            ∙ ap (λ l. unless_same sg (go_on l (drop n y))) (drop-append n (c ∷ s) r refl)
            ∙ ap (λ l. unless_same sg (go_on r l)) (drop-append n (d ∷ t) q (ap suc h))
      ]
    ]

-- Behind a zero alone there is nothing to compare.
skip_ends : (r q : List ℕ) → IsEnd r → IsEnd q → skip_zeros r q ≡ (r, q)
unfolding skip_zeros
skip_ends [] q er eq' = refl
skip_ends (c ∷ r) [] er eq' = refl
skip_ends (c ∷ r) (d ∷ q) er eq' =
    let other : (c == 48) ≡ false = ground (arith, er) in rw other refl

compare_zeros_ends : (r q : List ℕ) → IsEnd r → IsEnd q → compare_zeros r q ≡ go_on r q
unfolding compare_zeros
compare_zeros_ends r q er eq' =
    let next : compare_digits r q ≡ go_on r q = same_lengths r q 0 er eq' in
    elim (Bool-cases (not (char r == char q) && (not (char r == 48) && not (char q == 48)))) [
      | inl b ↦ rw (er, eq', b, compare_zeros) refl
      | inr b ↦ rw (er, eq', b, compare_zeros) refl
    ]

two_zeros : (r q : List ℕ) → IsEnd r → IsEnd q → compare_numbers (48 ∷ r) (48 ∷ q) ≡ go_on r q
unfolding compare_numbers skip_zeros
two_zeros r q er eq' = rw (skip_ends r q er eq', compare_numbers) (compare_zeros_ends r q er eq')

-- Two numerals with what follows: their values decide, or what follows does.
pub compare_numbers_lem :
    (x y r q : List ℕ)
    → IsNumeral x
    → IsNumeral y
    → IsEnd r
    → IsEnd q
    → compare_numbers (x ++ r) (y ++ q) ≡ unless_same (sign (value x) (value y)) (go_on r q)
unfolding compare_numbers
compare_numbers_lem [] y r q hx hy er eq' = absurd hx
compare_numbers_lem (c ∷ s) [] r q hx hy er eq' = absurd hy
compare_numbers_lem (c ∷ s) (d ∷ t) r q (hs, inl nc) (ht, inl nd) er eq' =
    let e : (c == 48) ≡ false = ground (arith, nc) in
    let f : (d == 48) ≡ false = ground (arith, nd) in
    rw (e, f, compare_numbers) (compare_digits_lem c d s t r q hs ht nc nd er eq')
compare_numbers_lem (c ∷ s) (d ∷ t) r q (hs, inl nc) (ht, inr (d0, t0)) er eq' =
    let e : (c == 48) ≡ false = ground (arith, nc) in
    let f : (d == 48) ≡ true = rw d0 refl in
    let zero_value : value (d ∷ t) ≡ 0 = rw (d0, t0) refl in
    let positive : value (d ∷ t) < value (c ∷ s) =
      omega (arith, zero_value, value-ge c s hs.0 nc, pow_positive (length s)) in
    rw (e, f, sign_above _ _ positive, compare_numbers) refl
compare_numbers_lem (c ∷ s) (d ∷ t) r q (hs, inr (c0, s0)) (ht, inl nd) er eq' =
    let e : (c == 48) ≡ true = rw c0 refl in
    let f : (d == 48) ≡ false = ground (arith, nd) in
    let zero_value : value (c ∷ s) ≡ 0 = rw (c0, s0) refl in
    let positive : value (c ∷ s) < value (d ∷ t) =
      omega (arith, zero_value, value-ge d t ht.0 nd, pow_positive (length t)) in
    rw (e, f, sign_below _ _ positive, compare_numbers) refl
compare_numbers_lem (c ∷ s) (d ∷ t) r q (hs, inr (c0, s0)) (ht, inr (d0, t0)) er eq' =
    rw (c0, s0, d0, t0) (two_zeros r q er eq')
