-- ===== src/Version/Laws.antt =====
-- Version texts are compared number by number.
use yubikey_personalization.Prelude.{
  ℕ, zero, suc, ◌≤◌, ◌<◌, ◌≡◌, refl, ap, ◌∙◌, arith, Bool, true, false, Option, none, some, List,
  [], ◌∷◌, ◌++◌, ◌==◌, if◌then◌else◌, length, drop, All, length-append,
}
use yubikey_personalization.Version.{
  Sign, below, same, above, sign, strcspn, strncmp, Compared, decided, go_on, unless_same,
  compare_numbers, version_loop, my_strverscmp, ykpers_check_version,
}
use yubikey_personalization.Version.Numbers.{IsEnd, compare_numbers_lem}
use yubikey_personalization.Version.Value.{value, digit_bounds, IsNumeral}

-- The numbers of a version behind dots, and a version.
abbrev pub dotted : List (List ℕ) → List ℕ
dotted [] = []
dotted (x ∷ xs) = 46 ∷ (x ++ dotted xs)

abbrev pub version_text : List ℕ → List (List ℕ) → List ℕ
version_text x xs = x ++ dotted xs

-- The order of versions: the first number that differs decides, and the longer version is above.
abbrev pub compare_versions : List (List ℕ) → List (List ℕ) → Sign
compare_versions [] [] = same
compare_versions [] (y ∷ ys) = below
compare_versions (x ∷ xs) [] = above
compare_versions (x ∷ xs) (y ∷ ys) =
    let rest = compare_versions xs ys in
    elim (sign (value x) (value y)) [ below ↦ below | same ↦ rest | above ↦ above ]

dotted-IsEnd : (xs : List (List ℕ)) → IsEnd (dotted xs)
dotted-IsEnd [] = refl
dotted-IsEnd (x ∷ xs) = refl

-- What a round of the loop does with the outcome of its numbers.
abbrev continue : ℕ → Compared → Option Sign
continue fuel (decided ret) = some ret
continue fuel (go_on s t) = version_loop fuel s t

loop-numbers :
    (fuel : ℕ) (x y r q : List ℕ)
    → IsNumeral x
    → IsNumeral y
    → IsEnd r
    → IsEnd q
    → version_loop (suc fuel) (x ++ r) (y ++ q)
      ≡ continue fuel (unless_same (sign (value x) (value y)) (go_on r q))
unfolding version_loop
loop-numbers fuel [] y r q hx hy er eq' = absurd hx
loop-numbers fuel (c ∷ s) [] r q hx hy er eq' = absurd hy
loop-numbers fuel (c ∷ s) (d ∷ t) r q hx hy er eq' =
    let e : (c == 0) ≡ false = ground (arith, digit_bounds c hx.0.0) in
    let f : (d == 0) ≡ false = ground (arith, digit_bounds d hy.0.0) in
    let x = (c ∷ s) ++ r in
    let y = (d ∷ t) ++ q in
    let px : strcspn x ≡ 0 = rw hx.0.0 refl in
    let py : strcspn y ≡ 0 = rw hy.0.0 refl in
    rw (hx.0.0, hy.0.0, e, f, version_loop)
      (ap
          (λ n.
            continue fuel
              (unless_same (strncmp x y n) (compare_numbers (drop n x) (drop (strcspn y) y))))
          px
        ∙ ap (λ n. continue fuel (unless_same (strncmp x y 0) (compare_numbers x (drop n y)))) py
        ∙ ap (continue fuel) (compare_numbers_lem (c ∷ s) (d ∷ t) r q hx hy er eq'))

loop-dotted :
    (fuel : ℕ) (x y r q : List ℕ)
    → IsNumeral x
    → IsNumeral y
    → IsEnd r
    → IsEnd q
    → version_loop (suc fuel) (46 ∷ (x ++ r)) (46 ∷ (y ++ q))
      ≡ continue fuel (unless_same (sign (value x) (value y)) (go_on r q))
unfolding version_loop
loop-dotted fuel [] y r q hx hy er eq' = absurd hx
loop-dotted fuel (c ∷ s) [] r q hx hy er eq' = absurd hy
loop-dotted fuel (c ∷ s) (d ∷ t) r q hx hy er eq' =
    let e : (c == 0) ≡ false = ground (arith, digit_bounds c hx.0.0) in
    let f : (d == 0) ≡ false = ground (arith, digit_bounds d hy.0.0) in
    let x = (c ∷ s) ++ r in
    let y = (d ∷ t) ++ q in
    let px : strcspn (46 ∷ x) ≡ 1 = rw hx.0.0 refl in
    let py : strcspn (46 ∷ y) ≡ 1 = rw hy.0.0 refl in
    rw (hx.0.0, hy.0.0, e, f, version_loop)
      (ap
          (λ n. continue fuel (
            unless_same (strncmp (46 ∷ x) (46 ∷ y) n)
              (compare_numbers (drop n (46 ∷ x)) (drop (strcspn (46 ∷ y)) (46 ∷ y)))))
          px
        ∙ ap
            (λ n.
              continue fuel
                (unless_same (strncmp (46 ∷ x) (46 ∷ y) 1) (compare_numbers x (drop n (46 ∷ y)))))
            py
        ∙ ap (continue fuel) (compare_numbers_lem (c ∷ s) (d ∷ t) r q hx hy er eq'))

continue-compare_versions :
    (fuel : ℕ) (x y : List ℕ) (xs ys : List (List ℕ))
    → version_loop fuel (dotted xs) (dotted ys) ≡ some (compare_versions xs ys)
    → continue fuel (unless_same (sign (value x) (value y)) (go_on (dotted xs) (dotted ys)))
      ≡ some (compare_versions (x ∷ xs) (y ∷ ys))
continue-compare_versions fuel x y xs ys h = generalised (sign (value x) (value y))
  where
    generalised :
        (o : Sign)
        → continue fuel (unless_same o (go_on (dotted xs) (dotted ys)))
          ≡ some (elim o [ below ↦ below | same ↦ compare_versions xs ys | above ↦ above ])
    generalised below = refl
    generalised same = h
    generalised above = refl

loop-compare_versions :
    (fuel : ℕ) (xs ys : List (List ℕ))
    → length xs < fuel
    → All IsNumeral xs
    → All IsNumeral ys
    → version_loop fuel (dotted xs) (dotted ys) ≡ some (compare_versions xs ys)
unfolding version_loop
loop-compare_versions zero xs ys h hx hy = absurd (omega (arith, h))
loop-compare_versions (suc fuel) [] [] h hx hy = refl
loop-compare_versions (suc fuel) [] ([] ∷ ys) h hx hy = absurd hy.0
loop-compare_versions (suc fuel) [] ((d ∷ t) ∷ ys) h hx hy = rw (hy.0.0.0, version_loop) refl
loop-compare_versions (suc fuel) ([] ∷ xs) [] h hx hy = absurd hx.0
loop-compare_versions (suc fuel) ((c ∷ s) ∷ xs) [] h hx hy = rw (hx.0.0.0, version_loop) refl
loop-compare_versions (suc fuel) (x ∷ xs) (y ∷ ys) h hx hy =
    loop-dotted fuel x y (dotted xs) (dotted ys) hx.0 hy.0 (dotted-IsEnd xs) (dotted-IsEnd ys)
    ∙ continue-compare_versions fuel x y xs ys
        (loop-compare_versions fuel xs ys (omega (arith, h)) hx.1 hy.1)

length-dotted : (xs : List (List ℕ)) → length xs ≤ length (dotted xs)
length-dotted [] = omega arith
length-dotted (x ∷ xs) = omega (arith, length-append x (dotted xs), length-dotted xs)

my_strverscmp-compare_versions :
    (x y : List ℕ) (xs ys : List (List ℕ))
    → All IsNumeral (x ∷ xs)
    → All IsNumeral (y ∷ ys)
    → my_strverscmp (version_text x xs) (version_text y ys)
      ≡ some (compare_versions (x ∷ xs) (y ∷ ys))
unfolding my_strverscmp
my_strverscmp-compare_versions [] y xs ys hx hy = absurd hx.0
my_strverscmp-compare_versions (c ∷ s) y xs ys hx hy =
    let n = length (version_text (c ∷ s) xs) in
    let enough : length xs < n =
      omega (arith, length-append (c ∷ s) (dotted xs), length-dotted xs) in
    loop-numbers n (c ∷ s) y (dotted xs) (dotted ys) hx.0 hy.0 (dotted-IsEnd xs) (dotted-IsEnd ys)
    ∙ continue-compare_versions n (c ∷ s) y xs ys (loop-compare_versions n xs ys enough hx.1 hy.1)

-- Whether a version is at least the one that is asked for.
abbrev pub is_served : Sign → Bool
is_served below = true
is_served same = true
is_served above = false

-- Two versions of numbers with dots between them, each number without leading zeros, are compared
-- by their numbers from the left, a version that ends first below the other; and the library gives
-- out its version if the one asked for is not above it, and the null pointer otherwise.
pub ykpers_check_version-my_strverscmp :
    (x y : List ℕ) (xs ys : List (List ℕ))
    → All IsNumeral (x ∷ xs)
    → All IsNumeral (y ∷ ys)
    → (my_strverscmp (version_text x xs) (version_text y ys)
        ≡ some (compare_versions (x ∷ xs) (y ∷ ys)))
      × (ykpers_check_version (version_text y ys) (some (version_text x xs)) ≡ (
          if is_served (compare_versions (x ∷ xs) (y ∷ ys))
          then some (version_text y ys)
          else none))
unfolding ykpers_check_version
ykpers_check_version-my_strverscmp x y xs ys hx hy =
    let h = my_strverscmp-compare_versions x y xs ys hx hy in
    (h, rw (h, ykpers_check_version) (served (compare_versions (x ∷ xs) (y ∷ ys))))
  where
    served :
        (o : Sign)
        → (elim o as (λ _. Option (List ℕ)) [
          | below ↦ some (version_text y ys)
          | same ↦ some (version_text y ys)
          | above ↦ none
        ])
          ≡ (if is_served o then some (version_text y ys) else none)
    served below = refl
    served same = refl
    served above = refl
