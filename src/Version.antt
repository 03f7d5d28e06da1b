-- ===== src/Version.antt =====
-- ykpers-version.c: the comparison of version texts.
pub mod Value
pub mod Numbers
pub mod Laws
use yubikey_personalization.Prelude.{
  ℕ, zero, suc, Bool, true, false, not, ◌&&◌, Option, none, some, List, [], ◌∷◌, leb, ltb, ◌==◌,
  if◌then◌else◌, length, drop, get_or,
}

-- The sign of what a comparison returns.
pub data Sign : Type 0 where
  below same above : Sign

abbrev pub sign : ℕ → ℕ → Sign
sign a b = if ltb a b then below else if ltb b a then above else same

abbrev pub is_digit : ℕ → Bool
is_digit c = leb 48 c && leb c 57

-- `strcspn` and `strspn` with the digits.
abbrev pub strcspn : List ℕ → ℕ
strcspn [] = 0
strcspn (c ∷ s) = let rest = strcspn s in if is_digit c then 0 else suc rest

abbrev pub strspn : List ℕ → ℕ
strspn [] = 0
strspn (c ∷ s) = let rest = strspn s in if is_digit c then suc rest else 0

abbrev pub strcmp : List ℕ → List ℕ → Sign
strcmp [] [] = same
strcmp [] (d ∷ t) = below
strcmp (c ∷ s) [] = above
strcmp (c ∷ s) (d ∷ t) = let rest = strcmp s t in if c == d then rest else sign c d

abbrev pub strncmp : List ℕ → List ℕ → ℕ → Sign
strncmp s t zero = same
strncmp [] [] (suc n) = same
strncmp [] (d ∷ t) (suc n) = below
strncmp (c ∷ s) [] (suc n) = above
strncmp (c ∷ s) (d ∷ t) (suc n) = let rest = strncmp s t n in if c == d then rest else sign c d

-- `*s`, and the zero at the end of a text.
abbrev pub char : List ℕ → ℕ
char s = get_or s 0 0

-- A return, or the texts behind the numbers.
pub data Compared : Type 0 where
  decided : Sign → Compared
  go_on : List ℕ → List ℕ → Compared

-- `if (ret != 0) return ret;`.
abbrev pub unless_same : Sign → Compared → Compared
unless_same below next = decided below
unless_same same next = next
unless_same above next = decided above

unfoldable pub skip_zeros : List ℕ → List ℕ → List ℕ × List ℕ
skip_zeros [] t = ([], t)
skip_zeros (c ∷ s) [] = (c ∷ s, [])
skip_zeros (c ∷ s) (d ∷ t) =
    let rest = skip_zeros s t in if c == 48 && d == 48 then rest else (c ∷ s, d ∷ t)

-- Two numbers by their lengths and digits.
unfoldable pub compare_digits : List ℕ → List ℕ → Compared
compare_digits s1 s2 =
    let p1 = strspn s1 in
    let p2 = strspn s2 in
    if ltb p1 p2
    then decided below
    else if ltb p2 p1
    then decided above
    else unless_same (strncmp s1 s2 p1) (go_on (drop p1 s1) (drop p2 s2))

-- Two numbers that begin with a zero, without the zeros that they have in common. `ret` is zero
-- before.
unfoldable pub compare_zeros : List ℕ → List ℕ → Compared
unfolding compare_digits
compare_zeros s1 s2 =
    let p1 = strspn s1 in
    let p2 = strspn s2 in
    let next = compare_digits s1 s2 in
    if p1 == 0 && ltb 0 p2
    then decided above
    else if p2 == 0 && ltb 0 p1
    then decided below
    else if not (char s1 == char s2) && (not (char s1 == 48) && not (char s2 == 48))
    then (if ltb p1 p2 then decided above else if ltb p2 p1 then decided below else next)
    else (if ltb p1 p2
        then unless_same (strncmp s1 s2 p1) next
        else if ltb p2 p1
        then unless_same (strncmp s1 s2 p2) next
        else next)

unfoldable pub compare_numbers : List ℕ → List ℕ → Compared
unfolding skip_zeros compare_zeros compare_digits
compare_numbers s1 s2 =
    let lz1 = char s1 == 48 in
    let lz2 = char s2 == 48 in
    let (t1, t2) = skip_zeros s1 s2 in
    if lz1 && not lz2
    then decided below
    else if lz2 && not lz1
    then decided above
    else if lz1
    then compare_zeros t1 t2
    else compare_digits s1 s2

-- The loop on fuel; every round takes a digit of the first text.
unfoldable pub version_loop : ℕ → List ℕ → List ℕ → Option Sign
unfolding compare_numbers
version_loop zero s1 s2 = none
version_loop (suc fuel) s1 s2 =
    let p1 = strcspn s1 in
    let p2 = strcspn s2 in
    elim (p1 == p2 && (not (get_or s1 p1 0 == 0) && not (get_or s2 p2 0 == 0))) [
      | false ↦ some (strcmp s1 s2)
      | true ↦ elim (unless_same (strncmp s1 s2 p1) (compare_numbers (drop p1 s1) (drop p2 s2))) [
        | decided ret ↦ some ret
        | go_on t1 t2 ↦ version_loop fuel t1 t2
      ]
    ]

unfoldable pub my_strverscmp : List ℕ → List ℕ → Option Sign
unfolding version_loop
my_strverscmp s1 s2 = version_loop (suc (length s1)) s1 s2

-- `none` is the null pointer; `version` is YKPERS_VERSION_STRING, which the build writes.
unfoldable pub ykpers_check_version : List ℕ → Option (List ℕ) → Option (List ℕ)
unfolding my_strverscmp
ykpers_check_version version req_version = elim req_version [
  | none ↦ some version
  | some req ↦ elim (my_strverscmp req version) [
    | none ↦ none
    | some ret ↦ elim ret [ below ↦ some version | same ↦ some version | above ↦ none ]
  ]
]
