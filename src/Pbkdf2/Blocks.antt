-- ===== src/Pbkdf2/Blocks.antt =====
-- The blocks of RFC 2898, and xor of byte texts.
use yubikey_personalization.Prelude.{
  ℕ, zero, suc, ◌+◌, ◌-◌, ◌*◌, ◌/◌, ◌%◌, ◌^◌, ◌≤◌, ◌<◌, ◌≡◌, List, [], ◌∷◌, ◌++◌, arith, refl, ap,
  ap₂, ◌∙◌, sym, bit_xor, length, take, replicate, length-append, length-replicate, take_over,
  append-nil,
}
use yubikey_personalization.Prelude.Bits.{zero-bit_xor, bit_xor-zero, xor_twice_left, xor_assoc}
use native.Mathlib.Nat.{div-add-mod, mod-lt}
use yubikey_personalization.Pbkdf2.{xor_bytes, block_index}

pub length-xor_bytes : (d x : List ℕ) → length (xor_bytes d x) ≡ length d
length-xor_bytes [] x = refl
length-xor_bytes (a ∷ d) [] = refl
length-xor_bytes (a ∷ d) (b ∷ x) = ap suc (length-xor_bytes d x)

pub xor_bytes_assoc :
    (d x y : List ℕ)
    → length d ≤ length x
    → length x ≡ length y
    → xor_bytes (xor_bytes d x) y ≡ xor_bytes d (xor_bytes x y)
xor_bytes_assoc [] x y h e = refl
xor_bytes_assoc (a ∷ d) [] y h e = absurd (omega arith)
xor_bytes_assoc (a ∷ d) (b ∷ x) [] h e = absurd (omega arith)
xor_bytes_assoc (a ∷ d) (b ∷ x) (c ∷ y) h e =
    ap₂ (λ v l. v ∷ l) (xor_assoc a b c) (xor_bytes_assoc d x y (omega arith) (omega arith))

pub xor_bytes-append :
    (u v p q : List ℕ)
    → length u ≡ length v
    → xor_bytes (u ++ p) (v ++ q) ≡ xor_bytes u v ++ xor_bytes p q
xor_bytes-append [] [] p q e = refl
xor_bytes-append [] (b ∷ v) p q e = absurd (omega arith)
xor_bytes-append (a ∷ u) [] p q e = absurd (omega arith)
xor_bytes-append (a ∷ u) (b ∷ v) p q e =
    ap (λ l. bit_xor a b ∷ l) (xor_bytes-append u v p q (omega arith))

pub xor_bytes-zeros : (k : ℕ) (x : List ℕ) → k ≤ length x → xor_bytes (replicate k 0) x ≡ take k x
xor_bytes-zeros zero x h = refl
xor_bytes-zeros (suc k) [] h = absurd (omega arith)
xor_bytes-zeros (suc k) (b ∷ x) h =
    ap₂ (λ v l. v ∷ l) (zero-bit_xor b) (xor_bytes-zeros k x (omega arith))

pub xor_bytes_blank : (d : List ℕ) (a b : ℕ) → xor_bytes d (replicate a 0 ++ replicate b 0) ≡ d
xor_bytes_blank [] a b = refl
xor_bytes_blank (x ∷ d) zero zero = refl
xor_bytes_blank (x ∷ d) zero (suc b) =
    ap₂ (λ v l. v ∷ l) (bit_xor-zero x) (xor_bytes_blank d zero b)
xor_bytes_blank (x ∷ d) (suc a) b = ap₂ (λ v l. v ∷ l) (bit_xor-zero x) (xor_bytes_blank d a b)

-- What is xor-ed in twice cancels.
xor_bytes_twice : (j p : List ℕ) → length j ≡ length p → xor_bytes j (xor_bytes j p) ≡ p
xor_bytes_twice [] [] e = refl
xor_bytes_twice [] (b ∷ p) e = absurd (omega arith)
xor_bytes_twice (a ∷ j) [] e = absurd (omega arith)
xor_bytes_twice (a ∷ j) (b ∷ p) e =
    ap₂ (λ v l. v ∷ l) (xor_twice_left a b) (xor_bytes_twice j p (omega arith))

-- RFC 2898, 5.2, over a function that gives the bytes of the pseudorandom function: U_1 xor … xor
-- U_c, where each U is made from the one before it and the first from `text`.
unfoldable pub rounds : (List ℕ → List ℕ) → ℕ → ℕ → List ℕ → List ℕ
rounds f h_len zero text = replicate h_len 0
rounds f h_len (suc c) text = xor_bytes (f text) (rounds f h_len c (f text))

-- The blocks T_i of the derived key from index `i` on, one after the other.
unfoldable pub blocks : (List ℕ → List ℕ) → ℕ → ℕ → List ℕ → ℕ → ℕ → List ℕ
unfolding rounds
blocks f h_len c salt zero i = []
blocks f h_len c salt (suc l) i =
    rounds f h_len c (salt ++ block_index i) ++ blocks f h_len c salt l (i + 1)

pub length-rounds :
    (f : List ℕ → List ℕ) (h_len c : ℕ) (text : List ℕ)
    → ((t : List ℕ) → length (f t) ≡ h_len)
    → length (rounds f h_len c text) ≡ h_len
unfolding rounds
length-rounds f h_len zero text size = length-replicate h_len 0
length-rounds f h_len (suc c) text size =
    length-xor_bytes (f text) (rounds f h_len c (f text)) ∙ size text

pub length-blocks :
    (f : List ℕ → List ℕ) (h_len c : ℕ) (salt : List ℕ) (l i : ℕ)
    → ((t : List ℕ) → length (f t) ≡ h_len)
    → length (blocks f h_len c salt l i) ≡ l * h_len
unfolding blocks
length-blocks f h_len c salt zero i size = omega arith
length-blocks f h_len c salt (suc l) i size = grind (
  arith,
  length-append (rounds f h_len c (salt ++ block_index i)) (blocks f h_len c salt l (i + 1)),
  length-rounds f h_len c (salt ++ block_index i) size,
  length-blocks f h_len c salt l (i + 1) size,
)

pub block_sum :
    (len h_len : ℕ)
    → 0 < len
    → len ≤ 256
    → h_len ≤ 256
    → (len + (2 ^ 64 - 1) + h_len) % 2 ^ 64 ≡ len + h_len - 1
block_sum len h_len a b c = omega arith

pub blocks_enough : (len h_len : ℕ) → 0 < h_len → len ≤ (len + h_len - 1) / h_len * h_len
blocks_enough len h_len h =
    omega (arith, div-add-mod (len + h_len - 1) h_len, mod-lt (len + h_len - 1) h)

pub quotient-pos : (len h_len n : ℕ) → len ≤ n * h_len → 0 < len → 0 < n
quotient-pos len h_len zero h key = absurd (omega arith)
quotient-pos len h_len (suc n) h key = omega arith

pub take_within : (n : ℕ) (xs ys : List ℕ) → n ≤ length xs → take n (xs ++ ys) ≡ take n xs
take_within n xs ys h =
    let none' : n - length xs ≡ 0 = omega arith in
    take_over n xs ys ∙ ap (λ k. take n xs ++ take k ys) none' ∙ append-nil (take n xs)

-- What the rest of `block` adds beyond the output of the pseudorandom function.
abbrev pub pad : ℕ → List ℕ → List ℕ
pad zero junk = replicate (length junk) 0
pad (suc n) junk = xor_bytes junk (pad n junk)

pub length-pad : (n : ℕ) (junk : List ℕ) → length (pad n junk) ≡ length junk
length-pad zero junk = length-replicate (length junk) 0
length-pad (suc n) junk = length-xor_bytes junk (pad n junk)

pub pad_even : (n : ℕ) (junk : List ℕ) → pad (n + n) junk ≡ replicate (length junk) 0
pad_even zero junk = refl
pad_even (suc n) junk =
    let two : suc n + suc n ≡ suc (suc (n + n)) = omega arith in
    ap (λ m. pad m junk) two
    ∙ xor_bytes_twice junk (pad (n + n) junk) (sym (length-pad (n + n) junk))
    ∙ pad_even n junk
