-- ===== src/Pers/Fields/Laws.antt =====
-- What the field setters store, and the round trip of the moving factor.
use yubikey_personalization.Prelude.{
  ℕ, ◌-◌, ◌*◌, ◌/◌, ◌%◌, ◌^◌, ◌≤◌, ◌≡◌, ◌⊎◌, true, some, List, [], ◌∷◌, ◌++◌, arith, bit_or, refl,
  min, length, take, set, get_or, replicate, length-append, length-take, length-replicate,
  take-append,
}
use yubikey_personalization.Prelude.Bits.{or_shifted}
use yubikey_personalization.Pers.Types.{CoreConfig, Config, ykp_einval}
use yubikey_personalization.Pers.Capability.{capability_has_oath_imf}
use yubikey_personalization.Pers.Fields.{ykp_set_fixed, ykp_set_oath_imf, ykp_get_oath_imf}

padded-length :
    (size : ℕ) (input : List ℕ)
    → length (take (min (length input) size) input ++ replicate (size - min (length input) size) 0)
      ≡ size
padded-length size input = omega (
  arith,
  length-append (take (min (length input) size) input)
      (replicate (size - min (length input) size) 0),
  length-take (min (length input) size) input,
  length-replicate {A = ℕ} (size - min (length input) size) 0,
)

padded-take :
    (size : ℕ) (input : List ℕ)
    → take
        (min (length input) size)
        (take (min (length input) size) input ++ replicate (size - min (length input) size) 0)
      ≡ take (min (length input) size) input
padded-take size input =
    take-append (min (length input) size) (take (min (length input) size) input)
      (replicate (size - min (length input) size) 0)
      (omega (arith, length-take (min (length input) size) input))

-- `ykp_set_fixed` never fails on a configuration: the field keeps its 16 bytes, the recorded size
-- is the length of the input cut to 16, that many leading bytes are the input's, and no other part
-- of the configuration changes.
pub set_fixed-take :
    (input : List ℕ) (c : Config) (errno : ℕ)
    → (field : List ℕ) × (ykp_set_fixed input (some c) errno ≡ (
      1,
      some (record c {
        core = record (c.core) { fixed = field; fixed_size = min (length input) 16 };
      }),
      errno,
    ))
      × (length field ≡ 16)
      × (take (min (length input) 16) field ≡ take (min (length input) 16) input)
unfolding ykp_set_fixed
set_fixed-take input c errno = (
  take (min (length input) 16) input ++ replicate (16 - min (length input) 16) 0,
  refl,
  padded-length 16 input,
  padded-take 16 input,
)

-- The factors that fit: a multiple of 16 whose quotient fits 16 bits.
abbrev pub FitsImf : ℕ → Type 0
FitsImf imf = (imf ≤ 65535 * 16) × (imf % 16 ≡ 0)

get_or-set_pair :
    (u : List ℕ) (a b : ℕ)
    → length u ≡ 6
    → (get_or (set (set u 4 a) 5 b) 4 0 ≡ a)
      × (get_or (set (set u 4 a) 5 b) 5 0 ≡ b)
      × (take 4 (set (set u 4 a) 5 b) ≡ take 4 u)
get_or-set_pair (p ∷ q ∷ r ∷ s ∷ t ∷ u ∷ v) a b e = (refl, refl, refl)
get_or-set_pair [] a b e = absurd (omega arith)
get_or-set_pair (p ∷ []) a b e = absurd (omega arith)
get_or-set_pair (p ∷ q ∷ []) a b e = absurd (omega arith)
get_or-set_pair (p ∷ q ∷ r ∷ []) a b e = absurd (omega arith)
get_or-set_pair (p ∷ q ∷ r ∷ s ∷ []) a b e = absurd (omega arith)
get_or-set_pair (p ∷ q ∷ r ∷ s ∷ t ∷ []) a b e = absurd (omega arith)

imf_bytes :
    (imf : ℕ) → FitsImf imf → bit_or (imf / 16 / 2 ^ 8 % 256 * 2 ^ 8) (imf / 16 % 256) * 2 ^ 4 ≡ imf
imf_bytes imf h =
    omega (arith, or_shifted 8 (imf / 16 / 2 ^ 8 % 256) (imf / 16 % 256) (omega arith))

-- Which features a key has does not depend on what is configured.
oath_imf-core :
    (c : Config) (k : CoreConfig)
    → capability_has_oath_imf (record c { core = k }) ≡ capability_has_oath_imf c
unfolding capability_has_oath_imf
oath_imf-core c k = refl

-- On firmware with the feature, setting the moving factor succeeds exactly when the factor fits
-- the field; then it reads back as it was set, and the first four bytes of `uid` stay.
pub set_oath_imf-get :
    (imf : ℕ) (c : Config) (errno : ℕ)
    → length c.core.uid ≡ 6
    → capability_has_oath_imf c ≡ true
    → let r = ykp_set_oath_imf imf c errno in
      (FitsImf imf
        × (r.0 ≡ 1)
        × (ykp_get_oath_imf r.1 ≡ imf)
        × (take 4 r.1.core.uid ≡ take 4 c.core.uid))
      ⊎ ((¬ FitsImf imf) × (r ≡ (0, c, ykp_einval)))
unfolding ykp_set_oath_imf ykp_get_oath_imf
set_oath_imf-get imf c errno size has = ground (
  arith,
  get_or-set_pair c.core.uid (imf / 16 / 2 ^ 8 % 256) (imf / 16 % 256) size,
  imf_bytes imf,
  oath_imf-core c (record (c.core) {
    uid = set (set c.core.uid 4 (imf / 16 / 2 ^ 8 % 256)) 5 (imf / 16 % 256);
  }),
)
