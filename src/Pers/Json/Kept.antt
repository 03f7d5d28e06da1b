-- ===== src/Pers/Json/Kept.antt =====
-- The bits of the flags that an export carries, in each mode.
use yubikey_personalization.Prelude.{
  ℕ, zero, suc, ◌%◌, ◌<◌, ◌≡◌, ◌⊎◌, inl, inr, refl, arith, Bool, true, false, not, ◌&&◌, ◌||◌,
  Bool-cases, Option, none, some, List, [], ◌∷◌, bit_and, bit_or, ==_iff, ◌==◌, if◌then◌else◌,
  codes,
}
use yubikey_personalization.Pers.Flags.{has_flag, tktflag_mask, cfgflag_mask, extflag_mask}
use yubikey_personalization.Pers.Modes.{
  mode_chal_hmac, mode_oath_hotp, mode_otp_yubico, mode_chal_yubico, mode_static_ticket,
  _ticket_flags_map, _config_flags_map, _extended_flags_map,
}
use yubikey_personalization.Pers.Json.{tktflag_json, cfgflag_json, extflag_json, in_mode}

-- The bits that are carried.
abbrev pub kept_tkt : ℕ → ℕ
kept_tkt mode =
    if mode == mode_oath_hotp
    then 0xff
    else if mode == mode_chal_hmac || mode == mode_chal_yubico
    then 0xc0
    else 0xbf

abbrev pub kept_cfg : ℕ → ℕ
kept_cfg mode =
    if mode == mode_chal_hmac
    then 0x2e
    else if mode == mode_chal_yubico
    then 0x28
    else if mode == mode_static_ticket
    then 0xff
    else 0x0f

-- A byte with the masks of the entries that are read.
abbrev pub masks :
    {Flag : Type 0}
    → (Flag → Option (List ℕ))
    → (Flag → ℕ)
    → (Flag → Bool)
    → ℕ
    → List (Flag × ℕ)
    → ℕ
    → ℕ
masks text mask has mode [] x = x
masks text mask has mode ((flag, modes) ∷ p) x = masks text mask has mode p (elim (text flag) [
  | none ↦ x
  | some t ↦ (if in_mode mode modes && has flag then bit_or x (mask flag) % 256 else x)
])

abbrev pub all_below : ℕ → (ℕ → Bool) → Bool
all_below zero test = true
all_below (suc n) test = test n && all_below n test

all_below_lem : (n : ℕ) (test : ℕ → Bool) (x : ℕ) → all_below n test ≡ true → x < n → test x ≡ true
all_below_lem zero test x h lt = absurd (omega arith)
all_below_lem (suc n) test x h lt = elim (Bool-cases (x == n)) [
  | inl same ↦ let e : x ≡ n = ground (arith, same) in rw e (ground (arith, h))
  | inr other ↦ all_below_lem n test x (ground (arith, h)) (ground (arith, other, lt))
]

-- The byte with the masks of the flags that `x` has.
abbrev pub tkt_masks : ℕ → ℕ → ℕ → ℕ
tkt_masks mode x =
    masks tktflag_json tktflag_mask (λ f. has_flag x (tktflag_mask f)) mode _ticket_flags_map

abbrev pub cfg_masks : ℕ → ℕ → ℕ → ℕ
cfg_masks mode x =
    masks cfgflag_json cfgflag_mask (λ f. has_flag x (cfgflag_mask f)) mode _config_flags_map

abbrev pub ext_masks : ℕ → ℕ → ℕ → ℕ
ext_masks mode x =
    masks extflag_json extflag_mask (λ f. has_flag x (extflag_mask f)) mode _extended_flags_map

pub bit_two : (x : ℕ) → x < 256 → (bit_and x 2 ≡ 2) ⊎ (bit_and x 2 ≡ 0)
bit_two x small =
    let either = all_below_lem 256 (λ y. bit_and y 2 == 2 || bit_and y 2 == 0) x refl small in
    ground (arith, either)

tested : (b c : Bool) → not b || c ≡ true → b ≡ true → c ≡ true
tested true c h e = h
tested false c h e = absurd (ground (arith, e))

module _ (mode : ℕ) where
  -- With the bits that the mode sets, and for a byte that has them, the masks are the bits carried.
  abbrev pub tkt_test : ℕ → ℕ → Bool
  tkt_test y x = not (has_flag x y) || tkt_masks mode x y == bit_and x (kept_tkt mode)

  abbrev pub cfg_test : ℕ → ℕ → Bool
  cfg_test y x = not (has_flag x y) || cfg_masks mode x y == bit_and x (kept_cfg mode)

  abbrev pub ext_test : ℕ → Bool
  ext_test x = ext_masks mode x 0 == x

  pub tkt_kept :
      (y x : ℕ)
      → all_below 256 (tkt_test y) ≡ true
      → x < 256
      → has_flag x y ≡ true
      → tkt_masks mode x y ≡ bit_and x (kept_tkt mode)
  tkt_kept y x t small has =
      let e : (tkt_masks mode x y == bit_and x (kept_tkt mode)) ≡ true =
        tested (has_flag x y) _ (all_below_lem 256 (tkt_test y) x t small) has in
      (==_iff (tkt_masks mode x y) (bit_and x (kept_tkt mode))).0 e

  pub cfg_kept :
      (y x : ℕ)
      → all_below 256 (cfg_test y) ≡ true
      → x < 256
      → has_flag x y ≡ true
      → cfg_masks mode x y ≡ bit_and x (kept_cfg mode)
  cfg_kept y x t small has =
      let e : (cfg_masks mode x y == bit_and x (kept_cfg mode)) ≡ true =
        tested (has_flag x y) _ (all_below_lem 256 (cfg_test y) x t small) has in
      (==_iff (cfg_masks mode x y) (bit_and x (kept_cfg mode))).0 e

  pub ext_kept : (x : ℕ) → all_below 256 ext_test ≡ true → x < 256 → ext_masks mode x 0 ≡ x
  ext_kept x t small = (==_iff (ext_masks mode x 0) x).0 (all_below_lem 256 ext_test x t small)

pub oath_tests :
    (all_below 256 (tkt_test mode_oath_hotp 0x40) ≡ true)
    × (all_below 256 (cfg_test mode_oath_hotp 0) ≡ true)
    × (all_below 256 (cfg_test mode_oath_hotp 0x02) ≡ true)
    × (all_below 256 (ext_test mode_oath_hotp) ≡ true)
unfolding tktflag_json tktflag_mask cfgflag_json cfgflag_mask extflag_json extflag_mask codes
oath_tests = (refl, refl, refl, refl)

pub hmac_tests :
    (all_below 256 (tkt_test mode_chal_hmac 0x40) ≡ true)
    × (all_below 256 (cfg_test mode_chal_hmac 0x22) ≡ true)
    × (all_below 256 (ext_test mode_chal_hmac) ≡ true)
unfolding tktflag_json tktflag_mask cfgflag_json cfgflag_mask extflag_json extflag_mask codes
hmac_tests = (refl, refl, refl)

pub yubico_tests :
    (all_below 256 (tkt_test mode_chal_yubico 0x40) ≡ true)
    × (all_below 256 (cfg_test mode_chal_yubico 0x20) ≡ true)
    × (all_below 256 (ext_test mode_chal_yubico) ≡ true)
unfolding tktflag_json tktflag_mask cfgflag_json cfgflag_mask extflag_json extflag_mask codes
yubico_tests = (refl, refl, refl)

pub static_tests :
    (all_below 256 (tkt_test mode_static_ticket 0) ≡ true)
    × (all_below 256 (cfg_test mode_static_ticket 0x20) ≡ true)
    × (all_below 256 (ext_test mode_static_ticket) ≡ true)
unfolding tktflag_json tktflag_mask cfgflag_json cfgflag_mask extflag_json extflag_mask codes
static_tests = (refl, refl, refl)

pub otp_tests :
    (all_below 256 (tkt_test mode_otp_yubico 0) ≡ true)
    × (all_below 256 (cfg_test mode_otp_yubico 0) ≡ true)
    × (all_below 256 (ext_test mode_otp_yubico) ≡ true)
unfolding tktflag_json tktflag_mask cfgflag_json cfgflag_mask extflag_json extflag_mask codes
otp_tests = (refl, refl, refl)
