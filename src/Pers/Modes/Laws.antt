-- ===== src/Pers/Modes/Laws.antt =====
-- Modes agree with key lengths, and what an export names of the configuration flags.
use mathlib.Core.Path.{subst}
use yubikey_personalization.Prelude.{
  ℕ, ◌+◌, ◌-◌, ◌≡◌, ◌≢◌, ◌⊎◌, ◌↔◌, inl, inr, refl, true, false, ◌&&◌, List, [], ◌∷◌, arith, ap, ◌∙◌,
  sym, bit_and, ◌==◌, Bool-cases, All,
}
use yubikey_personalization.Prelude.Bits.{and_assoc, bit_and-le}
use yubikey_personalization.Prelude.Masks.{
  Has, Has-trans, and_comm, and_self, disjoint_within, taken_disjoint, taken-Has,
}
use yubikey_personalization.Pers.Types.{Config}
use yubikey_personalization.Pers.Flags.{
  CfgFlag, cfgflag_mask, cfgflag_capability, has_flag, ykp_get_tktflag, ykp_get_cfgflag,
  tktflag_mask,
}
use yubikey_personalization.Pers.Keys.{ykp_get_supported_key_length}
use yubikey_personalization.Pers.Modes.{
  legacy_mode, config_flags_shown, mode_chal_hmac, mode_oath_hotp,
}

hmac_has_yubico : (x : ℕ) → bit_and x 0x22 ≡ 0x22 → bit_and x 0x20 ≡ 0x20
hmac_has_yubico x h = sym (and_assoc x 0x22 0x20) ∙ ap (λ y. bit_and y 0x20) h

-- A configuration takes a key of twenty bytes, four of them in the field of the secret ID, exactly
-- if the mode that its flags say is OATH-HOTP or HMAC challenge-response.
pub supported_key_length-legacy_mode :
    (c : Config)
    → (ykp_get_supported_key_length c ≡ 20)
      ↔ ((legacy_mode c ≡ mode_chal_hmac) ⊎ (legacy_mode c ≡ mode_oath_hotp))
unfolding ykp_get_supported_key_length legacy_mode ykp_get_tktflag ykp_get_cfgflag tktflag_mask
    cfgflag_mask
supported_key_length-legacy_mode c = ground (arith, hmac_has_yubico c.core.cfg_flags)

-- The masks of the flags named.
abbrev pub mask_sum : List CfgFlag → ℕ
mask_sum [] = 0
mask_sum (flag ∷ flags) = cfgflag_mask flag + mask_sum flags

-- No two of the flags share a bit.
abbrev pub Apart : List CfgFlag → Type 0
Apart [] = Unit {0}
Apart (flag ∷ flags) =
    All (λ g. bit_and (cfgflag_mask flag) (cfgflag_mask g) ≡ 0) flags × Apart flags

-- A flag that is named: its bits are set, and the firmware has it.
abbrev pub Named : Config → ℕ → CfgFlag → Type 0
Named c t_flags flag = Has t_flags (cfgflag_mask flag) × (cfgflag_capability flag c ≡ true)

-- Nothing of this entry is left to name: the firmware does not have the flag, or it does not belong
-- to the mode, or its bits are not all left.
abbrev pub Exhausted : Config → ℕ → ℕ → CfgFlag × ℕ → Type 0
Exhausted c mode rest entry =
    (cfgflag_capability entry.0 c ≡ false)
    ⊎ (bit_and mode entry.1 ≢ mode)
    ⊎ (bit_and rest (cfgflag_mask entry.0) ≢ cfgflag_mask entry.0)

-- What is known of the flags named, of those that may be named, and of the bits that are left.
abbrev pub Shown : Config → ℕ → ℕ → List (CfgFlag × ℕ) → List CfgFlag × ℕ → Type 0
Shown c mode t_flags p named =
    (mask_sum named.0 + named.1 ≡ t_flags)
    × Has t_flags named.1
    × All (Named c t_flags) named.0
    × Apart named.0
    × All (Exhausted c mode named.1) p

All-weaken :
    {P Q : CfgFlag → Type 0} (l : List CfgFlag) → ((f : CfgFlag) → P f → Q f) → All P l → All Q l
All-weaken [] g h = tt
All-weaken (f ∷ l) g h = (g f h.0, All-weaken l g h.1)

cfgflag_mask-ne-zero : (flag : CfgFlag) → 0 ≢ cfgflag_mask flag
unfolding cfgflag_mask
cfgflag_mask-ne-zero flag = ground arith

head_unnamed :
    (c : Config) (mode t rest modes : ℕ) (flag : CfgFlag)
    → has_flag t (cfgflag_mask flag) && (cfgflag_capability flag c && bit_and mode modes == mode)
      ≡ false
    → Has t rest
    → Exhausted c mode rest (flag, modes)
head_unnamed c mode t rest modes flag off within =
    elim (Bool-cases (has_flag t (cfgflag_mask flag))) [
      | inr unset ↦ inr (
          inr (λ left.
            absurd (ground (arith, unset, Has-trans t rest (cfgflag_mask flag) within left))))
      | inl set' ↦ elim (Bool-cases (cfgflag_capability flag c)) [
        | inr lacks ↦ inl lacks
        | inl has ↦ inr (inl (ground (arith, off, set', has)))
      ]
    ]

-- Over any table, the flags that are named are set and the firmware has them, no two of them share a
-- bit, and their masks add up to the flags of the configuration with the bits that are left, which
-- are bits of these. Of every entry of the table either the firmware does not have the flag, or it
-- does not belong to the mode, or its bits are not all left, so that none was passed over.
pub config_flags_shown-Shown :
    (c : Config) (mode t_flags : ℕ) (p : List (CfgFlag × ℕ))
    → Shown c mode t_flags p (config_flags_shown c mode t_flags p)
unfolding config_flags_shown
config_flags_shown-Shown c mode t [] = (omega arith, and_self t, tt, tt, tt)
config_flags_shown-Shown c mode t ((flag, modes) ∷ p) =
    let m = cfgflag_mask flag in
    let test = has_flag t m && (cfgflag_capability flag c && bit_and mode modes == mode) in
    let Good : List CfgFlag × ℕ → Type 0 = Shown c mode t ((flag, modes) ∷ p) in
    let without = config_flags_shown c mode t p in
    let with' = config_flags_shown c mode (t - m) p in
    elim (Bool-cases test) [
      | inr off ↦
          (let (adds, within, named, apart, done) = config_flags_shown-Shown c mode t p in
            let passed : without ≡ config_flags_shown c mode t ((flag, modes) ∷ p) = rw off refl in
            subst Good passed
              (adds, within, named, apart, (head_unnamed c mode t _ modes flag off within, done)))
      | inl on ↦
          (let (adds, within, named, apart, done) = config_flags_shown-Shown c mode (t - m) p in
            let set' : Has t m = ground (arith, on) in
            let capable : cfgflag_capability flag c ≡ true = ground (arith, on) in
            let gone = taken_disjoint t m set' in
            let kept = taken-Has t m set' in
            let left = disjoint_within (t - m) m _ gone within in
            let taken : (flag ∷ with'.0, with'.1)
                ≡ config_flags_shown c mode t ((flag, modes) ∷ p) =
              rw on refl in
            subst Good taken (
              omega (arith, adds, bit_and-le t m, set'),
              Has-trans t (t - m) _ kept within,
              ((set', capable), All-weaken _ (λ g h. (Has-trans t (t - m) _ kept h.0, h.1)) named),
              (
                All-weaken _
                    (λ g h. and_comm m (cfgflag_mask g) ∙ disjoint_within (t - m) m _ gone h.0)
                    named,
                apart,
              ),
              (inr (inr (λ again. cfgflag_mask-ne-zero flag (sym left ∙ again))), done),
            ))
    ]
