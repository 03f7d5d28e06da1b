-- ===== src/Pers/Json/Copied.antt =====
-- The loops over the tables of flags copy the flags of a mode on firmware with every feature.
use yubikey_personalization.Prelude.{
  ℕ, ◌%◌, ◌≡◌, ◌⊎◌, inl, inr, refl, sym, ap, ◌∙◌, arith, Bool, true, false, ◌&&◌, Bool-cases,
  Option-cases, Option, some, List, [], ◌∷◌, bit_or,
}
use yubikey_personalization.Pers.Types.{Config, CoreConfig, Call}
use yubikey_personalization.Pers.Flags.{
  TktFlag, CfgFlag, ExtFlag, has_flag, tktflag_mask, cfgflag_mask, extflag_mask, tktflag_capability,
  cfgflag_capability, extflag_capability, write_tktflag, write_cfgflag, write_extflag, ticket_first,
  allow_hidtrig, send_ref,
}
use yubikey_personalization.Pers.Capability.{capability_has_oath_imf}
use yubikey_personalization.Pers.Modes.{_ticket_flags_map, _config_flags_map, _extended_flags_map}
use yubikey_personalization.Pers.Json.{tktflag_json, cfgflag_json, extflag_json, in_mode}
use yubikey_personalization.Pers.Json.Objects.{copy_flags}
use yubikey_personalization.Pers.Json.Kept.{masks, tkt_masks, cfg_masks, ext_masks}

-- Copying the flags of a table into one byte.
module _ {Flag : Type 0} (text : Flag → Option (List ℕ)) (mask : Flag → ℕ) (has : Flag → Bool)
    (mode : ℕ) (setter : Flag → Bool → Call) (d : Config) (byte : CoreConfig → ℕ)
    (with_byte : ℕ → CoreConfig → CoreConfig)
    (sets : (f : Flag) (t : List ℕ) (k : CoreConfig) (e : ℕ)
      → text f ≡ some t
      → setter f true (record d { core = k }) e
        ≡ (1, record d { core = with_byte (bit_or (byte k) (mask f) % 256) k }, e))
    (byte-with_byte : (x : ℕ) (k : CoreConfig) → byte (with_byte x k) ≡ x)
    (with_byte_twice : (x y : ℕ) (k : CoreConfig) → with_byte x (with_byte y k) ≡ with_byte x k)
    (with_byte_same : (k : CoreConfig) → with_byte (byte k) k ≡ k) where
  copy_masks :
      (p : List (Flag × ℕ)) (k : CoreConfig) (e : ℕ)
      → copy_flags text has mode setter p (record d { core = k }, e)
        ≡ (record d { core = with_byte (masks text mask has mode p (byte k)) k }, e)
  copy_masks [] k e = ap (λ x. (record d { core = x }, e)) (sym (with_byte_same k))
  copy_masks ((flag, modes) ∷ p) k e = elim (Option-cases (text flag)) [
    | inl n ↦ rw (n, copy_flags, masks) (copy_masks p k e)
    | inr (t, n) ↦ elim (Bool-cases (in_mode mode modes && has flag)) [
      | inr off ↦ rw (n, off, copy_flags, masks) (copy_masks p k e)
      | inl on ↦
          let x = bit_or (byte k) (mask flag) % 256 in
          rw (n, on, sets flag t k e n, copy_flags, masks)
            (copy_masks p (with_byte x k) e ∙ rw (byte-with_byte, with_byte_twice) refl)
    ]
  ]

-- The flags that only the first firmware has.
unfoldable pub is_old : CfgFlag → Bool
is_old ticket_first = true
is_old allow_hidtrig = true
is_old send_ref = false
is_old _ = false

-- A flag with a text is none of these.
json_not_old : (f : CfgFlag) (t : List ℕ) → cfgflag_json f ≡ some t → is_old f ≡ false
unfolding is_old cfgflag_json
json_not_old ticket_first t h = absurd (ground (arith, h))
json_not_old allow_hidtrig t h = absurd (ground (arith, h))
json_not_old send_ref t h = refl
json_not_old _ t h = refl

-- Firmware with every feature that the flags need, but for those of the first firmware only.
pub record IsCapable (d : Config) : Type 0 where
  pub tkt : (f : TktFlag) (k : CoreConfig) → tktflag_capability f (record d { core = k }) ≡ true
  pub cfg :
      (f : CfgFlag) (k : CoreConfig)
      → (is_old f ≡ true) ⊎ (cfgflag_capability f (record d { core = k }) ≡ true)
  pub ext : (f : ExtFlag) (k : CoreConfig) → extflag_capability f (record d { core = k }) ≡ true
  pub imf : (k : CoreConfig) → capability_has_oath_imf (record d { core = k }) ≡ true

pub has_cfgflag :
    (d : Config) (capable : IsCapable d) (f : CfgFlag) (k : CoreConfig)
    → is_old f ≡ false
    → cfgflag_capability f (record d { core = k }) ≡ true
has_cfgflag d capable f k new = elim (capable.cfg f k) [
  | inl old ↦ absurd (ground (arith, new, old))
  | inr has ↦ has
]

module _ (d : Config) (capable : IsCapable d) (mode : ℕ) where
  pub tkt_copied :
      (x : ℕ) (k : CoreConfig) (e : ℕ)
      → copy_flags tktflag_json
          (λ f. has_flag x (tktflag_mask f))
          mode
          write_tktflag
          _ticket_flags_map
          (record d { core = k }, e)
        ≡ (record d { core = record k { tkt_flags = tkt_masks mode x k.tkt_flags } }, e)
  unfolding write_tktflag
  tkt_copied x k e =
      copy_masks tktflag_json tktflag_mask (λ f. has_flag x (tktflag_mask f)) mode write_tktflag d
        (λ k'. k'.tkt_flags) (λ y k'. record k' { tkt_flags = y })
        (λ f t k' e' n. rw (capable.tkt f k') refl) (λ y k'. refl) (λ y z k'. refl) (λ k'. refl)
        _ticket_flags_map k e

  pub cfg_copied :
      (x : ℕ) (k : CoreConfig) (e : ℕ)
      → copy_flags cfgflag_json
          (λ f. has_flag x (cfgflag_mask f))
          mode
          write_cfgflag
          _config_flags_map
          (record d { core = k }, e)
        ≡ (record d { core = record k { cfg_flags = cfg_masks mode x k.cfg_flags } }, e)
  unfolding write_cfgflag
  cfg_copied x k e =
      copy_masks cfgflag_json cfgflag_mask (λ f. has_flag x (cfgflag_mask f)) mode write_cfgflag d
        (λ k'. k'.cfg_flags) (λ y k'. record k' { cfg_flags = y })
        (λ f t k' e' n. rw (has_cfgflag d capable f k' (json_not_old f t n)) refl) (λ y k'. refl)
        (λ y z k'. refl) (λ k'. refl) _config_flags_map k e

  pub ext_copied :
      (x : ℕ) (k : CoreConfig) (e : ℕ)
      → copy_flags extflag_json
          (λ f. has_flag x (extflag_mask f))
          mode
          write_extflag
          _extended_flags_map
          (record d { core = k }, e)
        ≡ (record d { core = record k { ext_flags = ext_masks mode x k.ext_flags } }, e)
  unfolding write_extflag
  ext_copied x k e =
      copy_masks extflag_json extflag_mask (λ f. has_flag x (extflag_mask f)) mode write_extflag d
        (λ k'. k'.ext_flags) (λ y k'. record k' { ext_flags = y })
        (λ f t k' e' n. rw (capable.ext f k') refl) (λ y k'. refl) (λ y z k'. refl) (λ k'. refl)
        _extended_flags_map k e
