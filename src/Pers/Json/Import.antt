-- ===== src/Pers/Json/Import.antt =====
-- ykpers-json.c: the import of a configuration from JSON.
use yubikey_personalization.Prelude.{
  ℕ, Bool, true, false, not, ◌&&◌, Option, none, some, List, [], ◌∷◌, codes, str_eq, ◌==◌,
  if◌then◌else◌,
}
use yubikey_personalization.Pers.Types.{
  Config, Call, slot_config, slot_config2, ykp_einval, ykp_enorandom,
}
use yubikey_personalization.Pers.Command.{ykp_configure_command, ykp_command}
use yubikey_personalization.Pers.Flags.{
  write_tktflag, write_cfgflag, write_extflag, oath_hotp, chal_resp, oath_hotp8, chal_hmac,
  chal_yubico, static_ticket,
}
use yubikey_personalization.Pers.Fields.{ykp_set_oath_imf}
use yubikey_personalization.Pers.Modes.{
  mode_chal_hmac, mode_oath_hotp, mode_otp_yubico, mode_chal_yubico, mode_static_ticket,
  _ticket_flags_map, _config_flags_map, _extended_flags_map,
}
use yubikey_personalization.Pers.Export.{until_zero}
use yubikey_personalization.Pers.Json.{
  JsonC, tktflag_json, cfgflag_json, extflag_json, _modes_map, in_mode,
}

-- The configuration with `ykp_errno`, and a call on them whose return value is not looked at.
abbrev pub Target : Type 0
Target = Config × ℕ

abbrev pub run : Call → Target → Target
run f s = let (r, c, e) = f s.0 s.1 in (c, e)

-- The mode of a text: the first of the table, or the OTP mode.
unfoldable pub read_mode : List ℕ → List (ℕ × List ℕ) → ℕ
read_mode raw_mode [] = mode_otp_yubico
read_mode raw_mode ((flag, text) ∷ p) =
    let rest = read_mode raw_mode p in if str_eq raw_mode text then flag else rest

module _ {Json : Type 0} (lib : JsonC Json) where
  unfoldable pub set_json_value :
      {Flag : Type 0}
      → (Flag → Option (List ℕ))
      → (Flag → Bool → Call)
      → ℕ
      → Json
      → Flag
      → ℕ
      → Target
      → Target
  set_json_value text setter mode options flag modes s = elim (text flag) [
    | none ↦ s
    | some t ↦ elim (in_mode mode modes) [
      | false ↦ s
      | true ↦ elim (lib.object_get options t) [
        | none ↦ s
        | some joption ↦
            (if lib.is_boolean joption && lib.get_boolean joption
              then run (setter flag true) s
              else s)
      ]
    ]
  ]

  -- The loop over a table.
  unfoldable pub set_values :
      {Flag : Type 0}
      → (Flag → Option (List ℕ))
      → (Flag → Bool → Call)
      → ℕ
      → Json
      → List (Flag × ℕ)
      → Target
      → Target
  unfolding set_json_value
  set_values text setter mode options [] s = s
  set_values text setter mode options ((flag, modes) ∷ p) s =
      set_values text setter mode options p (set_json_value text setter mode options flag modes s)

  -- `targetConfig`. The value is false where the import ends.
  unfoldable pub aim : Json → Target → Bool × Target
  unfolding codes
  aim yprod_json s = elim (lib.object_get yprod_json (codes "targetConfig")) [
    | none ↦ (true, s)
    | some jtarget ↦
        (let target_config = lib.get_int jtarget in
          let command = if target_config == 1 then slot_config else slot_config2 in
          if not (target_config == 1) && not (target_config == 2)
          then (false, (s.0, ykp_einval))
          else if (ykp_command (some s.0) s.1).0 == 0
          then (true, run (ykp_configure_command command) s)
          else if (ykp_command (some s.0) s.1).0 == command
          then (true, s)
          else (false, (s.0, ykp_einval)))
  ]

  -- `oathDigits`, `randomSeed` and `fixedSeedvalue`.
  unfoldable pub set_oath : Json → Target → Bool × Target
  unfolding codes
  set_oath options s =
      let s1 = run (write_tktflag oath_hotp true) s in
      let s2 : Target = elim (lib.object_get options (codes "oathDigits")) [
        | none ↦ s1
        | some jdigits ↦
            (if lib.get_int jdigits == 8 then run (write_cfgflag oath_hotp8 true) s1 else s1)
      ] in
      elim (lib.object_get options (codes "randomSeed")) [
        | none ↦ (true, s2)
        | some jrandom ↦
            (let seed : ℕ = elim (lib.object_get options (codes "fixedSeedvalue")) [
              | none ↦ 0
              | some jseed ↦ lib.get_int jseed
            ] in
              if lib.get_boolean jrandom
              then (false, (s2.0, ykp_enorandom))
              else (true, run (ykp_set_oath_imf seed) s2))
      ]

  unfoldable pub set_mode : ℕ → Json → Target → Bool × Target
  unfolding set_oath
  set_mode mode options s =
      if mode == mode_oath_hotp
      then set_oath options s
      else if mode == mode_chal_hmac
      then (true, run (write_cfgflag chal_hmac true) (run (write_tktflag chal_resp true) s))
      else if mode == mode_chal_yubico
      then (true, run (write_cfgflag chal_yubico true) (run (write_tktflag chal_resp true) s))
      else if mode == mode_static_ticket
      then (true, run (write_cfgflag static_ticket true) s)
      else (true, s)

  -- From the target on.
  unfoldable pub import_options : Json → Json → Json → Target → Bool × Target
  unfolding aim set_mode set_values
  import_options yprod_json jmode options s =
      let (aimed, s1) = aim yprod_json s in
      let mode = read_mode (lib.get_string jmode) _modes_map in
      let (moded, s2) = set_mode mode options s1 in
      if not aimed then (false, s1) else if not moded then (false, s2) else (
        true,
        set_values extflag_json write_extflag mode options _extended_flags_map (
            set_values cfgflag_json write_cfgflag mode options _config_flags_map
              (set_values tktflag_json write_tktflag mode options _ticket_flags_map s2)),
      )

  -- The return value, the configuration and `ykp_errno`.
  unfoldable pub _ykp_json_import_cfg : List ℕ → Config → ℕ → Bool × Target
  unfolding codes import_options
  _ykp_json_import_cfg json cfg errno =
      let bad : Bool × Target = (false, (cfg, ykp_einval)) in
      elim (lib.tokener_parse (until_zero json)) [
        | none ↦ bad
        | some jobj ↦ elim (lib.object_get jobj (codes "yubiProdConfig")) [
          | none ↦ bad
          | some yprod_json ↦ elim (lib.object_get yprod_json (codes "mode")) [
            | none ↦ bad
            | some jmode ↦ elim (lib.object_get yprod_json (codes "options")) [
              | none ↦ bad
              | some options ↦ import_options yprod_json jmode options (cfg, errno)
            ]
          ]
        ]
      ]
