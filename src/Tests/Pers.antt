-- ===== src/Tests/Pers.antt =====
-- The theorems on configurations and NFC records at concrete inputs.
use yubikey_personalization.Prelude.{
  ◌*◌, replicate, length-replicate, length, ℕ, ◌<◌, ◌≡◌, ◌↔◌, ◌⊎◌, true, false, some, List, [], ◌∷◌,
  ◌++◌, arith, refl, if◌then◌else◌, take,
}
use yubikey_personalization.Pers.Types.{
  Status, Config, ykp_eyubikeyver, ykp_eoldyubikey, ykp_einvconfnum, ykp_einval,
}
use yubikey_personalization.Pers.Capability.{vcheck_v22_or_greater, capability_has_oath_imf}
use yubikey_personalization.Pers.Command.{default_config2, ykp_configure_command}
use yubikey_personalization.Pers.Command.Laws.{configure_command_effect}
use yubikey_personalization.Pers.Flags.{
  tab_first, ykp_set_tktflag, ykp_get_tktflag, tktflag_capability,
}
use yubikey_personalization.Pers.Flags.Laws.{set_tktflag-get}
use yubikey_personalization.Pers.Fields.{ykp_set_oath_imf, ykp_get_oath_imf}
use yubikey_personalization.Pers.Fields.Laws.{set_oath_imf-get, FitsImf}
use yubikey_personalization.Pers.Export.{Encoders, legacy_lines, until_zero, ykp_write_config}
use yubikey_personalization.Pers.Export.Laws.{write_config-joined}
use yubikey_personalization.Pers.Export.Lines.{joined}
use yubikey_personalization.Pers.Modes.{
  config_flags_shown, _config_flags_map, legacy_mode, mode_chal_hmac, mode_oath_hotp,
}
use yubikey_personalization.Pers.Modes.Laws.{
  Shown, config_flags_shown-Shown, supported_key_length-legacy_mode,
}
use yubikey_personalization.Pers.Keys.{ykp_get_supported_key_length}
use yubikey_personalization.Core.Program.{Ndef}
use yubikey_personalization.Pers.Ndef.{
  ykp_construct_ndef_uri, ykp_construct_ndef_text, ykp_ndef_as_text, shorten,
}
use yubikey_personalization.Pers.Ndef.Laws.{
  ndef_as_text-construct_ndef_uri, ndef_as_text-construct_ndef_text,
}
use yubikey_personalization.Pers.Ndef.Prefix.{text_result}

-- A configuration for firmware 2.4.
abbrev config24 : Config
config24 = record {
  yk_major_version = 2;
  yk_minor_version = 4;
  yk_build_version = 0;
  command = 1;
  core = default_config2;
  ykp_acccode_type = 0;
}

abbrev status24 : Status
status24 = record {
  version_major = 2;
  version_minor = 4;
  version_build = 0;
  pgm_seq = 3;
  touch_level = 0;
}

configure_command_effect_example :
    let r = ykp_configure_command 0x12 config24 0 in
    (r ≡ (1, record config24 { command = 0x12 }, 0))
    ⊎ ((r.0 ≡ 0)
        × (r.1 ≡ config24)
        × ((r.2 ≡ ykp_eoldyubikey) ⊎ (r.2 ≡ ykp_eyubikeyver) ⊎ (r.2 ≡ ykp_einvconfnum)))
configure_command_effect_example = configure_command_effect 0x12 config24 0

set_tktflag-get_example :
    let r = ykp_set_tktflag tab_first true (some config24) 0 in
    ((tktflag_capability tab_first config24 ≡ false) × (r ≡ (0, some config24, ykp_eyubikeyver)))
    ⊎ ((tktflag_capability tab_first config24 ≡ true)
        × ((v : ℕ) × (v < 256)
            × (r ≡ (
              1,
              some (record config24 { core = record (config24.core) { tkt_flags = v } }),
              0,
            ))
            × (ykp_get_tktflag tab_first r.1 ≡ true)))
set_tktflag-get_example = set_tktflag-get tab_first true config24 0 (omega arith)

set_oath_imf-get_example :
    let r = ykp_set_oath_imf 64 config24 0 in
    (FitsImf 64
      × (r.0 ≡ 1)
      × (ykp_get_oath_imf r.1 ≡ 64)
      × (take 4 r.1.core.uid ≡ take 4 config24.core.uid))
    ⊎ ((¬ FitsImf 64) × (r ≡ (0, config24, ykp_einval)))
unfolding capability_has_oath_imf vcheck_v22_or_greater
set_oath_imf-get_example = set_oath_imf-get 64 config24 0 refl refl

supported_key_length-legacy_mode_example :
    (ykp_get_supported_key_length config24 ≡ 20)
    ↔ ((legacy_mode config24 ≡ mode_chal_hmac) ⊎ (legacy_mode config24 ≡ mode_oath_hotp))
supported_key_length-legacy_mode_example = supported_key_length-legacy_mode config24

config_flags_shown-Shown_example :
    Shown config24 0x10 0xf0 _config_flags_map
      (config_flags_shown config24 0x10 0xf0 _config_flags_map)
config_flags_shown-Shown_example = config_flags_shown-Shown config24 0x10 0xf0 _config_flags_map

abbrev empty_ndef : Ndef
empty_ndef = record {
  payload_len = 0;
  payload_type = 0;
  payload_data = replicate 54 0;
  cur_acc_code = replicate 6 0;
}

-- "tel:12"
abbrev phone : List ℕ
phone = 116 ∷ 101 ∷ 108 ∷ 58 ∷ 49 ∷ 50 ∷ []

ndef_as_text-construct_ndef_uri_example :
    let made = ykp_construct_ndef_uri empty_ndef phone 0 in
    (made.0 ≡ 1)
    × (ykp_ndef_as_text made.1 (replicate 9 7) (length {A = ℕ} (replicate 9 7))
        ≡ text_result phone (replicate 9 7))
unfolding shorten
ndef_as_text-construct_ndef_uri_example =
    ndef_as_text-construct_ndef_uri empty_ndef phone (replicate 9 7) 0 (omega arith) (omega arith)

ndef_as_text-construct_ndef_text_example :
    let made = ykp_construct_ndef_text empty_ndef phone (101 ∷ 110 ∷ []) true 0 in
    (made.0 ≡ 1)
    × (ykp_ndef_as_text made.1 (replicate 11 7) (length {A = ℕ} (replicate 11 7))
        ≡ text_result (if true then (101 ∷ 110 ∷ []) ++ phone else phone) (replicate 11 7))
ndef_as_text-construct_ndef_text_example =
    ndef_as_text-construct_ndef_text empty_ndef phone (101 ∷ 110 ∷ []) (replicate 11 7) true 0
      (omega arith)

-- Encoders that make every byte two characters.
abbrev pub zero_digits : Encoders
zero_digits = record {
  hex_encode = λ s. replicate (2 * length s) 48;
  modhex_encode = λ s. replicate (2 * length s) 99;
  length-hex_encode = λ s. length-replicate (2 * length s) 48;
  length-modhex_encode = λ s. length-replicate (2 * length s) 99;
}

write_config-joined_example :
    (tail : List ℕ) × (ykp_write_config zero_digits [] (some config24) 0
      ≡ (1, some (until_zero (joined (legacy_lines zero_digits config24) ++ (0 ∷ tail))), 0))
write_config-joined_example = write_config-joined zero_digits config24 [] 0 (omega arith)
