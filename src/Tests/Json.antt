-- ===== src/Tests/Json.antt =====
-- The round trip of an export and an import at a concrete input.
pub mod Docs
use yubikey_personalization.Prelude.{
  ◌++◌, none, ℕ, ◌<◌, ◌≡◌, inr, refl, true, false, some, List, [], ◌∷◌, arith, length, ltb→lt, ltb,
  ◌⊎◌, inl, replicate, codes,
}
use yubikey_personalization.Pers.Types.{Config, CoreConfig}
use yubikey_personalization.Pers.Command.{default_config1, ykp_get_acccode_type}
use yubikey_personalization.Pers.Capability.{
  vcheck_all, vcheck_v1, vcheck_no_v1, vcheck_v21_or_greater, vcheck_v22_or_greater,
  vcheck_v23_or_greater, vcheck_v24_or_greater, vcheck_v30, vcheck_neo, vcheck_neo_before_5,
  vcheck_neo_after_6, capability_has_hidtrig, capability_has_ticket_first, capability_has_static,
  capability_has_static_extras, capability_has_slot_two, capability_has_chal_resp,
  capability_has_oath_imf, capability_has_serial_api, capability_has_serial, capability_has_oath,
  capability_has_ticket_mods, capability_has_update, capability_has_fast, capability_has_numeric,
  capability_has_dormant, capability_has_led_inv,
}
use yubikey_personalization.Pers.Modes.{legacy_mode}
use yubikey_personalization.Pers.Types.{ykp_format_ycfg}
use yubikey_personalization.Args.State.{Run}
use yubikey_personalization.Tests.Args.{empty_outputs, second_slot_run}
use yubikey_personalization.Tool.Files.{saved, goes_on, open_input, opens_output, files}
use yubikey_personalization.Tool.Files.Laws.{files_saved-goes_on}
use yubikey_personalization.Pers.Export.{until_zero}
use yubikey_personalization.Pers.Formats.{returned, ykp_export_config, ykp_import_config}
use yubikey_personalization.Pers.Formats.Laws.{import_config-export_config}
use yubikey_personalization.Pers.Flags.{
  tab_first, append_tab1, append_tab2, append_delay1, append_delay2, append_cr, protect_cfg2,
  oath_hotp, chal_resp, send_ref, ticket_first, pacing_10ms, pacing_20ms, allow_hidtrig,
  static_ticket, short_ticket, strong_pw1, strong_pw2, man_update, oath_hotp8, oath_fixed_modhex1,
  oath_fixed_modhex2, oath_fixed_modhex, chal_yubico, chal_hmac, hmac_lt64, chal_btn_trig,
  serial_btn_visible, serial_usb_visible, serial_api_visible, use_numeric_keypad, fast_trig,
  allow_update, dormant, led_inv, TktFlag, CfgFlag, ExtFlag, tktflag_capability, cfgflag_capability,
  extflag_capability, extflag_mask,
}
use yubikey_personalization.Pers.Json.{
  add_scope, add_protection, add_target, add_mode, _modes_map, export_options, add_flags,
  extflag_json, cfgflag_json, tktflag_json, export_object, _ykp_json_export_cfg,
}
use yubikey_personalization.Pers.Json.Import.{_ykp_json_import_cfg}
use yubikey_personalization.Pers.Json.Laws.{cleared, carried, import-export}
use yubikey_personalization.Pers.Json.Copied.{is_old, IsCapable}
use yubikey_personalization.Tests.Pers.{zero_digits}
use yubikey_personalization.Tests.Json.Docs.{doc_lib, doc_lib-IsLawful}

-- A configuration for the first slot of a key of version 2.4 with eight digits of OATH.
abbrev oath_config : Config
oath_config = record {
  yk_major_version = 2;
  yk_minor_version = 4;
  yk_build_version = 0;
  command = 1;
  core = record default_config1 {
    tkt_flags = 0x60;
    cfg_flags = 0x02;
    ext_flags = 0x04;
    uid = 0 ∷ 0 ∷ 0 ∷ 0 ∷ 0 ∷ 1 ∷ [];
  };
  ykp_acccode_type = 1;
}

tkt_all :
    (f : TktFlag) (k : CoreConfig) → tktflag_capability f (record oath_config { core = k }) ≡ true
unfolding tktflag_capability vcheck_all vcheck_v1 vcheck_no_v1 vcheck_v21_or_greater
    vcheck_v22_or_greater vcheck_v23_or_greater vcheck_v24_or_greater vcheck_v30 vcheck_neo
    vcheck_neo_before_5 vcheck_neo_after_6 capability_has_hidtrig capability_has_ticket_first
    capability_has_static capability_has_static_extras capability_has_slot_two
    capability_has_chal_resp capability_has_oath_imf capability_has_serial_api capability_has_serial
    capability_has_oath capability_has_ticket_mods capability_has_update capability_has_fast
    capability_has_numeric capability_has_dormant capability_has_led_inv
tkt_all tab_first k = refl
tkt_all append_tab1 k = refl
tkt_all append_tab2 k = refl
tkt_all append_delay1 k = refl
tkt_all append_delay2 k = refl
tkt_all append_cr k = refl
tkt_all protect_cfg2 k = refl
tkt_all oath_hotp k = refl
tkt_all chal_resp k = refl

cfg_all :
    (f : CfgFlag) (k : CoreConfig)
    → (is_old f ≡ true) ⊎ (cfgflag_capability f (record oath_config { core = k }) ≡ true)
unfolding cfgflag_capability is_old vcheck_all vcheck_v1 vcheck_no_v1 vcheck_v21_or_greater
    vcheck_v22_or_greater vcheck_v23_or_greater vcheck_v24_or_greater vcheck_v30 vcheck_neo
    vcheck_neo_before_5 vcheck_neo_after_6 capability_has_hidtrig capability_has_ticket_first
    capability_has_static capability_has_static_extras capability_has_slot_two
    capability_has_chal_resp capability_has_oath_imf capability_has_serial_api capability_has_serial
    capability_has_oath capability_has_ticket_mods capability_has_update capability_has_fast
    capability_has_numeric capability_has_dormant capability_has_led_inv
cfg_all send_ref k = inr refl
cfg_all ticket_first k = inl refl
cfg_all pacing_10ms k = inr refl
cfg_all pacing_20ms k = inr refl
cfg_all allow_hidtrig k = inl refl
cfg_all static_ticket k = inr refl
cfg_all short_ticket k = inr refl
cfg_all strong_pw1 k = inr refl
cfg_all strong_pw2 k = inr refl
cfg_all man_update k = inr refl
cfg_all oath_hotp8 k = inr refl
cfg_all oath_fixed_modhex1 k = inr refl
cfg_all oath_fixed_modhex2 k = inr refl
cfg_all oath_fixed_modhex k = inr refl
cfg_all chal_yubico k = inr refl
cfg_all chal_hmac k = inr refl
cfg_all hmac_lt64 k = inr refl
cfg_all chal_btn_trig k = inr refl

ext_all :
    (f : ExtFlag) (k : CoreConfig) → extflag_capability f (record oath_config { core = k }) ≡ true
unfolding extflag_capability vcheck_all vcheck_v1 vcheck_no_v1 vcheck_v21_or_greater
    vcheck_v22_or_greater vcheck_v23_or_greater vcheck_v24_or_greater vcheck_v30 vcheck_neo
    vcheck_neo_before_5 vcheck_neo_after_6 capability_has_hidtrig capability_has_ticket_first
    capability_has_static capability_has_static_extras capability_has_slot_two
    capability_has_chal_resp capability_has_oath_imf capability_has_serial_api capability_has_serial
    capability_has_oath capability_has_ticket_mods capability_has_update capability_has_fast
    capability_has_numeric capability_has_dormant capability_has_led_inv
ext_all serial_btn_visible k = refl
ext_all serial_usb_visible k = refl
ext_all serial_api_visible k = refl
ext_all use_numeric_keypad k = refl
ext_all fast_trig k = refl
ext_all allow_update k = refl
ext_all dormant k = refl
ext_all led_inv k = refl

imf_all : (k : CoreConfig) → capability_has_oath_imf (record oath_config { core = k }) ≡ true
unfolding vcheck_all vcheck_v1 vcheck_no_v1 vcheck_v21_or_greater vcheck_v22_or_greater
    vcheck_v23_or_greater vcheck_v24_or_greater vcheck_v30 vcheck_neo vcheck_neo_before_5
    vcheck_neo_after_6 capability_has_hidtrig capability_has_ticket_first capability_has_static
    capability_has_static_extras capability_has_slot_two capability_has_chal_resp
    capability_has_oath_imf capability_has_serial_api capability_has_serial capability_has_oath
    capability_has_ticket_mods capability_has_update capability_has_fast capability_has_numeric
    capability_has_dormant capability_has_led_inv
imf_all k = refl

oath_config-IsCapable : IsCapable oath_config
oath_config-IsCapable = record { tkt = tkt_all; cfg = cfg_all; ext = ext_all; imf = imf_all }

mode_run : legacy_mode oath_config ≡ 2
unfolding legacy_mode
mode_run = refl

short_run :
    ltb (length (doc_lib.to_json_string (export_object doc_lib zero_digits oath_config))) 1024
    ≡ true
unfolding export_object add_scope add_protection add_target add_mode _modes_map export_options
    add_flags extflag_json cfgflag_json tktflag_json legacy_mode ykp_get_acccode_type extflag_mask
short_run = refl

import_config-export_config_example :
    (text : List ℕ) × (ykp_export_config doc_lib zero_digits
        (some oath_config)
        []
        1024
        ykp_format_ycfg
        0
      ≡ returned
          (length (doc_lib.to_json_string (export_object doc_lib zero_digits oath_config)))
          text
          0)
    × (until_zero text ≡ doc_lib.to_json_string (export_object doc_lib zero_digits oath_config))
    × (ykp_import_config doc_lib (cleared oath_config) text ykp_format_ycfg 0
        ≡ (true, (carried oath_config oath_config, 0)))
import_config-export_config_example =
    import_config-export_config doc_lib doc_lib-IsLawful zero_digits oath_config oath_config
      oath_config-IsCapable 0 [] 1024 refl (omega arith, omega arith, omega arith)
      (inr (refl, omega arith)) (ltb→lt _ 1024 short_run)

-- One run with -s - and one with -i -, both with -f ycfg.
abbrev saving : Run
saving = record second_slot_run {
  cfg = oath_config;
  out = record empty_outputs { outfname = some (codes "-"); data_format = 2 };
}

abbrev loading : Run
loading = record second_slot_run {
  cfg = oath_config;
  out = record empty_outputs { infname = some (codes "-"); data_format = 2 };
}

abbrev text_saved : List ℕ
text_saved = doc_lib.to_json_string (export_object doc_lib zero_digits oath_config)

some_text : ltb 0 (length text_saved) ≡ true
unfolding export_object add_scope add_protection add_target add_mode _modes_map export_options
    add_flags extflag_json cfgflag_json tktflag_json legacy_mode ykp_get_acccode_type extflag_mask
some_text = refl

opens_stdout :
    opens_output doc_lib zero_digits text_saved (λ s. none) (λ s. false) length (some (codes "-"))
    ≡ true
unfolding opens_output codes
opens_stdout = refl

opens_stdin :
    open_input doc_lib zero_digits text_saved (λ s. none) (λ s. false) length (some (codes "-"))
    ≡ some (some text_saved)
unfolding open_input codes
opens_stdin = refl

files_saved-goes_on_example :
    (files doc_lib zero_digits text_saved (λ s. none) (λ s. false) length saving []
      ≡ saved text_saved)
    × (files doc_lib zero_digits text_saved
          (λ s. none)
          (λ s. false)
          length
          loading
          (text_saved ++ (0 ∷ []))
        ≡ goes_on (record loading { cfg = carried oath_config oath_config }))
files_saved-goes_on_example =
    files_saved-goes_on doc_lib doc_lib-IsLawful zero_digits text_saved (λ s. none) (λ s. false)
      length saving loading oath_config-IsCapable (codes "-") [] text_saved [] refl refl refl
      opens_stdout opens_stdin refl refl refl (omega arith, omega arith, omega arith)
      (inr (refl, omega arith)) (ltb→lt _ 1024 short_run) (ltb→lt 0 _ some_text) refl refl
