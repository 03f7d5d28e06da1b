-- ===== src/Pers/Modes.antt =====
-- ykpers_lcl.c and ykpers.c: the tables of flags, the mode that a configuration is in, and the flags
-- that `_ykp_legacy_export_config` names for it.
pub mod Laws
use yubikey_personalization.Prelude.{
  ℕ, ◌-◌, Bool, ◌&&◌, some, List, [], ◌∷◌, bit_and, ◌==◌, if◌then◌else◌,
}
use yubikey_personalization.Pers.Types.{Config}
use yubikey_personalization.Pers.Flags.{
  TktFlag, CfgFlag, ExtFlag, tktflag_mask, cfgflag_mask, extflag_mask, tktflag_capability,
  cfgflag_capability, extflag_capability, has_flag, tab_first, append_tab1, append_tab2,
  append_delay1, append_delay2, append_cr, protect_cfg2, oath_hotp, chal_resp, send_ref,
  ticket_first, pacing_10ms, pacing_20ms, allow_hidtrig, static_ticket, short_ticket, strong_pw1,
  strong_pw2, man_update, oath_hotp8, oath_fixed_modhex1, oath_fixed_modhex2, oath_fixed_modhex,
  chal_yubico, chal_hmac, hmac_lt64, chal_btn_trig, serial_btn_visible, serial_usb_visible,
  serial_api_visible, use_numeric_keypad, fast_trig, allow_update, dormant, led_inv,
}

abbrev pub mode_chal_hmac : ℕ
mode_chal_hmac = 0x01

abbrev pub mode_oath_hotp : ℕ
mode_oath_hotp = 0x02

abbrev pub mode_otp_yubico : ℕ
mode_otp_yubico = 0x04

abbrev pub mode_chal_yubico : ℕ
mode_chal_yubico = 0x08

abbrev pub mode_static_ticket : ℕ
mode_static_ticket = 0x10

abbrev pub mode_chal_resp : ℕ
mode_chal_resp = 0x09

abbrev pub mode_output : ℕ
mode_output = 0x16

abbrev pub mode_all : ℕ
mode_all = 0xff

-- The mode that the flags of a configuration say.
unfoldable pub legacy_mode : Config → ℕ
unfolding tktflag_mask cfgflag_mask
legacy_mode c =
    if has_flag c.core.tkt_flags (tktflag_mask oath_hotp)
    then (if has_flag c.core.cfg_flags (cfgflag_mask chal_hmac)
        then mode_chal_hmac
        else if has_flag c.core.cfg_flags (cfgflag_mask chal_yubico)
        then mode_chal_yubico
        else mode_oath_hotp)
    else if has_flag c.core.cfg_flags (cfgflag_mask static_ticket)
    then mode_static_ticket
    else mode_otp_yubico

-- The tables, each flag with the modes that it belongs to; its mask and its capability are those of
-- its setter.
abbrev pub _ticket_flags_map : List (TktFlag × ℕ)
_ticket_flags_map =
    (tab_first, mode_output)
    ∷ (append_tab1, mode_output)
    ∷ (append_tab2, mode_output)
    ∷ (append_delay1, mode_output)
    ∷ (append_delay2, mode_output)
    ∷ (append_cr, mode_output)
    ∷ (protect_cfg2, mode_all)
    ∷ (oath_hotp, mode_oath_hotp)
    ∷ (chal_resp, mode_chal_resp)
    ∷ []

abbrev pub _config_flags_map : List (CfgFlag × ℕ)
_config_flags_map =
    (chal_yubico, mode_chal_yubico)
    ∷ (chal_hmac, mode_chal_hmac)
    ∷ (hmac_lt64, mode_chal_hmac)
    ∷ (chal_btn_trig, mode_chal_resp)
    ∷ (oath_hotp8, mode_oath_hotp)
    ∷ (oath_fixed_modhex1, mode_oath_hotp)
    ∷ (oath_fixed_modhex2, mode_oath_hotp)
    ∷ (oath_fixed_modhex, mode_oath_hotp)
    ∷ (send_ref, mode_output)
    ∷ (ticket_first, mode_output)
    ∷ (pacing_10ms, mode_output)
    ∷ (pacing_20ms, mode_output)
    ∷ (allow_hidtrig, mode_output)
    ∷ (static_ticket, mode_static_ticket)
    ∷ (short_ticket, mode_output)
    ∷ (strong_pw1, mode_static_ticket)
    ∷ (strong_pw2, mode_static_ticket)
    ∷ (man_update, mode_static_ticket)
    ∷ []

abbrev pub _extended_flags_map : List (ExtFlag × ℕ)
_extended_flags_map =
    (serial_btn_visible, mode_all)
    ∷ (serial_usb_visible, mode_all)
    ∷ (serial_api_visible, mode_all)
    ∷ (use_numeric_keypad, mode_all)
    ∷ (fast_trig, mode_all)
    ∷ (allow_update, mode_all)
    ∷ (dormant, mode_all)
    ∷ (led_inv, mode_all)
    ∷ []

module _ (c : Config) where
  -- The loops over the tables: the flags that are named, in the order of the table.
  unfoldable pub ticket_flags_shown : ℕ → List (TktFlag × ℕ) → List TktFlag
  ticket_flags_shown mode [] = []
  ticket_flags_shown mode ((flag, modes) ∷ p) =
      let rest = ticket_flags_shown mode p in
      if has_flag c.core.tkt_flags (tktflag_mask flag)
        && (tktflag_capability flag c && bit_and mode modes == mode)
      then flag ∷ rest
      else rest

  unfoldable pub extended_flags_shown : ℕ → List (ExtFlag × ℕ) → List ExtFlag
  extended_flags_shown mode [] = []
  extended_flags_shown mode ((flag, modes) ∷ p) =
      let rest = extended_flags_shown mode p in
      if has_flag c.core.ext_flags (extflag_mask flag)
        && (extflag_capability flag c && bit_and mode modes == mode)
      then flag ∷ rest
      else rest

  -- A configuration flag that is named is taken out of `t_flags`, whose last value is kept here.
  unfoldable pub config_flags_shown : ℕ → ℕ → List (CfgFlag × ℕ) → List CfgFlag × ℕ
  config_flags_shown mode t_flags [] = ([], t_flags)
  config_flags_shown mode t_flags ((flag, modes) ∷ p) =
      let with' = config_flags_shown mode (t_flags - cfgflag_mask flag) p in
      let without = config_flags_shown mode t_flags p in
      if has_flag t_flags (cfgflag_mask flag)
        && (cfgflag_capability flag c && bit_and mode modes == mode)
      then (flag ∷ with'.0, with'.1)
      else without
