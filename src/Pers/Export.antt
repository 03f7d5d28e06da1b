-- ===== src/Pers/Export.antt =====
-- ykpers.c: the text of the legacy export (`_ykp_legacy_export_config`) and the functions that choose
-- a format, with ykpers-nojson.c.
pub mod Lines
pub mod Laws
use yubikey_personalization.Prelude.{
  ◌≡◌, ℕ, zero, suc, ◌+◌, ◌-◌, ◌*◌, ◌/◌, ◌%◌, min, Bool, true, false, not, ◌&&◌, ◌||◌, Option, none,
  some, List, [], ◌∷◌, ◌++◌, codes, ltb, ◌==◌, if◌then◌else◌, length, take, drop, map,
}
use yubikey_personalization.Pers.Types.{
  ykp_format_legacy, ykp_format_ycfg, Config, CoreConfig, ykp_enocfg, ykp_einval, ykp_enotyetimpl,
}
use yubikey_personalization.Pers.Capability.{capability_has_oath_imf}
use yubikey_personalization.Pers.Flags.{
  TktFlag, CfgFlag, ExtFlag, has_flag, tktflag_mask, cfgflag_mask, tab_first, append_tab1,
  append_tab2, append_delay1, append_delay2, append_cr, protect_cfg2, oath_hotp, chal_resp,
  send_ref, ticket_first, pacing_10ms, pacing_20ms, allow_hidtrig, static_ticket, short_ticket,
  strong_pw1, strong_pw2, man_update, oath_hotp8, oath_fixed_modhex1, oath_fixed_modhex2,
  oath_fixed_modhex, chal_yubico, chal_hmac, hmac_lt64, chal_btn_trig, serial_btn_visible,
  serial_usb_visible, serial_api_visible, use_numeric_keypad, fast_trig, allow_update, dormant,
  led_inv,
}
use yubikey_personalization.Pers.Fields.{ykp_get_oath_imf}
use yubikey_personalization.Pers.Keys.{ykp_get_supported_key_length}
use yubikey_personalization.Pers.Modes.{
  legacy_mode, _ticket_flags_map, _config_flags_map, _extended_flags_map, ticket_flags_shown,
  config_flags_shown, extended_flags_shown,
}

-- The texts of the tables.
unfoldable pub tktflag_text : TktFlag → List ℕ
unfolding codes
tktflag_text tab_first = codes "TAB_FIRST"
tktflag_text append_tab1 = codes "APPEND_TAB1"
tktflag_text append_tab2 = codes "APPEND_TAB2"
tktflag_text append_delay1 = codes "APPEND_DELAY1"
tktflag_text append_delay2 = codes "APPEND_DELAY2"
tktflag_text append_cr = codes "APPEND_CR"
tktflag_text protect_cfg2 = codes "PROTECT_CFG2"
tktflag_text oath_hotp = codes "OATH_HOTP"
tktflag_text chal_resp = codes "CHAL_RESP"

unfoldable pub cfgflag_text : CfgFlag → List ℕ
unfolding codes
cfgflag_text send_ref = codes "SEND_REF"
cfgflag_text ticket_first = codes "TICKET_FIRST"
cfgflag_text pacing_10ms = codes "PACING_10MS"
cfgflag_text pacing_20ms = codes "PACING_20MS"
cfgflag_text allow_hidtrig = codes "ALLOW_HIDTRIG"
cfgflag_text static_ticket = codes "STATIC_TICKET"
cfgflag_text short_ticket = codes "SHORT_TICKET"
cfgflag_text strong_pw1 = codes "STRONG_PW1"
cfgflag_text strong_pw2 = codes "STRONG_PW2"
cfgflag_text man_update = codes "MAN_UPDATE"
cfgflag_text oath_hotp8 = codes "OATH_HOTP8"
cfgflag_text oath_fixed_modhex1 = codes "OATH_FIXED_MODHEX1"
cfgflag_text oath_fixed_modhex2 = codes "OATH_FIXED_MODHEX2"
cfgflag_text oath_fixed_modhex = codes "OATH_FIXED_MODHEX"
cfgflag_text chal_yubico = codes "CHAL_YUBICO"
cfgflag_text chal_hmac = codes "CHAL_HMAC"
cfgflag_text hmac_lt64 = codes "HMAC_LT64"
cfgflag_text chal_btn_trig = codes "CHAL_BTN_TRIG"

unfoldable pub extflag_text : ExtFlag → List ℕ
unfolding codes
extflag_text serial_btn_visible = codes "SERIAL_BTN_VISIBLE"
extflag_text serial_usb_visible = codes "SERIAL_USB_VISIBLE"
extflag_text serial_api_visible = codes "SERIAL_API_VISIBLE"
extflag_text use_numeric_keypad = codes "USE_NUMERIC_KEYPAD"
extflag_text fast_trig = codes "FAST_TRIG"
extflag_text allow_update = codes "ALLOW_UPDATE"
extflag_text dormant = codes "DORMANT"
extflag_text led_inv = codes "LED_INV"

-- The flags are appended to a buffer of 256 characters, which has room for all of a table.
unfoldable pub cat_flags : List ℕ → List (List ℕ) → List ℕ
cat_flags buffer [] = buffer
cat_flags [] (text ∷ p) = cat_flags text p
cat_flags (c ∷ buffer) (text ∷ p) = cat_flags ((c ∷ buffer) ++ (124 ∷ text)) p

-- `snprintf` of a text to `size` characters from `pos` on, which always ends it with a zero.
unfoldable pub snprintf_at : ℕ → ℕ → List ℕ → List ℕ → List ℕ
snprintf_at pos zero text buf = buf
snprintf_at pos (suc room) text buf =
    take pos buf ++ (take room text ++ (0 ∷ drop (pos + min room (length text) + 1) buf))

-- The lines in turn; `false` is a return value of -1.
unfoldable pub put_lines : ℕ → List (List ℕ) → ℕ → List ℕ → Bool × ℕ × List ℕ
put_lines len [] pos buf = (true, pos, buf)
put_lines len (line ∷ lines) pos buf = elim (ltb len (pos + length line)) [
  | true ↦ (false, pos, snprintf_at pos (len - pos) line buf)
  | false ↦ put_lines len lines (pos + length line) (snprintf_at pos (len - pos) line buf)
]

-- The digits of "%lx".
abbrev pub hex_digit : ℕ → ℕ
hex_digit d = if ltb d 10 then 48 + d else 87 + d

unfoldable pub hex_number : ℕ → ℕ → List ℕ
hex_number zero n = []
hex_number (suc fuel) n =
    let higher = hex_number fuel (n / 16) in
    if n / 16 == 0 then hex_digit n ∷ [] else higher ++ (hex_digit (n % 16) ∷ [])

-- The functions of libyubikey that are called, and what is relied on: two characters stand for
-- one byte.
pub record Encoders : Type 0 where
  pub hex_encode : List ℕ → List ℕ
  pub modhex_encode : List ℕ → List ℕ
  pub length-hex_encode : (s : List ℕ) → length (hex_encode s) ≡ 2 * length s
  pub length-modhex_encode : (s : List ℕ) → length (modhex_encode s) ≡ 2 * length s

module _ (lib : Encoders) (c : Config) where
  abbrev has_cfgflag : CfgFlag → Bool
  has_cfgflag flag = has_flag c.core.cfg_flags (cfgflag_mask flag)

  -- The token identifier, cut to 12 characters.
  unfoldable pub oath_id_text : List ℕ
  oath_id_text =
      let modhex1 = has_cfgflag oath_fixed_modhex1 in
      let modhex2 = has_cfgflag oath_fixed_modhex2 in
      let modhex = has_cfgflag oath_fixed_modhex in
      let encode : Bool → List ℕ → List ℕ = λ b. if b then lib.modhex_encode else lib.hex_encode in
      take 12 (
        encode (modhex1 || (modhex2 || modhex)) (take 1 c.core.fixed)
        ++ (encode (modhex2 || modhex) (take 1 (drop 1 c.core.fixed))
            ++ encode modhex (take 8 (drop 2 c.core.fixed))))

  -- `fixed_size` is at most 16.
  unfoldable pub fixed_line : List ℕ
  fixed_line =
      if has_flag c.core.tkt_flags (tktflag_mask oath_hotp) && not (c.core.fixed_size == 0)
      then codes "OATH id: " ++ (oath_id_text ++ (10 ∷ []))
      else codes "fixed: m:"
        ++ (lib.modhex_encode (take c.core.fixed_size c.core.fixed) ++ (10 ∷ []))

  unfoldable pub uid_line : List ℕ
  uid_line =
      codes "uid: "
      ++ ((if ykp_get_supported_key_length c == 20
            then codes "n/a"
            else lib.hex_encode (take 6 c.core.uid))
          ++ (10 ∷ []))

  unfoldable pub key_line : List ℕ
  key_line =
      codes "key: h:"
      ++ (lib.hex_encode (take 16 c.core.key)
          ++ ((if ykp_get_supported_key_length c == 20
                then lib.hex_encode (take 4 c.core.uid)
                else [])
              ++ (10 ∷ [])))

  unfoldable pub acc_code_line : List ℕ
  acc_code_line = codes "acc_code: h:" ++ (lib.hex_encode (take 6 c.core.acc_code) ++ (10 ∷ []))

  -- The line that is there only in OATH mode, as a list of at most one.
  unfoldable pub oath_imf_lines : List (List ℕ)
  oath_imf_lines =
      if has_flag c.core.tkt_flags (tktflag_mask oath_hotp) && capability_has_oath_imf c
      then (codes "OATH IMF: h:" ++ (hex_number 16 (ykp_get_oath_imf c) ++ (10 ∷ []))) ∷ []
      else []

  unfoldable pub flag_lines : List (List ℕ)
  flag_lines =
      let mode = legacy_mode c in
      (codes "ticket_flags: "
        ++ (cat_flags [] (map tktflag_text (ticket_flags_shown c mode _ticket_flags_map))
            ++ (10 ∷ [])))
      ∷ (codes "config_flags: "
          ++ (cat_flags []
                (map cfgflag_text (config_flags_shown c mode c.core.cfg_flags _config_flags_map).0)
              ++ (10 ∷ [])))
      ∷ (codes "extended_flags: "
          ++ (cat_flags [] (map extflag_text (extended_flags_shown c mode _extended_flags_map))
              ++ (10 ∷ [])))
      ∷ []

  unfoldable pub legacy_lines : List (List ℕ)
  legacy_lines =
      (fixed_line ∷ uid_line ∷ key_line ∷ acc_code_line ∷ []) ++ (oath_imf_lines ++ flag_lines)

  -- `len` is the size of the memory at `buf`.
  unfoldable pub _ykp_legacy_export_config : ℕ → List ℕ → Bool × ℕ × List ℕ
  _ykp_legacy_export_config len buf = put_lines len legacy_lines 0 buf

-- The text up to the first zero.
unfoldable pub until_zero : List ℕ → List ℕ
until_zero [] = []
until_zero (c ∷ s) = let rest = until_zero s in if c == 0 then [] else c ∷ rest

-- The return value, the text that the writer is called with, and `ykp_errno`. What `buffer` holds
-- at first is a parameter; a return value of -1 counts as a success.
unfoldable pub ykp_write_config : Encoders → List ℕ → Option Config → ℕ → ℕ × Option (List ℕ) × ℕ
ykp_write_config lib buffer none errno = (0, none, ykp_enocfg)
ykp_write_config lib buffer (some c) errno =
    let (ok, pos, text) = _ykp_legacy_export_config lib c 1024 buffer in
    if ok && pos == 0 then (0, none, errno) else (1, some (until_zero text), errno)

unfoldable pub ykp_read_config : Config → ℕ → ℕ × Config × ℕ
ykp_read_config c errno = (0, c, ykp_enotyetimpl)

-- Without json-c: the return value and `ykp_errno`.
unfoldable pub _ykp_json_import_cfg : List ℕ → Config → ℕ → ℕ × Config × ℕ
_ykp_json_import_cfg json c errno = (0, c, ykp_einval)

unfoldable pub ykp_import_config : ℕ → List ℕ → Config → ℕ → ℕ × Config × ℕ
ykp_import_config format buf c errno =
    if format == ykp_format_ycfg
    then _ykp_json_import_cfg buf c errno
    else if format == ykp_format_legacy
    then (0, c, ykp_enotyetimpl)
    else (0, c, ykp_einval)
