-- ===== src/Pers/Json.antt =====
-- ykpers-json.c: the export of a configuration as JSON, over the functions of json-c that it calls.
pub mod Import
pub mod Objects
pub mod Kept
pub mod Found
pub mod Copied
pub mod Options
pub mod Laws
use yubikey_personalization.Prelude.{
  ◌≡◌, ℕ, ◌+◌, ◌-◌, ◌*◌, ◌^◌, Bool, true, false, not, ◌&&◌, ◌||◌, Option, none, some, List, [], ◌∷◌,
  ◌++◌, codes, str_eq, bit_and, ◌==◌, if◌then◌else◌, length, take, drop, replicate, get_or,
}
use yubikey_personalization.Pers.Types.{Config, slot_config, slot_config2}
use yubikey_personalization.Pers.Command.{ykp_get_acccode_type}
use yubikey_personalization.Pers.Flags.{
  TktFlag, CfgFlag, ExtFlag, has_flag, tktflag_mask, cfgflag_mask, extflag_mask, tab_first,
  append_tab1, append_tab2, append_delay1, append_delay2, append_cr, protect_cfg2, oath_hotp,
  chal_resp, send_ref, ticket_first, pacing_10ms, pacing_20ms, allow_hidtrig, static_ticket,
  short_ticket, strong_pw1, strong_pw2, man_update, oath_hotp8, oath_fixed_modhex1,
  oath_fixed_modhex2, oath_fixed_modhex, chal_yubico, chal_hmac, hmac_lt64, chal_btn_trig,
  serial_btn_visible, serial_usb_visible, serial_api_visible, use_numeric_keypad, fast_trig,
  allow_update, dormant, led_inv,
}
use yubikey_personalization.Pers.Modes.{
  legacy_mode, mode_chal_hmac, mode_oath_hotp, mode_otp_yubico, mode_chal_yubico,
  mode_static_ticket, _ticket_flags_map, _config_flags_map, _extended_flags_map,
}
use yubikey_personalization.Pers.Export.{Encoders, until_zero}

-- The functions of json-c on its objects. `object_get` is `none` where the key is missing or the
-- object is none with keys; `get_int` is the number as an unsigned long, so that one below zero is
-- large; `tokener_parse` reads a text.
pub record JsonC (Json : Type 0) : Type 0 where
  pub new_object : Json
  pub new_string : List ℕ → Json
  pub new_int : ℕ → Json
  pub new_boolean : Bool → Json
  pub object_add : Json → List ℕ → Json → Json
  pub object_get : Json → List ℕ → Option Json
  pub is_boolean : Json → Bool
  pub get_boolean : Json → Bool
  pub get_int : Json → ℕ
  pub get_string : Json → List ℕ
  pub to_json_string : Json → List ℕ
  pub tokener_parse : List ℕ → Option Json

-- What is relied on: a key that is added is found with its value, a value is what it was made of,
-- and a text, in which there is no zero, is read back as the object that it was written for.
pub record IsLawful {Json : Type 0} (lib : JsonC Json) : Type 0 where
  pub get-new : (k : List ℕ) → lib.object_get lib.new_object k ≡ none
  pub get-add :
      (o : Json) (k : List ℕ) (v : Json) (j : List ℕ)
      → lib.object_get (lib.object_add o k v) j
        ≡ (if str_eq j k then some v else lib.object_get o j)
  pub is_boolean-new : (b : Bool) → lib.is_boolean (lib.new_boolean b) ≡ true
  pub get_boolean-new : (b : Bool) → lib.get_boolean (lib.new_boolean b) ≡ b
  pub get_int-new : (n : ℕ) → lib.get_int (lib.new_int n) ≡ n
  pub get_string-new : (s : List ℕ) → lib.get_string (lib.new_string s) ≡ s
  pub parse-to_string : (o : Json) → lib.tokener_parse (lib.to_json_string o) ≡ some o
  pub until_zero-to_string : (o : Json) → until_zero (lib.to_json_string o) ≡ lib.to_json_string o

-- The JSON texts of the tables, `none` for a null pointer.
unfoldable pub tktflag_json : TktFlag → Option (List ℕ)
unfolding codes
tktflag_json tab_first = some (codes "tabFirst")
tktflag_json append_tab1 = some (codes "tabBetween")
tktflag_json append_tab2 = some (codes "tabLast")
tktflag_json append_delay1 = some (codes "appendDelay1")
tktflag_json append_delay2 = some (codes "appendDelay2")
tktflag_json append_cr = some (codes "appendCR")
tktflag_json protect_cfg2 = some (codes "protectSecond")
tktflag_json oath_hotp = none
tktflag_json chal_resp = none

unfoldable pub cfgflag_json : CfgFlag → Option (List ℕ)
unfolding codes
cfgflag_json chal_yubico = none
cfgflag_json chal_hmac = none
cfgflag_json hmac_lt64 = some (codes "hmacLt64")
cfgflag_json chal_btn_trig = some (codes "buttonReqd")
cfgflag_json oath_hotp8 = none
cfgflag_json oath_fixed_modhex1 = none
cfgflag_json oath_fixed_modhex2 = none
cfgflag_json oath_fixed_modhex = none
cfgflag_json send_ref = some (codes "sendRef")
cfgflag_json ticket_first = none
cfgflag_json pacing_10ms = some (codes "pacing10ms")
cfgflag_json pacing_20ms = some (codes "pacing20ms")
cfgflag_json allow_hidtrig = none
cfgflag_json static_ticket = some (codes "staticTicket")
cfgflag_json short_ticket = some (codes "shortTicket")
cfgflag_json strong_pw1 = some (codes "strongPw1")
cfgflag_json strong_pw2 = some (codes "strongPw2")
cfgflag_json man_update = some (codes "manUpdate")

unfoldable pub extflag_json : ExtFlag → Option (List ℕ)
unfolding codes
extflag_json serial_btn_visible = some (codes "serialBtnVisible")
extflag_json serial_usb_visible = some (codes "serialUsbVisible")
extflag_json serial_api_visible = some (codes "serialApiVisible")
extflag_json use_numeric_keypad = some (codes "useNumericKeypad")
extflag_json fast_trig = some (codes "fastTrig")
extflag_json allow_update = some (codes "allowUpdate")
extflag_json dormant = some (codes "dormant")
extflag_json led_inv = some (codes "ledInverted")

unfoldable pub _modes_map : List (ℕ × List ℕ)
unfolding codes
_modes_map =
    (mode_oath_hotp, codes "oathHOTP")
    ∷ (mode_chal_hmac, codes "hmacCR")
    ∷ (mode_static_ticket, codes "staticTicket")
    ∷ (mode_chal_yubico, codes "yubicoCR")
    ∷ (mode_otp_yubico, codes "yubicoOTP")
    ∷ []

-- `p->mode && (mode & p->mode) == mode`.
abbrev pub in_mode : ℕ → ℕ → Bool
in_mode mode modes = not (modes == 0) && bit_and mode modes == mode

-- `strncpy` of a text to `len` characters, the last of which becomes a zero, and `strlen` of it.
-- With `len` zero, `strlen` reads memory that was not given.
unfoldable pub put_text : List ℕ → ℕ → Option (ℕ × List ℕ)
put_text text len =
    let buf = take (len - 1) (text ++ replicate len 0) ++ (0 ∷ []) in
    if len == 0 then none else some (length (until_zero buf), buf)

module _ {Json : Type 0} (lib : JsonC Json) where
  -- The loop over a table of flags with their modes: `has` says whether a flag is set.
  unfoldable pub add_flags :
      {Flag : Type 0} → (Flag → Option (List ℕ)) → (Flag → Bool) → ℕ → List (Flag × ℕ) → Json → Json
  add_flags text has mode [] options = options
  add_flags text has mode ((flag, modes) ∷ p) options = elim (text flag) [
    | none ↦ add_flags text has mode p options
    | some t ↦ elim (in_mode mode modes) [
      | false ↦ add_flags text has mode p options
      | true ↦ add_flags text has mode p (lib.object_add options t (lib.new_boolean (has flag)))
    ]
  ]

  -- The first mode of the table that is `mode`.
  unfoldable pub add_mode : ℕ → List (ℕ × List ℕ) → Json → Json
  unfolding codes
  add_mode mode [] o = o
  add_mode mode ((flag, text) ∷ p) o =
      let rest = add_mode mode p o in
      if flag == mode then lib.object_add o (codes "mode") (lib.new_string text) else rest

  module _ (encoders : Encoders) (c : Config) where
    -- `fixedModhex`, which is there only beside a prefix.
    unfoldable pub add_fixed_modhex : Json → Json
    unfolding codes
    add_fixed_modhex options =
        if not (c.core.fixed_size == 0) && legacy_mode c == mode_oath_hotp
        then lib.object_add options (codes "fixedModhex")
            (lib.new_boolean (bit_and c.core.cfg_flags 0x50 == 0x50))
        else options

    unfoldable pub add_oath : Json → Json
    unfolding codes
    add_oath options =
        if legacy_mode c == mode_oath_hotp
        then (let digits = if has_flag c.core.cfg_flags 0x02 then 8 else 6 in
            let o = lib.object_add options (codes "oathDigits") (lib.new_int digits) in
            let low = get_or c.core.uid 5 0 in
            if (low == 1 || low == 0) && get_or c.core.uid 4 0 == 0
            then lib.object_add
                (lib.object_add o (codes "fixedSeedvalue") (lib.new_int (low * 2 ^ 4)))
                (codes "randomSeed") (lib.new_boolean false)
            else lib.object_add o (codes "randomSeed") (lib.new_boolean true))
        else options

    unfoldable pub export_options : Json
    unfolding add_fixed_modhex add_oath
    export_options =
        let mode = legacy_mode c in
        add_flags extflag_json (λ f. has_flag c.core.ext_flags (extflag_mask f)) mode
          _extended_flags_map
          (add_flags cfgflag_json (λ f. has_flag c.core.cfg_flags (cfgflag_mask f)) mode
            _config_flags_map
            (add_flags tktflag_json (λ f. has_flag c.core.tkt_flags (tktflag_mask f)) mode
              _ticket_flags_map (add_oath (add_fixed_modhex lib.new_object))))

    -- Two bytes of the fixed part in four characters.
    unfoldable pub prefix : List ℕ
    prefix =
        let modhex = encoders.modhex_encode (take 2 c.core.fixed) in
        let flag = bit_and c.core.cfg_flags 0x50 in
        if not (legacy_mode c == mode_oath_hotp)
        then modhex
        else if flag == 0
        then encoders.hex_encode (take 2 c.core.fixed)
        else if flag == 0x10
        then take 2 modhex ++ encoders.hex_encode (take 1 (drop 1 c.core.fixed))
        else modhex

    unfoldable pub add_scope : Json → Json
    unfolding codes
    add_scope o =
        let mode = legacy_mode c in
        if not (c.core.fixed_size == 0) && not (mode == mode_static_ticket)
        then lib.object_add
            (lib.object_add o (codes "scope") (
              lib.new_string (
                if mode == mode_otp_yubico
                  && (get_or c.core.fixed 0 0 == 0 && get_or c.core.fixed 1 0 == 0)
                then codes "yubiCloud"
                else codes "privatePrefix")))
            (codes "prefix") (lib.new_string prefix)
        else if not (mode == mode_static_ticket)
        then lib.object_add o (codes "scope") (lib.new_string (codes "noPublicId"))
        else o

    unfoldable pub add_target : Json → Json
    unfolding codes
    add_target o =
        if c.command == slot_config
        then lib.object_add o (codes "targetConfig") (lib.new_int 1)
        else if c.command == slot_config2
        then lib.object_add o (codes "targetConfig") (lib.new_int 2)
        else o

    unfoldable pub add_protection : Json → Json
    unfolding codes
    add_protection o =
        let protection = ykp_get_acccode_type c in
        if protection == 1
        then lib.object_add o (codes "protection") (lib.new_string (codes "none"))
        else if protection == 2
        then lib.object_add o (codes "protection") (lib.new_string (codes "random"))
        else if protection == 3
        then lib.object_add o (codes "protection") (lib.new_string (codes "id"))
        else o

    -- An object is added when it is complete, in the place where the code adds it and fills it later.
    unfoldable pub export_object : Json
    unfolding codes
    export_object = lib.object_add lib.new_object (codes "yubiProdConfig") (
        add_scope (
          lib.object_add
            (add_protection (add_target (add_mode (legacy_mode c) _modes_map lib.new_object)))
            (codes "options") export_options))

  unfoldable pub _ykp_json_export_cfg : Encoders → Option Config → ℕ → Option (ℕ × List ℕ)
  _ykp_json_export_cfg encoders none len = put_text (lib.to_json_string lib.new_object) len
  _ykp_json_export_cfg encoders (some c) len =
      put_text (lib.to_json_string (export_object encoders c)) len
