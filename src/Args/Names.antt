-- ===== src/Args/Names.antt =====
-- ykpers-args.c: the options that set and clear flags, by the macros TKTFLAG, CFGFLAG and EXTFLAG.
use yubikey_personalization.Prelude.{
  ℕ, Bool, true, false, Option, none, some, List, [], ◌∷◌, codes, str_eq, if◌then◌else◌,
}
use yubikey_personalization.Pers.Flags.{
  TktFlag, CfgFlag, ExtFlag, tab_first, append_tab1, append_tab2, append_delay1, append_delay2,
  append_cr, protect_cfg2, oath_hotp, chal_resp, send_ref, ticket_first, pacing_10ms, pacing_20ms,
  allow_hidtrig, static_ticket, short_ticket, strong_pw1, strong_pw2, man_update, oath_hotp8,
  oath_fixed_modhex1, oath_fixed_modhex2, oath_fixed_modhex, chal_yubico, chal_hmac, hmac_lt64,
  chal_btn_trig, serial_btn_visible, serial_usb_visible, serial_api_visible, use_numeric_keypad,
  fast_trig, allow_update, dormant, led_inv,
}

unfoldable pub tktflag_options : List (List ℕ × TktFlag)
unfolding codes
tktflag_options =
    (codes "tab-first", tab_first)
    ∷ (codes "append-tab1", append_tab1)
    ∷ (codes "append-tab2", append_tab2)
    ∷ (codes "append-delay1", append_delay1)
    ∷ (codes "append-delay2", append_delay2)
    ∷ (codes "append-cr", append_cr)
    ∷ (codes "protect-cfg2", protect_cfg2)
    ∷ (codes "oath-hotp", oath_hotp)
    ∷ (codes "chal-resp", chal_resp)
    ∷ []

unfoldable pub cfgflag_options : List (List ℕ × CfgFlag)
unfolding codes
cfgflag_options =
    (codes "send-ref", send_ref)
    ∷ (codes "ticket-first", ticket_first)
    ∷ (codes "pacing-10ms", pacing_10ms)
    ∷ (codes "pacing-20ms", pacing_20ms)
    ∷ (codes "allow-hidtrig", allow_hidtrig)
    ∷ (codes "static-ticket", static_ticket)
    ∷ (codes "short-ticket", short_ticket)
    ∷ (codes "strong-pw1", strong_pw1)
    ∷ (codes "strong-pw2", strong_pw2)
    ∷ (codes "man-update", man_update)
    ∷ (codes "oath-hotp8", oath_hotp8)
    ∷ (codes "oath-fixed-modhex1", oath_fixed_modhex1)
    ∷ (codes "oath-fixed-modhex2", oath_fixed_modhex2)
    ∷ (codes "oath-fixed-modhex", oath_fixed_modhex)
    ∷ (codes "chal-yubico", chal_yubico)
    ∷ (codes "chal-hmac", chal_hmac)
    ∷ (codes "hmac-lt64", hmac_lt64)
    ∷ (codes "chal-btn-trig", chal_btn_trig)
    ∷ []

unfoldable pub extflag_options : List (List ℕ × ExtFlag)
unfolding codes
extflag_options =
    (codes "serial-btn-visible", serial_btn_visible)
    ∷ (codes "serial-usb-visible", serial_usb_visible)
    ∷ (codes "serial-api-visible", serial_api_visible)
    ∷ (codes "use-numeric-keypad", use_numeric_keypad)
    ∷ (codes "fast-trig", fast_trig)
    ∷ (codes "allow-update", allow_update)
    ∷ (codes "dormant", dormant)
    ∷ (codes "led-inv", led_inv)
    ∷ []

-- The flag that a text names, and whether it is set, or cleared by a dash in front of the name.
unfoldable pub find_option : {Flag : Type 0} → List (List ℕ × Flag) → List ℕ → Option (Flag × Bool)
find_option [] optarg = none
find_option ((name, flag) ∷ options) optarg =
    let rest = find_option options optarg in
    if str_eq optarg name
    then some (flag, true)
    else if str_eq optarg (45 ∷ name)
    then some (flag, false)
    else rest
