-- ===== src/Pers/Flags.antt =====
-- ykpers.c: the flag setters and getters that `def_set_tktflag`, `def_set_cfgflag` and
-- `def_set_extflag` define, over the masks of ykcore/ykdef.h.
pub mod Laws
use yubikey_personalization.Prelude.{
  ℕ, ◌-◌, ◌%◌, Bool, false, Option, none, some, bit_and, bit_or, ◌==◌, if◌then◌else◌, not,
}
use yubikey_personalization.Pers.Types.{Config, Call, refuse, unless_null, ykp_eyubikeyver}
use yubikey_personalization.Pers.Capability.{
  capability_has_chal_resp, capability_has_dormant, capability_has_fast, capability_has_hidtrig,
  capability_has_led_inv, capability_has_numeric, capability_has_oath, capability_has_serial,
  capability_has_serial_api, capability_has_slot_two, capability_has_static,
  capability_has_static_extras, capability_has_ticket_first, capability_has_ticket_mods,
  capability_has_update,
}

-- The ticket flags, each with its mask and the capability that guards its setter.
pub data TktFlag : Type 0 where
  tab_first append_tab1 append_tab2 append_delay1 append_delay2 append_cr protect_cfg2 oath_hotp
        chal_resp :
      TktFlag

unfoldable pub tktflag_mask : TktFlag → ℕ
tktflag_mask tab_first = 0x01
tktflag_mask append_tab1 = 0x02
tktflag_mask append_tab2 = 0x04
tktflag_mask append_delay1 = 0x08
tktflag_mask append_delay2 = 0x10
tktflag_mask append_cr = 0x20
tktflag_mask protect_cfg2 = 0x80
tktflag_mask oath_hotp = 0x40
tktflag_mask chal_resp = 0x40

unfoldable pub tktflag_capability : TktFlag → Config → Bool
tktflag_capability tab_first = capability_has_ticket_mods
tktflag_capability append_tab1 = capability_has_ticket_mods
tktflag_capability append_tab2 = capability_has_ticket_mods
tktflag_capability append_delay1 = capability_has_ticket_mods
tktflag_capability append_delay2 = capability_has_ticket_mods
tktflag_capability append_cr = capability_has_ticket_mods
tktflag_capability protect_cfg2 = capability_has_slot_two
tktflag_capability oath_hotp = capability_has_oath
tktflag_capability chal_resp = capability_has_chal_resp

-- The configuration flags. Some share bits, in the modes that they belong to.
pub data CfgFlag : Type 0 where
  send_ref ticket_first pacing_10ms pacing_20ms allow_hidtrig static_ticket short_ticket strong_pw1
        strong_pw2 man_update oath_hotp8 oath_fixed_modhex1 oath_fixed_modhex2 oath_fixed_modhex
        chal_yubico chal_hmac hmac_lt64 chal_btn_trig :
      CfgFlag

unfoldable pub cfgflag_mask : CfgFlag → ℕ
cfgflag_mask send_ref = 0x01
cfgflag_mask ticket_first = 0x02
cfgflag_mask pacing_10ms = 0x04
cfgflag_mask pacing_20ms = 0x08
cfgflag_mask allow_hidtrig = 0x10
cfgflag_mask static_ticket = 0x20
cfgflag_mask short_ticket = 0x02
cfgflag_mask strong_pw1 = 0x10
cfgflag_mask strong_pw2 = 0x40
cfgflag_mask man_update = 0x80
cfgflag_mask oath_hotp8 = 0x02
cfgflag_mask oath_fixed_modhex1 = 0x10
cfgflag_mask oath_fixed_modhex2 = 0x40
cfgflag_mask oath_fixed_modhex = 0x50
cfgflag_mask chal_yubico = 0x20
cfgflag_mask chal_hmac = 0x22
cfgflag_mask hmac_lt64 = 0x04
cfgflag_mask chal_btn_trig = 0x08

unfoldable pub cfgflag_capability : CfgFlag → Config → Bool
cfgflag_capability send_ref = capability_has_ticket_mods
cfgflag_capability ticket_first = capability_has_ticket_first
cfgflag_capability pacing_10ms = capability_has_ticket_mods
cfgflag_capability pacing_20ms = capability_has_ticket_mods
cfgflag_capability allow_hidtrig = capability_has_hidtrig
cfgflag_capability static_ticket = capability_has_static
cfgflag_capability short_ticket = capability_has_static_extras
cfgflag_capability strong_pw1 = capability_has_static_extras
cfgflag_capability strong_pw2 = capability_has_static_extras
cfgflag_capability man_update = capability_has_static_extras
cfgflag_capability oath_hotp8 = capability_has_oath
cfgflag_capability oath_fixed_modhex1 = capability_has_oath
cfgflag_capability oath_fixed_modhex2 = capability_has_oath
cfgflag_capability oath_fixed_modhex = capability_has_oath
cfgflag_capability chal_yubico = capability_has_chal_resp
cfgflag_capability chal_hmac = capability_has_chal_resp
cfgflag_capability hmac_lt64 = capability_has_chal_resp
cfgflag_capability chal_btn_trig = capability_has_chal_resp

-- The extended flags.
pub data ExtFlag : Type 0 where
  serial_btn_visible serial_usb_visible serial_api_visible use_numeric_keypad fast_trig allow_update
        dormant led_inv :
      ExtFlag

unfoldable pub extflag_mask : ExtFlag → ℕ
extflag_mask serial_btn_visible = 0x01
extflag_mask serial_usb_visible = 0x02
extflag_mask serial_api_visible = 0x04
extflag_mask use_numeric_keypad = 0x08
extflag_mask fast_trig = 0x10
extflag_mask allow_update = 0x20
extflag_mask dormant = 0x40
extflag_mask led_inv = 0x80

unfoldable pub extflag_capability : ExtFlag → Config → Bool
extflag_capability serial_btn_visible = capability_has_serial
extflag_capability serial_usb_visible = capability_has_serial
extflag_capability serial_api_visible = capability_has_serial_api
extflag_capability use_numeric_keypad = capability_has_numeric
extflag_capability fast_trig = capability_has_fast
extflag_capability allow_update = capability_has_update
extflag_capability dormant = capability_has_dormant
extflag_capability led_inv = capability_has_led_inv

-- `flags |= mask` or `flags &= ~mask` on an unsigned char; `~mask` is `255 - mask` there.
abbrev pub update_flags : Bool → ℕ → ℕ → ℕ
update_flags state mask flags =
    if state then bit_or flags mask % 256 else bit_and flags (255 - mask)

abbrev pub has_flag : ℕ → ℕ → Bool
has_flag flags mask = bit_and flags mask == mask

unfoldable pub write_tktflag : TktFlag → Bool → Call
unfolding tktflag_mask
write_tktflag flag state c errno =
    if not (tktflag_capability flag c)
    then refuse ykp_eyubikeyver c errno
    else (let k = c.core in
        (
          1,
          record c {
            core = record k { tkt_flags = update_flags state (tktflag_mask flag) k.tkt_flags };
          },
          errno,
        ))

unfoldable pub ykp_set_tktflag : TktFlag → Bool → Option Config → ℕ → ℕ × Option Config × ℕ
unfolding write_tktflag
ykp_set_tktflag flag state = unless_null (write_tktflag flag state)

unfoldable pub ykp_get_tktflag : TktFlag → Option Config → Bool
ykp_get_tktflag flag none = false
ykp_get_tktflag flag (some c) = has_flag c.core.tkt_flags (tktflag_mask flag)

unfoldable pub write_cfgflag : CfgFlag → Bool → Call
unfolding cfgflag_mask
write_cfgflag flag state c errno =
    if not (cfgflag_capability flag c)
    then refuse ykp_eyubikeyver c errno
    else (let k = c.core in
        (
          1,
          record c {
            core = record k { cfg_flags = update_flags state (cfgflag_mask flag) k.cfg_flags };
          },
          errno,
        ))

unfoldable pub ykp_set_cfgflag : CfgFlag → Bool → Option Config → ℕ → ℕ × Option Config × ℕ
unfolding write_cfgflag
ykp_set_cfgflag flag state = unless_null (write_cfgflag flag state)

unfoldable pub ykp_get_cfgflag : CfgFlag → Option Config → Bool
ykp_get_cfgflag flag none = false
ykp_get_cfgflag flag (some c) = has_flag c.core.cfg_flags (cfgflag_mask flag)

unfoldable pub write_extflag : ExtFlag → Bool → Call
unfolding extflag_mask
write_extflag flag state c errno =
    if not (extflag_capability flag c)
    then refuse ykp_eyubikeyver c errno
    else (let k = c.core in
        (
          1,
          record c {
            core = record k { ext_flags = update_flags state (extflag_mask flag) k.ext_flags };
          },
          errno,
        ))

unfoldable pub ykp_set_extflag : ExtFlag → Bool → Option Config → ℕ → ℕ × Option Config × ℕ
unfolding write_extflag
ykp_set_extflag flag state = unless_null (write_extflag flag state)

unfoldable pub ykp_get_extflag : ExtFlag → Option Config → Bool
ykp_get_extflag flag none = false
ykp_get_extflag flag (some c) = has_flag c.core.ext_flags (extflag_mask flag)
