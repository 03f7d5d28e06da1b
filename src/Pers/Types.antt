-- ===== src/Pers/Types.antt =====
-- The data that the personalization layer works on: `struct status_st` and `struct config_st` of
-- ykcore/ykdef.h, `struct ykp_config_t` of ykpers_lcl.h, the slot commands and the error codes.
use yubikey_personalization.Prelude.{ℕ, Option, none, some, List}

-- The status block. Each field is a byte, `touch_level` two.
pub record Status : Type 0 where
  pub version_major : ℕ
  pub version_minor : ℕ
  pub version_build : ℕ
  pub pgm_seq : ℕ
  pub touch_level : ℕ

pub record CoreConfig : Type 0 where
  pub fixed : List ℕ
  pub uid : List ℕ
  pub key : List ℕ
  pub acc_code : List ℕ
  pub fixed_size : ℕ
  pub ext_flags : ℕ
  pub tkt_flags : ℕ
  pub cfg_flags : ℕ
  pub rfu : List ℕ
  pub crc : ℕ

-- `core` is `ykcore_config`.
pub record Config : Type 0 where
  pub yk_major_version : ℕ
  pub yk_minor_version : ℕ
  pub yk_build_version : ℕ
  pub command : ℕ
  pub core : CoreConfig
  pub ykp_acccode_type : ℕ

abbrev pub slot_config : ℕ
slot_config = 1

abbrev pub slot_config2 : ℕ
slot_config2 = 3

abbrev pub slot_update1 : ℕ
slot_update1 = 4

abbrev pub slot_update2 : ℕ
slot_update2 = 5

abbrev pub slot_swap : ℕ
slot_swap = 6

abbrev pub slot_ndef : ℕ
slot_ndef = 8

abbrev pub slot_ndef2 : ℕ
slot_ndef2 = 9

abbrev pub slot_device_config : ℕ
slot_device_config = 0x11

abbrev pub slot_scan_map : ℕ
slot_scan_map = 0x12

abbrev pub slot_yk4_set_device_info : ℕ
slot_yk4_set_device_info = 0x15

abbrev pub fixed_capacity : ℕ
fixed_capacity = 16

abbrev pub uid_capacity : ℕ
uid_capacity = 6

abbrev pub key_capacity : ℕ
key_capacity = 16

abbrev pub acc_code_capacity : ℕ
acc_code_capacity = 6

abbrev pub ykp_enotyetimpl : ℕ
ykp_enotyetimpl = 1

abbrev pub ykp_enocfg : ℕ
ykp_enocfg = 2

abbrev pub ykp_eyubikeyver : ℕ
ykp_eyubikeyver = 3

abbrev pub ykp_eoldyubikey : ℕ
ykp_eoldyubikey = 4

abbrev pub ykp_einvconfnum : ℕ
ykp_einvconfnum = 5

abbrev pub ykp_einval : ℕ
ykp_einval = 6

abbrev pub ykp_enorandom : ℕ
ykp_enorandom = 7

abbrev pub ykp_format_legacy : ℕ
ykp_format_legacy = 1

abbrev pub ykp_format_ycfg : ℕ
ykp_format_ycfg = 2

-- A call on a configuration: from the structure and `ykp_errno` to the return value and both.
abbrev pub Call : Type 0
Call = Config → ℕ → ℕ × Config × ℕ

-- The error return that leaves the structure alone.
abbrev pub refuse : ℕ → Call
refuse e c errno = (0, c, e)

-- `if (cfg) { … } ykp_errno = YKP_ENOCFG; return 0;`, where `none` is the null pointer.
abbrev pub unless_null : Call → Option Config → ℕ → ℕ × Option Config × ℕ
unless_null f none errno = (0, none, ykp_enocfg)
unless_null f (some c) errno = let (r, c', e) = f c errno in (r, some c', e)
