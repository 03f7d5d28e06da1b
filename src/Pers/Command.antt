-- ===== src/Pers/Command.antt =====
-- ykpers.c: making, clearing and aiming a configuration (`ykp_create_config` to
-- `ykp_configure_for`), and the queries of the command that it is for.
pub mod Laws
use yubikey_personalization.Prelude.{
  ℕ, ◌+◌, Bool, true, false, not, ◌&&◌, ◌||◌, Option, none, some, ltb, leb, ◌==◌, if◌then◌else◌,
  replicate,
}
use yubikey_personalization.Pers.Types.{
  Status, CoreConfig, Config, Call, refuse, unless_null, slot_config, slot_config2, slot_update1,
  slot_update2, slot_swap, slot_ndef, slot_ndef2, slot_device_config, slot_scan_map,
  slot_yk4_set_device_info, ykp_enocfg, ykp_eyubikeyver, ykp_eoldyubikey, ykp_einvconfnum,
}

abbrev pub default_config1 : CoreConfig
default_config1 = record {
  fixed = replicate 16 0;
  uid = replicate 6 0;
  key = replicate 16 0;
  acc_code = replicate 6 0;
  fixed_size = 0;
  ext_flags = 0;
  tkt_flags = 0x20;
  cfg_flags = 0;
  rfu = replicate 2 0;
  crc = 0;
}

-- CFGFLAG_STATIC_TICKET | CFGFLAG_STRONG_PW1 | CFGFLAG_STRONG_PW2 | CFGFLAG_MAN_UPDATE
abbrev pub default_config2 : CoreConfig
default_config2 = record default_config1 { cfg_flags = 0x20 + 0x10 + 0x40 + 0x80 }

-- The memory of `malloc` is a parameter: `none` where it fails. `ykp_acccode_type` keeps what the
-- fresh memory holds.
unfoldable pub ykp_create_config : Option Config → Option Config
ykp_create_config none = none
ykp_create_config (some m) = some (record {
  yk_major_version = 1;
  yk_minor_version = 3;
  yk_build_version = 0;
  command = slot_config;
  core = default_config1;
  ykp_acccode_type = m.ykp_acccode_type;
})

-- `memset` to zero of the whole structure.
unfoldable pub ykp_alloc : Option Config → Option Config
ykp_alloc none = none
ykp_alloc (some m) = some (record {
  yk_major_version = 0;
  yk_minor_version = 0;
  yk_build_version = 0;
  command = 0;
  core = record default_config1 { tkt_flags = 0 };
  ykp_acccode_type = 0;
})

-- The null pointer is refused with no error code.
unfoldable pub ykp_clear_config : Option Config → ℕ × Option Config
ykp_clear_config none = (0, none)
ykp_clear_config (some c) =
    let k = c.core in
    (1, some (record c { core = record k { tkt_flags = 0; cfg_flags = 0; ext_flags = 0 } }))

unfoldable pub ykp_configure_version : Config → Status → Config
ykp_configure_version c st = record c {
  yk_major_version = st.version_major;
  yk_minor_version = st.version_minor;
  yk_build_version = st.version_build;
}

abbrev accept : ℕ → Call
accept command c errno = (1, record c { command = command }, errno)

-- The `case SLOT_SCAN_MAP`, into which `case SLOT_DEVICE_CONFIG` falls through.
abbrev scan_map_case : ℕ → Call
scan_map_case command c errno =
    if not (leb 3 c.yk_major_version)
    then refuse ykp_eyubikeyver c errno
    else accept command c errno

unfoldable pub ykp_configure_command : ℕ → Call
ykp_configure_command command c errno =
    if command == slot_config
    then accept command c errno
    else if command == slot_config2
    then (if not (leb 2 c.yk_major_version)
        then refuse ykp_eoldyubikey c errno
        else if c.yk_major_version == 2 && (c.yk_minor_version == 1 && leb 4 c.yk_build_version)
        then refuse ykp_eyubikeyver c errno
        else accept command c errno)
    else if command == slot_update1 || (command == slot_update2 || command == slot_swap)
    then (if not ((c.yk_major_version == 2 && leb 3 c.yk_minor_version) || ltb 2 c.yk_major_version)
        then refuse ykp_eoldyubikey c errno
        else accept command c errno)
    else if command == slot_device_config
    then (if not (leb c.yk_major_version 5)
        then refuse ykp_eyubikeyver c errno
        else scan_map_case command c errno)
    else if command == slot_scan_map
    then scan_map_case command c errno
    else if command == slot_yk4_set_device_info
    then (if not (leb 5 c.yk_major_version)
        then refuse ykp_eyubikeyver c errno
        else accept command c errno)
    else if command == slot_ndef2
    then (if not (c.yk_major_version == 3) && not (c.yk_major_version == 5)
        then refuse ykp_eyubikeyver c errno
        else accept command c errno)
    else if command == slot_ndef
    then (if not (
          (c.yk_major_version == 2 && (c.yk_minor_version == 1 && leb 4 c.yk_build_version))
          || (c.yk_major_version == 3 || leb 5 c.yk_major_version))
        then refuse ykp_eyubikeyver c errno
        else accept command c errno)
    else refuse ykp_einvconfnum c errno

unfoldable pub ykp_configure_for : ℕ → Status → Call
unfolding ykp_configure_version
ykp_configure_for confnum st c errno =
    let v = ykp_configure_version c st in
    if confnum == 1
    then ykp_configure_command slot_config (record v { core = default_config1 }) errno
    else if confnum == 2
    then ykp_configure_command slot_config2 (record v { core = default_config2 }) errno
    else refuse ykp_einvconfnum v errno

-- The return value and `ykp_errno`.
unfoldable pub ykp_command : Option Config → ℕ → ℕ × ℕ
ykp_command none errno = (0, ykp_enocfg)
ykp_command (some c) errno = (c.command, errno)

unfoldable pub ykp_config_num : Option Config → ℕ → ℕ × ℕ
ykp_config_num none errno = (0, ykp_enocfg)
ykp_config_num (some c) errno =
    if c.command == slot_config
    then (1, errno)
    else if c.command == slot_config2
    then (2, errno)
    else (0, ykp_enocfg)

unfoldable pub ykp_set_acccode_type : Config → ℕ → Config
ykp_set_acccode_type c type = record c { ykp_acccode_type = type }

unfoldable pub ykp_get_acccode_type : Config → ℕ
ykp_get_acccode_type c = c.ykp_acccode_type
