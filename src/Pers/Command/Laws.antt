-- ===== src/Pers/Command/Laws.antt =====
-- Which commands a firmware takes, against a list of the commands and their versions.
use yubikey_personalization.Prelude.{ℕ, ◌≤◌, ◌≡◌, ◌↔◌, ◌⊎◌, arith, refl}
use yubikey_personalization.Pers.Types.{
  Status, Config, slot_config, slot_config2, slot_update1, slot_update2, slot_swap, slot_ndef,
  slot_ndef2, slot_device_config, slot_scan_map, slot_yk4_set_device_info, ykp_einvconfnum,
  ykp_eyubikeyver, ykp_eoldyubikey,
}
use yubikey_personalization.Pers.Capability.Laws.{AtLeast}
use yubikey_personalization.Pers.Command.{
  default_config1, default_config2, ykp_configure_command, ykp_configure_for, ykp_configure_version,
}

-- The beta of the YubiKey NEO: version 2.1 from build 4 on.
abbrev pub IsNeo : Config → Type 0
IsNeo c = (c.yk_major_version ≡ 2) × (c.yk_minor_version ≡ 1) × (4 ≤ c.yk_build_version)

-- The commands and the firmware that has them.
abbrev pub Supports : ℕ → Config → Type 0
Supports command c =
    (command ≡ slot_config)
    ⊎ ((command ≡ slot_config2) × (2 ≤ c.yk_major_version) × (¬ IsNeo c))
    ⊎ ((command ≡ slot_update1) × AtLeast 2 3 c)
    ⊎ ((command ≡ slot_update2) × AtLeast 2 3 c)
    ⊎ ((command ≡ slot_swap) × AtLeast 2 3 c)
    ⊎ ((command ≡ slot_device_config) × (3 ≤ c.yk_major_version) × (c.yk_major_version ≤ 5))
    ⊎ ((command ≡ slot_scan_map) × (3 ≤ c.yk_major_version))
    ⊎ ((command ≡ slot_yk4_set_device_info) × (5 ≤ c.yk_major_version))
    ⊎ ((command ≡ slot_ndef2) × ((c.yk_major_version ≡ 3) ⊎ (c.yk_major_version ≡ 5)))
    ⊎ ((command ≡ slot_ndef) × (IsNeo c ⊎ (c.yk_major_version ≡ 3) ⊎ (5 ≤ c.yk_major_version)))

pub configure_command-Supports :
    (command : ℕ) (c : Config) (errno : ℕ)
    → ((ykp_configure_command command c errno).0 ≡ 1) ↔ Supports command c
unfolding ykp_configure_command
configure_command-Supports command c errno = (ground arith, ground arith)

-- An accepted command is stored and nothing else changes; a refused one changes nothing but the
-- error code, which is one of three.
pub configure_command_effect :
    (command : ℕ) (c : Config) (errno : ℕ)
    → let r = ykp_configure_command command c errno in
      (r ≡ (1, record c { command = command }, errno))
      ⊎ ((r.0 ≡ 0)
          × (r.1 ≡ c)
          × ((r.2 ≡ ykp_eoldyubikey) ⊎ (r.2 ≡ ykp_eyubikeyver) ⊎ (r.2 ≡ ykp_einvconfnum)))
unfolding ykp_configure_command
configure_command_effect command c errno = ground arith

-- Aiming at slot 1 never fails, and at slot 2 it fails exactly when the key's firmware has no
-- second slot; the slot's default configuration and the key's version are in place either way.
pub configure_for_slot :
    (st : Status) (c : Config) (errno : ℕ)
    → let one = ykp_configure_for 1 st c errno in
      let two = ykp_configure_for 2 st c errno in
      (one.0 ≡ 1)
      × (one.1.core ≡ default_config1)
      × ((two.0 ≡ 1) ↔ Supports slot_config2 (ykp_configure_version c st))
      × (two.1.core ≡ default_config2)
      × (two.1.yk_major_version ≡ st.version_major)
unfolding ykp_configure_for ykp_configure_command
configure_for_slot st c errno =
    (refl, refl, (ground arith, ground arith), ground arith, ground arith)
