-- ===== src/Core/Program.antt =====
-- ykcore/ykcore.c: the operations that the tools call: writing with verification (`_yk_write` to
-- `yk_write_scan_map`), reading with a checksum (`yk_get_serial`, `yk_get_capabilities`,
-- `yk_challenge_response`) and opening a key.
pub mod Laws
pub mod Open
use yubikey_personalization.Prelude.{
  ℕ, ◌+◌, ◌-◌, ◌*◌, ◌%◌, ◌^◌, Bool, true, false, not, ◌&&◌, Option, none, some, List, [], ◌∷◌, ◌++◌,
  bit_and, ltb, ◌==◌, if◌then◌else◌, take, get_or, replicate,
}
use yubikey_personalization.Core.Io.{
  Usb, Io, done, failed, fault, stuck, ◌>>=◌, ◌>>◌, pure, fail, give_up, set_errno, ignore,
  out_of_bounds, yk_ewrongsiz, yk_ewriteerr, yk_einvalidcmd, slot_write_flag, yk_flag_mayblock,
}
use yubikey_personalization.Core.Wait.{yk_wait_for_key_status}
use yubikey_personalization.Core.Frame.{
  yk_endian_swap_16, store_16, yk_write_to_key, wait_for_write_flag,
}
use yubikey_personalization.Core.Response.{u32, yk_get_status, yk_read_response_from_key}
use yubikey_personalization.Pers.Types.{
  Status, CoreConfig, slot_config, slot_config2, slot_ndef, slot_ndef2, slot_device_config,
  slot_scan_map, slot_yk4_set_device_info,
}

-- `struct ndef_st`, where `payload_len` is `len` and `payload_type` is `type`.
pub record Ndef : Type 0 where
  pub payload_len : ℕ
  pub payload_type : ℕ
  pub payload_data : List ℕ
  pub cur_acc_code : List ℕ

-- `struct device_config_st`.
pub record DeviceConfig : Type 0 where
  pub mode : ℕ
  pub cr_timeout : ℕ
  pub auto_eject_time : ℕ

-- CONFIG1_VALID | CONFIG2_VALID
abbrev pub config_valid : ℕ
config_valid = 3

-- Whether a write took effect, from the sequence number before it and the status after it.
unfoldable pub is_written : ℕ → Status → Bool
is_written seq st =
    if bit_and st.touch_level config_valid == 0 && st.pgm_seq == 0
    then true
    else not (st.pgm_seq == seq)

-- The bytes of the structures in memory.
abbrev pub ndef_bytes : Ndef → List ℕ
ndef_bytes n = (n.payload_len ∷ n.payload_type ∷ []) ++ (n.payload_data ++ n.cur_acc_code)

abbrev pub config_body : CoreConfig → List ℕ
config_body k =
    k.fixed
    ++ (k.uid
        ++ (k.key
            ++ (k.acc_code
                ++ ((k.fixed_size ∷ k.ext_flags ∷ k.tkt_flags ∷ k.cfg_flags ∷ []) ++ k.rfu))))

-- `yk_cmd` of the two challenge-response modes, and how long the response is.
unfoldable pub expected_response : ℕ → Option ℕ
expected_response yk_cmd =
    if yk_cmd == 0x30
    then some 20
    else if yk_cmd == 0x38
    then some 20
    else if yk_cmd == 0x20
    then some 16
    else if yk_cmd == 0x28
    then some 16
    else none

module _ (crc16 : List ℕ → ℕ) (big_endian : Bool) where
  -- `cfg->crc` as the host keeps it, from the checksum of the bytes before it.
  unfoldable pub with_crc : CoreConfig → CoreConfig
  with_crc k = record k {
    crc = yk_endian_swap_16 big_endian (0xffff - crc16 (config_body k) % 2 ^ 16);
  }

  -- The buffer of `yk_write_command`: 52 bytes of configuration, six of access code.
  unfoldable pub command_buffer : Option CoreConfig → Option (List ℕ) → List ℕ
  unfolding with_crc
  command_buffer cfg acc_code =
      elim cfg [
        | none ↦ replicate 52 0
        | some k ↦ config_body k ++ store_16 big_endian (with_crc k).crc
      ]
      ++ elim acc_code [ none ↦ replicate 6 0 | some code ↦ take 6 code ]

module _ {Dev : Type 0} (usb : Usb Dev) (crc16 : List ℕ → ℕ) (big_endian : Bool) where
  -- The end of `_yk_write`: the error is set before the test, and stays when the test succeeds.
  unfoldable pub verify_update : ℕ → Io Dev (Unit {0})
  unfolding yk_get_status is_written
  verify_update seq = do
    st ← yk_get_status usb big_endian
    set_errno yk_ewriteerr
    elim (is_written seq st) [ true ↦ pure tt | false ↦ give_up ]

  -- A write is over when the key clears the flag and counts it.
  unfoldable pub _yk_write : ℕ → List ℕ → Io Dev (Unit {0})
  unfolding verify_update yk_write_to_key
  _yk_write yk_cmd buf = do
    st ← yk_get_status usb big_endian
    yk_write_to_key usb crc16 big_endian yk_cmd buf
    yk_wait_for_key_status usb 0 false slot_write_flag wait_for_write_flag
    verify_update st.pgm_seq

  unfoldable pub yk_write_device_info : List ℕ → Io Dev (Unit {0})
  yk_write_device_info buf = _yk_write slot_yk4_set_device_info buf

  -- The caller's configuration is updated in place: it is `with_crc` of what it was, whether or not
  -- the write succeeds.
  unfoldable pub yk_write_command : Option CoreConfig → ℕ → Option (List ℕ) → Io Dev (Unit {0})
  unfolding command_buffer
  yk_write_command cfg command acc_code =
      _yk_write command (command_buffer crc16 big_endian cfg acc_code)

  unfoldable pub yk_write_config : Option CoreConfig → ℕ → Option (List ℕ) → Io Dev (Unit {0})
  yk_write_config cfg confnum acc_code =
      if confnum == 1
      then yk_write_command cfg slot_config acc_code
      else if confnum == 2
      then yk_write_command cfg slot_config2 acc_code
      else fail yk_einvalidcmd

  unfoldable pub yk_write_ndef2 : Ndef → ℕ → Io Dev (Unit {0})
  yk_write_ndef2 ndef confnum =
      if confnum == 1
      then _yk_write slot_ndef (ndef_bytes ndef)
      else if confnum == 2
      then _yk_write slot_ndef2 (ndef_bytes ndef)
      else fail yk_einvalidcmd

  unfoldable pub yk_write_ndef : Ndef → Io Dev (Unit {0})
  yk_write_ndef ndef = yk_write_ndef2 ndef 1

  unfoldable pub yk_write_device_config : DeviceConfig → Io Dev (Unit {0})
  yk_write_device_config c =
      _yk_write slot_device_config
        ((c.mode ∷ c.cr_timeout ∷ []) ++ store_16 big_endian c.auto_eject_time)

  -- `strlen(SCAN_MAP)` is 45.
  unfoldable pub yk_write_scan_map : List ℕ → Io Dev (Unit {0})
  yk_write_scan_map scan_map = _yk_write slot_scan_map (take 45 scan_map)

  unfoldable pub yk_get_serial : ℕ → Io Dev ℕ
  unfolding yk_write_to_key yk_read_response_from_key
  yk_get_serial flags = do
    yk_write_to_key usb crc16 big_endian 0x10 []
    r ← yk_read_response_from_key usb crc16 16 flags 4
    pure (
        u32 (
          get_or r.0 0 0 * 2 ^ 24
          + get_or r.0 1 0 * 2 ^ 16
          + get_or r.0 2 0 * 2 ^ 8
          + get_or r.0 3 0))

  -- `bufsize` is what `*len` holds at first. The result is the buffer with the new `*len`.
  unfoldable pub yk_get_capabilities : ℕ → ℕ → Io Dev (List ℕ × ℕ)
  unfolding yk_write_to_key yk_read_response_from_key
  yk_get_capabilities flags bufsize = do
    yk_write_to_key usb crc16 big_endian 0x13 []
    r ← yk_read_response_from_key usb crc16 bufsize flags 0
    elim (ltb bufsize (get_or r.0 0 0 + 1)) [
      | true ↦ fail yk_ewrongsiz
      | false ↦ pure (r.0, get_or r.0 0 0 + 1)
    ]

  unfoldable pub yk_challenge_response : ℕ → Bool → List ℕ → ℕ → Io Dev (List ℕ)
  unfolding yk_write_to_key yk_read_response_from_key
  yk_challenge_response yk_cmd may_block challenge response_len = elim (expected_response yk_cmd) [
    | none ↦ fail yk_einvalidcmd
    | some expect_bytes ↦ (do
      yk_write_to_key usb crc16 big_endian yk_cmd challenge
      r ←
          yk_read_response_from_key usb crc16 response_len
            (if may_block then yk_flag_mayblock else 0) expect_bytes
      pure r.0)
  ]

-- Opening and closing of devices by a backend: the vendor, the products, the index among them.
pub record Bus (Dev : Type 0) : Type 0 where
  pub open_device : ℕ → List ℕ → ℕ → Io Dev (Unit {0})
  pub close_device : Io Dev (Unit {0})

abbrev pub product_ids : List ℕ
product_ids =
    0x0010 ∷ 0x0110 ∷ 0x0111 ∷ 0x0114 ∷ 0x0116 ∷ 0x0401 ∷ 0x0403 ∷ 0x0405 ∷ 0x0407 ∷ 0x0410 ∷ 0x60fc
    ∷ []

module _ {Dev : Type 0} (usb : Usb Dev) (bus : Bus Dev) (big_endian : Bool) where
  -- A key is kept open only if its status can be read.
  unfoldable pub check_open : Io Dev (Unit {0})
  check_open w = elim (yk_get_status usb big_endian w) [
    | done st w' ↦ done tt (record w' { errno = w.errno })
    | failed w' ↦ (do ignore bus.close_device; set_errno w'.errno; give_up) w'
    | fault ↦ fault
    | stuck ↦ stuck
  ]

  unfoldable pub yk_open_key : ℕ → Io Dev (Unit {0})
  unfolding check_open
  yk_open_key index w = elim (bus.open_device 0x1050 product_ids index w) [
    | done u w' ↦ check_open w'
    | failed w' ↦ (do set_errno 0; bus.open_device 0x1d50 product_ids index; check_open) w'
    | fault ↦ fault
    | stuck ↦ stuck
  ]

  unfoldable pub yk_open_first_key : Io Dev (Unit {0})
  yk_open_first_key = yk_open_key 0
