-- ===== src/Info.antt =====
-- ykinfo.c: the options, and the lines that are printed about a key.
pub mod Serial
pub mod Laws
use yubikey_personalization.Prelude.{
  ℕ, zero, suc, ◌+◌, ◌*◌, ◌/◌, ◌%◌, Bool, true, false, not, ◌||◌, Option, none, some, List, [], ◌∷◌,
  ◌++◌, bit_and, ltb, ◌==◌, if◌then◌else◌, length, take,
}
use yubikey_personalization.Core.Io.{Usb, Io, ◌>>=◌, pure, out_of_bounds}
use yubikey_personalization.Core.Response.{yk_get_status}
use yubikey_personalization.Core.Program.{yk_get_serial, yk_get_capabilities}
use yubikey_personalization.Pers.Types.{Status}
use yubikey_personalization.Pers.Keys.{Libyubikey}
use yubikey_personalization.Pers.Export.{Encoders, hex_number}
use yubikey_personalization.Args.State.{Arg}

-- What is asked for, with `quiet` and the index of the key.
pub record Wanted : Type 0 where
  pub serial_dec : Bool
  pub serial_modhex : Bool
  pub serial_hex : Bool
  pub version : Bool
  pub touch_level : Bool
  pub pgm_seq : Bool
  pub quiet : Bool
  pub slot1 : Bool
  pub slot2 : Bool
  pub vid : Bool
  pub pid : Bool
  pub capa : Bool
  pub key_index : ℕ

abbrev pub nothing_wanted : Wanted
nothing_wanted = record {
  serial_dec = false;
  serial_modhex = false;
  serial_hex = false;
  version = false;
  touch_level = false;
  pgm_seq = false;
  quiet = false;
  slot1 = false;
  slot2 = false;
  vid = false;
  pid = false;
  capa = false;
  key_index = 0;
}

module _ (atoi : List ℕ → ℕ) where
  -- `none` where the tool ends with status zero: `-V`, `-h` and what is not known.
  unfoldable pub want : Arg → Wanted → Option Wanted
  want a o =
      let c = a.letter in
      if c == 97
      then some (record o {
        serial_dec = true;
        serial_modhex = true;
        serial_hex = true;
        version = true;
        touch_level = true;
        pgm_seq = true;
        slot1 = true;
        slot2 = true;
        vid = true;
        pid = true;
      })
      else if c == 115
      then some (record o { serial_dec = true })
      else if c == 109
      then some (record o { serial_modhex = true })
      else if c == 110
      then some (record o { key_index = atoi a.optarg })
      else if c == 72
      then some (record o { serial_hex = true })
      else if c == 118
      then some (record o { version = true })
      else if c == 116
      then some (record o { touch_level = true })
      else if c == 112
      then some (record o { pgm_seq = true })
      else if c == 113
      then some (record o { quiet = true })
      else if c == 49
      then some (record o { slot1 = true })
      else if c == 50
      then some (record o { slot2 = true })
      else if c == 105
      then some (record o { vid = true })
      else if c == 73
      then some (record o { pid = true })
      else if c == 99
      then some (record o { capa = true })
      else none

  unfoldable pub want_all : List Arg → Wanted → Option Wanted
  want_all [] o =
      if o.serial_dec
        || (o.serial_modhex
            || (o.serial_hex
                || (o.version
                    || (o.touch_level
                        || (o.pgm_seq || (o.slot1 || (o.slot2 || (o.vid || (o.pid || o.capa)))))))))
      then some o
      else none
  want_all (a ∷ args) o = elim (want a o) [ none ↦ none | some q ↦ want_all args q ]

-- A zero is put in front of an odd number of digits.
unfoldable pub serial_text : ℕ → List ℕ
unfolding hex_number
serial_text serial =
    if length (hex_number 8 serial) % 2 == 1 then 48 ∷ hex_number 8 serial else hex_number 8 serial

-- A line that is printed, with its label where `quiet` does not leave it out.
pub data Line : Type 0 where
  serial_line : ℕ → Line
  serial_hex_line serial_modhex_line : List ℕ → Line
  version_line : ℕ → ℕ → ℕ → Line
  touch_level_line pgm_seq_line : ℕ → Line
  slot1_line slot2_line : Bool → Line
  vendor_line product_line : ℕ → Line
  capabilities_line : List ℕ → Line

unfoldable pub when {ℓ} : {A : Type ℓ} → Bool → A → List A
when true a = a ∷ []
when false a = []

module _ {Dev : Type 0} (usb : Usb Dev) (crc16 : List ℕ → ℕ) (big_endian : Bool) (lib : Libyubikey)
    (encoders : Encoders) (vid_pid : Io Dev (ℕ × ℕ)) where
  unfoldable pub serial_lines : Wanted → Io Dev (List Line)
  unfolding when serial_text
  serial_lines o = elim (o.serial_dec || (o.serial_modhex || o.serial_hex)) [
    | false ↦ pure []
    | true ↦ (do
      serial ← yk_get_serial usb crc16 big_endian 0
      pure (
          when o.serial_dec (serial_line serial)
          ++ when o.serial_hex (serial_hex_line (serial_text serial))
          ++ when o.serial_modhex
              (serial_modhex_line (encoders.modhex_encode (lib.hex_decode (serial_text serial))))))
  ]

  unfoldable pub status_lines : Wanted → Io Dev (List Line)
  unfolding when
  status_lines o = elim (o.version || (o.touch_level || (o.pgm_seq || (o.slot1 || o.slot2)))) [
    | false ↦ pure []
    | true ↦ (do
      st ← yk_get_status usb big_endian
      pure (
          when o.version (version_line st.version_major st.version_minor st.version_build)
          ++ when o.touch_level (touch_level_line st.touch_level)
          ++ when o.pgm_seq (pgm_seq_line st.pgm_seq)
          ++ when o.slot1 (slot1_line (bit_and st.touch_level 0x01 == 0x01))
          ++ when o.slot2 (slot2_line (bit_and st.touch_level 0x02 == 0x02))))
  ]

  unfoldable pub id_lines : Wanted → Io Dev (List Line)
  unfolding when
  id_lines o = elim (o.vid || o.pid) [
    | false ↦ pure []
    | true ↦ (do
      ids ← vid_pid
      pure (when o.vid (vendor_line ids.0) ++ when o.pid (product_line ids.1)))
  ]

  -- Printing beyond the buffer is a fault.
  unfoldable pub capability_lines : Wanted → Io Dev (List Line)
  capability_lines o = elim (o.capa) [
    | false ↦ pure []
    | true ↦ (do
      r ← yk_get_capabilities usb crc16 big_endian 0 0xff
      elim (ltb (length r.0) r.1) [
        | true ↦ out_of_bounds
        | false ↦ pure (capabilities_line (take r.1 r.0) ∷ [])
      ])
  ]

  -- The lines of a call that succeeds.
  unfoldable pub info : Wanted → Io Dev (List Line)
  info o = do
    serial ← serial_lines o
    status ← status_lines o
    ids ← id_lines o
    capabilities ← capability_lines o
    pure (serial ++ status ++ ids ++ capabilities)
