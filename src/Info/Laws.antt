-- ===== src/Info/Laws.antt =====
-- The lines that are printed are those that were asked for.
use yubikey_personalization.Prelude.{ℕ, ◌≡◌, Bool, ◌||◌, Option, none, some, List, ◌++◌, map, codes}
use yubikey_personalization.Core.Io.{Usb, World, Io}
use yubikey_personalization.Pers.Keys.{Libyubikey}
use yubikey_personalization.Pers.Export.{Encoders}
use yubikey_personalization.Info.{
  Wanted, Line, serial_line, serial_hex_line, serial_modhex_line, version_line, touch_level_line,
  pgm_seq_line, slot1_line, slot2_line, vendor_line, product_line, capabilities_line, when,
}

-- The text in front of a line.
abbrev pub label : Line → List ℕ
label (serial_line n) = codes "serial"
label (serial_hex_line t) = codes "serial_hex"
label (serial_modhex_line t) = codes "serial_modhex"
label (version_line a b c) = codes "version"
label (touch_level_line n) = codes "touch_level"
label (pgm_seq_line n) = codes "programming_sequence"
label (slot1_line b) = codes "slot1_status"
label (slot2_line b) = codes "slot2_status"
label (vendor_line n) = codes "vendor_id"
label (product_line n) = codes "product_id"
label (capabilities_line b) = codes "capabilities"

abbrev serial_labels : Wanted → List (List ℕ)
serial_labels o =
    when o.serial_dec (codes "serial")
    ++ when o.serial_hex (codes "serial_hex")
    ++ when o.serial_modhex (codes "serial_modhex")

abbrev status_labels : Wanted → List (List ℕ)
status_labels o =
    when o.version (codes "version")
    ++ when o.touch_level (codes "touch_level")
    ++ when o.pgm_seq (codes "programming_sequence")
    ++ when o.slot1 (codes "slot1_status")
    ++ when o.slot2 (codes "slot2_status")

abbrev id_labels : Wanted → List (List ℕ)
id_labels o = when o.vid (codes "vendor_id") ++ when o.pid (codes "product_id")

-- What is asked for, in the order of printing.
abbrev pub labels : Wanted → List (List ℕ)
labels o = serial_labels o ++ status_labels o ++ id_labels o ++ when o.capa (codes "capabilities")

abbrev asks : Wanted → Bool
asks o =
    o.serial_dec
    || (o.serial_modhex
        || (o.serial_hex
            || (o.version
                || (o.touch_level
                    || (o.pgm_seq || (o.slot1 || (o.slot2 || (o.vid || (o.pid || o.capa)))))))))

get_some : Wanted → Option Wanted → Wanted
get_some q none = q
get_some q (some o) = o

module _ {Dev : Type 0} (usb : Usb Dev) (crc16 : List ℕ → ℕ) (big_endian : Bool) (lib : Libyubikey)
    (encoders : Encoders) (vid_pid : Io (Dev × List (List ℕ)) (ℕ × ℕ)) where
  abbrev Labelled : List (List ℕ) → List Line → World (Dev × List (List ℕ)) → Type 0
  Labelled ls lines w = map label lines ≡ ls
