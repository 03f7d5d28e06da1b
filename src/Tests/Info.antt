-- ===== src/Tests/Info.antt =====
-- The theorems on ykinfo at concrete inputs.
use yubikey_personalization.Prelude.{◌%◌, ◌≤◌, ◌≡◌, refl, true, List, [], ◌∷◌, arith, length, codes}
use yubikey_personalization.Args.State.{Arg}
use yubikey_personalization.Pers.Export.{hex_number}
use yubikey_personalization.Info.{Wanted, nothing_wanted, serial_text}
use yubikey_personalization.Info.Serial.{read_hex, serial_text_lem}

serial_run : serial_text 0xabc ≡ codes "0abc"
unfolding serial_text hex_number codes
serial_run = refl

serial_text_lem_example :
    (read_hex 0 (serial_text 0xabc) ≡ 0xabc)
    × (length (serial_text 0xabc) % 2 ≡ 0)
    × (length (serial_text 0xabc) ≤ 8)
serial_text_lem_example = serial_text_lem 0xabc (omega arith)

-- `-s -c`.
abbrev serial_args : List Arg
serial_args =
    record { letter = 115; optarg = []; optopt = 0 }
    ∷ record { letter = 99; optarg = []; optopt = 0 }
    ∷ []

abbrev serial_wanted : Wanted
serial_wanted = record nothing_wanted { serial_dec = true; capa = true }
