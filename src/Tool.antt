-- ===== src/Tool.antt =====
-- ykpersonalize.c: what the tool does between `args_to_config` and its end, with the files in
-- Tool.Files, and `set_oath_id` of ykpers-args.c. What is printed is left out.
pub mod Laws
pub mod Aims
pub mod Prepare
pub mod Files
use yubikey_personalization.Prelude.{
  ℕ, Bool, true, false, not, ◌&&◌, ◌||◌, Option, none, some, List, [], ◌∷◌, codes, str_eq, bit_and,
  ltb, leb, ◌==◌, if◌then◌else◌, length, take, drop,
}
use yubikey_personalization.Core.Io.{
  Usb, World, Res, Io, done, failed, fault, stuck, ◌>>=◌, ◌>>◌, pure, give_up, ignore,
}
use yubikey_personalization.Core.Program.{
  Ndef, DeviceConfig, yk_get_serial, yk_write_ndef2, yk_write_device_config, yk_write_scan_map,
  yk_write_device_info, yk_write_command,
}
use yubikey_personalization.Pers.Types.{
  Status, Config, slot_ndef, slot_ndef2, slot_device_config, slot_scan_map,
  slot_yk4_set_device_info,
}
use yubikey_personalization.Pers.Flags.{
  write_cfgflag, write_extflag, has_flag, tktflag_mask, oath_hotp, oath_fixed_modhex2,
  serial_api_visible,
}
use yubikey_personalization.Pers.Fields.{ykp_set_access_code, ykp_set_fixed}
use yubikey_personalization.Pers.Keys.{Libyubikey}
use yubikey_personalization.Pers.Ndef.{
  ykp_alloc_ndef, ykp_alloc_device_config, ykp_construct_ndef_uri, ykp_construct_ndef_text,
  ykp_set_ndef_access_code, ykp_set_device_mode, ykp_set_device_chalresp_timeout,
  ykp_set_device_autoeject_time,
}
use yubikey_personalization.Args.{
  hex_modhex_decode, _set_fixed, _format_oath_id, bad_length, bad_text, decoded,
}
use yubikey_personalization.Args.State.{Run, prompt_for_data}
use yubikey_personalization.Args.Options.{called}
use yubikey_personalization.Args.Parse.{on_config}

-- Version 2.2 or later.
unfoldable pub reads_serial : Status → Bool
reads_serial st = ltb 2 st.version_major || (st.version_major == 2 && leb 2 st.version_minor)

-- The test before the serial number is shown; "neo has serial functions".
unfoldable pub shows_serial : Status → Bool
unfolding reads_serial
shows_serial st =
    reads_serial st || (st.version_major == 2 && (st.version_minor == 1 && leb 4 st.version_build))

-- The two codes are 12 characters. The first goes into the configuration too if it is the only one.
module _ (lib : Libyubikey) where
  unfoldable pub set_new_access_code : Run → Option Run
  set_new_access_code r = elim (r.out.new_access_code) [
    | none ↦ some r
    | some new_acc_code ↦ elim (hex_modhex_decode lib new_acc_code 12 12 false) [
      | bad_length ↦ none
      | bad_text ↦ none
      | decoded accbin ↦ some (called (on_config (ykp_set_access_code accbin)) r)
    ]
  ]

  -- With the access code that the key asks for.
  unfoldable pub set_codes : Run → Option (Run × Option (List ℕ))
  set_codes r = elim (r.out.access_code) [
    | none ↦ elim (set_new_access_code r) [ none ↦ none | some q ↦ some (q, none) ]
    | some acc_code ↦ elim (hex_modhex_decode lib acc_code 12 12 false) [
      | bad_length ↦ none
      | bad_text ↦ none
      | decoded access_code ↦ elim (r.out.new_access_code) [
        | none ↦ some (called (on_config (ykp_set_access_code access_code)) r, some access_code)
        | some new_acc_code ↦ elim (set_new_access_code r) [
          | none ↦ none
          | some q ↦ some (q, some access_code)
        ]
      ]
    ]
  ]

-- Whether the answer is "y" or "yes"; `none` where there is none.
abbrev pub is_yes : List ℕ → Bool
is_yes commitbuf = str_eq commitbuf (codes "y") || str_eq commitbuf (codes "yes")

unfoldable pub ask : Bool → List (Option (List ℕ)) → Option Bool × List (Option (List ℕ))
ask autocommit lines =
    let (answer, lines') = prompt_for_data lines in
    if autocommit
    then (some true, lines)
    else elim answer [ none ↦ (none, lines') | some commitbuf ↦ (some (is_yes commitbuf), lines') ]

-- MODE_CCID, MODE_U2F and MODE_U2F_CCID, in which the key cannot be reached any more.
abbrev pub leaves_otp : ℕ → Bool
leaves_otp usb_mode =
    bit_and usb_mode 0xf == 1 || (bit_and usb_mode 0xf == 3 || bit_and usb_mode 0xf == 5)

-- The record for the key, `none` where it can not be made; the memory for it is there.
unfoldable pub make_ndef : Run → Option (List ℕ) → Option Ndef
make_ndef r access_code = elim (ykp_alloc_ndef true) [
  | none ↦ none
  | some empty ↦
      (let (res, ndef, e) =
          if r.out.ndef_type == 85
          then ykp_construct_ndef_uri empty r.out.ndef_text r.errno
          else if r.out.ndef_type == 84
          then ykp_construct_ndef_text empty r.out.ndef_text (codes "en") false r.errno
          else (0, empty, r.errno) in
        if res == 0 then none else elim access_code [
          | none ↦ some ndef
          | some code ↦
              (if (ykp_set_ndef_access_code (some ndef) code).0 == 0
                then none
                else (ykp_set_ndef_access_code (some ndef) code).1)
        ])
]

unfoldable pub make_device_config : Run → Option DeviceConfig
make_device_config r =
    let moded = (ykp_set_device_mode (ykp_alloc_device_config true) r.out.usb_mode r.errno).1 in
    if ltb 1 r.out.num_modes_seen
    then (let timed = (ykp_set_device_chalresp_timeout moded r.out.cr_timeout r.errno).1 in
        if ltb 2 r.out.num_modes_seen
        then (ykp_set_device_autoeject_time timed r.out.autoeject_timeout r.errno).1
        else timed)
    else moded

module _ {Dev : Type 0} (usb : Usb Dev) (crc16 : List ℕ → ℕ) (big_endian : Bool) where
  unfoldable pub write_ndef : Run → Option (List ℕ) → Io Dev Bool
  write_ndef r access_code = elim (make_ndef r access_code) [
    | none ↦ give_up
    | some ndef ↦ (do
      yk_write_ndef2 usb crc16 big_endian ndef (if r.cfg.command == slot_ndef2 then 2 else 1)
      pure true)
  ]

  -- It is asked again where the mode turns off the protocol that the tool speaks.
  unfoldable pub write_mode : Run → Io Dev Bool
  write_mode r = elim (make_device_config r) [
    | none ↦ give_up
    | some c ↦
        elim (if leaves_otp r.out.usb_mode then (ask r.out.autocommit r.lines).0 else some true) [
          | none ↦ give_up
          | some false ↦ pure false
          | some true ↦ (do yk_write_device_config usb crc16 big_endian c; pure true)
        ]
  ]

  -- The write that is agreed on. The end is `false` where it is called off by a second answer; a
  -- failure is what leads to the status 2 of the tool.
  unfoldable pub commit : Run → Option (List ℕ) → Io Dev Bool
  commit r access_code =
      if r.out.dry_run
      then pure true
      else if r.cfg.command == slot_ndef || r.cfg.command == slot_ndef2
      then write_ndef r access_code
      else if r.cfg.command == slot_device_config
      then write_mode r
      else if r.cfg.command == slot_scan_map
      then (do yk_write_scan_map usb crc16 big_endian r.out.scan_bin; pure true)
      else if r.cfg.command == slot_yk4_set_device_info
      then (do yk_write_device_info usb crc16 big_endian r.out.device_info; pure true)
      else (do
        yk_write_command usb crc16 big_endian (if r.seen.zap then none else some r.cfg.core)
            r.cfg.command access_code
        pure true)

  -- From the question on; `commitbuf` is the answer.
  unfoldable pub confirm_and_commit : Run → Option (List ℕ) → Io Dev Bool
  confirm_and_commit r access_code =
      let (answer, lines') = ask r.out.autocommit r.lines in
      elim answer [
        | none ↦ give_up
        | some false ↦ pure false
        | some true ↦ commit (record r { lines = lines' }) access_code
      ]

  module _ (lib : Libyubikey) where
    -- The identifier that a serial number gives.
    unfoldable pub format_serial : ℕ → Run → ℕ × Run
    format_serial serial r = elim (_format_oath_id 12 0xe1 0x63 serial) [
      | none ↦ (0, r)
      | some oath_id ↦
          (let set_id = on_config (ykp_set_fixed (take 6 oath_id)) in
            if not ((set_id r.cfg r.errno).0 == 1)
            then (0, called set_id r)
            else (1, called set_id r))
    ]

    unfoldable pub set_serial_id : Status → Run → Io Dev (ℕ × Run)
    set_serial_id st r w =
        if not (reads_serial st)
        then done (0, r) w
        else elim (yk_get_serial usb crc16 big_endian 0 w) [
          | failed w' ↦ done (0, r) w'
          | fault ↦ fault
          | stuck ↦ stuck
          | done serial w' ↦ done (format_serial serial r) w'
        ]

    unfoldable pub set_oath_id : List ℕ → Status → Run → Io Dev (ℕ × Run)
    set_oath_id opt st r =
        let fixed_modhex = write_cfgflag oath_fixed_modhex2 true in
        let visible = write_extflag serial_api_visible true in
        let set_fixed = on_config (_set_fixed lib (drop 8 opt)) in
        let r1 = called fixed_modhex r in
        let r2 = called visible r1 in
        if not (has_flag r.cfg.core.tkt_flags (tktflag_mask oath_hotp))
        then pure (0, r)
        else if (fixed_modhex r.cfg r.errno).0 == 0
        then pure (0, r1)
        else if (visible r1.cfg r1.errno).0 == 0
        then pure (0, r2)
        else if ltb 7 (length opt)
        then (if not ((set_fixed r2.cfg r2.errno).0 == 1)
            then pure (0, called set_fixed r2)
            else pure (1, called set_fixed r2))
        else set_serial_id st r2

    -- What is set is looked at no further.
    unfoldable pub apply_oath_id : Status → Run → Io Dev (ℕ × Run)
    apply_oath_id st r = elim (r.out.oathid) [
      | [] ↦ pure (0, r)
      | c ∷ opt ↦ set_oath_id (c ∷ opt) st r
    ]

    -- What is done with the options that were accepted, up to the question.
    unfoldable pub prepare : Status → Run → Io Dev (Run × Option (List ℕ))
    prepare st r = do
      q ← apply_oath_id st r
      elim (set_codes lib q.1) [
        | none ↦ give_up
        | some coded ↦
            (if coded.0.out.verbose && shows_serial st
              then (do ignore (yk_get_serial usb crc16 big_endian 0); pure coded)
              else pure coded)
      ]
