-- ===== src/Args/Parse.antt =====
-- ykpers-args.c: the option `-o`, the loop of `args_to_config` and what is done behind it.
pub mod Steps
pub mod Steady
pub mod Walk
pub mod Loop
pub mod Finish
pub mod Aim
pub mod Exclusive
pub mod Update
use yubikey_personalization.Prelude.{
  ℕ, zero, suc, ◌*◌, ◌%◌, Bool, true, false, not, ◌&&◌, ◌||◌, Option, none, some, List, [], ◌∷◌,
  codes, str_eq, bit_and, ltb, ◌==◌, if◌then◌else◌, drop, length, take,
}
use yubikey_personalization.Pers.Types.{
  Status, Config, Call, slot_config, slot_config2, ykp_enorandom,
}
use yubikey_personalization.Pers.Command.{ykp_clear_config, ykp_configure_version}
use yubikey_personalization.Pers.Flags.{
  TktFlag, CfgFlag, ExtFlag, write_tktflag, write_cfgflag, write_extflag, has_flag, tktflag_mask,
  oath_hotp, chal_resp,
}
use yubikey_personalization.Pers.Fields.{ykp_set_fixed, ykp_set_uid, ykp_set_oath_imf}
use yubikey_personalization.Pers.Keys.{
  Libyubikey, ykp_get_supported_key_length, ykp_aes_key_from_raw, ykp_hmac_key_from_raw,
}
use yubikey_personalization.Pers.Ndef.{starts_with}
use yubikey_personalization.Args.{hex_modhex_decode, _set_fixed, bad_length, bad_text, decoded}
use yubikey_personalization.Args.State.{
  Arg, Seen, Outputs, Run, Outcome, proceed, stop, with_seen, with_out, usage_error,
  prompt_for_data,
}
use yubikey_personalization.Args.Names.{
  tktflag_options, cfgflag_options, extflag_options, find_option,
}
use yubikey_personalization.Args.Options.{
  called, case_u, case_slot, case_x, case_z, case_f, case_a, case_c, case_n, case_t, case_m,
  case_scan_map, case_device_info, case_missing, copy_text, show_usage,
}

-- `if (!call) { *exit_code = 1; return 0; }`
unfoldable pub checked : Call → Run → Outcome
checked f r = if (f r.cfg r.errno).0 == 0 then usage_error (called f r) else proceed (called f r)

-- The same for a setter that takes the null pointer too.
abbrev pub on_config : (Option Config → ℕ → ℕ × Option Config × ℕ) → Call
on_config f c errno =
    let (ok, cfg, e) = f (some c) errno in elim cfg [ none ↦ (ok, c, e) | some c' ↦ (ok, c', e) ]

abbrev pub mode_option : List ℕ → Bool
mode_option optarg = str_eq optarg (codes "oath-hotp") || str_eq optarg (codes "chal-resp")

-- What is done before the switch for `-o`: the flags are reset for a mode.
unfoldable pub choose_mode : List ℕ → Run → Outcome
choose_mode optarg r =
    if mode_option optarg
    then (if r.seen.mode_chosen
        then usage_error r
        else if r.seen.option_seen
        then usage_error r
        else proceed (
            with_seen (λ s. record s { mode_chosen = true; option_seen = true })
              (called (on_config (λ c e. ((ykp_clear_config c).0, (ykp_clear_config c).1, e))) r)))
    else proceed (with_seen (λ s. record s { option_seen = true }) r)

-- `sscanf_lu` gives the number that "%lu" matches.
module _ (lib : Libyubikey) (sscanf_lu : List ℕ → Option ℕ) (oathid_len : ℕ) where
  -- The text of a private ID, and what is left of standard input.
  unfoldable pub store_uid : List ℕ → Run → Outcome
  store_uid uid r = elim (hex_modhex_decode lib uid 12 12 false) [
    | bad_length ↦ usage_error r
    | bad_text ↦ usage_error r
    | decoded uidbin ↦
        (if has_flag r.cfg.core.tkt_flags (tktflag_mask oath_hotp)
            || has_flag r.cfg.core.tkt_flags (tktflag_mask chal_resp)
          then usage_error r
          else proceed (called (on_config (ykp_set_uid uidbin)) r))
  ]

  unfoldable pub option_uid : List ℕ → Run → Outcome
  option_uid optarg r =
      if starts_with optarg (codes "uid=")
      then store_uid (drop 4 optarg) r
      else (let (answer, lines') = prompt_for_data r.lines in
          elim answer [
            | none ↦ usage_error (record r { lines = lines' })
            | some uid ↦ store_uid uid (record r { lines = lines' })
          ])

  unfoldable pub option_access : Run → Outcome
  option_access r =
      let (answer, lines') = prompt_for_data r.lines in
      elim answer [
        | none ↦ usage_error (record r { lines = lines' })
        | some code ↦
            proceed (
              with_out (λ o. record o { new_access_code = some code })
                (record r { lines = lines' }))
      ]

  unfoldable pub option_imf : List ℕ → Run → Outcome
  option_imf value r =
      if not (has_flag r.cfg.core.tkt_flags (tktflag_mask oath_hotp))
      then usage_error r
      else elim (sscanf_lu value) [
        | none ↦ usage_error r
        | some imf ↦
            (if ltb (65535 * 16) imf || not (imf % 16 == 0)
              then usage_error r
              else checked (ykp_set_oath_imf imf) r)
      ]

  unfoldable pub option_extended : List ℕ → Run → Outcome
  option_extended optarg r = elim (find_option extflag_options optarg) [
    | some (flag, state) ↦ checked (write_extflag flag state) r
    | none ↦ usage_error r
  ]

  -- From `oath-imf=` on.
  unfoldable pub option_oath : List ℕ → Run → Outcome
  option_oath optarg r =
      if starts_with optarg (codes "oath-imf=")
      then option_imf (drop 9 optarg) r
      else if starts_with optarg (codes "oath-id=") || str_eq optarg (codes "oath-id")
      then proceed (with_out (λ o. record o { oathid = copy_text oathid_len optarg o.oathid }) r)
      else option_extended optarg r

  -- From the ticket flags on.
  unfoldable pub option_flag : List ℕ → Run → Outcome
  option_flag optarg r = elim (find_option tktflag_options optarg) [
    | some (flag, state) ↦ checked (write_tktflag flag state) r
    | none ↦ elim (find_option cfgflag_options optarg) [
      | some (flag, state) ↦ checked (write_cfgflag flag state) r
      | none ↦ option_oath optarg r
    ]
  ]

  unfoldable pub case_o : List ℕ → Run → Outcome
  case_o optarg r =
      if r.seen.zap
      then usage_error r
      else if starts_with optarg (codes "fixed=")
      then checked (on_config (_set_fixed lib (drop 6 optarg))) r
      else if starts_with optarg (codes "uid")
      then option_uid optarg r
      else if starts_with optarg (codes "access=")
      then proceed (with_out (λ o. record o { new_access_code = some (drop 7 optarg) }) r)
      else if starts_with optarg (codes "access")
      then option_access r
      else option_flag optarg r

  module _ (sscanf_mode : List ℕ → List ℕ) (ndef_len : ℕ) where
    -- One round of the loop.
    unfoldable pub step : Arg → Run → Outcome
    step a r =
        let c = a.letter in
        if c == 111
        then elim (choose_mode a.optarg r) [ proceed q ↦ case_o a.optarg q | stop q ↦ stop q ]
        else if c == 117
        then case_u r
        else if c == 49
        then case_slot false r
        else if c == 50
        then case_slot true r
        else if c == 120
        then case_x r
        else if c == 122
        then case_z r
        else if c == 105
        then proceed (with_out (λ o. record o { infname = some a.optarg }) r)
        else if c == 115
        then proceed (with_out (λ o. record o { outfname = some a.optarg }) r)
        else if c == 102
        then case_f a.optarg r
        else if c == 97
        then case_a a.optarg r
        else if c == 99
        then case_c a.optarg r
        else if c == 116
        then case_t ndef_len a.optarg r
        else if c == 110
        then case_n ndef_len a.optarg r
        else if c == 109
        then case_m (sscanf_mode a.optarg) r
        else if c == 83
        then case_scan_map lib a.optarg r
        else if c == 68
        then case_device_info lib a.optarg r
        else if c == 100
        then proceed (with_out (λ o. record o { dry_run = true }) r)
        else if c == 118
        then proceed (with_out (λ o. record o { verbose = true }) r)
        else if c == 121
        then proceed (with_out (λ o. record o { autocommit = true }) r)
        else if c == 86 || c == 78
        then proceed r
        else if c == 58
        then case_missing a.optopt r
        else show_usage r

    unfoldable pub parse_loop : List Arg → Run → Outcome
    parse_loop [] r = proceed r
    parse_loop (a ∷ args) r = elim (step a r) [ proceed q ↦ parse_loop args q | stop q ↦ stop q ]

  unfoldable pub check_chosen : Run → Outcome
  check_chosen r =
      let s = r.seen in
      if not s.slot_chosen
        && (not s.ndef_seen
            && (not s.swap_seen
                && (not s.usb_mode_seen && (not s.scan_map_seen && not s.device_info_seen))))
      then usage_error r
      else proceed r

  unfoldable pub check_update : Run → Outcome
  check_update r =
      let k = r.cfg.core in
      if not r.seen.update_seen
      then proceed r
      else if not (bit_and k.tkt_flags 0x3f == k.tkt_flags)
      then usage_error r
      else if not (bit_and k.cfg_flags 0x0c == k.cfg_flags)
      then usage_error r
      else if not (bit_and k.ext_flags 0xff == k.ext_flags)
      then usage_error r
      else proceed r

  -- The first `n` bytes of a file that never ends.
  abbrev read_bytes : (ℕ → ℕ) → ℕ → List ℕ
  read_bytes file zero = []
  read_bytes file (suc n) = file 0 ∷ read_bytes (λ i. file (suc i)) n

  -- The first file that opens; `none` is one that does not.
  unfoldable pub random_key : List (Option (ℕ → ℕ)) → ℕ → Option (List ℕ)
  random_key [] key_bytes = none
  random_key (none ∷ random_places) key_bytes = random_key random_places key_bytes
  random_key (some file ∷ random_places) key_bytes = some (read_bytes file key_bytes)

  -- The functions that store a key return zero.
  unfoldable pub store_raw_key : ℕ → List ℕ → Run → Outcome
  store_raw_key key_bytes keybuf r =
      if key_bytes == 20
      then proceed (called (ykp_hmac_key_from_raw keybuf) r)
      else proceed (called (ykp_aes_key_from_raw keybuf) r)

  unfoldable pub store_hex_key : List ℕ → Run → Outcome
  store_hex_key aeshash' r =
      let key_bytes = ykp_get_supported_key_length r.cfg in
      elim (hex_modhex_decode lib aeshash' (key_bytes * 2) (key_bytes * 2) false) [
        | bad_length ↦ usage_error r
        | bad_text ↦ usage_error r
        | decoded keybuf ↦ store_raw_key key_bytes keybuf r
      ]

  unfoldable pub program_key : List (Option (ℕ → ℕ)) → Run → Outcome
  program_key random_places r =
      let key_bytes = ykp_get_supported_key_length r.cfg in
      if not (not r.seen.zap && (r.cfg.command == slot_config || r.cfg.command == slot_config2))
      then proceed r
      else if r.keylocation == 2
      then (let (answer, lines') = prompt_for_data r.lines in
          elim answer [
            | none ↦ usage_error (record r { lines = lines' })
            | some key ↦
                store_hex_key key (record r { lines = lines'; aeshash = key; keylocation = 1 })
          ])
      else if r.keylocation == 0
      then elim (random_key random_places key_bytes) [
        | none ↦ usage_error (record r { errno = ykp_enorandom })
        | some keybuf ↦ store_raw_key key_bytes keybuf r
      ]
      else store_hex_key r.aeshash r

  -- What is done once `getopt` has given its last result.
  unfoldable pub finish : List (Option (ℕ → ℕ)) → Run → Outcome
  finish random_places r = elim (check_chosen r) [
    | stop q ↦ stop q
    | proceed q ↦ elim (check_update q) [
      | stop p ↦ stop p
      | proceed p ↦ program_key random_places p
    ]
  ]

-- The variables at the start, over the configuration, the outputs, `*zap`, `*exit_code` and `ykp_errno` of the
-- caller and its standard input.
abbrev pub first_run : Config → Outputs → Bool → ℕ → ℕ → List (Option (List ℕ)) → Run
first_run c outputs zap exit_code errno lines = record {
  cfg = c;
  errno = errno;
  exit_code = exit_code;
  seen = record {
    slot_chosen = false;
    mode_chosen = false;
    option_seen = false;
    swap_seen = false;
    update_seen = false;
    ndef_seen = false;
    usb_mode_seen = false;
    scan_map_seen = false;
    device_info_seen = false;
    zap = zap;
  };
  out = outputs;
  keylocation = 0;
  aeshash = [];
  lines = lines;
}

module _ (lib : Libyubikey) (sscanf_lu : List ℕ → Option ℕ) (sscanf_mode : List ℕ → List ℕ)
    (oathid_len ndef_len : ℕ) (random_places : List (Option (ℕ → ℕ))) where
  -- `args` are the results of `getopt` up to the last.
  unfoldable pub args_to_config :
      List Arg → Status → Config → Outputs → Bool → ℕ → ℕ → List (Option (List ℕ)) → Outcome
  args_to_config args st c outputs zap exit_code errno lines =
      elim (parse_loop lib sscanf_lu oathid_len sscanf_mode ndef_len args
        (first_run (ykp_configure_version c st) outputs zap exit_code errno lines)) [
          | stop q ↦ stop q
          | proceed q ↦ finish lib sscanf_lu oathid_len random_places q
        ]
