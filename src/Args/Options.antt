-- ===== src/Args/Options.antt =====
-- ykpers-args.c: the cases of the switch of `args_to_config` but `-o`, each a step from the
-- variables before it. What is printed is left out.
use yubikey_personalization.Prelude.{
  ℕ, ◌-◌, ◌*◌, Bool, true, false, ◌||◌, none, some, List, [], ◌∷◌, codes, str_eq, ◌==◌,
  if◌then◌else◌, take, replicate,
}
use yubikey_personalization.Pers.Types.{
  ykp_format_legacy, ykp_format_ycfg, Call, slot_config, slot_config2, slot_update1, slot_update2,
  slot_swap, slot_ndef, slot_ndef2, slot_device_config, slot_scan_map, slot_yk4_set_device_info,
}
use yubikey_personalization.Pers.Command.{ykp_configure_command}
use yubikey_personalization.Pers.Flags.{
  write_tktflag, write_cfgflag, write_extflag, append_cr, allow_update, static_ticket, strong_pw1,
  strong_pw2, man_update,
}
use yubikey_personalization.Pers.Keys.{Libyubikey}
use yubikey_personalization.Args.{hex_modhex_decode, bad_length, bad_text, decoded}
use yubikey_personalization.Args.State.{
  Seen, Outputs, Run, Outcome, proceed, stop, with_seen, with_out, usage_error, prompt_for_data,
}

-- A call on the configuration whose return value is not looked at.
abbrev pub called : Call → Run → Run
called f r = let (_, c, e) = f r.cfg r.errno in record r { cfg = c; errno = e }

-- `if (!ykp_configure_command(cfg, command)) return 0;` and what follows it.
unfoldable pub configure : ℕ → (Run → Run) → Run → Outcome
configure command next r =
    if (ykp_configure_command command r.cfg r.errno).0 == 0
    then stop (called (ykp_configure_command command) r)
    else proceed (next (called (ykp_configure_command command) r))

-- The options that each of these can not follow; the last is for `-S` without an argument.
abbrev pub rejects_x : Seen → Bool
rejects_x s =
    s.slot_chosen
    || (s.option_seen
        || (s.update_seen
            || (s.ndef_seen
                || (s.zap || (s.usb_mode_seen || (s.scan_map_seen || s.device_info_seen))))))

abbrev pub rejects_z : Seen → Bool
rejects_z s =
    s.swap_seen
    || (s.update_seen
        || (s.ndef_seen || (s.usb_mode_seen || (s.scan_map_seen || s.device_info_seen))))

abbrev pub rejects_n : Seen → Bool
rejects_n s =
    s.swap_seen
    || (s.update_seen
        || (s.option_seen
            || (s.zap || (s.usb_mode_seen || (s.scan_map_seen || s.device_info_seen)))))

abbrev pub rejects_m : Seen → Bool
rejects_m s =
    s.slot_chosen
    || (s.swap_seen
        || (s.update_seen
            || (s.option_seen
                || (s.ndef_seen || (s.zap || (s.scan_map_seen || s.device_info_seen))))))

abbrev pub rejects_scan_map : Seen → Bool
rejects_scan_map s =
    s.slot_chosen
    || (s.swap_seen
        || (s.update_seen
            || (s.option_seen
                || (s.ndef_seen || (s.zap || (s.usb_mode_seen || s.device_info_seen))))))

abbrev pub rejects_device_info : Seen → Bool
rejects_device_info s =
    s.slot_chosen
    || (s.swap_seen
        || (s.update_seen
            || (s.option_seen || (s.ndef_seen || (s.zap || (s.usb_mode_seen || s.scan_map_seen))))))

abbrev pub rejects_no_scan_map : Seen → Bool
rejects_no_scan_map s =
    s.slot_chosen
    || (s.swap_seen
        || (s.update_seen || (s.option_seen || (s.ndef_seen || (s.zap || s.usb_mode_seen)))))

unfoldable pub case_u : Run → Outcome
case_u r =
    if r.seen.slot_chosen
    then usage_error r
    else if r.seen.swap_seen
    then usage_error r
    else if r.seen.ndef_seen
    then usage_error r
    else proceed (with_seen (λ s. record s { update_seen = true }) r)

-- `second` is `c == '2'`.
abbrev pub slot_defaults : Bool → Run → Run
slot_defaults second r =
    let cr = called (write_tktflag append_cr true) r in
    if r.seen.update_seen
    then called (write_extflag allow_update true) cr
    else if second
    then called (write_cfgflag man_update true) (
        called (write_cfgflag strong_pw2 true)
          (called (write_cfgflag strong_pw1 true) (called (write_cfgflag static_ticket true) cr)))
    else cr

abbrev pub slot_command : Bool → Bool → ℕ
slot_command update second =
    if update
    then (if second then slot_update2 else slot_update1)
    else (if second then slot_config2 else slot_config)

unfoldable pub case_slot : Bool → Run → Outcome
case_slot second r =
    if r.seen.slot_chosen
    then usage_error r
    else if r.seen.option_seen
    then usage_error r
    else if r.seen.swap_seen
    then usage_error r
    else configure (slot_command r.seen.update_seen second)
        (with_seen (λ s. record s { slot_chosen = true })) (slot_defaults second r)

unfoldable pub case_x : Run → Outcome
case_x r =
    if rejects_x r.seen
    then usage_error r
    else configure slot_swap (with_seen (λ s. record s { swap_seen = true })) r

unfoldable pub case_z : Run → Outcome
case_z r =
    if rejects_z r.seen then usage_error r else proceed (with_seen (λ s. record s { zap = true }) r)

unfoldable pub case_f : List ℕ → Run → Outcome
case_f optarg r =
    if str_eq optarg (codes "ycfg")
    then proceed (with_out (λ o. record o { data_format = ykp_format_ycfg }) r)
    else if str_eq optarg (codes "legacy")
    then proceed (with_out (λ o. record o { data_format = ykp_format_legacy }) r)
    else usage_error r

-- `optarg[0] == '-'`.
abbrev pub is_dash : List ℕ → Bool
is_dash [] = false
is_dash (c ∷ s) = c == 45

unfoldable pub case_a : List ℕ → Run → Outcome
case_a optarg r =
    if is_dash optarg
    then proceed (record r { keylocation = 2 })
    else proceed (record r { aeshash = optarg; keylocation = 1 })

-- The access code from standard input.
unfoldable pub prompt_access : Run → Outcome
prompt_access r =
    let (answer, lines') = prompt_for_data r.lines in
    elim answer [
      | none ↦ usage_error (record r { lines = lines' })
      | some code ↦
          proceed
            (with_out (λ o. record o { access_code = some code }) (record r { lines = lines' }))
    ]

unfoldable pub case_c : List ℕ → Run → Outcome
case_c optarg r =
    if is_dash optarg
    then prompt_access r
    else proceed (with_out (λ o. record o { access_code = some optarg }) r)

-- `strncpy` to an array of `size` characters whose last is then set to zero.
abbrev pub copy_text : ℕ → List ℕ → List ℕ → List ℕ
copy_text size text old = if size == 0 then old else take (size - 1) text

unfoldable pub case_n : ℕ → List ℕ → Run → Outcome
case_n ndef_len optarg r =
    let typed =
      with_out (λ o. record o { ndef_type = if o.ndef_type == 0 then 85 else o.ndef_type }) r in
    if rejects_n r.seen
    then usage_error typed
    else configure (if r.cfg.command == slot_config2 then slot_ndef2 else slot_ndef)
        (λ q.
          with_seen (λ t. record t { ndef_seen = true })
            (with_out (λ o. record o { ndef_text = copy_text ndef_len optarg o.ndef_text }) q))
        typed

unfoldable pub case_t : ℕ → List ℕ → Run → Outcome
case_t ndef_len optarg r = case_n ndef_len optarg (with_out (λ o. record o { ndef_type = 84 }) r)

-- What `sscanf` matches of "%hhx:%hhd:%hd".
unfoldable pub store_mode : List ℕ → Outputs → Outputs
store_mode [] o = o
store_mode (mode ∷ []) o = record o { usb_mode = mode; num_modes_seen = 1 }
store_mode (mode ∷ crtime ∷ []) o = record o {
  usb_mode = mode;
  cr_timeout = crtime;
  num_modes_seen = 2;
}
store_mode (mode ∷ crtime ∷ autotime ∷ more) o = record o {
  usb_mode = mode;
  cr_timeout = crtime;
  autoeject_timeout = autotime;
  num_modes_seen = 3;
}

-- `matched` is the list of the numbers that `sscanf` finds.
unfoldable pub case_m : List ℕ → Run → Outcome
case_m matched r = if rejects_m r.seen then usage_error r else elim matched [
  | [] ↦ usage_error r
  | mode ∷ more ↦
      configure slot_device_config (λ q. q)
        (with_seen (λ t. record t { usb_mode_seen = true }) (with_out (store_mode (mode ∷ more)) r))
]

abbrev pub scanlength : ℕ
scanlength = 45

module _ (lib : Libyubikey) where
  unfoldable pub case_scan_map : List ℕ → Run → Outcome
  case_scan_map optarg r =
      if rejects_scan_map r.seen
      then usage_error r
      else elim (hex_modhex_decode lib optarg (scanlength * 2) (scanlength * 2) false) [
        | bad_length ↦ usage_error r
        | bad_text ↦ usage_error r
        | decoded bytes ↦
            configure slot_scan_map (λ q. q)
              (with_seen (λ t. record t { scan_map_seen = true })
                (with_out (λ o. record o { scan_bin = bytes }) r))
      ]

  unfoldable pub case_device_info : List ℕ → Run → Outcome
  case_device_info optarg r =
      if rejects_device_info r.seen
      then usage_error r
      else elim (hex_modhex_decode lib optarg 2 128 false) [
        | bad_length ↦ usage_error r
        | bad_text ↦ usage_error r
        | decoded bytes ↦
            configure slot_yk4_set_device_info
              (with_seen (λ t. record t { device_info_seen = true }))
              (with_out (λ o. record o { device_info = bytes }) r)
      ]

-- `case 'h'` and the default.
abbrev pub show_usage : Run → Outcome
show_usage r = stop (record r { exit_code = 0 })

-- `case ':'`, an option whose argument is missing.
unfoldable pub case_missing : ℕ → Run → Outcome
case_missing optopt r =
    if optopt == 83
    then (if rejects_no_scan_map r.seen
        then usage_error r
        else configure slot_scan_map (λ q. q)
            (with_seen (λ t. record t { scan_map_seen = true })
              (with_out (λ o. record o { scan_bin = replicate scanlength 0 }) r)))
    else if optopt == 97
    then proceed (record r { keylocation = 2 })
    else if optopt == 99
    then prompt_access r
    else show_usage r
