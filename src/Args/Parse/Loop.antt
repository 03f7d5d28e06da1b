-- ===== src/Args/Parse/Loop.antt =====
-- How an invariant of the loop of `args_to_config` is kept by `-o`, by a round and by the loop.
use yubikey_personalization.Prelude.{
  ℕ, inl, inr, true, false, Option-cases, Option, List, [], ◌∷◌, codes, str_eq, drop, not, ltb, ◌*◌,
  ◌%◌, ◌||◌, ◌==◌,
}
use yubikey_personalization.Pers.Types.{Config, Call}
use yubikey_personalization.Pers.Command.{ykp_clear_config}
use yubikey_personalization.Pers.Flags.{
  oath_hotp, chal_resp, tktflag_mask, has_flag, write_tktflag, write_cfgflag, write_extflag,
}
use yubikey_personalization.Pers.Fields.{ykp_set_uid, ykp_set_oath_imf}
use yubikey_personalization.Pers.Keys.{Libyubikey}
use yubikey_personalization.Args.{_set_fixed}
use yubikey_personalization.Args.State.{Arg, Seen, Run, prompt_for_data, with_seen, with_out}
use yubikey_personalization.Args.Options.{called, case_t}
use yubikey_personalization.Args.Parse.{
  on_config, mode_option, choose_mode, store_uid, option_uid, option_access, option_imf,
  option_extended, option_oath, option_flag, case_o, step, parse_loop,
}
use yubikey_personalization.Args.Names.{
  tktflag_options, cfgflag_options, extflag_options, find_option,
}
use yubikey_personalization.Pers.Ndef.{starts_with}
use yubikey_personalization.Args.Parse.Steps.{Allows, goes, ends, guard, branch, chain, decode}
use yubikey_personalization.Args.Parse.Steady.{
  write_tktflag-Steady, write_cfgflag-Steady, write_extflag-Steady, set_uid-Steady,
  set_fixed-Steady, set_oath_imf-Steady, clear_config-Steady,
}
use yubikey_personalization.Args.Parse.Walk.{
  Invariant, case_u-Keeps, case_slot-Keeps, case_x-Keeps, case_z-Keeps, case_f-Keeps, case_a-Keeps,
  case_c-Keeps, case_n-Keeps, case_m-Keeps, case_scan_map-Keeps, case_device_info-Keeps,
  case_missing-Keeps, checked-Keeps, called-Keeps,
}

module _ (Q : Config → Seen → Type 0) (laws : Invariant Q) where
  abbrev pub P : Run → Type 0
  P r = Q r.cfg r.seen

  choose_mode-Keeps : (optarg : List ℕ) (r : Run) → P r → Allows P (choose_mode optarg r)
  unfolding choose_mode
  choose_mode-Keeps optarg r h =
      branch P (mode_option optarg)
        (λ _. guard P r.seen.mode_chosen r λ _. guard P r.seen.option_seen r λ _.
          goes
            {q = with_seen (λ s. record s { mode_chosen = true; option_seen = true })
              (called clear r)}
            (laws.mode _ _ (called-Keeps Q laws clear r clear_config-Steady h)))
        (λ _. goes {q = with_seen (λ s. record s { option_seen = true }) r} (laws.option _ _ h))
    where
      clear : Call
      clear = on_config (λ c e. ((ykp_clear_config c).0, (ykp_clear_config c).1, e))

  module _ (lib : Libyubikey) (sscanf_lu : List ℕ → Option ℕ) (oathid_len : ℕ) where
    store_uid-Keeps :
        (uid : List ℕ) (r : Run) → P r → Allows P (store_uid lib sscanf_lu oathid_len uid r)
    unfolding store_uid
    store_uid-Keeps uid r h = decode P _ r r _ λ bytes.
        guard P
          (has_flag r.cfg.core.tkt_flags (tktflag_mask oath_hotp)
            || has_flag r.cfg.core.tkt_flags (tktflag_mask chal_resp))
          r
          λ _. goes (called-Keeps Q laws (on_config (ykp_set_uid bytes)) r (set_uid-Steady bytes) h)

    option_uid-Keeps :
        (optarg : List ℕ) (r : Run) → P r → Allows P (option_uid lib sscanf_lu oathid_len optarg r)
    unfolding option_uid
    option_uid-Keeps optarg r h =
        branch P (starts_with optarg (codes "uid=")) (λ _. store_uid-Keeps (drop 4 optarg) r h)
          (λ _. elim (Option-cases (prompt_for_data r.lines).0) [
            | inl e ↦ rw (e, option_uid) ends
            | inr (uid, e) ↦
                rw (e, option_uid)
                  (store_uid-Keeps uid (record r { lines = (prompt_for_data r.lines).1 }) h)
          ])

    option_access-Keeps : (r : Run) → P r → Allows P (option_access lib sscanf_lu oathid_len r)
    unfolding option_access
    option_access-Keeps r h = elim (Option-cases (prompt_for_data r.lines).0) [
      | inl e ↦ rw (e, option_access) ends
      | inr (code, e) ↦ rw (e, option_access) (goes h)
    ]

    option_imf-Keeps :
        (value : List ℕ) (r : Run) → P r → Allows P (option_imf lib sscanf_lu oathid_len value r)
    unfolding option_imf
    option_imf-Keeps value r h =
        guard P (not (has_flag r.cfg.core.tkt_flags (tktflag_mask oath_hotp))) r λ _.
          elim (Option-cases (sscanf_lu value)) [
            | inl e ↦ rw e ends
            | inr (imf, e) ↦ rw e (
                guard P (ltb (65535 * 16) imf || not (imf % 16 == 0)) r
                  λ _. checked-Keeps Q laws (ykp_set_oath_imf imf) r (set_oath_imf-Steady imf) h)
          ]

    option_extended-Keeps :
        (optarg : List ℕ) (r : Run)
        → P r
        → Allows P (option_extended lib sscanf_lu oathid_len optarg r)
    unfolding option_extended
    option_extended-Keeps optarg r h = elim (Option-cases (find_option extflag_options optarg)) [
      | inl e ↦ rw (e, option_extended) ends
      | inr ((flag, state), e) ↦
          rw (e, option_extended)
            (checked-Keeps Q laws (write_extflag flag state) r (write_extflag-Steady flag state) h)
    ]

    option_oath-Keeps :
        (optarg : List ℕ) (r : Run) → P r → Allows P (option_oath lib sscanf_lu oathid_len optarg r)
    unfolding option_oath
    option_oath-Keeps optarg r h =
        branch P (starts_with optarg (codes "oath-imf="))
          (λ _. option_imf-Keeps (drop 9 optarg) r h)
          (λ _.
            branch P (starts_with optarg (codes "oath-id=") || str_eq optarg (codes "oath-id"))
              (λ _. goes h) (λ _. option_extended-Keeps optarg r h))

    option_flag-Keeps :
        (optarg : List ℕ) (r : Run) → P r → Allows P (option_flag lib sscanf_lu oathid_len optarg r)
    unfolding option_flag
    option_flag-Keeps optarg r h = elim (Option-cases (find_option tktflag_options optarg)) [
      | inl t ↦ elim (Option-cases (find_option cfgflag_options optarg)) [
        | inl e ↦ rw (t, e, option_flag) (option_oath-Keeps optarg r h)
        | inr ((flag, state), e) ↦
            rw (t, e, option_flag)
              (checked-Keeps Q laws (write_cfgflag flag state) r (write_cfgflag-Steady flag state)
                h)
      ]
      | inr ((flag, state), e) ↦
          rw (e, option_flag)
            (checked-Keeps Q laws (write_tktflag flag state) r (write_tktflag-Steady flag state) h)
    ]

    case_o-Keeps :
        (optarg : List ℕ) (r : Run) → P r → Allows P (case_o lib sscanf_lu oathid_len optarg r)
    unfolding case_o
    case_o-Keeps optarg r h = guard P r.seen.zap r λ _.
        branch P (starts_with optarg (codes "fixed="))
          (λ _.
            checked-Keeps Q laws (on_config (_set_fixed lib (drop 6 optarg))) r
              (set_fixed-Steady lib (drop 6 optarg)) h)
          λ _.
            branch P (starts_with optarg (codes "uid")) (λ _. option_uid-Keeps optarg r h)
              λ _.
                branch P (starts_with optarg (codes "access=")) (λ _. goes h)
                  λ _.
                    branch P (starts_with optarg (codes "access")) (λ _. option_access-Keeps r h)
                      λ _. option_flag-Keeps optarg r h

    module _ (sscanf_mode : List ℕ → List ℕ) (ndef_len : ℕ) where
      step-Keeps :
          (a : Arg) (r : Run)
          → P r
          → Allows P (step lib sscanf_lu oathid_len sscanf_mode ndef_len a r)
      unfolding step case_t
      step-Keeps a r h =
          branch P (a.letter == 111)
            (λ _.
              chain P P (choose_mode a.optarg r) (case_o lib sscanf_lu oathid_len a.optarg)
                (choose_mode-Keeps a.optarg r h) (case_o-Keeps a.optarg))
            λ _.
              branch P (a.letter == 117) (λ _. case_u-Keeps Q laws r h)
                λ _.
                  branch P (a.letter == 49) (λ _. case_slot-Keeps Q laws false r h)
                    λ _.
                      branch P (a.letter == 50) (λ _. case_slot-Keeps Q laws true r h)
                        λ _.
                          branch P (a.letter == 120) (λ _. case_x-Keeps Q laws r h)
                            λ _.
                              branch P (a.letter == 122) (λ _. case_z-Keeps Q laws r h)
                                λ _.
                                  branch P (a.letter == 105) (λ _. goes h)
                                    λ _.
                                      branch P (a.letter == 115) (λ _. goes h)
                                        λ _.
                                          branch P (a.letter == 102)
                                            (λ _. case_f-Keeps Q laws a.optarg r h)
                                            λ _.
                                              branch P (a.letter == 97)
                                                (λ _. case_a-Keeps Q laws a.optarg r h)
                                                λ _.
                                                  branch P (a.letter == 99)
                                                    (λ _. case_c-Keeps Q laws a.optarg r h)
                                                    λ _.
                                                      branch P (a.letter == 116)
                                                        (λ _.
                                                          case_n-Keeps Q laws ndef_len a.optarg
                                                            (with_out
                                                            (λ o. record o { ndef_type = 84 }) r)
                                                            h)
                                                        λ _.
                                                          branch P (a.letter == 110)
                                                            (λ _.
                                                            case_n-Keeps Q laws ndef_len a.optarg r
                                                            h)
                                                            λ _.
                                                            branch P (a.letter == 109)
                                                            (λ _.
                                                            case_m-Keeps Q laws
                                                            (sscanf_mode a.optarg) r h)
                                                            λ _.
                                                            branch P (a.letter == 83)
                                                            (λ _.
                                                            case_scan_map-Keeps Q laws lib a.optarg
                                                            r h)
                                                            λ _.
                                                            branch P (a.letter == 68)
                                                            (λ _.
                                                            case_device_info-Keeps Q laws lib
                                                            a.optarg r h)
                                                            λ _.
                                                            branch P (a.letter == 100) (λ _. goes h)
                                                            λ _.
                                                            branch P (a.letter == 118) (λ _. goes h)
                                                            λ _.
                                                            branch P (a.letter == 121) (λ _. goes h)
                                                            λ _.
                                                            branch P
                                                            (a.letter == 86 || a.letter == 78)
                                                            (λ _. goes h)
                                                            λ _.
                                                            branch P (a.letter == 58)
                                                            (λ _.
                                                            case_missing-Keeps Q laws a.optopt r h)
                                                            (λ _. ends)

      pub parse_loop-Keeps :
          (args : List Arg) (r : Run)
          → P r
          → Allows P (parse_loop lib sscanf_lu oathid_len sscanf_mode ndef_len args r)
      unfolding parse_loop
      parse_loop-Keeps [] r h = goes h
      parse_loop-Keeps (a ∷ args) r h = chain P P _ _ (step-Keeps a r h) (parse_loop-Keeps args)
