-- ===== src/Args/Parse/Walk.antt =====
-- How an invariant of the loop of `args_to_config` is kept by each of its cases.
use mathlib.Core.Path.{subst₂}
use yubikey_personalization.Prelude.{
  ℕ, ◌≡◌, inl, inr, refl, ap, sym, ◌∙◌, arith, Bool, true, false, Option-cases, List, [], ◌∷◌,
  codes, str_eq, ◌==◌, if◌then◌else◌,
}
use yubikey_personalization.Pers.Types.{Config, Call, slot_swap}
use yubikey_personalization.Pers.Command.{ykp_configure_command}
use yubikey_personalization.Pers.Command.Laws.{
  Supports, configure_command-Supports, configure_command_effect,
}
use yubikey_personalization.Pers.Flags.{
  append_cr, static_ticket, strong_pw1, strong_pw2, man_update, allow_update, write_tktflag,
  write_cfgflag, write_extflag,
}
use yubikey_personalization.Pers.Keys.{Libyubikey}
use yubikey_personalization.Args.State.{Seen, Run, prompt_for_data, with_seen, with_out}
use yubikey_personalization.Args.Options.{
  rejects_x, rejects_z, rejects_n, rejects_m, rejects_scan_map, rejects_device_info,
  rejects_no_scan_map, is_dash, called, configure, slot_defaults, case_u, case_slot, case_x, case_z,
  case_f, case_a, prompt_access, case_c, case_n, case_m, case_scan_map, case_device_info,
  case_missing,
}
use yubikey_personalization.Args.Parse.{checked}
use yubikey_personalization.Args.Parse.Steps.{Allows, goes, ends, guard, branch, decode}
use yubikey_personalization.Args.Parse.Steady.{
  Steady, write_tktflag-Steady, write_cfgflag-Steady, write_extflag-Steady,
}

-- An invariant of the loop: a property of the configuration and of the options seen that each
-- option which changes them keeps, given what it checks and that its command is supported.
pub record Invariant (Q : Config → Seen → Type 0) : Type 0 where
  pub setter : (f : Call) (c : Config) (errno : ℕ) (s : Seen) → Steady f → Q c s → Q (f c errno).1 s
  pub update :
      (c : Config) (s : Seen)
      → s.slot_chosen ≡ false
      → s.swap_seen ≡ false
      → s.ndef_seen ≡ false
      → Q c s
      → Q c (record s { update_seen = true })
  pub mode :
      (c : Config) (s : Seen) → Q c s → Q c (record s { mode_chosen = true; option_seen = true })
  pub option : (c : Config) (s : Seen) → Q c s → Q c (record s { option_seen = true })
  pub slot :
      (command : ℕ) (c : Config) (s : Seen)
      → s.swap_seen ≡ false
      → Q c s
      → Supports command c
      → Q (record c { command = command }) (record s { slot_chosen = true })
  pub swap :
      (c : Config) (s : Seen)
      → rejects_x s ≡ false
      → Q c s
      → Supports slot_swap c
      → Q (record c { command = slot_swap }) (record s { swap_seen = true })
  pub zapped : (c : Config) (s : Seen) → rejects_z s ≡ false → Q c s → Q c (record s { zap = true })
  pub ndef :
      (command : ℕ) (c : Config) (s : Seen)
      → rejects_n s ≡ false
      → Q c s
      → Supports command c
      → Q (record c { command = command }) (record s { ndef_seen = true })
  pub usb_mode :
      (command : ℕ) (c : Config) (s : Seen)
      → rejects_m s ≡ false
      → Q c s
      → Supports command c
      → Q (record c { command = command }) (record s { usb_mode_seen = true })
  pub scan_map :
      (command : ℕ) (c : Config) (s : Seen)
      → rejects_scan_map s ≡ false
      → Q c s
      → Supports command c
      → Q (record c { command = command }) (record s { scan_map_seen = true })
  pub no_scan_map :
      (command : ℕ) (c : Config) (s : Seen)
      → rejects_no_scan_map s ≡ false
      → Q c s
      → Supports command c
      → Q (record c { command = command }) (record s { scan_map_seen = true })
  pub device_info :
      (command : ℕ) (c : Config) (s : Seen)
      → rejects_device_info s ≡ false
      → Q c s
      → Supports command c
      → Q (record c { command = command }) (record s { device_info_seen = true })

module _ (Q : Config → Seen → Type 0) (laws : Invariant Q) where
  abbrev pub Keeps : Run → Type 0
  Keeps r = Q r.cfg r.seen

  pub called-Keeps : (f : Call) (r : Run) → Steady f → Keeps r → Keeps (called f r)
  called-Keeps f r = laws.setter f r.cfg r.errno r.seen

  -- A command that is accepted is supported.
  configure-Keeps :
      (command : ℕ) (next : Run → Run) (r : Run) (s : Seen)
      → ((q : Run) → (next q).cfg ≡ q.cfg)
      → ((next (called (ykp_configure_command command) r)).seen ≡ s)
      → (Supports command r.cfg → Q (record r.cfg { command = command }) s)
      → Allows Keeps (configure command next r)
  unfolding configure
  configure-Keeps command next r s same same' law =
      elim (configure_command_effect command r.cfg r.errno) [
        | inl e ↦
            branch Keeps ((ykp_configure_command command r.cfg r.errno).0 == 0) (λ _. ends)
              (λ _. goes (
                subst₂ Q (sym (same _ ∙ ap (λ t. t.1) e)) (sym same')
                  (law ((configure_command-Supports command r.cfg r.errno).0 (ap (λ t. t.0) e)))))
        | inr (e, _, _) ↦ rw e ends
      ]

  pub checked-Keeps : (f : Call) (r : Run) → Steady f → Keeps r → Allows Keeps (checked f r)
  unfolding checked
  checked-Keeps f r steady h =
      branch Keeps ((f r.cfg r.errno).0 == 0) (λ _. ends) (λ _. goes (called-Keeps f r steady h))

  if-Keeps : (b : Bool) (q r : Run) → Keeps q → Keeps r → Keeps (if b then q else r)
  if-Keeps true q r holds_q holds_r = holds_q
  if-Keeps false q r holds_q holds_r = holds_r

  slot_defaults-Keeps : (second : Bool) (r : Run) → Keeps r → Keeps (slot_defaults second r)
  slot_defaults-Keeps second r h =
      if-Keeps r.seen.update_seen (called (write_extflag allow_update true) cr)
        (if second then r4 else cr)
        (called-Keeps (write_extflag allow_update true) cr (write_extflag-Steady _ _) cr_keeps)
        (if-Keeps second r4 cr
          (called-Keeps (write_cfgflag man_update true) r3 (write_cfgflag-Steady _ _) (
            called-Keeps (write_cfgflag strong_pw2 true) r2 (write_cfgflag-Steady _ _) (
              called-Keeps (write_cfgflag strong_pw1 true) r1 (write_cfgflag-Steady _ _) (
                called-Keeps (write_cfgflag static_ticket true) cr (write_cfgflag-Steady _ _)
                  cr_keeps))))
          cr_keeps)
    where
      cr : Run
      cr = called (write_tktflag append_cr true) r

      r1 : Run
      r1 = called (write_cfgflag static_ticket true) cr

      r2 : Run
      r2 = called (write_cfgflag strong_pw1 true) r1

      r3 : Run
      r3 = called (write_cfgflag strong_pw2 true) r2

      r4 : Run
      r4 = called (write_cfgflag man_update true) r3

      cr_keeps : Keeps cr
      cr_keeps = called-Keeps (write_tktflag append_cr true) r (write_tktflag-Steady _ _) h

  slot_defaults-seen : (second : Bool) (r : Run) → (slot_defaults second r).seen ≡ r.seen
  slot_defaults-seen second r = ground arith

  pub case_slot-Keeps : (second : Bool) (r : Run) → Keeps r → Allows Keeps (case_slot second r)
  unfolding case_slot
  case_slot-Keeps second r h = guard Keeps r.seen.slot_chosen r λ _.
      guard Keeps r.seen.option_seen r λ _. guard Keeps r.seen.swap_seen r λ no_swap.
        configure-Keeps _ _ (slot_defaults second r) _ (λ q. refl) refl
          (laws.slot _ (slot_defaults second r).cfg (slot_defaults second r).seen
            (ap (λ s. s.swap_seen) (slot_defaults-seen second r) ∙ no_swap)
            (slot_defaults-Keeps second r h))

  pub case_u-Keeps : (r : Run) → Keeps r → Allows Keeps (case_u r)
  unfolding case_u
  case_u-Keeps r h = guard Keeps r.seen.slot_chosen r λ no_slot.
      guard Keeps r.seen.swap_seen r λ no_swap. guard Keeps r.seen.ndef_seen r λ no_ndef.
        goes {q = with_seen (λ s. record s { update_seen = true }) r}
          (laws.update r.cfg r.seen no_slot no_swap no_ndef h)

  pub case_x-Keeps : (r : Run) → Keeps r → Allows Keeps (case_x r)
  unfolding case_x
  case_x-Keeps r h =
      guard Keeps (rejects_x r.seen) r
        λ fits. configure-Keeps _ _ r _ (λ q. refl) refl (laws.swap r.cfg r.seen fits h)

  pub case_z-Keeps : (r : Run) → Keeps r → Allows Keeps (case_z r)
  unfolding case_z
  case_z-Keeps r h = guard Keeps (rejects_z r.seen) r λ fits.
      goes {q = with_seen (λ s. record s { zap = true }) r} (laws.zapped r.cfg r.seen fits h)

  pub case_f-Keeps : (optarg : List ℕ) (r : Run) → Keeps r → Allows Keeps (case_f optarg r)
  unfolding case_f
  case_f-Keeps optarg r h =
      branch Keeps (str_eq optarg (codes "ycfg")) (λ _. goes h)
        λ _. branch Keeps (str_eq optarg (codes "legacy")) (λ _. goes h) (λ _. ends)

  pub case_a-Keeps : (optarg : List ℕ) (r : Run) → Keeps r → Allows Keeps (case_a optarg r)
  unfolding case_a
  case_a-Keeps optarg r h = branch Keeps (is_dash optarg) (λ _. goes h) (λ _. goes h)

  prompt_access-Keeps : (r : Run) → Keeps r → Allows Keeps (prompt_access r)
  unfolding prompt_access
  prompt_access-Keeps r h = elim (Option-cases (prompt_for_data r.lines).0) [
    | inl e ↦ rw (e, prompt_access) ends
    | inr (code, e) ↦ rw (e, prompt_access) (goes h)
  ]

  pub case_c-Keeps : (optarg : List ℕ) (r : Run) → Keeps r → Allows Keeps (case_c optarg r)
  unfolding case_c
  case_c-Keeps optarg r h =
      branch Keeps (is_dash optarg) (λ _. prompt_access-Keeps r h) (λ _. goes h)

  pub case_n-Keeps :
      (ndef_len : ℕ) (optarg : List ℕ) (r : Run) → Keeps r → Allows Keeps (case_n ndef_len optarg r)
  unfolding case_n
  case_n-Keeps ndef_len optarg r h =
      guard Keeps (rejects_n r.seen)
        (with_out (λ o. record o { ndef_type = if o.ndef_type == 0 then 85 else o.ndef_type }) r)
        λ fits. configure-Keeps _ _ _ _ (λ q. refl) refl (laws.ndef _ r.cfg r.seen fits h)

  pub case_m-Keeps : (matched : List ℕ) (r : Run) → Keeps r → Allows Keeps (case_m matched r)
  unfolding case_m
  case_m-Keeps [] r h = guard Keeps (rejects_m r.seen) r λ _. ends
  case_m-Keeps (mode ∷ more) r h =
      guard Keeps (rejects_m r.seen) r
        λ fits. configure-Keeps _ _ _ _ (λ q. refl) refl (laws.usb_mode _ r.cfg r.seen fits h)

  pub case_scan_map-Keeps :
      (lib : Libyubikey) (optarg : List ℕ) (r : Run)
      → Keeps r
      → Allows Keeps (case_scan_map lib optarg r)
  unfolding case_scan_map
  case_scan_map-Keeps lib optarg r h = guard Keeps (rejects_scan_map r.seen) r λ fits.
      decode Keeps _ r r _
        λ bytes. configure-Keeps _ _ _ _ (λ q. refl) refl (laws.scan_map _ r.cfg r.seen fits h)

  pub case_device_info-Keeps :
      (lib : Libyubikey) (optarg : List ℕ) (r : Run)
      → Keeps r
      → Allows Keeps (case_device_info lib optarg r)
  unfolding case_device_info
  case_device_info-Keeps lib optarg r h = guard Keeps (rejects_device_info r.seen) r λ fits.
      decode Keeps _ r r _
        λ bytes. configure-Keeps _ _ _ _ (λ q. refl) refl (laws.device_info _ r.cfg r.seen fits h)

  pub case_missing-Keeps : (optopt : ℕ) (r : Run) → Keeps r → Allows Keeps (case_missing optopt r)
  unfolding case_missing
  case_missing-Keeps optopt r h =
      branch Keeps (optopt == 83)
        (λ _.
          guard Keeps (rejects_no_scan_map r.seen) r λ fits.
            configure-Keeps _ _ _ _ (λ q. refl) refl (laws.no_scan_map _ r.cfg r.seen fits h))
        λ _.
          branch Keeps (optopt == 97) (λ _. goes h)
            λ _. branch Keeps (optopt == 99) (λ _. prompt_access-Keeps r h) (λ _. ends)
