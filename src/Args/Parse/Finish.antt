-- ===== src/Args/Parse/Finish.antt =====
-- What the end of `args_to_config`, behind its loop, keeps.
use yubikey_personalization.Prelude.{
  ℕ, ◌≡◌, ◌⊎◌, inl, inr, arith, Bool, true, false, Bool-cases, Option-cases, Option, List, bit_and,
  ◌&&◌, not, ◌||◌, ◌==◌,
}
use yubikey_personalization.Pers.Types.{Status, Config, slot_config, slot_config2}
use yubikey_personalization.Pers.Command.{ykp_configure_version}
use yubikey_personalization.Pers.Keys.{
  Libyubikey, ykp_get_supported_key_length, ykp_aes_key_from_raw, ykp_hmac_key_from_raw,
}
use yubikey_personalization.Args.State.{
  Arg, Seen, Outputs, Run, Outcome, proceed, stop, prompt_for_data,
}
use yubikey_personalization.Args.Parse.{
  check_chosen, check_update, program_key, store_raw_key, store_hex_key, random_key, finish,
  first_run, args_to_config,
}
use yubikey_personalization.Args.Parse.Steps.{
  Allows, goes, ends, guard, branch, chain, decode, of_proceed,
}
use yubikey_personalization.Args.Parse.Walk.{Invariant}
use yubikey_personalization.Args.Parse.Loop.{parse_loop-Keeps}

-- The options that aim the configuration.
abbrev pub chosen : Seen → Bool
chosen s =
    s.slot_chosen
    || (s.ndef_seen
        || (s.swap_seen || (s.usb_mode_seen || (s.scan_map_seen || s.device_info_seen))))

unchosen :
    (s : Seen)
    → chosen s ≡ false
    → (not s.slot_chosen
        && (not s.ndef_seen
            && (not s.swap_seen
                && (not s.usb_mode_seen && (not s.scan_map_seen && not s.device_info_seen)))))
      ≡ true
unchosen s none_chosen = ground arith

-- What an update may change: the flags are those of the masks.
abbrev pub Inside : Config → Seen → Type 0
Inside c s =
    (s.update_seen ≡ false)
    ⊎ ((bit_and c.core.tkt_flags 0x3f ≡ c.core.tkt_flags)
        × (bit_and c.core.cfg_flags 0x0c ≡ c.core.cfg_flags)
        × (bit_and c.core.ext_flags 0xff ≡ c.core.ext_flags))

-- Storing a key keeps the property.
abbrev pub Stores : (Config → Seen → Type 0) → Type 0
Stores R =
    (keybuf : List ℕ) (c : Config) (errno : ℕ) (s : Seen)
    → R c s
    → R (ykp_aes_key_from_raw keybuf c errno).1 s × R (ykp_hmac_key_from_raw keybuf c errno).1 s

-- From an invariant of the loop to what holds at the end.
module _ (Q R : Config → Seen → Type 0)
    (enter : (c : Config) (s : Seen) → Q c s → chosen s ≡ true → Inside c s → R c s)
    (stores : Stores R) where
  module _ (lib : Libyubikey) (sscanf_lu : List ℕ → Option ℕ) (oathid_len : ℕ) where
    abbrev Done : Run → Type 0
    Done r = R r.cfg r.seen

    abbrev Chosen : Run → Type 0
    Chosen r = Q r.cfg r.seen × (chosen r.seen ≡ true)

    check_chosen-Chosen :
        (r : Run) → Q r.cfg r.seen → Allows Chosen (check_chosen lib sscanf_lu oathid_len r)
    unfolding check_chosen
    check_chosen-Chosen r h = elim (Bool-cases (chosen r.seen)) [
      | inl e ↦
          branch Chosen
            (not r.seen.slot_chosen
              && (not r.seen.ndef_seen
                  && (not r.seen.swap_seen
                      && (not r.seen.usb_mode_seen
                          && (not r.seen.scan_map_seen && not r.seen.device_info_seen)))))
            (λ _. ends) (λ _. goes (h, e))
      | inr e ↦ rw (unchosen r.seen e) ends
    ]

    check_update-Done : (r : Run) → Chosen r → Allows Done (check_update lib sscanf_lu oathid_len r)
    unfolding check_update
    check_update-Done r (h, e) =
        branch Done (not r.seen.update_seen)
          (λ no_update. goes (enter r.cfg r.seen h e (ground arith)))
          λ _.
            guard Done (not (bit_and r.cfg.core.tkt_flags 0x3f == r.cfg.core.tkt_flags)) r
              λ tkt_fits.
                guard Done (not (bit_and r.cfg.core.cfg_flags 0x0c == r.cfg.core.cfg_flags)) r
                  λ cfg_fits.
                    guard Done (not (bit_and r.cfg.core.ext_flags 0xff == r.cfg.core.ext_flags)) r
                      λ ext_fits. goes (enter r.cfg r.seen h e (ground arith))

    store_raw_key-Done :
        (key_bytes : ℕ) (keybuf : List ℕ) (r : Run)
        → Done r
        → Allows Done (store_raw_key lib sscanf_lu oathid_len key_bytes keybuf r)
    unfolding store_raw_key
    store_raw_key-Done key_bytes keybuf r h =
        branch Done (key_bytes == 20) (λ _. goes (stores keybuf r.cfg r.errno r.seen h).1)
          (λ _. goes (stores keybuf r.cfg r.errno r.seen h).0)

    store_hex_key-Done :
        (aeshash' : List ℕ) (r : Run)
        → Done r
        → Allows Done (store_hex_key lib sscanf_lu oathid_len aeshash' r)
    unfolding store_hex_key
    store_hex_key-Done aeshash' r h =
        decode Done _ r r _
          λ keybuf. store_raw_key-Done (ykp_get_supported_key_length r.cfg) keybuf r h

    program_key-Done :
        (random_places : List (Option (ℕ → ℕ))) (r : Run)
        → Done r
        → Allows Done (program_key lib sscanf_lu oathid_len random_places r)
    unfolding program_key
    program_key-Done random_places r h =
        branch Done
          (not (not r.seen.zap && (r.cfg.command == slot_config || r.cfg.command == slot_config2)))
          (λ _. goes h)
          λ _.
            branch Done (r.keylocation == 2)
              (λ _. elim (Option-cases (prompt_for_data r.lines).0) [
                | inl e ↦ rw e ends
                | inr (key, e) ↦ rw e (
                    store_hex_key-Done key
                      (record r {
                        lines = (prompt_for_data r.lines).1;
                        aeshash = key;
                        keylocation = 1;
                      })
                      h)
              ])
              λ _.
                branch Done (r.keylocation == 0)
                  (λ _.
                    elim (Option-cases (
                      random_key lib sscanf_lu oathid_len random_places
                        (ykp_get_supported_key_length r.cfg))) [
                          | inl e ↦ rw e ends
                          | inr (keybuf, e) ↦
                              rw e
                                (store_raw_key-Done (ykp_get_supported_key_length r.cfg) keybuf r h)
                        ])
                  λ _. store_hex_key-Done r.aeshash r h

    pub finish-Done :
        (random_places : List (Option (ℕ → ℕ))) (r : Run)
        → Q r.cfg r.seen
        → Allows Done (finish lib sscanf_lu oathid_len random_places r)
    unfolding finish
    finish-Done random_places r h =
        finish_steps (check_chosen lib sscanf_lu oathid_len r) (check_chosen-Chosen r h)
      where
        finish_steps :
            (o : Outcome)
            → Allows Chosen o
            → Allows Done (elim o [
              | stop q ↦ stop q
              | proceed q ↦ elim (check_update lib sscanf_lu oathid_len q) [
                | stop p ↦ stop p
                | proceed p ↦ program_key lib sscanf_lu oathid_len random_places p
              ]
            ])
        finish_steps (stop q) h' = ends
        finish_steps (proceed q) (goes h') =
            chain Done Done _ _ (check_update-Done q h') (program_key-Done random_places)

-- What holds of an accepted command line, from an invariant of the loop that holds at the start.
module _ (Q R : Config → Seen → Type 0) (laws : Invariant Q)
    (enter : (c : Config) (s : Seen) → Q c s → chosen s ≡ true → Inside c s → R c s)
    (stores : Stores R) (lib : Libyubikey) (sscanf_lu : List ℕ → Option ℕ)
    (sscanf_mode : List ℕ → List ℕ) (oathid_len ndef_len : ℕ)
    (random_places : List (Option (ℕ → ℕ))) (args : List Arg) (st : Status) (c : Config)
    (outputs : Outputs) (zap : Bool) (exit_code errno : ℕ) (lines : List (Option (List ℕ)))
    (r : Run)
    (accepted : args_to_config lib sscanf_lu sscanf_mode oathid_len ndef_len random_places args st c
        outputs zap exit_code errno lines
      ≡ proceed r) where
  pub args_to_config-Done :
      (let r' = first_run (ykp_configure_version c st) outputs zap exit_code errno lines in
        Q r'.cfg r'.seen)
      → R r.cfg r.seen
  unfolding args_to_config
  args_to_config-Done h =
      of_proceed (λ q. R q.cfg q.seen) _ r
        (chain (λ q. R q.cfg q.seen) (λ q. Q q.cfg q.seen) _ _
          (parse_loop-Keeps Q laws lib sscanf_lu oathid_len sscanf_mode ndef_len args
            (first_run (ykp_configure_version c st) outputs zap exit_code errno lines) h)
          (finish-Done Q R enter stores lib sscanf_lu oathid_len random_places))
        accepted
