-- ===== src/Args/Parse/Aim.antt =====
-- The command that an accepted command line is for, against the firmware.
use yubikey_personalization.Prelude.{
  ℕ, ◌≡◌, ◌⊎◌, inl, inr, refl, arith, Bool, true, false, Option, List,
}
use yubikey_personalization.Pers.Types.{Status, Config}
use yubikey_personalization.Pers.Command.{ykp_configure_version}
use yubikey_personalization.Pers.Command.Laws.{Supports}
use yubikey_personalization.Pers.Keys.{Libyubikey}
use yubikey_personalization.Args.State.{Arg, Seen, Outputs, Run, proceed}
use yubikey_personalization.Args.Parse.{args_to_config}
use yubikey_personalization.Args.Parse.Steady.{aes_key_from_raw-Steady, hmac_key_from_raw-Steady}
use yubikey_personalization.Args.Parse.Walk.{Invariant}
use yubikey_personalization.Args.Parse.Finish.{chosen, Inside, Stores, args_to_config-Done}

module _ (st : Status) where
  abbrev pub SameVersion : Config → Type 0
  SameVersion c =
      (c.yk_major_version ≡ st.version_major)
      × (c.yk_minor_version ≡ st.version_minor)
      × (c.yk_build_version ≡ st.version_build)

  abbrev pub Aimed : Config → Seen → Type 0
  Aimed c s = SameVersion c × ((chosen s ≡ false) ⊎ Supports c.command c)

  Aimed-Invariant : Invariant Aimed
  Aimed-Invariant = record {
    setter = λ f c errno s steady h. rw (steady c errno) h;
    update = λ c s _ _ _ h. h;
    mode = λ c s h. h;
    option = λ c s h. h;
    slot = λ command c s _ h supports. (h.0, inr supports);
    swap = λ c s _ h supports. (h.0, inr supports);
    zapped = λ c s _ h. h;
    ndef = λ command c s _ h supports. (h.0, inr supports);
    usb_mode = λ command c s _ h supports. (h.0, inr supports);
    scan_map = λ command c s _ h supports. (h.0, inr supports);
    no_scan_map = λ command c s _ h supports. (h.0, inr supports);
    device_info = λ command c s _ h supports. (h.0, inr supports);
  }

  abbrev Supported : Config → Seen → Type 0
  Supported c s = SameVersion c × Supports c.command c

  Supported-enter :
      (c : Config) (s : Seen) → Aimed c s → chosen s ≡ true → Inside c s → Supported c s
  Supported-enter c s (v, inl e) e' _ = ground arith
  Supported-enter c s (v, inr supports) e' _ = (v, supports)

  Supported-stores : Stores Supported
  Supported-stores keybuf c errno s h = (
    rw (aes_key_from_raw-Steady keybuf c errno) h,
    rw (hmac_key_from_raw-Steady keybuf c errno) h,
  )

module _ (lib : Libyubikey) (sscanf_lu : List ℕ → Option ℕ) (sscanf_mode : List ℕ → List ℕ)
    (oathid_len ndef_len : ℕ) (random_places : List (Option (ℕ → ℕ))) (args : List Arg)
    (st : Status) (c : Config) (outputs : Outputs) (zap : Bool) (exit_code errno : ℕ)
    (lines : List (Option (List ℕ))) (r : Run)
    (accepted : args_to_config lib sscanf_lu sscanf_mode oathid_len ndef_len random_places args st c
        outputs zap exit_code errno lines
      ≡ proceed r) where
  -- What an accepted command line leaves to be written to the key is a command that the key's
  -- firmware supports, under the firmware's own version.
  pub args_to_config-Supports : SameVersion st r.cfg × Supports r.cfg.command r.cfg
  unfolding ykp_configure_version
  args_to_config-Supports =
      args_to_config-Done (Aimed st) (Supported st) (Aimed-Invariant st) (Supported-enter st)
        (Supported-stores st) lib sscanf_lu sscanf_mode oathid_len ndef_len random_places args st c
        outputs zap exit_code errno lines r accepted ((refl, refl, refl), inl refl)
