-- ===== src/Args/Parse/Update.antt =====
-- The flags of an accepted command line that updates a configuration.
use Prim.{Unit, tt}
use yubikey_personalization.Prelude.{ℕ, ◌≡◌, Bool, Option, List}
use yubikey_personalization.Pers.Types.{Status, Config}
use yubikey_personalization.Pers.Keys.{Libyubikey, ykp_aes_key_from_raw, ykp_hmac_key_from_raw}
use yubikey_personalization.Args.State.{Arg, Outputs, Run, proceed}
use yubikey_personalization.Args.Parse.{args_to_config}
use yubikey_personalization.Args.Parse.Walk.{Invariant}
use yubikey_personalization.Args.Parse.Finish.{Inside, Stores, args_to_config-Done}

Anything-Invariant : Invariant (λ c s. Unit)
Anything-Invariant = record {
  setter = λ f c errno s steady h. h;
  update = λ c s _ _ _ h. h;
  mode = λ c s h. h;
  option = λ c s h. h;
  slot = λ command c s _ h supports. h;
  swap = λ c s _ h supports. h;
  zapped = λ c s _ h. h;
  ndef = λ command c s _ h supports. h;
  usb_mode = λ command c s _ h supports. h;
  scan_map = λ command c s _ h supports. h;
  no_scan_map = λ command c s _ h supports. h;
  device_info = λ command c s _ h supports. h;
}

Inside-stores : Stores Inside
unfolding ykp_aes_key_from_raw ykp_hmac_key_from_raw
Inside-stores keybuf c errno s h = (h, h)

module _ (lib : Libyubikey) (sscanf_lu : List ℕ → Option ℕ) (sscanf_mode : List ℕ → List ℕ)
    (oathid_len ndef_len : ℕ) (random_places : List (Option (ℕ → ℕ))) (args : List Arg)
    (st : Status) (c : Config) (outputs : Outputs) (zap : Bool) (exit_code errno : ℕ)
    (lines : List (Option (List ℕ))) (r : Run)
    (accepted : args_to_config lib sscanf_lu sscanf_mode oathid_len ndef_len random_places args st c
        outputs zap exit_code errno lines
      ≡ proceed r) where
  -- On an accepted command line with `-u` the flags of each of the three bytes lie inside the mask
  -- of the flags that an update may change.
  pub args_to_config-Inside : Inside r.cfg r.seen
  args_to_config-Inside =
      args_to_config-Done (λ c s. Unit) Inside Anything-Invariant (λ c s _ _ inside. inside)
        Inside-stores lib sscanf_lu sscanf_mode oathid_len ndef_len random_places args st c outputs
        zap exit_code errno lines r accepted tt
