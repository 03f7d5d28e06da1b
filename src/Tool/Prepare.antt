-- ===== src/Tool/Prepare.antt =====
-- What the tool does before its question, up to what it writes behind it.
use mathlib.Core.Path.{subst}
use yubikey_personalization.Prelude.{
  ℕ, ◌≡◌, ◌⊎◌, inl, inr, refl, sym, ap, ◌∙◌, Bool, false, Option, none, some, List,
}
use yubikey_personalization.Core.Io.{
  Usb, World, done, Ensures, >>=-Ensures, Ensures-weaken, Ensures-result,
}
use yubikey_personalization.Core.Frame.Parts.{logged}
use yubikey_personalization.Core.Program.Laws.{Written}
use yubikey_personalization.Pers.Types.{Status, Config}
use yubikey_personalization.Pers.Command.Laws.{Supports}
use yubikey_personalization.Pers.Keys.{Libyubikey}
use yubikey_personalization.Args.State.{Arg, Outputs, Run, proceed}
use yubikey_personalization.Args.Parse.{args_to_config}
use yubikey_personalization.Args.Parse.Aim.{SameVersion, args_to_config-Supports}
use yubikey_personalization.Pers.Export.{Encoders}
use yubikey_personalization.Pers.Json.{JsonC}
use yubikey_personalization.Tool.{ask, prepare}
use yubikey_personalization.Tool.Files.{
  goes_on, open_input, opens_output, import_file, files, personalize,
}
use yubikey_personalization.Tool.Laws.{Committed, confirm_and_commit-Committed}
use yubikey_personalization.Tool.Aims.{SameAim, prepare-SameAim}

module _ {Json : Type 0} (json : JsonC Json) (encoders : Encoders) (stdin : List ℕ)
    (fopen_read : List ℕ → Option (List ℕ)) (fopen_write : List ℕ → Bool)
    (fwrite : List ℕ → ℕ) where
  -- Without the options -i and -s the tool goes on with what it has.
  files_unnamed :
      (q : Run) (buf : List ℕ)
      → q.out.infname ≡ none
      → q.out.outfname ≡ none
      → files json encoders stdin fopen_read fopen_write fwrite q buf ≡ goes_on q
  unfolding files open_input opens_output import_file
  files_unnamed q buf i o = rw (i, o) refl

module _ {Dev : Type 0} (usb : Usb Dev) (crc16 : List ℕ → ℕ) (big_endian : Bool) (lib : Libyubikey)
    (sscanf_lu : List ℕ → Option ℕ) (sscanf_mode : List ℕ → List ℕ) (oathid_len ndef_len : ℕ)
    (random_places : List (Option (ℕ → ℕ))) (args : List Arg) (st : Status) (c : Config)
    (outputs : Outputs) (zap : Bool) (exit_code errno : ℕ) (lines : List (Option (List ℕ)))
    (r : Run)
    (accepted : args_to_config lib sscanf_lu sscanf_mode oathid_len ndef_len random_places args st c
        outputs zap exit_code errno lines
      ≡ proceed r) where
  abbrev pub Settled : World (Dev × List (List ℕ)) → Bool → World (Dev × List (List ℕ)) → Type 0
  Settled w b w' =
      (q : Run × Option (List ℕ)) × (v : World (Dev × List (List ℕ))) × (prepare (logged usb) crc16
          big_endian lib st r w
        ≡ done q v)
      × ((w' ≡ v)
          ⊎ (SameVersion st q.0.cfg
              × Supports q.0.cfg.command q.0.cfg
              × ((buf : List ℕ) × Written usb crc16 big_endian q.0.cfg.command buf v w')))

  module _ {Json : Type 0} (json : JsonC Json) (encoders : Encoders) (stdin : List ℕ)
      (fopen_read : List ℕ → Option (List ℕ)) (fopen_write : List ℕ → Bool)
      (fwrite : List ℕ → ℕ) where
    -- With the options of an accepted command line, the tool ends without fault from there on,
    -- whatever the key answers, if neither -i nor -s is given. If it does not fail, then behind what it
    -- does with the token identifier, the access codes and the serial number either nothing was sent, or
    -- what was sent and counted is a frame under a command that the firmware supports.
    pub personalize-Supports :
        (w : World (Dev × List (List ℕ))) (buf : List ℕ)
        → r.out.infname ≡ none
        → r.out.outfname ≡ none
        → Ensures
            (Settled w)
            (λ _. Unit {0})
            (personalize json encoders stdin fopen_read fopen_write fwrite
              (logged usb)
              crc16
              big_endian
              lib
              st
              r
              buf
              w)
    unfolding personalize
    personalize-Supports w buf no_input no_output =
        >>=-Ensures
          (λ q v. (prepare (logged usb) crc16 big_endian lib st r w ≡ done q v) × SameAim r q.0)
          (λ _. Unit {0}) _ (prepare (logged usb) crc16 big_endian lib st r) _ w
          (Ensures-result (λ q _. SameAim r q.0) (λ _. Unit {0}) _
            (prepare-SameAim usb crc16 big_endian lib st r w))
          λ q v h.
            rw
              (files_unnamed json encoders stdin fopen_read fopen_write fwrite q.0 buf
                (ap (λ (o : Outputs). o.infname) h.1.1 ∙ no_input)
                (ap (λ (o : Outputs). o.outfname) h.1.1 ∙ no_output))
              (Ensures-weaken _ (λ _. Unit {0}) (Settled w) (λ _. Unit {0}) _
                (confirm_and_commit-Committed usb crc16 big_endian q.0 q.1 v)
                (λ b w' done'. (q, v, h.0, settled q h.1 b v w' done')) (λ _ _. tt))
      where
        supported :
            (q : Run × Option (List ℕ))
            → SameAim r q.0
            → SameVersion st q.0.cfg × Supports q.0.cfg.command q.0.cfg
        supported q h =
            subst (λ c. SameVersion st c × Supports c.command c) (sym h.0)
              (args_to_config-Supports lib sscanf_lu sscanf_mode oathid_len ndef_len random_places
                args st c outputs zap exit_code errno lines r accepted)

        settled :
            (q : Run × Option (List ℕ))
            → SameAim r q.0
            → (b : Bool) (v w' : World (Dev × List (List ℕ)))
            → ((w' ≡ v) × (b ≡ false) × ((ask q.0.out.autocommit q.0.lines).0 ≡ some false))
              ⊎ Committed usb crc16 big_endian
                  (record (q.0) { lines = (ask q.0.out.autocommit q.0.lines).1 })
                  q.1
                  v
                  b
                  w'
            → (w' ≡ v)
              ⊎ (SameVersion st q.0.cfg
                  × Supports q.0.cfg.command q.0.cfg
                  × ((buf : List ℕ) × Written usb crc16 big_endian q.0.cfg.command buf v w'))
        settled q h b v w' (inl (same, _, _)) = inl same
        settled q h b v w' (inr (inl (same, _))) = inl same
        settled q h b v w' (inr (inr (_, _, (buf, _, written)))) =
            inr ((supported q h).0, (supported q h).1, (buf, written))
