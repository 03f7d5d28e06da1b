-- ===== src/Tests/Tool.antt =====
-- The theorems on the tool at concrete inputs.
use yubikey_personalization.Prelude.{
  ◌≡◌, inl, true, false, refl, some, none, [], codes, replicate, length,
}
use yubikey_personalization.Core.Io.{Ensures, failed}
use yubikey_personalization.Core.Frame.Parts.{logged}
use yubikey_personalization.Args.State.{Run}
use yubikey_personalization.Tool.{commit}
use yubikey_personalization.Tool.Files.{personalize}
use yubikey_personalization.Tool.Laws.{commit_ndef_coded}
use yubikey_personalization.Tool.Prepare.{Settled, personalize-Supports}
use yubikey_personalization.Tests.Core.{scripted, any_crc, start, start_log}
use yubikey_personalization.Tests.Keys.{zeros_lib}
use yubikey_personalization.Tests.Pers.{zero_digits}
use yubikey_personalization.Tests.Json.Docs.{doc_lib}
use yubikey_personalization.Tests.Args.{
  zero_config, status34, empty_outputs, second_slot, second_slot_run, second_slot_accepted,
  second_slot_no_files,
}

-- A URI for slot 1.
abbrev ndef_run : Run
ndef_run = record second_slot_run {
  cfg = record zero_config { command = 8 };
  out = record empty_outputs { ndef_type = 85; ndef_text = codes "https://example.org" };
}

commit_ndef_coded_example :
    commit scripted any_crc true ndef_run (some (replicate 6 1)) start ≡ failed start
commit_ndef_coded_example =
    commit_ndef_coded scripted any_crc true ndef_run (replicate 6 1) start refl (inl refl)

personalize-Supports_example :
    Ensures
      (Settled scripted any_crc true zeros_lib
        (λ s. none)
        (λ s. [])
        128
        128
        []
        second_slot
        status34
        zero_config
        empty_outputs
        false
        0
        0
        []
        second_slot_run
        second_slot_accepted
        start_log)
      (λ _. Unit {0})
      (personalize doc_lib zero_digits []
        (λ s. none)
        (λ s. false)
        length
        (logged scripted)
        any_crc
        true
        zeros_lib
        status34
        second_slot_run
        []
        start_log)
personalize-Supports_example =
    personalize-Supports scripted any_crc true zeros_lib (λ s. none) (λ s. []) 128 128 []
      second_slot status34 zero_config empty_outputs false 0 0 [] second_slot_run
      second_slot_accepted doc_lib zero_digits [] (λ s. none) (λ s. false) length start_log []
      second_slot_no_files.0 second_slot_no_files.1
