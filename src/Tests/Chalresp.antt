-- ===== src/Tests/Chalresp.antt =====
-- The theorems on challenges and responses at concrete inputs.
use yubikey_personalization.Prelude.{
  ℕ, ◌%◌, ◌^◌, ◌≡◌, ◌≢◌, inl, refl, true, none, some, List, [], ◌∷◌, arith, replicate,
}
use yubikey_personalization.Core.Io.{Ensures}
use yubikey_personalization.Core.Frame.Parts.{logged}
use yubikey_personalization.Args.State.{Arg}
use yubikey_personalization.Chalresp.{
  Choice, default_choice, raw_challenge, time_challenge, choose, bin_code, the_challenge,
  choose_all, challenge, null_read, otp, show_response, answer,
}
use yubikey_personalization.Chalresp.Laws.{
  choose_all-the_challenge, truncated, show_response-truncated, Told, answer-Told,
}
use yubikey_personalization.Tests.Core.{scripted, any_crc, start_log}
use yubikey_personalization.Tests.Keys.{zeros_lib}
use yubikey_personalization.Tests.Pers.{zero_digits}

-- `-t -8 -2`.
abbrev totp_args : List Arg
totp_args =
    record { letter = 116; optarg = []; optopt = 0 }
    ∷ record { letter = 56; optarg = []; optopt = 0 }
    ∷ record { letter = 50; optarg = []; optopt = 0 }
    ∷ []

abbrev totp_choice : Choice
totp_choice = record default_choice { slot = 2; totp = true; digits = 8 }

totp_run :
    the_challenge zeros_lib totp_choice none 59 ≡ challenge (0 ∷ 0 ∷ 0 ∷ 0 ∷ 0 ∷ 0 ∷ 0 ∷ 1 ∷ [])
unfolding the_challenge raw_challenge time_challenge
totp_run = refl

totp_accepted : choose_all (λ s. 0) (λ s. none) [] totp_args default_choice ≡ some totp_choice
unfolding choose_all choose
totp_accepted = refl

choose_all-the_challenge_example : the_challenge zeros_lib totp_choice none 59 ≢ null_read
choose_all-the_challenge_example =
    choose_all-the_challenge zeros_lib (λ s. 0) (λ s. none) [] totp_args totp_choice none 59
      totp_accepted

-- The first response of the test values of RFC 4226.
abbrev rfc_response : List ℕ
rfc_response =
    0xcc ∷ 0x93 ∷ 0xcf ∷ 0x18 ∷ 0x50 ∷ 0x8d ∷ 0x94 ∷ 0x93 ∷ 0x4c ∷ 0x64 ∷ 0xb6 ∷ 0x5d ∷ 0x8b ∷ 0xa7
    ∷ 0x66 ∷ 0x7f ∷ 0xb7 ∷ 0xcd ∷ 0xe4 ∷ 0xb0 ∷ []

rfc_run : show_response zero_digits true 6 rfc_response ≡ otp 6 755224
unfolding show_response bin_code
rfc_run = refl

show_response-truncated_example :
    show_response zero_digits true 6 rfc_response ≡ otp 6 (truncated rfc_response % 10 ^ 6)
show_response-truncated_example = show_response-truncated zero_digits 6 rfc_response (inl refl)

answer-Told_example :
    Ensures
      (Told scripted any_crc true zero_digits totp_choice (replicate 8 1) start_log)
      (λ _. Unit {0})
      (answer (logged scripted) any_crc true zero_digits totp_choice (replicate 8 1) start_log)
answer-Told_example =
    answer-Told scripted any_crc true zero_digits totp_choice (replicate 8 1) start_log
      (omega arith)
