-- ===== src/Chalresp/Laws.antt =====
-- The challenge is never read through the null pointer, and the numbers shown are those of RFC 4226.
use mathlib.Core.Path.{subst}
use yubikey_personalization.Prelude.{
  ℕ, ◌+◌, ◌*◌, ◌%◌, ◌^◌, ◌≤◌, ◌<◌, ◌≡◌, ◌≢◌, ◌⊎◌, inl, inr, refl, ap, ◌∙◌, arith, Bool, true, false,
  not, ◌&&◌, Bool-cases, Option-cases, Option, none, some, List, [], ◌∷◌, bit_or, if◌then◌else◌,
  length, get_or,
}
use yubikey_personalization.Prelude.Bits.{and_low_mask, or_shifted}
use yubikey_personalization.Core.Io.{done, Usb, World, Ensures, >>=-Ensures, Ensures-weaken}
use yubikey_personalization.Core.Frame.Parts.{logged}
use yubikey_personalization.Core.Response.{yk_get_status}
use yubikey_personalization.Core.Program.{yk_challenge_response}
use yubikey_personalization.Core.Program.Laws.{
  get_status-same, Answered, ModeLength, challenge_response-Answered,
}
use yubikey_personalization.Pers.Types.{Status}
use yubikey_personalization.Pers.Keys.{Libyubikey}
use yubikey_personalization.Pers.Export.{Encoders}
use yubikey_personalization.Args.State.{Arg}
use yubikey_personalization.Chalresp.{
  Shown, otp, firmware_answers, check_firmware, answer, Choice, default_choice, choose, choose_all,
  Challenge, no_challenge, null_read, challenge, raw_challenge, decode_challenge, the_challenge,
  bin_code, show_response, response_command, challenge_response,
}

-- The time is a challenge for HMAC only.
abbrev pub TotpIsHmac : Choice → Type 0
TotpIsHmac o = o.totp && not o.hmac ≡ false

abbrev Kept : Option Choice → Type 0
Kept none = Unit {0}
Kept (some o) = TotpIsHmac o

module _ (atoi : List ℕ → ℕ) (open_file : List ℕ → Option (List ℕ)) (stdin : List ℕ) where
  choose-Kept : (a : Arg) (o : Choice) → TotpIsHmac o → Kept (choose atoi open_file stdin a o)
  unfolding choose
  choose-Kept a o h = ground arith

  choose_all-TotpIsHmac :
      (args : List Arg) (o q : Choice)
      → TotpIsHmac o
      → choose_all atoi open_file stdin args o ≡ some q
      → TotpIsHmac q
  unfolding choose_all
  choose_all-TotpIsHmac [] o q h e = ground (arith, h, e)
  choose_all-TotpIsHmac (a ∷ args) o q h e = elim (Option-cases (choose atoi open_file stdin a o)) [
    | inl n ↦ absurd (ground (arith, n, e))
    | inr (p, n) ↦
        choose_all-TotpIsHmac args p q (subst Kept n (choose-Kept a o h)) (rw (n, choose_all) at e)
  ]

raw_challenge_reads :
    (o : Choice) (operand : Option (List ℕ)) (now : ℕ)
    → TotpIsHmac o
    → raw_challenge o operand now ≢ null_read
unfolding raw_challenge
raw_challenge_reads o operand now h = ground arith

the_challenge_reads :
    (lib : Libyubikey) (o : Choice) (operand : Option (List ℕ)) (now : ℕ)
    → TotpIsHmac o
    → the_challenge lib o operand now ≢ null_read
unfolding the_challenge decode_challenge
the_challenge_reads lib o operand now h =
    by_raw (raw_challenge o operand now) (raw_challenge_reads o operand now h)
  where
    by_raw :
        (raw : Challenge)
        → raw ≢ null_read
        → let all : Challenge = elim raw [
          | no_challenge ↦ no_challenge
          | null_read ↦ null_read
          | challenge bytes ↦
              (if o.hex_encoded then decode_challenge lib bytes else challenge bytes)
        ] in
          all ≢ null_read
    by_raw no_challenge ne = ground arith
    by_raw null_read ne = ne
    by_raw (challenge bytes) ne = ground arith

-- With any options that are accepted, with or without an operand and a file, the choice of the
-- challenge does not read the null pointer behind the arguments.
pub choose_all-the_challenge :
    (lib : Libyubikey) (atoi : List ℕ → ℕ) (open_file : List ℕ → Option (List ℕ)) (stdin : List ℕ)
    (args : List Arg) (o : Choice) (operand : Option (List ℕ)) (now : ℕ)
    → choose_all atoi open_file stdin args default_choice ≡ some o
    → the_challenge lib o operand now ≢ null_read
choose_all-the_challenge lib atoi open_file stdin args o operand now accepted =
    the_challenge_reads lib o operand now
      (choose_all-TotpIsHmac atoi open_file stdin args default_choice o refl accepted)

-- The dynamic truncation of RFC 4226: 31 bits with the highest byte first, from the place that the
-- last four bits of the response say.
abbrev pub truncated : List ℕ → ℕ
truncated response =
    let offset = get_or response 19 0 % 16 in
    ((get_or response offset 0 % 128 * 256 + get_or response (offset + 1) 0 % 256) * 256
        + get_or response (offset + 2) 0 % 256)
      * 256
    + get_or response (offset + 3) 0 % 256

four_bytes :
    (a b c d : ℕ)
    → bit_or
        (bit_or (bit_or (a % 2 ^ 7 * 2 ^ 24) (b % 2 ^ 8 * 2 ^ 16)) (c % 2 ^ 8 * 2 ^ 8))
        (d % 2 ^ 8)
      ≡ ((a % 128 * 256 + b % 256) * 256 + c % 256) * 256 + d % 256
four_bytes a b c d =
    let s1 : bit_or (a % 2 ^ 7 * 2 ^ 24) (b % 2 ^ 8 * 2 ^ 16) ≡ (a % 128 * 256 + b % 256) * 2 ^ 16 =
      omega (arith, or_shifted 24 (a % 2 ^ 7) (b % 2 ^ 8 * 2 ^ 16) (omega arith)) in
    let s2 : bit_or ((a % 128 * 256 + b % 256) * 2 ^ 16) (c % 2 ^ 8 * 2 ^ 8)
        ≡ ((a % 128 * 256 + b % 256) * 256 + c % 256) * 2 ^ 8 =
      omega (arith, or_shifted 16 (a % 128 * 256 + b % 256) (c % 2 ^ 8 * 2 ^ 8) (omega arith)) in
    let s3 = or_shifted 8 ((a % 128 * 256 + b % 256) * 256 + c % 256) (d % 2 ^ 8) (omega arith) in
    ap (λ x. bit_or (bit_or x (c % 2 ^ 8 * 2 ^ 8)) (d % 2 ^ 8)) s1
    ∙ ap (λ x. bit_or x (d % 2 ^ 8)) s2
    ∙ s3

bin_code-truncated : (response : List ℕ) → bin_code response ≡ truncated response
unfolding bin_code
bin_code-truncated response =
    let offset = get_or response 19 0 % 2 ^ 4 in
    rw
      (
        and_low_mask 4 (get_or response 19 0),
        and_low_mask 7 (get_or response offset 0),
        and_low_mask 8 (get_or response (offset + 1) 0),
        and_low_mask 8 (get_or response (offset + 2) 0),
        and_low_mask 8 (get_or response (offset + 3) 0),
      )
      (four_bytes (get_or response offset 0) (get_or response (offset + 1) 0)
        (get_or response (offset + 2) 0) (get_or response (offset + 3) 0))

-- With six or eight digits, an HMAC response is shown as the one-time password of RFC 4226 with so
-- many digits.
pub show_response-truncated :
    (lib : Encoders) (digits : ℕ) (response : List ℕ)
    → (digits ≡ 6) ⊎ (digits ≡ 8)
    → show_response lib true digits response ≡ otp digits (truncated response % 10 ^ digits)
unfolding show_response
show_response-truncated lib digits response (inl six) = rw (six, bin_code-truncated response)
show_response-truncated lib digits response (inr eight) = rw (eight, bin_code-truncated response)

module _ {Dev : Type 0} (usb : Usb Dev) (crc16 : List ℕ → ℕ) (big_endian : Bool)
    (lib : Encoders) where
  -- The command and the length of the response that the choice of slot and mode means.
  abbrev pub Asked : Choice → ℕ → ℕ → Type 0
  Asked o yk_cmd n =
      ((o.hmac ≡ true)
        × (n ≡ 20)
        × (((o.slot ≡ 1) × (yk_cmd ≡ 0x30)) ⊎ ((o.slot ≡ 2) × (yk_cmd ≡ 0x38))))
      ⊎ ((o.hmac ≡ false)
          × (n ≡ 16)
          × (((o.slot ≡ 1) × (yk_cmd ≡ 0x20)) ⊎ ((o.slot ≡ 2) × (yk_cmd ≡ 0x28))))

  response_command-Asked :
      (o : Choice) (yk_cmd n : ℕ)
      → response_command o.slot o.hmac ≡ some yk_cmd
      → ModeLength yk_cmd n
      → Asked o yk_cmd n
  unfolding response_command
  response_command-Asked o yk_cmd n e m = ground arith

  abbrev Sent :
      Choice → List ℕ → World (Dev × List (List ℕ)) → Shown → World (Dev × List (List ℕ)) → Type 0
  Sent o bytes v shown w' =
      (yk_cmd n : ℕ) × (response : List ℕ) × Asked o yk_cmd n
      × Answered usb crc16 big_endian yk_cmd bytes (if o.may_block then 0x10000 else 0) 64 n v
          response w'
      × (shown ≡ show_response lib o.hmac o.digits response)

  -- A version of 2.2 or later.
  abbrev pub IsRecent : Status → Type 0
  IsRecent st = (2 < st.version_major) ⊎ ((st.version_major ≡ 2) × (2 ≤ st.version_minor))

  -- A key from version 2.2 on was sent the challenge under a command of the slot and mode, and what
  -- is shown is made of its response.
  abbrev pub Told :
      Choice → List ℕ → World (Dev × List (List ℕ)) → Shown → World (Dev × List (List ℕ)) → Type 0
  Told o bytes w shown w' =
      (st : Status) × (v : World (Dev × List (List ℕ))) × (yk_get_status (logged usb) big_endian w
        ≡ done st v)
      × IsRecent st
      × Sent o bytes v shown w'

  challenge_response-Sent :
      (o : Choice) (bytes : List ℕ) (v : World (Dev × List (List ℕ)))
      → length bytes ≤ 64
      → Ensures
          (Sent o bytes v)
          (λ _. Unit {0})
          (challenge_response (logged usb) crc16 big_endian lib o bytes v)
  unfolding challenge_response
  challenge_response-Sent o bytes v short = elim (Option-cases (response_command o.slot o.hmac)) [
    | inl e ↦ rw (e, challenge_response) tt
    | inr (yk_cmd, e) ↦
        rw (e, challenge_response)
          (>>=-Ensures
            (λ r w'.
              (n : ℕ) × ModeLength yk_cmd n
              × Answered usb crc16 big_endian yk_cmd bytes (if o.may_block then 0x10000 else 0) 64 n
                  v r w')
            (λ _. Unit {0}) _
            (yk_challenge_response (logged usb) crc16 big_endian yk_cmd o.may_block bytes 64) _ v
            (challenge_response-Answered usb crc16 big_endian yk_cmd o.may_block bytes 64 v short
              (omega arith) (omega arith))
            λ r w' h. (yk_cmd, h.0, r, response_command-Asked o yk_cmd h.0 e h.1, h.2, refl))
  ]

  abbrev Recent : World (Dev × List (List ℕ)) → World (Dev × List (List ℕ)) → Type 0
  Recent w v = (st : Status) × (yk_get_status (logged usb) big_endian w ≡ done st v) × IsRecent st

  firmware_answers-IsRecent : (st : Status) → firmware_answers st ≡ true → IsRecent st
  unfolding firmware_answers
  firmware_answers-IsRecent st h = ground arith

  check_firmware-Recent :
      (w : World (Dev × List (List ℕ)))
      → Ensures (λ _ v. Recent w v) (λ _. Unit {0}) (check_firmware (logged usb) crc16 big_endian w)
  unfolding check_firmware
  check_firmware-Recent w =
      >>=-Ensures
        (λ st v. (yk_get_status (logged usb) big_endian w ≡ done st v) × (v.dev.1 ≡ w.dev.1))
        (λ _. Unit {0}) _ (yk_get_status (logged usb) big_endian) _ w
        (get_status-same usb crc16 big_endian w)
        λ st v h. elim (Bool-cases (firmware_answers st)) [
          | inr off ↦ rw off tt
          | inl on ↦ rw on (st, h.0, firmware_answers-IsRecent st on)
        ]

  -- For a challenge of 64 bytes at most, the tool ends without fault, and what it shows is made of
  -- the response of a key from version 2.2 on, which was sent the challenge under the command of the
  -- slot and mode that were chosen. The response was read with the permission to block that was
  -- chosen, and has a right checksum over the 20 bytes of HMAC or the 16 of the Yubico mode.
  pub answer-Told :
      (o : Choice) (bytes : List ℕ) (w : World (Dev × List (List ℕ)))
      → length bytes ≤ 64
      → Ensures
          (Told o bytes w)
          (λ _. Unit {0})
          (answer (logged usb) crc16 big_endian lib o bytes w)
  unfolding answer
  answer-Told o bytes w short =
      >>=-Ensures (λ _ v. Recent w v) (λ _. Unit {0}) (Told o bytes w)
        (check_firmware (logged usb) crc16 big_endian) _ w (check_firmware-Recent w)
        λ _ v recent.
          Ensures-weaken (Sent o bytes v) (λ _. Unit {0}) (Told o bytes w) (λ _. Unit {0}) _
            (challenge_response-Sent o bytes v short)
            (λ _ _ sent. (recent.0, v, recent.1, recent.2, sent)) (λ _ _. tt)
