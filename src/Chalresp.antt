-- ===== src/Chalresp.antt =====
-- ykchalresp.c: the options, the challenge, and what is made of the response. What is printed but the
-- response is left out.
pub mod Laws
use yubikey_personalization.Prelude.{
  ℕ, ◌+◌, ◌*◌, ◌/◌, ◌%◌, ◌^◌, Bool, true, false, not, ◌&&◌, ◌||◌, Option, none, some, List, [], ◌∷◌,
  ◌++◌, codes, str_eq, bit_and, bit_or, ltb, ◌==◌, if◌then◌else◌, length, take, get_or, replicate,
}
use yubikey_personalization.Core.Io.{Usb, Io, ◌>>=◌, ◌>>◌, pure, give_up}
use yubikey_personalization.Core.Response.{yk_get_status}
use yubikey_personalization.Core.Program.{yk_challenge_response}
use yubikey_personalization.Pers.Types.{Status}
use yubikey_personalization.Pers.Keys.{Libyubikey}
use yubikey_personalization.Pers.Export.{Encoders, until_zero}
use yubikey_personalization.Args.State.{Arg}

-- `input` is what the file holds that is open.
pub record Choice : Type 0 where
  pub slot : ℕ
  pub verbose : Bool
  pub hmac : Bool
  pub may_block : Bool
  pub totp : Bool
  pub digits : ℕ
  pub hex_encoded : Bool
  pub input : Option (List ℕ)
  pub key_index : ℕ

abbrev pub default_choice : Choice
default_choice = record {
  slot = 1;
  verbose = false;
  hmac = true;
  may_block = true;
  totp = false;
  digits = 0;
  hex_encoded = false;
  input = none;
  key_index = 0;
}

-- `open_file` is what a file holds, `none` where it does not open; `stdin` what standard input holds.
module _ (atoi : List ℕ → ℕ) (open_file : List ℕ → Option (List ℕ)) (stdin : List ℕ) where
  -- `none` where the tool ends with status zero: `-V`, `-h` and what is not known.
  unfoldable pub choose : Arg → Choice → Option Choice
  choose a o =
      let c = a.letter in
      if c == 49
      then some (record o { slot = 1 })
      else if c == 50
      then some (record o { slot = 2 })
      else if c == 72
      then some (record o { hmac = true })
      else if c == 78
      then some (record o { may_block = false })
      else if c == 116
      then some (record o { totp = true; hmac = true })
      else if c == 54
      then some (record o { digits = 6 })
      else if c == 56
      then some (record o { digits = 8 })
      else if c == 89
      then some (record o { hmac = false; totp = false })
      else if c == 120
      then some (record o { hex_encoded = true })
      else if c == 118
      then some (record o { verbose = true })
      else if c == 105
      then some (record o {
        input = if str_eq a.optarg (codes "-") then some stdin else open_file a.optarg;
      })
      else if c == 110
      then some (record o { key_index = atoi a.optarg })
      else none

  unfoldable pub choose_all : List Arg → Choice → Option Choice
  choose_all [] o = some o
  choose_all (a ∷ args) o = elim (choose a o) [ none ↦ none | some q ↦ choose_all args q ]

-- `t_buf`: the time in steps of 30 seconds, in four bytes with the highest first.
unfoldable pub time_challenge : ℕ → List ℕ
time_challenge now =
    let t_counter = now % 2 ^ 32 / 30 in
    replicate 4 0
    ++ (t_counter / 2 ^ 24 % 256
        ∷ t_counter / 2 ^ 16 % 256
        ∷ t_counter / 2 ^ 8 % 256
        ∷ t_counter % 256
        ∷ [])

-- The challenge, or a refusal, or a read through the null pointer at the end of the arguments.
pub data Challenge : Type 0 where
  no_challenge null_read : Challenge
  challenge : List ℕ → Challenge

-- `operand` is `argv[optind]`, and `now` the time in seconds.
unfoldable pub raw_challenge : Choice → Option (List ℕ) → ℕ → Challenge
raw_challenge o operand now = elim operand [
  | none ↦ elim (o.input) [
    | none ↦
        (if not o.totp
          then no_challenge
          else if o.hmac
          then challenge (time_challenge now)
          else null_read)
    | some bytes ↦
        (if o.totp && o.hmac
          then challenge (time_challenge now)
          else if length bytes == 0
          then no_challenge
          else challenge (take 64 bytes))
  ]
  | some text ↦ elim (o.input) [
    | none ↦ (if o.totp && o.hmac then challenge (time_challenge now) else challenge text)
    | some bytes ↦
        (if o.totp
          then no_challenge
          else if length bytes == 0
          then no_challenge
          else challenge (take 64 bytes))
  ]
]

module _ (lib : Libyubikey) where
  -- The library reads a text up to its first zero.
  unfoldable pub decode_challenge : List ℕ → Challenge
  decode_challenge bytes =
      if ltb 128 (length bytes)
      then no_challenge
      else if not (length bytes % 2 == 0)
      then no_challenge
      else if lib.hex_p (until_zero bytes)
      then challenge (take (length bytes / 2) (lib.hex_decode (until_zero bytes) ++ replicate 64 0))
      else no_challenge

  unfoldable pub the_challenge : Choice → Option (List ℕ) → ℕ → Challenge
  the_challenge o operand now = elim (raw_challenge o operand now) [
    | no_challenge ↦ no_challenge
    | null_read ↦ null_read
    | challenge bytes ↦ (if o.hex_encoded then decode_challenge bytes else challenge bytes)
  ]

-- Version 2.2 or later.
unfoldable pub firmware_answers : Status → Bool
firmware_answers st =
    not (ltb st.version_major 2 || (st.version_major == 2 && ltb st.version_minor 2))

-- A number printed with so many digits at least, or a text.
pub data Shown : Type 0 where
  otp : ℕ → ℕ → Shown
  encoded : List ℕ → Shown

unfoldable pub bin_code : List ℕ → ℕ
bin_code response =
    let offset = bit_and (get_or response 19 0) 0xf in
    bit_or
      (bit_or
        (bit_or (bit_and (get_or response offset 0) 0x7f * 2 ^ 24)
          (bit_and (get_or response (offset + 1) 0) 0xff * 2 ^ 16))
        (bit_and (get_or response (offset + 2) 0) 0xff * 2 ^ 8))
      (bit_and (get_or response (offset + 3) 0) 0xff)

unfoldable pub show_response : Encoders → Bool → ℕ → List ℕ → Shown
unfolding bin_code
show_response lib hmac digits response =
    if not (digits == 0) && hmac
    then (if digits == 8
        then otp 8 (bin_code response % 100000000)
        else otp 6 (bin_code response % 1000000))
    else if hmac
    then encoded (lib.hex_encode (take 20 response))
    else encoded (lib.modhex_encode (take 16 response))

-- SLOT_CHAL_HMAC1 and so on; `none` for another slot.
unfoldable pub response_command : ℕ → Bool → Option ℕ
response_command slot hmac =
    if slot == 1
    then some (if hmac then 0x30 else 0x20)
    else if slot == 2
    then some (if hmac then 0x38 else 0x28)
    else none

module _ {Dev : Type 0} (usb : Usb Dev) (crc16 : List ℕ → ℕ) (big_endian : Bool) where
  unfoldable pub check_firmware : Io Dev (Unit {0})
  check_firmware = do
    st ← yk_get_status usb big_endian
    elim (firmware_answers st) [ true ↦ pure tt | false ↦ give_up ]

  -- The result is what is printed.
  unfoldable pub challenge_response : Encoders → Choice → List ℕ → Io Dev Shown
  challenge_response lib o bytes = elim (response_command o.slot o.hmac) [
    | none ↦ give_up
    | some yk_cmd ↦ (do
      response ← yk_challenge_response usb crc16 big_endian yk_cmd o.may_block bytes 64
      pure (show_response lib o.hmac o.digits response))
  ]

  unfoldable pub answer : Encoders → Choice → List ℕ → Io Dev Shown
  answer lib o bytes = do check_firmware; challenge_response lib o bytes
