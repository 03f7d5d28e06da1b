-- ===== src/Tests/Core.antt =====
-- Runs of ykcore/ykcore.c against a scripted key, and its theorems at such a key.
use yubikey_personalization.Prelude.{
  zero, suc, ◌-◌, ◌<◌, ◌⊎◌, inl, inr, ◌++◌, ◌==◌, if◌then◌else◌, bit_and, ℕ, ◌+◌, ◌%◌, ◌*◌, ◌/◌,
  ◌^◌, ◌≤◌, ◌≡◌, true, false, Option, none, some, List, [], ◌∷◌, arith, refl, length, replicate,
  get_or, take, drop,
}
use yubikey_personalization.Core.Io.{
  fill_report, Usb, World, Reply, report, no_report, Res, done, Ensures,
}
use yubikey_personalization.Core.Wait.{status_byte, yk_wait_for_key_status, wait_loop}
use yubikey_personalization.Core.Wait.Laws.{Ready, GaveUp, wait_for_key_status-Ensures}
use yubikey_personalization.Core.Wait.Time.{clocked, InTime, wait_for_key_status_time}
use yubikey_personalization.Core.Frame.{yk_write_to_key, send_parts}
use yubikey_personalization.Core.Frame.Live.{Responsive, write_to_key-taken}
use yubikey_personalization.Core.Frame.Laws.{SentFrame, write_to_key-Received}
use yubikey_personalization.Core.Frame.Parts.{logged, wire}
use yubikey_personalization.Core.Response.{yk_read_response_from_key}
use yubikey_personalization.Core.Response.Laws.{Intact, read_response-Intact}
use yubikey_personalization.Core.Program.{
  Bus, _yk_write, yk_challenge_response, yk_get_serial, yk_get_capabilities, command_buffer,
  config_body,
}
use yubikey_personalization.Core.Program.Laws.{
  Written, Answered, ModeLength, _yk_write-Counted, challenge_response-Answered,
  get_serial-Answered, get_capabilities-Answered, command_buffer_intact,
}
use yubikey_personalization.Pers.Command.{default_config2}

-- A key that gives the reports of a script, and takes every write.
abbrev pub scripted : Usb (List (List ℕ))
scripted = record {
  read = λ s. elim s as (λ _. Reply × List (List ℕ)) [
    | [] ↦ (no_report 1, [])
    | r ∷ rs ↦ (report r, rs)
  ];
  write = λ bytes s. (none, s);
  sleep = λ ms s. s;
}

-- A checksum that finds every block intact.
abbrev pub any_crc : List ℕ → ℕ
any_crc bytes = 0xf0b8

abbrev idle : List ℕ
idle = replicate 8 0

-- A key that is ready for the four reports of an empty frame, then gives four bytes and ends.
abbrev script : List (List ℕ)
script =
    idle
    ∷ idle
    ∷ idle
    ∷ (1 ∷ 2 ∷ 3 ∷ 4 ∷ 9 ∷ 9 ∷ 0 ∷ 0xc0 ∷ [])
    ∷ (0 ∷ 0 ∷ 0 ∷ 0 ∷ 0 ∷ 0 ∷ 0 ∷ 0x40 ∷ [])
    ∷ []

abbrev pub start : World (List (List ℕ))
start = record { dev = script; errno = 0 }

abbrev pub start_log : World (List (List ℕ) × List (List ℕ))
start_log = record { dev = (script, []); errno = 0 }

abbrev start_clock : World (List (List ℕ) × ℕ)
start_clock = record { dev = (script, 0); errno = 0 }

abbrev value : {Dev A : Type 0} → Res Dev A → Option A
value (done a w) = some a
value _ = none

wait_for_key_status-Ensures_example :
    Ensures
      (Ready scripted 0 false 0x80)
      (GaveUp scripted 0 false 0x80)
      (yk_wait_for_key_status scripted 0 false 0x80 1150 start)
wait_for_key_status-Ensures_example =
    wait_for_key_status-Ensures scripted 0 false 0x80 1150 start (omega arith)

wait_for_key_status_time_example :
    Ensures
      (λ _ w'. InTime scripted 0 false 0x80 1150 start_clock w')
      (λ w'. InTime scripted 0 false 0x80 1150 start_clock w')
      (yk_wait_for_key_status (clocked scripted) 0 false 0x80 1150 start_clock)
wait_for_key_status_time_example =
    wait_for_key_status_time scripted 0 false 0x80 1150 start_clock (omega arith)

write_to_key-Received_example :
    Ensures
      (λ _ w'. SentFrame scripted [] (wire any_crc 0x10 (5 ∷ 6 ∷ [])) w')
      (λ _. Unit {0})
      (yk_write_to_key (logged scripted) any_crc true 0x10 (5 ∷ 6 ∷ []) start_log)
write_to_key-Received_example =
    write_to_key-Received scripted any_crc true 0x10 (5 ∷ 6 ∷ []) start_log (omega arith)

read_response-Intact_example :
    Ensures
      (λ r _. Intact scripted any_crc 22 20 r)
      (λ _. Unit {0})
      (yk_read_response_from_key scripted any_crc 22 0 20 start)
read_response-Intact_example =
    read_response-Intact scripted any_crc 22 20 0 start (omega arith) (omega arith) (omega arith)

_yk_write-Counted_example :
    Ensures
      (λ _ w'. Written scripted any_crc true 1 (5 ∷ 6 ∷ []) start_log w')
      (λ _. Unit {0})
      (_yk_write (logged scripted) any_crc true 1 (5 ∷ 6 ∷ []) start_log)
_yk_write-Counted_example =
    _yk_write-Counted scripted any_crc true 1 (5 ∷ 6 ∷ []) start_log (omega arith)

challenge_response-Answered_example :
    Ensures
      (λ r w'.
        (n : ℕ) × ModeLength 0x30 n
        × Answered scripted any_crc true 0x30 (5 ∷ 6 ∷ []) 0 64 n start_log r w')
      (λ _. Unit {0})
      (yk_challenge_response (logged scripted) any_crc true 0x30 false (5 ∷ 6 ∷ []) 64 start_log)
challenge_response-Answered_example =
    challenge_response-Answered scripted any_crc true 0x30 false (5 ∷ 6 ∷ []) 64 start_log
      (omega arith) (omega arith) (omega arith)

get_serial-Answered_example :
    Ensures
      (λ serial w'.
        (r : List ℕ) × (serial
          ≡ (((get_or r 0 0 * 256 + get_or r 1 0) * 256 + get_or r 2 0) * 256 + get_or r 3 0)
            % 2 ^ 32)
        × Answered scripted any_crc true 0x10 [] 0 16 4 start_log r w')
      (λ _. Unit {0})
      (yk_get_serial (logged scripted) any_crc true 0 start_log)
get_serial-Answered_example = get_serial-Answered scripted any_crc true 0 start_log

get_capabilities-Answered_example :
    Ensures
      (λ r w'.
        (r.1 ≡ get_or r.0 0 0 + 1)
        × (r.1 ≤ length r.0)
        × Answered scripted any_crc true 0x13 [] 0 16 0 start_log r.0 w')
      (λ _. Unit {0})
      (yk_get_capabilities (logged scripted) any_crc true 0 16 start_log)
get_capabilities-Answered_example =
    get_capabilities-Answered scripted any_crc true 0 16 start_log (omega arith) (omega arith)

command_buffer_intact_example :
    (command_buffer any_crc true (some default_config2) (some (replicate 6 1))
      ≡ config_body default_config2
        ++ ((0xffff - any_crc (config_body default_config2) % 2 ^ 16) % 256
            ∷ (0xffff - any_crc (config_body default_config2) % 2 ^ 16) / 256
            ∷ replicate 6 1))
    × (length (command_buffer any_crc true (some default_config2) (some (replicate 6 1))) ≡ 58)
    × (any_crc (take 52 (command_buffer any_crc true (some default_config2) (some (replicate 6 1))))
        ≡ 0xf0b8)
    × (drop 52 (command_buffer any_crc true (some default_config2) (some (replicate 6 1)))
        ≡ replicate 6 1)
command_buffer_intact_example =
    command_buffer_intact any_crc true default_config2 (replicate 6 1) refl refl (λ _. refl)

-- The serial number of the script.
serial_of_script : value (yk_get_serial scripted any_crc false 0 start) ≡ some 0x01020304
unfolding yk_get_serial send_parts yk_wait_for_key_status wait_loop
serial_of_script = refl

-- A backend that opens and closes every device.
abbrev any_bus : Bus (List (List ℕ))
any_bus = record {
  open_device = λ vendor products index w. done tt w;
  close_device = λ w. done tt w;
}

-- A key that is busy for ten reads behind every report.
abbrev slow_key : Usb ℕ
slow_key = record {
  read = λ d. (report (replicate 7 0 ++ ((if d == 0 then 0 else 0x80) ∷ [])), d - 1);
  write = λ bytes d. (none, 10);
  sleep = λ ms d. d;
}

slow_key-reads :
    (d : ℕ)
    → (bytes : List ℕ) × ((slow_key.read d).0 ≡ report bytes)
      × ((slow_key.read d).1 ≡ d - 1)
      × (bit_and (status_byte (fill_report bytes)) 0x20 ≡ 0)
      × ((0 < d) ⊎ (bit_and (status_byte (fill_report bytes)) 0x80 ≡ 0))
slow_key-reads zero = (idle, refl, refl, refl, inr refl)
slow_key-reads (suc d) =
    (replicate 7 0 ++ (0x80 ∷ []), ground arith, ground arith, refl, inl (omega arith))

slow_key-Responsive : Responsive slow_key
slow_key-Responsive = record {
  busy = λ d. d;
  reads = slow_key-reads;
  sleeps = λ ms d. refl;
  writes = λ bytes d. (refl, omega arith);
}

write_to_key-taken_example :
    (w' : World ℕ) × (yk_write_to_key slow_key any_crc true 0x10
        (5 ∷ [])
        (record { dev = 10; errno = 0 })
      ≡ done tt w')
unfolding slow_key-Responsive
write_to_key-taken_example =
    write_to_key-taken slow_key slow_key-Responsive any_crc true 0x10 (5 ∷ [])
      (record { dev = 10; errno = 0 }) (omega arith) (omega arith)
