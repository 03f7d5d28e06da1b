-- ===== src/Core/Wait.antt =====
-- ykcore/ykcore.c: polling the status byte (`yk_wait_for_key_status`) and resetting the read mode
-- (`yk_force_key_update`).
pub mod Laws
pub mod Time
use yubikey_personalization.Prelude.{
  ℕ, zero, suc, ◌+◌, ◌*◌, ◌%◌, ◌^◌, Bool, true, false, not, List, [], ◌∷◌, ◌++◌, bit_and, ltb, ◌==◌,
  if◌then◌else◌, get_or, replicate,
}
use yubikey_personalization.Core.Io.{
  Usb, Io, stuck, ◌>>=◌, ◌>>◌, pure, fail, ignore, _ykusb_read, _ykusb_write, sleep_ms, yk_etimeout,
  yk_ewouldblock, resp_timeout_wait_flag, dummy_report_write, yk_flag_mayblock,
}

-- The status byte is the last of a report.
abbrev pub status_byte : List ℕ → ℕ
status_byte data' = get_or data' 7 0

-- Whether the bits of the mask are all set, or all cleared.
abbrev pub is_ready : Bool → ℕ → ℕ → Bool
is_ready true mask status = bit_and status mask == mask
is_ready false mask status = bit_and status mask == 0

-- What a round of the loop decides from a report: the wait is over, it goes on until `max` in a
-- blocking mode or not, it is aborted, or the key has stopped waiting for its user.
pub data Verdict : Type 0 where
  ready : Verdict
  again : ℕ → Bool → Verdict
  would_block timed_out : Verdict

unfoldable pub judge : ℕ → Bool → ℕ → ℕ → Bool → ℕ → Verdict
judge flags logic_and mask max_time_ms blocking status =
    if is_ready logic_and mask status
    then ready
    else if bit_and status resp_timeout_wait_flag == resp_timeout_wait_flag
    then (if bit_and flags yk_flag_mayblock == yk_flag_mayblock
        then again (if not blocking then (max_time_ms + 256 * 1000) % 2 ^ 32 else max_time_ms) true
        else would_block)
    else if blocking
    then timed_out
    else again max_time_ms false

-- Exponential backoff, up to 500 ms.
abbrev pub back_off : ℕ → ℕ
back_off sleepval = if ltb 500 (sleepval * 2) then 500 else sleepval * 2

module _ {Dev : Type 0} (usb : Usb Dev) where
  -- Also `yk_force_key_update` with its return value.
  unfoldable pub yk_force_key_update : Io Dev (Unit {0})
  unfolding _ykusb_write
  yk_force_key_update = _ykusb_write usb (replicate 7 0 ++ dummy_report_write ∷ [])

  module _ (flags : ℕ) (logic_and : Bool) (mask : ℕ) where
    -- The loop, with `sleepval`, `slept_time`, `max_time_ms` and `blocking`.
    unfoldable pub wait_loop : ℕ → ℕ → ℕ → ℕ → Bool → Io Dev (List ℕ)
    unfolding _ykusb_read sleep_ms judge yk_force_key_update
    wait_loop zero sleepval slept_time max_time_ms blocking w = stuck
    wait_loop (suc fuel) sleepval slept_time max_time_ms blocking w =
        elim (ltb slept_time max_time_ms) [
          | false ↦ fail yk_etimeout w
          | true ↦
              (do
                sleep_ms usb sleepval
                data' ← _ykusb_read usb
                elim (judge flags logic_and mask max_time_ms blocking (status_byte data')) [
                  | ready ↦ pure data'
                  | again max' blocking' ↦
                      wait_loop fuel (back_off sleepval) ((slept_time + sleepval) % 2 ^ 32) max'
                        blocking'
                  | would_block ↦ ignore yk_force_key_update >> fail yk_ewouldblock
                  | timed_out ↦ fail yk_etimeout
                ])
                w
        ]

    -- The time limit is extended once, by 256 s, and every round sleeps 1 ms or more. The report
    -- that ended the wait is what `last_data` holds on success; it is not used on failure.
    unfoldable pub yk_wait_for_key_status : ℕ → Io Dev (List ℕ)
    yk_wait_for_key_status max_time_ms =
        wait_loop (max_time_ms + 256 * 1000 + 1) 1 0 max_time_ms false
