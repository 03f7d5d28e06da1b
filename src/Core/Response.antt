-- ===== src/Core/Response.antt =====
-- ykcore/ykcore.c: reading the status block (`yk_read_from_key`, `yk_get_status`) and reading a
-- response of several reports (`yk_read_response_from_key`).
pub mod Laws
use yubikey_personalization.Prelude.{
  ℕ, zero, suc, ◌+◌, ◌-◌, ◌%◌, ◌^◌, Bool, true, false, not, List, [], ◌∷◌, ◌++◌, bit_and, ltb, leb,
  ◌==◌, if◌then◌else◌, length, take, drop, replicate, get_or,
}
use yubikey_personalization.Core.Io.{
  Usb, Io, stuck, ◌>>=◌, ◌>>◌, pure, fail, give_up, out_of_bounds, ignore, _ykusb_read,
  yk_ewrongsiz, yk_echecksum, resp_pending_flag,
}
use yubikey_personalization.Core.Wait.{status_byte, yk_wait_for_key_status, yk_force_key_update}
use yubikey_personalization.Core.Frame.{yk_endian_swap_16, load_16}
use yubikey_personalization.Pers.Types.{Status}

abbrev pub u32 : ℕ → ℕ
u32 n = n % 2 ^ 32

-- `memcpy(buf + at, bytes, …)`; a copy beyond the end of the buffer is a fault.
abbrev pub copy_at : {Dev : Type 0} → List ℕ → ℕ → List ℕ → Io Dev (List ℕ)
copy_at buf at bytes =
    if leb (at + length bytes) (length buf)
    then pure (take at buf ++ (bytes ++ drop (at + length bytes) buf))
    else out_of_bounds

-- The size of a response of known length with its checksum, in whole reports of seven bytes.
abbrev pub whole_reports : ℕ → ℕ
whole_reports n = if not (n % 7 == 0) then u32 (n + (7 - n % 7)) else n

module _ {Dev : Type 0} (usb : Usb Dev) where
  -- The first byte of the report is left out.
  unfoldable pub yk_read_from_key : ℕ → Io Dev (List ℕ)
  yk_read_from_key bufsize =
      if ltb (8 - 1) bufsize
      then fail yk_ewrongsiz
      else (do data' ← _ykusb_read usb; pure (take bufsize (drop 1 data')))

  -- The six bytes of `struct status_st`.
  unfoldable pub yk_get_status : Bool → Io Dev Status
  unfolding yk_read_from_key yk_endian_swap_16
  yk_get_status big_endian = do
    b ← yk_read_from_key 6
    pure (record {
      version_major = get_or b 0 0;
      version_minor = get_or b 1 0;
      version_build = get_or b 2 0;
      pgm_seq = get_or b 3 0;
      touch_level = yk_endian_swap_16 big_endian (load_16 big_endian (get_or b 4 0) (get_or b 5 0));
    })

  module _ (crc16 : List ℕ → ℕ) (bufsize : ℕ) where
    -- What is done once the key has reset its sequence number: the checks, where the size of the
    -- response is known, and the end.
    unfoldable pub check_response : ℕ → List ℕ → ℕ → Io Dev (List ℕ × ℕ)
    unfolding yk_force_key_update
    check_response expect_bytes buf bytes_read =
        let end' : Io Dev (List ℕ × ℕ) =
          ignore (yk_force_key_update usb) >> pure (buf, bytes_read) in
        if not (ltb 0 expect_bytes)
        then end'
        else (let n = u32 (expect_bytes + 2) in
            if ltb (length buf) n
            then out_of_bounds
            else if not (crc16 (take n buf) == 0xf0b8)
            then fail yk_echecksum
            else if not (bytes_read == whole_reports n)
            then fail yk_ewrongsiz
            else end')

    -- The loop. Each round but the last adds seven bytes, so `bufsize` rounds are enough.
    unfoldable pub response_loop : ℕ → ℕ → List ℕ → ℕ → Io Dev (List ℕ × ℕ)
    unfolding check_response
    response_loop zero expect_bytes buf bytes_read = λ w. stuck
    response_loop (suc fuel) expect_bytes buf bytes_read =
        elim (leb (u32 (bytes_read + 8)) bufsize) [
          | false ↦ ignore (yk_force_key_update usb) >> fail yk_ewrongsiz
          | true ↦ (do
            data' ← _ykusb_read usb
            elim (bit_and (status_byte data') resp_pending_flag == 0) [
              | true ↦ ignore (yk_force_key_update usb) >> give_up
              | false ↦ elim (bit_and (status_byte data') 31 == 0) [
                | true ↦ check_response expect_bytes buf bytes_read
                | false ↦ (do
                  buf' ← copy_at buf bytes_read (take 7 data')
                  response_loop fuel expect_bytes buf' (u32 (bytes_read + 7)))
              ]
            ])
        ]

    -- The result is the buffer, zeroed at first, and `*bytes_read`. What they hold after a failure
    -- is not modelled.
    unfoldable pub yk_read_response_from_key : ℕ → ℕ → Io Dev (List ℕ × ℕ)
    unfolding response_loop
    yk_read_response_from_key flags expect_bytes = do
      data' ← yk_wait_for_key_status usb flags true resp_pending_flag 1000
      buf ← copy_at (replicate bufsize 0) 0 (take 7 data')
      response_loop (bufsize + 1) expect_bytes buf 7
