-- ===== src/Core/Response/Laws.antt =====
-- What a response that was read amounts to: bounds, checks and the end of the loop.
use yubikey_personalization.Prelude.{
  leb→le, ==_iff, ℕ, zero, suc, ◌+◌, ◌-◌, ◌%◌, ◌^◌, ◌≤◌, ◌<◌, ◌≡◌, ◌⊎◌, true, false, List, [], ◌∷◌,
  ◌++◌, ◌==◌, arith, bit_and, ltb, leb, inl, inr, length, take, drop, replicate, length-append,
  length-take, length-drop, length-replicate, Bool-cases,
}
use yubikey_personalization.Core.Io.{
  Usb, Io, World, Ensures, >>=-Ensures, Ensures-weaken, ignore, ignore-Ensures, _ykusb_read, pure,
  fail, ◌>>◌, give_up,
}
use yubikey_personalization.Core.Wait.{status_byte, yk_wait_for_key_status, yk_force_key_update}
use yubikey_personalization.Core.Wait.Laws.{read-length, write-cases, wait_for_key_status-Ensures}
use yubikey_personalization.Core.Response.{
  u32, copy_at, whole_reports, check_response, response_loop, yk_read_response_from_key,
}

length-copy :
    (buf : List ℕ) (at : ℕ) (bytes : List ℕ)
    → at + length bytes ≤ length buf
    → length (take at buf ++ (bytes ++ drop (at + length bytes) buf)) ≡ length buf
length-copy buf at bytes fits = omega (
  arith,
  length-append (take at buf) (bytes ++ drop (at + length bytes) buf),
  length-append bytes (drop (at + length bytes) buf),
  length-take at buf,
  length-drop (at + length bytes) buf,
)

module _ {Dev : Type 0} where
  -- A copy within the bounds keeps the size of the buffer.
  copy_at-Ensures :
      (buf : List ℕ) (at : ℕ) (bytes : List ℕ) (w : World Dev)
      → at + length bytes ≤ length buf
      → Ensures (λ buf' _. length buf' ≡ length buf) (λ _. Unit {0}) (copy_at buf at bytes w)
  copy_at-Ensures buf at bytes w fits =
      let e : leb (at + length bytes) (length buf) ≡ true = ground arith in
      rw e (length-copy buf at bytes fits)

module _ {Dev : Type 0} (usb : Usb Dev) where
  -- The read mode is reset, whether or not the backend succeeds in that.
  reset-Ensures :
      {A : Type 0} (P : A → World Dev → Type 0) (f : Io Dev A) (w : World Dev)
      → ((w' : World Dev) → Ensures P (λ _. Unit {0}) (f w'))
      → Ensures P (λ _. Unit {0}) ((ignore (yk_force_key_update usb) >> f) w)
  unfolding yk_force_key_update
  reset-Ensures P f w h =
      >>=-Ensures (λ _ _. Unit {0}) (λ _. Unit {0}) P (ignore (yk_force_key_update usb)) _ w
        (ignore-Ensures (λ _ _. Unit {0}) (λ _. Unit {0}) (λ _. Unit {0}) (λ _. Unit {0})
          (yk_force_key_update usb) w (sent w) (λ _ _ _. tt) (λ _ _. tt))
        λ _ w' _. h w'
    where
      sent : (v : World Dev) → Ensures (λ _ _. Unit {0}) (λ _. Unit {0}) (yk_force_key_update usb v)
      sent v = elim (write-cases usb (replicate 7 0 ++ (0x8f ∷ [])) v) [
        | inl r ↦ rw r tt
        | inr (error, r) ↦ rw r tt
      ]

  module _ (crc16 : List ℕ → ℕ) (bufsize expect_bytes : ℕ) where
    -- A response in a buffer of `bufsize` bytes: whole reports of seven bytes, with room for one
    -- report of eight behind them, and where a size is expected, a checksum over that many bytes
    -- and two more, and no report too many or too few.
    abbrev pub Intact : List ℕ × ℕ → Type 0
    Intact (buf, bytes_read) =
        (length buf ≡ bufsize)
        × (bytes_read % 7 ≡ 0)
        × (bytes_read + 8 ≤ bufsize)
        × ((expect_bytes ≡ 0)
            ⊎ ((crc16 (take (expect_bytes + 2) buf) ≡ 0xf0b8)
                × (expect_bytes + 2 ≤ bytes_read)
                × (bytes_read < expect_bytes + 2 + 7)))

    check_response-Ensures :
        (buf : List ℕ) (n : ℕ) (w : World Dev)
        → length buf ≡ bufsize
        → n % 7 ≡ 0
        → n + 8 ≤ bufsize
        → bufsize + 16 < 2 ^ 32
        → expect_bytes + 2 ≤ bufsize
        → Ensures
            (λ r _. Intact r)
            (λ _. Unit {0})
            (check_response usb crc16 bufsize expect_bytes buf n w)
    unfolding check_response
    check_response-Ensures buf n w size whole room small fits =
        let n' : ℕ = expect_bytes + 2 in
        let keep : u32 (expect_bytes + 2) ≡ n' = omega arith in
        let inside : ltb (length buf) n' ≡ false = ground arith in
        rw keep (elim (Bool-cases (ltb 0 expect_bytes)) [
          | inr open' ↦ rw open' (
              reset-Ensures (λ r _. Intact r) (pure (buf, n)) w
                λ _. (size, whole, room, inl (ground arith)))
          | inl known ↦
              rw (known, inside)
                (elim (Bool-cases (crc16 (take n' buf) == 0xf0b8)) [
                  | inr bad ↦ rw bad tt
                  | inl good ↦ rw good (elim (Bool-cases (n == whole_reports n')) [
                    | inr off ↦ rw off tt
                    | inl exact ↦ rw exact (
                        reset-Ensures (λ r _. Intact r) (pure (buf, n)) w
                          λ _. (
                            size,
                            whole,
                            room,
                            inr ((==_iff _ _).0 good, ground arith, ground arith),
                          ))
                  ])
                ])
        ])

    response_loop-Ensures :
        (fuel : ℕ) (buf : List ℕ) (n : ℕ) (w : World Dev)
        → length buf ≡ bufsize
        → n % 7 ≡ 0
        → n ≤ bufsize
        → bufsize + 16 < 2 ^ 32
        → expect_bytes + 2 ≤ bufsize
        → bufsize - n < fuel
        → Ensures
            (λ r _. Intact r)
            (λ _. Unit {0})
            (response_loop usb crc16 bufsize fuel expect_bytes buf n w)
    unfolding response_loop
    response_loop-Ensures zero buf n w size whole below small fits enough = absurd (omega arith)
    response_loop-Ensures (suc fuel) buf n w size whole below small fits enough =
        let keep : u32 (n + 8) ≡ n + 8 = omega arith in
        let step : u32 (n + 7) ≡ n + 7 = omega arith in
        rw (keep, response_loop)
          (elim (Bool-cases (leb (n + 8) bufsize)) [
            | inr full ↦ rw full (reset-Ensures (λ r _. Intact r) (fail 2) w λ _. tt)
            | inl room ↦ rw room (
                >>=-Ensures (λ data' _. length data' ≡ 8) (λ _. Unit {0}) _ (_ykusb_read usb) _ w
                  (read-length usb w)
                  λ data' w' eight. elim (Bool-cases (bit_and (status_byte data') 0x40 == 0)) [
                    | inl quiet ↦ rw quiet (reset-Ensures (λ r _. Intact r) give_up w' λ _. tt)
                    | inr pending ↦
                        rw pending (elim (Bool-cases (bit_and (status_byte data') 31 == 0)) [
                          | inl last ↦ rw last (
                              check_response-Ensures buf n w' size whole (leb→le _ _ room) small
                                fits)
                          | inr more ↦ rw more (
                              >>=-Ensures (λ buf' _. length buf' ≡ length buf) (λ _. Unit {0}) _
                                (copy_at buf n (take 7 data')) _ w'
                                (copy_at-Ensures buf n (take 7 data') w'
                                  (omega (arith, length-take 7 data', leb→le (n + 8) bufsize room)))
                                λ buf' w'' same. rw step (
                                  response_loop-Ensures fuel buf' (n + 7) w'' (omega arith)
                                    (omega arith) (omega (arith, leb→le (n + 8) bufsize room)) small
                                    fits (omega (arith, leb→le (n + 8) bufsize room))))
                        ])
                  ])
          ])

    -- Into a buffer of at least seven bytes and less than 2^32 - 16 that can hold the expected ones
    -- and their checksum, a response is read without writing or reading past the buffer, and the reading ends. If it
    -- succeeds, whole reports were read, with eight bytes of the buffer left behind them, and where
    -- a size is expected, the checksum over that size and two bytes is right and the response
    -- takes the fewest reports that hold them.
    pub read_response-Intact :
        (flags : ℕ) (w : World Dev)
        → 7 ≤ bufsize
        → bufsize + 16 < 2 ^ 32
        → expect_bytes + 2 ≤ bufsize
        → Ensures
            (λ r _. Intact r)
            (λ _. Unit {0})
            (yk_read_response_from_key usb crc16 bufsize flags expect_bytes w)
    unfolding yk_read_response_from_key
    read_response-Intact flags w room small fits =
        >>=-Ensures (λ data' _. length data' ≡ 8) (λ _. Unit {0}) _
          (yk_wait_for_key_status usb flags true 0x40 1000) _ w
          (Ensures-weaken _ _ (λ data' _. length data' ≡ 8) (λ _. Unit {0}) _
            (wait_for_key_status-Ensures usb flags true 0x40 1000 w (omega arith))
            (λ _ _ ready. ready.0) (λ _ _. tt))
          λ data' w' eight.
            >>=-Ensures (λ buf _. length buf ≡ length (replicate bufsize 0)) (λ _. Unit {0}) _
              (copy_at (replicate bufsize 0) 0 (take 7 data')) _ w'
              (copy_at-Ensures (replicate bufsize 0) 0 (take 7 data') w'
                (omega (arith, length-take 7 data', length-replicate {A = ℕ} bufsize 0)))
              λ buf w'' same.
                response_loop-Ensures (bufsize + 1) buf 7 w''
                  (omega (arith, length-replicate {A = ℕ} bufsize 0)) (omega arith) room small fits
                  (omega arith)
