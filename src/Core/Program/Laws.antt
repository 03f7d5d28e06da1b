-- ===== src/Core/Program/Laws.antt =====
-- What a write that reports success has done, and what the operations that read return.
use mathlib.Core.Path.{subst}
use yubikey_personalization.Prelude.{
  ltb→lt, ltb_false→le, ℕ, ◌+◌, ◌-◌, ◌*◌, ◌/◌, ◌%◌, ◌^◌, ◌≤◌, ◌<◌, ◌≡◌, ◌≢◌, ◌⊎◌, inl, inr, Bool,
  true, false, some, List, [], ◌∷◌, ◌++◌, arith, refl, ap, sym, ◌∙◌, bit_and, ltb, if◌then◌else◌,
  length, take, drop, get_or, length-append, take-append, drop-append, append_assoc, take_all,
  Bool-cases, Option-cases,
}
use yubikey_personalization.Core.Io.{
  Usb, Io, World, done, Ensures, >>=-Ensures, Ensures-weaken, Ensures-result, _ykusb_read, pure,
  ◌>>=◌, yk_ewriteerr, slot_write_flag,
}
use yubikey_personalization.Core.Wait.{yk_wait_for_key_status}
use yubikey_personalization.Core.Wait.Laws.{read-cases}
use yubikey_personalization.Core.Frame.{yk_write_to_key, wait_for_write_flag}
use yubikey_personalization.Core.Frame.Endian.{endian_swap_16_wire}
use yubikey_personalization.Core.Frame.Laws.{
  write_to_key_too_long, SentFrame, wait-log, write_to_key-Received,
}
use yubikey_personalization.Core.Frame.Parts.{logged, wire}
use yubikey_personalization.Core.Response.{
  yk_read_from_key, yk_get_status, yk_read_response_from_key,
}
use yubikey_personalization.Core.Response.Laws.{Intact, read_response-Intact}
use yubikey_personalization.Core.Program.{
  is_written, verify_update, _yk_write, yk_get_serial, yk_challenge_response, expected_response,
  config_body, command_buffer, config_valid, with_crc, yk_get_capabilities,
}
use yubikey_personalization.Pers.Types.{Status, CoreConfig}

is_written-cases :
    (seq : ℕ) (st : Status)
    → is_written seq st ≡ true
    → (st.pgm_seq ≢ seq) ⊎ ((bit_and st.touch_level config_valid ≡ 0) × (st.pgm_seq ≡ 0))
unfolding is_written
is_written-cases seq st h = ground arith

-- The length of a response: 20 bytes in the mode HMAC, 16 in the mode Yubico, in either slot.
abbrev pub ModeLength : ℕ → ℕ → Type 0
ModeLength yk_cmd n =
    (((yk_cmd ≡ 0x30) ⊎ (yk_cmd ≡ 0x38)) × (n ≡ 20))
    ⊎ (((yk_cmd ≡ 0x20) ⊎ (yk_cmd ≡ 0x28)) × (n ≡ 16))

expected_response-ModeLength :
    (yk_cmd n : ℕ) → expected_response yk_cmd ≡ some n → ModeLength yk_cmd n
unfolding expected_response
expected_response-ModeLength yk_cmd n e = ground arith

expected_response_le : (yk_cmd n : ℕ) → expected_response yk_cmd ≡ some n → n ≤ 20
unfolding expected_response
expected_response_le yk_cmd n e = ground arith

module _ {Dev : Type 0} (usb : Usb Dev) (crc16 : List ℕ → ℕ) (big_endian : Bool) where
  -- Reading the status sends nothing.
  get_status-log :
      (w : World (Dev × List (List ℕ)))
      → Ensures
          (λ _ w'. w'.dev.1 ≡ w.dev.1)
          (λ _. Unit {0})
          (yk_get_status (logged usb) big_endian w)
  unfolding yk_get_status yk_read_from_key
  get_status-log w =
      >>=-Ensures (λ _ w'. w'.dev.1 ≡ w.dev.1) (λ _. Unit {0}) _ (yk_read_from_key (logged usb) 6) _
        w
        (>>=-Ensures (λ _ w'. w'.dev.1 ≡ w.dev.1) (λ _. Unit {0}) (λ _ w'. w'.dev.1 ≡ w.dev.1)
          (_ykusb_read (logged usb)) (λ data'. pure (take 6 (drop 1 data'))) w read λ _ _ h. h)
        λ _ _ h. h
    where
      read : Ensures (λ _ w'. w'.dev.1 ≡ w.dev.1) (λ _. Unit {0}) (_ykusb_read (logged usb) w)
      read = elim (read-cases (logged usb) w) [
        | inl (bytes, e, r) ↦ rw r refl
        | inr (error, e, r) ↦ rw r tt
      ]

  pub get_status-same :
      (w : World (Dev × List (List ℕ)))
      → Ensures
          (λ st w'. (yk_get_status (logged usb) big_endian w ≡ done st w') × (w'.dev.1 ≡ w.dev.1))
          (λ _. Unit {0})
          (yk_get_status (logged usb) big_endian w)
  get_status-same w =
      Ensures-result (λ _ w'. w'.dev.1 ≡ w.dev.1) (λ _. Unit {0})
        (yk_get_status (logged usb) big_endian w) (get_status-log w)

  -- The status that the key gave last differs from the first in its count, or says that both
  -- configurations are erased.
  abbrev pub Counted : Status → World (Dev × List (List ℕ)) → Type 0
  Counted st w' =
      (st' : Status) × (v v' : World (Dev × List (List ℕ))) × (yk_get_status (logged usb) big_endian
          v
        ≡ done st' v')
      × (w' ≡ record v' { errno = yk_ewriteerr })
      × ((st'.pgm_seq ≢ st.pgm_seq)
          ⊎ ((bit_and st'.touch_level config_valid ≡ 0) × (st'.pgm_seq ≡ 0)))

  verify_update-Counted :
      (st : Status) (w : World (Dev × List (List ℕ)))
      → Ensures
          (λ _ w'. (w'.dev.1 ≡ w.dev.1) × Counted st w')
          (λ _. Unit {0})
          (verify_update (logged usb) crc16 big_endian st.pgm_seq w)
  unfolding verify_update
  verify_update-Counted st w =
      >>=-Ensures
        (λ st w'. (yk_get_status (logged usb) big_endian w ≡ done st w') × (w'.dev.1 ≡ w.dev.1))
        (λ _. Unit {0}) _ (yk_get_status (logged usb) big_endian) _ w (get_status-same w)
        λ st' w' h. elim (Bool-cases (is_written st.pgm_seq st')) [
          | inr off ↦ rw off tt
          | inl on ↦ rw on (h.1, (st', w, w', h.0, refl, is_written-cases st.pgm_seq st' on))
        ]

  -- The frame was sent, and the status before and after it shows that the key took it.
  abbrev pub Written :
      ℕ → List ℕ → World (Dev × List (List ℕ)) → World (Dev × List (List ℕ)) → Type 0
  Written yk_cmd buf w w' =
      SentFrame usb w.dev.1 (wire crc16 yk_cmd buf) w'
      × ((st : Status) × (u : World (Dev × List (List ℕ))) × (yk_get_status (logged usb) big_endian
              w
            ≡ done st u)
          × Counted st w')

  -- A buffer of at most 64 bytes is written without fault and the writing ends. If it reports
  -- success, the reports sent since then carry the frame of this command and buffer, and the status
  -- read last either has another count than the status read first, or says that no configuration is
  -- valid with a count of zero.
  pub _yk_write-Counted :
      (yk_cmd : ℕ) (buf : List ℕ) (w : World (Dev × List (List ℕ)))
      → length buf ≤ 64
      → Ensures
          (λ _ w'. Written yk_cmd buf w w')
          (λ _. Unit {0})
          (_yk_write (logged usb) crc16 big_endian yk_cmd buf w)
  unfolding _yk_write
  _yk_write-Counted yk_cmd buf w fits =
      >>=-Ensures
        (λ st w'. (yk_get_status (logged usb) big_endian w ≡ done st w') × (w'.dev.1 ≡ w.dev.1))
        (λ _. Unit {0}) _ (yk_get_status (logged usb) big_endian) _ w (get_status-same w)
        λ st w' first.
          >>=-Ensures (λ _ w''. SentFrame usb w'.dev.1 (wire crc16 yk_cmd buf) w'') (λ _. Unit {0})
            _ (yk_write_to_key (logged usb) crc16 big_endian yk_cmd buf) _ w'
            (write_to_key-Received usb crc16 big_endian yk_cmd buf w' fits)
            λ _ w'' sent.
              >>=-Ensures (λ _ v. v.dev.1 ≡ w''.dev.1) (λ _. Unit {0}) _
                (yk_wait_for_key_status (logged usb) 0 false slot_write_flag wait_for_write_flag) _
                w'' (wait-log usb 0 false slot_write_flag wait_for_write_flag w'' (omega arith))
                λ _ v same.
                  Ensures-weaken _ (λ _. Unit {0}) (λ _ v'. Written yk_cmd buf w v') (λ _. Unit {0})
                    _ (verify_update-Counted st v)
                    (λ _ v' h. (
                      (sent.0, h.0 ∙ same ∙ sent.1 ∙ ap (λ l. l ++ sent.0) first.1, sent.2),
                      (st, w', first.0, h.1),
                    ))
                    (λ _ _. tt)

  -- A buffer of any length: one of more than 64 bytes is never reported as written.
  pub _yk_write-Written :
      (yk_cmd : ℕ) (buf : List ℕ) (w : World (Dev × List (List ℕ)))
      → Ensures
          (λ _ w'. Written yk_cmd buf w w')
          (λ _. Unit {0})
          (_yk_write (logged usb) crc16 big_endian yk_cmd buf w)
  unfolding _yk_write
  _yk_write-Written yk_cmd buf w = elim (Bool-cases (ltb 64 (length buf))) [
    | inr fits ↦ _yk_write-Counted yk_cmd buf w (ltb_false→le 64 (length buf) fits)
    | inl long ↦
        >>=-Ensures (λ _ _. Unit {0}) (λ _. Unit {0}) _ (yk_get_status (logged usb) big_endian) _ w
          (Ensures-weaken _ (λ _. Unit {0}) (λ _ _. Unit {0}) (λ _. Unit {0}) _ (get_status-log w)
            (λ _ _ _. tt) (λ _ _. tt))
          λ st w' _.
            >>=-Ensures (λ _ _. ⊥) (λ _. Unit {0}) _
              (yk_write_to_key (logged usb) crc16 big_endian yk_cmd buf) _ w'
              (subst (Ensures (λ _ _. ⊥) (λ _. Unit {0}))
                (sym (
                  write_to_key_too_long usb crc16 big_endian yk_cmd buf w'
                    (ltb→lt 64 (length buf) long)))
                tt)
              λ _ _ impossible. absurd impossible
  ]

  -- The frame of a challenge was sent, and then a response of the expected size was read.
  abbrev pub Answered :
      ℕ
      → List ℕ
      → ℕ
      → ℕ
      → ℕ
      → World (Dev × List (List ℕ))
      → List ℕ
      → World (Dev × List (List ℕ))
      → Type 0
  Answered yk_cmd buf flags bufsize expect_bytes w r w' =
      (v : World (Dev × List (List ℕ))) × (n : ℕ) × SentFrame usb w.dev.1 (wire crc16 yk_cmd buf) v
      × (yk_read_response_from_key (logged usb) crc16 bufsize flags expect_bytes v ≡ done (r, n) w')
      × Intact (logged usb) crc16 bufsize expect_bytes (r, n)

  -- What a command and the reading of its response amount to together.
  exchange-Answered :
      {A : Type 0} (P : A → World (Dev × List (List ℕ)) → Type 0) (yk_cmd : ℕ) (buf : List ℕ)
      (flags bufsize expect_bytes : ℕ) (k : List ℕ × ℕ → Io (Dev × List (List ℕ)) A)
      (w : World (Dev × List (List ℕ)))
      → length buf ≤ 64
      → 7 ≤ bufsize
      → bufsize + 16 < 2 ^ 32
      → expect_bytes + 2 ≤ bufsize
      → ((r : List ℕ) (n : ℕ) (w' : World (Dev × List (List ℕ)))
          → Answered yk_cmd buf flags bufsize expect_bytes w r w'
          → Ensures P (λ _. Unit {0}) (k (r, n) w'))
      → Ensures P
          (λ _. Unit {0})
          ((yk_write_to_key (logged usb) crc16 big_endian yk_cmd buf >>= λ _.
              yk_read_response_from_key (logged usb) crc16 bufsize flags expect_bytes >>= k)
            w)
  exchange-Answered P yk_cmd buf flags bufsize expect_bytes k w short room small fits rest =
      >>=-Ensures (λ _ v. SentFrame usb w.dev.1 (wire crc16 yk_cmd buf) v) (λ _. Unit {0}) P
        (yk_write_to_key (logged usb) crc16 big_endian yk_cmd buf) _ w
        (write_to_key-Received usb crc16 big_endian yk_cmd buf w short)
        λ _ v sent.
          let reading = yk_read_response_from_key (logged usb) crc16 bufsize flags expect_bytes in
          let Good : List ℕ × ℕ → Type 0 = Intact (logged usb) crc16 bufsize expect_bytes in
          >>=-Ensures (λ r w'. (reading v ≡ done r w') × Good r) (λ _. Unit {0}) P reading k v
            (Ensures-result (λ r _. Good r) (λ _. Unit {0}) (reading v)
              (read_response-Intact (logged usb) crc16 bufsize expect_bytes flags v room small
                fits))
            λ r w' h. rest r.0 r.1 w' (v, r.1, sent, h.0, h.1)

  -- A challenge of at most 64 bytes, with a response buffer of at least 22 bytes and less than
  -- 2^32 - 16, is exchanged without fault and the exchange ends. If it succeeds, the command is one of
  -- the four, the frame of the challenge was sent, and a response was read, with the permission to
  -- block that the caller gave, whose checksum is right over the length that the command's mode has,
  -- 20 or 16 bytes, and two bytes more; the whole buffer comes back.
  pub challenge_response-Answered :
      (yk_cmd : ℕ) (may_block : Bool) (challenge : List ℕ) (response_len : ℕ)
      (w : World (Dev × List (List ℕ)))
      → length challenge ≤ 64
      → 22 ≤ response_len
      → response_len + 16 < 2 ^ 32
      → Ensures
          (λ r w'.
            (n : ℕ) × ModeLength yk_cmd n
            × Answered yk_cmd challenge (if may_block then 0x10000 else 0) response_len n w r w')
          (λ _. Unit {0})
          (yk_challenge_response
            (logged usb)
            crc16
            big_endian
            yk_cmd
            may_block
            challenge
            response_len
            w)
  unfolding yk_challenge_response
  challenge_response-Answered yk_cmd may_block challenge response_len w short room small =
      elim (Option-cases (expected_response yk_cmd)) [
        | inl e ↦ rw (e, yk_challenge_response) tt
        | inr (n, e) ↦
            rw (e, yk_challenge_response)
              (exchange-Answered
                (λ r w'.
                  (m : ℕ) × ModeLength yk_cmd m
                  × Answered yk_cmd challenge (if may_block then 0x10000 else 0) response_len m w r
                      w')
                yk_cmd challenge (if may_block then 0x10000 else 0) response_len n (λ r. pure r.0) w
                short (omega arith) small (ground (arith, expected_response_le yk_cmd n e))
                λ r m w' h. (n, expected_response-ModeLength yk_cmd n e, h))
      ]

  -- Reading the serial number ends without fault. If it succeeds, the number is what four bytes
  -- say with the highest first, and they came in a response whose checksum over them and two bytes
  -- more is right.
  pub get_serial-Answered :
      (flags : ℕ) (w : World (Dev × List (List ℕ)))
      → Ensures
          (λ serial w'.
            (r : List ℕ) × (serial
              ≡ (((get_or r 0 0 * 256 + get_or r 1 0) * 256 + get_or r 2 0) * 256 + get_or r 3 0)
                % 2 ^ 32)
            × Answered 0x10 [] flags 16 4 w r w')
          (λ _. Unit {0})
          (yk_get_serial (logged usb) crc16 big_endian flags w)
  unfolding yk_get_serial
  get_serial-Answered flags w =
      exchange-Answered _ 0x10 [] flags 16 4 _ w (omega arith) (omega arith) (omega arith)
        (omega arith) λ r n w' h. (r, ground arith, h)

  -- The capabilities are read without fault into a buffer of at least seven bytes and less than
  -- 2^32 - 16, and the reading ends. If it succeeds, the length that comes back is the first byte and one more, and lies in
  -- the buffer.
  pub get_capabilities-Answered :
      (flags bufsize : ℕ) (w : World (Dev × List (List ℕ)))
      → 7 ≤ bufsize
      → bufsize + 16 < 2 ^ 32
      → Ensures
          (λ r w'.
            (r.1 ≡ get_or r.0 0 0 + 1)
            × (r.1 ≤ length r.0)
            × Answered 0x13 [] flags bufsize 0 w r.0 w')
          (λ _. Unit {0})
          (yk_get_capabilities (logged usb) crc16 big_endian flags bufsize w)
  unfolding yk_get_capabilities
  get_capabilities-Answered flags bufsize w room small =
      exchange-Answered _ 0x13 [] flags bufsize 0 _ w (omega arith) room small (omega arith)
        λ r n w' h. elim (Bool-cases (ltb bufsize (get_or r 0 0 + 1))) [
          | inl long ↦ rw long tt
          | inr fits ↦ rw fits (refl, ground (arith, h.4.0), h)
        ]

module _ (crc16 : List ℕ → ℕ) (big_endian : Bool) where
  -- On a host of either byte order, a configuration whose body takes 50 bytes is sent as that body,
  -- its fields in the order of the structure, then the complement of the body's checksum with its low
  -- byte first, then the access code, 58 bytes in all; a key that runs the checksum over the first 52 of them finds the residue of an
  -- intact block, if appending its complement gives this residue for every text.
  pub command_buffer_intact :
      (k : CoreConfig) (code : List ℕ)
      → length (config_body k) ≡ 50
      → length code ≡ 6
      → ((l : List ℕ)
          → let c = 0xffff - crc16 l % 2 ^ 16 in crc16 (l ++ (c % 256 ∷ c / 256 ∷ [])) ≡ 0xf0b8)
      → let body =
          k.fixed
          ++ (k.uid
              ++ (k.key
                  ++ (k.acc_code
                      ++ (k.fixed_size ∷ k.ext_flags ∷ k.tkt_flags ∷ k.cfg_flags ∷ k.rfu)))) in
        let c = 0xffff - crc16 body % 2 ^ 16 in
        (command_buffer crc16 big_endian (some k) (some code) ≡ body ++ (c % 256 ∷ c / 256 ∷ code))
        × (length (command_buffer crc16 big_endian (some k) (some code)) ≡ 58)
        × (crc16 (take 52 (command_buffer crc16 big_endian (some k) (some code))) ≡ 0xf0b8)
        × (drop 52 (command_buffer crc16 big_endian (some k) (some code)) ≡ code)
  unfolding command_buffer with_crc
  command_buffer_intact k code whole six residue =
      let c : ℕ = 0xffff - crc16 (config_body k) % 2 ^ 16 in
      let block : List ℕ = config_body k ++ (c % 256 ∷ c / 256 ∷ []) in
      let full : length block ≡ 52 =
        omega (arith, length-append (config_body k) (c % 256 ∷ c / 256 ∷ [])) in
      let all : take 6 code ≡ code = take_all 6 code (omega arith) in
      rw ((endian_swap_16_wire big_endian c 0 0 (omega arith) (omega arith) (omega arith)).0, all)
        (
          append_assoc (config_body k) (c % 256 ∷ c / 256 ∷ []) code,
          omega (arith, length-append block code),
          ap crc16 (take-append 52 block code full) ∙ residue (config_body k),
          drop-append 52 block code full,
        )
