-- ===== src/Core/Frame/Laws.antt =====
-- What the key can put together from the reports that it was sent.
use yubikey_personalization.Prelude.{
  ◌+◌, false, length-append, inl, inr, ltb, append_assoc, append-nil, Bool-cases, Bool, ◌≤◌, sym,
  List, [], ◌++◌, ◌&&◌, ℕ, suc, ◌*◌, ◌%◌, ◌<◌, ◌≡◌, ◌∷◌, arith, bit_or, refl, ap, ◌∙◌, length, take,
  set, get_or, replicate,
}
use yubikey_personalization.Core.Io.{
  failed, yk_ewrongsiz, Ensures-weaken, World, Ensures, >>=-Ensures, _ykusb_write, Usb,
}
use yubikey_personalization.Core.Wait.{yk_wait_for_key_status, yk_force_key_update}
use yubikey_personalization.Core.Wait.Laws.{read-cases, write-cases, wait_rule}
use yubikey_personalization.Core.Frame.{
  more_to_come, send_parts, yk_write_to_key, frame_bytes, parts, all_zeros,
}
use yubikey_personalization.Core.Frame.Parts.{
  logged, zeros, receive, flatten, AreParts, all_zeros-eq, parts-AreParts, flatten-parts, and_left,
  set_part, wire, frame_bytes-wire, length-frame_bytes,
}

module _ {Dev : Type 0} (usb : Usb Dev) where
  -- Waiting sends nothing, if it succeeds.
  pub wait-log :
      (flags : ℕ) (logic_and : Bool) (mask max_time_ms : ℕ) (w : World (Dev × List (List ℕ)))
      → max_time_ms ≤ 4294000000
      → Ensures
          (λ _ w'. w'.dev.1 ≡ w.dev.1)
          (λ _. Unit {0})
          (yk_wait_for_key_status (logged usb) flags logic_and mask max_time_ms w)
  unfolding yk_force_key_update
  wait-log flags logic_and mask max_time_ms w fits =
      wait_rule (logged usb) flags logic_and mask (λ _ w'. w'.dev.1 ≡ w.dev.1) (λ _. Unit {0})
        (λ _ w'. w'.dev.1 ≡ w.dev.1) (max_time_ms + 256 * 1000 + 500)
        (λ t sv w' _ same.
          elim (read-cases (logged usb) (record w' { dev = (logged usb).sleep sv w'.dev })) [
            | inl (bytes, e, r) ↦ rw r same
            | inr (error, e, r) ↦ rw r tt
          ])
        (λ _ _ _ _ same _ _. same) (λ _ _ _ _. tt)
        (λ _ w' _ _ _. elim (write-cases (logged usb) (replicate 7 0 ++ (0x8f ∷ [])) w') [
          | inl r ↦ rw r tt
          | inr (error, r) ↦ rw r tt
        ])
        max_time_ms w refl (ground arith) (omega arith)

  -- What was sent since the log held `old`, and what a receiver makes of it.
  abbrev Received :
      List (List ℕ) → List (List ℕ) → List (List ℕ) → World (Dev × List (List ℕ)) → Type 0
  Received old memory result w =
      (new : List (List ℕ)) × (w.dev.1 ≡ old ++ new) × (receive memory new ≡ result)

  write-log :
      (bytes : List ℕ) (w : World (Dev × List (List ℕ)))
      → Ensures
          (λ _ w'. w'.dev.1 ≡ w.dev.1 ++ (bytes ∷ []))
          (λ _. Unit {0})
          (_ykusb_write (logged usb) bytes w)
  write-log bytes w = elim (write-cases (logged usb) bytes w) [
    | inl r ↦ rw r refl
    | inr (error, r) ↦ rw r tt
  ]

  -- One report more in front of what a receiver gets.
  Received-cons :
      (old : List (List ℕ)) (report : List ℕ) (memory memory' result : List (List ℕ))
      (w : World (Dev × List (List ℕ)))
      → set memory (get_or report 7 0 % 32) (take 7 report) ≡ memory'
      → Received (old ++ (report ∷ [])) memory' result w
      → Received old memory result w
  Received-cons old report memory memory' result w e (new, grown, got) =
      (report ∷ new, grown ∙ append_assoc old (report ∷ []) new, ap (λ m. receive m new) e ∙ got)

  send_parts-Received :
      (seq : ℕ) (ps pre old : List (List ℕ)) (w : World (Dev × List (List ℕ)))
      → AreParts ps
      → length pre ≡ seq
      → seq + length ps ≤ 32
      → w.dev.1 ≡ old
      → Ensures
          (λ _ w'. Received old (pre ++ replicate (length ps) zeros) (pre ++ ps) w')
          (λ _. Unit {0})
          (send_parts (logged usb) seq ps w)
  unfolding send_parts
  send_parts-Received seq [] pre old w fit len small log = ([], log ∙ sym (append-nil old), refl)
  send_parts-Received seq (p ∷ ps) pre old w fit len small log =
      let rest = replicate (length ps) zeros in
      let moved : (pre ++ (p ∷ [])) ++ rest ≡ pre ++ (p ∷ rest) = append_assoc pre (p ∷ []) rest in
      let whole : (pre ++ (p ∷ [])) ++ ps ≡ pre ++ (p ∷ ps) = append_assoc pre (p ∷ []) ps in
      let longer : length (pre ++ (p ∷ [])) ≡ suc seq = omega (arith, length-append pre (p ∷ [])) in
      elim (Bool-cases (all_zeros p && (ltb 0 seq && more_to_come ps))) [
        | inl skip ↦
            let blank : p ≡ zeros =
              all_zeros-eq p (and_left (all_zeros p) _ skip) ∙ ap (λ n. replicate n 0) fit.0 in
            rw (skip, send_parts)
              (Ensures-weaken _ (λ _. Unit {0})
                (λ _ w'. Received old (pre ++ (zeros ∷ rest)) (pre ++ (p ∷ ps)) w') (λ _. Unit {0})
                _
                (send_parts-Received (suc seq) ps (pre ++ (p ∷ [])) old w fit.1 longer (omega arith)
                  log)
                (λ _ w' h. (
                  h.0,
                  h.1,
                  ap (λ m. receive m h.0) (ap (λ x. pre ++ (x ∷ rest)) (sym blank) ∙ sym moved)
                      ∙ h.2
                      ∙ whole,
                ))
                (λ _ _. tt))
        | inr send ↦
            rw (send, send_parts)
              (>>=-Ensures (λ _ w'. w'.dev.1 ≡ w.dev.1) (λ _. Unit {0}) _
                (yk_wait_for_key_status (logged usb) 0 false 0x80 1150) _ w
                (wait-log 0 false 0x80 1150 w (omega arith))
                λ data' w' same.
                  >>=-Ensures
                    (λ _ w''. w''.dev.1 ≡ w'.dev.1 ++ ((p ++ (bit_or seq 0x80 ∷ [])) ∷ []))
                    (λ _. Unit {0}) _ (_ykusb_write (logged usb) (p ++ (bit_or seq 0x80 ∷ []))) _ w'
                    (write-log (p ++ (bit_or seq 0x80 ∷ [])) w')
                    λ _ w'' grown.
                      Ensures-weaken _ (λ _. Unit {0})
                        (λ _ v. Received old (pre ++ (zeros ∷ rest)) (pre ++ (p ∷ ps)) v)
                        (λ _. Unit {0}) _
                        (send_parts-Received (suc seq) ps (pre ++ (p ∷ []))
                          (old ++ ((p ++ (bit_or seq 0x80 ∷ [])) ∷ [])) w'' fit.1 longer
                          (omega arith)
                          (grown
                            ∙ ap (λ l. l ++ ((p ++ (bit_or seq 0x80 ∷ [])) ∷ [])) (same ∙ log)))
                        (λ _ v h.
                          Received-cons old (p ++ (bit_or seq 0x80 ∷ [])) _ _ _ v
                            (set_part pre rest p seq fit.0 len (omega arith))
                            (h.0, h.1, h.2 ∙ whole))
                        (λ _ _. tt))
      ]

  -- Since the log held `old`, reports were sent from which a receiver with zeroed memory puts
  -- together the given bytes.
  abbrev pub SentFrame : List (List ℕ) → List ℕ → World (Dev × List (List ℕ)) → Type 0
  SentFrame old bytes w =
      (new : List (List ℕ)) × (w.dev.1 ≡ old ++ new)
      × (flatten (receive (replicate 10 zeros) new) ≡ bytes)

  module _ (crc16 : List ℕ → ℕ) (big_endian : Bool) where
    -- A buffer that fits is sent without fault and the sending ends. If it succeeds, a receiver
    -- that starts from zeroed memory has put together exactly the frame: the buffer, zeros up to
    -- 64 bytes, the slot, the checksum of those 64 bytes with its low byte first, and three zeros,
    -- on a host of either byte order.
    pub write_to_key-Received :
        (slot : ℕ) (buf : List ℕ) (w : World (Dev × List (List ℕ)))
        → length buf ≤ 64
        → Ensures
            (λ _ w'. SentFrame w.dev.1 (wire crc16 slot buf) w')
            (λ _. Unit {0})
            (yk_write_to_key (logged usb) crc16 big_endian slot buf w)
    unfolding yk_write_to_key
    write_to_key-Received slot buf w fits =
        let bytes = frame_bytes crc16 big_endian slot buf in
        let size = length-frame_bytes crc16 big_endian slot buf fits in
        let short : ltb 64 (length buf) ≡ false = ground arith in
        rw short (
          Ensures-weaken _ (λ _. Unit {0}) (λ _ w'. SentFrame w.dev.1 (wire crc16 slot buf) w')
            (λ _. Unit {0}) _
            (send_parts-Received 0 (parts 10 bytes) [] w.dev.1 w
              (parts-AreParts 10 bytes (omega arith)) refl (omega arith) refl)
            (λ _ w' h. (
              h.0,
              h.1,
              ap flatten h.2
                  ∙ flatten-parts 10 bytes (omega arith)
                  ∙ frame_bytes-wire crc16 big_endian slot buf,
            ))
            (λ _ _. tt))

    -- A buffer that does not fit the payload is refused before anything is sent or read.
    pub write_to_key_too_long :
        (slot : ℕ) (buf : List ℕ) (w : World (Dev × List (List ℕ)))
        → 64 < length buf
        → yk_write_to_key (logged usb) crc16 big_endian slot buf w
          ≡ failed (record w { errno = yk_ewrongsiz })
    unfolding yk_write_to_key
    write_to_key_too_long slot buf w long = ground arith
