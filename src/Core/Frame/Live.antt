-- ===== src/Core/Frame/Live.antt =====
-- A key that keeps clearing the write flag in time is sent a whole frame.
use mathlib.Core.Path.{subst}
use yubikey_personalization.Prelude.{
  ℕ, zero, suc, ◌+◌, ◌-◌, ◌%◌, ◌^◌, ◌≤◌, ◌<◌, ◌≡◌, ◌⊎◌, inl, inr, refl, sym, ap, ◌∙◌, arith, Bool,
  true, false, ◌&&◌, Bool-cases, none, List, [], ◌∷◌, ◌++◌, ltb, bit_and, bit_or, length,
}
use yubikey_personalization.Core.Io.{
  Usb, World, Res, done, failed, fault, stuck, Reply, report, no_report, Ensures, >>=-Ensures,
  Ensures-weaken, _ykusb_read, _ykusb_write, fill_report,
}
use yubikey_personalization.Core.Wait.{
  yk_wait_for_key_status, wait_loop, judge, status_byte, back_off, Verdict,
}
use yubikey_personalization.Core.Wait.Laws.{read-cases}
use yubikey_personalization.Core.Frame.{
  send_parts, yk_write_to_key, frame_bytes, parts, all_zeros, more_to_come,
}

-- A key that takes every report, and then is busy for at most ten reads of its status; it never
-- waits for its user then.
pub record Responsive {Dev : Type 0} (usb : Usb Dev) : Type 0 where
  pub busy : Dev → ℕ
  pub reads :
      (d : Dev)
      → (bytes : List ℕ) × ((usb.read d).0 ≡ report bytes)
        × (busy (usb.read d).1 ≡ busy d - 1)
        × (bit_and (status_byte (fill_report bytes)) 0x20 ≡ 0)
        × ((0 < busy d) ⊎ (bit_and (status_byte (fill_report bytes)) 0x80 ≡ 0))
  pub sleeps : (ms : ℕ) (d : Dev) → busy (usb.sleep ms d) ≡ busy d
  pub writes :
      (bytes : List ℕ) (d : Dev)
      → ((usb.write bytes d).0 ≡ none) × (busy (usb.write bytes d).1 ≤ 10)

-- Whether `n` more rounds fit before the limit.
enough : ℕ → ℕ → ℕ → Bool
enough zero sv t = ltb t 1150
enough (suc n) sv t = ltb t 1150 && enough n (back_off sv) ((t + sv) % 2 ^ 32)

judge-free :
    (status : ℕ) → bit_and status 0x80 ≡ 0 → judge 0 false 0x80 1150 false status ≡ Verdict.ready
unfolding judge
judge-free status free = ground arith

judge-working :
    (status : ℕ)
    → bit_and status 0x20 ≡ 0
    → (judge 0 false 0x80 1150 false status ≡ Verdict.ready)
      ⊎ (judge 0 false 0x80 1150 false status ≡ Verdict.again 1150 false)
unfolding judge
judge-working status quiet = ground arith

module _ {Dev : Type 0} (usb : Usb Dev) (key : Responsive usb) where
  -- What a status report says of a key with so many reads left.
  abbrev Says : ℕ → List ℕ → World Dev → Type 0
  Says n data' w' =
      (key.busy w'.dev ≡ n - 1)
      × (bit_and (status_byte data') 0x20 ≡ 0)
      × ((0 < n) ⊎ (bit_and (status_byte data') 0x80 ≡ 0))

  read-Says :
      (n : ℕ) (w : World Dev) → key.busy w.dev ≡ n → Ensures (Says n) (λ _. ⊥) (_ykusb_read usb w)
  read-Says n w left = elim (read-cases usb w) [
    | inl (bytes, e, r) ↦ rw r (says bytes (same bytes e))
    | inr (error, e, r) ↦ absurd (ground (arith, key.reads w.dev))
  ]
    where
      same : (bytes : List ℕ) → (usb.read w.dev).0 ≡ report bytes → (key.reads w.dev).0 ≡ bytes
      same bytes e =
          let told : Reply → List ℕ = λ r. elim r [ report b ↦ b | no_report error ↦ [] ] in
          ap told (sym (key.reads w.dev).1 ∙ e)

      says :
          (bytes : List ℕ)
          → (key.reads w.dev).0 ≡ bytes
          → Says n (fill_report bytes) (record w { dev = (usb.read w.dev).1 })
      says bytes e = (
        (key.reads w.dev).2 ∙ ap (λ b. b - 1) left,
        subst (λ b. bit_and (status_byte (fill_report b)) 0x20 ≡ 0) e (key.reads w.dev).3,
        subst (λ b. (0 < n) ⊎ (bit_and (status_byte (fill_report b)) 0x80 ≡ 0)) e
            (subst
              (λ m. (0 < m) ⊎ (bit_and (status_byte (fill_report (key.reads w.dev).0)) 0x80 ≡ 0))
              left (key.reads w.dev).4),
      )

  wait_loop-free :
      (m fuel sv t : ℕ) (w : World Dev)
      → key.busy w.dev ≤ m
      → enough m sv t ≡ true
      → m < fuel
      → Ensures
          (λ _ w'. key.busy w'.dev ≤ m)
          (λ _. ⊥)
          (wait_loop usb 0 false 0x80 fuel sv t 1150 false w)
  unfolding wait_loop enough
  wait_loop-free m zero sv t w left fits fuelled = absurd (omega arith)
  wait_loop-free zero (suc fuel) sv t w left fits fuelled =
      rw (fits, wait_loop)
        (>>=-Ensures (Says 0) (λ _. ⊥) (λ _ w'. key.busy w'.dev ≤ 0) (_ykusb_read usb) _ _
          (read-Says 0 (record w { dev = usb.sleep sv w.dev })
            (ground (arith, key.sleeps sv w.dev)))
          λ data' w' says.
            rw (judge-free (status_byte data') (ground (arith, says))) (ground (arith, says)))
  wait_loop-free (suc m) (suc fuel) sv t w left fits fuelled =
      let on : ltb t 1150 ≡ true = ground arith in
      let n = key.busy w.dev in
      rw (on, wait_loop)
        (>>=-Ensures (Says n) (λ _. ⊥) (λ _ w'. key.busy w'.dev ≤ suc m) (_ykusb_read usb) _ _
          (read-Says n (record w { dev = usb.sleep sv w.dev }) (key.sleeps sv w.dev))
          λ data' w' says. elim (judge-working (status_byte data') says.1) [
            | inl e ↦ rw e (ground (arith, says))
            | inr e ↦ rw e (
                Ensures-weaken (λ _ v. key.busy v.dev ≤ m) (λ _. ⊥) (λ _ v. key.busy v.dev ≤ suc m)
                  (λ _. ⊥) _
                  (wait_loop-free m fuel (back_off sv) ((t + sv) % 2 ^ 32) w'
                    (omega (arith, says.0)) (ground arith) (omega arith))
                  (λ _ v h. omega arith) (λ _ h. h))
          ])

  wait-free :
      (w : World Dev)
      → key.busy w.dev ≤ 10
      → Ensures
          (λ _ w'. key.busy w'.dev ≤ 10)
          (λ _. ⊥)
          (yk_wait_for_key_status usb 0 false 0x80 1150 w)
  unfolding yk_wait_for_key_status enough
  wait-free w left = wait_loop-free 10 _ 1 0 w left refl (omega arith)

  write-taken :
      (bytes : List ℕ) (w : World Dev)
      → Ensures (λ _ w'. key.busy w'.dev ≤ 10) (λ _. ⊥) (_ykusb_write usb bytes w)
  unfolding _ykusb_write
  write-taken bytes w = rw ((key.writes bytes w.dev).0, _ykusb_write) (key.writes bytes w.dev).1

  send_parts-taken :
      (seq : ℕ) (ps : List (List ℕ)) (w : World Dev)
      → key.busy w.dev ≤ 10
      → Ensures (λ _ w'. key.busy w'.dev ≤ 10) (λ _. ⊥) (send_parts usb seq ps w)
  unfolding send_parts
  send_parts-taken seq [] w left = left
  send_parts-taken seq (p ∷ ps) w left =
      elim (Bool-cases (all_zeros p && (ltb 0 seq && more_to_come ps))) [
        | inl skip ↦ rw (skip, send_parts) (send_parts-taken (suc seq) ps w left)
        | inr send ↦
            rw (send, send_parts)
              (>>=-Ensures (λ _ w'. key.busy w'.dev ≤ 10) (λ _. ⊥) _
                (yk_wait_for_key_status usb 0 false 0x80 1150) _ w (wait-free w left)
                λ data' w' free.
                  >>=-Ensures (λ _ v. key.busy v.dev ≤ 10) (λ _. ⊥) _
                    (_ykusb_write usb (p ++ (bit_or seq 0x80 ∷ []))) _ w'
                    (write-taken (p ++ (bit_or seq 0x80 ∷ [])) w')
                    λ _ v free'. send_parts-taken (suc seq) ps v free')
      ]

  -- Writing a buffer of at most 64 bytes to a key that takes every report and is busy for at most
  -- ten reads of its status behind each always succeeds.
  pub write_to_key-taken :
      (crc16 : List ℕ → ℕ) (big_endian : Bool) (slot : ℕ) (buf : List ℕ) (w : World Dev)
      → key.busy w.dev ≤ 10
      → length buf ≤ 64
      → (w' : World Dev) × (yk_write_to_key usb crc16 big_endian slot buf w ≡ done tt w')
  unfolding yk_write_to_key
  write_to_key-taken crc16 big_endian slot buf w left fits =
      let short : ltb 64 (length buf) ≡ false = ground arith in
      rw short (
        ends (send_parts usb 0 (parts 10 (frame_bytes crc16 big_endian slot buf)) w)
          (send_parts-taken 0 (parts 10 (frame_bytes crc16 big_endian slot buf)) w left))
    where
      ends :
          (r : Res Dev (Unit {0}))
          → Ensures (λ _ w'. key.busy w'.dev ≤ 10) (λ _. ⊥) r
          → (w' : World Dev) × (r ≡ done tt w')
      ends (done u w') h = (w', refl)
      ends (failed w') h = absurd h
      ends fault h = absurd h
      ends stuck h = absurd h
