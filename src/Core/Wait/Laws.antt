-- ===== src/Core/Wait/Laws.antt =====
-- The polling loop ends, and what its report and its errors mean.
use yubikey_personalization.Prelude.{
  ◌==◌, Bool-cases, Option-cases, [], ◌∷◌, ltb→lt, false, ◌-◌, ◌%◌, ltb, refl, inl, inr, ◌⊎◌, suc,
  zero, ◌≢◌, bit_and, ℕ, ◌+◌, ◌*◌, ◌^◌, ◌≤◌, ◌<◌, ◌≡◌, Bool, true, List, ◌++◌, arith, if◌then◌else◌,
  length, length-take, length-append, replicate,
}
use yubikey_personalization.Core.Io.{
  Ensures-both, Ensures-weaken, Io, done, failed, _ykusb_write, pure, fail, Reply, ◌>>◌, Usb,
  ignore-Ensures, ignore, Ensures, >>=-Ensures, _ykusb_read, report, no_report, yk_etimeout,
  yk_ewouldblock, World, fill_report, yk_flag_mayblock,
}
use yubikey_personalization.Core.Wait.{
  yk_force_key_update, wait_loop, status_byte, back_off, yk_wait_for_key_status, is_ready, judge,
  Verdict,
}

-- How much longer the limit can still grow: once, and only if the caller permits blocking.
abbrev pub extension : ℕ → Bool → ℕ
extension flags blocking =
    if blocking
    then 0
    else if bit_and flags yk_flag_mayblock == yk_flag_mayblock
    then 256 * 1000
    else 0

pub Verdict-cases :
    (v : Verdict)
    → (v ≡ Verdict.ready)
      ⊎ ((max : ℕ) × (b : Bool) × (v ≡ Verdict.again max b))
      ⊎ (v ≡ Verdict.would_block)
      ⊎ (v ≡ Verdict.timed_out)
Verdict-cases Verdict.ready = inl refl
Verdict-cases (Verdict.again max b) = inr (inl (max, b, refl))
Verdict-cases Verdict.would_block = inr (inr (inl refl))
Verdict-cases Verdict.timed_out = inr (inr (inr refl))

length-fill_report : (bytes : List ℕ) → length (fill_report bytes) ≡ 8
length-fill_report bytes =
    omega (arith, length-take 8 (bytes ++ replicate 8 0), length-append bytes (replicate 8 0))

pub judge-ready :
    (flags : ℕ) (logic_and : Bool) (mask max : ℕ) (blocking : Bool) (status : ℕ)
    → judge flags logic_and mask max blocking status ≡ Verdict.ready
    → is_ready logic_and mask status ≡ true
unfolding judge
judge-ready flags logic_and mask max blocking status h = ground arith

-- A wait goes on under a limit that grew at most once.
pub judge-again :
    (flags : ℕ) (logic_and : Bool) (mask max : ℕ) (blocking : Bool) (status : ℕ) {max' : ℕ}
    {b : Bool}
    → judge flags logic_and mask max blocking status ≡ Verdict.again max' b
    → max + extension flags blocking < 2 ^ 32
    → (max ≤ max') × (max' + extension flags b ≤ max + extension flags blocking)
unfolding judge
judge-again flags logic_and mask max blocking status h fits = ground arith

judge-would_block :
    (flags : ℕ) (logic_and : Bool) (mask max : ℕ) (blocking : Bool) (status : ℕ)
    → judge flags logic_and mask max blocking status ≡ Verdict.would_block
    → bit_and flags yk_flag_mayblock ≢ yk_flag_mayblock
unfolding judge
judge-would_block flags logic_and mask max blocking status h = ground arith

module _ {Dev : Type 0} (usb : Usb Dev) where
  -- The two answers of the backend to a read.
  pub read-cases :
      (w : World Dev)
      → ((bytes : List ℕ) × ((usb.read w.dev).0 ≡ report bytes)
          × (_ykusb_read usb w ≡ done (fill_report bytes) (record w { dev = (usb.read w.dev).1 })))
        ⊎ ((e : ℕ) × ((usb.read w.dev).0 ≡ no_report e)
            × (_ykusb_read usb w ≡ failed (record { dev = (usb.read w.dev).1; errno = e })))
  unfolding _ykusb_read
  read-cases w = go (usb.read w.dev).0 refl
    where
      go :
          (reply : Reply)
          → (usb.read w.dev).0 ≡ reply
          → ((bytes : List ℕ) × ((usb.read w.dev).0 ≡ report bytes)
              × (_ykusb_read usb w
                  ≡ done (fill_report bytes) (record w { dev = (usb.read w.dev).1 })))
            ⊎ ((e : ℕ) × ((usb.read w.dev).0 ≡ no_report e)
                × (_ykusb_read usb w ≡ failed (record { dev = (usb.read w.dev).1; errno = e })))
      go (report bytes) e = inl (bytes, e, rw (e, _ykusb_read))
      go (no_report error) e = inr (error, e, rw (e, _ykusb_read))

  -- The two answers of the backend to a write.
  pub write-cases :
      (bytes : List ℕ) (w : World Dev)
      → (_ykusb_write usb bytes w ≡ done tt (record w { dev = (usb.write bytes w.dev).1 }))
        ⊎ ((e : ℕ) × (_ykusb_write usb bytes w
              ≡ failed (record { dev = (usb.write bytes w.dev).1; errno = e })))
  unfolding _ykusb_write
  write-cases bytes w = elim (Option-cases (usb.write bytes w.dev).0) [
    | inl e ↦ inl (rw (e, _ykusb_write))
    | inr (error, e) ↦ inr (error, rw (e, _ykusb_write))
  ]

  pub read-length :
      (w : World Dev) → Ensures (λ data' _. length data' ≡ 8) (λ _. Unit {0}) (_ykusb_read usb w)
  read-length w = elim (read-cases w) [
    | inl (bytes, e, r) ↦ rw r (length-fill_report bytes)
    | inr (error, e, r) ↦ rw r tt
  ]

-- The rule of the polling loop. `I t` holds of a world in which `t` ms have been slept, and `end'`
-- bounds the time.
module _ {Dev : Type 0} (usb : Usb Dev) (flags : ℕ) (logic_and : Bool) (mask : ℕ)
    (P : List ℕ → World Dev → Type 0) (Q : World Dev → Type 0) (I : ℕ → World Dev → Type 0)
    (end' : ℕ)
    (round : (t sv : ℕ) (w : World Dev)
      → t + sv < end'
      → I t w
      → Ensures (λ _ w'. I (t + sv) w') Q (_ykusb_read usb (record w { dev = usb.sleep sv w.dev })))
    (met : (t : ℕ) (data' : List ℕ) (w : World Dev)
      → t < end'
      → I t w
      → length data' ≡ 8
      → is_ready logic_and mask (status_byte data') ≡ true
      → P data' w)
    (late : (t : ℕ) (w : World Dev) → t < end' → I t w → Q (record w { errno = yk_etimeout }))
    (blocked : (t : ℕ) (w : World Dev)
      → t < end'
      → I t w
      → bit_and flags yk_flag_mayblock ≢ yk_flag_mayblock
      → Ensures
          (λ _ w'. Q (record w' { errno = yk_ewouldblock }))
          (λ w'. Q (record w' { errno = yk_ewouldblock }))
          (yk_force_key_update usb w)) where
  read_round :
      (t sv : ℕ) (w : World Dev)
      → t + sv < end'
      → I t w
      → Ensures
          (λ data' w'. (length data' ≡ 8) × I (t + sv) w')
          Q
          (_ykusb_read usb (record w { dev = usb.sleep sv w.dev }))
  read_round t sv w soon now =
      let v : World Dev = record w { dev = usb.sleep sv w.dev } in
      Ensures-weaken (λ data' w'. (length data' ≡ 8) × I (t + sv) w') (λ w'. Unit {0} × Q w')
        (λ data' w'. (length data' ≡ 8) × I (t + sv) w') Q (_ykusb_read usb v)
        (Ensures-both (λ data' _. length data' ≡ 8) (λ _. Unit {0}) (λ _ w'. I (t + sv) w') Q
          (_ykusb_read usb v) (read-length usb v) (round t sv w soon now))
        (λ _ _ h. h) (λ _ h. h.1)

  -- A round that ends in the given verdict.
  verdict-Ensures :
      (fuel sv slept t max : ℕ) (b : Bool) (data' : List ℕ) (w : World Dev)
      → t < end'
      → I t w
      → length data' ≡ 8
      → ((max' : ℕ) (b' : Bool)
          → judge flags logic_and mask max b (status_byte data') ≡ Verdict.again max' b'
          → Ensures P Q (wait_loop usb flags logic_and mask fuel sv slept max' b' w))
      → (v : Verdict) → judge flags logic_and mask max b (status_byte data') ≡ v
      → Ensures P Q (
          elim v as (λ _. Io Dev (List ℕ)) [
            | Verdict.ready ↦ pure data'
            | Verdict.again max' b' ↦ wait_loop usb flags logic_and mask fuel sv slept max' b'
            | Verdict.would_block ↦ ignore (yk_force_key_update usb) >> fail yk_ewouldblock
            | Verdict.timed_out ↦ fail yk_etimeout
          ]
            w)
  verdict-Ensures fuel sv slept t max b data' w in_time now eight rest Verdict.ready e =
      met t data' w in_time now eight (judge-ready flags logic_and mask max b (status_byte data') e)
  verdict-Ensures fuel sv slept t max b data' w in_time now eight rest (Verdict.again max' b') e =
      rest max' b' e
  verdict-Ensures fuel sv slept t max b data' w in_time now eight rest Verdict.would_block e =
      >>=-Ensures (λ _ w'. Q (record w' { errno = yk_ewouldblock })) Q P
        (ignore (yk_force_key_update usb)) _ w
        (ignore-Ensures _ _ (λ w'. Q (record w' { errno = yk_ewouldblock })) Q
          (yk_force_key_update usb) w
          (blocked t w in_time now
            (judge-would_block flags logic_and mask max b (status_byte data') e))
          (λ _ _ h. h) (λ _ h. h))
        λ _ _ h. h
  verdict-Ensures fuel sv slept t max b data' w in_time now eight rest Verdict.timed_out e =
      late t w in_time now

  pub wait_loop_rule :
      (fuel sv t max : ℕ) (b : Bool) (w : World Dev)
      → 1 ≤ sv
      → sv ≤ 500
      → I t w
      → t < end'
      → max + extension flags b + 500 ≤ end'
      → end' < 2 ^ 32
      → max + extension flags b - t < fuel
      → Ensures P Q (wait_loop usb flags logic_and mask fuel sv t max b w)
  unfolding wait_loop
  wait_loop_rule zero sv t max b w lo hi now in_time fits small enough = absurd (omega arith)
  wait_loop_rule (suc fuel) sv t max b w lo hi now in_time fits small enough =
      elim (Bool-cases (ltb t max)) [
        | inr off ↦ rw (off, wait_loop) (late t w in_time now)
        | inl on ↦
            let before = ltb→lt t max on in
            let wrap : (t + sv) % 2 ^ 32 ≡ t + sv = omega arith in
            rw (on, wait_loop)
              (>>=-Ensures (λ data' w'. (length data' ≡ 8) × I (t + sv) w') Q P (_ykusb_read usb) _
                _ (read_round t sv w (omega arith) now)
                λ data' w' read.
                  verdict-Ensures fuel (back_off sv) ((t + sv) % 2 ^ 32) (t + sv) max b data' w'
                    (omega arith) read.1 read.0
                    (λ max' b' e.
                      let grew =
                        judge-again flags logic_and mask max b (status_byte data') e
                          (omega arith) in
                      rw wrap (
                        wait_loop_rule fuel (back_off sv) (t + sv) max' b' w' (ground arith)
                          (ground arith) read.1 (omega arith) (omega (arith, grew)) small
                          (omega (arith, grew))))
                    (judge flags logic_and mask max b (status_byte data')) refl)
      ]

  pub wait_rule :
      (max_time_ms : ℕ) (w : World Dev)
      → I 0 w
      → max_time_ms + extension flags false + 500 ≤ end'
      → end' < 2 ^ 32
      → Ensures P Q (yk_wait_for_key_status usb flags logic_and mask max_time_ms w)
  unfolding yk_wait_for_key_status
  wait_rule max_time_ms w now fits small =
      wait_loop_rule (max_time_ms + 256 * 1000 + 1) 1 0 max_time_ms false w (omega arith)
        (omega arith) now (omega arith) fits small (ground arith)

module _ {Dev : Type 0} (usb : Usb Dev) (flags : ℕ) (logic_and : Bool) (mask : ℕ) where
  -- A report of eight bytes whose status byte meets the condition waited for.
  abbrev pub Ready : List ℕ → World Dev → Type 0
  Ready data' w = (length data' ≡ 8) × (is_ready logic_and mask (status_byte data') ≡ true)

  -- Why a wait gives up.
  abbrev pub GaveUp : World Dev → Type 0
  GaveUp w =
      (w.errno ≡ yk_etimeout)
      ⊎ ((w.errno ≡ yk_ewouldblock) × (bit_and flags yk_flag_mayblock ≢ yk_flag_mayblock))
      ⊎ ((d : Dev) × ((usb.read d).0 ≡ no_report w.errno))

  -- A wait of at most 4294000 seconds always ends, and reaches no memory that it should not. If it
  -- returns nonzero, the status byte of the report that it read meets the condition. If it returns
  -- zero, the error is a timeout, a refusal to block that the caller has not permitted, or what the
  -- backend left when a read failed.
  pub wait_for_key_status-Ensures :
      (max_time_ms : ℕ) (w : World Dev)
      → max_time_ms ≤ 4294000000
      → Ensures Ready GaveUp (yk_wait_for_key_status usb flags logic_and mask max_time_ms w)
  unfolding yk_force_key_update
  wait_for_key_status-Ensures max_time_ms w fits =
      wait_rule usb flags logic_and mask Ready GaveUp (λ _ _. Unit {0})
        (max_time_ms + 256 * 1000 + 500)
        (λ t sv w' _ _. elim (read-cases usb (record w' { dev = usb.sleep sv w'.dev })) [
          | inl (bytes, e, r) ↦ rw r tt
          | inr (error, e, r) ↦ rw r (inr (inr (usb.sleep sv w'.dev, e)))
        ])
        (λ _ data' w' _ _ eight h. (eight, h)) (λ _ w' _ _. inl refl)
        (λ _ w' _ _ may. elim (write-cases usb (replicate 7 0 ++ (0x8f ∷ [])) w') [
          | inl r ↦ rw r (inr (inl (refl, may)))
          | inr (error, r) ↦ rw r (inr (inl (refl, may)))
        ])
        max_time_ms w tt (ground arith) (omega arith)
