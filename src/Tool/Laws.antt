-- ===== src/Tool/Laws.antt =====
-- What the tool has written when it ends without a failure.
use mathlib.Core.Path.{subst}
use yubikey_personalization.Prelude.{
  ℕ, ◌≡◌, ◌≢◌, ◌⊎◌, inl, inr, refl, ap, sym, arith, Bool, true, false, Option-cases, Option, none,
  some, List, [], ◌∷◌, ◌++◌, ◌==◌, ◌||◌, if◌then◌else◌, take,
}
use yubikey_personalization.Core.Io.{
  Usb, World, Io, failed, Ensures, >>=-Ensures, Ensures-weaken, ◌>>=◌, ◌>>◌, pure, give_up,
}
use yubikey_personalization.Core.Frame.{store_16}
use yubikey_personalization.Core.Frame.Parts.{logged}
use yubikey_personalization.Core.Program.{
  Ndef, DeviceConfig, _yk_write, ndef_bytes, command_buffer, yk_write_ndef2, yk_write_device_config,
  yk_write_scan_map, yk_write_device_info, yk_write_command,
}
use yubikey_personalization.Core.Program.Laws.{Written, _yk_write-Written}
use yubikey_personalization.Pers.Types.{
  slot_ndef, slot_ndef2, slot_device_config, slot_scan_map, slot_yk4_set_device_info,
}
use yubikey_personalization.Args.State.{Run}
use yubikey_personalization.Pers.Ndef.{ykp_set_ndef_access_code, ykp_alloc_ndef}
use yubikey_personalization.Tool.{
  make_ndef, make_device_config, write_ndef, write_mode, commit, ask, confirm_and_commit,
  leaves_otp,
}

module _ {Dev : Type 0} (usb : Usb Dev) (crc16 : List ℕ → ℕ) (big_endian : Bool) where
  -- A command under which the configuration itself is sent.
  abbrev pub SendsConfig : ℕ → Type 0
  SendsConfig command =
      (command ≢ slot_ndef)
      × (command ≢ slot_ndef2)
      × (command ≢ slot_device_config)
      × (command ≢ slot_scan_map)
      × (command ≢ slot_yk4_set_device_info)

  -- The data that the options ask for, by the command of the configuration.
  abbrev pub Payload : Run → Option (List ℕ) → List ℕ → Type 0
  Payload r access_code buf =
      ((ndef : Ndef) × ((r.cfg.command ≡ slot_ndef) ⊎ (r.cfg.command ≡ slot_ndef2))
        × (make_ndef r access_code ≡ some ndef)
        × (buf ≡ ndef_bytes ndef))
      ⊎ ((c : DeviceConfig) × (r.cfg.command ≡ slot_device_config)
          × (make_device_config r ≡ some c)
          × (buf ≡ (c.mode ∷ c.cr_timeout ∷ []) ++ store_16 big_endian c.auto_eject_time))
      ⊎ ((r.cfg.command ≡ slot_scan_map) × (buf ≡ take 45 r.out.scan_bin))
      ⊎ ((r.cfg.command ≡ slot_yk4_set_device_info) × (buf ≡ r.out.device_info))
      ⊎ (SendsConfig r.cfg.command
          × (buf
              ≡ command_buffer crc16 big_endian (if r.seen.zap then none else some r.cfg.core)
                  access_code))

  -- The second question, on a change of mode to one without OTP, was answered otherwise than by yes.
  abbrev pub CalledOff : Run → Type 0
  CalledOff r =
      (r.cfg.command ≡ slot_device_config)
      × (leaves_otp r.out.usb_mode ≡ true)
      × ((ask r.out.autocommit r.lines).0 ≡ some false)

  -- Nothing was done, for one of two reasons, or the command and its data were written.
  abbrev pub Committed :
      Run
      → Option (List ℕ)
      → World (Dev × List (List ℕ))
      → Bool
      → World (Dev × List (List ℕ))
      → Type 0
  Committed r access_code w b w' =
      ((w' ≡ w) × (((r.out.dry_run ≡ true) × (b ≡ true)) ⊎ ((b ≡ false) × CalledOff r)))
      ⊎ ((b ≡ true)
          × (r.out.dry_run ≡ false)
          × ((buf : List ℕ) × Payload r access_code buf
              × Written usb crc16 big_endian r.cfg.command buf w w'))

  writes :
      (r : Run) (access_code : Option (List ℕ)) (cmd : ℕ) (buf : List ℕ)
      (w : World (Dev × List (List ℕ)))
      → r.out.dry_run ≡ false
      → cmd ≡ r.cfg.command
      → Payload r access_code buf
      → Ensures
          (Committed r access_code w)
          (λ _. Unit {0})
          ((_yk_write (logged usb) crc16 big_endian cmd buf >>= λ _. pure true) w)
  writes r access_code cmd buf w wet same payload =
      >>=-Ensures (λ _ w'. Written usb crc16 big_endian cmd buf w w') (λ _. Unit {0})
        (Committed r access_code w) (_yk_write (logged usb) crc16 big_endian cmd buf) _ w
        (_yk_write-Written usb crc16 big_endian cmd buf w)
        λ _ w' h.
          inr
            (refl, wet, (buf, payload, subst (λ c. Written usb crc16 big_endian c buf w w') same h))

  write_ndef-Committed :
      (r : Run) (access_code : Option (List ℕ)) (w : World (Dev × List (List ℕ)))
      → r.out.dry_run ≡ false
      → (r.cfg.command ≡ slot_ndef) ⊎ (r.cfg.command ≡ slot_ndef2)
      → Ensures
          (Committed r access_code w)
          (λ _. Unit {0})
          (write_ndef (logged usb) crc16 big_endian r access_code w)
  unfolding write_ndef yk_write_ndef2
  write_ndef-Committed r access_code w wet for_ndef =
      elim (Option-cases (make_ndef r access_code)) [
        | inl e ↦ rw (e, write_ndef) tt
        | inr (ndef, e) ↦ elim for_ndef [
          | inl one ↦
              rw (e, is_ndef2 slot_ndef r.cfg.command one, write_ndef)
                (writes r access_code slot_ndef (ndef_bytes ndef) w wet (sym one)
                  (inl (ndef, inl one, e, refl)))
          | inr two ↦
              rw (e, is_ndef2 slot_ndef2 r.cfg.command two, write_ndef)
                (writes r access_code slot_ndef2 (ndef_bytes ndef) w wet (sym two)
                  (inl (ndef, inr two, e, refl)))
        ]
      ]
    where
      is_ndef2 : (command c : ℕ) → c ≡ command → (c == slot_ndef2) ≡ (command == slot_ndef2)
      is_ndef2 command c same = ap (λ x. x == slot_ndef2) same

  device_bytes : DeviceConfig → List ℕ
  device_bytes c = (c.mode ∷ c.cr_timeout ∷ []) ++ store_16 big_endian c.auto_eject_time

  write_mode-Committed :
      (r : Run) (access_code : Option (List ℕ)) (w : World (Dev × List (List ℕ)))
      → r.out.dry_run ≡ false
      → r.cfg.command ≡ slot_device_config
      → Ensures
          (Committed r access_code w)
          (λ _. Unit {0})
          (write_mode (logged usb) crc16 big_endian r w)
  unfolding write_mode yk_write_device_config
  write_mode-Committed r access_code w wet for_mode = elim (Option-cases (make_device_config r)) [
    | inl e ↦ rw (e, write_mode) tt
    | inr (c, e) ↦
        rw (e, write_mode)
          (agreed c e
            (if leaves_otp r.out.usb_mode then (ask r.out.autocommit r.lines).0 else some true)
            (called_off _ _))
  ]
    where
      called_off :
          (leaves : Bool) (asked : Option Bool)
          → (if leaves then asked else some true) ≡ some false
          → (leaves ≡ true) × (asked ≡ some false)
      called_off true asked h = (refl, h)
      called_off false asked h = absurd (ground (arith, h))

      agreed :
          (c : DeviceConfig)
          → make_device_config r ≡ some c
          → (o : Option Bool)
          → (o ≡ some false
              → (leaves_otp r.out.usb_mode ≡ true)
                × ((ask r.out.autocommit r.lines).0 ≡ some false))
          → let m : Io (Dev × List (List ℕ)) Bool = elim o [
            | none ↦ give_up
            | some false ↦ pure false
            | some true ↦ (do yk_write_device_config (logged usb) crc16 big_endian c; pure true)
          ] in
            Ensures (Committed r access_code w) (λ _. Unit {0}) (m w)
      agreed c e none off = tt
      agreed c e (some false) off = inl (refl, inr (refl, (for_mode, (off refl).0, (off refl).1)))
      agreed c e (some true) off =
          writes r access_code slot_device_config _ w wet (sym for_mode)
            (inr (inl (c, for_mode, e, refl)))

  pub if-Ensures :
      {A : Type 0} (P : A → World (Dev × List (List ℕ)) → Type 0) (b : Bool)
      (m n : Io (Dev × List (List ℕ)) A) (w : World (Dev × List (List ℕ)))
      → (b ≡ true → Ensures P (λ _. Unit {0}) (m w))
      → (b ≡ false → Ensures P (λ _. Unit {0}) (n w))
      → Ensures P (λ _. Unit {0}) ((if b then m else n) w)
  if-Ensures P true m n w then1 then2 = then1 refl
  if-Ensures P false m n w then1 then2 = then2 refl

  sends_config :
      (command : ℕ)
      → (command == slot_ndef || command == slot_ndef2) ≡ false
      → (command == slot_device_config) ≡ false
      → (command == slot_scan_map) ≡ false
      → (command == slot_yk4_set_device_info) ≡ false
      → SendsConfig command
  sends_config command no_ndef no_mode no_map no_info =
      (ground arith, ground arith, ground arith, ground arith, ground arith)

  pub commit-Committed :
      (r : Run) (access_code : Option (List ℕ)) (w : World (Dev × List (List ℕ)))
      → Ensures
          (Committed r access_code w)
          (λ _. Unit {0})
          (commit (logged usb) crc16 big_endian r access_code w)
  unfolding commit yk_write_scan_map yk_write_device_info yk_write_command
  commit-Committed r access_code w =
      if-Ensures (Committed r access_code w) r.out.dry_run _ _ w
        (λ dry. inl (refl, inl (dry, refl)))
        λ wet.
          if-Ensures (Committed r access_code w)
            (r.cfg.command == slot_ndef || r.cfg.command == slot_ndef2) _ _ w
            (λ e. write_ndef-Committed r access_code w wet (ground arith))
            λ no_ndef.
              if-Ensures (Committed r access_code w) (r.cfg.command == slot_device_config) _ _ w
                (λ e. write_mode-Committed r access_code w wet (ground arith))
                λ no_mode.
                  if-Ensures (Committed r access_code w) (r.cfg.command == slot_scan_map) _ _ w
                    (λ e.
                      writes r access_code slot_scan_map _ w wet (ground arith)
                        (inr (inr (inl (ground arith, refl)))))
                    λ no_map.
                      if-Ensures (Committed r access_code w)
                        (r.cfg.command == slot_yk4_set_device_info) _ _ w
                        (λ e.
                          writes r access_code slot_yk4_set_device_info _ w wet (ground arith)
                            (inr (inr (inr (inl (ground arith, refl))))))
                        λ no_info. writes r access_code r.cfg.command _ w wet refl (
                          inr (
                            inr (
                              inr (
                                inr (
                                  sends_config r.cfg.command no_ndef no_mode no_map no_info,
                                  refl,
                                )))))

  -- The same behind the question, whose answer may call the write off.
  pub confirm_and_commit-Committed :
      (r : Run) (access_code : Option (List ℕ)) (w : World (Dev × List (List ℕ)))
      → Ensures
          (λ b w'.
            ((w' ≡ w) × (b ≡ false) × ((ask r.out.autocommit r.lines).0 ≡ some false))
            ⊎ Committed (record r { lines = (ask r.out.autocommit r.lines).1 }) access_code w b w')
          (λ _. Unit {0})
          (confirm_and_commit (logged usb) crc16 big_endian r access_code w)
  unfolding confirm_and_commit
  confirm_and_commit-Committed r access_code w =
      elim (Option-cases (ask r.out.autocommit r.lines).0) [
        | inl e ↦ rw (e, confirm_and_commit) tt
        | inr (false, e) ↦ rw (e, confirm_and_commit) (inl (refl, refl, refl))
        | inr (true, e) ↦
            rw (e, confirm_and_commit)
              (Ensures-weaken
                (Committed (record r { lines = (ask r.out.autocommit r.lines).1 }) access_code w)
                (λ _. Unit {0}) _ (λ _. Unit {0}) _
                (commit-Committed (record r { lines = (ask r.out.autocommit r.lines).1 })
                  access_code w)
                (λ b w' h. inr h) (λ _ _. tt))
      ]

-- A record that is to carry an access code is never made.
make_ndef-coded : (r : Run) (code : List ℕ) → make_ndef r (some code) ≡ none
unfolding make_ndef ykp_set_ndef_access_code ykp_alloc_ndef
make_ndef-coded r code = ground arith

module _ {Dev : Type 0} (usb : Usb Dev) (crc16 : List ℕ → ℕ) (big_endian : Bool) where
  -- A write of an NDEF record with an access code always fails, and before anything is sent.
  pub commit_ndef_coded :
      (r : Run) (code : List ℕ) (w : World Dev)
      → r.out.dry_run ≡ false
      → (r.cfg.command ≡ slot_ndef) ⊎ (r.cfg.command ≡ slot_ndef2)
      → commit usb crc16 big_endian r (some code) w ≡ failed w
  unfolding commit write_ndef
  commit_ndef_coded r code w wet for_ndef =
      let chosen : ((r.cfg.command == slot_ndef) || (r.cfg.command == slot_ndef2)) ≡ true =
        ground arith in
      rw (
        wet,
        chosen,
        make_ndef-coded (record r { out = record (r.out) { dry_run = false } }) code,
        write_ndef,
      )
