-- ===== src/Tool/Aims.antt =====
-- The preparations of the tool leave the command of the configuration.
use mathlib.Core.Path.{subst}
use yubikey_personalization.Prelude.{
  ℕ, ◌≡◌, inl, inr, refl, ap, ◌∙◌, Bool, true, false, Bool-cases, Option-cases, Option, none, some,
  List, [], ◌∷◌, ◌==◌, ◌&&◌, ltb, not, drop, length,
}
use yubikey_personalization.Core.Io.{
  Usb, World, Res, done, failed, fault, stuck, Io, Ensures, >>=-Ensures, Ensures-weaken, ignore,
  ignore-Ensures, pure,
}
use yubikey_personalization.Core.Frame.Parts.{logged}
use yubikey_personalization.Core.Program.{yk_get_serial}
use yubikey_personalization.Core.Program.Laws.{get_serial-Answered}
use yubikey_personalization.Pers.Types.{Status, Config, Call}
use yubikey_personalization.Pers.Flags.{
  write_cfgflag, write_extflag, has_flag, tktflag_mask, oath_hotp, oath_fixed_modhex2,
  serial_api_visible,
}
use yubikey_personalization.Pers.Fields.{ykp_set_access_code, ykp_set_fixed}
use yubikey_personalization.Pers.Keys.{Libyubikey}
use yubikey_personalization.Args.{hex_modhex_decode, _set_fixed, _format_oath_id}
use yubikey_personalization.Args.State.{Run}
use yubikey_personalization.Args.Options.{called}
use yubikey_personalization.Args.Parse.{on_config}
use yubikey_personalization.Args.Parse.Steady.{
  Steady, Decoded-cases, write_cfgflag-Steady, write_extflag-Steady, set_fixed-Steady,
}
use yubikey_personalization.Tool.{
  reads_serial, shows_serial, set_new_access_code, set_codes, format_serial, set_serial_id,
  set_oath_id, apply_oath_id, prepare,
}
use yubikey_personalization.Tool.Laws.{if-Ensures}

-- Of the configuration only the record for the key may differ, and the options are the same.
abbrev pub SameAim : Run → Run → Type 0
SameAim r q = (q.cfg ≡ record r.cfg { core = q.cfg.core }) × (q.out ≡ r.out)

SameAim-trans : (r q p : Run) → SameAim r q → SameAim q p → SameAim r p
SameAim-trans r q p h k =
    let with_core : Config → Config = λ c. record c { core = p.cfg.core } in
    (k.0 ∙ ap with_core h.0, k.1 ∙ h.1)

called-SameAim : (f : Call) (r q : Run) → Steady f → SameAim r q → SameAim r (called f q)
called-SameAim f r q steady h = SameAim-trans r q (called f q) h (steady q.cfg q.errno, refl)

-- What comes of the access codes.
abbrev Coded : {A : Type 0} → (A → Run) → Run → Option A → Type 0
Coded run r none = Unit {0}
Coded run r (some a) = SameAim r (run a)

set_access_code-Steady : (input : List ℕ) → Steady (on_config (ykp_set_access_code input))
unfolding ykp_set_access_code
set_access_code-Steady input c errno = refl

module _ (lib : Libyubikey) where
  set_new_access_code-SameAim : (r : Run) → Coded (λ q. q) r (set_new_access_code lib r)
  unfolding set_new_access_code
  set_new_access_code-SameAim r = elim (Option-cases r.out.new_access_code) [
    | inl e ↦ simp (e, set_new_access_code) (refl, refl)
    | inr (text, e) ↦ elim (Decoded-cases (hex_modhex_decode lib text 12 12 false)) [
      | inl d ↦ simp (e, d, set_new_access_code) tt
      | inr (inl d) ↦ simp (e, d, set_new_access_code) tt
      | inr (inr (bytes, d)) ↦
          simp (e, d, set_new_access_code) (set_access_code-Steady bytes r.cfg r.errno, refl)
    ]
  ]

  set_codes-SameAim : (r : Run) → Coded (λ q. q.0) r (set_codes lib r)
  unfolding set_codes
  set_codes-SameAim r = elim (Option-cases r.out.access_code) [
    | inl e ↦ elim (Option-cases (set_new_access_code lib r)) [
      | inl n ↦ simp (e, n, set_codes) tt
      | inr (q, n) ↦
          simp (e, n, set_codes) (subst (Coded (λ q. q) r) n (set_new_access_code-SameAim r))
    ]
    | inr (text, e) ↦ elim (Decoded-cases (hex_modhex_decode lib text 12 12 false)) [
      | inl d ↦ simp (e, d, set_codes) tt
      | inr (inl d) ↦ simp (e, d, set_codes) tt
      | inr (inr (bytes, d)) ↦ elim (Option-cases r.out.new_access_code) [
        | inl o ↦ simp (e, d, o, set_codes) (set_access_code-Steady bytes r.cfg r.errno, refl)
        | inr (new', o) ↦ elim (Option-cases (set_new_access_code lib r)) [
          | inl n ↦ simp (e, d, o, n, set_codes) tt
          | inr (q, n) ↦
              simp (e, d, o, n, set_codes)
                (subst (Coded (λ q. q) r) n (set_new_access_code-SameAim r))
        ]
      ]
    ]
  ]

module _ {Dev : Type 0} (usb : Usb Dev) (crc16 : List ℕ → ℕ) (big_endian : Bool)
    (lib : Libyubikey) where
  abbrev SameAims : {A : Type 0} → (A → Run) → Run → A → World (Dev × List (List ℕ)) → Type 0
  SameAims run r a w' = SameAim r (run a)

  get_serial-ends :
      (w : World (Dev × List (List ℕ)))
      → Ensures (λ _ _. Unit {0}) (λ _. Unit {0}) (yk_get_serial (logged usb) crc16 big_endian 0 w)
  get_serial-ends w =
      Ensures-weaken _ (λ _. Unit {0}) _ (λ _. Unit {0}) _
        (get_serial-Answered usb crc16 big_endian 0 w) (λ _ _ _. tt) (λ _ _. tt)

  format_serial-SameAim :
      (serial : ℕ) (r : Run)
      → SameAim r (format_serial (logged usb) crc16 big_endian lib serial r).1
  unfolding format_serial ykp_set_fixed
  format_serial-SameAim serial r = elim (Option-cases (_format_oath_id 12 0xe1 0x63 serial)) [
    | inl e ↦ rw (e, format_serial) (refl, refl)
    | inr (oath_id, e) ↦ rw (e, format_serial) (refl, refl)
  ]

  set_serial_id-SameAim :
      (st : Status) (r : Run) (w : World (Dev × List (List ℕ)))
      → Ensures
          (SameAims (λ a. a.1) r)
          (λ _. Unit {0})
          (set_serial_id (logged usb) crc16 big_endian lib st r w)
  unfolding set_serial_id
  set_serial_id-SameAim st r w = elim (Bool-cases (reads_serial st)) [
    | inr old ↦ rw (old, set_serial_id) (refl, refl)
    | inl new' ↦
        rw (new', set_serial_id)
          (by_serial (yk_get_serial (logged usb) crc16 big_endian 0 w) (get_serial-ends w))
  ]
    where
      by_serial :
          (read : Res (Dev × List (List ℕ)) ℕ)
          → Ensures (λ _ _. Unit {0}) (λ _. Unit {0}) read
          → let ended : Res (Dev × List (List ℕ)) (ℕ × Run) = elim read [
            | failed w' ↦ done (0, r) w'
            | fault ↦ fault
            | stuck ↦ stuck
            | done serial w' ↦ done (format_serial (logged usb) crc16 big_endian lib serial r) w'
          ] in
            Ensures (SameAims (λ a. a.1) r) (λ _. Unit {0}) ended
      by_serial (done serial w') h = format_serial-SameAim serial r
      by_serial (failed w') h = (refl, refl)
      by_serial fault h = h
      by_serial stuck h = h

  set_oath_id-SameAim :
      (opt : List ℕ) (st : Status) (r : Run) (w : World (Dev × List (List ℕ)))
      → Ensures
          (SameAims (λ a. a.1) r)
          (λ _. Unit {0})
          (set_oath_id (logged usb) crc16 big_endian lib opt st r w)
  unfolding set_oath_id
  set_oath_id-SameAim opt st r w =
      if-Ensures usb crc16 big_endian (SameAims (λ a. a.1) r)
        (not (has_flag r.cfg.core.tkt_flags (tktflag_mask oath_hotp))) _ _ w (λ _. (refl, refl))
        λ _.
          if-Ensures usb crc16 big_endian (SameAims (λ a. a.1) r)
            ((write_cfgflag oath_fixed_modhex2 true r.cfg r.errno).0 == 0) _ _ w (λ _. aim1)
            λ _.
              if-Ensures usb crc16 big_endian (SameAims (λ a. a.1) r)
                ((write_extflag serial_api_visible true r1.cfg r1.errno).0 == 0) _ _ w (λ _. aim2)
                λ _.
                  if-Ensures usb crc16 big_endian (SameAims (λ a. a.1) r) (ltb 7 (length opt)) _ _ w
                    (λ _.
                      if-Ensures usb crc16 big_endian (SameAims (λ a. a.1) r)
                        (not ((on_config (_set_fixed lib (drop 8 opt)) r2.cfg r2.errno).0 == 1)) _ _
                        w (λ _. aim3) (λ _. aim3))
                    λ _.
                      Ensures-weaken (SameAims (λ a. a.1) r2) (λ _. Unit {0}) _ (λ _. Unit {0}) _
                        (set_serial_id-SameAim st r2 w) (λ a _ h. SameAim-trans r r2 a.1 aim2 h)
                        (λ _ _. tt)
    where
      r1 : Run
      r1 = called (write_cfgflag oath_fixed_modhex2 true) r

      r2 : Run
      r2 = called (write_extflag serial_api_visible true) r1

      aim1 : SameAim r r1
      aim1 =
          called-SameAim (write_cfgflag oath_fixed_modhex2 true) r r
            (write_cfgflag-Steady oath_fixed_modhex2 true) (refl, refl)

      aim2 : SameAim r r2
      aim2 =
          called-SameAim (write_extflag serial_api_visible true) r r1
            (write_extflag-Steady serial_api_visible true) aim1

      aim3 : SameAim r (called (on_config (_set_fixed lib (drop 8 opt))) r2)
      aim3 =
          called-SameAim (on_config (_set_fixed lib (drop 8 opt))) r r2
            (set_fixed-Steady lib (drop 8 opt)) aim2

  apply_oath_id-SameAim :
      (st : Status) (r : Run) (w : World (Dev × List (List ℕ)))
      → Ensures
          (SameAims (λ a. a.1) r)
          (λ _. Unit {0})
          (apply_oath_id (logged usb) crc16 big_endian lib st r w)
  unfolding apply_oath_id
  apply_oath_id-SameAim st r w = by_text r.out.oathid
    where
      by_text :
          (text : List ℕ)
          → let applied : Io (Dev × List (List ℕ)) (ℕ × Run) = elim text [
            | [] ↦ pure (0, r)
            | c ∷ opt ↦ set_oath_id (logged usb) crc16 big_endian lib (c ∷ opt) st r
          ] in
            Ensures (SameAims (λ a. a.1) r) (λ _. Unit {0}) (applied w)
      by_text [] = (refl, refl)
      by_text (c ∷ opt) = set_oath_id-SameAim (c ∷ opt) st r w

  pub prepare-SameAim :
      (st : Status) (r : Run) (w : World (Dev × List (List ℕ)))
      → Ensures
          (SameAims (λ a. a.0) r)
          (λ _. Unit {0})
          (prepare (logged usb) crc16 big_endian lib st r w)
  unfolding prepare
  prepare-SameAim st r w =
      >>=-Ensures (SameAims (λ a. a.1) r) (λ _. Unit {0}) (SameAims (λ a. a.0) r)
        (apply_oath_id (logged usb) crc16 big_endian lib st r) _ w (apply_oath_id-SameAim st r w)
        λ q w' h. elim (Option-cases (set_codes lib q.1)) [
          | inl e ↦ rw (e, prepare) tt
          | inr (coded, e) ↦
              rw (e, prepare)
                (if-Ensures usb crc16 big_endian (SameAims (λ a. a.0) r)
                  (coded.0.out.verbose && shows_serial st) _ _ w'
                  (λ _.
                    >>=-Ensures (λ _ _. Unit {0}) (λ _. Unit {0}) (SameAims (λ a. a.0) r)
                      (ignore (yk_get_serial (logged usb) crc16 big_endian 0)) _ w'
                      (ignore-Ensures (λ _ _. Unit {0}) (λ _. Unit {0}) (λ _. Unit {0})
                        (λ _. Unit {0}) (yk_get_serial (logged usb) crc16 big_endian 0) w'
                        (get_serial-ends w') (λ _ _ _. tt) (λ _ _. tt))
                      (λ _ _ _. aims q.1 coded h e))
                  (λ _. aims q.1 coded h e))
        ]
    where
      aims :
          (q : Run) (coded : Run × Option (List ℕ))
          → SameAim r q
          → set_codes lib q ≡ some coded
          → SameAim r coded.0
      aims q coded h e =
          SameAim-trans r q coded.0 h (subst (Coded (λ c. c.0) q) e (set_codes-SameAim lib q))
