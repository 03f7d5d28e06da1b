-- ===== src/Core/Program/Open.antt =====
-- A key that is opened has answered a request for its status.
use yubikey_personalization.Prelude.{ℕ, ◌≡◌, inl, inr, Bool, refl, take, drop}
use yubikey_personalization.Core.Io.{
  Usb, World, Res, done, failed, fault, stuck, Ensures, >>=-Ensures, ignore, ignore-Ensures,
  set_errno, give_up, ◌>>◌, pure, _ykusb_read,
}
use yubikey_personalization.Core.Wait.Laws.{read-cases}
use yubikey_personalization.Core.Response.{yk_get_status, yk_read_from_key}
use yubikey_personalization.Core.Program.{Bus, product_ids, check_open, yk_open_key}
use yubikey_personalization.Pers.Types.{Status}

module _ {Dev : Type 0} (usb : Usb Dev) (big_endian : Bool) where
  get_status-total :
      (w : World Dev) → Ensures (λ _ _. Unit {0}) (λ _. Unit {0}) (yk_get_status usb big_endian w)
  unfolding yk_get_status yk_read_from_key
  get_status-total w =
      >>=-Ensures (λ _ _. Unit {0}) (λ _. Unit {0}) _ (yk_read_from_key usb 6) _ w
        (>>=-Ensures (λ _ _. Unit {0}) (λ _. Unit {0}) (λ _ _. Unit {0}) (_ykusb_read usb)
          (λ data'. pure (take 6 (drop 1 data'))) w read λ _ _ h. tt)
        λ _ _ h. tt
    where
      read : Ensures (λ _ _. Unit {0}) (λ _. Unit {0}) (_ykusb_read usb w)
      read = elim (read-cases usb w) [ inl (bytes, e, r) ↦ rw r tt | inr (error, e, r) ↦ rw r tt ]

  -- The status could be read, and `yk_errno` is what it was before that.
  abbrev pub Answers : World Dev → Type 0
  Answers w' =
      (v u : World Dev) × (st : Status) × (yk_get_status usb big_endian v ≡ done st u)
      × (w' ≡ record u { errno = v.errno })

  module _ (bus : Bus Dev) where
    check_open-Answers :
        (w : World Dev)
        → ((v : World Dev) → Ensures (λ _ _. Unit {0}) (λ _. Unit {0}) (bus.close_device v))
        → Ensures (λ _ w'. Answers w') (λ _. Unit {0}) (check_open usb bus big_endian w)
    unfolding check_open
    check_open-Answers w closes = go (yk_get_status usb big_endian w) refl (get_status-total w)
      where
        go :
            (r : Res Dev Status)
            → yk_get_status usb big_endian w ≡ r
            → Ensures (λ _ _. Unit {0}) (λ _. Unit {0}) r
            → Ensures {A = Unit {0}}
                (λ _ w'. Answers w')
                (λ _. Unit {0})
                (elim r [
                  | done st w' ↦ done tt (record w' { errno = w.errno })
                  | failed w' ↦ (do ignore bus.close_device; set_errno w'.errno; give_up) w'
                  | fault ↦ fault
                  | stuck ↦ stuck
                ])
        go (done st u) e h = (w, u, st, e, refl)
        go (failed u) e h =
            >>=-Ensures (λ _ _. Unit {0}) (λ _. Unit {0}) (λ _ w'. Answers w')
              (ignore bus.close_device) _ u
              (ignore-Ensures (λ _ _. Unit {0}) (λ _. Unit {0}) (λ _. Unit {0}) (λ _. Unit {0})
                bus.close_device u (closes u) (λ _ _ _. tt) (λ _ _. tt))
              λ _ _ _. tt
        go fault e h = h
        go stuck e h = h

    -- Over a backend that opens and closes devices without fault, a key that is opened, of either
    -- vendor, has answered a request for its status, and `yk_errno` is what it was before that request.
    pub yk_open_key-Answers :
        (index : ℕ) (w : World Dev)
        → ((vendor : ℕ) (v : World Dev)
            → Ensures
                (λ _ _. Unit {0})
                (λ _. Unit {0})
                (bus.open_device vendor product_ids index v))
        → ((v : World Dev) → Ensures (λ _ _. Unit {0}) (λ _. Unit {0}) (bus.close_device v))
        → Ensures (λ _ w'. Answers w') (λ _. Unit {0}) (yk_open_key usb bus big_endian index w)
    unfolding yk_open_key
    yk_open_key-Answers index w opens closes =
        go (bus.open_device 0x1050 product_ids index w) (opens 0x1050 w)
      where
        go :
            (r : Res Dev (Unit {0}))
            → Ensures (λ _ _. Unit {0}) (λ _. Unit {0}) r
            → Ensures {A = Unit {0}}
                (λ _ w'. Answers w')
                (λ _. Unit {0})
                (elim r [
                  | done u w' ↦ check_open usb bus big_endian w'
                  | failed w' ↦
                      (do
                        set_errno 0
                        bus.open_device 0x1d50 product_ids index
                        check_open usb bus big_endian)
                        w'
                  | fault ↦ fault
                  | stuck ↦ stuck
                ])
        go (done u w') h = check_open-Answers w' closes
        go (failed w') h =
            >>=-Ensures (λ _ _. Unit {0}) (λ _. Unit {0}) (λ _ v. Answers v)
              (bus.open_device 0x1d50 product_ids index) _ (record w' { errno = 0 })
              (opens 0x1d50 (record w' { errno = 0 })) λ _ v _. check_open-Answers v closes
        go fault h = h
        go stuck h = h
