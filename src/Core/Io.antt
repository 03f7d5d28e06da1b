-- ===== src/Core/Io.antt =====
-- The world of ykcore/ykcore.c: a device behind a USB backend, and `yk_errno`.
--
-- The backends (ykcore/ykcore_libusb*.c, ykcore_osx.c, ykcore_windows.c) hand over to system
-- libraries; here a backend is a parameter. A read that fails and a write that fails carry the
-- error code that the backend leaves in `yk_errno`.
use yubikey_personalization.Prelude.{ℕ, Option, none, some, List, ◌≡◌, refl, ◌++◌, take, replicate}

pub data Reply : Type 0 where
  report : List ℕ → Reply
  no_report : ℕ → Reply

-- `_ykusb_read` and `_ykusb_write` on feature reports, and the passing of time.
pub record Usb (Dev : Type 0) : Type 0 where
  pub read : Dev → Reply × Dev
  pub write : List ℕ → Dev → Option ℕ × Dev
  pub sleep : ℕ → Dev → Dev

pub record World (Dev : Type 0) : Type 0 where
  pub dev : Dev
  pub errno : ℕ

-- How a call ends: it returns nonzero, or zero, or it leaves the memory that it was given, or
-- its fuel runs out, which is no behaviour of the program.
pub data Res (Dev : Type 0) (A : Type 0) : Type 0 where
  done : A → World Dev → Res Dev A
  failed : World Dev → Res Dev A
  fault : Res Dev A
  stuck : Res Dev A

abbrev pub Io : Type 0 → Type 0 → Type 0
Io Dev A = World Dev → Res Dev A

module _ {Dev : Type 0} where
  infixl 5 ◌>>=◌ ◌>>◌
  abbrev pub ◌>>=◌ : {A B : Type 0} → Io Dev A → (A → Io Dev B) → Io Dev B
  ◌>>=◌ m f w = elim (m w) [
    | done a w' ↦ f a w'
    | failed w' ↦ failed w'
    | fault ↦ fault
    | stuck ↦ stuck
  ]

  abbrev pub ◌>>◌ : {A B : Type 0} → Io Dev A → Io Dev B → Io Dev B
  m >> k = m >>= λ _. k

  abbrev pub pure : {A : Type 0} → A → Io Dev A
  pure a w = done a w

  -- `yk_errno = e; return 0;`
  abbrev pub fail : {A : Type 0} → ℕ → Io Dev A
  fail e w = failed (record w { errno = e })

  -- `return 0;`
  abbrev pub give_up : {A : Type 0} → Io Dev A
  give_up w = failed w

  abbrev pub set_errno : ℕ → Io Dev (Unit {0})
  set_errno e w = done tt (record w { errno = e })

  abbrev pub out_of_bounds : {A : Type 0} → Io Dev A
  out_of_bounds w = fault

  -- A call whose return value is not looked at.
  abbrev pub ignore : {A : Type 0} → Io Dev A → Io Dev (Unit {0})
  ignore m w = elim (m w) [
    | done a w' ↦ done tt w'
    | failed w' ↦ done tt w'
    | fault ↦ fault
    | stuck ↦ stuck
  ]

-- What may come out of a call: a value and a world, or a world after a failure, and no fault.
abbrev pub Ensures :
    {Dev A : Type 0} → (A → World Dev → Type 0) → (World Dev → Type 0) → Res Dev A → Type 0
Ensures P Q (done a w) = P a w
Ensures P Q (failed w) = Q w
Ensures P Q fault = ⊥
Ensures P Q stuck = ⊥

module _ {Dev A : Type 0} (P : A → World Dev → Type 0) (Q : World Dev → Type 0) where
  -- The rule for a call after a call, with the possible failures of both.
  pub >>=-Ensures :
      {B : Type 0} (R : B → World Dev → Type 0) (m : Io Dev A) (f : A → Io Dev B) (w : World Dev)
      → Ensures P Q (m w)
      → ((a : A) (w' : World Dev) → P a w' → Ensures R Q (f a w'))
      → Ensures R Q ((m >>= f) w)
  >>=-Ensures {B} R m f w h k = go (m w) h
    where
      go :
          (r : Res Dev A)
          → Ensures P Q r
          → Ensures R Q (elim r [
            | done a w' ↦ f a w'
            | failed w' ↦ failed w'
            | fault ↦ fault
            | stuck ↦ stuck
          ])
      go (done a w') h = k a w' h
      go (failed w') h = h
      go fault h = h
      go stuck h = h

  -- A weaker promise.
  pub Ensures-weaken :
      (R : A → World Dev → Type 0) (S : World Dev → Type 0) (r : Res Dev A)
      → Ensures P Q r
      → ((a : A) (w' : World Dev) → P a w' → R a w')
      → ((w' : World Dev) → Q w' → S w')
      → Ensures R S r
  Ensures-weaken R S (done a w') h f g = f a w' h
  Ensures-weaken R S (failed w') h f g = g w' h
  Ensures-weaken R S fault h f g = h
  Ensures-weaken R S stuck h f g = h

  -- Two promises together.
  pub Ensures-both :
      (R : A → World Dev → Type 0) (S : World Dev → Type 0) (r : Res Dev A)
      → Ensures P Q r
      → Ensures R S r
      → Ensures (λ a w'. P a w' × R a w') (λ w'. Q w' × S w') r
  Ensures-both R S (done a w') h k = (h, k)
  Ensures-both R S (failed w') h k = (h, k)
  Ensures-both R S fault h k = h
  Ensures-both R S stuck h k = h

  -- The promise beside the call that it is about.
  pub Ensures-result :
      (r : Res Dev A) → Ensures P Q r → Ensures (λ a w'. (r ≡ done a w') × P a w') Q r
  Ensures-result (done a w') h = (refl, h)
  Ensures-result (failed w') h = h
  Ensures-result fault h = h
  Ensures-result stuck h = h

  -- A call whose return value is not looked at cannot fail.
  pub ignore-Ensures :
      (R : World Dev → Type 0) (S : World Dev → Type 0) (m : Io Dev A) (w : World Dev)
      → Ensures P Q (m w)
      → ((a : A) (w' : World Dev) → P a w' → R w')
      → ((w' : World Dev) → Q w' → R w')
      → Ensures (λ _ w'. R w') S (ignore m w)
  ignore-Ensures R S m w h f g = go (m w) h
    where
      go :
          (r : Res Dev A)
          → Ensures P Q r
          → Ensures {A = Unit {0}}
              (λ _ w'. R w')
              S
              (elim r [
                | done a w' ↦ done tt w'
                | failed w' ↦ done tt w'
                | fault ↦ fault
                | stuck ↦ stuck
              ])
      go (done a w') h = f a w' h
      go (failed w') h = g w' h
      go fault h = h
      go stuck h = h

-- A report read into eight zeroed bytes.
abbrev pub fill_report : List ℕ → List ℕ
fill_report bytes = take 8 (bytes ++ replicate 8 0)

module _ {Dev : Type 0} (usb : Usb Dev) where
  unfoldable pub _ykusb_read : Io Dev (List ℕ)
  _ykusb_read w =
      let (reply, d) = usb.read w.dev in
      elim reply [
        | report bytes ↦ done (fill_report bytes) (record w { dev = d })
        | no_report e ↦ failed (record { dev = d; errno = e })
      ]

  unfoldable pub _ykusb_write : List ℕ → Io Dev (Unit {0})
  _ykusb_write bytes w =
      let (error, d) = usb.write bytes w.dev in
      elim error [
        | none ↦ done tt (record w { dev = d })
        | some e ↦ failed (record { dev = d; errno = e })
      ]

  unfoldable pub sleep_ms : ℕ → Io Dev (Unit {0})
  sleep_ms ms w = done tt (record w { dev = usb.sleep ms w.dev })

abbrev pub yk_ewrongsiz : ℕ
yk_ewrongsiz = 0x02

abbrev pub yk_ewriteerr : ℕ
yk_ewriteerr = 0x03

abbrev pub yk_etimeout : ℕ
yk_etimeout = 0x04

abbrev pub yk_echecksum : ℕ
yk_echecksum = 0x0a

abbrev pub yk_ewouldblock : ℕ
yk_ewouldblock = 0x0b

abbrev pub yk_einvalidcmd : ℕ
yk_einvalidcmd = 0x0c

abbrev pub resp_timeout_wait_flag : ℕ
resp_timeout_wait_flag = 0x20

abbrev pub resp_pending_flag : ℕ
resp_pending_flag = 0x40

abbrev pub slot_write_flag : ℕ
slot_write_flag = 0x80

abbrev pub dummy_report_write : ℕ
dummy_report_write = 0x8f

abbrev pub yk_flag_mayblock : ℕ
yk_flag_mayblock = 0x10000
