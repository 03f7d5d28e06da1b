-- ===== src/Core/Wait/Time.antt =====
-- How long a wait takes, on a device that carries a clock.
use yubikey_personalization.Prelude.{
  ℕ, ◌+◌, ◌≤◌, ◌<◌, ◌≡◌, Bool, false, [], ◌∷◌, ◌++◌, arith, replicate, inl, inr,
}
use yubikey_personalization.Core.Io.{Usb, World, Ensures}
use yubikey_personalization.Core.Wait.{yk_wait_for_key_status, yk_force_key_update}
use yubikey_personalization.Core.Wait.Laws.{extension, read-cases, write-cases, wait_rule}

-- The same device beside a count of the milliseconds that were slept.
abbrev pub clocked : {Dev : Type 0} → Usb Dev → Usb (Dev × ℕ)
clocked usb = record {
  read = λ s. ((usb.read s.0).0, ((usb.read s.0).1, s.1));
  write = λ bytes s. ((usb.write bytes s.0).0, ((usb.write bytes s.0).1, s.1));
  sleep = λ ms s. (usb.sleep ms s.0, s.1 + ms);
}

module _ {Dev : Type 0} (usb : Usb Dev) (flags : ℕ) (logic_and : Bool) (mask : ℕ) where
  -- The clock is less than half a second over the limit and its extension.
  abbrev pub InTime : ℕ → World (Dev × ℕ) → World (Dev × ℕ) → Type 0
  InTime max_time_ms w w' = w'.dev.1 < w.dev.1 + max_time_ms + extension flags false + 500

  -- However it ends, a wait whose limit is at most 4294000 seconds sleeps less than half a second
  -- over it, where a caller that permits blocking has 256 seconds more.
  pub wait_for_key_status_time :
      (max_time_ms : ℕ) (w : World (Dev × ℕ))
      → max_time_ms ≤ 4294000000
      → Ensures
          (λ _ w'. InTime max_time_ms w w')
          (λ w'. InTime max_time_ms w w')
          (yk_wait_for_key_status (clocked usb) flags logic_and mask max_time_ms w)
  unfolding yk_force_key_update
  wait_for_key_status_time max_time_ms w fits =
      wait_rule (clocked usb) flags logic_and mask
        (λ _ w'. w'.dev.1 < w.dev.1 + max_time_ms + extension flags false + 500)
        (λ w'. w'.dev.1 < w.dev.1 + max_time_ms + extension flags false + 500)
        (λ t w'. w'.dev.1 ≡ w.dev.1 + t) (max_time_ms + extension flags false + 500)
        (λ t sv w' soon now.
          elim (read-cases (clocked usb) (record w' { dev = (clocked usb).sleep sv w'.dev })) [
            | inl (bytes, e, r) ↦ rw r (omega arith)
            | inr (error, e, r) ↦ rw r (omega arith)
          ])
        (λ t data' w' soon now _ _. omega arith) (λ t w' soon now. omega arith)
        (λ t w' soon now _. elim (write-cases (clocked usb) (replicate 7 0 ++ (0x8f ∷ [])) w') [
          | inl r ↦ rw r (omega arith)
          | inr (error, r) ↦ rw r (omega arith)
        ])
        max_time_ms w (omega arith) (omega arith) (ground arith)
