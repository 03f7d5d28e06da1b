-- ===== src/Info/Serial.antt =====
-- The serial number in hexadecimal.
use yubikey_personalization.Prelude.{
  ℕ, zero, suc, ◌+◌, ◌-◌, ◌*◌, ◌/◌, ◌%◌, ◌^◌, ◌≤◌, ◌<◌, ◌≡◌, ◌≢◌, refl, ◌∙◌, arith, Bool-cases,
  List, [], ◌∷◌, ◌++◌, ltb, ◌==◌, if◌then◌else◌, length, inl, inr, length-append,
}
use yubikey_personalization.Pers.Export.{hex_digit, hex_number}
use yubikey_personalization.Info.{serial_text}

abbrev pub digit_value : ℕ → ℕ
digit_value c = if ltb c 58 then c - 48 else c - 87

-- The number that hexadecimal digits spell out.
abbrev pub read_hex : ℕ → List ℕ → ℕ
read_hex n [] = n
read_hex n (c ∷ text) = read_hex (n * 16 + digit_value c) text

read_hex-append : (n : ℕ) (s t : List ℕ) → read_hex n (s ++ t) ≡ read_hex (read_hex n s) t
read_hex-append n [] t = refl
read_hex-append n (c ∷ s) t = read_hex-append (n * 16 + digit_value c) s t

digit_value-hex_digit : (d : ℕ) → d < 16 → digit_value (hex_digit d) ≡ d
digit_value-hex_digit d h = ground arith

hex_number_lem :
    (digits n : ℕ)
    → n < 16 ^ digits
    → (read_hex 0 (hex_number digits n) ≡ n) × (length (hex_number digits n) ≤ digits)
unfolding hex_number
hex_number_lem zero n h = (omega (arith, h), omega arith)
hex_number_lem (suc digits) n h =
    let small : n / 16 < 16 ^ digits = omega (arith, h) in
    let rest = hex_number_lem digits (n / 16) small in
    elim (Bool-cases (n / 16 == 0)) [
      | inl on ↦
          let low : n < 16 = ground (arith, on) in
          rw on (omega (arith, digit_value-hex_digit n low), omega arith)
      | inr off ↦ rw off (
        (read_hex-append 0 (hex_number digits (n / 16)) (hex_digit (n % 16) ∷ []))
            ∙ omega (arith, rest.0, digit_value-hex_digit (n % 16) (omega arith)),
        omega (arith, rest.1, length-append (hex_number digits (n / 16)) (hex_digit (n % 16) ∷ [])),
      )
    ]

-- The serial number is printed as an even number of digits, at most eight, that spell it out.
pub serial_text_lem :
    (serial : ℕ)
    → serial < 2 ^ 32
    → (read_hex 0 (serial_text serial) ≡ serial)
      × (length (serial_text serial) % 2 ≡ 0)
      × (length (serial_text serial) ≤ 8)
unfolding serial_text
serial_text_lem serial h =
    let text = hex_number_lem 8 serial (omega (arith, h)) in
    elim (Bool-cases (length (hex_number 8 serial) % 2 == 1)) [
      | inl odd ↦
          let one : length (hex_number 8 serial) % 2 ≡ 1 = ground (arith, odd) in
          rw odd (text.0, omega (arith, one), omega (arith, one, text.1))
      | inr even ↦
          let none' : length (hex_number 8 serial) % 2 ≢ 1 = ground (arith, even) in
          rw even (text.0, omega (arith, none'), text.1)
    ]
