-- ===== src/Args/Laws.antt =====
-- Sizes of what is decoded, and reading a token identifier back.
use yubikey_personalization.Prelude.{
  true, min, ◌⊎◌, inl, inr, some, refl, ℕ, ◌+◌, ◌-◌, ◌*◌, ◌/◌, ◌%◌, ◌^◌, ◌≤◌, ◌<◌, ◌≡◌, Bool, false,
  List, [], ◌∷◌, arith, ltb, not_ltb, ◌==◌, length,
}
use yubikey_personalization.Pers.Types.{Config}
use yubikey_personalization.Pers.Keys.{Libyubikey}
use yubikey_personalization.Pers.Fields.Laws.{set_fixed-take}
use yubikey_personalization.Args.{
  Decoded, _set_fixed, decoded, hex_modhex_decode, strip_prefix, _format_oath_id,
  _format_decimal_as_hex,
}

-- The number that bytes of two decimal digits each spell out.
abbrev pub read_decimal : ℕ → List ℕ → ℕ
read_decimal n [] = n
read_decimal n (b ∷ bytes) = read_decimal (n * 100 + b / 16 * 10 + b % 16) bytes

digits_back :
    (h l : ℕ)
    → h < 10
    → l < 10
    → let b = ((48 + h + 208) * 16 + (48 + l) + 208) % 256 in b / 16 * 10 + b % 16 ≡ h * 10 + l
digits_back h l p q = omega arith

eight_digits_sum :
    (n : ℕ)
    → n ≤ 99999999
    → (((n / 10 ^ 7 % 10 * 10 + n / 10 ^ 6 % 10) * 100 + (n / 10 ^ 5 % 10 * 10 + n / 10 ^ 4 % 10))
              * 100
            + (n / 10 ^ 3 % 10 * 10 + n / 10 ^ 2 % 10))
          * 100
        + (n / 10 % 10 * 10 + n % 10)
      ≡ n
eight_digits_sum n h = omega arith

-- A number of at most eight digits and room for ten bytes give an identifier of six bytes: the
-- vendor, the type, and four bytes whose hexadecimal digits read as that decimal number.
pub read_decimal-format_oath_id :
    (dst_len vendor type' mui : ℕ)
    → mui ≤ 99999999
    → 10 ≤ dst_len
    → (bytes : List ℕ) × (_format_oath_id dst_len vendor type' mui ≡ some (vendor ∷ type' ∷ bytes))
      × (length bytes ≡ 4)
      × (read_decimal 0 bytes ≡ mui)
unfolding _format_oath_id _format_decimal_as_hex
read_decimal-format_oath_id dst_len vendor type' mui small room =
    let fits : ltb 99999999 mui ≡ false = not_ltb 99999999 mui small in
    let long : ltb dst_len 10 ≡ false = not_ltb dst_len 10 room in
    let a : (dst_len - 2 == 0) ≡ false = ground arith in
    let b : (dst_len - 2 - 1 == 0) ≡ false = ground arith in
    let c : (dst_len - 2 - 1 - 1 == 0) ≡ false = ground arith in
    let d : (dst_len - 2 - 1 - 1 - 1 == 0) ≡ false = ground arith in
    rw (fits, long, a, b, c, d)
      (
        _,
        refl,
        refl,
        omega (
          arith,
          digits_back (mui / 10 ^ 7 % 10) (mui / 10 ^ 6 % 10) (omega arith) (omega arith),
          digits_back (mui / 10 ^ 5 % 10) (mui / 10 ^ 4 % 10) (omega arith) (omega arith),
          digits_back (mui / 10 ^ 3 % 10) (mui / 10 ^ 2 % 10) (omega arith) (omega arith),
          digits_back (mui / 10 % 10) (mui % 10) (omega arith) (omega arith),
          eight_digits_sum mui small,
        ),
      )

module _ (lib : Libyubikey) where
  -- What is decoded has half as many bytes as the text has characters, so it lies between the sizes
  -- that were given.
  pub hex_modhex_decode_size :
      (str : List ℕ) (minsize maxsize : ℕ) (primarily_modhex : Bool) {bytes : List ℕ}
      → hex_modhex_decode lib str minsize maxsize primarily_modhex ≡ decoded bytes
      → (length bytes * 2 ≡ length (strip_prefix str primarily_modhex).0)
        × (minsize ≤ length bytes * 2)
        × (length bytes * 2 ≤ maxsize)
  unfolding hex_modhex_decode
  hex_modhex_decode_size str minsize maxsize primarily_modhex {bytes} h =
      let s = (strip_prefix str primarily_modhex).0 in
      ground (arith, lib.length-hex_decode s, lib.length-modhex_decode s)

  Decoded-cases :
      (d : Decoded)
      → (d ≡ Decoded.bad_length) ⊎ (d ≡ Decoded.bad_text) ⊎ ((bytes : List ℕ) × (d ≡ decoded bytes))
  Decoded-cases Decoded.bad_length = inl refl
  Decoded-cases Decoded.bad_text = inr (inl refl)
  Decoded-cases (decoded bytes) = inr (inr (bytes, refl))

  -- Setting the fixed part from a text either changes nothing, or it stores as many bytes as the
  -- text behind its prefix has pairs of characters, at most 16, and none is cut off.
  pub _set_fixed_whole :
      (opt : List ℕ) (c : Config) (errno : ℕ)
      → (_set_fixed lib opt (some c) errno ≡ (0, some c, errno))
        ⊎ ((field : List ℕ) × (n : ℕ) × (_set_fixed lib opt (some c) errno ≡ (
          1,
          some (record c { core = record (c.core) { fixed = field; fixed_size = n } }),
          errno,
        ))
            × (length field ≡ 16)
            × (n ≤ 16)
            × (n * 2 ≡ length (strip_prefix opt true).0))
  unfolding _set_fixed
  _set_fixed_whole opt c errno = elim (Decoded-cases (hex_modhex_decode lib opt 0 32 true)) [
    | inl e ↦ rw (e, _set_fixed) (inl refl)
    | inr (inl e) ↦ rw (e, _set_fixed) (inl refl)
    | inr (inr (bytes, e)) ↦
        let size = hex_modhex_decode_size opt 0 32 true e in
        let (field, stored, full, same) = set_fixed-take bytes c errno in
        let n : ℕ = length bytes in
        let all : min (length bytes) 16 ≡ length bytes = omega arith in
        rw (e, stored, _set_fixed)
          (inr (field, min (length bytes) 16, refl, full, omega arith, omega arith))
  ]
