-- ===== src/Args.antt =====
-- ykpers-args.c: what the tools make of the texts of their options: `hex_modhex_decode`, `_set_fixed`,
-- `_format_decimal_as_hex`, `_format_oath_id`.
pub mod Laws
pub mod State
pub mod Names
pub mod Options
pub mod Parse
use yubikey_personalization.Prelude.{
  ℕ, zero, suc, ◌+◌, ◌-◌, ◌*◌, ◌/◌, ◌%◌, ◌^◌, Bool, true, false, not, ◌&&◌, ◌||◌, Option, none,
  some, List, [], ◌∷◌, ◌++◌, ltb, ◌==◌, if◌then◌else◌, length, take, drop,
}
use yubikey_personalization.Pers.Types.{Config}
use yubikey_personalization.Pers.Keys.{Libyubikey}
use yubikey_personalization.Pers.Fields.{ykp_set_fixed}

-- The return values -1, 0 and 1 of `hex_modhex_decode`, the last with the bytes.
pub data Decoded : Type 0 where
  bad_length bad_text : Decoded
  decoded : List ℕ → Decoded

-- The text behind a prefix m:, M:, h: or H:, and whether it is modhex.
abbrev pub strip_prefix : List ℕ → Bool → List ℕ × Bool
strip_prefix (a ∷ b ∷ str) primarily_modhex =
    if (a == 109 || a == 77) && b == 58
    then (str, true)
    else if (a == 104 || a == 72) && b == 58
    then (str, false)
    else (a ∷ b ∷ str, primarily_modhex)
strip_prefix str primarily_modhex = (str, primarily_modhex)

module _ (lib : Libyubikey) where
  unfoldable pub hex_modhex_decode : List ℕ → ℕ → ℕ → Bool → Decoded
  hex_modhex_decode str minsize maxsize primarily_modhex =
      let (s, modhex) = strip_prefix str primarily_modhex in
      if not (length s % 2 == 0) || (ltb (length s) minsize || ltb maxsize (length s))
      then bad_length
      else if modhex
      then (if lib.modhex_p s then decoded (lib.modhex_decode s) else bad_text)
      else (if lib.hex_p s then decoded (lib.hex_decode s) else bad_text)

  -- With the configuration and `ykp_errno`.
  unfoldable pub _set_fixed : List ℕ → Option Config → ℕ → ℕ × Option Config × ℕ
  unfolding hex_modhex_decode ykp_set_fixed
  _set_fixed opt cfg errno = elim (hex_modhex_decode opt 0 32 true) [
    | bad_length ↦ (0, cfg, errno)
    | bad_text ↦ (0, cfg, errno)
    | decoded fixedbin ↦
        (1, (ykp_set_fixed fixedbin cfg errno).1, (ykp_set_fixed fixedbin cfg errno).2)
  ]

-- What is written from `dst` on, for a text of nonzero characters, or `none` for want of room.
unfoldable pub _format_decimal_as_hex : ℕ → List ℕ → Option (List ℕ)
_format_decimal_as_hex dst_len (a ∷ b ∷ src) =
    let rest = _format_decimal_as_hex (dst_len - 1) src in
    if dst_len == 0 then none else elim rest [
      | none ↦ none
      | some bytes ↦ some (((a + (256 - 48)) * 0x10 + b + (256 - 48)) % 256 ∷ bytes)
    ]
_format_decimal_as_hex dst_len src = some []

-- The characters of `%08i` for a number of at most eight digits.
abbrev pub eight_digits : ℕ → List ℕ
eight_digits n =
    (48 + n / 10 ^ 7 % 10)
    ∷ (48 + n / 10 ^ 6 % 10)
    ∷ (48 + n / 10 ^ 5 % 10)
    ∷ (48 + n / 10 ^ 4 % 10)
    ∷ (48 + n / 10 ^ 3 % 10)
    ∷ (48 + n / 10 ^ 2 % 10)
    ∷ (48 + n / 10 % 10)
    ∷ (48 + n % 10)
    ∷ []

-- What is written from `dst` on, `none` where zero is returned.
unfoldable pub _format_oath_id : ℕ → ℕ → ℕ → ℕ → Option (List ℕ)
unfolding _format_decimal_as_hex
_format_oath_id dst_len vendor type' mui =
    if ltb 99999999 mui
    then none
    else if ltb dst_len (2 + 8)
    then none
    else elim (_format_decimal_as_hex (dst_len - 2) (eight_digits mui)) [
      | none ↦ none
      | some bytes ↦ some (vendor ∷ type' ∷ bytes)
    ]
