-- ===== src/Pers/Keys.antt =====
-- ykpers.c: how many bytes of key a configuration takes, and storing a key. A 20 byte key stands
-- in `key` and the first four bytes of `uid`.
pub mod Laws
use yubikey_personalization.Prelude.{
  ℕ, ◌-◌, ◌/◌, ◌≡◌, Bool, not, ◌&&◌, ◌||◌, some, List, ◌++◌, ◌==◌, if◌then◌else◌, length, take,
  drop,
}
use yubikey_personalization.Pers.Types.{Config, Call, ykp_einval}
use yubikey_personalization.Pers.Flags.{
  oath_hotp, chal_resp, chal_yubico, chal_hmac, ykp_get_tktflag, ykp_get_cfgflag,
}

unfoldable pub ykp_get_supported_key_length : Config → ℕ
unfolding ykp_get_tktflag ykp_get_cfgflag
ykp_get_supported_key_length c =
    if (ykp_get_tktflag oath_hotp (some c) && not (ykp_get_cfgflag chal_yubico (some c)))
      || (ykp_get_tktflag chal_resp (some c) && ykp_get_cfgflag chal_hmac (some c))
    then 20
    else 16

-- The functions of libyubikey that are called, and what is relied on: two characters of
-- hexadecimal or modhex stand for one byte.
pub record Libyubikey : Type 0 where
  pub hex_p : List ℕ → Bool
  pub hex_decode : List ℕ → List ℕ
  pub modhex_p : List ℕ → Bool
  pub modhex_decode : List ℕ → List ℕ
  pub length-hex_decode : (s : List ℕ) → length (hex_decode s) ≡ length s / 2
  pub length-modhex_decode : (s : List ℕ) → length (modhex_decode s) ≡ length s / 2

-- `memcpy` of the `n` bytes at `src` to the start of `dst`.
abbrev copy_in : ℕ → List ℕ → List ℕ → List ℕ
copy_in n src dst = take n src ++ drop n dst

abbrev store_key : List ℕ → Config → Config
store_key bytes c = let k = c.core in record c { core = record k { key = copy_in 16 bytes k.key } }

abbrev store_long_key : List ℕ → Config → Config
store_long_key bytes c =
    let k = c.core in
    record c {
      core = record k {
        key = copy_in 16 bytes k.key;
        uid = copy_in (20 - 16) (drop 16 bytes) k.uid;
      };
    }

unfoldable pub ykp_aes_key_from_raw : List ℕ → Call
ykp_aes_key_from_raw key c errno = (0, store_key key c, errno)

unfoldable pub ykp_hmac_key_from_raw : List ℕ → Call
ykp_hmac_key_from_raw key c errno = (0, store_long_key key c, errno)

-- `stack` is what the buffer of 256 bytes held. The return value is 1 for a bad key.
module _ (lib : Libyubikey) (stack : List ℕ) where
  unfoldable pub ykp_aes_key_from_hex : List ℕ → Call
  ykp_aes_key_from_hex hexkey c errno =
      if not (length hexkey == 32)
      then (1, c, ykp_einval)
      else if not (lib.hex_p hexkey)
      then (1, c, ykp_einval)
      else (0, store_key (copy_in (length hexkey / 2) (lib.hex_decode hexkey) stack) c, errno)

  unfoldable pub ykp_hmac_key_from_hex : List ℕ → Call
  ykp_hmac_key_from_hex hexkey c errno =
      if not (length hexkey == 40)
      then (1, c, ykp_einval)
      else if not (lib.hex_p hexkey)
      then (1, c, ykp_einval)
      else (0, store_long_key (copy_in (length hexkey / 2) (lib.hex_decode hexkey) stack) c, errno)
