-- ===== src/Pers/Keys/Laws.antt =====
-- A stored key reads back, beside the moving factor, and a bad one changes nothing.
use yubikey_personalization.Prelude.{
  ℕ, ◌/◌, ◌≤◌, ◌≡◌, ◌⊎◌, true, false, List, ◌++◌, arith, refl, ap₂, ◌∙◌, sym, length, take, drop,
  take-append, drop-append, take_all, length-take, length-drop, length-append, drop_all, take_split,
  append-nil, ◌≢◌, bit_and,
}
use yubikey_personalization.Pers.Types.{Config, ykp_einval}
use yubikey_personalization.Pers.Flags.{tktflag_mask, cfgflag_mask}
use yubikey_personalization.Pers.Keys.{
  store_long_key, Libyubikey, ykp_get_supported_key_length, ykp_hmac_key_from_raw,
  ykp_hmac_key_from_hex,
}

-- The long key of a configuration.
abbrev pub long_key : Config → List ℕ
long_key c = c.core.key ++ take 4 c.core.uid

copied-take :
    (n : ℕ) (src dst : List ℕ) → n ≤ length src → take n (take n src ++ drop n dst) ≡ take n src
copied-take n src dst h = take-append n (take n src) (drop n dst) (omega (arith, length-take n src))

copied-drop :
    (n : ℕ) (src dst : List ℕ) → n ≤ length src → drop n (take n src ++ drop n dst) ≡ drop n dst
copied-drop n src dst h = drop-append n (take n src) (drop n dst) (omega (arith, length-take n src))

-- A field of exactly `n` bytes is replaced whole.
copied_whole : (n : ℕ) (src dst : List ℕ) → length dst ≤ n → take n src ++ drop n dst ≡ take n src
copied_whole n src dst h = rw (drop_all n dst h) (append-nil (take n src))

store_long_key-read :
    (bytes : List ℕ) (c : Config)
    → 20 ≤ length bytes
    → length c.core.key ≡ 16
    → (long_key (store_long_key bytes c) ≡ take 20 bytes)
      × (drop 4 (store_long_key bytes c).core.uid ≡ drop 4 c.core.uid)
store_long_key-read bytes c fits size = (
  ap₂ ◌++◌ (copied_whole 16 bytes c.core.key (omega arith))
        (copied-take 4 (drop 16 bytes) c.core.uid (omega (arith, length-drop 16 bytes)))
      ∙ sym (take_split 16 4 bytes),
  copied-drop 4 (drop 16 bytes) c.core.uid (omega (arith, length-drop 16 bytes)),
)

-- A 20 byte key is stored without failure and reads back from `key` and the first four bytes of
-- `uid`; the bytes of `uid` behind those, where the moving factor stands, are not touched.
pub hmac_key_from_raw-long_key :
    (key : List ℕ) (c : Config) (errno : ℕ)
    → length key ≡ 20
    → length c.core.key ≡ 16
    → let r = ykp_hmac_key_from_raw key c errno in
      (r.0 ≡ 0) × (long_key r.1 ≡ key) × (drop 4 r.1.core.uid ≡ drop 4 c.core.uid) × (r.2 ≡ errno)
unfolding ykp_hmac_key_from_raw
hmac_key_from_raw-long_key key c errno len size =
    let kept = store_long_key-read key c (omega arith) size in
    (refl, kept.0 ∙ take_all 20 key (omega arith), kept.1, refl)

module _ (lib : Libyubikey) (stack : List ℕ) where
  decoded :
      (n : ℕ) (s : List ℕ)
      → length s / 2 ≡ n
      → take n (take (length s / 2) (lib.hex_decode s) ++ drop (length s / 2) stack)
        ≡ lib.hex_decode s
  decoded n s e = rw e (
      copied-take n (lib.hex_decode s) stack (omega (arith, lib.length-hex_decode s))
      ∙ take_all n (lib.hex_decode s) (omega (arith, lib.length-hex_decode s)))

  -- Either the text is 40 hexadecimal characters, and the decoded key reads back whole beside an
  -- untouched moving factor, or the call reports a bad key and changes only the error code.
  pub hmac_key_from_hex-long_key :
      (hexkey : List ℕ) (c : Config) (errno : ℕ)
      → length c.core.key ≡ 16
      → let r = ykp_hmac_key_from_hex lib stack hexkey c errno in
        ((length hexkey ≡ 40)
          × (lib.hex_p hexkey ≡ true)
          × (r.0 ≡ 0)
          × (long_key r.1 ≡ lib.hex_decode hexkey)
          × (drop 4 r.1.core.uid ≡ drop 4 c.core.uid))
        ⊎ (((length hexkey ≢ 40) ⊎ (lib.hex_p hexkey ≡ false)) × (r ≡ (1, c, ykp_einval)))
  unfolding ykp_hmac_key_from_hex
  hmac_key_from_hex-long_key hexkey c errno size = ground (
    arith,
    decoded 20 hexkey,
    lib.length-hex_decode hexkey,
    store_long_key-read
        (take (length hexkey / 2) (lib.hex_decode hexkey) ++ drop (length hexkey / 2) stack) c,
    length-append (take (length hexkey / 2) (lib.hex_decode hexkey))
        (drop (length hexkey / 2) stack),
    length-take (length hexkey / 2) (lib.hex_decode hexkey),
  )

-- Twenty bytes are taken exactly where the ticket flags have OATH_HOTP (which is CHAL_RESP) and
-- the configuration flags have all of CHAL_HMAC or nothing of CHAL_YUBICO; else sixteen are.
pub supported_key_length_cases :
    (c : Config)
    → let long =
        (bit_and c.core.tkt_flags 0x40 ≡ 0x40)
        × ((bit_and c.core.cfg_flags 0x22 ≡ 0x22) ⊎ (bit_and c.core.cfg_flags 0x20 ≢ 0x20)) in
      (long × (ykp_get_supported_key_length c ≡ 20))
      ⊎ ((¬ long) × (ykp_get_supported_key_length c ≡ 16))
unfolding ykp_get_supported_key_length tktflag_mask cfgflag_mask
supported_key_length_cases c = ground arith
