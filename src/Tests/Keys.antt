-- ===== src/Tests/Keys.antt =====
-- The theorems on keys, passphrases and option texts at concrete inputs.
use yubikey_personalization.Prelude.{
  ℕ, ◌+◌, ◌-◌, ◌/◌, ◌≤◌, ◌≡◌, ◌≢◌, ◌⊎◌, inl, true, false, some, List, [], ◌∷◌, ◌++◌, arith, refl,
  length, take, drop, replicate, length-replicate,
}
use yubikey_personalization.Pers.Types.{Config, ykp_einval}
use yubikey_personalization.Pers.Command.{default_config2}
use yubikey_personalization.Pers.Keys.{
  Libyubikey, ykp_hmac_key_from_hex, ykp_get_supported_key_length,
}
use yubikey_personalization.Pers.Keys.Laws.{long_key, hmac_key_from_hex-long_key}
use yubikey_personalization.Pbkdf2.{yk_pbkdf2, derived}
use yubikey_personalization.Pbkdf2.Laws.{pbkdf2-blocks}
use yubikey_personalization.Pbkdf2.Blocks.{blocks}
use yubikey_personalization.Pers.Passphrase.{ykp_aes_key_from_passphrase, returned}
use yubikey_personalization.Pers.Passphrase.Laws.{aes_key_from_passphrase-blocks}
use yubikey_personalization.Args.{_format_oath_id}
use yubikey_personalization.Args.Laws.{read_decimal, read_decimal-format_oath_id}

abbrev config24 : Config
config24 = record {
  yk_major_version = 2;
  yk_minor_version = 4;
  yk_build_version = 0;
  command = 1;
  core = default_config2;
  ykp_acccode_type = 0;
}

-- A library that takes every text, and decodes it to zeros.
abbrev pub zeros_lib : Libyubikey
zeros_lib = record {
  hex_p = λ s. true;
  hex_decode = λ s. replicate (length s / 2) 0;
  modhex_p = λ s. true;
  modhex_decode = λ s. replicate (length s / 2) 0;
  length-hex_decode = λ s. length-replicate (length s / 2) 0;
  length-modhex_decode = λ s. length-replicate (length s / 2) 0;
}

-- A pseudorandom function of twenty bytes.
abbrev prf20 : List ℕ → List ℕ
prf20 t = length t ∷ replicate 19 5

abbrev junk : ℕ → List ℕ
junk i = replicate 256 3

hmac_key_from_hex-long_key_example :
    let r = ykp_hmac_key_from_hex zeros_lib (junk 0) (replicate 40 48) config24 0 in
    ((length {A = ℕ} (replicate 40 48) ≡ 40)
      × (zeros_lib.hex_p (replicate 40 48) ≡ true)
      × (r.0 ≡ 0)
      × (long_key r.1 ≡ zeros_lib.hex_decode (replicate 40 48))
      × (drop 4 r.1.core.uid ≡ drop 4 config24.core.uid))
    ⊎ (((length {A = ℕ} (replicate 40 48) ≢ 40) ⊎ (zeros_lib.hex_p (replicate 40 48) ≡ false))
        × (r ≡ (1, config24, ykp_einval)))
hmac_key_from_hex-long_key_example =
    hmac_key_from_hex-long_key zeros_lib (junk 0) (replicate 40 48) config24 0 refl

pbkdf2-blocks_example :
    (yk_pbkdf2 (λ t. some (prf20 t)) 20 junk (1 ∷ 2 ∷ []) 2 30
      ≡ derived (take 30 (blocks prf20 20 2 (1 ∷ 2 ∷ []) ((30 + 20 - 1) / 20) 1)))
    × (30 ≤ length (blocks prf20 20 2 (1 ∷ 2 ∷ []) ((30 + 20 - 1) / 20) 1))
pbkdf2-blocks_example =
    pbkdf2-blocks (λ t. some (prf20 t)) 20 junk prf20 (λ t. refl) (λ t. refl) (omega arith) 2 30
      (1 ∷ 2 ∷ []) (λ i. refl) (omega arith) (omega arith) (omega arith) (omega arith) (omega arith)
      (inl refl)

aes_key_from_passphrase-blocks_example :
    (c' : Config) × (ykp_aes_key_from_passphrase
        (λ k t. some (prf20 t))
        junk
        []
        (112 ∷ [])
        (some (1 ∷ []))
        config24
        0
      ≡ returned 1 c' 0)
    × (take (ykp_get_supported_key_length config24) (c'.core.key ++ take 4 c'.core.uid)
        ≡ take (ykp_get_supported_key_length config24) (blocks prf20 20 1024 (take 8 (1 ∷ [])) 1 1))
aes_key_from_passphrase-blocks_example =
    aes_key_from_passphrase-blocks (λ k t. some (prf20 t)) prf20 (112 ∷ []) junk [] (1 ∷ [])
      config24 0 (λ t. refl) (λ t. refl) (λ i. refl) (omega arith) refl

read_decimal-format_oath_id_example :
    (bytes : List ℕ) × (_format_oath_id 12 0xe1 0x63 1234567 ≡ some (0xe1 ∷ 0x63 ∷ bytes))
    × (length bytes ≡ 4)
    × (read_decimal 0 bytes ≡ 1234567)
read_decimal-format_oath_id_example =
    read_decimal-format_oath_id 12 0xe1 0x63 1234567 (omega arith) (omega arith)
