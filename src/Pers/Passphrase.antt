-- ===== src/Pers/Passphrase.antt =====
-- ykpers.c and ykpbkdf2.c: a key from a passphrase (`ykp_aes_key_from_passphrase`, `yk_hmac_sha1`).
pub mod Laws
use yubikey_personalization.Prelude.{
  ℕ, ◌-◌, Bool, Option, none, some, List, [], ◌∷◌, ◌++◌, ltb, ◌==◌, if◌then◌else◌, length, take,
  drop,
}
use yubikey_personalization.Pers.Types.{Config, ykp_enorandom}
use yubikey_personalization.Pers.Keys.{ykp_get_supported_key_length}
use yubikey_personalization.Pbkdf2.{Derived, derived, refused, overrun, yk_pbkdf2}

-- How the call ends: with a return value, the configuration and `ykp_errno`, or with an access
-- outside of a buffer.
pub data FromPassphrase : Type 0 where
  returned : ℕ → Config → ℕ → FromPassphrase
  out_of_block : FromPassphrase

-- The first file of the list that opens, by the bytes that it gives, eight or more.
unfoldable pub random_salt : List (Option (List ℕ)) → List ℕ
random_salt [] = []
random_salt (none ∷ random_places) = random_salt random_places
random_salt (some bytes ∷ random_places) = take 8 bytes

-- `hmac` is the function of hmac.c for SHA-1, from a key and a text, `none` where it fails.
module _ (hmac : List ℕ → List ℕ → Option (List ℕ)) where
  unfoldable pub yk_hmac_sha1 : List ℕ → ℕ → List ℕ → Option (List ℕ)
  yk_hmac_sha1 key output_size text = if ltb output_size 20 then none else hmac key text

  -- `fresh` is what the array of `yk_pbkdf2` holds in each round.
  unfoldable pub ykp_aes_key_from_passphrase :
      (ℕ → List ℕ) → List (Option (List ℕ)) → List ℕ → Option (List ℕ) → Config → ℕ → FromPassphrase
  unfolding random_salt
  ykp_aes_key_from_passphrase fresh random_places passphrase salt c errno =
      let _salt = (elim salt as (λ _. List ℕ) [
        | none ↦ random_salt random_places
        | some s ↦ take 8 s
      ]) in
      let key_bytes = ykp_get_supported_key_length c in
      if length _salt == 0
      then returned 0 c ykp_enorandom
      else elim (yk_pbkdf2 (yk_hmac_sha1 passphrase 256) 20 fresh _salt 1024 key_bytes) [
        | refused ↦ returned 0 c errno
        | overrun ↦ out_of_block
        | derived buf ↦
            (let k = c.core in
              let key' = take 16 buf ++ drop 16 k.key in
              returned 1
                (if key_bytes == 20
                  then record c {
                    core = record k { key = key'; uid = take 4 (drop 16 buf) ++ drop 4 k.uid };
                  }
                  else record c { core = record k { key = key' } })
                errno)
      ]
