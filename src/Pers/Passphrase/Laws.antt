-- ===== src/Pers/Passphrase/Laws.antt =====
-- The key from a passphrase is the one that PBKDF2 defines.
use yubikey_personalization.Prelude.{
  ℕ, ◌+◌, ◌-◌, ◌/◌, ◌≤◌, ◌<◌, ◌≡◌, inl, inr, true, false, Option, some, List, [], ◌++◌, arith, refl,
  ap, ap₂, ◌∙◌, ◌==◌, length, take, drop, length-take, length-drop, take-append, take-append-drop,
  take_all, drop_all, append-nil,
}
use yubikey_personalization.Pers.Types.{Config}
use yubikey_personalization.Pers.Keys.{ykp_get_supported_key_length}
use yubikey_personalization.Pers.Keys.Laws.{supported_key_length_cases}
use yubikey_personalization.Pbkdf2.{yk_pbkdf2, derived}
use yubikey_personalization.Pbkdf2.Laws.{pbkdf2-blocks}
use yubikey_personalization.Pbkdf2.Blocks.{blocks, length-blocks}
use yubikey_personalization.Pers.Passphrase.{yk_hmac_sha1, ykp_aes_key_from_passphrase, returned}

-- What a configuration holds of the bytes of a key, first those in `key`, then those in `uid`.
both_fields :
    (buf key uid : List ℕ)
    → length buf ≡ 20
    → length key ≡ 16
    → (take 16 buf ++ drop 16 key) ++ take 4 (take 4 (drop 16 buf) ++ drop 4 uid) ≡ buf
both_fields buf key uid long whole =
    let tail : List ℕ = drop 16 buf in
    let four : length tail ≡ 4 = omega (arith, length-drop 16 buf) in
    let a : drop 16 key ≡ [] = drop_all 16 key (omega arith) in
    let b : take 4 tail ≡ tail = take_all 4 tail (omega arith) in
    rw (a, b)
      (ap₂ (λ x y. x ++ y) (append-nil (take 16 buf)) (take-append 4 tail (drop 4 uid) four)
        ∙ take-append-drop 16 buf)

key_field :
    (buf key uid : List ℕ)
    → length buf ≡ 16
    → length key ≡ 16
    → take 16 ((take 16 buf ++ drop 16 key) ++ uid) ≡ buf
key_field buf key uid long whole =
    let a : drop 16 key ≡ [] = drop_all 16 key (omega arith) in
    rw (a, take_all 16 buf (omega arith))
      (ap (λ x. take 16 (x ++ uid)) (append-nil buf) ∙ take-append 16 buf uid long)

module _ (hmac : List ℕ → List ℕ → Option (List ℕ)) (f : List ℕ → List ℕ) (passphrase : List ℕ)
    (fresh : ℕ → List ℕ) where
  -- With a salt that is not empty, over an HMAC-SHA1 that does not fail and gives 20 bytes, the call
  -- returns 1, and the key that the configuration then holds, in `key` and where it takes 20 bytes in
  -- `uid` too, is the one that RFC 2898 defines for the passphrase, the first eight bytes of the salt
  -- and 1024 iterations.
  pub aes_key_from_passphrase-blocks :
      (random_places : List (Option (List ℕ))) (salt : List ℕ) (c : Config) (errno : ℕ)
      → ((t : List ℕ) → hmac passphrase t ≡ some (f t))
      → ((t : List ℕ) → length (f t) ≡ 20)
      → ((i : ℕ) → length (fresh i) ≡ 256)
      → 0 < length salt
      → length c.core.key ≡ 16
      → (c' : Config) × (ykp_aes_key_from_passphrase hmac fresh random_places passphrase
            (some salt)
            c
            errno
          ≡ returned 1 c' errno)
        × (take (ykp_get_supported_key_length c) (c'.core.key ++ take 4 c'.core.uid)
            ≡ take (ykp_get_supported_key_length c) (blocks f 20 1024 (take 8 salt) 1 1))
  unfolding ykp_aes_key_from_passphrase yk_hmac_sha1
  aes_key_from_passphrase-blocks random_places salt c errno prf size room any whole =
      let s : List ℕ = take 8 salt in
      let short : length s ≤ 8 = omega (arith, length-take 8 salt) in
      let some' : (length s == 0) ≡ false = ground (arith, length-take 8 salt) in
      let t : List ℕ = blocks f 20 1024 s 1 1 in
      let twenty : length t ≡ 20 = length-blocks f 20 1024 s 1 1 size in
      let buf_l : length (take 20 t) ≡ 20 = omega (arith, length-take 20 t) in
      let buf_s : length (take 16 t) ≡ 16 = omega (arith, length-take 16 t) in
      elim (supported_key_length_cases c) [
        | inl (l, long) ↦
            let test : (ykp_get_supported_key_length c == 20) ≡ true = ground arith in
            (
              record c {
                core = record (c.core) {
                  key = take 16 (take 20 t) ++ drop 16 c.core.key;
                  uid = take 4 (drop 16 (take 20 t)) ++ drop 4 c.core.uid;
                };
              },
              rw (long, some', key 20 (omega arith) (omega arith) s short, test) refl,
              rw long (
                  ap (take 20) (both_fields (take 20 t) c.core.key c.core.uid buf_l whole)
                  ∙ take_all 20 (take 20 t) (omega arith)),
            )
        | inr (l, plain) ↦
            let test : (ykp_get_supported_key_length c == 20) ≡ false = ground arith in
            (
              record c {
                core = record (c.core) { key = take 16 (take 16 t) ++ drop 16 c.core.key };
              },
              rw (plain, some', key 16 (omega arith) (omega arith) s short, test) refl,
              rw plain (key_field (take 16 t) c.core.key (take 4 c.core.uid) buf_s whole),
            )
      ]
    where
      key :
          (n : ℕ)
          → 0 < n
          → n ≤ 20
          → (s : List ℕ) → length s ≤ 8
          → yk_pbkdf2 (yk_hmac_sha1 hmac passphrase 256) 20 fresh s 1024 n
            ≡ derived (take n (blocks f 20 1024 s 1 1))
      key n pos small s short =
          let one : (n + 20 - 1) / 20 ≡ 1 = omega arith in
          (pbkdf2-blocks (yk_hmac_sha1 hmac passphrase 256) 20 fresh f prf size (omega arith) 1024 n
            s room (omega arith) (omega arith) pos (omega arith) (omega arith) (inl refl)).0
          ∙ ap (λ l. derived (take n (blocks f 20 1024 s l 1))) one
