-- ===== src/Pbkdf2.antt =====
-- ykpbkdf2.c: key derivation from a passphrase (`yk_pbkdf2`).
pub mod Blocks
pub mod Laws
use yubikey_personalization.Prelude.{
  ℕ, zero, suc, ◌+◌, ◌-◌, ◌/◌, ◌%◌, ◌^◌, Option, none, some, List, [], ◌∷◌, ◌++◌, bit_xor, ltb,
  ◌==◌, if◌then◌else◌, length, take, drop, replicate,
}

-- How the derivation ends: with the key in `dk`, with zero, or with an access outside of `block`.
pub data Derived : Type 0 where
  derived : List ℕ → Derived
  refused overrun : Derived

-- `dk[i] ^= block[i]` for every byte of `dk`, where `block` is at least as long.
abbrev pub xor_bytes : List ℕ → List ℕ → List ℕ
xor_bytes [] block = []
xor_bytes (d ∷ dk) [] = d ∷ dk
xor_bytes (d ∷ dk) (b ∷ block) = bit_xor d b ∷ xor_bytes dk block

-- The index of a block, four bytes with the highest first.
abbrev pub block_index : ℕ → List ℕ
block_index n = n / 2 ^ 24 % 256 ∷ n / 2 ^ 16 % 256 ∷ n / 2 ^ 8 % 256 ∷ n % 256 ∷ []

-- `prf_fn` with its passphrase, from a text to what it writes to the start of its output, or
-- `none` where it returns zero; `output_size`; and what the array `block` holds in a round before
-- it is written to.
module _ (prf_fn : List ℕ → Option (List ℕ)) (output_size : ℕ) (fresh : ℕ → List ℕ) where
  -- The inner loop, with `block`, `block_len` and the rest of `dk`.
  unfoldable pub iterate : ℕ → List ℕ → ℕ → List ℕ → Derived
  iterate zero block block_len dk = derived dk
  iterate (suc n) block block_len dk = elim (prf_fn (take block_len block)) [
    | none ↦ refused
    | some out ↦
        (let block' = out ++ drop (length out) block in
          let rest = iterate n block' output_size (xor_bytes dk block') in
          if ltb 256 (length dk) then overrun else rest)
  ]

  -- How far `dk` moves on: by `block_len`, and in the last round by what is left.
  unfoldable pub block_step : ℕ → ℕ → ℕ → ℕ
  block_step iterations salt_len dklen =
      let block_len : ℕ = if iterations == 0 then salt_len + 4 else output_size in
      if ltb dklen block_len then dklen else block_len

  -- The outer loop over what is left of `dk`, with the number of rounds left and the next index.
  unfoldable pub block_loop : ℕ → ℕ → ℕ → List ℕ → List ℕ → Derived
  unfolding iterate block_step
  block_loop iterations zero block_count salt dk = derived dk
  block_loop iterations (suc l) block_count salt dk =
      let text = salt ++ block_index block_count in
      elim (iterate iterations (text ++ drop (length text) (fresh block_count)) (length text) dk) [
        | derived dk' ↦
            (let bl = block_step iterations (length salt) (length dk) in
              elim (block_loop iterations l (block_count + 1) salt (drop bl dk')) [
                | derived rest ↦ derived (take bl dk' ++ rest)
                | refused ↦ refused
                | overrun ↦ overrun
              ])
        | refused ↦ refused
        | overrun ↦ overrun
      ]

  -- The number of blocks; `dklen - 1` is computed modulo the size of `size_t`.
  unfoldable pub block_total : ℕ → ℕ
  block_total dklen = (dklen + (2 ^ 64 - 1) + output_size) % 2 ^ 64 / output_size

  unfoldable pub yk_pbkdf2 : List ℕ → ℕ → ℕ → Derived
  unfolding block_loop block_total
  yk_pbkdf2 salt iterations dklen =
      if ltb 256 (length salt)
      then refused
      else if ltb 0 (block_total dklen)
      then (if ltb 256 (length salt + 4)
          then overrun
          else block_loop iterations (block_total dklen) 1 salt (replicate dklen 0))
      else derived (replicate dklen 0)
