-- ===== src/Pbkdf2/Laws.antt =====
-- The derivation against the definition of PBKDF2.
use yubikey_personalization.Prelude.{
  ℕ, zero, suc, ◌+◌, ◌-◌, ◌*◌, ◌/◌, ◌%◌, ◌≤◌, ◌<◌, ◌≡◌, ◌⊎◌, inl, inr, true, false, Option, some,
  List, ◌++◌, arith, refl, ap, ap₂, ◌∙◌, sym, ltb, length, take, drop, replicate, length-append,
  length-take, length-drop, length-replicate, take-append, drop-append, take_over, take-replicate,
  append_assoc,
}
use yubikey_personalization.Pbkdf2.{
  derived, xor_bytes, block_index, iterate, block_step, block_loop, block_total, yk_pbkdf2,
}
use yubikey_personalization.Pbkdf2.Blocks.{
  length-xor_bytes, xor_bytes_assoc, xor_bytes-append, xor_bytes-zeros, xor_bytes_blank, rounds,
  blocks, length-rounds, length-blocks, block_sum, blocks_enough, quotient-pos, take_within, pad,
  length-pad, pad_even,
}

module _ (prf_fn : List ℕ → Option (List ℕ)) (output_size : ℕ) (fresh : ℕ → List ℕ)
    (f : List ℕ → List ℕ) (prf : (t : List ℕ) → prf_fn t ≡ some (f t))
    (size : (t : List ℕ) → length (f t) ≡ output_size) (small : output_size ≤ 256) where
  -- The inner loop over an array that starts with the text, and the array's other bytes.
  iterate-rounds :
      (n : ℕ) (block : List ℕ) (block_len : ℕ) (dk : List ℕ)
      → length block ≡ 256
      → length dk ≤ 256
      → iterate prf_fn output_size fresh n block block_len dk
        ≡ derived (
            xor_bytes dk
              (rounds f output_size n (take block_len block) ++ pad n (drop output_size block)))
  unfolding iterate rounds
  iterate-rounds zero block block_len dk whole fits =
      ap derived (sym (xor_bytes_blank dk output_size (length (drop output_size block))))
  iterate-rounds (suc n) block block_len dk whole fits =
      let out : List ℕ = f (take block_len block) in
      let junk : List ℕ = drop output_size block in
      let len : length out ≡ output_size = size (take block_len block) in
      let left : length junk ≡ 256 - output_size = omega (arith, length-drop output_size block) in
      let full : length (out ++ junk) ≡ 256 = omega (arith, length-append out junk) in
      let inside : ltb 256 (length dk) ≡ false = ground arith in
      let same : out ++ drop (length out) block ≡ out ++ junk = ap (λ k. out ++ drop k block) len in
      let more : List ℕ = rounds f output_size n out ++ pad n junk in
      let long : length more ≡ 256 = omega (
        arith,
        length-append (rounds f output_size n out) (pad n junk),
        length-rounds f output_size n out size,
        length-pad n junk,
      ) in
      let again : iterate prf_fn output_size fresh n (out ++ junk) output_size
            (xor_bytes dk (out ++ junk))
          ≡ derived (
              xor_bytes (xor_bytes dk (out ++ junk)) (
                rounds f output_size n (take output_size (out ++ junk))
                ++ pad n (drop output_size (out ++ junk)))) =
        iterate-rounds n (out ++ junk) output_size (xor_bytes dk (out ++ junk)) full
          (omega (arith, length-xor_bytes dk (out ++ junk))) in
      rw (prf (take block_len block), inside, same, iterate)
        (again
          ∙ ap₂
              (λ t j.
                derived
                  (xor_bytes (xor_bytes dk (out ++ junk)) (rounds f output_size n t ++ pad n j)))
              (take-append output_size out junk len) (drop-append output_size out junk len)
          ∙ ap derived (
              xor_bytes_assoc dk (out ++ junk) more (omega arith) (omega arith)
              ∙ ap (λ l. xor_bytes dk l)
                  (xor_bytes-append out (rounds f output_size n out) junk (pad n junk)
                    (omega (arith, length-rounds f output_size n out size)))))

  -- What a round leaves in the zeroed rest of the key: the block, as far as there is room, and
  -- zeros.
  round-zeros :
      (c len : ℕ) (text junk : List ℕ)
      → length junk ≡ 256 - output_size
      → len ≤ 256
      → (c % 2 ≡ 0) ⊎ (len ≤ output_size)
      → xor_bytes (replicate len 0) (rounds f output_size c text ++ pad c junk)
        ≡ take len (rounds f output_size c text) ++ replicate (len - output_size) 0
  round-zeros c len text junk left fits clean =
      let r : List ℕ = rounds f output_size c text in
      let full : length r ≡ output_size = length-rounds f output_size c text size in
      xor_bytes-zeros len (r ++ pad c junk)
        (omega (arith, length-append r (pad c junk), length-pad c junk))
      ∙ take_over len r (pad c junk)
      ∙ ap (λ k. take len r ++ take (len - k) (pad c junk)) full
      ∙ ap (λ l. take len r ++ l) blank
    where
      blank : take (len - output_size) (pad c junk) ≡ replicate (len - output_size) 0
      blank = elim clean [
        | inl even ↦
            let half : c ≡ c / 2 + c / 2 = omega arith in
            ap (λ n. take (len - output_size) (pad n junk)) half
            ∙ ap (λ l. take (len - output_size) l) (pad_even (c / 2) junk)
            ∙ take-replicate (len - output_size) (length junk) 0 (omega arith)
        | inr short ↦ let none' : len - output_size ≡ 0 = omega arith in rw none' refl
      ]

  -- The outer loop over a zeroed rest of the key.
  block_loop-blocks :
      (c l i len : ℕ) (salt : List ℕ)
      → ((i : ℕ) → length (fresh i) ≡ 256)
      → 0 < c
      → length salt + 4 ≤ 256
      → len ≤ 256
      → (c % 2 ≡ 0) ⊎ (len ≤ output_size)
      → block_loop prf_fn output_size fresh c l i salt (replicate len 0)
        ≡ derived (take len (blocks f output_size c salt l i ++ replicate 256 0))
  unfolding block_loop block_step blocks
  block_loop-blocks c zero i len salt room some' fits short clean =
      ap derived (sym (take-replicate len 256 0 short))
  block_loop-blocks c (suc l) i len salt room some' fits short clean =
      let text : List ℕ = salt ++ block_index i in
      let start : List ℕ = text ++ drop (length text) (fresh i) in
      let r : List ℕ = rounds f output_size c text in
      let full : length r ≡ output_size = length-rounds f output_size c text size in
      let dk' : List ℕ = take len r ++ replicate (len - output_size) 0 in
      let sized : length text ≡ length salt + 4 = length-append salt (block_index i) in
      let whole : length start ≡ 256 = omega (
        arith,
        room i,
        length-append text (drop (length text) (fresh i)),
        length-drop (length text) (fresh i),
      ) in
      let round : iterate prf_fn output_size fresh c start (length text) (replicate len 0)
          ≡ derived dk' =
        iterate-rounds c start (length text) (replicate len 0) whole
          (omega (arith, length-replicate {A = ℕ} len 0))
        ∙ ap
            (λ t. derived (
              xor_bytes (replicate len 0)
                (rounds f output_size c t ++ pad c (drop output_size start))))
            (take-append (length text) text (drop (length text) (fresh i)) refl)
        ∙ ap derived (
            round-zeros c len text (drop output_size start)
              (omega (arith, length-drop output_size start)) short clean) in
      let bl : ℕ =
        block_step prf_fn output_size fresh c (length salt) (length (replicate {A = ℕ} len 0)) in
      let moved : bl ≡ length (take len r) =
        ground (arith, length-take len r, length-replicate {A = ℕ} len 0) in
      let taken : take bl dk' ≡ take len r = take-append bl (take len r) _ (sym moved) in
      let left : drop bl dk' ≡ replicate (len - output_size) 0 =
        drop-append bl (take len r) _ (sym moved) in
      let more : List ℕ = blocks f output_size c salt l (i + 1) in
      let zeros : List ℕ = replicate 256 0 in
      let again : block_loop prf_fn output_size fresh c l (i + 1) salt
            (replicate (len - output_size) 0)
          ≡ derived (take (len - output_size) (more ++ zeros)) =
        block_loop-blocks c l (i + 1) (len - output_size) salt room some' fits (omega arith)
          (elim clean [ inl even ↦ inl even | inr one ↦ inr (omega arith) ]) in
      rw (round, left, again, taken, block_loop)
        (ap derived (
          ap (λ k. take len r ++ take (len - k) (more ++ zeros)) (sym full)
          ∙ sym (take_over len r (more ++ zeros))
          ∙ ap (λ x. take len x) (sym (append_assoc r more zeros))))

  -- Over a pseudorandom function that does not fail and always gives `output_size` bytes, a salt of
  -- at most 252 bytes and at least one iteration, a key of at most 256 bytes is the one that RFC
  -- 2898 defines: the start of the blocks T_1, T_2, … one after the other. This needs the number of
  -- iterations to be even, or the key to fit in one block. What the array `block` holds at first
  -- does not matter.
  pub pbkdf2-blocks :
      (c len : ℕ) (salt : List ℕ)
      → ((i : ℕ) → length (fresh i) ≡ 256)
      → 0 < output_size
      → 0 < c
      → 0 < len
      → length salt ≤ 252
      → len ≤ 256
      → (c % 2 ≡ 0) ⊎ (len ≤ output_size)
      → (yk_pbkdf2 prf_fn output_size fresh salt c len
          ≡ derived
              (take len (blocks f output_size c salt ((len + output_size - 1) / output_size) 1)))
        × (len ≤ length (blocks f output_size c salt ((len + output_size - 1) / output_size) 1))
  unfolding yk_pbkdf2 block_total
  pbkdf2-blocks c len salt room positive some' key fits short clean =
      let n : ℕ = (len + output_size - 1) / output_size in
      let all : List ℕ = blocks f output_size c salt n 1 in
      let total : block_total prf_fn output_size fresh len ≡ n =
        ap (λ m. m / output_size) (block_sum len output_size key (omega arith) (omega arith)) in
      let enough : len ≤ n * output_size = blocks_enough len output_size positive in
      let some_block : 0 < n = quotient-pos len output_size n enough key in
      let long : ltb 256 (length salt) ≡ false = ground arith in
      let inside : ltb 256 (length salt + 4) ≡ false = ground arith in
      let any : ltb 0 n ≡ true = ground arith in
      let covered : len ≤ length all = omega (arith, length-blocks f output_size c salt n 1 size) in
      let cut : take len (all ++ replicate 256 0) ≡ take len all = take_within len all _ covered in
      (
        rw (long, total, any, inside)
            (block_loop-blocks c n 1 len salt room some' (omega arith) short clean
              ∙ ap derived cut),
        covered,
      )
