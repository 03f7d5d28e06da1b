-- ===== src/Pers/Ndef/Laws.antt =====
-- A record that was made from a URI or a text reads back as it.
use yubikey_personalization.Prelude.{
  ℕ, suc, ◌+◌, ◌-◌, ◌/◌, ◌%◌, ◌^◌, ◌≤◌, ◌<◌, ◌≡◌, inl, inr, Bool, false, some, List, [], ◌∷◌, ◌++◌,
  arith, refl, ap, ◌∙◌, ltb, not_ltb, ◌==◌, bit_and, if◌then◌else◌, length, take, drop,
  length-append, take-append, drop-append, append_assoc, Bool-cases,
}
use yubikey_personalization.Prelude.Bits.{bit_and_digit}
use yubikey_personalization.Core.Program.{Ndef}
use yubikey_personalization.Pers.Ndef.{
  shorten, ndef_identifiers, ykp_construct_ndef_uri, ykp_construct_ndef_text, invalid,
  ykp_ndef_as_text,
}
use yubikey_personalization.Pers.Ndef.Prefix.{
  prefix_of, shorten-prefix_of, text_result, fill_text-terminated,
}

suc_not_zero : (n : ℕ) → (n + 1 == 0) ≡ false
suc_not_zero n = ground arith

-- Reading a record of a URI whose code, prefix and rest are known.
as_text-uri :
    (code : ℕ) (rest tail part uri text acc : List ℕ)
    → prefix_of ndef_identifiers code ≡ some part
    → part ++ rest ≡ uri
    → length uri + 2 < 2 ^ 64
    → let ndef : Ndef = record {
      payload_len = length rest + 1;
      payload_type = 85;
      payload_data = (code ∷ rest) ++ tail;
      cur_acc_code = acc;
    } in
      ykp_ndef_as_text ndef text (length text) ≡ text_result uri text
unfolding ykp_ndef_as_text
as_text-uri code rest tail part uri text acc at join small =
    let sum : length part + length rest ≡ length uri =
      omega (arith, length-append part rest, ap length join) in
    let wrap : (length part + (length rest + 1) + (2 ^ 64 - 1)) % 2 ^ 64 ≡ length uri =
      omega arith in
    let some' : (length rest + 1 == 0) ≡ false = suc_not_zero (length rest) in
    let less : length rest + 1 - 1 ≡ length rest = omega arith in
    let room : 1 + length rest ≤ length ((code ∷ rest) ++ tail) =
      omega (arith, length-append (code ∷ rest) tail) in
    let fill =
      fill_text-terminated text part ((code ∷ rest) ++ tail) rest uri 1 (length rest)
        (length rest + 1 + length part) (take-append (length rest) rest tail refl) refl join room
        (omega arith) in
    rw (at, wrap, some', less)
      (ap (λ r. if ltb (length text) (length uri) then invalid else r) fill)

construct_ndef_uri-eq :
    (ndef : Ndef) (uri : List ℕ) (errno : ℕ)
    → length (shorten ndef_identifiers 0 uri).1 ≤ 53
    → ykp_construct_ndef_uri ndef uri errno ≡ (
      1,
      record {
        payload_len = length (shorten ndef_identifiers 0 uri).1 + 1;
        payload_type = 85;
        payload_data =
            ((shorten ndef_identifiers 0 uri).0 ∷ (shorten ndef_identifiers 0 uri).1)
            ++ drop (length (shorten ndef_identifiers 0 uri).1 + 1) ndef.payload_data;
        cur_acc_code = ndef.cur_acc_code;
      },
      errno,
    )
unfolding ykp_construct_ndef_uri
construct_ndef_uri-eq ndef uri errno short =
    let n : ℕ = length (shorten ndef_identifiers 0 uri).1 in
    let byte : (n + 1) % 2 ^ 8 ≡ n + 1 = omega arith in
    rw (not_ltb 54 (n + 1) (omega arith), byte) refl

-- For a URI of less than 2^64 - 2 bytes, whose rest behind its prefix takes at most 53 bytes, the
-- record is made, and reading it back gives the URI, with one byte of the buffer left as it was
-- before the zero. This takes a buffer that is two bytes longer than the URI: a shorter one is
-- refused if the URI does not fit without a zero, and written beyond its end otherwise.
pub ndef_as_text-construct_ndef_uri :
    (ndef : Ndef) (uri text : List ℕ) (errno : ℕ)
    → length (shorten ndef_identifiers 0 uri).1 ≤ 53
    → length uri + 2 < 2 ^ 64
    → let made = ykp_construct_ndef_uri ndef uri errno in
      (made.0 ≡ 1) × (ykp_ndef_as_text made.1 text (length text) ≡ text_result uri text)
ndef_as_text-construct_ndef_uri ndef uri text errno short small =
    let (part, at, join) = shorten-prefix_of ndef_identifiers uri in
    rw (construct_ndef_uri-eq ndef uri errno short)
      (refl, as_text-uri _ _ _ part uri text ndef.cur_acc_code at join small)

text_cut :
    (skipped body tail : List ℕ)
    → take (length body) (drop (length skipped + 1) ((length skipped ∷ (skipped ++ body)) ++ tail))
      ≡ body
text_cut skipped body tail =
    let next : length skipped + 1 ≡ suc (length skipped) = omega arith in
    let whole : (skipped ++ body) ++ tail ≡ skipped ++ (body ++ tail) =
      append_assoc skipped body tail in
    rw (next, whole)
      (ap (take (length body)) (drop-append (length skipped) skipped (body ++ tail) refl)
        ∙ take-append (length body) body tail refl)

no_high_bit : (n : ℕ) → n < 64 → bit_and n 0x80 ≡ 0
no_high_bit n h =
    let none' : n / 2 / 2 / 2 / 2 / 2 / 2 ≡ 0 = omega arith in
    omega (
      arith,
      bit_and_digit n 128,
      bit_and_digit (n / 2) 64,
      bit_and_digit (n / 2 / 2) 32,
      bit_and_digit (n / 2 / 2 / 2) 16,
      bit_and_digit (n / 2 / 2 / 2 / 2) 8,
      bit_and_digit (n / 2 / 2 / 2 / 2 / 2) 4,
      ap (λ k. bit_and k 2) none',
    )

-- Reading a record of a text whose first byte is the number of the bytes to skip.
as_text-text :
    (skipped body tail buffer acc : List ℕ)
    → length skipped < 64
    → let ndef : Ndef = record {
      payload_len = length body + length skipped + 1;
      payload_type = 84;
      payload_data = (length skipped ∷ (skipped ++ body)) ++ tail;
      cur_acc_code = acc;
    } in
      ykp_ndef_as_text ndef buffer (length buffer) ≡ text_result body buffer
unfolding ykp_ndef_as_text
as_text-text skipped body tail buffer acc small =
    let k : ℕ = length skipped in
    let n : ℕ = length body in
    let enough : ltb (n + k + 1) (k + 1) ≡ false = not_ltb (n + k + 1) (k + 1) (omega arith) in
    let less : n + k + 1 - k - 1 ≡ n = omega arith in
    let last : n + k + 1 - k ≡ n + 1 = omega arith in
    let cut : take n (drop (k + 1) ((k ∷ (skipped ++ body)) ++ tail)) ≡ body =
      text_cut skipped body tail in
    let room : k + 1 + n ≤ length ((k ∷ (skipped ++ body)) ++ tail) =
      omega (arith, length-append (k ∷ (skipped ++ body)) tail, length-append skipped body) in
    rw (no_high_bit k small, enough, less, last)
      (ap (λ r. if ltb (length buffer) n then invalid else r)
        (fill_text-terminated buffer [] ((k ∷ (skipped ++ body)) ++ tail) body body (k + 1) n
          (n + 1) cut refl refl room (omega arith)))

-- A record of a text is made where the text and the name of its language take at most 53 bytes.
-- Reading it back gives the text, under the same conditions on the buffer as for a URI. Where the
-- text is marked as UTF-16, the name of the language comes back in front of it.
pub ndef_as_text-construct_ndef_text :
    (ndef : Ndef) (text lang buffer : List ℕ) (isutf16 : Bool) (errno : ℕ)
    → length text + length lang ≤ 53
    → let made = ykp_construct_ndef_text ndef text lang isutf16 errno in
      (made.0 ≡ 1)
      × (ykp_ndef_as_text made.1 buffer (length buffer)
          ≡ text_result (if isutf16 then lang ++ text else text) buffer)
unfolding ykp_construct_ndef_text
ndef_as_text-construct_ndef_text ndef text lang buffer isutf16 errno short =
    let n : ℕ = length text + length lang + 1 in
    let byte : n % 2 ^ 8 ≡ n = omega arith in
    let status : length lang % 2 ^ 8 ≡ length lang = omega arith in
    let tail : List ℕ = drop n ndef.payload_data in
    let all : length text + length lang + 1 ≡ length (lang ++ text) + 0 + 1 =
      omega (arith, length-append lang text) in
    rw (not_ltb 54 n (omega arith), byte, status)
      (
        refl,
        elim (Bool-cases isutf16) [
          | inr plain ↦
              rw plain (as_text-text lang text tail buffer ndef.cur_acc_code (omega arith))
          | inl wide ↦
              rw (wide, no_high_bit (length lang) (omega arith), all)
                (as_text-text [] (lang ++ text) _ buffer ndef.cur_acc_code (omega arith))
        ],
      )
