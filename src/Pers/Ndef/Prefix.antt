-- ===== src/Pers/Ndef/Prefix.antt =====
-- Prefixes of URIs, and a text in a buffer of some size.
use yubikey_personalization.Prelude.{
  ℕ, zero, suc, ◌+◌, ◌-◌, ◌≤◌, ◌≡◌, ◌⊎◌, inl, inr, true, false, Option, some, List, [], ◌∷◌, ◌++◌,
  arith, refl, ap, ◌∙◌, sym, ltb, lt→ltb, not_ltb, ltb→lt, ltb_false→le, le→leb, ◌==◌,
  if◌then◌else◌, length, take, drop, get_or, get_elem?, set, length-append, Bool-cases,
}
use yubikey_personalization.Pers.Ndef.{
  starts_with, shorten, AsText, filled, invalid, beyond, fill_text,
}

starts_with-drop :
    (uri identifier : List ℕ)
    → starts_with uri identifier ≡ true
    → identifier ++ drop (length identifier) uri ≡ uri
starts_with-drop uri [] h = refl
starts_with-drop [] (c ∷ identifier) h = absurd (ground arith)
starts_with-drop (u ∷ uri) (c ∷ identifier) h =
    let same : u ≡ c = ground arith in
    let rest : starts_with uri identifier ≡ true = ground arith in
    rw same (ap (λ l. c ∷ l) (starts_with-drop uri identifier rest))

-- The prefix that a code stands for in a table.
abbrev pub prefix_of : List (List ℕ) → ℕ → Option (List ℕ)
prefix_of identifiers code = if code == 0 then some [] else get_elem? identifiers (code - 1)

shorten-prefix :
    (identifiers : List (List ℕ)) (indx : ℕ) (uri : List ℕ)
    → ((shorten identifiers indx uri).0 ≡ 0) × ((shorten identifiers indx uri).1 ≡ uri)
      ⊎ ((k : ℕ) × (part : List ℕ) × (get_elem? identifiers k ≡ some part)
          × ((shorten identifiers indx uri).0 ≡ indx + k + 1)
          × (part ++ (shorten identifiers indx uri).1 ≡ uri))
unfolding shorten
shorten-prefix [] indx uri = inl (refl, refl)
shorten-prefix (identifier ∷ identifiers) indx uri =
    elim (Bool-cases (starts_with uri identifier)) [
      | inl fits ↦
          rw fits (inr (0, identifier, refl, omega arith, starts_with-drop uri identifier fits))
      | inr other ↦ rw other (elim (shorten-prefix identifiers (indx + 1) uri) [
        | inl whole ↦ inl whole
        | inr (k, part, at, code, same) ↦ inr (suc k, part, at, omega arith, same)
      ])
    ]

-- The code that is stored stands for the prefix that is left out.
pub shorten-prefix_of :
    (identifiers : List (List ℕ)) (uri : List ℕ)
    → (part : List ℕ) × (prefix_of identifiers (shorten identifiers 0 uri).0 ≡ some part)
      × (part ++ (shorten identifiers 0 uri).1 ≡ uri)
shorten-prefix_of identifiers uri = elim (shorten-prefix identifiers 0 uri) [
  | inl (none', whole) ↦ ([], ap (prefix_of identifiers) none', whole)
  | inr (k, part, at, code, same) ↦
      let next : (shorten identifiers 0 uri).0 ≡ suc k = omega arith in
      (part, ap (prefix_of identifiers) next ∙ back k identifiers ∙ at, same)
]
  where
    back : (k : ℕ) (ids : List (List ℕ)) → prefix_of ids (suc k) ≡ get_elem? ids k
    back k ids =
        let less : suc k - 1 ≡ k = omega arith in
        let pos : (suc k == 0) ≡ false = ground arith in rw (pos, less) refl

-- A text in a buffer as it is left: one byte of the buffer stays as it was, then comes the zero.
abbrev pub terminated : List ℕ → List ℕ → List ℕ
terminated whole text = whole ++ (get_or text (length whole) 0 ∷ 0 ∷ drop (length whole + 2) text)

set_after : (u t : List ℕ) (a b v : ℕ) → set (u ++ (a ∷ b ∷ t)) (length u + 1) v ≡ u ++ (a ∷ v ∷ t)
set_after [] t a b v = refl
set_after (x ∷ u) t a b v =
    let next : suc (length u) + 1 ≡ suc (length u + 1) = omega arith in
    rw next (ap (λ l. x ∷ l) (set_after u t a b v))

drop_two :
    (n : ℕ) (text : List ℕ)
    → n + 2 ≤ length text
    → drop n text ≡ get_or text n 0 ∷ get_or text (n + 1) 0 ∷ drop (n + 2) text
drop_two zero [] h = absurd (omega arith)
drop_two zero (a ∷ []) h = absurd (omega arith)
drop_two zero (a ∷ b ∷ t) h = refl
drop_two (suc n) [] h = absurd (omega arith)
drop_two (suc n) (a ∷ t) h =
    let one : suc n + 1 ≡ suc (n + 1) = omega arith in
    let two : suc n + 2 ≡ suc (n + 2) = omega arith in rw (one, two) (drop_two n t (omega arith))

-- What comes of reading a text of n bytes into a buffer of `len` bytes: an error if len < n, an
-- access beyond the buffer if len is n or n + 1, and otherwise the text.
abbrev pub text_result : List ℕ → List ℕ → AsText
text_result whole text =
    if ltb (length text) (length whole)
    then invalid
    else if ltb (length text) (length whole + 2)
    then beyond
    else filled (terminated whole text)

-- Where `part` and the bytes taken from the payload make up a whole, it goes into the buffer if
-- there is room for two bytes more.
pub fill_text-terminated :
    (text part payload body whole : List ℕ) (from n final : ℕ)
    → take n (drop from payload) ≡ body
    → length body ≡ n
    → part ++ body ≡ whole
    → from + n ≤ length payload
    → final ≡ length part + n + 1
    → fill_text text part payload from n final
      ≡ (if ltb (length text) (length whole + 2) then beyond else filled (terminated whole text))
unfolding fill_text
fill_text-terminated text part payload body whole from n final cut len join inside last =
    let sum : length whole ≡ length part + n =
      omega (arith, length-append part body, ap length (sym join)) in
    elim (Bool-cases (ltb (length text) (length whole + 2))) [
      | inl short ↦
          let past : ltb final (length text) ≡ false =
            not_ltb final (length text)
              (omega (arith, ltb→lt (length text) (length whole + 2) short)) in
          rw (short, past, le→leb (from + n) (length payload) inside) refl
      | inr room ↦
          let h : length whole + 2 ≤ length text =
            ltb_false→le (length text) (length whole + 2) room in
          let at : final ≡ length whole + 1 = omega arith in
          rw
            (
              room,
              le→leb (from + n) (length payload) inside,
              lt→ltb final (length text) (omega arith),
              le→leb (length part + n) (length text) (omega arith),
              cut,
              join,
              at,
              sym sum,
              drop_two (length whole) text h,
            )
            (ap filled (set_after whole (drop (length whole + 2) text) _ _ 0))
    ]
