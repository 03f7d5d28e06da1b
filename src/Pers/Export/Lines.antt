-- ===== src/Pers/Export/Lines.antt =====
-- Lines that fit are written one behind the other, and the lengths of texts and tables.
use yubikey_personalization.Prelude.{
  ℕ, zero, suc, ◌+◌, ◌-◌, ◌/◌, ◌≤◌, ◌<◌, ◌≡◌, inl, inr, refl, sym, ap, ap₂, ◌∙◌, arith, min, Bool,
  true, false, ◌&&◌, Bool-cases, List, [], ◌∷◌, ◌++◌, codes, ltb, ◌==◌, length, take, drop, map,
  bit_and, length-append, take-append, take_all, length-take, append_assoc, append-nil,
}
use yubikey_personalization.Pers.Types.{Config}
use yubikey_personalization.Pers.Flags.{
  TktFlag, CfgFlag, ExtFlag, has_flag, tktflag_mask, cfgflag_mask, extflag_mask, tktflag_capability,
  cfgflag_capability, extflag_capability,
}
use yubikey_personalization.Pers.Modes.{
  _ticket_flags_map, _config_flags_map, _extended_flags_map, ticket_flags_shown, config_flags_shown,
  extended_flags_shown,
}
use yubikey_personalization.Pers.Export.{
  tktflag_text, cfgflag_text, extflag_text, cat_flags, snprintf_at, put_lines, hex_number,
}

abbrev pub joined : List (List ℕ) → List ℕ
joined [] = []
joined (line ∷ lines) = line ++ joined lines

pub length-joined_append :
    (xs ys : List (List ℕ)) → length (joined (xs ++ ys)) ≡ length (joined xs) + length (joined ys)
length-joined_append [] ys = omega arith
length-joined_append (x ∷ xs) ys = omega (
  arith,
  length-append x (joined (xs ++ ys)),
  length-append x (joined xs),
  length-joined_append xs ys,
)

-- A text that fits is put behind what is there.
snprintf_at-fits :
    (pre rest text : List ℕ) (size : ℕ)
    → length text < size
    → (tail : List ℕ) × (snprintf_at (length pre) size text (pre ++ rest)
        ≡ (pre ++ text) ++ (0 ∷ tail))
unfolding snprintf_at
snprintf_at-fits pre rest text zero fits = absurd (omega arith)
snprintf_at-fits pre rest text (suc room) fits =
    let front : take (length pre) (pre ++ rest) ≡ pre = take-append (length pre) pre rest refl in
    let whole : take room text ≡ text = take_all room text (omega arith) in
    let tail : List ℕ = drop (length pre + min room (length text) + 1) (pre ++ rest) in
    (
      tail,
      ap (λ p. p ++ (take room text ++ (0 ∷ tail))) front
          ∙ ap (λ t. pre ++ (t ++ (0 ∷ tail))) whole
          ∙ sym (append_assoc pre text (0 ∷ tail)),
    )

put_all :
    {a b : ℕ} {t u : List ℕ}
    → a ≡ b
    → t ≡ u
    → (tail : List ℕ)
    → Path (Bool × ℕ × List ℕ) (true, a, t ++ (0 ∷ tail)) (true, b, u ++ (0 ∷ tail))
put_all e f tail =
    let all : ℕ → List ℕ → Bool × ℕ × List ℕ = λ n s. (true, n, s ++ (0 ∷ tail)) in ap₂ all e f

put_lines-joined :
    (len : ℕ) (lines : List (List ℕ)) (pre tail : List ℕ)
    → length pre + length (joined lines) < len
    → (tail' : List ℕ) × (put_lines len lines (length pre) (pre ++ (0 ∷ tail))
        ≡ (true, length pre + length (joined lines), (pre ++ joined lines) ++ (0 ∷ tail')))
unfolding put_lines
put_lines-joined len [] pre tail fits = (tail, put_all (omega arith) (sym (append-nil pre)) tail)
put_lines-joined len (line ∷ lines) pre tail fits =
    let sum = length-append line (joined lines) in
    let goes : ltb len (length pre + length line) ≡ false = ground (arith, sum) in
    let (more, put) =
      snprintf_at-fits pre (0 ∷ tail) line (len - length pre) (omega (arith, sum)) in
    let grown = length-append pre line in
    let (more', rest) = put_lines-joined len lines (pre ++ line) more (omega (arith, sum, grown)) in
    let lengths : length (pre ++ line) + length (joined lines)
        ≡ length pre + length (line ++ joined lines) =
      omega (arith, sum, grown) in
    (
      more',
      rw (goes, put_lines)
          (ap₂ (λ p b. put_lines len lines p b) (sym grown) put
            ∙ rest
            ∙ put_all lengths (append_assoc pre line (joined lines)) more'),
    )

pub put_lines-first :
    (len : ℕ) (line : List ℕ) (lines : List (List ℕ)) (buf : List ℕ)
    → length (joined (line ∷ lines)) < len
    → (tail : List ℕ) × (put_lines len (line ∷ lines) 0 buf
        ≡ (true, length (joined (line ∷ lines)), joined (line ∷ lines) ++ (0 ∷ tail)))
unfolding put_lines
put_lines-first len line lines buf fits =
    let sum = length-append line (joined lines) in
    let goes : ltb len (0 + length line) ≡ false = ground (arith, sum) in
    let zero_more : 0 + length line ≡ length line = omega arith in
    let all_room : len - 0 ≡ len = omega arith in
    let (more, put) = snprintf_at-fits [] buf line len (omega (arith, sum)) in
    let (more', rest) = put_lines-joined len lines line more (omega (arith, sum)) in
    (
      more',
      rw (goes, put_lines)
          (ap₂ (λ p m. put_lines len lines p (snprintf_at 0 m line buf)) zero_more all_room
            ∙ ap (λ b. put_lines len lines (length line) b) put
            ∙ rest
            ∙ put_all (sym sum) refl more'),
    )

pub weight : List (List ℕ) → ℕ
weight [] = 0
weight (text ∷ p) = length text + 1 + weight p

pub length-cat_flags :
    (p : List (List ℕ)) (buffer : List ℕ) → length (cat_flags buffer p) ≤ length buffer + weight p
unfolding cat_flags weight
length-cat_flags [] buffer = omega arith
length-cat_flags (text ∷ p) [] = omega (arith, length-cat_flags p text)
length-cat_flags (text ∷ p) (c ∷ buffer) =
    omega
      (arith, length-cat_flags p ((c ∷ buffer) ++ (124 ∷ text)), length-append buffer (124 ∷ text))

pub length-hex_number : (fuel n : ℕ) → length (hex_number fuel n) ≤ fuel
unfolding hex_number
length-hex_number zero n = omega arith
length-hex_number (suc fuel) n = elim (Bool-cases (n / 16 == 0)) [
  | inl e ↦ rw e (omega arith)
  | inr e ↦ rw e (
      omega
        (arith, length-hex_number fuel (n / 16), length-append (hex_number fuel (n / 16)) (_ ∷ [])))
]

-- What is named from a table is no longer than the table.
module _ (c : Config) where
  pub ticket_flags_shown-weight :
      (mode : ℕ) (p : List (TktFlag × ℕ))
      → weight (map tktflag_text (ticket_flags_shown c mode p))
        ≤ weight (map (λ f. tktflag_text f.0) p)
  unfolding ticket_flags_shown weight
  ticket_flags_shown-weight mode [] = omega arith
  ticket_flags_shown-weight mode ((flag, modes) ∷ p) =
      elim (Bool-cases (
        has_flag c.core.tkt_flags (tktflag_mask flag)
        && (tktflag_capability flag c && bit_and mode modes == mode))) [
          | inl e ↦ rw e (omega (arith, ticket_flags_shown-weight mode p))
          | inr e ↦ rw e (omega (arith, ticket_flags_shown-weight mode p))
        ]

  pub extended_flags_shown-weight :
      (mode : ℕ) (p : List (ExtFlag × ℕ))
      → weight (map extflag_text (extended_flags_shown c mode p))
        ≤ weight (map (λ f. extflag_text f.0) p)
  unfolding extended_flags_shown weight
  extended_flags_shown-weight mode [] = omega arith
  extended_flags_shown-weight mode ((flag, modes) ∷ p) =
      elim (Bool-cases (
        has_flag c.core.ext_flags (extflag_mask flag)
        && (extflag_capability flag c && bit_and mode modes == mode))) [
          | inl e ↦ rw e (omega (arith, extended_flags_shown-weight mode p))
          | inr e ↦ rw e (omega (arith, extended_flags_shown-weight mode p))
        ]

  pub config_flags_shown-weight :
      (mode t_flags : ℕ) (p : List (CfgFlag × ℕ))
      → weight (map cfgflag_text (config_flags_shown c mode t_flags p).0)
        ≤ weight (map (λ f. cfgflag_text f.0) p)
  unfolding config_flags_shown weight
  config_flags_shown-weight mode t_flags [] = omega arith
  config_flags_shown-weight mode t_flags ((flag, modes) ∷ p) =
      elim (Bool-cases (
        has_flag t_flags (cfgflag_mask flag)
        && (cfgflag_capability flag c && bit_and mode modes == mode))) [
          | inl e ↦
              rw e (omega (arith, config_flags_shown-weight mode (t_flags - cfgflag_mask flag) p))
          | inr e ↦ rw e (omega (arith, config_flags_shown-weight mode t_flags p))
        ]

pub tables_weight :
    (weight (map (λ f. tktflag_text f.0) _ticket_flags_map) ≤ 110)
    × (weight (map (λ f. cfgflag_text f.0) _config_flags_map) ≤ 240)
    × (weight (map (λ f. extflag_text f.0) _extended_flags_map) ≤ 130)
unfolding weight tktflag_text cfgflag_text extflag_text
tables_weight = (omega arith, omega arith, omega arith)

-- The names that lines begin with.
pub name_lengths :
    (length (codes "OATH id: ") ≡ 9)
    × (length (codes "fixed: m:") ≡ 9)
    × (length (codes "uid: ") ≡ 5)
    × (length (codes "n/a") ≡ 3)
    × (length (codes "key: h:") ≡ 7)
    × (length (codes "acc_code: h:") ≡ 12)
    × (length (codes "OATH IMF: h:") ≡ 12)
    × (length (codes "ticket_flags: ") ≡ 14)
    × (length (codes "config_flags: ") ≡ 14)
    × (length (codes "extended_flags: ") ≡ 16)
unfolding codes
name_lengths = (refl, refl, refl, refl, refl, refl, refl, refl, refl, refl)

pub length-line :
    (name text : List ℕ) (m : ℕ)
    → length name + length text + 1 ≤ m
    → length (name ++ (text ++ (10 ∷ []))) ≤ m
length-line name text m fits =
    omega (arith, length-append name (text ++ (10 ∷ [])), length-append text (10 ∷ []))

pub length-take_le : (n : ℕ) (s : List ℕ) → length (take n s) ≤ n
length-take_le n s = omega (arith, length-take n s)
