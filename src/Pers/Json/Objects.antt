-- ===== src/Pers/Json/Objects.antt =====
-- What is found under a key of an exported object.
use mathlib.Core.Path.{subst}
use yubikey_personalization.Prelude.{
  ℕ, ◌≡◌, ◌⊎◌, inl, inr, refl, sym, ap, ◌∙◌, arith, Bool, true, false, not, ◌&&◌, ◌||◌, Bool-cases,
  Option-cases, Option, none, some, List, [], ◌∷◌, str_eq, if◌then◌else◌, All,
}
use yubikey_personalization.Pers.Types.{Call}
use yubikey_personalization.Pers.Json.{JsonC, IsLawful, in_mode, add_flags}
use yubikey_personalization.Pers.Json.Import.{Target, set_values, set_json_value, run}

-- A key among the texts of a table.
abbrev pub is_text : Option (List ℕ) → List ℕ → Bool
is_text none k = false
is_text (some t) k = str_eq k t

module _ {Flag : Type 0} (text : Flag → Option (List ℕ)) where
  abbrev pub is_among : List ℕ → List (Flag × ℕ) → Bool
  is_among k [] = false
  is_among k ((flag, modes) ∷ p) = is_text (text flag) k || is_among k p

  -- No text of the table is another's.
  abbrev pub is_distinct : List (Flag × ℕ) → Bool
  is_distinct [] = true
  is_distinct ((flag, modes) ∷ p) = elim (text flag) [
    | none ↦ is_distinct p
    | some t ↦ not (is_among t p) && is_distinct p
  ]

-- No text of one table is one of the other.
abbrev pub is_apart :
    {F G : Type 0}
    → (F → Option (List ℕ))
    → (G → Option (List ℕ))
    → List (F × ℕ)
    → List (G × ℕ)
    → Bool
is_apart t u [] q = true
is_apart t u ((flag, modes) ∷ p) q = elim (t flag) [
  | none ↦ is_apart t u p q
  | some k ↦ not (is_among u k q) && is_apart t u p q
]

module _ {Flag : Type 0} (text : Flag → Option (List ℕ)) (has : Flag → Bool) (mode : ℕ) where
  -- What is read of the table, without the object.
  abbrev pub copy_flags : (Flag → Bool → Call) → List (Flag × ℕ) → Target → Target
  copy_flags setter [] s = s
  copy_flags setter ((flag, modes) ∷ p) s = copy_flags setter p (elim (text flag) [
    | none ↦ s
    | some t ↦ (if in_mode mode modes && has flag then run (setter flag true) s else s)
  ])

pub str_eq_refl : (t : List ℕ) → str_eq t t ≡ true
str_eq_refl [] = refl
str_eq_refl (c ∷ t) = ground (arith, str_eq_refl t)

module _ {Json : Type 0} (lib : JsonC Json) (laws : IsLawful lib) where
  module _ {Flag : Type 0} (text : Flag → Option (List ℕ)) (has : Flag → Bool) (mode : ℕ) where
    pub get-add_flags :
        (p : List (Flag × ℕ)) (o : Json) (k : List ℕ)
        → is_among text k p ≡ false
        → lib.object_get (add_flags lib text has mode p o) k ≡ lib.object_get o k
    unfolding add_flags
    get-add_flags [] o k h = refl
    get-add_flags ((flag, modes) ∷ p) o k h = elim (Option-cases (text flag)) [
      | inl n ↦ rw (n, add_flags) (get-add_flags p o k (rw n at h))
      | inr (t, n) ↦
          let parts : is_text (some t) k || is_among text k p ≡ false = rw n at h in
          let other : str_eq k t ≡ false = ground (arith, parts) in
          let rest : is_among text k p ≡ false = ground (arith, parts) in
          elim (Bool-cases (in_mode mode modes)) [
            | inr off ↦ rw (n, off, add_flags) (get-add_flags p o k rest)
            | inl on ↦
                rw (n, on, add_flags)
                  (get-add_flags p (lib.object_add o t (lib.new_boolean (has flag))) k rest
                    ∙ laws.get-add o t (lib.new_boolean (has flag)) k
                    ∙ rw other refl)
          ]
    ]

    -- The object says under the text of an entry whether its flag is set, if the entry is of the mode.
    abbrev pub SaysText : Json → Flag → ℕ → Option (List ℕ) → Type 0
    SaysText o flag modes none = Unit {0}
    SaysText o flag modes (some t) =
        (in_mode mode modes ≡ false) ⊎ (lib.object_get o t ≡ some (lib.new_boolean (has flag)))

    abbrev pub Says : Json → Flag × ℕ → Type 0
    Says o e = SaysText o e.0 e.1 (text e.0)

    -- A table without a text twice is said by the object that its loop made.
    pub add_flags-Says :
        (p : List (Flag × ℕ)) (o : Json)
        → is_distinct text p ≡ true
        → All (Says (add_flags lib text has mode p o)) p
    unfolding add_flags
    add_flags-Says [] o h = tt
    add_flags-Says ((flag, modes) ∷ p) o h = elim (Option-cases (text flag)) [
      | inl n ↦
          let e : add_flags lib text has mode ((flag, modes) ∷ p) o
              ≡ add_flags lib text has mode p o =
            rw (n, add_flags) refl in
          (
            subst (SaysText (add_flags lib text has mode ((flag, modes) ∷ p) o) flag modes) (sym n)
                tt,
            subst (λ x. All (Says x) p) (sym e) (add_flags-Says p o (rw (n, is_distinct) at h)),
          )
      | inr (t, n) ↦
          let parts : not (is_among text t p) && is_distinct text p ≡ true =
            rw (n, is_distinct) at h in
          let other : is_among text t p ≡ false = ground (arith, parts) in
          let rest : is_distinct text p ≡ true = ground (arith, parts) in
          let v = lib.new_boolean (has flag) in
          elim (Bool-cases (in_mode mode modes)) [
            | inr off ↦
                let e : add_flags lib text has mode ((flag, modes) ∷ p) o
                    ≡ add_flags lib text has mode p o =
                  rw (n, off, add_flags) refl in
                (
                  subst (SaysText (add_flags lib text has mode ((flag, modes) ∷ p) o) flag modes)
                      (sym n) (inl off),
                  subst (λ x. All (Says x) p) (sym e) (add_flags-Says p o rest),
                )
            | inl on ↦
                let e : add_flags lib text has mode ((flag, modes) ∷ p) o
                    ≡ add_flags lib text has mode p (lib.object_add o t v) =
                  rw (n, on, add_flags) refl in
                (
                  subst (SaysText (add_flags lib text has mode ((flag, modes) ∷ p) o) flag modes)
                      (sym n)
                      (inr (
                        ap (λ x. lib.object_get x t) e
                        ∙ get-add_flags p (lib.object_add o t v) t other
                        ∙ laws.get-add o t v t
                        ∙ rw (str_eq_refl t) refl)),
                  subst (λ x. All (Says x) p) (sym e)
                      (add_flags-Says p (lib.object_add o t v) rest),
                )
          ]
    ]

    value_copy :
        (setter : Flag → Bool → Call) (o : Json) (flag : Flag) (modes : ℕ) (s : Target)
        → SaysText o flag modes (text flag)
        → set_json_value lib text setter mode o flag modes s
          ≡ copy_flags text has mode setter ((flag, modes) ∷ []) s
    unfolding set_json_value
    value_copy setter o flag modes s h = elim (Option-cases (text flag)) [
      | inl n ↦ rw (n, set_json_value, copy_flags) refl
      | inr (t, n) ↦
          let said : SaysText o flag modes (some t) = subst (SaysText o flag modes) n h in
          elim said [
            | inl off ↦ rw (n, off, set_json_value, copy_flags) refl
            | inr found ↦ elim (Bool-cases (in_mode mode modes)) [
              | inr off ↦ rw (n, off, set_json_value, copy_flags) refl
              | inl on ↦
                  rw
                    (
                      n,
                      on,
                      found,
                      laws.is_boolean-new (has flag),
                      laws.get_boolean-new (has flag),
                      set_json_value,
                      copy_flags,
                    )
                    refl
            ]
          ]
    ]

    pub set_values_copy :
        (setter : Flag → Bool → Call) (p : List (Flag × ℕ)) (o : Json) (s : Target)
        → All (Says o) p
        → set_values lib text setter mode o p s ≡ copy_flags text has mode setter p s
    unfolding set_values
    set_values_copy setter [] o s h = refl
    set_values_copy setter ((flag, modes) ∷ p) o s h =
        set_values_copy setter p o (set_json_value lib text setter mode o flag modes s) h.1
        ∙ ap (copy_flags text has mode setter p) (value_copy setter o flag modes s h.0)

  -- What an object says it still says when the loop over a table apart from the first is done.
  pub Says-add_flags :
      {F G : Type 0} (t : F → Option (List ℕ)) (u : G → Option (List ℕ)) (has : F → Bool)
      (has' : G → Bool) (mode : ℕ) (p : List (F × ℕ)) (q : List (G × ℕ)) (o : Json)
      → is_apart t u p q ≡ true
      → All (Says t has mode o) p
      → All (Says t has mode (add_flags lib u has' mode q o)) p
  Says-add_flags t u has has' mode [] q o apart h = tt
  Says-add_flags t u has has' mode ((flag, modes) ∷ p) q o apart h = elim (Option-cases (t flag)) [
    | inl n ↦ rw n (tt, Says-add_flags t u has has' mode p q o (rw (n, is_apart) at apart) h.1)
    | inr (k, n) ↦
        let parts : not (is_among u k q) && is_apart t u p q ≡ true = rw (n, is_apart) at apart in
        let other : is_among u k q ≡ false = ground (arith, parts) in
        let rest : is_apart t u p q ≡ true = ground (arith, parts) in
        let said : SaysText t has mode o flag modes (some k) =
          subst (SaysText t has mode o flag modes) n h.0 in
        rw n (
          elim said [
            | inl off ↦ inl off
            | inr found ↦ inr (get-add_flags u has' mode q o k other ∙ found)
          ],
          Says-add_flags t u has has' mode p q o rest h.1,
        )
  ]
