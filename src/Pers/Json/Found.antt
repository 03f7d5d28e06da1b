-- ===== src/Pers/Json/Found.antt =====
-- The objects under the keys of an export.
use yubikey_personalization.Prelude.{
  ℕ, ◌*◌, ◌^◌, ◌≡◌, ◌⊎◌, inl, inr, refl, ap, ◌∙◌, arith, true, false, not, ◌&&◌, ◌||◌, Bool-cases,
  none, some, List, [], ◌∷◌, ◌==◌, ==_iff, ◌≤◌, if◌then◌else◌, codes, str_eq, get_or,
}
use yubikey_personalization.Pers.Types.{Config, slot_config, slot_config2}
use yubikey_personalization.Pers.Command.{ykp_command, ykp_get_acccode_type}
use yubikey_personalization.Pers.Flags.{has_flag, tktflag_mask, cfgflag_mask}
use yubikey_personalization.Pers.Modes.{
  legacy_mode, mode_chal_hmac, mode_oath_hotp, mode_otp_yubico, mode_chal_yubico,
  mode_static_ticket, _ticket_flags_map, _config_flags_map, _extended_flags_map,
}
use yubikey_personalization.Pers.Export.{Encoders}
use yubikey_personalization.Pers.Json.{
  JsonC, IsLawful, tktflag_json, cfgflag_json, extflag_json, _modes_map, add_oath, add_fixed_modhex,
  export_options, add_mode, add_target, add_protection, add_scope, export_object,
}
use yubikey_personalization.Pers.Json.Import.{aim, read_mode}
use yubikey_personalization.Pers.Json.Objects.{is_among, str_eq_refl, get-add_flags}

-- The modes, with the flags that say them.
abbrev pub Modes : Config → Type 0
Modes c =
    ((legacy_mode c ≡ mode_oath_hotp) × (has_flag c.core.tkt_flags 0x40 ≡ true))
    ⊎ ((legacy_mode c ≡ mode_chal_hmac)
        × (has_flag c.core.tkt_flags 0x40 ≡ true)
        × (has_flag c.core.cfg_flags 0x22 ≡ true))
    ⊎ ((legacy_mode c ≡ mode_chal_yubico)
        × (has_flag c.core.tkt_flags 0x40 ≡ true)
        × (has_flag c.core.cfg_flags 0x20 ≡ true))
    ⊎ ((legacy_mode c ≡ mode_static_ticket) × (has_flag c.core.cfg_flags 0x20 ≡ true))
    ⊎ (legacy_mode c ≡ mode_otp_yubico)

pub legacy_mode-Modes : (c : Config) → Modes c
unfolding legacy_mode tktflag_mask cfgflag_mask
legacy_mode-Modes c = elim (Bool-cases (has_flag c.core.tkt_flags 0x40)) [
  | inl t ↦ elim (Bool-cases (has_flag c.core.cfg_flags 0x22)) [
    | inl h ↦ inr (inl (rw (t, h) refl, t, h))
    | inr h ↦ elim (Bool-cases (has_flag c.core.cfg_flags 0x20)) [
      | inl y ↦ inr (inr (inl (rw (t, h, y) refl, t, y)))
      | inr y ↦ inl (rw (t, h, y) refl, t)
    ]
  ]
  | inr t ↦ elim (Bool-cases (has_flag c.core.cfg_flags 0x20)) [
    | inl y ↦ inr (inr (inr (inl (rw (t, y) refl, y))))
    | inr y ↦ inr (inr (inr (inr (rw (t, y) refl))))
  ]
]

module _ {Json : Type 0} (lib : JsonC Json) (laws : IsLawful lib) where
  -- The text of a mode is found and read as the mode.
  abbrev pub ReadsMode : ℕ → Type 0
  ReadsMode mode =
      (jmode : Json) × (lib.object_get (add_mode lib mode _modes_map lib.new_object) (codes "mode")
        ≡ some jmode)
      × (read_mode (lib.get_string jmode) _modes_map ≡ mode)

  found_text :
      (o : Json) (text : List ℕ) (mode : ℕ)
      → read_mode text _modes_map ≡ mode
      → (jmode : Json) × (lib.object_get
            (lib.object_add o (codes "mode") (lib.new_string text))
            (codes "mode")
          ≡ some jmode)
        × (read_mode (lib.get_string jmode) _modes_map ≡ mode)
  found_text o text mode e = (
    lib.new_string text,
    laws.get-add o (codes "mode") (lib.new_string text) (codes "mode")
        ∙ rw (str_eq_refl (codes "mode")) refl,
    rw laws.get_string-new e,
  )

  pub add_mode-ReadsMode : (c : Config) → Modes c → ReadsMode (legacy_mode c)
  unfolding add_mode _modes_map read_mode codes
  add_mode-ReadsMode c (inl (e, t)) =
      rw e (found_text lib.new_object (codes "oathHOTP") mode_oath_hotp refl)
  add_mode-ReadsMode c (inr (inl (e, t, h))) =
      rw e (found_text lib.new_object (codes "hmacCR") mode_chal_hmac refl)
  add_mode-ReadsMode c (inr (inr (inl (e, t, h)))) =
      rw e (found_text lib.new_object (codes "yubicoCR") mode_chal_yubico refl)
  add_mode-ReadsMode c (inr (inr (inr (inl (e, t))))) =
      rw e (found_text lib.new_object (codes "staticTicket") mode_static_ticket refl)
  add_mode-ReadsMode c (inr (inr (inr (inr e)))) =
      rw e (found_text lib.new_object (codes "yubicoOTP") mode_otp_yubico refl)

  module _ (encoders : Encoders) (c : Config) where
    get-add_scope :
        (o : Json) (k : List ℕ)
        → str_eq k (codes "scope") ≡ false
        → str_eq k (codes "prefix") ≡ false
        → lib.object_get (add_scope lib encoders c o) k ≡ lib.object_get o k
    unfolding add_scope
    get-add_scope o k s p =
        elim (Bool-cases
          (not (c.core.fixed_size == 0) && not (legacy_mode c == mode_static_ticket))) [
            | inl on ↦ rw (on, laws.get-add, p, laws.get-add, s) refl
            | inr off ↦ elim (Bool-cases (not (legacy_mode c == mode_static_ticket))) [
              | inl on ↦ rw (off, on, laws.get-add, s) refl
              | inr off' ↦ rw (off, off') refl
            ]
          ]

    get-add_protection :
        (o : Json) (k : List ℕ)
        → str_eq k (codes "protection") ≡ false
        → lib.object_get (add_protection lib encoders c o) k ≡ lib.object_get o k
    unfolding add_protection
    get-add_protection o k p = elim (Bool-cases (ykp_get_acccode_type c == 1)) [
      | inl a ↦ rw (a, laws.get-add, p) refl
      | inr a ↦ elim (Bool-cases (ykp_get_acccode_type c == 2)) [
        | inl b ↦ rw (a, b, laws.get-add, p) refl
        | inr b ↦ elim (Bool-cases (ykp_get_acccode_type c == 3)) [
          | inl d ↦ rw (a, b, d, laws.get-add, p) refl
          | inr d ↦ rw (a, b, d) refl
        ]
      ]
    ]

    get-add_target :
        (o : Json) (k : List ℕ)
        → str_eq k (codes "targetConfig") ≡ false
        → lib.object_get (add_target lib encoders c o) k ≡ lib.object_get o k
    unfolding add_target
    get-add_target o k p = elim (Bool-cases (c.command == slot_config)) [
      | inl a ↦ rw (a, laws.get-add, p) refl
      | inr a ↦ elim (Bool-cases (c.command == slot_config2)) [
        | inl b ↦ rw (a, b, laws.get-add, p) refl
        | inr b ↦ rw (a, b) refl
      ]
    ]

    abbrev pub yprod : Json
    yprod = add_scope lib encoders c (
        lib.object_add
          (add_protection lib encoders c
            (add_target lib encoders c (add_mode lib (legacy_mode c) _modes_map lib.new_object)))
          (codes "options") (export_options lib encoders c))

    pub get-options : lib.object_get yprod (codes "options") ≡ some (export_options lib encoders c)
    unfolding codes
    get-options =
        get-add_scope _ (codes "options") refl refl
        ∙ laws.get-add _ (codes "options") _ (codes "options")

    below_options :
        (k : List ℕ)
        → str_eq k (codes "scope") ≡ false
        → str_eq k (codes "prefix") ≡ false
        → str_eq k (codes "options") ≡ false
        → str_eq k (codes "protection") ≡ false
        → lib.object_get yprod k
          ≡ lib.object_get
              (add_target lib encoders c (add_mode lib (legacy_mode c) _modes_map lib.new_object))
              k
    below_options k s p o q =
        get-add_scope _ k s p
        ∙ laws.get-add _ (codes "options") _ k
        ∙ rw o (get-add_protection _ k q)

    pub get-mode :
        lib.object_get yprod (codes "mode")
        ≡ lib.object_get (add_mode lib (legacy_mode c) _modes_map lib.new_object) (codes "mode")
    unfolding codes
    get-mode =
        below_options (codes "mode") refl refl refl refl ∙ get-add_target _ (codes "mode") refl

    get-add_mode :
        (mode : ℕ) (p : List (ℕ × List ℕ)) (o : Json) (k : List ℕ)
        → str_eq k (codes "mode") ≡ false
        → lib.object_get (add_mode lib mode p o) k ≡ lib.object_get o k
    unfolding add_mode
    get-add_mode mode [] o k h = refl
    get-add_mode mode ((flag, text) ∷ p) o k h = elim (Bool-cases (flag == mode)) [
      | inl on ↦ rw (on, laws.get-add, h) refl
      | inr off ↦ rw off (get-add_mode mode p o k h)
    ]

    -- The object to which the target is added, or not.
    abbrev base : Json
    base = add_mode lib (legacy_mode c) _modes_map lib.new_object

    target :
        lib.object_get yprod (codes "targetConfig")
        ≡ lib.object_get (add_target lib encoders c base) (codes "targetConfig")
    unfolding codes
    target = below_options (codes "targetConfig") refl refl refl refl

    get-target_none : lib.object_get base (codes "targetConfig") ≡ none
    unfolding codes
    get-target_none =
        get-add_mode (legacy_mode c) _modes_map lib.new_object (codes "targetConfig") refl
        ∙ laws.get-new _

    get-target_some :
        (n : ℕ)
        → lib.object_get
            (lib.object_add base (codes "targetConfig") (lib.new_int n))
            (codes "targetConfig")
          ≡ some (lib.new_int n)
    get-target_some n =
        laws.get-add base (codes "targetConfig") (lib.new_int n) (codes "targetConfig")
        ∙ rw (str_eq_refl (codes "targetConfig")) refl

    -- A configuration with the command of the export is aimed already.
    pub aimed : (d : Config) (e : ℕ) → d.command ≡ c.command → aim lib yprod (d, e) ≡ (true, (d, e))
    unfolding aim add_target ykp_command
    aimed d e same = elim (Bool-cases (c.command == slot_config)) [
      | inl a ↦
          let one : d.command ≡ 1 = same ∙ (==_iff c.command 1).0 a in
          let found : lib.object_get yprod (codes "targetConfig") ≡ some (lib.new_int 1) =
            target ∙ rw a (get-target_some 1) in
          rw (found, laws.get_int-new 1, one, aim) refl
      | inr a ↦ elim (Bool-cases (c.command == slot_config2)) [
        | inl b ↦
            let three : d.command ≡ 3 = same ∙ (==_iff c.command 3).0 b in
            let found : lib.object_get yprod (codes "targetConfig") ≡ some (lib.new_int 2) =
              target ∙ rw (a, b) (get-target_some 2) in
            rw (found, laws.get_int-new 2, three, aim) refl
        | inr b ↦
            let found : lib.object_get yprod (codes "targetConfig") ≡ none =
              target ∙ rw (a, b) get-target_none in
            rw (found, aim) refl
      ]
    ]

    -- The options of an OATH configuration with a seed that is fixed.
    abbrev low : ℕ
    low = get_or c.core.uid 5 0

    abbrev pub IsSeeded : Type 0
    IsSeeded = (get_or c.core.uid 4 0 ≡ 0) × (low ≤ 1)

    abbrev oath_base : Json
    oath_base = add_fixed_modhex lib encoders c lib.new_object

    through_flags :
        (k : List ℕ)
        → is_among tktflag_json k _ticket_flags_map ≡ false
        → is_among cfgflag_json k _config_flags_map ≡ false
        → is_among extflag_json k _extended_flags_map ≡ false
        → lib.object_get (export_options lib encoders c) k
          ≡ lib.object_get (add_oath lib encoders c oath_base) k
    unfolding export_options
    through_flags k t g x =
        get-add_flags lib laws extflag_json _ _ _extended_flags_map _ k x
        ∙ get-add_flags lib laws cfgflag_json _ _ _config_flags_map _ k g
        ∙ get-add_flags lib laws tktflag_json _ _ _ticket_flags_map _ k t

    -- The object with a seed that is fixed.
    abbrev seeded : Json
    seeded =
        lib.object_add
          (lib.object_add
            (lib.object_add oath_base (codes "oathDigits")
              (lib.new_int (if has_flag c.core.cfg_flags 0x02 then 8 else 6)))
            (codes "fixedSeedvalue") (lib.new_int (low * 2 ^ 4)))
          (codes "randomSeed") (lib.new_boolean false)

    add_oath-seeded :
        legacy_mode c ≡ mode_oath_hotp → IsSeeded → add_oath lib encoders c oath_base ≡ seeded
    unfolding add_oath
    add_oath-seeded m h =
        let bit : (low == 1 || low == 0) ≡ true = ground (arith, h.1) in rw (m, bit, h.0) refl

    pub get-oath :
        legacy_mode c ≡ mode_oath_hotp
        → IsSeeded
        → (lib.object_get (export_options lib encoders c) (codes "oathDigits")
            ≡ some (lib.new_int (if has_flag c.core.cfg_flags 0x02 then 8 else 6)))
          × (lib.object_get (export_options lib encoders c) (codes "randomSeed")
              ≡ some (lib.new_boolean false))
          × (lib.object_get (export_options lib encoders c) (codes "fixedSeedvalue")
              ≡ some (lib.new_int (low * 2 ^ 4)))
    unfolding codes tktflag_json cfgflag_json extflag_json
    get-oath m h =
        let at = λ (k : List ℕ). ap (λ x. lib.object_get x k) (add_oath-seeded m h) in
        (
          through_flags (codes "oathDigits") refl refl refl
              ∙ at (codes "oathDigits")
              ∙ laws.get-add _ (codes "randomSeed") _ (codes "oathDigits")
              ∙ laws.get-add _ (codes "fixedSeedvalue") _ (codes "oathDigits")
              ∙ laws.get-add _ (codes "oathDigits") _ (codes "oathDigits"),
          through_flags (codes "randomSeed") refl refl refl
              ∙ at (codes "randomSeed")
              ∙ laws.get-add _ (codes "randomSeed") _ (codes "randomSeed"),
          through_flags (codes "fixedSeedvalue") refl refl refl
              ∙ at (codes "fixedSeedvalue")
              ∙ laws.get-add _ (codes "randomSeed") _ (codes "fixedSeedvalue")
              ∙ laws.get-add _ (codes "fixedSeedvalue") _ (codes "fixedSeedvalue"),
        )

    pub get-yprod :
        lib.object_get (export_object lib encoders c) (codes "yubiProdConfig") ≡ some yprod
    unfolding export_object codes
    get-yprod = laws.get-add lib.new_object (codes "yubiProdConfig") _ (codes "yubiProdConfig")
