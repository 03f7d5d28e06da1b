-- ===== src/Pers/Json/Options.antt =====
-- Every option that is exported is imported, and the text of an export reads back.
use yubikey_personalization.Prelude.{
  ℕ, zero, suc, ◌-◌, ◌<◌, ◌≡◌, inl, inr, refl, ap, ◌∙◌, arith, Bool, true, false, Bool-cases, some,
  List, [], ◌∷◌, ◌++◌, ◌==◌, codes, length, take, drop, take_all, take_over, take-replicate,
  append_assoc, append-nil, replicate, All,
}
use yubikey_personalization.Prelude.Bits.{bit_and-zero}
use yubikey_personalization.Pers.Types.{Config, CoreConfig}
use yubikey_personalization.Pers.Flags.{
  TktFlag, CfgFlag, ExtFlag, has_flag, tktflag_mask, cfgflag_mask, extflag_mask, write_tktflag,
  write_cfgflag, write_extflag,
}
use yubikey_personalization.Pers.Modes.{
  legacy_mode, _ticket_flags_map, _config_flags_map, _extended_flags_map,
}
use yubikey_personalization.Pers.Export.{Encoders, until_zero}
use yubikey_personalization.Pers.Json.{
  JsonC, IsLawful, tktflag_json, cfgflag_json, extflag_json, _modes_map, add_flags, add_oath,
  add_fixed_modhex, export_options, put_text,
}
use yubikey_personalization.Pers.Json.Import.{read_mode, aim, set_mode, import_options}
use yubikey_personalization.Pers.Json.Objects.{
  Says, add_flags-Says, Says-add_flags, set_values_copy,
}
use yubikey_personalization.Pers.Json.Found.{yprod, aimed}
use yubikey_personalization.Pers.Json.Kept.{tkt_masks, cfg_masks, ext_masks}
use yubikey_personalization.Pers.Json.Copied.{IsCapable, tkt_copied, cfg_copied, ext_copied}

module _ {Json : Type 0} (lib : JsonC Json) (laws : IsLawful lib) (encoders : Encoders)
    (c : Config) where
  abbrev has_tkt : TktFlag → Bool
  has_tkt f = has_flag c.core.tkt_flags (tktflag_mask f)

  abbrev has_cfg : CfgFlag → Bool
  has_cfg f = has_flag c.core.cfg_flags (cfgflag_mask f)

  abbrev has_ext : ExtFlag → Bool
  has_ext f = has_flag c.core.ext_flags (extflag_mask f)

  -- The options say the flags of the three tables.
  export_options-Says :
      All
        (Says lib laws tktflag_json has_tkt (legacy_mode c) (export_options lib encoders c))
        _ticket_flags_map
      × All
          (Says lib laws cfgflag_json has_cfg (legacy_mode c) (export_options lib encoders c))
          _config_flags_map
      × All
          (Says lib laws extflag_json has_ext (legacy_mode c) (export_options lib encoders c))
          _extended_flags_map
  unfolding export_options tktflag_json cfgflag_json extflag_json codes
  export_options-Says =
      let mode = legacy_mode c in
      let o = add_oath lib encoders c (add_fixed_modhex lib encoders c lib.new_object) in
      let o1 = add_flags lib tktflag_json has_tkt mode _ticket_flags_map o in
      let o2 = add_flags lib cfgflag_json has_cfg mode _config_flags_map o1 in
      (
        Says-add_flags lib laws tktflag_json extflag_json has_tkt has_ext mode _ticket_flags_map
            _extended_flags_map o2 refl
            (Says-add_flags lib laws tktflag_json cfgflag_json has_tkt has_cfg mode
              _ticket_flags_map _config_flags_map o1 refl
              (add_flags-Says lib laws tktflag_json has_tkt mode _ticket_flags_map o refl)),
        Says-add_flags lib laws cfgflag_json extflag_json has_cfg has_ext mode _config_flags_map
            _extended_flags_map o2 refl
            (add_flags-Says lib laws cfgflag_json has_cfg mode _config_flags_map o1 refl),
        add_flags-Says lib laws extflag_json has_ext mode _extended_flags_map o2 refl,
      )

  module _ (d : Config) (capable : IsCapable d) (e : ℕ) where
    -- The core with the flags of the export added to those of `k`.
    abbrev pub with_flags : CoreConfig → CoreConfig
    with_flags k = record k {
      tkt_flags = tkt_masks (legacy_mode c) c.core.tkt_flags k.tkt_flags;
      cfg_flags = cfg_masks (legacy_mode c) c.core.cfg_flags k.cfg_flags;
      ext_flags = ext_masks (legacy_mode c) c.core.ext_flags k.ext_flags;
    }

    pub import_options_lem :
        (yprod jmode : Json) (k : CoreConfig)
        → aim lib yprod (d, e) ≡ (true, (d, e))
        → read_mode (lib.get_string jmode) _modes_map ≡ legacy_mode c
        → set_mode lib (legacy_mode c) (export_options lib encoders c) (d, e)
          ≡ (true, (record d { core = k }, e))
        → import_options lib yprod jmode (export_options lib encoders c) (d, e)
          ≡ (true, (record d { core = with_flags k }, e))
    unfolding import_options
    import_options_lem yprod jmode k aimed read moded =
        let (tkt_says, cfg_says, ext_says) = export_options-Says in
        let options = export_options lib encoders c in
        let mode = legacy_mode c in
        rw
          (
            aimed,
            read,
            moded,
            set_values_copy lib laws tktflag_json has_tkt mode write_tktflag _ticket_flags_map
                options (record d { core = k }, e) tkt_says,
            tkt_copied d capable mode c.core.tkt_flags k e,
            set_values_copy lib laws cfgflag_json has_cfg mode write_cfgflag _config_flags_map
                options _ cfg_says,
            cfg_copied d capable mode c.core.cfg_flags _ e,
            set_values_copy lib laws extflag_json has_ext mode write_extflag _extended_flags_map
                options _ ext_says,
            ext_copied d capable mode c.core.ext_flags _ e,
          )
          refl

pub has_flag_zero : (x : ℕ) → has_flag x 0 ≡ true
has_flag_zero x = rw (bit_and-zero x) refl

until_zero_zeros : (m : ℕ) → until_zero (replicate m 0 ++ (0 ∷ [])) ≡ []
unfolding until_zero
until_zero_zeros zero = refl
until_zero_zeros (suc m) = refl

pub until_zero-append : (s t : List ℕ) → until_zero s ≡ s → until_zero (s ++ t) ≡ s ++ until_zero t
unfolding until_zero
until_zero-append [] t h = refl
until_zero-append (x ∷ s) t h = elim (Bool-cases (x == 0)) [
  | inl z ↦ absurd (ground (arith, z, h))
  | inr n ↦
      let inner : x ∷ until_zero s ≡ x ∷ s = rw (n, until_zero) at h in
      rw n (ap (λ l. x ∷ l) (until_zero-append s t (ap (drop 1) inner)))
]

-- A text without a zero and shorter than the memory is put there whole.
pub put_text_lem :
    (text : List ℕ) (len : ℕ)
    → until_zero text ≡ text
    → length text < len
    → (buf : List ℕ) × (put_text text len ≡ some (length text, buf)) × (until_zero buf ≡ text)
unfolding put_text
put_text_lem text len whole short =
    let some_room : (len == 0) ≡ false = ground (arith, short) in
    let buf = take (len - 1) (text ++ replicate len 0) ++ (0 ∷ []) in
    let all : take (len - 1) text ≡ text = take_all (len - 1) text (omega (arith, short)) in
    let split : take (len - 1) (text ++ replicate len 0)
        ≡ text ++ replicate (len - 1 - length text) 0 =
      take_over (len - 1) text (replicate len 0)
      ∙ rw (all, take-replicate {A = ℕ} (len - 1 - length text) len 0 (omega arith)) refl in
    let back : until_zero buf ≡ text =
      ap (λ l. until_zero (l ++ (0 ∷ []))) split
      ∙ ap until_zero (append_assoc text (replicate (len - 1 - length text) 0) (0 ∷ []))
      ∙ until_zero-append text _ whole
      ∙ ap (λ l. text ++ l) (until_zero_zeros (len - 1 - length text))
      ∙ append-nil text in
    (buf, rw some_room (ap (λ t. some (length t, buf)) back), back)
