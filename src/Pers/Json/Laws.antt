-- ===== src/Pers/Json/Laws.antt =====
-- What an import of an export sets.
use yubikey_personalization.Prelude.{
  ℕ, ◌*◌, ◌%◌, ◌^◌, ◌<◌, ◌≡◌, ◌≢◌, ◌⊎◌, inl, inr, refl, ap, ◌∙◌, arith, Bool, true, false,
  Bool-cases, some, List, bit_and, bit_or, ◌==◌, if◌then◌else◌, codes, set, get_or, length,
}
use yubikey_personalization.Pers.Types.{Config, CoreConfig}
use yubikey_personalization.Pers.Flags.{
  TktFlag, CfgFlag, tktflag_mask, cfgflag_mask, write_tktflag, write_cfgflag, oath_hotp, chal_resp,
  oath_hotp8, chal_hmac, chal_yubico, static_ticket,
}
use yubikey_personalization.Pers.Fields.{ykp_set_oath_imf}
use yubikey_personalization.Pers.Modes.{
  legacy_mode, mode_chal_hmac, mode_oath_hotp, mode_otp_yubico, mode_chal_yubico,
  mode_static_ticket,
}
use yubikey_personalization.Pers.Export.{Encoders, until_zero}
use yubikey_personalization.Pers.Json.{
  JsonC, IsLawful, export_options, export_object, _ykp_json_export_cfg,
}
use yubikey_personalization.Pers.Json.Import.{Target, run, set_oath, set_mode, _ykp_json_import_cfg}
use yubikey_personalization.Pers.Json.Found.{
  Modes, legacy_mode-Modes, add_mode-ReadsMode, yprod, get-options, get-mode, get-yprod, aimed,
  IsSeeded, get-oath,
}
use yubikey_personalization.Pers.Json.Kept.{
  bit_two, oath_tests, hmac_tests, yubico_tests, static_tests, otp_tests, tkt_masks, cfg_masks,
  ext_masks, kept_tkt, kept_cfg, tkt_kept, cfg_kept, ext_kept,
}
use yubikey_personalization.Pers.Json.Options.{
  with_flags, import_options_lem, has_flag_zero, put_text_lem,
}
use yubikey_personalization.Pers.Json.Copied.{is_old, IsCapable, has_cfgflag}

-- The same configuration without flags, as `ykp_clear_config` leaves it.
abbrev pub cleared : Config → Config
cleared d = record d { core = record (d.core) { tkt_flags = 0; cfg_flags = 0; ext_flags = 0 } }

-- The flags of a configuration are bytes.
abbrev pub AreBytes : Config → Type 0
AreBytes c = (c.core.tkt_flags < 256) × (c.core.cfg_flags < 256) × (c.core.ext_flags < 256)

-- What is carried of `c` into `d`: the bits of the mode, and in OATH mode the moving factor.
abbrev pub carried : Config → Config → Config
carried c d =
    let mode = legacy_mode c in
    record d {
      core = record (d.core) {
        tkt_flags = bit_and c.core.tkt_flags (kept_tkt mode);
        cfg_flags = bit_and c.core.cfg_flags (kept_cfg mode);
        ext_flags = c.core.ext_flags;
        uid =
            if mode == mode_oath_hotp
            then set (set d.core.uid 4 0) 5 (get_or c.core.uid 5 0)
            else d.core.uid;
      };
    }

module _ {Json : Type 0} (lib : JsonC Json) (laws : IsLawful lib) (encoders : Encoders)
    (c d : Config) (capable : IsCapable d) (e : ℕ) where
  -- The core that the mode makes of a cleared one.
  abbrev moded_core : ℕ → ℕ → List ℕ → CoreConfig
  moded_core t g u = record (d.core) { tkt_flags = t; cfg_flags = g; ext_flags = 0; uid = u }

  abbrev SetsMode : ℕ → ℕ → List ℕ → Type 0
  SetsMode t g u =
      set_mode lib (legacy_mode c) (export_options lib encoders c) (cleared d, e)
      ≡ (true, (record d { core = moded_core t g u }, e))

  sets_otp : legacy_mode c ≡ mode_otp_yubico → SetsMode 0 0 d.core.uid
  unfolding set_mode
  sets_otp m = rw m refl

  sets_static : legacy_mode c ≡ mode_static_ticket → SetsMode 0 0x20 d.core.uid
  unfolding is_old set_mode write_cfgflag cfgflag_mask
  sets_static m = rw (m, λ (k : CoreConfig). has_cfgflag d capable static_ticket k refl) refl

  sets_hmac : legacy_mode c ≡ mode_chal_hmac → SetsMode 0x40 0x22 d.core.uid
  unfolding is_old set_mode write_cfgflag cfgflag_mask write_tktflag tktflag_mask
  sets_hmac m =
      rw (m, capable.tkt chal_resp, λ (k : CoreConfig). has_cfgflag d capable chal_hmac k refl) refl

  sets_yubico : legacy_mode c ≡ mode_chal_yubico → SetsMode 0x40 0x20 d.core.uid
  unfolding is_old set_mode write_cfgflag cfgflag_mask write_tktflag tktflag_mask
  sets_yubico m =
      rw (m, capable.tkt chal_resp, λ (k : CoreConfig). has_cfgflag d capable chal_yubico k refl)
        refl

  run_tkt :
      (f : TktFlag) (k : CoreConfig)
      → run (write_tktflag f true) (record d { core = k }, e) ≡ (
        record d { core = record k { tkt_flags = bit_or k.tkt_flags (tktflag_mask f) % 256 } },
        e,
      )
  unfolding write_tktflag
  run_tkt f k = rw (capable.tkt f k) refl

  run_cfg :
      (f : CfgFlag) (k : CoreConfig)
      → is_old f ≡ false
      → run (write_cfgflag f true) (record d { core = k }, e) ≡ (
        record d { core = record k { cfg_flags = bit_or k.cfg_flags (cfgflag_mask f) % 256 } },
        e,
      )
  unfolding write_cfgflag
  run_cfg f k new = rw (has_cfgflag d capable f k new) refl

  run_imf :
      (low : ℕ) (k : CoreConfig)
      → ((low ≡ 0) ⊎ (low ≡ 1))
      → run (ykp_set_oath_imf (low * 2 ^ 4)) (record d { core = k }, e)
        ≡ (record d { core = record k { uid = set (set k.uid 4 0) 5 low } }, e)
  unfolding ykp_set_oath_imf
  run_imf low k (inl l) = rw (l, capable.imf k) refl
  run_imf low k (inr l) = rw (l, capable.imf k) refl

  abbrev oath_core : CoreConfig
  oath_core = moded_core 0x40 0 d.core.uid

  -- The options of an OATH configuration, given what is found in them.
  set_oath_lem :
      (options : Json) (digits low : ℕ)
      → lib.object_get options (codes "oathDigits") ≡ some (lib.new_int digits)
      → lib.object_get options (codes "randomSeed") ≡ some (lib.new_boolean false)
      → lib.object_get options (codes "fixedSeedvalue") ≡ some (lib.new_int (low * 2 ^ 4))
      → ((low ≡ 0) ⊎ (low ≡ 1))
      → set_oath lib options (cleared d, e) ≡ (
        true,
        (
          record d {
            core =
                moded_core 0x40 (if digits == 8 then 0x02 else 0) (set (set d.core.uid 4 0) 5 low);
          },
          e,
        ),
      )
  unfolding set_oath is_old cfgflag_mask tktflag_mask
  set_oath_lem options digits low found_digits found_random found_seed lows =
      let first : run (write_tktflag oath_hotp true) (cleared d, e)
          ≡ (record d { core = oath_core }, e) =
        run_tkt oath_hotp (cleared d).core in
      let last : Target → Bool × Target = λ t. (true, run (ykp_set_oath_imf (low * 2 ^ 4)) t) in
      elim (Bool-cases (digits == 8)) [
        | inl on ↦
            let second : run (write_cfgflag oath_hotp8 true) (record d { core = oath_core }, e)
                ≡ (record d { core = record oath_core { cfg_flags = 0x02 } }, e) =
              run_cfg oath_hotp8 oath_core refl in
            rw
              (
                found_random, laws.get_boolean-new, found_seed, laws.get_int-new, found_digits,
                laws.get_int-new, on, set_oath,
              )
              (ap last (ap (run (write_cfgflag oath_hotp8 true)) first ∙ second)
                ∙ ap (λ t. (true, t)) (run_imf low (record oath_core { cfg_flags = 0x02 }) lows))
        | inr off ↦
            rw
              (
                found_random, laws.get_boolean-new, found_seed, laws.get_int-new, found_digits,
                laws.get_int-new, off, set_oath,
              )
              (ap last first ∙ ap (λ t. (true, t)) (run_imf low oath_core lows))
      ]

  sets_oath :
      legacy_mode c ≡ mode_oath_hotp
      → IsSeeded lib laws encoders c
      → c.core.cfg_flags < 256
      → SetsMode 0x40
          (bit_and c.core.cfg_flags 0x02)
          (set (set d.core.uid 4 0) 5 (get_or c.core.uid 5 0))
  unfolding set_mode
  sets_oath m h small =
      let (digits, random, seed) = get-oath lib laws encoders c m h in
      let lows : (get_or c.core.uid 5 0 ≡ 0) ⊎ (get_or c.core.uid 5 0 ≡ 1) = ground (arith, h.1) in
      rw (m, set_mode)
        (set_oath_lem (export_options lib encoders c) _ (get_or c.core.uid 5 0) digits random seed
            lows
          ∙ ap
              (λ g. (
                true,
                (
                  record d {
                    core = moded_core 0x40 g (set (set d.core.uid 4 0) 5 (get_or c.core.uid 5 0));
                  },
                  e,
                ),
              ))
              (elim (bit_two c.core.cfg_flags small) [ inl b ↦ rw b refl | inr b ↦ rw b refl ]))

  cleared-IsCapable : IsCapable (cleared d)
  cleared-IsCapable = record {
    tkt = capable.tkt;
    cfg = capable.cfg;
    ext = capable.ext;
    imf = capable.imf;
  }

  -- What the import makes of an object that was exported, given what the mode sets.
  import_lem :
      (buf : List ℕ) (t g : ℕ) (u : List ℕ)
      → until_zero buf ≡ lib.to_json_string (export_object lib encoders c)
      → d.command ≡ c.command
      → SetsMode t g u
      → _ykp_json_import_cfg lib buf (cleared d) e ≡ (
        true,
        (record d { core = with_flags lib laws encoders c d capable e (moded_core t g u) }, e),
      )
  unfolding _ykp_json_import_cfg
  import_lem buf t g u whole same moded =
      let (jmode, found, read) = add_mode-ReadsMode lib laws c (legacy_mode-Modes c) in
      rw
        (
          whole,
          laws.parse-to_string (export_object lib encoders c),
          get-yprod lib laws encoders c,
          get-mode lib laws encoders c ∙ found,
          get-options lib laws encoders c,
          _ykp_json_import_cfg,
        )
        (import_options_lem lib laws encoders c (cleared d) cleared-IsCapable e
          (yprod lib laws encoders c) jmode (moded_core t g u)
          (aimed lib laws encoders c (cleared d) e same) read moded)

  -- The bits that are carried, if the mode and the moving factor are known.
  with_flags-carried :
      (t g : ℕ) (u : List ℕ)
      → tkt_masks (legacy_mode c) c.core.tkt_flags t
        ≡ bit_and c.core.tkt_flags (kept_tkt (legacy_mode c))
      → cfg_masks (legacy_mode c) c.core.cfg_flags g
        ≡ bit_and c.core.cfg_flags (kept_cfg (legacy_mode c))
      → ext_masks (legacy_mode c) c.core.ext_flags 0 ≡ c.core.ext_flags
      → u ≡ (
          if legacy_mode c == mode_oath_hotp
          then set (set d.core.uid 4 0) 5 (get_or c.core.uid 5 0)
          else d.core.uid)
      → record d { core = with_flags lib laws encoders c d capable e (moded_core t g u) }
        ≡ carried c d
  with_flags-carried t g u ht hg hx hu = rw (ht, hg, hx, hu) refl

  -- The same, for each mode.
  import_carried :
      (buf : List ℕ)
      → until_zero buf ≡ lib.to_json_string (export_object lib encoders c)
      → d.command ≡ c.command
      → AreBytes c
      → ((legacy_mode c ≢ mode_oath_hotp) ⊎ IsSeeded lib laws encoders c)
      → _ykp_json_import_cfg lib buf (cleared d) e ≡ (true, (carried c d, e))
  import_carried buf whole same bytes seeded = by_mode (legacy_mode-Modes c)
    where
      by_mode : Modes c → _ykp_json_import_cfg lib buf (cleared d) e ≡ (true, (carried c d, e))
      by_mode (inl (m, t)) =
          let small : IsSeeded lib laws encoders c = elim seeded [
            | inl other ↦ absurd (other m)
            | inr h ↦ h
          ] in
          import_lem buf 0x40 (bit_and c.core.cfg_flags 0x02) _ whole same
            (sets_oath m small bytes.1)
          ∙ ap (λ x. (true, (x, e)))
              (with_flags-carried 0x40 _ _
                (rw m (tkt_kept mode_oath_hotp 0x40 c.core.tkt_flags oath_tests.0 bytes.0 t))
                (elim (bit_two c.core.cfg_flags bytes.1) [
                  | inl b ↦
                      rw (m, b)
                        (cfg_kept mode_oath_hotp 0x02 c.core.cfg_flags oath_tests.2 bytes.1
                          (rw b refl))
                  | inr b ↦
                      rw (m, b)
                        (cfg_kept mode_oath_hotp 0 c.core.cfg_flags oath_tests.1 bytes.1
                          (has_flag_zero c.core.cfg_flags))
                ])
                (rw m (ext_kept mode_oath_hotp c.core.ext_flags oath_tests.3 bytes.2)) (rw m refl))
      by_mode (inr (inl (m, t, h))) =
          import_lem buf 0x40 0x22 _ whole same (sets_hmac m)
          ∙ ap (λ x. (true, (x, e)))
              (with_flags-carried 0x40 0x22 _
                (rw m (tkt_kept mode_chal_hmac 0x40 c.core.tkt_flags hmac_tests.0 bytes.0 t))
                (rw m (cfg_kept mode_chal_hmac 0x22 c.core.cfg_flags hmac_tests.1 bytes.1 h))
                (rw m (ext_kept mode_chal_hmac c.core.ext_flags hmac_tests.2 bytes.2)) (rw m refl))
      by_mode (inr (inr (inl (m, t, h)))) =
          import_lem buf 0x40 0x20 _ whole same (sets_yubico m)
          ∙ ap (λ x. (true, (x, e)))
              (with_flags-carried 0x40 0x20 _
                (rw m (tkt_kept mode_chal_yubico 0x40 c.core.tkt_flags yubico_tests.0 bytes.0 t))
                (rw m (cfg_kept mode_chal_yubico 0x20 c.core.cfg_flags yubico_tests.1 bytes.1 h))
                (rw m (ext_kept mode_chal_yubico c.core.ext_flags yubico_tests.2 bytes.2))
                (rw m refl))
      by_mode (inr (inr (inr (inl (m, h))))) =
          import_lem buf 0 0x20 _ whole same (sets_static m)
          ∙ ap (λ x. (true, (x, e)))
              (with_flags-carried 0 0x20 _
                (rw m (
                  tkt_kept mode_static_ticket 0 c.core.tkt_flags static_tests.0 bytes.0
                    (has_flag_zero c.core.tkt_flags)))
                (rw m (cfg_kept mode_static_ticket 0x20 c.core.cfg_flags static_tests.1 bytes.1 h))
                (rw m (ext_kept mode_static_ticket c.core.ext_flags static_tests.2 bytes.2))
                (rw m refl))
      by_mode (inr (inr (inr (inr m)))) =
          import_lem buf 0 0 _ whole same (sets_otp m)
          ∙ ap (λ x. (true, (x, e)))
              (with_flags-carried 0 0 _
                (rw m (
                  tkt_kept mode_otp_yubico 0 c.core.tkt_flags otp_tests.0 bytes.0
                    (has_flag_zero c.core.tkt_flags)))
                (rw m (
                  cfg_kept mode_otp_yubico 0 c.core.cfg_flags otp_tests.1 bytes.1
                    (has_flag_zero c.core.cfg_flags)))
                (rw m (ext_kept mode_otp_yubico c.core.ext_flags otp_tests.2 bytes.2)) (rw m refl))

  -- The round trip of the text.
  pub import-export :
      (len : ℕ)
      → d.command ≡ c.command
      → AreBytes c
      → ((legacy_mode c ≢ mode_oath_hotp) ⊎ IsSeeded lib laws encoders c)
      → length (lib.to_json_string (export_object lib encoders c)) < len
      → (ret : ℕ) × (buf : List ℕ) × (_ykp_json_export_cfg lib encoders (some c) len
          ≡ some (ret, buf))
        × (ret ≡ length (lib.to_json_string (export_object lib encoders c)))
        × (until_zero buf ≡ lib.to_json_string (export_object lib encoders c))
        × (_ykp_json_import_cfg lib buf (cleared d) e ≡ (true, (carried c d, e)))
  unfolding _ykp_json_export_cfg
  import-export len same bytes seeded short =
      let text = lib.to_json_string (export_object lib encoders c) in
      let (buf, put, whole) = put_text_lem text len (laws.until_zero-to_string _) short in
      (length text, buf, put, refl, whole, import_carried buf whole same bytes seeded)
