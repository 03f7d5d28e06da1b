-- ===== src/Pers/Export/Laws.antt =====
-- The legacy export fits in the buffer that it is given and is its lines one behind the other.
use yubikey_personalization.Prelude.{
  ℕ, ◌*◌, ◌≤◌, ◌<◌, ◌≡◌, inl, inr, arith, true, false, not, ◌&&◌, Bool-cases, some, List, [], ◌∷◌,
  ◌++◌, codes, ◌==◌, length, take, map, length-append, append-nil,
}
use yubikey_personalization.Pers.Types.{Config}
use yubikey_personalization.Pers.Capability.{capability_has_oath_imf}
use yubikey_personalization.Pers.Flags.{has_flag, tktflag_mask, oath_hotp}
use yubikey_personalization.Pers.Fields.{ykp_get_oath_imf}
use yubikey_personalization.Pers.Keys.{ykp_get_supported_key_length}
use yubikey_personalization.Pers.Modes.{
  legacy_mode, _ticket_flags_map, _config_flags_map, _extended_flags_map, ticket_flags_shown,
  config_flags_shown, extended_flags_shown,
}
use yubikey_personalization.Pers.Export.{
  tktflag_text, cfgflag_text, extflag_text, cat_flags, hex_number, Encoders, oath_id_text,
  fixed_line, uid_line, key_line, acc_code_line, oath_imf_lines, flag_lines, legacy_lines,
  _ykp_legacy_export_config, until_zero, ykp_write_config,
}
use yubikey_personalization.Pers.Export.Lines.{
  joined, length-joined_append, put_lines-first, length-cat_flags, length-hex_number,
  ticket_flags_shown-weight, extended_flags_shown-weight, config_flags_shown-weight, tables_weight,
  name_lengths, length-line, length-take_le,
}

module _ (lib : Encoders) (c : Config) where
  length-oath_id_text : length (oath_id_text lib c) ≤ 12
  unfolding oath_id_text
  length-oath_id_text = length-take_le 12 _

  length-hex_take : (n : ℕ) (s : List ℕ) → length (lib.hex_encode (take n s)) ≤ 2 * n
  length-hex_take n s = omega (arith, lib.length-hex_encode (take n s), length-take_le n s)

  length-fixed_line : c.core.fixed_size ≤ 16 → length (fixed_line lib c) ≤ 50
  unfolding fixed_line
  length-fixed_line small =
      elim (Bool-cases
        (has_flag c.core.tkt_flags (tktflag_mask oath_hotp) && not (c.core.fixed_size == 0))) [
          | inl e ↦
              rw (e, fixed_line)
                (length-line (codes "OATH id: ") (oath_id_text lib c) 50
                  (omega (arith, name_lengths.0, length-oath_id_text)))
          | inr e ↦
              rw (e, fixed_line)
                (length-line (codes "fixed: m:")
                  (lib.modhex_encode (take c.core.fixed_size c.core.fixed)) 50
                  (omega (
                    arith,
                    name_lengths.1,
                    lib.length-modhex_encode (take c.core.fixed_size c.core.fixed),
                    length-take_le c.core.fixed_size c.core.fixed,
                  )))
        ]

  length-uid_line : length (uid_line lib c) ≤ 20
  unfolding uid_line
  length-uid_line = elim (Bool-cases (ykp_get_supported_key_length c == 20)) [
    | inl e ↦
        rw (e, uid_line)
          (length-line (codes "uid: ") (codes "n/a") 20
            (omega (arith, name_lengths.2, name_lengths.3)))
    | inr e ↦
        rw (e, uid_line)
          (length-line (codes "uid: ") (lib.hex_encode (take 6 c.core.uid)) 20
            (omega (arith, name_lengths.2, length-hex_take 6 c.core.uid)))
  ]

  length-key_line : length (key_line lib c) ≤ 50
  unfolding key_line
  length-key_line =
      let key = lib.hex_encode (take 16 c.core.key) in
      let more = lib.hex_encode (take 4 c.core.uid) in
      elim (Bool-cases (ykp_get_supported_key_length c == 20)) [
        | inl e ↦
            rw (e, key_line)
              (omega (
                arith,
                name_lengths.4,
                length-hex_take 16 c.core.key,
                length-hex_take 4 c.core.uid,
                length-append (codes "key: h:") (key ++ (more ++ (10 ∷ []))),
                length-append key (more ++ (10 ∷ [])),
                length-append more (10 ∷ []),
              ))
        | inr e ↦
            rw (e, key_line)
              (length-line (codes "key: h:") key 50
                (omega (arith, name_lengths.4, length-hex_take 16 c.core.key)))
      ]

  length-acc_code_line : length (acc_code_line lib c) ≤ 30
  unfolding acc_code_line
  length-acc_code_line =
      length-line (codes "acc_code: h:") (lib.hex_encode (take 6 c.core.acc_code)) 30
        (omega (arith, name_lengths.5, length-hex_take 6 c.core.acc_code))

  length-oath_imf_lines : length (joined (oath_imf_lines lib c)) ≤ 30
  unfolding oath_imf_lines
  length-oath_imf_lines =
      elim (Bool-cases
        (has_flag c.core.tkt_flags (tktflag_mask oath_hotp) && capability_has_oath_imf c)) [
          | inl e ↦
              rw (e, oath_imf_lines, append-nil)
                (length-line (codes "OATH IMF: h:") (hex_number 16 (ykp_get_oath_imf c)) 30
                  (omega (arith, name_lengths.6, length-hex_number 16 (ykp_get_oath_imf c))))
          | inr e ↦ rw (e, oath_imf_lines) (omega arith)
        ]

  length-ticket_line :
      (mode : ℕ)
      → length (
          codes "ticket_flags: "
          ++ (cat_flags [] (map tktflag_text (ticket_flags_shown c mode _ticket_flags_map))
              ++ (10 ∷ [])))
        ≤ 130
  length-ticket_line mode =
      let p = map tktflag_text (ticket_flags_shown c mode _ticket_flags_map) in
      length-line (codes "ticket_flags: ") (cat_flags [] p) 130 (
        omega (
          arith,
          name_lengths.7,
          length-cat_flags p [],
          tables_weight.0,
          ticket_flags_shown-weight c mode _ticket_flags_map,
        ))

  length-config_line :
      (mode : ℕ)
      → length (
          codes "config_flags: "
          ++ (cat_flags []
                (map cfgflag_text (config_flags_shown c mode c.core.cfg_flags _config_flags_map).0)
              ++ (10 ∷ [])))
        ≤ 260
  length-config_line mode =
      let p = map cfgflag_text (config_flags_shown c mode c.core.cfg_flags _config_flags_map).0 in
      length-line (codes "config_flags: ") (cat_flags [] p) 260 (
        omega (
          arith,
          name_lengths.8,
          length-cat_flags p [],
          tables_weight.1,
          config_flags_shown-weight c mode c.core.cfg_flags _config_flags_map,
        ))

  length-extended_line :
      (mode : ℕ)
      → length (
          codes "extended_flags: "
          ++ (cat_flags [] (map extflag_text (extended_flags_shown c mode _extended_flags_map))
              ++ (10 ∷ [])))
        ≤ 150
  length-extended_line mode =
      let p = map extflag_text (extended_flags_shown c mode _extended_flags_map) in
      length-line (codes "extended_flags: ") (cat_flags [] p) 150 (
        omega (
          arith,
          name_lengths.9,
          length-cat_flags p [],
          tables_weight.2,
          extended_flags_shown-weight c mode _extended_flags_map,
        ))

  length-flag_lines : length (joined (flag_lines lib c)) ≤ 540
  unfolding flag_lines
  length-flag_lines =
      three_lines _ _ _ (length-ticket_line (legacy_mode c)) (length-config_line (legacy_mode c))
        (length-extended_line (legacy_mode c))
    where
      three_lines :
          (s t u : List ℕ)
          → length s ≤ 130
          → length t ≤ 260
          → length u ≤ 150
          → length (joined (s ∷ t ∷ u ∷ [])) ≤ 540
      three_lines s t u hs ht hu =
          omega
            (arith, length-append s (t ++ (u ++ [])), length-append t (u ++ []), length-append u [])

  length-legacy_lines : c.core.fixed_size ≤ 16 → length (joined (legacy_lines lib c)) < 1024
  unfolding legacy_lines
  length-legacy_lines small =
      four_lines (fixed_line lib c) (uid_line lib c) (key_line lib c) (acc_code_line lib c)
        (oath_imf_lines lib c ++ flag_lines lib c) (length-fixed_line small) length-uid_line
        length-key_line length-acc_code_line
        (omega (
          arith,
          length-joined_append (oath_imf_lines lib c) (flag_lines lib c),
          length-oath_imf_lines,
          length-flag_lines,
        ))
    where
      four_lines :
          (s t u v : List ℕ) (ls : List (List ℕ))
          → length s ≤ 50
          → length t ≤ 20
          → length u ≤ 50
          → length v ≤ 30
          → length (joined ls) ≤ 570
          → length (joined ((s ∷ t ∷ u ∷ v ∷ []) ++ ls)) < 1024
      four_lines s t u v ls hs ht hu hv hl = omega (
        arith,
        length-append s (t ++ (u ++ (v ++ joined ls))),
        length-append t (u ++ (v ++ joined ls)),
        length-append u (v ++ joined ls),
        length-append v (joined ls),
      )

  fixed_line_some : 0 < length (fixed_line lib c)
  unfolding fixed_line
  fixed_line_some =
      elim (Bool-cases
        (has_flag c.core.tkt_flags (tktflag_mask oath_hotp) && not (c.core.fixed_size == 0))) [
          | inl e ↦
              rw (e, fixed_line)
                (omega (
                  arith,
                  name_lengths.0,
                  length-append (codes "OATH id: ") (oath_id_text lib c ++ (10 ∷ [])),
                ))
          | inr e ↦
              rw (e, fixed_line)
                (omega (
                  arith,
                  name_lengths.1,
                  length-append (codes "fixed: m:")
                      (lib.modhex_encode (take c.core.fixed_size c.core.fixed) ++ (10 ∷ [])),
                ))
        ]

  -- The export as a whole.
  legacy_export-joined :
      (buffer : List ℕ)
      → c.core.fixed_size ≤ 16
      → (tail : List ℕ) × (n : ℕ) × (0 < n)
        × (_ykp_legacy_export_config lib c 1024 buffer
            ≡ (true, n, joined (legacy_lines lib c) ++ (0 ∷ tail)))
  unfolding _ykp_legacy_export_config legacy_lines
  legacy_export-joined buffer small =
      let rest : List (List ℕ) =
        (uid_line lib c ∷ key_line lib c ∷ acc_code_line lib c ∷ [])
        ++ (oath_imf_lines lib c ++ flag_lines lib c) in
      let (tail, put) =
        put_lines-first 1024 (fixed_line lib c) rest buffer (length-legacy_lines small) in
      (
        tail,
        length (joined (fixed_line lib c ∷ rest)),
        omega (arith, fixed_line_some, length-append (fixed_line lib c) (joined rest)),
        put,
      )

  -- The lines of a configuration whose fixed part has at most 16 bytes fit in the 1024 characters that
  -- they are written to, whatever these held, and the writer is called with the lines one behind the
  -- other.
  pub write_config-joined :
      (buffer : List ℕ) (errno : ℕ)
      → c.core.fixed_size ≤ 16
      → (tail : List ℕ) × (ykp_write_config lib buffer (some c) errno
          ≡ (1, some (until_zero (joined (legacy_lines lib c) ++ (0 ∷ tail))), errno))
  unfolding ykp_write_config
  write_config-joined buffer errno small =
      let (tail, n, some_text, put) = legacy_export-joined buffer small in
      let nonzero : (n == 0) ≡ false = ground arith in (tail, rw (put, nonzero))
