-- ===== src/Tool/Files/Laws.antt =====
-- A configuration that one run of the tool saves and another one loads.
use yubikey_personalization.Prelude.{
  ℕ, suc, ◌+◌, ◌≡◌, ◌≢◌, ◌⊎◌, ◌<◌, refl, sym, ap, ◌∙◌, arith, ◌==◌, Bool, true, false, Option, none,
  some, List, ◌∷◌, ◌++◌, length, take, take_all, length-append, drop-append, append-nil,
}
use yubikey_personalization.Pers.Types.{Config, ykp_format_ycfg}
use yubikey_personalization.Pers.Command.{ykp_clear_config}
use yubikey_personalization.Pers.Export.{Encoders, until_zero}
use yubikey_personalization.Pers.Modes.{legacy_mode, mode_oath_hotp}
use yubikey_personalization.Pers.Json.{JsonC, IsLawful, export_object}
use yubikey_personalization.Pers.Json.Import.{_ykp_json_import_cfg}
use yubikey_personalization.Pers.Json.Copied.{IsCapable}
use yubikey_personalization.Pers.Json.Found.{IsSeeded}
use yubikey_personalization.Pers.Json.Laws.{AreBytes, cleared, carried}
use yubikey_personalization.Pers.Json.Options.{until_zero-append}
use yubikey_personalization.Pers.Formats.{returned, ykp_export_config, ykp_import_config}
use yubikey_personalization.Pers.Formats.Laws.{import_config-export_config}
use yubikey_personalization.Args.State.{Run}
use yubikey_personalization.Tool.Files.{
  FilesEnd, saved, goes_on, loaded, fread_data, open_input, opens_output, import_file, write_file,
  export_file, files,
}

module _ {Json : Type 0} (lib : JsonC Json) where
  -- An import reads up to the first zero.
  import_config-until_zero :
      (d : Config) (s t : List ℕ) (e : ℕ)
      → until_zero s ≡ until_zero t
      → ykp_import_config lib d s ykp_format_ycfg e ≡ ykp_import_config lib d t ykp_format_ycfg e
  unfolding ykp_import_config _ykp_json_import_cfg
  import_config-until_zero d s t e same = rw (same, ykp_import_config, _ykp_json_import_cfg) refl

fread_data_lem :
    (text before after : List ℕ)
    → length text < 1024
    → length before ≡ length text
    → fread_data text (before ++ (0 ∷ after)) ≡ text ++ (0 ∷ after)
unfolding fread_data
fread_data_lem text before after short same =
    let all : take 1024 text ≡ text = take_all 1024 text (omega (arith, short)) in
    rw (all, fread_data) (ap (λ l. text ++ l) (drop-append (length text) before (0 ∷ after) same))

not_longer : (n m : ℕ) → (n == n + suc m) ≡ false
not_longer n m = ground arith

zero_behind : (text after : List ℕ) → (length text == length (text ++ (0 ∷ after))) ≡ false
zero_behind text after =
    ap (λ n. length text == n) (length-append text (0 ∷ after))
    ∙ not_longer (length text) (length after)

terminated :
    (text after : List ℕ) → until_zero text ≡ text → until_zero (text ++ (0 ∷ after)) ≡ text
unfolding until_zero
terminated text after whole = until_zero-append text (0 ∷ after) whole ∙ append-nil text

module _ {Json : Type 0} (lib : JsonC Json) (encoders : Encoders) (stdin : List ℕ)
    (fopen_read : List ℕ → Option (List ℕ)) (fopen_write : List ℕ → Bool)
    (fwrite : List ℕ → ℕ) where
  import_file_lem :
      (q : Run) (k : Config) (text before after : List ℕ)
      → length text < 1024
      → 0 < length text
      → length before ≡ length text
      → until_zero text ≡ text
      → q.out.data_format ≡ ykp_format_ycfg
      → ykp_import_config lib (cleared q.cfg) (text ++ (0 ∷ after)) ykp_format_ycfg q.errno
        ≡ (true, (k, q.errno))
      → import_file lib encoders stdin fopen_read fopen_write fwrite q
          (before ++ (0 ∷ after))
          (some text)
        ≡ loaded (record q { cfg = k }) (text ++ (0 ∷ after))
  unfolding import_file ykp_clear_config
  import_file_lem q k text before after short some_text same whole format back =
      let all : take 1024 text ≡ text = take_all 1024 text (omega (arith, short)) in
      let something : (length text == 0) ≡ false = ground (arith, some_text) in
      rw
        (
          fread_data_lem text before after short same,
          terminated text after whole,
          format,
          back,
          all,
          something,
          zero_behind text after,
          import_file,
        )
        refl

  export_file_lem :
      (r : Run) (buf text : List ℕ) (stack : List ℕ)
      → r.out.data_format ≡ ykp_format_ycfg
      → ykp_export_config lib encoders (some r.cfg) stack 1024 ykp_format_ycfg r.errno
        ≡ returned (length text) buf r.errno
      → until_zero buf ≡ text
      → 0 < length text
      → fwrite text ≡ length text
      → export_file lib encoders stdin fopen_read fopen_write fwrite r stack ≡ saved text
  unfolding export_file write_file
  export_file_lem r buf text stack format put ends some_text written =
      let something : (length text == 0) ≡ false = ground (arith, some_text) in
      rw (format, put, something, ends, written, something, export_file, write_file) refl

-- The JSON text of a configuration.
abbrev pub json_text : {Json : Type 0} → JsonC Json → Encoders → Config → List ℕ
json_text lib encoders c = lib.to_json_string (export_object lib encoders c)

without_output :
    (outfname : Option (List ℕ)) (a : FilesEnd) (b : List ℕ → FilesEnd)
    → outfname ≡ none
    → (elim outfname as (λ _. FilesEnd) [ none ↦ a | some name ↦ b name ]) ≡ a
without_output outfname a b h = rw h refl

module _ {Json : Type 0} (lib : JsonC Json) (laws : IsLawful lib) (encoders : Encoders)
    (stdin : List ℕ) (fopen_read : List ℕ → Option (List ℕ)) (fopen_write : List ℕ → Bool)
    (fwrite : List ℕ → ℕ) (r q : Run) where
  -- If one run exports its configuration in JSON, and another one, for firmware with every feature
  -- but those of the first firmware only and with the same command, reads the file, then the text is
  -- written whole, and the second run goes on to its question with the bits of the flags that are
  -- carried in the mode of the export, and in OATH mode with the moving factor, if that is 0 or 16.
  -- That holds if the text is neither empty nor longer than 1023 bytes and is written whole, and if
  -- the byte behind it in the memory into which it is read is zero, which the tool does not see to.
  pub files_saved-goes_on :
      (capable : IsCapable q.cfg) (outfname stack before after : List ℕ)
      → r.out.infname ≡ none
      → r.out.outfname ≡ some outfname
      → r.out.data_format ≡ ykp_format_ycfg
      → opens_output lib encoders stdin fopen_read fopen_write fwrite (some outfname) ≡ true
      → open_input lib encoders stdin fopen_read fopen_write fwrite q.out.infname
        ≡ some (some (json_text lib encoders r.cfg))
      → q.out.outfname ≡ none
      → q.out.data_format ≡ ykp_format_ycfg
      → q.cfg.command ≡ r.cfg.command
      → AreBytes r.cfg
      → ((legacy_mode r.cfg ≢ mode_oath_hotp) ⊎ IsSeeded lib laws encoders r.cfg)
      → length (json_text lib encoders r.cfg) < 1024
      → 0 < length (json_text lib encoders r.cfg)
      → fwrite (json_text lib encoders r.cfg) ≡ length (json_text lib encoders r.cfg)
      → length before ≡ length (json_text lib encoders r.cfg)
      → (files lib encoders stdin fopen_read fopen_write fwrite r stack
          ≡ saved (json_text lib encoders r.cfg))
        × (files lib encoders stdin fopen_read fopen_write fwrite q (before ++ (0 ∷ after))
            ≡ goes_on (record q { cfg = carried r.cfg q.cfg }))
  unfolding files import_file opens_output
  files_saved-goes_on capable outfname stack before after i1 o1 f1 w1 i2 o2 f2 same bytes seeded
        short some_text written room =
      let text = lib.to_json_string (export_object lib encoders r.cfg) in
      let whole = laws.until_zero-to_string (export_object lib encoders r.cfg) in
      let (buf, put, ends, back) =
        import_config-export_config lib laws encoders r.cfg q.cfg capable q.errno stack 1024 same
          bytes seeded short in
      let (buf', put', ends', back') =
        import_config-export_config lib laws encoders r.cfg q.cfg capable r.errno stack 1024 same
          bytes seeded short in
      let reads =
        import_config-until_zero lib (cleared q.cfg) (text ++ (0 ∷ after)) buf q.errno
          (terminated text after whole ∙ sym ends)
        ∙ back in
      let first =
        export_file_lem lib encoders stdin fopen_read fopen_write fwrite r buf' text stack f1 put'
          ends' some_text written in
      let second =
        import_file_lem lib encoders stdin fopen_read fopen_write fwrite q (carried r.cfg q.cfg)
          text before after short some_text room whole f2 reads in
      let opens : opens_output lib encoders stdin fopen_read fopen_write fwrite q.out.outfname
          ≡ true =
        rw (o2, opens_output) refl in
      (
        rw (i1, o1, w1, files) (rw (o1, import_file) first),
        rw (i2, opens, second, files) (without_output _ _ _ o2),
      )
