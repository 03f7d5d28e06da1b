-- ===== src/Pers/Formats/Laws.antt =====
-- An export in JSON reads back, through the functions that choose the format.
use yubikey_personalization.Prelude.{ℕ, refl, ◌≡◌, ◌≢◌, ◌⊎◌, ◌<◌, true, some, List, length}
use yubikey_personalization.Pers.Types.{Config, ykp_format_ycfg}
use yubikey_personalization.Pers.Export.{Encoders, until_zero}
use yubikey_personalization.Pers.Modes.{legacy_mode, mode_oath_hotp}
use yubikey_personalization.Pers.Json.{JsonC, export_object}
use yubikey_personalization.Pers.Json.{IsLawful}
use yubikey_personalization.Pers.Json.Copied.{IsCapable}
use yubikey_personalization.Pers.Json.Found.{IsSeeded}
use yubikey_personalization.Pers.Json.Laws.{AreBytes, cleared, carried, import-export}
use yubikey_personalization.Pers.Formats.{returned, ykp_export_config, ykp_import_config}

module _ {Json : Type 0} (lib : JsonC Json) (laws : IsLawful lib) (encoders : Encoders)
    (c d : Config) (capable : IsCapable d) (e : ℕ) where
  -- On firmware with every feature but those of the first firmware only, a configuration whose JSON
  -- text fits in the memory is exported whole, and the import of that text into a cleared
  -- configuration with the same command succeeds: it sets exactly the bits that are carried in the
  -- mode of the export, and in OATH mode the moving factor, if that is 0 or 16, since the export
  -- takes any other for a random seed.
  pub import_config-export_config :
      (buf : List ℕ) (len : ℕ)
      → d.command ≡ c.command
      → AreBytes c
      → ((legacy_mode c ≢ mode_oath_hotp) ⊎ IsSeeded lib laws encoders c)
      → length (lib.to_json_string (export_object lib encoders c)) < len
      → (text : List ℕ) × (ykp_export_config lib encoders (some c) buf len ykp_format_ycfg e
          ≡ returned (length (lib.to_json_string (export_object lib encoders c))) text e)
        × (until_zero text ≡ lib.to_json_string (export_object lib encoders c))
        × (ykp_import_config lib (cleared d) text ykp_format_ycfg e ≡ (true, (carried c d, e)))
  unfolding ykp_export_config ykp_import_config
  import_config-export_config buf len same bytes seeded short =
      let (ret, text, put, whole, ends, back) =
        import-export lib laws encoders c d capable e len same bytes seeded short in
      (text, rw (put, whole) refl, ends, back)
