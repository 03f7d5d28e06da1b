-- ===== src/Pers/Formats.antt =====
-- ykpers.c: the export and the import of a configuration in one of two formats, as built with json-c.
pub mod Laws
use yubikey_personalization.Prelude.{
  ℕ, Bool, true, false, Option, none, some, List, ◌==◌, if◌then◌else◌,
}
use yubikey_personalization.Pers.Types.{
  Config, ykp_format_legacy, ykp_format_ycfg, ykp_einval, ykp_enotyetimpl,
}
use yubikey_personalization.Pers.Export.{Encoders, _ykp_legacy_export_config}
use yubikey_personalization.Pers.Json.{JsonC, _ykp_json_export_cfg}
use yubikey_personalization.Pers.Json.Import.{Target, _ykp_json_import_cfg}

-- What comes of an export into the memory of the caller: a return value with what the memory then
-- holds and `ykp_errno`, the return value -1, or a read beyond the memory.
pub data Exported : Type 0 where
  returned : ℕ → List ℕ → ℕ → Exported
  minus_one : List ℕ → ℕ → Exported
  overread : Exported

module _ {Json : Type 0} (lib : JsonC Json) where
  -- `len` is the size of the memory at `buf`.
  unfoldable pub ykp_export_config : Encoders → Option Config → List ℕ → ℕ → ℕ → ℕ → Exported
  ykp_export_config encoders cfg buf len format errno =
      if format == ykp_format_ycfg
      then elim (_ykp_json_export_cfg lib encoders cfg len) [
        | none ↦ overread
        | some (n, text) ↦ returned n text errno
      ]
      else if format == ykp_format_legacy
      then elim cfg [
        | none ↦ returned 0 buf errno
        | some c ↦
            let (ok, pos, text) = _ykp_legacy_export_config encoders c len buf in
            if ok then returned pos text errno else minus_one text errno
      ]
      else returned 0 buf ykp_einval

  -- The return value, the configuration and `ykp_errno`.
  unfoldable pub ykp_import_config : Config → List ℕ → ℕ → ℕ → Bool × Target
  ykp_import_config cfg buf format errno =
      if format == ykp_format_ycfg
      then _ykp_json_import_cfg lib buf cfg errno
      else if format == ykp_format_legacy
      then (false, (cfg, ykp_enotyetimpl))
      else (false, (cfg, ykp_einval))
