-- ===== src/Tool/Files.antt =====
-- ykpersonalize.c: the options -i and -s, which import the configuration from a file and export it
-- into one. What the files hold and which of them open are parameters.
pub mod Laws
use yubikey_personalization.Prelude.{
  ℕ, Bool, true, false, not, ◌||◌, Option, none, some, List, ◌++◌, codes, str_eq, ◌==◌,
  if◌then◌else◌, length, take, drop,
}
use yubikey_personalization.Pers.Command.{ykp_clear_config}
use yubikey_personalization.Pers.Export.{Encoders, until_zero}
use yubikey_personalization.Pers.Json.{JsonC}
use yubikey_personalization.Pers.Formats.{
  returned, minus_one, overread, ykp_export_config, ykp_import_config,
}
use yubikey_personalization.Args.State.{Run}
use yubikey_personalization.Core.Io.{Usb, Io, fault, ◌>>=◌, pure, give_up}
use yubikey_personalization.Pers.Types.{Status}
use yubikey_personalization.Pers.Keys.{Libyubikey}
use yubikey_personalization.Tool.{prepare, confirm_and_commit}

-- How the part of the tool with the files ends: a file does not open, a call fails, `strlen` reads
-- beyond `data`, a text is written, or the tool goes on to its question.
pub data FilesEnd : Type 0 where
  unopened : FilesEnd
  not_done : Run → FilesEnd
  overran : FilesEnd
  saved : List ℕ → FilesEnd
  goes_on : Run → FilesEnd

-- How the import of a file ends.
pub data Loaded : Type 0 where
  loaded : Run → List ℕ → Loaded
  unloaded : Run → Loaded
  overrun : Loaded

-- `fread` of 1024 bytes into `data`, which keeps what it held behind them.
unfoldable pub fread_data : List ℕ → List ℕ → List ℕ
fread_data content buf = let bytes = take 1024 content in bytes ++ drop (length bytes) buf

module _ {Json : Type 0} (lib : JsonC Json) (encoders : Encoders) (stdin : List ℕ)
    (fopen_read : List ℕ → Option (List ℕ)) (fopen_write : List ℕ → Bool)
    (fwrite : List ℕ → ℕ) where
  -- What there is to read, if anything; `none` where the file does not open.
  unfoldable pub open_input : Option (List ℕ) → Option (Option (List ℕ))
  open_input none = some none
  open_input (some infname) =
      if str_eq infname (codes "-")
      then some (some stdin)
      else elim (fopen_read infname) [ none ↦ none | some content ↦ some (some content) ]

  unfoldable pub opens_output : Option (List ℕ) → Bool
  opens_output none = true
  opens_output (some outfname) = str_eq outfname (codes "-") || fopen_write outfname

  -- `data` is not cleared before.
  unfoldable pub import_file : Run → List ℕ → Option (List ℕ) → Loaded
  unfolding fread_data
  import_file r buf none = loaded r buf
  import_file r buf (some content) = elim (ykp_clear_config (some r.cfg)).1 [
    | none ↦ unloaded r
    | some c ↦
        (let buf' = fread_data content buf in
          let (ok, (c', e)) = ykp_import_config lib c buf' r.out.data_format r.errno in
          if length (take 1024 content) == 0
          then unloaded (record r { cfg = c })
          else if length (until_zero buf') == length buf'
          then overrun
          else if not ok
          then unloaded (record r { cfg = c'; errno = e })
          else loaded (record r { cfg = c'; errno = e }) buf')
  ]

  unfoldable pub write_file : Run → List ℕ → FilesEnd
  write_file r buf = if fwrite (until_zero buf) == 0 then not_done r else saved (until_zero buf)

  -- A return value of -1 counts as a success.
  unfoldable pub export_file : Run → List ℕ → FilesEnd
  unfolding write_file
  export_file r buf =
      elim (ykp_export_config lib encoders (some r.cfg) buf 1024 r.out.data_format r.errno) [
        | overread ↦ overran
        | minus_one text e ↦ write_file (record r { errno = e }) text
        | returned n text e ↦
            (if n == 0
              then not_done (record r { errno = e })
              else write_file (record r { errno = e }) text)
      ]

  unfoldable pub files : Run → List ℕ → FilesEnd
  unfolding open_input opens_output import_file export_file
  files r buf = elim (open_input r.out.infname) [
    | none ↦ unopened
    | some inf ↦ elim (opens_output r.out.outfname) [
      | false ↦ unopened
      | true ↦ elim (import_file r buf inf) [
        | overrun ↦ overran
        | unloaded q ↦ not_done q
        | loaded q buf' ↦ elim (q.out.outfname) [
          | none ↦ goes_on q
          | some outfname ↦ export_file q buf'
        ]
      ]
    ]
  ]

  -- The tool from the options that were accepted to its end; `buf` is what the stack held in `data`.
  -- The end is `false` where the user calls the write off.
  module _ {Dev : Type 0} (usb : Usb Dev) (crc16 : List ℕ → ℕ) (big_endian : Bool)
      (yubikey : Libyubikey) where
    unfoldable pub personalize : Status → Run → List ℕ → Io Dev Bool
    personalize st r buf = do
      q ← prepare usb crc16 big_endian yubikey st r
      elim (files q.0 buf) [
        | unopened ↦ give_up
        | not_done p ↦ give_up
        | overran ↦ (λ w. fault)
        | saved text ↦ pure true
        | goes_on p ↦ confirm_and_commit usb crc16 big_endian p q.1
      ]
