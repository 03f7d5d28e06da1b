-- ===== src/Args/State.antt =====
-- ykpers-args.c: the variables of `args_to_config`, how it ends, and `prompt_for_data`.
use yubikey_personalization.Prelude.{
  ℕ, Bool, Option, none, some, List, [], ◌∷◌, ◌==◌, if◌then◌else◌,
}
use yubikey_personalization.Pers.Types.{Config}

-- A result of `getopt`: the letter, `optarg` and `optopt`. The code steps `optind` back in two
-- places, on which the results that follow depend.
pub record Arg : Type 0 where
  pub letter : ℕ
  pub optarg : List ℕ
  pub optopt : ℕ

-- What the options seen so far were, with `*zap`.
pub record Seen : Type 0 where
  pub slot_chosen : Bool
  pub mode_chosen : Bool
  pub option_seen : Bool
  pub swap_seen : Bool
  pub update_seen : Bool
  pub ndef_seen : Bool
  pub usb_mode_seen : Bool
  pub scan_map_seen : Bool
  pub device_info_seen : Bool
  pub zap : Bool

-- What is returned through pointers, but the configuration and `*zap`.
pub record Outputs : Type 0 where
  pub oathid : List ℕ
  pub infname : Option (List ℕ)
  pub outfname : Option (List ℕ)
  pub data_format : ℕ
  pub autocommit : Bool
  pub verbose : Bool
  pub dry_run : Bool
  pub access_code : Option (List ℕ)
  pub new_access_code : Option (List ℕ)
  pub ndef_type : ℕ
  pub ndef_text : List ℕ
  pub usb_mode : ℕ
  pub cr_timeout : ℕ
  pub autoeject_timeout : ℕ
  pub num_modes_seen : ℕ
  pub scan_bin : List ℕ
  pub device_info : List ℕ

-- All of it, with `ykp_errno` and the lines that standard input still gives, `none` for an error.
pub record Run : Type 0 where
  pub cfg : Config
  pub errno : ℕ
  pub exit_code : ℕ
  pub seen : Seen
  pub out : Outputs
  pub keylocation : ℕ
  pub aeshash : List ℕ
  pub lines : List (Option (List ℕ))

-- A step goes on, or the function returns zero.
pub data Outcome : Type 0 where
  proceed stop : Run → Outcome

abbrev pub with_seen : (Seen → Seen) → Run → Run
with_seen f r = record r { seen = f r.seen }

abbrev pub with_out : (Outputs → Outputs) → Run → Run
with_out f r = record r { out = f r.out }

-- `*exit_code = 1; return 0;`
abbrev pub usage_error : Run → Outcome
usage_error r = stop (record r { exit_code = 1 })

-- A final newline is taken off.
abbrev pub chomp : List ℕ → List ℕ
chomp [] = []
chomp (c ∷ []) = if c == 10 then [] else c ∷ []
chomp (c ∷ d ∷ s) = c ∷ chomp (d ∷ s)

-- `some` for a return value of zero.
unfoldable pub prompt_for_data : List (Option (List ℕ)) → Option (List ℕ) × List (Option (List ℕ))
prompt_for_data [] = (none, [])
prompt_for_data (none ∷ lines) = (none, lines)
prompt_for_data (some s ∷ lines) = (some (chomp s), lines)
