-- ===== src/Tests/Args.antt =====
-- The theorems on the command line at concrete inputs.
use yubikey_personalization.Prelude.{ℕ, ◌≡◌, false, refl, none, List, [], ◌∷◌, codes, replicate}
use yubikey_personalization.Pers.Types.{Status, Config}
use yubikey_personalization.Pers.Command.{
  default_config1, ykp_configure_command, ykp_configure_version,
}
use yubikey_personalization.Pers.Command.Laws.{Supports}
use yubikey_personalization.Pers.Flags.{
  write_tktflag, write_cfgflag, write_extflag, tktflag_capability, cfgflag_capability,
  extflag_capability,
}
use yubikey_personalization.Pers.Capability.{
  capability_has_static_extras, capability_has_static, capability_has_ticket_mods,
  capability_has_update,
}
use yubikey_personalization.Pers.Keys.{ykp_get_supported_key_length, ykp_aes_key_from_raw}
use yubikey_personalization.Args.{hex_modhex_decode}
use yubikey_personalization.Args.State.{Arg, Outputs, Run, Outcome, proceed, stop}
use yubikey_personalization.Args.Names.{tktflag_options, find_option}
use yubikey_personalization.Args.Options.{configure, case_slot, case_u, case_a}
use yubikey_personalization.Args.Parse.{
  checked, choose_mode, case_o, option_flag, step, parse_loop, check_chosen, check_update,
  program_key, store_raw_key, store_hex_key, finish, args_to_config,
}
use yubikey_personalization.Args.Parse.Aim.{SameVersion, args_to_config-Supports}
use yubikey_personalization.Args.Parse.Finish.{Inside}
use yubikey_personalization.Args.Parse.Exclusive.{Exclusive}
use yubikey_personalization.Args.Parse.Update.{args_to_config-Inside}
use yubikey_personalization.Tests.Keys.{zeros_lib}

abbrev pub empty_outputs : Outputs
empty_outputs = record {
  oathid = [];
  infname = none;
  outfname = none;
  data_format = 1;
  autocommit = false;
  verbose = false;
  dry_run = false;
  access_code = none;
  new_access_code = none;
  ndef_type = 0;
  ndef_text = [];
  usb_mode = 0;
  cr_timeout = 0;
  autoeject_timeout = 0;
  num_modes_seen = 0;
  scan_bin = [];
  device_info = [];
}

abbrev pub zero_config : Config
zero_config = record {
  yk_major_version = 0;
  yk_minor_version = 0;
  yk_build_version = 0;
  command = 0;
  core = record default_config1 { tkt_flags = 0 };
  ykp_acccode_type = 0;
}

abbrev pub status34 : Status
status34 = record {
  version_major = 3;
  version_minor = 4;
  version_build = 0;
  pgm_seq = 1;
  touch_level = 0;
}

abbrev letter_arg : ℕ → List ℕ → Arg
letter_arg letter optarg = record { letter = letter; optarg = optarg; optopt = 0 }

abbrev final_run : Outcome → Run
final_run (proceed r) = r
final_run (stop r) = r

abbrev parsed : List Arg → Outcome
parsed args =
    args_to_config zeros_lib (λ s. none) (λ s. []) 128 128 [] args status34 zero_config
      empty_outputs false 0 0 []

-- -2 -o append-tab1 -a and 32 characters.
abbrev pub second_slot : List Arg
second_slot =
    letter_arg 50 [] ∷ letter_arg 111 (codes "append-tab1") ∷ letter_arg 97 (replicate 32 48) ∷ []

pub second_slot_run : Run
second_slot_run = final_run (parsed second_slot)

pub second_slot_accepted : parsed second_slot ≡ proceed second_slot_run
unfolding args_to_config parse_loop step case_slot case_a choose_mode case_o option_flag checked
    configure ykp_configure_command ykp_configure_version find_option tktflag_options codes
    write_tktflag write_cfgflag finish check_chosen check_update program_key store_hex_key
    store_raw_key hex_modhex_decode ykp_get_supported_key_length ykp_aes_key_from_raw
    cfgflag_capability capability_has_static_extras capability_has_static tktflag_capability
    capability_has_ticket_mods second_slot_run
second_slot_accepted = refl

pub second_slot_no_files :
    (second_slot_run.out.infname ≡ none) × (second_slot_run.out.outfname ≡ none)
unfolding args_to_config parse_loop step case_slot case_a choose_mode case_o option_flag checked
    configure ykp_configure_command ykp_configure_version find_option tktflag_options codes
    write_tktflag write_cfgflag finish check_chosen check_update program_key store_hex_key
    store_raw_key hex_modhex_decode ykp_get_supported_key_length ykp_aes_key_from_raw
    cfgflag_capability capability_has_static_extras capability_has_static tktflag_capability
    capability_has_ticket_mods second_slot_run
second_slot_no_files = (refl, refl)

args_to_config-Supports_example :
    SameVersion status34 second_slot_run.cfg
    × Supports second_slot_run.cfg.command second_slot_run.cfg
args_to_config-Supports_example =
    args_to_config-Supports zeros_lib (λ s. none) (λ s. []) 128 128 [] second_slot status34
      zero_config empty_outputs false 0 0 [] second_slot_run second_slot_accepted

-- -x -y
abbrev swapped : List Arg
swapped = letter_arg 120 [] ∷ letter_arg 121 [] ∷ []

pub swapped_run : Run
swapped_run = final_run (parsed swapped)

-- -u -1 -o append-tab1
abbrev updated : List Arg
updated = letter_arg 117 [] ∷ letter_arg 49 [] ∷ letter_arg 111 (codes "append-tab1") ∷ []

updated_run : Run
updated_run = final_run (parsed updated)

updated_accepted : parsed updated ≡ proceed updated_run
unfolding args_to_config parse_loop step case_slot case_u choose_mode case_o option_flag checked
    configure ykp_configure_command ykp_configure_version find_option tktflag_options codes
    write_tktflag write_cfgflag finish check_chosen check_update program_key store_hex_key
    store_raw_key hex_modhex_decode ykp_get_supported_key_length ykp_aes_key_from_raw
    cfgflag_capability capability_has_static_extras capability_has_static tktflag_capability
    capability_has_ticket_mods updated_run write_extflag extflag_capability capability_has_update
updated_accepted = refl

args_to_config-Inside_example : Inside updated_run.cfg updated_run.seen
args_to_config-Inside_example =
    args_to_config-Inside zeros_lib (λ s. none) (λ s. []) 128 128 [] updated status34 zero_config
      empty_outputs false 0 0 [] updated_run updated_accepted
