-- ===== src/Args/Parse/Exclusive.antt =====
-- Which options an accepted command line can have together.
use yubikey_personalization.Prelude.{◌≡◌, ◌⊎◌, false, ◌&&◌, not, ◌||◌}
use yubikey_personalization.Pers.Types.{Config, slot_swap}
use yubikey_personalization.Args.State.{Seen}

-- The combinations of options that an accepted command line can not have. Not among them are a
-- scan map that is set to zero, by `-S` without an argument, with device information.
abbrev pub Exclusive : Seen → Type 0
Exclusive s =
    (s.swap_seen
        && (s.slot_chosen
            || (s.update_seen
                || (s.ndef_seen
                    || (s.zap || (s.usb_mode_seen || (s.scan_map_seen || s.device_info_seen))))))
      ≡ false)
    × (s.ndef_seen
          && (s.update_seen
              || (s.zap || (s.usb_mode_seen || (s.scan_map_seen || s.device_info_seen))))
        ≡ false)
    × (s.zap && (s.usb_mode_seen || (s.scan_map_seen || s.device_info_seen)) ≡ false)
    × (s.usb_mode_seen && (s.scan_map_seen || s.device_info_seen) ≡ false)
    × (s.mode_chosen && not s.option_seen ≡ false)

abbrev Separate : Config → Seen → Type 0
Separate c s = Exclusive s × ((s.swap_seen ≡ false) ⊎ (c.command ≡ slot_swap))
