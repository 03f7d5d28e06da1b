-- ===== src/Pers/Capability.antt =====
-- ykpers.c: which firmware has which feature (`vcheck_*` and `capability_has_*`).
pub mod Laws
use yubikey_personalization.Prelude.{Bool, true, not, ◌&&◌, ◌||◌, ltb, leb, ◌==◌}
use yubikey_personalization.Pers.Types.{Config}

unfoldable pub vcheck_all : Config → Bool
vcheck_all c = true

unfoldable pub vcheck_v1 : Config → Bool
vcheck_v1 c = c.yk_major_version == 1

unfoldable pub vcheck_no_v1 : Config → Bool
vcheck_no_v1 c = ltb 1 c.yk_major_version

unfoldable pub vcheck_v21_or_greater : Config → Bool
vcheck_v21_or_greater c =
    (c.yk_major_version == 2 && ltb 1 c.yk_minor_version)
    || ((c.yk_major_version == 2 && (c.yk_minor_version == 1 && leb c.yk_build_version 3))
        || ltb 2 c.yk_major_version)

unfoldable pub vcheck_v22_or_greater : Config → Bool
vcheck_v22_or_greater c =
    (c.yk_major_version == 2 && leb 2 c.yk_minor_version) || ltb 2 c.yk_major_version

unfoldable pub vcheck_v23_or_greater : Config → Bool
vcheck_v23_or_greater c =
    (c.yk_major_version == 2 && leb 3 c.yk_minor_version) || ltb 2 c.yk_major_version

unfoldable pub vcheck_v24_or_greater : Config → Bool
vcheck_v24_or_greater c =
    (c.yk_major_version == 2 && leb 4 c.yk_minor_version) || ltb 2 c.yk_major_version

unfoldable pub vcheck_v30 : Config → Bool
vcheck_v30 c = c.yk_major_version == 3 && c.yk_minor_version == 0

unfoldable pub vcheck_neo : Config → Bool
vcheck_neo c = c.yk_major_version == 2 && (c.yk_minor_version == 1 && leb 4 c.yk_build_version)

unfoldable pub vcheck_neo_before_5 : Config → Bool
unfolding vcheck_neo
vcheck_neo_before_5 c = vcheck_neo c && ltb c.yk_build_version 5

unfoldable pub vcheck_neo_after_6 : Config → Bool
unfolding vcheck_neo
vcheck_neo_after_6 c = vcheck_neo c && ltb 6 c.yk_build_version

unfoldable pub capability_has_hidtrig : Config → Bool
unfolding vcheck_v1
capability_has_hidtrig c = vcheck_v1 c

unfoldable pub capability_has_ticket_first : Config → Bool
unfolding vcheck_v1
capability_has_ticket_first c = vcheck_v1 c

unfoldable pub capability_has_static : Config → Bool
unfolding vcheck_all vcheck_neo_before_5
capability_has_static c = vcheck_all c && not (vcheck_neo_before_5 c)

unfoldable pub capability_has_static_extras : Config → Bool
unfolding vcheck_no_v1 vcheck_neo_before_5
capability_has_static_extras c = vcheck_no_v1 c && not (vcheck_neo_before_5 c)

unfoldable pub capability_has_slot_two : Config → Bool
unfolding vcheck_no_v1 vcheck_neo
capability_has_slot_two c = vcheck_no_v1 c && not (vcheck_neo c)

unfoldable pub capability_has_chal_resp : Config → Bool
unfolding vcheck_v22_or_greater
capability_has_chal_resp c = vcheck_v22_or_greater c

unfoldable pub capability_has_oath_imf : Config → Bool
unfolding vcheck_v22_or_greater vcheck_neo_after_6
capability_has_oath_imf c = vcheck_v22_or_greater c || vcheck_neo_after_6 c

unfoldable pub capability_has_serial_api : Config → Bool
unfolding vcheck_v22_or_greater vcheck_neo
capability_has_serial_api c = vcheck_v22_or_greater c || vcheck_neo c

unfoldable pub capability_has_serial : Config → Bool
unfolding vcheck_v22_or_greater
capability_has_serial c = vcheck_v22_or_greater c

unfoldable pub capability_has_oath : Config → Bool
unfolding vcheck_v21_or_greater vcheck_neo
capability_has_oath c = vcheck_v21_or_greater c || vcheck_neo c

unfoldable pub capability_has_ticket_mods : Config → Bool
unfolding vcheck_all
capability_has_ticket_mods c = vcheck_all c

unfoldable pub capability_has_update : Config → Bool
unfolding vcheck_v23_or_greater
capability_has_update c = vcheck_v23_or_greater c

unfoldable pub capability_has_fast : Config → Bool
unfolding vcheck_v23_or_greater
capability_has_fast c = vcheck_v23_or_greater c

unfoldable pub capability_has_numeric : Config → Bool
unfolding vcheck_v23_or_greater
capability_has_numeric c = vcheck_v23_or_greater c

unfoldable pub capability_has_dormant : Config → Bool
unfolding vcheck_v23_or_greater
capability_has_dormant c = vcheck_v23_or_greater c

unfoldable pub capability_has_led_inv : Config → Bool
unfolding vcheck_v24_or_greater vcheck_v30
capability_has_led_inv c = vcheck_v24_or_greater c && not (vcheck_v30 c)
