-- ===== src/Args/Parse/Steady.antt =====
-- The calls that leave the command and the version of a configuration as they are.
use yubikey_personalization.Prelude.{
  ℕ, ◌≡◌, ◌⊎◌, inl, inr, refl, arith, Bool, true, Bool-cases, List,
}
use yubikey_personalization.Pers.Types.{Config, Call}
use yubikey_personalization.Pers.Command.{ykp_clear_config}
use yubikey_personalization.Pers.Flags.{
  TktFlag, CfgFlag, ExtFlag, write_tktflag, write_cfgflag, write_extflag, tktflag_capability,
  cfgflag_capability, extflag_capability,
}
use yubikey_personalization.Pers.Fields.{ykp_set_uid, ykp_set_oath_imf}
use yubikey_personalization.Pers.Keys.{Libyubikey, ykp_aes_key_from_raw, ykp_hmac_key_from_raw}
use yubikey_personalization.Args.{
  hex_modhex_decode, _set_fixed, Decoded, bad_length, bad_text, decoded,
}
use yubikey_personalization.Args.Parse.{on_config}

-- A call that changes nothing but the record for the key.
abbrev pub Steady : Call → Type 0
Steady f = (c : Config) (errno : ℕ) → (f c errno).1 ≡ record c { core = (f c errno).1.core }

pub write_tktflag-Steady : (flag : TktFlag) (state : Bool) → Steady (write_tktflag flag state)
unfolding write_tktflag
write_tktflag-Steady flag state c errno = elim (Bool-cases (tktflag_capability flag c)) [
  | inl e ↦ rw e
  | inr e ↦ rw e
]

pub write_cfgflag-Steady : (flag : CfgFlag) (state : Bool) → Steady (write_cfgflag flag state)
unfolding write_cfgflag
write_cfgflag-Steady flag state c errno = elim (Bool-cases (cfgflag_capability flag c)) [
  | inl e ↦ rw e
  | inr e ↦ rw e
]

pub write_extflag-Steady : (flag : ExtFlag) (state : Bool) → Steady (write_extflag flag state)
unfolding write_extflag
write_extflag-Steady flag state c errno = elim (Bool-cases (extflag_capability flag c)) [
  | inl e ↦ rw e
  | inr e ↦ rw e
]

pub set_uid-Steady : (input : List ℕ) → Steady (on_config (ykp_set_uid input))
unfolding ykp_set_uid
set_uid-Steady input c errno = refl

pub Decoded-cases :
    (d : Decoded) → (d ≡ bad_length) ⊎ ((d ≡ bad_text) ⊎ ((bytes : List ℕ) × (d ≡ decoded bytes)))
Decoded-cases bad_length = inl refl
Decoded-cases bad_text = inr (inl refl)
Decoded-cases (decoded bytes) = inr (inr (bytes, refl))

pub set_fixed-Steady : (lib : Libyubikey) (opt : List ℕ) → Steady (on_config (_set_fixed lib opt))
unfolding _set_fixed
set_fixed-Steady lib opt c errno = elim (Decoded-cases (hex_modhex_decode lib opt 0 32 true)) [
  | inl e ↦ rw (e, on_config)
  | inr (inl e) ↦ rw (e, on_config)
  | inr (inr (bytes, e)) ↦ rw (e, on_config)
]

pub set_oath_imf-Steady : (imf : ℕ) → Steady (ykp_set_oath_imf imf)
unfolding ykp_set_oath_imf
set_oath_imf-Steady imf c errno = ground arith

pub clear_config-Steady :
    Steady (on_config (λ c e. ((ykp_clear_config c).0, (ykp_clear_config c).1, e)))
unfolding ykp_clear_config
clear_config-Steady c errno = refl

pub aes_key_from_raw-Steady : (key : List ℕ) → Steady (ykp_aes_key_from_raw key)
unfolding ykp_aes_key_from_raw
aes_key_from_raw-Steady key c errno = refl

pub hmac_key_from_raw-Steady : (key : List ℕ) → Steady (ykp_hmac_key_from_raw key)
unfolding ykp_hmac_key_from_raw
hmac_key_from_raw-Steady key c errno = refl
