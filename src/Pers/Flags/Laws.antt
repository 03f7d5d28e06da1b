-- ===== src/Pers/Flags/Laws.antt =====
-- Reading back what a flag setter wrote, and what it leaves alone.
use yubikey_personalization.Prelude.{
  ℕ, ◌-◌, ◌<◌, ◌≡◌, ◌⊎◌, Bool, true, false, some, arith, bit_and, inl, inr, Bool-cases,
}
use yubikey_personalization.Prelude.Bits.{
  and_or_distrib, and_or_self, and_assoc, and_complement, and_complement_disjoint, bit_or-lt,
  bit_or-zero, bit_and-zero, bit_and-le,
}
use yubikey_personalization.Pers.Types.{Config, ykp_eyubikeyver}
use yubikey_personalization.Pers.Flags.{
  tab_first, send_ref, serial_btn_visible, TktFlag, CfgFlag, ExtFlag, update_flags, has_flag,
  tktflag_mask, cfgflag_mask, extflag_mask, tktflag_capability, cfgflag_capability,
  extflag_capability, ykp_set_tktflag, ykp_set_cfgflag, ykp_set_extflag, ykp_get_tktflag,
  ykp_get_cfgflag, ykp_get_extflag,
}

module _ (mask flags : ℕ) (mask_fits : mask < 256) (flags_fit : flags < 256) where
  update_flags-lt : (state : Bool) → update_flags state mask flags < 256
  update_flags-lt true = omega arith
  update_flags-lt false = omega (arith, bit_and-le flags (255 - mask))

  -- A mask that is not zero reads back as it was written.
  has_flag-update_self :
      (state : Bool) → 0 < mask → has_flag (update_flags state mask flags) mask ≡ state
  has_flag-update_self true pos =
      ground (arith, bit_or-lt 8 flags mask flags_fit mask_fits, and_or_self flags mask)
  has_flag-update_self false pos = ground (
    arith,
    and_assoc flags (255 - mask) mask,
    and_complement 8 mask mask_fits,
    bit_and-zero flags,
  )

  -- A disjoint mask reads back as before.
  has_flag-update_disjoint :
      (state : Bool) (other : ℕ)
      → other < 256
      → bit_and mask other ≡ 0
      → has_flag (update_flags state mask flags) other ≡ has_flag flags other
  has_flag-update_disjoint true other fits apart = ground (
    arith,
    bit_or-lt 8 flags mask flags_fit mask_fits,
    and_or_distrib flags mask other,
    bit_or-zero (bit_and flags other),
  )
  has_flag-update_disjoint false other fits apart = ground (
    arith,
    and_assoc flags (255 - mask) other,
    and_complement_disjoint 8 mask other mask_fits fits apart,
  )

tktflag_mask_bounds : (flag : TktFlag) → (0 < tktflag_mask flag) × (tktflag_mask flag < 256)
unfolding tktflag_mask
tktflag_mask_bounds tab_first = (omega arith, omega arith)
tktflag_mask_bounds _ = (omega arith, omega arith)

-- On firmware without the feature the setter of any ticket flag refuses and changes only the
-- error code; otherwise it succeeds, changes nothing but the byte of ticket flags, and the
-- getter then returns the state that was set.
pub set_tktflag-get :
    (flag : TktFlag) (state : Bool) (c : Config) (errno : ℕ)
    → c.core.tkt_flags < 256
    → let r = ykp_set_tktflag flag state (some c) errno in
      ((tktflag_capability flag c ≡ false) × (r ≡ (0, some c, ykp_eyubikeyver)))
      ⊎ ((tktflag_capability flag c ≡ true)
          × ((v : ℕ) × (v < 256)
              × (r ≡ (1, some (record c { core = record (c.core) { tkt_flags = v } }), errno))
              × (ykp_get_tktflag flag r.1 ≡ state)))
unfolding ykp_set_tktflag ykp_get_tktflag
set_tktflag-get flag state c errno fits = elim (Bool-cases (tktflag_capability flag c)) [
  | inl has ↦ inr (
    has,
    (
      update_flags state (tktflag_mask flag) c.core.tkt_flags,
      update_flags-lt (tktflag_mask flag) c.core.tkt_flags (tktflag_mask_bounds flag).1 fits state,
      rw has,
      rw has (
          has_flag-update_self (tktflag_mask flag) c.core.tkt_flags (tktflag_mask_bounds flag).1
            fits state (tktflag_mask_bounds flag).0),
    ),
  )
  | inr lacks ↦ inl (lacks, rw lacks)
]

-- Setting or clearing a ticket flag leaves every ticket flag that shares no bit with it as it was.
pub set_tktflag_disjoint :
    (flag other : TktFlag) (state : Bool) (c : Config) (errno : ℕ)
    → c.core.tkt_flags < 256
    → bit_and (tktflag_mask flag) (tktflag_mask other) ≡ 0
    → ykp_get_tktflag other (ykp_set_tktflag flag state (some c) errno).1
      ≡ ykp_get_tktflag other (some c)
unfolding ykp_set_tktflag ykp_get_tktflag
set_tktflag_disjoint flag other state c errno fits apart =
    elim (Bool-cases (tktflag_capability flag c)) [
      | inl has ↦ rw has (
          has_flag-update_disjoint (tktflag_mask flag) c.core.tkt_flags (tktflag_mask_bounds flag).1
            fits state (tktflag_mask other) (tktflag_mask_bounds other).1 apart)
      | inr lacks ↦ rw lacks
    ]

cfgflag_mask_bounds : (flag : CfgFlag) → (0 < cfgflag_mask flag) × (cfgflag_mask flag < 256)
unfolding cfgflag_mask
cfgflag_mask_bounds send_ref = (omega arith, omega arith)
cfgflag_mask_bounds _ = (omega arith, omega arith)

-- On firmware without the feature the setter of any configuration flag refuses and changes only the
-- error code; otherwise it succeeds, changes nothing but the byte of configuration flags, and the
-- getter then returns the state that was set.
pub set_cfgflag-get :
    (flag : CfgFlag) (state : Bool) (c : Config) (errno : ℕ)
    → c.core.cfg_flags < 256
    → let r = ykp_set_cfgflag flag state (some c) errno in
      ((cfgflag_capability flag c ≡ false) × (r ≡ (0, some c, ykp_eyubikeyver)))
      ⊎ ((cfgflag_capability flag c ≡ true)
          × ((v : ℕ) × (v < 256)
              × (r ≡ (1, some (record c { core = record (c.core) { cfg_flags = v } }), errno))
              × (ykp_get_cfgflag flag r.1 ≡ state)))
unfolding ykp_set_cfgflag ykp_get_cfgflag
set_cfgflag-get flag state c errno fits = elim (Bool-cases (cfgflag_capability flag c)) [
  | inl has ↦ inr (
    has,
    (
      update_flags state (cfgflag_mask flag) c.core.cfg_flags,
      update_flags-lt (cfgflag_mask flag) c.core.cfg_flags (cfgflag_mask_bounds flag).1 fits state,
      rw has,
      rw has (
          has_flag-update_self (cfgflag_mask flag) c.core.cfg_flags (cfgflag_mask_bounds flag).1
            fits state (cfgflag_mask_bounds flag).0),
    ),
  )
  | inr lacks ↦ inl (lacks, rw lacks)
]

-- Setting or clearing a configuration flag leaves every configuration flag that shares no bit with it as it was.
pub set_cfgflag_disjoint :
    (flag other : CfgFlag) (state : Bool) (c : Config) (errno : ℕ)
    → c.core.cfg_flags < 256
    → bit_and (cfgflag_mask flag) (cfgflag_mask other) ≡ 0
    → ykp_get_cfgflag other (ykp_set_cfgflag flag state (some c) errno).1
      ≡ ykp_get_cfgflag other (some c)
unfolding ykp_set_cfgflag ykp_get_cfgflag
set_cfgflag_disjoint flag other state c errno fits apart =
    elim (Bool-cases (cfgflag_capability flag c)) [
      | inl has ↦ rw has (
          has_flag-update_disjoint (cfgflag_mask flag) c.core.cfg_flags (cfgflag_mask_bounds flag).1
            fits state (cfgflag_mask other) (cfgflag_mask_bounds other).1 apart)
      | inr lacks ↦ rw lacks
    ]

extflag_mask_bounds : (flag : ExtFlag) → (0 < extflag_mask flag) × (extflag_mask flag < 256)
unfolding extflag_mask
extflag_mask_bounds serial_btn_visible = (omega arith, omega arith)
extflag_mask_bounds _ = (omega arith, omega arith)

-- On firmware without the feature the setter of any extended flag refuses and changes only the
-- error code; otherwise it succeeds, changes nothing but the byte of extended flags, and the
-- getter then returns the state that was set.
pub set_extflag-get :
    (flag : ExtFlag) (state : Bool) (c : Config) (errno : ℕ)
    → c.core.ext_flags < 256
    → let r = ykp_set_extflag flag state (some c) errno in
      ((extflag_capability flag c ≡ false) × (r ≡ (0, some c, ykp_eyubikeyver)))
      ⊎ ((extflag_capability flag c ≡ true)
          × ((v : ℕ) × (v < 256)
              × (r ≡ (1, some (record c { core = record (c.core) { ext_flags = v } }), errno))
              × (ykp_get_extflag flag r.1 ≡ state)))
unfolding ykp_set_extflag ykp_get_extflag
set_extflag-get flag state c errno fits = elim (Bool-cases (extflag_capability flag c)) [
  | inl has ↦ inr (
    has,
    (
      update_flags state (extflag_mask flag) c.core.ext_flags,
      update_flags-lt (extflag_mask flag) c.core.ext_flags (extflag_mask_bounds flag).1 fits state,
      rw has,
      rw has (
          has_flag-update_self (extflag_mask flag) c.core.ext_flags (extflag_mask_bounds flag).1
            fits state (extflag_mask_bounds flag).0),
    ),
  )
  | inr lacks ↦ inl (lacks, rw lacks)
]

-- Setting or clearing a extended flag leaves every extended flag that shares no bit with it as it was.
pub set_extflag_disjoint :
    (flag other : ExtFlag) (state : Bool) (c : Config) (errno : ℕ)
    → c.core.ext_flags < 256
    → bit_and (extflag_mask flag) (extflag_mask other) ≡ 0
    → ykp_get_extflag other (ykp_set_extflag flag state (some c) errno).1
      ≡ ykp_get_extflag other (some c)
unfolding ykp_set_extflag ykp_get_extflag
set_extflag_disjoint flag other state c errno fits apart =
    elim (Bool-cases (extflag_capability flag c)) [
      | inl has ↦ rw has (
          has_flag-update_disjoint (extflag_mask flag) c.core.ext_flags (extflag_mask_bounds flag).1
            fits state (extflag_mask other) (extflag_mask_bounds other).1 apart)
      | inr lacks ↦ rw lacks
    ]
