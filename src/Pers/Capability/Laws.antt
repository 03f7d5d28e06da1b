-- ===== src/Pers/Capability/Laws.antt =====
-- The version tests against the order of firmware versions.
use yubikey_personalization.Prelude.{ℕ, ◌≤◌, ◌<◌, ◌≡◌, ◌↔◌, ◌⊎◌, true, false, arith, ◌&&◌, ◌||◌}
use yubikey_personalization.Pers.Types.{Config}
use yubikey_personalization.Pers.Capability.{
  vcheck_v21_or_greater, vcheck_v22_or_greater, vcheck_v23_or_greater, vcheck_v24_or_greater,
  vcheck_neo,
}

-- The version `major.minor` is at least `a.b`.
abbrev pub AtLeast : ℕ → ℕ → Config → Type 0
AtLeast a b c = (a < c.yk_major_version) ⊎ ((c.yk_major_version ≡ a) × (b ≤ c.yk_minor_version))

-- The tests for 2.2, 2.3 and 2.4 decide the lexicographic order on versions.
pub vcheck-AtLeast :
    (c : Config)
    → ((vcheck_v22_or_greater c ≡ true) ↔ AtLeast 2 2 c)
      × ((vcheck_v23_or_greater c ≡ true) ↔ AtLeast 2 3 c)
      × ((vcheck_v24_or_greater c ≡ true) ↔ AtLeast 2 4 c)
unfolding vcheck_v22_or_greater vcheck_v23_or_greater vcheck_v24_or_greater
vcheck-AtLeast c = (ground arith, ground arith, ground arith)

-- A key from version 2.1 on counts as `v21_or_greater` or as a NEO, never as both, and no other
-- key counts as either.
pub vcheck_v21-neo_split :
    (c : Config)
    → ((AtLeast 2 1 c) ↔ (vcheck_v21_or_greater c || vcheck_neo c ≡ true))
      × (vcheck_v21_or_greater c && vcheck_neo c ≡ false)
unfolding vcheck_v21_or_greater vcheck_neo
vcheck_v21-neo_split c = (ground arith, ground arith)
