-- ===== src/Pers/Fields.antt =====
-- ykpers.c: the byte fields (`def_set_charfield`) and the OATH initial moving factor, which
-- stands in two bytes of `uid`.
pub mod Laws
use yubikey_personalization.Prelude.{
  ℕ, ◌+◌, ◌-◌, ◌*◌, ◌/◌, ◌%◌, ◌^◌, Bool, not, Option, List, ◌++◌, bit_or, ltb, ◌==◌, min,
  if◌then◌else◌, length, take, replicate, set, get_or,
}
use yubikey_personalization.Pers.Types.{
  CoreConfig, Config, Call, refuse, unless_null, ykp_eyubikeyver, ykp_einval, fixed_capacity,
  uid_capacity, acc_code_capacity,
}
use yubikey_personalization.Pers.Capability.{vcheck_all, capability_has_oath_imf}

-- The body of the macro: at most `size` characters are copied, and the rest is set to zero. The
-- length argument is the length of the list.
abbrev pub set_charfield : ℕ → (List ℕ → ℕ → CoreConfig → CoreConfig) → List ℕ → Call
set_charfield size store input c errno =
    let max_chars = min (length input) size in
    let field = take max_chars input ++ replicate (size - max_chars) 0 in
    if not (vcheck_all c)
    then refuse ykp_eyubikeyver c errno
    else (1, record c { core = store field max_chars c.core }, errno)

unfoldable pub ykp_set_access_code : List ℕ → Option Config → ℕ → ℕ × Option Config × ℕ
unfolding vcheck_all
ykp_set_access_code input =
    unless_null (set_charfield acc_code_capacity (λ field n k. record k { acc_code = field }) input)

unfoldable pub ykp_set_fixed : List ℕ → Option Config → ℕ → ℕ × Option Config × ℕ
unfolding vcheck_all
ykp_set_fixed input =
    unless_null
      (set_charfield fixed_capacity (λ field n k. record k { fixed = field; fixed_size = n }) input)

unfoldable pub ykp_set_uid : List ℕ → Option Config → ℕ → ℕ × Option Config × ℕ
unfolding vcheck_all
ykp_set_uid input =
    unless_null (set_charfield uid_capacity (λ field n k. record k { uid = field }) input)

-- `imf >> 8` and `imf` are cut to a byte by the assignment.
unfoldable pub ykp_set_oath_imf : ℕ → Call
ykp_set_oath_imf imf c errno =
    if not (capability_has_oath_imf c)
    then refuse ykp_eyubikeyver c errno
    else if ltb (65535 * 16) imf
    then refuse ykp_einval c errno
    else if not (imf % 16 == 0)
    then refuse ykp_einval c errno
    else (let k = c.core in
        let high = set k.uid 4 (imf / 16 / 2 ^ 8 % 256) in
        (1, record c { core = record k { uid = set high 5 (imf / 16 % 256) } }, errno))

unfoldable pub ykp_get_oath_imf : Config → ℕ
ykp_get_oath_imf c =
    if not (capability_has_oath_imf c)
    then 0
    else bit_or (get_or c.core.uid 4 0 * 2 ^ 8) (get_or c.core.uid 5 0) * 2 ^ 4
