-- ===== src/Core/Frame/Endian.antt =====
-- The byte order on the wire does not depend on the host.
use yubikey_personalization.Prelude.{
  ℕ, ◌+◌, ◌*◌, ◌/◌, ◌%◌, ◌^◌, ◌<◌, ◌≡◌, Bool, true, false, [], ◌∷◌, arith, bit_and, refl,
}
use yubikey_personalization.Prelude.Bits.{or_shifted, or_comm, and_low_mask}
use yubikey_personalization.Core.Frame.{yk_endian_swap_16, store_16, load_16}

swap_sum : (x : ℕ) → x < 2 ^ 16 → yk_endian_swap_16 true x ≡ x % 256 * 256 + x / 256
unfolding yk_endian_swap_16
swap_sum x h = omega (
  arith,
  or_comm (x / 2 ^ 8) (bit_and x 0xff * 2 ^ 8),
  or_shifted 8 (bit_and x 0xff) (x / 2 ^ 8) (omega arith),
  and_low_mask 8 x,
)

-- On a host of either byte order, a swapped value is stored with its low byte first, and a value
-- that arrives with its low byte first is what loading and swapping gives.
pub endian_swap_16_wire :
    (big_endian : Bool) (x lo hi : ℕ)
    → x < 2 ^ 16
    → lo < 256
    → hi < 256
    → (store_16 big_endian (yk_endian_swap_16 big_endian x) ≡ x % 256 ∷ x / 256 ∷ [])
      × (yk_endian_swap_16 big_endian (load_16 big_endian lo hi) ≡ hi * 256 + lo)
endian_swap_16_wire true x lo hi fits l h =
    (ground (arith, swap_sum x), ground (arith, swap_sum (lo * 256 + hi)))
endian_swap_16_wire false x lo hi fits l h = unfold yk_endian_swap_16 in (ground arith, refl)
