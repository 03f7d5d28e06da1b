-- ===== src/Core/Frame.antt =====
-- ykcore/ykcore.c: sending a frame to the key in feature reports (`yk_write_to_key`), and the
-- byte order of the host (`yk_endian_swap_16`).
pub mod Endian
pub mod Parts
pub mod Laws
pub mod Live
use yubikey_personalization.Prelude.{
  ℕ, zero, suc, ◌+◌, ◌-◌, ◌*◌, ◌/◌, ◌%◌, ◌^◌, Bool, true, false, not, ◌&&◌, List, [], ◌∷◌, ◌++◌,
  bit_and, bit_or, ltb, ◌==◌, if◌then◌else◌, length, take, drop, replicate,
}
use yubikey_personalization.Core.Io.{
  Usb, Io, ◌>>=◌, ◌>>◌, pure, fail, _ykusb_write, yk_ewrongsiz, slot_write_flag,
}
use yubikey_personalization.Core.Wait.{yk_wait_for_key_status}

-- The test of the byte order is the parameter `big_endian`.
unfoldable pub yk_endian_swap_16 : Bool → ℕ → ℕ
yk_endian_swap_16 big_endian x =
    if big_endian then bit_or (x / 2 ^ 8) (bit_and x 0xff * 2 ^ 8) else x

-- How a host keeps an unsigned short in memory, and what it reads from there.
abbrev pub store_16 : Bool → ℕ → List ℕ
store_16 big_endian x =
    if big_endian then x / 256 % 256 ∷ x % 256 ∷ [] else x % 256 ∷ x / 256 % 256 ∷ []

abbrev pub load_16 : Bool → ℕ → ℕ → ℕ
load_16 big_endian a b = if big_endian then a * 256 + b else b * 256 + a

abbrev pub wait_for_write_flag : ℕ
wait_for_write_flag = 1150

-- The payload is zeroed, and takes the buffer from its start.
abbrev pub payload : List ℕ → List ℕ
payload buf = buf ++ replicate (64 - length buf) 0

-- The bytes of `struct frame_st`: payload, slot, checksum, three bytes of filler.
unfoldable pub frame_bytes : (List ℕ → ℕ) → Bool → ℕ → List ℕ → List ℕ
unfolding yk_endian_swap_16
frame_bytes crc16 big_endian slot buf =
    payload buf
    ++ (slot ∷ store_16 big_endian (yk_endian_swap_16 big_endian (crc16 (payload buf) % 2 ^ 16)))
    ++ (0 ∷ 0 ∷ 0 ∷ [])

-- The `n` parts of seven bytes that the loop steps through.
abbrev pub parts : ℕ → List ℕ → List (List ℕ)
parts zero bytes = []
parts (suc n) bytes = take 7 bytes ∷ parts n (drop 7 bytes)

abbrev pub all_zeros : List ℕ → Bool
all_zeros [] = true
all_zeros (b ∷ bytes) = b == 0 && all_zeros bytes

-- `ptr < end` once a part has been taken.
abbrev pub more_to_come : List (List ℕ) → Bool
more_to_come [] = false
more_to_come (p ∷ ps) = true

module _ {Dev : Type 0} (usb : Usb Dev) where
  -- The loop with its sequence number, over the parts that are left.
  unfoldable pub send_parts : ℕ → List (List ℕ) → Io Dev (Unit {0})
  send_parts seq [] = pure tt
  send_parts seq (part ∷ rest) = elim (all_zeros part && (ltb 0 seq && more_to_come rest)) [
    | true ↦ send_parts (suc seq) rest
    | false ↦ (do
      yk_wait_for_key_status usb 0 false slot_write_flag wait_for_write_flag
      _ykusb_write usb (part ++ (bit_or seq slot_write_flag ∷ []))
      send_parts (suc seq) rest)
  ]

  -- `crc16` is `yubikey_crc16` of libyubikey. The length of the list is `bufcount`.
  module _ (crc16 : List ℕ → ℕ) (big_endian : Bool) where
    unfoldable pub yk_write_to_key : ℕ → List ℕ → Io Dev (Unit {0})
    unfolding frame_bytes
    yk_write_to_key slot buf =
        if ltb 64 (length buf)
        then fail yk_ewrongsiz
        else send_parts 0 (parts 10 (frame_bytes crc16 big_endian slot buf))
