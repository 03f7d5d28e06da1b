-- ===== src/Core/Frame/Parts.antt =====
-- A receiver of reports, and the parts of a frame.
use yubikey_personalization.Prelude.{
  ◌-◌, ◌/◌, ◌^◌, length-replicate, length-append, set-append, get_or-append_cons, append_assoc,
  Bool, ◌≤◌, sym, List, [], ◌++◌, ◌&&◌, take-append, ℕ, zero, suc, ◌*◌, ◌%◌, ◌<◌, ◌≡◌, true, ◌∷◌,
  arith, bit_or, refl, ap, ◌∙◌, length, take, drop, set, get_or, replicate, All, length-take,
  length-drop, take-append-drop,
}
use yubikey_personalization.Prelude.Bits.{or_shifted, or_comm}
use yubikey_personalization.Core.Io.{Usb}
use yubikey_personalization.Core.Frame.Endian.{endian_swap_16_wire}
use yubikey_personalization.Core.Frame.{frame_bytes, payload, parts, all_zeros}

-- The same device beside the list of the reports that it was sent.
abbrev pub logged : {Dev : Type 0} → Usb Dev → Usb (Dev × List (List ℕ))
logged usb = record {
  read = λ s. ((usb.read s.0).0, ((usb.read s.0).1, s.1));
  write = λ bytes s. ((usb.write bytes s.0).0, ((usb.write bytes s.0).1, s.1 ++ (bytes ∷ [])));
  sleep = λ ms s. (usb.sleep ms s.0, s.1);
}

abbrev pub zeros : List ℕ
zeros = replicate 7 0

-- A receiver with memory for the parts of a frame: a report's last byte says in its lower bits
-- which part the others are.
abbrev pub receive : List (List ℕ) → List (List ℕ) → List (List ℕ)
receive memory [] = memory
receive memory (r ∷ rs) = receive (set memory (get_or r 7 0 % 32) (take 7 r)) rs

abbrev pub flatten : List (List ℕ) → List ℕ
flatten [] = []
flatten (p ∷ ps) = p ++ flatten ps

-- Each part has seven bytes.
abbrev pub AreParts : List (List ℕ) → Type 0
AreParts ps = All (λ p. length p ≡ 7) ps

pub all_zeros-eq : (p : List ℕ) → all_zeros p ≡ true → p ≡ replicate (length p) 0
all_zeros-eq [] h = refl
all_zeros-eq (zero ∷ p) h = ap (λ l. 0 ∷ l) (all_zeros-eq p h)
all_zeros-eq (suc b ∷ p) h = absurd (ground arith)

pub parts-AreParts : (n : ℕ) (bytes : List ℕ) → length bytes ≡ n * 7 → AreParts (parts n bytes)
parts-AreParts zero bytes h = tt
parts-AreParts (suc n) bytes h = (
  omega (arith, length-take 7 bytes),
  parts-AreParts n (drop 7 bytes) (omega (arith, length-drop 7 bytes)),
)

pub flatten-parts :
    (n : ℕ) (bytes : List ℕ) → length bytes ≡ n * 7 → flatten (parts n bytes) ≡ bytes
flatten-parts zero [] h = refl
flatten-parts zero (b ∷ bytes) h = absurd (omega arith)
flatten-parts (suc n) bytes h =
    ap (λ l. take 7 bytes ++ l)
      (flatten-parts n (drop 7 bytes) (omega (arith, length-drop 7 bytes)))
    ∙ take-append-drop 7 bytes

length-parts : (n : ℕ) (bytes : List ℕ) → length (parts n bytes) ≡ n
length-parts zero bytes = refl
length-parts (suc n) bytes = ap suc (length-parts n (drop 7 bytes))

-- The last byte of a report carries its sequence number.
status_of_report :
    (p : List ℕ) (seq : ℕ)
    → length p ≡ 7
    → seq < 32
    → get_or (p ++ (bit_or seq 0x80 ∷ [])) 7 0 % 32 ≡ seq
status_of_report p seq h small =
    rw (get_or-append_cons p (bit_or seq 0x80) 0 [] 7 h)
      (omega (arith, or_comm seq 0x80, or_shifted 7 1 seq (omega arith)))

pub and_left : (a b : Bool) → a && b ≡ true → a ≡ true
and_left a b h = ground arith

-- Receiving the report of a part puts that part in its place.
pub set_part :
    (pre rest : List (List ℕ)) (p : List ℕ) (seq : ℕ)
    → length p ≡ 7
    → length pre ≡ seq
    → seq < 32
    → set
        (pre ++ (zeros ∷ rest))
        (get_or (p ++ (bit_or seq 0x80 ∷ [])) 7 0 % 32)
        (take 7 (p ++ (bit_or seq 0x80 ∷ [])))
      ≡ (pre ++ (p ∷ [])) ++ rest
set_part pre rest p seq fit len small =
    rw (status_of_report p seq fit small, take-append 7 p (bit_or seq 0x80 ∷ []) fit)
      (set-append pre zeros p rest seq len ∙ sym (append_assoc pre (p ∷ []) rest))

-- The bytes of a frame, which do not depend on the host.
abbrev pub wire : (List ℕ → ℕ) → ℕ → List ℕ → List ℕ
wire crc16 slot buf =
    let filled = buf ++ replicate (64 - length buf) 0 in
    let crc = crc16 filled % 2 ^ 16 in filled ++ (slot ∷ crc % 256 ∷ crc / 256 ∷ 0 ∷ 0 ∷ 0 ∷ [])

pub frame_bytes-wire :
    (crc16 : List ℕ → ℕ) (big_endian : Bool) (slot : ℕ) (buf : List ℕ)
    → frame_bytes crc16 big_endian slot buf ≡ wire crc16 slot buf
unfolding frame_bytes
frame_bytes-wire crc16 big_endian slot buf =
    let crc : ℕ = crc16 (payload buf) % 2 ^ 16 in
    rw ((endian_swap_16_wire big_endian crc 0 0 (omega arith) (omega arith) (omega arith)).0)
      (append_assoc (payload buf) (slot ∷ crc % 256 ∷ crc / 256 ∷ []) (0 ∷ 0 ∷ 0 ∷ []))

pub length-frame_bytes :
    (crc16 : List ℕ → ℕ) (big_endian : Bool) (slot : ℕ) (buf : List ℕ)
    → length buf ≤ 64
    → length (frame_bytes crc16 big_endian slot buf) ≡ 70
length-frame_bytes crc16 big_endian slot buf fits =
    rw (frame_bytes-wire crc16 big_endian slot buf) (
      omega (
        arith,
        length-append (payload buf) (
            slot
            ∷ crc16 (payload buf) % 2 ^ 16 % 256
            ∷ crc16 (payload buf) % 2 ^ 16 / 256
            ∷ 0
            ∷ 0
            ∷ 0
            ∷ []),
        length-append buf (replicate (64 - length buf) 0),
        length-replicate {A = ℕ} (64 - length buf) 0,
      ))
