-- ===== src/Core/Libusb/Calls.antt =====
-- The calls of libusb on the interface as a list, and the search for the device with an index.
use yubikey_personalization.Prelude.{
  ℕ, ◌+◌, ◌≡◌, ◌↔◌, inl, inr, refl, ◌∙◌, arith, Bool, true, false, not, ◌&&◌, ◌||◌, Bool-cases,
  Option, none, some, List, [], ◌∷◌, ◌++◌, ◌==◌, if◌then◌else◌,
}
use yubikey_personalization.Core.Io.{no_report, report, Reply}
use yubikey_personalization.Core.Libusb.{
  ℤ, pos, negsuc, is_positive, is_negative, Libusb, preserved, match_products,
}

pub data Event : Type 0 where
  claimed released : ℤ → Event
  sent : ℕ → List ℕ → ℤ → Event
  received : ℕ → ℤ → Event

-- The same library beside the list of its calls on the interface, each with what it returned.
abbrev pub traced : {Dev Listed : Type 0} → Libusb Dev Listed → Libusb (Dev × List Event) Listed
traced lib = record {
  init = λ s. ((lib.init s.0).0, ((lib.init s.0).1, s.1));
  exit = λ s. (lib.exit s.0, s.1);
  claim_interface = λ s. let r = lib.claim_interface s.0 in (r.0, (r.1, s.1 ++ (claimed r.0 ∷ [])));
  release_interface =
      λ s. let r = lib.release_interface s.0 in (r.0, (r.1, s.1 ++ (released r.0 ∷ [])));
  control_out = λ value data' s.
      let r = lib.control_out value data' s.0 in (r.0, (r.1, s.1 ++ (sent value data' r.0 ∷ [])));
  control_in = λ value size s.
      let r = lib.control_in value size s.0 in (r.0, (r.1, s.1 ++ (received value r.0.0 ∷ [])));
  get_device_list = λ s. ((lib.get_device_list s.0).0, ((lib.get_device_list s.0).1, s.1));
  get_device_descriptor = lib.get_device_descriptor;
  get_device = λ s. lib.get_device s.0;
  open_handle = λ x s. ((lib.open_handle x s.0).0, ((lib.open_handle x s.0).1, s.1));
  close = λ s. (lib.close s.0, s.1);
  kernel_driver_active =
      λ s. ((lib.kernel_driver_active s.0).0, ((lib.kernel_driver_active s.0).1, s.1));
  detach_kernel_driver =
      λ s. ((lib.detach_kernel_driver s.0).0, ((lib.detach_kernel_driver s.0).1, s.1));
  attach_kernel_driver =
      λ s. ((lib.attach_kernel_driver s.0).0, ((lib.attach_kernel_driver s.0).1, s.1));
  get_configuration = λ s. ((lib.get_configuration s.0).0, ((lib.get_configuration s.0).1, s.1));
  set_configuration =
      λ n s. ((lib.set_configuration n s.0).0, ((lib.set_configuration n s.0).1, s.1));
}

-- The transfer had no error, and neither had the release behind it.
pub preserved_good :
    (t r : ℤ)
    → (is_positive (preserved t r) ≡ true) ↔ ((is_positive t ≡ true) × (is_negative r ≡ false))
preserved_good (pos t) r = ground arith
preserved_good (negsuc t) r = ground arith

abbrev pub written : Option ℕ → Bool
written none = true
written (some e) = false

abbrev pub was_read : Reply → Bool
was_read (report bytes) = true
was_read (no_report e) = false

pub written_if : (b : Bool) (e : ℕ) → written (if b then none else some e) ≡ b
written_if true e = refl
written_if false e = refl

pub was_read_if :
    (b d : Bool) (bytes : List ℕ) (e f : ℕ)
    → was_read (if b then report bytes else if d then no_report e else no_report f) ≡ b
was_read_if true d bytes e f = refl
was_read_if false true bytes e f = refl
was_read_if false false bytes e f = refl

abbrev pub is_among : ℕ → List ℕ → Bool
is_among n [] = false
is_among n (p ∷ ps) = n == p || is_among n ps

abbrev pub is_distinct : List ℕ → Bool
is_distinct [] = true
is_distinct (p ∷ ps) = not (is_among p ps) && is_distinct ps

pub match_products_lem :
    (index product : ℕ) (pids : List ℕ) (found : ℕ)
    → is_distinct pids ≡ true
    → match_products index product pids found
      ≡ (if is_among product pids then (found == index, found + 1) else (false, found))
unfolding match_products
match_products_lem index product [] found d = refl
match_products_lem index product (p ∷ ps) found d =
    let d' : is_distinct ps ≡ true = ground (arith, d) in
    elim (Bool-cases (product == p)) [
      | inr off ↦ rw (off, match_products) (match_products_lem index product ps found d')
      | inl on ↦ elim (Bool-cases (found == index)) [
        | inl here ↦ rw (on, here, match_products) refl
        | inr later ↦
            let same : product ≡ p = ground (arith, on) in
            let gone : is_among product ps ≡ false = rw same (ground (arith, d)) in
            rw (on, later, match_products)
              (match_products_lem index product ps (found + 1) d' ∙ rw gone refl)
      ]
    ]
