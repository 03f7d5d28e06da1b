-- ===== src/Core/Libusb/Laws.antt =====
-- Transfers stand between a claim and a release, and the device that is opened is the one asked for.
use mathlib.Core.Path.{subst}
use yubikey_personalization.Prelude.{
  ℕ, zero, suc, ◌+◌, ◌*◌, ◌^◌, ◌<◌, ◌≡◌, ◌⊎◌, ◌↔◌, inl, inr, refl, sym, ap, ◌∙◌, arith, Bool, true,
  false, ◌&&◌, Bool-cases, Option-cases, Option, none, some, List, [], ◌∷◌, ◌++◌, ◌==◌, bit_or,
  if◌then◌else◌, All, get_elem?,
}
use yubikey_personalization.Core.Io.{World, Ensures}
use yubikey_personalization.Core.Libusb.{
  ℤ, is_zero, is_positive, is_negative, Libusb, Session, yk_eusberr, yk_enokey, _ykusb_write,
  _ykusb_read, find_device, prepare_handle, _ykusb_open_device,
}
use yubikey_personalization.Core.Libusb.Calls.{
  claimed, sent, received, released, Event, traced, preserved_good, written, was_read, written_if,
  was_read_if, is_among, is_distinct, match_products_lem,
}

module _ {Dev Listed : Type 0} (lib : Libusb Dev Listed) where
  -- The calls of a transfer that a claim came before, or a claim that failed.
  abbrev pub Bracketed : List Event → (ℤ → Event) → Bool → List Event → Type 0
  Bracketed before transfer success after =
      ((c : ℤ) × (is_zero c ≡ false) × (success ≡ false) × (after ≡ before ++ (claimed c ∷ [])))
      ⊎ ((c t r : ℤ) × (is_zero c ≡ true)
          × ((success ≡ true) ↔ ((is_positive t ≡ true) × (is_negative r ≡ false)))
          × (after ≡ before ++ (claimed c ∷ []) ++ (transfer t ∷ []) ++ (released r ∷ [])))

  -- If libusb returns no positive number for a claim, a write is a claim that fails, or a claim,
  -- the control transfer of the buffer and a release; it is a success exactly when the transfer
  -- moved something and the release did not fail.
  pub ykusb_write-Bracketed :
      (report_type report_number : ℕ) (buffer : List ℕ) (s : Session (Dev × List Event))
      → ((d : Dev) → is_positive (lib.claim_interface d).0 ≡ false)
      → Bracketed s.bus.1
          (sent (bit_or (report_type * 2 ^ 8) report_number) buffer)
          (written (_ykusb_write (traced lib) report_type report_number buffer s).0)
          (_ykusb_write (traced lib) report_type report_number buffer s).1.bus.1
  unfolding _ykusb_write
  ykusb_write-Bracketed report_type report_number buffer s claims =
      let c = (lib.claim_interface s.bus.0).0 in
      elim (Bool-cases (is_zero c)) [
        | inl zero' ↦ rw zero' (inr (c, _, _, zero', rw written_if (preserved_good _ _), refl))
        | inr failed' ↦ rw (failed', claims s.bus.0) (inl (c, failed', refl, refl))
      ]

  -- The same for a read, which is a success exactly when the transfer brought something and the
  -- release did not fail.
  pub ykusb_read-Bracketed :
      (report_type report_number size : ℕ) (s : Session (Dev × List Event))
      → ((d : Dev) → is_positive (lib.claim_interface d).0 ≡ false)
      → Bracketed s.bus.1
          (received (bit_or (report_type * 2 ^ 8) report_number))
          (was_read (_ykusb_read (traced lib) report_type report_number size s).0)
          (_ykusb_read (traced lib) report_type report_number size s).1.bus.1
  unfolding _ykusb_read
  ykusb_read-Bracketed report_type report_number size s claims =
      let c = (lib.claim_interface s.bus.0).0 in
      elim (Bool-cases (is_zero c)) [
        | inl zero' ↦ rw zero' (inr (c, _, _, zero', rw was_read_if (preserved_good _ _), refl))
        | inr failed' ↦ rw (failed', claims s.bus.0, failed') (inl (c, failed', refl, refl))
      ]

  -- The devices of the vendor with one of the products.
  abbrev pub is_wanted : ℕ → List ℕ → Listed → Bool
  is_wanted vendor_id pids x =
      let desc = (lib.get_device_descriptor x).1 in
      desc.id_vendor == vendor_id && is_among desc.id_product pids

  abbrev pub candidates : ℕ → List ℕ → List Listed → List Listed
  candidates vendor_id pids [] = []
  candidates vendor_id pids (x ∷ list) =
      let rest = candidates vendor_id pids list in
      if is_wanted vendor_id pids x then x ∷ rest else rest

  abbrev pub Readable : Listed → Type 0
  Readable x = is_zero (lib.get_device_descriptor x).0 ≡ true

  -- The candidate with the index, counted on from `found`, or else `dev`.
  abbrev candidate_from : ℕ → ℕ → Option Listed → List Listed → Option Listed
  candidate_from index found dev [] = dev
  candidate_from index found dev (x ∷ list) =
      let rest = candidate_from index (found + 1) dev list in
      if found == index then some x else rest

  candidate_from_past :
      (index found : ℕ) (dev : Option Listed) (list : List Listed)
      → index < found
      → candidate_from index found dev list ≡ dev
  candidate_from_past index found dev [] h = refl
  candidate_from_past index found dev (x ∷ list) h =
      let e : (found == index) ≡ false = ground (arith, h) in
      rw e (candidate_from_past index (found + 1) dev list (omega (arith, h)))

  find_device-candidate_from :
      (vendor_id : ℕ) (pids : List ℕ) (index : ℕ) (list : List Listed) (found : ℕ)
      (dev : Option Listed) (e : ℤ)
      → is_distinct pids ≡ true
      → All Readable list
      → (find_device lib vendor_id pids index list found dev e).0
        ≡ some (candidate_from index found dev (candidates vendor_id pids list))
  unfolding find_device
  find_device-candidate_from vendor_id pids index [] found dev e d h = refl
  find_device-candidate_from vendor_id pids index (x ∷ list) found dev e d h =
      let desc = (lib.get_device_descriptor x).1 in
      let rc = (lib.get_device_descriptor x).0 in
      elim (Bool-cases (desc.id_vendor == vendor_id)) [
        | inr other ↦
            rw (h.0, other, find_device)
              (find_device-candidate_from vendor_id pids index list found dev rc d h.1)
        | inl ours ↦ elim (Bool-cases (is_among desc.id_product pids)) [
          | inr off ↦
              rw
                (h.0, ours, match_products_lem index desc.id_product pids found d, off, find_device)
                (find_device-candidate_from vendor_id pids index list found dev rc d h.1)
          | inl on ↦ elim (Bool-cases (found == index)) [
            | inl here ↦
                rw
                  (
                    h.0,
                    ours,
                    match_products_lem index desc.id_product pids found d,
                    on,
                    here,
                    find_device,
                  )
                  (find_device-candidate_from vendor_id pids index list (found + 1) (some x) rc d
                      h.1
                    ∙ ap some
                        (candidate_from_past index (found + 1) (some x) _ (ground (arith, here))))
            | inr later ↦
                rw
                  (
                    h.0,
                    ours,
                    match_products_lem index desc.id_product pids found d,
                    on,
                    later,
                    find_device,
                  )
                  (find_device-candidate_from vendor_id pids index list (found + 1) dev rc d h.1)
          ]
        ]
      ]

  candidate_from-get_elem? :
      (n found : ℕ) (list : List Listed)
      → candidate_from (found + n) found none list ≡ get_elem? list n
  candidate_from-get_elem? n found [] = refl
  candidate_from-get_elem? zero found (x ∷ list) =
      let e : (found == found + 0) ≡ true = ground arith in rw e refl
  candidate_from-get_elem? (suc n) found (x ∷ list) =
      let e : (found == found + suc n) ≡ false = ground arith in
      let f : found + suc n ≡ found + 1 + n = omega arith in
      rw e (
        subst (λ m. candidate_from m (found + 1) none list ≡ get_elem? list n) (sym f)
          (candidate_from-get_elem? n (found + 1) list))

  -- What opening a device came to: the device with the index was opened, and what is returned is the
  -- bus with its handle, prepared for use; or there is none, or libusb did not open it. `d` is the bus
  -- behind the reading of the list. An error of the preparation is kept beside the bus.
  abbrev pub Opened : Dev → Option Listed → World (Session Dev) → Type 0
  Opened d wanted w' =
      (x : Listed) × (wanted ≡ some x)
      × (is_zero (lib.open_handle x d).0 ≡ true)
      × (w'.dev.bus ≡ (prepare_handle lib (lib.open_handle x d).1).1)
      × (w'.dev.ykl_errno ≡ (prepare_handle lib (lib.open_handle x d).1).0)

  abbrev pub NotOpened : Dev → Option Listed → World (Session Dev) → Type 0
  NotOpened d wanted w' =
      ((wanted ≡ none) × (w'.dev.bus ≡ d) × (w'.errno ≡ yk_enokey))
      ⊎ ((x : Listed) × (wanted ≡ some x)
          × (is_zero (lib.open_handle x d).0 ≡ false)
          × (w'.dev.bus ≡ (lib.open_handle x d).1)
          × (w'.errno ≡ yk_eusberr))

  -- Where the list and all its descriptors can be read, and no product is named twice, a success
  -- returns the bus with the handle that libusb opened on the device with the index among those of
  -- the vendor and products, as its preparation leaves it, with the error of that, if any. A failure
  -- is for want of such a device, with the bus as the list left it, or because that device does not
  -- open, each with an error of its own.
  pub open_device-Opened :
      (vendor_id : ℕ) (pids : List ℕ) (index : ℕ) (w : World (Session Dev)) (list : List Listed)
      → is_distinct pids ≡ true
      → (lib.get_device_list w.dev.bus).0 ≡ some list
      → All Readable list
      → Ensures
          (λ _ w'.
            Opened
              (lib.get_device_list w.dev.bus).1
              (get_elem? (candidates vendor_id pids list) index)
              w')
          (NotOpened
            (lib.get_device_list w.dev.bus).1
            (get_elem? (candidates vendor_id pids list) index))
          (_ykusb_open_device lib vendor_id pids index w)
  unfolding _ykusb_open_device
  open_device-Opened vendor_id pids index w list distinct listed readable =
      let d = (lib.get_device_list w.dev.bus).1 in
      let found =
        find_device-candidate_from vendor_id pids index list 0 none w.dev.ykl_errno distinct
          readable in
      let wanted = get_elem? (candidates vendor_id pids list) index in
      let counts : 0 + index ≡ index = omega arith in
      let is_wanted' : candidate_from index 0 none (candidates vendor_id pids list) ≡ wanted =
        subst (λ n. candidate_from n 0 none (candidates vendor_id pids list) ≡ wanted) counts
          (candidate_from-get_elem? index 0 (candidates vendor_id pids list)) in
      elim (Option-cases wanted) [
        | inl none' ↦
            rw (listed, found ∙ ap some (is_wanted' ∙ none'), _ykusb_open_device)
              (inl (none', refl, refl))
        | inr (x, x') ↦ elim (Bool-cases (is_zero (lib.open_handle x d).0)) [
          | inl ok ↦
              rw (listed, found ∙ ap some (is_wanted' ∙ x'), ok, _ykusb_open_device)
                (x, x', ok, refl, refl)
          | inr bad ↦
              rw (listed, found ∙ ap some (is_wanted' ∙ x'), bad, _ykusb_open_device)
                (inr (x, x', bad, refl, refl))
        ]
      ]
