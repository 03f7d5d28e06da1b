-- ===== src/Core/Libusb.antt =====
-- ykcore/ykcore_libusb-1.0.c: the backend over libusb 1.0. The functions of libusb are a record of
-- operations; it fills the interfaces of a backend that Core.Io and Core.Program use.
pub mod Calls
pub mod Laws
use yubikey_personalization.Prelude.{
  ℕ, zero, suc, ◌+◌, ◌*◌, ◌^◌, Bool, true, false, not, ◌&&◌, Option, none, some, List, [], ◌∷◌,
  ◌==◌, bit_or, if◌then◌else◌, take,
}
use yubikey_personalization.Core.Io.{Reply, report, no_report, Usb, Io, done, failed, fault}
use yubikey_personalization.Core.Program.{Bus}

-- The numbers that libusb returns: an error is below zero.
pub data ℤ : Type 0 where
  pos : ℕ → ℤ
  negsuc : ℕ → ℤ

abbrev pub is_zero : ℤ → Bool
is_zero (pos n) = n == 0
is_zero (negsuc n) = false

abbrev pub is_one : ℤ → Bool
is_one (pos n) = n == 1
is_one (negsuc n) = false

abbrev pub is_positive : ℤ → Bool
is_positive (pos zero) = false
is_positive (pos (suc n)) = true
is_positive (negsuc n) = false

abbrev pub is_negative : ℤ → Bool
is_negative (pos n) = false
is_negative (negsuc n) = true

-- `idVendor` and `idProduct`.
pub record Descriptor : Type 0 where
  pub id_vendor : ℕ
  pub id_product : ℕ

-- `Dev` is the bus with the handle that is open, if one is, and `Listed` a device of the list. Each
-- function has the name of libusb; a transfer is given `wValue` and the data or its size, the list is
-- `none` where libusb returns an error in its place, and descriptors are read from memory.
pub record Libusb (Dev Listed : Type 0) : Type 0 where
  pub init : Dev → ℤ × Dev
  pub exit : Dev → Dev
  pub claim_interface : Dev → ℤ × Dev
  pub release_interface : Dev → ℤ × Dev
  pub control_out : ℕ → List ℕ → Dev → ℤ × Dev
  pub control_in : ℕ → ℕ → Dev → (ℤ × List ℕ) × Dev
  pub get_device_list : Dev → Option (List Listed) × Dev
  pub get_device_descriptor : Listed → ℤ × Descriptor
  pub get_device : Dev → Listed
  pub open_handle : Listed → Dev → ℤ × Dev
  pub close : Dev → Dev
  pub kernel_driver_active : Dev → ℤ × Dev
  pub detach_kernel_driver : Dev → ℤ × Dev
  pub attach_kernel_driver : Dev → ℤ × Dev
  pub get_configuration : Dev → (ℤ × ℕ) × Dev
  pub set_configuration : ℕ → Dev → ℤ × Dev

-- The variables of the file beside the bus.
pub record Session (Dev : Type 0) : Type 0 where
  pub bus : Dev
  pub ykl_errno : ℤ
  pub libusb_inited : Bool

abbrev pub yk_eusberr : ℕ
yk_eusberr = 0x01

abbrev pub yk_enokey : ℕ
yk_enokey = 0x05

abbrev pub yk_enodata : ℕ
yk_enodata = 0x0e

-- The error of the transfer, but that of the release where the transfer had none.
abbrev pub preserved : ℤ → ℤ → ℤ
preserved transfer release =
    if is_positive transfer && is_negative release then release else transfer

abbrev pub count : ℤ → ℕ
count (pos n) = n
count (negsuc n) = 0

-- The loop over the products: whether the device is the one wanted, and `found`.
unfoldable pub match_products : ℕ → ℕ → List ℕ → ℕ → Bool × ℕ
match_products index product [] found = (false, found)
match_products index product (p ∷ product_ids) found = elim (product == p) [
  | true ↦ elim (found == index) [
    | true ↦ (true, found + 1)
    | false ↦ match_products index product product_ids (found + 1)
  ]
  | false ↦ match_products index product product_ids found
]

module _ {Dev Listed : Type 0} (lib : Libusb Dev Listed) where
  -- `none` is a success.
  unfoldable pub _ykusb_write : ℕ → ℕ → List ℕ → Session Dev → Option ℕ × Session Dev
  _ykusb_write report_type report_number buffer s =
      let (claim, d) = lib.claim_interface s.bus in
      let (transfer, d1) = lib.control_out (bit_or (report_type * 2 ^ 8) report_number) buffer d in
      let (release, d2) = lib.release_interface d1 in
      let (e, d') : ℤ × Dev =
        if is_zero claim then (preserved transfer release, d2) else (claim, d) in
      (if is_positive e then none else some yk_eusberr, record s { bus = d'; ykl_errno = e })

  unfoldable pub _ykusb_read : ℕ → ℕ → ℕ → Session Dev → Reply × Session Dev
  _ykusb_read report_type report_number size s =
      let (claim, d) = lib.claim_interface s.bus in
      let ((transfer, bytes), d1) =
        lib.control_in (bit_or (report_type * 2 ^ 8) report_number) size d in
      let (release, d2) = lib.release_interface d1 in
      let (e, d') : ℤ × Dev =
        if is_zero claim then (preserved transfer release, d2) else (claim, d) in
      (
        if is_positive e
            then report (take (count e) bytes)
            else if is_zero e
            then no_report yk_enodata
            else no_report yk_eusberr,
        record s { bus = d'; ykl_errno = e },
      )

  unfoldable pub _ykusb_start : Io (Session Dev) (Unit {0})
  _ykusb_start w =
      let s = w.dev in
      let (rc, d) = lib.init s.bus in
      if is_zero rc
      then done tt (record w { dev = record { bus = d; ykl_errno = rc; libusb_inited = true } })
      else failed (record { dev = record s { bus = d; ykl_errno = rc }; errno = yk_eusberr })

  unfoldable pub _ykusb_stop : Io (Session Dev) (Unit {0})
  _ykusb_stop w =
      let s = w.dev in
      if s.libusb_inited
      then done tt (record w { dev = record s { bus = lib.exit s.bus; libusb_inited = false } })
      else failed (record w { errno = yk_eusberr })

  -- The loop over the devices, with `found`, `dev` and `ykl_errno`; `none` is a `goto done`.
  unfoldable pub find_device :
      ℕ → List ℕ → ℕ → List Listed → ℕ → Option Listed → ℤ → Option (Option Listed) × ℤ
  find_device vendor_id product_ids index [] found dev e = (some dev, e)
  find_device vendor_id product_ids index (x ∷ list) found dev e =
      let (rc, desc) = lib.get_device_descriptor x in
      elim (is_zero rc) [
        | false ↦ (none, rc)
        | true ↦ elim (desc.id_vendor == vendor_id) [
          | false ↦ find_device vendor_id product_ids index list found dev rc
          | true ↦
              (let (hit, found') = match_products index desc.id_product product_ids found in
                find_device vendor_id product_ids index list found' (if hit then some x else dev)
                  rc)
        ]
      ]

  -- What is done with a handle that is open; the handle is returned whatever comes of it.
  unfoldable pub prepare_handle : Dev → ℤ × Dev
  prepare_handle d =
      let (active, d1) = lib.kernel_driver_active d in
      let (detached, d2) = lib.detach_kernel_driver d1 in
      let (rc, d3) : ℤ × Dev =
        if is_zero active
        then (active, d1)
        else if is_one active
        then (detached, d2)
        else (active, d1) in
      let ((got, current_cfg), d4) = lib.get_configuration d3 in
      if not (is_zero rc)
      then (rc, d3)
      else if not (is_zero got)
      then (got, d4)
      else if current_cfg == 1
      then (got, d4)
      else lib.set_configuration 1 d4

  -- The list is freed at the end; where there is none, a pointer that was never set is.
  unfoldable pub _ykusb_open_device : ℕ → List ℕ → ℕ → Io (Session Dev) (Unit {0})
  _ykusb_open_device vendor_id product_ids index w =
      let s = w.dev in
      let (list, d) = lib.get_device_list s.bus in
      elim list [
        | none ↦ fault
        | some l ↦
            (let (found, e) = find_device vendor_id product_ids index l 0 none s.ykl_errno in
              elim found [
                | none ↦
                    failed (record { dev = record s { bus = d; ykl_errno = e }; errno = yk_enokey })
                | some dev ↦ elim dev [
                  | none ↦
                      failed
                        (record { dev = record s { bus = d; ykl_errno = e }; errno = yk_enokey })
                  | some x ↦
                      (let (rc, d1) = lib.open_handle x d in
                        let (e1, d2) = prepare_handle d1 in
                        if is_zero rc
                        then done tt (record w { dev = record s { bus = d2; ykl_errno = e1 } })
                        else failed (record {
                          dev = record s { bus = d1; ykl_errno = rc };
                          errno = yk_eusberr;
                        }))
                ]
              ])
      ]

  unfoldable pub _ykusb_close_device : Io (Session Dev) (Unit {0})
  _ykusb_close_device w =
      let s = w.dev in
      let (rc, d) = lib.attach_kernel_driver s.bus in
      done tt (record w { dev = record s { bus = lib.close d } })

  unfoldable pub _ykusb_get_vid_pid : Io (Session Dev) (ℕ × ℕ)
  _ykusb_get_vid_pid w =
      let (rc, desc) = lib.get_device_descriptor (lib.get_device w.dev.bus) in
      if is_zero rc
      then done (desc.id_vendor, desc.id_product) w
      else failed (record w { errno = yk_eusberr })

  -- The interfaces that ykcore.c uses: feature reports of eight bytes, written with the number zero
  -- and read with the number that the caller says.
  abbrev pub libusb_usb : ℕ → (ℕ → Dev → Dev) → Usb (Session Dev)
  libusb_usb report_number sleep = record {
    read = _ykusb_read 3 report_number 8;
    write = _ykusb_write 3 0;
    sleep = λ ms s. record s { bus = sleep ms s.bus };
  }

  abbrev pub libusb_bus : Bus (Session Dev)
  libusb_bus = record { open_device = _ykusb_open_device; close_device = _ykusb_close_device }
