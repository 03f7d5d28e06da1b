-- ===== src/Tests/Libusb.antt =====
-- The theorems on the libusb backend at concrete inputs.
use yubikey_personalization.Prelude.{
  ℕ, ◌+◌, ◌*◌, ◌^◌, true, some, refl, List, [], ◌∷◌, bit_or, replicate, get_elem?,
}
use yubikey_personalization.Core.Io.{World, Ensures}
use yubikey_personalization.Core.Program.{product_ids}
use yubikey_personalization.Core.Libusb.{pos, Libusb, Session, _ykusb_write, _ykusb_open_device}
use yubikey_personalization.Core.Libusb.Laws.{
  Bracketed, ykusb_write-Bracketed, candidates, Opened, NotOpened, open_device-Opened,
}
use yubikey_personalization.Core.Libusb.Calls.{sent}
use yubikey_personalization.Core.Libusb.Calls.{Event, traced, written}

-- Three devices on the bus, of which the second and the third are keys; the bus keeps the number of
-- the one that is open.
abbrev three_devices : Libusb ℕ ℕ
three_devices = record {
  init = λ d. (pos 0, d);
  exit = λ d. d;
  claim_interface = λ d. (pos 0, d);
  release_interface = λ d. (pos 0, d);
  control_out = λ value data' d. (pos 8, d);
  control_in = λ value size d. ((pos 8, replicate 8 0), d);
  get_device_list = λ d. (some (0 ∷ 1 ∷ 2 ∷ []), d);
  get_device_descriptor = λ x. (pos 0, record { id_vendor = 0x1050; id_product = 0x010f + x });
  get_device = λ d. d;
  open_handle = λ x d. (pos 0, x);
  close = λ d. 0;
  kernel_driver_active = λ d. (pos 0, d);
  detach_kernel_driver = λ d. (pos 0, d);
  attach_kernel_driver = λ d. (pos 0, d);
  get_configuration = λ d. ((pos 0, 1), d);
  set_configuration = λ n d. (pos 0, d);
}

abbrev session : Session ℕ
session = record { bus = 0; ykl_errno = pos 0; libusb_inited = true }

abbrev traced_session : Session (ℕ × List Event)
traced_session = record { bus = (0, []); ykl_errno = pos 0; libusb_inited = true }

abbrev begin : World (Session ℕ)
begin = record { dev = session; errno = 0 }

ykusb_write-Bracketed_example :
    Bracketed three_devices []
      (sent (bit_or (3 * 2 ^ 8) 0) (replicate 8 7))
      (written (_ykusb_write (traced three_devices) 3 0 (replicate 8 7) traced_session).0)
      (_ykusb_write (traced three_devices) 3 0 (replicate 8 7) traced_session).1.bus.1
ykusb_write-Bracketed_example =
    ykusb_write-Bracketed three_devices 3 0 (replicate 8 7) traced_session λ d. refl

open_device-Opened_example :
    Ensures
      (λ _ w'.
        Opened three_devices 0
          (get_elem? (candidates three_devices 0x1050 product_ids (0 ∷ 1 ∷ 2 ∷ [])) 1)
          w')
      (NotOpened three_devices 0
        (get_elem? (candidates three_devices 0x1050 product_ids (0 ∷ 1 ∷ 2 ∷ [])) 1))
      (_ykusb_open_device three_devices 0x1050 product_ids 1 begin)
open_device-Opened_example =
    open_device-Opened three_devices 0x1050 product_ids 1 begin (0 ∷ 1 ∷ 2 ∷ []) refl refl
      (refl, (refl, (refl, tt)))
