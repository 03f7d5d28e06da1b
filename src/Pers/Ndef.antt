-- ===== src/Pers/Ndef.antt =====
-- ykpers.c: the records that a NEO shows over NFC (`ykp_alloc_ndef` to `ykp_set_ndef_access_code`)
-- and the settings of a device (`ykp_alloc_device_config` to `ykp_set_device_autoeject_time`).
pub mod Prefix
pub mod Laws
use yubikey_personalization.Prelude.{
  ℕ, zero, suc, ◌+◌, ◌-◌, ◌%◌, ◌^◌, Bool, true, false, ◌&&◌, Option, none, some, List, [], ◌∷◌,
  ◌++◌, bit_and, bit_xor, ltb, leb, ◌==◌, if◌then◌else◌, length, take, drop, replicate, get_or,
  get_elem?, set,
}
use yubikey_personalization.Core.Program.{Ndef, DeviceConfig}
use yubikey_personalization.Pers.Types.{ykp_einval}

-- The abbreviations of URI prefixes, as character codes: "http://www." and so on.
abbrev pub ndef_identifiers : List (List ℕ)
ndef_identifiers =
    (104 ∷ 116 ∷ 116 ∷ 112 ∷ 58 ∷ 47 ∷ 47 ∷ 119 ∷ 119 ∷ 119 ∷ 46 ∷ [])
    ∷ (104 ∷ 116 ∷ 116 ∷ 112 ∷ 115 ∷ 58 ∷ 47 ∷ 47 ∷ 119 ∷ 119 ∷ 119 ∷ 46 ∷ [])
    ∷ (104 ∷ 116 ∷ 116 ∷ 112 ∷ 58 ∷ 47 ∷ 47 ∷ [])
    ∷ (104 ∷ 116 ∷ 116 ∷ 112 ∷ 115 ∷ 58 ∷ 47 ∷ 47 ∷ [])
    ∷ (116 ∷ 101 ∷ 108 ∷ 58 ∷ [])
    ∷ (109 ∷ 97 ∷ 105 ∷ 108 ∷ 116 ∷ 111 ∷ 58 ∷ [])
    ∷ (102 ∷ 116 ∷ 112 ∷ 58 ∷ 47 ∷ 47 ∷ 97 ∷ 110 ∷ 111 ∷ 110 ∷ 121 ∷ 109 ∷ 111 ∷ 117 ∷ 115 ∷ 58 ∷ 97
        ∷ 110 ∷ 111 ∷ 110 ∷ 121 ∷ 109 ∷ 111 ∷ 117 ∷ 115 ∷ 64 ∷ [])
    ∷ (102 ∷ 116 ∷ 112 ∷ 58 ∷ 47 ∷ 47 ∷ 102 ∷ 116 ∷ 112 ∷ 46 ∷ [])
    ∷ (102 ∷ 116 ∷ 112 ∷ 115 ∷ 58 ∷ 47 ∷ 47 ∷ [])
    ∷ (115 ∷ 102 ∷ 116 ∷ 112 ∷ 58 ∷ 47 ∷ 47 ∷ [])
    ∷ (115 ∷ 109 ∷ 98 ∷ 58 ∷ 47 ∷ 47 ∷ [])
    ∷ (110 ∷ 102 ∷ 115 ∷ 58 ∷ 47 ∷ 47 ∷ [])
    ∷ (102 ∷ 116 ∷ 112 ∷ 58 ∷ 47 ∷ 47 ∷ [])
    ∷ (100 ∷ 97 ∷ 118 ∷ 58 ∷ 47 ∷ 47 ∷ [])
    ∷ (110 ∷ 101 ∷ 119 ∷ 115 ∷ 58 ∷ [])
    ∷ (116 ∷ 101 ∷ 108 ∷ 110 ∷ 101 ∷ 116 ∷ 58 ∷ 47 ∷ 47 ∷ [])
    ∷ (105 ∷ 109 ∷ 97 ∷ 112 ∷ 58 ∷ [])
    ∷ (114 ∷ 116 ∷ 115 ∷ 112 ∷ 58 ∷ 47 ∷ 47 ∷ [])
    ∷ (117 ∷ 114 ∷ 110 ∷ 58 ∷ [])
    ∷ (112 ∷ 111 ∷ 112 ∷ 58 ∷ [])
    ∷ (115 ∷ 105 ∷ 112 ∷ 58 ∷ [])
    ∷ (115 ∷ 105 ∷ 112 ∷ 115 ∷ 58 ∷ [])
    ∷ (116 ∷ 102 ∷ 116 ∷ 112 ∷ 58 ∷ [])
    ∷ (98 ∷ 116 ∷ 115 ∷ 112 ∷ 112 ∷ 58 ∷ 47 ∷ 47 ∷ [])
    ∷ (98 ∷ 116 ∷ 108 ∷ 50 ∷ 99 ∷ 97 ∷ 112 ∷ 58 ∷ 47 ∷ 47 ∷ [])
    ∷ (98 ∷ 116 ∷ 103 ∷ 111 ∷ 101 ∷ 112 ∷ 58 ∷ 47 ∷ 47 ∷ [])
    ∷ (116 ∷ 99 ∷ 112 ∷ 111 ∷ 98 ∷ 101 ∷ 120 ∷ 58 ∷ 47 ∷ 47 ∷ [])
    ∷ (105 ∷ 114 ∷ 100 ∷ 97 ∷ 111 ∷ 98 ∷ 101 ∷ 120 ∷ 58 ∷ 47 ∷ 47 ∷ [])
    ∷ (102 ∷ 105 ∷ 108 ∷ 101 ∷ 58 ∷ 47 ∷ 47 ∷ [])
    ∷ (117 ∷ 114 ∷ 110 ∷ 58 ∷ 101 ∷ 112 ∷ 99 ∷ 58 ∷ 105 ∷ 100 ∷ 58 ∷ [])
    ∷ (117 ∷ 114 ∷ 110 ∷ 58 ∷ 101 ∷ 112 ∷ 99 ∷ 58 ∷ 116 ∷ 97 ∷ 103 ∷ 58 ∷ [])
    ∷ (117 ∷ 114 ∷ 110 ∷ 58 ∷ 101 ∷ 112 ∷ 99 ∷ 58 ∷ 112 ∷ 97 ∷ 116 ∷ 58 ∷ [])
    ∷ (117 ∷ 114 ∷ 110 ∷ 58 ∷ 101 ∷ 112 ∷ 99 ∷ 58 ∷ 114 ∷ 97 ∷ 119 ∷ 58 ∷ [])
    ∷ (117 ∷ 114 ∷ 110 ∷ 58 ∷ 101 ∷ 112 ∷ 99 ∷ 58 ∷ [])
    ∷ (117 ∷ 114 ∷ 110 ∷ 58 ∷ 110 ∷ 102 ∷ 99 ∷ 58 ∷ [])
    ∷ []

abbrev pub ndef_data_size : ℕ
ndef_data_size = 54

-- The memory of `malloc` is a parameter, where `false` is its failure.
unfoldable pub ykp_alloc_ndef : Bool → Option Ndef
ykp_alloc_ndef false = none
ykp_alloc_ndef true = some (record {
  payload_len = 0;
  payload_type = 0;
  payload_data = replicate ndef_data_size 0;
  cur_acc_code = replicate 6 0;
})

-- `strncmp(uri, identifier, strlen(identifier)) == 0`, for texts without their final zero.
abbrev pub starts_with : List ℕ → List ℕ → Bool
starts_with uri [] = true
starts_with [] (c ∷ identifier) = false
starts_with (u ∷ uri) (c ∷ identifier) = u == c && starts_with uri identifier

-- The code of the first prefix that fits, counted from `indx + 1`, and the rest of the URI; zero
-- and the URI where none fits.
unfoldable pub shorten : List (List ℕ) → ℕ → List ℕ → ℕ × List ℕ
shorten [] indx uri = (0, uri)
shorten (identifier ∷ identifiers) indx uri =
    let rest = shorten identifiers (indx + 1) uri in
    if starts_with uri identifier then (indx + 1, drop (length identifier) uri) else rest

-- The return value, the record and `ykp_errno`. A text has no final zero here.
unfoldable pub ykp_construct_ndef_uri : Ndef → List ℕ → ℕ → ℕ × Ndef × ℕ
unfolding shorten
ykp_construct_ndef_uri ndef uri errno =
    let (code, rest) = shorten ndef_identifiers 0 uri in
    if ltb ndef_data_size (length rest + 1) then (0, ndef, ykp_einval) else (
      1,
      record ndef {
        payload_len = (length rest + 1) % 2 ^ 8;
        payload_type = 85;
        payload_data = (code ∷ rest) ++ drop (length rest + 1) ndef.payload_data;
      },
      errno,
    )

unfoldable pub ykp_construct_ndef_text : Ndef → List ℕ → List ℕ → Bool → ℕ → ℕ × Ndef × ℕ
ykp_construct_ndef_text ndef text lang isutf16 errno =
    let status = length lang % 2 ^ 8 in
    if ltb ndef_data_size (length text + length lang + 1) then (0, ndef, ykp_einval) else (
      1,
      record ndef {
        payload_len = (length text + length lang + 1) % 2 ^ 8;
        payload_type = 84;
        payload_data =
            ((if isutf16 then bit_and status 0x80 else status) ∷ (lang ++ text))
            ++ drop (length text + length lang + 1) ndef.payload_data;
      },
      errno,
    )

-- What `ykp_ndef_as_text` does: it fills the buffer, or it returns zero with an error or without
-- one, or it goes beyond the buffer, the payload or the table.
pub data AsText : Type 0 where
  filled : List ℕ → AsText
  invalid unknown beyond : AsText

-- The end of both branches: `part`, then `n` bytes of the payload from `from`, and a zero at
-- `final`.
unfoldable pub fill_text : List ℕ → List ℕ → List ℕ → ℕ → ℕ → ℕ → AsText
fill_text text part payload from n final =
    if leb (from + n) (length payload)
      && ltb final (length text)
      && leb (length part + n) (length text)
    then filled (set ((part ++ take n (drop from payload)) ++ drop (length part + n) text) final 0)
    else beyond

-- The memory at `text` is a list, and `len` the size that the caller names. The size of the payload
-- less one is computed in `size_t` where a prefix is added, and in `int` before it is converted in
-- the other branch.
unfoldable pub ykp_ndef_as_text : Ndef → List ℕ → ℕ → AsText
unfolding fill_text
ykp_ndef_as_text ndef text len =
    let code = get_or ndef.payload_data 0 0 in
    if ndef.payload_type == 85
    then elim (if code == 0 then some [] else get_elem? ndef_identifiers (code - 1)) [
      | none ↦ beyond
      | some part ↦
          (if ltb len ((length part + ndef.payload_len + (2 ^ 64 - 1)) % 2 ^ 64)
            then invalid
            else if ndef.payload_len == 0
            then beyond
            else fill_text text part ndef.payload_data 1 (ndef.payload_len - 1)
                (ndef.payload_len + length part))
    ]
    else if ndef.payload_type == 84
    then (let status = if bit_and code 0x80 == 0 then code else bit_xor code 0x80 in
        if ltb ndef.payload_len (status + 1)
        then (if ltb len (2 ^ 64 - (status + 1 - ndef.payload_len)) then invalid else beyond)
        else if ltb len (ndef.payload_len - status - 1)
        then invalid
        else fill_text text [] ndef.payload_data (status + 1) (ndef.payload_len - status - 1)
            (ndef.payload_len - status))
    else unknown

-- It returns zero where it has set the code, and one for the null pointer.
unfoldable pub ykp_set_ndef_access_code : Option Ndef → List ℕ → ℕ × Option Ndef
ykp_set_ndef_access_code none access_code = (1, none)
ykp_set_ndef_access_code (some ndef) access_code =
    (0, some (record ndef { cur_acc_code = take 6 access_code }))

unfoldable pub ykp_alloc_device_config : Bool → Option DeviceConfig
ykp_alloc_device_config false = none
ykp_alloc_device_config true = some (record { mode = 0; cr_timeout = 0; auto_eject_time = 0 })

-- The return value, the structure and `ykp_errno`.
unfoldable pub ykp_set_device_mode : Option DeviceConfig → ℕ → ℕ → ℕ × Option DeviceConfig × ℕ
ykp_set_device_mode none mode' errno = (0, none, ykp_einval)
ykp_set_device_mode (some c) mode' errno = (1, some (record c { mode = mode' }), errno)

unfoldable pub ykp_set_device_chalresp_timeout :
    Option DeviceConfig → ℕ → ℕ → ℕ × Option DeviceConfig × ℕ
ykp_set_device_chalresp_timeout none timeout errno = (0, none, ykp_einval)
ykp_set_device_chalresp_timeout (some c) timeout errno =
    (1, some (record c { cr_timeout = timeout }), errno)

unfoldable pub ykp_set_device_autoeject_time :
    Option DeviceConfig → ℕ → ℕ → ℕ × Option DeviceConfig × ℕ
ykp_set_device_autoeject_time none eject_time errno = (0, none, ykp_einval)
ykp_set_device_autoeject_time (some c) eject_time errno =
    (1, some (record c { auto_eject_time = eject_time }), errno)
