-- ===== src/Att/Codes.antt =====
-- The constants of bluek/_att.py, and the flags of a characteristic.
use bluek.Prelude.{ℕ, List, [], ◌∷◌, Text, codes, ◌==◌, bit_and, if◌then◌else◌}
use bluek.Bytes.{Bytes}

abbrev pub error_rsp : ℕ
error_rsp = 0x01

abbrev pub exchange_mtu_req : ℕ
exchange_mtu_req = 0x02

abbrev pub exchange_mtu_rsp : ℕ
exchange_mtu_rsp = 0x03

abbrev pub find_info_req : ℕ
find_info_req = 0x04

abbrev pub find_info_rsp : ℕ
find_info_rsp = 0x05

abbrev pub read_by_type_req : ℕ
read_by_type_req = 0x08

abbrev pub read_by_type_rsp : ℕ
read_by_type_rsp = 0x09

abbrev pub read_req : ℕ
read_req = 0x0A

abbrev pub read_rsp : ℕ
read_rsp = 0x0B

abbrev pub read_blob_req : ℕ
read_blob_req = 0x0C

abbrev pub read_blob_rsp : ℕ
read_blob_rsp = 0x0D

abbrev pub read_by_group_type_req : ℕ
read_by_group_type_req = 0x10

abbrev pub read_by_group_type_rsp : ℕ
read_by_group_type_rsp = 0x11

abbrev pub write_req : ℕ
write_req = 0x12

abbrev pub write_rsp : ℕ
write_rsp = 0x13

abbrev pub write_cmd : ℕ
write_cmd = 0x52

abbrev pub handle_value_ntf : ℕ
handle_value_ntf = 0x1B

abbrev pub handle_value_ind : ℕ
handle_value_ind = 0x1D

abbrev pub handle_value_cfm : ℕ
handle_value_cfm = 0x1E

abbrev pub invalid_offset : ℕ
invalid_offset = 0x07

abbrev pub attribute_not_found : ℕ
attribute_not_found = 0x0A

abbrev pub attribute_not_long : ℕ
attribute_not_long = 0x0B

abbrev pub primary_service : Bytes
primary_service = 0x00 ∷ 0x28 ∷ []

abbrev pub characteristic : Bytes
characteristic = 0x03 ∷ 0x28 ∷ []

abbrev pub cccd_uuid : Text
cccd_uuid = codes "00002902-0000-1000-8000-00805f9b34fb"

abbrev pub default_mtu : ℕ
default_mtu = 23

abbrev pub preferred_mtu : ℕ
preferred_mtu = 247

abbrev pub property_map : List (ℕ × Text)
property_map =
    (0x01, codes "broadcast")
    ∷ (0x02, codes "read")
    ∷ (0x04, codes "write-without-response")
    ∷ (0x08, codes "write")
    ∷ (0x10, codes "notify")
    ∷ (0x20, codes "indicate")
    ∷ (0x40, codes "authenticated-signed-writes")
    ∷ (0x80, codes "extended-properties")
    ∷ []

abbrev pub names_of_flags : List (ℕ × Text) → ℕ → List Text
names_of_flags [] properties = []
names_of_flags ((flag, name) ∷ more) properties =
    let rest = names_of_flags more properties in
    if bit_and properties flag == 0 then rest else name ∷ rest

unfoldable pub properties_to_strings : ℕ → List Text
properties_to_strings = names_of_flags property_map
