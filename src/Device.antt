-- ===== src/Device.antt =====
-- bluek/device.py: devices, and advertisement data from EIR fields.
use bluek.Prelude.{
  ℕ, zero, suc, ◌-◌, ◌*◌, ◌^◌, List, [], ◌∷◌, ◌++◌, Option, none, some, Text, leb, ltb, length,
  take, drop, if◌then◌else◌,
}
use bluek.Prelude.Int.{ℤ, pos, negsuc}
use bluek.Prelude.Dict.{Dict, nat_eq, lookup}
use bluek.Prelude.Result.{Result, ok, ◌>>=◌}
use bluek.Bytes.{Bytes, from_bytes}
use bluek.Uuids.{normalize_uuid_16, uuid_from_bytes}
use bluek.Mgmt.Codec.{Eir, eir_name}

-- `details` is always None here.
pub record BleDevice : Type 0 where
  pub address : Text
  pub name : Option Text
  pub rssi : ℤ
  pub address_type : Option ℕ

pub record AdvertisementData : Type 0 where
  pub local_name : Option Text
  pub rssi : ℤ
  pub service_uuids : List Text
  pub manufacturer_data : Dict ℕ Bytes
  pub service_data : Dict Text Bytes
  pub tx_power : Option ℤ
  pub platform_data : Eir

-- blob[i : i + n] for i in range(0, len(blob), n), for n above 0: the last part may be shorter.
-- A part takes a byte or more, so the length is enough fuel.
unfoldable pub parts : ℕ → ℕ → Bytes → List Bytes
parts zero n b = []
parts (suc fuel) n [] = []
parts (suc fuel) n (x ∷ b) = take n (x ∷ b) ∷ parts fuel n (drop n (x ∷ b))

unfoldable pub uuids_of : (Bytes → Result Text) → List Bytes → Result (List Text)
uuids_of decode [] = ok []
uuids_of decode (p ∷ ps) = do u ← decode p; us ← uuids_of decode ps; ok (u ∷ us)

-- A missing field and an empty one both give nothing.
abbrev pub or_empty : Option Bytes → Bytes
or_empty none = []
or_empty (some b) = b

-- The UUIDs of one AD type.
unfoldable pub listed_uuids : ℕ → (Bytes → Result Text) → ℕ → Eir → Result (List Text)
unfolding parts uuids_of
listed_uuids n decode ad_type eir =
    let blob = or_empty (lookup ad_type eir) in uuids_of decode (parts (length blob) n blob)

abbrev pub uuid_16 : Bytes → Result Text
uuid_16 b = normalize_uuid_16 (from_bytes b)

-- The loops over the AD types of 16-bit and 128-bit UUIDs.
unfoldable pub service_uuids : Eir → Result (List Text)
unfolding listed_uuids
service_uuids eir = do
  a ← listed_uuids 2 uuid_16 0x02 eir
  b ← listed_uuids 2 uuid_16 0x03 eir
  c ← listed_uuids 16 uuid_from_bytes 0x06 eir
  d ← listed_uuids 16 uuid_from_bytes 0x07 eir
  ok (a ++ (b ++ (c ++ d)))

abbrev pub manufacturer_data : Bytes → Dict ℕ Bytes
manufacturer_data md = if leb 2 (length md) then (from_bytes (take 2 md), drop 2 md) ∷ [] else []

abbrev pub service_data : Bytes → Result (Dict Text Bytes)
service_data sd =
    if leb 2 (length sd)
    then (do u ← normalize_uuid_16 (from_bytes (take 2 sd)); ok ((u, drop 2 sd) ∷ []))
    else ok []

-- int.from_bytes(b, "little", signed=True)
unfoldable pub from_bytes_signed : Bytes → ℤ
from_bytes_signed b =
    let n = from_bytes b in
    let half = 2 ^ (8 * length b - 1) in
    if ltb n half then pos n else negsuc (2 ^ (8 * length b) - 1 - n)

abbrev pub tx_power : Bytes → Option ℤ
tx_power [] = none
tx_power (x ∷ b) = some (from_bytes_signed (x ∷ b))

-- AdvertisementData.__init__
unfoldable pub advertisement_data : Eir → ℤ → Result AdvertisementData
advertisement_data eir rssi = do
  uuids ← service_uuids eir
  sd ← service_data (or_empty (lookup 0x16 eir))
  ok (record {
    local_name = eir_name eir;
    rssi = rssi;
    service_uuids = uuids;
    manufacturer_data = manufacturer_data (or_empty (lookup 0xFF eir));
    service_data = sd;
    tx_power = tx_power (or_empty (lookup 0x0A eir));
    platform_data = eir;
  })
