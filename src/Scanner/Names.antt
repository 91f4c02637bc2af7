-- ===== src/Scanner/Names.antt =====
-- The names that the scanner knows.
use bluek.Prelude.{
  some, ◌∙◌, ◌≡◌, refl, ap, ℕ, List, [], ◌∷◌, Bool, true, false, ◌&&◌, Option, Text, text_eq,
  text_eq_iff, arith, Bool-cases, inl, inr, if◌then◌else◌, none,
}
use bluek.Prelude.Dict.{text_keys, lookup, lookup-insert}
use bluek.Prelude.Result.{Result, ok, err}
use bluek.Mgmt.Codec.{DeviceFound, eir_name}
use bluek.Device.{AdvertisementData, advertisement_data}
use bluek.Scanner.{
  BleakScanner, known_name, name_or, merge_name, store, found_device, accepts, on_device_found,
}

-- The events of a scan, in the order of their arrival.
abbrev pub observe : List (ℕ × DeviceFound) → BleakScanner → BleakScanner
observe [] s = s
observe (e ∷ es) s = observe es (on_device_found e s)

abbrev is_ok : {A : Type 0} → Result A → Bool
is_ok (ok _) = true
is_ok (err _) = false

-- A name, if it is there and not empty, and the known one otherwise.
abbrev pub latest : Option Text → Option Text → Option Text
latest none known = known
latest (some []) known = known
latest (some (c ∷ cs)) known = some (c ∷ cs)

name_or-latest : (name known : Option Text) → name_or name known ≡ latest name known
name_or-latest none known = refl
name_or-latest (some []) known = refl
name_or-latest (some (c ∷ cs)) known = refl

-- Whether an event tells of the address: it is of this controller and of an LE device, and its
-- fields can be read.
abbrev pub tells : ℕ → Text → ℕ × DeviceFound → Bool
tells own address (index, df) =
    accepts own index df
    && (text_eq df.address address && is_ok (advertisement_data df.eir df.rssi))

-- The last name that is not empty, of the events that tell of the address.
abbrev pub last_name : ℕ → Text → List (ℕ × DeviceFound) → Option Text → Option Text
last_name own address [] known = known
last_name own address (e ∷ es) known =
    last_name own address es
      (if tells own address e then latest (eir_name e.1.eir) known else known)

abbrev name_in : Text → BleakScanner → Option Text
name_in address s = known_name (lookup address s.found)

store-index :
    (df : DeviceFound) (r : Result AdvertisementData) (s : BleakScanner)
    → (store df r s).index ≡ s.index
store-index df (err e) s = refl
store-index df (ok adv) s = refl

store-name :
    (df : DeviceFound) (r : Result AdvertisementData) (address : Text) (s : BleakScanner)
    → name_in address (store df r s) ≡ (
        if text_eq df.address address && is_ok r
        then latest (eir_name df.eir) (name_in address s)
        else name_in address s)
unfolding merge_name
store-name df (err e) address s = elim (Bool-cases (text_eq df.address address)) [
  | inl same ↦ rw same refl
  | inr other ↦ rw other refl
]
store-name df (ok adv) address s =
    let stored = lookup-insert df.address address (found_device df s, adv) s.found in
    elim (Bool-cases (text_eq df.address address)) [
      | inl same ↦
          let here : df.address ≡ address = (text_eq_iff df.address address).0 same in
          rw (stored, same)
            (ap (λ t. name_or (eir_name df.eir) (name_in t s)) here
              ∙ name_or-latest (eir_name df.eir) (name_in address s))
      | inr other ↦ rw (stored, other) refl
    ]

on_device_found-index :
    (e : ℕ × DeviceFound) (s : BleakScanner) → (on_device_found e s).index ≡ s.index
unfolding on_device_found
on_device_found-index (index, df) s =
    ground (arith, store-index df (advertisement_data df.eir df.rssi) s)

on_device_found-name :
    (e : ℕ × DeviceFound) (address : Text) (s : BleakScanner)
    → name_in address (on_device_found e s) ≡ (
        if tells s.index address e
        then latest (eir_name e.1.eir) (name_in address s)
        else name_in address s)
unfolding on_device_found
on_device_found-name (index, df) address s = elim (Bool-cases (accepts s.index index df)) [
  | inl hit ↦ rw hit (store-name df (advertisement_data df.eir df.rssi) address s)
  | inr miss ↦ rw miss refl
]

-- The name of an address is the last name that is not empty, of the events of this controller that
-- tell of it, however the events of other devices, other controllers and malformed data stand
-- between them.
pub observe-name :
    (es : List (ℕ × DeviceFound)) (address : Text) (s : BleakScanner)
    → known_name (lookup address (observe es s).found)
      ≡ last_name s.index address es (known_name (lookup address s.found))
observe-name [] address s = refl
observe-name (e ∷ es) address s =
    rw
      (
        observe-name es address (on_device_found e s),
        on_device_found-index e s,
        on_device_found-name e address s,
      )
      refl
