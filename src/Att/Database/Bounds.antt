-- ===== src/Att/Database/Bounds.antt =====
-- Where the handles of a part of a database lie.
use bluek.Prelude.{ℕ, ◌<◌, ◌≤◌, List, [], ◌∷◌, arith}
use bluek.Texts.Laws.{All-append, All-mono}
use bluek.Att.Gatt.{GattDescriptor, GattCharacteristic, GattService}
use bluek.Att.Services.{Group, Attribute}
use bluek.Att.Database.{
  groups, char_declarations, declarations, char_attributes, attributes, AreDescriptors, char_stop,
  AreCharacteristics, AreServices,
}
use bluek.Att.Database.Ranges.{Between}

abbrev pub group_start : Group → ℕ
group_start g = g.start

abbrev pub group_stop : Group → ℕ
group_stop g = g.stop

abbrev pub attribute_handle : Attribute → ℕ
attribute_handle a = a.handle

abbrev pub descriptor_handle : GattDescriptor → ℕ
descriptor_handle d = d.handle

abbrev pub AttributesBetween : ℕ → ℕ → List Attribute → Type 0
AttributesBetween = Between attribute_handle attribute_handle

abbrev pub DescriptorsBetween : ℕ → ℕ → List GattDescriptor → Type 0
DescriptorsBetween = Between descriptor_handle descriptor_handle

pub Between-widen :
    {A : Type 0} (first last : A → ℕ) (n m n' m' : ℕ) (xs : List A)
    → n' ≤ n
    → m ≤ m'
    → Between first last n m xs
    → Between first last n' m' xs
Between-widen first last n m n' m' xs h k =
    All-mono {P = λ a. (n < first a) × (first a ≤ m)} {Q = λ a. (n' < first a) × (first a ≤ m')}
      (λ a b. (omega (arith, b.0), omega (arith, b.1))) xs

pub AreDescriptors-Between :
    (n m : ℕ) (ds : List GattDescriptor) → AreDescriptors n m ds → DescriptorsBetween n m ds
AreDescriptors-Between n m [] h = tt
AreDescriptors-Between n m (d ∷ ds) (low, high, more) = (
  (low, high),
  Between-widen descriptor_handle descriptor_handle d.handle m n m ds (omega arith) (omega arith)
      (AreDescriptors-Between d.handle m ds more),
)

pub AreCharacteristics-le :
    (n e : ℕ) (cs : List GattCharacteristic) → AreCharacteristics n e cs → n ≤ e
AreCharacteristics-le n e [] h = h
AreCharacteristics-le n e (c ∷ rest) (low, value, stop, _, _, _, more) =
    let up = AreCharacteristics-le (char_stop rest e) e rest more in omega arith

pub char_declarations-Between :
    (n e : ℕ) (cs : List GattCharacteristic)
    → AreCharacteristics n e cs
    → AttributesBetween n e (char_declarations cs)
char_declarations-Between n e [] h = tt
char_declarations-Between n e (c ∷ rest) (low, value, stop, _, _, _, more) =
    let up = AreCharacteristics-le (char_stop rest e) e rest more in
    (
      (low, omega arith),
      Between-widen attribute_handle attribute_handle (char_stop rest e) e n e
          (char_declarations rest) (omega arith) (omega arith)
          (char_declarations-Between (char_stop rest e) e rest more),
    )

pub char_attributes-Between :
    (n e : ℕ) (cs : List GattCharacteristic)
    → AreCharacteristics n e cs
    → DescriptorsBetween n e (char_attributes cs)
char_attributes-Between n e [] h = tt
char_attributes-Between n e (c ∷ rest) (low, value, stop, _, _, found, more) =
    let up = AreCharacteristics-le (char_stop rest e) e rest more in
    let here =
      Between-widen descriptor_handle descriptor_handle c.value_handle (char_stop rest e) n e
        c.descriptors (omega arith) up
        (AreDescriptors-Between c.value_handle (char_stop rest e) c.descriptors found) in
    let later =
      Between-widen descriptor_handle descriptor_handle (char_stop rest e) e n e
        (char_attributes rest) (omega arith) (omega arith)
        (char_attributes-Between (char_stop rest e) e rest more) in
    (
      (low, omega arith),
      ((omega arith, omega arith), All-append _ c.descriptors (char_attributes rest) here later),
    )

pub AreServices-le : (n : ℕ) (ss : List GattService) → AreServices n ss → n ≤ 65535
AreServices-le n [] h = h
AreServices-le n (s ∷ rest) (low, up, _, _, more) =
    let small = AreServices-le s.end_handle rest more in omega arith

pub groups-Between :
    (n : ℕ) (ss : List GattService)
    → AreServices n ss
    → Between group_start group_stop n 65535 (groups ss)
groups-Between n [] h = tt
groups-Between n (s ∷ rest) (low, up, _, _, more) =
    let small = AreServices-le s.end_handle rest more in
    (
      (low, omega arith),
      Between-widen group_start group_stop s.end_handle 65535 n 65535 (groups rest) (omega arith)
          (omega arith) (groups-Between s.end_handle rest more),
    )

pub declarations-Between :
    (n : ℕ) (ss : List GattService) → AreServices n ss → AttributesBetween n 65535 (declarations ss)
declarations-Between n [] h = tt
declarations-Between n (s ∷ rest) (low, up, _, chars, more) =
    let small = AreServices-le s.end_handle rest more in
    All-append _ (char_declarations s.characteristics) (declarations rest)
      (Between-widen attribute_handle attribute_handle s.handle s.end_handle n 65535
        (char_declarations s.characteristics) (omega arith) small
        (char_declarations-Between s.handle s.end_handle s.characteristics chars))
      (Between-widen attribute_handle attribute_handle s.end_handle 65535 n 65535
        (declarations rest) (omega arith) (omega arith)
        (declarations-Between s.end_handle rest more))

pub attributes-Between :
    (n : ℕ) (ss : List GattService) → AreServices n ss → DescriptorsBetween n 65535 (attributes ss)
attributes-Between n [] h = tt
attributes-Between n (s ∷ rest) (low, up, _, chars, more) =
    let small = AreServices-le s.end_handle rest more in
    (
      (low, omega arith),
      All-append _ (char_attributes s.characteristics) (attributes rest)
          (Between-widen descriptor_handle descriptor_handle s.handle s.end_handle n 65535
            (char_attributes s.characteristics) (omega arith) small
            (char_attributes-Between s.handle s.end_handle s.characteristics chars))
          (Between-widen descriptor_handle descriptor_handle s.end_handle 65535 n 65535
            (attributes rest) (omega arith) (omega arith)
            (attributes-Between s.end_handle rest more)),
    )
