-- ===== src/Att/Database/Order.antt =====
-- The three lists that a server holds of a tree are in the order of their handles.
use bluek.Prelude.{ℕ, ◌<◌, ◌≤◌, List, [], ◌∷◌, ◌++◌, All, arith}
use bluek.Texts.Laws.{All-append, All-mono}
use bluek.Att.Gatt.{GattDescriptor, GattCharacteristic, GattService}
use bluek.Att.Discovery.Ranges.{IsAbove, IsOrdered}
use bluek.Att.Database.{
  groups, char_declarations, declarations, char_attributes, attributes, AreDescriptors, char_stop,
  AreCharacteristics, AreServices,
}
use bluek.Att.Database.Ranges.{Between, IsOrdered-append}
use bluek.Att.Database.Bounds.{
  group_start, group_stop, attribute_handle, descriptor_handle, AreDescriptors-Between,
  char_declarations-Between, char_attributes-Between, groups-Between, declarations-Between,
  attributes-Between,
}

Between-IsAbove :
    {A : Type 0} (first last : A → ℕ) (n m l : ℕ) (xs : List A)
    → l ≤ n
    → Between first last n m xs
    → IsAbove first last l xs
Between-IsAbove first last n m l xs h =
    All-mono {P = λ a. (n < first a) × (first a ≤ m)} {Q = λ a. l < first a}
      (λ a b. omega (arith, b.0)) xs

Between-upto :
    {A : Type 0} (handle : A → ℕ) (n m : ℕ) (xs : List A)
    → Between handle handle n m xs
    → All (λ a. handle a ≤ m) xs
Between-upto handle n m xs =
    All-mono {P = λ a. (n < handle a) × (handle a ≤ m)} {Q = λ a. handle a ≤ m} (λ a b. b.1) xs

AreDescriptors-IsOrdered :
    (n m : ℕ) (ds : List GattDescriptor)
    → AreDescriptors n m ds
    → IsOrdered descriptor_handle descriptor_handle ds
AreDescriptors-IsOrdered n m [] h = tt
AreDescriptors-IsOrdered n m (d ∷ ds) (low, high, more) = (
  omega arith,
  Between-IsAbove descriptor_handle descriptor_handle d.handle m d.handle ds (omega arith)
      (AreDescriptors-Between d.handle m ds more),
  AreDescriptors-IsOrdered d.handle m ds more,
)

char_declarations-IsOrdered :
    (n e : ℕ) (cs : List GattCharacteristic)
    → AreCharacteristics n e cs
    → IsOrdered attribute_handle attribute_handle (char_declarations cs)
char_declarations-IsOrdered n e [] h = tt
char_declarations-IsOrdered n e (c ∷ rest) (low, value, stop, _, _, _, more) = (
  omega arith,
  Between-IsAbove attribute_handle attribute_handle (char_stop rest e) e c.handle
      (char_declarations rest) (omega arith)
      (char_declarations-Between (char_stop rest e) e rest more),
  char_declarations-IsOrdered (char_stop rest e) e rest more,
)

char_attributes-IsOrdered :
    (n e : ℕ) (cs : List GattCharacteristic)
    → AreCharacteristics n e cs
    → IsOrdered descriptor_handle descriptor_handle (char_attributes cs)
char_attributes-IsOrdered n e [] h = tt
char_attributes-IsOrdered n e (c ∷ rest) (low, value, stop, _, _, found, more) =
    let last = char_stop rest e in
    let here = AreDescriptors-Between c.value_handle last c.descriptors found in
    let later = char_attributes-Between last e rest more in
    let joined =
      IsOrdered-append descriptor_handle descriptor_handle last last e c.descriptors
        (char_attributes rest) (AreDescriptors-IsOrdered c.value_handle last c.descriptors found)
        (Between-upto descriptor_handle c.value_handle last c.descriptors here) later (omega arith)
        (char_attributes-IsOrdered last e rest more) in
    let above =
      All-append (λ d. c.value_handle < descriptor_handle d) c.descriptors (char_attributes rest)
        (Between-IsAbove descriptor_handle descriptor_handle c.value_handle last c.value_handle
          c.descriptors (omega arith) here)
        (Between-IsAbove descriptor_handle descriptor_handle last e c.value_handle
          (char_attributes rest) stop later) in
    let above' =
      All-mono {P = λ d. c.value_handle < descriptor_handle d}
        {Q = λ d. c.handle < descriptor_handle d} (λ d b. omega arith)
        (c.descriptors ++ char_attributes rest) above in
    (omega arith, (value, above'), (omega arith, above, joined))

pub groups-IsOrdered :
    (n : ℕ) (ss : List GattService)
    → AreServices n ss
    → IsOrdered group_start group_stop (groups ss)
groups-IsOrdered n [] h = tt
groups-IsOrdered n (s ∷ rest) (low, up, _, _, more) = (
  up,
  Between-IsAbove group_start group_stop s.end_handle 65535 s.end_handle (groups rest) (omega arith)
      (groups-Between s.end_handle rest more),
  groups-IsOrdered s.end_handle rest more,
)

pub declarations-IsOrdered :
    (n : ℕ) (ss : List GattService)
    → AreServices n ss
    → IsOrdered attribute_handle attribute_handle (declarations ss)
declarations-IsOrdered n [] h = tt
declarations-IsOrdered n (s ∷ rest) (low, up, _, chars, more) =
    IsOrdered-append attribute_handle attribute_handle s.end_handle s.end_handle 65535
      (char_declarations s.characteristics) (declarations rest)
      (char_declarations-IsOrdered s.handle s.end_handle s.characteristics chars)
      (Between-upto attribute_handle s.handle s.end_handle (char_declarations s.characteristics)
        (char_declarations-Between s.handle s.end_handle s.characteristics chars))
      (declarations-Between s.end_handle rest more) (omega arith)
      (declarations-IsOrdered s.end_handle rest more)

pub attributes-IsOrdered :
    (n : ℕ) (ss : List GattService)
    → AreServices n ss
    → IsOrdered descriptor_handle descriptor_handle (attributes ss)
attributes-IsOrdered n [] h = tt
attributes-IsOrdered n (s ∷ rest) (low, up, _, chars, more) =
    let here = char_attributes-Between s.handle s.end_handle s.characteristics chars in
    let later = attributes-Between s.end_handle rest more in
    let above =
      All-append (λ d. s.handle < descriptor_handle d) (char_attributes s.characteristics)
        (attributes rest)
        (Between-IsAbove descriptor_handle descriptor_handle s.handle s.end_handle s.handle
          (char_attributes s.characteristics) (omega arith) here)
        (Between-IsAbove descriptor_handle descriptor_handle s.end_handle 65535 s.handle
          (attributes rest) up later) in
    (
      omega arith,
      above,
      IsOrdered-append descriptor_handle descriptor_handle s.end_handle s.end_handle 65535
          (char_attributes s.characteristics) (attributes rest)
          (char_attributes-IsOrdered s.handle s.end_handle s.characteristics chars)
          (Between-upto descriptor_handle s.handle s.end_handle (char_attributes s.characteristics)
            here)
          later (omega arith) (attributes-IsOrdered s.end_handle rest more),
    )
