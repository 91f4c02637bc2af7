-- ===== src/Att/Gatt.antt =====
-- The GATT data classes of bluek/_att.py.
use bluek.Prelude.{ℕ, List, Text}
use bluek.Prelude.Int.{ℤ}

pub record GattDescriptor : Type 0 where
  pub handle : ℕ
  pub uuid : Text

-- `handle` is the declaration's handle. The end handle can be -1, if the next declaration has
-- handle 0.
pub record GattCharacteristic : Type 0 where
  pub handle : ℕ
  pub value_handle : ℕ
  pub uuid : Text
  pub properties : ℕ
  pub end_handle : ℤ
  pub descriptors : List GattDescriptor

pub record GattService : Type 0 where
  pub handle : ℕ
  pub end_handle : ℕ
  pub uuid : Text
  pub characteristics : List GattCharacteristic
