-- ===== src/Bench/Micro.antt =====
-- bench/stacks/micro_fake.py: the stack of the micro mode, an ATT client on the in-memory peripheral.
--
-- A handle is the table of characteristics; the client and the peripheral are in the world, beside
-- what the machine keeps. The events that a generator yields are what the queue holds when it is read.
pub mod Serves
pub mod Complete
pub mod Store
mod Tests
use bluek.Prelude.{
  ℕ, List, [], ◌∷◌, ◌++◌, length, drop, ◌-◌, Bool, true, false, Option, none, some, Text, text_eq,
  codes, ltb, if◌then◌else◌,
}
use bluek.Prelude.Dict.{Dict, text_keys, lookup, insert}
use bluek.Prelude.Result.{Result, ok, err, key_error, runtime_error, or_raise}
use bluek.Bytes.{Bytes}
use bluek.Att.Codes.{preferred_mtu}
use bluek.Att.Gatt.{GattService, GattCharacteristic, GattDescriptor}
use bluek.Att.State.{new_client, set_notify_handler, remove_notify_handler}
use bluek.Att.Request
use bluek.Att.Request.{World, Exec, exchange_mtu, write}
use bluek.Att.Reading.{read}
use bluek.Att.Services.{discover}
use bluek.Bench.Peripheral.{
  FakePeripheral, new_peripheral, peripheral_answer, start_notify_pump, close, ramp,
}
use bluek.Bench.Runner.{BenchConfig}
use bluek.Bench.Scenario.{Stack}

pub record CharEntry : Type 0 where
  pub value_handle : ℕ
  pub cccd_handle : Option ℕ

abbrev pub Handle : Type 0
Handle = Dict Text CharEntry

abbrev cccd_suffix : Text
cccd_suffix = codes "2902-0000-1000-8000-00805f9b34fb"

-- s.endswith(suffix)
unfoldable pub ends_with : Text → Text → Bool
ends_with suffix s =
    if ltb (length s) (length suffix)
    then false
    else text_eq (drop (length s - length suffix) s) suffix

-- The first descriptor that is a CCCD.
unfoldable pub find_cccd : List GattDescriptor → Option ℕ
unfolding ends_with
find_cccd [] = none
find_cccd (d ∷ ds) =
    let rest = find_cccd ds in if ends_with cccd_suffix d.uuid then some d.handle else rest

unfoldable pub add_chars : List GattCharacteristic → Handle → Handle
unfolding find_cccd
add_chars [] t = t
add_chars (c ∷ cs) t = add_chars cs (
    insert c.uuid (record { value_handle = c.value_handle; cccd_handle = find_cccd c.descriptors })
      t)

-- The table of the characteristics of all services.
unfoldable pub chars_table : List GattService → Handle → Handle
unfolding add_chars
chars_table [] t = t
chars_table (s ∷ ss) t = chars_table ss (add_chars s.characteristics t)

-- ATTClient(peripheral), for a peripheral of the configuration
unfoldable pub fresh_world : ℕ → World FakePeripheral
fresh_world payload_size = record {
  client = new_client false;
  sent = [];
  peer = new_peripheral payload_size;
}

abbrev pub pre_arm : ℕ → Result Handle × World FakePeripheral → Result Handle × World FakePeripheral
pre_arm rate (ok t, w) = (ok t, record w { peer = start_notify_pump rate w.peer })
pre_arm rate (err e, w) = (err e, w)

unfoldable pub probe : Exec FakePeripheral Handle
unfolding chars_table
probe = Request.◌>>=◌ (exchange_mtu peripheral_answer preferred_mtu) (λ _.
    Request.◌>>=◌ (discover peripheral_answer) (λ services. Request.pure (chars_table services [])))

-- setup_gatt
unfoldable pub setup_gatt : ℕ → ℕ → Result Handle × World FakePeripheral
unfolding probe fresh_world
setup_gatt payload_size rate = pre_arm rate (probe (fresh_world payload_size))

-- handle["chars"][uuid]
abbrev pub entry : Handle → Text → Result CharEntry
entry t uuid = or_raise (lookup uuid t) key_error

abbrev pub with_entry :
    {A : Type 0} → Result CharEntry → (CharEntry → Exec FakePeripheral A) → Exec FakePeripheral A
with_entry (ok c) m w = m c w
with_entry (err e) m w = (err e, w)

unfoldable pub micro_read : Handle → Text → Exec FakePeripheral Bytes
micro_read t uuid = with_entry (entry t uuid) (λ c. read peripheral_answer c.value_handle)

unfoldable pub micro_write : Handle → Text → Bytes → Exec FakePeripheral (Unit {0})
micro_write t uuid value =
    with_entry (entry t uuid) (λ c. write peripheral_answer c.value_handle value)

-- The begin of notify_iter: the handler, a number, and the write that enables notifications.
abbrev pub subscribe : ℕ → CharEntry → Option ℕ → Exec FakePeripheral (Unit {0})
subscribe callback c none w = (err runtime_error, w)
subscribe callback c (some cccd) w =
    write peripheral_answer cccd (1 ∷ 0 ∷ [])
      (record w { client = set_notify_handler c.value_handle callback w.client })

unfoldable pub begin_notify_iter : ℕ → Handle → Text → Exec FakePeripheral (Unit {0})
begin_notify_iter callback t uuid =
    with_entry (entry t uuid) (λ c. subscribe callback c c.cccd_handle)

-- `finally` of notify_iter: what the write raises is dropped.
abbrev pub unsubscribe : CharEntry → Option ℕ → World FakePeripheral → World FakePeripheral
unsubscribe c none w = w
unsubscribe c (some cccd) w =
    let w' = (write peripheral_answer cccd (0 ∷ 0 ∷ []) w).1 in
    record w' { client = remove_notify_handler c.value_handle w'.client }

-- MicroFakeStack, for a configuration
unfoldable pub micro_stack :
    {F E : Type 0} → BenchConfig F → Stack Handle (World FakePeripheral × E)
micro_stack cfg = record {
  name = codes "micro_fake";
  setup_gatt =
      λ target w. let (r, w') = setup_gatt cfg.payload_size cfg.notify_rate_hz in (r, (w', w.1));
  teardown = λ t w. (ok tt, (record w.0 { peer = close w.0.peer }, w.1));
  read = λ t uuid w. let (r, w') = micro_read t uuid w.0 in (r, (w', w.1));
  write = λ t uuid value w. let (r, w') = micro_write t uuid value w.0 in (r, (w', w.1));
}
