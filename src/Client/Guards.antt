-- ===== src/Client/Guards.antt =====
-- What the client does when it is not connected, and with the handlers of notifications.
use bluek.Prelude.{
  ◌≡◌, refl, sym, ap, subst, ◌∙◌, ℕ, Bool, true, false, ◌&&◌, none, some, arith, ◌==◌, Bool-cases,
  inl, inr, if◌then◌else◌,
}
use bluek.Prelude.Dict.{nat_eq, lookup, erase, lookup-insert, lookup-erase}
use bluek.Prelude.Result.{Result, ok, err, is_bleak_error, bleak_error}
use bluek.Bytes.{Bytes}
use bluek.Att.Codes.{cccd_uuid}
use bluek.Att.State.{set_notify_handler, remove_notify_handler}
use bluek.Att.Request.{Answer, write}
use bluek.Att.Reading.{read}
use bluek.Characteristic.{by_uuid, BleakGattCharacteristic, get_descriptor}
use bluek.Client.Gatt.{
  BleakClient, Method, CharSpec, resolve_char, require_att, with_char, set_handlers, subscribe,
  unsubscribe, finish_stop, call, connected_read, connected_write, connected_start, connected_stop,
  begin_notify, end_notify, read_gatt_char, write_gatt_char, read_gatt_descriptor,
  write_gatt_descriptor, start_notify, stop_notify,
}

module _ {P A : Type 0} (m : Method P A) (s : BleakClient P) where
  require_att-refused : (s.has_att && s.connected) ≡ false → require_att m s ≡ (err bleak_error, s)
  require_att-refused h = ap (λ b. if b then m s else (err bleak_error, s)) h

  require_att-passed : (s.has_att && s.connected) ≡ true → require_att m s ≡ m s
  require_att-passed h = ap (λ b. if b then m s else (err bleak_error, s)) h

same_key : (n : ℕ) → (n == n) ≡ true
same_key n = ground arith

module _ {P : Type 0} (answer : Answer P) (s : BleakClient P) where
  -- Without a connection every operation on a characteristic or a descriptor raises BleakError, and
  -- neither sends anything nor changes the client.
  pub operations-refused :
      (spec : CharSpec) (handle callback : ℕ) (payload : Bytes) (response : Bool)
      → (s.has_att && s.connected) ≡ false
      → (read_gatt_char answer spec s ≡ (err bleak_error, s))
        × (write_gatt_char answer spec payload response s ≡ (err bleak_error, s))
        × (read_gatt_descriptor answer handle s ≡ (err bleak_error, s))
        × (write_gatt_descriptor answer handle payload s ≡ (err bleak_error, s))
        × (start_notify answer spec callback s ≡ (err bleak_error, s))
        × (stop_notify answer spec s ≡ (err bleak_error, s))
  unfolding read_gatt_char write_gatt_char read_gatt_descriptor write_gatt_descriptor start_notify
      stop_notify
  operations-refused spec handle callback payload response h = (
    require_att-refused (connected_read answer spec) s h,
    require_att-refused (connected_write answer spec payload response) s h,
    require_att-refused (call (read answer handle)) s h,
    require_att-refused (call (write answer handle payload)) s h,
    require_att-refused (connected_start answer spec callback) s h,
    require_att-refused (connected_stop answer spec) s h,
  )

  removed :
      (h : ℕ) (t : BleakClient P)
      → lookup h (set_handlers (remove_notify_handler h) t).att.client.notify_handlers ≡ none
  unfolding remove_notify_handler
  removed h t = rw (lookup-erase h h t.att.client.notify_handlers, same_key h) refl

  finish_stop-removed :
      (h : ℕ) (r : Result (Unit {0})) (t : BleakClient P)
      → (finish_stop h (r, t)).0 ≡ ok tt
      → lookup h (finish_stop h (r, t)).1.att.client.notify_handlers ≡ none
  finish_stop-removed h (ok u) t e = removed h t
  finish_stop-removed h (err x) t e = elim (Bool-cases (is_bleak_error x)) [
    | inl caught ↦ rw caught (removed h t)
    | inr other ↦ let never : err x ≡ ok tt = rw other at e in cc
  ]

  -- When `stop_notify` returns, no handler is left for the characteristic, whether the write of the
  -- CCCD was answered, refused, or left out because there was no subscription.
  pub stop_notify-removed :
      (spec : CharSpec) (c : BleakGattCharacteristic)
      → resolve_char spec s ≡ ok c
      → (stop_notify answer spec s).0 ≡ ok tt
      → lookup c.value_handle (stop_notify answer spec s).1.att.client.notify_handlers ≡ none
  unfolding stop_notify
  stop_notify-removed spec c found ended = elim (Bool-cases (s.has_att && s.connected)) [
    | inr off ↦
        let never : Path (Result (Unit {0})) (err bleak_error) (ok tt) =
          ap (λ z. z.0) (sym (require_att-refused (connected_stop answer spec) s off)) ∙ ended in
        cc
    | inl on ↦
        let path : stop_notify answer spec s ≡ end_notify answer c s =
          require_att-passed (connected_stop answer spec) s on
          ∙ ap (λ r. with_char r (end_notify answer) s) found in
        let (r, t) =
          unsubscribe answer (lookup c.value_handle s.cccd_handles)
            (record s { cccd_handles = erase c.value_handle s.cccd_handles }) in
        subst (λ z. lookup c.value_handle z.1.att.client.notify_handlers ≡ none) (sym path)
          (finish_stop-removed c.value_handle r t (ap (λ z. z.0) (sym path) ∙ ended))
  ]

  -- If a characteristic has no CCCD, `start_notify` raises BleakError, and its handler stays.
  pub start_notify-no_cccd :
      (spec : CharSpec) (callback : ℕ) (c : BleakGattCharacteristic)
      → (s.has_att && s.connected) ≡ true
      → resolve_char spec s ≡ ok c
      → get_descriptor (by_uuid cccd_uuid) c ≡ none
      → ((start_notify answer spec callback s).0 ≡ err bleak_error)
        × (lookup c.value_handle (start_notify answer spec callback s).1.att.client.notify_handlers
            ≡ some callback)
  unfolding start_notify set_notify_handler
  start_notify-no_cccd spec callback c on found missing =
      let t = set_handlers (set_notify_handler c.value_handle callback) s in
      let path : start_notify answer spec callback s ≡ (err bleak_error, t) =
        require_att-passed (connected_start answer spec callback) s on
        ∙ ap (λ r. with_char r (begin_notify answer callback) s) found
        ∙ ap (λ d. subscribe answer c d t) missing in
      let kept : lookup c.value_handle t.att.client.notify_handlers ≡ some callback =
        rw
          (
            lookup-insert c.value_handle c.value_handle callback s.att.client.notify_handlers,
            same_key c.value_handle,
          )
          refl in
      (
        ap (λ z. z.0) path,
        subst (λ z. lookup c.value_handle z.1.att.client.notify_handlers ≡ some callback) (sym path)
            kept,
      )
