-- ===== src/Client/Lifecycle.antt =====
-- `connect` as a whole, `disconnect` and `get_services` of `BleakClient`.
--
-- Times are natural numbers of one unit, as in Client/Connect; `scan` gives what the scan in front
-- of the connect returns or raises for its budget. A new link comes with the state of a peer.
use bluek.Prelude.{
  ℕ, ◌+◌, ◌-◌, List, [], ◌∷◌, map, Bool, true, false, Option, none, some, min, ltb, if◌then◌else◌,
}
use bluek.Prelude.Result.{Result, ok, err}
use bluek.Att.Codes.{preferred_mtu}
use bluek.Att.Gatt.{GattService}
use bluek.Att.State.{new_client}
use bluek.Att.Request.{Answer, exchange_mtu}
use bluek.Att.Services.{discover}
use bluek.Characteristic.{wrap_service, collection, BleakGattServiceCollection}
use bluek.Client.Connect.{Peer, lock_in, find_peer}
use bluek.Client.Gatt.{BleakClient, Method, call, teardown}

-- `att.close()` closes the socket, which calls nothing any more.
abbrev pub close_att : {P : Type 0} → BleakClient P → BleakClient P
close_att s = if s.has_att then record s { closed_links = s.closed_links + 1 } else s

-- disconnect
unfoldable pub disconnect : {P : Type 0} → BleakClient P → BleakClient P
unfolding teardown
disconnect s = teardown (close_att s)

abbrev pub keep_services :
    {P : Type 0} → Result (List GattService) × BleakClient P → Result (Unit {0}) × BleakClient P
keep_services (ok found, s) = (ok tt, record s { services = collection (map wrap_service found) })
keep_services (err e, s) = (err e, s)

-- The assignments behind the loop of `connect`.
abbrev pub attach : {P : Type 0} → ℕ → P → BleakClient P → BleakClient P
attach peer_type fresh s = record s {
  att = record { client = new_client true; sent = []; peer = fresh };
  has_att = true;
  connected = true;
  peer_type = some peer_type;
  opened_links = s.opened_links + 1;
}

-- except BaseException: await self.disconnect(); raise
abbrev pub or_disconnect :
    {P : Type 0} → Result (Unit {0}) × BleakClient P → Result Bool × BleakClient P
or_disconnect (ok _, s) = (ok true, s)
or_disconnect (err e, s) = (err e, disconnect s)

module _ {P : Type 0} (answer : Answer P) where
  -- _discover_services
  unfoldable pub discover_services : Method P (Unit {0})
  discover_services s = keep_services (call (discover answer) s)

  abbrev pub behind_mtu : Result ℕ × BleakClient P → Result (Unit {0}) × BleakClient P
  behind_mtu (ok _, s) = discover_services s
  behind_mtu (err e, s) = (err e, s)

  -- The `try` block at the end of `connect`.
  unfoldable pub set_up : Method P (Unit {0})
  set_up s = behind_mtu (call (exchange_mtu answer preferred_mtu) s)

  abbrev pub return_services :
      Result (Unit {0}) × BleakClient P → Result BleakGattServiceCollection × BleakClient P
  return_services (ok _, s) = (ok s.services, s)
  return_services (err e, s) = (err e, s)

  abbrev pub has_services : BleakGattServiceCollection → Bool
  has_services c = elim c.services [ [] ↦ false | _ ∷ _ ↦ true ]

  -- get_services
  unfoldable pub get_services : Method P BleakGattServiceCollection
  get_services s =
      if has_services s.services
      then (ok s.services, s)
      else if s.has_att
      then return_services (discover_services s)
      else (ok s.services, s)

  abbrev pub behind_loop :
      {E : Type 0} → P → BleakClient P → Result ℕ × E → (Result Bool × BleakClient P) × E
  behind_loop fresh s (ok t, e) = (or_disconnect (set_up (attach t fresh s)), e)
  behind_loop fresh s (err x, e) = ((err x, s), e)

-- min(_CONNECT_PRESCAN_BUDGET_S, max(0.0, timeout - 1.0))
abbrev pub prescan_budget : ℕ → ℕ → ℕ → ℕ
prescan_budget second cap timeout = min cap (timeout - second)

abbrev pub prescan : (ℕ → Result (Option ℕ)) → ℕ → Result (Option ℕ)
prescan scan budget = if ltb 0 budget then scan budget else ok none

module _ {P E : Type 0} (answer : Answer P) (peer : Peer E) (second cap delay : ℕ) where
  -- `now` is the time behind the scan.
  abbrev pub behind_scan :
      P → ℕ → ℕ → Result (Option ℕ) → BleakClient P → E → (Result Bool × BleakClient P) × E
  behind_scan fresh deadline now (err x) s e = ((err x, s), e)
  behind_scan fresh deadline now (ok observed) s e =
      behind_loop answer fresh (record s { peer_type = lock_in observed s.peer_type })
        (find_peer peer deadline delay s.address observed s.peer_type now e)

  -- connect, begun at the time `start`
  unfoldable pub connect :
      P
      → (ℕ → Result (Option ℕ))
      → ℕ
      → ℕ
      → ℕ
      → BleakClient P
      → E
      → (Result Bool × BleakClient P) × E
  connect fresh scan timeout start now s e =
      behind_scan fresh (start + timeout) now (prescan scan (prescan_budget second cap timeout)) s e
