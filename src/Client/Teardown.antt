-- ===== src/Client/Teardown.antt =====
-- What a connect leaves: a client with a link, or none and nothing open.
use bluek.Prelude.{
  ◌≡◌, refl, ap, ◌∙◌, ℕ, ◌+◌, List, [], Bool, true, false, Option, arith, if◌then◌else◌,
}
use bluek.Prelude.Result.{Result, ok, err, Error}
use bluek.Att.Codes.{preferred_mtu}
use bluek.Att.Gatt.{GattService}
use bluek.Att.Request.{Answer, Exec, exchange_mtu}
use bluek.Att.Services.{discover}
use bluek.Characteristic.{collection}
use bluek.Client.Connect.{Peer, lock_in, find_peer}
use bluek.Client.Gatt.{BleakClient, call, on_disconnect, saw_close, teardown}
use bluek.Client.Lifecycle.{
  disconnect, close_att, keep_services, attach, or_disconnect, discover_services, behind_mtu,
  set_up, behind_loop, prescan, prescan_budget, behind_scan, connect,
}

-- Nothing is connected, subscribed or known of the peer.
pub record IsDown {P : Type 0} (s : BleakClient P) : Type 0 where
  pub no_att : s.has_att ≡ false
  pub not_connected : s.connected ≡ false
  pub no_cccd : s.cccd_handles ≡ []
  pub no_services : s.services ≡ collection []

-- The same link and subscriptions.
record Keeps {P : Type 0} (s t : BleakClient P) : Type 0 where
  same_att : t.has_att ≡ s.has_att
  same_opened : t.opened_links ≡ s.opened_links
  same_closed : t.closed_links ≡ s.closed_links

on_disconnect-Keeps : {P : Type 0} (b : Bool) (s : BleakClient P) → Keeps s (on_disconnect b s)
on_disconnect-Keeps true s = record { same_att = refl; same_opened = refl; same_closed = refl }
on_disconnect-Keeps false s = record { same_att = refl; same_opened = refl; same_closed = refl }

call-Keeps : {P A : Type 0} (m : Exec P A) (s : BleakClient P) → Keeps s (call m s).1
call-Keeps m s =
    let kept = on_disconnect-Keeps (saw_close s.att (m s.att).1) (record s { att = (m s.att).1 }) in
    record {
      same_att = kept.same_att;
      same_opened = kept.same_opened;
      same_closed = kept.same_closed;
    }

-- What a set-up may leave of a client: the link as it is, whether it returns or raises.
keep_services-Keeps :
    {P : Type 0} (s : BleakClient P) (r : Result (List GattService)) (t : BleakClient P)
    → Keeps s t
    → Keeps s (keep_services (r, t)).1
keep_services-Keeps s (ok found) t k = record {
  same_att = k.same_att;
  same_opened = k.same_opened;
  same_closed = k.same_closed;
}
keep_services-Keeps s (err e) t k = k

module _ {P : Type 0} (answer : Answer P) where
  discover_services-Keeps :
      (s t : BleakClient P) → Keeps s t → Keeps s (discover_services answer t).1
  unfolding discover_services
  discover_services-Keeps s t k =
      let c = call-Keeps (discover answer) t in
      keep_services-Keeps s (call (discover answer) t).0 (call (discover answer) t).1 (record {
        same_att = c.same_att ∙ k.same_att;
        same_opened = c.same_opened ∙ k.same_opened;
        same_closed = c.same_closed ∙ k.same_closed;
      })

  behind_mtu-Keeps :
      (s : BleakClient P) (r : Result ℕ) (t : BleakClient P)
      → Keeps s t
      → Keeps s (behind_mtu answer (r, t)).1
  behind_mtu-Keeps s (ok n) t k = discover_services-Keeps s t k
  behind_mtu-Keeps s (err e) t k = k

  set_up-Keeps : (s : BleakClient P) → Keeps s (set_up answer s).1
  unfolding set_up
  set_up-Keeps s =
      behind_mtu-Keeps s (call (exchange_mtu answer preferred_mtu) s).0
        (call (exchange_mtu answer preferred_mtu) s).1
        (call-Keeps (exchange_mtu answer preferred_mtu) s)

  -- How a connect ends, from the numbers of links opened and closed before: with a link more, or with
  -- an exception and every link of its closed.
  pub data Ends (opened closed : ℕ) (r : Result Bool) (t : BleakClient P) : Type 0 where
    linked :
        r ≡ ok true
        → t.has_att ≡ true
        → t.opened_links ≡ opened + 1
        → t.closed_links ≡ closed
        → Ends opened closed r t
    released :
        (e : Error)
        → r ≡ err e
        → IsDown t
        → t.opened_links + closed ≡ opened + t.closed_links
        → Ends opened closed r t

  close_att-counts :
      (t : BleakClient P)
      → t.has_att ≡ true
      → ((close_att t).closed_links ≡ t.closed_links + 1)
        × ((close_att t).opened_links ≡ t.opened_links)
  close_att-counts t h = (
    ap
        (λ b.
          (let u : BleakClient P =
              if b then record t { closed_links = t.closed_links + 1 } else t in
            u.closed_links))
        h,
    ap
        (λ b.
          (let u : BleakClient P =
              if b then record t { closed_links = t.closed_links + 1 } else t in
            u.opened_links))
        h,
  )

  or_disconnect-Ends :
      (s u : BleakClient P) (r : Result (Unit {0})) (t : BleakClient P)
      → u.has_att ≡ true
      → u.opened_links ≡ s.opened_links + 1
      → u.closed_links ≡ s.closed_links
      → Keeps u t
      → Ends s.opened_links s.closed_links (or_disconnect (r, t)).0 (or_disconnect (r, t)).1
  unfolding disconnect teardown
  or_disconnect-Ends s u (ok _) t has opened closed k =
      linked refl (k.same_att ∙ has) (k.same_opened ∙ opened) (k.same_closed ∙ closed)
  or_disconnect-Ends s u (err e) t has opened closed k =
      let (one_more, same) = close_att-counts t (k.same_att ∙ has) in
      released e refl
        (record { no_att = refl; not_connected = refl; no_cccd = refl; no_services = refl })
        (omega (arith, k.same_opened, k.same_closed))

  behind_loop-Ends :
      {E : Type 0} (fresh : P) (s : BleakClient P) (r : Result ℕ) (e : E)
      → IsDown s
      → Ends s.opened_links s.closed_links
          (behind_loop answer fresh s (r, e)).0.0
          (behind_loop answer fresh s (r, e)).0.1
  behind_loop-Ends fresh s (err x) e down = released x refl down (omega arith)
  behind_loop-Ends fresh s (ok t) e down =
      or_disconnect-Ends s (attach t fresh s) (set_up answer (attach t fresh s)).0
        (set_up answer (attach t fresh s)).1 refl refl refl (set_up-Keeps (attach t fresh s))

  module _ {E : Type 0} (peer : Peer E) (second cap delay : ℕ) where
    behind_scan-Ends :
        (fresh : P) (deadline now : ℕ) (r : Result (Option ℕ)) (s : BleakClient P) (e : E)
        → IsDown s
        → Ends s.opened_links s.closed_links
            (behind_scan answer peer second cap delay fresh deadline now r s e).0.0
            (behind_scan answer peer second cap delay fresh deadline now r s e).0.1
    behind_scan-Ends fresh deadline now (err x) s e down = released x refl down (omega arith)
    behind_scan-Ends fresh deadline now (ok observed) s e down =
        let (found, e') = find_peer peer deadline delay s.address observed s.peer_type now e in
        behind_loop-Ends fresh (record s { peer_type = lock_in observed s.peer_type }) found e'
          (record {
            no_att = down.no_att;
            not_connected = down.not_connected;
            no_cccd = down.no_cccd;
            no_services = down.no_services;
          })

    -- A client without a link connects, for every peer, every scan and every end of the attempts, in
    -- one of two ways: it returns true and has an ATT client on the one link more that was opened, or
    -- it raises, nothing of a connection is left, and it closed each link that it opened.
    pub connect-Ends :
        (fresh : P) (scan : ℕ → Result (Option ℕ)) (timeout start now : ℕ) (s : BleakClient P)
        (e : E)
        → IsDown s
        → Ends s.opened_links s.closed_links
            (connect answer peer second cap delay fresh scan timeout start now s e).0.0
            (connect answer peer second cap delay fresh scan timeout start now s e).0.1
    unfolding connect
    connect-Ends fresh scan timeout start now s e down =
        behind_scan-Ends fresh (start + timeout) now
          (prescan scan (prescan_budget second cap timeout)) s e down
