-- ===== src/Mgmt/Link/Tests.antt =====
-- A packet that has to wait twice, and a bind without the capability.
use bluek.Prelude.{◌≡◌, refl, [], ◌∷◌, true, some}
use bluek.Prelude.Result.{ok, err, os_error}
use bluek.Mgmt.Link.{new_link, open_socket, send_data, accepts, writable_later}

waits_twice :
    send_data (writable_later ∷ writable_later ∷ accepts ∷ []) (7 ∷ []) new_link
    ≡ (some (ok tt), record new_link { accepted = (7 ∷ []) ∷ [] })
unfolding send_data
waits_twice = refl

not_permitted : open_socket (some 1) ≡ (err (os_error 1), record new_link { is_closed = true })
unfolding open_socket
not_permitted = refl
