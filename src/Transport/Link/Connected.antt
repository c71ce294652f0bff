-- ===== src/Transport/Link/Connected.antt =====
-- What `connect` ends in: a client with the characteristics of one service, or one of two errors.
use ttlock_ble.Base.{ℕ, ◌≡◌, true, ◌⊎◌, some}
use ttlock_ble.Outcome.{Result, ok, raised, tt_lock_error, bleak_error}
use ttlock_ble.Transport.Link.{Link, ConnectTurn, discover}

-- After success the link holds a client and the two characteristics that the discovery picked.
-- An error is `TTLockError`, what bleak raised when it released the old client or started the
-- notifications, or what the search for an unknown device raised.
pub IsOpened : ConnectTurn → Result (Unit {0}) × Link → Type 0
IsOpened turn (ok _, l) =
    (c w n : ℕ) × (turn.established_client ≡ some c)
    × (discover turn.services ≡ some (w, n))
    × (l.client ≡ some c)
    × (l.write_char ≡ some w)
    × (l.notify_char ≡ some n)
    × (l.up ≡ turn.stays_up)
IsOpened turn (raised e, l) =
    (e ≡ tt_lock_error)
    ⊎ (((e ≡ bleak_error)
          × ((turn.disconnecting.release_fails ≡ true) ⊎ (turn.notify_fails ≡ true)))
        ⊎ (turn.searched ≡ raised e))
