-- ===== src/Commands/AutoLock/Replies.antt =====
-- Setting the auto-lock delay, and reading it back.
use ttlock_ble.Base.{
  ℕ, ◌+◌, ◌*◌, ◌/◌, ◌%◌, ◌≤◌, ◌<◌, ◌≡◌, ◌⊎◌, inl, inr, Bool-cases, refl, arith, true, [], ◌∷◌, leb,
}
use ttlock_ble.Base.Bytes.{Bytes, from_bytes}
use ttlock_ble.Commands.AutoLock.{
  search, modify, payload_auto_lock_set, successful_data, parse_auto_lock_response,
}
use ttlock_ble.Encoding.{response_success, parse_response_status}
use ttlock_ble.Outcome.{ok, raised, value_error}
use ttlock_ble.Outcome.Access.{byte_at}
use ttlock_ble.Text.{ℤ, pos, negsuc}

-- A delay that two bytes do not hold.
pub IsOut : ℤ → Type 0
IsOut (pos n) = 0xffff < n
IsOut (negsuc n) = Unit

split_bytes : (m : ℕ) → m ≤ 0xffff → (0 * 256 + m / 256 % 256) * 256 + m % 256 ≡ m
split_bytes m h = omega arith

-- Either the delay is encoded, and the two bytes of the payload in the answer to a search, behind
-- any echo and battery level, are read as the same delay; or the delay does not fit 16 bits, or is
-- negative, and is refused with `ValueError`.
pub payload_auto_lock_set-search :
    (seconds : ℤ) (echo battery : ℕ) (rest : Bytes)
    → ((high : ℕ) × (low : ℕ) × (payload_auto_lock_set seconds ≡ ok (modify ∷ high ∷ low ∷ []))
        × (parse_auto_lock_response (echo ∷ response_success ∷ battery ∷ search ∷ high ∷ low ∷ rest)
            ≡ ok (seconds, battery)))
      ⊎ ((payload_auto_lock_set seconds ≡ raised value_error) × IsOut seconds)
unfolding payload_auto_lock_set parse_auto_lock_response successful_data byte_at
    parse_response_status from_bytes IsOut
payload_auto_lock_set-search (negsuc m) echo battery rest = inr (refl, tt)
payload_auto_lock_set-search (pos m) echo battery rest = elim (Bool-cases (leb m 0xffff)) [
  | inl fits ↦ inl (
    m / 256 % 256,
    m % 256,
    rw fits refl,
    (let whole = split_bytes m (fitting fits) in ground (arith, whole)),
  )
  | inr out ↦ inr (rw out refl, ground arith)
]
  where
    fitting : leb m 0xffff ≡ true → m ≤ 0xffff
    fitting h = ground arith
