-- ===== src/Commands/OperateLog/Raises.antt =====
-- What parsing a page of the operation log can raise.
use ttlock_ble.Base.{◌≤◌, ◌<◌, ℕ, ◌+◌, ◌≡◌, ◌⊎◌, some, length, get_elem?}
use ttlock_ble.Base.Bytes.{Bytes}
use ttlock_ble.Outcome.{Exn, value_error, index_error}

-- A record of less than eight bytes that ends within the data: its length byte stands at `idx`.
IsShort : Bytes → Type 0
IsShort raw =
    (idx rec_len : ℕ) × (get_elem? raw idx ≡ some rec_len)
    × (idx + 1 + rec_len ≤ length raw)
    × (rec_len < 8)

-- `ValueError`, or the `IndexError` of a record that is too short for its header.
pub IsLogError : Bytes → Exn → Type 0
IsLogError raw e = (e ≡ value_error) ⊎ ((e ≡ index_error) × IsShort raw)

-- An index at or behind the end.
IsBeyond : Bytes → ℕ → Exn → Type 0
IsBeyond raw i e = (e ≡ index_error) × (length raw ≤ i)
