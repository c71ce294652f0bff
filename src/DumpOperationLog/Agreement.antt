-- ===== src/DumpOperationLog/Agreement.antt =====
-- The script and the command line choose the same key.
use ttlock_ble.Base.{◌≡◌, refl, inl, inr, Bool-cases, List, [], ◌∷◌, some}
use ttlock_ble.Cli.{find_key, is_target}
use ttlock_ble.DumpOperationLog.{resolve_key, search_key}
use ttlock_ble.Models.VirtualKey.{VirtualKey}
use ttlock_ble.Outcome.{Result, ok, raised, exit_error}
use ttlock_ble.Text.{Text}

-- A refusal of the command line, as the script makes it.
pub as_exit : {A : Type 0} → Result A → Result A
as_exit (ok a) = ok a
as_exit (raised e) = raised exit_error

-- For a target the script chooses the key that the command line chooses, and exits where that
-- refuses.
pub resolve_key-find_key :
    (target : Text) (keys : List VirtualKey)
    → resolve_key (some target) keys ≡ as_exit (find_key target keys)
unfolding resolve_key search_key find_key as_exit
resolve_key-find_key target [] = refl
resolve_key-find_key target (k ∷ keys) = elim (Bool-cases (is_target target k)) [
  | inl e ↦ rw e refl
  | inr e ↦ rw e (resolve_key-find_key target keys)
]
