-- ===== src/Cli/Runs/Released.antt =====
-- What a run against a lock leaves behind.
use ttlock_ble.Base.{ℕ, ◌≡◌, List, ◌⊎◌, true}
use ttlock_ble.Cli.Runs.{Run, Surroundings, Holding, end_method, set_linked}
use ttlock_ble.Client.Act.{Act}
use ttlock_ble.Client.Lifecycle.{Lifecycle, connect}
use ttlock_ble.Client.Lifecycle.Reached.{IsTornDown}
use ttlock_ble.Outcome.{Result, raised, Exn}

-- A run that went in ends with a disconnect of the client that the method was called on. A run whose
-- `connect` raised ends with that, and calls nothing more.
pub IsLeft : {A : Type 0} → List ℕ → Surroundings → Holding → Act A → Run → Result A × Run → Type 0
IsLeft lost around holding method before (r, after) =
    ((used : Lifecycle) × (used
        ≡ end_method holding (method (set_linked true before.session)).0
            (connect around.arriving before.life).1)
      × IsTornDown lost around.events around.leaving used after.life)
    ⊎ ((e : Exn) × ((connect around.arriving before.life).0 ≡ raised e)
        × (r ≡ raised e)
        × (after.session ≡ before.session))
