-- ===== src/Models/Advertisement/Total.antt =====
-- Advertisements: every payload is decoded or ignored.
use ttlock_ble.Base.{
  ℕ, ◌+◌, ◌/◌, ◌%◌, ◌≡◌, ◌⊎◌, inl, inr, Bool-cases, refl, sym, subst, arith, Bool, true, false,
  ◌&&◌, ◌||◌, ◌∷◌, Option, none, some, length, ltb, ◌==◌, if◌then◌else◌,
}
use ttlock_ble.Base.Bytes.{Bytes}
use ttlock_ble.Commands.Control.{locked, unlocked}
use ttlock_ble.Models.Advertisement.{
  flag, LockAdvertisement, decode_lock_state, advertised, from_manufacturer_data,
}
use ttlock_ble.Outcome.{Result, ok, ◌>>=◌}
use ttlock_ble.Outcome.Access.{byte_at}

-- The bolt is told exactly when the lock is not dormant.
pub IsTold : Option LockAdvertisement → Type 0
IsTold none = Unit
IsTold (some a) =
    ((a.is_dormant ≡ true) × (a.lock_state ≡ none))
    ⊎ ((a.is_dormant ≡ false) × ((a.lock_state ≡ some locked) ⊎ (a.lock_state ≡ some unlocked)))

-- One decoded advertisement, or an ignored one.
Told : Result (Option LockAdvertisement) → Type 0
Told r = (found : Option LockAdvertisement) × (r ≡ ok found) × IsTold found

Told-if :
    (b : Bool) (r r' : Result (Option LockAdvertisement))
    → Told r
    → Told r'
    → Told (if b then r else r')
Told-if true r r' h k = h
Told-if false r r' h k = k

Told->>= :
    (r : Result ℕ) (f : ℕ → Result (Option LockAdvertisement)) (b : ℕ)
    → r ≡ ok b
    → Told (f b)
    → Told (r >>= f)
Told->>= r f b e h = subst (λ r. Told (r >>= f)) (sym e) h

ignored : Told (ok none)
unfolding Told IsTold
ignored = (none, refl, tt)

bolt-told :
    (flags : ℕ)
    → ((flag flags 4 ≡ true) × (decode_lock_state flags ≡ none))
      ⊎ ((flag flags 4 ≡ false)
          × ((decode_lock_state flags ≡ some locked) ⊎ (decode_lock_state flags ≡ some unlocked)))
unfolding decode_lock_state
bolt-told flags = elim (Bool-cases (flag flags 4)) [
  | inl dormant ↦ inl (dormant, rw dormant refl)
  | inr awake ↦ inr (
    awake,
    elim (Bool-cases (flag flags 0)) [
      | inl opened ↦ inr (rw (awake, opened) refl)
      | inr closed ↦ inl (rw (awake, closed) refl)
    ],
  )
]

advertised-Told :
    (raw : Bytes) (protocol_type protocol_version scene offset flags battery : ℕ)
    → byte_at raw offset ≡ ok flags
    → byte_at raw (offset + 1) ≡ ok battery
    → Told (advertised raw protocol_type protocol_version scene offset)
unfolding advertised Told IsTold
advertised-Told raw protocol_type protocol_version scene offset flags battery e e' =
    Told-if _ (ok none) _ ignored (
      Told->>= (byte_at raw offset) _ flags e
        (Told->>= (byte_at raw (offset + 1)) _ battery e' (_, refl, bolt-told flags)))

-- Every payload is decoded or ignored, without an exception; and a decoded one
-- tells the state of the bolt exactly when the lock is not dormant.
pub from_manufacturer_data-total :
    (company_id : ℕ) (payload : Bytes)
    → (found : Option LockAdvertisement) × (from_manufacturer_data company_id payload ≡ ok found)
      × IsTold found
unfolding from_manufacturer_data byte_at Told IsTold
from_manufacturer_data-total company_id (a ∷ b ∷ c ∷ d ∷ e ∷ f ∷ g ∷ h ∷ rest) =
    let raw = company_id % 256 ∷ company_id / 256 ∷ a ∷ b ∷ c ∷ d ∷ e ∷ f ∷ g ∷ h ∷ rest in
    let low = company_id % 256 in
    let high = company_id / 256 in
    Told-if (ltb (length raw) 15) (ok none) _ ignored (
      Told-if (low == 18 && high == 25 || low == 0xff && high == 0xff) (ok none) _ ignored (
        Told-if (low == 5 && high == 3) _ _ (advertised-Told raw 5 3 a 3 b c refl refl)
          (advertised-Told raw c d f 8 g h refl refl)))
from_manufacturer_data-total company_id _ = (none, ground arith, tt)
