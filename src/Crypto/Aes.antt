-- ===== src/Crypto/Aes.antt =====
-- AES with the key as IV: the round trip, the sizes, and what the two calls raise.
use ttlock_ble.Base.{◌+◌, ◌-◌, ◌%◌, ◌≡◌, ◌≢◌, refl, arith, length, All}
use ttlock_ble.Base.Bytes.{Bytes, IsByte}
use ttlock_ble.Crypto.{Cipher, CipherLaws, aes_encrypt, aes_decrypt}
use ttlock_ble.Outcome.{Result, ok, raised, Exn, value_error, ◌>>=◌}

module _ (c : Cipher) (laws : CipherLaws c) where
  -- Under a 16-byte key encryption succeeds, pads to the next whole block, and is undone.
  pub aes_decrypt-encrypt :
      (key p : Bytes)
      → length key ≡ 16
      → All IsByte p
      → (q : Bytes) × (aes_encrypt c p key ≡ ok q)
        × (length q ≡ length p + (16 - length p % 16))
        × All IsByte q
        × (aes_decrypt c q key ≡ ok p)
  unfolding aes_encrypt aes_decrypt
  aes_decrypt-encrypt key p k h =
      let (q, enc, len, bytes, dec) =
        laws.encrypt_aligned key key (c.pad p) k k (laws.pad-IsByte p h)
          (omega (arith, laws.length-pad p)) in
      (
        q,
        ground (arith, enc),
        ground (arith, len, laws.length-pad p),
        bytes,
        ground (arith, dec, laws.unpad-pad p h),
      )

  -- Both calls fail with `ValueError` and nothing else, and always do under a key of another length.
  pub aes_raises :
      (key x : Bytes)
      → ((e : Exn) → aes_encrypt c x key ≡ raised e → e ≡ value_error)
        × ((e : Exn) → aes_decrypt c x key ≡ raised e → e ≡ value_error)
        × (length key ≢ 16
            → (aes_encrypt c x key ≡ raised value_error)
              × (aes_decrypt c x key ≡ raised value_error))
  unfolding aes_encrypt aes_decrypt
  aes_raises key x = (
    λ e h. ground (arith, laws.encrypt_raises key key (c.pad x) e),
    λ e h. decrypt_cases e h,
    λ ne. (ground arith, ground arith),
  )
    where
      after :
          (r : Result Bytes) (e : Exn)
          → ((e : Exn) → r ≡ raised e → e ≡ value_error)
          → (r >>= c.unpad) ≡ raised e
          → e ≡ value_error
      after (ok p) e f h = laws.unpad_raises p e h
      after (raised e') e f h = ground (arith, f e' refl)

      decrypt_cases : (e : Exn) → aes_decrypt c x key ≡ raised e → e ≡ value_error
      decrypt_cases e h =
          ground (arith, after (c.cbc_decrypt key key x) e (laws.decrypt_raises key key x))
