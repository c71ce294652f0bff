-- ===== src/Crypto/Toy.antt =====
-- A cipher that meets the laws: PKCS7 as documented, and a fixed mask in place of AES.
use ttlock_ble.Base.{
  ℕ, zero, suc, ◌+◌, ◌-◌, ◌%◌, ◌<◌, ◌≤◌, ◌≡◌, refl, ap, ◌∙◌, arith, [], ◌∷◌, ◌++◌, map, bit_xor,
  ◌&&◌, Option, none, some, All, All-append, length, length-append, take, drop, take-length,
  drop-length, get_elem?, if◌then◌else◌, leb, ◌==◌,
}
use ttlock_ble.Base.Bits.{bit_xor_cancel, bit_xor-lt}
use ttlock_ble.Base.Bytes.{Bytes, IsByte, equal, equal_iff}
use ttlock_ble.Crypto.{Cipher, CipherLaws}
use ttlock_ble.Outcome.{Result, ok, raised, value_error}

repeat : ℕ → ℕ → Bytes
repeat zero b = []
repeat (suc n) b = b ∷ repeat n b

toy_pad : Bytes → Bytes
toy_pad p = let n = 16 - length p % 16 in p ++ repeat n n

-- The pad length that the last byte gives, if all of the padding agrees.
unpad_by : Bytes → Option ℕ → Result Bytes
unfolding repeat
unpad_by q none = raised value_error
unpad_by q (some n) =
    if leb 1 n && leb n 16 && leb n (length q) && equal (drop (length q - n) q) (repeat n n)
    then ok (take (length q - n) q)
    else raised value_error

toy_unpad : Bytes → Result Bytes
unfolding unpad_by
toy_unpad q = unpad_by q (get_elem? q (length q - 1))

mask : Bytes → Bytes
mask = map (λ b. bit_xor b 0x5a)

abbrev when_aligned : Bytes → Bytes → Bytes → Result Bytes
when_aligned key iv p =
    if length key == 16 && length iv == 16 && length p % 16 == 0
    then ok (mask p)
    else raised value_error

unfoldable pub toy_cipher : Cipher
unfolding toy_pad toy_unpad mask
toy_cipher = record {
  pad = toy_pad;
  unpad = toy_unpad;
  cbc_encrypt = when_aligned;
  cbc_decrypt = when_aligned;
}

length-repeat : (n b : ℕ) → length (repeat n b) ≡ n
unfolding repeat
length-repeat zero b = refl
length-repeat (suc n) b = ap suc (length-repeat n b)

repeat-IsByte : (n b : ℕ) → b < 256 → All IsByte (repeat n b)
unfolding repeat
repeat-IsByte zero b h = tt
repeat-IsByte (suc n) b h = (h, repeat-IsByte n b h)

repeat_last : (p : Bytes) (n b : ℕ) → get_elem? (p ++ repeat (suc n) b) (length p + n) ≡ some b
unfolding repeat
repeat_last (x ∷ p) n b =
    let e : suc (length p) + n ≡ suc (length p + n) = omega arith in rw e (repeat_last p n b)
repeat_last [] zero b = refl
repeat_last [] (suc n) b =
    let e : 0 + suc n ≡ suc (0 + n) = omega arith in rw e (repeat_last [] n b)

length-mask : (p : Bytes) → length (mask p) ≡ length p
unfolding mask
length-mask [] = refl
length-mask (x ∷ xs) = ap suc (length-mask xs)

mask-IsByte : (p : Bytes) → All IsByte p → All IsByte (mask p)
unfolding mask
mask-IsByte [] h = tt
mask-IsByte (x ∷ xs) (h, t) = (bit_xor-lt 8 x 0x5a h (omega arith), mask-IsByte xs t)

mask_twice : (p : Bytes) → mask (mask p) ≡ p
unfolding mask
mask_twice [] = refl
mask_twice (x ∷ xs) = rw (bit_xor_cancel x 0x5a, mask_twice xs)

unpad_by-some :
    (p q : Bytes) (n : ℕ)
    → 1 ≤ n
    → n ≤ 16
    → length q ≡ length p + n
    → drop (length p) q ≡ repeat n n
    → take (length p) q ≡ p
    → unpad_by q (some n) ≡ ok p
unfolding unpad_by
unpad_by-some p q n lo hi len tail head =
    let kept : length q - n ≡ length p = omega arith in
    rw (kept, head, tail) (ground (arith, equal_iff (repeat n n) (repeat n n)))

unpad_repeat : (p : Bytes) (n : ℕ) → suc n ≤ 16 → toy_unpad (p ++ repeat (suc n) (suc n)) ≡ ok p
unfolding toy_unpad
unpad_repeat p n h =
    let q = p ++ repeat (suc n) (suc n) in
    let size : length q ≡ length p + suc n =
      omega (arith, length-append {0} p (repeat (suc n) (suc n)), length-repeat (suc n) (suc n)) in
    let last_at : length q - 1 ≡ length p + n = omega arith in
    ap (λ (i : ℕ). unpad_by q (get_elem? q i)) last_at
    ∙ ap (unpad_by q) (repeat_last p n (suc n))
    ∙ unpad_by-some p q (suc n) (omega arith) h size (drop-length p (repeat (suc n) (suc n)))
        (take-length p (repeat (suc n) (suc n)))

unpad-pad : (p : Bytes) → toy_unpad (toy_pad p) ≡ ok p
unfolding toy_pad
unpad-pad p =
    let count : 16 - length p % 16 ≡ suc (15 - length p % 16) = omega arith in
    ap (λ (n : ℕ). toy_unpad (p ++ repeat n n)) count ∙ unpad_repeat p _ (omega arith)

pub toy_laws : CipherLaws toy_cipher
unfolding toy_cipher unpad_by
toy_laws = record {
  unpad-pad = λ p h. unpad-pad p;
  pad-IsByte = λ p h. All-append IsByte p _ h (repeat-IsByte _ _ (omega arith));
  length-pad = λ p.
      let n = 16 - length p % 16 in
      omega (arith, length-append {0} p (repeat n n), length-repeat n n);
  encrypt_aligned = λ key iv p k v h a. (
    mask p,
    ground arith,
    length-mask p,
    mask-IsByte p h,
    ground (arith, length-mask p, mask_twice p),
  );
  encrypt_raises = λ key iv p e h. ground arith;
  decrypt_raises = λ key iv p e h. ground arith;
  unpad_raises = λ p e h. ground arith;
}
