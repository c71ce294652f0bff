-- ===== src/Crypto/Keys/Formats.antt =====
-- The three forms of a key string stand for one key.
use ttlock_ble.Base.{
  ℕ, ◌≡◌, refl, ap, ◌∙◌, arith, Bool, true, false, ◌||◌, [], ◌∷◌, ◌++◌, map, All, ◌⊎◌, inl, inr,
  All-append, length, ◌==◌, if◌then◌else◌,
}
use ttlock_ble.Base.Bytes.{Bytes, IsByte}
use ttlock_ble.Crypto.Keys.{hex_key_to_bytes}
use ttlock_ble.Crypto.Keys.Octets.{
  hexes, contains-append, no_comma, no_dot, hex_parts-octets, continuous,
}
use ttlock_ble.Outcome.{ok}
use ttlock_ble.Text.{Text, is_space, hex_octet, strip}
use ttlock_ble.Text.Parsing.{split, contains}
use ttlock_ble.Text.Parsing.Octets.{hex_octet-IsSolid}
use ttlock_ble.Text.Parsing.Split.{join, split-join}
use ttlock_ble.Text.Strip.{IsSolid, strip-IsSolid}

contains_self : (sep : ℕ) (t rest : Text) → contains sep (t ++ sep ∷ rest) ≡ true
unfolding contains
contains_self sep [] rest = ground arith
contains_self sep (c ∷ t) rest = ground (arith, contains_self sep t rest)

contains-nonempty : (sep : ℕ) (t : Text) → contains sep t ≡ true → (length t == 0) ≡ false
unfolding contains
contains-nonempty sep [] h = cc h
contains-nonempty sep (c ∷ t) h = ground arith

pieces-contains :
    (other sep : ℕ) (bs : Bytes)
    → (sep == other) ≡ false
    → ((b : ℕ) → IsByte b → contains other (hex_octet b) ≡ false)
    → All IsByte bs
    → contains other (join sep (map hex_octet bs)) ≡ false
unfolding join contains
pieces-contains other sep [] e k h = refl
pieces-contains other sep (b ∷ []) e k (p, h) = k b p
pieces-contains other sep (b ∷ c ∷ bs) e k (p, h) =
    contains-append other (hex_octet b) (sep ∷ join sep (map hex_octet (c ∷ bs))) (k b p)
    ∙ rw e (pieces-contains other sep (c ∷ bs) e k h)

pieces-IsSolid :
    (sep : ℕ) (bs : Bytes)
    → is_space sep ≡ false
    → All IsByte bs
    → IsSolid (join sep (map hex_octet bs))
unfolding join IsSolid
pieces-IsSolid sep [] e h = tt
pieces-IsSolid sep (b ∷ []) e (p, h) = hex_octet-IsSolid b p
pieces-IsSolid sep (b ∷ c ∷ bs) e (p, h) =
    All-append (λ c. is_space c ≡ false) (hex_octet b) (sep ∷ join sep (map hex_octet (c ∷ bs)))
      (hex_octet-IsSolid b p) (e, pieces-IsSolid sep (c ∷ bs) e h)

none_contain :
    (sep : ℕ) (bs : Bytes)
    → ((b : ℕ) → IsByte b → contains sep (hex_octet b) ≡ false)
    → All IsByte bs
    → All (λ u. contains sep u ≡ false) (map hex_octet bs)
none_contain sep [] k h = tt
none_contain sep (b ∷ bs) k (p, h) = (k b p, none_contain sep bs k h)

-- A string with one of the separators, whose pieces are the octets of a key.
of_pieces :
    (sep : ℕ) (s : Text) (key : Bytes)
    → strip s ≡ s
    → (length s == 0) ≡ false
    → (contains b',' s || contains b'.' s) ≡ true
    → (if contains b',' s then b',' else b'.') ≡ sep
    → split sep s ≡ map hex_octet key
    → length key ≡ 16
    → All IsByte key
    → hex_key_to_bytes s ≡ ok key
unfolding hex_key_to_bytes
of_pieces sep s key st e c f sp n h = rw (st, e, c, f, sp, hex_parts-octets key h, n) refl

either : (a b : Bool) → (a ≡ true) ⊎ (b ≡ true) → (a || b) ≡ true
either a b (inl h) = ground arith
either a b (inr h) = ground arith

commas :
    (a b : ℕ) (bs : Bytes)
    → length (a ∷ b ∷ bs) ≡ 16
    → All IsByte (a ∷ b ∷ bs)
    → hex_key_to_bytes (join b',' (map hex_octet (a ∷ b ∷ bs))) ≡ ok (a ∷ b ∷ bs)
unfolding is_space join
commas a b bs n h =
    let s = join b',' (map hex_octet (a ∷ b ∷ bs)) in
    let found = contains_self b',' (hex_octet a) (join b',' (map hex_octet (b ∷ bs))) in
    of_pieces b',' s (a ∷ b ∷ bs) (strip-IsSolid s (pieces-IsSolid b',' (a ∷ b ∷ bs) refl h))
      (contains-nonempty b',' s found) (either (contains b',' s) (contains b'.' s) (inl found))
      (ap (λ c. if c then b',' else b'.') found)
      (split-join b',' (hex_octet a) (map hex_octet (b ∷ bs))
        (none_contain b',' (a ∷ b ∷ bs) no_comma h))
      n h

dots :
    (a b : ℕ) (bs : Bytes)
    → length (a ∷ b ∷ bs) ≡ 16
    → All IsByte (a ∷ b ∷ bs)
    → hex_key_to_bytes (join b'.' (map hex_octet (a ∷ b ∷ bs))) ≡ ok (a ∷ b ∷ bs)
unfolding is_space join
dots a b bs n h =
    let s = join b'.' (map hex_octet (a ∷ b ∷ bs)) in
    let found = contains_self b'.' (hex_octet a) (join b'.' (map hex_octet (b ∷ bs))) in
    of_pieces b'.' s (a ∷ b ∷ bs) (strip-IsSolid s (pieces-IsSolid b'.' (a ∷ b ∷ bs) refl h))
      (contains-nonempty b'.' s found) (either (contains b',' s) (contains b'.' s) (inr found))
      (ap (λ c. if c then b',' else b'.') (pieces-contains b',' b'.' (a ∷ b ∷ bs) refl no_comma h))
      (split-join b'.' (hex_octet a) (map hex_octet (b ∷ bs))
        (none_contain b'.' (a ∷ b ∷ bs) no_dot h))
      n h

-- A key of 16 bytes is read from its hexadecimal octets, be they written one after the other, with
-- commas or with dots between them.
pub hex_key_to_bytes-forms :
    (key : Bytes)
    → length key ≡ 16
    → All IsByte key
    → (hex_key_to_bytes (hexes key) ≡ ok key)
      × (hex_key_to_bytes (join b',' (map hex_octet key)) ≡ ok key)
      × (hex_key_to_bytes (join b'.' (map hex_octet key)) ≡ ok key)
hex_key_to_bytes-forms [] n h = absurd (omega (arith, n))
hex_key_to_bytes-forms (a ∷ []) n h = absurd (omega (arith, n))
hex_key_to_bytes-forms (a ∷ b ∷ bs) n h =
    (continuous (a ∷ b ∷ bs) n h, commas a b bs n h, dots a b bs n h)
