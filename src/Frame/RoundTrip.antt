-- ===== src/Frame/RoundTrip.antt =====
-- `Frame.build` and `Frame.parse` are inverse on frames whose fields fit the wire.
use ttlock_ble.Base.{
  ℕ, ◌+◌, ◌-◌, ◌*◌, ◌/◌, ◌%◌, ◌≤◌, ◌<◌, ◌≡◌, sym, ap, ◌∙◌, arith, [], ◌∷◌, ◌++◌, take, length,
  length-append, take-length, bit_or, append_assoc,
}
use ttlock_ble.Base.Bits.{bit_or_byte_pair}
use ttlock_ble.Base.Bytes.{Bytes}
use ttlock_ble.Crypto.{table_crc}
use ttlock_ble.Crypto.Codec.{table_crc-lt}
use ttlock_ble.Frame.{Frame, body, build, parse, trailer}
use ttlock_ble.Outcome.{ok}

-- The fields of a frame of protocol type 5 or more fit the bytes that they get.
pub record IsV3 (f : Frame) : Type 0 where
  pub modern : 5 ≤ f.protocol_type
  pub protocol_type_fits : f.protocol_type < 256
  pub sub_version_fits : f.sub_version < 256
  pub scene_fits : f.scene < 256
  pub group_id_fits : f.group_id < 65536
  pub sub_org_fits : f.sub_org < 65536
  pub command_fits : f.command < 256
  pub encrypt_fits : f.encrypt < 256
  pub payload_fits : length f.payload < 256

abbrev pub v3_head : Frame → Bytes → Bytes
v3_head f rest =
    0x7f
    ∷ 0x5a
    ∷ f.protocol_type
    ∷ f.sub_version
    ∷ f.scene
    ∷ f.group_id / 256
    ∷ f.group_id % 256
    ∷ f.sub_org / 256
    ∷ f.sub_org % 256
    ∷ f.command
    ∷ f.encrypt
    ∷ length f.payload
    ∷ rest

pub body-IsV3 : (f : Frame) → IsV3 f → body f ≡ v3_head f f.payload
unfolding body
body-IsV3 f v = ground arith

parse-v3_head :
    (f : Frame) (content : Bytes)
    → IsV3 f
    → length f.payload ≤ length content
    → parse (v3_head f content) ≡ ok (record f { payload = take (length f.payload) content })
unfolding parse
parse-v3_head f content v h =
    let group : bit_or (f.group_id / 256 * 256) (f.group_id % 256) ≡ f.group_id =
      omega (arith, bit_or_byte_pair (f.group_id / 256) (f.group_id % 256) (omega arith)) in
    let org : bit_or (f.sub_org / 256 * 256) (f.sub_org % 256) ≡ f.sub_org =
      omega (arith, bit_or_byte_pair (f.sub_org / 256) (f.sub_org % 256) (omega arith)) in
    let cut : 12 + length f.payload - 12 ≡ length f.payload = omega arith in
    ground (arith, group, org, ap (λ (n : ℕ). take n content) cut)

-- Whatever follows the payload, parsing gives the frame back.
pub parse-body : (f : Frame) (rest : Bytes) → IsV3 f → parse (body f ++ rest) ≡ ok f
parse-body f rest v =
    ap (λ (b : Bytes). parse (b ++ rest)) (body-IsV3 f v)
    ∙ parse-v3_head f (f.payload ++ rest) v (omega (arith, length-append {0} f.payload rest))
    ∙ ap (λ (p : Bytes). ok (record f { payload = p })) (take-length f.payload rest)

pub build-body : (f : Frame) → build f ≡ ok (body f ++ (table_crc (body f) ∷ trailer))
unfolding build
build-body f = ground (arith, table_crc-lt (body f))

-- What `build` writes has 15 bytes more than the payload, and `parse` of all but the trailer gives
-- the frame back.
pub parse-build :
    (f : Frame)
    → IsV3 f
    → (wire : Bytes) × (build f ≡ ok wire)
      × (length wire ≡ 15 + length f.payload)
      × (parse (take (length wire - 2) wire) ≡ ok f)
parse-build f v =
    let crc = table_crc (body f) in
    let size : length (body f) ≡ 12 + length f.payload =
      omega (arith, ap {B = ℕ} length (body-IsV3 f v)) in
    let whole : length (body f ++ (crc ∷ trailer)) ≡ length (body f ++ (crc ∷ [])) + 2 =
      omega (
        arith,
        length-append {0} (body f) (crc ∷ trailer),
        length-append {0} (body f) (crc ∷ []),
      ) in
    let front : length (body f ++ (crc ∷ trailer)) - 2 ≡ length (body f ++ (crc ∷ [])) =
      omega arith in
    (
      body f ++ (crc ∷ trailer),
      build-body f,
      omega (arith, length-append {0} (body f) (crc ∷ trailer)),
      ap (λ (n : ℕ). parse (take n (body f ++ (crc ∷ trailer)))) front
          ∙ ap (λ (w : Bytes). parse (take (length (body f ++ (crc ∷ []))) w))
              (sym (append_assoc (body f) (crc ∷ []) trailer))
          ∙ ap parse (take-length (body f ++ (crc ∷ [])) trailer)
          ∙ parse-body f (crc ∷ []) v,
    )

-- Frames of protocol types below 5 have the short header.
pub record IsLegacy (f : Frame) : Type 0 where
  pub old : f.protocol_type < 5
  pub command_fits : f.command < 256
  pub encrypt_fits : f.encrypt < 256
  pub payload_fits : length f.payload < 256

-- The short header does not carry the version, scene, group and organisation: they read as zero.
pub parse-build_legacy :
    (f : Frame) (crc : ℕ) (rest : Bytes)
    → IsLegacy f
    → parse (body f ++ (crc ∷ rest))
      ≡ ok (record f { sub_version = 0; scene = 0; group_id = 0; sub_org = 0 })
unfolding parse body
parse-build_legacy f crc rest v =
    let cut : 6 + length f.payload - 6 ≡ length f.payload = omega arith in
    let content = f.payload ++ (crc ∷ rest) in
    ground (
      arith,
      ap (λ (n : ℕ). take n content) cut,
      take-length f.payload (crc ∷ rest),
      length-append {0} f.payload (crc ∷ rest),
    )
