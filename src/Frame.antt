-- ===== src/Frame.antt =====
-- ttlock_ble/protocol/constants.py and frame.py: one TTLock packet, to the wire and back.
pub mod RoundTrip
pub mod Parse
use ttlock_ble.Base.{
  ℕ, ◌+◌, ◌*◌, ◌/◌, ◌%◌, ◌≡◌, Bool, true, false, not, ◌||◌, List, [], ◌∷◌, ◌++◌, Option, none, some,
  bit_or, length, get_elem?, slice, ltb, leb, ◌==◌, if◌then◌else◌,
}
use ttlock_ble.Base.Bytes.{Bytes}
use ttlock_ble.Crypto.{Cipher, table_crc, aes_encrypt, aes_decrypt}
use ttlock_ble.Outcome.{Result, ok, raised, value_error, refuse_if, ◌>>=◌, ◌>>◌}
use ttlock_ble.Outcome.Access.{byte_at, make_byte}

abbrev pub header : Bytes
header = 0x7f ∷ 0x5a ∷ []

abbrev pub trailer : Bytes
trailer = 0x0d ∷ 0x0a ∷ []

abbrev pub encrypt_plain : ℕ
encrypt_plain = 0xaa

abbrev pub encrypt_aes : ℕ
encrypt_aes = 0x02

abbrev pub v3_header_len : ℕ
v3_header_len = 12

abbrev pub legacy_header_len : ℕ
legacy_header_len = 6

abbrev pub v3_length_index : ℕ
v3_length_index = 11

abbrev pub legacy_length_index : ℕ
legacy_length_index = 5

abbrev pub crc_len : ℕ
crc_len = 1

-- The field `data` is `payload` here.
pub record Frame : Type 0 where
  pub protocol_type : ℕ
  pub sub_version : ℕ
  pub scene : ℕ
  pub group_id : ℕ
  pub sub_org : ℕ
  pub command : ℕ
  pub encrypt : ℕ
  pub payload : Bytes

-- The `body` of `build`: the header of the frame's generation, and the payload.
unfoldable pub body : Frame → Bytes
body f =
    if leb 5 f.protocol_type
    then 0x7f
      ∷ 0x5a
      ∷ f.protocol_type % 256
      ∷ f.sub_version % 256
      ∷ f.scene % 256
      ∷ f.group_id / 256 % 256
      ∷ f.group_id % 256
      ∷ f.sub_org / 256 % 256
      ∷ f.sub_org % 256
      ∷ f.command % 256
      ∷ f.encrypt % 256
      ∷ length f.payload % 256
      ∷ f.payload
    else 0x7f
      ∷ 0x5a
      ∷ f.protocol_type % 256
      ∷ f.command % 256
      ∷ f.encrypt % 256
      ∷ length f.payload % 256
      ∷ f.payload

-- `build`, under the CRC function that `set_crc_func` last installed. `bytes([crc])` refuses a
-- number that is no byte.
unfoldable pub build_with : (Bytes → ℕ) → Frame → Result Bytes
unfolding body make_byte
build_with crc_func f = do crc ← make_byte (crc_func (body f)); ok (body f ++ (crc ∷ trailer))

unfoldable pub build : Frame → Result Bytes
unfolding build_with
build = build_with table_crc

-- The fields behind the length test of `parse`, for each generation.
parse_v3 : Bytes → ℕ → Bytes → Result Frame
parse_v3 raw proto content = do
  sub_version ← byte_at raw 3
  scene ← byte_at raw 4
  group_high ← byte_at raw 5
  group_low ← byte_at raw 6
  org_high ← byte_at raw 7
  org_low ← byte_at raw 8
  command ← byte_at raw 9
  encrypt ← byte_at raw 10
  ok (record {
    protocol_type = proto;
    sub_version = sub_version;
    scene = scene;
    group_id = bit_or (group_high * 256) group_low;
    sub_org = bit_or (org_high * 256) org_low;
    command = command;
    encrypt = encrypt;
    payload = content;
  })

parse_legacy : Bytes → ℕ → Bytes → Result Frame
parse_legacy raw proto content = do
  command ← byte_at raw 3
  encrypt ← byte_at raw 4
  ok (record {
    protocol_type = proto;
    sub_version = 0;
    scene = 0;
    group_id = 0;
    sub_org = 0;
    command = command;
    encrypt = encrypt;
    payload = content;
  })

-- `Frame.parse`, on the bytes up to the trailer.
unfoldable pub parse : Bytes → Result Frame
unfolding byte_at parse_v3 parse_legacy
parse raw = do
  refuse_if (ltb (length raw) 7) value_error
  first ← byte_at raw 0
  second ← byte_at raw 1
  refuse_if (not (first == 0x7f) || not (second == 0x5a)) value_error
  proto ← byte_at raw 2
  let header_len = if leb 5 proto then v3_header_len else legacy_header_len
  refuse_if (ltb (length raw) header_len) value_error
  declared ← byte_at raw (if leb 5 proto then v3_length_index else legacy_length_index)
  refuse_if (ltb (length raw) (header_len + declared)) value_error
  let content = slice header_len (header_len + declared) raw
  if leb 5 proto then parse_v3 raw proto content else parse_legacy raw proto content
