-- ===== src/Examples.antt =====
-- Tests on concrete frames, answers and links, and the theorems applied to them.
pub mod Commands
pub mod Pages
pub mod Connection
pub mod Accounts
pub mod Store
pub mod Scan
pub mod Entries
use ttlock_ble.Base.{
  map, ◌↔◌, ℕ, ◌≡◌, ◌<◌, ◌≤◌, ◌+◌, ◌-◌, ◌%◌, ◌⊎◌, ◌≢◌, refl, arith, Bool, true, false, List, [],
  ◌∷◌, ◌++◌, none, some, length, take, drop, All, ◌==◌,
}
use ttlock_ble.Base.Bytes.{Bytes, IsByte, equal}
use ttlock_ble.Client.Act.{Session}
use ttlock_ble.Client.Core.{Client}
use ttlock_ble.Client.Log.{get_operation_log}
use ttlock_ble.Client.Log.Collected.{Collected, get_operation_log-Collected}
use ttlock_ble.Commands.Clock.{payload_time_calibrate, parse_get_lock_time_response}
use ttlock_ble.Commands.Clock.RoundTrip.{parse-payload_time_calibrate}
use ttlock_ble.Commands.PasscodeList.{
  CyclicSchedule, cyclic_base_selectors, base_selector, decode_cyclic_schedule,
  parse_passcode_list_response,
}
use ttlock_ble.Commands.PasscodeList.Cyclic.{decode_cyclic_schedule-duration}
use ttlock_ble.Commands.Parsers.{ParsersRaise, parsers-raise}
use ttlock_ble.Commands.Raises.{IsParseError, RaisesOnly}
use ttlock_ble.Crypto.{table_crc, aes_encrypt, aes_decrypt, codec_decode}
use ttlock_ble.Crypto.Aes.{aes_decrypt-encrypt, aes_raises}
use ttlock_ble.Crypto.Codec.{codec_encode, codec_decode-encode}
use ttlock_ble.Crypto.Toy.{toy_cipher, toy_laws}
use ttlock_ble.DateTime.{DateTime, is_valid, days_in_month}
use ttlock_ble.Encoding.{response_success}
use ttlock_ble.Frame.{Frame, build, parse, body}
use ttlock_ble.Frame.Parse.{parse_raises, IsBare, parse_sound}
use ttlock_ble.Frame.RoundTrip.{IsV3, IsLegacy, parse-build, parse-build_legacy}
use ttlock_ble.Outcome.{ok, raised, Exn, value_error}
use ttlock_ble.Reassembler.{new_reassembler, find_header, feed, feed_all}
use ttlock_ble.Reassembler.Bound.{feed-bounds}
use ttlock_ble.Reassembler.Delivery.{build_all, feed_all-delivers}
use ttlock_ble.Reassembler.Stream.{join, feed_all-join}
use ttlock_ble.Text.{codes}
use ttlock_ble.Transport.{
  BleTransport, Moment, notified, resumed, Turn, on_notify, send, await_reply, exchange,
}
use ttlock_ble.Transport.Answering.{wakes, IsReply, await_reply-finds}
use ttlock_ble.Transport.Exchange.{IsExchanged, exchange-answers}
use ttlock_ble.Transport.Routing.{Routed, await_reply-routes}
use ttlock_ble.Transport.Writing.{IsChunk, join_chunks, send-writes}

-- A query of the state, with two bytes of payload.
abbrev query_frame : Frame
query_frame = record {
  protocol_type = 5;
  sub_version = 3;
  scene = 2;
  group_id = 0x0102;
  sub_org = 1;
  command = 0x14;
  encrypt = 0xaa;
  payload = 7 ∷ 9 ∷ [];
}

abbrev query_wire : Bytes
query_wire = 127 ∷ 90 ∷ 5 ∷ 3 ∷ 2 ∷ 1 ∷ 2 ∷ 0 ∷ 1 ∷ 20 ∷ 170 ∷ 2 ∷ 7 ∷ 9 ∷ 152 ∷ 13 ∷ 10 ∷ []

query_frame-IsV3 : IsV3 query_frame
query_frame-IsV3 = record {
  modern = omega arith;
  protocol_type_fits = omega arith;
  sub_version_fits = omega arith;
  scene_fits = omega arith;
  group_id_fits = omega arith;
  sub_org_fits = omega arith;
  command_fits = omega arith;
  encrypt_fits = omega arith;
  payload_fits = omega arith;
}

query_built : build query_frame ≡ ok query_wire
unfolding build table_crc
query_built = refl

all_built : build_all (query_frame ∷ []) ≡ ok query_wire
unfolding build table_crc
all_built = refl

no_header : find_header (0 ∷ 0x7f ∷ []) ≡ none
unfolding find_header
no_header = refl

-- The frame, behind two stray bytes, in three notifications.
abbrev query_chunks : List Bytes
query_chunks =
    (0 ∷ 0x7f ∷ 127 ∷ [])
    ∷ (90 ∷ 5 ∷ 3 ∷ 2 ∷ 1 ∷ 2 ∷ 0 ∷ 1 ∷ 20 ∷ 170 ∷ 2 ∷ 7 ∷ [])
    ∷ (9 ∷ 152 ∷ 13 ∷ 10 ∷ [])
    ∷ []

chunks_joined : join query_chunks ≡ (0 ∷ 0x7f ∷ []) ++ query_wire
chunks_joined = refl

feed_all-delivers_example :
    feed_all new_reassembler query_chunks ≡ (query_frame ∷ [], new_reassembler)
feed_all-delivers_example =
    feed_all-delivers (0 ∷ 0x7f ∷ []) query_frame [] query_wire query_chunks no_header
      (query_frame-IsV3, tt) all_built chunks_joined

feed_all-join_example :
    feed_all new_reassembler query_chunks ≡ feed new_reassembler (join query_chunks)
feed_all-join_example = feed_all-join query_chunks

feed-bounds_example :
    All IsByte (feed new_reassembler (127 ∷ 90 ∷ 5 ∷ [])).1.buf
    × (length (feed new_reassembler (127 ∷ 90 ∷ 5 ∷ [])).1.buf < 270)
feed-bounds_example = feed-bounds new_reassembler (127 ∷ 90 ∷ 5 ∷ []) tt (omega arith)

parse-build_example :
    (wire : Bytes) × (build query_frame ≡ ok wire)
    × (length wire ≡ 15 + length query_frame.payload)
    × (parse (take (length wire - 2) wire) ≡ ok query_frame)
parse-build_example = parse-build query_frame query_frame-IsV3

-- A frame of the short header.
abbrev old_frame : Frame
old_frame = record query_frame { protocol_type = 3 }

wire_parsed : parse query_wire ≡ ok query_frame
unfolding parse
wire_parsed = refl

parse_sound_example :
    (IsV3 query_frame
      × (query_wire ≡ body query_frame ++ drop (12 + length query_frame.payload) query_wire))
    ⊎ (IsLegacy query_frame
        × IsBare query_frame
        × (query_wire ≡ body query_frame ++ drop (6 + length query_frame.payload) query_wire))
parse_sound_example = parse_sound query_wire query_frame (omega arith) wire_parsed

short_refused : parse (127 ∷ 90 ∷ []) ≡ raised value_error
unfolding parse
short_refused = refl

abbrev key : Bytes
key = 1 ∷ 2 ∷ 3 ∷ 4 ∷ 5 ∷ 6 ∷ 7 ∷ 8 ∷ 9 ∷ 10 ∷ 11 ∷ 12 ∷ 13 ∷ 14 ∷ 15 ∷ 16 ∷ []

abbrev plain : Bytes
plain = 7 ∷ 9 ∷ []

-- A link that waits for one reply, and a reply predicate that looks at the command byte.
abbrev link : BleTransport
link = record {
  linked = true;
  reassembler = new_reassembler;
  inbox = record query_frame { command = 0x47 } ∷ [];
  waiting_for_response = 1;
  written = [];
  sent = [];
  pushed = [];
}

abbrev same_command : Frame → ℕ → Bool
same_command f command = f.command == command

-- The frame of the inbox is pushed, the one that arrives is the reply.
abbrev moments : List Moment
moments = resumed ∷ notified query_wire ∷ resumed ∷ resumed ∷ []

await_reply-routes_example :
    Routed same_command 0x14 moments link (await_reply same_command 0x14 moments link)
await_reply-routes_example = await_reply-routes same_command 0x14 moments link (omega arith)

replied : (await_reply same_command 0x14 moments link).0 ≡ ok query_frame
unfolding await_reply feed_all on_notify equal parse
replied = refl

abbrev turn : Turn
turn = record {
  writes = record { heard = query_wire ∷ []; failure = none } ∷ [];
  moments = moments;
}

exchange-answers_example :
    IsExchanged same_command query_frame (exchange same_command link turn query_frame).0
    × ((exchange same_command link turn query_frame).1.waiting_for_response ≡ 1)
exchange-answers_example = exchange-answers same_command link turn query_frame

send-writes_example :
    ((send link (record { heard = query_wire ∷ []; failure = none } ∷ []) query_frame).0 ≡ ok tt)
    × ((chunks : List Bytes) × ((send link
            (record { heard = query_wire ∷ []; failure = none } ∷ [])
            query_frame).1.written
          ≡ [] ++ chunks)
        × (join_chunks chunks ≡ query_wire)
        × All IsChunk chunks)
send-writes_example =
    send-writes link (record { heard = query_wire ∷ []; failure = none } ∷ []) query_frame
      query_wire refl (refl, tt) query_built

abbrev noon : DateTime
noon = record { year = 2024; month = 2; day = 29; hour = 12; minute = 0; second = 59 }

noon_valid : is_valid noon ≡ true
unfolding is_valid days_in_month
noon_valid = refl

parse-payload_time_calibrate_example :
    (raw : Bytes) × (payload_time_calibrate noon ≡ ok raw)
    × (parse_get_lock_time_response (0x34 ∷ response_success ∷ (raw ++ [])) ≡ ok noon)
parse-payload_time_calibrate_example =
    parse-payload_time_calibrate noon 0x34 [] noon_valid (omega arith) (omega arith)

decode_cyclic_schedule-duration_example :
    (schedule : CyclicSchedule) × (decode_cyclic_schedule (0 ∷ 1 ∷ 1 ∷ 9 ∷ 30 ∷ 0 ∷ 55 ∷ [])
      ≡ ok schedule)
    × (schedule.start_hour ≡ 9)
    × (schedule.start_minute ≡ 30)
    × (schedule.day_or_preset ≡ (base_selector cyclic_base_selectors 55).1)
    × ((base_selector cyclic_base_selectors 55).0 + schedule.duration_hours ≡ 55 + 1)
    × (1 ≤ schedule.duration_hours)
    × ((schedule.duration_hours ≤ 24) ⊎ ((216 ≤ 55) × (55 < 232)))
decode_cyclic_schedule-duration_example =
    decode_cyclic_schedule-duration 0 1 1 9 30 0 55 [] (omega arith)

parsers-raise_example : ParsersRaise IsParseError (7 ∷ 1 ∷ 60 ∷ [])
parsers-raise_example = parsers-raise (7 ∷ 1 ∷ 60 ∷ [])

abbrev client : Client
client = record {
  cipher = toy_cipher;
  key = record {
    lock_version = record {
      protocol_type = 5;
      protocol_version = 3;
      scene = 2;
      group_id = 1;
      org_id = 1;
    };
    aes_key = key;
    unlock_key = codes "12345";
    lock_flag_pos = 0;
    admin_ps = codes "123456";
    uid = 77;
  };
  now_ms = 1700000000000;
}

abbrev session : Session
session = record { transport = link; turns = turn ∷ [] }

get_operation_log-Collected_example :
    (get_operation_log client (some 5) 0xffff session ≡ (ok [], session))
    ↔ Collected client (some 5) 0xffff [] session [] session
get_operation_log-Collected_example =
    get_operation_log-Collected client (some 5) 0xffff [] session session

-- The reply comes behind a frame of another command.
arrived :
    link.inbox ++ (feed_all link.reassembler (query_wire ∷ [])).0
    ≡ (record query_frame { command = 0x47 } ∷ []) ++ (query_frame ∷ [])
unfolding feed_all equal parse
arrived = refl

second-IsReply : IsReply same_command 0x14 (record query_frame { command = 0x47 } ∷ []) query_frame
unfolding IsReply
second-IsReply = ((refl, tt), refl)

two_wakes : 1 < wakes (resumed ∷ resumed ∷ [])
unfolding wakes
two_wakes = omega arith

await_reply-finds_example :
    (await_reply same_command 0x14
      (map notified (query_wire ∷ []) ++ (resumed ∷ resumed ∷ []))
      link).0
    ≡ ok query_frame
await_reply-finds_example =
    await_reply-finds same_command 0x14 (query_wire ∷ []) (resumed ∷ resumed ∷ []) link
      (record query_frame { command = 0x47 } ∷ []) [] query_frame (omega arith) arrived
      second-IsReply two_wakes
