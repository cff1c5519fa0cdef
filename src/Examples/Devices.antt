-- ===== src/Examples/Devices.antt =====
-- The tracker's protocol, the ingest server and the alerts at concrete inputs.
use express_monorepo_bank_te.Base.{
  ◌+◌, ℕ, true, false, ◌≡◌, refl, Option, none, some, List, [], ◌∷◌, ◌++◌, arith, ◌⊎◌, drop,
}
use express_monorepo_bank_te.Base.Int.{pos, negsuc}
use express_monorepo_bank_te.Teltonika.Bytes.{write_uint}
use express_monorepo_bank_te.Teltonika.Crc.{crc16ibm}
use express_monorepo_bank_te.Teltonika.Cursor.{ok}
use express_monorepo_bank_te.Teltonika.Avl.{codec8e, packet, corrupt, one, two, parse_avl_packet}
use express_monorepo_bank_te.Teltonika.Testing.{
  EncodableRecord, encode_avl_frame, encode_data, frame_data,
}
use express_monorepo_bank_te.Teltonika.RoundTrip.Records.{decoded}
use express_monorepo_bank_te.Teltonika.RoundTrip.Frames.{parse-encode, parse-encode_corrupt}
use express_monorepo_bank_te.Teltonika.Imei.{
  ok as imei_ok, is_valid_imei, try_parse_imei_frame, encode_imei_frame, parse-encode_imei,
}
use express_monorepo_bank_te.Teltonika.Framer.{Framer, new_framer, push, is_failed}
use express_monorepo_bank_te.Teltonika.Framer.Bounds.{IsDrained, push-IsDrained}
use express_monorepo_bank_te.Teltonika.Framer.Chunks.{push-push}
use express_monorepo_bank_te.Telemetry.Ingest.{Connection, connect, handle_chunk}
use express_monorepo_bank_te.Telemetry.Ingest.Handshake.{
  IsOrderly, handle_chunks, handle_chunks-IsOrderly,
}
use express_monorepo_bank_te.Telemetry.Ingest.Acks.{IsDurable, nothing, handle_chunk-IsDurable}
use express_monorepo_bank_te.Telemetry.Events.{TelemetryPayload, can_pct}
use express_monorepo_bank_te.Telemetry.Engine.{VehicleState, transitions_for, transitions_again}
use express_monorepo_bank_te.Telemetry.Writers.{
  FuelRow, write_locations, write_fuel, insert_checked, insert_rows, location_rows, fuel_rows,
  write-write,
}
use express_monorepo_bank_te.Alerting.{AlertState, speeding, inserted}

-- A record south of the equator, with elements of two widths and one of variable length.
abbrev sample : EncodableRecord
sample = record {
  timestamp_ms = 1700000000000;
  priority = some 1;
  gps = some (record {
    latitude = negsuc 9;
    longitude = pos 250;
    altitude_m = pos 100;
    angle_deg = 90;
    satellites = 7;
    speed_kph = 60;
  });
  event_io_id = some 239;
  io = some (
      record { id = 239; value = 1; width = one }
      ∷ record { id = 66; value = 12500; width = two }
      ∷ []);
  io_variable = some (record { id = 385; value = 1 ∷ 2 ∷ [] } ∷ []);
}

abbrev sample_data : List ℕ
sample_data =
    142 ∷ 1 ∷ 0 ∷ 0 ∷ 1 ∷ 139 ∷ 207 ∷ 229 ∷ 104 ∷ 0 ∷ 1 ∷ 0 ∷ 0 ∷ 0 ∷ 250 ∷ 255 ∷ 255 ∷ 255 ∷ 246
    ∷ 0 ∷ 100 ∷ 0 ∷ 90 ∷ 7 ∷ 0 ∷ 60 ∷ 0 ∷ 239 ∷ 0 ∷ 3 ∷ 0 ∷ 1 ∷ 0 ∷ 239 ∷ 1 ∷ 0 ∷ 1 ∷ 0 ∷ 66 ∷ 48
    ∷ 212 ∷ 0 ∷ 0 ∷ 0 ∷ 0 ∷ 0 ∷ 1 ∷ 1 ∷ 129 ∷ 0 ∷ 2 ∷ 1 ∷ 2 ∷ 1 ∷ []

abbrev sample_frame : List ℕ
sample_frame = 0 ∷ 0 ∷ 0 ∷ 0 ∷ 0 ∷ 0 ∷ 0 ∷ 54 ∷ (sample_data ++ 0 ∷ 0 ∷ 102 ∷ 54 ∷ [])

parse-encode_example :
    parse_avl_packet sample_frame ≡ ok (packet codec8e (decoded true sample ∷ []))
unfolding encode_avl_frame encode_data frame_data write_uint crc16ibm
parse-encode_example =
    parse-encode codec8e (sample ∷ []) sample_frame (omega arith) (omega arith, tt) refl

abbrev corrupt_frame : List ℕ
corrupt_frame = 0 ∷ 0 ∷ 0 ∷ 0 ∷ 0 ∷ 0 ∷ 0 ∷ 54 ∷ (sample_data ++ 0 ∷ 0 ∷ 0 ∷ 0 ∷ [])

parse-encode_corrupt_example : parse_avl_packet corrupt_frame ≡ ok (corrupt 0 26166)
unfolding encode_avl_frame encode_data frame_data write_uint crc16ibm
parse-encode_corrupt_example =
    parse-encode_corrupt codec8e (sample ∷ []) sample_data corrupt_frame 0 (omega arith) refl refl

abbrev digits : List ℕ
digits = 51 ∷ 53 ∷ 54 ∷ 51 ∷ 48 ∷ 55 ∷ 48 ∷ 52 ∷ 50 ∷ 52 ∷ 52 ∷ 49 ∷ 48 ∷ 49 ∷ 51 ∷ []

abbrev announcement : List ℕ
announcement = 0 ∷ 15 ∷ digits

parse-encode_imei_example : try_parse_imei_frame (announcement ++ 9 ∷ []) ≡ imei_ok digits 17
unfolding encode_imei_frame is_valid_imei write_uint
parse-encode_imei_example = parse-encode_imei digits (9 ∷ []) announcement refl refl

abbrev framer : Framer
framer = new_framer 1024

push-push_example : push framer ((0 ∷ 15 ∷ []) ++ digits) ≡ (
  (push (push framer (0 ∷ 15 ∷ [])).0 digits).0,
  (push framer (0 ∷ 15 ∷ [])).1 ++ (push (push framer (0 ∷ 15 ∷ [])).0 digits).1,
)
push-push_example = push-push framer (0 ∷ 15 ∷ []) digits

handle_chunk-IsDurable_example : IsDurable (
    Connection.effects
      (handle_chunk (λ events. true) (λ i. 9 + i) (announcement ++ sample_frame) connect))
handle_chunk-IsDurable_example =
    handle_chunk-IsDurable (λ events. true) (λ i. 9 + i) (announcement ++ sample_frame) connect
      nothing

abbrev held_before : List AlertState
held_before = inserted 1 speeding 100 ∷ []

abbrev moving : TelemetryPayload
moving = record {
  imei = digits;
  recorded_at = 5;
  received_at = 6;
  priority = 0;
  event_io_id = 0;
  gps = none;
  ignition = some true;
  movement = some false;
  fuel = record { source = can_pct; pct = some 40; liters = none } ∷ [];
  external_voltage_mv = none;
  battery_voltage_mv = none;
  odometer_m = none;
  raw_io = [];
  raw_io_variable = [];
}

abbrev parked : VehicleState
parked = record { ignition = some false; movement = some false }

transitions_again_example :
    (transitions_for moving (transitions_for moving parked true).1 true).0 ≡ []
transitions_again_example = transitions_again moving parked (ground arith) (ground arith)

abbrev first_vehicle : List ℕ → Option ℕ
first_vehicle imei = some 1

abbrev level : FuelRow
level = record {
  vehicle_id = 1;
  recorded_at = 5;
  received_at = 6;
  source = can_pct;
  level_pct = some 40;
  level_liters = none;
}

write-write_example :
    (write_locations first_vehicle (moving ∷ []) [] ≡ some [])
    × (write_fuel first_vehicle (moving ∷ []) (level ∷ []) ≡ some (level ∷ []))
unfolding write_locations write_fuel insert_checked insert_rows location_rows fuel_rows
write-write_example = write-write first_vehicle (moving ∷ []) [] [] [] (level ∷ []) refl refl

push-IsDrained_example :
    let (f', _) = push (new_framer 1048576) (0 ∷ 15 ∷ []) in
    (is_failed f'.state ≡ true) ⊎ IsDrained 1048576 f'.state f'.buffer
push-IsDrained_example = push-IsDrained (new_framer 1048576) (0 ∷ 15 ∷ []) (omega arith) refl

handle_chunks-IsOrderly_example : IsOrderly (
    Connection.effects (
      handle_chunks
        (λ events. true)
        (((λ i. 1 + i), 0 ∷ []) ∷ ((λ i. 2 + i), 15 ∷ drop 2 announcement ++ sample_frame) ∷ [])
        connect))
handle_chunks-IsOrderly_example =
    handle_chunks-IsOrderly (λ events. true)
      (((λ i. 1 + i), 0 ∷ []) ∷ ((λ i. 2 + i), 15 ∷ drop 2 announcement ++ sample_frame) ∷ [])
