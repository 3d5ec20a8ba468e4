-- ===== src/Wire/Examples.antt =====
-- Headers of a running session.
use omnidesk.Prelude.{◌%◌, ◌≡◌, [], ◌∷◌, ◌++◌, some, true, arith}
use omnidesk.Bytes.{IsByte}
use omnidesk.Wire.{
  ControlHeader, protocol_magic, protocol_version, serialize_control, deserialize_control,
  InputEvent, serialize_input, deserialize_input, OmniFrameHeader, omni_magic, serialize_frame,
  deserialize_frame, is_key_frame, has_shared_freq_table, set_key_frame, set_shared_freq_table,
}
use omnidesk.Wire.RoundTrip.{
  deserialize_control-serialize, deserialize_input-serialize, deserialize_frame-serialize,
  set_flags_lem,
}

abbrev hello : ControlHeader
hello = record { magic = protocol_magic; version = protocol_version; type = 1; length = 40 }

deserialize_control-serialize_example :
    deserialize_control (serialize_control hello ++ (7 ∷ [])) ≡ some hello
deserialize_control-serialize_example = deserialize_control-serialize hello (7 ∷ []) (record {
  magic = omega arith;
  version = omega arith;
  type = omega arith;
  length = omega arith;
})

-- A click at (-1, 300).
abbrev click : InputEvent
click = record { type = 1; x = 4294967295; y = 300; button = 2; scancode = 0; pressed = true }

deserialize_input-serialize_example : deserialize_input (serialize_input click ++ []) ≡ some click
deserialize_input-serialize_example = deserialize_input-serialize click [] (record {
  type = omega arith;
  x = omega arith;
  y = omega arith;
  button = omega arith;
  scancode = omega arith;
})

-- A frame of 256 tiles across: 16384 pixels in tiles of 64.
abbrev wide : OmniFrameHeader
wide = record {
  magic = omni_magic;
  frame_id = 5;
  width = 16384;
  height = 1080;
  flags = 9;
  tile_size = 64;
  tiles_x = 256;
  tiles_y = 17;
}

deserialize_frame-serialize_example :
    deserialize_frame (serialize_frame wide ++ [])
    ≡ some (record wide { tiles_x = 256 % 256; tiles_y = 17 % 256 })
deserialize_frame-serialize_example = deserialize_frame-serialize wide [] (record {
  magic = omega arith;
  frame_id = omega arith;
  width = omega arith;
  height = omega arith;
  flags = omega arith;
  tile_size = omega arith;
  tiles_x = omega arith;
  tiles_y = omega arith;
})

set_flags_lem_example :
    (is_key_frame (set_key_frame true wide) ≡ true)
    × (has_shared_freq_table (set_shared_freq_table true wide) ≡ true)
    × (has_shared_freq_table (set_key_frame true wide) ≡ has_shared_freq_table wide)
    × (is_key_frame (set_shared_freq_table true wide) ≡ is_key_frame wide)
    × IsByte (set_key_frame true wide).flags
    × IsByte (set_shared_freq_table true wide).flags
set_flags_lem_example = set_flags_lem true wide (omega arith)
