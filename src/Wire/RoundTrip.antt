-- ===== src/Wire/RoundTrip.antt =====
-- What is serialized is read back.
use omnidesk.Prelude.{
  ℕ, ◌+◌, ◌*◌, ◌/◌, ◌%◌, ◌^◌, ◌≡◌, refl, List, ◌++◌, some, Bool, true, false, arith, if◌then◌else◌,
  ◌==◌, not,
}
use omnidesk.Bytes.{
  write_u16, write_u32, read_u16, read_u32, join_u16, join_u32, IsByte, IsU16, IsU32,
}
use omnidesk.Wire.{
  ControlHeader, serialize_control, deserialize_control, InputEvent, serialize_input,
  deserialize_input, OmniFrameHeader, serialize_frame, deserialize_frame, is_key_frame,
  has_shared_freq_table, set_key_frame, set_shared_freq_table,
}

pub record FitsControl (h : ControlHeader) : Type 0 where
  pub magic : IsU32 h.magic
  pub version : IsU16 h.version
  pub type : IsU16 h.type
  pub length : IsU32 h.length

-- A control header is read back from the first twelve bytes of a buffer.
pub deserialize_control-serialize :
    (h : ControlHeader) (rest : List ℕ)
    → FitsControl h
    → deserialize_control (serialize_control h ++ rest) ≡ some h
unfolding serialize_control deserialize_control read_u16 read_u32 write_u16 write_u32
deserialize_control-serialize h rest f =
    rw
      (
        join_u32 h.magic f.magic,
        join_u16 h.version f.version,
        join_u16 h.type f.type,
        join_u32 h.length f.length,
      )
      refl

pub record FitsInput (e : InputEvent) : Type 0 where
  pub type : IsByte e.type
  pub x : IsU32 e.x
  pub y : IsU32 e.y
  pub button : IsByte e.button
  pub scancode : IsU32 e.scancode

pressed_bit : (b : Bool) → not ((if b then 1 else 0) == 0) ≡ b
pressed_bit true = refl
pressed_bit false = refl

-- An input event is read back from the first sixteen bytes of a buffer.
pub deserialize_input-serialize :
    (e : InputEvent) (rest : List ℕ)
    → FitsInput e
    → deserialize_input (serialize_input e ++ rest) ≡ some e
unfolding serialize_input deserialize_input read_u32 write_u32
deserialize_input-serialize e rest f =
    rw (pressed_bit e.pressed, join_u32 e.x f.x, join_u32 e.y f.y, join_u32 e.scancode f.scancode)
      refl

pub record FitsFrame (h : OmniFrameHeader) : Type 0 where
  pub magic : IsU32 h.magic
  pub frame_id : IsU32 h.frame_id
  pub width : IsU16 h.width
  pub height : IsU16 h.height
  pub flags : IsByte h.flags
  pub tile_size : IsByte h.tile_size
  pub tiles_x : IsU16 h.tiles_x
  pub tiles_y : IsU16 h.tiles_y

unpack_x : (x y : ℕ) → (x * 2 ^ 8 + y % 2 ^ 8) % 2 ^ 16 / 2 ^ 8 % 2 ^ 8 ≡ x % 2 ^ 8
unpack_x x y = omega arith

unpack_y : (x y : ℕ) → (x * 2 ^ 8 + y % 2 ^ 8) % 2 ^ 16 % 2 ^ 8 ≡ y % 2 ^ 8
unpack_y x y = omega arith

-- A frame header is read back with its tile counts modulo 256, all else as it was.
pub deserialize_frame-serialize :
    (h : OmniFrameHeader) (rest : List ℕ)
    → FitsFrame h
    → deserialize_frame (serialize_frame h ++ rest)
      ≡ some (record h { tiles_x = h.tiles_x % 256; tiles_y = h.tiles_y % 256 })
unfolding serialize_frame deserialize_frame read_u16 read_u32 write_u16 write_u32
deserialize_frame-serialize h rest f =
    rw
      (
        join_u32 h.magic f.magic,
        join_u32 h.frame_id f.frame_id,
        join_u16 h.width f.width,
        join_u16 h.height f.height,
        join_u16 ((h.tiles_x * 2 ^ 8 + h.tiles_y % 2 ^ 8) % 2 ^ 16) (omega arith),
        unpack_x h.tiles_x h.tiles_y,
        unpack_y h.tiles_x h.tiles_y,
      )
      refl

-- Each flag is read as it was set, setting it leaves the other, and the flags stay a byte.
pub set_flags_lem :
    (v : Bool) (h : OmniFrameHeader)
    → IsByte h.flags
    → (is_key_frame (set_key_frame v h) ≡ v)
      × (has_shared_freq_table (set_shared_freq_table v h) ≡ v)
      × (has_shared_freq_table (set_key_frame v h) ≡ has_shared_freq_table h)
      × (is_key_frame (set_shared_freq_table v h) ≡ is_key_frame h)
      × IsByte (set_key_frame v h).flags
      × IsByte (set_shared_freq_table v h).flags
unfolding is_key_frame has_shared_freq_table set_key_frame set_shared_freq_table
set_flags_lem v h f = ground arith
