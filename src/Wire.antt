-- ===== src/Wire.antt =====
-- The headers that travel: ControlHeader of src/signaling/wire_format.h, InputEvent of
-- src/core/types.h and OmniFrameHeader of src/codec/omni/omni_types.h. A buffer is the list of its
-- bytes; deserialize on a shorter one is `none`.
pub mod RoundTrip
mod Examples
use omnidesk.Prelude.{
  ℕ, zero, suc, ◌+◌, ◌*◌, ◌/◌, ◌%◌, ◌^◌, List, [], ◌∷◌, ◌++◌, Option, none, some, Bool, true, false,
  ◌==◌, ◌&&◌, not, if◌then◌else◌, get_elem?,
}
use omnidesk.Bytes.{write_u16, write_u32, read_u16, read_u32, ◌>>=◌}

abbrev pub protocol_magic : ℕ
protocol_magic = 1330466372

abbrev pub protocol_version : ℕ
protocol_version = 1

pub record ControlHeader : Type 0 where
  pub magic : ℕ
  pub version : ℕ
  pub type : ℕ
  pub length : ℕ

unfoldable pub serialize_control : ControlHeader → List ℕ
unfolding write_u16 write_u32
serialize_control h =
    write_u32 h.magic ++ write_u16 h.version ++ write_u16 h.type ++ write_u32 h.length

unfoldable pub deserialize_control : List ℕ → Option ControlHeader
unfolding read_u16 read_u32
deserialize_control buf = do
  magic ← read_u32 buf 0
  version ← read_u16 buf 4
  type ← read_u16 buf 6
  length ← read_u32 buf 8
  some (record { magic = magic; version = version; type = type; length = length })

unfoldable pub valid : ControlHeader → Bool
valid h = h.magic == protocol_magic && h.version == protocol_version

-- A coordinate is kept as the 32 bits of its int32_t.
pub record InputEvent : Type 0 where
  pub type : ℕ
  pub x : ℕ
  pub y : ℕ
  pub button : ℕ
  pub scancode : ℕ
  pub pressed : Bool

unfoldable pub serialize_input : InputEvent → List ℕ
unfolding write_u32
serialize_input e =
    (e.type ∷ (if e.pressed then 1 else 0) ∷ e.button ∷ 0 ∷ [])
    ++ write_u32 e.x
    ++ write_u32 e.y
    ++ write_u32 e.scancode

unfoldable pub deserialize_input : List ℕ → Option InputEvent
unfolding read_u32
deserialize_input buf = do
  type ← get_elem? buf 0
  pressed ← get_elem? buf 1
  button ← get_elem? buf 2
  x ← read_u32 buf 4
  y ← read_u32 buf 8
  scancode ← read_u32 buf 12
  some (record {
    type = type;
    x = x;
    y = y;
    button = button;
    scancode = scancode;
    pressed = not (pressed == 0);
  })

abbrev pub omni_magic : ℕ
omni_magic = 1329811268

pub record OmniFrameHeader : Type 0 where
  pub magic : ℕ
  pub frame_id : ℕ
  pub width : ℕ
  pub height : ℕ
  pub flags : ℕ
  pub tile_size : ℕ
  pub tiles_x : ℕ
  pub tiles_y : ℕ

-- flags & 0x01 and flags & 0x08
unfoldable pub is_key_frame : OmniFrameHeader → Bool
is_key_frame h = h.flags % 2 == 1

unfoldable pub has_shared_freq_table : OmniFrameHeader → Bool
has_shared_freq_table h = h.flags / 8 % 2 == 1

-- flags |= 0x01 and flags &= ~0x01
unfoldable pub set_key_frame : Bool → OmniFrameHeader → OmniFrameHeader
set_key_frame v h = record h { flags = h.flags / 2 * 2 + (if v then 1 else 0) }

-- flags |= 0x08 and flags &= ~0x08
unfoldable pub set_shared_freq_table : Bool → OmniFrameHeader → OmniFrameHeader
set_shared_freq_table v h = record h {
  flags = h.flags / 16 * 16 + h.flags % 8 + (if v then 8 else 0);
}

-- The tile counts share sixteen bits: (tilesX << 8) | (tilesY & 0xFF), cast to uint16_t.
unfoldable pub serialize_frame : OmniFrameHeader → List ℕ
unfolding write_u16 write_u32
serialize_frame h =
    write_u32 h.magic
    ++ write_u32 h.frame_id
    ++ write_u16 h.width
    ++ write_u16 h.height
    ++ (h.flags ∷ h.tile_size ∷ [])
    ++ write_u16 ((h.tiles_x * 2 ^ 8 + h.tiles_y % 2 ^ 8) % 2 ^ 16)

unfoldable pub deserialize_frame : List ℕ → Option OmniFrameHeader
unfolding read_u16 read_u32
deserialize_frame buf = do
  magic ← read_u32 buf 0
  frame_id ← read_u32 buf 4
  width ← read_u16 buf 8
  height ← read_u16 buf 10
  flags ← get_elem? buf 12
  tile_size ← get_elem? buf 13
  packed ← read_u16 buf 14
  some (record {
    magic = magic;
    frame_id = frame_id;
    width = width;
    height = height;
    flags = flags;
    tile_size = tile_size;
    tiles_x = packed / 2 ^ 8 % 2 ^ 8;
    tiles_y = packed % 2 ^ 8;
  })
