-- ===== src/TcpChannel.antt =====
-- Messages over a byte stream: src/signaling/tcp_channel.h and src/signaling/tcp_channel.cpp, send
-- and recv. The socket is a parameter: what ::recv gives when it is asked for at most `n` bytes.
pub mod Header
pub mod Stream
pub mod Messages
mod Examples
use omnidesk.Prelude.{
  ℕ, ◌+◌, ◌-◌, ◌≤◌, List, [], ◌∷◌, ◌++◌, Option, none, some, Bool, true, false, ltb, not,
  if◌then◌else◌, length, take, drop,
}
use omnidesk.Wire.{
  ControlHeader, protocol_magic, protocol_version, serialize_control, deserialize_control, valid,
}

pub data RawRecv : Type 0 where
  bytes : List ℕ → RawRecv
  again failed closed : RawRecv

pub data RecvResult : Type 0 where
  ok : ℕ → List ℕ → RecvResult
  would_block disconnected sock_error : RecvResult

-- `buf` is the first recvPos_ bytes of recvBuf_, and `capacity` the size of recvBuf_.
pub record TcpChannel : Type 0 where
  pub is_open : Bool
  pub buf : List ℕ
  pub capacity : ℕ

-- A new connection's buffer.
abbrev pub accepted : TcpChannel
accepted = record { is_open = true; buf = []; capacity = 65536 }

-- What a whole message is on the stream.
unfoldable pub frame : ℕ → List ℕ → List ℕ
frame type payload =
    serialize_control (record {
      magic = protocol_magic;
      version = protocol_version;
      type = type;
      length = length payload;
    })
    ++ payload

-- The part of recv after the read: a message, once the buffer holds it all. The header can be read
-- from twelve bytes, so `none` does not happen.
unfoldable pub extract : TcpChannel → RecvResult × TcpChannel
extract ch =
    if ltb (length ch.buf) 12 then (would_block, ch) else elim (deserialize_control ch.buf) [
      | none ↦ (sock_error, ch)
      | some hdr ↦
          if not (valid hdr)
          then (sock_error, ch)
          else if ltb (length ch.buf) (12 + hdr.length)
          then (
            would_block,
            record ch {
              capacity = if ltb ch.capacity (12 + hdr.length) then 12 + hdr.length else ch.capacity;
            },
          )
          else (
            ok hdr.type (take hdr.length (drop 12 ch.buf)),
            record ch { buf = drop hdr.length (drop 12 ch.buf) },
          )
    ]

unfoldable pub received : RawRecv → TcpChannel → RecvResult × TcpChannel
received (bytes c) ch = extract (record ch { buf = ch.buf ++ c })
received again ch = extract ch
received failed ch = (sock_error, ch)
received closed ch = (disconnected, ch)

unfoldable pub recv : (ℕ → RawRecv) → TcpChannel → RecvResult × TcpChannel
recv raw ch =
    if not ch.is_open
    then (sock_error, ch)
    else if ltb (length ch.buf) ch.capacity
    then received (raw (ch.capacity - length ch.buf)) ch
    else extract ch

unfoldable pub close : TcpChannel → TcpChannel
close ch = record ch { is_open = false; buf = [] }
