-- ===== src/TcpChannel/Examples.antt =====
-- Two messages in pieces that do not respect their bounds.
use omnidesk.Prelude.{ℕ, ◌≡◌, refl, List, [], ◌∷◌, ◌++◌, some, arith}
use omnidesk.Wire.{deserialize_control, valid}
use omnidesk.TcpChannel.{
  RawRecv, bytes, again, TcpChannel, accepted, ok, frame, extract, recv, received,
}
use omnidesk.TcpChannel.Stream.{extract-frame, extract-Extracted, Extracted}
use omnidesk.TcpChannel.Messages.{recv_all, frames, recv_all-frames}

abbrev start : List ℕ
start = 79 ∷ 77 ∷ 78 ∷ 68 ∷ 0 ∷ 1 ∷ []

abbrev middle : List ℕ
middle = 0 ∷ 12 ∷ 0 ∷ 0 ∷ 0 ∷ 2 ∷ 7 ∷ 8 ∷ 79 ∷ []

abbrev pieces : List (ℕ → RawRecv)
pieces = (λ n. bytes start) ∷ (λ n. again) ∷ (λ n. bytes middle) ∷ []

abbrev left_over : TcpChannel
left_over = record accepted { buf = 79 ∷ [] }

pieces_received :
    recv_all pieces accepted ≡ some ((12, 7 ∷ 8 ∷ []) ∷ [], start ++ middle, left_over)
unfolding recv_all recv received extract deserialize_control valid
pieces_received = refl

recv_all-frames_example : frames ((12, 7 ∷ 8 ∷ []) ∷ []) ++ (79 ∷ []) ≡ start ++ middle
recv_all-frames_example =
    recv_all-frames pieces accepted left_over ((12, 7 ∷ 8 ∷ []) ∷ []) (start ++ middle)
      ((λ n. omega arith), ((λ n. tt), ((λ n. omega arith), tt))) tt pieces_received

extract-frame_example :
    extract (record accepted { buf = frame 12 (7 ∷ 8 ∷ []) ++ (79 ∷ []) })
    ≡ (ok 12 (7 ∷ 8 ∷ []), left_over)
extract-frame_example =
    extract-frame (record accepted { buf = frame 12 (7 ∷ 8 ∷ []) ++ (79 ∷ []) }) 12 (7 ∷ 8 ∷ [])
      (79 ∷ []) (omega arith) (omega arith) refl

extract-Extracted_example :
    Extracted
      (start ++ middle)
      (record accepted { buf = start ++ middle })
      (extract (record accepted { buf = start ++ middle }))
extract-Extracted_example =
    extract-Extracted (record accepted { buf = start ++ middle }) (omega arith)
