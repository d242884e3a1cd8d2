-- ===== src/Grpc/Frames.antt =====
-- src/grpc/frames.ts. A buffer is the list of its bytes; the decoder's offset is the list of the
-- bytes from there on.
pub mod Wire
use morpheus_proxy.Prelude.{
  ℕ, zero, suc, ◌+◌, ◌*◌, ◌/◌, ◌%◌, ◌^◌, Bool, true, false, List, [], ◌∷◌, ◌++◌, length, take, drop,
  ltb, ◌==◌, if◌then◌else◌, Result, ok, err, ◌>>=◌,
}

abbrev pub Buffer : Type 0
Buffer = List ℕ

pub record GrpcFrame : Type 0 where
  pub compressed : Bool
  pub message : Buffer

-- The errors of the decoder, and of `writeUInt32BE`; `out_of_fuel` is the model's own.
pub data FrameError : Type 0 where
  truncated_header truncated_payload out_of_range out_of_fuel : FrameError

abbrev pub write_uint32_be : ℕ → Buffer
write_uint32_be n = (n / 2 ^ 24) ∷ (n / 2 ^ 16 % 256) ∷ (n / 2 ^ 8 % 256) ∷ (n % 256) ∷ []

abbrev pub read_uint32_be : ℕ → ℕ → ℕ → ℕ → ℕ
read_uint32_be a b c d = a * 2 ^ 24 + b * 2 ^ 16 + c * 2 ^ 8 + d

abbrev pub flag : Bool → ℕ
flag true = 1
flag false = 0

unfoldable pub encode_grpc_frame : Buffer → Bool → Result FrameError Buffer
encode_grpc_frame message compressed =
    if ltb (length message) (2 ^ 32)
    then ok (flag compressed ∷ write_uint32_be (length message) ++ message)
    else err out_of_range

-- The end of a round, from the bytes behind the header and the frames that follow.
unfoldable pub push_frame :
    (first size : ℕ)
    → Buffer
    → Result FrameError (List GrpcFrame)
    → Result FrameError (List GrpcFrame)
push_frame first size rest more = if ltb (length rest) size then err truncated_payload else (do
  frames ← more
  ok (record { compressed = first == 1; message = take size rest } ∷ frames))

-- The loop, which ends when no byte is left; each round takes five bytes at least.
unfoldable pub decode_loop : ℕ → Buffer → Result FrameError (List GrpcFrame)
unfolding push_frame
decode_loop fuel [] = ok []
decode_loop zero (b ∷ body) = err out_of_fuel
decode_loop (suc fuel) (b ∷ a ∷ c ∷ d ∷ e ∷ rest) =
    push_frame b (read_uint32_be a c d e) rest
      (decode_loop fuel (drop (read_uint32_be a c d e) rest))
decode_loop (suc fuel) (b ∷ body) = err truncated_header

unfoldable pub decode_grpc_frames : Buffer → Result FrameError (List GrpcFrame)
unfolding decode_loop
decode_grpc_frames body = decode_loop (length body) body
