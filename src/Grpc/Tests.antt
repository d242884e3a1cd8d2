-- ===== src/Grpc/Tests.antt =====
-- The theorems about src/grpc at concrete inputs.
use morpheus_proxy.Prelude.{◌≡◌, refl, true, false, List, [], ◌∷◌, ok, err, ◌>>=◌, ◌≢◌, arith}
use morpheus_proxy.Grpc.Frames.{GrpcFrame, decode_grpc_frames, out_of_fuel, decode_loop, push_frame}
use morpheus_proxy.Grpc.Frames.Wire.{
  encode_all, Spells, decode_grpc_frames-encode_all, decode_grpc_frames-terminates,
  decode_grpc_frames-Spells,
}

abbrev two_frames : List GrpcFrame
two_frames =
    record { compressed = false; message = 10 ∷ 20 ∷ 30 ∷ [] }
    ∷ record { compressed = true; message = [] }
    ∷ []

decode_grpc_frames-encode_all_example :
    (encode_all two_frames >>= decode_grpc_frames) ≡ ok two_frames
decode_grpc_frames-encode_all_example =
    decode_grpc_frames-encode_all two_frames (omega arith, (omega arith, tt))

decode_grpc_frames-terminates_example : decode_grpc_frames (0 ∷ 0 ∷ 0 ∷ []) ≢ err out_of_fuel
decode_grpc_frames-terminates_example = decode_grpc_frames-terminates (0 ∷ 0 ∷ 0 ∷ [])

decode_grpc_frames-Spells_example :
    Spells (record { compressed = true; message = 9 ∷ [] } ∷ []) (1 ∷ 0 ∷ 0 ∷ 0 ∷ 1 ∷ 9 ∷ [])
unfolding decode_grpc_frames decode_loop push_frame
decode_grpc_frames-Spells_example =
    decode_grpc_frames-Spells (1 ∷ 0 ∷ 0 ∷ 0 ∷ 1 ∷ 9 ∷ [])
      (record { compressed = true; message = 9 ∷ [] } ∷ []) refl
