-- ===== src/Grpc/Frames/Wire.antt =====
-- Frames on the wire: round trip, sizes and termination.
use morpheus_proxy.Prelude.{
  Bool-cases, inl, inr, sym, ltb, take-append-drop, ◌*◌, ◌==◌, ◌/◌, ◌%◌, ℕ, zero, suc, ◌+◌, ◌<◌,
  ◌≤◌, ◌^◌, ◌≡◌, refl, ◌≢◌, List, [], ◌∷◌, ◌++◌, length, take, drop, length-drop, length-append,
  take-append, drop-append, All, Result, ok, err, ◌>>=◌, arith, ap, ◌∙◌, lt→ltb, subst,
}
use morpheus_proxy.Grpc.Frames.{
  Buffer, GrpcFrame, FrameError, out_of_fuel, encode_grpc_frame, decode_loop, decode_grpc_frames,
  read_uint32_be, write_uint32_be, flag, push_frame,
}

push_frame-fuel :
    (first size : ℕ) (rest : Buffer) (more : Result FrameError (List GrpcFrame))
    → more ≢ err out_of_fuel
    → push_frame first size rest more ≢ err out_of_fuel
unfolding push_frame
push_frame-fuel first size rest more h = ground arith

push_frame-whole :
    (frame : GrpcFrame) (size : ℕ) (rest : Buffer) (frames : List GrpcFrame)
    → size ≡ length frame.message
    → push_frame (flag frame.compressed) size (frame.message ++ rest) (ok frames)
      ≡ ok (frame ∷ frames)
unfolding push_frame
push_frame-whole frame size rest frames e =
    ground (arith, length-append frame.message rest, take-append frame.message rest)

read-write :
    (n : ℕ)
    → n < 2 ^ 32
    → read_uint32_be (n / 2 ^ 24) (n / 2 ^ 16 % 256) (n / 2 ^ 8 % 256) (n % 256) ≡ n
read-write n h = omega arith

-- With as much fuel as there are bytes the loop ends by itself.
decode_loop-fuel :
    (fuel : ℕ) (body : Buffer) → length body ≤ fuel → decode_loop fuel body ≢ err out_of_fuel
unfolding decode_loop
decode_loop-fuel fuel [] h = ground arith
decode_loop-fuel zero (b ∷ body) h = absurd (omega arith)
decode_loop-fuel (suc fuel) (b ∷ []) h = ground arith
decode_loop-fuel (suc fuel) (b ∷ a ∷ []) h = ground arith
decode_loop-fuel (suc fuel) (b ∷ a ∷ c ∷ []) h = ground arith
decode_loop-fuel (suc fuel) (b ∷ a ∷ c ∷ d ∷ []) h = ground arith
decode_loop-fuel (suc fuel) (b ∷ a ∷ c ∷ d ∷ e ∷ rest) h =
    push_frame-fuel b (read_uint32_be a c d e) rest _ (
      decode_loop-fuel fuel (drop (read_uint32_be a c d e) rest)
        (omega (arith, length-drop (read_uint32_be a c d e) rest)))

-- The decoder ends on every input: it never stops for want of rounds.
pub decode_grpc_frames-terminates : (body : Buffer) → decode_grpc_frames body ≢ err out_of_fuel
unfolding decode_grpc_frames
decode_grpc_frames-terminates body = decode_loop-fuel (length body) body (omega arith)

-- The bytes of the frames, one after another.
unfoldable pub encode_all : List GrpcFrame → Result FrameError Buffer
encode_all [] = ok []
encode_all (frame ∷ frames) = do
  first ← encode_grpc_frame frame.message frame.compressed
  rest ← encode_all frames
  ok (first ++ rest)

abbrev wire : GrpcFrame → Buffer → Buffer
wire frame rest =
    flag frame.compressed ∷ write_uint32_be (length frame.message) ++ (frame.message ++ rest)

decode_loop-wire :
    (fuel : ℕ) (frame : GrpcFrame) (rest : Buffer) (frames : List GrpcFrame)
    → length frame.message < 2 ^ 32
    → decode_loop fuel rest ≡ ok frames
    → decode_loop (suc fuel) (wire frame rest) ≡ ok (frame ∷ frames)
unfolding decode_loop
decode_loop-wire fuel frame rest frames h e =
    let size = read-write (length frame.message) h in
    ap (push_frame (flag frame.compressed) _ (frame.message ++ rest)) (
      ap (λ n. decode_loop fuel (drop n (frame.message ++ rest))) size
      ∙ ap (decode_loop fuel) (drop-append frame.message rest)
      ∙ e)
    ∙ push_frame-whole frame _ rest frames size

-- Every message fits a frame.
abbrev Fits : List GrpcFrame → Type 0
Fits = All (λ frame. length frame.message < 2 ^ 32)

abbrev wires : List GrpcFrame → Buffer
wires [] = []
wires (frame ∷ frames) = wire frame (wires frames)

encode_all-wires : (frames : List GrpcFrame) → Fits frames → encode_all frames ≡ ok (wires frames)
unfolding encode_all encode_grpc_frame
encode_all-wires [] h = refl
encode_all-wires (frame ∷ frames) h = rw (lt→ltb _ _ h.0, encode_all-wires frames h.1)

decode_loop-wires :
    (fuel : ℕ) (frames : List GrpcFrame)
    → Fits frames
    → length frames ≤ fuel
    → decode_loop fuel (wires frames) ≡ ok frames
unfolding decode_loop
decode_loop-wires fuel [] h k = refl
decode_loop-wires zero (frame ∷ frames) h k = absurd (omega arith)
decode_loop-wires (suc fuel) (frame ∷ frames) h k =
    decode_loop-wire fuel frame (wires frames) frames h.0
      (decode_loop-wires fuel frames h.1 (omega arith))

length-wires : (frames : List GrpcFrame) → length frames ≤ length (wires frames)
length-wires [] = omega arith
length-wires (frame ∷ frames) =
    omega (arith, length-wires frames, length-append frame.message (wires frames))

-- Frames whose messages have fewer than 2 ^ 32 bytes are encoded, and their concatenation decodes
-- to the same frames: flags, messages and order.
pub decode_grpc_frames-encode_all :
    (frames : List GrpcFrame) → Fits frames → (encode_all frames >>= decode_grpc_frames) ≡ ok frames
unfolding decode_grpc_frames
decode_grpc_frames-encode_all frames h =
    rw (encode_all-wires frames h) (decode_loop-wires _ frames h (length-wires frames))

-- The bytes are those of the frames: a header of five bytes, the first of which is the flag and the
-- others the length, and the message, for each frame, and nothing else.
abbrev pub Spells : List GrpcFrame → Buffer → Type 0
Spells [] body = body ≡ []
Spells (frame ∷ frames) body =
    (b : ℕ) × (a : ℕ) × (c : ℕ) × (d : ℕ) × (e : ℕ) × (rest : Buffer) × (body
      ≡ b ∷ a ∷ c ∷ d ∷ e ∷ frame.message ++ rest)
    × (frame.compressed ≡ (b == 1))
    × (length frame.message ≡ a * 2 ^ 24 + c * 2 ^ 16 + d * 2 ^ 8 + e)
    × Spells frames rest

length-take_of_le : (n : ℕ) (xs : Buffer) → n ≤ length xs → length (take n xs) ≡ n
length-take_of_le zero xs h = refl
length-take_of_le (suc n) [] h = absurd (omega arith)
length-take_of_le (suc n) (x ∷ xs) h = ap suc (length-take_of_le n xs (omega arith))

push_frame-Spells :
    (b a c d e : ℕ) (rest : Buffer) (more : Result FrameError (List GrpcFrame))
    (frames : List GrpcFrame)
    → ((fs : List GrpcFrame) → more ≡ ok fs → Spells fs (drop (read_uint32_be a c d e) rest))
    → push_frame b (read_uint32_be a c d e) rest more ≡ ok frames
    → Spells frames (b ∷ a ∷ c ∷ d ∷ e ∷ rest)
unfolding push_frame
push_frame-Spells b a c d e rest (err x) frames h k = absurd (ground arith)
push_frame-Spells b a c d e rest (ok fs) frames h k =
    elim (Bool-cases (ltb (length rest) (read_uint32_be a c d e))) [
      | inl l ↦ absurd (ground (arith, l))
      | inr l ↦
          let size = read_uint32_be a c d e in
          let whole : ok (record { compressed = b == 1; message = take size rest } ∷ fs)
              ≡ ok frames =
            rw l at k in
          subst (λ r. elim r [ ok fs ↦ Spells fs (b ∷ a ∷ c ∷ d ∷ e ∷ rest) | err x ↦ Unit ]) whole
            (
              b,
              a,
              c,
              d,
              e,
              drop size rest,
              ap (λ t. b ∷ a ∷ c ∷ d ∷ e ∷ t) (sym (take-append-drop size rest)),
              refl,
              length-take_of_le size rest (ground (arith, l)),
              h fs refl,
            )
    ]

decode_loop-Spells :
    (fuel : ℕ) (body : Buffer) (frames : List GrpcFrame)
    → decode_loop fuel body ≡ ok frames
    → Spells frames body
unfolding decode_loop
decode_loop-Spells fuel [] [] h = refl
decode_loop-Spells fuel [] (f ∷ frames) h = absurd (ground arith)
decode_loop-Spells zero (b ∷ body) frames h = absurd (ground arith)
decode_loop-Spells (suc fuel) (b ∷ []) frames h = absurd (ground arith)
decode_loop-Spells (suc fuel) (b ∷ a ∷ []) frames h = absurd (ground arith)
decode_loop-Spells (suc fuel) (b ∷ a ∷ c ∷ []) frames h = absurd (ground arith)
decode_loop-Spells (suc fuel) (b ∷ a ∷ c ∷ d ∷ []) frames h = absurd (ground arith)
decode_loop-Spells (suc fuel) (b ∷ a ∷ c ∷ d ∷ e ∷ rest) frames h =
    push_frame-Spells b a c d e rest _ frames
      (λ fs k. decode_loop-Spells fuel (drop (read_uint32_be a c d e) rest) fs k) h

-- A body that decodes is accounted for to the last byte: it is the concatenation, over the frames in
-- their order, of five bytes and the frame's message, where the first byte is 1 exactly for a
-- compressed frame and the other four are the message's length; no byte is skipped or read twice.
pub decode_grpc_frames-Spells :
    (body : Buffer) (frames : List GrpcFrame)
    → decode_grpc_frames body ≡ ok frames
    → Spells frames body
unfolding decode_grpc_frames
decode_grpc_frames-Spells body frames h = decode_loop-Spells (length body) body frames h
