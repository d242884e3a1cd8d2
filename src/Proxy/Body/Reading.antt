-- ===== src/Proxy/Body/Reading.antt =====
-- Reading a stream up to a limit: what arrives is what the caller gets.
use morpheus_proxy.Prelude.{
  ◌⊎◌, ℕ, ◌≤◌, ◌<◌, ◌≡◌, Bool, true, false, Option, none, some, List, [], ◌∷◌, ◌++◌, length,
}
use morpheus_proxy.Grpc.Frames.{Buffer}
use morpheus_proxy.Proxy.Body.{
  StreamEvent, chunk, end, error, aborted, close, timed, Settled, complete, prefix, failed,
  stream_aborted, stream_closed, Reader, on_event, limit_exceeded,
}

-- The bytes of the events.
unfoldable pub arrived : List StreamEvent → Buffer
arrived [] = []
arrived (chunk bytes ∷ events) = bytes ++ arrived events
arrived (end ∷ events) = arrived events
arrived (aborted ∷ events) = arrived events
arrived (close ∷ events) = arrived events
arrived (timed ∷ events) = arrived events
arrived (error e ∷ events) = arrived events

-- What completes a body: the end on HTTP/1, and the timer that the end sets on HTTP/2.
abbrev pub Completes : Bool → StreamEvent → Type 0
Completes false event = event ≡ end
Completes true event = event ≡ timed

-- What a result says of the event that settled it and of the bytes that had arrived before.
abbrev pub Reports : Bool → ℕ → Buffer → StreamEvent → Settled → Type 0
Reports http2 limit bytes event (complete body) =
    Completes http2 event × (body ≡ bytes) × (length bytes ≤ limit)
Reports http2 limit bytes event (prefix body) =
    (more : Buffer) × (event ≡ chunk more)
    × (body ≡ bytes ++ more)
    × (length bytes ≤ limit)
    × (limit < length body)
Reports http2 limit bytes event (failed e) = (event ≡ error e) × (length bytes ≤ limit)
Reports http2 limit bytes event stream_aborted = (event ≡ aborted) × (length bytes ≤ limit)
Reports http2 limit bytes event stream_closed = (event ≡ close) × (length bytes ≤ limit)
Reports http2 limit bytes event limit_exceeded = ⊥

-- No result, and all bytes of the stream are within the limit; or a result, with the events that came
-- before the one that settled it and those that came after.
abbrev pub Read : Bool → ℕ → List StreamEvent → Option Settled → Type 0
Read http2 limit events none = length (arrived events) ≤ limit
Read http2 limit events (some result) =
    (before : List StreamEvent) × (event : StreamEvent) × (after : List StreamEvent) × (events
      ≡ before ++ event ∷ after)
    × Reports http2 limit (arrived before) event result

-- A reader that listens: it has the bytes that have arrived, its timer runs only on HTTP/2.
abbrev Listens : Bool → ℕ → List StreamEvent → Reader → Type 0
Listens http2 limit before reader =
    (reader.chunks ≡ arrived before)
    × (reader.total ≡ length reader.chunks)
    × (length reader.chunks ≤ limit)
    × ((reader.timer ≡ false) ⊎ (http2 ≡ true))

abbrev Next : Bool → ℕ → List StreamEvent → StreamEvent → Reader → Option Settled → Type 0
Next http2 limit before event reader none = Listens http2 limit (before ++ event ∷ []) reader
Next http2 limit before event reader (some result) =
    Reports http2 limit (arrived before) event result

module _ (limit : ℕ) (before : List StreamEvent) (chunks : Buffer) (total : ℕ)
    (held : chunks ≡ arrived before) (counted : total ≡ length chunks)
    (within : length chunks ≤ limit) where
  abbrev listener : Bool → Bool → Reader
  listener ended timer = record {
    chunks = chunks;
    total = total;
    settled = none;
    ended = ended;
    timer = timer;
  }

  abbrev Step : Bool → Bool → Bool → StreamEvent → Type 0
  Step http2 ended timer event =
      let next = on_event http2 limit event (listener ended timer) in
      Next http2 limit before event next next.settled
