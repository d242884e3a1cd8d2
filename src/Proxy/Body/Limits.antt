-- ===== src/Proxy/Body/Limits.antt =====
-- The two readers of a stream compared, and when a reader settles.
use morpheus_proxy.Prelude.{
  ℕ, ◌+◌, ◌≡◌, refl, Bool, true, false, not, ◌||◌, Option, none, some, List, [], ◌∷◌, ◌++◌, any,
  All, length, ltb, arith, is_some, Bool-cases, inl, inr, ◌⊎◌, ◌&&◌,
}
use morpheus_proxy.Grpc.Frames.{Buffer}
use morpheus_proxy.Proxy.Body.{
  StreamEvent, chunk, end, error, aborted, close, timed, Settled, complete, prefix, failed,
  stream_aborted, stream_closed, limit_exceeded, Reader, new_reader, on_data, on_end, on_event,
  read_body_up_to, on_limited_event, read_body_with_limit,
}

-- The event ends the reading: an error or an abort does, and the end does on HTTP/1.
abbrev pub is_final : Bool → StreamEvent → Bool
is_final http2 end = not http2
is_final http2 (error e) = true
is_final http2 aborted = true
is_final http2 (chunk bytes) = false
is_final http2 close = false
is_final http2 timed = false

on_event-final :
    (http2 : Bool) (limit : ℕ) (event : StreamEvent) (reader : Reader)
    → is_final http2 event ≡ true
    → is_some (on_event http2 limit event reader).settled ≡ true
unfolding on_event on_data on_end
on_event-final false limit end reader h = ground arith
on_event-final true limit end reader h = absurd (ground arith)
on_event-final http2 limit (error e) reader h = ground arith
on_event-final http2 limit aborted reader h = ground arith
on_event-final http2 limit (chunk bytes) reader h = absurd (ground arith)
on_event-final http2 limit close reader h = absurd (ground arith)
on_event-final http2 limit timed reader h = absurd (ground arith)

read_body_up_to-settled :
    (http2 : Bool) (limit : ℕ) (events : List StreamEvent) (reader : Reader)
    → (is_some reader.settled || any (is_final http2) events) ≡ true
    → is_some (read_body_up_to http2 limit events reader).settled ≡ true
unfolding read_body_up_to
read_body_up_to-settled http2 limit [] reader h = ground arith
read_body_up_to-settled http2 limit (event ∷ events) reader h =
    elim (Bool-cases (is_some reader.settled)) [
      | inl e ↦ rw e e
      | inr e ↦ rw e (
          read_body_up_to-settled http2 limit events (on_event http2 limit event reader)
            (ground (arith, on_event-final http2 limit event reader)))
    ]

-- A read settles: once an error or an abort has come, or on HTTP/1 the end, there is a result.
pub read_body_up_to-settles :
    (http2 : Bool) (limit : ℕ) (events : List StreamEvent)
    → any (is_final http2) events ≡ true
    → is_some (read_body_up_to http2 limit events new_reader).settled ≡ true
read_body_up_to-settles http2 limit events h =
    read_body_up_to-settled http2 limit events new_reader h

abbrev is_timed : StreamEvent → Bool
is_timed timed = true
is_timed (chunk bytes) = false
is_timed end = false
is_timed (error e) = false
is_timed aborted = false
is_timed close = false

abbrev is_end : StreamEvent → Bool
is_end end = true
is_end timed = false
is_end (chunk bytes) = false
is_end (error e) = false
is_end aborted = false
is_end close = false

-- An error or an abort comes, or the end, behind which on HTTP/2 the timer runs off.
abbrev pub comes_to_end : Bool → List StreamEvent → Bool
comes_to_end http2 [] = false
comes_to_end http2 (event ∷ events) =
    is_final http2 event || (is_end event && any is_timed events) || comes_to_end http2 events

on_event-timer :
    (http2 : Bool) (limit : ℕ) (event : StreamEvent) (reader : Reader)
    → (is_some reader.settled || reader.timer) ≡ true
    → let reader' = on_event http2 limit event reader in
      ((is_some reader'.settled || reader'.timer) ≡ true)
      × ((is_timed event ≡ false) ⊎ (is_some reader'.settled ≡ true))
unfolding on_event on_data on_end
on_event-timer false limit end reader h = ground arith
on_event-timer true limit end reader h = ground arith
on_event-timer http2 limit (error e) reader h = ground arith
on_event-timer http2 limit aborted reader h = ground arith
on_event-timer http2 limit (chunk bytes) reader h = ground arith
on_event-timer http2 limit close reader h = ground arith
on_event-timer http2 limit timed reader h = ground arith

read_body_up_to-timed :
    (http2 : Bool) (limit : ℕ) (events : List StreamEvent) (reader : Reader)
    → (is_some reader.settled || reader.timer) ≡ true
    → (is_some reader.settled || any is_timed events) ≡ true
    → is_some (read_body_up_to http2 limit events reader).settled ≡ true
unfolding read_body_up_to
read_body_up_to-timed http2 limit [] reader t h = ground arith
read_body_up_to-timed http2 limit (event ∷ events) reader t h =
    elim (Bool-cases (is_some reader.settled)) [
      | inl e ↦ rw e e
      | inr e ↦
          let (kept, now) = on_event-timer http2 limit event reader t in
          rw e (
            read_body_up_to-timed http2 limit events (on_event http2 limit event reader) kept
              (ground arith))
    ]

on_event-end :
    (http2 : Bool) (limit : ℕ) (event : StreamEvent) (reader : Reader)
    → is_end event ≡ true
    → let reader' = on_event http2 limit event reader in
      (is_some reader'.settled || reader'.timer) ≡ true
unfolding on_event on_data on_end
on_event-end false limit end reader h = ground arith
on_event-end true limit end reader h = ground arith
on_event-end http2 limit (error e) reader h = absurd (ground arith)
on_event-end http2 limit aborted reader h = absurd (ground arith)
on_event-end http2 limit (chunk bytes) reader h = absurd (ground arith)
on_event-end http2 limit close reader h = absurd (ground arith)
on_event-end http2 limit timed reader h = absurd (ground arith)

-- A stream that comes to its end settles the reading, on either protocol.
pub read_body_up_to-ends :
    (http2 : Bool) (limit : ℕ) (events : List StreamEvent) (reader : Reader)
    → (is_some reader.settled || comes_to_end http2 events) ≡ true
    → is_some (read_body_up_to http2 limit events reader).settled ≡ true
unfolding read_body_up_to
read_body_up_to-ends http2 limit [] reader h = ground arith
read_body_up_to-ends http2 limit (event ∷ events) reader h =
    elim (Bool-cases (is_some reader.settled)) [
      | inl e ↦ rw e e
      | inr e ↦ rw e (elim (Bool-cases (is_end event && any is_timed events)) [
        | inl k ↦
            read_body_up_to-timed http2 limit events (on_event http2 limit event reader)
              (on_event-end http2 limit event reader (ground arith)) (ground arith)
        | inr k ↦
            read_body_up_to-ends http2 limit events (on_event http2 limit event reader)
              (ground (arith, on_event-final http2 limit event reader))
      ])
    ]

-- The result of `readBodyWithLimit` in terms of the other's.
abbrev pub limited : Option Settled → Option Settled
limited (some (prefix body)) = some limit_exceeded
limited (some (complete body)) = some (complete body)
limited (some (failed e)) = some (failed e)
limited (some stream_aborted) = some stream_aborted
limited (some stream_closed) = some stream_closed
limited (some limit_exceeded) = some limit_exceeded
limited none = none

-- The events that both readers listen to.
abbrev pub is_heard : StreamEvent → Bool
is_heard (chunk bytes) = true
is_heard end = true
is_heard (error e) = true
is_heard aborted = false
is_heard close = false
is_heard timed = false

abbrev unsettled : Buffer → ℕ → Reader
unsettled chunks total = record {
  chunks = chunks;
  total = total;
  settled = none;
  ended = false;
  timer = false;
}

settled-limited :
    (limit : ℕ) (events : List StreamEvent) (a b : Reader) (r : Settled)
    → a.settled ≡ limited (some r)
    → b.settled ≡ some r
    → (read_body_with_limit limit events a).settled
      ≡ limited (read_body_up_to false limit events b).settled
unfolding read_body_with_limit read_body_up_to
settled-limited limit [] a b r h k = rw (h, k)
settled-limited limit (event ∷ events) a b (complete body) h k = ground arith
settled-limited limit (event ∷ events) a b (prefix body) h k = ground arith
settled-limited limit (event ∷ events) a b (failed e) h k = ground arith
settled-limited limit (event ∷ events) a b stream_aborted h k = ground arith
settled-limited limit (event ∷ events) a b stream_closed h k = ground arith
settled-limited limit (event ∷ events) a b limit_exceeded h k = ground arith

unsettled-limited :
    (limit : ℕ) (events : List StreamEvent) (chunks : Buffer) (total : ℕ)
    → All (λ e. is_heard e ≡ true) events
    → (read_body_with_limit limit events (unsettled chunks total)).settled
      ≡ limited (read_body_up_to false limit events (unsettled chunks total)).settled
unfolding read_body_with_limit read_body_up_to on_event on_data on_end on_limited_event
unsettled-limited limit [] chunks total h = refl
unsettled-limited limit (chunk bytes ∷ events) chunks total h =
    elim (Bool-cases (ltb limit (total + length bytes))) [
      | inl e ↦ rw e (settled-limited limit events _ _ (prefix (chunks ++ bytes)) refl refl)
      | inr e ↦ rw e (unsettled-limited limit events (chunks ++ bytes) (total + length bytes) h.1)
    ]
unsettled-limited limit (end ∷ events) chunks total h =
    settled-limited limit events _ _ (complete chunks) refl refl
unsettled-limited limit (error e ∷ events) chunks total h =
    settled-limited limit events _ _ (failed e) refl refl
unsettled-limited limit (aborted ∷ events) chunks total h = absurd (ground arith)
unsettled-limited limit (close ∷ events) chunks total h = absurd (ground arith)
unsettled-limited limit (timed ∷ events) chunks total h = absurd (ground arith)

-- On an HTTP/1 stream of chunks, ends and errors the two readers agree: the one with a hard limit
-- gives the same body or error, and fails exactly where the other gives a prefix.
pub read_body_with_limit-limited :
    (limit : ℕ) (events : List StreamEvent)
    → All (λ e. is_heard e ≡ true) events
    → (read_body_with_limit limit events new_reader).settled
      ≡ limited (read_body_up_to false limit events new_reader).settled
read_body_with_limit-limited limit events h = unsettled-limited limit events [] 0 h
