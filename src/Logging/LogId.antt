-- ===== src/Logging/LogId.antt =====
-- The ids of log entries: `formatLogId` of src/logging/traffic-log.ts.
use morpheus_proxy.Prelude.{
  ℕ, zero, suc, ◌+◌, ◌-◌, ◌*◌, ◌/◌, ◌%◌, ◌<◌, ◌≡◌, ◌≢◌, refl, sym, ap, ◌∙◌, [], ◌∷◌, ◌++◌, map,
  Text, to_string, print_digits, length, ltb, ◌==◌, if◌then◌else◌, arith, All, Bool-cases, inl, inr,
}

-- `s.replaceAll(':', '-')`
abbrev dashed : Text → Text
dashed s = map (λ c. if c == b':' then b'-' else c) s

abbrev zeros : ℕ → Text
zeros zero = []
zeros (suc n) = b'0' ∷ zeros n

-- `s.padStart(6, '0')`
unfoldable pub pad_start : Text → Text
pad_start s = zeros (6 - length s) ++ s

-- `iso` is `date.toISOString()`.
unfoldable pub format_log_id : Text → ℕ → Text
unfolding pad_start to_string
format_log_id iso seq = dashed iso ++ b'-' ∷ pad_start (to_string seq)

-- The number that the digits spell, after those that `n` stands for.
read_digits : ℕ → Text → ℕ
read_digits n [] = n
read_digits n (c ∷ s) = read_digits (n * 10 + (c - b'0')) s

read-print :
    (fuel n : ℕ) (acc : Text)
    → n < fuel
    → read_digits 0 (print_digits fuel n acc) ≡ read_digits n acc
unfolding print_digits read_digits
read-print zero n acc h = absurd (omega arith)
read-print (suc fuel) n acc h = elim (Bool-cases (ltb n 10)) [
  | inl e ↦ rw e (ap (λ k. read_digits k acc) (omega arith))
  | inr e ↦ rw e (
      read-print fuel (n / 10) ((b'0' + n % 10) ∷ acc) (ground arith)
      ∙ ap (λ k. read_digits k acc) (omega arith))
]

read-zeros : (k : ℕ) (s : Text) → read_digits 0 (zeros k ++ s) ≡ read_digits 0 s
unfolding read_digits
read-zeros zero s = refl
read-zeros (suc k) s = read-zeros k s

read-pad_start : (n : ℕ) → read_digits 0 (pad_start (to_string n)) ≡ n
unfolding pad_start to_string read_digits
read-pad_start n =
    read-zeros (6 - length (to_string n)) (print_digits (n + 1) n [])
    ∙ read-print (n + 1) n [] (omega arith)

abbrev NoDash : Text → Type 0
NoDash = All (λ c. c ≢ b'-')

print-NoDash : (fuel n : ℕ) (acc : Text) → NoDash acc → NoDash (print_digits fuel n acc)
unfolding print_digits
print-NoDash zero n acc h = h
print-NoDash (suc fuel) n acc h = elim (Bool-cases (ltb n 10)) [
  | inl e ↦ rw e (omega arith, h)
  | inr e ↦ rw e (print-NoDash fuel (n / 10) ((b'0' + n % 10) ∷ acc) (omega arith, h))
]

zeros-NoDash : (k : ℕ) (s : Text) → NoDash s → NoDash (zeros k ++ s)
zeros-NoDash zero s h = h
zeros-NoDash (suc k) s h = (omega arith, zeros-NoDash k s h)

pad_start-NoDash : (n : ℕ) → NoDash (pad_start (to_string n))
unfolding pad_start to_string
pad_start-NoDash n = zeros-NoDash _ _ (print-NoDash (n + 1) n [] tt)

-- What stands behind the last dash, given what stands behind the last one so far.
after_dash : Text → Text → Text
after_dash last [] = last
after_dash last (c ∷ s) = after_dash (if c == b'-' then s else last) s

after_dash-NoDash : (last s : Text) → NoDash s → after_dash last s ≡ last
unfolding after_dash
after_dash-NoDash last [] h = refl
after_dash-NoDash last (c ∷ s) h = ground (arith, after_dash-NoDash last s h.1)

after_dash-append : (last s t : Text) → NoDash t → after_dash last (s ++ b'-' ∷ t) ≡ t
unfolding after_dash
after_dash-append last [] t h = after_dash-NoDash t t h
after_dash-append last (c ∷ s) t h =
    after_dash-append (if c == b'-' then s ++ b'-' ∷ t else last) s t h

-- Ids of different sequence numbers differ, whatever their dates: the number can be read back.
pub format_log_id-injective :
    (iso iso' : Text) (m n : ℕ) → format_log_id iso m ≡ format_log_id iso' n → m ≡ n
unfolding format_log_id
format_log_id-injective iso iso' m n h =
    sym (read-pad_start m)
    ∙ ap (read_digits 0) (
        sym (after_dash-append [] (dashed iso) _ (pad_start-NoDash m))
        ∙ ap (after_dash []) h
        ∙ after_dash-append [] (dashed iso') _ (pad_start-NoDash n))
    ∙ read-pad_start n
