-- ===== src/Packet/Bounds.antt =====
-- bjnp/src/packet.rs: which bytes the parser takes, and how it answers a packet that is cut short.
use scanner_button.Prelude.{
  ℕ, ◌+◌, ◌-◌, ◌<◌, ◌≤◌, ◌≡◌, ◌≢◌, refl, ap, ◌∙◌, List, ◌++◌, arith, inl, inr,
}
use scanner_button.Prelude.{length, length-append, take, drop, ltb, lt→ltb}
use scanner_button.Prelude.{
  leb, le→leb, lt→not_leb, ltb→lt, not_ltb→le, take-append_ge, if◌then◌else◌, length-take,
  length-drop, Bool-cases, leb→le, not_leb→lt,
}
use mathlib.Core.Path.{subst}
use scanner_button.Rust.Outcome.{Outcome, ok, err, panic, ok-injective, Outcome-cases}
use scanner_button.Serdes.Error.{ParseError, unexpected_end}
use scanner_button.Serdes.Traits.{deserialize_sized, deserialize_sized-eq-ok}
use scanner_button.Header.{Header, IsHeader, header_sized}
use scanner_button.Header.Errors.{header_deserialize-ne-panic}
use scanner_button.Header.RoundTrip.{header_bytes, header_deserialize-bytes, length-header_bytes}
use scanner_button.Packet.Parse.{PacketHeaderOnly, parse}

module _ (buffer : List ℕ) (h : Header)
    (found : deserialize_sized header_sized buffer ≡ ok (h, 16)) where
  parse_whole :
      16 + h.payload_size ≤ length buffer
      → parse buffer ≡ ok (record { header = h; payload = take h.payload_size (drop 16 buffer) })
  unfolding parse
  parse_whole fits =
      let e : 16 + h.payload_size - 16 ≡ h.payload_size = omega arith in
      rw (found, le→leb 16 (16 + h.payload_size) (omega arith), le→leb _ _ fits, e)

  parse_cut :
      length buffer < 16 + h.payload_size
      → parse buffer ≡ err (unexpected_end (16 + h.payload_size) (length buffer))
  unfolding parse
  parse_cut less = rw (found, le→leb 16 (16 + h.payload_size) (omega arith), lt→not_leb _ _ less)

parse_refused :
    (buffer : List ℕ) {x : ParseError}
    → deserialize_sized header_sized buffer ≡ err x
    → parse buffer ≡ err x
unfolding parse
parse_refused buffer failed = rw failed

-- How the parser ends: the header is refused; or it is read, and fewer bytes follow than it
-- announces; or the payload is those bytes.
pub data IsParsed (buffer : List ℕ) : Outcome PacketHeaderOnly ParseError → Type 0 where
  refused :
      (x : ParseError) → deserialize_sized header_sized buffer ≡ err x → IsParsed buffer (err x)
  cut :
      (h : Header)
      → deserialize_sized header_sized buffer ≡ ok (h, 16)
      → length buffer < 16 + h.payload_size
      → IsParsed buffer (err (unexpected_end (16 + h.payload_size) (length buffer)))
  whole :
      (h : Header)
      → deserialize_sized header_sized buffer ≡ ok (h, 16)
      → 16 + h.payload_size ≤ length buffer
      → IsParsed buffer (ok (record { header = h; payload = take h.payload_size (drop 16 buffer) }))

-- Whatever the buffer, the parser does not panic. It fails with the error of the header; or with
-- the number of bytes that the packet has and the number that there are, which is less; or it
-- returns the header and the `payload_size` bytes behind its sixteen.
pub parse-IsParsed : (buffer : List ℕ) → IsParsed buffer (parse buffer)
parse-IsParsed buffer = elim (Outcome-cases (deserialize_sized header_sized buffer)) [
  | inr (inl (x, failed)) ↦ rw (parse_refused buffer failed) (refused x failed)
  | inr (inr failed) ↦ absurd (header_deserialize-ne-panic buffer failed)
  | inl ((h, n), found) ↦
      let (_, _, sixteen) = deserialize_sized-eq-ok header_sized buffer h n found in
      let found' : deserialize_sized header_sized buffer ≡ ok (h, 16) =
        found ∙ ap (λ (k : ℕ). ok (h, k)) sixteen in
      elim (Bool-cases (leb (16 + h.payload_size) (length buffer))) [
        | inl fits ↦
            rw (parse_whole buffer h found' (leb→le _ _ fits)) (whole h found' (leb→le _ _ fits))
        | inr less ↦
            rw (parse_cut buffer h found' (not_leb→lt _ _ less))
              (cut h found' (not_leb→lt _ _ less))
      ]
]

Takes : List ℕ → PacketHeaderOnly → Type 0
Takes buffer p =
    (deserialize_sized header_sized buffer ≡ ok (p.header, 16))
    × (16 + p.header.payload_size ≤ length buffer)
    × (p.payload ≡ take p.header.payload_size (drop 16 buffer))

IsParsed-Takes :
    (buffer : List ℕ) (r : Outcome PacketHeaderOnly ParseError) (p : PacketHeaderOnly)
    → IsParsed buffer r
    → r ≡ ok p
    → Takes buffer p
unfolding Takes
IsParsed-Takes buffer _ p (refused x failed) e = cc
IsParsed-Takes buffer _ p (cut h found less) e = cc
IsParsed-Takes buffer _ p (whole h found fits) e =
    subst (Takes buffer) (ok-injective _ p e) (found, fits, refl)

-- A parsed packet: its header stands in the first sixteen bytes, and its payload is the
-- `payload_size` bytes behind them, all of which are there.
parse_takes :
    (buffer : List ℕ) (p : PacketHeaderOnly)
    → parse buffer ≡ ok p
    → (deserialize_sized header_sized buffer ≡ ok (p.header, 16))
      × (16 + p.header.payload_size ≤ length buffer)
      × (p.payload ≡ take p.header.payload_size (drop 16 buffer))
      × (length p.payload ≡ p.header.payload_size)
unfolding Takes
parse_takes buffer p e =
    let (found, fits, same) = IsParsed-Takes buffer (parse buffer) p (parse-IsParsed buffer) e in
    (found, fits, same, rw (same, length-take, length-drop) (omega arith))

header_cut :
    (h : Header) (payload : List ℕ) (n : ℕ)
    → n < 16
    → deserialize_sized header_sized (take n (header_bytes h ++ payload))
      ≡ err (unexpected_end 16 n)
unfolding deserialize_sized
header_cut h payload n short =
    let e : length (take n (header_bytes h ++ payload)) ≡ n =
      length-take n (header_bytes h ++ payload)
      ∙ omega (arith, length-append (header_bytes h) payload, length-header_bytes h) in
    rw (e, lt→ltb _ _ short)

-- What remains of a packet that is cut short is refused, and the error says how many bytes are
-- wanted and how many there are.
pub parse_truncated :
    (h : Header) (payload : List ℕ) (n : ℕ)
    → IsHeader h
    → length payload ≡ h.payload_size
    → n < 16 + h.payload_size
    → parse (take n (header_bytes h ++ payload))
      ≡ err (unexpected_end (if ltb n 16 then 16 else 16 + h.payload_size) n)
parse_truncated h payload n v e less = elim (Bool-cases (ltb n 16)) [
  | inl short ↦ rw short (parse_refused _ (header_cut h payload n (ltb→lt _ _ short)))
  | inr enough ↦
      let took : take n (header_bytes h ++ payload)
          ≡ header_bytes h ++ take (n - length (header_bytes h)) payload =
        take-append_ge n (header_bytes h) payload (wide (not_ltb→le _ _ enough)) in
      let sized : length (take n (header_bytes h ++ payload)) ≡ n =
        length-take n (header_bytes h ++ payload)
        ∙ omega (arith, length-append (header_bytes h) payload, length-header_bytes h) in
      rw enough (
        rw sized at (
          parse_cut (take n (header_bytes h ++ payload)) h
            (rw took (header_deserialize-bytes h _ v)) (rw sized less)))
]
  where
    wide : 16 ≤ n → length (header_bytes h) ≤ n
    wide le = omega (arith, length-header_bytes h)

IsParsed-ne-panic :
    (buffer : List ℕ) (r : Outcome PacketHeaderOnly ParseError) → IsParsed buffer r → r ≢ panic
IsParsed-ne-panic buffer _ (refused x failed) e = cc
IsParsed-ne-panic buffer _ (cut h found less) e = cc
IsParsed-ne-panic buffer _ (whole h found fits) e = cc

-- No input makes the parser panic.
pub parse-ne-panic : (buffer : List ℕ) → parse buffer ≢ panic
parse-ne-panic buffer = IsParsed-ne-panic buffer (parse buffer) (parse-IsParsed buffer)
