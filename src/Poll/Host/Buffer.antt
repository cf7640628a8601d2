-- ===== src/Poll/Host/Buffer.antt =====
-- bjnp/src/poll/command.rs: `Host::into_buf` gives back the units of `Host::new`, and a host has
-- sixty-four bytes.
use mathlib.Core.List.{flat_map}
use scanner_button.Prelude.{
  ℕ, suc, zero, ◌-◌, ◌*◌, ◌<◌, ◌≤◌, ◌≡◌, refl, ap, ◌∙◌, List, [], ◌∷◌, ◌++◌, map, All,
}
use scanner_button.Prelude.{
  length, length-append, leb, arith, Bool-cases, inl, inr, leb→le, replicate,
}
use scanner_button.Rust.Outcome.{ok, ◌>>=◌}
use scanner_button.Rust.Word.{u16_to_be_bytes, IsU16}
use scanner_button.Poll.Host.Utf16.{
  encode_utf16, length-encode_utf16, Endian, little, big, to_be, units_to_bytes, bytes_to_units,
  len_utf16,
}
use scanner_button.Poll.Host.Encode.{Host, host_new, into_buf}
use scanner_button.Poll.Host.Fill.{pad, length-pad}
use scanner_button.Poll.Host.Truncate.{utf16, fit, dots}
use scanner_button.Poll.Host.Units.{host_units, host_new-host_units, units_to_bytes-to_be}

swap_back :
    (e : Endian) (u : ℕ) (us : List ℕ)
    → IsU16 u
    → map (to_be e) (bytes_to_units e (units_to_bytes e (map (to_be e) (u ∷ us))))
      ≡ u ∷ map (to_be e) (bytes_to_units e (units_to_bytes e (map (to_be e) us)))
unfolding units_to_bytes to_be bytes_to_units
swap_back little u us h = ground arith
swap_back big u us h = ground arith

into_units :
    (e : Endian) (us : List ℕ)
    → All IsU16 us
    → map (to_be e) (bytes_to_units e (units_to_bytes e (map (to_be e) us))) ≡ us
into_units e [] h = unfold units_to_bytes bytes_to_units in refl
into_units e (u ∷ us) (h, hs) = swap_back e u us h ∙ ap (◌∷◌ u) (into_units e us hs)

-- A character is a scalar value.
abbrev pub IsChar : ℕ → Type 0
IsChar c = c < 0x110000

All-append : (xs ys : List ℕ) → All IsU16 xs → All IsU16 ys → All IsU16 (xs ++ ys)
All-append [] ys h k = k
All-append (x ∷ xs) ys (h, hs) k = (h, All-append xs ys hs k)

All-zeros : (n : ℕ) → All IsU16 (replicate n 0)
All-zeros zero = tt
All-zeros (suc n) = (omega arith, All-zeros n)

All-encode_utf16 : (c : ℕ) → IsChar c → All IsU16 (encode_utf16 c)
unfolding encode_utf16
All-encode_utf16 c h = ground arith

All-utf16 : (cs : List ℕ) → All IsChar cs → All IsU16 (utf16 cs)
unfolding utf16
All-utf16 [] h = tt
All-utf16 (c ∷ cs) (h, hs) =
    All-append (encode_utf16 c) (utf16 cs) (All-encode_utf16 c h) (All-utf16 cs hs)

All-fit : (n : ℕ) (cs : List ℕ) → All IsChar cs → All IsChar (fit n cs)
unfolding fit
All-fit n [] h = tt
All-fit n (c ∷ cs) (h, hs) = elim (Bool-cases (leb (len_utf16 c) n)) [
  | inl e ↦ rw e (h, All-fit (n - len_utf16 c) cs hs)
  | inr e ↦ rw e tt
]

All-pad : (n : ℕ) (xs : List ℕ) → All IsU16 xs → All IsU16 (pad n xs)
unfolding pad
All-pad n xs h = All-append xs _ h (All-zeros _)

All-host_units : (host : List ℕ) → All IsChar host → All IsU16 (host_units host)
unfolding host_units
All-host_units host h = elim (Bool-cases (leb (length (utf16 host)) 32)) [
  | inl e ↦ rw e (All-pad 32 _ (All-utf16 host h))
  | inr e ↦ rw e (
      All-pad 32 _
        (All-append (utf16 (fit 29 host)) dots (All-utf16 _ (All-fit 29 host h)) (omega arith)))
]

-- `into_buf` gives the units that `new` was specified to hold, on every target.
pub into_buf-host_new :
    {E : Type 0} (e : Endian) (host : List ℕ)
    → All IsChar host
    → (do h ← host_new {E = E} e host; ok (into_buf e h)) ≡ ok (host_units host)
unfolding into_buf
into_buf-host_new e host h =
    rw (host_new-host_units e host, ← units_to_bytes-to_be e (host_units host))
      (ap ok (into_units e (host_units host) (All-host_units host h)))

length-fit : (n : ℕ) (cs : List ℕ) → length (utf16 (fit n cs)) ≤ n
unfolding utf16 fit
length-fit n [] = omega arith
length-fit n (c ∷ cs) = elim (Bool-cases (leb (len_utf16 c) n)) [
  | inl e ↦ rw e (
      omega (
        arith,
        length-append (encode_utf16 c) (utf16 (fit (n - len_utf16 c) cs)),
        length-encode_utf16 c,
        length-fit (n - len_utf16 c) cs,
        leb→le _ n e,
      ))
  | inr e ↦ rw e (omega arith)
]

length-host_units : (host : List ℕ) → length (host_units host) ≡ 32
unfolding host_units
length-host_units host = elim (Bool-cases (leb (length (utf16 host)) 32)) [
  | inl e ↦ rw e (length-pad 32 _ (leb→le _ 32 e))
  | inr e ↦ rw e (
      length-pad 32 _ (omega (arith, length-append (utf16 (fit 29 host)) dots, length-fit 29 host)))
]

length-flat_map : (us : List ℕ) → length (flat_map u16_to_be_bytes us) ≡ 2 * length us
unfolding flat_map u16_to_be_bytes
length-flat_map [] = refl
length-flat_map (u ∷ us) = omega (arith, length-flat_map us)

abbrev pub IsHost : Host → Type 0
IsHost h = length h.octets ≡ 64

pub host_new-IsHost :
    {E : Type 0} (e : Endian) (host : List ℕ)
    → (h : Host) × (host_new {E = E} e host ≡ ok h) × IsHost h
host_new-IsHost e host = (
  record { octets = flat_map u16_to_be_bytes (host_units host) },
  host_new-host_units e host,
  omega (arith, length-flat_map (host_units host), length-host_units host),
)
