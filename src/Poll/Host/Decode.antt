-- ===== src/Poll/Host/Decode.antt =====
-- bjnp/src/poll/command.rs: a host name is shown with the padding of its buffer.
use scanner_button.Prelude.{
  ℕ, zero, suc, ◌+◌, ◌-◌, ◌*◌, ◌/◌, ◌%◌, ◌<◌, ◌≤◌, ◌≡◌, refl, ap, ◌∙◌, ◌⊎◌, inl, inr, none, some,
  List, [], ◌∷◌, ◌++◌, All, arith, leb, ltb, if◌then◌else◌, Bool-cases, length, replicate,
  append_assoc, true, false, not_ltb→le,
}
use scanner_button.Rust.Format.{pad, plain, cut, fill}
use scanner_button.Rust.Outcome.{ok, ok-injective, ◌>>=◌}
use scanner_button.Poll.Host.Utf16.{encode_utf16, len_utf16, Endian}
use scanner_button.Poll.Host.Encode.{host_new, into_buf}
use scanner_button.Poll.Host.Shown.{is_high, is_low, step_none, step, from_utf16_lossy, host_fmt}
use scanner_button.Poll.Host.Fill.{pad as pad_units}
use scanner_button.Poll.Host.Truncate.{utf16, fit, dots}
use scanner_button.Poll.Host.Units.{host_units, host_new-host_units}
use scanner_button.Poll.Host.Buffer.{IsChar, into_buf-host_new}

-- A scalar value is no surrogate.
abbrev pub IsScalar : ℕ → Type 0
IsScalar c = (c < 0xD800) ⊎ ((0xE000 ≤ c) × (c < 0x110000))

not_high : (c : ℕ) → IsScalar c → is_high c ≡ false
not_high c h = ground arith

not_low : (c : ℕ) → IsScalar c → is_low c ≡ false
not_low c h = ground arith

step_plain : (c : ℕ) → IsScalar c → step_none c ≡ (c ∷ [], none)
unfolding step_none
step_plain c h = rw (not_high c h, not_low c h)

step_high : (u : ℕ) → is_high u ≡ true → step_none u ≡ ([], some u)
unfolding step_none
step_high u h = rw h

step_low :
    (high u : ℕ)
    → is_low u ≡ true
    → step (some high) u ≡ ((0x10000 + (high - 0xD800) * 0x400 + (u - 0xDC00)) ∷ [], none)
unfolding step
step_low high u h = rw h

high_unit : (c : ℕ) → 0x10000 ≤ c → c < 0x110000 → is_high (0xD800 + (c - 0x10000) / 0x400) ≡ true
high_unit c large h = ground arith

low_unit : (c : ℕ) → is_low (0xDC00 + (c - 0x10000) % 0x400) ≡ true
low_unit c = ground arith

joined_pair :
    (c : ℕ)
    → 0x10000 ≤ c
    → 0x10000
        + ((0xD800 + (c - 0x10000) / 0x400) - 0xD800) * 0x400
        + ((0xDC00 + (c - 0x10000) % 0x400) - 0xDC00)
      ≡ c
joined_pair c large = omega arith

-- A character is decoded from the one unit or the pair of units that it is encoded as.
decode_char :
    (c : ℕ) (us : List ℕ)
    → IsScalar c
    → from_utf16_lossy none (encode_utf16 c ++ us) ≡ c ∷ from_utf16_lossy none us
unfolding from_utf16_lossy encode_utf16 step
decode_char c us h = elim (Bool-cases (ltb c 0x10000)) [
  | inl small ↦ rw (small, step_plain c h)
  | inr large ↦
      let big : 0x10000 ≤ c = not_ltb→le _ _ large in
      rw (
        large,
        step_high _ (high_unit c big (omega arith)),
        step_low _ _ (low_unit c),
        joined_pair c big,
      )
]

decode_chars :
    (cs us : List ℕ)
    → All IsScalar cs
    → from_utf16_lossy none (utf16 cs ++ us) ≡ cs ++ from_utf16_lossy none us
unfolding utf16
decode_chars [] us h = refl
decode_chars (c ∷ cs) us (h, hs) =
    ap (from_utf16_lossy none) (append_assoc (encode_utf16 c) (utf16 cs) us)
    ∙ decode_char c (utf16 cs ++ us) h
    ∙ ap (λ (x : List ℕ). c ∷ x) (decode_chars cs us hs)

decode_zeros : (n : ℕ) → from_utf16_lossy none (replicate n 0) ≡ replicate n 0
unfolding from_utf16_lossy step step_none
decode_zeros zero = refl
decode_zeros (suc n) = ap (λ (x : List ℕ). 0 ∷ x) (decode_zeros n)

All-fit : (n : ℕ) (cs : List ℕ) → All IsScalar cs → All IsScalar (fit n cs)
unfolding fit
All-fit n [] h = tt
All-fit n (c ∷ cs) (h, hs) = elim (Bool-cases (leb (len_utf16 c) n)) [
  | inl e ↦ rw e (h, All-fit (n - len_utf16 c) cs hs)
  | inr e ↦ rw e tt
]

All-IsChar : (cs : List ℕ) → All IsScalar cs → All IsChar cs
All-IsChar [] h = tt
All-IsChar (c ∷ cs) (h, hs) = (omega arith, All-IsChar cs hs)

-- What is shown of a name: the characters that the buffer holds, three dots if it does not hold
-- them all, and a NUL for every unit that is left.
abbrev pub host_text : List ℕ → List ℕ
host_text cs =
    if leb (length (utf16 cs)) 32
    then cs ++ replicate (32 - length (utf16 cs)) 0
    else fit 29 cs ++ (dots ++ replicate (32 - length (utf16 (fit 29 cs) ++ dots)) 0)

utf16_dots : (us : List ℕ) → from_utf16_lossy none (dots ++ us) ≡ dots ++ from_utf16_lossy none us
unfolding from_utf16_lossy step step_none
utf16_dots us = refl

host_units-text :
    (cs : List ℕ) → All IsScalar cs → from_utf16_lossy none (host_units cs) ≡ host_text cs
unfolding host_units pad_units
host_units-text cs h = elim (Bool-cases (leb (length (utf16 cs)) 32)) [
  | inl e ↦ rw e (
      decode_chars cs (replicate (32 - length (utf16 cs)) 0) h
      ∙ ap (λ (x : List ℕ). cs ++ x) (decode_zeros (32 - length (utf16 cs))))
  | inr e ↦
      let kept : List ℕ = fit 29 cs in
      let left : ℕ = 32 - length (utf16 kept ++ dots) in
      rw e (
        ap (from_utf16_lossy none) (append_assoc (utf16 kept) dots (replicate left 0))
        ∙ decode_chars kept (dots ++ replicate left 0) (All-fit 29 cs h)
        ∙ ap (λ (x : List ℕ). kept ++ x)
            (utf16_dots (replicate left 0) ∙ ap (λ (x : List ℕ). dots ++ x) (decode_zeros left)))
]

-- On every target, the name that a host is made of is shown as it is, if its units fit, and else its
-- longest prefix that leaves three units, followed by three dots; behind it every unit of the
-- buffer that is left is shown as a NUL.
pub host_fmt-host_new :
    {E : Type 0} (e : Endian) (host : List ℕ)
    → All IsScalar host
    → (do h ← host_new {E = E} e host; ok (host_fmt e h plain)) ≡ ok (host_text host)
unfolding host_fmt pad cut fill into_buf
host_fmt-host_new {E} e host h =
    let held = ok-injective _ _ (
      rw (host_new-host_units {E = E} e host) at
        (into_buf-host_new {E = E} e host (All-IsChar host h))) in
    rw (host_new-host_units {E = E} e host)
      (ap (λ (us : List ℕ). ok (from_utf16_lossy none us)) held ∙ ap ok (host_units-text host h))
