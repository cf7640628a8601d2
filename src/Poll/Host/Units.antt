-- ===== src/Poll/Host/Units.antt =====
-- bjnp/src/poll/command.rs: `Host::new` against its specification.
use mathlib.Core.List.{flat_map}
use mathlib.Core.Path.{subst}
use scanner_button.Prelude.{ℕ, ◌<◌, ◌≤◌, ◌≡◌, refl, ap, ◌∙◌, sym, List, [], ◌∷◌, ◌++◌, map}
use scanner_button.Prelude.{
  append-nil, length, length-append, leb, if◌then◌else◌, arith, le→leb, lt→not_leb,
}
use scanner_button.Rust.Outcome.{Outcome, ok, ◌>>=◌}
use scanner_button.Rust.Word.{u16_to_be_bytes}
use scanner_button.Poll.Host.Utf16.{
  encode_utf16, length-encode_utf16, Endian, little, big, to_be, units_to_bytes,
}
use scanner_button.Poll.Host.Encode.{HostLoop, host_new, host_buffer, add_ellipsis}
use scanner_button.Poll.Host.Back.{units, pack, keep}
use scanner_button.Poll.Host.Fill.{
  rev_append, taken_units, pad, length-taken_units, IsFilled, fits, overflows, fill_loop-IsFilled,
}
use scanner_button.Poll.Host.Truncate.{
  utf16, fit, dots, utf16-rev_append, Kept, keep-Kept, fit-Kept, add_ellipsis-Kept,
}

-- The specification: the thirty-two units of a host name.
unfoldable pub host_units : List ℕ → List ℕ
host_units cs =
    if leb (length (utf16 cs)) 32 then pad 32 (utf16 cs) else pad 32 (utf16 (fit 29 cs) ++ dots)

host_units_fits :
    (rs total : List ℕ)
    → total ≡ rev_append rs []
    → units rs ≤ 32
    → host_units total ≡ pad 32 (taken_units rs)
unfolding host_units
host_units_fits rs total e small =
    let same : utf16 total ≡ taken_units rs =
      ap utf16 e ∙ utf16-rev_append rs [] ∙ unfold utf16 in append-nil _ in
    rw (same, length-taken_units rs, le→leb (units rs) 32 small)

host_units_overflows :
    (c : ℕ) (rs cs total : List ℕ)
    → total ≡ rev_append rs (c ∷ cs)
    → 32 < units (c ∷ rs)
    → Kept rs (keep rs) total
    → host_units total ≡ pad 32 (taken_units (keep rs) ++ dots)
unfolding host_units
host_units_overflows c rs cs total e over k =
    rw
      (
        lt→not_leb (length (utf16 total)) 32 long,
        fit-Kept rs (keep rs) total k,
        utf16-rev_append (keep rs) [],
      )
      (unfold utf16 in rw append-nil)
  where
    written : utf16 total ≡ taken_units rs ++ (encode_utf16 c ++ utf16 cs)
    written = ap utf16 e ∙ utf16-rev_append rs (c ∷ cs) ∙ unfold utf16 in refl

    long : 32 < length (utf16 total)
    long =
        unfold units in
        omega (
          arith,
          ap length written,
          length-append (taken_units rs) (encode_utf16 c ++ utf16 cs),
          length-append (encode_utf16 c) (utf16 cs),
          length-taken_units rs,
          length-encode_utf16 c,
        )

IsFilled-host_units :
    {E : Type 0} (total : List ℕ) (r : Outcome HostLoop E)
    → IsFilled total r
    → (do s ← r; if s.overflowing then add_ellipsis s else ok s.buffer) ≡ ok (host_units total)
IsFilled-host_units total r (fits rs split small e) =
    rw e (ap ok (sym (host_units_fits rs total split small)))
IsFilled-host_units {E} total r (overflows c rs cs split small over e) =
    let kept : Kept rs (keep rs) total =
      subst (Kept rs (keep rs)) (sym split) (keep-Kept rs c cs (unfold units in omega arith)) in
    rw e (
      add_ellipsis-Kept c rs total small over kept
      ∙ ap ok (sym (host_units_overflows c rs cs total split over kept)))

pub units_to_bytes-to_be :
    (e : Endian) (us : List ℕ) → units_to_bytes e (map (to_be e) us) ≡ flat_map u16_to_be_bytes us
unfolding units_to_bytes to_be u16_to_be_bytes flat_map
units_to_bytes-to_be e [] = refl
units_to_bytes-to_be little (u ∷ us) = ground (arith, units_to_bytes-to_be little us)
units_to_bytes-to_be big (u ∷ us) = ground (arith, units_to_bytes-to_be big us)

host_buffer-host_units :
    {E : Type 0} (host : List ℕ) → host_buffer {E = E} host ≡ ok (host_units host)
unfolding host_buffer rev_append taken_units pad units pack
host_buffer-host_units host = IsFilled-host_units host _ (fill_loop-IsFilled host [] (omega arith))

-- On every target, a host is the big-endian bytes of the specified units. Nothing panics and the
-- loop that backs off ends.
pub host_new-host_units :
    {E : Type 0} (e : Endian) (host : List ℕ)
    → host_new {E = E} e host ≡ ok (record { octets = flat_map u16_to_be_bytes (host_units host) })
unfolding host_new
host_new-host_units e host =
    rw (host_buffer-host_units host)
      (ap (λ (o : List ℕ). ok (record { octets = o })) (units_to_bytes-to_be e (host_units host)))
