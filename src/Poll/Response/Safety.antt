-- ===== src/Poll/Response/Safety.antt =====
-- bjnp/src/poll/response.rs: reading a response never panics.
use Prim.Native.Nat.{bit_and}
use scanner_button.Prelude.{ℕ, ◌≢◌, List, arith, Bool-cases, ◌==◌, inl, inr}
use scanner_button.Rust.Outcome.{panic, Outcome-cases}
use scanner_button.Rust.Word.{from_be_bytes}
use scanner_button.Serdes.Field.{try_from_u8}
use scanner_button.Serdes.Traits.{deserialize_sized, deserialize_sized-ne-panic}
use scanner_button.Poll.Response.Button.{interrupt_try_from, option_try_from, RawInterrupt}
use scanner_button.Poll.Response.Wire.{response_sized, response_try_from, RawResponse}

interrupt_try_from-ne-panic : (raw : RawInterrupt) → interrupt_try_from raw ≢ panic
unfolding interrupt_try_from option_try_from try_from_u8
interrupt_try_from-ne-panic raw h = ground arith

response_try_from-ne-panic : (raw : RawResponse) → response_try_from raw ≢ panic
unfolding response_try_from
response_try_from-ne-panic raw h =
    elim (Bool-cases (bit_and (from_be_bytes raw.status) 0x8000 == 0)) [
      | inl clear ↦ cc (rw clear at h)
      | inr set ↦ elim (Outcome-cases (interrupt_try_from raw.interrupt)) [
        | inl (i, found) ↦ cc (rw (set, found) at h)
        | inr (inl (e, failed)) ↦ cc (rw (set, failed) at h)
        | inr (inr failed) ↦ interrupt_try_from-ne-panic raw.interrupt failed
      ]
    ]

pub response_deserialize-ne-panic :
    (buffer : List ℕ) → deserialize_sized response_sized buffer ≢ panic
response_deserialize-ne-panic =
    deserialize_sized-ne-panic response_sized λ buffer. response_try_from-ne-panic _
