-- ===== src/Poll/Host/Encode.antt =====
-- bjnp/src/poll/command.rs: `Host::new` and `Host::into_buf`. The string is the list of its
-- characters; `overflowing` is set when the loop breaks.
use Prim.Native.Nat.{bit_and, bit_or}
use scanner_button.Prelude.{
  ℕ, zero, suc, ◌+◌, ◌-◌, ◌*◌, ◌/◌, ◌%◌, Bool, true, false, Option, none, some,
}
use scanner_button.Prelude.{List, [], ◌∷◌, map, length, replicate, ltb, leb, if◌then◌else◌}
use scanner_button.Rust.Outcome.{Outcome, ok, ◌>>=◌, unwrap_option}
use scanner_button.Poll.Host.Utf16.{len_utf16, encode_utf16, copy_at, Endian, to_be, units_to_bytes}
use scanner_button.Poll.Host.Utf16.{bytes_to_units}

pub record Host : Type 0 where
  pub octets : List ℕ

-- `MAX_HOST_LENGTH / 2`
abbrev pub max_units : ℕ
max_units = 32

pub record HostLoop : Type 0 where
  pub buffer : List ℕ
  pub cur_len : ℕ
  pub prev_len : ℕ
  pub overflowing : Bool

-- The loop over the characters. `prev_len` is a byte that holds the lengths of the last four, two
-- bits each.
unfoldable pub fill_loop : {E : Type 0} → List ℕ → HostLoop → Outcome HostLoop E
fill_loop [] s = ok s
fill_loop (c ∷ cs) s =
    let cur_len = s.cur_len + len_utf16 c in
    let prev_len = bit_or (s.prev_len * 4 % 256) (len_utf16 c) in
    elim (ltb (length s.buffer) cur_len) [
      | true ↦ ok (record s { cur_len = cur_len; prev_len = prev_len; overflowing = true })
      | false ↦ do
        buffer ← copy_at s.buffer s.cur_len (encode_utf16 c)
        fill_loop cs (record s { buffer = buffer; cur_len = cur_len; prev_len = prev_len })
    ]

-- The loop that backs off until three units are free. `none` is a loop that never ends (the fuel
-- runs out) or a length that falls below zero.
unfoldable pub back_loop : ℕ → ℕ → ℕ → Option ℕ
back_loop zero cur_len prev_len = none
back_loop (suc fuel) cur_len prev_len =
    let step = bit_and prev_len 3 in
    let rest = back_loop fuel (cur_len - step) (prev_len / 4) in
    if ltb (max_units - 3) cur_len then (if leb step cur_len then rest else none) else some cur_len

-- Four rounds are enough, and a fifth call ends the loop.
abbrev pub back_fuel : ℕ
back_fuel = 5

unfoldable pub add_ellipsis : {E : Type 0} → HostLoop → Outcome (List ℕ) E
add_ellipsis s = do
  cur_len ← unwrap_option (back_loop back_fuel s.cur_len s.prev_len)
  dotted ← copy_at s.buffer cur_len (replicate 3 b'.')
  copy_at dotted (cur_len + 3) (replicate (length dotted - (cur_len + 3)) 0)

abbrev pub host_start : HostLoop
host_start = record {
  buffer = replicate max_units 0;
  cur_len = 0;
  prev_len = 0;
  overflowing = false;
}

-- The units before they are put in big-endian order.
unfoldable pub host_buffer : {E : Type 0} → List ℕ → Outcome (List ℕ) E
host_buffer host = do
  s ← fill_loop host host_start
  if s.overflowing then add_ellipsis s else ok s.buffer

unfoldable pub host_new : {E : Type 0} → Endian → List ℕ → Outcome Host E
host_new e host = do
  u16_buffer ← host_buffer host
  ok (record { octets = units_to_bytes e (map (to_be e) u16_buffer) })

unfoldable pub into_buf : Endian → Host → List ℕ
into_buf e host = map (to_be e) (bytes_to_units e host.octets)
