-- ===== src/Poll/Command/RoundTrip.antt =====
-- bjnp/src/poll/command.rs: a command is read back from what it is written as.
use scanner_button.Prelude.{
  ℕ, ◌+◌, ◌≡◌, refl, ap, ◌∙◌, List, [], ◌∷◌, ◌++◌, arith, some, none, take,
}
use scanner_button.Prelude.{
  append_assoc, length, length-append, replicate, le→leb, append-nil, drop_all,
}
use scanner_button.Rust.Outcome.{ok, ◌>>=◌}
use scanner_button.Rust.Word.{IsU32, length-u16, u16_to_be_bytes, from_be_bytes-u32}
use scanner_button.Serdes.Traits.{deserialize_sized, IsCodec, serialize_to_vec, round_trip}
use scanner_button.Serdes.Raw.{deserialize-bytes}
use scanner_button.Poll.Host.Buffer.{IsHost}
use scanner_button.Poll.Command.Time.{TimeCrate, HasText}
use scanner_button.Poll.Command.Types.{FullCommand, HostOnlyCommand, Command, poll_type_field}
use scanner_button.Poll.Command.Raw.{raw_empty, raw_host_only, raw_full, raw_reset, RawFullCommand}
use scanner_button.Poll.Command.Raw.{
  to_raw_empty, to_raw_host_only, to_raw_reset, format_datetime, to_raw_full, full_try_from,
  full_sized,
}
use scanner_button.Poll.Command.Wire.{
  poll_type, inner_serialize, inner_size, inner_deserialize, command_from_bytes, command_serialize,
  command_deserialize,
}
use scanner_button.Poll.Command.Read.{
  deserialize_empty, deserialize_host_only, deserialize_reset, command_from_bytes-poll_type,
}
use scanner_button.Poll.Command.Lawful.{
  full_view, host_only_length, reset_length, full_length, full_raw,
}

module _ {t : TimeCrate} where
  -- The values that the Rust types hold, with a date that has a text.
  abbrev pub IsCommand : Command t → Type 0
  IsCommand (Command.empty c) = Unit
  IsCommand (Command.host_only c) = IsHost c.host
  IsCommand (Command.full c) = IsU32 c.session_id × IsHost c.host × HasText t c.datetime
  IsCommand (Command.reset c) = IsU32 c.session_id × IsHost c.host × IsU32 c.action_id

  pub raw_full_of : FullCommand t → RawFullCommand
  raw_full_of c =
      full_raw c.session_id c.host.octets
        (elim (t.text c.datetime) [ none ↦ [] | some shown ↦ shown ])

  inner_bytes : Command t → List ℕ
  inner_bytes (Command.empty c) = raw_empty.bytes (to_raw_empty c)
  inner_bytes (Command.host_only c) = raw_host_only.bytes (to_raw_host_only c)
  inner_bytes (Command.full c) = raw_full.bytes (raw_full_of c)
  inner_bytes (Command.reset c) = raw_reset.bytes (to_raw_reset c)

  format_datetime-HasText :
      {E : Type 0} (d : t.DateTime) (h : HasText t d) → format_datetime {E = E} t d ≡ ok h.shown
  unfolding format_datetime
  format_datetime-HasText d h =
      rw
        (
          h.text_shown,
          le→leb (length h.shown) 14 (omega (arith, h.length_shown)),
          drop_all {A = ℕ} (length h.shown) (replicate 14 0) (omega (arith, h.length_shown)),
        )
        (ap ok (append-nil _))

  raw_full_of-HasText :
      (c : FullCommand t) (h : HasText t c.datetime)
      → raw_full_of c ≡ full_raw c.session_id c.host.octets h.shown
  unfolding raw_full_of
  raw_full_of-HasText c h = rw h.text_shown

  pub to_raw_full-HasText :
      {E : Type 0} (c : FullCommand t)
      → HasText t c.datetime
      → to_raw_full t {E = E} c ≡ ok (raw_full_of c)
  unfolding to_raw_full
  to_raw_full-HasText c h = rw (raw_full_of-HasText c h, format_datetime-HasText c.datetime h)

  inner_serialize-bytes :
      (c : Command t) (out : List ℕ)
      → IsCommand c
      → inner_serialize c out ≡ ok (out ++ inner_bytes c)
  unfolding inner_serialize inner_bytes
  inner_serialize-bytes (Command.empty c) out h = refl
  inner_serialize-bytes (Command.host_only c) out h = refl
  inner_serialize-bytes (Command.full c) out h = rw (to_raw_full-HasText c h.2)
  inner_serialize-bytes (Command.reset c) out h = refl

  length-inner_bytes : (c : Command t) → IsCommand c → length (inner_bytes c) ≡ inner_size c
  unfolding inner_bytes inner_size to_raw_empty to_raw_host_only to_raw_reset
  length-inner_bytes (Command.empty c) h = refl
  length-inner_bytes (Command.host_only c) h = host_only_length c.host.octets h
  length-inner_bytes (Command.full c) (_, h, d) =
      ap (λ (r : RawFullCommand). length (raw_full.bytes r)) (raw_full_of-HasText c d)
      ∙ full_length c.host.octets h d.shown d.length_shown c.session_id
  length-inner_bytes (Command.reset c) h = reset_length c.host.octets h.1 c.session_id c.action_id

  deserialize_full :
      (c : FullCommand t) (rest : List ℕ)
      → IsCommand (Command.full c)
      → deserialize_sized (full_sized t) (raw_full.bytes (raw_full_of c) ++ rest) ≡ ok (c, 114)
  unfolding full_try_from
  deserialize_full c rest (s, h, d) = rw (raw_full_of-HasText c d) (
      deserialize-bytes raw_full (full_try_from t) (full_raw c.session_id c.host.octets d.shown)
        rest (full_length c.host.octets h d.shown d.length_shown c.session_id)
        (full_view c.host.octets h d.shown d.length_shown c.session_id rest)
        (rw (d.parse_shown, d.datetime_parsed, from_be_bytes-u32 c.session_id s)))

  inner_deserialize-bytes :
      (c : Command t) (rest : List ℕ)
      → IsCommand c
      → inner_deserialize t (poll_type c) (inner_bytes c ++ rest) ≡ ok (c, inner_size c)
  unfolding inner_deserialize inner_bytes poll_type inner_size
  inner_deserialize-bytes (Command.empty c) rest h = rw (deserialize_empty c rest)
  inner_deserialize-bytes (Command.host_only c) rest h = rw (deserialize_host_only c rest h)
  inner_deserialize-bytes (Command.full c) rest h = rw (deserialize_full c rest h)
  inner_deserialize-bytes (Command.reset c) rest h = rw (deserialize_reset c rest h)

  pub command_bytes : Command t → List ℕ
  command_bytes c = u16_to_be_bytes (poll_type_field.as_repr (poll_type c)) ++ inner_bytes c

  command_serialize-bytes :
      (c : Command t) (out : List ℕ)
      → IsCommand c
      → command_serialize.serialize c out ≡ ok (out ++ command_bytes c)
  unfolding command_bytes
  command_serialize-bytes c out h =
      inner_serialize-bytes c _ h ∙ ap ok (append_assoc out _ (inner_bytes c))

  command_from_bytes-bytes :
      (c : Command t) (rest : List ℕ)
      → IsCommand c
      → command_from_bytes t (command_bytes c ++ rest) ≡ ok (c, 2 + inner_size c)
  unfolding command_bytes
  command_from_bytes-bytes c rest h =
      ap (command_from_bytes t) (append_assoc _ (inner_bytes c) rest)
      ∙ command_from_bytes-poll_type t (poll_type c) (inner_bytes c ++ rest)
      ∙ rw (inner_deserialize-bytes c rest h) (ap (λ (n : ℕ). ok (c, n)) (omega arith))

  -- Any command is written as the bytes that its size says, and reading those, whatever follows,
  -- gives it back.
  pub Command-IsCodec : IsCodec {T = Command t} IsCommand
  unfolding command_bytes
  Command-IsCodec = record {
    encode = command_bytes;
    serialize-encode = command_serialize-bytes;
    length-encode = λ c h. omega (
      arith,
      length-append (u16_to_be_bytes (poll_type_field.as_repr (poll_type c))) (inner_bytes c),
      length-inner_bytes c h,
      length-u16 (poll_type_field.as_repr (poll_type c)),
    );
    deserialize-encode = command_from_bytes-bytes;
  }

pub Command-encode : {t : TimeCrate} (c : Command t) → Command-IsCodec.encode c ≡ command_bytes c
unfolding Command-IsCodec
Command-encode c = refl

-- A command whose hosts have 64 bytes, whose numbers fit 32 bits and whose date has a text is
-- written, anything is put behind, and what is read is that command and its size.
pub command_round_trip :
    {t : TimeCrate} (c : Command t) (rest : List ℕ)
    → IsCommand c
    → (do bytes ← serialize_to_vec c; command_from_bytes t (bytes ++ rest))
      ≡ ok (c, command_serialize.size c)
command_round_trip c rest v = round_trip Command-IsCodec c rest v

-- A host-only command starts with its type.
pub take-host_only_bytes :
    (t : TimeCrate) (cmd : HostOnlyCommand)
    → take 2 (command_bytes {t = t} (Command.host_only cmd)) ≡ 0 ∷ 1 ∷ []
unfolding command_bytes u16_to_be_bytes poll_type
take-host_only_bytes t cmd = refl
