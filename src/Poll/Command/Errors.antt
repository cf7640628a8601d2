-- ===== src/Poll/Command/Errors.antt =====
-- bjnp/src/poll/command.rs: how a command that is cut short, of an unknown type, or with a date
-- that does not exist is refused.
use scanner_button.Prelude.{
  ℕ, suc, ◌+◌, ◌<◌, ◌≡◌, ◌≢◌, refl, ◌∙◌, List, [], ◌∷◌, ◌++◌, arith, some, none,
}
use scanner_button.Prelude.{
  length, le→leb, ltb, lt→ltb, le→not_ltb, replicate, length-append, take-append_exact, false, inl,
  inr, take, drop, length-take, length-drop, not_ltb→le, Bool-cases, Option-cases, ◌↔◌,
}
use scanner_button.Rust.Outcome.{Outcome, ok, err, panic, map_ok, Outcome-cases}
use scanner_button.Rust.Word.{u16_to_be_bytes, from_be_bytes}
use scanner_button.Serdes.Error.{
  invalid_format, invalid_slice, unexpected_end, result_offset_by, offset_by,
}
use scanner_button.Serdes.Field.{try_from_wider, try_from_wider_cases}
use scanner_button.Serdes.Traits.{deserialize_sized, SizedDeserialize}
use scanner_button.Poll.Command.Time.{TimeCrate}
use scanner_button.Poll.Command.Types.{PollType, poll_type_field, poll_type-IsField}
use scanner_button.Poll.Command.Raw.{
  empty_sized, host_only_sized, full_sized, reset_sized, full_try_from, host_only_try_from,
  empty_try_from, reset_try_from,
}
use scanner_button.Poll.Command.Wire.{inner_deserialize, command_from_bytes}
use scanner_button.Poll.Command.Read.{command_from_bytes-poll_type}

-- The size of the command of a type, without the type itself.
unfoldable pub size_after_type : PollType → ℕ
size_after_type PollType.empty = 78
size_after_type PollType.host_only = 74
size_after_type PollType.full = 114
size_after_type PollType.reset = 98

module _ (t : TimeCrate) where
  deserialize_short :
      {T : Type 0} (s : SizedDeserialize T) (rest : List ℕ)
      → length rest < s.size_of
      → deserialize_sized s rest ≡ err (unexpected_end s.size_of (length rest))
  unfolding deserialize_sized
  deserialize_short s rest h = rw (lt→ltb _ _ h)

  inner_short :
      (p : PollType) (rest : List ℕ)
      → length rest < size_after_type p
      → inner_deserialize t p rest ≡ err (unexpected_end (size_after_type p) (length rest))
  unfolding inner_deserialize size_after_type
  inner_short PollType.empty rest h = rw (deserialize_short empty_sized rest h)
  inner_short PollType.host_only rest h = rw (deserialize_short host_only_sized rest h)
  inner_short PollType.full rest h = rw (deserialize_short (full_sized t) rest h)
  inner_short PollType.reset rest h = rw (deserialize_short reset_sized rest h)

  -- Too few bytes behind the type: the error wants the size of the whole command, and reports
  -- two bytes less than there are.
  pub command_truncated :
      (p : PollType) (rest : List ℕ)
      → length rest < size_after_type p
      → let buffer = u16_to_be_bytes (poll_type_field.as_repr p) ++ rest in
        (command_from_bytes t buffer ≡ err (unexpected_end (size_after_type p + 2) (length rest)))
        × (length buffer ≡ length rest + 2)
  unfolding offset_by u16_to_be_bytes
  command_truncated p rest h =
      (command_from_bytes-poll_type t p rest ∙ rw (inner_short p rest h), omega arith)

  -- A type that is none of the four.
  pub command_unknown_type :
      (a b : ℕ) (rest : List ℕ)
      → ((p : PollType) → poll_type_field.as_repr p ≢ from_be_bytes (a ∷ b ∷ []))
      → command_from_bytes t (a ∷ b ∷ rest)
        ≡ err (invalid_format (invalid_slice 0 2 "unknown poll type"))
  unfolding command_from_bytes
  command_unknown_type a b rest h =
      elim (try_from_wider_cases poll_type_field poll_type-IsField 2 (from_be_bytes (a ∷ b ∷ []))) [
        | inl (p, same, _) ↦ absurd (h p same)
        | inr (_, e) ↦ rw (le→leb 2 (suc (suc (length rest))) (omega arith), e)
      ]

  command_known_type :
      (a b : ℕ) (rest : List ℕ) (p : PollType)
      → try_from_wider 2 poll_type_field (from_be_bytes (a ∷ b ∷ [])) ≡ ok p
      → command_from_bytes t (a ∷ b ∷ rest)
        ≡ result_offset_by (map_ok (λ (cmd, size). (cmd, size + 2)) (inner_deserialize t p rest)) 2
  unfolding command_from_bytes
  command_known_type a b rest p e = rw (le→leb 2 (suc (suc (length rest))) (omega arith), e)

  -- What the code assumes of the crate: a text of fourteen bytes that is parsed makes a date.
  abbrev pub IsSufficient : Type 0
  IsSufficient =
      (s : List ℕ) (parsed : t.Parsed)
      → length s ≡ 14
      → t.parse_items s ≡ some parsed
      → t.to_datetime parsed ≢ none

  full_sound : IsSufficient → (rest : List ℕ) → deserialize_sized (full_sized t) rest ≢ panic
  unfolding deserialize_sized full_try_from
  full_sound h rest e = elim (Bool-cases (ltb (length rest) 114)) [
    | inl short ↦ cc (rw short at e)
    | inr enough ↦ elim (Option-cases (t.parse_items (take 14 (drop 98 rest)))) [
      | inl refused ↦ cc (rw (enough, refused) at e)
      | inr (parsed, read) ↦ elim (Option-cases (t.to_datetime parsed)) [
        | inl missing ↦
            h _ parsed
              (omega
                (arith, length-take 14 (drop 98 rest), length-drop 98 rest, not_ltb→le _ _ enough))
              read missing
        | inr (d, made) ↦ cc (rw (enough, read, made) at e)
      ]
    ]
  ]

  map_ok-ne-panic : {A B E : Type 0} (f : A → B) (r : Outcome A E) → r ≢ panic → map_ok f r ≢ panic
  map_ok-ne-panic f (ok a) h e = cc
  map_ok-ne-panic f (err x) h e = cc
  map_ok-ne-panic f panic h e = h refl

  inner_sound : IsSufficient → (p : PollType) (rest : List ℕ) → inner_deserialize t p rest ≢ panic
  unfolding inner_deserialize deserialize_sized host_only_try_from empty_try_from reset_try_from
  inner_sound h PollType.empty rest e = ground arith
  inner_sound h PollType.host_only rest e = ground arith
  inner_sound h PollType.full rest e = map_ok-ne-panic _ _ (full_sound h rest) e
  inner_sound h PollType.reset rest e = ground arith

  command_empty : command_from_bytes t [] ≡ err (unexpected_end 2 0)
  unfolding command_from_bytes
  command_empty = refl

  command_one : (a : ℕ) → command_from_bytes t (a ∷ []) ≡ err (unexpected_end 2 1)
  unfolding command_from_bytes
  command_one a = refl

  command_sound : IsSufficient → (buffer : List ℕ) → command_from_bytes t buffer ≢ panic
  command_sound h [] e = cc (command_empty, e)
  command_sound h (a ∷ []) e = cc (command_one a, e)
  command_sound h (a ∷ b ∷ rest) e =
      elim (try_from_wider_cases poll_type_field poll_type-IsField 2 (from_be_bytes (a ∷ b ∷ []))) [
        | inr (unknown, _) ↦ cc (command_unknown_type a b rest unknown, e)
        | inl (p, _, known) ↦ elim (Outcome-cases (inner_deserialize t p rest)) [
          | inl (x, i) ↦ cc (rw i at (command_known_type a b rest p known), e)
          | inr (inl (x, i)) ↦ cc (rw i at (command_known_type a b rest p known), e)
          | inr (inr i) ↦ inner_sound h p rest i
        ]
      ]

  -- A full command with the text `s` for its date, and zeros elsewhere.
  dated : List ℕ → List ℕ
  dated s = replicate 98 0 ++ (s ++ (0 ∷ 0 ∷ []))

  full_panics :
      (s : List ℕ) (parsed : t.Parsed)
      → length s ≡ 14
      → t.parse_items s ≡ some parsed
      → t.to_datetime parsed ≡ none
      → deserialize_sized (full_sized t) (dated s) ≡ panic
  unfolding deserialize_sized full_try_from dated
  full_panics s parsed size read missing =
      let enough : ltb (length (dated s)) 114 ≡ false =
        le→not_ltb _ 114 (omega (arith, length-append {A = ℕ} s (0 ∷ 0 ∷ []))) in
      rw (enough, take-append_exact 14 s (0 ∷ 0 ∷ []) size, read, missing)

  command_panics :
      (s : List ℕ) (parsed : t.Parsed)
      → length s ≡ 14
      → t.parse_items s ≡ some parsed
      → t.to_datetime parsed ≡ none
      → command_from_bytes t (u16_to_be_bytes 0x02 ++ dated s) ≡ panic
  unfolding inner_deserialize
  command_panics s parsed size read missing =
      command_from_bytes-poll_type t PollType.full (dated s)
      ∙ rw (full_panics s parsed size read missing)

  -- Reading a command never panics, on any bytes, exactly when the crate makes a date of every
  -- text of fourteen bytes that it parses.
  pub command_panics_iff : ((buffer : List ℕ) → command_from_bytes t buffer ≢ panic) ↔ (
      (s : List ℕ) (parsed : t.Parsed)
      → length s ≡ 14
      → t.parse_items s ≡ some parsed
      → t.to_datetime parsed ≢ none)
  command_panics_iff = (
    λ never s parsed size read missing.
        never (u16_to_be_bytes 0x02 ++ dated s) (command_panics s parsed size read missing),
    command_sound,
  )
