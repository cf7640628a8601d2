-- ===== src/Poll/Command/Raw.antt =====
-- bjnp/src/poll/command.rs: the raw structs of the commands and the conversions.
use scanner_button.Prelude.{ℕ, List, [], ◌∷◌, ◌++◌, take, drop, length}
use scanner_button.Prelude.{replicate, leb, if◌then◌else◌}
use scanner_button.Rust.Outcome.{Outcome, ok, panic, ◌>>=◌, ok_or, unwrap_option}
use scanner_button.Rust.Word.{u32_to_be_bytes, from_be_bytes}
use scanner_button.Serdes.Error.{FormatError, invalid_slice}
use scanner_button.Serdes.Traits.{Serialize, SizedDeserialize}
use scanner_button.Serdes.Raw.{Layout, raw_serialize, raw_deserialize}
use scanner_button.Poll.Command.Time.{TimeCrate}
use scanner_button.Poll.Command.Types.{EmptyCommand, empty_command, HostOnlyCommand, FullCommand}
use scanner_button.Poll.Command.Types.{ResetCommand}

pub record RawEmptyCommand : Type 0 where
  pub empty : List ℕ

abbrev pub raw_empty : Layout RawEmptyCommand
raw_empty = record {
  size_of = 78;
  bytes = λ r. r.empty;
  view = λ buffer. record { empty = take 78 buffer };
}

pub record RawHostOnlyCommand : Type 0 where
  pub pad_1 : List ℕ
  pub host : List ℕ
  pub unk_1 : List ℕ

abbrev pub raw_host_only : Layout RawHostOnlyCommand
raw_host_only = record {
  size_of = 74;
  bytes = λ r. r.pad_1 ++ (r.host ++ r.unk_1);
  view = λ buffer. record {
    pad_1 = take 6 buffer;
    host = take 64 (drop 6 buffer);
    unk_1 = take 4 (drop 70 buffer);
  };
}

pub record RawFullCommand : Type 0 where
  pub pad_1 : List ℕ
  pub session_id : List ℕ
  pub host : List ℕ
  pub unk_1 : List ℕ
  pub unk_2 : List ℕ
  pub unk_3 : List ℕ
  pub datetime : List ℕ
  pub pad_2 : List ℕ

abbrev pub raw_full : Layout RawFullCommand
raw_full = record {
  size_of = 114;
  bytes = λ r.
      r.pad_1
      ++ (r.session_id
          ++ (r.host ++ (r.unk_1 ++ (r.unk_2 ++ (r.unk_3 ++ (r.datetime ++ r.pad_2))))));
  view = λ buffer. record {
    pad_1 = take 2 buffer;
    session_id = take 4 (drop 2 buffer);
    host = take 64 (drop 6 buffer);
    unk_1 = take 4 (drop 70 buffer);
    unk_2 = take 20 (drop 74 buffer);
    unk_3 = take 4 (drop 94 buffer);
    datetime = take 14 (drop 98 buffer);
    pad_2 = take 2 (drop 112 buffer);
  };
}

pub record RawResetCommand : Type 0 where
  pub pad_1 : List ℕ
  pub session_id : List ℕ
  pub host : List ℕ
  pub unk_1 : List ℕ
  pub action_id : List ℕ
  pub unk_2 : List ℕ

abbrev pub raw_reset : Layout RawResetCommand
raw_reset = record {
  size_of = 98;
  bytes = λ r. r.pad_1 ++ (r.session_id ++ (r.host ++ (r.unk_1 ++ (r.action_id ++ r.unk_2))));
  view = λ buffer. record {
    pad_1 = take 2 buffer;
    session_id = take 4 (drop 2 buffer);
    host = take 64 (drop 6 buffer);
    unk_1 = take 4 (drop 70 buffer);
    action_id = take 4 (drop 74 buffer);
    unk_2 = take 20 (drop 78 buffer);
  };
}

unfoldable pub to_raw_empty : EmptyCommand → RawEmptyCommand
to_raw_empty command = record { empty = replicate 78 0 }

unfoldable pub empty_try_from : RawEmptyCommand → Outcome EmptyCommand FormatError
empty_try_from raw = ok empty_command

unfoldable pub to_raw_host_only : HostOnlyCommand → RawHostOnlyCommand
to_raw_host_only command = record {
  pad_1 = replicate 6 0;
  host = command.host.octets;
  unk_1 = replicate 4 0;
}

unfoldable pub host_only_try_from : RawHostOnlyCommand → Outcome HostOnlyCommand FormatError
host_only_try_from raw = ok (record { host = record { octets = raw.host } })

unfoldable pub to_raw_reset : ResetCommand → RawResetCommand
to_raw_reset command = record {
  pad_1 = replicate 2 0;
  session_id = u32_to_be_bytes command.session_id;
  host = command.host.octets;
  unk_1 = 0x00 ∷ 0x00 ∷ 0x00 ∷ 0x14 ∷ [];
  action_id = u32_to_be_bytes command.action_id;
  unk_2 = replicate 20 0;
}

unfoldable pub reset_try_from : RawResetCommand → Outcome ResetCommand FormatError
reset_try_from raw = ok (record {
  session_id = from_be_bytes raw.session_id;
  host = record { octets = raw.host };
  action_id = from_be_bytes raw.action_id;
})

-- `format_into` a slice of fourteen zeros; a text that is longer does not fit, and `unwrap` panics.
unfoldable pub format_datetime : {E : Type 0} → (t : TimeCrate) → t.DateTime → Outcome (List ℕ) E
format_datetime t d = do
  shown ← unwrap_option (t.text d)
  if leb (length shown) 14 then ok (shown ++ drop (length shown) (replicate 14 0)) else panic

module _ (t : TimeCrate) where
  unfoldable pub to_raw_full : {E : Type 0} → FullCommand t → Outcome RawFullCommand E
  to_raw_full command = do
    datetime ← format_datetime t command.datetime
    ok (record {
      pad_1 = replicate 2 0;
      session_id = u32_to_be_bytes command.session_id;
      host = command.host.octets;
      unk_1 = 0x00 ∷ 0x00 ∷ 0x00 ∷ 0x14 ∷ [];
      unk_2 = replicate 20 0;
      unk_3 = 0x00 ∷ 0x00 ∷ 0x00 ∷ 0x10 ∷ [];
      datetime = datetime;
      pad_2 = replicate 2 0;
    })

  unfoldable pub full_try_from : RawFullCommand → Outcome (FullCommand t) FormatError
  full_try_from raw = do
    parser ← ok_or (t.parse_items raw.datetime) (invalid_slice 98 112 "invalid datetime string")
    datetime ← unwrap_option (t.to_datetime parser)
    ok (record {
      session_id = from_be_bytes raw.session_id;
      host = record { octets = raw.host };
      datetime = datetime;
    })

  abbrev pub full_serialize : Serialize (FullCommand t)
  full_serialize = record {
    serialize = λ command out. do
      raw ← to_raw_full command
      ok (out ++ raw_full.bytes raw);
    size = λ _. raw_full.size_of;
  }

  abbrev pub full_sized : SizedDeserialize (FullCommand t)
  full_sized = raw_deserialize raw_full full_try_from

abbrev pub empty_serialize : Serialize EmptyCommand
empty_serialize = raw_serialize raw_empty to_raw_empty

abbrev pub empty_sized : SizedDeserialize EmptyCommand
empty_sized = raw_deserialize raw_empty empty_try_from

abbrev pub host_only_serialize : Serialize HostOnlyCommand
host_only_serialize = raw_serialize raw_host_only to_raw_host_only

abbrev pub host_only_sized : SizedDeserialize HostOnlyCommand
host_only_sized = raw_deserialize raw_host_only host_only_try_from

abbrev pub reset_serialize : Serialize ResetCommand
reset_serialize = raw_serialize raw_reset to_raw_reset

abbrev pub reset_sized : SizedDeserialize ResetCommand
reset_sized = raw_deserialize raw_reset reset_try_from
