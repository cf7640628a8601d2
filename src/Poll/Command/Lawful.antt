-- ===== src/Poll/Command/Lawful.antt =====
-- bjnp/src/poll/command.rs: the raw structs are read back from their bytes.
use scanner_button.Prelude.{ℕ, ◌≡◌, List, [], ◌∷◌, ◌++◌, arith}
use scanner_button.Prelude.{append_assoc, length, length-append, replicate, take-append_exact}
use scanner_button.Prelude.{drop-append_exact, drop-append_add}
use scanner_button.Rust.Word.{u32_to_be_bytes}
use scanner_button.Poll.Command.Raw.{RawHostOnlyCommand, raw_host_only, raw_full, raw_reset}
use scanner_button.Poll.Command.Raw.{RawFullCommand, RawResetCommand}

abbrev pub host_only_raw : List ℕ → RawHostOnlyCommand
host_only_raw host = record { pad_1 = replicate 6 0; host = host; unk_1 = replicate 4 0 }

abbrev pub reset_raw : ℕ → List ℕ → ℕ → RawResetCommand
reset_raw session_id host action_id = record {
  pad_1 = replicate 2 0;
  session_id = u32_to_be_bytes session_id;
  host = host;
  unk_1 = 0x00 ∷ 0x00 ∷ 0x00 ∷ 0x14 ∷ [];
  action_id = u32_to_be_bytes action_id;
  unk_2 = replicate 20 0;
}

abbrev pub full_raw : ℕ → List ℕ → List ℕ → RawFullCommand
full_raw session_id host datetime = record {
  pad_1 = replicate 2 0;
  session_id = u32_to_be_bytes session_id;
  host = host;
  unk_1 = 0x00 ∷ 0x00 ∷ 0x00 ∷ 0x14 ∷ [];
  unk_2 = replicate 20 0;
  unk_3 = 0x00 ∷ 0x00 ∷ 0x00 ∷ 0x10 ∷ [];
  datetime = datetime;
  pad_2 = replicate 2 0;
}

module _ (host : List ℕ) (h : length host ≡ 64) where
  pub host_only_view :
      (rest : List ℕ)
      → raw_host_only.view (raw_host_only.bytes (host_only_raw host) ++ rest) ≡ host_only_raw host
  host_only_view rest = rw (
    append_assoc host (0 ∷ 0 ∷ 0 ∷ 0 ∷ []) rest,
    take-append_exact 64 host (0 ∷ 0 ∷ 0 ∷ 0 ∷ rest) h,
    drop-append_exact 64 host (0 ∷ 0 ∷ 0 ∷ 0 ∷ rest) h,
  )

  pub host_only_length : length (raw_host_only.bytes (host_only_raw host)) ≡ 74
  host_only_length = omega (arith, length-append {A = ℕ} host (0 ∷ 0 ∷ 0 ∷ 0 ∷ []))

  pub reset_view :
      (s a : ℕ) (rest : List ℕ)
      → raw_reset.view (raw_reset.bytes (reset_raw s host a) ++ rest) ≡ reset_raw s host a
  unfolding u32_to_be_bytes
  reset_view s a rest =
      let tail : List ℕ = 0x00 ∷ 0x00 ∷ 0x00 ∷ 0x14 ∷ (u32_to_be_bytes a ++ replicate 20 0) in
      rw (
        append_assoc host tail rest,
        take-append_exact 64 host (tail ++ rest) h,
        drop-append_exact 64 host (tail ++ rest) h,
        drop-append_add 64 4 host (tail ++ rest) h,
        drop-append_add 64 8 host (tail ++ rest) h,
      )

  pub reset_length : (s a : ℕ) → length (raw_reset.bytes (reset_raw s host a)) ≡ 98
  unfolding u32_to_be_bytes
  reset_length s a = omega (
    arith,
    length-append host (0x00 ∷ 0x00 ∷ 0x00 ∷ 0x14 ∷ (u32_to_be_bytes a ++ replicate 20 0)),
  )

  module _ (datetime : List ℕ) (k : length datetime ≡ 14) where
    abbrev full_tail : List ℕ
    full_tail =
        0x00
        ∷ 0x00
        ∷ 0x00
        ∷ 0x14
        ∷ (replicate 20 0 ++ ((0x00 ∷ 0x00 ∷ 0x00 ∷ 0x10 ∷ []) ++ (datetime ++ (0 ∷ 0 ∷ []))))

    pub full_view :
        (s : ℕ) (rest : List ℕ)
        → raw_full.view (raw_full.bytes (full_raw s host datetime) ++ rest)
          ≡ full_raw s host datetime
    unfolding u32_to_be_bytes
    full_view s rest = rw (
      append_assoc host full_tail rest,
      take-append_exact 64 host (full_tail ++ rest) h,
      drop-append_exact 64 host (full_tail ++ rest) h,
      drop-append_add 64 4 host (full_tail ++ rest) h,
      drop-append_add 64 24 host (full_tail ++ rest) h,
      drop-append_add 64 28 host (full_tail ++ rest) h,
      drop-append_add 64 42 host (full_tail ++ rest) h,
      append_assoc datetime (0 ∷ 0 ∷ []) rest,
      take-append_exact 14 datetime (0 ∷ 0 ∷ rest) k,
      drop-append_exact 14 datetime (0 ∷ 0 ∷ rest) k,
    )

    pub full_length : (s : ℕ) → length (raw_full.bytes (full_raw s host datetime)) ≡ 114
    unfolding u32_to_be_bytes
    full_length s =
        omega (arith, length-append host full_tail, length-append {A = ℕ} datetime (0 ∷ 0 ∷ []))
