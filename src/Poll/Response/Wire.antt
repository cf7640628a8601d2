-- ===== src/Poll/Response/Wire.antt =====
-- bjnp/src/poll/response.rs: `Response` and `RawResponse`.
use Prim.Native.Nat.{bit_and}
use scanner_button.Prelude.{ℕ, Option, none, some, List, take, drop, ◌++◌, ◌==◌, not, if◌then◌else◌}
use scanner_button.Rust.Outcome.{Outcome, ok, ◌>>=◌}
use scanner_button.Rust.Word.{from_be_bytes}
use scanner_button.Serdes.Error.{FormatError}
use scanner_button.Serdes.Traits.{SizedDeserialize, Deserialize, sized_deserialize}
use scanner_button.Serdes.Raw.{Layout, raw_deserialize}
use scanner_button.Poll.Response.Button.{Interrupt, RawInterrupt, raw_interrupt_bytes}
use scanner_button.Poll.Response.Button.{raw_interrupt_view, interrupt_try_from}

pub record Response : Type 0 where
  pub status : ℕ
  pub session_id : Option ℕ
  pub action_id : Option ℕ
  pub interrupt : Option Interrupt

pub record RawResponse : Type 0 where
  pub status : List ℕ
  pub session_id : List ℕ
  pub unk_1 : List ℕ
  pub action_id : List ℕ
  pub interrupt : RawInterrupt

abbrev pub raw_response_bytes : RawResponse → List ℕ
raw_response_bytes r =
    r.status ++ (r.session_id ++ (r.unk_1 ++ (r.action_id ++ raw_interrupt_bytes r.interrupt)))

abbrev pub raw_response_view : List ℕ → RawResponse
raw_response_view buffer = record {
  status = take 4 buffer;
  session_id = take 4 (drop 4 buffer);
  unk_1 = take 4 (drop 8 buffer);
  action_id = take 4 (drop 12 buffer);
  interrupt = raw_interrupt_view (drop 16 buffer);
}

abbrev pub raw_response : Layout RawResponse
raw_response = record { size_of = 36; bytes = raw_response_bytes; view = raw_response_view }

-- `TryFrom<&RawResponse> for Response`
unfoldable pub response_try_from : RawResponse → Outcome Response FormatError
response_try_from raw =
    let status = from_be_bytes raw.status in
    if not (bit_and status 0x00008000 == 0)
    then (do
      interrupt ← interrupt_try_from raw.interrupt
      ok (record {
        status = status;
        session_id = none;
        action_id = some (from_be_bytes raw.action_id);
        interrupt = some interrupt;
      }))
    else ok (record {
      status = status;
      session_id = some (from_be_bytes raw.session_id);
      action_id = none;
      interrupt = none;
    })

abbrev pub response_sized : SizedDeserialize Response
response_sized = raw_deserialize raw_response response_try_from

instance abbrev pub response_deserialize : Deserialize Response
response_deserialize = sized_deserialize response_sized
