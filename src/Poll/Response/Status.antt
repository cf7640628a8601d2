-- ===== src/Poll/Response/Status.antt =====
-- bjnp/src/poll/response.rs: what a poll response says, by bit 15 of its status.
use Prim.Native.Nat.{bit_and}
use mathlib.Core.Path.{subst}
use scanner_button.Prelude.{
  ℕ, ◌+◌, ◌/◌, ◌%◌, ◌≡◌, refl, ap, ◌∙◌, true, false, not, none, some, List, [], ◌∷◌, ◌++◌, length,
  arith,
}
use scanner_button.Prelude.{◌==◌, ◌⊎◌, inl, inr, length-append}
use scanner_button.Rust.Outcome.{ok, ok-injective, >>=-eq-ok}
use scanner_button.Rust.Bits.{bit_and_0x8000}
use scanner_button.Rust.Word.{IsU32, u32_to_be_bytes, from_be_bytes, from_be_bytes-u32}
use scanner_button.Serdes.Traits.{
  deserialize_sized, deserialize_sized-eq-ok, deserialize_sized_enough,
}
use scanner_button.Poll.Response.Button.{
  Interrupt, RawInterrupt, interrupt_try_from, raw_interrupt_view,
}
use scanner_button.Poll.Response.RoundTrip.{
  view-interrupt_bytes, length-interrupt_bytes, interrupt_bytes, interrupt_try_from-to_raw,
}
use scanner_button.Poll.Response.Wire.{
  Response, RawResponse, response_try_from, response_sized, raw_response_view,
}

-- Bit 15 of the status.
abbrev pub IsInterrupted : ℕ → Type 0
IsInterrupted status = status / 0x8000 % 2 ≡ 1

interrupted_test : (status : ℕ) → IsInterrupted status → not (bit_and status 0x8000 == 0) ≡ true
interrupted_test status h = rw bit_and_0x8000 (ground arith)

plain_test : (status : ℕ) → status / 0x8000 % 2 ≡ 0 → not (bit_and status 0x8000 == 0) ≡ false
plain_test status h = rw bit_and_0x8000 (ground arith)

-- The bytes of a response: three words around one that is not read, and what stands for the
-- interrupt.
abbrev pub response_bytes : ℕ → ℕ → List ℕ → ℕ → List ℕ → List ℕ
response_bytes status session_id unk_1 action_id interrupt =
    u32_to_be_bytes status
    ++ (u32_to_be_bytes session_id ++ (unk_1 ++ (u32_to_be_bytes action_id ++ interrupt)))

view-response_bytes :
    (status session_id action_id u0 u1 u2 u3 : ℕ) (tail : List ℕ)
    → raw_response_view (response_bytes status session_id (u0 ∷ u1 ∷ u2 ∷ u3 ∷ []) action_id tail)
      ≡ record {
        status = u32_to_be_bytes status;
        session_id = u32_to_be_bytes session_id;
        unk_1 = u0 ∷ u1 ∷ u2 ∷ u3 ∷ [];
        action_id = u32_to_be_bytes action_id;
        interrupt = raw_interrupt_view tail;
      }
unfolding u32_to_be_bytes
view-response_bytes status session_id action_id u0 u1 u2 u3 tail = refl

length-response_bytes :
    (status session_id action_id u0 u1 u2 u3 : ℕ) (tail : List ℕ)
    → length (response_bytes status session_id (u0 ∷ u1 ∷ u2 ∷ u3 ∷ []) action_id tail)
      ≡ 16 + length tail
unfolding u32_to_be_bytes
length-response_bytes status session_id action_id u0 u1 u2 u3 tail = omega arith

module _ (status session_id action_id : ℕ) (u0 u1 u2 u3 : ℕ) (v : IsU32 status) where
  -- With bit 15 clear the response carries the session and nothing else: the bytes of the action
  -- and of the interrupt may be anything.
  pub response_plain :
      (interrupt rest : List ℕ)
      → IsU32 session_id
      → length interrupt ≡ 20
      → status / 0x8000 % 2 ≡ 0
      → deserialize_sized response_sized
          (response_bytes status session_id (u0 ∷ u1 ∷ u2 ∷ u3 ∷ []) action_id (interrupt ++ rest))
        ≡ ok (
          record {
            status = status;
            session_id = some session_id;
            action_id = none;
            interrupt = none;
          },
          36,
        )
  unfolding response_try_from
  response_plain interrupt rest w size clear =
      deserialize_sized_enough response_sized _
        (omega (
          arith,
          length-response_bytes status session_id action_id u0 u1 u2 u3 (interrupt ++ rest),
          length-append interrupt rest,
        ))
        (ap response_try_from
            (view-response_bytes status session_id action_id u0 u1 u2 u3 (interrupt ++ rest))
          ∙ rw
              (from_be_bytes-u32 status v, plain_test status clear, from_be_bytes-u32 session_id w))

  -- With bit 15 set it carries the action and the interrupt, and no session.
  pub response_interrupted :
      (i : Interrupt) (rest : List ℕ)
      → IsU32 action_id
      → IsInterrupted status
      → deserialize_sized response_sized (
          response_bytes status session_id
            (u0 ∷ u1 ∷ u2 ∷ u3 ∷ [])
            action_id
            (interrupt_bytes i ++ rest))
        ≡ ok (
          record {
            status = status;
            session_id = none;
            action_id = some action_id;
            interrupt = some i;
          },
          36,
        )
  unfolding response_try_from
  response_interrupted i rest w set =
      deserialize_sized_enough response_sized _
        (omega (
          arith,
          length-response_bytes status session_id action_id u0 u1 u2 u3 (interrupt_bytes i ++ rest),
          length-append (interrupt_bytes i) rest,
          length-interrupt_bytes i,
        ))
        (ap response_try_from (
            view-response_bytes status session_id action_id u0 u1 u2 u3 (interrupt_bytes i ++ rest))
          ∙ ap
              (λ (x : RawInterrupt). response_try_from (record {
                status = u32_to_be_bytes status;
                session_id = u32_to_be_bytes session_id;
                unk_1 = u0 ∷ u1 ∷ u2 ∷ u3 ∷ [];
                action_id = u32_to_be_bytes action_id;
                interrupt = x;
              }))
              (view-interrupt_bytes i rest)
          ∙ rw (
            from_be_bytes-u32 status v,
            interrupted_test status set,
            interrupt_try_from-to_raw i,
            from_be_bytes-u32 action_id w,
          ))

-- Bit 15 decides which fields a response has.
abbrev pub IsResponse : Response → Type 0
IsResponse r =
    (IsInterrupted r.status
      × (r.session_id ≡ none)
      × ((a : ℕ) × (r.action_id ≡ some a))
      × ((i : Interrupt) × (r.interrupt ≡ some i)))
    ⊎ ((r.status / 0x8000 % 2 ≡ 0)
        × ((s : ℕ) × (r.session_id ≡ some s))
        × (r.action_id ≡ none)
        × (r.interrupt ≡ none))

bit_cases : (n : ℕ) → (n % 2 ≡ 1) ⊎ (n % 2 ≡ 0)
bit_cases n = ground arith

response_try_from-IsResponse :
    (raw : RawResponse) (r : Response) → response_try_from raw ≡ ok r → IsResponse r
unfolding response_try_from
response_try_from-IsResponse raw r e = elim (bit_cases (from_be_bytes raw.status / 0x8000)) [
  | inr clear ↦
      subst IsResponse (ok-injective _ r (rw (plain_test _ clear) at e))
        (inr (clear, (from_be_bytes raw.session_id, refl), refl, refl))
  | inl set ↦
      let (i, _, e') =
        >>=-eq-ok (interrupt_try_from raw.interrupt) _ (rw (interrupted_test _ set) at e) in
      subst IsResponse (ok-injective _ r e')
        (inl (set, refl, (from_be_bytes raw.action_id, refl), (i, refl)))
]

-- Whatever the bytes, an accepted response takes 36 of them, and it has either an action and an
-- interrupt or a session, as bit 15 of its status says.
pub response_deserialize-IsResponse :
    (buffer : List ℕ) (r : Response) (n : ℕ)
    → deserialize_sized response_sized buffer ≡ ok (r, n)
    → (n ≡ 36) × IsResponse r
response_deserialize-IsResponse buffer r n e =
    let (_, read, taken) = deserialize_sized-eq-ok response_sized buffer r n e in
    (taken, response_try_from-IsResponse _ r read)
