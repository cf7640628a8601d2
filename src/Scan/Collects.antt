-- ===== src/Scan/Collects.antt =====
-- src/scan.rs: the loop of `broadcast_scan`.
use scanner_button.Prelude.{
  ℕ, zero, suc, ◌≢◌, refl, List, ◌∷◌, Bool, true, false, take, inl, inr, Bool-cases, Option-cases,
  if◌then◌else◌,
}
use scanner_button.Rust.Outcome.{Outcome, ok, err, panic}
use scanner_button.Rust.Triples.{Post, returns, continue-Post}
use scanner_button.Channel.{Failure, io_error, Effect, Kernel, heard, delivered}
use scanner_button.Scan.Decode.{decode}
use scanner_button.Scan.Datagrams.{decode-ne-panic}
use scanner_button.Scan.Broadcast.{deliver, collect_round, collect_rounds}

-- From some effects on, every datagram is answered with what it decodes to, and every error of the
-- socket with an error.
pub data Collected (base : List Effect) : List Effect → Type 0 where
  start : Collected base base
  read :
      (buffer : List ℕ) (effects : List Effect)
      → Collected base effects
      → Collected base (delivered (decode buffer) ∷ heard buffer ∷ effects)
  lost :
      (effects : List Effect)
      → Collected base effects
      → Collected base (delivered (err io_error) ∷ effects)

-- The loop goes on, or it has ended with an answer that nobody took.
pub data Collecting (base : List Effect) : Bool → List Effect → Type 0 where
  running : (effects : List Effect) → Collected base effects → Collecting base true effects
  closed : (effects : List Effect) → Collected base effects → Collecting base false effects
  closed_behind :
      (buffer : List ℕ) (effects : List Effect)
      → Collected base effects
      → Collecting base false (heard buffer ∷ effects)

-- How `deliver` ends, when the answer is no panic.
data IsDelivered (resp : Outcome _ Failure) (effects : List Effect)
    : Outcome Bool Failure × List Effect → Type 0 where
  taken : IsDelivered resp effects (ok true, delivered resp ∷ effects)
  untaken : IsDelivered resp effects (ok false, effects)

deliver-IsDelivered :
    (kernel : Kernel) (resp : Outcome _ Failure) (effects : List Effect)
    → resp ≢ panic
    → IsDelivered resp effects (deliver kernel resp effects)
unfolding deliver
deliver-IsDelivered kernel panic effects h = absurd (h refl)
deliver-IsDelivered kernel (ok r) effects h =
    elim (Bool-cases (kernel.allows effects (delivered (ok r)))) [
      | inl e ↦ rw e taken
      | inr e ↦ rw e untaken
    ]
deliver-IsDelivered kernel (err x) effects h =
    elim (Bool-cases (kernel.allows effects (delivered (err x)))) [
      | inl e ↦ rw e taken
      | inr e ↦ rw e untaken
    ]

-- A round of a loop that goes on.
collect_round-Collecting :
    {bad : List Effect → Type 0} (kernel : Kernel) (base effects : List Effect)
    → Collected base effects
    → Post {E = Failure} (Collecting base) bad (collect_round kernel effects)
unfolding collect_round
collect_round-Collecting {bad} kernel base effects c =
    elim (Option-cases (kernel.recv_from effects)) [
      | inl e ↦
          rw (collect_round, e)
            (io_round (deliver-IsDelivered kernel (err io_error) effects (λ h. cc)))
      | inr (datagram, e) ↦
          rw (collect_round, e)
            (read_round (
              deliver-IsDelivered kernel (decode (take 65536 datagram))
                (heard (take 65536 datagram) ∷ effects) (decode-ne-panic _)))
    ]
  where
    io_round :
        {r : Outcome Bool Failure × List Effect}
        → IsDelivered (err io_error) effects r
        → Post {E = Failure} (Collecting base) bad r
    io_round taken = returns _ _ (running _ (lost _ c))
    io_round untaken = returns _ _ (closed _ c)

    read_round :
        {buffer : List ℕ} {r : Outcome Bool Failure × List Effect}
        → IsDelivered (decode buffer) (heard buffer ∷ effects) r
        → Post {E = Failure} (Collecting base) bad r
    read_round taken = returns _ _ (running _ (read _ _ c))
    read_round untaken = returns _ _ (closed_behind _ _ c)

pub collect_rounds-Collecting :
    {bad : List Effect → Type 0} (kernel : Kernel) (base : List Effect) (n : ℕ)
    → Post {E = Failure} (Collecting base) bad (collect_rounds kernel n base)
unfolding collect_rounds
collect_rounds-Collecting kernel base zero = returns _ _ (running _ start)
collect_rounds-Collecting {bad} kernel base (suc n) =
    continue-Post (collect_rounds kernel n base)
      (λ running. if running then collect_round kernel else λ s. (ok false, s))
      (collect_rounds-Collecting kernel base n) next
  where
    next :
        (b : Bool) (effects : List Effect)
        → Collecting base b effects
        → Post {E = Failure}
            (Collecting base)
            bad
            ((if b then collect_round kernel else λ s. (ok false, s)) effects)
    next b effects (running _ c) = collect_round-Collecting kernel base effects c
    next b effects (closed _ c) = returns _ _ (closed _ c)
    next b effects (closed_behind buffer effects' c) = returns _ _ (closed_behind _ _ c)
