-- ===== src/Scan/Hears.antt =====
-- src/scan.rs: what the task of a network interface heard before it delivered a response.
use scanner_button.Prelude.{ℕ, ◌≡◌, refl, sym, ap, List, [], ◌∷◌, ◌++◌, Bool}
use mathlib.Core.List.{Memᴰ}
use mathlib.Core.List.Memᴰ
use scanner_button.Rust.Outcome.{Outcome, ok, panic}
use scanner_button.Rust.Triples.{Post, returns, fails}
use scanner_button.Discover.{Response}
use scanner_button.Channel.{Failure, Effect, sent_to, heard, delivered}
use scanner_button.Scan.Decode.{decode}
use scanner_button.Scan.Broadcast.{Addr, addr_v4, addr_v6}
use scanner_button.Scan.Collects.{
  Collected, start, read, lost, Collecting, running, closed, closed_behind,
}
use scanner_button.Scan.Broadcasts.{
  target, opened, Unsent, no_socket, not_broadcasting, not_sent, discover_bytes,
}

-- Behind `base`, and among the effects, a datagram was heard that decodes to the response.
pub record HeardBehind (base effects : List Effect) (resp : Response) : Type 0 where
  pub buffer : List ℕ
  pub earlier : List Effect
  pub later : List Effect
  pub split : effects ≡ later ++ (heard buffer ∷ earlier)
  pub since : Collected base earlier
  pub decoded : decode buffer ≡ ok resp

one_later :
    (e : Effect) (base effects : List Effect) (resp : Response)
    → HeardBehind base effects resp
    → HeardBehind base (e ∷ effects) resp
one_later e base effects resp h = record {
  buffer = h.buffer;
  earlier = h.earlier;
  later = e ∷ h.later;
  split = ap (λ (l : List Effect). e ∷ l) h.split;
  since = h.since;
  decoded = h.decoded;
}

answer_of : Effect → Outcome Response Failure
answer_of (delivered resp) = resp
answer_of _ = panic

Collected-HeardBehind :
    (base : List Effect) (resp : Response)
    → ¬ Memᴰ (delivered (ok resp)) base
    → (effects : List Effect) → Collected base effects
    → Memᴰ (delivered (ok resp)) effects
    → HeardBehind base effects resp
unfolding answer_of
Collected-HeardBehind base resp fresh _ start m = absurd (fresh m)
Collected-HeardBehind base resp fresh _ (read buffer effects c) (Memᴰ.head e) = record {
  buffer = buffer;
  earlier = effects;
  later = delivered (decode buffer) ∷ [];
  split = refl;
  since = c;
  decoded = sym (ap answer_of e);
}
Collected-HeardBehind base resp fresh _ (read buffer effects c) (Memᴰ.tail (Memᴰ.head e)) = cc
Collected-HeardBehind base resp fresh _ (read buffer effects c) (Memᴰ.tail (Memᴰ.tail m)) =
    one_later _ base _ resp
      (one_later _ base _ resp (Collected-HeardBehind base resp fresh effects c m))
Collected-HeardBehind base resp fresh _ (lost effects c) (Memᴰ.head e) = cc (ap answer_of e)
Collected-HeardBehind base resp fresh _ (lost effects c) (Memᴰ.tail m) =
    one_later _ base _ resp (Collected-HeardBehind base resp fresh effects c m)

Collecting-HeardBehind :
    (base : List Effect) (resp : Response)
    → ¬ Memᴰ (delivered (ok resp)) base
    → (running : Bool) (effects : List Effect) → Collecting base running effects
    → Memᴰ (delivered (ok resp)) effects
    → HeardBehind base effects resp
unfolding answer_of
Collecting-HeardBehind base resp fresh _ _ (running effects c) m =
    Collected-HeardBehind base resp fresh effects c m
Collecting-HeardBehind base resp fresh _ _ (closed effects c) m =
    Collected-HeardBehind base resp fresh effects c m
Collecting-HeardBehind base resp fresh _ _ (closed_behind buffer effects c) (Memᴰ.head e) = cc
Collecting-HeardBehind base resp fresh _ _ (closed_behind buffer effects c) (Memᴰ.tail m) =
    one_later _ base _ resp (Collected-HeardBehind base resp fresh effects c m)

-- Up to its first round a task delivers nothing.
opened-fresh : (addr : Addr) (resp : Response) → ¬ Memᴰ (delivered (ok resp)) (opened addr)
opened-fresh (addr_v4 ip broadcast) resp (Memᴰ.head e) = cc
opened-fresh (addr_v4 ip broadcast) resp (Memᴰ.tail (Memᴰ.head e)) = cc
opened-fresh (addr_v4 ip broadcast) resp (Memᴰ.tail (Memᴰ.tail m)) = Memᴰ.not-nil m
opened-fresh (addr_v6 ip) resp (Memᴰ.head e) = cc
opened-fresh (addr_v6 ip) resp (Memᴰ.tail m) = Memᴰ.not-nil m

Unsent-fresh :
    (addr : Addr) (resp : Response) (effects : List Effect)
    → Unsent addr effects
    → ¬ Memᴰ (delivered (ok resp)) effects
Unsent-fresh addr resp _ no_socket m = Memᴰ.not-nil m
Unsent-fresh addr resp _ not_broadcasting (Memᴰ.head e) = cc
Unsent-fresh addr resp _ not_broadcasting (Memᴰ.tail m) = Memᴰ.not-nil m
Unsent-fresh addr resp _ not_sent m = opened-fresh addr resp m

-- The effects of a task when its discover command is sent.
abbrev pub asked : Addr → List Effect
asked addr = sent_to discover_bytes (target addr) ∷ opened addr

asked-fresh : (addr : Addr) (resp : Response) → ¬ Memᴰ (delivered (ok resp)) (asked addr)
asked-fresh addr resp (Memᴰ.head e) = cc
asked-fresh addr resp (Memᴰ.tail m) = opened-fresh addr resp m

pub run-HeardBehind :
    (addr : Addr) (resp : Response) (r : Outcome Bool Failure × List Effect)
    → Post (Collecting (asked addr)) (Unsent addr) r
    → Memᴰ (delivered (ok resp)) r.1
    → HeardBehind (asked addr) r.1 resp
run-HeardBehind addr resp _ (returns b effects c) m =
    Collecting-HeardBehind (asked addr) resp (asked-fresh addr resp) b effects c m
run-HeardBehind addr resp _ (fails e effects u) m = absurd (Unsent-fresh addr resp effects u m)
