-- ===== src/Scan/Until.antt =====
-- src/scan.rs: what `scan` does up to its deadline.
use scanner_button.Prelude.{
  ◌≡◌, refl, sym, ◌∙◌, ◌↔◌, List, [], ◌∷◌, ◌++◌, Bool, true, false, append_assoc, append-nil,
}
use scanner_button.Rust.Outcome.{Outcome, ok, err, panic}
use scanner_button.Discover.{Response}
use scanner_button.Channel.{Failure}
use scanner_button.Scan.Select.{
  Happening, answered, joined, deadline, Scan, scan_loop, on_answer, on_joined, spawn_inquiry,
  shutdown,
}

-- The responses among the answers in front of the deadline.
abbrev pub found : List Happening → List Response
found [] = []
found (answered name addr (ok resp) ∷ rest) = resp ∷ found rest
found (deadline ∷ rest) = []
found (_ ∷ rest) = found rest

-- Whether the deadline is among the events.
abbrev pub is_over : List Happening → Bool
is_over [] = false
is_over (deadline ∷ rest) = true
is_over (_ ∷ rest) = is_over rest

-- What is left when the deadline has come: nothing runs.
pub record IsScanned (happenings : List Happening) (before after : Scan) (waiting : Bool)
    : Type 0 where
  pub inquired : after.inquired ≡ before.inquired ++ found happenings
  pub ended : (waiting ≡ false) ↔ (is_over happenings ≡ true)
  pub stopped : waiting ≡ false → after.running ≡ []

-- One more event that the loop passes over.
passed :
    (h : Happening) (rest : List Happening) (before middle after : Scan) (waiting : Bool)
    → (is_over (h ∷ rest) ≡ is_over rest)
    → (before.inquired ++ found (h ∷ rest) ≡ middle.inquired ++ found rest)
    → IsScanned rest middle after waiting
    → IsScanned (h ∷ rest) before after waiting
passed h rest before middle after waiting over same s = record {
  inquired = s.inquired ∙ sym same;
  ended = rw over (s.ended);
  stopped = s.stopped;
}

unread_answer :
    (name : _) (addr : _) (maybe_resp : Outcome Response Failure) (rest : List Happening)
    (before : Scan)
    → before.inquired ++ found (answered name addr maybe_resp ∷ rest)
      ≡ (on_answer maybe_resp before).inquired ++ found rest
unfolding on_answer spawn_inquiry
unread_answer name addr (ok resp) rest before =
    sym (append_assoc before.inquired (resp ∷ []) (found rest))
unread_answer name addr (err e) rest before = refl
unread_answer name addr panic rest before = refl

-- Over any run of events, each response in front of the deadline, and no other, is inquired once, in
-- the order of the responses; errors and tasks that end change nothing of it. The loop ends exactly
-- when the deadline is among the events, and then no task runs any more.
pub scan_loop-IsScanned :
    (happenings : List Happening) (before : Scan)
    → IsScanned happenings before (scan_loop happenings before).0 (scan_loop happenings before).1
unfolding scan_loop shutdown on_joined
scan_loop-IsScanned [] before = record {
  inquired = sym (append-nil _);
  ended = (λ e. cc, λ e. cc);
  stopped = λ e. cc;
}
scan_loop-IsScanned (answered name addr maybe_resp ∷ rest) before =
    passed (answered name addr maybe_resp) rest before (on_answer maybe_resp before) _ _
      (over maybe_resp) (unread_answer name addr maybe_resp rest before)
      (scan_loop-IsScanned rest (on_answer maybe_resp before))
  where
    over : (r : Outcome Response Failure) → is_over (answered name addr r ∷ rest) ≡ is_over rest
    over r = refl
scan_loop-IsScanned (joined place result ∷ rest) before =
    passed (joined place result) rest before (on_joined place before) _ _ refl refl
      (scan_loop-IsScanned rest (on_joined place before))
scan_loop-IsScanned (deadline ∷ rest) before = record {
  inquired = sym (append-nil _);
  ended = (λ e. refl, λ e. refl);
  stopped = λ e. refl;
}
