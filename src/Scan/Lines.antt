-- ===== src/Scan/Lines.antt =====
-- src/scan.rs: the lines that an inquiry writes.
use scanner_button.Prelude.{ℕ, ◌≡◌, sym, ap, ◌∙◌, List, [], ◌∷◌, inl, inr, Bool-cases}
use scanner_button.Rust.Outcome.{Outcome, ok}
use scanner_button.Rust.Triples.{continue-eq-ok}
use scanner_button.Discover.{Response}
use scanner_button.Channel.{Failure}
use scanner_button.Scan.Sort.{sort_entries}
use scanner_button.Scan.Inquire.{
  Terminal, Inquiry, device_line, entry_line, write_line, write_entries, report,
}

-- The lines of a scanner, newest first, on top of those that are there.
abbrev pub entry_lines : Terminal → List (List ℕ × List ℕ) → List (List ℕ) → List (List ℕ)
entry_lines terminal [] lines = lines
entry_lines terminal (e ∷ rest) lines = entry_lines terminal rest (entry_line terminal e ∷ lines)

write_line-eq-ok :
    (terminal : Terminal) (line : List ℕ) (inquiry after : Inquiry)
    → write_line terminal line inquiry ≡ (ok tt, after)
    → after ≡ record inquiry { lines = line ∷ inquiry.lines }
unfolding write_line
write_line-eq-ok terminal line inquiry after e = elim (Bool-cases (terminal.takes inquiry.lines)) [
  | inl h ↦ sym (ap (λ (p : Outcome (Unit {0}) Failure × Inquiry). p.1) (rw h at e))
  | inr h ↦ cc (ap (λ (p : Outcome (Unit {0}) Failure × Inquiry). p.0) (rw h at e))
]

write_entries-eq-ok :
    (terminal : Terminal) (es : List (List ℕ × List ℕ)) (inquiry after : Inquiry)
    → write_entries terminal es inquiry ≡ (ok tt, after)
    → after ≡ record inquiry { lines = entry_lines terminal es inquiry.lines }
unfolding write_entries
write_entries-eq-ok terminal [] inquiry after e =
    sym (ap (λ (p : Outcome (Unit {0}) Failure × Inquiry). p.1) e)
write_entries-eq-ok terminal (x ∷ es) inquiry after e =
    let (_, s1, e1, r1) =
      continue-eq-ok (write_line terminal (entry_line terminal x) inquiry) _ tt after e in
    write_entries-eq-ok terminal es s1 after r1
    ∙ ap (λ (i : Inquiry). record i { lines = entry_lines terminal es i.lines })
        (write_line-eq-ok terminal (entry_line terminal x) inquiry s1 e1)

pub report-eq-ok :
    (terminal : Terminal) (device : Response) (entries : List (List ℕ × List ℕ))
    (inquiry after : Inquiry)
    → report terminal device entries inquiry ≡ (ok tt, after)
    → after ≡ record inquiry {
      lines =
          entry_lines terminal (sort_entries entries) (device_line terminal device ∷ inquiry.lines);
    }
unfolding report
report-eq-ok terminal device entries inquiry after e =
    let (_, s1, e1, r1) =
      continue-eq-ok (write_line terminal (device_line terminal device) inquiry) _ tt after e in
    write_entries-eq-ok terminal (sort_entries entries) s1 after r1
    ∙ ap (λ (i : Inquiry). record i { lines = entry_lines terminal (sort_entries entries) i.lines })
        (write_line-eq-ok terminal (device_line terminal device) inquiry s1 e1)
