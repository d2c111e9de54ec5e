-- ===== src/Wire/Quote/RoundTrip.antt =====
-- The wire form of an argv and the parser's agreement with it
-- (runtime/ops.go, parseExecWireArgv; runtime/staging.go, shellQuote).
use gc_runtime_nomad.Base.{suc, Bool, some, List, [], Bytes, ◌≡◌, ◌↔◌, sym, ap, ◌∙◌, length}
use gc_runtime_nomad.Wire.Quote.{parse_exec_wire_argv}
use gc_runtime_nomad.Wire.Quote.Form.{wire}
use gc_runtime_nomad.Wire.Quote.Accepts.{wire_complete}
use gc_runtime_nomad.Wire.Quote.Sound.{parse_words_sound}

-- The parser accepts exactly the wire form: it answers an argv if and only if the command is that
-- argv's words, each as `shellQuote` writes it, one space apart, with at most one space behind the
-- last word. In particular every argv that is quoted so comes back unchanged.
pub parse_exec_wire_argv-wire_iff :
    (command : Bytes) (argv : List Bytes)
    → (parse_exec_wire_argv command ≡ some argv)
      ↔ ((trailing : Bool) × (command ≡ wire argv trailing))
unfolding parse_exec_wire_argv
parse_exec_wire_argv-wire_iff command argv = (
  (λ e.
      let (more, trailing, r_eq, s_eq) =
        parse_words_sound (suc (length command)) [] command argv e in
      (trailing, s_eq ∙ ap (λ w. wire w trailing) (sym r_eq))),
  λ (trailing, e). rw e (wire_complete argv trailing),
)
