-- ===== src/Shell/Outputs.antt =====
-- `executeCommand` ends, and where `cout` goes is the same behind it.
use ftf_interview.Base.{
  ℕ, suc, ◌≡◌, ◌≢◌, refl, ap, subst, ◌∙◌, List, true, not, ◌&&◌, Bytes, bytes, if_ind, equal,
  length, arith, get_elem?,
}
use ftf_interview.Shell.{Sink, Shell, Command, Os, Run, Turn}
use ftf_interview.Shell.Numbers.{without}
use ftf_interview.Shell.Create.{}
use ftf_interview.Shell.Choose.{create_command}
use ftf_interview.Shell.Arguments.{create_command-IsFor}
use ftf_interview.Shell.Keeps.{
  Safe, SameOut, Keeps-trans, Safe-mono, then_run-Safe, or_breaks-Safe, or_breaks-Safe_found,
}
use ftf_interview.Shell.Created.{create_command-Kept}
use ftf_interview.Shell.Termination.{execute-Keeps}
use ftf_interview.Shell.Loop.{register, conclude, execute, execute_command}

register-SameOut : (turn : Turn) (c : Command) (s : Shell) → SameOut s (register turn c s)
unfolding register
register-SameOut turn c s =
    if_ind (SameOut s) (not c.built_in_cmd && c.background_cmd) _ _ (λ _. refl) (λ _. refl)

abbrev KeptBy : Shell → ℕ × Shell → Type 0
KeptBy s r = SameOut s r.1

conclude-Safe : (turn : Turn) (c : Command) (s : Shell) → Safe (KeptBy s) (conclude turn c s)
unfolding conclude
conclude-Safe turn c s =
    if_ind (Safe (KeptBy s)) c.built_in_cmd _ _
      (λ _. or_breaks-Safe (KeptBy s) (get_elem? c.args 0) _ (λ first.
        if_ind (Safe (KeptBy s)) (equal (without b'&' first) (bytes "quit")) _ _ (λ _. refl)
          (λ _. refl)))
      (λ _. refl)

execute_command-Safe :
    (os : Os) (turn : Turn) (cmd_line : Bytes) (s : Shell)
    → Safe (KeptBy s) (execute_command os turn cmd_line s)
unfolding execute_command
execute_command-Safe os turn cmd_line s =
    or_breaks-Safe_found (KeptBy s) (create_command os cmd_line s) _ (λ (r : Command × Shell) found.
      let made = create_command-IsFor os cmd_line s r.1 r.0 found in
      let t = register turn r.0 r.1 in
      let kept : SameOut s t =
        register-SameOut turn r.0 r.1 ∙ create_command-Kept s os cmd_line r.1 r.0 found in
      then_run-Safe (SameOut s) (KeptBy s)
        (execute (suc (length cmd_line)) os turn (record r.0 { list = true }) t) _
        (Keeps-trans (execute (suc (length cmd_line)) os turn (record r.0 { list = true }) t) s t
          kept
          (execute-Keeps os turn (suc (length cmd_line)) (record r.0 { list = true }) t
            (rw (made.line) made.arrow) (omega (arith, ap length made.line))))
        (λ u e.
          Safe-mono (KeptBy u) (KeptBy s) (conclude turn r.0 u) (λ _ k. k ∙ e)
            (conclude-Safe turn r.0 u)))

-- For every line, shell and answers of the system, the fuel of execute_command is enough.
execute_command-ends :
    (os : Os) (turn : Turn) (cmd_line : Bytes) (s : Shell)
    → execute_command os turn cmd_line s ≢ Run.out_of_fuel
execute_command-ends os turn cmd_line s e =
    subst (Safe (KeptBy s)) e (execute_command-Safe os turn cmd_line s)

-- Where executeCommand returns, the descriptor 1, and with it cout, leads where it led before, and
-- so do the descriptors that redirections hold.
pub execute_command-SameOut :
    (os : Os) (turn : Turn) (cmd_line : Bytes) (s t : Shell) (code : ℕ)
    → execute_command os turn cmd_line s ≡ Run.returns (code, t)
    → (t.out ≡ s.out) × (t.saved ≡ s.saved)
execute_command-SameOut os turn cmd_line s t code e =
    let same : SameOut s t = subst (Safe (KeptBy s)) e (execute_command-Safe os turn cmd_line s) in
    (ap (λ (d : Sink × List Sink). d.0) same, ap (λ (d : Sink × List Sink). d.1) same)
