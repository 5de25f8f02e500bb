-- ===== src/Shell/Termination.antt =====
-- Redirections inside each other end.
use ftf_interview.Base.{
  ℕ, zero, suc, ◌+◌, ◌≡◌, ◌≤◌, ◌<◌, refl, sym, ap, ◌∙◌, inl, inr, some, List, [], ◌∷◌, true, ◌||◌,
  Bytes, bytes, Bool-cases, Option-cases, if_ind, contains, starts_with, length, length-append,
  take, drop, take-drop, arith, split_by,
}
use ftf_interview.Parsing.{ltrim, rtrim, find_last_not_of}
use ftf_interview.Shell.{Sink, Shell, Command, Kind, Os, Turn}
use ftf_interview.Shell.Choose.{create_command}
use ftf_interview.Shell.Arguments.{HasArrow, create_command-IsFor}
use ftf_interview.Shell.Created.{create_command-Kept}
use ftf_interview.Shell.Keeps.{
  sinks, SameOut, Keeps, then_run-Keeps, then_run-Safe, or_breaks-Safe_found, print_jobs_list-Keeps,
  wait_with-Keeps,
}
use ftf_interview.Shell.Ends.{
  execute_cd-Keeps, execute_kill-Keeps, execute_quit-Keeps, execute_fg-Keeps, execute_bg-Keeps,
  execute_cat-Keeps, execute_external-Keeps,
}
use ftf_interview.Shell.Loop.{
  strip, around, arrow, is_append, out_file, save_out, restore_from, restore_out, redirected,
  redirect, execute_pipe, execute,
}

length-ltrim : (s : Bytes) → length (ltrim s) ≤ length s
unfolding ltrim
length-ltrim [] = omega arith
length-ltrim (c ∷ s) = grind (arith, length-ltrim s)

length-rtrim : (s : Bytes) → length (rtrim s) ≤ length s
unfolding rtrim
length-rtrim s = elim (Option-cases (find_last_not_of s)) [
  | inl n ↦ rw (n, rtrim) (omega arith)
  | inr (i, e) ↦
      let both : length (take (suc i) s) + length (drop (suc i) s) ≡ length s =
        sym (length-append (take (suc i) s) (drop (suc i) s)) ∙ ap length (take-drop (suc i) s) in
      rw (e, rtrim) (omega (arith, both))
]

length-strip : (s : Bytes) → length (strip s) ≤ length s
unfolding strip
length-strip s = omega (arith, length-ltrim (rtrim s), length-rtrim s)

-- The text before a barrier that stands in a text is shorter.
split_by-shorter :
    (b : ℕ) (barrier s : Bytes)
    → contains (b ∷ barrier) s ≡ true
    → (r : Bytes × Bytes) × (split_by (b ∷ barrier) s ≡ some r) × (length r.0 < length s)
unfolding contains split_by starts_with
split_by-shorter b barrier [] h = ground arith
split_by-shorter b barrier (c ∷ s) h = elim (Bool-cases (starts_with (b ∷ barrier) (c ∷ s))) [
  | inl y ↦ (([], drop (length (b ∷ barrier)) (c ∷ s)), rw (split_by, y) refl, omega arith)
  | inr n ↦
      let (r, e, l) = split_by-shorter b barrier s (ground (arith, n, h)) in
      ((c ∷ r.0, r.1), rw (split_by, n, e) refl, omega (arith, l))
]

length-around :
    (b : ℕ) (barrier s : Bytes)
    → contains (b ∷ barrier) s ≡ true
    → length (around (b ∷ barrier) s).0 < length s
unfolding around
length-around b barrier s h = let (r, e, l) = split_by-shorter b barrier s h in rw (around, e) l

length-redirected :
    (s : Bytes)
    → (contains (bytes ">>") s || contains (bytes ">") s) ≡ true
    → length (redirected s) < length s
unfolding redirected arrow is_append
length-redirected s h = elim (Bool-cases (contains (bytes ">>") s)) [
  | inl y ↦
      rw (redirected, y)
        (omega (arith, length-strip (around (bytes ">>") s).0, length-around 62 (62 ∷ []) s y))
  | inr n ↦
      rw (redirected, n)
        (omega (
          arith,
          length-strip (around (bytes ">") s).0,
          length-around 62 [] s (ground (arith, n, h)),
        ))
]

execute_pipe-Keeps : (turn : Turn) (s : Shell) → Keeps s (execute_pipe turn s)
unfolding execute_pipe
execute_pipe-Keeps turn s =
    then_run-Keeps s _ _ (wait_with-Keeps turn turn.keys s)
      (λ t. if_ind (SameOut t) turn.wait_fails _ _ (λ _. refl) (λ _. refl))

-- A redirection saves the descriptor 1, and takes it back.
redirect-saved : (os : Os) (line : Bytes) (s : Shell) → (redirect os line s).saved ≡ s.out ∷ s.saved
unfolding redirect save_out
redirect-saved os line s =
    if_ind (λ (t : Shell). t.saved ≡ s.out ∷ s.saved) (os.can_write (out_file line)) _ _ (λ _. refl)
      (λ _. refl)

restored : (s t : Shell) → t.saved ≡ s.out ∷ s.saved → SameOut s (restore_out t)
unfolding restore_out restore_from
restored s t e = ap (λ l. sinks (restore_from l t)) e

module _ (os : Os) (turn : Turn) where
  -- One kind of command, with the commands inside it.
  by_kind :
      (fuel : ℕ)
      → ((c : Command) (s : Shell)
          → HasArrow c.entered_cmd c.kind
          → length c.entered_cmd < fuel
          → Keeps s (execute fuel os turn c s))
      → (c : Command) (s : Shell) (k : Kind) → c.kind ≡ k
      → HasArrow c.entered_cmd k
      → length c.entered_cmd < suc fuel
      → Keeps s (execute (suc fuel) os turn c s)
  unfolding execute
  by_kind fuel ih c s Kind.pipe e a l = rw (execute, e) (execute_pipe-Keeps turn s)
  by_kind fuel ih c s Kind.redirection e a l =
      rw (execute, e)
        (or_breaks-Safe_found (SameOut s)
          (create_command os (redirected c.entered_cmd) (redirect os c.entered_cmd s)) _
          (λ (r : Command × Shell) found.
            let made =
              create_command-IsFor os (redirected c.entered_cmd) (redirect os c.entered_cmd s) r.1
                r.0 found in
            then_run-Safe (SameOut r.1) (SameOut s) (execute fuel os turn r.0 r.1) _
              (ih r.0 r.1 (rw (made.line) made.arrow)
                (omega (arith, ap length made.line, length-redirected c.entered_cmd a, l)))
              (λ t same. restored s t (
                ap (λ (d : Sink × List Sink). d.1)
                  (same
                    ∙ create_command-Kept (redirect os c.entered_cmd s) os
                        (redirected c.entered_cmd) r.1 r.0 found)
                ∙ redirect-saved os c.entered_cmd s))))
  by_kind fuel ih c s Kind.pwd e a l = rw (execute, e) refl
  by_kind fuel ih c s Kind.cd e a l = rw (execute, e) (execute_cd-Keeps os c s)
  by_kind fuel ih c s Kind.chprompt e a l = rw (execute, e) refl
  by_kind fuel ih c s Kind.showpid e a l = rw (execute, e) refl
  by_kind fuel ih c s Kind.jobs e a l = rw (execute, e) (print_jobs_list-Keeps turn s)
  by_kind fuel ih c s Kind.kill e a l = rw (execute, e) (execute_kill-Keeps turn c s)
  by_kind fuel ih c s Kind.fg e a l = rw (execute, e) (execute_fg-Keeps turn c s)
  by_kind fuel ih c s Kind.bg e a l = rw (execute, e) (execute_bg-Keeps turn c s)
  by_kind fuel ih c s Kind.quit e a l = rw (execute, e) (execute_quit-Keeps turn c s)
  by_kind fuel ih c s Kind.cat e a l = rw (execute, e) (execute_cat-Keeps os c s)
  by_kind fuel ih c s Kind.external e a l = rw (execute, e) (execute_external-Keeps turn c s)

  -- The fuel is above the length of the line.
  pub execute-Keeps :
      (fuel : ℕ) (c : Command) (s : Shell)
      → HasArrow c.entered_cmd c.kind
      → length c.entered_cmd < fuel
      → Keeps s (execute fuel os turn c s)
  execute-Keeps zero c s a l = absurd (omega arith)
  execute-Keeps (suc fuel) c s a l = by_kind fuel (execute-Keeps fuel) c s c.kind refl a l
