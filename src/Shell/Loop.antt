-- ===== src/Shell/Loop.antt =====
-- Linux Shell/Commands.cpp and smash.cpp: redirections and pipes, `executeCommand`, and `main`.
use ftf_interview.Base.{
  ℕ, zero, suc, Bool, true, false, ◌&&◌, not, none, some, List, [], ◌∷◌, ◌==◌, if◌then◌else◌,
  get_elem?, length, Bytes, bytes, equal, contains, has_char, split_by,
}
use ftf_interview.Jobs.{add_job, remove_finished_jobs}
use ftf_interview.Parsing.{ltrim, rtrim}
use ftf_interview.Shell.{
  Shell, Command, Kind, Message, Sink, Os, Run, Turn, print, print_error, then_run, or_breaks,
  on_jobs, name_command,
}
use ftf_interview.Shell.Numbers.{without}
use ftf_interview.Shell.Choose.{create_command}
use ftf_interview.Shell.Prints.{print_jobs_list}
use ftf_interview.Shell.Signals.{wait_with}
use ftf_interview.Shell.Directories.{execute_cd}
use ftf_interview.Shell.Control.{execute_kill, execute_quit, execute_fg, execute_bg}
use ftf_interview.Shell.Execute.{execute_cat, execute_external}
use Message.{cwd_is, smash_pid_is, open_failed, waitpid_failed, prompt}

-- `_ltrim(_rtrim(s))`
unfoldable pub strip : Bytes → Bytes
unfolding ltrim rtrim
strip s = ltrim (rtrim s)

-- `erase(find_last_of(c))`, of a text with a `c`
unfoldable pub cut_last : ℕ → Bytes → Bytes
unfolding has_char
cut_last c [] = []
cut_last c (x ∷ s) =
    let rest = cut_last c s in if x == c && not (has_char c s) then [] else x ∷ rest

unfoldable pub drop_sign : Bytes → Bytes
unfolding has_char cut_last strip
drop_sign s = if has_char b'&' s then strip (cut_last b'&' s) else s

-- The text on both sides of a barrier; the whole text twice where it has none.
unfoldable pub around : Bytes → Bytes → Bytes × Bytes
unfolding split_by
around barrier s = elim (split_by barrier s) [ none ↦ (s, s) | some (a, b) ↦ (a, b) ]

unfoldable pub is_append : Bytes → Bool
unfolding contains
is_append s = contains (bytes ">>") s

unfoldable pub arrow : Bytes → Bytes
unfolding is_append
arrow s = if is_append s then bytes ">>" else bytes ">"

-- `cmd` and `outFile` of a redirection
unfoldable pub redirected : Bytes → Bytes
unfolding around arrow strip
redirected s = strip (around (arrow s) s).0

unfoldable pub out_file : Bytes → Bytes
unfolding around drop_sign arrow strip
out_file s = strip (drop_sign (strip (around (arrow s) s).1))

-- `fd = dup(1)` and `close(1)`
unfoldable pub save_out : Shell → Shell
save_out s = record s { saved = s.out ∷ s.saved; out = Sink.closed }

-- `open` of the output, which takes the lowest free descriptor, 1; where it fails, that stays closed.
unfoldable pub redirect : Os → Bytes → Shell → Shell
unfolding out_file is_append save_out
redirect os s t =
    let name = out_file s in
    if os.can_write name
    then record (save_out t) { out = Sink.file name (is_append s) }
    else print_error open_failed (save_out t)

-- `close(1)`, `dup(fd)`, which takes the lowest free descriptor, 1, and `close(fd)`
unfoldable pub restore_from : List Sink → Shell → Shell
restore_from [] s = record s { out = Sink.closed }
restore_from (fd ∷ saved) s = record s { out = fd; saved = saved }

unfoldable pub restore_out : Shell → Shell
unfolding restore_from
restore_out s = restore_from s.saved s

unfoldable pub is_pipe_of_errors : Bytes → Bool
unfolding contains
is_pipe_of_errors s = contains (bytes "|&") s

unfoldable pub bar : Bytes → Bytes
unfolding is_pipe_of_errors
bar s = if is_pipe_of_errors s then bytes "|&" else bytes "|"

-- `left_cmd` and `right_cmd` of a pipe
unfoldable pub left_command : Bytes → Bytes
unfolding around bar strip
left_command s = strip (around (bar s) s).0

unfoldable pub right_command : Bytes → Bytes
unfolding around drop_sign bar strip
right_command s = drop_sign (strip (around (bar s) s).1)

-- The shell's own process of a pipe, for which no `for_pid` is set.
unfoldable pub execute_pipe : Turn → Shell → Run Shell
unfolding wait_with
execute_pipe turn s =
    then_run (wait_with turn turn.keys s)
      (λ t. Run.returns (if turn.wait_fails then print_error waitpid_failed t else t))

-- `execute`. The fuel counts redirections inside each other.
unfoldable pub execute : (fuel : ℕ) → Os → Turn → Command → Shell → Run Shell
unfolding execute_pipe redirect redirected create_command execute_cd execute_kill execute_quit
    execute_fg execute_bg execute_cat execute_external print_jobs_list restore_out
execute zero os turn c s = Run.out_of_fuel
execute (suc fuel) os turn c s = elim c.kind [
  | Kind.pipe ↦ execute_pipe turn s
  | Kind.redirection ↦
      or_breaks (create_command os (redirected c.entered_cmd) (redirect os c.entered_cmd s))
        (λ r. then_run (execute fuel os turn r.0 r.1) (λ t. Run.returns (restore_out t)))
  | Kind.pwd ↦ Run.returns (print (cwd_is s.cwd) s)
  | Kind.cd ↦ execute_cd os c s
  | Kind.chprompt ↦ Run.returns s
  | Kind.showpid ↦ Run.returns (print (smash_pid_is os.getpid) s)
  | Kind.jobs ↦ print_jobs_list turn s
  | Kind.kill ↦ execute_kill turn c s
  | Kind.fg ↦ execute_fg turn c s
  | Kind.bg ↦ execute_bg turn c s
  | Kind.quit ↦ execute_quit turn c s
  | Kind.cat ↦ execute_cat os c s
  | Kind.external ↦ execute_external turn c s
]

-- The first process of a pipe, with its output or its errors in the pipe, and the second one.
unfoldable pub run_left : (fuel : ℕ) → Os → Turn → Bytes → Shell → Run Shell
unfolding left_command create_command execute is_pipe_of_errors
run_left fuel os turn s t = or_breaks (create_command os (left_command s) t) (λ r.
    execute fuel os turn r.0 (
      if is_pipe_of_errors s
      then record r.1 { err = Sink.to_pipe }
      else record r.1 { out = Sink.to_pipe }))

unfoldable pub run_right : (fuel : ℕ) → Os → Turn → Bytes → Shell → Run Shell
unfolding right_command create_command execute
run_right fuel os turn s t =
    or_breaks (create_command os (right_command s) t) (λ r. execute fuel os turn r.0 r.1)

-- The command gets its address, and a job where it is in the background.
unfoldable pub register : Turn → Command → Shell → Shell
unfolding add_job
register turn c s =
    let named = record s {
      curr_cmd = s.next_cmd;
      next_cmd = suc s.next_cmd;
      jobs = name_command s.next_cmd c.entered_cmd s.jobs;
    } in
    if not c.built_in_cmd && c.background_cmd
    then on_jobs (add_job false s.next_cmd turn.now false) named
    else named

-- The end of `executeCommand`: what it returns, and the shell behind it.
unfoldable pub conclude : Turn → Command → Shell → Run (ℕ × Shell)
unfolding remove_finished_jobs without equal
conclude turn c s =
    let cleared = record s { for_cmd = 0; for_pid = none } in
    let swept = on_jobs (remove_finished_jobs turn.ended) cleared in
    if c.built_in_cmd
    then or_breaks (get_elem? c.args 0) (λ first.
      if equal (without b'&' first) (bytes "quit")
      then Run.returns (0, cleared)
      else Run.returns (1, swept))
    else Run.returns (1, swept)

unfoldable pub execute_command : Os → Turn → Bytes → Shell → Run (ℕ × Shell)
unfolding create_command register execute conclude
execute_command os turn cmd_line s = or_breaks (create_command os cmd_line s) (λ r.
    then_run
      (execute (suc (length cmd_line)) os turn (record r.0 { list = true }) (register turn r.0 r.1))
      (conclude turn r.0))

-- The loop of `main` over the lines and what happens during each. Behind the last line, `getline`
-- leaves an empty one for ever.
unfoldable pub main_loop : Os → List (Bytes × Turn) → Shell → Run Shell
unfolding execute_command
main_loop os [] s = Run.hangs
main_loop os (line ∷ lines) s = elim line.0 [
  | [] ↦ main_loop os lines (print (prompt s.newlen) s)
  | _ ∷ _ ↦
      then_run (execute_command os line.1 line.0 (print (prompt s.newlen) s))
        (λ r. if r.0 == 0 then Run.returns r.1 else main_loop os lines r.1)
]
