-- ===== src/Tests/ShellTests.antt =====
-- The shell with a few lines.
use ftf_interview.Base.{
  ℕ, ◌≡◌, ◌<◌, refl, true, false, none, some, List, [], ◌∷◌, bytes, equal, if◌then◌else◌, arith,
  total, has_char, replicate, All,
}
use ftf_interview.Jobs.{JobStatus, JobEntry, new_list, no_job, is_job_pid_in, sigcont}
use ftf_interview.Jobs.Histories.{Holds, Reach-Holds, start}
use ftf_interview.Jobs.Places.{emptied}
use ftf_interview.Shell.{
  Shell, Command, Kind, Message, Sink, Os, Run, Turn, Key, new_shell, new_built_in, new_command,
  then_run, print_error,
}
use ftf_interview.Shell.Numbers.{without}
use ftf_interview.Shell.Choose.{create_command}
use ftf_interview.Shell.Arguments.{IsFor, create_command-IsFor}
use ftf_interview.Shell.Signals.{ctrl_z_handler, sigstop}
use ftf_interview.Shell.Control.{fg_of}
use ftf_interview.Shell.Execute.{execute_external}
use ftf_interview.Shell.Loop.{main_loop, execute_command, register}
use ftf_interview.Shell.Outputs.{execute_command-SameOut}
use ftf_interview.Shell.Returning.{run_cd, run_cd-run_cd}
use ftf_interview.Shell.NewJobs.{background_job}
use ftf_interview.Jobs.News.{FirstEmpty}
use ftf_interview.Shell.Stops.{ctrl_z_handler-new}
use ftf_interview.Shell.Foreground.{IsAt, fg_of-ended, fg_of-stopped}
use ftf_interview.Shell.Faults.{cd_too_many}

abbrev os : Os
unfolding equal
os = record {
  chdir = λ cwd path.
      if equal path (bytes "/b")
      then some (bytes "/b")
      else if equal path (bytes "/a")
      then some (bytes "/a")
      else none;
  read_file = λ f. none;
  can_write = λ f. true;
  getpid = 7;
}

abbrev turn : Turn
turn = record {
  fork_pid = some 50;
  keys = Key.ctrl_z ∷ [];
  now = 1;
  ended = λ p. false;
  reaches = λ p. true;
  wait_fails = false;
}

-- Nothing is pressed.
abbrev quiet : Turn
quiet = record turn { keys = [] }

abbrev shell : Shell
unfolding new_shell
shell = new_shell (bytes "/a")

abbrev shell_of : Run (ℕ × Shell) → Shell
unfolding new_shell
shell_of (Run.returns r) = r.1
shell_of _ = new_shell []

abbrev printed_of : Run Shell → List (Sink × Message)
printed_of (Run.returns s) = s.printed
printed_of _ = []

-- Six lines; Ctrl-Z is pressed while `sleep` runs.
lines_run :
    printed_of (
      main_loop os
        ((bytes "cd /b", quiet)
          ∷ (bytes "pwd > f", quiet)
          ∷ (bytes "cd -", quiet)
          ∷ (bytes "sleep 5", turn)
          ∷ (bytes "jobs", quiet)
          ∷ (bytes "quit", quiet)
          ∷ [])
        (new_shell (bytes "/a")))
    ≡ (Sink.terminal, Message.prompt (bytes "smash"))
      ∷ (Sink.terminal, Message.prompt (bytes "smash"))
      ∷ (Sink.file (bytes "f") false, Message.cwd_is (bytes "/b"))
      ∷ (Sink.terminal, Message.prompt (bytes "smash"))
      ∷ (Sink.terminal, Message.prompt (bytes "smash"))
      ∷ (Sink.terminal, Message.got_ctrl_z)
      ∷ (Sink.terminal, Message.was_stopped 50)
      ∷ (Sink.terminal, Message.prompt (bytes "smash"))
      ∷ (Sink.terminal, Message.job_listed 1 (bytes "sleep 5") 50 1 1 true)
      ∷ (Sink.terminal, Message.prompt (bytes "smash"))
      ∷ []
unfolding main_loop new_shell new_list
lines_run = refl

abbrev pwd_command : Command
pwd_command = record (new_built_in Kind.pwd (bytes "pwd")) { args = bytes "pwd" ∷ [] }

create_command-IsFor_example : IsFor (bytes "pwd") pwd_command
unfolding create_command new_shell
create_command-IsFor_example = create_command-IsFor os (bytes "pwd") shell shell pwd_command refl

abbrev behind_pwd : Shell
unfolding execute_command
behind_pwd = shell_of (execute_command os quiet (bytes "pwd > f") shell)

execute_command-SameOut_example : (behind_pwd.out ≡ shell.out) × (behind_pwd.saved ≡ shell.saved)
unfolding execute_command new_shell
execute_command-SameOut_example =
    execute_command-SameOut os quiet (bytes "pwd > f") shell behind_pwd 1 refl

run_cd-run_cd_example :
    then_run
      (run_cd os [] (bytes "cd") (bytes "/b" ∷ []) shell)
      (run_cd os [] (bytes "cd") (bytes "-" ∷ []))
    ≡ Run.returns (record shell { lastd = bytes "/b" })
unfolding new_shell equal has_char
run_cd-run_cd_example =
    run_cd-run_cd os [] (bytes "cd") shell b'/' (bytes "a") (bytes "/b") (bytes "/b") refl refl refl
      refl refl

cd_too_many_example :
    run_cd os [] (bytes "cd") (bytes "/b" ∷ bytes "x" ∷ []) shell
    ≡ Run.returns (print_error Message.cd_too_many_args (record shell { lastd = shell.cwd }))
unfolding new_shell equal
cd_too_many_example =
    cd_too_many os [] (bytes "cd") (bytes "/b") (bytes "x") [] shell (bytes "/b") refl refl refl

abbrev sleep_command : Command
sleep_command = record (new_command Kind.external (bytes "sleep 5&")) {
  args = bytes "sleep" ∷ bytes "5&" ∷ [];
  optional_arg = true;
  background_cmd = true;
}

shell-Holds : Holds shell.jobs
unfolding new_shell
shell-Holds = Reach-Holds new_list start

-- The list with its first entry, and the rest
abbrev rest : List JobEntry
rest = replicate 149 no_job

shell-FirstEmpty : FirstEmpty shell.jobs.non_built_in_cmd [] no_job rest
unfolding new_shell new_list
shell-FirstEmpty = record { list = refl; in_use = tt; empty = refl }

background_job_example :
    (t : Shell) × (id : ℕ) × (execute_external quiet
        (record sleep_command { list = true })
        (register quiet sleep_command shell)
      ≡ Run.returns t)
    × All (λ d. d.j_id < id) shell.jobs.non_built_in_cmd
    × (t.jobs.non_built_in_cmd
        ≡ record { j_status = JobStatus.background; j_id = id; p_id = 50; cmd = 1; time = 1 }
          ∷ rest)
    × (t.started ≡ (50, bytes "sleep 5") ∷ [])
unfolding new_shell without
background_job_example =
    background_job quiet sleep_command 50 shell [] rest no_job shell-Holds shell-FirstEmpty refl
      refl refl

-- The shell waits for process 50.
abbrev waits : Shell
unfolding new_shell
waits = record shell { for_pid = some 50; for_cmd = 1; next_cmd = 2 }

ctrl_z_handler-new_example :
    (t : Shell) × (id : ℕ) × (ctrl_z_handler turn waits ≡ Run.returns t)
    × (t.for_pid ≡ none)
    × All (λ d. d.j_id < id) waits.jobs.non_built_in_cmd
    × (t.jobs.non_built_in_cmd
        ≡ record { j_status = JobStatus.stopped; j_id = id; p_id = 50; cmd = 1; time = 1 } ∷ rest)
    × (t.jobs.signals ≡ (50, sigstop) ∷ [])
unfolding new_shell new_list is_job_pid_in
ctrl_z_handler-new_example =
    ctrl_z_handler-new turn 50 waits [] rest no_job shell-Holds shell-FirstEmpty refl
      (λ e. absurd (omega (arith, e))) refl

abbrev sleeping : JobEntry
sleeping = record { j_status = JobStatus.background; j_id = 1; p_id = 50; cmd = 1; time = 0 }

abbrev holding : Shell
unfolding new_shell
holding = record shell { jobs = record shell.jobs { non_built_in_cmd = sleeping ∷ no_job ∷ [] } }

sleeping-IsAt : IsAt holding.jobs.non_built_in_cmd 0 sleeping
unfolding new_shell total
sleeping-IsAt = record { stands = refl; some_id = omega arith; once = omega arith }

fg_of-ended_example :
    (t : Shell) × (fg_of quiet sleep_command 1 holding ≡ Run.returns t)
    × (t.jobs.non_built_in_cmd ≡ emptied sleeping ∷ no_job ∷ [])
    × (t.jobs.signals ≡ (50, sigcont) ∷ [])
unfolding new_shell new_list
fg_of-ended_example =
    fg_of-ended quiet sleep_command holding 0 sleeping sleeping-IsAt
      (λ e. absurd (omega (arith, e))) refl

fg_of-stopped_example :
    (t : Shell) × (fg_of turn sleep_command 1 holding ≡ Run.returns t)
    × (t.jobs.non_built_in_cmd
        ≡ record sleeping { j_status = JobStatus.stopped; time = 1 } ∷ no_job ∷ [])
    × (t.jobs.signals ≡ (50, sigcont) ∷ (50, sigstop) ∷ [])
unfolding new_shell new_list total
fg_of-stopped_example =
    fg_of-stopped turn sleep_command holding 0 sleeping sleeping-IsAt (omega arith)
      (λ e. absurd (omega (arith, e))) refl
