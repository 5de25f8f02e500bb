-- ===== src/Shell.antt =====
-- Linux Shell/Commands.h and Commands.cpp: the state of the shell and of a command. What the
-- system answers is a parameter; none of it is decided here.
pub mod Numbers
pub mod Prints
pub mod Create
pub mod Choose
pub mod Branches
pub mod Letters
pub mod Arguments
pub mod Keeps
pub mod Signals
pub mod Directories
pub mod Control
pub mod Execute
pub mod Returning
pub mod Loop
pub mod NewJobs
pub mod Stops
pub mod Foreground
pub mod Faults
pub mod Ends
pub mod Created
pub mod Termination
pub mod Outputs
use ftf_interview.Base.{
  ℕ, zero, suc, ◌+◌, Bool, true, false, ◌||◌, Option, none, some, List, [], ◌∷◌, ◌++◌, ◌==◌,
  if◌then◌else◌, Ptr, Bytes, bytes, write, Store,
}
use ftf_interview.Jobs.{JobsList, new_list}

-- Where `cout` goes, and `cerr`.
pub data Sink : Type 0 where
  terminal errors closed to_pipe : Sink
  file : (name : Bytes) (append : Bool) → Sink

-- What is printed; `perror` adds the system's text.
pub data Message : Type 0 where
  chdir_failed oldpwd_not_set cd_too_many_args : Message
  cwd_is : Bytes → Message
  smash_pid_is : ℕ → Message
  kill_invalid fg_invalid bg_invalid : Message
  kill_no_job fg_no_job bg_no_job bg_already_running : (job_id : ℕ) → Message
  signal_sent : (signum pid : ℕ) → Message
  fg_list_empty bg_no_stopped cat_not_enough_args open_failed kill_failed : Message
  fork_failed waitpid_failed got_ctrl_z got_ctrl_c : Message
  was_stopped was_killed : (pid : ℕ) → Message
  file_bytes : Bytes → Message
  job_line : (name : Bytes) (pid : ℕ) → Message
  job_listed : (job_id : ℕ) (name : Bytes) (pid now since : ℕ) (is_stopped : Bool) → Message
  sending_sigkill : (counter : ℕ) → Message
  kill_line : (pid : ℕ) (name : Bytes) → Message
  prompt : Bytes → Message

pub data Kind : Type 0 where
  pipe redirection pwd cd chprompt showpid jobs kill fg bg quit cat external : Kind

-- `list` tells whether the pointer is set; `last_d` is none where it is null.
pub record Command : Type 0 where
  pub kind : Kind
  pub entered_cmd : Bytes
  pub pipe_redir : Bool
  pub optional_arg : Bool
  pub built_in_cmd : Bool
  pub background_cmd : Bool
  pub args : List Bytes
  pub list : Bool
  pub last_d : Option Bytes
  pub invalid_arg : Bool
  pub job_id_in : Bool
  pub too_many_args : Bool
  pub oldpwd_null : Bool
  pub listempty : Bool

-- `Command(cmd_line)`; the fields that it does not set are read in built-in commands only.
abbrev pub new_command : Kind → Bytes → Command
new_command kind cmd_line = record {
  kind = kind;
  entered_cmd = cmd_line;
  pipe_redir = false;
  optional_arg = false;
  built_in_cmd = false;
  background_cmd = false;
  args = [];
  list = false;
  last_d = none;
  invalid_arg = false;
  job_id_in = true;
  too_many_args = false;
  oldpwd_null = false;
  listempty = false;
}

-- `BuiltInCommand(cmd_line)`
abbrev pub new_built_in : Kind → Bytes → Command
new_built_in kind cmd_line = record (new_command kind cmd_line) { built_in_cmd = true }

-- The constructors that are given the job list.
abbrev pub new_with_list : Kind → Bytes → Command
new_with_list kind cmd_line = record (new_built_in kind cmd_line) { list = true }

-- The shell, with the working directory of its process and what was printed. A command is named
-- by an address, and a null pointer is 0; `for_pid` is none where it is -1. `started` has the
-- processes with the texts that bash is given. `out` and `err` are what the descriptors 1 and 2 lead
-- to, and `saved` what the descriptors that redirections have made with dup(1) lead to, latest first.
pub record Shell : Type 0 where
  pub jobs : JobsList
  pub newlen : Bytes
  pub for_pid : Option ℕ
  pub curr_cmd : Ptr
  pub for_cmd : Ptr
  pub lastd : Bytes
  pub cwd : Bytes
  pub next_cmd : Ptr
  pub started : List (ℕ × Bytes)
  pub out : Sink
  pub saved : List Sink
  pub err : Sink
  pub printed : List (Sink × Message)

-- `SmallShell()`, in the directory `cwd`
unfoldable pub new_shell : (cwd : Bytes) → Shell
new_shell cwd = record {
  jobs = new_list;
  newlen = bytes "smash";
  for_pid = none;
  curr_cmd = 0;
  for_cmd = 0;
  lastd = [];
  cwd = cwd;
  next_cmd = 1;
  started = [];
  out = Sink.terminal;
  saved = [];
  err = Sink.errors;
  printed = [];
}

abbrev pub print : Message → Shell → Shell
print m s = record s { printed = s.printed ++ (s.out, m) ∷ [] }

abbrev pub print_error : Message → Shell → Shell
print_error m s = record s { printed = s.printed ++ (s.err, m) ∷ [] }

-- What the system answers: `chdir` from a directory, `open` and `read` of a file (of a directory,
-- `open` succeeds and `read` fails), `open` for writing, and the process of the shell.
pub record Os : Type 0 where
  pub chdir : (cwd path : Bytes) → Option Bytes
  pub read_file : Bytes → Option (Option Bytes)
  pub can_write : Bytes → Bool
  pub getpid : ℕ

-- The keys that are pressed while the shell waits.
pub data Key : Type 0 where
  ctrl_z ctrl_c : Key

-- What happens while one command runs: the process that `fork` starts, the keys pressed during a
-- wait, the time, which processes `waitpid` finds ended, which `kill` reaches, and whether the
-- `waitpid` of a pipe fails.
pub record Turn : Type 0 where
  pub fork_pid : Option ℕ
  pub keys : List Key
  pub now : ℕ
  pub ended : ℕ → Bool
  pub reaches : ℕ → Bool
  pub wait_fails : Bool

-- A command returns, or it breaks (an access out of bounds, a null or unset pointer, or an
-- exception), or `read` fails for ever, or the fuel is spent.
pub data Run (A : Type 0) : Type 0 where
  returns : A → Run A
  breaks hangs out_of_fuel : Run A

abbrev pub then_run : {A B : Type 0} → Run A → (A → Run B) → Run B
then_run (Run.returns a) f = f a
then_run Run.breaks f = Run.breaks
then_run Run.hangs f = Run.hangs
then_run Run.out_of_fuel f = Run.out_of_fuel

abbrev pub or_breaks {ℓ} : {A : Type ℓ} {B : Type 0} → Option A → (A → Run B) → Run B
or_breaks none f = Run.breaks
or_breaks (some a) f = f a

abbrev pub on_jobs : (JobsList → JobsList) → Shell → Shell
on_jobs f s = record s { jobs = f s.jobs }

-- The text of a command written at its address.
abbrev pub name_command : Ptr → Bytes → JobsList → JobsList
name_command c text s = record s { entered_cmd = λ p. if p == c then text else s.entered_cmd p }
