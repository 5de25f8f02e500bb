-- ===== src/Shell/Faults.antt =====
-- Lines that the shell does not handle as it means to.
use ftf_interview.Base.{
  ℕ, ◌≡◌, refl, ap, sym, ◌∙◌, Option, none, some, some-injective, List, [], ◌∷◌, ◌++◌, Bool, true,
  false, Bytes, bytes, equal, arith, digits_from,
}
use ftf_interview.Parsing.{is_number}
use ftf_interview.Jobs.{JobEntry, JobsList, get_job_by_id, is_job_id_in, send_sig_to_job}
use ftf_interview.Shell.{Shell, Command, Os, Run, Turn, Message, print, print_error}
use ftf_interview.Shell.Numbers.{without, stoi, strtol, any, leading_number}
use ftf_interview.Shell.Prints.{send_sig}
use ftf_interview.Shell.Create.{
  is_dash, begins_with_dash, create_cd, create_cd_to, create_kill, create_kill_of,
  create_external_with,
}
use ftf_interview.Shell.Directories.{execute_cd, cd_to}
use ftf_interview.Shell.Control.{execute_kill, kill_of}
use ftf_interview.Shell.Execute.{execute_external, run_background}
use ftf_interview.Shell.Returning.{run_cd, create_there}
use ftf_interview.Shell.Stops.{answered}
use Message.{cd_too_many_args, signal_sent}

-- cd
pub cd_too_many :
    (os : Os) (cmd_line first path other : Bytes) (ws : List Bytes) (s : Shell) (there : Bytes)
    → is_dash path ≡ false
    → os.chdir s.cwd path ≡ some there
    → os.chdir there s.cwd ≡ some s.cwd
    → run_cd os cmd_line first (path ∷ other ∷ ws) s
      ≡ Run.returns (print_error cd_too_many_args (record s { lastd = s.cwd }))
unfolding create_cd create_cd_to execute_cd cd_to equal
cd_too_many os cmd_line first path other ws s there n go back =
    ap (λ (r : Command × Shell). execute_cd os r.0 r.1)
      (create_there os cmd_line first s path there (other ∷ ws) n go back)

-- A background command that is no `curr_cmd`
external-breaks :
    (turn : Turn) (cmd_line : Bytes) (words : List Bytes) (b : Option Bool) (c : Command) (pid : ℕ)
    (s : Shell)
    → create_external_with cmd_line words b ≡ some c
    → c.background_cmd ≡ true
    → turn.fork_pid ≡ some pid
    → execute_external turn c s ≡ Run.breaks
unfolding create_external_with execute_external run_background
external-breaks turn cmd_line words none c pid s e b f = ground arith
external-breaks turn cmd_line words (some x) c pid s e b f =
    let unset : c.list ≡ false = sym (ap (λ (x : Command). x.list) (some-injective _ _ e)) in
    rw (execute_external, f, b, run_background, unset) refl

get-in :
    (id : ℕ) (es : List JobEntry) (e : JobEntry)
    → get_job_by_id id es ≡ some e
    → is_job_id_in id es ≡ true
unfolding get_job_by_id is_job_id_in
get-in id [] e h = ground arith
get-in id (d ∷ es) e h = ground (arith, get-in id es e)

sent_signals :
    (id signum : ℕ) (s : JobsList) (e : JobEntry)
    → get_job_by_id id s.non_built_in_cmd ≡ some e
    → (send_sig_to_job id signum s).signals ≡ s.signals ++ (e.p_id, signum) ∷ []
unfolding send_sig_to_job
sent_signals id signum s e g = rw (send_sig_to_job, g) refl

-- kill with a number as signal and the job 0, where some entry has the identifier 0, which empty
-- entries have: the signal goes to that entry's process, which is 0 where it was never used.
kill_zero :
    (turn : Turn) (cmd_line first sig : Bytes) (signum : ℕ) (s : Shell) (e : JobEntry)
    → begins_with_dash sig ≡ true
    → is_number (without b'-' sig) ≡ true
    → stoi (without b'-' sig) ≡ some signum
    → get_job_by_id 0 s.jobs.non_built_in_cmd ≡ some e
    → (t : Shell) × (execute_kill turn (create_kill cmd_line first (sig ∷ bytes "0" ∷ []) s) s
        ≡ Run.returns t)
      × (t.jobs.signals ≡ s.jobs.signals ++ (e.p_id, signum) ∷ [])
unfolding create_kill create_kill_of execute_kill kill_of is_number without strtol stoi
    leading_number digits_from any send_sig send_sig_to_job
kill_zero turn cmd_line first sig signum s e d n v g = (
  send_sig turn 0 signum (print (signal_sent signum e.p_id) s),
  rw (create_kill, d, create_kill_of, n, get-in 0 s.jobs.non_built_in_cmd e g, v, g) refl,
  rw (send_sig, g)
      (ap (λ (j : JobsList). j.signals) (answered turn e.p_id _).0
        ∙ sent_signals 0 signum s.jobs e g),
)
