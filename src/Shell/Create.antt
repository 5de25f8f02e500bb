-- ===== src/Shell/Create.antt =====
-- Linux Shell/Commands.cpp: `CreateCommand`, one function for each branch. A function is given the
-- words of `args` behind the first one.
use ftf_interview.Base.{
  ℕ, Bool, true, false, ◌||◌, not, ◌&&◌, Option, none, some, List, [], ◌∷◌, ◌++◌, ◌==◌, leb,
  if◌then◌else◌, Bytes, bytes, equal, length,
}
use ftf_interview.Jobs.{is_job_id_in, is_list_empty}
use ftf_interview.Parsing.{parse_cat, is_background_command, is_number}
use ftf_interview.Shell.{Shell, Command, Os, Kind, new_command, new_built_in, new_with_list}
use ftf_interview.Shell.Numbers.{without, strtol, any}

abbrev pub is_bar : Bytes → Bool
is_bar w = equal w (bytes "|") || equal w (bytes "|&")

abbrev pub is_arrow : Bytes → Bool
is_arrow w = equal w (bytes ">") || equal w (bytes ">>")

abbrev pub has_words : List Bytes → Bool
has_words [] = false
has_words (w ∷ ws) = true

-- `COMMAND_MAX_ARGS`; the last place of `args` holds a null pointer.
abbrev pub command_max_args : ℕ
command_max_args = 20

-- A line with the word `|` or `|&`
unfoldable pub create_pipe : Bytes → List Bytes → Command
create_pipe cmd_line words = record (new_command Kind.pipe cmd_line) {
  pipe_redir = true;
  optional_arg = true;
  args = words;
}

abbrev pub create_redirection : Bytes → Command
create_redirection cmd_line = record (new_command Kind.redirection cmd_line) { pipe_redir = true }

abbrev pub create_bare_pipe : Bytes → Command
create_bare_pipe cmd_line = record (new_command Kind.pipe cmd_line) { pipe_redir = true }

-- `get_current_dir_name` gives `s.cwd`. The target is tried and left again.
unfoldable pub try_directory : Os → (path : Bytes) → Shell → Shell
try_directory os path s = elim (os.chdir s.cwd path) [
  | none ↦ s
  | some there ↦ elim (os.chdir there s.cwd) [
    | none ↦ record s { lastd = s.cwd; cwd = there }
    | some back ↦ record s { lastd = s.cwd; cwd = back }
  ]
]

abbrev pub is_dash : Bytes → Bool
is_dash w = equal w (bytes "-")

-- `plastPwd`: none where LASTD is empty.
abbrev pub last_directory : Bytes → Option Bytes
last_directory [] = none
last_directory (c ∷ d) = some (c ∷ d)

-- `cd -`, by LASTD
unfoldable pub create_cd_back : Command → (lastd : Bytes) → Shell → Command × Shell
create_cd_back c [] s = (record c { oldpwd_null = true }, s)
create_cd_back c (b ∷ d) s = (c, record s { lastd = s.cwd })

-- `cd` with the word `w`
unfoldable pub create_cd_to : Os → Command → (w : Bytes) → Shell → Command × Shell
unfolding create_cd_back try_directory equal
create_cd_to os c w s = if is_dash w then create_cd_back c s.lastd s else (c, try_directory os w s)

unfoldable pub create_cd : Os → Bytes → (first : Bytes) → List Bytes → Shell → Command × Shell
unfolding create_cd_to
create_cd os cmd_line first [] s = (
  record (new_built_in Kind.cd cmd_line) { args = first ∷ []; last_d = last_directory s.lastd },
  s,
)
create_cd os cmd_line first (w ∷ ws) s =
    create_cd_to os
      (record (new_built_in Kind.cd cmd_line) {
        args = first ∷ w ∷ [];
        last_d = last_directory s.lastd;
        optional_arg = true;
        too_many_args = has_words ws;
      })
      w s

unfoldable pub create_chprompt : Bytes → (first : Bytes) → List Bytes → Shell → Command × Shell
unfolding without
create_chprompt cmd_line first [] s = (
  record (new_built_in Kind.chprompt cmd_line) { args = first ∷ [] },
  record s { newlen = bytes "smash" },
)
create_chprompt cmd_line first (w ∷ ws) s = (
  record (new_built_in Kind.chprompt cmd_line) { args = first ∷ [] },
  record s { newlen = without b'&' w },
)

-- The loop of `showpid` over the words that are left; `words` are all of them.
unfoldable pub create_showpid : Bytes → (first : Bytes) → (words left : List Bytes) → Command
unfolding equal
create_showpid cmd_line first words [] = record (new_built_in Kind.showpid cmd_line) {
  args = first ∷ [];
}
create_showpid cmd_line first words (w ∷ left) =
    let rest = create_showpid cmd_line first words left in
    if is_arrow w
    then record (new_command Kind.redirection cmd_line) {
      pipe_redir = true;
      optional_arg = leb 2 (length words);
      args = words;
    }
    else if is_bar w
    then record (new_command Kind.pipe cmd_line) {
      optional_arg = leb 2 (length words);
      args = words ++ first ∷ [];
    }
    else rest

-- A word behind the job of `kill` other than `&`
abbrev pub is_extra : Bytes → Bool
is_extra w = not (equal w (bytes "&"))

-- `kill` with the signal `sig` and the job `job`
unfoldable pub create_kill_of :
    Command → (first sig job : Bytes) → (extra : List Bytes) → Shell → Command
unfolding without is_number strtol any equal is_job_id_in
create_kill_of c first sig job extra s =
    if not (is_number (without b'&' job)) || not (is_number (without b'-' sig))
    then record c { invalid_arg = true }
    else record c {
      job_id_in = is_job_id_in (strtol job) s.jobs.non_built_in_cmd;
      optional_arg = true;
      invalid_arg = any is_extra extra;
      args = first ∷ sig ∷ job ∷ extra;
    }

abbrev pub begins_with_dash : Bytes → Bool
begins_with_dash [] = false
begins_with_dash (c ∷ w) = c == b'-'

unfoldable pub create_kill : Bytes → (first : Bytes) → List Bytes → Shell → Command
unfolding create_kill_of
create_kill cmd_line first (sig ∷ job ∷ extra) s =
    let c : Command = record (new_with_list Kind.kill cmd_line) { args = first ∷ [] } in
    if begins_with_dash sig
    then create_kill_of c first sig job extra s
    else record c { invalid_arg = true }
create_kill cmd_line first _ s = record (new_with_list Kind.kill cmd_line) {
  args = first ∷ [];
  invalid_arg = true;
}

-- The job that `fg` and `bg` are given.
unfoldable pub with_job : Command → (w : Bytes) → Shell → Command
unfolding is_number strtol is_job_id_in
with_job c w s =
    if is_number w
    then record c { job_id_in = is_job_id_in (strtol w) s.jobs.non_built_in_cmd }
    else record c { invalid_arg = true }

-- `fg` and `bg` with one word, and with more.
abbrev pub with_args : Kind → Bytes → (first w : Bytes) → Command
with_args kind cmd_line first w = record (new_with_list kind cmd_line) {
  args = first ∷ w ∷ [];
  optional_arg = true;
}

unfoldable pub create_fg : Bytes → (first : Bytes) → List Bytes → Shell → Command
unfolding with_job without is_list_empty
create_fg cmd_line first [] s = record (new_with_list Kind.fg cmd_line) {
  args = first ∷ [];
  listempty = is_list_empty s.jobs.non_built_in_cmd;
}
create_fg cmd_line first (w ∷ []) s =
    with_job (with_args Kind.fg cmd_line first w) (without b'&' w) s
create_fg cmd_line first (w ∷ _ ∷ ws) s = record (with_args Kind.fg cmd_line first w) {
  invalid_arg = true;
}

-- `bg` with a word whose text without the signs is given.
unfoldable pub create_bg_of : Command → Bytes → Shell → Command
unfolding with_job
create_bg_of c [] s = record c { optional_arg = false }
create_bg_of c (b ∷ w) s = with_job c (b ∷ w) s

unfoldable pub create_bg : Bytes → (first : Bytes) → List Bytes → Shell → Command
unfolding create_bg_of without
create_bg cmd_line first [] s = record (new_with_list Kind.bg cmd_line) { args = first ∷ [] }
create_bg cmd_line first (w ∷ []) s =
    create_bg_of (with_args Kind.bg cmd_line first w) (without b'&' w) s
create_bg cmd_line first (w ∷ _ ∷ ws) s = record (with_args Kind.bg cmd_line first w) {
  invalid_arg = true;
}

unfoldable pub create_quit : Bytes → (first : Bytes) → List Bytes → Command
unfolding without equal
create_quit cmd_line first [] = record (new_with_list Kind.quit cmd_line) { args = first ∷ [] }
create_quit cmd_line first (w ∷ ws) =
    if equal (without b'&' w) (bytes "kill")
    then record (new_with_list Kind.quit cmd_line) { args = first ∷ w ∷ []; optional_arg = true }
    else record (new_with_list Kind.quit cmd_line) { args = first ∷ [] }

-- `i` runs over the tokens of `_parseCat` and looks at the words.
unfoldable pub create_cat : Bytes → (ws : List Bytes) → Command
unfolding parse_cat
create_cat cmd_line ws =
    let tokens = parse_cat cmd_line in
    record (new_built_in Kind.cat cmd_line) {
      args = tokens;
      optional_arg = has_words ws && leb 2 (length tokens);
    }

-- None where the test for the background is out of bounds.
unfoldable pub create_external_with : Bytes → List Bytes → Option Bool → Option Command
create_external_with cmd_line words none = none
create_external_with cmd_line words (some background) =
    some (record (new_command Kind.external cmd_line) {
      args = words;
      optional_arg = leb 2 (length words);
      background_cmd = background;
    })

unfoldable pub create_external : Bytes → (words : List Bytes) → Option Command
unfolding is_background_command create_external_with
create_external cmd_line words =
    create_external_with cmd_line words (is_background_command cmd_line)
