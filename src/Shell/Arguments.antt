-- ===== src/Shell/Arguments.antt =====
-- The arguments that a command reads, and the line that it keeps.
use ftf_interview.Base.{
  ℕ, suc, ◌≡◌, ◌≤◌, refl, Option, none, some, true, false, Bool, List, [], ◌∷◌, ◌++◌, ◌||◌, Bytes,
  bytes, contains, ◌==◌, if◌then◌else◌, if_ind, arith, length, length-map, not, equal,
}
use ftf_interview.Parsing.{
  parse_cat, cat_tokens, without_spaces, is_background_command, is_number, push_word,
}
use ftf_interview.Shell.{Shell, Command, Os, Kind, new_with_list}
use ftf_interview.Shell.Numbers.{without, any}
use ftf_interview.Shell.Create.{
  is_arrow, is_bar, is_extra, with_args, is_dash, create_pipe, create_cd, create_cd_to,
  create_cd_back, create_external_with, create_chprompt, create_showpid, create_kill,
  create_kill_of, begins_with_dash, create_fg, create_bg, create_bg_of, with_job, create_quit,
  create_cat, create_external,
}
use ftf_interview.Shell.Choose.{create_command}
use ftf_interview.Shell.Letters.{no_arrow_word}
use ftf_interview.Shell.Branches.{Always, Branches, create_command-Always}

-- How many arguments `execute` and `executeCommand` read.
unfoldable pub needs : Command → ℕ
needs c = elim c.kind [
  | Kind.pipe ↦ 0
  | Kind.redirection ↦ 0
  | Kind.external ↦ 0
  | Kind.cd ↦ if c.optional_arg then 2 else 1
  | Kind.quit ↦ if c.optional_arg then 2 else 1
  | Kind.kill ↦ if c.invalid_arg then 1 else 3
  | Kind.fg ↦ if c.optional_arg then 2 else 1
  | Kind.bg ↦ if c.optional_arg then 2 else 1
  | _ ↦ 1
]

-- The barrier of a redirection stands in the line.
abbrev pub HasArrow : Bytes → Kind → Type 0
HasArrow s Kind.redirection = (contains (bytes ">>") s || contains (bytes ">") s) ≡ true
HasArrow s _ = Unit

-- A command keeps the line, has the arguments that it reads, and is a redirection only where the
-- line has a barrier.
pub record IsFor (cmd_line : Bytes) (c : Command) : Type 0 where
  pub arrow : HasArrow cmd_line c.kind
  pub line : c.entered_cmd ≡ cmd_line
  pub enough : needs c ≤ length c.args

push_word-some : (w : Bytes) (ws : List Bytes) → 1 ≤ length ws → 1 ≤ length (push_word w ws)
push_word-some [] ws h = h
push_word-some (c ∷ w) ws h = omega arith

cat_tokens-some : (w s : Bytes) → 1 ≤ length (cat_tokens w s)
unfolding cat_tokens
cat_tokens-some w [] = omega arith
cat_tokens-some w (c ∷ s) =
    if_ind (λ (ws : List Bytes). 1 ≤ length ws) (c == 32) _ _
      (λ _. push_word-some w _ (cat_tokens-some [] s)) (λ _. cat_tokens-some (w ++ c ∷ []) s)

cat-IsFor : (cmd_line : Bytes) (ws : List Bytes) → IsFor cmd_line (create_cat cmd_line ws)
unfolding create_cat needs parse_cat
cat-IsFor cmd_line ws = record {
  line = refl;
  arrow = tt;
  enough =
      omega
        (arith, cat_tokens-some [] cmd_line, length-map without_spaces (cat_tokens [] cmd_line));
}

module _ (cmd_line : Bytes) where
  cd_back-IsFor :
      (c : Command) (lastd : Bytes) (s : Shell)
      → IsFor cmd_line c
      → IsFor cmd_line (record c { oldpwd_null = true })
      → IsFor cmd_line (create_cd_back c lastd s).0
  unfolding create_cd_back
  cd_back-IsFor c [] s h k = k
  cd_back-IsFor c (b ∷ d) s h k = h

  cd_to-IsFor :
      (os : Os) (c : Command) (w : Bytes) (s : Shell)
      → IsFor cmd_line c
      → IsFor cmd_line (record c { oldpwd_null = true })
      → IsFor cmd_line (create_cd_to os c w s).0
  unfolding create_cd_to
  cd_to-IsFor os c w s h k =
      if_ind (λ (r : Command × Shell). IsFor cmd_line r.0) (is_dash w) _ _
        (λ _. cd_back-IsFor c s.lastd s h k) (λ _. h)

  cd-IsFor :
      (os : Os) (first : Bytes) (ws : List Bytes) (s : Shell)
      → IsFor cmd_line (create_cd os cmd_line first ws s).0
  unfolding create_cd needs
  cd-IsFor os first [] s = record { line = refl; arrow = tt; enough = omega arith }
  cd-IsFor os first (w ∷ ws) s =
      cd_to-IsFor os _ w s (record { line = refl; arrow = tt; enough = omega arith })
        (record { line = refl; arrow = tt; enough = omega arith })

  chprompt-IsFor :
      (first : Bytes) (ws : List Bytes) (s : Shell)
      → IsFor cmd_line (create_chprompt cmd_line first ws s).0
  unfolding create_chprompt needs
  chprompt-IsFor first [] s = record { line = refl; arrow = tt; enough = omega arith }
  chprompt-IsFor first (w ∷ ws) s = record { line = refl; arrow = tt; enough = omega arith }

  showpid-IsFor :
      (first : Bytes) (words left : List Bytes)
      → any is_bar left ≡ false
      → any is_arrow left ≡ false
      → IsFor cmd_line (create_showpid cmd_line first words left)
  unfolding create_showpid needs any
  showpid-IsFor first words [] b a = record { line = refl; arrow = tt; enough = omega arith }
  showpid-IsFor first words (w ∷ left) b a =
      let no_bar : is_bar w ≡ false = ground arith in
      let no_arrow : is_arrow w ≡ false = ground arith in
      rw (create_showpid, no_arrow, no_bar)
        (showpid-IsFor first words left (ground arith) (ground arith))

  kill_of-IsFor :
      (c : Command) (first sig job : Bytes) (extra : List Bytes) (s : Shell)
      → c.kind ≡ Kind.kill
      → c.entered_cmd ≡ cmd_line
      → 1 ≤ length c.args
      → IsFor cmd_line (create_kill_of c first sig job extra s)
  unfolding create_kill_of needs
  kill_of-IsFor c first sig job extra s k e h =
      if_ind (IsFor cmd_line)
        (not (is_number (without b'&' job)) || not (is_number (without b'-' sig))) _ _
        (λ _. record { line = e; arrow = rw k tt; enough = rw k h })
        (λ _. record {
          line = e;
          arrow = rw k tt;
          enough = rw k (
              if_ind (λ n. n ≤ suc (suc (suc (length extra)))) (any is_extra extra) 1 3
                (λ _. omega arith) (λ _. omega arith));
        })

  kill-IsFor :
      (first : Bytes) (ws : List Bytes) (s : Shell)
      → IsFor cmd_line (create_kill cmd_line first ws s)
  unfolding create_kill needs
  kill-IsFor first [] s = record { line = refl; arrow = tt; enough = omega arith }
  kill-IsFor first (sig ∷ []) s = record { line = refl; arrow = tt; enough = omega arith }
  kill-IsFor first (sig ∷ job ∷ extra) s =
      if_ind (IsFor cmd_line) (begins_with_dash sig) _ _
        (λ _.
          kill_of-IsFor (record (new_with_list Kind.kill cmd_line) { args = first ∷ [] }) first sig
            job extra s refl refl (omega arith))
        (λ _. record { line = refl; arrow = tt; enough = omega arith })

  -- `fg` and `bg` with a word
  with_job-IsFor :
      (c : Command) (w : Bytes) (s : Shell)
      → ((b : Bool) → IsFor cmd_line (record c { job_id_in = b }))
      → IsFor cmd_line (record c { invalid_arg = true })
      → IsFor cmd_line (with_job c w s)
  unfolding with_job
  with_job-IsFor c w s h k = if_ind (IsFor cmd_line) (is_number w) _ _ (λ _. h _) (λ _. k)

  fg-IsFor :
      (first : Bytes) (ws : List Bytes) (s : Shell) → IsFor cmd_line (create_fg cmd_line first ws s)
  unfolding create_fg needs
  fg-IsFor first [] s = record { line = refl; arrow = tt; enough = omega arith }
  fg-IsFor first (w ∷ []) s =
      with_job-IsFor _ (without b'&' w) s
        (λ b. record { line = refl; arrow = tt; enough = omega arith })
        (record { line = refl; arrow = tt; enough = omega arith })
  fg-IsFor first (w ∷ _ ∷ ws) s = record { line = refl; arrow = tt; enough = omega arith }

  bg_of-IsFor :
      (first w : Bytes) (name : Bytes) (s : Shell)
      → IsFor cmd_line (create_bg_of (with_args Kind.bg cmd_line first w) name s)
  unfolding create_bg_of needs
  bg_of-IsFor first w [] s = record { line = refl; arrow = tt; enough = omega arith }
  bg_of-IsFor first w (b ∷ name) s =
      with_job-IsFor _ (b ∷ name) s (λ b. record { line = refl; arrow = tt; enough = omega arith })
        (record { line = refl; arrow = tt; enough = omega arith })

  bg-IsFor :
      (first : Bytes) (ws : List Bytes) (s : Shell) → IsFor cmd_line (create_bg cmd_line first ws s)
  unfolding create_bg needs
  bg-IsFor first [] s = record { line = refl; arrow = tt; enough = omega arith }
  bg-IsFor first (w ∷ []) s = bg_of-IsFor first w (without b'&' w) s
  bg-IsFor first (w ∷ _ ∷ ws) s = record { line = refl; arrow = tt; enough = omega arith }

  quit-IsFor : (first : Bytes) (ws : List Bytes) → IsFor cmd_line (create_quit cmd_line first ws)
  unfolding create_quit needs
  quit-IsFor first [] = record { line = refl; arrow = tt; enough = omega arith }
  quit-IsFor first (w ∷ ws) =
      if_ind (IsFor cmd_line) (equal (without b'&' w) (bytes "kill")) _ _
        (λ _. record { line = refl; arrow = tt; enough = omega arith })
        (λ _. record { line = refl; arrow = tt; enough = omega arith })

  external_with-IsFor :
      (words : List Bytes) (b : Option Bool)
      → Always (IsFor cmd_line) (create_external_with cmd_line words b)
  unfolding create_external_with needs
  external_with-IsFor words none = tt
  external_with-IsFor words (some b) = record { line = refl; arrow = tt; enough = omega arith }

  external-IsFor : (words : List Bytes) → Always (IsFor cmd_line) (create_external cmd_line words)
  unfolding create_external
  external-IsFor words = external_with-IsFor words (is_background_command cmd_line)

  branches : (os : Os) (s : Shell) → Branches (λ r. IsFor cmd_line r.0) os cmd_line s
  unfolding needs create_pipe
  branches os s = record {
    pipe = λ ws. record { line = refl; arrow = tt; enough = omega arith };
    bare_pipe = record { line = refl; arrow = tt; enough = omega arith };
    redirection = λ y. record { line = refl; arrow = y; enough = omega arith };
    pwd = λ first. record { line = refl; arrow = tt; enough = omega arith };
    cd = λ first ws. cd-IsFor os first ws s;
    chprompt = λ first ws. chprompt-IsFor first ws s;
    showpid = λ first ws e b a.
        showpid-IsFor first (first ∷ ws) (first ∷ ws) b
          (rw e (no_arrow_word cmd_line (ground arith)));
    jobs = λ first. record { line = refl; arrow = tt; enough = omega arith };
    kill = λ first ws. kill-IsFor first ws s;
    fg = λ first ws. fg-IsFor first ws s;
    bg = λ first ws. bg-IsFor first ws s;
    quit = quit-IsFor;
    cat = cat-IsFor cmd_line;
    external = external-IsFor;
  }

-- A command that CreateCommand gives keeps its line, has at least as many arguments as its execute
-- and executeCommand read, and is a redirection only where the line has a barrier.
pub create_command-IsFor :
    (os : Os) (cmd_line : Bytes) (s t : Shell) (c : Command)
    → create_command os cmd_line s ≡ some (c, t)
    → IsFor cmd_line c
create_command-IsFor os cmd_line s t c e =
    create_command-Always (λ r. IsFor cmd_line r.0) os cmd_line s (branches cmd_line os s) t c e
