-- ===== src/Shell/Created.antt =====
-- `CreateCommand` leaves the descriptors of the shell.
use ftf_interview.Base.{
  ◌≡◌, refl, Option, none, some, List, [], ◌∷◌, Bool, Bytes, if_ind, option_ind,
}
use ftf_interview.Shell.{Shell, Command, Os}
use ftf_interview.Parsing.{is_background_command}
use ftf_interview.Shell.Create.{
  is_dash, try_directory, create_cd, create_cd_to, create_cd_back, create_chprompt, create_external,
  create_external_with,
}
use ftf_interview.Shell.Choose.{create_command}
use ftf_interview.Shell.Branches.{Always, create_command-Always}
use ftf_interview.Shell.Keeps.{SameOut}

try_directory-SameOut : (os : Os) (path : Bytes) (s : Shell) → SameOut s (try_directory os path s)
unfolding try_directory
try_directory-SameOut os path s =
    option_ind (SameOut s) (os.chdir s.cwd path) _ _ (λ _. refl)
      (λ there _. option_ind (SameOut s) (os.chdir there s.cwd) _ _ (λ _. refl) (λ _ _. refl))

module _ (s : Shell) where
  abbrev Kept : Command × Shell → Type 0
  Kept r = SameOut s r.1

  cd_back-Kept : (c : Command) (lastd : Bytes) → Kept (create_cd_back c lastd s)
  unfolding create_cd_back
  cd_back-Kept c [] = refl
  cd_back-Kept c (b ∷ d) = refl

  cd-Kept :
      (os : Os) (cmd_line first : Bytes) (ws : List Bytes) → Kept (create_cd os cmd_line first ws s)
  unfolding create_cd create_cd_to
  cd-Kept os cmd_line first [] = refl
  cd-Kept os cmd_line first (w ∷ ws) =
      if_ind Kept (is_dash w) _ _ (λ _. cd_back-Kept _ s.lastd) (λ _. try_directory-SameOut os w s)

  chprompt-Kept :
      (cmd_line first : Bytes) (ws : List Bytes) → Kept (create_chprompt cmd_line first ws s)
  unfolding create_chprompt
  chprompt-Kept cmd_line first [] = refl
  chprompt-Kept cmd_line first (w ∷ ws) = refl

  external-Kept :
      (cmd_line : Bytes) (words : List Bytes)
      → Always (λ c. Kept (c, s)) (create_external cmd_line words)
  unfolding create_external create_external_with
  external-Kept cmd_line words = go (is_background_command cmd_line)
    where
      go : (b : Option Bool) → Always (λ c. Kept (c, s)) (create_external_with cmd_line words b)
      go none = tt
      go (some b) = refl

  pub create_command-Kept :
      (os : Os) (cmd_line : Bytes) (t : Shell) (c : Command)
      → create_command os cmd_line s ≡ some (c, t)
      → SameOut s t
  create_command-Kept os cmd_line = create_command-Always Kept os cmd_line s (record {
    pipe = λ _. refl;
    bare_pipe = refl;
    redirection = λ _. refl;
    pwd = λ _. refl;
    cd = cd-Kept os cmd_line;
    chprompt = chprompt-Kept cmd_line;
    showpid = λ _ _ _ _ _. refl;
    jobs = λ _. refl;
    kill = λ _ _. refl;
    fg = λ _ _. refl;
    bg = λ _ _. refl;
    quit = λ _ _. refl;
    cat = λ _. refl;
    external = external-Kept cmd_line;
  })
