-- ===== src/Shell/Returning.antt =====
-- `cd` and `cd -`.
use ftf_interview.Base.{
  ℕ, ◌≡◌, refl, ap, sym, subst, ◌∙◌, some, List, [], ◌∷◌, true, false, Bytes, bytes, equal, arith,
  has_char,
}
use ftf_interview.Shell.{Shell, Command, Os, Run, new_built_in, Kind, then_run}
use ftf_interview.Shell.Numbers.{without}
use ftf_interview.Shell.Create.{
  has_words, is_dash, last_directory, try_directory, create_cd, create_cd_to, create_cd_back,
}
use ftf_interview.Shell.Directories.{execute_cd, cd_to, change_directory, go_back}

without_same : (c : ℕ) (s : Bytes) → has_char c s ≡ false → without c s ≡ s
unfolding without has_char
without_same c [] h = refl
without_same c (x ∷ s) h = ground (arith, without_same c s)

-- `cd` as CreateCommand and `execute` do it together.
abbrev pub run_cd : Os → (cmd_line first : Bytes) → List Bytes → Shell → Run Shell
run_cd os cmd_line first ws s = let r = create_cd os cmd_line first ws s in execute_cd os r.0 r.1

-- `cd` with a word and more, as it is created
abbrev pub cd_command : (cmd_line first path lastd : Bytes) → List Bytes → Command
cd_command cmd_line first path lastd ws = record (new_built_in Kind.cd cmd_line) {
  args = first ∷ path ∷ [];
  last_d = last_directory lastd;
  optional_arg = true;
  too_many_args = has_words ws;
}

module _ (os : Os) (cmd_line first : Bytes) (s : Shell) where
  try_there :
      (path there : Bytes)
      → os.chdir s.cwd path ≡ some there
      → os.chdir there s.cwd ≡ some s.cwd
      → try_directory os path s ≡ record s { lastd = s.cwd }
  unfolding try_directory
  try_there path there go back = rw (try_directory, go, back) refl

  pub create_there :
      (path there : Bytes) (ws : List Bytes)
      → is_dash path ≡ false
      → os.chdir s.cwd path ≡ some there
      → os.chdir there s.cwd ≡ some s.cwd
      → create_cd os cmd_line first (path ∷ ws) s
        ≡ (cd_command cmd_line first path s.lastd ws, record s { lastd = s.cwd })
  unfolding create_cd create_cd_to equal
  create_there path there ws n go back =
      rw (create_cd, create_cd_to, n, try_there path there go back) refl

  execute_there :
      (path there lastd : Bytes)
      → is_dash path ≡ false
      → has_char b'&' path ≡ false
      → os.chdir s.cwd path ≡ some there
      → execute_cd os (cd_command cmd_line first path lastd []) s
        ≡ Run.returns (record s { cwd = there })
  unfolding execute_cd cd_to change_directory equal
  execute_there path there lastd n a go =
      rw (execute_cd, cd_to, n, without_same b'&' path a, change_directory, go) refl

  create_back :
      (c : ℕ) (d : Bytes)
      → s.lastd ≡ c ∷ d
      → create_cd os cmd_line first (bytes "-" ∷ []) s
        ≡ (cd_command cmd_line first (bytes "-") (c ∷ d) [], record s { lastd = s.cwd })
  unfolding create_cd create_cd_to create_cd_back equal
  create_back c d l =
      subst
        (λ l'.
          create_cd_back (cd_command cmd_line first (bytes "-") l' []) l' s
          ≡ (cd_command cmd_line first (bytes "-") (c ∷ d) [], record s { lastd = s.cwd }))
        (sym l) refl

  execute_back :
      (c : ℕ) (d there : Bytes)
      → os.chdir s.cwd (c ∷ d) ≡ some there
      → execute_cd os (cd_command cmd_line first (bytes "-") (c ∷ d) []) s
        ≡ Run.returns (record s { cwd = there })
  unfolding execute_cd cd_to go_back equal
  execute_back c d there go = rw (execute_cd, cd_to, go_back, go) refl

module _ (os : Os) (cmd_line first : Bytes) where
  -- To a directory
  run_there :
      (s : Shell) (path there : Bytes)
      → is_dash path ≡ false
      → has_char b'&' path ≡ false
      → os.chdir s.cwd path ≡ some there
      → os.chdir there s.cwd ≡ some s.cwd
      → run_cd os cmd_line first (path ∷ []) s
        ≡ Run.returns (record s { cwd = there; lastd = s.cwd })
  run_there s path there n a go back =
      ap (λ (r : Command × Shell). execute_cd os r.0 r.1)
        (create_there os cmd_line first s path there [] n go back)
      ∙ execute_there os cmd_line first (record s { lastd = s.cwd }) path there s.lastd n a go

  -- And back
  run_back :
      (s : Shell) (c : ℕ) (d there : Bytes)
      → s.lastd ≡ c ∷ d
      → os.chdir s.cwd (c ∷ d) ≡ some there
      → run_cd os cmd_line first (bytes "-" ∷ []) s
        ≡ Run.returns (record s { cwd = there; lastd = s.cwd })
  run_back s c d there l go =
      ap (λ (r : Command × Shell). execute_cd os r.0 r.1) (create_back os cmd_line first s c d l)
      ∙ execute_back os cmd_line first (record s { lastd = s.cwd }) c d there go

  -- From a directory that is not the empty name and to which chdir leads back, cd to a path
  -- without & that chdir accepts, and then cd -, leave the shell where it was, with that path's
  -- directory as the last one.
  pub run_cd-run_cd :
      (s : Shell) (c : ℕ) (d path there : Bytes)
      → s.cwd ≡ c ∷ d
      → is_dash path ≡ false
      → has_char b'&' path ≡ false
      → os.chdir s.cwd path ≡ some there
      → os.chdir there s.cwd ≡ some s.cwd
      → then_run
          (run_cd os cmd_line first (path ∷ []) s)
          (run_cd os cmd_line first (bytes "-" ∷ []))
        ≡ Run.returns (record s { lastd = there })
  run_cd-run_cd s c d path there e n a go back =
      ap (λ r. then_run r (run_cd os cmd_line first (bytes "-" ∷ [])))
        (run_there s path there n a go back)
      ∙ run_back (record s { cwd = there; lastd = s.cwd }) c d s.cwd e
          (subst (λ x. os.chdir there x ≡ some s.cwd) e back)
