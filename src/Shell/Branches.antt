-- ===== src/Shell/Branches.antt =====
-- A property of every command that CreateCommand gives, from its branches.
use ftf_interview.Base.{
  false, true, refl, ◌≡◌, ◌||◌, Option, none, some, List, [], ◌∷◌, Bytes, bytes, leb, if_ind, equal,
  contains, length, subst,
}
use ftf_interview.Parsing.{parse_command_line}
use ftf_interview.Shell.{Shell, Command, Os, Kind, new_built_in, new_with_list}
use ftf_interview.Shell.Numbers.{without, any}
use ftf_interview.Shell.Create.{
  is_bar, command_max_args, create_pipe, create_redirection, create_bare_pipe, create_cd,
  create_chprompt, create_showpid, create_kill, create_fg, create_bg, create_quit, create_cat,
  create_external,
}
use ftf_interview.Shell.Choose.{create_named, create_from, create_command}

module _ {A : Type 0} (P : A → Type 0) where
  -- What is given, if anything is, has the property.
  abbrev pub Always : Option A → Type 0
  Always none = Unit
  Always (some a) = P a

  pub Always-some : (o : Option A) (a : A) → Always o → o ≡ some a → P a
  Always-some o a h e = subst Always e h

module _ (P : Command × Shell → Type 0) (os : Os) (cmd_line : Bytes) (s : Shell) where
  abbrev pub Given : Command → Type 0
  Given c = P (c, s)

  -- The property in each branch, for the first word and the others.
  pub record Branches : Type 0 where
    pub pipe : (ws : List Bytes) → Given (create_pipe cmd_line ws)
    pub bare_pipe : Given (create_bare_pipe cmd_line)
    pub redirection :
        (contains (bytes ">>") cmd_line || contains (bytes ">") cmd_line) ≡ true
        → Given (create_redirection cmd_line)
    pub pwd :
        (first : Bytes) → Given (record (new_built_in Kind.pwd cmd_line) { args = first ∷ [] })
    pub cd : (first : Bytes) (ws : List Bytes) → P (create_cd os cmd_line first ws s)
    pub chprompt : (first : Bytes) (ws : List Bytes) → P (create_chprompt cmd_line first ws s)
    pub showpid :
        (first : Bytes) (ws : List Bytes)
        → first ∷ ws ≡ parse_command_line cmd_line
        → any is_bar (first ∷ ws) ≡ false
        → (contains (bytes ">>") cmd_line || contains (bytes ">") cmd_line) ≡ false
        → Given (create_showpid cmd_line first (first ∷ ws) (first ∷ ws))
    pub jobs :
        (first : Bytes) → Given (record (new_with_list Kind.jobs cmd_line) { args = first ∷ [] })
    pub kill : (first : Bytes) (ws : List Bytes) → Given (create_kill cmd_line first ws s)
    pub fg : (first : Bytes) (ws : List Bytes) → Given (create_fg cmd_line first ws s)
    pub bg : (first : Bytes) (ws : List Bytes) → Given (create_bg cmd_line first ws s)
    pub quit : (first : Bytes) (ws : List Bytes) → Given (create_quit cmd_line first ws)
    pub cat : (ws : List Bytes) → Given (create_cat cmd_line ws)
    pub external : (words : List Bytes) → Always Given (create_external cmd_line words)

  external-Always :
      (o : Option Command)
      → Always Given o
      → Always P (elim o [ none ↦ none | some c ↦ some (c, s) ])
  external-Always none h = tt
  external-Always (some c) h = h

  create_named-Always :
      Branches
      → (name first : Bytes) (ws : List Bytes) → first ∷ ws ≡ parse_command_line cmd_line
      → any is_bar (first ∷ ws) ≡ false
      → (contains (bytes ">>") cmd_line || contains (bytes ">") cmd_line) ≡ false
      → Always P (create_named os cmd_line name first ws s)
  unfolding create_named
  create_named-Always b name first ws e no_bar no_arrow =
      if_ind (Always P) (equal name (bytes "pwd")) _ _ (λ _. b.pwd first)
        (λ _.
          if_ind (Always P) (equal name (bytes "cd")) _ _ (λ _. b.cd first ws)
            (λ _.
              if_ind (Always P) (equal name (bytes "chprompt")) _ _ (λ _. b.chprompt first ws)
                (λ _.
                  if_ind (Always P) (equal name (bytes "showpid")) _ _
                    (λ _. b.showpid first ws e no_bar no_arrow)
                    (λ _.
                      if_ind (Always P) (equal name (bytes "jobs")) _ _ (λ _. b.jobs first)
                        (λ _.
                          if_ind (Always P) (equal name (bytes "kill")) _ _ (λ _. b.kill first ws)
                            (λ _.
                              if_ind (Always P) (equal name (bytes "fg")) _ _ (λ _. b.fg first ws)
                                (λ _.
                                  if_ind (Always P) (equal name (bytes "bg")) _ _
                                    (λ _. b.bg first ws)
                                    (λ _.
                                      if_ind (Always P) (equal name (bytes "quit")) _ _
                                        (λ _. b.quit first ws)
                                        (λ _.
                                          if_ind (Always P) (equal name (bytes "cat")) _ _
                                            (λ _. b.cat ws)
                                            (λ _.
                                              external-Always
                                                (create_external cmd_line (first ∷ ws))
                                                (b.external (first ∷ ws))))))))))))

  create_from-Always :
      Branches
      → (words : List Bytes) → words ≡ parse_command_line cmd_line
      → Always P (create_from os cmd_line words s)
  unfolding create_from
  create_from-Always b [] e = tt
  create_from-Always b (first ∷ ws) e =
      if_ind (Always P) (leb command_max_args (length (first ∷ ws))) _ _ (λ _. tt)
        (λ _.
          if_ind (Always P) (any is_bar (first ∷ ws)) _ _ (λ _. b.pipe (first ∷ ws))
            (λ no_bar.
              if_ind (Always P) (contains (bytes ">>") cmd_line || contains (bytes ">") cmd_line) _
                _ (λ y. b.redirection y)
                (λ no_arrow.
                  if_ind (Always P)
                    (contains (bytes "|") cmd_line || contains (bytes "|&") cmd_line) _ _
                    (λ _. b.bare_pipe)
                    (λ _. create_named-Always b (without b'&' first) first ws e no_bar no_arrow))))

  pub create_command-Always :
      Branches → (t : Shell) (c : Command) → create_command os cmd_line s ≡ some (c, t) → P (c, t)
  unfolding create_command
  create_command-Always b t c e =
      Always-some P (create_command os cmd_line s) (c, t)
        (create_from-Always b (parse_command_line cmd_line) refl) e
