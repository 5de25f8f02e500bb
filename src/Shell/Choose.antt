-- ===== src/Shell/Choose.antt =====
-- Linux Shell/Commands.cpp: `CreateCommand`, the choice among its branches.
use ftf_interview.Base.{
  ◌||◌, Option, none, some, List, [], ◌∷◌, leb, if◌then◌else◌, Bytes, bytes, equal, contains,
  length,
}
use ftf_interview.Parsing.{parse_command_line}
use ftf_interview.Shell.{Shell, Command, Os, Kind, new_built_in, new_with_list}
use ftf_interview.Shell.Numbers.{without, any}
use ftf_interview.Shell.Create.{
  is_bar, command_max_args, create_pipe, create_redirection, create_bare_pipe, create_cd,
  create_chprompt, create_showpid, create_kill, create_fg, create_bg, create_quit, create_cat,
  create_external,
}

abbrev pub leaves : Shell → Command → Option (Command × Shell)
leaves s c = some (c, s)

-- The chain of tests on `name`, the first word without the signs.
unfoldable pub create_named :
    Os → Bytes → (name first : Bytes) → List Bytes → Shell → Option (Command × Shell)
unfolding create_cd create_chprompt create_showpid create_kill create_fg create_bg create_quit
    create_cat create_external equal
create_named os cmd_line name first ws s =
    if equal name (bytes "pwd")
    then leaves s (record (new_built_in Kind.pwd cmd_line) { args = first ∷ [] })
    else if equal name (bytes "cd")
    then some (create_cd os cmd_line first ws s)
    else if equal name (bytes "chprompt")
    then some (create_chprompt cmd_line first ws s)
    else if equal name (bytes "showpid")
    then leaves s (create_showpid cmd_line first (first ∷ ws) (first ∷ ws))
    else if equal name (bytes "jobs")
    then leaves s (record (new_with_list Kind.jobs cmd_line) { args = first ∷ [] })
    else if equal name (bytes "kill")
    then leaves s (create_kill cmd_line first ws s)
    else if equal name (bytes "fg")
    then leaves s (create_fg cmd_line first ws s)
    else if equal name (bytes "bg")
    then leaves s (create_bg cmd_line first ws s)
    else if equal name (bytes "quit")
    then leaves s (create_quit cmd_line first ws)
    else if equal name (bytes "cat")
    then leaves s (create_cat cmd_line ws)
    else elim (create_external cmd_line (first ∷ ws)) [ none ↦ none | some c ↦ leaves s c ]

-- None where `args` has no first word or no place for all words.
unfoldable pub create_from : Os → Bytes → (words : List Bytes) → Shell → Option (Command × Shell)
unfolding create_pipe create_named any equal contains without
create_from os cmd_line [] s = none
create_from os cmd_line (first ∷ ws) s =
    if leb command_max_args (length (first ∷ ws))
    then none
    else if any is_bar (first ∷ ws)
    then leaves s (create_pipe cmd_line (first ∷ ws))
    else if contains (bytes ">>") cmd_line || contains (bytes ">") cmd_line
    then leaves s (create_redirection cmd_line)
    else if contains (bytes "|") cmd_line || contains (bytes "|&") cmd_line
    then leaves s (create_bare_pipe cmd_line)
    else create_named os cmd_line (without b'&' first) first ws s

unfoldable pub create_command : Os → Bytes → Shell → Option (Command × Shell)
unfolding create_from parse_command_line
create_command os cmd_line s = create_from os cmd_line (parse_command_line cmd_line) s
