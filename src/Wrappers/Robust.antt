-- ===== src/Wrappers/Robust.antt =====
-- `Rio_writen`: the program goes on only behind a complete text.
use ftf_interview.Base.{ℕ, ◌≡◌, List, Bytes}
use ftf_interview.Rio.{Write, Written, rio_writen}
use ftf_interview.Rio.Writes.{IsPrefixOf, rio_writen-IsPrefixOf}
use ftf_interview.Wrappers.{Ended, writen_or_exit}

-- Where the function returns, the bytes sent are those of the buffer.
unfoldable pub SendsAll : Bytes → Ended Bytes → Type 0
SendsAll buf (Ended.gives sent) = sent ≡ buf
SendsAll buf (Ended.exits stderr) = Unit
SendsAll buf Ended.never_ends = Unit

written-SendsAll :
    (strerror : ℕ → Bytes) (buf : Bytes) (errno : ℕ) (w : Written)
    → IsPrefixOf buf w
    → SendsAll buf (writen_or_exit strerror errno w)
unfolding SendsAll IsPrefixOf writen_or_exit
written-SendsAll strerror buf errno (Written.all_written sent) h = h
written-SendsAll strerror buf errno (Written.write_error sent) h = tt
written-SendsAll strerror buf errno (Written.write_waits sent) h = tt

-- Whatever the calls of write return, Rio_writen returns only behind all bytes of its buffer.
writen_or_exit-SendsAll :
    (strerror : ℕ → Bytes) (buf : Bytes) (errno last : ℕ) (ws : List Write)
    → SendsAll buf (writen_or_exit strerror last (rio_writen buf errno ws))
writen_or_exit-SendsAll strerror buf errno last ws =
    written-SendsAll strerror buf last (rio_writen buf errno ws)
      (rio_writen-IsPrefixOf buf errno ws)
