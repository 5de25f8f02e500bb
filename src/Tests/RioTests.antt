-- ===== src/Tests/RioTests.antt =====
-- The Rio package on a connection that delivers "ab\ncd" in three pieces, with a signal between them.
use ftf_interview.Base.{◌-◌, ◌≡◌, refl, ◌⊎◌, ◌≢◌, List, [], ◌∷◌, arith, bytes}
use ftf_interview.Rio.{
  Rio, Read, Write, Written, Line, eintr, rio_readinitb, rio_readlineb, rio_readnb, rio_writen,
}
use ftf_interview.Rio.Streams.{Ends, at_end, after_signal, after_bytes, stream}
use ftf_interview.Rio.Lines.{IsFirst, rio_readlineb-IsFirst}
use ftf_interview.Rio.Blocks.{IsBlock, rio_readnb-IsBlock}
use ftf_interview.Rio.Writes.{
  IsPrefixOf, Progresses, written, rio_writen-IsPrefixOf, rio_writen_all,
}

abbrev reads : List Read
reads =
    Read.got (bytes "a")
    ∷ Read.got (bytes "b\nc")
    ∷ Read.fails eintr
    ∷ Read.got (bytes "d")
    ∷ Read.got []
    ∷ []

reads-Ends : Ends reads
reads-Ends =
    after_bytes b'a' [] _
      (after_bytes b'b' (bytes "\nc") _ (after_signal _ (after_bytes b'd' [] _ (at_end []))))

abbrev rio : Rio
rio = record { unread = bytes "x"; reads = reads }

initial : rio_readinitb reads ≡ record { unread = []; reads = reads }
unfolding rio_readinitb
initial = refl

rio_readlineb-IsFirst_example :
    ((stream rio ≡ []) × (r : Rio) × (rio_readlineb 100 rio ≡ Line.no_line r))
    ⊎ ((stream rio ≢ []) × IsFirst (100 - 1) 1 (stream rio) (rio_readlineb 100 rio))
rio_readlineb-IsFirst_example = rio_readlineb-IsFirst 100 rio reads-Ends (omega arith)

rio_readnb-IsBlock_example : IsBlock 5 (stream rio) (rio_readnb 5 rio)
rio_readnb-IsBlock_example = rio_readnb-IsBlock 5 rio reads-Ends

abbrev writes : List Write
writes = Write.wrote 2 ∷ Write.refuses eintr ∷ Write.wrote 1 ∷ []

rio_writen-IsPrefixOf_example :
    IsPrefixOf (bytes "abc") (rio_writen (bytes "abc") 0 (Write.wrote 2 ∷ Write.refuses 5 ∷ []))
rio_writen-IsPrefixOf_example =
    rio_writen-IsPrefixOf (bytes "abc") 0 (Write.wrote 2 ∷ Write.refuses 5 ∷ [])

rio_writen_all_example : rio_writen (bytes "abc") 0 writes ≡ Written.all_written (bytes "abc")
unfolding Progresses written
rio_writen_all_example =
    rio_writen_all (bytes "abc") 0 writes (omega arith, (refl, (omega arith, tt))) (omega arith)
