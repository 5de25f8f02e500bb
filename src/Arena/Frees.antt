-- ===== src/Arena/Frees.antt =====
-- `sfree` of malloc_2.cpp.
use ftf_interview.Base.{◌+◌, ◌-◌, true, false, none, ◌==◌, leb, if◌then◌else◌, Ptr, null, write}
use ftf_interview.Arena.{
  Meta, ok, Cmd, pure, ◌>>=◌, ◌>>◌, state, set_root, set_end, set_mmap_head, set_mmap_end, unmap,
  load, modify, modify_if, metadata, mmap_allocation_limit, combine,
}

-- `sfree` of a small block that is neither the root nor the end, or of the root with a block in use
-- behind it: it is joined with its neighbours that are free.
unfoldable pub free_between : Ptr → Cmd (Unit {0})
unfolding load modify combine
free_between p = do
  b ← load p
  n ← if b.next == null then pure false else load b.next >>= (λ c. pure c.is_free)
  if n then combine p b.next else pure tt
  b' ← load p
  q ← if b'.prev == null then pure false else load b'.prev >>= (λ c. pure c.is_free)
  if q then combine b'.prev p else pure tt
  modify p (λ c. record c { is_free = true })

unfoldable pub free_root : Ptr → Meta → Cmd (Unit {0})
unfolding load modify combine free_between
free_root p b = do
  s ← state
  if b.next == null then set_end s.root >> modify p (λ c. record c { is_free = true }) else do
    n ← load b.next
    if n.is_free
        then combine p b.next >> set_root p >> modify p (λ c. record c { is_free = true })
        else free_between p

unfoldable pub free_end : Ptr → Meta → Cmd (Unit {0})
unfolding load modify combine
free_end p b = do
  q ← load b.prev
  if q.is_free then combine b.prev p >> set_end b.prev else pure tt
  modify p (λ c. record c { is_free = true })

unfoldable pub drop_mapped_end : Cmd (Unit {0})
unfolding load modify
drop_mapped_end = do
  s ← state
  e ← load s.mmap_end
  set_mmap_end e.prev
  modify e.prev (λ c. record c { next = null })

unfoldable pub free_mapped : Ptr → Meta → Cmd (Unit {0})
unfolding modify modify_if drop_mapped_end
free_mapped p b = do
  s ← state
  if b.prev == null
      then set_mmap_head b.next >> modify_if b.next (λ c. record c { prev = null })
      else if b.next == null
      then drop_mapped_end
      else modify b.prev (λ c. record c { next = b.next })
        >> modify b.next (λ c. record c { prev = b.prev })
  unmap p (b.size + metadata)
  λ t. ok tt (record t { metas = write t.metas p none })

unfoldable pub sfree : Ptr → Cmd (Unit {0})
unfolding load free_between free_root free_end free_mapped
sfree p = if p == null then pure tt else do
  s ← state
  b ← load (p - metadata)
  if b.is_free
      then pure tt
      else if leb mmap_allocation_limit b.size
      then free_mapped (p - metadata) b
      else if p - metadata == s.root
      then free_root (p - metadata) b
      else if p - metadata == s.end
      then free_end (p - metadata) b
      else free_between (p - metadata)
