-- ===== src/Arena/Resizes.antt =====
-- `srealloc` of malloc_2.cpp.
use ftf_interview.Base.{
  ℕ, ◌+◌, ◌-◌, ◌*◌, ◌%◌, ◌^◌, false, ◌&&◌, ◌||◌, Option, ◌==◌, leb, ltb, if◌then◌else◌, Ptr, null,
}
use ftf_interview.Arena.{
  Meta, Cmd, pure, ◌>>=◌, ◌>>◌, load, modify, scrub, metadata, max_allocation, split, combine,
  smalloc,
}
use ftf_interview.Arena.Frees.{sfree}

-- 1.d of `srealloc`: a join with both neighbours.
unfoldable pub join_both : (size : ℕ) → Ptr → Meta → Meta → Cmd Ptr
unfolding load modify combine
join_both size p b n = do
  q ← load b.prev
  if leb size ((q.size + n.size + b.size + 2 * metadata) % 2 ^ 64) && (q.is_free && n.is_free)
      then combine b.prev p
        >> combine b.prev b.next
        >> modify b.prev (λ c. record c { is_free = false })
        >> pure b.prev
      else pure null

-- 1.c and 1.d; null where no neighbour serves.
unfoldable pub join_next : (size : ℕ) → Ptr → Meta → Cmd Ptr
unfolding load modify combine join_both
join_next size p b = if b.next == null then pure null else do
  n ← load b.next
  if leb size ((n.size + b.size + metadata) % 2 ^ 64) && n.is_free
      then combine p b.next >> modify p (λ c. record c { is_free = false }) >> pure p
      else if b.prev == null
      then pure null
      else join_both size p b n

-- 1.b to 1.d: the block that `pointer` was joined to.
unfoldable pub join : (size : ℕ) → Ptr → Meta → Cmd Ptr
unfolding load modify combine join_next
join size p b = if b.prev == null then join_next size p b else do
  q ← load b.prev
  if leb size ((q.size + b.size + metadata) % 2 ^ 64) && q.is_free
      then combine b.prev p >> modify b.prev (λ c. record c { is_free = false }) >> pure b.prev
      else join_next size p b

-- 1.e of `srealloc`, where no join served.
unfoldable pub move_out : (fuel : ℕ) → (grant : Option Ptr) → (size oldp tocopy : ℕ) → Cmd Ptr
unfolding smalloc scrub sfree
move_out fuel grant size oldp tocopy = do
  dest ← smalloc fuel grant size
  if dest == 2 ^ 64 - 1
      then pure null
      else scrub dest tocopy >> (if dest == oldp then pure tt else sfree oldp) >> pure dest

-- The end of `srealloc` behind a join: what is large enough is split off, the bytes move, and `oldp`
-- is freed where the block is another one, though its metadata are then inside of it.
unfoldable pub settle : (size oldp tocopy dest : ℕ) → Cmd Ptr
unfolding load split scrub sfree
settle size oldp tocopy dest = do
  d ← load dest
  if leb (128 + metadata) (d.size - size) then split dest size else pure tt
  scrub (dest + metadata) tocopy
  if oldp - metadata == dest then pure tt else sfree oldp
  pure (dest + metadata)

-- 1.a: the block is large enough.
unfoldable pub shrink : (size oldp : ℕ) → Meta → Cmd Ptr
unfolding load modify split
shrink size oldp b = do
  if leb (128 + metadata) (b.size - size) then split (oldp - metadata) size else pure tt
  modify (oldp - metadata)
      (λ c. record c { size = if c.is_free then size else c.size; is_free = false })
  pure oldp

unfoldable pub srealloc : (fuel : ℕ) → (grant : Option Ptr) → (oldp size : ℕ) → Cmd Ptr
unfolding load smalloc join move_out settle shrink
srealloc fuel grant oldp size =
    if size == 0 || ltb max_allocation size
    then pure null
    else if oldp == null
    then smalloc fuel grant size
    else do
      b ← load (oldp - metadata)
      if leb size b.size then shrink size oldp b else do
        dest ← join size (oldp - metadata) b
        if dest == null then move_out fuel grant size oldp b.size else settle size oldp b.size dest
