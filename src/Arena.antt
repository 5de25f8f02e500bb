-- ===== src/Arena.antt =====
-- Virtual memory/malloc_2.cpp: the allocator that splits and joins blocks and maps large ones, on an
-- explicit memory of metadata. What `sbrk` or `mmap` returns is an argument of each call, of which
-- it makes at most one. The bytes of the payloads are not modelled, but for the metadata under them.
pub mod Splits
pub mod Maps
pub mod Frees
pub mod Resizes
pub mod Statistics
pub mod Linked
pub mod Fits
pub mod Counts
use ftf_interview.Base.{
  ℕ, zero, suc, ◌+◌, ◌-◌, ◌*◌, ◌%◌, ◌^◌, Bool, true, false, ◌&&◌, ◌||◌, not, Option, none, some,
  List, [], ◌∷◌, ◌++◌, ◌==◌, leb, ltb, if◌then◌else◌, Ptr, null, Store, write,
}

-- `MallocMetadata`
pub record Meta : Type 0 where
  pub size : ℕ
  pub is_free : Bool
  pub next : Ptr
  pub prev : Ptr

-- The globals, the metadata in memory, and what was passed to `munmap`.
pub record Arena : Type 0 where
  pub root : Ptr
  pub end : Ptr
  pub mmap_head : Ptr
  pub mmap_end : Ptr
  pub metas : Store Meta
  pub unmapped : List (Ptr × ℕ)

-- A null pointer or one to no metadata is a fault.
pub data Run (A : Type 0) : Type 0 where
  ok : A → Arena → Run A
  fault out_of_fuel : Run A

abbrev pub Cmd : Type 0 → Type 0
Cmd A = Arena → Run A

abbrev pub pure : {A : Type 0} → A → Cmd A
pure a s = ok a s

abbrev pub and_then : {A B : Type 0} → Run A → (A → Cmd B) → Run B
and_then (ok a s) k = k a s
and_then fault k = fault
and_then out_of_fuel k = out_of_fuel

infixl 5 ◌>>=◌ ◌>>◌
abbrev pub ◌>>=◌ : {A B : Type 0} → Cmd A → (A → Cmd B) → Cmd B
◌>>=◌ c k s = and_then (c s) k

abbrev pub ◌>>◌ : {B : Type 0} → Cmd (Unit {0}) → Cmd B → Cmd B
c >> k = c >>= λ _. k

abbrev pub state : Cmd Arena
state s = ok s s

abbrev pub set_root : Ptr → Cmd (Unit {0})
set_root p s = ok tt (record s { root = p })

abbrev pub set_end : Ptr → Cmd (Unit {0})
set_end p s = ok tt (record s { end = p })

abbrev pub set_mmap_head : Ptr → Cmd (Unit {0})
set_mmap_head p s = ok tt (record s { mmap_head = p })

abbrev pub set_mmap_end : Ptr → Cmd (Unit {0})
set_mmap_end p s = ok tt (record s { mmap_end = p })

abbrev pub unmap : Ptr → ℕ → Cmd (Unit {0})
unmap p n s = ok tt (record s { unmapped = s.unmapped ++ (p, n) ∷ [] })

pub load : Ptr → Cmd Meta
load p s = elim (s.metas p) [ none ↦ fault | some b ↦ if p == null then fault else ok b s ]

pub store : Ptr → Meta → Cmd (Unit {0})
store p b s = if p == null then fault else ok tt (record s { metas = write s.metas p (some b) })

pub modify : Ptr → (Meta → Meta) → Cmd (Unit {0})
unfolding load store
modify p f = do b ← load p; store p (f b)

-- A change of the entry behind or before, where there is one.
pub modify_if : Ptr → (Meta → Meta) → Cmd (Unit {0})
unfolding modify
modify_if p f = if p == null then pure tt else modify p f

-- `memmove` of `n` bytes to `p`: the metadata that lie there are overwritten.
pub scrub : Ptr → ℕ → Cmd (Unit {0})
scrub p n s =
    if (p == null) && not (n == 0)
    then fault
    else ok tt (record s {
      metas = λ q. if leb (p + 1) (q + 32) && ltb q (p + n) then none else s.metas q;
    })

abbrev pub metadata : ℕ
metadata = 32

abbrev pub max_allocation : ℕ
max_allocation = 100000000

abbrev pub mmap_allocation_limit : ℕ
mmap_allocation_limit = 128 * 1024

unfoldable pub split : (place : Ptr) → (size : ℕ) → Cmd (Unit {0})
unfolding load store modify modify_if
split place size = do
  b ← load place
  store (place + size + metadata)
      (record { size = b.size - size - metadata; is_free = true; next = b.next; prev = place })
  modify_if b.next (λ c. record c { prev = place + size + metadata })
  modify place (λ c. record c { next = place + size + metadata; size = size })
  s ← state
  if place == s.end then set_end (place + size + metadata) else pure tt

unfoldable pub combine : (first second : Ptr) → Cmd (Unit {0})
unfolding load modify modify_if
combine first second = do
  b ← load second
  modify first (λ c. record c { size = (c.size + (b.size + metadata)) % 2 ^ 64; next = b.next })
  modify_if b.next (λ c. record c { prev = first })
  s ← state
  if second == s.end then set_end first else pure tt
  modify first (λ c. record c { is_free = true })

-- The loop that looks for a block; one unit of fuel for each block.
unfoldable pub find_fit : ℕ → (size : ℕ) → Ptr → Cmd (Option Ptr)
unfolding load
find_fit zero size tmp = λ _. out_of_fuel
find_fit (suc fuel) size tmp = if tmp == null then pure none else do
  b ← load tmp
  if leb size b.size && b.is_free then pure (some tmp) else find_fit fuel size b.next

-- A block that was found: what is large enough is split off.
unfoldable pub take_found : Ptr → (size : ℕ) → Cmd Ptr
unfolding load modify split
take_found tmp size = do
  b ← load tmp
  if leb (128 + metadata + size) b.size then split tmp size else pure tt
  modify tmp (λ c. record c { is_free = false })
  pure (tmp + metadata)

-- A new block linked behind `end`.
unfoldable pub link_behind_end : Ptr → (size : ℕ) → Cmd Ptr
unfolding store modify
link_behind_end p size = do
  s ← state
  store p (record { size = size; is_free = false; next = null; prev = s.end })
  modify s.end (λ c. record c { next = p })
  set_end p
  pure (p + metadata)

-- The first block of the list from `root`.
unfoldable pub first_block : Ptr → (size : ℕ) → Cmd Ptr
unfolding store
first_block p size = do
  store p (record { size = size; is_free = false; next = null; prev = null })
  set_root p
  set_end p
  pure (p + metadata)

abbrev pub on_grant : Option Ptr → (Ptr → Cmd Ptr) → Cmd Ptr
on_grant none k = pure null
on_grant (some p) k = k p

-- The last block made larger, and in use.
unfoldable pub widen : Ptr → (size : ℕ) → Cmd Ptr
unfolding modify
widen p size = do modify p (λ c. record c { size = size; is_free = false }); pure (p + metadata)

-- `smallocSbrk` behind its search: without a block the last one is widened, or a new one linked.
unfoldable pub sbrk_behind : (grant : Option Ptr) → (size : ℕ) → Option Ptr → Cmd Ptr
unfolding load take_found link_behind_end widen
sbrk_behind grant size (some tmp) = take_found tmp size
sbrk_behind grant size none = do
  s ← state
  e ← load s.end
  if e.is_free
      then on_grant grant (λ _. widen s.end size)
      else on_grant grant (λ p. link_behind_end p size)

unfoldable pub smalloc_sbrk : (fuel : ℕ) → (grant : Option Ptr) → (size : ℕ) → Cmd Ptr
unfolding find_fit sbrk_behind first_block
smalloc_sbrk fuel grant size = do
  s ← state
  if size == 0 || ltb max_allocation size
      then pure null
      else if s.root == null
      then on_grant grant (λ p. first_block p size)
      else find_fit fuel size s.root >>= sbrk_behind grant size

-- The first mapped block.
unfoldable pub first_mapped : Ptr → (size : ℕ) → Cmd Ptr
unfolding store
first_mapped p size = do
  store p (record { size = size; is_free = false; next = null; prev = null })
  set_mmap_head p
  set_mmap_end p
  pure (p + metadata)

-- The same for `smallocMmap`: where the last mapped block is widened, the length of the mapping is
-- computed from `end`, and a further block is linked behind `end`, the last block of the other list.
unfoldable pub mmap_behind : (grant : Option Ptr) → (size : ℕ) → Option Ptr → Cmd Ptr
unfolding load take_found link_behind_end widen
mmap_behind grant size (some tmp) = take_found tmp size
mmap_behind grant size none = do
  s ← state
  e ← load s.mmap_end
  if e.is_free
      then load s.end >>= (λ _. on_grant grant (λ _. widen s.mmap_end size))
      else on_grant grant (λ p. link_behind_end p size)

unfoldable pub smalloc_mmap : (fuel : ℕ) → (grant : Option Ptr) → (size : ℕ) → Cmd Ptr
unfolding find_fit mmap_behind first_mapped
smalloc_mmap fuel grant size = do
  s ← state
  if s.mmap_head == null
      then on_grant grant (λ p. first_mapped p size)
      else find_fit fuel size s.mmap_head >>= mmap_behind grant size

unfoldable pub smalloc : (fuel : ℕ) → (grant : Option Ptr) → (size : ℕ) → Cmd Ptr
unfolding smalloc_sbrk smalloc_mmap
smalloc fuel grant size =
    if size == 0 || ltb max_allocation size
    then pure null
    else if ltb size mmap_allocation_limit
    then smalloc_sbrk fuel grant size
    else smalloc_mmap fuel grant size

-- `scalloc` writes payload bytes only.
unfoldable pub scalloc : (fuel : ℕ) → (grant : Option Ptr) → (num size : ℕ) → Cmd Ptr
unfolding smalloc
scalloc fuel grant num size = smalloc fuel grant (num * size % 2 ^ 64)
