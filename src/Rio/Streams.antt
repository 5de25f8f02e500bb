-- ===== src/Rio/Streams.antt =====
-- The bytes that a connection still delivers, through the buffer.
use ftf_interview.Base.{
  ℕ, suc, ◌≡◌, refl, ap, sym, ◌⊎◌, inl, inr, List, [], ◌∷◌, ◌++◌, Bytes, take, drop,
  take-append-drop, ◌∙◌,
}
use ftf_interview.Rio.{Rio, Read, Outcome, eintr, refill, rio_read}

-- What the reads return up to the end of the file.
unfoldable pub ahead : List Read → Bytes
ahead [] = []
ahead (Read.fails e ∷ rs) = ahead rs
ahead (Read.got [] ∷ rs) = []
ahead (Read.got (c ∷ s) ∷ rs) = (c ∷ s) ++ ahead rs

abbrev pub stream : Rio → Bytes
stream r = r.unread ++ ahead r.reads

-- The reads come to the end of the file; only a signal makes one fail before it.
pub data Ends : List Read → Type 0 where
  at_end : (rs : List Read) → Ends (Read.got [] ∷ rs)
  after_signal : (rs : List Read) → Ends rs → Ends (Read.fails eintr ∷ rs)
  after_bytes : (c : ℕ) (s : Bytes) (rs : List Read) → Ends rs → Ends (Read.got (c ∷ s) ∷ rs)

-- The buffer is filled, or the stream is at its end.
pub refill_lem :
    (u : Bytes) (rs : List Read)
    → Ends rs
    → ((u ++ ahead rs ≡ []) × (r : Rio) × (refill u rs ≡ Outcome.eof r))
      ⊎ ((c : ℕ) × (s : Bytes) × (rs' : List Read) × (refill u rs
            ≡ Outcome.bytes_read (c ∷ s) (record { unread = c ∷ s; reads = rs' }))
          × (u ++ ahead rs ≡ (c ∷ s) ++ ahead rs')
          × Ends rs')
unfolding refill ahead
refill_lem (c ∷ s) rs h = inr (c, s, rs, refl, refl, h)
refill_lem [] _ (at_end rs) = inl (refl, record { unread = []; reads = rs }, refl)
refill_lem [] _ (after_signal rs h) = refill_lem [] rs h
refill_lem [] _ (after_bytes c s rs h) = inr (c, s, rs, refl, refl, h)

-- One call of `rio_read` for at least one byte.
pub rio_read_lem :
    (n : ℕ) (r : Rio)
    → Ends r.reads
    → ((stream r ≡ []) × (r' : Rio) × (rio_read (suc n) r ≡ Outcome.eof r'))
      ⊎ ((c : ℕ) × (s : Bytes) × (r' : Rio) × (rio_read (suc n) r
            ≡ Outcome.bytes_read (c ∷ take n s) r')
          × (r'.unread ≡ drop n s)
          × (stream r ≡ c ∷ take n s ++ stream r')
          × Ends r'.reads)
unfolding rio_read
rio_read_lem n r h = elim (refill_lem r.unread r.reads h) [
  | inl (e, r', k) ↦ inl (e, r', rw k refl)
  | inr (c, s, rs', k, e, h') ↦ inr (
    c,
    s,
    record { unread = drop n s; reads = rs' },
    rw k refl,
    refl,
    e ∙ sym (ap (λ l. c ∷ l) (take-append-drop n s (ahead rs'))),
    h',
  )
]
