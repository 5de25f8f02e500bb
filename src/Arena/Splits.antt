-- ===== src/Arena/Splits.antt =====
-- `split` and `combine`.
use ftf_interview.Base.{
  ℕ, ◌+◌, ◌-◌, ◌%◌, ◌^◌, ◌≡◌, ◌≢◌, ◌≤◌, ◌<◌, refl, ap, sym, ◌∙◌, true, some, ◌==◌, arith,
  if◌then◌else◌, Ptr, null, write, write_self, write_ne,
}
use ftf_interview.Arena.{
  Meta, Arena, Run, metadata, load, store, modify, modify_if, split, combine, ◌>>◌, and_then,
}

abbrev rest_of : Meta → Ptr → (size : ℕ) → Meta
rest_of b place size = record {
  size = b.size - size - metadata;
  is_free = true;
  next = b.next;
  prev = place;
}

-- The block that is last in its list, in two.
pub split-last :
    (place size : ℕ) (s : Arena) (b : Meta)
    → s.metas place ≡ some b
    → place ≢ null
    → b.next ≡ null
    → (t : Arena) × (split place size s ≡ Run.ok tt t)
      × (t.metas place ≡ some (record b { next = place + size + metadata; size = size }))
      × (t.metas (place + size + metadata) ≡ some (rest_of b place size))
      × (t.end ≡ (if place == s.end then place + size + metadata else s.end))
unfolding split load store modify modify_if
split-last place size s b g n z =
    let at = place + size + metadata in
    let apart : at ≢ place = λ e. omega (arith, e) in
    let new = rest_of b place size in
    let old : Meta = record b { next = at; size = size } in
    let kept = write_ne s.metas at place (some new) apart in
    (
      record s {
        metas = write (write s.metas at (some new)) place (some old);
        end = if place == s.end then at else s.end;
      },
      ground (arith, g, n, z, kept),
      write_self (write s.metas at (some new)) place (some old),
      write_ne (write s.metas at (some new)) place at (some old) (λ e. omega (arith, e))
          ∙ write_self s.metas at (some new),
      refl,
    )

-- A block joined with the last one of its list.
pub combine-last :
    (first second : Ptr) (s : Arena) (b c : Meta)
    → s.metas first ≡ some b
    → s.metas second ≡ some c
    → first ≢ null
    → second ≢ null
    → first ≢ second
    → c.next ≡ null
    → (t : Arena) × (combine first second s ≡ Run.ok tt t)
      × (t.metas first
          ≡ some (record b {
            size = (b.size + (c.size + metadata)) % 2 ^ 64;
            is_free = true;
            next = null;
          }))
      × (t.end ≡ (if second == s.end then first else s.end))
unfolding combine load store modify modify_if
combine-last first second s b c g k n m d z =
    let longer : Meta = record b { size = (b.size + (c.size + metadata)) % 2 ^ 64; next = null } in
    let free : Meta = record longer { is_free = true } in
    let there = write_self s.metas first (some longer) in
    (
      record s {
        metas = write (write s.metas first (some longer)) first (some free);
        end = if second == s.end then first else s.end;
      },
      ground (arith, g, k, n, m, z, there),
      write_self (write s.metas first (some longer)) first (some free),
      refl,
    )

joined :
    (place at end end' : Ptr)
    → at ≢ end
    → end' ≡ (if place == end then at else end)
    → (if at == end' then place else end') ≡ end
joined place at end end' h e = ground (arith, h, e)

-- Where the last block of its list has room for size and a header, its size is below 2^64 and the
-- new header is not at end, split and then combine end without a fault and leave the block as it
-- was but free, and end as it was.
pub split-combine :
    (place size : ℕ) (s : Arena) (b : Meta)
    → s.metas place ≡ some b
    → place ≢ null
    → b.next ≡ null
    → size + metadata ≤ b.size
    → b.size < 2 ^ 64
    → place + size + metadata ≢ s.end
    → (t : Arena) × ((split place size >> combine place (place + size + metadata)) s ≡ Run.ok tt t)
      × (t.metas place ≡ some (record b { is_free = true }))
      × (t.end ≡ s.end)
split-combine place size s b g n z le lt other =
    let at = place + size + metadata in
    let (t, r, p, q, e) = split-last place size s b g n z in
    let (u, r', p', e') =
      combine-last place at t (record b { next = at; size = size }) (rest_of b place size) p q n
        (λ k. omega (arith, k)) (λ k. omega (arith, k)) z in
    let whole : (size + (b.size - size - metadata + metadata)) % 2 ^ 64 ≡ b.size = omega arith in
    (
      u,
      ap (λ (x : Run (Unit {0})). and_then x (λ _. combine place at)) r ∙ r',
      p'
          ∙ ap (λ k. some (record b { size = k; is_free = true; next = null })) whole
          ∙ ap (λ k. some (record b { next = k; is_free = true })) (sym z),
      e' ∙ joined place at s.end t.end other e,
    )
