-- ===== src/Arena/Maps.antt =====
-- `smallocMmap` with a block mapped before, none of which fits.
use ftf_interview.Base.{
  ℕ, ◌+◌, ◌≡◌, ◌≢◌, refl, ◌∙◌, false, none, some, arith, null, write, write_self, write_ne,
}
use ftf_interview.Arena.{
  Meta, Arena, Run, metadata, load, store, modify, find_fit, link_behind_end, mmap_behind,
  smalloc_mmap,
}

-- A further block, where the last one is in use, goes behind `end`.
further :
    (fuel p size : ℕ) (s : Arena) (e : Meta)
    → s.mmap_head ≢ null
    → find_fit fuel size s.mmap_head s ≡ Run.ok none s
    → s.mmap_end ≢ null
    → s.metas s.mmap_end ≡ some e
    → e.is_free ≡ false
    → smalloc_mmap fuel (some p) size s ≡ link_behind_end p size s
unfolding smalloc_mmap mmap_behind load
further fuel p size s e h f m g u = ground (arith, f, g)

-- Where a block was mapped, none fits, the last mapped one is in use and end is null, smallocMmap
-- follows the null pointer end.
smalloc_mmap_faults :
    (fuel p size : ℕ) (s : Arena) (e : Meta)
    → s.mmap_head ≢ null
    → find_fit fuel size s.mmap_head s ≡ Run.ok none s
    → s.mmap_end ≢ null
    → s.metas s.mmap_end ≡ some e
    → e.is_free ≡ false
    → s.end ≡ null
    → smalloc_mmap fuel (some p) size s ≡ Run.fault
unfolding link_behind_end modify load store write
smalloc_mmap_faults fuel p size s e h f m g u z =
    further fuel p size s e h f m g u ∙ ground (arith, z)

-- Where a block was mapped, none fits, the last mapped one is in use and end is another block,
-- smallocMmap links the new one behind end, makes it the end, and leaves mmap_end as it was.
smalloc_mmap_misplaces :
    (fuel p size : ℕ) (s : Arena) (e l : Meta)
    → s.mmap_head ≢ null
    → find_fit fuel size s.mmap_head s ≡ Run.ok none s
    → s.mmap_end ≢ null
    → s.metas s.mmap_end ≡ some e
    → e.is_free ≡ false
    → p ≢ null
    → p ≢ s.end
    → s.end ≢ null
    → s.metas s.end ≡ some l
    → (t : Arena) × (smalloc_mmap fuel (some p) size s ≡ Run.ok (p + metadata) t)
      × (t.end ≡ p)
      × (t.mmap_end ≡ s.mmap_end)
      × (t.metas s.end ≡ some (record l { next = p }))
unfolding link_behind_end modify load store
smalloc_mmap_misplaces fuel p size s e l h f m g u n d z k =
    let new : Meta = record { size = size; is_free = false; next = null; prev = s.end } in
    let kept = write_ne s.metas p s.end (some new) d in
    (
      record s {
        end = p;
        metas = write (write s.metas p (some new)) s.end (some (record l { next = p }));
      },
      further fuel p size s e h f m g u ∙ ground (arith, kept, k),
      refl,
      refl,
      write_self (write s.metas p (some new)) s.end (some (record l { next = p })),
    )
