-- ===== src/Pmm/Alloc/Walk.antt =====
-- The walk of `frame_alloc` along the regions, at `align_up` 0 or 1.
use unix_p.Prelude.{
  Bool-cases, subst, ℕ, zero, suc, ◌-◌, ◌≤◌, ◌<◌, ◌≡◌, refl, ◌⊎◌, inl, inr, true, false, Option,
  none, some, List, [], ◌∷◌, arith, ◌==◌, if◌then◌else◌, length, ◌||◌, ltb,
}
use native.Mathlib.Decide.{dec_le}
use unix_p.Prelude.Memory.{Memory}
use unix_p.Pmm.{BitmapList, Pmm, Outcome, ok, fault, out_of_fuel, set_entry}
use unix_p.Pmm.Alloc.{repeatcount, alloc_words, alloc_walk, frame_alloc}
use unix_p.Pmm.Alloc.Words.{
  SameRegion, IsHint, IsTaken, HasNoRun, IsSearched, alloc_words-IsSearched,
}

-- The `next` pointers lead from region `c` through `cs`, each further up the stack, to NULL.
pub data Chain (stack : ℕ → BitmapList) : ℕ → List ℕ → Type 0 where
  last : {c : ℕ} → (stack c).next ≡ none → Chain stack c (c ∷ [])
  link :
      {c n : ℕ} {ns : List ℕ}
      → (stack c).next ≡ some n
      → c < n
      → Chain stack n ns
      → Chain stack c (c ∷ ns)

-- Nothing but the memory differs, and where the next search of a region starts: there as `IsHint` says.
pub record Kept (s : Pmm) (count : ℕ) (s' : Pmm) : Type 0 where
  pub regions : (j : ℕ) → SameRegion (s.bitmap_stack j) (s'.bitmap_stack j)
  pub hints :
      (j : ℕ)
      → IsHint
          (s.bitmap_stack j)
          s.memory
          count
          (s.bitmap_stack j).search_next_startblock
          (repeatcount (s.bitmap_stack j))
          (s'.bitmap_stack j)
  pub top : s'.bitmap_stack_top ≡ s.bitmap_stack_top
  pub first : s'.firstblock ≡ s.firstblock
  pub dyn_total : s'.m_dyn_total ≡ s.m_dyn_total
  pub dyn_base : s'.m_dyn_base ≡ s.m_dyn_base
  pub dyn_first_block : s'.m_dyn_first_block ≡ s.m_dyn_first_block

-- Frames were taken from the region.
abbrev pub IsTakenFrom : Pmm → (count a : ℕ) → Memory → BitmapList → Type 0
IsTakenFrom s count a m' e =
    IsTaken e.first_bitmap e.first_block s.memory count e.search_next_startblock (repeatcount e) a
      m'

-- No region of the list has a run of free frames, from where its search starts.
abbrev pub HaveNoRun : Pmm → ℕ → List ℕ → Type 0
HaveNoRun s count [] = Unit {0}
HaveNoRun s count (c ∷ cs) =
    HasNoRun (s.bitmap_stack c) s.memory count (s.bitmap_stack c).search_next_startblock
      (repeatcount (s.bitmap_stack c))
    × HaveNoRun s count cs

-- Frames were taken from the first region of the list that has such a run.
abbrev pub IsFound : Pmm → (count a : ℕ) → Memory → List ℕ → Type 0
IsFound s count a m' [] = ⊥
IsFound s count a m' (c ∷ cs) =
    IsTakenFrom s count a m' (s.bitmap_stack c)
    ⊎ (HasNoRun (s.bitmap_stack c) s.memory count (s.bitmap_stack c).search_next_startblock
          (repeatcount (s.bitmap_stack c))
        × IsFound s count a m' cs)

abbrev pub IsAllocated : Pmm → ℕ → List ℕ → Outcome (Option ℕ × Pmm) → Type 0
IsAllocated s count cs (ok (some a, s')) = IsFound s count a s'.memory cs × Kept s count s'
IsAllocated s count cs (ok (none, s')) =
    (s'.memory ≡ s.memory) × HaveNoRun s count cs × Kept s count s'
IsAllocated s count cs fault = ⊥
IsAllocated s count cs out_of_fuel = ⊥

-- What is left after a region is searched, as `alloc_walk` goes on.
abbrev after :
    Pmm
    → ℕ
    → Option ℕ × BitmapList × Memory
    → (ℕ → Pmm → Outcome (Option ℕ × Pmm))
    → Outcome (Option ℕ × Pmm)
after s cur (r, e', m') go =
    let s' : Pmm = record s { bitmap_stack = set_entry s.bitmap_stack cur e'; memory = m' } in
    elim r [
      | none ↦ elim e'.next [ none ↦ ok (none, s') | some n ↦ go n s' ]
      | some a ↦ ok (some a, s')
    ]

module _ (s0 : Pmm) (count : ℕ) where
  -- The state of the walk at region `c`.
  record IsAt (c : ℕ) (s : Pmm) : Type 0 where
    ahead : (j : ℕ) → c ≤ j → s.bitmap_stack j ≡ s0.bitmap_stack j
    same : s.memory ≡ s0.memory
    kept : Kept s0 count s

  abbrev HasHint : (c : ℕ) → BitmapList → Type 0
  HasHint c e' =
      IsHint (s0.bitmap_stack c) s0.memory count (s0.bitmap_stack c).search_next_startblock
        (repeatcount (s0.bitmap_stack c)) e'

  Kept-set_entry :
      {c : ℕ} (s : Pmm) (e' : BitmapList) (m' : Memory)
      → Kept s0 count s
      → SameRegion (s0.bitmap_stack c) e'
      → HasHint c e'
      → Kept s0 count (record s { bitmap_stack = set_entry s.bitmap_stack c e'; memory = m' })
  Kept-set_entry {c} s e' m' k same hint = record {
    regions = λ j. ground (arith, k.regions j);
    hints = λ j. elim (Bool-cases (c == j)) [
      | inl here ↦
          let at : c ≡ j = ground arith in rw here (subst (λ (x : ℕ). HasHint x e') at hint)
      | inr other ↦ rw other (k.hints j)
    ];
    top = k.top;
    first = k.first;
    dyn_total = k.dyn_total;
    dyn_base = k.dyn_base;
    dyn_first_block = k.dyn_first_block;
  }

  IsSearched-here :
      {c : ℕ} {s : Pmm} (r : Option ℕ × BitmapList × Memory)
      → IsAt c s
      → let e = s.bitmap_stack c in
        IsSearched e s.memory count e.search_next_startblock (repeatcount e) r
        → let e0 = s0.bitmap_stack c in
          IsSearched e0 s0.memory count e0.search_next_startblock (repeatcount e0) r
  IsSearched-here {c} r now h = rw (now.ahead c (omega arith), now.same) at h

  IsAllocated-cons :
      (c : ℕ) (ns : List ℕ) (o : Outcome (Option ℕ × Pmm))
      → let e = s0.bitmap_stack c in
        HasNoRun e s0.memory count e.search_next_startblock (repeatcount e)
        → IsAllocated s0 count ns o
        → IsAllocated s0 count (c ∷ ns) o
  IsAllocated-cons c ns (ok (some a, s')) here (found, kept) = (inr (here, found), kept)
  IsAllocated-cons c ns (ok (none, s')) here (same, behind, kept) = (same, (here, behind), kept)
  IsAllocated-cons c ns fault here h = h
  IsAllocated-cons c ns out_of_fuel here h = h

  module _ {c : ℕ} {s : Pmm} (now : IsAt c s) (go : ℕ → Pmm → Outcome (Option ℕ × Pmm)) where
    after-taken :
        (ns : List ℕ) (a : ℕ) (e' : BitmapList) (m' : Memory)
        → SameRegion (s0.bitmap_stack c) e'
        → HasHint c e'
        → IsTakenFrom s0 count a m' (s0.bitmap_stack c)
        → IsAllocated s0 count (c ∷ ns) (after s c (some a, e', m') go)
    after-taken ns a e' m' same hint taken = (inl taken, Kept-set_entry s e' m' now.kept same hint)

    after-last :
        (r : Option ℕ × BitmapList × Memory)
        → (s0.bitmap_stack c).next ≡ none
        → let e = s0.bitmap_stack c in
          IsSearched e s0.memory count e.search_next_startblock (repeatcount e) r
          → IsAllocated s0 count (c ∷ []) (after s c r go)
    after-last (none, e', m') end (same, hint, kept, norun) =
        rw (same.0, end) (kept, (norun, tt), Kept-set_entry s e' m' now.kept same hint)
    after-last (some a, e', m') end (same, hint, taken) = after-taken [] a e' m' same hint taken

    after-link :
        (n : ℕ) (ns : List ℕ) (r : Option ℕ × BitmapList × Memory)
        → (s0.bitmap_stack c).next ≡ some n
        → c < n
        → let e = s0.bitmap_stack c in
          IsSearched e s0.memory count e.search_next_startblock (repeatcount e) r
          → ((s' : Pmm) → IsAt n s' → IsAllocated s0 count ns (go n s'))
          → IsAllocated s0 count (c ∷ ns) (after s c r go)
    after-link n ns (none, e', m') next up (same, hint, kept, norun) rest =
        rw (same.0, next)
          (IsAllocated-cons c ns _ norun (
            rest _ (record {
              ahead = λ j above. ground (arith, now.ahead j);
              same = kept;
              kept = Kept-set_entry s e' m' now.kept same hint;
            })))
    after-link n ns (some a, e', m') next up (same, hint, taken) rest =
        after-taken ns a e' m' same hint taken

  searched :
      (s : Pmm) (c : ℕ)
      → 0 < count
      → let e = s.bitmap_stack c in
        let start = e.search_next_startblock in
        IsSearched e s.memory count start
          (repeatcount e)
          (alloc_words count 1 (repeatcount e - start) start true e s.memory)
  unfolding alloc_words
  searched s c pos =
      let e = s.bitmap_stack c in
      let start = e.search_next_startblock in
      elim (dec_le start (repeatcount e)) [
        | yes below ↦
            alloc_words-IsSearched s.memory count (repeatcount e) _ start true e pos (omega arith)
        | no above ↦
            let none_left : repeatcount e - start ≡ 0 = omega arith in
            rw none_left (
              (refl, refl, refl, refl),
              inl refl,
              refl,
              λ k b lo hi fits clear. absurd (omega arith),
            )
      ]

  alloc_walk-IsAllocated :
      (fuel c : ℕ) (ns : List ℕ) (s : Pmm)
      → 0 < count
      → length ns ≤ fuel
      → Chain s0.bitmap_stack c ns
      → IsAt c s
      → IsAllocated s0 count ns (alloc_walk count 1 fuel c s)
  unfolding alloc_walk
  alloc_walk-IsAllocated zero c ns s pos enough (last end) now = absurd (omega arith)
  alloc_walk-IsAllocated zero c ns s pos enough (link next up rest) now = absurd (omega arith)
  alloc_walk-IsAllocated (suc fuel) c ns s pos enough (last end) now =
      after-last now (alloc_walk count 1 fuel) _ end (IsSearched-here _ now (searched s c pos))
  alloc_walk-IsAllocated (suc fuel) c ns s pos enough (link {n} {ns = ns'} next up rest) now =
      after-link now (alloc_walk count 1 fuel) n ns' _ next up
        (IsSearched-here _ now (searched s c pos))
        (λ s' later. alloc_walk-IsAllocated fuel n ns' s' pos (omega arith) rest later)

Kept-refl : {s : Pmm} {count : ℕ} → Kept s count s
Kept-refl = record {
  regions = λ j. (refl, refl, refl, refl);
  hints = λ j. inl refl;
  top = refl;
  first = refl;
  dyn_total = refl;
  dyn_base = refl;
  dyn_first_block = refl;
}

-- `frame_alloc` of 1 to 32 frames at `align_up` 0 or 1, on at most 33 regions that are chained to
-- NULL, each further up the stack, never faults or hangs. A run is that many clear bits in one word
-- of a region's bitmap, from the word on where the region's search starts; the last word also has
-- bits of up to 32 frames behind the region. If there is a run, the address returned is that of the
-- first one, in the first region that has one: its bits are set now, and no other bit and no other
-- byte has changed. If there is none, NULL is returned, and no byte has changed. Of the variables
-- only the place where the next search of a region starts may have changed, to a word in front of
-- which this search found no run.
pub frame_alloc-IsAllocated :
    (s : Pmm) (count align_up first : ℕ) (ns : List ℕ)
    → 0 < count
    → count ≤ 32
    → align_up ≤ 1
    → s.firstblock ≡ some first
    → Chain s.bitmap_stack first ns
    → length ns ≤ 33
    → IsAllocated s count ns (frame_alloc s count align_up)
unfolding frame_alloc
frame_alloc-IsAllocated s count align_up first ns pos small unaligned starts chain short =
    let counted : (count == 0 || ltb 32 count) ≡ false = ground arith in
    let aligned : (if align_up == 0 then 1 else align_up) ≡ 1 = ground arith in
    simp (counted, starts, aligned)
      (alloc_walk-IsAllocated s count 33 first ns s pos short chain
        (record { ahead = λ j above. refl; same = refl; kept = Kept-refl }))
