-- ===== src/Pmm/Init/Map.antt =====
-- The loop of `mm_init` over a map of which one entry gives a region.
use unix_p.Prelude.{
  ℕ, ◌≡◌, ◌≢◌, ◌⊎◌, inl, inr, refl, sym, ap, ◌∙◌, Bool-cases, true, false, List, [], ◌∷◌, ◌++◌,
  Option, none, some, arith, ◌==◌,
}
use unix_p.Pmm.{MemblockEntry, Pmm, Outcome, ok, mem_block_available, mem_block_reserved}
use unix_p.Pmm.Block.{is_block_under1mb}
use unix_p.Pmm.Init.{mm_initmemblock, link_block, mm_init_loop}

-- An entry that gives no region: it is not available, or wholly under 1 MB.
abbrev pub IsPassed : MemblockEntry → Type 0
IsPassed me = (me.type ≢ mem_block_available) ⊎ (is_block_under1mb me ≡ true)

abbrev pub ArePassed : List MemblockEntry → Type 0
ArePassed [] = Unit {0}
ArePassed (me ∷ rest) = IsPassed me × ArePassed rest

-- The loop ends in this state.
abbrev pub Ends : Outcome (List MemblockEntry × Pmm) → Pmm → Type 0
Ends o s' = (es : List MemblockEntry) × (o ≡ ok (es, s'))

-- The states have the same entries, and agree in the rest.
pub record Undisturbed (s s' : Pmm) : Type 0 where
  pub stack : (j : ℕ) → s'.bitmap_stack j ≡ s.bitmap_stack j
  pub first : s'.firstblock ≡ s.firstblock
  pub dynamic : s'.m_dyn_first_block ≡ s.m_dyn_first_block
  pub memory : s'.memory ≡ s.memory

abbrev pub IsUnlinked : Option ℕ → Pmm → Type 0
IsUnlinked none s = Unit {0}
IsUnlinked (some i) s = (s.bitmap_stack i).next ≡ none

pub loop-Ends :
    (kernel_start kernel_end : ℕ) (new : Option ℕ) (s : Pmm)
    → Ends (mm_init_loop kernel_start kernel_end [] new s) s
unfolding mm_init_loop
loop-Ends kernel_start kernel_end new s = ([], refl)

loop_skips :
    (kernel_start kernel_end : ℕ) (me : MemblockEntry) (rest : List MemblockEntry) (new : Option ℕ)
    (s s' : Pmm)
    → me.type ≢ mem_block_available
    → Ends (mm_init_loop kernel_start kernel_end rest new s) s'
    → Ends (mm_init_loop kernel_start kernel_end (me ∷ rest) new s) s'
unfolding mm_init_loop
loop_skips kernel_start kernel_end me rest new s s' other (es, ends) =
    let test : (me.type == mem_block_available) ≡ false = ground arith in
    (me ∷ es, rw (mm_init_loop, test, ends) refl)

pub loop_takes :
    (kernel_start kernel_end : ℕ) (me me' : MemblockEntry) (rest : List MemblockEntry)
    (old new : Option ℕ) (s s1 s' : Pmm)
    → me.type ≡ mem_block_available
    → mm_initmemblock kernel_start kernel_end me s ≡ ok (new, me', s1)
    → Ends (mm_init_loop kernel_start kernel_end rest new (link_block old new s1)) s'
    → Ends (mm_init_loop kernel_start kernel_end (me ∷ rest) old s) s'
unfolding mm_init_loop
loop_takes kernel_start kernel_end me me' rest old new s s1 s' available result (es, ends) =
    let test : (me.type == mem_block_available) ≡ true = ground arith in
    (me' ∷ es, rw (mm_init_loop, test, result, ends) refl)

rejected :
    (kernel_start kernel_end : ℕ) (me : MemblockEntry) (s : Pmm)
    → is_block_under1mb me ≡ true
    → mm_initmemblock kernel_start kernel_end me s
      ≡ ok (none, record me { type = mem_block_reserved }, s)
unfolding mm_initmemblock
rejected kernel_start kernel_end me s under = rw under refl

-- Before the first region there is nothing to link.
pub loop_passes_first :
    (kernel_start kernel_end : ℕ) (pre rest : List MemblockEntry) (s s' : Pmm)
    → ArePassed pre
    → Ends (mm_init_loop kernel_start kernel_end rest none s) s'
    → Ends (mm_init_loop kernel_start kernel_end (pre ++ rest) none s) s'
unfolding link_block
loop_passes_first kernel_start kernel_end [] rest s s' passed ends = ends
loop_passes_first kernel_start kernel_end (me ∷ pre) rest s s' (inl other, passed) ends =
    loop_skips kernel_start kernel_end me (pre ++ rest) none s s' other
      (loop_passes_first kernel_start kernel_end pre rest s s' passed ends)
loop_passes_first kernel_start kernel_end (me ∷ pre) rest s s' (inr under, passed) ends =
    let later = loop_passes_first kernel_start kernel_end pre rest s s' passed ends in
    elim (Bool-cases (me.type == mem_block_available)) [
      | inl available ↦
          loop_takes kernel_start kernel_end me (record me { type = mem_block_reserved })
            (pre ++ rest) none none s s s' (ground arith)
            (rejected kernel_start kernel_end me s under) later
      | inr other ↦
          loop_skips kernel_start kernel_end me (pre ++ rest) none s s' (ground arith) later
    ]

-- A link to NULL where NULL is.
link_block-Undisturbed :
    (old : Option ℕ) (s : Pmm) → IsUnlinked old s → Undisturbed s (link_block old none s)
unfolding link_block
link_block-Undisturbed none s unlinked = record {
  stack = λ j. refl;
  first = refl;
  dynamic = refl;
  memory = refl;
}
link_block-Undisturbed (some i) s unlinked =
    let e = s.bitmap_stack i in
    let same : record e { next = none } ≡ e =
      ap (λ (n : Option ℕ). record e { next = n }) (sym unlinked) in
    record {
      stack = λ j. elim (Bool-cases (i == j)) [
        | inl here ↦ let at : i ≡ j = ground arith in rw here (same ∙ ap s.bitmap_stack at)
        | inr other ↦ rw other refl
      ];
      first = refl;
      dynamic = refl;
      memory = refl;
    }

Undisturbed-trans : (s s1 s2 : Pmm) → Undisturbed s s1 → Undisturbed s1 s2 → Undisturbed s s2
Undisturbed-trans s s1 s2 h h' = record {
  stack = λ j. h'.stack j ∙ h.stack j;
  first = h'.first ∙ h.first;
  dynamic = h'.dynamic ∙ h.dynamic;
  memory = h'.memory ∙ h.memory;
}

-- Behind the last region.
pub loop_passes_last :
    (kernel_start kernel_end : ℕ) (post : List MemblockEntry) (old : Option ℕ) (s : Pmm)
    → ArePassed post
    → IsUnlinked old s
    → (s' : Pmm) × Ends (mm_init_loop kernel_start kernel_end post old s) s' × Undisturbed s s'
loop_passes_last kernel_start kernel_end [] old s passed unlinked = (
  s,
  loop-Ends kernel_start kernel_end old s,
  record { stack = λ j. refl; first = refl; dynamic = refl; memory = refl },
)
loop_passes_last kernel_start kernel_end (me ∷ post) old s (first, passed) unlinked =
    elim (Bool-cases (me.type == mem_block_available)) [
      | inl available ↦
          let under : is_block_under1mb me ≡ true = elim first [
            | inl other ↦ absurd (ground arith)
            | inr under ↦ under
          ] in
          let (s', ends, same) =
            loop_passes_last kernel_start kernel_end post none (link_block old none s) passed tt in
          (
            s',
            loop_takes kernel_start kernel_end me (record me { type = mem_block_reserved }) post old
                none s s s' (ground arith) (rejected kernel_start kernel_end me s under) ends,
            Undisturbed-trans s (link_block old none s) s' (link_block-Undisturbed old s unlinked)
                same,
          )
      | inr other ↦
          let (s', ends, same) =
            loop_passes_last kernel_start kernel_end post old s passed unlinked in
          (s', loop_skips kernel_start kernel_end me post old s s' (ground arith) ends, same)
    ]
