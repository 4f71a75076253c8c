-- ===== src/Pmm/Alloc/Words.antt =====
-- The search of one region at `align_up` 1: a run of free frames is taken, or there is none.
use unix_p.Prelude.{
  ℕ, zero, suc, ◌+◌, ◌-◌, ◌^◌, ◌≤◌, ◌<◌, ◌≡◌, refl, ◌⊎◌, inl, inr, Bool, true, false, Option, none,
  some, ◌&&◌, not, arith, ◌==◌, if◌then◌else◌, Bool-cases,
}
use unix_p.Prelude.Bits.{bit_at, bit_at-complement, bit_at-zero}
use unix_p.Prelude.Memory.{
  Memory, read, load32, load32-lt, store32, read-store32_ne, load32-store32_self,
}
use native.Mathlib.Decide.{dec_lt}
use unix_p.Pmm.{BitmapList}
use unix_p.Pmm.Word.{Scan, find_run, set_bits}
use unix_p.Pmm.Word.Bits.{in_run, bit_at-set_bits, set_bits-lt}
use unix_p.Pmm.Word.Run.{IsClear, IsAnswer, find_run-IsAnswer}
use unix_p.Pmm.Alloc.{bitmap_addr, frame_addr, move_hint, alloc_words}

-- Two states of a region, which differ at most in where the next search starts.
abbrev pub SameRegion : BitmapList → BitmapList → Type 0
SameRegion e e' =
    (e'.next ≡ e.next)
    × (e'.first_bitmap ≡ e.first_bitmap)
    × (e'.blocks_count ≡ e.blocks_count)
    × (e'.first_block ≡ e.first_block)

-- Word `i` of the bitmap of `e`.
abbrev pub word_of : BitmapList → Memory → ℕ → ℕ
word_of e m i = load32 m (bitmap_addr e.first_bitmap i)

-- The frames `b` to `b + count - 1` of word `i` were free in `m`, are taken in `m'`, and `m'` is
-- otherwise as `m`; their first has the address `a`. No run of `count` free frames was before them.
pub record IsTaken (bitmap block : ℕ) (m : Memory) (count first last a : ℕ) (m' : Memory)
    : Type 0 where
  pub i : ℕ
  pub b : ℕ
  pub from : first ≤ i
  pub to : i < last
  pub address : a ≡ frame_addr block i b
  pub one_word : b + count ≤ 32
  pub free : IsClear (load32 m (bitmap_addr bitmap i)) b count
  pub taken :
      (k : ℕ)
      → bit_at (load32 m' (bitmap_addr bitmap i)) k
        ≡ (if in_run b count k then 1 else bit_at (load32 m (bitmap_addr bitmap i)) k)
  pub elsewhere :
      (x : ℕ) → (x < bitmap_addr bitmap i) ⊎ (bitmap_addr bitmap i + 4 ≤ x) → read m' x ≡ read m x
  pub first_word :
      (k c : ℕ)
      → first ≤ k
      → k < i
      → c + count ≤ 32
      → ¬ IsClear (load32 m (bitmap_addr bitmap k)) c count
  pub first_bit : (c : ℕ) → c < b → ¬ IsClear (load32 m (bitmap_addr bitmap i)) c count

-- No word from `first` up to `last` has a run of `count` free frames.
abbrev pub HasNoRun : BitmapList → Memory → ℕ → ℕ → ℕ → Type 0
HasNoRun e m count first last =
    (i b : ℕ) → first ≤ i → i < last → b + count ≤ 32 → ¬ IsClear (word_of e m i) b count

-- Where the next search of `e` starts, after one from `first` on: as before, or at a word in front of
-- which no word of this search has a run of `count` free frames.
abbrev pub IsHint : BitmapList → Memory → (count first last : ℕ) → BitmapList → Type 0
IsHint e m count first last e' =
    (e'.search_next_startblock ≡ e.search_next_startblock)
    ⊎ ((first ≤ e'.search_next_startblock)
        × (e'.search_next_startblock < last)
        × HasNoRun e m count first e'.search_next_startblock)

abbrev pub IsSearched :
    BitmapList → Memory → (count first last : ℕ) → Option ℕ × BitmapList × Memory → Type 0
IsSearched e m count first last (none, e', m') =
    SameRegion e e' × IsHint e m count first last e' × (m' ≡ m) × HasNoRun e m count first last
IsSearched e m count first last (some a, e', m') =
    SameRegion e e'
    × IsHint e m count first last e'
    × IsTaken e.first_bitmap e.first_block m count first last a m'

-- A full word has no clear bit.
full-IsClear :
    (word count b : ℕ) → word ≡ 0xffffffff → 0 < count → b + count ≤ 32 → ¬ IsClear word b count
full-IsClear word count b full pos fits clear =
    let ones : bit_at 0xffffffff b ≡ 1 - bit_at 0 b =
      bit_at-complement 32 0 b (omega arith) (omega arith) in
    omega (arith, ones, bit_at-zero b, rw full at (clear b (omega arith) (omega arith)))

module _ (e : BitmapList) (m : Memory) (count first last : ℕ) where
  HasNoRun-cons :
      (end : ℕ)
      → ((b : ℕ) → b + count ≤ 32 → ¬ IsClear (word_of e m first) b count)
      → HasNoRun e m count (first + 1) end
      → HasNoRun e m count first end
  HasNoRun-cons end here behind i b lo hi fits clear = elim (dec_lt first i) [
    | yes later ↦ behind i b (omega arith) hi fits clear
    | no not_later ↦ let now : i ≡ first = omega arith in here b fits (rw now at clear)
  ]

  IsHint-cons :
      (e' : BitmapList)
      → ((b : ℕ) → b + count ≤ 32 → ¬ IsClear (word_of e m first) b count)
      → IsHint e m count (first + 1) last e'
      → IsHint e m count first last e'
  IsHint-cons e' here (inl same) = inl same
  IsHint-cons e' here (inr (lo, hi, behind)) =
      inr (omega arith, hi, HasNoRun-cons e'.search_next_startblock here behind)

  IsTaken-cons :
      (a : ℕ) (m' : Memory)
      → ((b : ℕ) → b + count ≤ 32 → ¬ IsClear (word_of e m first) b count)
      → IsTaken e.first_bitmap e.first_block m count (first + 1) last a m'
      → IsTaken e.first_bitmap e.first_block m count first last a m'
  IsTaken-cons a m' here t = record {
    i = t.i;
    b = t.b;
    from = omega (arith, t.from);
    to = t.to;
    address = t.address;
    one_word = t.one_word;
    free = t.free;
    taken = t.taken;
    elsewhere = t.elsewhere;
    first_word = HasNoRun-cons t.i here t.first_word;
    first_bit = t.first_bit;
  }

  -- One more word in front of a search that went on behind it.
  IsSearched-cons :
      (r : Option ℕ × BitmapList × Memory)
      → ((b : ℕ) → b + count ≤ 32 → ¬ IsClear (word_of e m first) b count)
      → IsSearched e m count (first + 1) last r
      → IsSearched e m count first last r
  IsSearched-cons (none, e', m') here (same, hint, kept, behind) =
      (same, IsHint-cons e' here hint, kept, HasNoRun-cons last here behind)
  IsSearched-cons (some a, e', m') here (same, hint, t) =
      (same, IsHint-cons e' here hint, IsTaken-cons a m' here t)

  -- The word at which the search ends.
  IsTaken-store :
      (b : ℕ)
      → first < last
      → b + count ≤ 32
      → IsClear (word_of e m first) b count
      → ((c : ℕ) → c < b → ¬ IsClear (word_of e m first) c count)
      → IsTaken e.first_bitmap e.first_block m count first last (frame_addr e.first_block first b) (
          store32 m (bitmap_addr e.first_bitmap first) (set_bits count (word_of e m first) (2 ^ b)))
  IsTaken-store b below fits clear earliest = record {
    i = first;
    b = b;
    from = omega arith;
    to = below;
    address = refl;
    one_word = fits;
    free = clear;
    taken = λ k. rw (
      load32-store32_self m (bitmap_addr e.first_bitmap first) _
          (set_bits-lt count b (word_of e m first) fits (load32-lt m _)),
      bit_at-set_bits count b (word_of e m first) k fits,
    );
    elsewhere = λ x out. read-store32_ne m (bitmap_addr e.first_bitmap first) _ x out;
    first_word = λ k c lo hi fits clear. absurd (omega arith);
    first_bit = earliest;
  }

SameRegion-move_hint : (e : BitmapList) (i : ℕ) (b : Bool) → SameRegion e (move_hint e i b)
SameRegion-move_hint e i true = (refl, refl, refl, refl)
SameRegion-move_hint e i false = (refl, refl, refl, refl)

IsHint-here :
    (e : BitmapList) (m : Memory) (count i last : ℕ) (b : Bool)
    → i < last
    → IsHint e m count i last (move_hint e i b)
IsHint-here e m count i last true below =
    inr (omega arith, below, λ k c lo hi fits clear. absurd (omega arith))
IsHint-here e m count i last false below = inl refl

IsHint-later :
    (e e' : BitmapList) (m : Memory) (count i last : ℕ) (b : Bool)
    → i < last
    → ((c : ℕ) → c + count ≤ 32 → ¬ IsClear (word_of e m i) c count)
    → IsHint (move_hint e i b) m count (i + 1) last e'
    → IsHint e m count i last e'
IsHint-later e e' m count i last true below here (inl same) =
    inr (omega arith, omega arith, λ k c lo hi fits clear. absurd (omega arith))
IsHint-later e e' m count i last true below here (inr h) =
    IsHint-cons e m count i last e' here (inr h)
IsHint-later e e' m count i last false below here h = IsHint-cons e m count i last e' here h

-- The search behind a word without a run, with the start of the next search moved to it or not.
IsSearched-moved :
    (e : BitmapList) (m : Memory) (count i last : ℕ) (b : Bool) (r : Option ℕ × BitmapList × Memory)
    → i < last
    → ((c : ℕ) → c + count ≤ 32 → ¬ IsClear (word_of e m i) c count)
    → IsSearched (move_hint e i b) m count (i + 1) last r
    → IsSearched e m count i last r
IsSearched-moved e m count i last true (none, e', m') below here (same, hint, kept, behind) = (
  same,
  IsHint-later e e' m count i last true below here hint,
  kept,
  HasNoRun-cons e m count i last last here behind,
)
IsSearched-moved e m count i last true (some a, e', m') below here (same, hint, t) = (
  same,
  IsHint-later e e' m count i last true below here hint,
  IsTaken-cons e m count i last a m' here t,
)
IsSearched-moved e m count i last false r below here h = IsSearched-cons e m count i last r here h

-- What follows the search of a word.
IsSearched-word :
    (e : BitmapList) (m : Memory) (count i last : ℕ) (moved : Bool)
    (missed : Option ℕ × BitmapList × Memory) (found : Option (ℕ × ℕ))
    → i < last
    → IsAnswer (word_of e m i) count found
    → IsSearched (move_hint e i moved) m count (i + 1) last missed
    → IsSearched e m count i last (elim found [
      | none ↦ missed
      | some (j, firstj) ↦ (
        some (frame_addr e.first_block i firstj),
        move_hint e i moved,
        store32 m (bitmap_addr e.first_bitmap i) (set_bits count (word_of e m i) (2 ^ j)),
      )
    ])
IsSearched-word e m count i last moved missed none below answer rest =
    IsSearched-moved e m count i last moved missed below answer rest
IsSearched-word e m count i last moved missed (some (j, firstj)) below (same, fits, clear, earliest)
      rest =
    rw same (
      SameRegion-move_hint e i moved,
      IsHint-here e m count i last moved below,
      IsTaken-store e m count i last firstj below fits clear earliest,
    )

pub alloc_words-IsSearched :
    (m : Memory) (count last left i : ℕ) (unset : Bool) (e : BitmapList)
    → 0 < count
    → i + left ≡ last
    → IsSearched e m count i last (alloc_words count 1 left i unset e m)
unfolding alloc_words
alloc_words-IsSearched m count last zero i unset e pos ends =
    ((refl, refl, refl, refl), inl refl, refl, λ k b lo hi fits clear. absurd (omega arith))
alloc_words-IsSearched m count last (suc left) i unset e pos ends =
    let scan : Scan = find_run (word_of e m i) count 1 in
    let e' = move_hint e i (unset && scan.seen) in
    let unset' = unset && not scan.seen in
    elim (Bool-cases (word_of e m i == 0xffffffff)) [
      | inl full ↦ rw full (
          IsSearched-cons e m count i last (alloc_words count 1 left (i + 1) unset e m)
            (λ b. full-IsClear _ count b (ground arith) pos)
            (alloc_words-IsSearched m count last left (i + 1) unset e pos (omega arith)))
      | inr room ↦ rw room (
          IsSearched-word e m count i last (unset && scan.seen)
            (alloc_words count 1 left (i + 1) unset' e' m) scan.found (omega arith)
            (find_run-IsAnswer (word_of e m i) count pos)
            (alloc_words-IsSearched m count last left (i + 1) unset' e' pos (omega arith)))
    ]
