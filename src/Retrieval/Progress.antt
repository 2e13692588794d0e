-- ===== src/Retrieval/Progress.antt =====
-- When the loop of `_bounded_parts` ends.
use multi_agent_system.Base.{
  ℕ, zero, suc, ◌+◌, ◌-◌, ◌*◌, ◌≤◌, ◌<◌, List, [], ◌∷◌, ◌++◌, none, some, false, ◌≡◌, refl, inl,
  inr, arith, Bool-cases, length, take, drop, length-take, length-drop, length-append, ltb,
  if◌then◌else◌, All,
}
use multi_agent_system.Retrieval.Text.{Text, newline, is_empty}
use multi_agent_system.Retrieval.Chunking.{
  StructuralChunker, Pass, gap, joined, overlap_of, is_full, flushed, pass, passes, fill,
}

pub length-joined :
    (current piece : Text)
    → length (joined current piece) ≡ length current + gap current + length piece
length-joined [] piece = omega arith
length-joined (c ∷ current) piece =
    let whole = length-append (c ∷ current) (newline ∷ newline ∷ piece) in ground arith

pub empty_or_longer : (t : Text) → is_empty t ≡ false → 1 ≤ length t
empty_or_longer [] h = absurd (ground arith)
empty_or_longer (c ∷ t) h = omega arith

longer_not_empty : (t : Text) → 1 ≤ length t → is_empty t ≡ false
longer_not_empty [] h = absurd (ground arith)
longer_not_empty (c ∷ t) h = refl

module _ (k : StructuralChunker) where
  pub length-overlap_of : (t : Text) → length (overlap_of k t) ≤ k.overlap_chars
  length-overlap_of t = elim (Bool-cases (ltb 0 k.overlap_chars)) [
    | inl some_ ↦ let rest = length-drop (length t - k.overlap_chars) t in ground arith
    | inr none_ ↦ ground arith
  ]

  -- One unit for a full text, two for each character to come.
  abbrev weight : Pass → ℕ
  weight s = 2 * length s.remaining + (if is_full k s.current then 1 else 0)

  module _ (room : k.overlap_chars + 2 < k.max_chars) where
    flushed-IsOpen : (t : Text) → is_full k (overlap_of k t) ≡ false
    flushed-IsOpen t = let short = length-overlap_of t in ground arith

    pass_progress : (s : Pass) → is_empty s.remaining ≡ false → weight (pass k s) < weight s
    unfolding pass
    pass_progress s left = elim (Bool-cases (is_full k s.current)) [
      | inl full ↦ let open_ = flushed-IsOpen s.current in ground arith
      | inr open_ ↦
          let more = empty_or_longer s.remaining left in
          let piece = length-take (k.max_chars - (length s.current + gap s.current)) s.remaining in
          let rest =
            length-drop
              (length (take (k.max_chars - (length s.current + gap s.current)) s.remaining))
              s.remaining in
          ground arith
    ]

    passes_end : (fuel : ℕ) (s : Pass) → weight s ≤ fuel → (t : Pass) × (passes k fuel s ≡ some t)
    unfolding passes
    passes_end zero s h = elim (Bool-cases (is_empty s.remaining)) [
      | inl over ↦ (s, ground arith)
      | inr left ↦ let more = empty_or_longer s.remaining left in absurd (ground arith)
    ]
    passes_end (suc fuel) s h = elim (Bool-cases (is_empty s.remaining)) [
      | inl over ↦ (s, ground arith)
      | inr left ↦
          let less = pass_progress s left in
          let (t, ends) = passes_end fuel (pass k s) (omega (arith, less, h)) in (t, ground arith)
    ]

    -- Fuel for each paragraph.
    pub fill_ends :
        (fuel : ℕ) (s : Pass) (ps : List Text)
        → All (λ p. 2 * length p + 1 ≤ fuel) ps
        → (t : Pass) × (fill k fuel s ps ≡ some t)
    unfolding fill
    fill_ends fuel s [] h = (s, refl)
    fill_ends fuel s (p ∷ ps) h =
        let (t, ends) = passes_end fuel (record s { remaining = p }) (ground (arith, h.0)) in
        let (t', rest) = fill_ends fuel t ps h.1 in (t', ground arith)

  -- The text is full again after each pass.
  module _ (some_overlap : 0 < k.overlap_chars) (cramped : k.max_chars ≤ k.overlap_chars + 2) where
    stays_full :
        (s : Pass)
        → k.overlap_chars ≤ length s.current
        → (pass k s ≡ flushed k s) × (k.overlap_chars ≤ length (overlap_of k s.current))
    unfolding pass
    stays_full s long =
        let rest = length-drop (length s.current - k.overlap_chars) s.current in
        (ground arith, ground arith)

    never_ends :
        (fuel : ℕ) (s : Pass)
        → k.overlap_chars ≤ length s.current
        → is_empty s.remaining ≡ false
        → passes k fuel s ≡ none
    unfolding passes
    never_ends zero s long left = ground arith
    never_ends (suc fuel) s long left =
        let (same, long') = stays_full s long in
        let rest = never_ends fuel (flushed k s) long' left in ground arith

    -- A paragraph that does not fit into one part is never finished.
    pub long_paragraph :
        (fuel : ℕ) (parts : List Text) (p : Text)
        → k.overlap_chars < k.max_chars
        → k.max_chars < length p
        → passes k fuel (record { parts = parts; current = []; remaining = p }) ≡ none
    unfolding passes pass
    long_paragraph fuel parts [] few long = absurd (ground arith)
    long_paragraph zero parts (c ∷ p) few long = refl
    long_paragraph (suc fuel) parts (c ∷ p) few long =
        let piece = take k.max_chars (c ∷ p) in
        let size = length-take k.max_chars (c ∷ p) in
        let left = length-drop (length piece) (c ∷ p) in
        let kept = length-drop (length piece - k.overlap_chars) piece in
        let s : Pass = record {
          parts = parts ++ piece ∷ [];
          current = overlap_of k piece;
          remaining = drop (length piece) (c ∷ p);
        } in
        let first : pass k (record { parts = parts; current = []; remaining = c ∷ p }) ≡ s =
          ground arith in
        let more : is_empty s.remaining ≡ false = longer_not_empty s.remaining (ground arith) in
        rw first (never_ends fuel s (ground arith) more)
