-- ===== src/Retrieval/Bounds.antt =====
-- How long the parts of `_bounded_parts` are.
use mathlib.Core.Path.{subst}
use multi_agent_system.Base.{
  ℕ, zero, suc, ◌+◌, ◌-◌, ◌≤◌, ◌<◌, List, [], ◌∷◌, Option, none, some, ◌≡◌, refl, ap, inl, inr,
  arith, Bool-cases, Option-cases, length, take, drop, length-take, leb, All, All-append,
}
use multi_agent_system.Retrieval.Text.{Text, is_empty, lstrip, rstrip, strip}
use multi_agent_system.Retrieval.Chunking.{
  StructuralChunker, Pass, gap, joined, is_full, flushed, pass, passes, fill, bounded_parts,
  last_part, paragraphs,
}
use multi_agent_system.Retrieval.Progress.{length-overlap_of, length-joined}

-- `some` is injective.
pub the_same {ℓ} : {A : Type ℓ} (x y : A) → some x ≡ some y → x ≡ y
the_same x y h = ap (or_else x) h
  where
    or_else : {A : Type ℓ} → A → Option A → A
    or_else d none = d
    or_else d (some a) = a

length-lstrip : (t : Text) → length (lstrip t) ≤ length t
unfolding lstrip
length-lstrip [] = omega arith
length-lstrip (c ∷ t) = let rest = length-lstrip t in ground arith

length-rstrip : (t : Text) → length (rstrip t) ≤ length t
unfolding rstrip
length-rstrip [] = omega arith
length-rstrip (c ∷ t) = by_rest (rstrip t) refl (length-rstrip t)
  where
    by_rest :
        (r : Text)
        → rstrip t ≡ r
        → length (rstrip t) ≤ length t
        → length (rstrip (c ∷ t)) ≤ suc (length t)
    by_rest [] same rest = ground arith
    by_rest (d ∷ r) same rest = ground arith

pub length-strip : (t : Text) → length (strip t) ≤ length t
unfolding strip
length-strip t = omega (arith, length-lstrip t, length-rstrip (lstrip t))

module _ (k : StructuralChunker) (few : k.overlap_chars < k.max_chars) where
  abbrev pub IsShort : Text → Type 0
  IsShort t = length t ≤ k.max_chars

  abbrev Fits : Pass → Type 0
  Fits s = IsShort s.current × All IsShort s.parts

  flushed-Fits : (s : Pass) → Fits s → Fits (flushed k s)
  flushed-Fits s (short, parts) = (
    omega (arith, length-overlap_of k s.current, few),
    All-append IsShort s.parts (s.current ∷ []) parts (short, tt),
  )

  pass-Fits : (s : Pass) → Fits s → Fits (pass k s)
  unfolding pass
  pass-Fits s h = elim (Bool-cases (is_full k s.current)) [
    | inl full ↦ rw full (flushed-Fits s h)
    | inr open_ ↦
        let available = k.max_chars - (length s.current + gap s.current) in
        let piece = take available s.remaining in
        let size = length-take available s.remaining in
        let whole = length-joined s.current piece in
        let t : Pass = record s {
          current = joined s.current piece;
          remaining = drop (length piece) s.remaining;
        } in
        let fits : Fits t = (ground arith, h.1) in
        elim (Bool-cases (leb k.max_chars (length t.current))) [
          | inl over ↦ rw (open_, over) (flushed-Fits t fits)
          | inr under ↦ rw (open_, under) fits
        ]
  ]

  passes-Fits : (fuel : ℕ) (s t : Pass) → passes k fuel s ≡ some t → Fits s → Fits t
  unfolding passes
  passes-Fits zero s t h fits = elim (Bool-cases (is_empty s.remaining)) [
    | inl over ↦ subst Fits (the_same s t (ground arith)) fits
    | inr left ↦ absurd (ground arith)
  ]
  passes-Fits (suc fuel) s t h fits = elim (Bool-cases (is_empty s.remaining)) [
    | inl over ↦ subst Fits (the_same s t (ground arith)) fits
    | inr left ↦ passes-Fits fuel (pass k s) t (ground arith) (pass-Fits s fits)
  ]

  fill-Fits : (fuel : ℕ) (s t : Pass) (ps : List Text) → fill k fuel s ps ≡ some t → Fits s → Fits t
  unfolding fill
  fill-Fits fuel s t [] h fits = subst Fits (the_same s t h) fits
  fill-Fits fuel s t (p ∷ ps) h fits =
      elim (Option-cases (passes k fuel (record s { remaining = p }))) [
        | inl stuck ↦ absurd (ground arith)
        | inr (t', ends) ↦
            fill-Fits fuel t' t ps (ground arith)
              (passes-Fits fuel (record s { remaining = p }) t' ends fits)
      ]

  pub bounded_parts-IsShort :
      (fuel : ℕ) (text : Text) (parts : List Text)
      → bounded_parts k fuel text ≡ some parts
      → All IsShort parts
  unfolding bounded_parts
  bounded_parts-IsShort fuel text parts h =
      let start : Pass = record { parts = []; current = []; remaining = [] } in
      elim (Option-cases (fill k fuel start (paragraphs text))) [
        | inl stuck ↦ absurd (ground arith)
        | inr (t, ends) ↦
            let fits = fill-Fits fuel start t (paragraphs text) ends (omega arith, tt) in
            let all : All IsShort (last_part k t) = elim (Bool-cases (is_empty t.current)) [
              | inl over ↦ rw over fits.1
              | inr more ↦ rw more (All-append IsShort t.parts (t.current ∷ []) fits.1 (fits.0, tt))
            ] in
            subst (All IsShort) (the_same (last_part k t) parts (ground arith)) all
      ]
