-- ===== src/Retrieval/Chunks.antt =====
-- What `StructuralChunker.chunk` returns, and when it returns.
use mathlib.Core.Path.{subst}
use multi_agent_system.Base.{
  ℕ, suc, ◌+◌, ◌*◌, ◌≤◌, ◌<◌, List, [], ◌∷◌, ◌++◌, Option, none, some, ◌≡◌, refl, inl, inr, arith,
  Bool-cases, Uuid, leb, ltb, length, All,
}
use multi_agent_system.Exec.{ok}
use multi_agent_system.Schemas.{DocumentChunk}
use multi_agent_system.Retrieval.Text.{Text, is_empty, strip}
use multi_agent_system.Retrieval.Chunking.{
  StructuralChunker, structural_chunker, Section, bounded_parts, last_part, paragraphs, fill,
  new_chunk, add_parts, add_sections, chunk, sections,
}
use multi_agent_system.Retrieval.Progress.{fill_ends, long_paragraph, empty_or_longer}
use multi_agent_system.Retrieval.Bounds.{length-strip, bounded_parts-IsShort}

-- What the constructor admits.
admitted :
    (max_chars overlap_chars : ℕ) (k : StructuralChunker)
    → structural_chunker max_chars overlap_chars ≡ ok k
    → (k.max_chars ≡ max_chars)
      × (k.overlap_chars ≡ overlap_chars)
      × (200 ≤ max_chars)
      × (overlap_chars < max_chars)
unfolding structural_chunker
admitted max_chars overlap_chars k h = elim (Bool-cases (ltb max_chars 200)) [
  | inl small ↦ absurd (ground arith)
  | inr large ↦ elim (Bool-cases (leb max_chars overlap_chars)) [
    | inl wide ↦ absurd (ground arith)
    | inr few ↦ (ground arith, ground arith, ground arith, ground arith)
  ]
]

-- The passes that the paragraphs need: two for each character, and one.
abbrev pub fuel_of : List Text → ℕ
fuel_of [] = 0
fuel_of (p ∷ ps) = 2 * length p + 1 + fuel_of ps

abbrev pub fuel_for : List Section → ℕ
fuel_for [] = 0
fuel_for (s ∷ ss) = fuel_of (paragraphs s.text) + fuel_for ss

enough : (fuel : ℕ) (ps : List Text) → fuel_of ps ≤ fuel → All (λ p. 2 * length p + 1 ≤ fuel) ps
enough fuel [] h = tt
enough fuel (p ∷ ps) h = (omega arith, enough fuel ps (omega arith))

-- The chunks are numbered from a position on, none is empty, and none is longer than a part.
abbrev pub AreChunks : ℕ → ℕ → List DocumentChunk → Type 0
AreChunks max_chars position [] = Unit
AreChunks max_chars position (c ∷ cs) =
    (c.position ≡ position)
    × (1 ≤ length c.content)
    × (length c.content ≤ max_chars)
    × (1 ≤ c.token_count)
    × AreChunks max_chars (suc position) cs

AreChunks-append :
    (m n : ℕ) (cs : List DocumentChunk) (c : DocumentChunk)
    → AreChunks m n cs
    → c.position ≡ n + length cs
    → 1 ≤ length c.content
    → length c.content ≤ m
    → 1 ≤ c.token_count
    → AreChunks m n (cs ++ c ∷ [])
AreChunks-append m n [] c h p a b t = (omega arith, a, b, t, tt)
AreChunks-append m n (x ∷ cs) c (q, d, e, f, rest) p a b t =
    (q, d, e, f, AreChunks-append m (suc n) cs c rest (omega arith) a b t)

module _ (k : StructuralChunker) (chunk_id : Uuid → ℕ → Text → Uuid)
    (case_id document_id : Uuid) where
  add_parts-AreChunks :
      (heading : Option Text) (outputs : List DocumentChunk) (parts : List Text)
      → All (λ t. length t ≤ k.max_chars) parts
      → AreChunks k.max_chars 0 outputs
      → AreChunks k.max_chars 0 (add_parts k chunk_id case_id document_id heading outputs parts)
  unfolding add_parts new_chunk
  add_parts-AreChunks heading outputs [] short h = h
  add_parts-AreChunks heading outputs (t ∷ ts) short h = elim (Bool-cases (is_empty (strip t))) [
    | inl blank ↦ rw blank (add_parts-AreChunks heading outputs ts short.1 h)
    | inr text ↦
        let c = new_chunk k chunk_id case_id document_id heading (length outputs) (strip t) in
        let less = length-strip t in
        let more = empty_or_longer (strip t) text in
        rw text (
          add_parts-AreChunks heading (outputs ++ c ∷ []) ts short.1 (
            AreChunks-append k.max_chars 0 outputs c h (omega arith) more
              (omega (arith, less, short.0)) (omega arith)))
  ]

  module _ (room : k.overlap_chars + 2 < k.max_chars) where
    parts_end :
        (fuel : ℕ) (text : Text)
        → fuel_of (paragraphs text) ≤ fuel
        → (parts : List Text) × (bounded_parts k fuel text ≡ some parts)
    unfolding bounded_parts
    parts_end fuel text h =
        let (s, ends) =
          fill_ends k room fuel (record { parts = []; current = []; remaining = [] })
            (paragraphs text) (enough fuel (paragraphs text) h) in
        (last_part k s, ground arith)

    sections_end :
        (fuel : ℕ) (outputs : List DocumentChunk) (ss : List Section)
        → fuel_for ss ≤ fuel
        → AreChunks k.max_chars 0 outputs
        → (cs : List DocumentChunk) × (add_sections k chunk_id case_id document_id fuel outputs ss
            ≡ some cs)
          × AreChunks k.max_chars 0 cs
    unfolding add_sections
    sections_end fuel outputs [] h fine = (outputs, refl, fine)
    sections_end fuel outputs (s ∷ ss) h fine =
        let (parts, ends) = parts_end fuel s.text (omega arith) in
        let short = bounded_parts-IsShort k (omega arith) fuel s.text parts ends in
        let more = add_parts k chunk_id case_id document_id s.heading outputs parts in
        let (cs, rest, fine') =
          sections_end fuel more ss (omega arith)
            (add_parts-AreChunks s.heading outputs parts short fine) in
        (cs, ground arith, fine')

-- With an overlap that leaves more than two characters of a part, `chunk` returns for every text:
-- it needs at most two passes for each character of a paragraph and one more for each paragraph.
-- The chunks are numbered from 0 in their order, and each has a content of 1 to max_chars
-- characters and a positive number of tokens.
pub chunk-IsTotal :
    (max_chars overlap_chars : ℕ) (k : StructuralChunker) (chunk_id : Uuid → ℕ → Text → Uuid)
    (case_id document_id : Uuid) (fuel : ℕ) (markdown : Text)
    → structural_chunker max_chars overlap_chars ≡ ok k
    → overlap_chars + 2 < max_chars
    → fuel_for (sections markdown) ≤ fuel
    → (cs : List DocumentChunk) × (chunk k chunk_id case_id document_id fuel markdown ≡ some cs)
      × AreChunks max_chars 0 cs
unfolding chunk
chunk-IsTotal max_chars overlap_chars k chunk_id case_id document_id fuel markdown built room h =
    let (same, same', large, few) = admitted max_chars overlap_chars k built in
    let (cs, ends, fine) =
      sections_end k chunk_id case_id document_id (omega (arith, same, same', room)) fuel []
        (sections markdown) h tt in
    (cs, ends, subst (λ m. AreChunks m 0 cs) same fine)

-- The constructor also admits an overlap of one or two characters less than a part. With it the
-- loop of `_bounded_parts` never ends on a text whose first paragraph does not fit into one part:
-- no number of passes is enough.
pub bounded_parts-IsStuck :
    (max_chars overlap_chars : ℕ) (k : StructuralChunker) (fuel : ℕ) (text p : Text)
    (ps : List Text)
    → structural_chunker max_chars overlap_chars ≡ ok k
    → max_chars ≤ overlap_chars + 2
    → paragraphs text ≡ p ∷ ps
    → max_chars < length p
    → bounded_parts k fuel text ≡ none
unfolding bounded_parts fill
bounded_parts-IsStuck max_chars overlap_chars k fuel text p ps built cramped split long =
    let (same, same', large, few) = admitted max_chars overlap_chars k built in
    let stuck =
      long_paragraph k (omega (arith, same, same', large, cramped))
        (omega (arith, same, same', cramped)) fuel [] p (omega (arith, same, same', few))
        (omega (arith, same, long)) in
    rw split (ground arith)
