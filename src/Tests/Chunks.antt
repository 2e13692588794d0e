-- ===== src/Tests/Chunks.antt =====
-- The chunker on concrete texts.
use multi_agent_system.Base.{ℕ, zero, suc, ◌+◌, ◌≤◌, List, [], ◌∷◌, none, some, ◌≡◌, refl, arith}
use multi_agent_system.Exec.{ok}
use multi_agent_system.Schemas.{DocumentChunk}
use multi_agent_system.Retrieval.Text.{
  Text, strip, lstrip, rstrip, split_lines, join_lines, heading_of, split_paragraphs, split_after,
}
use multi_agent_system.Retrieval.Chunking.{
  StructuralChunker, structural_chunker, sections, sections_from, paragraphs, bounded_parts, chunk,
}
use multi_agent_system.Retrieval.Chunks.{AreChunks, fuel_for, chunk-IsTotal, bounded_parts-IsStuck}

abbrev chunker : StructuralChunker
chunker = record { max_chars = 200; overlap_chars = 20 }

abbrev cramped : StructuralChunker
cramped = record { max_chars = 200; overlap_chars = 198 }

-- "# A\nb c\n\nd"
abbrev markdown : Text
markdown = 35 ∷ 32 ∷ 65 ∷ 10 ∷ 98 ∷ 32 ∷ 99 ∷ 10 ∷ 10 ∷ 100 ∷ []

built : structural_chunker 200 20 ≡ ok chunker
unfolding structural_chunker
built = refl

headed :
    sections markdown
    ≡ record { heading = some (65 ∷ []); text = 98 ∷ 32 ∷ 99 ∷ 10 ∷ 10 ∷ 100 ∷ [] } ∷ []
unfolding sections sections_from split_lines join_lines heading_of strip lstrip rstrip
headed = refl

fuelled : fuel_for (sections markdown) ≤ 20
unfolding sections sections_from split_lines join_lines heading_of strip lstrip rstrip paragraphs
    split_paragraphs split_after
fuelled = omega arith

chunk-IsTotal_example :
    (cs : List DocumentChunk) × (chunk chunker (λ d position content. 70 + position) 5 6 20 markdown
      ≡ some cs)
    × AreChunks 200 0 cs
chunk-IsTotal_example =
    chunk-IsTotal 200 20 chunker (λ d position content. 70 + position) 5 6 20 markdown built
      (omega arith) fuelled

built_cramped : structural_chunker 200 198 ≡ ok cramped
unfolding structural_chunker
built_cramped = refl

abbrev letters : ℕ → Text
letters zero = []
letters (suc n) = 97 ∷ letters n

one_paragraph : paragraphs (letters 201) ≡ letters 201 ∷ []
unfolding paragraphs split_paragraphs split_after strip lstrip rstrip
one_paragraph = refl

bounded_parts-IsStuck_example : bounded_parts cramped 1000 (letters 201) ≡ none
bounded_parts-IsStuck_example =
    bounded_parts-IsStuck 200 198 cramped 1000 (letters 201) (letters 201) [] built_cramped
      (omega arith) one_paragraph (omega arith)
