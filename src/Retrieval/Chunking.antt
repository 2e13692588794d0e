-- ===== src/Retrieval/Chunking.antt =====
-- packages/retrieval/chunking.py: `StructuralChunker`. The loop of `_bounded_parts` runs on fuel,
-- one unit for each pass. The metadata of a chunk, which is only copied, is left out, and `uuid5`
-- of the name made of document, position and content is the argument `chunk_id`.
use multi_agent_system.Base.{
  ℕ, zero, suc, ◌+◌, ◌-◌, List, [], ◌∷◌, ◌++◌, map, Option, none, some, Bool, true, false, not,
  ◌||◌, Uuid, ltb, leb, length, take, drop, any, select, if◌then◌else◌,
}
use Prim.Native.Nat.{max}
use multi_agent_system.Exec.{Result, ok, err, value_error}
use multi_agent_system.Schemas.{DocumentChunk}
use multi_agent_system.Retrieval.Text.{
  Text, newline, is_empty, strip, split_lines, join_lines, split_paragraphs, heading_of,
  count_words,
}

pub record Section : Type 0 where
  pub heading : Option Text
  pub text : Text

pub record StructuralChunker : Type 0 where
  pub max_chars : ℕ
  pub overlap_chars : ℕ

-- The constructor; an overlap is negative in none of the model's numbers.
unfoldable pub structural_chunker : ℕ → ℕ → Result StructuralChunker
structural_chunker max_chars overlap_chars =
    if ltb max_chars 200 || leb max_chars overlap_chars
    then err value_error
    else ok (record { max_chars = max_chars; overlap_chars = overlap_chars })

-- The section of the lines since the last heading, unless they are blank.
abbrev closed : Option Text → List Text → List Section
closed heading lines =
    if any (λ l. not (is_empty (strip l))) lines
    then record { heading = heading; text = join_lines lines } ∷ []
    else []

unfoldable pub sections_from : Option Text → List Text → List Text → List Section
unfolding strip join_lines
sections_from heading lines [] = closed heading lines
sections_from heading lines (l ∷ ls) = elim (heading_of l) [
  | some h ↦ closed heading lines ++ sections_from (some h) [] ls
  | none ↦ sections_from heading (lines ++ l ∷ []) ls
]

abbrev or_whole : List Section → Text → List Section
or_whole [] markdown = record { heading = none; text = markdown } ∷ []
or_whole (s ∷ ss) markdown = s ∷ ss

unfoldable pub sections : Text → List Section
unfolding sections_from split_lines
sections markdown = or_whole (sections_from none [] (split_lines markdown)) markdown

-- The variables of the loop of `_bounded_parts`.
pub record Pass : Type 0 where
  pub parts : List Text
  pub current : Text
  pub remaining : Text

-- `2 if current else 0`
abbrev pub gap : Text → ℕ
gap current = if is_empty current then 0 else 2

abbrev pub joined : Text → Text → Text
joined current piece = if is_empty current then piece else current ++ newline ∷ newline ∷ piece

unfoldable pub paragraphs : Text → List Text
unfolding strip split_paragraphs
paragraphs text = select (λ p. not (is_empty p)) (map strip (split_paragraphs text))

module _ (k : StructuralChunker) where
  -- `current[-overlap:] if overlap else ""`
  abbrev pub overlap_of : Text → Text
  overlap_of current =
      if ltb 0 k.overlap_chars then drop (length current - k.overlap_chars) current else []

  abbrev pub is_full : Text → Bool
  is_full current = leb k.max_chars (length current + gap current)

  abbrev pub flushed : Pass → Pass
  flushed s = record s { parts = s.parts ++ s.current ∷ []; current = overlap_of s.current }

  -- The branch in which `available` is positive.
  abbrev pub extended : Pass → Pass
  extended s =
      let available = k.max_chars - (length s.current + gap s.current) in
      let piece = take available s.remaining in
      let t : Pass = record s {
        current = joined s.current piece;
        remaining = drop (length piece) s.remaining;
      } in
      if leb k.max_chars (length t.current) then flushed t else t

  -- One pass through the loop.
  unfoldable pub pass : Pass → Pass
  pass s = if is_full s.current then flushed s else extended s

  -- `while remaining`
  unfoldable pub passes : ℕ → Pass → Option Pass
  unfolding pass
  passes zero s = if is_empty s.remaining then some s else none
  passes (suc fuel) s = elim (is_empty s.remaining) [ true ↦ some s | false ↦ passes fuel (pass s) ]

  -- `for paragraph in paragraphs`, from the parts and the text collected so far.
  unfoldable pub fill : ℕ → Pass → List Text → Option Pass
  unfolding passes
  fill fuel s [] = some s
  fill fuel s (p ∷ ps) = elim (passes fuel (record s { remaining = p })) [
    | none ↦ none
    | some t ↦ fill fuel t ps
  ]

  abbrev pub last_part : Pass → List Text
  last_part s = if is_empty s.current then s.parts else s.parts ++ s.current ∷ []

  abbrev pub collected : Option Pass → Option (List Text)
  collected none = none
  collected (some s) = some (last_part s)

  unfoldable pub bounded_parts : ℕ → Text → Option (List Text)
  unfolding fill paragraphs
  bounded_parts fuel text =
      collected (fill fuel (record { parts = []; current = []; remaining = [] }) (paragraphs text))

  module _ (chunk_id : Uuid → ℕ → Text → Uuid) (case_id document_id : Uuid) where
    unfoldable pub new_chunk : Option Text → ℕ → Text → DocumentChunk
    unfolding count_words
    new_chunk heading position content = record {
      id = chunk_id document_id position content;
      document_id = document_id;
      case_id = case_id;
      position = position;
      heading = heading;
      content = content;
      token_count = max 1 (count_words false content);
    }

    -- The chunks of one section, behind those that are there.
    unfoldable pub add_parts : Option Text → List DocumentChunk → List Text → List DocumentChunk
    unfolding strip new_chunk
    add_parts heading outputs [] = outputs
    add_parts heading outputs (t ∷ ts) =
        let content = strip t in
        let chunk = new_chunk heading (length outputs) content in
        add_parts heading (if is_empty content then outputs else outputs ++ chunk ∷ []) ts

    unfoldable pub add_sections :
        ℕ → List DocumentChunk → List Section → Option (List DocumentChunk)
    unfolding add_parts bounded_parts
    add_sections fuel outputs [] = some outputs
    add_sections fuel outputs (s ∷ ss) = elim (bounded_parts fuel s.text) [
      | none ↦ none
      | some parts ↦ add_sections fuel (add_parts s.heading outputs parts) ss
    ]

    unfoldable pub chunk : ℕ → Text → Option (List DocumentChunk)
    unfolding add_sections sections
    chunk fuel markdown = add_sections fuel [] (sections markdown)
