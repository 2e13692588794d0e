-- ===== src/ModelGateway/Search.antt =====
-- A term without a newline that stands in the documents, joined by newlines, stands in one of them.
use multi_agent_system.Base.{
  [], ◌∷◌, ◌++◌, Bool, true, false, not, ◌&&◌, ◌==◌, ◌≡◌, refl, ◌⊎◌, inl, inr, arith, Bool-cases,
}
use multi_agent_system.ModelGateway.Rules.{Text, begins_with, contains}

abbrev no_newline : Text → Bool
no_newline [] = true
no_newline (c ∷ t) = not (c == 10) && no_newline t

abbrev pub is_term : Text → Bool
is_term [] = false
is_term (c ∷ t) = no_newline (c ∷ t)

begins_before :
    (a b term : Text)
    → no_newline term ≡ true
    → begins_with (a ++ 10 ∷ b) term ≡ true
    → begins_with a term ≡ true
unfolding begins_with
begins_before [] b [] plain h = refl
begins_before [] b (d ∷ t) plain h = absurd (ground arith)
begins_before (c ∷ a) b [] plain h = refl
begins_before (c ∷ a) b (d ∷ t) plain h = let rest = begins_before a b t in ground (arith, rest)

plain_term : (term : Text) → is_term term ≡ true → no_newline term ≡ true
plain_term [] h = absurd (ground arith)
plain_term (c ∷ t) h = h

not_at_newline : (b term : Text) → is_term term ≡ true → begins_with (10 ∷ b) term ≡ false
unfolding begins_with
not_at_newline b [] h = absurd (ground arith)
not_at_newline b (d ∷ t) h = ground arith

pub contains-append :
    (a b term : Text)
    → is_term term ≡ true
    → contains (a ++ 10 ∷ b) term ≡ true
    → (contains a term ≡ true) ⊎ (contains b term ≡ true)
unfolding contains
contains-append [] b term fine h = let apart = not_at_newline b term fine in inr (ground arith)
contains-append (c ∷ a) b term fine h = elim (Bool-cases (begins_with (c ∷ (a ++ 10 ∷ b)) term)) [
  | inl here ↦
      let first = begins_before (c ∷ a) b term (plain_term term fine) here in inl (ground arith)
  | inr later ↦ elim (contains-append a b term fine (ground arith)) [
    | inl before ↦ inl (ground arith)
    | inr behind ↦ inr behind
  ]
]

pub contains-nothing : (term : Text) → is_term term ≡ true → contains [] term ≡ false
unfolding contains begins_with
contains-nothing [] h = absurd (ground arith)
contains-nothing (d ∷ t) h = refl
