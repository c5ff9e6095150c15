-- ===== src/Runtime/Calls/Fragments.antt =====
-- A stream of deltas, and what the fragments of one call are merged to.
use hermes_rs.Prelude.{
  ℕ, ◌≡◌, refl, sym, ap, ◌∙◌, String, Option, none, some, List, [], ◌∷◌, map, Result, ok, ◌>>=◌,
  >>=-eq-ok, if◌then◌else◌, All, ◌==◌, nat_eq, string_eq, arith, ◌⊎◌, inl, inr, list_eq,
}
use Prim.Native.String
use text.Mathlib.TextLemmas.{append_assoc}
use hermes_rs.Runtime.Fault.{RuntimeError}
use hermes_rs.Runtime.Calls.{
  PartialToolCall, Delta, merge_stable_fragment, merge_delta, Entries, add_delta,
}

-- The deltas of a whole stream, added in their order.
unfoldable pub add_deltas : Entries → List Delta → Result RuntimeError Entries
add_deltas entries [] = ok entries
add_deltas entries (delta ∷ deltas) = do
  entries' ← add_delta entries delta
  add_deltas entries' deltas

-- The deltas of one call.
unfoldable pub fragments : ℕ → List Delta → List Delta
fragments index [] = []
fragments index (delta ∷ deltas) =
    let rest = fragments index deltas in if index == delta.index then delta ∷ rest else rest

unfoldable pub joined : List Delta → String
joined [] = ""
joined (delta ∷ deltas) = String.◌++◌ delta.arguments_delta (joined deltas)

-- The first text that is given, if one is.
unfoldable pub first_given : Option String → List (Option String) → Option String
first_given current [] = current
first_given none (given ∷ rest) = first_given given rest
first_given (some text) (_ ∷ rest) = some text

abbrev pub Agrees : Option String → Option String → Type 0
Agrees whole given = (given ≡ none) ⊎ (given ≡ whole)

-- A field that the fragments give: the first text given, which no later one contradicts.
pub record IsStable (before : Option String) (given : List (Option String)) (after : Option String)
    : Type 0 where
  pub first : after ≡ first_given before given
  pub agree : All (Agrees after) given

pub record IsMerged (before : PartialToolCall) (deltas : List Delta) (after : PartialToolCall)
    : Type 0 where
  pub id : IsStable before.id (map (λ delta. delta.id) deltas) after.id
  pub name : IsStable before.name (map (λ delta. delta.name) deltas) after.name
  pub arguments : after.arguments ≡ String.◌++◌ before.arguments (joined deltas)

stable_step :
    (before incoming after : Option String) (index : ℕ) (field : String)
    → merge_stable_fragment before incoming index field ≡ ok after
    → (after ≡ first_given before (incoming ∷ [])) × Agrees after incoming
unfolding merge_stable_fragment first_given
stable_step none none after index field h = ground arith
stable_step (some b) none after index field h = ground arith
stable_step none (some i) after index field h = ground arith
stable_step (some b) (some i) after index field h = ground (arith, string_eq.eq_iff_same b i)

first_given-some :
    (text : String) (given : List (Option String)) → first_given (some text) given ≡ some text
unfolding first_given
first_given-some text [] = refl
first_given-some text (g ∷ gs) = refl

stable_kept :
    (text : String) (middle after : Option String) (given : List (Option String))
    → middle ≡ some text
    → IsStable middle given after
    → after ≡ some text
stable_kept text middle after given h s =
    s.first ∙ ap (λ m. first_given m given) h ∙ first_given-some text given

IsStable-cons :
    (before incoming middle after : Option String) (given : List (Option String))
    → (middle ≡ first_given before (incoming ∷ [])) × Agrees middle incoming
    → IsStable middle given after
    → IsStable before (incoming ∷ given) after
unfolding first_given
IsStable-cons none none middle after given h s = record {
  first = s.first ∙ ap (λ m. first_given m given) h.0;
  agree = (inl refl, s.agree);
}
IsStable-cons none (some i) middle after given h s = record {
  first = s.first ∙ ap (λ m. first_given m given) h.0;
  agree = (inr (sym (stable_kept i middle after given h.0 s)), s.agree);
}
IsStable-cons (some b) none middle after given h s = record {
  first = stable_kept b middle after given h.0 s;
  agree = (inl refl, s.agree);
}
IsStable-cons (some b) (some i) middle after given h s =
    let kept = stable_kept b middle after given h.0 s in
    record { first = kept; agree = (ground (arith, h, kept), s.agree) }

pub merge_delta-step :
    (before middle after : PartialToolCall) (delta : Delta) (deltas : List Delta)
    → merge_delta before delta ≡ ok middle
    → IsMerged middle deltas after
    → IsMerged before (delta ∷ deltas) after
unfolding merge_delta joined
merge_delta-step before middle after delta deltas h m =
    let (id, merged_id, h') =
      >>=-eq-ok (merge_stable_fragment before.id delta.id delta.index "id") _ h in
    let (name, merged_name, done) =
      >>=-eq-ok (merge_stable_fragment before.name delta.name delta.index "name") _ h' in
    let id_same : middle.id ≡ id = ground (arith, done) in
    let name_same : middle.name ≡ name = ground (arith, done) in
    let text_same : middle.arguments ≡ String.◌++◌ before.arguments delta.arguments_delta =
      ground (arith, done) in
    record {
      id =
          IsStable-cons before.id delta.id middle.id after.id _
            (rw id_same (stable_step before.id delta.id id delta.index "id" merged_id)) m.id;
      name =
          IsStable-cons before.name delta.name middle.name after.name _
            (rw name_same (stable_step before.name delta.name name delta.index "name" merged_name))
            m.name;
      arguments =
          m.arguments
          ∙ ap (λ t. String.◌++◌ t (joined deltas)) text_same
          ∙ append_assoc before.arguments delta.arguments_delta (joined deltas);
    }
