-- ===== src/Privileges/Matching.antt =====
-- What `privileges_for` of aioproxmox/privileges.py answers.
use aioproxmox.Prelude.{
  String, ◌≡◌, refl, ap, ◌∙◌, Bool, true, false, ◌&&◌, Option, none, some, List, [], ◌∷◌, map,
  str_eq, is_some, arith, if◌then◌else◌, Option-cases, inl, inr,
}
use aioproxmox.Prelude.Text
use aioproxmox.Prelude.Dict.{Dict, insert}
use aioproxmox.Privileges.Checks.{Alternative, Entry, checks}
use aioproxmox.Privileges.{
  Privileges, Check, substitute, substitute_path, check_of, strip_slashes, match_segments,
  search_entries, privileges_for,
}

-- A path fits a template: as many parts as segments, each segment a placeholder or the part itself.
abbrev pub fits : List String → List String → Bool
fits [] [] = true
fits [] (part ∷ parts) = false
fits (segment ∷ segments) [] = false
fits (segment ∷ segments) (part ∷ parts) =
    (if is_some (Text.placeholder segment) then true else str_eq segment part)
    && fits segments parts

-- The route is this entry's.
abbrev pub serves : String → List String → Entry → Bool
serves method parts e = Text.eq_upper method e.method && fits (Text.split b'/' e.template) parts

match_segments-fits :
    (segments parts : List String) (filled : Dict String)
    → is_some (match_segments segments parts filled) ≡ fits segments parts
unfolding match_segments
match_segments-fits [] [] filled = refl
match_segments-fits [] (part ∷ parts) filled = refl
match_segments-fits (segment ∷ segments) [] filled = refl
match_segments-fits (segment ∷ segments) (part ∷ parts) filled =
    elim (Option-cases (Text.placeholder segment)) [
      | inl e ↦ ground (arith, match_segments-fits segments parts filled)
      | inr (name, e) ↦ ground (arith, match_segments-fits segments parts (insert name part filled))
    ]

-- What a check asks for: the privileges of each alternative and whether one is enough, without the path.
abbrev pub asked : Privileges → List String × Bool
asked p = (p.privileges, p.any_of)

map-map :
    {A B C : Type 0} (f : B → C) (g : A → B) (xs : List A)
    → map f (map g xs) ≡ map (λ x. f (g x)) xs
map-map f g [] = refl
map-map f g (x ∷ xs) = ap (λ r. f (g x) ∷ r) (map-map f g xs)

asked-substitute :
    (values : Dict String) (c : Check)
    → map asked (substitute values c).alternatives ≡ map asked c.alternatives
unfolding substitute substitute_path
asked-substitute values c = map-map asked (substitute_path values) c.alternatives

-- The entry that answers a route: the first that serves it.
abbrev pub answers_of : List Entry → String → List String → Option (List (List String × Bool))
answers_of [] method parts = none
answers_of (e ∷ rest) method parts =
    if serves method parts e
    then some (map (λ a. (a.privileges, a.any_of)) e.alternatives)
    else answers_of rest method parts

abbrev pub asked_of : Option Check → Option (List (List String × Bool))
asked_of none = none
asked_of (some c) = some (map asked c.alternatives)

asked-check_of :
    (entry : List Alternative)
    → map asked (check_of entry).alternatives ≡ map (λ a. (a.privileges, a.any_of)) entry
unfolding check_of
asked-check_of entry = map-map asked _ entry

search_entries-answers :
    (entries : List Entry) (method : String) (parts : List String) (values : Dict String)
    → asked_of (search_entries entries method parts values) ≡ answers_of entries method parts
unfolding search_entries
search_entries-answers [] method parts values = refl
search_entries-answers (e ∷ rest) method parts values =
    elim (Option-cases (match_segments (Text.split b'/' e.template) parts values)) [
      | inl unmatched ↦ ground (
        arith,
        match_segments-fits (Text.split b'/' e.template) parts values,
        search_entries-answers rest method parts values,
      )
      | inr (filled, matched) ↦ ground (
        arith,
        match_segments-fits (Text.split b'/' e.template) parts values,
        search_entries-answers rest method parts values,
        asked-substitute filled (check_of e.alternatives) ∙ asked-check_of e.alternatives,
      )
    ]

-- A path as it is called is answered by the first entry that has its method, read without regard to case,
-- and a template that the path fits, its outer slashes aside: as many segments, each a placeholder or
-- equal. The answer names the privileges of this entry's alternatives, in order, whatever the values;
-- where there is no such entry there is none.
pub privileges_for_lem :
    (method path : String) (values : Dict String)
    → asked_of (privileges_for method path values)
      ≡ answers_of checks method (Text.split b'/' (strip_slashes path))
unfolding privileges_for
privileges_for_lem method path values =
    search_entries-answers checks method (Text.split b'/' (strip_slashes path)) values
