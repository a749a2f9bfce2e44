-- ===== src/Routes/Pieces.antt =====
-- A template of script/routes.py in pieces, and what filling in its placeholders makes of them.

use text.Mathlib.TextLemmas.{nil-append, cons-append}
use Prim.Native.String.{String, [], ◌∷◌}
use mathlib.Core.List.{List}
use aioproxmox.Prelude.{
  ◌≡◌, refl, sym, ap, ◌∙◌, Bool, true, false, not, ◌&&◌, map, Bool-cases, inl, inr, arith,
  if◌then◌else◌,
}
use aioproxmox.Prelude.Text
use aioproxmox.Prelude.Text.{◌+++◌, has_char}
use aioproxmox.Prelude.Text.Joined.{in_front, in_front_lem}
use aioproxmox.Prelude.Dict
use aioproxmox.Privileges.{fill}

-- The placeholders of the templates.
pub data Hole : Type 0 where
  node vmid storage : Hole

abbrev pub word : Hole → String
word node = "node"
word vmid = "vmid"
word storage = "storage"

abbrev pub mark : Hole → String
mark node = "{node}"
mark vmid = "{vmid}"
mark storage = "{storage}"

abbrev same : Hole → Hole → Bool
same node node = true
same vmid vmid = true
same storage storage = true
same _ _ = false

abbrev pub unbraced : String → Bool
unbraced s = not (has_char b'{' s)

replace-unbraced :
    (k : Hole) (v s t : String)
    → unbraced s ≡ true
    → Text.replace (mark k) v (s +++ t) ≡ s +++ Text.replace (mark k) v t
unfolding Text.replace has_char
replace-unbraced k v [] t h = ap (Text.replace (mark k) v) (nil-append t) ∙ sym (nil-append _)
replace-unbraced k v (c ∷ s) t h =
    ap (Text.replace (mark k) v) (cons-append c s t)
    ∙ passed k
    ∙ ap (λ u. c ∷ u) (replace-unbraced k v s t (ground (arith, h)))
    ∙ sym (cons-append c s _)
  where
    passed :
        (k : Hole) → Text.replace (mark k) v (c ∷ (s +++ t)) ≡ c ∷ Text.replace (mark k) v (s +++ t)
    passed node = ground (arith, h)
    passed vmid = ground (arith, h)
    passed storage = ground (arith, h)

replace-mark :
    (k j : Hole) (v t : String)
    → Text.replace (mark k) v (mark j +++ t)
      ≡ (if same k j then v else mark j) +++ Text.replace (mark k) v t
unfolding Text.replace
replace-mark k j v t = ap (Text.replace (mark k) v) (sym (in_front_lem (mark j) t)) ∙ at k j
  where
    at :
        (k j : Hole)
        → Text.replace (mark k) v (in_front (mark j) t)
          ≡ (if same k j then v else mark j) +++ Text.replace (mark k) v t
    at node node = refl
    at vmid vmid = refl
    at storage storage = refl
    at node vmid = in_front_lem "{vmid}" _
    at node storage = in_front_lem "{storage}" _
    at vmid node = in_front_lem "{node}" _
    at vmid storage = in_front_lem "{storage}" _
    at storage node = in_front_lem "{node}" _
    at storage vmid = in_front_lem "{vmid}" _

-- A template in pieces.
pub data Piece : Type 0 where
  literal : String → Piece
  hole : Hole → Piece

unfoldable pub text_of : List Piece → String
text_of List.[] = ""
text_of (List.◌∷◌ (literal s) ps) = s +++ text_of ps
text_of (List.◌∷◌ (hole h) ps) = mark h +++ text_of ps

unfoldable pub all_unbraced : List Piece → Bool
all_unbraced List.[] = true
all_unbraced (List.◌∷◌ (literal s) ps) = unbraced s && all_unbraced ps
all_unbraced (List.◌∷◌ (hole h) ps) = all_unbraced ps

abbrev put : Hole → String → Piece → Piece
put k v (literal s) = literal s
put k v (hole h) = if same k h then literal v else hole h

put-unbraced :
    (k : Hole) (v : String) (ps : List Piece)
    → unbraced v ≡ true
    → all_unbraced ps ≡ true
    → all_unbraced (map (put k v) ps) ≡ true
unfolding all_unbraced
put-unbraced k v List.[] u h = refl
put-unbraced k v (List.◌∷◌ (literal s) ps) u h = ground (arith, u, h, put-unbraced k v ps u)
put-unbraced k v (List.◌∷◌ (hole j) ps) u h = elim (Bool-cases (same k j)) [
  | inl here ↦ rw here (ground (arith, u, put-unbraced k v ps u h))
  | inr other ↦ rw other (put-unbraced k v ps u h)
]

-- Replacing a placeholder in the text puts the value into its pieces.
replace-text_of :
    (k : Hole) (v : String) (ps : List Piece)
    → all_unbraced ps ≡ true
    → Text.replace (mark k) v (text_of ps) ≡ text_of (map (put k v) ps)
unfolding text_of all_unbraced Text.replace
replace-text_of k v List.[] h = refl
replace-text_of k v (List.◌∷◌ (literal s) ps) h =
    replace-unbraced k v s (text_of ps) (ground (arith, h))
    ∙ ap (λ u. s +++ u) (replace-text_of k v ps (ground (arith, h)))
replace-text_of k v (List.◌∷◌ (hole j) ps) h = elim (Bool-cases (same k j)) [
  | inl here ↦
      replace-mark k j v (text_of ps) ∙ rw here (ap (λ u. v +++ u) (replace-text_of k v ps h))
  | inr other ↦
      replace-mark k j v (text_of ps) ∙ rw other (ap (λ u. mark j +++ u) (replace-text_of k v ps h))
]

module _ (env : String → String) where
  -- The values, as `substitute` fills them in one after the other.
  abbrev pub path_values : Dict.Dict String
  path_values =
      List.◌∷◌ ("node", env "node")
        (List.◌∷◌ ("vmid", env "vmid") (List.◌∷◌ ("storage", env "storage") List.[]))

  abbrev pub values_unbraced : Bool
  values_unbraced = unbraced (env "node") && (unbraced (env "vmid") && unbraced (env "storage"))

  abbrev pub settled : Piece → Piece
  settled (literal s) = literal s
  settled (hole h) = literal (env (word h))

  all_settled :
      (ps : List Piece)
      → map
          (put storage (env "storage"))
          (map (put vmid (env "vmid")) (map (put node (env "node")) ps))
        ≡ map settled ps
  all_settled List.[] = refl
  all_settled (List.◌∷◌ (literal s) ps) = ap (λ u. List.◌∷◌ (literal s) u) (all_settled ps)
  all_settled (List.◌∷◌ (hole node) ps) =
      ap (λ u. List.◌∷◌ (literal (env "node")) u) (all_settled ps)
  all_settled (List.◌∷◌ (hole vmid) ps) =
      ap (λ u. List.◌∷◌ (literal (env "vmid")) u) (all_settled ps)
  all_settled (List.◌∷◌ (hole storage) ps) =
      ap (λ u. List.◌∷◌ (literal (env "storage")) u) (all_settled ps)

  pub fill-text_of :
      (ps : List Piece)
      → values_unbraced ≡ true
      → all_unbraced ps ≡ true
      → fill path_values (text_of ps) ≡ text_of (map settled ps)
  unfolding fill
  fill-text_of ps u h =
      let u1 = put-unbraced node (env "node") ps (ground (arith, u)) h in
      let ps1 = map (put node (env "node")) ps in
      let u2 = put-unbraced vmid (env "vmid") ps1 (ground (arith, u)) u1 in
      let ps2 = map (put vmid (env "vmid")) ps1 in
      ap (λ t. Text.replace "{storage}" (env "storage") (Text.replace "{vmid}" (env "vmid") t))
        (replace-text_of node (env "node") ps h)
      ∙ ap (Text.replace "{storage}" (env "storage")) (replace-text_of vmid (env "vmid") ps1 u1)
      ∙ replace-text_of storage (env "storage") ps2 u2
      ∙ ap text_of (all_settled ps)
