-- ===== src/Routes/Templates.antt =====
-- What a template of script/routes.py stands for: the path that the f-string evaluates to.

use text.Mathlib.TextLemmas.{nil-append, append-nil}
use Prim.Native.String.{String}
use aioproxmox.Prelude.{
  ◌≡◌, refl, sym, ap, ◌∙◌, subst, Bool, true, false, ◌&&◌, some, List, [], ◌∷◌, map, str_eq, eq_iff,
  Bool-cases, Option-cases, inl, inr, arith,
}
use aioproxmox.Prelude.Text
use aioproxmox.Prelude.Text.{◌+++◌}
use aioproxmox.Prelude.Dict
use aioproxmox.Privileges.{fill}
use aioproxmox.Routes.Syntax
use aioproxmox.Routes.Syntax.{Node, Nodes}
use aioproxmox.Routes.Reading.{
  placeholders, str_Constant, placeholder_of, part_of, parts_of, template_of,
}
use aioproxmox.Routes.Pieces.{
  Hole, node, vmid, storage, word, mark, unbraced, Piece, literal, hole, text_of, all_unbraced,
  path_values, values_unbraced, settled, fill-text_of,
}

-- A constant without an opening brace, or a value that is formatted plainly.
abbrev pub plain_part : Node → Bool
plain_part (Syntax.constant c) = unbraced (str_Constant c)
plain_part (Syntax.formatted_value n Syntax.nil) = true
plain_part _ = false

unfoldable pub plain_parts : Nodes → Bool
plain_parts Syntax.nil = true
plain_parts (Syntax.cons n ns) = plain_part n && plain_parts ns

unfoldable pub plain : Node → Bool
unfolding plain_parts
plain (Syntax.constant (Syntax.text s)) = unbraced s
plain (Syntax.joined_str ns) = plain_parts ns
plain _ = false

module _ (env : String → String) where
  -- What is formatted: `self.node`, `instance.node` and a local `node` are all `env "node"`.
  abbrev pub formatted : Node → String
  formatted (Syntax.attribute value attr) = env attr
  formatted (Syntax.name id) = env id
  formatted _ = ""

  abbrev pub part_value : Node → String
  part_value (Syntax.constant c) = str_Constant c
  part_value (Syntax.formatted_value n format) = formatted n
  part_value _ = ""

  unfoldable pub evaluate_parts : Nodes → String
  evaluate_parts Syntax.nil = ""
  evaluate_parts (Syntax.cons n ns) = part_value n +++ evaluate_parts ns

  -- The text that a constant or an f-string evaluates to.
  unfoldable pub evaluate : Node → String
  unfolding evaluate_parts
  evaluate (Syntax.constant (Syntax.text s)) = s
  evaluate (Syntax.joined_str ns) = evaluate_parts ns
  evaluate _ = ""

  -- A part of a template as a piece: the text that it starts with, and what its value starts with.
  abbrev front : Piece → String
  front (literal s) = s
  front (hole h) = mark h

  text_of-cons : (p : Piece) (ps : List Piece) → text_of (p ∷ ps) ≡ front p +++ text_of ps
  unfolding text_of
  text_of-cons (literal s) ps = refl
  text_of-cons (hole h) ps = refl

  record IsPiece (n : Node) (part : String) (p : Piece) : Type 0 where
    reads : front p ≡ part
    free : all_unbraced (p ∷ []) ≡ true
    stands : front (settled env p) ≡ part_value n

  hole_of :
      (k : String) (part : String)
      → Dict.lookup k placeholders ≡ some part
      → (h : Hole) × (mark h ≡ part) × (word h ≡ k)
  unfolding Dict.lookup
  hole_of k part e = elim (Bool-cases (str_eq "node" k)) [
    | inl here ↦ (node, (let found = rw here at e in cc), (eq_iff "node" k).0 here)
    | inr not_node ↦ elim (Bool-cases (str_eq "vmid" k)) [
      | inl here ↦ (vmid, (let found = rw (not_node, here) at e in cc), (eq_iff "vmid" k).0 here)
      | inr not_vmid ↦ elim (Bool-cases (str_eq "storage" k)) [
        | inl here ↦ (
          storage,
          (let found = rw (not_node, not_vmid, here) at e in cc),
          (eq_iff "storage" k).0 here,
        )
        | inr not_storage ↦ absurd (let found = rw (not_node, not_vmid, not_storage) at e in cc)
      ]
    ]
  ]

  hole-IsPiece :
      (n : Node) (k part : String)
      → Dict.lookup k placeholders ≡ some part
      → env k ≡ formatted n
      → (p : Piece) × IsPiece (Syntax.formatted_value n Syntax.nil) part p
  unfolding all_unbraced
  hole-IsPiece n k part e f =
      let (h, reads, stands) = hole_of k part e in
      (hole h, record { reads = reads; free = refl; stands = ap env stands ∙ f })

  part-IsPiece :
      (n : Node) (part : String)
      → part_of n ≡ some part
      → plain_part n ≡ true
      → (p : Piece) × IsPiece n part p
  unfolding part_of placeholder_of all_unbraced
  part-IsPiece (Syntax.constant c) part e h =
      let same : str_Constant c ≡ part = cc in
      (literal (str_Constant c), record { reads = same; free = ground (arith, h); stands = refl })
  part-IsPiece (Syntax.formatted_value (Syntax.attribute value attr) Syntax.nil) part e h =
      hole-IsPiece (Syntax.attribute value attr) attr part e refl
  part-IsPiece (Syntax.formatted_value (Syntax.name id) Syntax.nil) part e h =
      hole-IsPiece (Syntax.name id) id part e refl
  part-IsPiece n part e h = absurd (cc)

  join-cons :
      (part : String) (parts : List String)
      → Text.join "" (part ∷ parts) ≡ part +++ Text.join "" parts
  unfolding Text.join
  join-cons part [] = sym (append-nil part)
  join-cons part (next ∷ parts) = ap (λ u. part +++ u) (nil-append _)

  -- The parts of a template in pieces.
  record ArePieces (ns : Nodes) (parts : List String) : Type 0 where
    pieces : List Piece
    reads : text_of pieces ≡ Text.join "" parts
    free : all_unbraced pieces ≡ true
    stands : text_of (map (settled env) pieces) ≡ evaluate_parts ns

  free-cons :
      (p : Piece) (ps : List Piece)
      → all_unbraced (p ∷ []) ≡ true
      → all_unbraced ps ≡ true
      → all_unbraced (p ∷ ps) ≡ true
  unfolding all_unbraced
  free-cons (literal s) ps h k = ground (arith, h, k)
  free-cons (hole j) ps h k = k

  none-ArePieces : ArePieces Syntax.nil []
  unfolding text_of all_unbraced evaluate_parts Text.join
  none-ArePieces = record { pieces = []; reads = refl; free = refl; stands = refl }

  more-ArePieces :
      (n : Node) (ns : Nodes) (part : String) (parts : List String) (p : Piece)
      → IsPiece n part p
      → ArePieces ns parts
      → ArePieces (Syntax.cons n ns) (part ∷ parts)
  unfolding evaluate_parts
  more-ArePieces n ns part parts p one rest = record {
    pieces = p ∷ rest.pieces;
    reads =
        text_of-cons p rest.pieces
        ∙ ap (λ u. u +++ text_of rest.pieces) one.reads
        ∙ ap (λ u. part +++ u) rest.reads
        ∙ sym (join-cons part parts);
    free = free-cons p rest.pieces one.free rest.free;
    stands =
        text_of-cons (settled env p) (map (settled env) rest.pieces)
        ∙ ap (λ u. u +++ text_of (map (settled env) rest.pieces)) one.stands
        ∙ ap (λ u. part_value n +++ u) rest.stands;
  }

  parts_of-ArePieces :
      (ns : Nodes) (parts : List String)
      → parts_of ns ≡ some parts
      → plain_parts ns ≡ true
      → ArePieces ns parts
  unfolding parts_of plain_parts
  parts_of-ArePieces Syntax.nil parts e h =
      let same : [] ≡ parts = cc in subst (ArePieces Syntax.nil) same none-ArePieces
  parts_of-ArePieces (Syntax.cons n ns) parts e h = elim (Option-cases (part_of n)) [
    | inl not_read ↦ absurd (let lost = rw (parts_of, not_read) at e in cc)
    | inr (part, first) ↦ elim (Option-cases (parts_of ns)) [
      | inl not_read ↦ absurd (let lost = rw (parts_of, first, not_read) at e in cc)
      | inr (others, later) ↦
          let read = rw (parts_of, first, later) at e in
          let same : part ∷ others ≡ parts = cc in
          let (p, one) = part-IsPiece n part first (ground (arith, h)) in
          subst (ArePieces (Syntax.cons n ns)) same (
            more-ArePieces n ns part others p one
              (parts_of-ArePieces ns others later (ground (arith, h))))
    ]
  ]

  -- Where a template is read of a constant or an f-string whose literal text has no opening brace and
  -- which formats its values plainly, filling the values in for the placeholders, as the check of a route
  -- is filled in, gives the path that it evaluates to, if the values have no opening brace.
  pub fill-template_of :
      (n : Node) (template : String)
      → template_of n ≡ some template
      → plain n ≡ true
      → values_unbraced env ≡ true
      → fill (path_values env) template ≡ evaluate n
  unfolding template_of plain evaluate text_of all_unbraced
  fill-template_of (Syntax.constant (Syntax.text s)) template e h u =
      let same : s ≡ template = cc in
      ap (fill (path_values env)) (sym same ∙ sym (append-nil s))
      ∙ fill-text_of env (literal s ∷ []) u (ground (arith, h))
      ∙ append-nil s
  fill-template_of (Syntax.joined_str ns) template e h u = elim (Option-cases (parts_of ns)) [
    | inl not_read ↦ absurd (let lost = rw not_read at e in cc)
    | inr (parts, found) ↦
        let read = rw found at e in
        let same : Text.join "" parts ≡ template = cc in
        let all = parts_of-ArePieces ns parts found h in
        ap (fill (path_values env)) (sym same ∙ sym all.reads)
        ∙ fill-text_of env all.pieces u all.free
        ∙ all.stands
  ]
  fill-template_of n template e h u = absurd (cc)
