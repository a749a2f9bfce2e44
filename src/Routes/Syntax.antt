-- ===== src/Routes/Syntax.antt =====
-- The syntax trees of `ast` as script/routes.py looks into them, and the walk over one.
use aioproxmox.Prelude.{ℕ, zero, suc, ◌+◌, String, Option, none, some, List, [], ◌∷◌, ◌++◌}

-- The value of an ast.Constant: a text, or anything else by what `str` makes of it.
pub data Constant : Type 0 where
  text literal : String → Constant

-- The nodes that the reader looks into, with the fields of `ast` that hold nodes, texts or lines; any
-- other node is its children. The contexts of a name or an attribute, and the absent keys of `{**d}`, are
-- left out: the first have no children and match nothing, and the walk skips the second.
mutual
  pub data Node : Type 0 where
    constant : Constant → Node
    joined_str : Nodes → Node
    -- the value, and the format where there is one
    formatted_value : Node → Nodes → Node
    attribute : Node → String → Node
    name : String → Node
    -- func, args, keywords, lineno
    call : Node → Nodes → Nodes → ℕ → Node
    keyword : Option String → Node → Node
    -- targets, value, lineno
    assign : Nodes → Node → ℕ → Node
    -- keys, values
    dict : Nodes → Nodes → Node
    other : Nodes → Node

  pub data Nodes : Type 0 where
    nil : Nodes
    cons : Node → Nodes → Nodes

unfoldable pub nodes : Nodes → List Node
nodes nil = []
nodes (cons n ns) = n ∷ nodes ns

-- `ast.iter_child_nodes`: the children in the order of the fields.
unfoldable pub children : Node → List Node
unfolding nodes
children (constant c) = []
children (joined_str values) = nodes values
children (formatted_value value format) = value ∷ nodes format
children (attribute value attr) = value ∷ []
children (name id) = []
children (call func args keywords line) = func ∷ nodes args ++ nodes keywords
children (keyword arg value) = value ∷ []
children (assign targets value line) = nodes targets ++ value ∷ []
children (dict keys values) = nodes keys ++ nodes values
children (other below) = nodes below

-- `ast.walk`: the head of the queue leaves it, and its children join at the end. None where the fuel runs
-- out.
unfoldable pub walk : ℕ → List Node → Option (List Node)
unfolding children
walk fuel [] = some []
walk zero (n ∷ todo) = none
walk (suc fuel) (n ∷ todo) = elim (walk fuel (todo ++ children n)) [
  | none ↦ none
  | some rest ↦ some (n ∷ rest)
]

-- A sum over all nodes of a tree.
unfoldable mutual
  pub total : (Node → ℕ) → Node → ℕ
  total w (constant c) = w (constant c)
  total w (joined_str values) = w (joined_str values) + totals w values
  total w (formatted_value value format) =
      w (formatted_value value format) + total w value + totals w format
  total w (attribute value attr) = w (attribute value attr) + total w value
  total w (name id) = w (name id)
  total w (call func args keywords line) =
      w (call func args keywords line) + total w func + totals w args + totals w keywords
  total w (keyword arg value) = w (keyword arg value) + total w value
  total w (assign targets value line) =
      w (assign targets value line) + totals w targets + total w value
  total w (dict keys values) = w (dict keys values) + totals w keys + totals w values
  total w (other below) = w (other below) + totals w below

  pub totals : (Node → ℕ) → Nodes → ℕ
  totals w nil = 0
  totals w (cons n ns) = total w n + totals w ns

-- The number of nodes of a tree, which is fuel enough for a walk.
abbrev pub size : Node → ℕ
size tree = total (λ _. 1) tree
