-- ===== src/Summary/Ports/Addresses.antt =====
-- What `NodeInterface.mac` and `node_mac_addresses` of aioproxmox/model/summary.py answer.
use Prim.Native.Char.{code, Char}
use aioproxmox.Prelude.{
  ℕ, zero, suc, String, ◌≡◌, refl, sym, subst, ap, ◌∙◌, ◌⊎◌, inl, inr, Bool, true, false, not, ◌&&◌,
  ◌||◌, Option, none, some, Option-cases, Bool-cases, List, [], ◌∷◌, ◌++◌, any, any-append, str_eq,
  eq_iff, arith,
}
use aioproxmox.Prelude.Text
use aioproxmox.Model.Health.{NodeInterface}
use aioproxmox.Summary.Ports.{
  is_hex, digits, pairs, mac_digits, mac_of, is_eth, mac, add_mac, add_macs, node_mac_addresses,
}

-- A text after another.
abbrev pub follows : String → String → String
follows String.[] t = t
follows (String.◌∷◌ c s) t = String.◌∷◌ c (follows s t)

remove-pairs : (s : String) → Text.remove_char b':' (pairs s) ≡ Text.remove_char b':' s
unfolding Text.remove_char pairs
remove-pairs String.[] = refl
remove-pairs (String.◌∷◌ c String.[]) = refl
remove-pairs (String.◌∷◌ c (String.◌∷◌ d String.[])) = refl
remove-pairs (String.◌∷◌ c (String.◌∷◌ d (String.◌∷◌ e s))) = rw (remove-pairs (String.◌∷◌ e s))

-- The end of the match: nothing is left but a line break.
at_end : (s ds : String) → digits zero s ≡ some ds → (ds ≡ "") × ((s ≡ "") ⊎ (s ≡ "\n"))
unfolding digits
at_end s ds h = elim (Bool-cases (str_eq s "")) [
  | inl e ↦ (ground arith, inl ((eq_iff s "").0 e))
  | inr e ↦ elim (Bool-cases (str_eq s "\n")) [
    | inl e' ↦ (ground arith, inr ((eq_iff s "\n").0 e'))
    | inr e' ↦ absurd (ground arith)
  ]
]

-- The text is the digits, or they and a line break.
abbrev Ends : String → String → Type 0
Ends s ds = (s ≡ ds) ⊎ (s ≡ follows ds "\n")

Ends-cons : (c : Char) (s ds : String) → Ends s ds → Ends (String.◌∷◌ c s) (String.◌∷◌ c ds)
Ends-cons c s ds (inl e) = inl (ap (λ t. String.◌∷◌ c t) e)
Ends-cons c s ds (inr e) = inr (ap (λ t. String.◌∷◌ c t) e)

-- The digits hold no colon, and the text is they and at most a line break.
remove-digits :
    (n : ℕ) (s ds : String) → digits n s ≡ some ds → (Text.remove_char b':' ds ≡ ds) × Ends s ds
unfolding digits Text.remove_char
remove-digits zero s ds h =
    let (e, ends) = at_end s ds h in
    subst (λ t. (Text.remove_char b':' t ≡ t) × Ends s t) (sym e) (refl, ends)
remove-digits (suc n) String.[] ds h = absurd (cc)
remove-digits (suc n) (String.◌∷◌ c s) ds h = elim (Bool-cases (is_hex (code c))) [
  | inr e ↦ absurd (ground arith)
  | inl e ↦ elim (Option-cases (digits n s)) [
    | inl e' ↦ absurd (ground arith)
    | inr (rest, e') ↦
        let same : String.◌∷◌ c rest ≡ ds = ground arith in
        let (clean, ends) = remove-digits n s rest e' in
        subst (λ t. (Text.remove_char b':' t ≡ t) × Ends (String.◌∷◌ c s) t) same
          (ground (arith, clean), Ends-cons c s rest ends)
  ]
]

behind-follows : (t s r : String) → Text.behind t s ≡ some r → s ≡ follows t r
unfolding Text.behind
behind-follows String.[] s r h = cc
behind-follows (String.◌∷◌ d t) String.[] r h = absurd (cc)
behind-follows (String.◌∷◌ d t) (String.◌∷◌ c s) r h =
    elim (Bool-cases (str_eq (String.◌∷◌ c "") (String.◌∷◌ d ""))) [
      | inr e ↦ absurd (ground arith)
      | inl e ↦
          let same : String.◌∷◌ c "" ≡ String.◌∷◌ d "" = (eq_iff _ _).0 e in
          let rest : s ≡ follows t r = behind-follows t s r (ground arith) in cc
    ]

-- The alternative name that an address is decoded from: `enx` and its digits, the last line break aside.
abbrev pub names : String → String → Bool
names m altname =
    str_eq altname (follows "enx" (Text.remove_char b':' m))
    || str_eq altname (follows "enx" (follows (Text.remove_char b':' m) "\n"))

found :
    (altname s ds : String)
    → altname ≡ follows "enx" s
    → Ends s ds
    → str_eq altname (follows "enx" ds) || str_eq altname (follows "enx" (follows ds "\n")) ≡ true
found altname s ds e (inl same) =
    let whole : altname ≡ follows "enx" ds = e ∙ ap (follows "enx") same in
    rw ((eq_iff altname (follows "enx" ds)).1 whole)
found altname s ds e (inr same) =
    let whole : altname ≡ follows "enx" (follows ds "\n") = e ∙ ap (follows "enx") same in
    ground (arith, (eq_iff altname (follows "enx" (follows ds "\n"))).1 whole)

named :
    (altname s ds : String)
    → altname ≡ follows "enx" s
    → (Text.remove_char b':' ds ≡ ds) × Ends s ds
    → names (pairs ds) altname ≡ true
named altname s ds e (clean, ends) =
    let back : Text.remove_char b':' (pairs ds) ≡ ds = remove-pairs ds ∙ clean in
    subst
      (λ t.
        str_eq altname (follows "enx" t) || str_eq altname (follows "enx" (follows t "\n")) ≡ true)
      (sym back) (found altname s ds e ends)

mac_digits-names :
    (altname ds : String) → mac_digits altname ≡ some ds → names (pairs ds) altname ≡ true
unfolding mac_digits
mac_digits-names altname ds h = elim (Option-cases (Text.behind "enx" altname)) [
  | inl e ↦ absurd (ground arith)
  | inr (s, e) ↦
      named altname s ds (behind-follows "enx" altname s e) (remove-digits 12 s ds (ground arith))
]

mac_of-names :
    (altnames : List String) (m : String) → mac_of altnames ≡ some m → any (names m) altnames ≡ true
unfolding mac_of any
mac_of-names [] m h = absurd (cc)
mac_of-names (altname ∷ rest) m h = elim (Option-cases (mac_digits altname)) [
  | inl e ↦ ground (arith, mac_of-names rest m)
  | inr (ds, e) ↦ ground (arith, mac_digits-names altname ds e)
]

-- An address that a port gives is decoded from one of its alternative names, which is `enx` and the address
-- without its colons, but for a line break at the end; and the port is a physical one.
pub mac-names :
    (interface : NodeInterface) (m : String)
    → mac interface ≡ some m
    → (is_eth interface.type ≡ true) × (any (names m) interface.altnames ≡ true)
unfolding mac
mac-names interface m h = elim (Bool-cases (is_eth interface.type)) [
  | inl e ↦ (e, mac_of-names interface.altnames m (ground arith))
  | inr e ↦ absurd (ground arith)
]

-- Whether a list has no duplicate.
abbrev pub once : List String → Bool
once [] = true
once (m ∷ ms) = not (any (str_eq m) ms) && once ms

abbrev pub is_mac : String → Option String → Bool
is_mac m none = false
is_mac m (some n) = str_eq m n

any-add_mac :
    (m : String) (o : Option String) (found : List String)
    → any (str_eq m) (add_mac o found) ≡ any (str_eq m) found || is_mac m o
unfolding add_mac any
any-add_mac m none found = ground (arith)
any-add_mac m (some n) found =
    ground (arith, any-append (str_eq m) found (n ∷ []), eq_iff m n, eq_iff n m)

any-add_macs :
    (m : String) (interfaces : List NodeInterface) (found : List String)
    → any (str_eq m) (add_macs interfaces found)
      ≡ any (str_eq m) found || any (λ i. is_mac m (mac i)) interfaces
unfolding add_macs any
any-add_macs m [] found = ground arith
any-add_macs m (i ∷ rest) found =
    ground (arith, any-add_macs m rest (add_mac (mac i) found), any-add_mac m (mac i) found)

once-append :
    (m : String) (ms : List String)
    → once ms ≡ true
    → any (str_eq m) ms ≡ false
    → once (ms ++ m ∷ []) ≡ true
unfolding any
once-append m [] h k = ground arith
once-append m (n ∷ ms) h k =
    ground (arith, once-append m ms, any-append (str_eq n) ms (m ∷ []), eq_iff m n, eq_iff n m)

once-add_mac :
    (o : Option String) (found : List String) → once found ≡ true → once (add_mac o found) ≡ true
unfolding add_mac
once-add_mac none found h = h
once-add_mac (some m) found h = ground (arith, once-append m found)

once-add_macs :
    (interfaces : List NodeInterface) (found : List String)
    → once found ≡ true
    → once (add_macs interfaces found) ≡ true
unfolding add_macs
once-add_macs [] found h = h
once-add_macs (i ∷ rest) found h =
    once-add_macs rest (add_mac (mac i) found) (once-add_mac (mac i) found h)

-- A node's addresses are listed once each, and an address is listed exactly when some interface of the node
-- gives it.
pub node_mac_addresses_lem :
    (interfaces : List NodeInterface) (m : String)
    → (once (node_mac_addresses interfaces) ≡ true)
      × (any (str_eq m) (node_mac_addresses interfaces) ≡ any (λ i. is_mac m (mac i)) interfaces)
unfolding node_mac_addresses any
node_mac_addresses_lem interfaces m =
    (once-add_macs interfaces [] refl, any-add_macs m interfaces [])
