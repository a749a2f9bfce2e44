-- ===== src/Client/Hosts/Lists.antt =====
-- Lemmas on lists of host names, for the proofs about `learn_hosts`.
use aioproxmox.Prelude.{
  String, ◌≡◌, refl, Bool, true, false, not, ◌&&◌, ◌||◌, List, [], ◌∷◌, ◌++◌, any, str_eq, eq_iff,
  nonempty, arith, Bool-cases, inl, inr,
}
use aioproxmox.Errors.{ok}
use aioproxmox.Client.Hosts.{at, contains, index_of, learn, keep_current}

-- No host stands twice.
unfoldable pub distinct : List String → Bool
distinct [] = true
distinct (x ∷ xs) = not (contains xs x) && distinct xs

pub contains-snoc :
    (xs : List String) (h x : String) → contains (xs ++ h ∷ []) x ≡ (contains xs x || str_eq h x)
unfolding contains any
contains-snoc [] h x = ground arith
contains-snoc (y ∷ xs) h x = ground (arith, contains-snoc xs h x)

pub contains-learn :
    (kept hs : List String) (x : String)
    → contains (learn kept hs) x ≡ (contains kept x || (nonempty x && contains hs x))
unfolding learn
contains-learn kept [] x = unfold contains any in ground arith
contains-learn kept (h ∷ hs) x = elim (Bool-cases (nonempty h && not (contains kept h))) [
  | inl new ↦ rw new (
      unfold contains any in
      ground (arith, contains-learn (kept ++ h ∷ []) hs x, contains-snoc kept h x, eq_iff h x))
  | inr old ↦ rw old (unfold contains any in ground (arith, contains-learn kept hs x, eq_iff h x))
]

pub contains-keep_current :
    (kept : List String) (h x : String)
    → contains (keep_current kept h) x ≡ (contains kept x || str_eq h x)
unfolding keep_current
contains-keep_current kept h x = ground (arith, contains-snoc kept h x, eq_iff h x)

pub distinct-snoc :
    (xs : List String) (h : String)
    → distinct xs ≡ true
    → contains xs h ≡ false
    → distinct (xs ++ h ∷ []) ≡ true
unfolding distinct contains any
distinct-snoc [] h d n = refl
distinct-snoc (y ∷ xs) h d n =
    ground (arith, distinct-snoc xs h, contains-snoc xs h y, eq_iff h y, eq_iff y h)

pub distinct-learn :
    (kept hs : List String) → distinct kept ≡ true → distinct (learn kept hs) ≡ true
unfolding learn
distinct-learn kept [] d = d
distinct-learn kept (h ∷ hs) d = elim (Bool-cases (nonempty h && not (contains kept h))) [
  | inl new ↦ rw new (distinct-learn (kept ++ h ∷ []) hs (distinct-snoc kept h d (ground arith)))
  | inr old ↦ rw old (distinct-learn kept hs d)
]

pub distinct-keep_current :
    (kept : List String) (h : String) → distinct kept ≡ true → distinct (keep_current kept h) ≡ true
unfolding keep_current
distinct-keep_current kept h d = ground (arith, distinct-snoc kept h)

-- A host that is contained is found where `index` says.
pub at-index_of :
    (xs : List String) (h : String) → contains xs h ≡ true → at xs (index_of xs h) ≡ ok h
unfolding at index_of contains any
at-index_of [] h c = cc
at-index_of (x ∷ xs) h c = ground (arith, at-index_of xs h, eq_iff x h)

pub at-snoc : (xs : List String) (h x : String) → at xs 0 ≡ ok x → at (xs ++ h ∷ []) 0 ≡ ok x
unfolding at
at-snoc [] h x e = ground arith
at-snoc (y ∷ xs) h x e = e

pub at-learn : (kept hs : List String) (x : String) → at kept 0 ≡ ok x → at (learn kept hs) 0 ≡ ok x
unfolding learn
at-learn kept [] x e = e
at-learn kept (h ∷ hs) x e = elim (Bool-cases (nonempty h && not (contains kept h))) [
  | inl new ↦ rw new (at-learn (kept ++ h ∷ []) hs x (at-snoc kept h x e))
  | inr old ↦ rw old (at-learn kept hs x e)
]

pub at-keep_current :
    (kept : List String) (h x : String) → at kept 0 ≡ ok x → at (keep_current kept h) 0 ≡ ok x
unfolding keep_current
at-keep_current kept h x e = ground (arith, at-snoc kept h x)
