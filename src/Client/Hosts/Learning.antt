-- ===== src/Client/Hosts/Learning.antt =====
-- What `learn_hosts` of aioproxmox/__init__.py makes of the list of hosts.
use aioproxmox.Prelude.{
  ℕ, String, ◌≡◌, refl, Bool, true, false, ◌&&◌, ◌||◌, List, [], ◌∷◌, str_eq, nonempty, arith,
  if◌then◌else◌, eq_iff, any,
}
use aioproxmox.Errors.{ok}
use aioproxmox.Client.State.{Client}
use aioproxmox.Client.Hosts.{
  at, contains, index_of, current_host, learn, keep_current, learn_hosts, kept_hosts,
}
use aioproxmox.Client.Hosts.Lists.{
  distinct, contains-learn, contains-keep_current, distinct-learn, distinct-keep_current,
  at-index_of, at-learn, at-keep_current,
}

-- What `learn_hosts` starts from: the configured host alone, or the whole list.
abbrev pub starting : Bool → Client → String → List String
starting replace c first = if replace then first ∷ [] else c.hosts

pub record Learned (hs : List String) (replace : Bool) (c : Client) (h first : String) (c' : Client)
    : Type 0 where
  -- The host in use stays in use, and the configured host stays first.
  pub in_use : current_host c' ≡ ok h
  pub configured : at c'.hosts 0 ≡ ok first
  -- The list holds exactly what was kept, the texts given that are not empty, and the host in use.
  pub members :
      (x : String)
      → contains c'.hosts x
        ≡ (contains (starting replace c first) x || (nonempty x && contains hs x) || str_eq h x)
  -- Nothing else of the client changes.
  pub frame : c' ≡ record c { hosts = c'.hosts; host_index = c'.host_index }

at-first :
    (xs : List String) (i : ℕ) (h : String) → at xs i ≡ ok h → (f : String) × (at xs 0 ≡ ok f)
unfolding at
at-first [] i h e = absurd (cc)
at-first (x ∷ xs) i h e = (x, refl)

at-starting :
    (replace : Bool) (c : Client) (f : String)
    → at c.hosts 0 ≡ ok f
    → at (starting replace c f) 0 ≡ ok f
unfolding at
at-starting true c f e = refl
at-starting false c f e = e

abbrev learned : List String → Bool → Client → String → String → Client
learned hs replace c h first =
    let all = keep_current (learn (starting replace c first) hs) h in
    record c { hosts = all; host_index = index_of all h }

learn_hosts-learned :
    (hs : List String) (replace : Bool) (c : Client) (h first : String)
    → current_host c ≡ ok h
    → at c.hosts 0 ≡ ok first
    → learn_hosts hs replace c ≡ ok (learned hs replace c h first)
unfolding learn_hosts kept_hosts
learn_hosts-learned hs true c h first e f = rw (e, f)
learn_hosts-learned hs false c h first e f = rw e

contains-learned :
    (hs : List String) (replace : Bool) (c : Client) (h first x : String)
    → contains (learned hs replace c h first).hosts x
      ≡ (contains (starting replace c first) x || (nonempty x && contains hs x) || str_eq h x)
contains-learned hs replace c h first x = ground (
  arith,
  contains-keep_current (learn (starting replace c first) hs) h x,
  contains-learn (starting replace c first) hs x,
)

in_use-learned :
    (hs : List String) (replace : Bool) (c : Client) (h first : String)
    → current_host (learned hs replace c h first) ≡ ok h
unfolding current_host
in_use-learned hs replace c h first =
    at-index_of _ h
      (ground (arith, contains-keep_current (learn (starting replace c first) hs) h h, eq_iff h h))

learned-Learned :
    (hs : List String) (replace : Bool) (c : Client) (h first : String)
    → at c.hosts 0 ≡ ok first
    → Learned hs replace c h first (learned hs replace c h first)
learned-Learned hs replace c h first f = record {
  in_use = in_use-learned hs replace c h first;
  configured =
      at-keep_current (learn (starting replace c first) hs) h first
        (at-learn (starting replace c first) hs first (at-starting replace c first f));
  members = contains-learned hs replace c h first;
  frame = refl;
}

-- A client that is on a host learns any list without an error. The host in use stays in use, the
-- configured host stays first, and the list then holds exactly the hosts that were kept (all of them,
-- or with `replace` the configured one), those given that are not empty, and the host in use; nothing
-- but the list and the index changes.
pub learn_hosts-Learned :
    (hs : List String) (replace : Bool) (c : Client) (h : String)
    → current_host c ≡ ok h
    → (first : String) × (c' : Client) × (at c.hosts 0 ≡ ok first)
      × (learn_hosts hs replace c ≡ ok c')
      × Learned hs replace c h first c'
learn_hosts-Learned hs replace c h e =
    let (first, f) = at-first c.hosts c.host_index h (unfold current_host in e) in
    (
      first,
      learned hs replace c h first,
      f,
      learn_hosts-learned hs replace c h first e f,
      learned-Learned hs replace c h first f,
    )

distinct-starting :
    (replace : Bool) (c : Client) (first : String)
    → distinct c.hosts ≡ true
    → distinct (starting replace c first) ≡ true
unfolding distinct contains any
distinct-starting true c first d = refl
distinct-starting false c first d = d

-- Learning never makes a host stand twice: where the client's list has no duplicate, the list after
-- a successful `learn_hosts` has none, whatever is learned.
pub distinct-learn_hosts :
    (hs : List String) (replace : Bool) (c : Client) (h : String) (c' : Client)
    → distinct c.hosts ≡ true
    → current_host c ≡ ok h
    → learn_hosts hs replace c ≡ ok c'
    → distinct c'.hosts ≡ true
distinct-learn_hosts hs replace c h c' d e l =
    let (first, f) = at-first c.hosts c.host_index h (unfold current_host in e) in
    let same : learned hs replace c h first ≡ c' =
      cc (learn_hosts-learned hs replace c h first e f) in
    rw (← same) (
      distinct-keep_current (learn (starting replace c first) hs) h
        (distinct-learn (starting replace c first) hs (distinct-starting replace c first d)))
