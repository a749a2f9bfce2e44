-- ===== src/Client/Burst/Settled.antt =====
-- A burst of requests takes one step around the cluster at most.
use aioproxmox.Prelude.{
  ℕ, String, ◌≡◌, refl, sym, ap, ◌∙◌, subst, ◌⊎◌, inl, inr, Bool, true, not, some, List, [], ◌∷◌,
  ◌++◌, length, any, any-append, str_eq, eq_iff, Bool-cases, arith,
}
use aioproxmox.Errors.{ok}
use aioproxmox.Client.State.{Client}
use aioproxmox.Client.Env.{Env, Machine}
use aioproxmox.Client.Hosts.{point_at, current_host}
use aioproxmox.Client.Network.{Reaches, OnHost}
use aioproxmox.Client.Failover.{failover}
use aioproxmox.Client.Failover.Walk.{Found, point_at_twice, current_host-point_at, OnHost-point_at}
use aioproxmox.Client.Failover.Choice.{same_host, failover_elsewhere, failover_stays, failover_lem}
use aioproxmox.Client.Burst.{Line, Step, asks, switches, passes, Steps, none_yet, further}

-- Every request of the line failed on the host.
abbrev pub all_on : String → List String → Bool
all_on h waiting = not (any (λ g. not (str_eq g h)) waiting)

pub all_on-in :
    (h g : String) (before after : List String)
    → all_on h (before ++ g ∷ after) ≡ true
    → (g ≡ h) × (all_on h (before ++ after) ≡ true)
unfolding any
all_on-in h g before after e =
    let split = any-append (λ g. not (str_eq g h)) before (g ∷ after) in
    let joined = any-append (λ g. not (str_eq g h)) before after in
    ((eq_iff g h).0 (ground (arith, split, e)), ground (arith, split, joined, e))

all_on-end :
    (h : String) (waiting : List String)
    → all_on h waiting ≡ true
    → all_on h (waiting ++ h ∷ []) ≡ true
unfolding any
all_on-end h waiting e =
    ground (arith, any-append (λ g. not (str_eq g h)) waiting (h ∷ []), eq_iff h h, e)

module _ (alive : String → Bool) (c : Client) (h : String) where
  -- The client as it was, but for the URLs that a walk without success writes again.
  abbrev pub IsHome : Client → Type 0
  IsHome c' = (c' ≡ c) ⊎ (c' ≡ point_at c.host_index h c)

  -- The client on the first host alive after the one that it was on.
  abbrev pub IsMoved : Client → Type 0
  IsMoved c' = Found alive c c.host_index 1 (length c.hosts) c'

  Found-home :
      (i : ℕ) (start lo hi : ℕ) (c' : Client)
      → Found alive (point_at i h c) start lo hi c'
      → Found alive c start lo hi c'
  unfolding point_at
  Found-home i start lo hi c' f = record {
    offset = f.offset;
    host = f.host;
    lower = f.lower;
    upper = f.upper;
    listed = f.listed;
    up = f.up;
    skipped = f.skipped;
    moved = f.moved ∙ point_at_twice _ i f.host h c;
  }

  module _ (on : OnHost c h) (at_first : current_host c ≡ ok h) where
    -- What a client at home shares with the first one.
    pub record Shares (c' : Client) : Type 0 where
      pub on_host : OnHost c' h
      pub here : current_host c' ≡ ok h
      pub found : (d : Client) → Found alive c' c'.host_index 1 (length c'.hosts) d → IsMoved d
      pub back : point_at c'.host_index h c' ≡ point_at c.host_index h c

    Shares-point_at : Shares (point_at c.host_index h c)
    unfolding point_at current_host
    Shares-point_at = record {
      on_host = OnHost-point_at c.host_index h c on.headers;
      here = at_first;
      found = λ d f. Found-home c.host_index c.host_index 1 (length c.hosts) d f;
      back = point_at_twice c.host_index c.host_index h h c;
    }

    pub IsHome-Shares : (c' : Client) → IsHome c' → Shares c'
    IsHome-Shares c' (inl e) =
        subst Shares (sym e)
          (record { on_host = on; here = at_first; found = λ d f. f; back = refl })
    IsHome-Shares c' (inr e) = subst Shares (sym e) Shares-point_at

    Settles : Client → Type 0
    Settles c' = IsHome c' ⊎ IsMoved c'

    module _ {W : Type 0} (env : Env W) (reaches : Reaches env alive) where
      switch-home :
          (m : Machine W) → IsHome m.client → Settles (failover env (some h) true m).1.client
      unfolding Settles
      switch-home m home =
          let s = IsHome-Shares m.client home in
          elim (Bool-cases (alive h)) [
            | inl up ↦
                let (w, e) =
                  failover_stays env alive (some h) m h reaches s.on_host s.here (same_host h) up in
                rw e (inl home)
            | inr down ↦
                elim (failover_lem env alive (some h) true m h reaches s.on_host s.here
                  (same_host h) (rw down)) [
                    | inl (d, w, e, f) ↦ rw e (inr (s.found d f))
                    | inr (w, e, silent) ↦ rw e (inl (inr s.back))
                  ]
          ]

      pub switch-moved :
          (g : String) (m : Machine W)
          → IsMoved m.client
          → IsMoved (failover env (some g) true m).1.client
      switch-moved g m f =
          let on_host : OnHost m.client f.host =
            subst (λ d. OnHost d f.host) (sym f.moved) (OnHost-point_at _ f.host c on.headers) in
          let here : current_host m.client ≡ ok f.host =
            ap current_host f.moved ∙ current_host-point_at _ f.host c f.listed in
          elim (Bool-cases (str_eq g f.host)) [
            | inl same ↦
                let (w, e) =
                  failover_stays env alive (some g) m f.host reaches on_host here (rw same) f.up in
                rw e f
            | inr other ↦ rw (failover_elsewhere env g true m f.host here other) f
          ]

      -- The line is at home, and all of it failed on the first host, or the client has moved.
      unfoldable pub Inv : Line W → Type 0
      Inv l = (IsHome l.now.client × (all_on h l.waiting ≡ true)) ⊎ IsMoved l.now.client

      Step-Inv : (l l' : Line W) → Step env l l' → Inv l → Inv l'
      unfolding Inv Settles
      Step-Inv l l' (asks m waiting g e) (inl (home, all)) =
          let same : g ≡ h = let there = (IsHome-Shares m.client home).here in cc in
          inl (
            home,
            subst (λ x. all_on h (waiting ++ x ∷ []) ≡ true) (sym same) (all_on-end h waiting all),
          )
      Step-Inv l l' (asks m waiting g e) (inr f) = inr f
      Step-Inv l l' (switches m before after g) (inl (home, all)) =
          let (same, rest) = all_on-in h g before after all in
          subst
            (λ x.
              Inv (record { now = (failover env (some x) true m).1; waiting = before ++ after }))
            (sym same) (elim (switch-home m home) [ inl home' ↦ inl (home', rest) | inr f ↦ inr f ])
      Step-Inv l l' (switches m before after g) (inr f) = inr (switch-moved g m f)
      Step-Inv l l' (passes m waiting w) (inl (home, all)) = inl (home, all)
      Step-Inv l l' (passes m waiting w) (inr f) = inr f

      pub Steps-Inv : (l l' : Line W) → Steps env l l' → Inv l → Inv l'
      Steps-Inv l l' none_yet i = i
      Steps-Inv l l' (further k k' ks k_step) i = Step-Inv k k' k_step (Steps-Inv l k ks i)

-- Against a network in which each host answers or is silent as `alive` says, and whichever of the waiting
-- requests gets the lock when: from a client that is on a host with none waiting, a burst of requests that
-- cannot reach the host in use leaves the client where it was, or on the first host alive after that
-- one in the order of the list, and no further.
pub burst-IsSettled :
    {W : Type 0} (env : Env W) (alive : String → Bool) (m : Machine W) (h : String) (l : Line W)
    → Reaches env alive
    → OnHost m.client h
    → current_host m.client ≡ ok h
    → Steps env (record { now = m; waiting = [] }) l
    → ((l.now.client ≡ m.client) ⊎ (l.now.client ≡ point_at m.client.host_index h m.client))
      ⊎ Found alive m.client m.client.host_index 1 (length m.client.hosts) l.now.client
unfolding Inv any
burst-IsSettled {W} env alive m h l reaches on e steps =
    let first : Line W = record { now = m; waiting = [] } in
    elim (Steps-Inv alive m.client h on e env reaches first l steps (inl (inl refl, refl))) [
      | inl (home, all) ↦ inl home
      | inr f ↦ inr f
    ]
