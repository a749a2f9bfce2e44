-- ===== src/Client/Burst/Served.antt =====
-- No request of a burst waits for ever, and the first that is served moves the client.
use aioproxmox.Prelude.{
  ℕ, zero, suc, ◌+◌, ◌≤◌, ◌<◌, String, ◌≡◌, refl, sym, ◌∙◌, subst, inl, inr, Bool, true, false,
  some, List, [], ◌∷◌, ◌++◌, length, length-append, any, arith,
}
use aioproxmox.Errors.{ok}
use aioproxmox.Client.State.{Client}
use aioproxmox.Client.Env.{Env, Machine}
use aioproxmox.Client.Hosts.{point_at, current_host}
use aioproxmox.Client.Network.{Reaches, OnHost}
use aioproxmox.Client.Failover.{failover}
use aioproxmox.Client.Failover.Walk.{Found, Silent, alive_at, candidate}
use aioproxmox.Client.Failover.Choice.{same_host, failover_lem}
use aioproxmox.Client.Burst.{Line, Steps, Turns, no_turn, turn}
use aioproxmox.Client.Burst.Settled.{
  all_on-in, IsHome, IsMoved, IsHome-Shares, switch-moved, Inv, Steps-Inv,
}

module _ (alive : String → Bool) (c : Client) (h : String) (on : OnHost c h)
    (at_first : current_host c ≡ ok h) (down : alive h ≡ false) (j : ℕ) (lower : 1 ≤ j)
    (upper : j < length c.hosts)
    (up : alive_at alive c.hosts (candidate c c.host_index j) ≡ true) where
  -- Another host answers, so not all of them are silent.
  not-Silent :
      (c' : Client)
      → IsHome alive c h c'
      → Silent alive c' c'.host_index 1 (length c'.hosts)
      → true ≡ false
  unfolding point_at
  not-Silent c' (inl e) s =
      let heard = subst (λ d. Silent alive d d.host_index 1 (length d.hosts)) e s in
      sym up ∙ heard.none_up j lower upper
  not-Silent c' (inr e) s =
      let heard = subst (λ d. Silent alive d d.host_index 1 (length d.hosts)) e s in
      sym up ∙ heard.none_up j lower upper

  module _ {W : Type 0} (env : Env W) (reaches : Reaches env alive) where
    switch-away :
        (m : Machine W)
        → IsHome alive c h m.client
        → IsMoved alive c h (failover env (some h) true m).1.client
    switch-away m home =
        let s = IsHome-Shares alive c h on at_first m.client home in
        elim (failover_lem env alive (some h) true m h reaches s.on_host s.here (same_host h)
          (rw down refl)) [
            | inl (d, w, e, f) ↦ rw e (s.found d f)
            | inr (w, e, silent) ↦ absurd (let lost = not-Silent m.client home silent in cc)
          ]

    -- What one turn does to a line: it moves the client, wherever it was.
    turn-moved :
        (m : Machine W) (before after : List String) (g : String)
        → Inv alive c h on at_first env reaches (record { now = m; waiting = before ++ g ∷ after })
        → IsMoved alive c h (failover env (some g) true m).1.client
    unfolding Inv
    turn-moved m before after g (inl (home, all)) =
        let (same, rest) = all_on-in h g before after all in
        subst (λ x. IsMoved alive c h (failover env (some x) true m).1.client) (sym same)
          (switch-away m home)
    turn-moved m before after g (inr f) = switch-moved alive c h on at_first env reaches g m f

    Turns-moved :
        (l : Line W) {n : ℕ} (l' : Line W)
        → Inv alive c h on at_first env reaches l
        → Turns env l n l'
        → (n + length l'.waiting ≡ length l.waiting)
          × Inv alive c h on at_first env reaches l'
          × (1 ≤ n → IsMoved alive c h l'.now.client)
    unfolding Inv
    Turns-moved l l' i no_turn = (omega arith, i, λ p. absurd (omega arith))
    Turns-moved l l' i (turn n m before after g ts) =
        let earlier : Line W = record { now = m; waiting = before ++ g ∷ after } in
        let (count, i', so_far) = Turns-moved l earlier i ts in
        let moved = turn-moved m before after g i' in
        (
          omega (arith, count, length-append before (g ∷ after), length-append before after),
          inr moved,
          λ p. moved,
        )

-- As many turns can be taken as requests wait: the one that waits longest gets the lock.
drained :
    {W : Type 0} (env : Env W) (n k : ℕ) (l : Line W) (m : Machine W) (waiting : List String)
    → length waiting ≡ n
    → Turns env l k (record { now = m; waiting = waiting })
    → (l' : Line W) × Turns env l (k + n) l'
drained {W} env zero k l m waiting e ts =
    let last : Line W = record { now = m; waiting = waiting } in
    (last, subst (λ i. Turns env l i last) (omega arith) ts)
drained env (suc n) k l m [] e ts = absurd (omega (arith, e))
drained env (suc n) k l m (h ∷ waiting) e ts =
    let (l', all) =
      drained env n (suc k) l (failover env (some h) true m).1 waiting (omega (arith, e))
        (turn k m [] waiting h ts) in
    (l', subst (λ i. Turns env l i l') (omega arith) all)

-- Against a network in which each host answers or is silent as `alive` says: from a client that is on a silent
-- host of a list in which another host answers, with none waiting, after any run of a burst, none of the
-- requests that wait then waits for ever. Turns of the lock can be taken until none waits, every turn
-- serves one request, whichever, and from the first of them on the client is on the first host alive after
-- the silent one in the order of the list.
pub burst-IsServed :
    {W : Type 0} (env : Env W) (alive : String → Bool) (m : Machine W) (h : String) (l : Line W)
    (j : ℕ)
    → Reaches env alive
    → OnHost m.client h
    → current_host m.client ≡ ok h
    → alive h ≡ false
    → 1 ≤ j
    → j < length m.client.hosts
    → alive_at alive m.client.hosts (candidate m.client m.client.host_index j) ≡ true
    → Steps env (record { now = m; waiting = [] }) l
    → ((l' : Line W) × Turns env l (length l.waiting) l')
      × ((n : ℕ) (l' : Line W)
          → Turns env l n l'
          → (n + length l'.waiting ≡ length l.waiting)
            × (1 ≤ n
                → Found alive m.client m.client.host_index 1 (length m.client.hosts) l'.now.client))
unfolding Inv any
burst-IsServed {W} env alive m h l j reaches on e down lower upper up steps =
    let first : Line W = record { now = m; waiting = [] } in
    let i = Steps-Inv alive m.client h on e env reaches first l steps (inl (inl refl, refl)) in
    let (last, all) = drained env (length l.waiting) 0 l l.now l.waiting refl no_turn in
    (
      (last, subst (λ i. Turns env l i last) (omega arith) all),
      λ n l' ts.
          let (count, kept, moved) =
            Turns-moved alive m.client h on e down j lower upper up env reaches l l' i ts in
          (count, moved),
    )
