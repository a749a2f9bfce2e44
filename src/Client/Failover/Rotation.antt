-- ===== src/Client/Failover/Rotation.antt =====
-- `failover` of aioproxmox/__init__.py against its contract: a pointer that turns to the next host alive.
use aioproxmox.Prelude.{
  ℕ, zero, suc, ◌+◌, ◌-◌, ◌%◌, ◌≤◌, ◌<◌, String, ◌≡◌, refl, sym, ap, subst, ◌∙◌, inl, inr, Bool,
  true, false, ◌&&◌, Option, none, some, List, [], ◌∷◌, length, Bool-cases, arith, if◌then◌else◌,
  str_eq, not, ◌||◌,
}
use native.Mathlib.Decide.{dec_lt}
use aioproxmox.Errors.{ok, err}
use aioproxmox.Client.State.{Client}
use aioproxmox.Client.Env.{Env, Machine}
use aioproxmox.Client.Hosts.{at, point_at, current_host}
use aioproxmox.Client.Network.{Reaches, OnHost}
use aioproxmox.Client.Failover.{failover}
use aioproxmox.Client.Failover.Walk.{
  alive_at, candidate, Found, Silent, current_host-point_at, OnHost-point_at,
}
use aioproxmox.Client.Failover.Choice.{
  is_elsewhere, failover_elsewhere, failover_stays, failover_lem,
}

-- The contract's state: the hosts and the one in use.
pub record Pointer : Type 0 where
  pub hosts : List String
  pub index : ℕ

abbrev pub pointer : Client → Pointer
pointer c = record { hosts = c.hosts; index = c.host_index }

-- What a caller gives: the host that it failed on, if it names one, and whether the host in use is to be
-- asked first.
abbrev pub Asking : Type 0
Asking = Option String × Bool

-- The caller names a host, and another one is in use.
unfoldable pub was_left : Option String → Pointer → Bool
unfolding at
was_left none p = false
was_left (some from) p = elim (at p.hosts p.index) [ err e ↦ false | ok h ↦ not (str_eq from h) ]

module _ (alive : String → Bool) where
  -- The first index with a host alive, `left` offsets on from `offset` behind `start`.
  unfoldable pub next : List String → ℕ → ℕ → ℕ → Option ℕ
  unfolding alive_at
  next hosts start zero offset = none
  next hosts start (suc left) offset =
      let rest = next hosts start left (offset + 1) in
      if alive_at alive hosts ((start + offset) % length hosts)
      then some ((start + offset) % length hosts)
      else rest

  abbrev pub to : Pointer → Option ℕ → Pointer
  to p none = p
  to p (some i) = record p { index = i }

  -- One failover: a host that the caller did not fail on is kept, and one that answers is where it is to
  -- be asked; else the pointer turns.
  unfoldable pub turn : Asking → Pointer → Pointer
  unfolding next alive_at was_left
  turn (from, verify) p =
      if was_left from p || (verify && alive_at alive p.hosts p.index)
      then p
      else to p (next p.hosts p.index (length p.hosts - 1) 1)

  unfoldable pub turns : List Asking → Pointer → Pointer
  unfolding turn
  turns [] p = p
  turns (asking ∷ rest) p = turns rest (turn asking p)

  next-first :
      (hosts : List String) (start left offset k : ℕ)
      → offset ≤ k
      → k < offset + left
      → alive_at alive hosts ((start + k) % length hosts) ≡ true
      → ((j : ℕ) → offset ≤ j → j < k → alive_at alive hosts ((start + j) % length hosts) ≡ false)
      → next hosts start left offset ≡ some ((start + k) % length hosts)
  unfolding next
  next-first hosts start zero offset k l u up before = absurd (omega arith)
  next-first hosts start (suc left) offset k l u up before = elim (dec_lt offset k) [
    | yes later ↦ rw (before offset (omega arith) later) (
        next-first hosts start left (offset + 1) k (omega arith) (omega arith) up
          (λ j l' u'. before j (omega arith) u'))
    | no now ↦
        let same : offset ≡ k = omega arith in
        let here : alive_at alive hosts ((start + offset) % length hosts) ≡ true =
          subst (λ i. alive_at alive hosts ((start + i) % length hosts) ≡ true) (sym same) up in
        rw here (ap (λ i. some ((start + i) % length hosts)) same)
  ]

  next-none :
      (hosts : List String) (start left offset : ℕ)
      → ((j : ℕ)
          → offset ≤ j
          → j < offset + left
          → alive_at alive hosts ((start + j) % length hosts) ≡ false)
      → next hosts start left offset ≡ none
  unfolding next
  next-none hosts start zero offset down = refl
  next-none hosts start (suc left) offset down =
      rw (down offset (omega arith) (omega arith))
        (next-none hosts start left (offset + 1) (λ j l u. down j (omega arith) (omega arith)))

-- `failover` by one caller after the other, whatever it returns.
unfoldable pub failovers : {W : Type 0} → Env W → List Asking → Machine W → Machine W
failovers env [] m = m
failovers env ((from, verify) ∷ rest) m = failovers env rest (failover env from verify m).1

was_left_lem :
    (from : Option String) (c : Client) (h : String)
    → current_host c ≡ ok h
    → was_left from (pointer c) ≡ is_elsewhere from h
unfolding was_left current_host
was_left_lem none c h here = refl
was_left_lem (some g) c h here = rw (here, was_left)

module _ (alive : String → Bool) where
  alive_at-in :
      (hosts : List String) (i : ℕ) (h : String)
      → at hosts i ≡ ok h
      → alive_at alive hosts i ≡ alive h
  unfolding alive_at
  alive_at-in hosts i h e = rw (e, alive_at)

  next-Found :
      (c c' : Client)
      → (f : Found alive c c.host_index 1 (length c.hosts) c')
      → next alive c.hosts c.host_index (length c.hosts - 1) 1
        ≡ some (candidate c c.host_index f.offset)
  next-Found c c' f =
      next-first alive c.hosts c.host_index (length c.hosts - 1) 1 f.offset f.lower
        (omega (arith, f.lower, f.upper)) (alive_at-in c.hosts _ f.host f.listed ∙ f.up) f.skipped

  next-Silent :
      (c : Client)
      → Silent alive c c.host_index 1 (length c.hosts)
      → next alive c.hosts c.host_index (length c.hosts - 1) 1 ≡ none
  next-Silent c s =
      next-none alive c.hosts c.host_index (length c.hosts - 1) 1
        (λ j l u. s.none_up j l (omega (arith, l, u)))

  module _ {W : Type 0} (env : Env W) (reaches : Reaches env alive) where
    -- A failover ends on a host, where the pointer's turn ends.
    abbrev Turned : Asking → Client → Client → Type 0
    Turned asking c c' =
        (pointer c' ≡ turn alive asking (pointer c))
        × (h : String) × OnHost c' h
        × (current_host c' ≡ ok h)

    turn-away :
        (from : Option String) (verify : Bool) (c : Client) (h : String)
        → current_host c ≡ ok h
        → is_elsewhere from h ≡ false
        → (verify && alive h) ≡ false
        → turn alive (from, verify) (pointer c)
          ≡ to alive (pointer c) (next alive c.hosts c.host_index (length c.hosts - 1) 1)
    unfolding turn current_host
    turn-away from verify c h here near down =
        ground
          (arith, was_left_lem from c h here, alive_at-in c.hosts c.host_index h here, near, down)

    turn-kept :
        (from : Option String) (verify : Bool) (c : Client) (h : String)
        → current_host c ≡ ok h
        → (is_elsewhere from h || (verify && alive h)) ≡ true
        → pointer c ≡ turn alive (from, verify) (pointer c)
    unfolding turn current_host
    turn-kept from verify c h here kept =
        ground (arith, was_left_lem from c h here, alive_at-in c.hosts c.host_index h here, kept)

    walk-Turned :
        (from : Option String) (verify : Bool) (m : Machine W) (h : String)
        → OnHost m.client h
        → current_host m.client ≡ ok h
        → is_elsewhere from h ≡ false
        → (verify && alive h) ≡ false
        → Turned (from, verify) m.client (failover env from verify m).1.client
    unfolding point_at current_host
    walk-Turned from verify m h on here near down =
        elim (failover_lem env alive from verify m h reaches on here near down) [
          | inl (c, w, e, f) ↦ rw e (
            ap pointer f.moved
                ∙ sym (
                    turn-away from verify m.client h here near down
                    ∙ ap (to alive (pointer m.client)) (next-Found m.client c f)),
            f.host,
            subst (λ d. OnHost d f.host) (sym f.moved)
                (OnHost-point_at _ f.host m.client on.headers),
            ap current_host f.moved ∙ current_host-point_at _ f.host m.client f.listed,
          )
          | inr (w, e, s) ↦ rw e (
            sym (
                turn-away from verify m.client h here near down
                ∙ ap (to alive (pointer m.client)) (next-Silent m.client s)),
            h,
            OnHost-point_at _ h m.client on.headers,
            here,
          )
        ]

    near-Turned :
        (from : Option String) (verify : Bool) (m : Machine W) (h : String)
        → OnHost m.client h
        → current_host m.client ≡ ok h
        → is_elsewhere from h ≡ false
        → Turned (from, verify) m.client (failover env from verify m).1.client
    near-Turned from false m h on here near = walk-Turned from false m h on here near refl
    near-Turned from true m h on here near = elim (Bool-cases (alive h)) [
      | inr down ↦ walk-Turned from true m h on here near down
      | inl up ↦
          let (w, e) = failover_stays env alive from m h reaches on here near up in
          rw e (turn-kept from true m.client h here (ground (arith, up)), h, on, here)
    ]

    failover-Turned :
        (from : Option String) (verify : Bool) (m : Machine W) (h : String)
        → OnHost m.client h
        → current_host m.client ≡ ok h
        → Turned (from, verify) m.client (failover env from verify m).1.client
    failover-Turned none verify m h on here = near-Turned none verify m h on here refl
    failover-Turned (some g) verify m h on here = elim (Bool-cases (str_eq g h)) [
      | inl same ↦ near-Turned (some g) verify m h on here (ground (arith, same))
      | inr other ↦
          rw (failover_elsewhere env g verify m h here other)
            (turn-kept (some g) verify m.client h here (ground (arith, other)), h, on, here)
    ]

    failovers-turns :
        (callers : List Asking) (m : Machine W) (h : String)
        → OnHost m.client h
        → current_host m.client ≡ ok h
        → pointer (failovers env callers m).client ≡ turns alive callers (pointer m.client)
    unfolding failovers turns
    failovers-turns [] m h on here = refl
    failovers-turns ((from, verify) ∷ rest) m h on here =
        let (same, h', on', here') = failover-Turned from verify m h on here in
        failovers-turns rest (failover env from verify m).1 h' on' here'
        ∙ ap (turns alive rest) same

-- Against a network in which each host answers or is silent as `alive` says, any run of failovers, each by a
-- caller that names the host that it failed on or none, does to the hosts and the index of a client that is on
-- a host what the contract says: each one keeps the host in use where its caller names another one, and where
-- it is to be asked first and answers, and else turns to the next host alive around the list, or stays where
-- there is none.
pub failovers-refines :
    {W : Type 0} (env : Env W) (alive : String → Bool) (callers : List Asking) (m : Machine W)
    (h : String)
    → Reaches env alive
    → OnHost m.client h
    → current_host m.client ≡ ok h
    → pointer (failovers env callers m).client ≡ turns alive callers (pointer m.client)
failovers-refines env alive callers m h reaches on here =
    failovers-turns alive env reaches callers m h on here
