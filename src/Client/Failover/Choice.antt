-- ===== src/Client/Failover/Choice.antt =====
-- When `failover` of aioproxmox/__init__.py moves, and where to.
use aioproxmox.Prelude.{
  ℕ, ◌-◌, ◌<◌, String, ◌≡◌, refl, ap, ◌∙◌, ◌⊎◌, inl, inr, Bool, true, false, not, ◌&&◌, Option,
  none, some, List, arith, str_eq, eq_iff, length, get_elem?, get_elem?-lt, Option-cases,
}
use aioproxmox.Errors.{ok}
use aioproxmox.Exec.{◌>>=◌}
use aioproxmox.Client.State.{Client}
use aioproxmox.Client.Env.{Env, Machine, reading}
use aioproxmox.Client.Hosts.{at, current_host, point_at}
use aioproxmox.Client.Network.{Reaches, OnHost}
use aioproxmox.Client.Failover.{walk, moved_already, still_there, failover}
use aioproxmox.Client.Failover.Probe.{machine, answers-alive}
use aioproxmox.Client.Failover.Walk.{Found, Silent, walk-Walked, Walked}

-- Whether the caller's host is another one than the host in use.
abbrev pub is_elsewhere : Option String → String → Bool
is_elsewhere none h = false
is_elsewhere (some g) h = not (str_eq g h)

pub same_host : (h : String) → is_elsewhere (some h) h ≡ false
same_host h = ground (arith, eq_iff h h)

module _ {W : Type 0} (env : Env W) where
  moved_already_lem :
      (from : Option String) (m : Machine W) (h : String)
      → current_host m.client ≡ ok h
      → moved_already env from m ≡ (ok (is_elsewhere from h), m)
  unfolding moved_already ◌>>=◌ reading
  moved_already_lem none m h e = refl
  moved_already_lem (some g) m h e = rw e

  failover-elsewhere :
      (from : Option String) (verify_current : Bool) (m : Machine W) (h : String)
      → current_host m.client ≡ ok h
      → is_elsewhere from h ≡ true
      → failover env from verify_current m ≡ (ok true, m)
  unfolding failover ◌>>=◌ reading
  failover-elsewhere from v m h e far = rw (moved_already_lem from m h e, far, e)

  failover-there :
      (from : Option String) (verify_current : Bool) (m m' : Machine W) (h : String)
      → current_host m.client ≡ ok h
      → current_host m'.client ≡ ok h
      → is_elsewhere from h ≡ false
      → still_there env verify_current m ≡ (ok true, m')
      → failover env from verify_current m ≡ (ok false, m')
  unfolding failover ◌>>=◌ reading
  failover-there from v m m' h e e' near up = rw (moved_already_lem from m h e, near, up, e')

  failover-walk :
      (from : Option String) (verify_current : Bool) (m m' : Machine W) (h : String)
      → current_host m.client ≡ ok h
      → is_elsewhere from h ≡ false
      → still_there env verify_current m ≡ (ok false, m')
      → failover env from verify_current m
        ≡ walk env m.client.host_index (length m'.client.hosts - 1) 1 m'
  unfolding failover ◌>>=◌ reading
  failover-walk from v m m' h e near down = rw (moved_already_lem from m h e, near, down)

  module _ (alive : String → Bool) (reaches : Reaches env alive) where
    still_there_lem :
        (verify_current : Bool) (m : Machine W) (h : String)
        → OnHost m.client h
        → current_host m.client ≡ ok h
        → (w : W) × (still_there env verify_current m
            ≡ (ok (verify_current && alive h), machine m.client w))
    unfolding still_there ◌>>=◌
    still_there_lem true m h on e = answers-alive env alive m h reaches on e
    still_there_lem false m h on e = (m.world, refl)

-- A request that failed on a host which the client has left since is only repeated: `failover` says
-- that the client has moved, asks nobody and changes nothing.
pub failover_elsewhere :
    {W : Type 0} (env : Env W) (from : String) (verify_current : Bool) (m : Machine W) (h : String)
    → current_host m.client ≡ ok h
    → str_eq from h ≡ false
    → failover env (some from) verify_current m ≡ (ok true, m)
failover_elsewhere env from v m h e far = failover-elsewhere env (some from) v m h e (rw far)

-- Against a network in which each host answers or is silent as `alive` says: where the host in use
-- answers, `failover` with `verify_current` leaves the client exactly as it is and says so.
pub failover_stays :
    {W : Type 0} (env : Env W) (alive : String → Bool) (from : Option String) (m : Machine W)
    (h : String)
    → Reaches env alive
    → OnHost m.client h
    → current_host m.client ≡ ok h
    → is_elsewhere from h ≡ false
    → alive h ≡ true
    → (w : W) × (failover env from true m ≡ (ok false, machine m.client w))
failover_stays env alive from m h reaches on e near up =
    let (w, a) = still_there_lem env alive reaches true m h on e in
    (w, failover-there env from true m (machine m.client w) h e e near (rw up at a))

at-inside : (hosts : List String) (i : ℕ) {h : String} → at hosts i ≡ ok h → i < length hosts
unfolding at
at-inside hosts i e = elim (Option-cases (get_elem? hosts i)) [
  | inl out ↦ absurd (ground arith)
  | inr (x, found) ↦ get_elem?-lt hosts i found
]

abbrev pub Chosen :
    {W : Type 0} → Env W → (String → Bool) → Option String → Bool → Machine W → String → Type 0
Chosen {W} env alive from v m h =
    ((c : Client) × (w : W) × (failover env from v m ≡ (ok true, machine c w))
      × Found alive m.client m.client.host_index 1 (length m.client.hosts) c)
    ⊎ ((w : W) × (failover env from v m
          ≡ (ok false, machine (point_at m.client.host_index h m.client) w))
        × Silent alive m.client m.client.host_index 1 (length m.client.hosts))

finish :
    {W : Type 0} (env : Env W) (alive : String → Bool) (from : Option String) (v : Bool)
    (m : Machine W) (h : String) (w : W)
    → current_host m.client ≡ ok h
    → failover env from v m
      ≡ walk env m.client.host_index (length m.client.hosts - 1) 1 (machine m.client w)
    → Walked env alive m.client.host_index
        (length m.client.hosts - 1)
        1
        (length m.client.hosts)
        (machine m.client w)
    → Chosen env alive from v m h
unfolding current_host
finish env alive from v m h w e step (inl (c, w', r, f)) = inl (c, w', step ∙ r, f)
finish env alive from v m h w e step (inr (home, w', back, r, s)) =
    let same : home ≡ h = cc in
    inr (
      w',
      step ∙ r ∙ ap (λ x. (ok false, machine (point_at m.client.host_index x m.client) w')) same,
      s,
    )

-- Otherwise `failover` succeeds exactly when another host of the list answers. It then is on the
-- first such host in the order of the list, counted from the host in use and around its end, and every
-- host that it passed over is silent. Where none answers, it is back where it started, with the URLs of
-- the host that it started from.
pub failover_lem :
    {W : Type 0} (env : Env W) (alive : String → Bool) (from : Option String)
    (verify_current : Bool) (m : Machine W) (h : String)
    → Reaches env alive
    → OnHost m.client h
    → current_host m.client ≡ ok h
    → is_elsewhere from h ≡ false
    → (verify_current && alive h) ≡ false
    → ((c : Client) × (w : W) × (failover env from verify_current m ≡ (ok true, machine c w))
        × Found alive m.client m.client.host_index 1 (length m.client.hosts) c)
      ⊎ ((w : W) × (failover env from verify_current m
            ≡ (ok false, machine (point_at m.client.host_index h m.client) w))
          × Silent alive m.client m.client.host_index 1 (length m.client.hosts))
failover_lem env alive from v m h reaches on e near down =
    let (w, a) = still_there_lem env alive reaches v m h on e in
    let m' = machine m.client w in
    let inside = at-inside m.client.hosts m.client.host_index {h = h} (unfold current_host in e) in
    finish env alive from v m h w e (failover-walk env from v m m' h e near (rw down at a)) (
      walk-Walked env alive reaches m.client.host_index (length m.client.hosts - 1) 1
        (length m.client.hosts) m' on.headers inside (omega arith))
