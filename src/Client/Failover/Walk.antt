-- ===== src/Client/Failover/Walk.antt =====
-- Where the loop of `failover` stops, against a network that is said by a predicate on hosts.
use aioproxmox.Prelude.{
  ℕ, zero, suc, ◌+◌, ◌%◌, ◌≤◌, ◌<◌, String, ◌≡◌, refl, ap, ◌∙◌, subst, ◌⊎◌, inl, inr, Bool, true,
  false, List, arith, length, get_elem?-some, Bool-cases,
}
use native.Mathlib.Decide.{dec_lt}
use aioproxmox.Errors.{ok, err}
use aioproxmox.Value.{Value}
use aioproxmox.Prelude.Dict.{Dict}
use aioproxmox.Exec.{◌>>=◌}
use aioproxmox.Client.State.{Client, Auth, ticket, api_token, url_of}
use aioproxmox.Client.Env.{Env, Machine, reading, calling}
use aioproxmox.Client.Hosts.{at, current_host, set_auth_url, point_at, use_host}
use aioproxmox.Client.Once.{get_headers}
use aioproxmox.Client.Network.{Reaches, OnHost}
use aioproxmox.Client.Failover.{answers, walk, report}
use aioproxmox.Client.Failover.Probe.{machine, answers-alive}

-- The host at an offset from the one that failed.
abbrev pub candidate : Client → ℕ → ℕ → ℕ
candidate c start k = (start + k) % length c.hosts

unfoldable pub alive_at : (String → Bool) → List String → ℕ → Bool
unfolding at
alive_at alive hosts i = elim (at hosts i) [ ok host ↦ alive host | err e ↦ false ]

-- From the offset `lo` on, below `hi`, the first host alive is at `offset`.
pub record Found (alive : String → Bool) (c : Client) (start lo hi : ℕ) (c' : Client) : Type 0 where
  pub offset : ℕ
  pub host : String
  pub lower : lo ≤ offset
  pub upper : offset < hi
  pub listed : at c.hosts (candidate c start offset) ≡ ok host
  pub up : alive host ≡ true
  pub skipped : (j : ℕ) → lo ≤ j → j < offset → alive_at alive c.hosts (candidate c start j) ≡ false
  pub moved : c' ≡ point_at (candidate c start offset) host c

-- From the offset `lo` on, below `hi`, no host is alive.
pub record Silent (alive : String → Bool) (c : Client) (start lo hi : ℕ) : Type 0 where
  pub none_up : (j : ℕ) → lo ≤ j → j < hi → alive_at alive c.hosts (candidate c start j) ≡ false

get_headers-set_auth_url :
    (url : String) (a : Auth) → get_headers (set_auth_url url a) ≡ get_headers a
unfolding get_headers set_auth_url
get_headers-set_auth_url url (ticket t) = refl
get_headers-set_auth_url url (api_token t) = refl

set_auth_url_twice :
    (u v : String) (a : Auth) → set_auth_url u (set_auth_url v a) ≡ set_auth_url u a
unfolding set_auth_url
set_auth_url_twice u v (ticket t) = refl
set_auth_url_twice u v (api_token t) = refl

pub point_at_twice :
    (i j : ℕ) (g h : String) (c : Client) → point_at i g (point_at j h c) ≡ point_at i g c
unfolding point_at
point_at_twice i j g h c =
    ap (λ (a : Auth). record c { host_index = i; base_url = url_of g c.port; auth = a })
      (set_auth_url_twice (url_of g c.port) (url_of h c.port) c.auth)

pub current_host-point_at :
    (i : ℕ) (h : String) (c : Client) → at c.hosts i ≡ ok h → current_host (point_at i h c) ≡ ok h
unfolding current_host point_at
current_host-point_at i h c e = e

pub use_host-point_at :
    (i : ℕ) (h : String) (c : Client) → at c.hosts i ≡ ok h → use_host i c ≡ (ok tt, point_at i h c)
unfolding use_host
use_host-point_at i h c e = rw (e, use_host)

at-point_at :
    (i : ℕ) (h : String) (j : ℕ) (g : String) (c : Client)
    → at c.hosts j ≡ ok g
    → at (point_at i h c).hosts j ≡ ok g
unfolding point_at
at-point_at i h j g c e = e

pub at-lt : (hosts : List String) (i : ℕ) → i < length hosts → (h : String) × (at hosts i ≡ ok h)
unfolding at
at-lt hosts i l = let (h, e) = get_elem?-some hosts i l in (h, rw (e, at))

pub OnHost-point_at :
    (i : ℕ) (h : String) (c : Client)
    → (hd : Dict Value) × (get_headers c.auth ≡ ok hd)
    → OnHost (point_at i h c) h
unfolding point_at
OnHost-point_at i h c (hd, e) = record {
  url = refl;
  headers = (hd, get_headers-set_auth_url _ c.auth ∙ e);
}

module _ {W : Type 0} (env : Env W) where
  walk-zero :
      (start offset : ℕ) (home : String) (m : Machine W)
      → at m.client.hosts start ≡ ok home
      → walk env start zero offset m ≡ (ok false, machine (point_at start home m.client) m.world)
  unfolding walk calling ◌>>=◌
  walk-zero start offset home m e = rw (use_host-point_at start home m.client e)

  module _ (start count offset : ℕ) (host home : String) (m : Machine W) (w : W)
      (listed : at m.client.hosts (candidate m.client start offset) ≡ ok host)
      (back : at m.client.hosts start ≡ ok home) where
    walk-up :
        answers env (machine (point_at (candidate m.client start offset) host m.client) m.world)
          ≡ (ok true, machine (point_at (candidate m.client start offset) host m.client) w)
        → walk env start (suc count) offset m
          ≡ (ok true, machine (point_at (candidate m.client start offset) host m.client) w)
    unfolding walk report calling reading ◌>>=◌
    walk-up a =
        let back' = at-point_at (candidate m.client start offset) host start home m.client back in
        let here = current_host-point_at (candidate m.client start offset) host m.client listed in
        rw (use_host-point_at _ host m.client listed, a) (ground (arith, back', here))

    walk-down :
        answers env (machine (point_at (candidate m.client start offset) host m.client) m.world)
          ≡ (ok false, machine (point_at (candidate m.client start offset) host m.client) w)
        → walk env start (suc count) offset m
          ≡ walk env start count
              (offset + 1)
              (machine (point_at (candidate m.client start offset) host m.client) w)
    unfolding walk report calling reading ◌>>=◌
    walk-down a = rw (use_host-point_at _ host m.client listed, a)

skip :
    (alive : String → Bool) (c : Client) (start lo k j : ℕ)
    → alive_at alive c.hosts (candidate c start lo) ≡ false
    → ((i : ℕ) → lo + 1 ≤ i → i < k → alive_at alive c.hosts (candidate c start i) ≡ false)
    → lo ≤ j
    → j < k
    → alive_at alive c.hosts (candidate c start j) ≡ false
skip alive c start lo k j e h l u = elim (dec_lt lo j) [
  | yes later ↦ h j (omega arith) u
  | no now ↦
      let same : lo ≡ j = omega arith in
      subst (λ i. alive_at alive c.hosts (candidate c start i) ≡ false) same e
]

Found-later :
    (alive : String → Bool) (i : ℕ) (h : String) (c : Client) (start lo hi : ℕ) (c' : Client)
    → alive_at alive c.hosts (candidate c start lo) ≡ false
    → Found alive (point_at i h c) start (lo + 1) hi c'
    → Found alive c start lo hi c'
unfolding point_at
Found-later alive i h c start lo hi c' e f = record {
  offset = f.offset;
  host = f.host;
  lower = omega (arith, f.lower);
  upper = f.upper;
  listed = f.listed;
  up = f.up;
  skipped = λ j l u. skip alive c start lo f.offset j e f.skipped l u;
  moved = f.moved ∙ point_at_twice _ i f.host h c;
}

Silent-later :
    (alive : String → Bool) (i : ℕ) (h : String) (c : Client) (start lo hi : ℕ)
    → alive_at alive c.hosts (candidate c start lo) ≡ false
    → Silent alive (point_at i h c) start (lo + 1) hi
    → Silent alive c start lo hi
unfolding point_at
Silent-later alive i h c start lo hi e f = record {
  none_up = λ j l u. skip alive c start lo hi j e f.none_up l u;
}

-- The end of the walk: at the first host alive, or back at the start.
abbrev pub Walked : {W : Type 0} → Env W → (String → Bool) → ℕ → ℕ → ℕ → ℕ → Machine W → Type 0
Walked {W} env alive start count lo hi m =
    ((c : Client) × (w : W) × (walk env start count lo m ≡ (ok true, machine c w))
      × Found alive m.client start lo hi c)
    ⊎ ((home : String) × (w : W) × (at m.client.hosts start ≡ ok home)
        × (walk env start count lo m ≡ (ok false, machine (point_at start home m.client) w))
        × Silent alive m.client start lo hi)

module _ {W : Type 0} (env : Env W) (alive : String → Bool) where
  Walked-later :
      (start count lo hi i : ℕ) (h : String) (m : Machine W) (w : W)
      → alive_at alive m.client.hosts (candidate m.client start lo) ≡ false
      → walk env start (suc count) lo m
        ≡ walk env start count (lo + 1) (machine (point_at i h m.client) w)
      → Walked env alive start count (lo + 1) hi (machine (point_at i h m.client) w)
      → Walked env alive start (suc count) lo hi m
  Walked-later start count lo hi i h m w e step (inl (c, w', r, f)) =
      inl (c, w', step ∙ r, Found-later alive i h m.client start lo hi c e f)
  Walked-later start count lo hi i h m w e step (inr (home, w', back, r, s)) = inr (
    home,
    w',
    unfold point_at in back,
    step ∙ r ∙ ap (λ c. (ok false, machine c w')) (point_at_twice start i home h m.client),
    Silent-later alive i h m.client start lo hi e s,
  )

  module _ (reaches : Reaches env alive) where
    pub walk-Walked :
        (start count lo hi : ℕ) (m : Machine W)
        → (hd : Dict Value) × (get_headers m.client.auth ≡ ok hd)
        → start < length m.client.hosts
        → lo + count ≡ hi
        → Walked env alive start count lo hi m
    unfolding alive_at set_auth_url get_headers point_at
    walk-Walked start zero lo hi m hd inside e =
        let (home, back) = at-lt m.client.hosts start inside in
        inr (
          home,
          m.world,
          back,
          walk-zero env start lo home m back,
          record { none_up = λ j l u. absurd (omega arith) },
        )
    walk-Walked start (suc count) lo hi m hd inside e =
        let (home, back) = at-lt m.client.hosts start inside in
        let i = candidate m.client start lo in
        let (host, listed) = at-lt m.client.hosts i (grind arith) in
        let (w, a) =
          answers-alive env alive (machine (point_at i host m.client) m.world) host reaches
            (OnHost-point_at i host m.client hd) (current_host-point_at i host m.client listed) in
        elim (Bool-cases (alive host)) [
          | inl up ↦ inl (
            point_at i host m.client,
            w,
            walk-up env start count lo host home m w listed back (rw up at a),
            record {
              offset = lo;
              host = host;
              lower = omega arith;
              upper = omega arith;
              listed = listed;
              up = up;
              skipped = λ j l u. absurd (omega arith);
              moved = refl;
            },
          )
          | inr down ↦
              Walked-later start count lo hi i host m w (rw (listed, alive_at) down)
                (walk-down env start count lo host home m w listed back (rw down at a))
                (walk-Walked start count (lo + 1) hi (machine (point_at i host m.client) w)
                  (hd.0, get_headers-set_auth_url _ m.client.auth ∙ hd.1) inside (omega arith))
        ]
