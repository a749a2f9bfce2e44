-- ===== src/Client/Cost.antt =====
-- How many exchanges a coroutine of aioproxmox/__init__.py awaits, one rule for each way to build one.
pub mod Logins
pub mod Requests
use aioproxmox.Prelude.{
  ℕ, ◌+◌, ◌≤◌, String, ◌≡◌, ◌∙◌, ap, Bool, true, false, List, length, arith, if◌then◌else◌,
}
use aioproxmox.Errors.{Error, Result, ok, err}
use aioproxmox.Exec.{◌>>=◌, pure, raise, lift, handle, rescue, continue}
use aioproxmox.Client.State.{Client}
use aioproxmox.Client.Env.{Env, Machine, Run, HttpRequest, reading, calling, send}

-- Each exchange adds at most one to `count`, and what other tasks do meanwhile leaves the client with `n`
-- hosts.
pub record IsCounted {W : Type 0} (env : Env W) (count : W → ℕ) (n : ℕ) : Type 0 where
  pub step :
      (req : HttpRequest) (c : Client) (w : W)
      → length c.hosts ≡ n
      → (length (env.send req c w).1.hosts ≡ n) × (count (env.send req c w).2 ≤ count w + 1)

-- `m` awaits at most `k` exchanges of a client with `n` hosts, whether it returns or raises.
pub record Spends {W A : Type 0} (count : W → ℕ) (n k : ℕ) (m : Run W A) : Type 0 where
  pub at :
      (s : Machine W)
      → length s.client.hosts ≡ n
      → (length (m s).1.client.hosts ≡ n) × (count (m s).1.world ≤ count s.world + k)

module _ {W A : Type 0} {count : W → ℕ} {n : ℕ} where
  pub Spends-weaken : {j k : ℕ} {m : Run W A} → j ≤ k → Spends count n j m → Spends count n k m
  Spends-weaken le h = record { at = λ s e. let (e', c) = h.at s e in (e', omega (arith, le, c)) }

  pub Spends-pure : {k : ℕ} (a : A) → Spends {W = W} count n k (pure a)
  unfolding pure
  Spends-pure a = record { at = λ s e. (e, omega arith) }

  pub Spends-raise : {k : ℕ} (e : Error) → Spends {W = W} {A = A} count n k (raise e)
  unfolding raise
  Spends-raise x = record { at = λ s e. (e, omega arith) }

  pub Spends-lift : (r : Result A) → Spends {W = W} count n 0 (lift r)
  unfolding lift
  Spends-lift r = record { at = λ s e. (e, omega arith) }

  pub Spends-reading : (f : Client → Result A) → Spends {W = W} count n 0 (reading f)
  unfolding reading
  Spends-reading f = record { at = λ s e. (e, omega arith) }

  pub Spends-calling :
      (f : Client → Result A × Client)
      → ((c : Client) → (f c).1.hosts ≡ c.hosts)
      → Spends {W = W} count n 0 (calling f)
  unfolding calling
  Spends-calling f same = record { at = λ s e. (ap length (same s.client) ∙ e, omega arith) }

  pub Spends-if :
      {k : ℕ} (b : Bool) (m m' : Run W A)
      → Spends count n k m
      → Spends count n k m'
      → Spends count n k (if b then m else m')
  Spends-if true m m' h h' = h
  Spends-if false m m' h h' = h'

  pub Spends-handle :
      {j k : ℕ} (m : Run W A) (h : Error → Run W A)
      → Spends count n j m
      → ((e : Error) → Spends count n k (h e))
      → Spends count n (j + k) (handle m h)
  unfolding handle
  Spends-handle {j} {k} m h first next = record {
    at = λ s e. let (e', c) = first.at s e in go (m s).0 (m s).1 s e' c;
  }
    where
      go :
          (r : Result A) (s' s : Machine W)
          → length s'.client.hosts ≡ n
          → count s'.world ≤ count s.world + j
          → (length (rescue r h s').1.client.hosts ≡ n)
            × (count (rescue r h s').1.world ≤ count s.world + (j + k))
      go (ok a) s' s e c = (e, omega (arith, c))
      go (err x) s' s e c = let (e', c') = (next x).at s' e in (e', omega (arith, c, c'))

module _ {W A B : Type 0} {count : W → ℕ} {n : ℕ} where
  pub Spends-bind :
      {j k : ℕ} (m : Run W A) (f : A → Run W B)
      → Spends count n j m
      → ((a : A) → Spends count n k (f a))
      → Spends count n (j + k) (m >>= f)
  unfolding ◌>>=◌
  Spends-bind {j} {k} m f first next = record {
    at = λ s e. let (e', c) = first.at s e in go (m s).0 (m s).1 s e' c;
  }
    where
      go :
          (r : Result A) (s' s : Machine W)
          → length s'.client.hosts ≡ n
          → count s'.world ≤ count s.world + j
          → (length (continue r f s').1.client.hosts ≡ n)
            × (count (continue r f s').1.world ≤ count s.world + (j + k))
      go (ok a) s' s e c = let (e', c') = (next a).at s' e in (e', omega (arith, c, c'))
      go (err x) s' s e c = (e, omega (arith, c))

  -- A step that awaits nothing, in front of what awaits or behind it.
  pub Spends-after :
      {k : ℕ} (m : Run W A) (f : A → Run W B)
      → Spends count n 0 m
      → ((a : A) → Spends count n k (f a))
      → Spends count n k (m >>= f)
  Spends-after m f first next = Spends-weaken (omega arith) (Spends-bind m f first next)

  pub Spends-before :
      {k : ℕ} (m : Run W A) (f : A → Run W B)
      → Spends count n k m
      → ((a : A) → Spends count n 0 (f a))
      → Spends count n k (m >>= f)
  Spends-before m f first next = Spends-weaken (omega arith) (Spends-bind m f first next)

module _ {W B : Type 0} {count : W → ℕ} {n : ℕ} where
  -- The list of hosts that is read is as long as the client's.
  pub Spends-hosts :
      {k : ℕ} (f : List String → Run W B)
      → ((hosts : List String) → length hosts ≡ n → Spends count n k (f hosts))
      → Spends count n k (reading (λ c. ok c.hosts) >>= f)
  unfolding ◌>>=◌ reading
  Spends-hosts f next = record { at = λ s e. (next s.client.hosts e).at s e }

pub Spends-send :
    {W : Type 0} {count : W → ℕ} {n : ℕ} (env : Env W) (req : HttpRequest)
    → IsCounted env count n
    → Spends count n 1 (send env req)
unfolding send
Spends-send env req counted = record { at = λ s e. counted.step req s.client s.world e }

-- What awaits nothing.
pub ruleset free_rules =
    (Spends-pure, Spends-raise, Spends-lift, Spends-reading, Spends-if, Spends-after)
