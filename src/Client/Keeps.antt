-- ===== src/Client/Keeps.antt =====
-- Invariants of the client across the awaits of a coroutine, one rule for each way to build one.
use aioproxmox.Prelude.{Bool, true, false, if◌then◌else◌}
use aioproxmox.Errors.{Error, Result, ok, err}
use aioproxmox.Exec.{◌>>=◌, pure, raise, lift, handle, rescue, continue}
use aioproxmox.Client.State.{Client}
use aioproxmox.Client.Env.{Env, Machine, Run, HttpRequest, reading, calling, send}

-- `m` leaves a client with `P`, whether it returns or raises.
pub record Keeps {W A : Type 0} (P : Client → Type 0) (m : Run W A) : Type 0 where
  pub at : (s : Machine W) → P s.client → P (m s).1.client

-- What the other tasks do while one awaits an answer keeps `P` too.
pub record Relies {W : Type 0} (P : Client → Type 0) (env : Env W) : Type 0 where
  pub others : (req : HttpRequest) (c : Client) (w : W) → P c → P (env.send req c w).1

module _ {W A : Type 0} {P : Client → Type 0} where
  pub Keeps-pure : (a : A) → Keeps {W = W} P (pure a)
  unfolding pure
  Keeps-pure a = record { at = λ s h. h }

  pub Keeps-raise : (e : Error) → Keeps {W = W} {A = A} P (raise e)
  unfolding raise
  Keeps-raise e = record { at = λ s h. h }

  pub Keeps-lift : (r : Result A) → Keeps {W = W} P (lift r)
  unfolding lift
  Keeps-lift r = record { at = λ s h. h }

  pub Keeps-reading : (f : Client → Result A) → Keeps {W = W} P (reading f)
  unfolding reading
  Keeps-reading f = record { at = λ s h. h }

  pub Keeps-calling :
      (f : Client → Result A × Client)
      → ((c : Client) → P c → P (f c).1)
      → Keeps {W = W} P (calling f)
  unfolding calling
  Keeps-calling f h = record { at = λ s p. h s.client p }

  pub Keeps-if : (b : Bool) (m n : Run W A) → Keeps P m → Keeps P n → Keeps P (if b then m else n)
  Keeps-if true m n km kn = km
  Keeps-if false m n km kn = kn

  pub Keeps-handle :
      (m : Run W A) (h : Error → Run W A)
      → Keeps P m
      → ((e : Error) → Keeps P (h e))
      → Keeps P (handle m h)
  unfolding handle
  Keeps-handle m h km kh = record { at = λ s p. go (m s).0 (m s).1 (km.at s p) }
    where
      go : (r : Result A) (s' : Machine W) → P s'.client → P (rescue r h s').1.client
      go (ok a) s' p = p
      go (err e) s' p = (kh e).at s' p

module _ {W A B : Type 0} {P : Client → Type 0} where
  pub Keeps-bind :
      (m : Run W A) (f : A → Run W B) → Keeps P m → ((a : A) → Keeps P (f a)) → Keeps P (m >>= f)
  unfolding ◌>>=◌
  Keeps-bind m f km kf = record { at = λ s p. go (m s).0 (m s).1 (km.at s p) }
    where
      go : (r : Result A) (s' : Machine W) → P s'.client → P (continue r f s').1.client
      go (ok a) s' p = (kf a).at s' p
      go (err e) s' p = p

pub Keeps-send :
    {W : Type 0} {P : Client → Type 0} (env : Env W) (req : HttpRequest)
    → Relies P env
    → Keeps P (send env req)
unfolding send
Keeps-send env req rely = record { at = λ s p. rely.others req s.client s.world p }

pub ruleset keeps_rules = (
  Keeps-pure, Keeps-raise, Keeps-lift, Keeps-reading, Keeps-if, Keeps-handle, Keeps-bind,
  Keeps-send,
)
