-- ===== src/Exec.antt =====
-- Coroutines that mutate shared objects and may raise: what was written before a raise stays
-- written, so the state comes back beside the error.
use aioproxmox.Errors.{Error, Result, ok, err}

abbrev pub Exec {ℓ} : Type ℓ → Type ℓ → Type ℓ
Exec S A = S → Result A × S

module _ {ℓ} {S A : Type ℓ} where
  unfoldable pub pure : A → Exec S A
  pure a s = (ok a, s)

  unfoldable pub raise : Error → Exec S A
  raise e s = (err e, s)

  unfoldable pub lift : Result A → Exec S A
  lift r s = (r, s)

  abbrev pub rescue : Result A → (Error → Exec S A) → Exec S A
  rescue (ok a) h s = (ok a, s)
  rescue (err e) h s = h e s

  -- `try: m` with the `except` clauses in `h`, which raises again what it does not handle
  unfoldable pub handle : Exec S A → (Error → Exec S A) → Exec S A
  handle m h s = let (r, s') = m s in rescue r h s'

module _ {ℓ} {S A B : Type ℓ} where
  abbrev pub continue : Result A → (A → Exec S B) → Exec S B
  continue (ok x) next after = next x after
  continue (err e) next after = (err e, after)

  infixl 5 ◌>>=◌ ◌>>◌
  -- A module that opens the bind opens the other actions with it.
  unfoldable pub ◌>>=◌ : Exec S A → (A → Exec S B) → Exec S B
  unfolding handle lift pure raise
  ◌>>=◌ first next before = let (result, after) = first before in continue result next after

  abbrev pub ◌>>◌ : Exec S A → Exec S B → Exec S B
  first >> second = first >>= λ _. second
