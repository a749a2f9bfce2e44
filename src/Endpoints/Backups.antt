-- ===== src/Endpoints/Backups.antt =====
-- `vzdump` of aioproxmox/endpoints.py.
use aioproxmox.Prelude.{
  ℤ, String, ◌≡◌, refl, subst, Bool, true, false, not, ◌&&◌, ◌||◌, Option, List, [], ◌∷◌, arith,
}
use aioproxmox.Prelude.Dict.{Dict}
use aioproxmox.Errors.{Error, Result, ok, err, proxmox_error}
use aioproxmox.Value.{Value}
use aioproxmox.Exec.{◌>>=◌}
use aioproxmox.Client.Env.{Env, Machine}
use aioproxmox.Endpoints.Calls.{call, command, node_path}
use aioproxmox.Endpoints.Nodes.{
  Guests, ids_of, Backup, guests_payload, notes_payload, is_given, vzdump_payload, vzdump,
}

abbrev has_text : List ℤ → Bool
has_text [] = false
has_text (i ∷ is) = true

abbrev pub acceptable : Guests → Bool → Backup → Bool
acceptable guests all_guests b =
    (all_guests || has_text (ids_of guests))
    && (not (is_given b.notes_template) || is_given b.storage)

-- Whether an error is one of the library's own.
abbrev pub refusal : Result (Dict Value) → Bool
refusal (err (proxmox_error s)) = true
refusal _ = false

abbrev pub is_ok {ℓ} : {A : Type ℓ} → Result A → Bool
is_ok (ok a) = true
is_ok (err e) = false

guests_payload_ok :
    (all_guests : Bool) (ids : List ℤ) (payload : Dict Value)
    → is_ok (guests_payload all_guests ids payload) ≡ all_guests || has_text ids
unfolding guests_payload
guests_payload_ok true ids payload = refl
guests_payload_ok false [] payload = refl
guests_payload_ok false (i ∷ is) payload = refl

notes_payload_ok :
    (notes storage : Option String) (payload : Dict Value)
    → is_ok (notes_payload notes storage payload) ≡ not (is_given notes) || is_given storage
unfolding notes_payload
notes_payload_ok notes storage payload = ground arith

vzdump_payload_ok :
    (guests : Guests) (all_guests : Bool) (b : Backup)
    → is_ok (vzdump_payload guests all_guests b) ≡ acceptable guests all_guests b
unfolding vzdump_payload
vzdump_payload_ok guests all_guests b = ground (
  arith,
  guests_payload_ok all_guests (ids_of guests) b.extra,
  notes_payload_ok b.notes_template b.storage,
)

vzdump-payload :
    {W : Type 0} (env : Env W) (node : String) (guests : Guests) (all_guests : Bool) (b : Backup)
    (m : Machine W) (payload : Result (Dict Value))
    → vzdump_payload guests all_guests b ≡ payload
    → vzdump env node guests all_guests b m ≡ elim payload [
      | ok p ↦ command env (call "POST" (node_path node "vzdump") p) m
      | err e ↦ (err e, m)
    ]
unfolding vzdump ◌>>=◌
vzdump-payload env node guests all_guests b m (ok p) e = rw (e)
vzdump-payload env node guests all_guests b m (err x) e = rw (e)

-- What comes of a backup that is acceptable or not.
abbrev pub Answered :
    {W : Type 0} → Env W → String → Guests → Bool → Backup → Machine W → Bool → Type 0
Answered env node guests all_guests b m true =
    (p : Dict Value) × (vzdump_payload guests all_guests b ≡ ok p)
    × (vzdump env node guests all_guests b m
        ≡ command env (call "POST" (node_path node "vzdump") p) m)
Answered env node guests all_guests b m false =
    (e : Error) × (vzdump env node guests all_guests b m ≡ (err e, m))

answered :
    {W : Type 0} (env : Env W) (node : String) (guests : Guests) (all_guests : Bool) (b : Backup)
    (m : Machine W) (payload : Result (Dict Value))
    → vzdump_payload guests all_guests b ≡ payload
    → Answered env node guests all_guests b m (is_ok payload)
answered env node guests all_guests b m (ok p) e =
    (p, e, vzdump-payload env node guests all_guests b m (ok p) e)
answered env node guests all_guests b m (err x) e =
    (x, vzdump-payload env node guests all_guests b m (err x) e)

-- A backup asks for one task of the node exactly where guests are named or all are taken, and a notes
-- template comes with a storage; otherwise it raises an error with nothing sent and nothing changed.
pub vzdump-Answered :
    {W : Type 0} (env : Env W) (node : String) (guests : Guests) (all_guests : Bool) (b : Backup)
    (m : Machine W)
    → Answered env node guests all_guests b m (acceptable guests all_guests b)
vzdump-Answered env node guests all_guests b m =
    subst (Answered env node guests all_guests b m) (vzdump_payload_ok guests all_guests b)
      (answered env node guests all_guests b m (vzdump_payload guests all_guests b) refl)
