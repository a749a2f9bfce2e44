-- ===== src/Endpoints/Privileged.antt =====
-- What the actions of the endpoints ask of the API, and the privileges that this takes.
use text.Mathlib.TextLemmas.{append_assoc, append-nil}
use aioproxmox.Prelude.{
  nonempty, subst, ℤ, String, ◌≡◌, refl, ap, ◌∙◌, true, false, Option, some, List, [], ◌∷◌, All,
}
use aioproxmox.Prelude.Text
use aioproxmox.Prelude.Text.{◌+++◌}
use aioproxmox.Prelude.Text.Joined.{
  in_front_lem, rstrip-append, nonempty-append, split-append, str_ℤ-slash,
}
use aioproxmox.Prelude.Dict
use aioproxmox.Prelude.Dict.{Dict, lookup-All}
use aioproxmox.Value.{Value}
use aioproxmox.Client.Env.{Env, Run}
use aioproxmox.Client.Request.{request}
use aioproxmox.Endpoints.Calls.{call, guest_path}
use aioproxmox.Endpoints.Objects.{
  nodes, qemu, lxc, qemu_actions, lxc_actions, qemu_bound, lxc_bound,
}
use aioproxmox.Privileges.{Check, strip_slashes, search_entries, fill, privileges_for}
use aioproxmox.Privileges.Checks.{checks}

-- The check for the power management of a guest.
abbrev pub power_of : ℤ → Check
power_of vmid = record {
  alternatives =
      record {
        path = "/vms/" +++ Text.str_ℤ vmid;
        privileges = "VM.PowerMgmt" ∷ [];
        any_of = false;
      }
      ∷ [];
}

abbrev segments : String → String → ℤ → String → List String
segments kind node vmid endpoint =
    "nodes" ∷ node ∷ kind ∷ Text.str_ℤ vmid ∷ "status" ∷ endpoint ∷ []

-- `/vms/{vmid}` with the values of the path filled in.
vms_path :
    (node v : String) → fill (("node", node) ∷ ("vmid", v) ∷ []) "/vms/{vmid}" ≡ "/vms/" +++ v
unfolding fill Text.replace
vms_path node v = in_front_lem "/vms/" (v +++ "") ∙ ap (λ u. "/vms/" +++ u) (append-nil v)

abbrev found_at : String → Option Check
found_at path = some (record {
  alternatives = record { path = path; privileges = "VM.PowerMgmt" ∷ []; any_of = false } ∷ [];
})

abbrev filled : String → ℤ → Option Check
filled node vmid = found_at (fill (("node", node) ∷ ("vmid", Text.str_ℤ vmid) ∷ []) "/vms/{vmid}")

-- A text that `rstrip("/")` leaves as it is.
record Unstripped (s : String) : Type 0 where
  there : nonempty s ≡ true
  kept : Text.rstrip Text.is_slash s ≡ s

Unstripped-append : (s : String) {t : String} → Unstripped t → Unstripped (s +++ t)
Unstripped-append s {t} u = record {
  there = nonempty-append s t u.there;
  kept = rstrip-append Text.is_slash s t u.there u.kept;
}

lstrip-nodes : (s : String) → Text.lstrip Text.is_slash ("nodes/" +++ s) ≡ "nodes/" +++ s
unfolding Text.lstrip
lstrip-nodes s = subst (λ u. Text.lstrip Text.is_slash u ≡ u) (in_front_lem "nodes/" s) refl

-- A segment that ends in its slash.
split-segment :
    (segment s : String)
    → Text.has_char b'/' segment ≡ false
    → Text.split b'/' ((segment +++ "/") +++ s) ≡ segment ∷ Text.split b'/' s
split-segment segment s h =
    ap (Text.split b'/') (append_assoc segment "/" s) ∙ split-append segment s h

-- The path of a guest, its outer slashes aside and split at the inner ones.
parts_of_path :
    (kind node : String) (vmid : ℤ) (endpoint : String)
    → Text.has_char b'/' node ≡ false
    → Text.has_char b'/' kind ≡ false
    → Unstripped endpoint
    → Text.split b'/' (strip_slashes (guest_path kind node vmid ("status/" +++ endpoint)))
      ≡ "nodes" ∷ node ∷ kind ∷ Text.str_ℤ vmid ∷ "status" ∷ Text.split b'/' endpoint
unfolding guest_path Text.has_char
parts_of_path kind node vmid endpoint n k u =
    let v = Text.str_ℤ vmid in
    let tail = "status/" +++ endpoint in
    let below = v +++ "/" +++ tail in
    let of_kind = kind +++ "/" +++ below in
    let of_node = node +++ "/" +++ of_kind in
    let from_v = Unstripped-append v (Unstripped-append "/" (Unstripped-append "status/" u)) in
    let from_kind = Unstripped-append kind (Unstripped-append "/" from_v) in
    let from_node = Unstripped-append node (Unstripped-append "/" from_kind) in
    let whole = Unstripped-append "nodes/" from_node in
    ap (λ s. Text.split b'/' (Text.rstrip Text.is_slash s)) (lstrip-nodes of_node)
    ∙ ap (Text.split b'/') whole.kept
    ∙ split-segment "nodes" of_node refl
    ∙ ap (λ l. "nodes" ∷ l)
        (split-append node of_kind n
          ∙ ap (λ l. node ∷ l)
              (split-append kind below k
                ∙ ap (λ l. kind ∷ l)
                    (split-append v tail (str_ℤ-slash vmid)
                      ∙ ap (λ l. v ∷ l) (split-segment "status" endpoint refl))))

-- What is to be looked at of an action's name: it is one segment, and the route is in the table.
abbrev Ready : String → String → ℤ → String → Type 0
Ready kind node vmid endpoint =
    (nonempty endpoint ≡ true)
    × (Text.rstrip Text.is_slash endpoint ≡ endpoint)
    × (Text.split b'/' endpoint ≡ endpoint ∷ [])
    × (search_entries checks "POST" (segments kind node vmid endpoint) [] ≡ filled node vmid)

qemu-Ready : (node : String) (vmid : ℤ) → All (λ a. Ready "qemu" node vmid a.1) qemu_actions
unfolding search_entries Text.rstrip Text.split
qemu-Ready node vmid = (
  (refl, refl, refl, refl),
  (
    (refl, refl, refl, refl),
    (
      (refl, refl, refl, refl),
      (
        (refl, refl, refl, refl),
        (
          (refl, refl, refl, refl),
          ((refl, refl, refl, refl), ((refl, refl, refl, refl), ((refl, refl, refl, refl), tt))),
        ),
      ),
    ),
  ),
)

lxc-Ready : (node : String) (vmid : ℤ) → All (λ a. Ready "lxc" node vmid a.1) lxc_actions
unfolding search_entries Text.rstrip Text.split
lxc-Ready node vmid = (
  (refl, refl, refl, refl),
  (
    (refl, refl, refl, refl),
    (
      (refl, refl, refl, refl),
      (
        (refl, refl, refl, refl),
        ((refl, refl, refl, refl), ((refl, refl, refl, refl), ((refl, refl, refl, refl), tt))),
      ),
    ),
  ),
)

Ready-privileges :
    (kind node : String) (vmid : ℤ) (endpoint : String)
    → Text.has_char b'/' node ≡ false
    → Text.has_char b'/' kind ≡ false
    → Ready kind node vmid endpoint
    → privileges_for "POST" (guest_path kind node vmid ("status/" +++ endpoint)) []
      ≡ some (power_of vmid)
unfolding privileges_for
Ready-privileges kind node vmid endpoint n k (there, kept, one, found) =
    let u : Unstripped endpoint = record { there = there; kept = kept } in
    ap (λ parts. search_entries checks "POST" parts [])
      (parts_of_path kind node vmid endpoint n k u
        ∙ ap (λ l. "nodes" ∷ node ∷ kind ∷ Text.str_ℤ vmid ∷ "status" ∷ l) one)
    ∙ found
    ∙ ap found_at (vms_path node (Text.str_ℤ vmid))

-- A virtual machine or a container, with the word for it in the routes and the actions of its class.
pub data Kind : Type 0 where
  machine container : Kind

abbrev pub word : Kind → String
word machine = "qemu"
word container = "lxc"

abbrev pub actions : Kind → Dict String
actions machine = qemu_actions
actions container = lxc_actions

-- The attribute of the status endpoint that the client makes for a guest.
unfoldable pub bound :
    {W : Type 0} → Env W → Kind → String → ℤ → String → Option (Dict Value → Run W Value)
unfolding qemu_bound lxc_bound qemu lxc nodes
bound env machine node vmid name = qemu_bound env (qemu (nodes node) vmid).status name
bound env container node vmid name = lxc_bound env (lxc (nodes node) vmid).status name

action_privileges :
    (kind : Kind) (node : String) (vmid : ℤ) (name : String) {endpoint : String}
    → Text.has_char b'/' node ≡ false
    → Dict.lookup name (actions kind) ≡ some endpoint
    → privileges_for "POST" (guest_path (word kind) node vmid ("status/" +++ endpoint)) []
      ≡ some (power_of vmid)
unfolding Text.has_char
action_privileges machine node vmid name {endpoint} n e =
    Ready-privileges "qemu" node vmid endpoint n refl
      (lookup-All (Ready "qemu" node vmid) name qemu_actions (qemu-Ready node vmid) e)
action_privileges container node vmid name {endpoint} n e =
    Ready-privileges "lxc" node vmid endpoint n refl
      (lookup-All (Ready "lxc" node vmid) name lxc_actions (lxc-Ready node vmid) e)

bound_lem :
    {W : Type 0} (env : Env W) (kind : Kind) (node : String) (vmid : ℤ) (name endpoint : String)
    → Dict.lookup name (actions kind) ≡ some endpoint
    → bound env kind node vmid name
      ≡ some (λ kwargs.
        request env
          (call "POST" (guest_path (word kind) node vmid ("status/" +++ endpoint)) kwargs))
unfolding bound
bound_lem env machine node vmid name endpoint e = rw (qemu_bound, e) refl
bound_lem env container node vmid name endpoint e = rw (lxc_bound, e) refl

-- Every action that is declared on the status endpoint of a virtual machine or a container, called on the
-- endpoint that the client makes for a node and an id, posts its keyword arguments to the action's path
-- of that guest; and where the node's name has no slash, looking that path up answers that the call takes
-- VM.PowerMgmt on the path of the guest's id in the access lists.
pub bound-privileges :
    {W : Type 0} (env : Env W) (kind : Kind) (node : String) (vmid : ℤ) (name endpoint : String)
    → Dict.lookup name (actions kind) ≡ some endpoint
    → Text.has_char b'/' node ≡ false
    → (bound env kind node vmid name
        ≡ some (λ kwargs.
          request env
            (call "POST" (guest_path (word kind) node vmid ("status/" +++ endpoint)) kwargs)))
      × (privileges_for "POST" (guest_path (word kind) node vmid ("status/" +++ endpoint)) []
          ≡ some (power_of vmid))
bound-privileges env kind node vmid name endpoint e n =
    (bound_lem env kind node vmid name endpoint e, action_privileges kind node vmid name n e)
