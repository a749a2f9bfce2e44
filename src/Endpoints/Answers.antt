-- ===== src/Endpoints/Answers.antt =====
-- `current` of the status endpoints in aioproxmox/endpoints.py, on a client that is just built.
use aioproxmox.Prelude.{ℤ, String, ◌≡◌, refl, subst, none}
use aioproxmox.Prelude.Dict.{Dict}
use aioproxmox.Errors.{Result, ok, err, >>=-eq-ok, attribute_error}
use aioproxmox.Value.{Value}
use aioproxmox.Exec.{◌>>=◌}
use aioproxmox.Client.State.{
  Client, Options, init, auth_of, port_or_default, clean_host, url_of, new_client,
}
use aioproxmox.Client.Env.{Env, reading}
use aioproxmox.Endpoints.Guests.{cached_node, current}

cached_node-none :
    (vmid : ℤ) (c : Client)
    → c.cluster_resources ≡ none
    → cached_node vmid c ≡ err (attribute_error "cluster_resources")
unfolding cached_node
cached_node-none vmid c h = rw (h)

no_rows :
    (host : String) (o : Options) (c : Client) → init host o ≡ ok c → c.cluster_resources ≡ none
unfolding init new_client
no_rows host o c built =
    let (port, _, built') = >>=-eq-ok (port_or_default o.port o.service) _ built in
    let (auth, _, same) = >>=-eq-ok (auth_of o (url_of (clean_host host) port)) _ built' in
    let is : new_client o (clean_host host) port auth ≡ c = cc in
    subst (λ d. d.cluster_resources ≡ none) is refl

-- On a client that is just built, asking for a guest's status raises an AttributeError before anything
-- is sent: the rows of the cluster, which were to be fetched then, are no attribute yet.
pub current-init :
    {W A : Type 0} (env : Env W) (world : W) (kind guest answer : String)
    (from_dict : Dict Value → Result A) (own_node : String) (vmid : ℤ) (host : String) (o : Options)
    (c : Client)
    → init host o ≡ ok c
    → current env kind guest answer from_dict own_node vmid (record { client = c; world = world })
      ≡ (err (attribute_error "cluster_resources"), record { client = c; world = world })
unfolding current ◌>>=◌ reading
current-init env world kind guest answer from_dict own_node vmid host o c built =
    rw (cached_node-none vmid c (no_rows host o c built))
