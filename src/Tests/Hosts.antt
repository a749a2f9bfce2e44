-- ===== src/Tests/Hosts.antt =====
-- `learn_hosts` at work.
use aioproxmox.Prelude.{String, ◌≡◌, refl, true, List, [], ◌∷◌, any}
use aioproxmox.Errors.{ok}
use aioproxmox.Client.State.{Client}
use aioproxmox.Client.Hosts.{
  at, current_host, kept_hosts, learn, contains, keep_current, index_of, learn_hosts,
}
use aioproxmox.Client.Hosts.Learning.{Learned, learn_hosts-Learned, distinct-learn_hosts}
use aioproxmox.Client.Hosts.Lists.{distinct}
use aioproxmox.Tests.Net.{three}

abbrev given : List String
given = "c" ∷ "" ∷ "d" ∷ "c" ∷ []

abbrev on_b : Client
on_b = record three { host_index = 1 }

replaced :
    learn_hosts given true on_b
    ≡ ok (record three { hosts = "a" ∷ "c" ∷ "d" ∷ "b" ∷ []; host_index = 3 })
unfolding learn_hosts current_host at kept_hosts learn contains any keep_current index_of
replaced = refl

learn_hosts-Learned_example :
    (first : String) × (c' : Client) × (at on_b.hosts 0 ≡ ok first)
    × (learn_hosts given true on_b ≡ ok c')
    × Learned given true on_b "b" first c'
unfolding at current_host
learn_hosts-Learned_example = learn_hosts-Learned given true on_b "b" refl

distinct-learn_hosts_example : distinct ("a" ∷ "c" ∷ "d" ∷ "b" ∷ []) ≡ true
unfolding at current_host distinct contains any
distinct-learn_hosts_example =
    distinct-learn_hosts given true on_b "b"
      (record three { hosts = "a" ∷ "c" ∷ "d" ∷ "b" ∷ []; host_index = 3 }) refl refl replaced
