-- ===== src/Client/Cost/Logins.antt =====
-- How many exchanges the logins and the single request of aioproxmox/__init__.py take.
use aioproxmox.Prelude.{
  ℕ, refl, inl, inr, Bool, String, Option, none, some, Option-cases, if◌then◌else◌,
}
use aioproxmox.Prelude.Dict
use aioproxmox.Errors.{is_auth_error}
use aioproxmox.Value.{Value, as_dict}
use aioproxmox.Exec.{pure, raise, handle}
use aioproxmox.Client.State.{Auth, TicketAuth, ticket, api_token}
use aioproxmox.Client.Env.{Env, HttpRequest, calling, send}
use aioproxmox.Client.Auth.{
  update_ticket, stamp, store_tokens, store_capabilities, store_cap, second_factor, get_new_tokens,
  relogin, refresh, check_and_refresh, is_due,
}
use aioproxmox.Client.Once.{Call, request_once}
use aioproxmox.Client.Cost.{
  IsCounted, Spends, Spends-pure, Spends-raise, Spends-lift, Spends-calling, Spends-bind,
  Spends-after, Spends-before, Spends-handle, Spends-if, Spends-send, free_rules,
}

module _ {W : Type 0} (env : Env W) (count : W → ℕ) (n : ℕ) (counted : IsCounted env count n) where
  Spends-update :
      (f : TicketAuth → TicketAuth) → Spends {W = W} count n 0 (calling (update_ticket f))
  unfolding update_ticket
  Spends-update f = Spends-calling (update_ticket f) (λ c. refl)

  Spends-stamp : Spends count n 0 (stamp env)
  unfolding stamp
  Spends-stamp = record {
    at = λ s. (Spends-update (λ t. record t { birth_time = env.now s.world })).at s;
  }

  Spends-store_tokens : (v : Value) → Spends count n 0 (store_tokens env v)
  unfolding store_tokens
  Spends-store_tokens v = search (free_rules, Spends-stamp, Spends-update) depth 16

  Spends-store_cap : (found : Option Value) → Spends count n 0 (store_cap env found)
  unfolding store_cap
  Spends-store_cap none = search free_rules
  Spends-store_cap (some cap) = search (free_rules, Spends-update)

  Spends-store_capabilities : (v : Value) → Spends count n 0 (store_capabilities env v)
  unfolding store_capabilities
  Spends-store_capabilities v = elim (Option-cases (as_dict v)) [
    | inl e ↦ rw (e, store_capabilities) (Spends-pure tt)
    | inr (d, e) ↦ rw (e, store_capabilities) (Spends-store_cap (Dict.lookup "cap" d))
  ]

  Spends-ask : (req : HttpRequest) → Spends count n 1 (send env req)
  Spends-ask req = Spends-send env req counted

  Spends-second_factor :
      (otp : Option Bool) (otptype : Option String)
      → Spends count n 1 (second_factor env otp otptype)
  unfolding second_factor
  Spends-second_factor otp otptype =
      Spends-after _ _ (search free_rules) λ t.
        Spends-before _ _ (Spends-ask _) λ r. (search (free_rules, Spends-store_tokens) depth 14)

  Spends-get_new_tokens :
      (password : Option String) (otp : Option Bool) (otptype : Option String)
      → Spends count n 2 (get_new_tokens env password otp otptype)
  unfolding get_new_tokens
  Spends-get_new_tokens password otp otptype = Spends-after _ _ (search free_rules) λ t.
      Spends-bind _ _ (Spends-ask _) λ r. Spends-after _ _ (search free_rules) λ t'.
        Spends-if _ _ _
          (Spends-after _ _ (search free_rules) λ payload.
            Spends-after _ _ (search free_rules) λ answer.
              Spends-after _ _ (Spends-store_tokens answer) λ _.
                Spends-after _ _ (Spends-store_capabilities answer)
                  λ _. Spends-if _ _ _ (Spends-second_factor otp otptype) (Spends-pure tt))
          (Spends-raise _)

  pub Spends-relogin : Spends count n 2 (relogin env)
  unfolding relogin
  Spends-relogin = search (free_rules, Spends-get_new_tokens)

  Spends-refresh : (a : Auth) → Spends count n 4 (refresh env a)
  unfolding refresh
  Spends-refresh (api_token t) = Spends-pure tt
  Spends-refresh (ticket t) = record { at = λ s. (due (is_due t (env.now s.world))).at s }
    where
      due :
          (b : Bool)
          → Spends count n 4 (
              if b
              then handle
                  (get_new_tokens env none none none)
                  (λ e. if is_auth_error e then relogin env else raise e)
              else pure tt)
      due b =
          Spends-if b _ _
            (Spends-handle _ _ (Spends-get_new_tokens none none none)
              λ e. Spends-if _ _ _ Spends-relogin (Spends-raise e))
            (Spends-pure tt)

  pub Spends-check_and_refresh : Spends count n 4 (check_and_refresh env)
  unfolding check_and_refresh
  Spends-check_and_refresh = record { at = λ s. (Spends-refresh s.client.auth).at s }

  pub Spends-request_once :
      (call : Call) (timeout : Option ℕ) → Spends count n 1 (request_once env call timeout)
  unfolding request_once
  Spends-request_once call timeout =
      Spends-after _ _ (search free_rules)
        λ req. Spends-before _ _ (Spends-ask req) λ r. Spends-lift _
