-- ===== src/Errors.antt =====
-- aioproxmox/exceptions.py, and the exceptions of Python and aiohttp that the client meets.
use aioproxmox.Prelude.{ℕ, String, Bool, true, false, ◌||◌, ◌≡◌, refl}

pub data Error : Type 0 where
  -- ProxmoxError itself, with its text
  proxmox_error : String → Error
  auth_error : String → Error
  -- status, message, endpoint
  api_error : ℕ → String → String → Error
  resource_not_found : String → Error
  -- aiohttp.ClientConnectionError, any other aiohttp.ClientError, TimeoutError
  connection_error client_error timeout_error : Error
  key_error : String → Error
  attribute_error : String → Error
  type_error value_error index_error not_implemented : Error
  -- UnsupportedCheck of script/generate_privileges.py
  unsupported_check : Error

-- `except ProxmoxError`
abbrev pub is_proxmox_error : Error → Bool
is_proxmox_error (proxmox_error s) = true
is_proxmox_error (auth_error s) = true
is_proxmox_error (api_error n s t) = true
is_proxmox_error (resource_not_found s) = true
is_proxmox_error _ = false

-- `except ProxmoxAPIError`
abbrev pub is_api_error : Error → Bool
is_api_error (api_error n s t) = true
is_api_error _ = false

-- `except ProxmoxAuthError`
abbrev pub is_auth_error : Error → Bool
is_auth_error (auth_error s) = true
is_auth_error _ = false

-- `except aiohttp.ClientConnectionError, TimeoutError`
abbrev pub is_unreachable : Error → Bool
is_unreachable connection_error = true
is_unreachable timeout_error = true
is_unreachable _ = false

-- `except aiohttp.ClientError`: a connection error is one too.
abbrev pub is_client_error : Error → Bool
is_client_error connection_error = true
is_client_error client_error = true
is_client_error _ = false

-- `except (ProxmoxError, aiohttp.ClientError, TimeoutError)`
abbrev pub is_silence : Error → Bool
is_silence timeout_error = true
is_silence e = is_proxmox_error e || is_client_error e

pub data Result {ℓ} (A : Type ℓ) : Type ℓ where
  ok : A → Result A
  err : Error → Result A

infixl 5 ◌>>=◌
abbrev pub ◌>>=◌ {ℓ κ} :
    {Value : Type ℓ} {Next : Type κ} → Result Value → (Value → Result Next) → Result Next
ok x >>= next = next x
err e >>= next = err e

-- A chain that succeeds did so in its first step and in its second.
pub >>=-eq-ok {ℓ κ} :
    {Value : Type ℓ} {Next : Type κ} {y : Next} (first : Result Value) (next : Value → Result Next)
    → (first >>= next) ≡ ok y
    → (x : Value) × (first ≡ ok x) × (next x ≡ ok y)
>>=-eq-ok (ok x) next both = (x, refl, both)
>>=-eq-ok (err e) next both = cc
