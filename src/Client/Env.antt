-- ===== src/Client/Env.antt =====
-- What the client does not implement: aiohttp's session, the clock, and mashumaro's decoders.
--
-- `send` is one awaited HTTP exchange. Other tasks run while it is awaited, so it may also change
-- the client; the world `W` is whatever the exchanges depend on.
use aioproxmox.Prelude.{ℕ, String, Option}
use aioproxmox.Prelude.Text
use aioproxmox.Prelude.Dict.{Dict}
use aioproxmox.Errors.{Result}
use aioproxmox.Value.{Value, null, bool, int, float, str, arr, obj}
use aioproxmox.Model.Decode.{Decoder}
use aioproxmox.Exec.{Exec}
use aioproxmox.Client.State.{Verify, Client}

-- One call of `session.post` or `session.request`; a part that is not passed is empty.
pub record HttpRequest : Type 0 where
  pub method : String
  pub url : String
  pub headers : Dict Value
  pub timeout : ℕ
  pub ssl : Verify
  pub form : Dict Value
  pub params : Dict Value
  pub json : Dict Value

-- A response whose head has arrived; reading its body may still fail.
pub record Response : Type 0 where
  pub status : ℕ
  pub reason : Option String
  pub text : Result String
  pub json : Result Value

pub record Env (W : Type 0) : Type 0 where
  pub send : HttpRequest → Client → W → Result Response × Client × W
  -- time.monotonic()
  pub now : W → ℕ
  -- str(value) of a float, a list or a dict, and repr(value) of a text
  pub repr : Value → String
  pub decoder : Decoder

-- What a coroutine of the client reads and writes.
pub record Machine (W : Type 0) : Type 0 where
  pub client : Client
  pub world : W

abbrev pub Run : Type 0 → Type 0 → Type 0
Run W A = Exec (Machine W) A

-- str(value)
unfoldable pub str_Value : (Value → String) → Value → String
unfolding Text.str_ℤ Text.str_Bool
str_Value repr null = "None"
str_Value repr (bool b) = Text.str_Bool b
str_Value repr (int n) = Text.str_ℤ n
str_Value repr (str s) = s
str_Value repr (float f) = repr (float f)
str_Value repr (arr vs) = repr (arr vs)
str_Value repr (obj fs) = repr (obj fs)

module _ {W : Type 0} where
  unfoldable pub send : Env W → HttpRequest → Run W Response
  send env req m =
      let (reply, client, world) = env.send req m.client m.world in
      (reply, record { client = client; world = world })

module _ {W A : Type 0} where
  -- An attribute, or a property that may raise, read between two awaits.
  unfoldable pub reading : (Client → Result A) → Run W A
  reading f m = (f m.client, m)

  -- A method that awaits nothing.
  unfoldable pub calling : (Client → Result A × Client) → Run W A
  calling f m = let (r, c) = f m.client in (r, record m { client = c })
