-- ===== src/Disks/Numbers.antt =====
-- The numbers of aioproxmox/model/disks.py: `_wearout`, `leading_int` and `ZfsPool.used_fraction`.
use Prim.Native.Char.{code}
use aioproxmox.Prelude.{
  ℕ, zero, suc, ◌+◌, ◌-◌, ◌*◌, ◌/◌, ◌^◌, ℤ, pos, negsuc, String, Bool, true, ◌&&◌, Option, none,
  some, List, [], ◌∷◌, length, leb, ltb, nonempty, if◌then◌else◌,
}
use aioproxmox.Prelude.Int.{ltb_ℤ}
use aioproxmox.Prelude.Text
use aioproxmox.Errors.{Result, ok, err, value_error}
use aioproxmox.Value.{Value, Float, int, float, str}
use aioproxmox.Model.Disks.{ZfsPool}

-- What the Unicode tables say of a code point from 128 on: its decimal value, which `\d` and `int`
-- go by, and whether `str.isdigit` holds of it.
pub record Unicode : Type 0 where
  pub decimal : ℕ → Option ℕ
  pub is_digit : ℕ → Bool

abbrev ascii_digit : ℕ → Bool
ascii_digit n = leb b'0' n && leb n b'9'

module _ (unicode : Unicode) where
  unfoldable pub decimal_of : ℕ → Option ℕ
  decimal_of n =
      if ascii_digit n then some (n - b'0') else if leb 128 n then unicode.decimal n else none

  -- The decimals at the front of a text.
  unfoldable pub decimals : String → List ℕ
  unfolding decimal_of
  decimals String.[] = []
  decimals (String.◌∷◌ c s) =
      let rest = decimals s in elim (decimal_of (code c)) [ none ↦ [] | some d ↦ d ∷ rest ]

  -- `str.isdigit` of a text that is not empty
  unfoldable pub all_digits : String → Bool
  all_digits String.[] = true
  all_digits (String.◌∷◌ c s) =
      (if leb 128 (code c) then unicode.is_digit (code c) else ascii_digit (code c)) && all_digits s

-- A number by its digits, the first one first.
unfoldable pub number : ℕ → List ℕ → ℕ
number n [] = n
number n (d ∷ ds) = number (n * 10 + d) ds

-- The most digits that `int` converts.
abbrev pub max_digits : ℕ
max_digits = 4300

unfoldable pub int_of_digits : List ℕ → Result ℤ
unfolding number
int_of_digits ds = if ltb max_digits (length ds) then err value_error else ok (pos (number 0 ds))

-- `int(value)` of a float cuts off what stands behind the point.
unfoldable pub int_of_float : Float → ℤ
int_of_float f = elim f.mantissa [
  | pos n ↦ pos (n / 2 ^ f.scale)
  | negsuc n ↦ let q = suc n / 2 ^ f.scale in elim q [ zero ↦ pos 0 | suc k ↦ negsuc k ]
]

module _ (unicode : Unicode) where
  -- `int(value)` of a text whose every character is a digit: a digit that is no decimal is refused.
  unfoldable pub int_of_text : String → Result ℤ
  unfolding decimals int_of_digits Text.size
  int_of_text s =
      let ds = decimals unicode s in
      if ltb (length ds) (Text.size s) then err value_error else int_of_digits ds

  -- `_wearout`
  unfoldable pub wearout_of : Value → Result (Option ℤ)
  unfolding Text.strip all_digits int_of_text int_of_float
  wearout_of (int n) = ok (some n)
  wearout_of (float f) = ok (some (int_of_float f))
  wearout_of (str s) =
      let text = Text.strip s in
      if nonempty text && all_digits unicode text
      then elim (int_of_text text) [ ok n ↦ ok (some n) | err e ↦ err e ]
      else ok none
  wearout_of _ = ok none

  -- `re.match(r"\s*(\d+)", …)` and the `int` of its group
  unfoldable pub match_int : List ℕ → Result (Option ℤ)
  unfolding int_of_digits
  match_int [] = ok none
  match_int (d ∷ ds) = elim (int_of_digits (d ∷ ds)) [ ok n ↦ ok (some n) | err e ↦ err e ]

  unfoldable pub leading_int : Value → Result (Option ℤ)
  unfolding match_int decimals Text.lstrip Text.is_space Text.remove_char
  leading_int (int n) = ok (some n)
  leading_int (str s) =
      match_int (decimals unicode (Text.lstrip Text.is_space (Text.remove_char b',' s)))
  leading_int _ = ok none

-- The true division of integers rounds to a float: a parameter, which may raise OverflowError.
unfoldable pub used_fraction : (ℤ → ℤ → Result Float) → ZfsPool → Result (Option Float)
used_fraction divide pool =
    if ltb_ℤ (pos 0) pool.size
    then elim (divide pool.alloc pool.size) [ ok f ↦ ok (some f) | err e ↦ err e ]
    else ok none
