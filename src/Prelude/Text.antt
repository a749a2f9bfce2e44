-- ===== src/Prelude/Text.antt =====
-- Python's `str` methods that the client uses, over the code points of a text.
pub mod Joined
use Prim.Native.Char.{code}
use Prim.Native.String
use Prim.Native.String.{String, [], ◌∷◌}
use mathlib.Core.Path.{◌≡◌, refl}
use mathlib.Core.Bool.{Bool, true, false, ◌&&◌, ◌||◌}
use mathlib.Core.List.{List}
use mathlib.Core.Option.{Option, none, some}
use text.Mathlib.Text.{◌==◌ as str_eq, find?}
use aioproxmox.Prelude.Tests.{leb, ◌==◌, if◌then◌else◌, is_some}
use aioproxmox.Prelude.Int.{ℤ, pos, negsuc}
use Prim.Native.Nat.{ℕ, zero, suc, ◌-◌, ◌/◌, ◌%◌}

infixr 65 ◌+++◌
-- Concatenation, `f"{s}{t}"`.
abbrev pub ◌+++◌ : String → String → String
s +++ t = String.◌++◌ s t

abbrev digit : ℕ → String
digit zero = "0"
digit (suc zero) = "1"
digit (suc (suc zero)) = "2"
digit (suc (suc (suc zero))) = "3"
digit (suc (suc (suc (suc zero)))) = "4"
digit (suc (suc (suc (suc (suc zero))))) = "5"
digit (suc (suc (suc (suc (suc (suc zero)))))) = "6"
digit (suc (suc (suc (suc (suc (suc (suc zero))))))) = "7"
digit (suc (suc (suc (suc (suc (suc (suc (suc zero)))))))) = "8"
digit _ = "9"

-- The decimal digits of a number in front of `acc`. The fuel is above the number of digits.
decimal : ℕ → ℕ → String → String
decimal zero n acc = acc
decimal (suc fuel) n acc =
    let here = digit (n % 10) +++ acc in
    let rest = decimal fuel (n / 10) here in if n / 10 == 0 then here else rest

-- `str(n)` of a number and of an integer.
unfoldable pub str_ℕ : ℕ → String
unfolding decimal
str_ℕ n = decimal (suc n) n ""

unfoldable pub str_ℤ : ℤ → String
unfolding str_ℕ
str_ℤ (pos n) = str_ℕ n
str_ℤ (negsuc n) = "-" +++ str_ℕ (suc n)

unfoldable pub str_Bool : Bool → String
str_Bool true = "True"
str_Bool false = "False"

-- `s.lstrip(chars)` and `s.rstrip(chars)`, the characters given by a test on code points.
unfoldable pub lstrip : (ℕ → Bool) → String → String
lstrip p [] = []
lstrip p (c ∷ s) = let rest = lstrip p s in if p (code c) then rest else c ∷ s

unfoldable pub rstrip : (ℕ → Bool) → String → String
rstrip p [] = []
rstrip p (c ∷ s) = let rest = rstrip p s in if p (code c) && str_eq rest "" then "" else c ∷ rest

abbrev pub is_slash : ℕ → Bool
is_slash n = n == b'/'

-- The code points for which `str.isspace` holds, which `strip()` takes off.
unfoldable pub is_space : ℕ → Bool
is_space n =
    (leb 9 n && leb n 13)
    || (leb 28 n && leb n 32)
    || n == 133
    || n == 160
    || n == 5760
    || (leb 8192 n && leb n 8202)
    || n == 8232
    || n == 8233
    || n == 8239
    || n == 8287
    || n == 12288

unfoldable pub strip : String → String
unfolding lstrip rstrip is_space
strip s = rstrip is_space (lstrip is_space s)

-- `s.replace(c, "")` for one character `c`.
unfoldable pub remove_char : ℕ → String → String
remove_char n [] = []
remove_char n (c ∷ s) = let rest = remove_char n s in if code c == n then rest else c ∷ rest

-- `t in s`
unfoldable pub has_text : String → String → Bool
has_text s t = is_some (find? s t)

-- `s.split(sep)` at one character.
split_from : ℕ → String → String → List String
split_from sep cur [] = List.◌∷◌ cur List.[]
split_from sep cur (c ∷ s) = elim (code c == sep) [
  | true ↦ List.◌∷◌ cur (split_from sep "" s)
  | false ↦ split_from sep (cur +++ (c ∷ "")) s
]

unfoldable pub split : ℕ → String → List String
unfolding split_from
split sep s = split_from sep "" s

-- `s.split(sep, 1)[0]`: what stands before the first separator.
unfoldable pub before : ℕ → String → String
before sep [] = []
before sep (c ∷ s) = let rest = before sep s in if code c == sep then "" else c ∷ rest

-- Whether a character stands in a text.
unfoldable pub has_char : ℕ → String → Bool
has_char n [] = false
has_char n (c ∷ s) = code c == n || has_char n s

-- `s.upper() == t` for an upper-case ASCII text `t`: the letters agree up to case.
abbrev upper_code : ℕ → ℕ
upper_code n = if leb b'a' n && leb n b'z' then n - 32 else n

unfoldable pub eq_upper : String → String → Bool
eq_upper [] [] = true
eq_upper [] (d ∷ t) = false
eq_upper (c ∷ s) [] = false
eq_upper (c ∷ s) (d ∷ t) = upper_code (code c) == code d && eq_upper s t

-- `s.rpartition("/")[0]`: what stands before the last slash, nothing where there is none.
unfoldable pub before_last_slash : String → String
unfolding has_char
before_last_slash [] = []
before_last_slash (c ∷ s) =
    let rest = before_last_slash s in if has_char b'/' s then c ∷ rest else ""

str_tests :
    (str_ℕ 8006 ≡ "8006")
    × (str_ℤ (negsuc 0) ≡ "-1")
    × (rstrip is_slash "json//" ≡ "json")
    × (lstrip is_slash "//a/b" ≡ "a/b")
    × (strip " a b\n" ≡ "a b")
    × (before b':' "pve:8006" ≡ "pve")
    × (eq_upper "Get" "GET" ≡ true)
    × (before_last_slash "/vms/101" ≡ "/vms")
    × (before_last_slash "/" ≡ "")
unfolding str_ℤ rstrip lstrip strip before eq_upper before_last_slash
str_tests = (refl, refl, refl, refl, refl, refl, refl, refl, refl)

-- `s.startswith("[")`
unfoldable pub starts_bracket : String → Bool
starts_bracket [] = false
starts_bracket (c ∷ s) = code c == b'['

-- Whether a text stands at the front of another.
unfoldable pub is_prefix : String → String → Bool
is_prefix [] s = true
is_prefix (d ∷ t) [] = false
is_prefix (d ∷ t) (c ∷ s) = code c == code d && is_prefix t s

-- What stands behind a text at the front of another.
unfoldable pub behind : String → String → Option String
behind [] s = some s
behind (d ∷ t) [] = none
behind (d ∷ t) (c ∷ s) = elim (str_eq (c ∷ "") (d ∷ "")) [ true ↦ behind t s | false ↦ none ]

-- `s.partition(sep)[2]` of one character: what stands behind the first separator.
unfoldable pub after : ℕ → String → String
after sep [] = []
after sep (c ∷ s) = let rest = after sep s in if code c == sep then s else rest

-- The number of code points.
unfoldable pub size : String → ℕ
size [] = 0
size (c ∷ s) = suc (size s)

-- `skip` code points of a replaced occurrence are still to be passed over.
replace_from : String → String → ℕ → String → String
unfolding is_prefix size
replace_from old new skip [] = []
replace_from old new (suc skip) (c ∷ s) = replace_from old new skip s
replace_from old new zero (c ∷ s) = elim (is_prefix old (c ∷ s)) [
  | true ↦ new +++ replace_from old new (size old - 1) s
  | false ↦ c ∷ replace_from old new zero s
]

-- `s.replace(old, new)` where `old` is not empty.
unfoldable pub replace : String → String → String → String
unfolding replace_from
replace old new s = replace_from old new zero s

-- `s[1:-1]` where `s` starts with `{` and ends with `}`, none where it does not.
ending : String → Option String
ending [] = none
ending (c ∷ []) = if code c == b'}' then some "" else none
ending (c ∷ s) = elim (ending s) [ none ↦ none | some t ↦ some (c ∷ t) ]

unfoldable pub placeholder : String → Option String
unfolding ending
placeholder [] = none
placeholder (c ∷ s) = if code c == b'{' then ending s else none

-- `sep.join(parts)`
unfoldable pub join : String → List String → String
join sep List.[] = ""
join sep (List.◌∷◌ x List.[]) = x
join sep (List.◌∷◌ x (List.◌∷◌ y ys)) = x +++ sep +++ join sep (List.◌∷◌ y ys)

path_tests :
    (replace "{vmid}" "101" "/vms/{vmid}" ≡ "/vms/101")
    × (placeholder "{node}" ≡ some "node")
    × (placeholder "{node" ≡ none)
    × (placeholder "nodes" ≡ none)
    × (join "," (List.◌∷◌ "a" (List.◌∷◌ "b" List.[])) ≡ "a,b")
unfolding replace placeholder join
path_tests = (refl, refl, refl, refl, refl)

-- Where a text first stands in another, by the number of code points before it.
unfoldable pub index : String → String → Option ℕ
unfolding is_prefix
index t [] = if str_eq t "" then some 0 else none
index t (c ∷ s) = elim (is_prefix t (c ∷ s)) [
  | true ↦ some 0
  | false ↦ elim (index t s) [ none ↦ none | some i ↦ some (suc i) ]
]

-- `s[:n]` and `s[n:]`
unfoldable pub take : ℕ → String → String
take zero s = ""
take (suc n) [] = ""
take (suc n) (c ∷ s) = c ∷ take n s

unfoldable pub drop : ℕ → String → String
drop zero s = s
drop (suc n) [] = ""
drop (suc n) (c ∷ s) = drop n s
