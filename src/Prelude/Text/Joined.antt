-- ===== src/Prelude/Text/Joined.antt =====
-- What Python's `str` methods make of a concatenation.
use text.Mathlib.TextLemmas.{nil-append, cons-append, append_assoc, append-nil, cons≢nil}
use Prim.Native.Char.{Char}
use Prim.Native.Nat.{ℕ, zero, suc, ◌/◌, ◌%◌}
use Prim.Native.String.{String, [], ◌∷◌}
use mathlib.Core.Path.{◌≡◌, refl, sym, ap, ◌∙◌}
use mathlib.Core.Logic.{inl, inr}
use mathlib.Core.Bool.{Bool, true, false, ◌||◌}
use mathlib.Core.List.{List}
use native.Mathlib.Omega.{arith}
use text.Mathlib.Text.{◌==◌ as str_eq}
use text.Mathlib.TextEquality.{eq_iff}
use aioproxmox.Prelude.Tests.{nonempty, Bool-cases}
use aioproxmox.Prelude.Int.{ℤ, pos, negsuc}
use aioproxmox.Prelude.Text.{
  ◌+++◌, digit, decimal, str_ℕ, str_ℤ, rstrip, drop, size, has_char, split_from, split,
}

-- One text in front of another, character by character.
abbrev pub in_front : String → String → String
in_front [] t = t
in_front (c ∷ s) t = c ∷ in_front s t

pub in_front_lem : (s t : String) → in_front s t ≡ s +++ t
in_front_lem [] t = sym (nil-append t)
in_front_lem (c ∷ s) t = ap (λ u. c ∷ u) (in_front_lem s t) ∙ sym (cons-append c s t)

pub nonempty-append : (s t : String) → nonempty t ≡ true → nonempty (s +++ t) ≡ true
nonempty-append [] t h = ap nonempty (nil-append t) ∙ h
nonempty-append (c ∷ s) t h = ap nonempty (cons-append c s t)

nonempty-str_eq : (s : String) → nonempty s ≡ true → str_eq s "" ≡ false
nonempty-str_eq [] h = absurd (cc)
nonempty-str_eq (c ∷ s) h = elim (Bool-cases (str_eq (c ∷ s) "")) [
  | inl same ↦ absurd (cons≢nil ((eq_iff (c ∷ s) "").0 same))
  | inr other ↦ other
]

-- A text is not stripped where it ends in one that is not.
pub rstrip-append :
    (p : ℕ → Bool) (s t : String)
    → nonempty t ≡ true
    → rstrip p t ≡ t
    → rstrip p (s +++ t) ≡ s +++ t
unfolding rstrip
rstrip-append p [] t n e = rw (nil-append t) e
rstrip-append p (c ∷ s) t n e =
    let rest = rstrip-append p s t n e in
    let there = nonempty-str_eq (s +++ t) (nonempty-append s t n) in
    rw (cons-append c s t) (ground (arith, rest, there))

pub drop-append : (s t : String) → drop (size s) (s +++ t) ≡ t
unfolding drop size
drop-append [] t = nil-append t
drop-append (c ∷ s) t = ap (drop (suc (size s))) (cons-append c s t) ∙ drop-append s t

pub has_char-append : (n : ℕ) (s t : String) → has_char n (s +++ t) ≡ has_char n s || has_char n t
unfolding has_char
has_char-append n [] t = ap (has_char n) (nil-append t)
has_char-append n (c ∷ s) t =
    ap (has_char n) (cons-append c s t) ∙ ground (arith, has_char-append n s t)

digit-slash : (n : ℕ) → has_char b'/' (digit n) ≡ false
unfolding has_char
digit-slash zero = refl
digit-slash (suc zero) = refl
digit-slash (suc (suc zero)) = refl
digit-slash (suc (suc (suc zero))) = refl
digit-slash (suc (suc (suc (suc zero)))) = refl
digit-slash (suc (suc (suc (suc (suc zero))))) = refl
digit-slash (suc (suc (suc (suc (suc (suc zero)))))) = refl
digit-slash (suc (suc (suc (suc (suc (suc (suc zero))))))) = refl
digit-slash (suc (suc (suc (suc (suc (suc (suc (suc zero)))))))) = refl
digit-slash (suc (suc (suc (suc (suc (suc (suc (suc (suc n))))))))) = refl

decimal-slash :
    (fuel n : ℕ) (acc : String)
    → has_char b'/' acc ≡ false
    → has_char b'/' (decimal fuel n acc) ≡ false
unfolding decimal
decimal-slash zero n acc h = h
decimal-slash (suc fuel) n acc h =
    let here : has_char b'/' (digit (n % 10) +++ acc) ≡ false =
      has_char-append b'/' (digit (n % 10)) acc ∙ ground (arith, digit-slash (n % 10), h) in
    let rest = decimal-slash fuel (n / 10) (digit (n % 10) +++ acc) here in
    ground (arith, here, rest)

-- A number is written without a slash.
pub str_ℤ-slash : (n : ℤ) → has_char b'/' (str_ℤ n) ≡ false
unfolding str_ℤ has_char
str_ℤ-slash (pos n) = decimal-slash (suc n) n "" refl
str_ℤ-slash (negsuc n) =
    has_char-append b'/' "-" (str_ℕ (suc n))
    ∙ ground (arith, decimal-slash (suc (suc n)) (suc n) "" refl)

-- Taking the next character over.
moved_over : (cur : String) (c : Char) (s : String) → (cur +++ (c ∷ "")) +++ s ≡ cur +++ (c ∷ s)
moved_over cur c s =
    append_assoc cur (c ∷ "") s
    ∙ ap (λ u. cur +++ u) (cons-append c "" s ∙ ap (λ u. c ∷ u) (nil-append s))

split_from-append :
    (cur s t : String)
    → has_char b'/' s ≡ false
    → split_from b'/' cur (s +++ "/" +++ t) ≡ List.◌∷◌ (cur +++ s) (split_from b'/' "" t)
unfolding split_from has_char
split_from-append cur [] t h =
    ap (split_from b'/' cur)
      (nil-append ("/" +++ t) ∙ cons-append "/" "" t ∙ ap (λ u. "/" ∷ u) (nil-append t))
    ∙ ap (λ u. List.◌∷◌ u (split_from b'/' "" t)) (sym (append-nil cur))
split_from-append cur (c ∷ s) t h =
    ap (split_from b'/' cur) (cons-append c s ("/" +++ t))
    ∙ ground (arith, h, split_from-append (cur +++ (c ∷ "")) s t, moved_over cur c s)

split_from-whole :
    (cur s : String)
    → has_char b'/' s ≡ false
    → split_from b'/' cur s ≡ List.◌∷◌ (cur +++ s) List.[]
unfolding split_from has_char
split_from-whole cur [] h = ap (λ u. List.◌∷◌ u List.[]) (sym (append-nil cur))
split_from-whole cur (c ∷ s) h =
    ground (arith, h, split_from-whole (cur +++ (c ∷ "")) s, moved_over cur c s)

-- A path is split at the slashes between its segments.
pub split-append :
    (s t : String)
    → has_char b'/' s ≡ false
    → split b'/' (s +++ "/" +++ t) ≡ List.◌∷◌ s (split b'/' t)
unfolding split
split-append s t h =
    split_from-append "" s t h ∙ ap (λ u. List.◌∷◌ u (split_from b'/' "" t)) (nil-append s)

pub split_whole : (s : String) → has_char b'/' s ≡ false → split b'/' s ≡ List.◌∷◌ s List.[]
unfolding split
split_whole s h = split_from-whole "" s h ∙ ap (λ u. List.◌∷◌ u List.[]) (nil-append s)
