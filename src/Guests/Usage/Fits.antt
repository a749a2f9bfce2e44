-- ===== src/Guests/Usage/Fits.antt =====
-- What `guest_disk_usage` of aioproxmox/model/guest.py answers.
use aioproxmox.Prelude.{
  ℤ, String, ◌≡◌, refl, sym, ap, is_some, Bool, true, false, not, ◌&&◌, ◌||◌, Option, none, some,
  List, [], ◌∷◌, arith, str_eq, eq_iff,
}
use aioproxmox.Prelude.Int.{ltb_ℤ, +ℤ_parts}
use aioproxmox.Prelude.Dict
use aioproxmox.Prelude.Dict.{Dict, has_key}
use aioproxmox.Value.{Value}
use aioproxmox.Model.Guests.{GuestFilesystem}
use aioproxmox.Guests.Usage.{
  device, or_zero, raise_to, raise_known, Usage, no_usage, no_disk, count_used, sum, keys_in,
  figures, count, count_all, guest_disk_usage,
}

abbrev pub figures_fit : Option ℤ → Option ℤ → Bool
figures_fit none total = true
figures_fit (some used) none = false
figures_fit (some used) (some total) = not (ltb_ℤ total used)

-- A filesystem that counts says how large it is, and uses no more than that.
abbrev pub fits : GuestFilesystem → Bool
fits filesystem = no_disk filesystem || figures_fit filesystem.used_bytes filesystem.total_bytes

abbrev pub all_fit : List GuestFilesystem → Bool
all_fit [] = true
all_fit (filesystem ∷ rest) = fits filesystem && all_fit rest

-- The same devices in the same order, each with no more used than there is.
abbrev within : Dict ℤ → Dict ℤ → Bool
within [] [] = true
within ((j, used) ∷ d) ((k, total) ∷ e) = str_eq j k && (not (ltb_ℤ total used) && within d e)
within _ _ = false

within-insert :
    (key : String) (m n : ℤ) (d e : Dict ℤ)
    → ltb_ℤ n m ≡ false
    → within d e ≡ true
    → within (Dict.insert key m d) (Dict.insert key n e) ≡ true
unfolding Dict.insert
within-insert key m n [] [] h w = ground (arith, eq_iff key key)
within-insert key m n [] (q ∷ e) h w = absurd (ground arith)
within-insert key m n (p ∷ d) [] h w = absurd (ground arith)
within-insert key m n ((j, used) ∷ d) ((k, total) ∷ e) h w =
    ground (arith, eq_iff j k, within-insert key m n d e)

within-lookup :
    (key : String) (d e : Dict ℤ)
    → within d e ≡ true
    → (ltb_ℤ (or_zero (Dict.lookup key e)) (or_zero (Dict.lookup key d)) ≡ false)
      × (has_key key d ≡ has_key key e)
unfolding Dict.lookup
within-lookup key [] [] w = (refl, refl)
within-lookup key [] (q ∷ e) w = absurd (ground arith)
within-lookup key (p ∷ d) [] w = absurd (ground arith)
within-lookup key ((j, used) ∷ d) ((k, total) ∷ e) w =
    let rest = within-lookup key d e in
    (ground (arith, eq_iff j k, rest), ground (arith, eq_iff j k, rest))

within-raise_to :
    (key : String) (used total : ℤ) (d e : Dict ℤ)
    → ltb_ℤ total used ≡ false
    → within d e ≡ true
    → within (raise_to key used d) (raise_to key total e) ≡ true
unfolding raise_to
within-raise_to key used total d e h w =
    let (below, same) = within-lookup key d e w in
    within-insert key _ _ d e (ground (arith, below)) w

within-sum : (d e : Dict ℤ) → within d e ≡ true → ltb_ℤ (sum e) (sum d) ≡ false
unfolding sum
within-sum [] [] w = refl
within-sum [] (q ∷ e) w = absurd (ground arith)
within-sum (p ∷ d) [] w = absurd (ground arith)
within-sum ((j, used) ∷ d) ((k, total) ∷ e) w =
    ground (arith, within-sum d e, +ℤ_parts used (sum d), +ℤ_parts total (sum e))

keys_in-all :
    (d e : Dict ℤ)
    → ((key : String) → has_key key d ≡ true → has_key key e ≡ true)
    → keys_in d e ≡ true
unfolding keys_in Dict.lookup
keys_in-all [] e h = refl
keys_in-all ((j, n) ∷ d) e h =
    let here : has_key j e ≡ true = h j (ground (arith, eq_iff j j)) in
    let rest : keys_in d e ≡ true = keys_in-all d e (λ key k. h key (ground (arith, k))) in
    ground arith

within-count_used :
    (key : String) (used total : Option ℤ) (u : Usage)
    → figures_fit used total ≡ true
    → within u.used u.total ≡ true
    → within (count_used key used total u).used (count_used key used total u).total ≡ true
unfolding count_used raise_known
within-count_used key none total u f w = w
within-count_used key (some used) none u f w = absurd (ground arith)
within-count_used key (some used) (some total) u f w =
    within-raise_to key used total u.used u.total (ground arith) w

figures-within :
    (d e : Dict ℤ) (used : ℤ) (total : Option ℤ)
    → within d e ≡ true
    → figures (record { used = d; total = e }) ≡ (some used, total)
    → (n : ℤ) × (total ≡ some n) × (ltb_ℤ n used ≡ false)
unfolding figures
figures-within [] e used total w h = absurd (ground (arith, ap (λ p. is_some p.0) h))
figures-within (entry ∷ d) e used total w h =
    let there : keys_in (entry ∷ d) e ≡ true =
      keys_in-all (entry ∷ d) e (λ key k. ground (arith, within-lookup key (entry ∷ d) e w, k)) in
    let back : keys_in e (entry ∷ d) ≡ true =
      keys_in-all e (entry ∷ d) (λ key k. ground (arith, within-lookup key (entry ∷ d) e w, k)) in
    let is_used : some (sum (entry ∷ d)) ≡ some used = ap (λ p. p.0) h in
    let is_total : some (sum e) ≡ total = ground (arith, ap (λ p. p.1) h) in
    (sum e, sym is_total, ground (arith, within-sum (entry ∷ d) e w))

module _ (repr : Value → String) where
  within-count :
      (filesystem : GuestFilesystem) (u : Usage)
      → fits filesystem ≡ true
      → within u.used u.total ≡ true
      → within (count repr filesystem u).used (count repr filesystem u).total ≡ true
  unfolding count
  within-count filesystem u f w = ground (
    arith,
    within-count_used (device repr filesystem) filesystem.used_bytes filesystem.total_bytes u,
    w,
  )

  within-count_all :
      (filesystems : List GuestFilesystem) (u : Usage)
      → all_fit filesystems ≡ true
      → within u.used u.total ≡ true
      → within (count_all repr filesystems u).used (count_all repr filesystems u).total ≡ true
  unfolding count_all
  within-count_all [] u f w = w
  within-count_all (filesystem ∷ rest) u f w =
      within-count_all rest (count repr filesystem u) (ground arith)
        (within-count filesystem u (ground arith) w)

  -- Where every filesystem with a used figure has a total that is no smaller, the guest's total is given
  -- whenever its used figure is, and the used figure does not pass it.
  pub guest_disk_usage-all_fit :
      (filesystems : List GuestFilesystem) (used : ℤ) (total : Option ℤ)
      → all_fit filesystems ≡ true
      → guest_disk_usage repr filesystems ≡ (some used, total)
      → (n : ℤ) × (total ≡ some n) × (ltb_ℤ n used ≡ false)
  unfolding guest_disk_usage
  guest_disk_usage-all_fit filesystems used total f e =
      let u = count_all repr filesystems no_usage in
      figures-within u.used u.total used total (within-count_all filesystems no_usage f refl) e
