-- ===== src/Prelude/Sets.antt =====
-- `BTreeSet` over a numeric key: an increasing list. A key that is in the set is not added again.
use Prim.Native.Nat.{ℕ, suc, ◌+◌, ◌≤◌, ◌<◌}
use mathlib.Core.Path.{◌≡◌, refl, ap}
use mathlib.Core.Logic.{◌⊎◌, inl, inr, ◌↔◌}
use mathlib.Core.Bool.{Bool, true, false, not, ◌&&◌, ◌||◌}
use mathlib.Core.List.{List, [], ◌∷◌}
use native.Mathlib.Omega.{arith}
use typenative.Prelude.Tests.{ltb, ◌==◌, if◌then◌else◌, ==_iff, Bool-cases}
use typenative.Prelude.Lists.{length}

abbrev pub NatSet : Type 0
NatSet = List ℕ

unfoldable pub contains : ℕ → NatSet → Bool
contains k [] = false
contains k (x ∷ s) = k == x || contains k s

-- The key stands in the list.
abbrev pub Among : ℕ → List ℕ → Type 0
Among k [] = ⊥
Among k (x ∷ s) = (k ≡ x) ⊎ Among k s

pub contains_iff : (k : ℕ) (s : List ℕ) → (contains k s ≡ true) ↔ Among k s
unfolding contains
contains_iff k [] = (λ h. cc (h), λ h. absurd h)
contains_iff k (x ∷ s) = ground (arith, contains_iff k s)

pub Among-false : (k : ℕ) (s : List ℕ) → contains k s ≡ false → ¬ Among k s
Among-false k s h m = cc (h, (contains_iff k s).1 m)

unfoldable pub insert : ℕ → NatSet → NatSet
insert k [] = k ∷ []
insert k (x ∷ s) = if k == x then x ∷ s else if ltb k x then k ∷ x ∷ s else x ∷ insert k s

unfoldable pub remove : ℕ → NatSet → NatSet
remove k [] = []
remove k (x ∷ s) = if k == x then remove k s else x ∷ remove k s

-- `s.intersection(t)`
unfoldable pub intersection : NatSet → NatSet → NatSet
intersection [] t = []
intersection (x ∷ s) t = if contains x t then x ∷ intersection s t else intersection s t

unfoldable pub set_eq : NatSet → NatSet → Bool
set_eq [] [] = true
set_eq (x ∷ s) (y ∷ t) = x == y && set_eq s t
set_eq s t = false

-- Every key of `s` is one of `t`.
abbrev pub Subset : NatSet → NatSet → Type 0
Subset s t = (k : ℕ) → contains k s ≡ true → contains k t ≡ true

pub contains-insert : (k j : ℕ) (s : NatSet) → contains j (insert k s) ≡ (j == k || contains j s)
unfolding contains insert
contains-insert k j [] = refl
contains-insert k j (x ∷ s) = ground (arith, contains-insert k j s)

pub contains-remove :
    (k j : ℕ) (s : NatSet) → contains j (remove k s) ≡ (not (j == k) && contains j s)
unfolding contains remove
contains-remove k j [] = ground arith
contains-remove k j (x ∷ s) = ground (arith, contains-remove k j s)

contains_of_eq : (j x : ℕ) (t : NatSet) → (j == x) ≡ true → contains j t ≡ contains x t
contains_of_eq j x t h = ap (λ k. contains k t) ((==_iff j x).0 h)

pub contains-intersection :
    (j : ℕ) (s t : NatSet) → contains j (intersection s t) ≡ (contains j s && contains j t)
unfolding contains intersection
contains-intersection j [] t = refl
contains-intersection j (x ∷ s) t =
    ground (arith, contains-intersection j s t, contains_of_eq j x t)

pub length-intersection : (s t : NatSet) → length (intersection s t) ≤ length s
unfolding intersection
length-intersection [] t = omega arith
length-intersection (x ∷ s) t = ground (arith, length-intersection s t)

-- An intersection that keeps every key is the set itself; any other is shorter.
pub intersection-shrinks :
    (s t : NatSet)
    → (set_eq s (intersection s t) ≡ true) ⊎ (suc (length (intersection s t)) ≤ length s)
unfolding intersection set_eq
intersection-shrinks [] t = inl refl
intersection-shrinks (x ∷ s) t = ground (arith, length-intersection s t, intersection-shrinks s t)

pub set_eq_sound : (s t : NatSet) → set_eq s t ≡ true → s ≡ t
unfolding set_eq
set_eq_sound [] [] h = refl
set_eq_sound (x ∷ s) (y ∷ t) h = ground (arith, set_eq_sound s t)
set_eq_sound s t h = cc

pub Subset-refl : (s : NatSet) → Subset s s
Subset-refl s k h = h

pub Subset-trans : (s t u : NatSet) → Subset s t → Subset t u → Subset s u
Subset-trans s t u f g k h = g k (f k h)

pub Subset-insert : (k : ℕ) (s t : NatSet) → Subset s t → Subset (insert k s) (insert k t)
Subset-insert k s t f j h = ground (arith, contains-insert k j s, contains-insert k j t, f j)

pub Subset-remove : (k : ℕ) (s t : NatSet) → Subset s t → Subset (remove k s) (remove k t)
Subset-remove k s t f j h = ground (arith, contains-remove k j s, contains-remove k j t, f j)

pub Subset-intersection_left : (s t : NatSet) → Subset (intersection s t) s
Subset-intersection_left s t j h = ground (arith, contains-intersection j s t)

pub Subset-intersection_right : (s t : NatSet) → Subset (intersection s t) t
Subset-intersection_right s t j h = ground (arith, contains-intersection j s t)

-- An increasing list of keys from `lo` on and below `k`.
abbrev pub Within : ℕ → ℕ → NatSet → Type 0
Within lo k [] = lo ≤ k
Within lo k (x ∷ s) = (lo ≤ x) × Within (suc x) k s

pub length-Within : (lo k : ℕ) (s : NatSet) → Within lo k s → length s + lo ≤ k
length-Within lo k [] h = omega arith
length-Within lo k (x ∷ s) h = omega (arith, length-Within (suc x) k s h.1)

pub Within-lower : (lo lo' k : ℕ) (s : NatSet) → lo ≤ lo' → Within lo' k s → Within lo k s
Within-lower lo lo' k [] l h = omega arith
Within-lower lo lo' k (x ∷ s) l h = (omega arith, h.1)

pub insert-Within :
    (lo k x : ℕ) (s : NatSet) → lo ≤ x → x < k → Within lo k s → Within lo k (insert x s)
unfolding insert
insert-Within lo k x [] l b h = (l, b)
insert-Within lo k x (y ∷ s) l b h = ground (arith, insert-Within (suc y) k x s)

pub remove-Within : (lo k x : ℕ) (s : NatSet) → Within lo k s → Within lo k (remove x s)
unfolding remove
remove-Within lo k x [] h = h
remove-Within lo k x (y ∷ s) h = elim (Bool-cases (x == y)) [
  | inl e ↦
      rw e (Within-lower lo (suc y) k (remove x s) (omega arith) (remove-Within (suc y) k x s h.1))
  | inr d ↦ rw d (h.0, remove-Within (suc y) k x s h.1)
]

pub intersection-Within : (lo k : ℕ) (s t : NatSet) → Within lo k s → Within lo k (intersection s t)
unfolding intersection
intersection-Within lo k [] t h = h
intersection-Within lo k (y ∷ s) t h = elim (Bool-cases (contains y t)) [
  | inl e ↦ rw e (h.0, intersection-Within (suc y) k s t h.1)
  | inr d ↦ rw d (
      Within-lower lo (suc y) k (intersection s t) (omega arith)
        (intersection-Within (suc y) k s t h.1))
]
