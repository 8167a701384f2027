-- ===== src/Mir/Compatible/Fuel.antt =====
-- The fuel of `types_compatible` is enough: the function satisfies the source's recursion.
use typenative.Prelude.{
  ℕ, zero, suc, ◌+◌, ◌≤◌, ◌<◌, Bool, true, String, if◌then◌else◌, ◌≡◌, refl, ap, ◌∙◌, arith,
}
use typenative.Hir.Types.{
  Ty, string, str, promise, optional, union, reference, Tys, nil, cons, ty_eq,
}
use typenative.Mir.Compatible.{
  size, sizes, any_expected, all_actual, all_pairs, string_compatible, str_compatible,
  reference_compatible, optional_compatible, promise_compatible, union_compatible, other_compatible,
  match_types, compatible_within, types_compatible,
}

size-pos : (t : Ty) → 0 < size t
unfolding size
size-pos (promise r e d) = omega arith
size-pos (optional t) = omega arith
size-pos (union ts) = omega arith
size-pos (reference m l t) = omega arith
size-pos t = omega arith

-- Two functions that agree below a size give the same match at that size.
module _ (r s : Ty → Ty → Bool) (k : ℕ)
    (agree : (a e : Ty) → size a + size e < k → r a e ≡ s a e) where
  any_cong : (a : Ty) (es : Tys) → size a + sizes es < k → any_expected r a es ≡ any_expected s a es
  unfolding any_expected size
  any_cong a nil h = refl
  any_cong a (cons e es) h = rw (agree a e (omega arith), any_cong a es (omega arith))

  all_cong : (as_ : Tys) (e : Ty) → sizes as_ + size e < k → all_actual r as_ e ≡ all_actual s as_ e
  unfolding all_actual size
  all_cong nil e h = refl
  all_cong (cons a as_) e h = rw (agree a e (omega arith), all_cong as_ e (omega arith))

  pairs_cong : (as_ es : Tys) → sizes as_ + sizes es < k → all_pairs r as_ es ≡ all_pairs s as_ es
  unfolding all_pairs size
  pairs_cong nil nil h = refl
  pairs_cong (cons a as_) (cons e es) h =
      rw (agree a e (omega arith), pairs_cong as_ es (omega arith))
  pairs_cong as_ es h = refl

  string_cong : (e : Ty) → size string + size e ≤ k → string_compatible r e ≡ string_compatible s e
  unfolding string_compatible size
  string_cong (union es) h = any_cong string es (omega arith)
  string_cong e h = refl

  str_cong : (e : Ty) → size str + size e ≤ k → str_compatible r e ≡ str_compatible s e
  unfolding str_compatible size
  str_cong (union es) h = any_cong str es (omega arith)
  str_cong e h = refl

  reference_cong :
      (m : Bool) (l : String) (a e : Ty)
      → size (reference m l a) + size e ≤ k
      → reference_compatible r m l a e ≡ reference_compatible s m l a e
  unfolding reference_compatible size
  reference_cong m l a (reference m' l' e) h = rw (agree a e (omega arith))
  reference_cong m l a (union es) h = any_cong (reference m l a) es (omega arith)
  reference_cong m l a e h = refl

  optional_cong :
      (a e : Ty)
      → size (optional a) + size e ≤ k
      → optional_compatible r a e ≡ optional_compatible s a e
  unfolding optional_compatible size
  optional_cong a (optional e) h = agree a e (omega arith)
  optional_cong a (union es) h = any_cong (optional a) es (omega arith)
  optional_cong a e h = refl

  promise_cong :
      (w a e : Ty)
      → size w ≡ suc (size a)
      → size w + size e ≤ k
      → promise_compatible r w a e ≡ promise_compatible s w a e
  unfolding promise_compatible size
  promise_cong w a (promise e e' d) q h = agree a e (omega arith)
  promise_cong w a (union es) q h = any_cong w es (omega arith)
  promise_cong w a e q h = refl

  union_cong :
      (as_ : Tys) (e : Ty)
      → size (union as_) + size e ≤ k
      → union_compatible r as_ e ≡ union_compatible s as_ e
  unfolding union_compatible size
  union_cong as_ (union es) h = pairs_cong as_ es (omega arith)
  union_cong as_ e h = all_cong as_ e (omega arith)

  other_cong : (a e : Ty) → size a + size e ≤ k → other_compatible r a e ≡ other_compatible s a e
  unfolding other_compatible size
  other_cong a (union es) h = any_cong a es (omega arith)
  other_cong a e h = refl

  match_cong : (a e : Ty) → size a + size e ≤ k → match_types r a e ≡ match_types s a e
  unfolding match_types
  match_cong string e h = string_cong e h
  match_cong str e h = str_cong e h
  match_cong (reference m l a) e h = reference_cong m l a e h
  match_cong (optional a) e h = optional_cong a e h
  match_cong (promise a e' d) e h = promise_cong (promise a e' d) a e (unfold size in refl) h
  match_cong (union as_) e h = union_cong as_ e h
  match_cong a e h = other_cong a e h

compatible_within-enough :
    (n m : ℕ) (a e : Ty)
    → size a + size e ≤ n
    → size a + size e ≤ m
    → compatible_within n a e ≡ compatible_within m a e
unfolding compatible_within
compatible_within-enough zero m a e h k = absurd (omega (arith, size-pos a))
compatible_within-enough (suc n) zero a e h k = absurd (omega (arith, size-pos a))
compatible_within-enough (suc n) (suc m) a e h k =
    ap (λ b. if ty_eq a e then true else b)
      (match_cong (compatible_within n) (compatible_within m) (size a + size e)
        (λ a' e' lt. compatible_within-enough n m a' e' (omega arith) (omega arith)) a e
        (omega arith))

-- `types_compatible` satisfies the recursion that the source writes: two equal types are
-- compatible, and others as the match on their forms says, with the recursive calls on the parts.
pub types_compatible_lem :
    (a e : Ty)
    → types_compatible a e ≡ (if ty_eq a e then true else match_types types_compatible a e)
unfolding types_compatible compatible_within
types_compatible_lem a e =
    let k = size a + size e in
    compatible_within-enough k (suc k) a e (omega arith) (omega arith)
    ∙ ap (λ b. if ty_eq a e then true else b)
        (match_cong (compatible_within k) types_compatible k
          (λ a' e' lt.
            compatible_within-enough k (size a' + size e') a' e' (omega arith) (omega arith))
          a e (omega arith))
