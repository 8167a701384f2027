-- ===== src/Mir/Validate/Monotone.antt =====
-- The functions of the validator are monotone: from more initialized locals they report no error
-- that they do not report from fewer, and what they return does not depend on the locals at all.
-- They keep the locals below a bound `b`, where the locals that they initialize are.
pub mod Rvalues
pub mod Terminators
use typenative.Prelude.{
  ◌<◌, inl, inr, Bool-cases, Within, insert-Within, remove-Within, ℕ, Bool, true, false, List, [],
  ◌∷◌, ◌++◌, Option, none, some, ◌≡◌, refl, ap, ◌∙◌, arith, if◌then◌else◌, ltb, length, get_elem?,
  ◌==◌, NatSet, contains, insert, remove, Subset, Subset-insert, Subset-remove, Subset-refl,
}
use mathlib.Core.Path.{subst}
use typenative.Mir.Syntax.{
  Projection, field, dereference, index, downcast, base_class, Place, Operand, copy, move, constant,
  constant_ty, Local,
}
use typenative.Hir.Types.{
  Ty, reference, raw_pointer, array, slice, nominal, optional, union, to_list, error_type,
  usize_type, ty_eq,
}
use typenative.Mir.Validate.Check.{
  MirValidationError, uninitialized_use, invalid_local, invalid_projection, to_u32, Check, M, ◌>>=◌,
  ◌>>◌, pure, skip, report, report_all, mark_initialized, unmark_initialized, report_unless,
  when_some, for_each, collect_some, push_some,
}
use typenative.Mir.Validate.Places.{
  check_local, dereferenced, indexed, based, downcasted, project, project_all, place_type_of,
  place_type, require_initialized, use_projection, use_place, operand_type, is_local, local_type,
}

pub record Mono (b : ℕ) {A : Type 0} (m : M A) : Type 0 where
  pub value : (c d : Check) → (m c).0 ≡ (m d).0
  pub grows : (c : Check) → (m c).1.errors ≡ [] → c.errors ≡ []
  pub keeps :
      (c d : Check)
      → Subset c.initialized d.initialized
      → d.errors ≡ []
      → (m c).1.errors ≡ []
      → Subset (m c).1.initialized (m d).1.initialized × ((m d).1.errors ≡ [])
  pub within : (c : Check) → Within 0 b c.initialized → Within 0 b (m c).1.initialized

pub Mono-pure : {b : ℕ} {A : Type 0} (a : A) → Mono b (pure a)
Mono-pure a = record {
  value = λ c d. refl;
  grows = λ c h. h;
  keeps = λ c d s ok h. (s, ok);
  within = λ c w. w;
}

-- A computation runs before another, which takes its value.
infixl 5 ◌⟫◌
pub ◌⟫◌ :
    {b : ℕ} {A B : Type 0} {m : M A} {f : A → M B}
    → Mono b m
    → ((a : A) → Mono b (f a))
    → Mono b (m >>= f)
◌⟫◌ {m} {f} h k = record {
  value = λ c d. (k (m c).0).value (m c).1 (m d).1 ∙ ap (λ a. (f a (m d).1).0) (h.value c d);
  grows = λ c e. h.grows c ((k (m c).0).grows (m c).1 e);
  keeps = λ c d s ok e.
      let (s', ok') = h.keeps c d s ok ((k (m c).0).grows (m c).1 e) in
      subst
        (λ a.
          Subset (f (m c).0 (m c).1).1.initialized (f a (m d).1).1.initialized
          × ((f a (m d).1).1.errors ≡ []))
        (h.value c d) ((k (m c).0).keeps (m c).1 (m d).1 s' ok' e);
  within = λ c w. (k (m c).0).within (m c).1 (h.within c w);
}

concat-ne-nil : {A : Type 0} (xs : List A) (x : A) → xs ++ x ∷ [] ≡ [] → ⊥
concat-ne-nil [] x h = cc
concat-ne-nil (y ∷ xs) x h = cc

append-eq-nil : {A : Type 0} (xs ys : List A) → xs ++ ys ≡ [] → (xs ≡ []) × (ys ≡ [])
append-eq-nil [] ys h = (refl, h)
append-eq-nil (x ∷ xs) ys h = absurd (cc)

pub Mono-report : {b : ℕ} (e : MirValidationError) → Mono b (report e)
unfolding report
Mono-report e = record {
  value = λ c d. refl;
  grows = λ c h. absurd (concat-ne-nil c.errors e h);
  keeps = λ c d s ok h. absurd (concat-ne-nil c.errors e h);
  within = λ c w. w;
}

pub Mono-report_all : {b : ℕ} (es : List MirValidationError) → Mono b (report_all es)
unfolding report_all
Mono-report_all es = record {
  value = λ c d. refl;
  grows = λ c h. (append-eq-nil c.errors es h).0;
  keeps = λ c d s ok h. (s, ap (λ xs. xs ++ es) ok ∙ (append-eq-nil c.errors es h).1);
  within = λ c w. w;
}

pub Mono-mark : {b : ℕ} (l : ℕ) → l < b → Mono b (mark_initialized l)
unfolding mark_initialized
Mono-mark {b} l below = record {
  value = λ c d. refl;
  grows = λ c h. h;
  keeps = λ c d s ok h. (Subset-insert l c.initialized d.initialized s, ok);
  within = λ c w. insert-Within 0 b l c.initialized (omega arith) below w;
}

pub Mono-unmark : {b : ℕ} (l : ℕ) → Mono b (unmark_initialized l)
unfolding unmark_initialized
Mono-unmark {b} l = record {
  value = λ c d. refl;
  grows = λ c h. h;
  keeps = λ c d s ok h. (Subset-remove l c.initialized d.initialized s, ok);
  within = λ c w. remove-Within 0 b l c.initialized w;
}

pub Mono-report_unless : {b : ℕ} (t : Bool) (e : MirValidationError) → Mono b (report_unless t e)
unfolding report_unless
Mono-report_unless true e = Mono-pure tt
Mono-report_unless false e = Mono-report e

pub Mono-if :
    {b : ℕ} {A : Type 0} (t : Bool) {m k : M A} → Mono b m → Mono b k → Mono b (if t then m else k)
Mono-if true h k = h
Mono-if false h k = k

pub Mono-when_some :
    {b : ℕ} {A : Type 0} (o : Option A) {k : A → M (Unit {0})}
    → ((a : A) → Mono b (k a))
    → Mono b (when_some o k)
Mono-when_some none h = Mono-pure tt
Mono-when_some (some a) h = h a

pub Mono-for_each :
    {b : ℕ} {A : Type 0} (xs : List A) {k : A → M (Unit {0})}
    → ((a : A) → Mono b (k a))
    → Mono b (for_each xs k)
unfolding for_each
Mono-for_each [] h = Mono-pure tt
Mono-for_each (x ∷ xs) h = h x ⟫ λ _. Mono-for_each xs h

pub Mono-collect_some :
    {b : ℕ} {A C : Type 0} (xs : List A) {k : A → M (Option C)}
    → ((a : A) → Mono b (k a))
    → Mono b (collect_some xs k)
unfolding collect_some
Mono-collect_some [] h = Mono-pure []
Mono-collect_some (x ∷ xs) h =
    h x ⟫ λ o. Mono-collect_some xs h ⟫ λ rest. Mono-pure (push_some o rest)

-- A test of the locals that more of them cannot fail.
Mono-test :
    {b : ℕ} (test : NatSet → Bool) (e : MirValidationError)
    → ((s t : NatSet) → Subset s t → test s ≡ true → test t ≡ true)
    → Mono b (λ c. report_unless (test c.initialized) e c)
unfolding report_unless report
Mono-test {b} test e up = record {
  value = λ c d. silent (test c.initialized) (test d.initialized) c d;
  grows = λ c h. (passed (test c.initialized) c h).1;
  keeps = λ c d s ok h.
      let (p, q) = passed (test c.initialized) c h in
      rw (p, up c.initialized d.initialized s p) (s, ok);
  within = λ c w. kept (test c.initialized) c w;
}
  where
    silent : (t t' : Bool) (c d : Check) → (report_unless t e c).0 ≡ (report_unless t' e d).0
    silent true true c d = refl
    silent true false c d = refl
    silent false true c d = refl
    silent false false c d = refl

    kept :
        (t : Bool) (c : Check)
        → Within 0 b c.initialized
        → Within 0 b (report_unless t e c).1.initialized
    kept true c w = w
    kept false c w = w

    passed :
        (t : Bool) (c : Check) → (report_unless t e c).1.errors ≡ [] → (t ≡ true) × (c.errors ≡ [])
    passed true c h = (refl, h)
    passed false c h = absurd (concat-ne-nil c.errors e h)

module _ {b : ℕ} (locals : List Local) (block : ℕ) where
  pub check_local-Mono : (l : ℕ) → Mono b (check_local locals block l)
  unfolding check_local
  check_local-Mono l =
      Mono-if (ltb l (length locals)) (Mono-pure (some l))
        (Mono-report (invalid_local block l) ⟫ λ _. Mono-pure none)

  -- A local that is there is below every bound on the number of locals.
  pub check_local-then :
      (l : ℕ) (k : ℕ → M (Unit {0}))
      → (l < length locals → Mono b (k l))
      → Mono b (check_local locals block l >>= λ d. when_some d k)
  unfolding check_local
  check_local-then l k h = elim (Bool-cases (ltb l (length locals))) [
    | inl e ↦ rw e (h (ground arith))
    | inr e ↦ rw e (Mono-report (invalid_local block l) ⟫ λ _. Mono-pure tt)
  ]

  require-Mono : (l shown : ℕ) → Mono b (require_initialized locals block l shown)
  unfolding require_initialized
  require-Mono l shown = Mono-test (contains l) (uninitialized_use block shown) (λ s t up h. up l h)

  invalid-Mono : Mono b (do report (invalid_projection block); pure error_type)
  invalid-Mono = Mono-report (invalid_projection block) ⟫ λ _. Mono-pure error_type

  dereferenced-Mono : (t : Ty) → Mono b (dereferenced locals block t)
  unfolding dereferenced
  dereferenced-Mono (reference m l t) = Mono-pure t
  dereferenced-Mono (raw_pointer m t) = Mono-pure t
  dereferenced-Mono _ = invalid-Mono

  indexed-Mono : (t : Ty) → Mono b (indexed locals block t)
  unfolding indexed
  indexed-Mono (array t n) = Mono-pure t
  indexed-Mono (slice t) = Mono-pure t
  indexed-Mono _ = invalid-Mono

  based-Mono : (t : Ty) → Mono b (based locals block t)
  unfolding based
  based-Mono (nominal d args) = Mono-pure (nominal d args)
  based-Mono _ = invalid-Mono

  downcasted-Mono : (i : ℕ) (t : Ty) → Mono b (downcasted locals block i t)
  unfolding downcasted
  downcasted-Mono i (nominal d args) = Mono-pure (nominal d args)
  downcasted-Mono i (optional t) = Mono-if (i == 1) (Mono-pure t) invalid-Mono
  downcasted-Mono i (union ts) =
      elim (get_elem? (to_list ts) i)
        as (λ o. Mono b (elim o [
          | some t ↦ pure t
          | none ↦ (do report (invalid_projection block); pure error_type)
        ])) [ none ↦ invalid-Mono | some t ↦ Mono-pure t ]
  downcasted-Mono i _ = invalid-Mono

  project-Mono : (p : Projection) (t : Ty) → Mono b (project locals block p t)
  unfolding project
  project-Mono (field i t) ty = Mono-pure t
  project-Mono dereference ty = dereferenced-Mono ty
  project-Mono (index l) ty = indexed-Mono ty
  project-Mono (downcast i) ty = downcasted-Mono i ty
  project-Mono (base_class d) ty = based-Mono ty

  project_all-Mono : (ps : List Projection) (t : Ty) → Mono b (project_all locals block ps t)
  unfolding project_all
  project_all-Mono [] t = Mono-pure t
  project_all-Mono (p ∷ ps) t = project-Mono p t ⟫ λ u. project_all-Mono ps u

  place_type_of-Mono :
      (ps : List Projection) (o : Option ℕ) → Mono b (place_type_of locals block ps o)
  unfolding place_type_of
  place_type_of-Mono ps none = Mono-pure none
  place_type_of-Mono ps (some l) =
      project_all-Mono ps (local_type locals block l) ⟫ λ t. Mono-pure (some t)

  pub place_type-Mono : (p : Place) → Mono b (place_type locals block p)
  unfolding place_type
  place_type-Mono p = check_local-Mono p.local ⟫ λ l. place_type_of-Mono p.projection l

  use_projection-Mono : (p : Projection) → Mono b (use_projection locals block p)
  unfolding use_projection
  use_projection-Mono (index l) = check_local-Mono l ⟫ λ i.
      Mono-when_some i (λ k. require-Mono k (to_u32 k)) ⟫ λ _. check_local-Mono l ⟫ λ j.
      Mono-when_some j (λ k.
        Mono-report_unless (ty_eq (local_type locals block k) usize_type)
          (invalid_projection block))
  use_projection-Mono _ = Mono-pure tt

  pub use_place-Mono : (p : Place) → Mono b (use_place locals block p)
  unfolding use_place
  use_place-Mono p = check_local-Mono p.local ⟫ λ l.
      Mono-when_some l (λ k. require-Mono k p.local) ⟫ λ _.
      Mono-for_each p.projection use_projection-Mono

  pub operand_type-Mono : (o : Operand) → Mono b (operand_type locals block o)
  unfolding operand_type
  operand_type-Mono (copy p) = use_place-Mono p ⟫ λ _. place_type-Mono p
  operand_type-Mono (move p) = use_place-Mono p ⟫ λ _.
      Mono-if (is_local p) (Mono-unmark p.local) (Mono-pure tt) ⟫ λ _. place_type-Mono p
  operand_type-Mono (constant c) = Mono-pure (some (constant_ty c))
