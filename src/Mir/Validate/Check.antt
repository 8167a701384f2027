-- ===== src/Mir/Validate/Check.antt =====
-- The validator's errors, and the state that its functions pass on by `&mut`.
use typenative.Prelude.{
  ℕ, ◌-◌, ◌^◌, Bool, List, [], ◌∷◌, ◌++◌, Option, none, some, if◌then◌else◌, ltb, NatSet, insert,
  remove,
}
use typenative.Hir.Types.{Ty}

-- `MirValidationError`, its fields in the order of the source
pub data MirValidationError : Type 0 where
  empty_body : MirValidationError
  invalid_target : ℕ → ℕ → MirValidationError
  invalid_local : ℕ → ℕ → MirValidationError
  uninitialized_use : ℕ → ℕ → MirValidationError
  type_mismatch : ℕ → Ty → Ty → MirValidationError
  invalid_projection : ℕ → MirValidationError
  invalid_error_edge : ℕ → MirValidationError
  invalid_return : ℕ → Option Ty → Ty → MirValidationError
  invalid_borrow_type : ℕ → MirValidationError
  duplicate_region : ℕ → MirValidationError
  invalid_callable : ℕ → MirValidationError
  invalid_throw : ℕ → MirValidationError
  invalid_switch_type : ℕ → MirValidationError
  invalid_template_capture : ℕ → ℕ → MirValidationError

-- The parameters `initialized: &mut BTreeSet<usize>` and `errors: &mut Vec<_>`.
pub record Check : Type 0 where
  pub initialized : NatSet
  pub errors : List MirValidationError

abbrev pub M : Type 0 → Type 0
M A = Check → A × Check

infixl 5 ◌>>=◌ ◌>>◌
abbrev pub ◌>>=◌ : {A B : Type 0} → M A → (A → M B) → M B
◌>>=◌ m f c = f (m c).0 (m c).1

abbrev pub ◌>>◌ : {A B : Type 0} → M A → M B → M B
m >> k = m >>= λ _. k

abbrev pub pure : {A : Type 0} → A → M A
pure a c = (a, c)

abbrev pub skip : M (Unit {0})
skip = pure tt

-- `errors.push(error)`
unfoldable pub report : MirValidationError → M (Unit {0})
report e c = (tt, record c { errors = c.errors ++ e ∷ [] })

-- `errors.extend(more)`
unfoldable pub report_all : List MirValidationError → M (Unit {0})
report_all es c = (tt, record c { errors = c.errors ++ es })

unfoldable pub mark_initialized : ℕ → M (Unit {0})
unfolding insert
mark_initialized l c = (tt, record c { initialized = insert l c.initialized })

unfoldable pub unmark_initialized : ℕ → M (Unit {0})
unfolding remove
unmark_initialized l c = (tt, record c { initialized = remove l c.initialized })

unfoldable pub report_unless : Bool → MirValidationError → M (Unit {0})
unfolding report
report_unless ok e = if ok then skip else report e

-- `if let Some(x) = o { … }`
abbrev pub when_some : {A : Type 0} → Option A → (A → M (Unit {0})) → M (Unit {0})
when_some none k = skip
when_some (some a) k = k a

-- `for x in xs { … }`
unfoldable pub for_each : {A : Type 0} → List A → (A → M (Unit {0})) → M (Unit {0})
for_each [] k = skip
for_each (x ∷ xs) k = k x >> for_each xs k

abbrev pub push_some : {C : Type 0} → Option C → List C → List C
push_some none cs = cs
push_some (some c) cs = c ∷ cs

-- `xs.iter().filter_map(…).collect()`
unfoldable pub collect_some : {A C : Type 0} → List A → (A → M (Option C)) → M (List C)
collect_some [] k = pure []
collect_some (x ∷ xs) k = do o ← k x; rest ← collect_some xs k; pure (push_some o rest)

abbrev pub u32_max : ℕ
u32_max = 2 ^ 32 - 1

-- `u32::try_from(n).unwrap_or(u32::MAX)`
unfoldable pub to_u32 : ℕ → ℕ
to_u32 n = if ltb u32_max n then u32_max else n
