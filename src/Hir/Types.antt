-- ===== src/Hir/Types.antt =====
-- The types of crates/tn-hir/src/lib.rs that MIR is written in. `Type` is reserved in this
-- language, so the source's `Type` is `Ty`; its lists of types inside a type are `Tys`.
use typenative.Prelude.{
  ℕ, String, Bool, true, false, List, [], ◌∷◌, String-discrete, ℕ_discrete, decide, ◌≡◌, ◌↔◌, refl,
  arith,
}

pub data PrimitiveType : Type 0 where
  bool i8 i16 i32 i64 i128 isize u8 u16 u32 u64 u128 usize f32 f64 char void never : PrimitiveType

pub data Namespace : Type 0 where
  type value method lifetime : Namespace

pub data ReceiverMode : Type 0 where
  shared mutable move static : ReceiverMode

-- The identities are numbers: DeclarationId and MemberId wrap a u64, the HIR identities a u32.
abbrev pub DeclarationId : Type 0
DeclarationId = ℕ

abbrev pub MemberId : Type 0
MemberId = ℕ

abbrev pub HirClosureId : Type 0
HirClosureId = ℕ

abbrev pub HirTemplateId : Type 0
HirTemplateId = ℕ

mutual
  -- The fields stand in the order of the source: `promise result error effects`,
  -- `reference mutable lifetime referent`, `raw_pointer mutable pointee`.
  pub data Ty : Type 0 where
    primitive : PrimitiveType → Ty
    string : Ty
    str : Ty
    promise : Ty → Ty → List DeclarationId → Ty
    nominal : DeclarationId → Tys → Ty
    optional : Ty → Ty
    union : Tys → Ty
    array : Ty → ℕ → Ty
    slice : Ty → Ty
    tuple : Tys → Ty
    reference : Bool → String → Ty → Ty
    raw_pointer : Bool → Ty → Ty
    function : FunctionType → Ty
    template : Tys → Ty
    dynamic_interface : DeclarationId → Tys → Ty
    generic : String → Ty
    lifetime_of : String → Ty
    error_union : List DeclarationId → Ty
    error_type : Ty
    unknown : Ty

  pub data Tys : Type 0 where
    nil : Tys
    cons : Ty → Tys → Tys

  -- `function_type parameters result effects generics is_async is_unsafe`
  pub data FunctionType : Type 0 where
    function_type : Tys → Ty → List DeclarationId → GenericConstraints → Bool → Bool → FunctionType

  -- a list of `GenericConstraint { name, namespace, bounds }`
  pub data GenericConstraints : Type 0 where
    unconstrained : GenericConstraints
    constrained : String → Namespace → GenericBounds → GenericConstraints → GenericConstraints

  pub data GenericBounds : Type 0 where
    unbounded : GenericBounds
    bounded : GenericBound → GenericBounds → GenericBounds

  pub data GenericBound : Type 0 where
    interface : DeclarationId → Tys → GenericBound
    static_bound : GenericBound
    outlives : String → GenericBound

pub Ty-discrete : Discrete Ty
unfolding String-discrete
Ty-discrete = hlevel (String-discrete, ℕ_discrete)

pub effects-discrete : Discrete (List DeclarationId)
effects-discrete = hlevel ℕ_discrete

-- The derived equality of `Type`.
unfoldable pub ty_eq : Ty → Ty → Bool
unfolding Ty-discrete decide
ty_eq a b = decide (Ty-discrete a b)

unfoldable pub effects_eq : List DeclarationId → List DeclarationId → Bool
unfolding effects-discrete decide
effects_eq a b = decide (effects-discrete a b)

abbrev pub to_list : Tys → List Ty
to_list nil = []
to_list (cons t ts) = t ∷ to_list ts

abbrev pub of_list : List Ty → Tys
of_list [] = nil
of_list (t ∷ ts) = cons t (of_list ts)

abbrev pub bool_type : Ty
bool_type = primitive PrimitiveType.bool

abbrev pub void_type : Ty
void_type = primitive PrimitiveType.void

abbrev pub usize_type : Ty
usize_type = primitive PrimitiveType.usize

pub ty_eq_iff : (a b : Ty) → (ty_eq a b ≡ true) ↔ (a ≡ b)
unfolding ty_eq
ty_eq_iff a b = ground arith

ty_eq_runs :
    ty_eq (union (cons str (cons (generic "a") nil))) (union (cons str (cons (generic "a") nil)))
    ≡ true
unfolding ty_eq
ty_eq_runs = refl

ty_eq_runs2 :
    ty_eq (union (cons str (cons (generic "a") nil))) (union (cons str (cons (generic "b") nil)))
    ≡ false
unfolding ty_eq
ty_eq_runs2 = refl
