-- ===== src/Mir/Monomorphize/Samples.antt =====
-- A generic identity function and a caller of it, for the tests and the witnesses.
use typenative.Prelude.{Bool, true, false, [], ◌∷◌, none, some, ltb}
use typenative.Hir.Types.{Ty, generic, function, function_type, unconstrained, cons, nil}
use typenative.Mir.Syntax.{Constant, constant, copy, move, local_place, call, return}
use typenative.Mir.Samples.{int, local, block}
use typenative.Mir.Monomorphize.Instances.{function_callable, GenericBody, Instance}

-- `function identity<T>(x: T): T { return x; }`, declaration 1
abbrev pub identity : GenericBody 0
identity = record {
  body = record {
    declaration = 1;
    member = none;
    locals = local (generic "T") true ∷ [];
    blocks = block [] (return (some (move (local_place 0)))) ∷ [];
    return_type = generic "T";
    effects = [];
  };
  type_parameters = "T" ∷ [];
}

abbrev pub int_to_int : Ty
int_to_int = function (function_type (cons int nil) int [] unconstrained false false)

-- A function of an integer that calls `identity` with it, declaration 0.
abbrev pub caller : GenericBody 0
caller = record {
  body = record {
    declaration = 0;
    member = none;
    locals = local int true ∷ local int false ∷ [];
    blocks =
        block [] (
          call (constant (Constant.function 1 int_to_int)) none (copy (local_place 0) ∷ [])
            (some (local_place 1)) none 1 none)
        ∷ block [] (return (some (move (local_place 1))))
        ∷ [];
    return_type = int;
    effects = [];
  };
  type_parameters = [];
}

abbrev pub main_instance : Instance
main_instance = record { callable = function_callable 0; type_arguments = []; effects = [] }

abbrev pub identity_instance : Instance
identity_instance = record {
  callable = function_callable 1;
  type_arguments = int ∷ [];
  effects = [];
}

-- an order of instances: by declaration
abbrev pub by_declaration : Instance → Instance → Bool
by_declaration a b = ltb (a.callable.declaration) (b.callable.declaration)
