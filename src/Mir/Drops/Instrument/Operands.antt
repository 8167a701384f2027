-- ===== src/Mir/Drops/Instrument/Operands.antt =====
-- The operands of rvalues and terminators, and which of them move a whole local: what the places that
-- drop elaboration collects as moved are compared with.
use typenative.Prelude.{
  Bool, true, false, ◌&&◌, ◌||◌, List, [], ◌∷◌, ◌++◌, Option, none, some, ◌≡◌, refl, sym, ap, ◌∙◌,
  ◌==◌, arith,
}
use typenative.Mir.Syntax.{
  LocalId, Place, Operand, copy, move, constant, Rvalue, use_operand, unary, checked_binary,
  checked_index, aggregate, closure, template, type_test, raw_operation, cast, TerminatorKind,
  switch, call, return, throw, tagged_return, suspend,
}
use typenative.Mir.Validate.Places.{is_local}
use typenative.Mir.Drops.Instrument.{
  collect_move, collect_moves, collect_option, moved_places_in_rvalue, moved_places_in_terminator,
}

-- the place is this whole local
abbrev pub is_whole : LocalId → Place → Bool
is_whole l p = is_local p && p.local == l

abbrev pub moves : LocalId → List Place → Bool
moves l [] = false
moves l (p ∷ ps) = is_whole l p || moves l ps

-- The operands of an rvalue and of a terminator; those of a template and a closure are their captures.
abbrev pub rvalue_operands : {B : Type 0} → Rvalue B → List Operand
rvalue_operands (use_operand o) = o ∷ []
rvalue_operands (unary op o t r) = o ∷ []
rvalue_operands (cast o t kind) = o ∷ []
rvalue_operands (type_test o t) = o ∷ []
rvalue_operands (checked_binary op l r t u) = l ∷ r ∷ []
rvalue_operands (checked_index c i) = i ∷ []
rvalue_operands (aggregate t v fields ts) = fields
rvalue_operands (closure id f captures b) = captures
rvalue_operands (template id parts captures t) = captures
rvalue_operands (raw_operation name os t) = os
rvalue_operands _ = []

-- the operand moves this whole local
abbrev pub operand_moves : LocalId → Operand → Bool
operand_moves l (move p) = is_whole l p
operand_moves l _ = false

abbrev pub any_moves : LocalId → List Operand → Bool
any_moves l [] = false
any_moves l (o ∷ os) = operand_moves l o || any_moves l os

abbrev pub option_operand : Option Operand → List Operand
option_operand none = []
option_operand (some o) = o ∷ []

abbrev pub terminator_operands : TerminatorKind → List Operand
terminator_operands (switch value targets otherwise) = value ∷ []
terminator_operands (throw value) = value ∷ []
terminator_operands (suspend value d e resume on_error cancel) = value ∷ []
terminator_operands (return payload) = option_operand payload
terminator_operands (tagged_return completion payload) = option_operand payload
terminator_operands (call callee receiver arguments d e on_success on_error) =
    callee ∷ option_operand receiver ++ arguments
terminator_operands _ = []

moves-append : (l : LocalId) (ps qs : List Place) → moves l (ps ++ qs) ≡ (moves l ps || moves l qs)
moves-append l [] qs = refl
moves-append l (p ∷ ps) qs = ground (arith, moves-append l ps qs)

any_moves-append :
    (l : LocalId) (os us : List Operand)
    → any_moves l (os ++ us) ≡ (any_moves l os || any_moves l us)
any_moves-append l [] us = refl
any_moves-append l (o ∷ os) us = ground (arith, any_moves-append l os us)

or_false : (b : Bool) → (b || false) ≡ b
or_false true = refl
or_false false = refl

moves-collect_move : (l : LocalId) (o : Operand) → moves l (collect_move o) ≡ operand_moves l o
unfolding collect_move
moves-collect_move l (copy p) = refl
moves-collect_move l (move p) = or_false (is_whole l p)
moves-collect_move l (constant c) = refl

moves-one : (l : LocalId) (o : Operand) → moves l (collect_move o) ≡ any_moves l (o ∷ [])
moves-one l o = moves-collect_move l o ∙ sym (or_false (operand_moves l o))

moves-collect_moves :
    (l : LocalId) (os : List Operand) → moves l (collect_moves os) ≡ any_moves l os
unfolding collect_moves
moves-collect_moves l [] = refl
moves-collect_moves l (o ∷ os) =
    moves-append l (collect_move o) (collect_moves os)
    ∙ ap (λ z. z || moves l (collect_moves os)) (moves-collect_move l o)
    ∙ ap (λ z. operand_moves l o || z) (moves-collect_moves l os)

moves-collect_option :
    (l : LocalId) (o : Option Operand) → moves l (collect_option o) ≡ any_moves l (option_operand o)
moves-collect_option l none = refl
moves-collect_option l (some o) = moves-one l o

pub moves-terminator :
    (l : LocalId) (k : TerminatorKind)
    → moves l (moved_places_in_terminator k) ≡ any_moves l (terminator_operands k)
unfolding moved_places_in_terminator
moves-terminator l (switch value targets otherwise) = moves-one l value
moves-terminator l (throw value) = moves-one l value
moves-terminator l (suspend value d e resume on_error cancel) = moves-one l value
moves-terminator l (return payload) = moves-collect_option l payload
moves-terminator l (tagged_return completion payload) = moves-collect_option l payload
moves-terminator l (call callee receiver arguments d e on_success on_error) =
    moves-append l (collect_move callee ++ collect_option receiver) (collect_moves arguments)
    ∙ ap (λ z. z || moves l (collect_moves arguments))
        (moves-append l (collect_move callee) (collect_option receiver)
          ∙ ap (λ z. z || moves l (collect_option receiver)) (moves-one l callee)
          ∙ ap (λ z. any_moves l (callee ∷ []) || z) (moves-collect_option l receiver)
          ∙ sym (any_moves-append l (callee ∷ []) (option_operand receiver)))
    ∙ ap (λ z. any_moves l (callee ∷ option_operand receiver) || z)
        (moves-collect_moves l arguments)
    ∙ sym (any_moves-append l (callee ∷ option_operand receiver) arguments)
moves-terminator l k = refl

pub moves-rvalue :
    {B : Type 0} (l : LocalId) (v : Rvalue B)
    → moves l (moved_places_in_rvalue v) ≡ any_moves l (rvalue_operands v)
unfolding moved_places_in_rvalue
moves-rvalue l (use_operand o) = moves-one l o
moves-rvalue l (unary op o t r) = moves-one l o
moves-rvalue l (cast o t kind) = moves-one l o
moves-rvalue l (type_test o t) = moves-one l o
moves-rvalue l (checked_binary op a b t u) =
    moves-append l (collect_move a) (collect_move b)
    ∙ ap (λ z. z || moves l (collect_move b)) (moves-collect_move l a)
    ∙ ap (λ z. operand_moves l a || z) (moves-one l b)
moves-rvalue l (checked_index c i) = moves-one l i
moves-rvalue l (aggregate t n fields ts) = moves-collect_moves l fields
moves-rvalue l (closure id f captures b) = moves-collect_moves l captures
moves-rvalue l (template id parts captures t) = moves-collect_moves l captures
moves-rvalue l (raw_operation name os t) = moves-collect_moves l os
moves-rvalue l v = refl
