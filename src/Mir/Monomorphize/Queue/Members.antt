-- ===== src/Mir/Monomorphize/Queue/Members.antt =====
-- Membership and distinctness in lists of instances.
use typenative.Prelude.{
  Bool, true, List, [], ◌∷◌, ◌++◌, ◌≡◌, ◌↔◌, ◌⊎◌, inl, inr, refl, sym, Bool-cases,
}
use mathlib.Core.Path.{subst}
use typenative.Mir.Monomorphize.Instances.{
  Instance, instance_eq, instance_eq_iff, place_instance, insert_instance, extend, has_instance,
}

-- The instance stands in the list.
abbrev pub In : Instance → List Instance → Type 0
In x [] = ⊥
In x (y ∷ s) = (x ≡ y) ⊎ In x s

-- No instance stands in the list twice.
abbrev pub Distinct : List Instance → Type 0
Distinct [] = Unit
Distinct (x ∷ s) = (¬ In x s) × Distinct s

pub In-append_left : (x : Instance) (s t : List Instance) → In x s → In x (s ++ t)
In-append_left x [] t h = absurd h
In-append_left x (y ∷ s) t (inl e) = inl e
In-append_left x (y ∷ s) t (inr h) = inr (In-append_left x s t h)

pub In-append_right : (x : Instance) (s t : List Instance) → In x t → In x (s ++ t)
In-append_right x [] t h = h
In-append_right x (y ∷ s) t h = inr (In-append_right x s t h)

pub In-append_split : (x : Instance) (s t : List Instance) → In x (s ++ t) → In x s ⊎ In x t
In-append_split x [] t h = inr h
In-append_split x (y ∷ s) t (inl e) = inl (inl e)
In-append_split x (y ∷ s) t (inr h) = elim (In-append_split x s t h) [
  | inl a ↦ inl (inr a)
  | inr b ↦ inr b
]

pub Distinct-push :
    (x : Instance) (s : List Instance) → ¬ In x s → Distinct s → Distinct (s ++ x ∷ [])
Distinct-push x [] h d = (λ m. m, tt)
Distinct-push x (y ∷ s) h (fresh, d) = (
  λ m. elim (In-append_split y s (x ∷ []) m) [
    | inl a ↦ fresh a
    | inr (inl e) ↦ h (inl (sym e))
    | inr (inr b) ↦ b
  ],
  Distinct-push x s (λ m. h (inr m)) d,
)

pub has_instance_iff : (x : Instance) (s : List Instance) → (has_instance x s ≡ true) ↔ In x s
unfolding has_instance
has_instance_iff x [] = (λ h. cc, λ h. absurd h)
has_instance_iff x (y ∷ s) = (
  λ h. elim (Bool-cases (instance_eq x y)) [
    | inl same ↦ inl ((instance_eq_iff x y).0 same)
    | inr other ↦ inr ((has_instance_iff x s).0 (rw other at h))
  ],
  λ m. elim m [
    | inl e ↦ rw ((instance_eq_iff x y).1 e) refl
    | inr k ↦ elim (Bool-cases (instance_eq x y)) [
      | inl same ↦ rw same refl
      | inr other ↦ rw other ((has_instance_iff x s).1 k)
    ]
  ],
)

module _ (before : Instance → Instance → Bool) where
  pub place_instance_iff :
      (x i : Instance) (s : List Instance) → In x (place_instance before i s) ↔ ((x ≡ i) ⊎ In x s)
  unfolding place_instance
  place_instance_iff x i [] = (λ h. h, λ h. h)
  place_instance_iff x i (y ∷ s) = elim (Bool-cases (before i y)) [
    | inl smaller ↦ rw smaller (λ h. h, λ h. h)
    | inr larger ↦ rw larger (
      λ h. elim h [
        | inl e ↦ inr (inl e)
        | inr m ↦ elim ((place_instance_iff x i s).0 m) [ inl e ↦ inl e | inr k ↦ inr (inr k) ]
      ],
      λ h. elim h [
        | inl e ↦ inr ((place_instance_iff x i s).1 (inl e))
        | inr (inl e) ↦ inl e
        | inr (inr k) ↦ inr ((place_instance_iff x i s).1 (inr k))
      ],
    )
  ]

  place_instance-Distinct :
      (i : Instance) (s : List Instance)
      → ¬ In i s
      → Distinct s
      → Distinct (place_instance before i s)
  unfolding place_instance
  place_instance-Distinct i [] new d = (λ m. m, tt)
  place_instance-Distinct i (y ∷ s) new (fresh, d) = elim (Bool-cases (before i y)) [
    | inl smaller ↦ rw smaller (new, (fresh, d))
    | inr larger ↦ rw larger (
      λ m. elim ((place_instance_iff y i s).0 m) [ inl e ↦ new (inl (sym e)) | inr k ↦ fresh k ],
      place_instance-Distinct i s (λ m. new (inr m)) d,
    )
  ]

  pub insert_instance_iff :
      (x i : Instance) (s : List Instance) → In x (insert_instance before i s) ↔ ((x ≡ i) ⊎ In x s)
  unfolding insert_instance
  insert_instance_iff x i s = elim (Bool-cases (has_instance i s)) [
    | inl old ↦ rw old (
      inr,
      λ h. elim h [
        | inl e ↦ subst (λ z. In z s) (sym e) ((has_instance_iff i s).0 old)
        | inr m ↦ m
      ],
    )
    | inr new ↦ rw new (place_instance_iff x i s)
  ]

  pub insert_instance-Distinct :
      (i : Instance) (s : List Instance) → Distinct s → Distinct (insert_instance before i s)
  unfolding insert_instance
  insert_instance-Distinct i s d = elim (Bool-cases (has_instance i s)) [
    | inl old ↦ rw old d
    | inr new ↦ rw new (place_instance-Distinct i s (λ m. cc (new, (has_instance_iff i s).1 m)) d)
  ]

  pub extend_iff :
      (x : Instance) (is s : List Instance) → In x (extend before is s) ↔ (In x is ⊎ In x s)
  unfolding extend
  extend_iff x [] s = (inr, λ h. elim h [ inl m ↦ absurd m | inr m ↦ m ])
  extend_iff x (i ∷ is) s = (
    λ h. elim ((extend_iff x is (insert_instance before i s)).0 h) [
      | inl m ↦ inl (inr m)
      | inr m ↦ elim ((insert_instance_iff x i s).0 m) [ inl e ↦ inl (inl e) | inr k ↦ inr k ]
    ],
    λ h. elim h [
      | inl (inl e) ↦
          (extend_iff x is (insert_instance before i s)).1
            (inr ((insert_instance_iff x i s).1 (inl e)))
      | inl (inr m) ↦ (extend_iff x is (insert_instance before i s)).1 (inl m)
      | inr m ↦
          (extend_iff x is (insert_instance before i s)).1
            (inr ((insert_instance_iff x i s).1 (inr m)))
    ],
  )

  pub extend-Distinct : (is s : List Instance) → Distinct s → Distinct (extend before is s)
  unfolding extend
  extend-Distinct [] s d = d
  extend-Distinct (i ∷ is) s d =
      extend-Distinct is (insert_instance before i s) (insert_instance-Distinct i s d)
