-- ===== src/Flow/Valid/Types.antt =====
-- flow/validate.go: the type of a node that is accepted, and the fields that it may set.
use packtrail.Prelude.{
  ◌≡◌, ◌≢◌, refl, String, Bool, false, some, List, [], ◌∷◌, arith, str_eq, eq_iff, if◌then◌else◌,
  inl, inr, Bool-cases,
}
use packtrail.Flow.Source.{NodeSource, Compiler}
use packtrail.Flow.Graph.{Nodes}
use packtrail.Flow.Validate.Fields.{
  field_set, allowed_fields, contains, foreign, foreign_problem, reject_foreign_fields,
}
use packtrail.Flow.Validate.Nodes.{by_type}

-- the field named x, of fields by their names
abbrev pub holds : List (String × Bool) → String → Bool
holds [] x = false
holds ((f, set) ∷ fields) x = if str_eq f x then set else holds fields x

pub foreign-holds :
    (allowed : List String) (fields : List (String × Bool)) (x : String)
    → foreign allowed fields ≡ []
    → contains allowed x ≡ false
    → holds fields x ≡ false
unfolding foreign
foreign-holds allowed [] x h c = refl
foreign-holds allowed ((f, set) ∷ fields) x h c =
    ground (arith, eq_iff f x, foreign-holds allowed fields x)

no_foreign : (n : NodeSource) (xs : List String) → foreign_problem n xs ≡ [] → xs ≡ []
unfolding foreign_problem
no_foreign n [] h = refl
no_foreign n (x ∷ xs) h = absurd (cc)

-- The fields that do not apply to the type of an accepted node are not set.
pub foreign-nil :
    (n : NodeSource) (allowed : List String)
    → allowed_fields n.type ≡ some allowed
    → reject_foreign_fields n ≡ []
    → foreign allowed (field_set n) ≡ []
unfolding reject_foreign_fields
foreign-nil n allowed e h = no_foreign n _ (rw (reject_foreign_fields, e) at h)

pub data TypeCase (t : String) : Type 0 where
  task : t ≡ "task" → TypeCase t
  choice : t ≡ "choice" → TypeCase t
  fanout : t ≡ "fanout" → TypeCase t
  join : t ≡ "join" → TypeCase t
  await : t ≡ "await" → TypeCase t
  each : t ≡ "map" → TypeCase t
  subflow : t ≡ "subflow" → TypeCase t
  unknown :
      ((c : Compiler) (by_id : Nodes) (n : NodeSource) → by_type t c by_id n ≢ []) → TypeCase t

pub type_cases : (t : String) → TypeCase t
unfolding by_type
type_cases t = elim (Bool-cases (str_eq t "task")) [
  | inl e ↦ task ((eq_iff t "task").0 e)
  | inr a ↦ elim (Bool-cases (str_eq t "choice")) [
    | inl e ↦ choice ((eq_iff t "choice").0 e)
    | inr b ↦ elim (Bool-cases (str_eq t "fanout")) [
      | inl e ↦ fanout ((eq_iff t "fanout").0 e)
      | inr d ↦ elim (Bool-cases (str_eq t "join")) [
        | inl e ↦ join ((eq_iff t "join").0 e)
        | inr f ↦ elim (Bool-cases (str_eq t "await")) [
          | inl e ↦ await ((eq_iff t "await").0 e)
          | inr g ↦ elim (Bool-cases (str_eq t "map")) [
            | inl e ↦ each ((eq_iff t "map").0 e)
            | inr i ↦ elim (Bool-cases (str_eq t "subflow")) [
              | inl e ↦ subflow ((eq_iff t "subflow").0 e)
              | inr j ↦ unknown (λ c by_id n h. cc (rw (a, b, d, f, g, i, j) at h))
            ]
          ]
        ]
      ]
    ]
  ]
]
