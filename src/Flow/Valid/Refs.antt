-- ===== src/Flow/Valid/Refs.antt =====
-- flow/validate.go: once every node is valid on its own, every reference resolves.
use packtrail.Prelude.{
  ℕ, suc, ◌≡◌, refl, sym, subst, ap, ◌∙◌, String, false, none, some, List, [], ◌∷◌, arith, str_eq,
  if◌then◌else◌, inl, inr, Bool-cases, Option-cases,
}
use mathlib.Core.List.{append-eq-nil_iff}
use packtrail.GoMap.{get}
use packtrail.Platform.{◌⧺◌}
use packtrail.Flow.Source.{RuleSource, NodeSource, Compiler}
use packtrail.Flow.Graph.{Nodes, to_route, rule_routes, targets}
use packtrail.Flow.Validate.Level.{indexed}
use packtrail.Flow.Validate.Fields.{
  field_set, allowed_fields, contains, foreign, reject_foreign_fields, filled,
}
use packtrail.Flow.Validate.Nodes.{
  ref, refs, by_type, validate_task, validate_choice, validate_fanout, validate_await,
  rule_problems,
}
use packtrail.Flow.Valid.{Found, All}
use packtrail.Flow.Valid.Types.{
  holds, foreign-holds, foreign-nil, TypeCase, task, choice, fanout, join, await, each, subflow,
  unknown,
}

module _ (by_id : Nodes) where
  pub ref-Found : (node field id : String) → ref by_id node field id ≡ [] → Found by_id id
  unfolding ref
  ref-Found node field id h = elim (Option-cases (get by_id id)) [
    | inl e ↦ absurd (ground (arith, e))
    | inr f ↦ f
  ]

  refs-Found :
      (node field : String) (i : ℕ) (ids : List String)
      → refs by_id node field i ids ≡ []
      → All (Found by_id) ids
  unfolding refs
  refs-Found node field i [] h = tt
  refs-Found node field i (id ∷ ids) h =
      let (first, rest) = append-eq-nil_iff.0 h in
      (ref-Found node (indexed field i) id first, refs-Found node field (suc i) ids rest)

-- what a node leads to, but by next and on_failure
pub record IsLinked (by_id : Nodes) (n : NodeSource) : Type 0 where
  pub dynamic : All (Found by_id) n.dynamic
  pub rules : All (Found by_id) (targets (rule_routes 0 n.rules))
  pub on_timeout : All (Found by_id) (targets (to_route "on_timeout" n.on_timeout))
  pub branches : All (Found by_id) n.branches

cleared-All {ℓ} :
    {A : Type ℓ} (P : String → Type 0) (f : List A → List String)
    → f [] ≡ []
    → (xs : List A) → filled xs ≡ false
    → All P (f xs)
cleared-All P f e [] h = subst (All P) (sym e) tt
cleared-All P f e (x ∷ xs) h = absurd (cc)

pub to_route-All :
    (P : String → Type 0) (field to : String)
    → (str_eq to "" ≡ false → P to)
    → All P (targets (to_route field to))
to_route-All P field to h = elim (Bool-cases (str_eq to "")) [
  | inl e ↦ rw e tt
  | inr e ↦ rw e (h e, tt)
]

module _ (by_id : Nodes) (n : NodeSource) (allowed : List String)
    (h : foreign allowed (field_set n) ≡ []) where
  unset : (x : String) → contains allowed x ≡ false → holds (field_set n) x ≡ false
  unset x c = foreign-holds allowed (field_set n) x h c

  no_dynamic : contains allowed "dynamic" ≡ false → All (Found by_id) n.dynamic
  unfolding field_set
  no_dynamic c = cleared-All (Found by_id) (λ xs. xs) refl n.dynamic (unset "dynamic" c)

  no_rules : contains allowed "rules" ≡ false → All (Found by_id) (targets (rule_routes 0 n.rules))
  unfolding field_set rule_routes
  no_rules c =
      cleared-All (Found by_id) (λ rs. targets (rule_routes 0 rs)) refl n.rules (unset "rules" c)

  no_branches : contains allowed "branches" ≡ false → All (Found by_id) n.branches
  unfolding field_set
  no_branches c = cleared-All (Found by_id) (λ xs. xs) refl n.branches (unset "branches" c)

  no_timeout :
      contains allowed "on_timeout" ≡ false
      → All (Found by_id) (targets (to_route "on_timeout" n.on_timeout))
  unfolding field_set
  no_timeout c =
      to_route-All (Found by_id) "on_timeout" n.on_timeout
        (λ e. cc (rw e at (unset "on_timeout" c)))

module _ (c : Compiler) (by_id : Nodes) (n : NodeSource) where
  rules-Found :
      (i : ℕ) (named : List String) (rules : List RuleSource)
      → rule_problems c by_id n i named rules ≡ []
      → All (Found by_id) (targets (rule_routes i rules))
  unfolding rule_problems rule_routes
  rules-Found i named [] h = tt
  rules-Found i named (r ∷ rules) h =
      let (first, rest) = append-eq-nil_iff.0 h in
      let to : (if str_eq r.to "$end" then [] else ref by_id n.id (indexed "rules" i ⧺ ".to") r.to)
          ≡ [] =
        (append-eq-nil_iff.0 first).1 in
      let ih = rules-Found (suc i) (r.name ∷ named) rules rest in
      elim (Bool-cases (str_eq r.to "$end")) [
        | inl e ↦ rw e ih
        | inr e ↦ rw e (ref-Found by_id n.id (indexed "rules" i ⧺ ".to") r.to (rw e at to), ih)
      ]

  abbrev fields_of : String → List String
  fields_of t = elim (allowed_fields t) [ none ↦ [] | some allowed ↦ allowed ]

  clear :
      (t : String)
      → n.type ≡ t
      → allowed_fields t ≡ some (fields_of t)
      → reject_foreign_fields n ≡ []
      → foreign (fields_of t) (field_set n) ≡ []
  clear t e a f = foreign-nil n (fields_of t) (ap allowed_fields e ∙ a) f

  task_links : validate_task c by_id n ≡ [] → All (Found by_id) n.dynamic
  unfolding validate_task
  task_links h = refs-Found by_id n.id "dynamic" 0 n.dynamic (append-eq-nil_iff.0 h).1

  choice_links :
      validate_choice c by_id n ≡ [] → All (Found by_id) (targets (rule_routes 0 n.rules))
  unfolding validate_choice
  choice_links h =
      rules-Found 0 [] n.rules
        (append-eq-nil_iff.0 (append-eq-nil_iff.0 (append-eq-nil_iff.0 h).0).0).1

  fanout_links : validate_fanout by_id n ≡ [] → All (Found by_id) n.branches
  unfolding validate_fanout
  fanout_links h =
      refs-Found by_id n.id "branches" 0 n.branches
        (append-eq-nil_iff.0 (append-eq-nil_iff.0 h).0).1

  await_links :
      validate_await by_id n ≡ [] → All (Found by_id) (targets (to_route "on_timeout" n.on_timeout))
  unfolding validate_await
  await_links h =
      let to : (if str_eq n.on_timeout "" then [] else ref by_id n.id "on_timeout" n.on_timeout)
          ≡ [] =
        (append-eq-nil_iff.0 h).1 in
      to_route-All (Found by_id) "on_timeout" n.on_timeout
        (λ e. ref-Found by_id n.id "on_timeout" n.on_timeout (rw e at to))

  pub linked :
      (t : String)
      → TypeCase t
      → n.type ≡ t
      → by_type t c by_id n ≡ []
      → reject_foreign_fields n ≡ []
      → IsLinked by_id n
  unfolding by_type allowed_fields contains
  linked t (task p) e h f =
      let shut = clear "task" (e ∙ p) refl f in
      let links = task_links (subst (λ x. by_type x c by_id n ≡ []) p h) in
      record {
        dynamic = links;
        rules = no_rules by_id n (fields_of "task") shut refl;
        on_timeout = no_timeout by_id n (fields_of "task") shut refl;
        branches = no_branches by_id n (fields_of "task") shut refl;
      }
  linked t (choice p) e h f =
      let shut = clear "choice" (e ∙ p) refl f in
      let links = choice_links (subst (λ x. by_type x c by_id n ≡ []) p h) in
      record {
        dynamic = no_dynamic by_id n (fields_of "choice") shut refl;
        rules = links;
        on_timeout = no_timeout by_id n (fields_of "choice") shut refl;
        branches = no_branches by_id n (fields_of "choice") shut refl;
      }
  linked t (await p) e h f =
      let shut = clear "await" (e ∙ p) refl f in
      let links = await_links (subst (λ x. by_type x c by_id n ≡ []) p h) in
      record {
        dynamic = no_dynamic by_id n (fields_of "await") shut refl;
        rules = no_rules by_id n (fields_of "await") shut refl;
        on_timeout = links;
        branches = no_branches by_id n (fields_of "await") shut refl;
      }
  linked t (fanout p) e h f =
      let shut = clear "fanout" (e ∙ p) refl f in
      let links = fanout_links (subst (λ x. by_type x c by_id n ≡ []) p h) in
      record {
        dynamic = no_dynamic by_id n (fields_of "fanout") shut refl;
        rules = no_rules by_id n (fields_of "fanout") shut refl;
        on_timeout = no_timeout by_id n (fields_of "fanout") shut refl;
        branches = links;
      }
  linked t (join p) e h f =
      let shut = clear "join" (e ∙ p) refl f in
      record {
        dynamic = no_dynamic by_id n (fields_of "join") shut refl;
        rules = no_rules by_id n (fields_of "join") shut refl;
        on_timeout = no_timeout by_id n (fields_of "join") shut refl;
        branches = no_branches by_id n (fields_of "join") shut refl;
      }
  linked t (each p) e h f =
      let shut = clear "map" (e ∙ p) refl f in
      record {
        dynamic = no_dynamic by_id n (fields_of "map") shut refl;
        rules = no_rules by_id n (fields_of "map") shut refl;
        on_timeout = no_timeout by_id n (fields_of "map") shut refl;
        branches = no_branches by_id n (fields_of "map") shut refl;
      }
  linked t (subflow p) e h f =
      let shut = clear "subflow" (e ∙ p) refl f in
      record {
        dynamic = no_dynamic by_id n (fields_of "subflow") shut refl;
        rules = no_rules by_id n (fields_of "subflow") shut refl;
        on_timeout = no_timeout by_id n (fields_of "subflow") shut refl;
        branches = no_branches by_id n (fields_of "subflow") shut refl;
      }
  linked t (unknown none_of) e h f = absurd (none_of c by_id n h)
