-- ===== src/Outcome.antt =====
-- Errors as values. A text that the code formats is kept as the data its format takes (`Msg`); an
-- error is kept as what `errors.Is` can tell of it.
use packtrail.Prelude.{ℕ, ◌≡◌, refl, String, Bool, List}
use packtrail.Json.{Float64}

pub data Msg : Type 0 where
  -- a text that a worker, a child or an expression gave
  text : String → Msg
  -- enter
  unknown_node : String → Msg
  steps_reached : ℕ → Msg
  cannot_enter : String → Msg
  -- complete0
  output_failed : String → Msg
  output_not_object : Msg
  -- checkCompletion
  completion_not_object : Msg
  undeclared_channel : String → Msg
  refused_write : String → Msg
  not_dynamic : String → String → Msg
  schema_refused : String → Msg
  -- overBudgetWith
  over_budget : String → Float64 → Float64 → Msg
  -- taskFailed
  node_failed : String → Msg → Msg
  -- timer
  attempt_timed_out : Msg
  -- closeJoin
  join_failed : String → List String → Msg
  branches_failed : List String → Msg
  -- awaitTimeout
  no_signal : String → String → Msg
  -- mapStart
  over_failed : String → String → Msg
  over_not_list : String → Msg
  -- startChild
  child_input_failed : String → ℕ → String → Msg
  child_input_not_object : String → ℕ → Bool → Msg
  -- childDone
  item_failed : String → ℕ → String → String → Msg → Msg
  subflow_failed : String → String → String → Msg → Msg

pub data Err : Type 0 where
  -- fold.ErrNotFound, fold.ErrInvalid, fold.ErrRejected; ErrConflict comes with ErrRejected
  not_found invalid rejected conflict : Err
  -- fold.ErrApply: an event that cannot be folded
  cannot_apply : Err
  -- an error of encoding/json
  not_encodable : Err
  -- errReducer
  reducer : Err
  -- a nil dereference or an index out of range
  panic : Err
  -- registry.ErrUnknownFlow, jetstream.ErrObjectNotFound, loader.ErrNotArchived
  unknown_flow no_object not_archived : Err
  -- the *TooRecentError of a deletion, with its Until
  too_recent : ℕ → Err
  -- any other error of a call that reads or writes: NATS, a context that ended
  io : Err
  -- of the model: the fuel of a loop ran out
  out_of_fuel : Err

pub data Result {ℓ} (A : Type ℓ) : Type ℓ where
  ok : A → Result A
  err : Err → Result A

infixl 10 ◌>>=◌ ◌>>◌
abbrev pub ◌>>=◌ {ℓ κ} : {A : Type ℓ} {B : Type κ} → Result A → (A → Result B) → Result B
ok a >>= f = f a
err e >>= f = err e

abbrev pub ◌>>◌ {ℓ κ} : {A : Type ℓ} {B : Type κ} → Result A → Result B → Result B
m >> k = m >>= λ _. k

module _ {ℓ} {A B : Type ℓ} where
  -- a step that another follows, where both return
  pub bind_inv :
      (first : Result A) (next : A → Result B) {end : B}
      → first >>= next ≡ ok end
      → (mid : A) × (first ≡ ok mid) × (next mid ≡ ok end)
  bind_inv (ok mid) next h = (mid, refl, h)
  bind_inv (err e) next h = absurd (cc)

pub ok_inj {ℓ} : {A : Type ℓ} {a b : A} → ok a ≡ ok b → a ≡ b
ok_inj h = cc
