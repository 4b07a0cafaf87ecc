-- ===== src/Mixed/Program.antt =====
-- src/cpprealm/internal/bridge/mixed.cpp: a program of constructions, copies and moves of values in
-- variables, and what each variable then reads as, in the build with
-- CPPREALM_HAVE_GENERATED_BRIDGE_TYPES.
use realm_cpp.Prelude.{
  ℕ, ◌≡◌, refl, ap, ◌∙◌, ◌↔◌, inl, inr, List, [], ◌∷◌, true, Option, none, some, ◌==◌,
  if◌then◌else◌, arith, Bool-cases,
}
use realm_cpp.Prelude.Bytes.{Bytes}
use realm_cpp.Mixed.{
  Value, Mixed, nothing, scalar, text, binary, from_core, from_string, from_binary, from_scalar,
  from_null, copy_construct, copy_assign, move_construct, move_assign, moved_out, take_owned,
  to_core, empty_mixed, to_string, to_binary, to_scalar, is_null,
}

-- `left` is what a move leaves of a text or of binary data. A construction is of a new variable, so
-- not of the one that it reads.
pub data Statement {ℓ} (Scalar : Type ℓ) : Type ℓ where
  constructs : ℕ → Value Scalar → Statement Scalar
  copies assigns : ℕ → ℕ → Statement Scalar
  moves move_assigns : Bytes → ℕ → ℕ → Statement Scalar

module _ {ℓ} {Scalar : Type ℓ} where
  -- The constructor that the type of the value selects.
  pub construct : Value Scalar → Mixed Scalar
  construct nothing = from_null
  construct (scalar v) = from_scalar v
  construct (text v) = from_string v
  construct (binary v) = from_binary v

abbrev pub set {ℓ} : {A : Type ℓ} → ℕ → A → (ℕ → A) → ℕ → A
set x a env y = if y == x then a else env y

module _ {ℓ} {Scalar : Type ℓ} where
  pub step : Statement Scalar → (ℕ → Mixed Scalar) → ℕ → Mixed Scalar
  step (constructs x v) env = set x (construct v) env
  step (copies x y) env = set x (copy_construct (env y)) env
  step (assigns x y) env = if x == y then env else set x (copy_assign (env y) (env x)) env
  step (moves left x y) env = let r = move_construct left (env y) in set x r.0 (set y r.1 env)
  step (move_assigns left x y) env =
      let r = move_assign left (env y) (env x) in if x == y then env else set x r.0 (set y r.1 env)

  pub run : List (Statement Scalar) → (ℕ → Mixed Scalar) → ℕ → Mixed Scalar
  run [] env = env
  run (s ∷ ss) env = run ss (step s env)

  -- A variable's value after a move out of it: a text and binary data are then not specified.
  unfoldable pub left_behind : Value Scalar → Option (Value Scalar)
  left_behind nothing = some nothing
  left_behind (scalar v) = some (scalar v)
  left_behind (text v) = none
  left_behind (binary v) = none

  pub left_of : Option (Value Scalar) → Option (Value Scalar)
  left_of none = none
  left_of (some v) = left_behind v

  -- What the variables hold when a value is simply a value; `none` where it is not specified.
  unfoldable pub intended :
      Statement Scalar → (ℕ → Option (Value Scalar)) → ℕ → Option (Value Scalar)
  intended (constructs x v) vals = set x (some v) vals
  intended (copies x y) vals = set x (vals y) vals
  intended (assigns x y) vals = if x == y then vals else set x (vals y) vals
  intended (moves left x y) vals = set x (vals y) (set y (left_of (vals y)) vals)
  intended (move_assigns left x y) vals =
      if x == y then vals else set x (vals y) (set y (left_of (vals y)) vals)

  unfoldable pub intended_all :
      List (Statement Scalar) → (ℕ → Option (Value Scalar)) → ℕ → Option (Value Scalar)
  intended_all [] vals = vals
  intended_all (s ∷ ss) vals = intended_all ss (intended s vals)

  -- Every variable whose value is specified reads as that value.
  abbrev pub Reads : (ℕ → Option (Value Scalar)) → (ℕ → Mixed Scalar) → Type ℓ
  Reads vals env = (x : ℕ) (v : Value Scalar) → vals x ≡ some v → to_core (env x) ≡ v

  to_core-construct : (v : Value Scalar) → to_core (construct v) ≡ v
  unfolding to_core construct from_null from_scalar from_string from_binary
  to_core-construct nothing = refl
  to_core-construct (scalar v) = refl
  to_core-construct (text v) = refl
  to_core-construct (binary v) = refl

  to_core-copy_assign : (s t : Mixed Scalar) → to_core (copy_assign s t) ≡ to_core s
  unfolding to_core copy_assign take_owned
  to_core-copy_assign s t = ground arith

  to_core-copy_construct : (s : Mixed Scalar) → to_core (copy_construct s) ≡ to_core s
  unfolding to_core copy_construct take_owned empty_mixed
  to_core-copy_construct s = ground arith

  to_core-moved_out :
      (left : Bytes) (s : Mixed Scalar) (v : Value Scalar)
      → left_behind (to_core s) ≡ some v
      → to_core (moved_out left s) ≡ v
  unfolding to_core moved_out left_behind
  to_core-moved_out left s v e = ground arith

  Reads-set :
      (x : ℕ) (o : Option (Value Scalar)) (m : Mixed Scalar) (vals : ℕ → Option (Value Scalar))
      (env : ℕ → Mixed Scalar)
      → ((v : Value Scalar) → o ≡ some v → to_core m ≡ v)
      → Reads vals env
      → Reads (set x o vals) (set x m env)
  Reads-set x o m vals env h r y v = elim (Bool-cases (y == x)) [
    | inl e ↦ rw e (λ q. h v q)
    | inr e ↦ rw e (λ q. r y v q)
  ]

  Reads-left :
      (left : Bytes) (o : Option (Value Scalar)) (m : Mixed Scalar)
      → ((v : Value Scalar) → o ≡ some v → to_core m ≡ v)
      → (v : Value Scalar) → left_of o ≡ some v
      → to_core (moved_out left m) ≡ v
  unfolding left_of
  Reads-left left none m h v e = cc
  Reads-left left (some w) m h v e = to_core-moved_out left m v (ap left_behind (h w refl) ∙ e)

  step-Reads :
      (s : Statement Scalar) (vals : ℕ → Option (Value Scalar)) (env : ℕ → Mixed Scalar)
      → Reads vals env
      → Reads (intended s vals) (step s env)
  unfolding step intended move_construct move_assign copy_construct copy_assign
  step-Reads (constructs x v) vals env r =
      Reads-set x (some v) (construct v) vals env (λ w e. to_core-construct v ∙ ground (arith, e)) r
  step-Reads (copies x y) vals env r =
      Reads-set x (vals y) (copy_construct (env y)) vals env
        (λ v e. to_core-copy_construct (env y) ∙ r y v e) r
  step-Reads (assigns x y) vals env r = elim (Bool-cases (x == y)) [
    | inl e ↦ rw e r
    | inr e ↦ rw e (
        Reads-set x (vals y) (copy_assign (env y) (env x)) vals env
          (λ v q. to_core-copy_assign (env y) (env x) ∙ r y v q) r)
  ]
  step-Reads (moves left x y) vals env r =
      Reads-set x (vals y) (move_construct left (env y)).0 (set y (left_of (vals y)) vals)
        (set y (moved_out left (env y)) env) (λ v e. to_core-copy_construct (env y) ∙ r y v e)
        (Reads-set y (left_of (vals y)) (moved_out left (env y)) vals env
          (Reads-left left (vals y) (env y) (r y)) r)
  step-Reads (move_assigns left x y) vals env r = elim (Bool-cases (x == y)) [
    | inl e ↦ rw e r
    | inr e ↦ rw e (
        Reads-set x (vals y) (move_assign left (env y) (env x)).0 (set y (left_of (vals y)) vals)
          (set y (moved_out left (env y)) env)
          (λ v q. to_core-copy_assign (env y) (env x) ∙ r y v q)
          (Reads-set y (left_of (vals y)) (moved_out left (env y)) vals env
            (Reads-left left (vals y) (env y) (r y)) r))
  ]

  -- In the build with CPPREALM_HAVE_GENERATED_BRIDGE_TYPES, after any program, each variable whose value is specified reads as exactly that value: text and
  -- binary data are never lost, mixed up with those of another variable or left from an earlier value.
  pub run-Reads :
      (ss : List (Statement Scalar)) (vals : ℕ → Option (Value Scalar)) (env : ℕ → Mixed Scalar)
      → Reads vals env
      → Reads (intended_all ss vals) (run ss env)
  unfolding run intended_all
  run-Reads [] vals env r = r
  run-Reads (s ∷ ss) vals env r =
      run-Reads ss (intended s vals) (step s env) (step-Reads s vals env r)

  abbrev text_of : Value Scalar → Bytes
  text_of v = elim v [ nothing ↦ [] | scalar s ↦ [] | text b ↦ b | binary b ↦ [] ]

  abbrev data_of : Value Scalar → Bytes
  data_of v = elim v [ nothing ↦ [] | scalar s ↦ [] | text b ↦ [] | binary b ↦ b ]

  abbrev scalar_of : Value Scalar → Option Scalar
  scalar_of v = elim v [ nothing ↦ none | scalar s ↦ some s | text b ↦ none | binary b ↦ none ]

  -- A value of realm-core that the bridge takes over is given back unchanged, it is null exactly if
  -- the value is, and the conversions give its text, its binary data and the value held directly,
  -- empty where it is of another type.
  pub to_core-from_core :
      (v : Value Scalar)
      → (to_core (from_core v) ≡ v)
        × ((is_null (from_core v) ≡ true) ↔ (v ≡ nothing))
        × (to_string (from_core v) ≡ text_of v)
        × (to_binary (from_core v) ≡ data_of v)
        × (to_scalar (from_core v) ≡ scalar_of v)
  unfolding to_core from_core is_null to_string to_binary to_scalar empty_mixed
  to_core-from_core nothing = ground arith
  to_core-from_core (scalar v) = ground arith
  to_core-from_core (text v) = ground arith
  to_core-from_core (binary v) = ground arith
