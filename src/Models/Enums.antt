-- ===== src/Models/Enums.antt =====
-- The enumerations of app/models, with `==`.
use iceberg_ttx.Prelude.{◌≡◌, ◌↔◌, Bool, true, false, arith, Eq}

pub data ExerciseState : Type 0 where
  draft active paused completed : ExerciseState

pub data SnapshotProvenance : Type 0 where
  pending exact unknown : SnapshotProvenance

pub data InjectState : Type 0 where
  pending released resolved : InjectState

pub data UserRole : Type 0 where
  facilitator participant observer : UserRole

pub data CommDirection : Type 0 where
  inbound outbound : CommDirection

abbrev pub exercise_state_beq : ExerciseState → ExerciseState → Bool
exercise_state_beq draft draft = true
exercise_state_beq active active = true
exercise_state_beq paused paused = true
exercise_state_beq completed completed = true
exercise_state_beq _ _ = false

pub exercise_state_beq_iff : (a b : ExerciseState) → (exercise_state_beq a b ≡ true) ↔ (a ≡ b)
exercise_state_beq_iff a b = ground arith

instance abbrev pub exercise_state_eq : Eq ExerciseState
exercise_state_eq = record { beq = exercise_state_beq; beq_iff = exercise_state_beq_iff }

abbrev pub inject_state_beq : InjectState → InjectState → Bool
inject_state_beq InjectState.pending InjectState.pending = true
inject_state_beq released released = true
inject_state_beq resolved resolved = true
inject_state_beq _ _ = false

pub inject_state_beq_iff : (a b : InjectState) → (inject_state_beq a b ≡ true) ↔ (a ≡ b)
inject_state_beq_iff a b = ground arith

instance abbrev pub inject_state_eq : Eq InjectState
inject_state_eq = record { beq = inject_state_beq; beq_iff = inject_state_beq_iff }

abbrev pub user_role_beq : UserRole → UserRole → Bool
user_role_beq facilitator facilitator = true
user_role_beq participant participant = true
user_role_beq observer observer = true
user_role_beq _ _ = false

pub user_role_beq_iff : (a b : UserRole) → (user_role_beq a b ≡ true) ↔ (a ≡ b)
user_role_beq_iff a b = ground arith

instance abbrev pub user_role_eq : Eq UserRole
user_role_eq = record { beq = user_role_beq; beq_iff = user_role_beq_iff }

abbrev pub provenance_beq : SnapshotProvenance → SnapshotProvenance → Bool
provenance_beq SnapshotProvenance.pending SnapshotProvenance.pending = true
provenance_beq exact exact = true
provenance_beq unknown unknown = true
provenance_beq _ _ = false

pub provenance_beq_iff : (a b : SnapshotProvenance) → (provenance_beq a b ≡ true) ↔ (a ≡ b)
provenance_beq_iff a b = ground arith

instance abbrev pub provenance_eq : Eq SnapshotProvenance
provenance_eq = record { beq = provenance_beq; beq_iff = provenance_beq_iff }

abbrev pub direction_beq : CommDirection → CommDirection → Bool
direction_beq inbound inbound = true
direction_beq outbound outbound = true
direction_beq _ _ = false

pub direction_beq_iff : (a b : CommDirection) → (direction_beq a b ≡ true) ↔ (a ≡ b)
direction_beq_iff a b = ground arith

instance abbrev pub direction_eq : Eq CommDirection
direction_eq = record { beq = direction_beq; beq_iff = direction_beq_iff }
