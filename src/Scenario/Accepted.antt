-- ===== src/Scenario/Accepted.antt =====
-- What an accepted scenario definition promises to the services that walk through it.
use iceberg_ttx.Prelude.Memᴰ
use iceberg_ttx.Prelude.{
  ℕ, ◌≤◌, String, Bool, true, false, not, List, [], ◌∷◌, map, Option, none, some, ◌≡◌, sym, arith,
  inl, inr, ◌==◌, string_eq, all, length, contains, has_duplicates, Bool-cases, Memᴰ, find, all-mem,
  find-of_mem, find-of_contains,
}
use iceberg_ttx.Errors.{ok, require-eq-ok, >>=-eq-ok, ok-injective}
use iceberg_ttx.Models.Scenario.{InjectOption, InjectNode, ScenarioDefinition}
use iceberg_ttx.Scenario.Graph.{to_list, option_targets, successors, check_no_cycles}
use iceberg_ttx.Scenario.Acyclic.{Walk, check_no_cycles-bounds}
use iceberg_ttx.Scenario.Validate.{
  known, check_inject, check_injects, ids, team_ids, validate_structure, parse_definition,
  map_result, validate_team, validate_node, normalized_id,
}
use iceberg_ttx.Scenario.Branch.{get_inject_node, option_target, resolve_branch}

pub record IsPlayable (d : ScenarioDefinition) : Type 0 where
  -- The start is an inject.
  pub starts : (n : InjectNode) × (get_inject_node d d.start_inject_id ≡ some n)
  -- Each inject is the one that its id finds.
  pub finds : (n : InjectNode) → Memᴰ n d.injects → get_inject_node d n.id ≡ some n
  -- Each successor of an inject is an inject.
  pub follows :
      (n : InjectNode) (t : String)
      → Memᴰ n d.injects
      → Memᴰ t (successors n)
      → (m : InjectNode) × Memᴰ m d.injects × (get_inject_node d t ≡ some m)
  -- Each option of an inject is the one that its id chooses.
  pub chooses :
      (n : InjectNode) (o : InjectOption)
      → Memᴰ n d.injects
      → Memᴰ o n.options
      → resolve_branch d n.id o.id ≡ o.next_inject_id
  -- An inject targets teams of the scenario.
  pub targets :
      (n : InjectNode) (team : String)
      → Memᴰ n d.injects
      → Memᴰ team n.target_teams
      → contains team (team_ids d.participant_teams) ≡ true
  -- A walk ends.
  pub ends : {a b : String} (k : ℕ) → Walk d.injects a b k → k ≤ length d.injects

is_false_of_not : (b : Bool) → not b ≡ true → b ≡ false
is_false_of_not b h = ground arith

-- The facts that one round of the loop over the injects has checked.
record Checks (inject_ids team_ids : List String) (n : InjectNode) : Type 0 where
  teams_known : all (λ team. contains team team_ids) n.target_teams ≡ true
  next_known : known inject_ids n.next_inject_id ≡ true
  options_distinct : has_duplicates (map (λ (o : InjectOption). o.id) n.options) ≡ false
  options_known : all (λ (o : InjectOption). known inject_ids o.next_inject_id) n.options ≡ true

check_inject-Checks :
    (is ts : List String) (n : InjectNode) → check_inject is ts n ≡ ok tt → Checks is ts n
unfolding check_inject
check_inject-Checks is ts n h =
    let (a, h₁) = require-eq-ok _ _ _ h in
    let (b, h₂) = require-eq-ok _ _ _ h₁ in
    let (c, h₃) = require-eq-ok _ _ _ h₂ in
    record {
      teams_known = a;
      next_known = b;
      options_distinct = is_false_of_not _ c;
      options_known = ground arith;
    }

check_injects-Checks :
    (is ts : List String) (ns : List InjectNode) (n : InjectNode)
    → check_injects is ts ns ≡ ok tt
    → Memᴰ n ns
    → Checks is ts n
unfolding check_injects
check_injects-Checks is ts [] n h m = elim m [ ]
check_injects-Checks is ts (x ∷ ns) n h m =
    let (_, a, b) = >>=-eq-ok (check_inject is ts x) _ h in
    elim (Memᴰ.cases_cons m) [
      | inl e ↦ rw e (check_inject-Checks is ts x a)
      | inr r ↦ check_injects-Checks is ts ns n b r
    ]

-- A successor that the checks have seen is listed.
mem-to_list :
    (is : List String) (o : Option String) (t : String)
    → known is o ≡ true
    → Memᴰ t (to_list o)
    → contains t is ≡ true
mem-to_list is none t h m = elim m [ ]
mem-to_list is (some u) t h m = rw (Memᴰ.eq_of_singleton m) h

mem-option_targets :
    (is : List String) (os : List InjectOption) (t : String)
    → all (λ (o : InjectOption). known is o.next_inject_id) os ≡ true
    → Memᴰ t (option_targets os)
    → contains t is ≡ true
unfolding option_targets
mem-option_targets is [] t h m = elim m [ ]
mem-option_targets is (o ∷ os) t h m = elim (Memᴰ.append_cases (to_list o.next_inject_id) m) [
  | inl l ↦ mem-to_list is o.next_inject_id t (ground arith) l
  | inr r ↦ mem-option_targets is os t (ground arith) r
]

Checks-successors :
    {is ts : List String} {n : InjectNode} (t : String)
    → Checks is ts n
    → Memᴰ t (successors n)
    → contains t is ≡ true
unfolding successors
Checks-successors {is} {n} t c m = elim (Memᴰ.append_cases (option_targets n.options) m) [
  | inl l ↦ mem-option_targets is n.options t c.options_known l
  | inr r ↦ mem-to_list is n.next_inject_id t c.next_known r
]

option_target-find :
    (o : InjectOption) (os : List InjectOption) (k : String)
    → find (λ p. p.id == k) os ≡ some o
    → option_target os k ≡ o.next_inject_id
unfolding option_target
option_target-find o [] k h = cc
option_target-find o (p ∷ os) k h = elim (Bool-cases (p.id == k)) [
  | inl t ↦ let q : p ≡ o = cc (rw t at h) in rw (t, q)
  | inr f ↦ rw f (option_target-find o os k (rw f at h))
]

-- A definition that passes `validate_structure` is playable, and is returned as it is.
pub validate_structure-IsPlayable :
    (d : ScenarioDefinition) {d' : ScenarioDefinition}
    → validate_structure d ≡ ok d'
    → (d' ≡ d) × IsPlayable d
unfolding validate_structure get_inject_node resolve_branch
validate_structure-IsPlayable d {d'} h =
    let (_, h₁) = require-eq-ok _ _ _ h in
    let (distinct, h₂) = require-eq-ok _ _ _ h₁ in
    let (_, h₃) = require-eq-ok _ _ _ h₂ in
    let (start, h₄) = require-eq-ok _ _ _ h₃ in
    let (_, checked, h₅) =
      >>=-eq-ok (check_injects (ids d.injects) (team_ids d.participant_teams) d.injects) _ h₄ in
    let (_, acyclic, h₆) = >>=-eq-ok (check_no_cycles d.injects) _ h₅ in
    let unique = is_false_of_not _ distinct in
    let facts =
      λ (n : InjectNode) (m : Memᴰ n d.injects). check_injects-Checks _ _ d.injects n checked m in
    let found = λ (n : InjectNode) (m : Memᴰ n d.injects).
      find-of_mem (λ (n : InjectNode). n.id) n d.injects unique m in
    (
      sym (ok-injective h₆),
      record {
        starts =
            let (n, _, e) =
              find-of_contains (λ (n : InjectNode). n.id) d.start_inject_id d.injects start in
            (n, e);
        finds = found;
        follows = λ n t m ht.
            find-of_contains (λ (n : InjectNode). n.id) t d.injects
              (Checks-successors t (facts n m) ht);
        chooses = λ n o m ho. rw (found n m) (
            option_target-find o n.options o.id (
              find-of_mem (λ (p : InjectOption). p.id) o n.options (facts n m).options_distinct
                ho));
        targets = λ n team m ht. all-mem _ team n.target_teams ht (facts n m).teams_known;
        ends = λ k w. check_no_cycles-bounds d.injects unique acyclic w;
      },
    )

-- An accepted scenario definition is playable: its start is an inject, ids find their injects,
-- every successor is an inject, every option is the one its id chooses, targeted teams exist, and
-- no walk along successors has more steps than there are injects.
pub parse_definition-IsPlayable :
    (raw : ScenarioDefinition) {d : ScenarioDefinition} → parse_definition raw ≡ ok d → IsPlayable d
unfolding parse_definition
parse_definition-IsPlayable raw {d} h =
    let (ts, _, h₁) = >>=-eq-ok (map_result validate_team raw.participant_teams) _ h in
    let (ns, _, h₂) = >>=-eq-ok (map_result validate_node raw.injects) _ h₁ in
    let (s, _, h₃) = >>=-eq-ok (normalized_id raw.start_inject_id) _ h₂ in
    let (e, p) =
      validate_structure-IsPlayable
        (record raw { participant_teams = ts; injects = ns; start_inject_id = s }) h₃ in
    rw e p
