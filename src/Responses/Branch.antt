-- ===== src/Responses/Branch.antt =====
-- Which branch a response selects, and which responses go through.
use iceberg_ttx.Prelude.{
  ◌≤◌, String, true, false, List, [], ◌∷◌, ◌++◌, map, Option, none, some, ◌≡◌, refl, sym, ◌∙◌,
  subst, arith, inl, inr, ◌==◌, ==→≡, nat_eq, string_eq, option_eq, contains, null, is_blank,
  length, Bool-cases, Option-cases, Memᴰ, mem-of_find,
}
use iceberg_ttx.Prelude.Memᴰ
use iceberg_ttx.Errors.{ResponseError}
use iceberg_ttx.Models.Scenario.{InjectNode, InjectOption, ScenarioDefinition}
use iceberg_ttx.Scenario.Graph.{to_list, option_targets, successors}
use iceberg_ttx.Scenario.Branch.{
  get_inject_node, get_next_inject_ids, resolve_branch, option_target,
}
use iceberg_ttx.Scenario.Accepted.{IsPlayable}
use iceberg_ttx.Responses.Next.{
  response_validation_error, selection_error, or_else, response_next_inject_ids, truthy_list,
}

truthy_list-length : (o : Option String) → length (truthy_list o) ≤ 1
truthy_list-length none = omega arith
truthy_list-length (some s) = ground arith

to_list-length : (o : Option String) → length (to_list o) ≤ 1
to_list-length none = omega arith
to_list-length (some s) = omega arith

-- A response selects at most one next inject.
response_next_inject_ids-length :
    (d : ScenarioDefinition) (node_id : String) (selected : Option String)
    → length (response_next_inject_ids d node_id selected) ≤ 1
unfolding response_next_inject_ids get_next_inject_ids
response_next_inject_ids-length d node_id selected =
    elim (Option-cases (get_inject_node d node_id)) [
      | inl e ↦ rw e (omega arith)
      | inr (node, e) ↦ elim (Bool-cases (null node.options)) [
        | inl flat ↦ elim (Option-cases selected) [
          | inl n ↦ rw (e, flat, n) (rw (e, flat) (to_list-length node.next_inject_id))
          | inr (s, n) ↦ rw (e, flat, n) (omega arith)
        ]
        | inr branching ↦ elim (Option-cases selected) [
          | inl n ↦ rw (e, branching, n) (omega arith)
          | inr (s, n) ↦ elim (Bool-cases (is_blank s)) [
            | inl b ↦ rw (e, branching, n) (rw b (omega arith))
            | inr b ↦ rw (e, branching, n) (rw b (truthy_list-length (resolve_branch d node_id s)))
          ]
        ]
      ]
    ]

mem-left : {A : Type 0} (x : A) (xs ys : List A) → Memᴰ x xs → Memᴰ x (xs ++ ys)
mem-left x [] ys m = elim m [ ]
mem-left x (z ∷ xs) ys (Memᴰ.head e) = Memᴰ.head e
mem-left x (z ∷ xs) ys (Memᴰ.tail m) = Memᴰ.tail (mem-left x xs ys m)

mem-right : {A : Type 0} (x : A) (xs ys : List A) → Memᴰ x ys → Memᴰ x (xs ++ ys)
mem-right x [] ys m = m
mem-right x (z ∷ xs) ys m = Memᴰ.tail (mem-right x xs ys m)

option_target-mem :
    (os : List InjectOption) (selected t : String)
    → option_target os selected ≡ some t
    → Memᴰ t (option_targets os)
unfolding option_target option_targets
option_target-mem [] selected t h = cc
option_target-mem (o ∷ os) selected t h = elim (Bool-cases (o.id == selected)) [
  | inl here ↦ let q : o.next_inject_id ≡ some t = rw here at h in rw q (Memᴰ.head refl)
  | inr there ↦
      mem-right t (to_list o.next_inject_id) (option_targets os)
        (option_target-mem os selected t (rw there at h))
]

truthy_list-mem : (o : Option String) (t : String) → Memᴰ t (truthy_list o) → o ≡ some t
truthy_list-mem none t m = elim m [ ]
truthy_list-mem (some s) t m = elim (Bool-cases (is_blank s)) [
  | inl b ↦ elim (rw b at m) [ ]
  | inr b ↦ elim (Memᴰ.cases_cons (rw b at m)) [ inl e ↦ rw e refl | inr r ↦ elim r [ ] ]
]

-- What a response selects is a successor of its node.
next-successor :
    (d : ScenarioDefinition) (node_id t : String) (selected : Option String) (node : InjectNode)
    → get_inject_node d node_id ≡ some node
    → Memᴰ t (response_next_inject_ids d node_id selected)
    → Memᴰ t (successors node)
unfolding response_next_inject_ids get_next_inject_ids successors resolve_branch
next-successor d node_id t selected node e m = elim (Bool-cases (null node.options)) [
  | inl flat ↦ elim (Option-cases selected) [
    | inl n ↦ mem-right t (option_targets node.options) _ (rw (e, flat) at (rw (e, flat, n) at m))
    | inr (s, n) ↦ elim (rw (e, flat, n) at m) [ ]
  ]
  | inr branching ↦ elim (Option-cases selected) [
    | inl n ↦ elim (rw (e, branching, n) at m) [ ]
    | inr (s, n) ↦ elim (Bool-cases (is_blank s)) [
      | inl b ↦ elim (rw b at (rw (e, branching, n) at m)) [ ]
      | inr b ↦
          let chosen =
            truthy_list-mem (resolve_branch d node_id s) t (rw b at (rw (e, branching, n) at m)) in
          mem-left t (option_targets node.options) (to_list node.next_inject_id)
            (option_target-mem node.options s t (rw e at chosen))
    ]
  ]
]

next-none :
    (d : ScenarioDefinition) (node_id : String) (selected : Option String)
    → get_inject_node d node_id ≡ none
    → response_next_inject_ids d node_id selected ≡ []
unfolding response_next_inject_ids
next-none d node_id selected e = rw e refl

-- In a playable definition, each next inject that a response selects is an inject of the scenario.
pub next-playable :
    (d : ScenarioDefinition) (node_id t : String) (selected : Option String)
    → IsPlayable d
    → Memᴰ t (response_next_inject_ids d node_id selected)
    → (m : InjectNode) × Memᴰ m d.injects × (get_inject_node d t ≡ some m)
unfolding get_inject_node
next-playable d node_id t selected playable m = elim (Option-cases (get_inject_node d node_id)) [
  | inl e ↦ elim (subst (Memᴰ t) (next-none d node_id selected e) m) [ ]
  | inr (node, e) ↦
      playable.follows node t (mem-of_find (λ (inj : InjectNode). inj.id == node_id) d.injects e)
        (next-successor d node_id t selected node e m)
]

contains-option :
    (os : List InjectOption) (s : String)
    → contains s (map (λ (o : InjectOption). o.id) os) ≡ true
    → (o : InjectOption) × Memᴰ o os × (o.id ≡ s)
contains-option [] s h = cc
contains-option (o ∷ os) s h = elim (Bool-cases (s == o.id)) [
  | inl t ↦ (o, Memᴰ.head refl, sym (==→≡ s o.id t))
  | inr f ↦ let (x, m, e) = contains-option os s (rw f at h) in (x, Memᴰ.tail m, e)
]

or_else-none : (a b : Option ResponseError) → or_else a b ≡ none → a ≡ none
or_else-none none b h = refl
or_else-none (some e) b h = h

-- Under the options of a branching node, a selection without an error is listed.
selection-listed :
    (ids : List String) (selected : Option String)
    → null ids ≡ false
    → selection_error ids selected ≡ none
    → (s : String) × (selected ≡ some s) × (is_blank s ≡ false) × (contains s ids ≡ true)
selection-listed [] selected branching h = cc
selection-listed (i ∷ ids) none branching h = cc
selection-listed (i ∷ ids) (some s) branching h = (s, refl, ground arith, ground arith)

null-map : (os : List InjectOption) → null (map (λ (o : InjectOption). o.id) os) ≡ null os
null-map [] = refl
null-map (o ∷ os) = refl

-- In a playable definition, a response that passes the validation of a branching inject names one
-- of its options, and the next injects are exactly the target of that option, if it has one.
pub accepted-branch :
    (d : ScenarioDefinition) (node : InjectNode) (content : String) (selected : Option String)
    → IsPlayable d
    → Memᴰ node d.injects
    → null node.options ≡ false
    → response_validation_error (some node) content selected ≡ none
    → (o : InjectOption) × Memᴰ o node.options
      × (selected ≡ some o.id)
      × (response_next_inject_ids d node.id selected ≡ truthy_list o.next_inject_id)
unfolding response_validation_error response_next_inject_ids
accepted-branch d node content selected playable m branching h =
    let ids = map (λ (o : InjectOption). o.id) node.options in
    let clear = or_else-none (selection_error ids selected) _ h in
    let (s, n, named, listed) =
      selection-listed ids selected (null-map node.options ∙ branching) clear in
    let (o, mo, e) = contains-option node.options s listed in
    let found = playable.finds node m in
    let chosen : resolve_branch d node.id s ≡ o.next_inject_id =
      rw (← e) (playable.chooses node o m mo) in
    (o, mo, rw (n, e) refl, rw (n, found) (rw (branching) (rw (named, chosen) refl)))
