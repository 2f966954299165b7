-- ===== src/Membership/Seeded.antt =====
-- The injects that a new exercise starts with.
use mathlib.Core.List.{append_assoc, append-nil}
use iceberg_ttx.Prelude.{
  sym, ◌∙◌, ap, ◌++◌, map, true, All, All-append, select, select-append, ◌==◌, ==_refl, ℕ, suc,
  String, List, [], ◌∷◌, Option, ◌≡◌, ◌⊎◌, refl, inl, inr, nat_eq, option_eq, string_eq, Memᴰ,
  mem-snoc, mem-snoc_old, mem-snoc_new,
}
use iceberg_ttx.Models.Scenario.{InjectNode}
use iceberg_ttx.Models.Inject.{Inject}
use iceberg_ttx.Models.Database.{Table}
use iceberg_ttx.Membership.Create.{
  NewInject, inject_row, create_inject, node_inject, node_groups, seed_node, seed_nodes,
}

-- A row that the seeding of a node adds.
pub record IsSeed (exercise_id : ℕ) (n : InjectNode) (group : Option String) (x : Inject)
    : Type 0 where
  pub order : ℕ
  pub serial : ℕ
  pub target : Memᴰ group (node_groups n.target_teams)
  pub built : x ≡ inject_row (node_inject exercise_id order n group) serial

module _ (exercise_id : ℕ) where
  seed_node-keeps :
      (i : ℕ) (n : InjectNode) (groups : List (Option String)) (t : Table Inject) (x : Inject)
      → Memᴰ x t.rows
      → Memᴰ x (seed_node t exercise_id i n groups).rows
  unfolding seed_node create_inject
  seed_node-keeps i n [] t x m = m
  seed_node-keeps i n (g ∷ groups) t x m =
      seed_node-keeps i n groups _ x (mem-snoc_old x _ t.rows m)

  -- `ok` says which groups are known: the tail of a list of groups is part of it.
  seed_node-rows :
      (i : ℕ) (n : InjectNode) (groups : List (Option String)) (t : Table Inject) (x : Inject)
      → ((g : Option String) → Memᴰ g groups → Memᴰ g (node_groups n.target_teams))
      → Memᴰ x (seed_node t exercise_id i n groups).rows
      → Memᴰ x t.rows ⊎ ((g : Option String) × IsSeed exercise_id n g x)
  unfolding seed_node create_inject
  seed_node-rows i n [] t x known m = inl m
  seed_node-rows i n (g ∷ groups) t x known m =
      elim (seed_node-rows i n groups (create_inject t (node_inject exercise_id i n g)) x
        (λ h k. known h (Memᴰ.tail k)) m) [
          | inl old ↦ elim (mem-snoc x _ t.rows old) [
            | inl o ↦ inl o
            | inr e ↦ inr (
              g,
              record {
                order = i;
                serial = t.next_id;
                target = known g (Memᴰ.head refl);
                built = e;
              },
            )
          ]
          | inr seed ↦ inr seed
        ]

  seed_node-has :
      (i : ℕ) (n : InjectNode) (groups : List (Option String)) (t : Table Inject)
      (g : Option String)
      → Memᴰ g groups
      → Memᴰ g (node_groups n.target_teams)
      → (x : Inject) × Memᴰ x (seed_node t exercise_id i n groups).rows × IsSeed exercise_id n g x
  unfolding seed_node create_inject
  seed_node-has i n [] t g m target = elim m [ ]
  seed_node-has i n (h ∷ groups) t g (Memᴰ.head e) target =
      let x = inject_row (node_inject exercise_id i n h) t.next_id in
      (
        x,
        seed_node-keeps i n groups _ x (mem-snoc_new x t.rows),
        record { order = i; serial = t.next_id; target = target; built = rw e refl },
      )
  seed_node-has i n (h ∷ groups) t g (Memᴰ.tail m) target = seed_node-has i n groups _ g m target

  seed_nodes-keeps :
      (i : ℕ) (nodes : List InjectNode) (t : Table Inject) (x : Inject)
      → Memᴰ x t.rows
      → Memᴰ x (seed_nodes t exercise_id i nodes).rows
  unfolding seed_nodes
  seed_nodes-keeps i [] t x m = m
  seed_nodes-keeps i (n ∷ nodes) t x m =
      seed_nodes-keeps (suc i) nodes (seed_node t exercise_id i n (node_groups n.target_teams)) x
        (seed_node-keeps i n (node_groups n.target_teams) t x m)

  pub seed_nodes-rows :
      (i : ℕ) (nodes : List InjectNode) (t : Table Inject) (x : Inject)
      → Memᴰ x (seed_nodes t exercise_id i nodes).rows
      → Memᴰ x t.rows
        ⊎ ((n : InjectNode) × Memᴰ n nodes × (g : Option String) × IsSeed exercise_id n g x)
  unfolding seed_nodes
  seed_nodes-rows i [] t x m = inl m
  seed_nodes-rows i (n ∷ nodes) t x m = elim (seed_nodes-rows (suc i) nodes _ x m) [
    | inl old ↦ elim (seed_node-rows i n _ t x (λ g k. k) old) [
      | inl o ↦ inl o
      | inr (g, seed) ↦ inr (n, Memᴰ.head refl, g, seed)
    ]
    | inr (k, mem, g, seed) ↦ inr (k, Memᴰ.tail mem, g, seed)
  ]

  pub seed_nodes-has :
      (i : ℕ) (nodes : List InjectNode) (t : Table Inject) (n : InjectNode) (g : Option String)
      → Memᴰ n nodes
      → Memᴰ g (node_groups n.target_teams)
      → (x : Inject) × Memᴰ x (seed_nodes t exercise_id i nodes).rows × IsSeed exercise_id n g x
  unfolding seed_nodes
  seed_nodes-has i [] t n g m target = elim m [ ]
  seed_nodes-has i (k ∷ nodes) t n g (Memᴰ.head e) target =
      let (x, mem, seed) =
        seed_node-has i k (node_groups k.target_teams) t g (rw e at target) (rw e at target) in
      (
        x,
        seed_nodes-keeps (suc i) nodes (seed_node t exercise_id i k (node_groups k.target_teams)) x
            mem,
        rw e seed,
      )
  seed_nodes-has i (k ∷ nodes) t n g (Memᴰ.tail m) target =
      seed_nodes-has (suc i) nodes _ n g m target

  -- What a scenario says of the injects: node by node, and group by group within a node.
  unfoldable pub seeds : ℕ → List InjectNode → List NewInject
  seeds i [] = []
  seeds i (n ∷ nodes) =
      map (node_inject exercise_id i n) (node_groups n.target_teams) ++ seeds (suc i) nodes

  -- Rows with the serials from the first one on.
  unfoldable pub numbered : ℕ → List NewInject → List Inject
  numbered first [] = []
  numbered first (x ∷ xs) = inject_row x first ∷ numbered (suc first) xs

  unfoldable insert_all : Table Inject → List NewInject → Table Inject
  insert_all t [] = t
  insert_all t (x ∷ xs) = insert_all (create_inject t x) xs

  insert_all-append :
      (t : Table Inject) (xs ys : List NewInject)
      → insert_all t (xs ++ ys) ≡ insert_all (insert_all t xs) ys
  unfolding insert_all
  insert_all-append t [] ys = refl
  insert_all-append t (x ∷ xs) ys = insert_all-append (create_inject t x) xs ys

  insert_all-rows :
      (t : Table Inject) (xs : List NewInject)
      → (insert_all t xs).rows ≡ t.rows ++ numbered t.next_id xs
  unfolding insert_all numbered create_inject
  insert_all-rows t [] = sym (append-nil t.rows)
  insert_all-rows t (x ∷ xs) =
      insert_all-rows (create_inject t x) xs
      ∙ append_assoc t.rows (inject_row x t.next_id ∷ []) (numbered (suc t.next_id) xs)

  seed_node-insert_all :
      (i : ℕ) (n : InjectNode) (groups : List (Option String)) (t : Table Inject)
      → seed_node t exercise_id i n groups ≡ insert_all t (map (node_inject exercise_id i n) groups)
  unfolding seed_node insert_all
  seed_node-insert_all i n [] t = refl
  seed_node-insert_all i n (g ∷ groups) t =
      seed_node-insert_all i n groups (create_inject t (node_inject exercise_id i n g))

  seed_nodes-insert_all :
      (i : ℕ) (nodes : List InjectNode) (t : Table Inject)
      → seed_nodes t exercise_id i nodes ≡ insert_all t (seeds i nodes)
  unfolding seed_nodes seeds insert_all
  seed_nodes-insert_all i [] t = refl
  seed_nodes-insert_all i (n ∷ nodes) t =
      seed_nodes-insert_all (suc i) nodes (seed_node t exercise_id i n (node_groups n.target_teams))
      ∙ ap (λ u. insert_all u (seeds (suc i) nodes))
          (seed_node-insert_all i n (node_groups n.target_teams) t)
      ∙ sym (
          insert_all-append t (map (node_inject exercise_id i n) (node_groups n.target_teams))
            (seeds (suc i) nodes))

  abbrev Own : NewInject → Type 0
  Own x = x.exercise_id ≡ exercise_id

  map-Own :
      (i : ℕ) (n : InjectNode) (groups : List (Option String))
      → All Own (map (node_inject exercise_id i n) groups)
  map-Own i n [] = tt
  map-Own i n (g ∷ groups) = (refl, map-Own i n groups)

  seeds-Own : (i : ℕ) (nodes : List InjectNode) → All Own (seeds i nodes)
  unfolding seeds
  seeds-Own i [] = tt
  seeds-Own i (n ∷ nodes) =
      All-append Own (map (node_inject exercise_id i n) (node_groups n.target_teams))
        (seeds (suc i) nodes) (map-Own i n (node_groups n.target_teams)) (seeds-Own (suc i) nodes)

  select-numbered :
      (first : ℕ) (xs : List NewInject)
      → All Own xs
      → select (λ (r : Inject). r.exercise_id == exercise_id) (numbered first xs)
        ≡ numbered first xs
  unfolding numbered
  select-numbered first [] own = refl
  select-numbered first (x ∷ xs) own =
      let mine : (x.exercise_id == exercise_id) ≡ true = rw own.0 (==_refl exercise_id) in
      rw (mine, select-numbered (suc first) xs own.1) refl

  -- Where the exercise has no injects before, it has exactly these afterwards.
  pub seed_nodes-exact :
      (i : ℕ) (nodes : List InjectNode) (t : Table Inject)
      → select (λ (r : Inject). r.exercise_id == exercise_id) t.rows ≡ []
      → select
          (λ (r : Inject). r.exercise_id == exercise_id)
          (seed_nodes t exercise_id i nodes).rows
        ≡ numbered t.next_id (seeds i nodes)
  seed_nodes-exact i nodes t none_yet =
      ap (λ (u : Table Inject). select (λ (r : Inject). r.exercise_id == exercise_id) u.rows)
        (seed_nodes-insert_all i nodes t)
      ∙ ap (select (λ (r : Inject). r.exercise_id == exercise_id))
          (insert_all-rows t (seeds i nodes))
      ∙ select-append (λ (r : Inject). r.exercise_id == exercise_id) t.rows
          (numbered t.next_id (seeds i nodes))
      ∙ rw (none_yet, select-numbered t.next_id (seeds i nodes) (seeds-Own i nodes)) refl
