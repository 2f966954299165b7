-- ===== src/Inbox/Lookups.antt =====
-- The two queries of the batched sender teams against the lookups of one message.
use iceberg_ttx.Prelude.{
  ℕ, String, true, false, ◌&&◌, List, [], ◌∷◌, map, Option, none, some, ◌≡◌, refl, mem-map, map-mem,
  ap, arith, inl, inr, Bool-cases, Option-cases, ◌==◌, ==→≡, ==_refl, Eq, nat_eq, pair_eq, contains,
  has_duplicates, Memᴰ, mem-select, mem-select_of, mem-of_find, find-holds, and-left, and-right,
  contains-map_of_mem, find-of_mem,
}
use iceberg_ttx.Prelude.Memᴰ
use iceberg_ttx.Models.Exercise.{User, ExerciseMember}
use iceberg_ttx.Models.Communication.{Communication}
use iceberg_ttx.Models.Database.{Db, get_user}
use iceberg_ttx.Access.Gates.{exercise_member_for_user}
use iceberg_ttx.Membership.Valid.{member_key}
use iceberg_ttx.Inbox.Senders.{
  dict_get, team_of, member_or_user, sender_ids, is_alone, group_ids_for, fallback_ids,
  user_teams_for, flat, batched_team,
}

module _ {K V : Type 0} ⦃e : Eq K⦄ where
  pub mem-of_dict_get :
      (k : K) (entries : List (K × V)) {v : V} → dict_get k entries ≡ some v → Memᴰ (k, v) entries
  mem-of_dict_get k [] h = cc
  mem-of_dict_get k ((key, value) ∷ entries) {v} h = elim (Option-cases (dict_get k entries)) [
    | inl n ↦ elim (Bool-cases (k == key)) [
      | inl t ↦
          let q : k ≡ key = ==→≡ k key t in
          let r : value ≡ v = cc (rw (n, t) at h) in Memᴰ.head (rw (q, r) refl)
      | inr f ↦ cc (rw (n, f) at h)
    ]
    | inr (w, s) ↦
        let r : w ≡ v = cc (rw s at h) in Memᴰ.tail (mem-of_dict_get k entries (rw r at s))
  ]

  pub dict_get-none :
      (k : K) (w : V) (entries : List (K × V)) → dict_get k entries ≡ none → ¬ Memᴰ (k, w) entries
  dict_get-none k w [] h m = elim m [ ]
  dict_get-none k w ((key, value) ∷ entries) h m = elim (Option-cases (dict_get k entries)) [
    | inl n ↦ elim (Memᴰ.cases_cons m) [
      | inl e ↦
          let q : (k == key) ≡ true = rw (← ap (λ p. p.0) e) (==_refl k) in cc (rw (n, q) at h)
      | inr r ↦ dict_get-none k w entries n r
    ]
    | inr (v, s) ↦ cc (rw s at h)
  ]

sender_listed :
    (c : Communication) (id : ℕ) (comms : List Communication)
    → Memᴰ c comms
    → c.sender_id ≡ some id
    → contains id (sender_ids comms) ≡ true
unfolding sender_ids
sender_listed c id [] m h = elim m [ ]
sender_listed c id (d ∷ comms) (Memᴰ.head e) h =
    let q : d.sender_id ≡ some id = rw e at h in rw (q, ==_refl id) refl
sender_listed c id (d ∷ comms) (Memᴰ.tail m) h =
    let rest = sender_listed c id comms m h in
    elim (Option-cases d.sender_id) [ inl n ↦ rw n rest | inr (i, s) ↦ rw s (ground (arith, rest)) ]

module _ (db : Db) (once : has_duplicates (map member_key db.members.rows) ≡ false)
    (users : has_duplicates (map (λ (u : User). u.id) db.users) ≡ false) where
  -- A member's row is the one that its key finds.
  member_found :
      (m : ExerciseMember) (exercise_id id : ℕ)
      → Memᴰ m db.members.rows
      → (exercise_id, id) ≡ member_key m
      → exercise_member_for_user db exercise_id id ≡ some m
  unfolding exercise_member_for_user
  member_found m exercise_id id mem q =
      rw (ap (λ p. p.0) q, ap (λ p. p.1) q) (find-of_mem member_key m db.members.rows once mem)

  user_found : (u : User) (id : ℕ) → Memᴰ u db.users → id ≡ u.id → get_user db id ≡ some u
  user_found u id mem q = rw q (find-of_mem (λ (x : User). x.id) u db.users users mem)

  group_entry :
      (unresolved : List Communication) (c : Communication) (id : ℕ) (m : ExerciseMember)
      → Memᴰ c unresolved
      → c.sender_id ≡ some id
      → exercise_member_for_user db c.exercise_id id ≡ some m
      → Memᴰ ((c.exercise_id, id), m.group_id) (group_ids_for db unresolved)
  unfolding group_ids_for exercise_member_for_user
  group_entry unresolved c id m mem sent found =
      let p = λ (x : ExerciseMember). x.exercise_id == c.exercise_id && x.user_id == id in
      let own = find-holds p db.members.rows found in
      let here : m.exercise_id ≡ c.exercise_id = ==→≡ _ _ (and-left _ _ own) in
      let this : m.user_id ≡ id = ==→≡ _ _ (and-right _ _ own) in
      let listed = λ (x : ExerciseMember).
        contains x.exercise_id (map (λ (d : Communication). d.exercise_id) unresolved)
        && contains x.user_id (sender_ids unresolved) in
      let asked : listed m ≡ true =
        rw
          (
            here,
            this,
            contains-map_of_mem (λ (d : Communication). d.exercise_id) c unresolved mem,
            sender_listed c id unresolved mem sent,
          )
          refl in
      let entry =
        map-mem {B = (ℕ × ℕ) × Option String}
          (λ (x : ExerciseMember). ((x.exercise_id, x.user_id), x.group_id)) m _
          (mem-select_of listed m db.members.rows (mem-of_find p db.members.rows found) asked) in
      rw (here, this) at entry

  -- An entry of the groups is a member's.
  group_of_entry :
      (unresolved : List Communication) (exercise_id id : ℕ) (group : Option String)
      → Memᴰ ((exercise_id, id), group) (group_ids_for db unresolved)
      → (m : ExerciseMember) × (exercise_member_for_user db exercise_id id ≡ some m)
        × (group ≡ m.group_id)
  unfolding group_ids_for
  group_of_entry unresolved exercise_id id group entry =
      let (m, mem, q) = mem-map _ _ _ entry in
      (
        m,
        member_found m exercise_id id (mem-select _ m db.members.rows mem).0 (ap (λ p. p.0) q),
        ap (λ p. p.1) q,
      )

  team_or_none :
      (unresolved : List Communication) (c : Communication) (id : ℕ)
      → Memᴰ c unresolved
      → c.sender_id ≡ some id
      → dict_get (c.exercise_id, id) (group_ids_for db unresolved) ≡ none
      → flat
          (dict_get id (user_teams_for db (fallback_ids (group_ids_for db unresolved) unresolved)))
        ≡ team_of (get_user db id)
  unfolding user_teams_for fallback_ids
  team_or_none unresolved c id mem sent alone =
      let groups = group_ids_for db unresolved in
      let ids = fallback_ids groups unresolved in
      let by_id = λ (u : User). u.id == id in
      elim (Option-cases (dict_get id (user_teams_for db ids))) [
        | inr (team, s) ↦
            let (u, mem_u, q) = mem-map _ _ _ (mem-of_dict_get id (user_teams_for db ids) s) in
            let found = user_found u id (mem-select _ u db.users mem_u).0 (ap (λ p. p.0) q) in
            rw (s, found) (ap (λ p. p.1) q)
        | inl n ↦ elim (Option-cases (get_user db id)) [
          | inl absent ↦ rw (n, absent) refl
          | inr (u, found) ↦
              let this : u.id ≡ id = ==→≡ u.id id (find-holds by_id db.users found) in
              let alone_c : is_alone groups c.exercise_id c.sender_id ≡ true =
                rw (sent, alone) refl in
              let asked : contains id ids ≡ true =
                sender_listed c id _ (mem-select_of _ c unresolved mem alone_c) sent in
              let entry =
                map-mem {B = ℕ × Option String} (λ (x : User). (x.id, x.team)) u _
                  (mem-select_of (λ (x : User). contains x.id ids) u db.users
                    (mem-of_find by_id db.users found) (rw this asked)) in
              absurd (dict_get-none id u.team (user_teams_for db ids) n (rw this at entry))
        ]
      ]

  pub batched_team-eq :
      (unresolved : List Communication) (c : Communication) (id : ℕ)
      → Memᴰ c unresolved
      → c.sender_id ≡ some id
      → batched_team
          (group_ids_for db unresolved)
          (user_teams_for db (fallback_ids (group_ids_for db unresolved) unresolved))
          c.exercise_id
          id
        ≡ member_or_user (exercise_member_for_user db c.exercise_id id) (get_user db id)
  batched_team-eq unresolved c id mem sent =
      let groups = group_ids_for db unresolved in
      elim (Option-cases (dict_get (c.exercise_id, id) groups)) [
        | inr (group, s) ↦
            let (m, found, q) =
              group_of_entry unresolved c.exercise_id id group (mem-of_dict_get _ groups s) in
            rw (s, found) q
        | inl n ↦ elim (Option-cases (exercise_member_for_user db c.exercise_id id)) [
          | inl absent ↦ rw (n, absent) (team_or_none unresolved c id mem sent n)
          | inr (m, found) ↦
              absurd
                (dict_get-none _ m.group_id groups n (group_entry unresolved c id m mem sent found))
        ]
      ]
