-- ===== src/Inbox/Batched.antt =====
-- The batched sender teams are those of the lookup for each message.
use iceberg_ttx.Prelude.{
  ℕ, String, true, false, List, [], ◌∷◌, map, Option, some, ◌≡◌, refl, sym, ap, ◌∙◌, inl, inr,
  Bool-cases, Option-cases, nat_eq, pair_eq, select, has_duplicates, Memᴰ, mem-select,
  mem-select_of, mem_of_key,
}
use iceberg_ttx.Prelude.Memᴰ
use iceberg_ttx.Models.Exercise.{User}
use iceberg_ttx.Models.Communication.{Communication}
use iceberg_ttx.Models.Database.{Db}
use iceberg_ttx.Membership.Valid.{member_key}
use iceberg_ttx.Inbox.Senders.{
  dict_get, own_team, looked_up, sender_team_for_comm, Resolved, is_unresolved, first_pass, Groups,
  group_ids_for, fallback_ids, user_teams_for, second_pass, sender_teams_for_comms,
}
use iceberg_ttx.Inbox.Lookups.{mem-of_dict_get, dict_get-none, batched_team-eq}

resolved_team :
    (db : Db) (c : Communication) → is_unresolved c ≡ false → own_team c ≡ sender_team_for_comm db c
unfolding sender_team_for_comm
resolved_team db c h = elim (Option-cases (own_team c)) [
  | inr (t, s) ↦ rw s refl
  | inl n ↦ elim (Option-cases c.sender_id) [
    | inl absent ↦ rw (n, absent) refl
    | inr (id, s) ↦ cc (rw (n, s) at h)
  ]
]

looked_up_team :
    (db : Db) (c : Communication)
    → is_unresolved c ≡ true
    → (id : ℕ) × (c.sender_id ≡ some id)
      × (looked_up db c.exercise_id (some id) ≡ sender_team_for_comm db c)
unfolding sender_team_for_comm
looked_up_team db c h = elim (Option-cases (own_team c)) [
  | inr (t, s) ↦ cc (rw s at h)
  | inl n ↦ elim (Option-cases c.sender_id) [
    | inl absent ↦ cc (rw (n, absent) at h)
    | inr (id, s) ↦ (id, s, rw (n, s) refl)
  ]
]

-- The entry of a message.
abbrev Answers : Db → List Communication → ℕ → Option String → Type 0
Answers db comms k v =
    (c : Communication) × Memᴰ c comms × (k ≡ c.id) × (v ≡ sender_team_for_comm db c)

first_pass-Answers :
    (db : Db) (comms : List Communication) (k : ℕ) (v : Option String)
    → Memᴰ (k, v) (first_pass comms)
    → Answers db comms k v
unfolding first_pass
first_pass-Answers db [] k v m = elim m [ ]
first_pass-Answers db (c ∷ comms) k v m = elim (Bool-cases (is_unresolved c)) [
  | inl t ↦
      let (d, mem, q, r) = first_pass-Answers db comms k v (rw t at m) in (d, Memᴰ.tail mem, q, r)
  | inr f ↦ elim (Memᴰ.cases_cons (rw f at m)) [
    | inl e ↦ (c, Memᴰ.head refl, ap (λ p. p.0) e, ap (λ p. p.1) e ∙ resolved_team db c f)
    | inr rest ↦
        let (d, mem, q, r) = first_pass-Answers db comms k v rest in (d, Memᴰ.tail mem, q, r)
  ]
]

first_pass-has :
    (c : Communication) (comms : List Communication)
    → Memᴰ c comms
    → is_unresolved c ≡ false
    → Memᴰ (c.id, own_team c) (first_pass comms)
unfolding first_pass
first_pass-has c [] m h = elim m [ ]
first_pass-has c (d ∷ comms) (Memᴰ.head e) h =
    let q : is_unresolved d ≡ false = rw e at h in rw (q, e) (Memᴰ.head refl)
first_pass-has c (d ∷ comms) (Memᴰ.tail m) h =
    let rest = first_pass-has c comms m h in
    elim (Bool-cases (is_unresolved d)) [ inl t ↦ rw t rest | inr f ↦ rw f (Memᴰ.tail rest) ]

second_pass-has :
    (groups : Groups) (teams : Resolved) (c : Communication) (id : ℕ) (comms : List Communication)
    → Memᴰ c comms
    → c.sender_id ≡ some id
    → (v : Option String) × Memᴰ (c.id, v) (second_pass groups teams comms)
unfolding second_pass
second_pass-has groups teams c id [] m h = elim m [ ]
second_pass-has groups teams c id (d ∷ comms) (Memᴰ.head e) h =
    let q : d.sender_id ≡ some id = rw e at h in rw (q, e) (_, Memᴰ.head refl)
second_pass-has groups teams c id (d ∷ comms) (Memᴰ.tail m) h =
    let (v, rest) = second_pass-has groups teams c id comms m h in
    elim (Option-cases d.sender_id) [
      | inl n ↦ (v, rw n rest)
      | inr (i, s) ↦ (v, rw s (Memᴰ.tail rest))
    ]

module _ (db : Db) (once : has_duplicates (map member_key db.members.rows) ≡ false)
    (users : has_duplicates (map (λ (u : User). u.id) db.users) ≡ false)
    (comms : List Communication) where
  abbrev unresolved : List Communication
  unresolved = select is_unresolved comms

  abbrev groups : Groups
  groups = group_ids_for db unresolved

  abbrev teams : Resolved
  teams = user_teams_for db (fallback_ids groups unresolved)

  -- The second pass over a part of what is unresolved.
  second_pass-Answers :
      (part : List Communication) (k : ℕ) (v : Option String)
      → ((c : Communication) → Memᴰ c part → Memᴰ c unresolved)
      → Memᴰ (k, v) (second_pass groups teams part)
      → Answers db part k v
  unfolding second_pass
  second_pass-Answers [] k v sub m = elim m [ ]
  second_pass-Answers (c ∷ part) k v sub m =
      let open_c = (mem-select is_unresolved c comms (sub c (Memᴰ.head refl))).1 in
      let (id, sent, q) = looked_up_team db c open_c in
      elim (Memᴰ.cases_cons (rw sent at m)) [
        | inl e ↦ (
          c,
          Memᴰ.head refl,
          ap (λ p. p.0) e,
          ap (λ p. p.1) e
              ∙ batched_team-eq db once users unresolved c id (sub c (Memᴰ.head refl)) sent
              ∙ q,
        )
        | inr rest ↦
            let (d, mem, a, b) = second_pass-Answers part k v (λ x n. sub x (Memᴰ.tail n)) rest in
            (d, Memᴰ.tail mem, a, b)
      ]

  entry-Answers :
      (k : ℕ) (v : Option String)
      → Memᴰ (k, v) (sender_teams_for_comms db comms)
      → Answers db comms k v
  unfolding sender_teams_for_comms
  entry-Answers k v m = elim (Memᴰ.append_cases (first_pass comms) m) [
    | inl early ↦ first_pass-Answers db comms k v early
    | inr late ↦
        let (c, mem, a, b) = second_pass-Answers unresolved k v (λ x n. n) late in
        (c, (mem-select is_unresolved c comms mem).0, a, b)
  ]

  has_entry :
      (c : Communication)
      → Memᴰ c comms
      → (v : Option String) × Memᴰ (c.id, v) (sender_teams_for_comms db comms)
  unfolding sender_teams_for_comms
  has_entry c m = elim (Bool-cases (is_unresolved c)) [
    | inl t ↦
        let (id, sent, _) = looked_up_team db c t in
        let (v, entry) =
          second_pass-has groups teams c id unresolved (mem-select_of is_unresolved c comms m t)
            sent in
        (v, Memᴰ.append_right (first_pass comms) entry)
    | inr f ↦ (
      own_team c,
      Memᴰ.append_left (second_pass groups teams unresolved) (first_pass-has c comms m f),
    )
  ]

  -- P
  pub sender_teams_for_comms-eq :
      (c : Communication)
      → has_duplicates (map (λ (d : Communication). d.id) comms) ≡ false
      → Memᴰ c comms
      → dict_get c.id (sender_teams_for_comms db comms) ≡ some (sender_team_for_comm db c)
  sender_teams_for_comms-eq c ids m =
      let entries = sender_teams_for_comms db comms in
      elim (Option-cases (dict_get c.id entries)) [
        | inl n ↦ let (v, entry) = has_entry c m in absurd (dict_get-none c.id v entries n entry)
        | inr (v, s) ↦
            let (d, mem, q, r) = entry-Answers c.id v (mem-of_dict_get c.id entries s) in
            let same : c ≡ d = mem_of_key (λ (x : Communication). x.id) c d comms ids m mem q in
            s ∙ ap some (r ∙ ap (sender_team_for_comm db) (sym same))
      ]
