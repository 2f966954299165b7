-- ===== src/Inbox/Visible.antt =====
-- The inbox shows exactly the messages that can be opened one by one.
use iceberg_ttx.Prelude.{
  ℕ, ◌<◌, String, true, false, ◌||◌, List, [], ◌∷◌, map, Option, none, some, ◌≡◌, ◌≢◌, ◌↔◌, ◌⊎◌,
  refl, mem-sorted, sorted-mem, sorted-distinct, sym, ◌∙◌, inl, inr, Option-cases, ◌==◌, ==→≡,
  ==_refl, nat_eq, option_eq, string_eq, pair_eq, select, has_duplicates, is_none, Memᴰ, mem-select,
  mem-select_of, has_duplicates-select,
}
use iceberg_ttx.Models.Enums.{
  UserRole, facilitator, participant, observer, user_role_eq, direction_eq,
}
use iceberg_ttx.Models.Exercise.{User}
use iceberg_ttx.Models.Communication.{Communication}
use iceberg_ttx.Models.Database.{Db}
use iceberg_ttx.Access.Gates.{Caller, exercise_group_for_user}
use iceberg_ttx.Membership.Valid.{member_key}
use iceberg_ttx.Inbox.Senders.{sender_teams_for_comms}
use iceberg_ttx.Inbox.Batched.{sender_teams_for_comms-eq}
use iceberg_ttx.Inbox.Listing.{newer, comms_of, listed, inbox, is_open, comm_visible_to_user}

-- The keys of the tables that a listing reads, and audiences as they are stored.
pub record HasMessages (db : Db) : Type 0 where
  pub once : has_duplicates (map member_key db.members.rows) ≡ false
  pub users : has_duplicates (map (λ (u : User). u.id) db.users) ≡ false
  pub ids : has_duplicates (map (λ (c : Communication). c.id) db.communications.rows) ≡ false
  pub below : (c : Communication) → Memᴰ c db.communications.rows → c.id < db.communications.next_id
  pub audience : (c : Communication) → Memᴰ c db.communications.rows → c.visible_to_teams ≢ some []

open_none : (o : Option (List String)) → o ≢ some [] → is_open o ≡ is_none o
open_none none h = refl
open_none (some []) h = absurd (h refl)
open_none (some (t ∷ ts)) h = refl

pub role_cases :
    (r : UserRole)
    → (((r == participant) ≡ true) × ((r == facilitator || r == observer) ≡ false))
      ⊎ (((r == participant) ≡ false) × ((r == facilitator || r == observer) ≡ true))
role_cases facilitator = inr (refl, refl)
role_cases participant = inl (refl, refl)
role_cases observer = inr (refl, refl)

mem-comms_of :
    (db : Db) (id : ℕ) (m : Communication)
    → Memᴰ m (comms_of db id)
    → Memᴰ m db.communications.rows × ((m.exercise_id == id) ≡ true)
mem-comms_of db id m mem = mem-select _ m _ (mem-sorted newer m _ mem)

comms_of-mem :
    (db : Db) (id : ℕ) (m : Communication)
    → Memᴰ m db.communications.rows
    → m.exercise_id ≡ id
    → Memᴰ m (comms_of db id)
comms_of-mem db id m mem q =
    let own : (m.exercise_id == id) ≡ true = rw (← q) (==_refl m.exercise_id) in
    sorted-mem newer m _ (mem-select_of (λ (c : Communication). c.exercise_id == id) m _ mem own)

module _ (db : Db) (tables : HasMessages db) (c : Caller) where
  -- For a participant the two tests are one.
  listed-eq :
      (m : Communication)
      → Memᴰ m (comms_of db m.exercise_id)
      → (c.user.role == facilitator || c.user.role == observer) ≡ false
      → listed
          (sender_teams_for_comms db (comms_of db m.exercise_id))
          c.user.id
          (exercise_group_for_user db m.exercise_id c)
          m
        ≡ comm_visible_to_user db m c
  unfolding comm_visible_to_user
  listed-eq m mem part =
      let comms = comms_of db m.exercise_id in
      let id_of = λ (x : Communication). x.id in
      let distinct = sorted-distinct newer id_of _ (
        has_duplicates-select id_of (λ (x : Communication). x.exercise_id == m.exercise_id)
          db.communications.rows tables.ids) in
      let answer = sender_teams_for_comms-eq db tables.once tables.users comms m distinct mem in
      let stored = tables.audience m (mem-comms_of db m.exercise_id m mem).0 in
      rw (answer, part, open_none m.visible_to_teams stored)
        (elim (Option-cases m.visible_to_teams) [ inl n ↦ rw n refl | inr (teams, s) ↦ rw s refl ])

  pub inbox-participant :
      (id : ℕ)
      → (c.user.role == participant) ≡ true
      → inbox db id c
        ≡ select
            (listed
              (sender_teams_for_comms db (comms_of db id))
              c.user.id
              (exercise_group_for_user db id c))
            (comms_of db id)
  unfolding inbox
  inbox-participant id part = rw part refl

  pub inbox-staff : (id : ℕ) → (c.user.role == participant) ≡ false → inbox db id c ≡ comms_of db id
  unfolding inbox
  inbox-staff id other = rw other refl

  visible_staff :
      (m : Communication)
      → (c.user.role == facilitator || c.user.role == observer) ≡ true
      → comm_visible_to_user db m c ≡ true
  unfolding comm_visible_to_user
  visible_staff m staff = rw staff refl

  -- A listing of the exercise that the message is in.
  shown :
      (id : ℕ) (m : Communication)
      → m.exercise_id ≡ id
      → Memᴰ m (comms_of db id)
      → (c.user.role == facilitator || c.user.role == observer) ≡ false
      → listed
          (sender_teams_for_comms db (comms_of db id))
          c.user.id
          (exercise_group_for_user db id c)
          m
        ≡ comm_visible_to_user db m c
  shown id m q mem part = rw (← q) (listed-eq m (rw (← q) at mem) part)

  pub inbox-distinct :
      (id : ℕ) → has_duplicates (map (λ (m : Communication). m.id) (inbox db id c)) ≡ false
  inbox-distinct id =
      let id_of = λ (x : Communication). x.id in
      let all_of = sorted-distinct newer id_of _ (
        has_duplicates-select id_of (λ (x : Communication). x.exercise_id == id)
          db.communications.rows tables.ids) in
      elim (role_cases c.user.role) [
        | inl (part, _) ↦
            rw (inbox-participant id part) (has_duplicates-select id_of _ (comms_of db id) all_of)
        | inr (other, _) ↦ rw (inbox-staff id other) all_of
      ]

  -- The inbox of a caller lists exactly the messages of the exercise that the caller may open one
  -- by one, although it looks the sender teams up in a batch. The identifiers of users and
  -- messages are distinct, a user has at most one member row in an exercise, and no stored
  -- audience is an empty list.
  pub inbox-visible :
      (id : ℕ) (m : Communication)
      → Memᴰ m (inbox db id c) ↔ (
          Memᴰ m db.communications.rows
          × (m.exercise_id ≡ id)
          × (comm_visible_to_user db m c ≡ true))
  inbox-visible id m = elim (role_cases c.user.role) [
    | inl (part, not_staff) ↦ (
      λ mem.
          let (in_comms, is_listed) =
            mem-select _ m (comms_of db id) (rw (inbox-participant id part) at mem) in
          let (row, own) = mem-comms_of db id m in_comms in
          let q = ==→≡ m.exercise_id id own in
          (row, q, sym (shown id m q in_comms not_staff) ∙ is_listed),
      λ (row, q, visible).
          let in_comms = comms_of-mem db id m row q in
          rw (inbox-participant id part) (
            mem-select_of _ m (comms_of db id) in_comms
              (shown id m q in_comms not_staff ∙ visible)),
    )
    | inr (other, staff) ↦ (
      λ mem.
          let (row, own) = mem-comms_of db id m (rw (inbox-staff id other) at mem) in
          (row, ==→≡ m.exercise_id id own, visible_staff m staff),
      λ (row, q, visible). rw (inbox-staff id other) (comms_of-mem db id m row q),
    )
  ]
