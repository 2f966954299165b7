-- ===== src/Inbox/Batch.antt =====
-- The batch of read times answers for each message, and a count of what has no answer.
use iceberg_ttx.Prelude.{
  ℕ, suc, Bool, true, false, ◌&&◌, List, [], ◌∷◌, length, ◌≡◌, refl, sym, ap, ◌∙◌, arith, inl, inr,
  Bool-cases, Option-cases, ◌==◌, ==→≡, ==_refl, nat_eq, find, select, contains, has_duplicates,
  is_none, Memᴰ, mem-select, mem-select_of, mem-map, map-mem, mem-of_find, mem-find, find-holds,
  and-left, and-right,
}
use iceberg_ttx.Models.Communication.{CommunicationRead}
use iceberg_ttx.Models.Database.{Db}
use iceberg_ttx.Inbox.Senders.{dict_get}
use iceberg_ttx.Inbox.Lookups.{mem-of_dict_get, dict_get-none}
use iceberg_ttx.Inbox.Receipts.{is_receipt, get_receipt, communication_read_times}

abbrev pub unread : Db → ℕ → ℕ → Bool
unread db user_id k = is_none (get_receipt db k user_id)

contains_id : (k : ℕ) (ids : List ℕ) → Memᴰ k ids → contains k ids ≡ true
contains_id k [] m = elim m [ ]
contains_id k (j ∷ ids) (Memᴰ.head e) = let q : (k == j) ≡ true = rw (← e) (==_refl k) in rw q refl
contains_id k (j ∷ ids) (Memᴰ.tail m) = ground (arith, contains_id k ids m)

-- The batch has a time exactly for the messages with a receipt.
pub batch-unread :
    (db : Db) (ids : List ℕ) (user_id k : ℕ)
    → Memᴰ k ids
    → is_none (dict_get k (communication_read_times db ids user_id)) ≡ unread db user_id k
unfolding communication_read_times get_receipt
batch-unread db [] user_id k m = elim m [ ]
batch-unread db (i ∷ ids) user_id k m =
    let times = communication_read_times db (i ∷ ids) user_id in
    let asked =
      λ (r : CommunicationRead). r.user_id == user_id && contains r.communication_id (i ∷ ids) in
    elim (Option-cases (dict_get k times)) [
      | inr (t, s) ↦
          let (r, mem, q) = mem-map _ _ _ (mem-of_dict_get k times s) in
          let (row, holds) = mem-select asked r db.reads mem in
          let this : k ≡ r.communication_id = ap (λ p. p.0) q in
          let his : (r.user_id == user_id) ≡ true = and-left _ _ holds in
          let mine : is_receipt k user_id r ≡ true =
            rw (this, ==_refl r.communication_id, his) refl in
          rw s (sym (mem-find (is_receipt k user_id) r db.reads row mine))
      | inl n ↦ elim (Option-cases (find (is_receipt k user_id) db.reads)) [
        | inl absent ↦ rw (n, absent) refl
        | inr (r, found) ↦
            let own = find-holds (is_receipt k user_id) db.reads found in
            let this : r.communication_id ≡ k = ==→≡ r.communication_id k (and-left _ _ own) in
            let mine : (r.user_id == user_id) ≡ true = and-right _ _ own in
            let among : contains r.communication_id (i ∷ ids) ≡ true =
              contains_id r.communication_id (i ∷ ids) (rw this m) in
            let holds : asked r ≡ true = ground (arith, mine, among) in
            let entry =
              map-mem {B = ℕ × ℕ} (λ (x : CommunicationRead). (x.communication_id, x.read_at)) r _
                (mem-select_of asked r db.reads (mem-of_find (is_receipt k user_id) db.reads found)
                  holds) in
            absurd (dict_get-none k r.read_at times n (rw this at entry))
      ]
    ]

select_same :
    (p p' : ℕ → Bool) (k : ℕ) (ids : List ℕ)
    → ((j : ℕ) → (j == k) ≡ false → p' j ≡ p j)
    → contains k ids ≡ false
    → select p' ids ≡ select p ids
select_same p p' k [] same h = refl
select_same p p' k (j ∷ ids) same h =
    let other : (j == k) ≡ false = ground arith in
    rw (same j other, select_same p p' k ids same (ground arith)) refl

apart : (j k : ℕ) (ids : List ℕ) → Memᴰ k ids → contains j ids ≡ false → (j == k) ≡ false
apart j k ids m h = elim (Bool-cases (j == k)) [
  | inl t ↦ let listed = contains_id k ids m in cc (rw (==→≡ j k t) at h)
  | inr f ↦ f
]

-- One element of a list without repetitions stops to count.
pub count_less :
    (p p' : ℕ → Bool) (k : ℕ) (ids : List ℕ)
    → p k ≡ true
    → p' k ≡ false
    → ((j : ℕ) → (j == k) ≡ false → p' j ≡ p j)
    → has_duplicates ids ≡ false
    → Memᴰ k ids
    → suc (length (select p' ids)) ≡ length (select p ids)
count_less p p' k [] hk hk' same distinct m = elim m [ ]
count_less p p' k (j ∷ ids) hk hk' same distinct (Memᴰ.head e) =
    let here : p j ≡ true = rw (← e) hk in
    let gone : p' j ≡ false = rw (← e) hk' in
    let rest = select_same p p' k ids same (rw e (ground arith)) in rw (here, gone, rest) refl
count_less p p' k (j ∷ ids) hk hk' same distinct (Memᴰ.tail m) =
    let other : (j == k) ≡ false = apart j k ids m (ground arith) in
    let rest = count_less p p' k ids hk hk' same (ground arith) m in
    elim (Bool-cases (p j)) [
      | inl t ↦ let u : p' j ≡ true = same j other ∙ t in rw (t, u, ← rest) refl
      | inr f ↦ let u : p' j ≡ false = same j other ∙ f in rw (f, u) rest
    ]
