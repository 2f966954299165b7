-- ===== src/Scenario/Dict.antt =====
-- The dict of successors against the injects that it is built from.
use iceberg_ttx.Prelude.Memᴰ
use iceberg_ttx.Prelude.{
  suc, ◌≤◌, ◌+◌, String, false, List, [], ◌∷◌, map, Option, none, some, ◌≡◌, ◌⊎◌, refl, arith, inl,
  inr, ◌==◌, string_eq, length, contains, has_duplicates, Bool-cases, Memᴰ,
}
use iceberg_ttx.Models.Scenario.{InjectOption, InjectNode}
use iceberg_ttx.Scenario.Graph.{
  GraphNode, to_list, option_targets, successors, set_key, set_keys, graph,
}

-- The inject names the target: as its own next inject, or as that of one of its options.
pub data Follows (n : InjectNode) (t : String) : Type 0 where
  by_default : n.next_inject_id ≡ some t → Follows n t
  by_option : (o : InjectOption) → Memᴰ o n.options → o.next_inject_id ≡ some t → Follows n t

mem-to_list_of : (o : Option String) (t : String) → o ≡ some t → Memᴰ t (to_list o)
mem-to_list_of o t h = rw h (Memᴰ.head refl)

to_list-some : (o : Option String) (t : String) → Memᴰ t (to_list o) → o ≡ some t
to_list-some none t m = elim m [ ]
to_list-some (some u) t m = rw (Memᴰ.eq_of_singleton m) refl

option-listed :
    (o : InjectOption) (os : List InjectOption) (t : String)
    → Memᴰ o os
    → o.next_inject_id ≡ some t
    → Memᴰ t (option_targets os)
unfolding option_targets
option-listed o [] t m h = elim m [ ]
option-listed o (p ∷ os) t (Memᴰ.head e) h =
    Memᴰ.append_left (option_targets os) (mem-to_list_of p.next_inject_id t (rw e at h))
option-listed o (p ∷ os) t (Memᴰ.tail m) h =
    Memᴰ.append_right (to_list p.next_inject_id) (option-listed o os t m h)

listed-option :
    (os : List InjectOption) (t : String)
    → Memᴰ t (option_targets os)
    → (o : InjectOption) × Memᴰ o os × (o.next_inject_id ≡ some t)
unfolding option_targets
listed-option [] t m = elim m [ ]
listed-option (o ∷ os) t m = elim (Memᴰ.append_cases (to_list o.next_inject_id) m) [
  | inl l ↦ (o, Memᴰ.head refl, to_list-some o.next_inject_id t l)
  | inr r ↦ let (p, k, e) = listed-option os t r in (p, Memᴰ.tail k, e)
]

pub Follows-successors : (n : InjectNode) (t : String) → Follows n t → Memᴰ t (successors n)
unfolding successors
Follows-successors n t (by_default e) =
    Memᴰ.append_right (option_targets n.options) (mem-to_list_of n.next_inject_id t e)
Follows-successors n t (by_option o m e) =
    Memᴰ.append_left (to_list n.next_inject_id) (option-listed o n.options t m e)

pub successors-Follows : (n : InjectNode) (t : String) → Memᴰ t (successors n) → Follows n t
unfolding successors
successors-Follows n t m = elim (Memᴰ.append_cases (option_targets n.options) m) [
  | inl l ↦ let (o, k, e) = listed-option n.options t l in by_option o k e
  | inr r ↦ by_default (to_list-some n.next_inject_id t r)
]

abbrev pub entry_of : InjectNode → GraphNode
entry_of n = record { id = n.id; targets = successors n }

module _ (key : String) (targets : List String) where
  set_key-source :
      (g : List GraphNode) (m : GraphNode)
      → Memᴰ m (set_key key targets g)
      → (m ≡ record { id = key; targets = targets }) ⊎ Memᴰ m g
  unfolding set_key
  set_key-source [] m h = inl (Memᴰ.eq_of_singleton h)
  set_key-source (x ∷ g) m h = elim (Bool-cases (x.id == key)) [
    | inl t ↦ elim (Memᴰ.cases_cons (rw t at h)) [ inl e ↦ inl e | inr r ↦ inr (Memᴰ.tail r) ]
    | inr f ↦ elim (Memᴰ.cases_cons (rw f at h)) [
      | inl e ↦ inr (Memᴰ.head e)
      | inr r ↦ elim (set_key-source g m r) [ inl e ↦ inl e | inr o ↦ inr (Memᴰ.tail o) ]
    ]
  ]

  set_key-has :
      (g : List GraphNode) → Memᴰ (record { id = key; targets = targets }) (set_key key targets g)
  unfolding set_key
  set_key-has [] = Memᴰ.head refl
  set_key-has (x ∷ g) = elim (Bool-cases (x.id == key)) [
    | inl t ↦ rw t (Memᴰ.head refl)
    | inr f ↦ rw f (Memᴰ.tail (set_key-has g))
  ]

  set_key-keeps :
      (g : List GraphNode) (m : GraphNode)
      → Memᴰ m g
      → (m.id == key) ≡ false
      → Memᴰ m (set_key key targets g)
  unfolding set_key
  set_key-keeps [] m h other = elim h [ ]
  set_key-keeps (x ∷ g) m (Memᴰ.head e) other =
      let f : (x.id == key) ≡ false = rw e at other in rw f (Memᴰ.head e)
  set_key-keeps (x ∷ g) m (Memᴰ.tail h) other = elim (Bool-cases (x.id == key)) [
    | inl t ↦ rw t (Memᴰ.tail h)
    | inr f ↦ rw f (Memᴰ.tail (set_key-keeps g m h other))
  ]

  length-set_key : (g : List GraphNode) → length (set_key key targets g) ≤ suc (length g)
  unfolding set_key
  length-set_key [] = omega arith
  length-set_key (x ∷ g) = elim (Bool-cases (x.id == key)) [
    | inl t ↦ rw t (omega arith)
    | inr f ↦ rw f (omega (arith, length-set_key g))
  ]

set_keys-source :
    (g : List GraphNode) (ns : List InjectNode) (m : GraphNode)
    → Memᴰ m (set_keys g ns)
    → Memᴰ m g ⊎ ((n : InjectNode) × Memᴰ n ns × (m ≡ entry_of n))
unfolding set_keys
set_keys-source g [] m h = inl h
set_keys-source g (n ∷ ns) m h = elim (set_keys-source (set_key n.id (successors n) g) ns m h) [
  | inl old ↦ elim (set_key-source n.id (successors n) g m old) [
    | inl e ↦ inr (n, Memᴰ.head refl, e)
    | inr o ↦ inl o
  ]
  | inr (k, mem, e) ↦ inr (k, Memᴰ.tail mem, e)
]

set_keys-keeps :
    (g : List GraphNode) (ns : List InjectNode) (m : GraphNode)
    → Memᴰ m g
    → contains m.id (map (λ (n : InjectNode). n.id) ns) ≡ false
    → Memᴰ m (set_keys g ns)
unfolding set_keys
set_keys-keeps g [] m h other = h
set_keys-keeps g (n ∷ ns) m h other =
    set_keys-keeps (set_key n.id (successors n) g) ns m
      (set_key-keeps n.id (successors n) g m h (ground arith)) (ground arith)

set_keys-has :
    (g : List GraphNode) (ns : List InjectNode) (n : InjectNode)
    → has_duplicates (map (λ (n : InjectNode). n.id) ns) ≡ false
    → Memᴰ n ns
    → Memᴰ (entry_of n) (set_keys g ns)
unfolding set_keys
set_keys-has g [] n distinct h = elim h [ ]
set_keys-has g (k ∷ ns) n distinct (Memᴰ.head e) = rw e (
    set_keys-keeps (set_key k.id (successors k) g) ns (entry_of k)
      (set_key-has k.id (successors k) g) (ground arith))
set_keys-has g (k ∷ ns) n distinct (Memᴰ.tail h) =
    set_keys-has (set_key k.id (successors k) g) ns n (ground arith) h

length-set_keys :
    (g : List GraphNode) (ns : List InjectNode) → length (set_keys g ns) ≤ length g + length ns
unfolding set_keys
length-set_keys g [] = omega arith
length-set_keys g (n ∷ ns) = omega (
  arith,
  length-set_keys (set_key n.id (successors n) g) ns,
  length-set_key n.id (successors n) g,
)

-- An entry of the dict is the one of some inject.
pub graph-source :
    (injects : List InjectNode) (m : GraphNode)
    → Memᴰ m (graph injects)
    → (n : InjectNode) × Memᴰ n injects × (m ≡ entry_of n)
unfolding graph
graph-source injects m h = elim (set_keys-source [] injects m h) [
  | inl nothing ↦ elim nothing [ ]
  | inr found ↦ found
]

-- Each of the injects has its entry, where no other has the same key.
pub graph-has :
    (injects : List InjectNode) (n : InjectNode)
    → has_duplicates (map (λ (n : InjectNode). n.id) injects) ≡ false
    → Memᴰ n injects
    → Memᴰ (entry_of n) (graph injects)
unfolding graph
graph-has injects n distinct h = set_keys-has [] injects n distinct h

pub length-graph : (injects : List InjectNode) → length (graph injects) ≤ length injects
unfolding graph
length-graph injects = omega (arith, length-set_keys [] injects)
