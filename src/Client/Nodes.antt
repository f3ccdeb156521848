-- ===== src/Client/Nodes.antt =====
-- The nodes that `list_target_nodes` makes of the pods (src/operator/kube_client.rs).
use ch_chaos.Base.{
  String, ◌≡◌, ◌≢◌, ◌↔◌, ◌⊎◌, inl, inr, true, Bool-cases, Option, none, some, List, [], ◌∷◌, All,
  Any, str_eq, str_eq_refl, str_eq_iff, insert_sorted, insert_sorted-All, sort_by, sort_by-Any,
  of_sort_by, text_le, text_le_total, text_le_trans,
}
use ch_chaos.Base.Ascending
use ch_chaos.Base.Ascending.{apart, text_order}
use ch_chaos.Client.{Pod}
use ch_chaos.Client.Methods.{node_of, push, node_names, keep, dedup, target_nodes}

-- in strictly ascending order
abbrev pub IsAscending : List String → Type 0
IsAscending = Ascending.IsAscending text_le

abbrev IsSorted : List String → Type 0
IsSorted [] = Unit
IsSorted (a ∷ l) = All (λ b. text_le a b ≡ true) l × IsSorted l

below_rest :
    (a b : String) (l : List String)
    → text_le a b ≡ true
    → All (λ c. text_le b c ≡ true) l
    → All (λ c. text_le a c ≡ true) l
below_rest a b [] h k = tt
below_rest a b (c ∷ l) h k = (text_le_trans a b c h k.0, below_rest a b l h k.1)

insert-IsSorted : (a : String) (l : List String) → IsSorted l → IsSorted (insert_sorted text_le a l)
insert-IsSorted a [] h = (tt, tt)
insert-IsSorted a (b ∷ l) h = elim (Bool-cases (text_le a b)) [
  | inl before ↦ rw before ((before, below_rest a b l before h.0), h)
  | inr after ↦ rw after (
    insert_sorted-All text_le (λ c. text_le b c ≡ true) a l (text_le_total a b after) h.0,
    insert-IsSorted a l h.1,
  )
]

sort-IsSorted : (l : List String) → IsSorted (sort_by text_le l)
unfolding sort_by
sort-IsSorted [] = tt
sort-IsSorted (a ∷ l) = insert-IsSorted a (sort_by text_le l) (sort-IsSorted l)

keep-All : (P : String → Type 0) (s : String) (l : List String) → P s → All P l → All P (keep s l)
keep-All P s [] p h = (p, tt)
keep-All P s (t ∷ l) p h = elim (Bool-cases (str_eq s t)) [
  | inl same ↦ rw same h
  | inr other ↦ rw other (p, h)
]

dedup-All : (P : String → Type 0) (l : List String) → All P l → All P (dedup l)
unfolding dedup
dedup-All P [] h = tt
dedup-All P (s ∷ l) h = keep-All P s (dedup l) h.0 (dedup-All P l h.1)

keep-IsAscending :
    (s : String) (l : List String)
    → All (λ b. text_le s b ≡ true) l
    → IsAscending l
    → IsAscending (keep s l)
keep-IsAscending s [] h k = (tt, tt)
keep-IsAscending s (t ∷ l) h k = elim (Bool-cases (str_eq s t)) [
  | inl same ↦ rw same k
  | inr other ↦
      let ne : s ≢ t = (λ e. cc (other, str_eq_refl t, e)) in
      rw other (((h.0, ne), apart text_le text_order s t l (h.0, ne) k.0), k)
]

dedup-IsAscending : (l : List String) → IsSorted l → IsAscending (dedup l)
unfolding dedup
dedup-IsAscending [] h = tt
dedup-IsAscending (s ∷ l) h =
    keep-IsAscending s (dedup l) (dedup-All _ l h.0) (dedup-IsAscending l h.1)

module _ (n : String) where
  abbrev IsNode : String → Type 0
  IsNode s = s ≡ n

  keep-Any : (s : String) (l : List String) → Any IsNode (keep s l) ↔ (IsNode s ⊎ Any IsNode l)
  keep-Any s [] = (λ h. h, λ h. h)
  keep-Any s (t ∷ l) = elim (Bool-cases (str_eq s t)) [
    | inl same ↦
        rw same (λ h. inr h, λ h. elim h [ inl e ↦ inl (cc (e, str_eq_iff s t same)) | inr k ↦ k ])
    | inr other ↦ rw other (λ h. h, λ h. h)
  ]

  dedup-Any : (l : List String) → Any IsNode (dedup l) ↔ Any IsNode l
  unfolding dedup
  dedup-Any [] = (λ h. h, λ h. h)
  dedup-Any (s ∷ l) = (
    λ h. elim ((keep-Any s (dedup l)).0 h) [ inl e ↦ inl e | inr k ↦ inr ((dedup-Any l).0 k) ],
    λ h. (keep-Any s (dedup l)).1 (elim h [ inl e ↦ inl e | inr k ↦ inr ((dedup-Any l).1 k) ]),
  )

  push-Any :
      (o : Option String) (l : List String) → Any IsNode (push o l) ↔ ((o ≡ some n) ⊎ Any IsNode l)
  push-Any none l = (λ h. inr h, λ h. elim h [ inl e ↦ cc e | inr k ↦ k ])
  push-Any (some s) l = (
    λ h. elim h [ inl e ↦ inl (cc e) | inr k ↦ inr k ],
    λ h. elim h [ inl e ↦ inl (cc e) | inr k ↦ inr k ],
  )

  node_names-Any :
      (pods : List Pod) → Any IsNode (node_names pods) ↔ Any (λ p. node_of p ≡ some n) pods
  unfolding node_names
  node_names-Any [] = (λ h. h, λ h. h)
  node_names-Any (p ∷ pods) = (
    λ h. elim ((push-Any (node_of p) (node_names pods)).0 h) [
      | inl e ↦ inl e
      | inr k ↦ inr ((node_names-Any pods).0 k)
    ],
    λ h.
        (push-Any (node_of p) (node_names pods)).1
          (elim h [ inl e ↦ inl e | inr k ↦ inr ((node_names-Any pods).1 k) ]),
  )

-- The target nodes are those that some pod of the namespace is scheduled on, in strictly ascending
-- order of their names: each node once.
pub target_nodes_lem :
    (pods : List Pod)
    → IsAscending (target_nodes pods)
      × ((n : String) → Any (λ s. s ≡ n) (target_nodes pods) ↔ Any (λ p. node_of p ≡ some n) pods)
unfolding target_nodes
target_nodes_lem pods =
    let names = node_names pods in
    (
      dedup-IsAscending (sort_by text_le names) (sort-IsSorted names),
      λ n. (
        λ h. (node_names-Any n pods).0 (of_sort_by text_le _ names ((dedup-Any n _).0 h)),
        λ h. (dedup-Any n _).1 (sort_by-Any text_le _ names ((node_names-Any n pods).1 h)),
      ),
    )
