-- ===== src/Base/Names/Sets.antt =====
-- A sorted set of names has the names of its list.
use llm_vs_zombies.Base.{
  inl, inr, refl, List, [], ◌∷◌, In, not-In-nil, Bool-cases, Str, eq_name, eq_name→eq, lt_name,
  insert_name, sorted_set,
}

pub In-insert_name_self : (k : Str) (ks : List Str) → In k (insert_name k ks)
unfolding insert_name
In-insert_name_self k [] = inl refl
In-insert_name_self k (j ∷ ks) = elim (Bool-cases (eq_name k j)) [
  | inl e ↦ rw e (inl (eq_name→eq k j e))
  | inr e ↦ rw e (elim (Bool-cases (lt_name k j)) [
    | inl l ↦ rw l (inl refl)
    | inr l ↦ rw l (inr (In-insert_name_self k ks))
  ])
]

pub In-insert_name_tail : (k : Str) (ks : List Str) (a : Str) → In a ks → In a (insert_name k ks)
unfolding insert_name
In-insert_name_tail k [] a m = not-In-nil a m
In-insert_name_tail k (j ∷ ks) a m = elim (Bool-cases (eq_name k j)) [
  | inl e ↦ rw e m
  | inr e ↦ rw e (elim (Bool-cases (lt_name k j)) [
    | inl l ↦ rw l (inr m)
    | inr l ↦ rw l (elim m [ inl f ↦ inl f | inr n ↦ inr (In-insert_name_tail k ks a n) ])
  ])
]

pub In-insert_name : (k : Str) (ks : List Str) (a : Str) → In a (insert_name k ks) → In a (k ∷ ks)
unfolding insert_name
In-insert_name k [] a m = m
In-insert_name k (j ∷ ks) a m = elim (Bool-cases (eq_name k j)) [
  | inl e ↦ inr (rw e at m)
  | inr e ↦ elim (Bool-cases (lt_name k j)) [
    | inl l ↦ rw (e, l) at m
    | inr l ↦
        let m' : In a (j ∷ insert_name k ks) = rw (e, l) at m in
        elim m' [
          | inl f ↦ inr (inl f)
          | inr n ↦ elim (In-insert_name k ks a n) [ inl f ↦ inl f | inr r ↦ inr (inr r) ]
        ]
  ]
]

pub In-sorted_set : (ks : List Str) (a : Str) → In a ks → In a (sorted_set ks)
unfolding sorted_set
In-sorted_set [] a m = m
In-sorted_set (k ∷ ks) a (inl e) = rw e (In-insert_name_self k (sorted_set ks))
In-sorted_set (k ∷ ks) a (inr m) = In-insert_name_tail k (sorted_set ks) a (In-sorted_set ks a m)

pub In-of_sorted_set : (ks : List Str) (a : Str) → In a (sorted_set ks) → In a ks
unfolding sorted_set
In-of_sorted_set [] a m = m
In-of_sorted_set (k ∷ ks) a m = elim (In-insert_name k (sorted_set ks) a m) [
  | inl e ↦ inl e
  | inr n ↦ inr (In-of_sorted_set ks a n)
]
