-- ===== src/Lease/Sealing.antt =====
-- What `close_open_lease` of branch_workers.py does to the open records of a journal.
use llm_vs_zombies.Base.{
  ℕ, ◌+◌, ◌≡◌, refl, sym, ap, subst, ◌∙◌, Bool, true, ◌&&◌, ◌||◌, not, Option, none, some, List, [],
  ◌∷◌, ◌++◌, String, str_eq_refl, any, keep, arith, In, keep_congr, keep-append, keep-keep, In-keep,
  inl, inr,
}
use mathlib.Core.List.{append-nil}
use llm_vs_zombies.Lease.Journal.{
  Entry, Key, key, eq_text, eq_key, mem_key, is_acquire, closed_keys, lease_open_records,
  close_open_lease, seal,
}

closed_keys-append :
    (xs ys : List Entry) → closed_keys (xs ++ ys) ≡ closed_keys xs ++ closed_keys ys
unfolding closed_keys
closed_keys-append [] ys = refl
closed_keys-append (e ∷ xs) ys = ground (arith, closed_keys-append xs ys)

any-append : (p : Key → Bool) (xs ys : List Key) → any p (xs ++ ys) ≡ (any p xs || any p ys)
any-append p [] ys = refl
any-append p (x ∷ xs) ys = ground (arith, any-append p xs ys)

module _ (clock : ℕ → ℕ) (b : String) where
  -- no sealing entry is an acquisition
  seal-none :
      (p : Entry → Bool) (i : ℕ) (xs : List Entry)
      → keep (λ e. is_acquire e.event && p e) (seal clock i b xs) ≡ []
  unfolding seal
  seal-none p i [] = refl
  seal-none p i (e ∷ xs) = seal-none p (i + 1) xs

  -- a sealed key is one of the branch
  seal-branch :
      (k : Key) (i : ℕ) (xs : List Entry)
      → mem_key k (closed_keys (seal clock i b xs)) ≡ true
      → eq_text k.0 (some b) ≡ true
  unfolding seal closed_keys
  seal-branch k i [] h = cc
  seal-branch k i (e ∷ xs) h = ground (arith, h, seal-branch k (i + 1) xs)

  eq_text_refl : (t : Option String) → eq_text t t ≡ true
  eq_text_refl none = refl
  eq_text_refl (some a) = str_eq_refl a

  -- each entry of the branch is sealed
  seal-all :
      (e : Entry) (i : ℕ) (xs : List Entry)
      → In e xs
      → eq_text e.branch_id (some b) ≡ true
      → mem_key (key e) (closed_keys (seal clock i b xs)) ≡ true
  unfolding seal closed_keys
  seal-all e i [] m h = absurd m.lower
  seal-all e i (x ∷ xs) (inl q) h =
      subst (λ y. mem_key (key e) (closed_keys (seal clock i b (y ∷ xs))) ≡ true) q
        (ground (arith, h, eq_text_refl e.token))
  seal-all e i (x ∷ xs) (inr m) h = ground (arith, seal-all e (i + 1) xs m h)

  abbrev mine : List Entry → List Entry
  mine journal = keep (λ e. eq_text e.branch_id (some b)) (lease_open_records journal)

  abbrev is_open : List Key → Entry → Bool
  is_open closed e = is_acquire e.event && not (mem_key (key e) closed)

  is_open-sealed :
      (journal : List Entry) (e : Entry)
      → In e journal
      → is_open (closed_keys (journal ++ seal clock 0 b (mine journal))) e
        ≡ (is_open (closed_keys journal) e && not (eq_text e.branch_id (some b)))
  unfolding lease_open_records
  is_open-sealed journal e m =
      let closed = mem_key (key e) (closed_keys journal) in
      let sealed = mem_key (key e) (closed_keys (seal clock 0 b (mine journal))) in
      let both : mem_key (key e) (closed_keys (journal ++ seal clock 0 b (mine journal)))
          ≡ (closed || sealed) =
        ap (any (eq_key (key e))) (closed_keys-append journal _)
        ∙ any-append _ (closed_keys journal) _ in
      let sound = seal-branch (key e) 0 (mine journal) in
      let whole : is_open (closed_keys journal) e ≡ true
          → eq_text e.branch_id (some b) ≡ true
          → sealed ≡ true =
        λ o h.
          seal-all e 0 (mine journal)
            (In-keep _ (lease_open_records journal) e (In-keep _ journal e m o) h) h in
      ground (arith, both, sound, whole)

  -- Sealing a branch's windows closes exactly the open records of that branch: the open records of
  -- the journal with the entries that `close_open_lease` appends are those of the journal before
  -- that belong to other branches, in their order.
  pub lease_open_records-close_open_lease :
      (journal : List Entry)
      → lease_open_records (journal ++ close_open_lease journal clock b)
        ≡ keep (λ e. not (eq_text e.branch_id (some b))) (lease_open_records journal)
  unfolding lease_open_records close_open_lease
  lease_open_records-close_open_lease journal =
      keep-append _ journal (seal clock 0 b (mine journal))
      ∙ (ap
            (λ ys.
              keep (is_open (closed_keys (journal ++ seal clock 0 b (mine journal)))) journal ++ ys)
            (seal-none _ 0 (mine journal))
          ∙ (append-nil _
              ∙ (keep_congr _ _ journal (is_open-sealed journal) ∙ sym (keep-keep _ _ journal))))
