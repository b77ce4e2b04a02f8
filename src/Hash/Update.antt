-- ===== src/Hash/Update.antt =====
-- `hash_insert`, `hash_replace` and `hash_delete`.
use project_os.Base.{
  ℕ, ◌+◌, ◌^◌, ◌<◌, ◌≡◌, refl, inl, inr, Bool, true, false, Option, none, some, arith, ◌==◌,
  if◌then◌else◌, Bool-cases,
}
use project_os.Hash.{
  Hash, same_key, insert_elem, remove_hash_elem, hash_insert, hash_replace, hash_delete,
  delete_found,
}
use project_os.Base.{some->>=}
use project_os.Hash.Buckets.{holding, IsKey, Valid, hash_find-Finds}
use project_os.Hash.Moving.{rehash-Same}
use project_os.Hash.Change.{insert_elem-Valid, remove_hash_elem-Valid}

module _ (hash : ℕ → ℕ) (less : ℕ → ℕ → Bool) where
  -- After `new` has been inserted: `r` is the result.
  pub record Inserted (h : Hash) (new : ℕ) (r : Option ℕ) (h' : Hash) : Type 0 where
    pub valid : Valid hash less h'
    pub old : (y : ℕ) → r ≡ some y → (0 < holding hash h y) × (same_key less y new ≡ true)
    pub fresh : r ≡ none → (y : ℕ) → 0 < holding hash h y → same_key less y new ≡ false
    pub elements :
        (x : ℕ)
        → holding hash h' x
          ≡ holding hash h x + (if x == new then elim r [ none ↦ 1 | some y ↦ 0 ] else 0)
    pub size : h'.elem_cnt ≡ h.elem_cnt + elim r [ none ↦ 1 | some y ↦ 0 ]

  -- After `new` has replaced the element that is equal to it, if there is one.
  pub record Replaced (h : Hash) (new : ℕ) (r : Option ℕ) (h' : Hash) : Type 0 where
    pub valid : Valid hash less h'
    pub old : (y : ℕ) → r ≡ some y → (0 < holding hash h y) × (same_key less y new ≡ true)
    pub fresh : r ≡ none → (y : ℕ) → 0 < holding hash h y → same_key less y new ≡ false
    pub elements :
        (x : ℕ)
        → holding hash h' x ≡ (
            if x == new then 1 else elim r [
              | none ↦ holding hash h x
              | some y ↦ if x == y then 0 else holding hash h x
            ])

  -- After the element that is equal to `e` has been deleted, if there is one.
  pub record Deleted (h : Hash) (e : ℕ) (r : Option ℕ) (h' : Hash) : Type 0 where
    pub valid : Valid hash less h'
    pub old : (y : ℕ) → r ≡ some y → (0 < holding hash h y) × (same_key less y e ≡ true)
    pub fresh : r ≡ none → (y : ℕ) → 0 < holding hash h y → same_key less y e ≡ false
    pub elements :
        (x : ℕ)
        → holding hash h' x
          ≡ elim r [ none ↦ holding hash h x | some y ↦ if x == y then 0 else holding hash h x ]
    pub size : h'.elem_cnt + elim r [ none ↦ 0 | some y ↦ 1 ] ≡ h.elem_cnt

  module _ (k : IsKey hash less) (h : Hash) (ok : Bool) (v : Valid hash less h) where
    -- `hash_insert` into a valid table returns the element that is equal to the new one, and leaves
    -- the elements as they are; or none, where there is no such element, and the new one has been
    -- added. The table stays valid, whether there is memory for other buckets or not.
    pub hash_insert-Inserted :
        (new : ℕ)
        → h.elem_cnt + 1 < 2 ^ 32
        → (r : Option ℕ) × (h' : Hash) × (hash_insert hash less h ok new ≡ some (r, h'))
          × Inserted h new r h'
    unfolding hash_insert
    hash_insert-Inserted new room = elim (hash_find-Finds hash less h new k) [
      | inl (y, f, there, equal) ↦
          let (h', e, s) = rehash-Same hash less h ok v in
          (
            some y,
            h',
            rw f (some->>= _ _ _ e),
            record {
              valid = s.valid;
              old = λ z q. let same : y ≡ z = cc in rw (← same) (there, equal);
              fresh = λ q. cc;
              elements = λ x. ground (arith, s.elements x);
              size = omega (arith, s.size);
            },
          )
      | inr (f, others) ↦
          let (v1, more, grown) = insert_elem-Valid hash less k h v new room others in
          let (h', e, s) = rehash-Same hash less (insert_elem hash h new) ok v1 in
          (
            none,
            h',
            rw f (some->>= _ _ _ e),
            record {
              valid = s.valid;
              old = λ z q. cc;
              fresh = λ q. others;
              elements = λ x. ground (arith, s.elements x, more x);
              size = omega (arith, s.size, grown);
            },
          )
    ]

    -- `hash_delete` from a valid table returns the element that is equal to `e`, and takes it and no
    -- other off; or none, where there is no such element, and the table is as it was. The table
    -- stays valid.
    pub hash_delete-Deleted :
        (e : ℕ)
        → (r : Option ℕ) × (h' : Hash) × (hash_delete hash less h ok e ≡ some (r, h'))
          × Deleted h e r h'
    unfolding hash_delete delete_found
    hash_delete-Deleted e = elim (hash_find-Finds hash less h e k) [
      | inl (y, f, there, equal) ↦
          let (v1, left, one_less) = remove_hash_elem-Valid hash less k h v y there in
          let (h', e', s) = rehash-Same hash less (remove_hash_elem hash h y) ok v1 in
          (
            some y,
            h',
            rw f (some->>= _ _ _ e'),
            record {
              valid = s.valid;
              old = λ z q. let same : y ≡ z = cc in rw (← same) (there, equal);
              fresh = λ q. cc;
              elements = λ x. ground (arith, s.elements x, left x);
              size = omega (arith, s.size, one_less);
            },
          )
      | inr (f, others) ↦ (
        none,
        h,
        rw f refl,
        record {
          valid = v;
          old = λ z q. cc;
          fresh = λ q. others;
          elements = λ x. refl;
          size = omega arith;
        },
      )
    ]

    -- `hash_replace` puts the new element into a valid table, in the place of the element that is
    -- equal to it, which it returns; every other element stays. The table stays valid.
    pub hash_replace-Replaced :
        (new : ℕ)
        → h.elem_cnt + 1 < 2 ^ 32
        → (r : Option ℕ) × (h' : Hash) × (hash_replace hash less h ok new ≡ some (r, h'))
          × Replaced h new r h'
    unfolding hash_replace
    hash_replace-Replaced new room = elim (hash_find-Finds hash less h new k) [
      | inl (y, f, there, equal) ↦
          let (v1, left, one_less) = remove_hash_elem-Valid hash less k h v y there in
          let gone : (z : ℕ)
              → 0 < holding hash (remove_hash_elem hash h y) z
              → same_key less z new ≡ false =
            λ z p. elim (Bool-cases (same_key less z new)) [
              | inr unequal ↦ unequal
              | inl eq ↦
                  let same : z ≡ y =
                    v.distinct z y (ground (arith, left z, p)) there
                      (k.trans z new y eq (ground (arith, equal))) in
                  ground (arith, left z, p)
            ] in
          let (v2, more, grown) =
            insert_elem-Valid hash less k (remove_hash_elem hash h y) v1 new
              (omega (arith, one_less)) gone in
          let (h', e', s) =
            rehash-Same hash less (insert_elem hash (remove_hash_elem hash h y) new) ok v2 in
          (
            some y,
            h',
            rw f (some->>= _ _ _ e'),
            record {
              valid = s.valid;
              old = λ z q. let same : y ≡ z = cc in rw (← same) (there, equal);
              fresh = λ q. cc;
              elements = λ x. ground (arith, s.elements x, more x, left x, gone new, k.self new);
            },
          )
      | inr (f, others) ↦
          let (v1, more, grown) = insert_elem-Valid hash less k h v new room others in
          let (h', e, s) = rehash-Same hash less (insert_elem hash h new) ok v1 in
          (
            none,
            h',
            rw f (some->>= _ _ _ e),
            record {
              valid = s.valid;
              old = λ z q. cc;
              fresh = λ q. others;
              elements = λ x. ground (arith, s.elements x, more x, others new, k.self new);
            },
          )
    ]
