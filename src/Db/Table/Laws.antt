-- ===== src/Db/Table/Laws.antt =====
-- Laws of the table operations.
use sauth.Prelude.{
  ◌≡◌, refl, Bool, true, false, ◌||◌, Option, none, some, List, [], ◌∷◌, ◌++◌, arith, if◌then◌else◌,
}
use sauth.Errors.{ok, err, no_rows}
use sauth.Db.Table.{one, find, exists, update_where}

module _ {ℓ} {A : Type ℓ} (p : A → Bool) where
  -- A row that `find` returns satisfies the condition.
  pub find-holds : (rs : List A) (r : A) → find p rs ≡ some r → p r ≡ true
  unfolding find
  find-holds [] r h = cc
  find-holds (x ∷ rs) r h = ground (arith, find-holds rs r)

  pub find-none_exists : (rs : List A) → find p rs ≡ none → exists p rs ≡ false
  unfolding find exists
  find-none_exists [] h = refl
  find-none_exists (x ∷ rs) h = ground (arith, find-none_exists rs)

  pub exists-false-find : (rs : List A) → exists p rs ≡ false → find p rs ≡ none
  unfolding find exists
  exists-false-find [] h = refl
  exists-false-find (x ∷ rs) h = ground (arith, exists-false-find rs)

  -- What no row satisfies, the row that is found does not satisfy.
  pub find-exists_false :
      (q : A → Bool) (rs : List A) (r : A) → find p rs ≡ some r → exists q rs ≡ false → q r ≡ false
  unfolding find exists
  find-exists_false q [] r h e = cc
  find-exists_false q (x ∷ rs) r h e = ground (arith, find-exists_false q rs r)

  pub find-append : (rs qs : List A) (r : A) → find p rs ≡ some r → find p (rs ++ qs) ≡ some r
  unfolding find
  find-append [] qs r h = cc
  find-append (x ∷ rs) qs r h = ground (arith, find-append rs qs r)

  pub find-append_absent : (rs qs : List A) → find p rs ≡ none → find p (rs ++ qs) ≡ find p qs
  unfolding find
  find-append_absent [] qs h = refl
  find-append_absent (x ∷ rs) qs h = ground (arith, find-append_absent rs qs)

  pub exists-append : (rs qs : List A) → exists p (rs ++ qs) ≡ (exists p rs || exists p qs)
  unfolding exists
  exists-append [] qs = refl
  exists-append (x ∷ rs) qs = ground (arith, exists-append rs qs)

  module _ (q : A → Bool) (f : A → A) where
    -- An update that does not change whether a row satisfies `p` changes no search by `p` but for
    -- the contents of the row.
    pub find-update_stable :
        ((r : A) → p (f r) ≡ p r)
        → (rs : List A) (r : A) → find p rs ≡ some r
        → find p (update_where q f rs) ≡ some (if q r then f r else r)
    unfolding find update_where
    find-update_stable same [] r h = cc
    find-update_stable same (x ∷ rs) r h = ground (arith, same x, find-update_stable same rs r)

    pub find-update_none :
        ((r : A) → p (f r) ≡ p r)
        → (rs : List A) → find p rs ≡ none
        → find p (update_where q f rs) ≡ none
    unfolding find update_where
    find-update_none same [] h = refl
    find-update_none same (x ∷ rs) h = ground (arith, same x, find-update_none same rs)

-- QueryRow succeeds with the row that is found.
pub one_ok {ℓ} : {A : Type ℓ} (o : Option A) {a : A} → one o ≡ ok a → o ≡ some a
one_ok none h = cc
one_ok (some b) h = cc

-- QueryRow fails with ErrNoRows when no row is found.
pub one_no_rows {ℓ} : {A : Type ℓ} (o : Option A) → one o ≡ err no_rows → o ≡ none
one_no_rows none h = refl
one_no_rows (some b) h = cc
