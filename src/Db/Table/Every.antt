-- ===== src/Db/Table/Every.antt =====
-- What holds of every row of a table.
use mathlib.Core.Path.{subst}
use sauth.Prelude.{◌≡◌, Bool, true, false, some, List, [], ◌∷◌, ◌++◌, if◌then◌else◌}
use sauth.Db.Table.{find, delete_where}

-- Every row of a table.
abbrev pub All : {A : Type 0} → (A → Type 0) → List A → Type 0
All T [] = Unit
All T (r ∷ rs) = T r × All T rs

pub some_inj : {A : Type 0} {x y : A} → some x ≡ some y → x ≡ y
some_inj h = cc h

module _ {A : Type 0} (T : A → Type 0) where
  pub All-append : (rs : List A) (r : A) → All T rs → T r → All T (rs ++ r ∷ [])
  All-append [] r a t = (t, tt)
  All-append (q ∷ rs) r (u, a) t = (u, All-append rs r a t)

  All-if : (b : Bool) (r : A) (rs : List A) → T r → All T rs → All T (if b then rs else r ∷ rs)
  All-if true r rs t a = a
  All-if false r rs t a = (t, a)

  pub All-delete : (p : A → Bool) (rs : List A) → All T rs → All T (delete_where p rs)
  unfolding delete_where
  All-delete p [] a = tt
  All-delete p (r ∷ rs) (t, a) = All-if (p r) r (delete_where p rs) t (All-delete p rs a)

  find_cons :
      (b : Bool) (p : A → Bool) (q : A) (rs : List A) (r : A)
      → (if b then some q else find p rs) ≡ some r
      → (find p rs ≡ some r → T r)
      → T q
      → T r
  find_cons true p q rs r h f t = subst T (some_inj h) t
  find_cons false p q rs r h f t = f h

  pub All-find : (p : A → Bool) (rs : List A) (r : A) → find p rs ≡ some r → All T rs → T r
  unfolding find
  All-find p [] r h a = cc h
  All-find p (q ∷ rs) r h (t, a) = find_cons (p q) p q rs r h (λ e. All-find p rs r e a) t
