-- ===== src/Db/Table/Distinct.antt =====
-- Keys that no two rows share, under inserts and updates.
use sauth.Prelude.{
  ◌≡◌, ◌∙◌, refl, Bool, false, List, [], ◌∷◌, ◌++◌, arith, if◌then◌else◌, Bool-cases, inl, inr,
}
use sauth.Db.Table.{exists, update_where, DistinctBy}
use sauth.Db.Table.Laws.{exists-append}

module _ {ℓ} {A : Type ℓ} where
  pub exists-same :
      (p q : A → Bool) → ((x : A) → p x ≡ q x) → (rs : List A) → exists p rs ≡ exists q rs
  unfolding exists
  exists-same p q same [] = refl
  exists-same p q same (r ∷ rs) = ground (arith, same r, exists-same p q same rs)

  -- An update that keeps what `p` asks for.
  pub exists-update :
      (p q : A → Bool) (f : A → A)
      → ((x : A) → p (f x) ≡ p x)
      → (rs : List A) → exists p (update_where q f rs) ≡ exists p rs
  unfolding exists update_where
  exists-update p q f same [] = refl
  exists-update p q f same (r ∷ rs) = ground (arith, same r, exists-update p q f same rs)

  pub update-none :
      (q : A → Bool) (f : A → A) (rs : List A) → exists q rs ≡ false → update_where q f rs ≡ rs
  unfolding exists update_where
  update-none q f [] h = refl
  update-none q f (r ∷ rs) h = ground (arith, update-none q f rs)

  module _ (same : A → A → Bool) where
    pub distinct-append :
        (rs : List A) (r : A)
        → DistinctBy same rs
        → exists (λ x. same x r) rs ≡ false
        → DistinctBy same (rs ++ r ∷ [])
    unfolding exists
    distinct-append [] r d h = (refl, tt)
    distinct-append (x ∷ rs) r d h = (
      ground (arith, exists-append (same x) rs (r ∷ []), d.0),
      distinct-append rs r d.1 (ground (arith, h)),
    )

    head-update :
        (q : A → Bool) (f : A → A)
        → ((x y : A) → same (f x) y ≡ same x y)
        → (r : A) (rs : List A) → exists (same r) rs ≡ false
        → exists (same (if q r then f r else r)) rs ≡ false
    head-update q f left r rs h = elim (Bool-cases (q r)) [
      | inl e ↦ rw e (exists-same (same (f r)) (same r) (left r) rs ∙ h)
      | inr e ↦ rw e h
    ]

    -- An update that changes no key.
    pub distinct-update :
        (q : A → Bool) (f : A → A)
        → ((x y : A) → same (f x) y ≡ same x y)
        → ((x y : A) → same x (f y) ≡ same x y)
        → (rs : List A) → DistinctBy same rs
        → DistinctBy same (update_where q f rs)
    unfolding update_where
    distinct-update q f left right [] d = tt
    distinct-update q f left right (r ∷ rs) d = (
      exists-update (same (if q r then f r else r)) q f (right _) rs
          ∙ head-update q f left r rs d.0,
      distinct-update q f left right rs d.1,
    )
