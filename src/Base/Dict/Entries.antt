-- ===== src/Base/Dict/Entries.antt =====
-- The entries of a dict: their values mapped, their keys distinct, and each found under its key.
use goggles.Base.{
  ◌≡◌, refl, ap, inl, inr, false, ◌||◌, some, [], ◌∷◌, arith, if◌then◌else◌, Bool-cases, Eq, ◌==◌,
  All,
}
use goggles.Base.Dict.{Dict, get, put, has, get_or, get-put}

module _ {ℓ κ ι} {K : Type ℓ} {V : Type κ} {W : Type ι} ⦃e : Eq K⦄ (f : V → W) where
  unfoldable pub map_values : Dict K V → Dict K W
  map_values [] = []
  map_values ((k, v) ∷ d) = (k, f v) ∷ map_values d

  pub get_or-map_values :
      (default : V) (k : K) (d : Dict K V)
      → get_or (f default) k (map_values d) ≡ f (get_or default k d)
  unfolding map_values get
  get_or-map_values default k [] = refl
  get_or-map_values default k ((j, v) ∷ d) = ground (arith, get_or-map_values default k d)

  pub put-map_values :
      (k : K) (v : V) (d : Dict K V) → put k (f v) (map_values d) ≡ map_values (put k v d)
  unfolding map_values put
  put-map_values k v [] = refl
  put-map_values k v ((j, w) ∷ d) = elim (Bool-cases (j == k)) [
    | inl p ↦ rw p refl
    | inr p ↦ rw p (ap (λ r. (j, f w) ∷ r) (put-map_values k v d))
  ]

module _ {ℓ κ} {K : Type ℓ} {V : Type κ} ⦃e : Eq K⦄ where
  -- No key stands twice.
  abbrev pub IsDict : Dict K V → Type 0
  IsDict [] = Unit
  IsDict ((k, v) ∷ d) = (has k d ≡ false) × IsDict d

  has-put : (k j : K) (v : V) (d : Dict K V) → has j (put k v d) ≡ (k == j || has j d)
  has-put k j v d = ground (arith, get-put k j v d)

  pub put-IsDict : (k : K) (v : V) (d : Dict K V) → IsDict d → IsDict (put k v d)
  unfolding put get
  put-IsDict k v [] h = (refl, tt)
  put-IsDict k v ((j, w) ∷ d) h = elim (Bool-cases (j == k)) [
    | inl p ↦ rw p h
    | inr p ↦ rw p (
      ground (arith, h.0, p, has-put k j v d, e.same_iff j k, e.same_iff k j),
      put-IsDict k v d h.1,
    )
  ]

  apart : (k : K) (d : Dict K V) → has k d ≡ false → All (λ p. (k == p.0) ≡ false) d
  unfolding get
  apart k [] h = tt
  apart k ((j, w) ∷ d) h =
      (ground (arith, e.same_iff j k, e.same_iff k j), apart k d (ground arith))

  found_behind :
      (k : K) (v : V) (d es : Dict K V)
      → All (λ p. (k == p.0) ≡ false) es
      → All (λ p. get p.0 d ≡ some p.1) es
      → All (λ p. get p.0 ((k, v) ∷ d) ≡ some p.1) es
  unfolding get
  found_behind k v d [] a h = tt
  found_behind k v d (p ∷ es) a h = (rw a.0 h.0, found_behind k v d es a.1 h.1)

  -- Each entry's value is what its key gives.
  pub get-IsDict : (d : Dict K V) → IsDict d → All (λ p. get p.0 d ≡ some p.1) d
  unfolding get
  get-IsDict [] h = tt
  get-IsDict ((k, v) ∷ d) h =
      (rw ((e.same_iff k k).1 refl) refl, found_behind k v d d (apart k d h.0) (get-IsDict d h.1))

  pub get_or-put :
      (default : V) (k j : K) (v : V) (d : Dict K V)
      → get_or default j (put k v d) ≡ (if k == j then v else get_or default j d)
  get_or-put default k j v d = ground (arith, get-put k j v d)

  pub get_or-some :
      (default : V) (k : K) (v : V) (d : Dict K V) → get k d ≡ some v → get_or default k d ≡ v
  get_or-some default k v d h = ground arith
