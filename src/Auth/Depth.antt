-- ===== src/Auth/Depth.antt =====
-- bridge/src/auth.rs: `validate_json_depth` against the paths of a value.
use brp_spec.Base.{
  ℕ, zero, suc, ◌≤◌, ◌<◌, String, ◌≡◌, ◌↔◌, ◌⊎◌, inl, inr, refl, true, List, map, arith, In, length,
  all_sound, all_complete,
}
use brp_spec.Json.{SerdeJson, Shape}
use brp_spec.Auth.{validate_json_depth, max_array_length, max_object_keys}

module _ (J : SerdeJson) where
  open J use {Value, shape}

  pub data Child (v w : Value) : Type 0 where
    item : (arr : List Value) → shape v ≡ Shape.array arr → In w arr → Child v w
    member :
        (obj : List (String × Value))
        → shape v ≡ Shape.object obj
        → In w (map (λ e. e.1) obj)
        → Child v w

  -- `w` is found `n` steps below `v`.
  pub data Reaches : ℕ → Value → Value → Type 0 where
    here : {v : Value} → Reaches zero v v
    down : {n : ℕ} {v u w : Value} → Child v u → Reaches n u w → Reaches (suc n) v w

  pub record WithinLimits (v : Value) : Type 0 where
    pub items : (arr : List Value) → shape v ≡ Shape.array arr → length arr ≤ max_array_length
    pub keys :
        (obj : List (String × Value)) → shape v ≡ Shape.object obj → length obj ≤ max_object_keys

  limits_of_valid : (v : Value) (d : ℕ) → validate_json_depth J v (suc d) ≡ true → WithinLimits v
  unfolding validate_json_depth
  limits_of_valid v d h = record { items = λ arr e. ground arith; keys = λ obj e. ground arith }

  Child-valid :
      (v w : Value) (d : ℕ)
      → validate_json_depth J v (suc d) ≡ true
      → Child v w
      → validate_json_depth J w d ≡ true
  unfolding validate_json_depth
  Child-valid v w d h (item arr e m) =
      all_sound (λ x. validate_json_depth J x d) w arr (ground arith) m
  Child-valid v w d h (member obj e m) =
      all_sound (λ x. validate_json_depth J x d) w (map (λ x. x.1) obj) (ground arith) m

  sound :
      (d : ℕ) {n : ℕ} {v w : Value}
      → Reaches n v w
      → validate_json_depth J v d ≡ true
      → (n < d) × WithinLimits w
  unfolding validate_json_depth
  sound zero r h = cc
  sound (suc d) (here {v = v}) h = (omega arith, limits_of_valid v d h)
  sound (suc d) (down {v = v} {u = u} c r) h =
      let (deep, lim) = sound d r (Child-valid v u d h c) in (omega arith, lim)

  Shape-cases :
      (s : Shape Value)
      → ((arr : List Value) × (s ≡ Shape.array arr))
        ⊎ (((obj : List (String × Value)) × (s ≡ Shape.object obj)) ⊎ (s ≡ Shape.scalar))
  Shape-cases (Shape.array arr) = inl (arr, refl)
  Shape-cases (Shape.object obj) = inr (inl (obj, refl))
  Shape-cases Shape.scalar = inr (inr refl)

  -- Everything below `v` lies fewer than `d` steps down and is within the limits.
  abbrev pub IsBounded : Value → ℕ → Type 0
  IsBounded v d = (n : ℕ) (w : Value) → Reaches n v w → (n < d) × WithinLimits w

  below : (v u : Value) (d : ℕ) → IsBounded v (suc d) → Child v u → IsBounded u d
  below v u d f c n w r = let (deep, lim) = f (suc n) w (down c r) in (omega arith, lim)

  complete : (d : ℕ) (v : Value) → IsBounded v d → validate_json_depth J v d ≡ true
  unfolding validate_json_depth
  complete zero v f = absurd (omega (arith, (f zero v here).0))
  complete (suc d) v f = elim (Shape-cases (shape v)) [
    | inl (arr, e) ↦
        let each =
          all_complete (λ x. validate_json_depth J x d) arr
            (λ a m. complete d a (below v a d f (item arr e m))) in
        let few : length arr ≤ max_array_length = (f zero v here).1.items arr e in
        rw (e, validate_json_depth) (ground arith)
    | inr (inl (obj, e)) ↦
        let each =
          all_complete (λ x. validate_json_depth J x d) (map (λ x. x.1) obj)
            (λ a m. complete d a (below v a d f (member obj e m))) in
        let few : length obj ≤ max_object_keys = (f zero v here).1.keys obj e in
        rw (e, validate_json_depth) (ground arith)
    | inr (inr e) ↦ rw (e, validate_json_depth)
  ]

  -- The test accepts a value exactly if every value inside it, itself included, lies fewer than
  -- `d` steps down, has at most 1024 items if it is an array and 256 keys if it is an object.
  pub validate_json_depth_iff :
      (v : Value) (d : ℕ) → (validate_json_depth J v d ≡ true) ↔ IsBounded v d
  validate_json_depth_iff v d = (λ h n w r. sound d r h, complete d v)
