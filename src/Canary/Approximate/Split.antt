-- ===== src/Canary/Approximate/Split.antt =====
-- The two counts are a split of the replicas, or of one more if a surge is allowed.
use intuit_argo_rollouts_dem.Prelude.{
  ℕ, ◌+◌, ◌-◌, ◌*◌, ◌/◌, ◌≤◌, ◌<◌, ◌≡◌, refl, Bool, true, false, not, ◌||◌, List, [], ◌∷◌, ℤ, pos,
  add32, sub32, add32-pos, sub32-pos, mul32-pos, eqb_ℤ, ltb_ℤ, ◌⊎◌, inl, inr, ◌++◌, ◌&&◌, All,
  arith, Bool-cases,
}
use intuit_argo_rollouts_dem.Canary.Floats.{Float64, IsExact}
use intuit_argo_rollouts_dem.Canary.Approximate.{
  CanaryOption, weight_delta, best_of, options_of, choose, approximate_counts, when,
}
use intuit_argo_rollouts_dem.Canary.Approximate.Quotients.{ceil_le, div_le_ceil}

pub All-append {ℓ κ} :
    {A : Type ℓ} (P : A → Type κ) (xs ys : List A) → All P xs → All P ys → All P (xs ++ ys)
All-append P [] ys h k = k
All-append P (x ∷ xs) ys (h, hs) k = (h, All-append P xs ys hs k)

All-when {κ} :
    {A : Type 0} (P : A → Type κ) (b : Bool) (xs : List A)
    → (b ≡ true → All P xs)
    → All P (when b xs)
All-when P true xs h = h refl
All-when P false xs h = tt

and_right : (a b : Bool) → a && b ≡ true → b ≡ true
and_right a b h = ground arith

module _ (fl : Float64) where
  pub best_of-All {κ} :
      (P : CanaryOption → Type κ) (w m : ℤ) (o : CanaryOption) (os : List CanaryOption)
      → P o
      → All P os
      → P (best_of fl w m o os)
  unfolding best_of
  best_of-All P w m o [] h k = h
  best_of-All P w m o (x ∷ xs) h (k, ks) =
      elim (Bool-cases (
        fl.is_less (weight_delta fl w m x.canary x.total) (weight_delta fl w m o.canary o.total))) [
          | inl e ↦ rw e (best_of-All P w m x xs k ks)
          | inr e ↦ rw e (best_of-All P w m o xs h ks)
        ]

  -- Every option holds a property that the four kinds of options have.
  pub options_of-All {κ} :
      (P : CanaryOption → Type κ) (s g c f : ℤ) (tied surge_tied zero : Bool)
      → (ltb_ℤ c s || zero ≡ true → P (record { canary = c; total = s }))
      → (not (eqb_ℤ f (pos 0)) || zero ≡ true → P (record { canary = f; total = s }))
      → (ltb_ℤ (pos 0) g ≡ true → P (record { canary = c; total = add32 s (pos 1) }))
      → (ltb_ℤ (pos 0) g ≡ true
          → not (eqb_ℤ f (pos 0)) || zero ≡ true
          → P (record { canary = f; total = add32 s (pos 1) }))
      → All P (options_of fl s g c f tied surge_tied zero)
  unfolding options_of
  options_of-All P s g c f tied surge_tied zero h1 h2 h3 h4 =
      let floor_allowed = not (eqb_ℤ f (pos 0)) || zero in
      let o1 : CanaryOption = record { canary = c; total = s } in
      let o2 : CanaryOption = record { canary = f; total = s } in
      let o3 : CanaryOption = record { canary = c; total = add32 s (pos 1) } in
      let o4 : CanaryOption = record { canary = f; total = add32 s (pos 1) } in
      let last = when (not surge_tied && floor_allowed) (o4 ∷ []) in
      All-append P (when (ltb_ℤ c s || zero) (o1 ∷ [])) _
        (All-when P (ltb_ℤ c s || zero) (o1 ∷ []) (λ e. (h1 e, tt)))
        (All-append P (when (not tied && floor_allowed) (o2 ∷ [])) _
          (All-when P (not tied && floor_allowed) (o2 ∷ []) (λ e. (h2 (and_right _ _ e), tt)))
          (All-when P (ltb_ℤ (pos 0) g) (o3 ∷ last) (λ e. (
            h3 e,
            All-when P (not surge_tied && floor_allowed) (o4 ∷ [])
                (λ d. (h4 e (and_right _ _ d), tt)),
          ))))

  -- The choice has a property of pairs if every option has it, and so has the lack of options.
  choose-All {κ} :
      (P : ℤ × ℤ → Type κ) (s w m : ℤ) (os : List CanaryOption)
      → P (pos 0, s)
      → All (λ o. P (o.canary, sub32 o.total o.canary)) os
      → P (choose fl s w m os)
  unfolding choose
  choose-All P s w m [] h k = h
  choose-All P s w m (o ∷ os) h (k, ks) =
      best_of-All (λ x. P (x.canary, sub32 x.total x.canary)) w m o os k ks

-- The two counts are `c` and `t - c`, where `t` is the size `s`, or `s + 1` under a surge.
abbrev pub IsSplit : (s surge : ℕ) → ℤ × ℤ → Type 0
IsSplit s surge (canary, stable) =
    (c : ℕ) × (r : ℕ) × (canary ≡ pos c)
    × (stable ≡ pos r)
    × ((c + r ≡ s) ⊎ ((0 < surge) × (c + r ≡ s + 1)))

share :
    (s surge c t : ℕ)
    → c ≤ t
    → t ≤ 2147483647
    → (t ≡ s) ⊎ ((0 < surge) × (t ≡ s + 1))
    → IsSplit s surge (pos c, sub32 (pos t) (pos c))
share s surge c t h k e = (c, t - c, refl, sub32-pos t c h k, omega arith)

module _ (fl : Float64) (exact : IsExact fl) where
  -- For a weight of at most the maximum and counts in range, the two counts add up to the replicas of
  -- the spec, or, only where a surge is allowed, to one more; so without a surge never to more.
  pub approximate_counts-IsSplit :
      (s w m surge : ℕ)
      → w ≤ m
      → 0 < m
      → m ≤ 2147483647
      → s ≤ 2147483646
      → s * w ≤ 2147483647
      → IsSplit s surge (approximate_counts fl (pos s) (pos w) (pos m) (pos surge))
  unfolding approximate_counts
  approximate_counts-IsSplit s w m surge h k mm ss sw =
      let c = (s * w + m - 1) / m in
      let f = s * w / m in
      let c_le = ceil_le s w m h k in
      let f_le : f ≤ s = omega (arith, div_le_ceil (s * w) m k) in
      let up = add32-pos s 1 (omega arith) in
      elim (Bool-cases (eqb_ℤ (pos s) (pos 0))) [
        | inl zero ↦ rw zero (0, 0, refl, refl, inl (ground arith))
        | inr some_replicas ↦
            rw
              (
                some_replicas,
                mul32-pos s w sw,
                exact.ceil-div (s * w) m sw k mm,
                exact.floor-div (s * w) m sw k mm,
              )
              (choose-All fl (IsSplit s surge) (pos s) (pos w) (pos m) _
                (0, s, refl, refl, inl (omega arith))
                (options_of-All fl _ (pos s) (pos surge) (pos c) (pos f) _ _ _
                  (λ e. share s surge c s c_le (omega arith) (inl refl))
                  (λ e. share s surge f s f_le (omega arith) (inl refl))
                  (λ e. rw up (
                    share s surge c (s + 1) (omega arith) (omega arith) (inr (ground arith, refl))))
                  (λ e d. rw up (
                    share s surge f (s + 1) (omega arith) (omega arith)
                      (inr (ground arith, refl))))))
      ]
