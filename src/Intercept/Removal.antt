-- ===== src/Intercept/Removal.antt =====
-- Registration and removal: ids stay distinct, and the in-place removal of `Unsubscribe` deletes
-- one entry and keeps the others in order.
use Prim.Native.Nat.{ℕ, suc, ◌+◌, ◌-◌, ◌%◌, ◌^◌, ◌≤◌, ◌<◌}
use pgmem.Common.{
  ◌≡◌, ◌≢◌, refl, ap, inl, inr, false, none, some, List, [], ◌∷◌, ◌++◌, length, take, set, nat_eq,
  Bool-cases, Option-cases, if◌then◌else◌, arith,
}
use pgmem.Values.{copy}
use pgmem.Intercept.{
  InterceptorRegistration, InterceptorRegistry, Subscription, QueryInterceptor, nil_registration,
  register, index_of, delete_at, remove_entry, unsubscribe,
}

suc_sub_one : (n : ℕ) → suc n - 1 ≡ n
suc_sub_one n = omega arith

module _ {W : Type 0} where
  -- The entries but for the first one with that id.
  abbrev pub without : ℕ → List (InterceptorRegistration W) → List (InterceptorRegistration W)
  without id [] = []
  without id (e ∷ es) = if nat_eq e.id id then es else e ∷ without id es

  -- Ids rise from above `low`, and reach `high` at most.
  abbrev pub Rising : ℕ → List (InterceptorRegistration W) → ℕ → Type 0
  Rising low [] high = low ≤ high
  Rising low (e ∷ es) high = (low < e.id) × Rising e.id es high

  -- The registry hands out each id once.
  abbrev pub IsFresh : InterceptorRegistry W → Type 0
  IsFresh registry = Rising 0 registry.entries registry.next_id

  Rising-le :
      (low : ℕ) (es : List (InterceptorRegistration W)) {high : ℕ} → Rising low es high → low ≤ high
  Rising-le low [] h = h
  Rising-le low (e ∷ es) h = omega (arith, Rising-le e.id es h.1)

  Rising-weaken :
      (low lower high : ℕ) (es : List (InterceptorRegistration W))
      → lower ≤ low
      → Rising low es high
      → Rising lower es high
  Rising-weaken low lower high [] l h = omega arith
  Rising-weaken low lower high (e ∷ es) l h = (omega arith, h.1)

  Rising-snoc :
      (low high : ℕ) (es : List (InterceptorRegistration W)) (e : InterceptorRegistration W)
      → Rising low es high
      → high < e.id
      → Rising low (es ++ e ∷ []) e.id
  Rising-snoc low high [] e h l = (omega arith, omega arith)
  Rising-snoc low high (x ∷ es) e h l = (h.0, Rising-snoc x.id high es e h.1 l)

  -- A registration keeps the ids distinct, as long as fewer than 2^64 - 1 have been handed out.
  pub register-IsFresh :
      (interceptor : QueryInterceptor W) (registry : InterceptorRegistry W)
      → registry.next_id + 1 < 2 ^ 64
      → IsFresh registry
      → IsFresh (register interceptor registry).0
  unfolding register
  register-IsFresh interceptor registry small h =
      rw (wraps) (Rising-snoc 0 registry.next_id registry.entries _ h (omega arith))
    where
      wraps : (registry.next_id + 1) % 2 ^ 64 ≡ registry.next_id + 1
      wraps = omega arith

  Rising-without :
      (id low high : ℕ) (es : List (InterceptorRegistration W))
      → Rising low es high
      → Rising low (without id es) high
  Rising-without id low high [] h = h
  Rising-without id low high (e ∷ es) h = elim (Bool-cases (nat_eq e.id id)) [
    | inl same ↦ rw same (Rising-weaken e.id low high es (omega arith) h.1)
    | inr other ↦ rw other (h.0, Rising-without id e.id high es h.1)
  ]

  copy-drop :
      (x : InterceptorRegistration W) (xs : List (InterceptorRegistration W))
      → take (length xs) (set (copy (x ∷ xs) xs) (length xs) nil_registration) ≡ xs
  unfolding copy
  copy-drop x [] = refl
  copy-drop x (y ∷ xs) = ap (◌∷◌ y) (copy-drop y xs)

  delete_at-zero :
      (x : InterceptorRegistration W) (xs : List (InterceptorRegistration W))
      → delete_at 0 (x ∷ xs) ≡ xs
  unfolding delete_at
  delete_at-zero x xs = rw (suc_sub_one (length xs)) (copy-drop x xs)

  delete_at-suc :
      (i : ℕ) (x : InterceptorRegistration W) (xs : List (InterceptorRegistration W))
      → xs ≢ []
      → delete_at (suc i) (x ∷ xs) ≡ x ∷ delete_at i xs
  unfolding delete_at
  delete_at-suc i x [] h = absurd (h refl)
  delete_at-suc i x (y ∷ xs) h = rw (suc_sub_one (suc (length xs)), suc_sub_one (length xs)) refl

  index_of-nil :
      (id i : ℕ) (es : List (InterceptorRegistration W)) → index_of id es ≡ some i → es ≢ []
  unfolding index_of
  index_of-nil id i [] h = cc
  index_of-nil id i (e ∷ es) h = λ q. cc

  -- The removal in place is the removal of the first entry with that id.
  delete_at-without :
      (id i : ℕ) (es : List (InterceptorRegistration W))
      → index_of id es ≡ some i
      → delete_at i es ≡ without id es
  unfolding index_of
  delete_at-without id i [] h = cc
  delete_at-without id i (e ∷ es) h = elim (Bool-cases (nat_eq e.id id)) [
    | inl same ↦ ground (arith, delete_at-zero e es)
    | inr other ↦ elim (Option-cases (index_of id es)) [
      | inl q ↦ ground (arith, q)
      | inr (j, q) ↦
          ground (arith, delete_at-suc j e es (index_of-nil id j es q), delete_at-without id j es q)
    ]
  ]

  without-none :
      (id : ℕ) (es : List (InterceptorRegistration W)) → index_of id es ≡ none → without id es ≡ es
  unfolding index_of
  without-none id [] h = refl
  without-none id (e ∷ es) h = elim (Option-cases (index_of id es)) [
    | inl q ↦ ground (arith, without-none id es q)
    | inr (j, q) ↦ ground (arith, q)
  ]

  remove_entry-without :
      (id : ℕ) (r : InterceptorRegistry W)
      → remove_entry id r ≡ record r { entries = without id r.entries }
  unfolding remove_entry
  remove_entry-without id r = elim (Option-cases (index_of id r.entries)) [
    | inl q ↦ ground (arith, without-none id r.entries q)
    | inr (i, q) ↦ ground (arith, delete_at-without id i r.entries q)
  ]

  -- Every entry but those with that id, in order.
  abbrev pub others : ℕ → List (InterceptorRegistration W) → List (InterceptorRegistration W)
  others id [] = []
  others id (e ∷ es) = let rest = others id es in if nat_eq e.id id then rest else e ∷ rest

  others-above :
      (id low high : ℕ) (es : List (InterceptorRegistration W))
      → Rising low es high
      → id ≤ low
      → others id es ≡ es
  others-above id low high [] h l = refl
  others-above id low high (e ∷ es) h l =
      ground (arith, others-above id e.id high es h.1 (omega arith))

  without-others :
      (id low high : ℕ) (es : List (InterceptorRegistration W))
      → Rising low es high
      → without id es ≡ others id es
  without-others id low high [] h = refl
  without-others id low high (e ∷ es) h = elim (Bool-cases (nat_eq e.id id)) [
    | inl same ↦ ground (arith, others-above id e.id high es h.1)
    | inr other ↦ ground (arith, without-others id e.id high es h.1)
  ]

  -- In a registry with distinct ids, the first `Unsubscribe` of a subscription removes its entry,
  -- keeps every other entry in its place in the order, and leaves the ids distinct.
  pub unsubscribe_lem :
      (s : Subscription) (r : InterceptorRegistry W) (id : ℕ)
      → s.finished ≡ false
      → s.unsubscribe ≡ some id
      → IsFresh r
      → ((unsubscribe s r).1.entries ≡ others id r.entries) × IsFresh (unsubscribe s r).1
  unfolding unsubscribe
  unsubscribe_lem s r id first held h =
      rw (first, held, remove_entry-without id r)
        (without-others id 0 r.next_id r.entries h, Rising-without id 0 r.next_id r.entries h)

  -- After one `Unsubscribe`, another one of the same subscription changes nothing, in whatever
  -- state the registry has come to by then.
  pub unsubscribe_twice :
      (s : Subscription) (r later : InterceptorRegistry W)
      → (unsubscribe (unsubscribe s r).0 later).1 ≡ later
  unfolding unsubscribe
  unsubscribe_twice s r later = ground arith
