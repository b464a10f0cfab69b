-- ===== src/UnorderedMap.antt =====
-- `std::unordered_map` as an association list in iteration order, and the laws that the server uses.
use qt_messenger.Prelude.{
  ◌≡◌, ◌≢◌, ◌≤◌, refl, sym, ap, ◌∙◌, inl, inr, Option, none, some, List, [], ◌∷◌, length, All,
  subst, decide, decide_iff, Bool-cases, Option-cases, is_some, true, if◌then◌else◌, arith,
}

-- The value that a key has behind an `emplace`.
abbrev pub kept {ℓ} : {V : Type ℓ} → Option V → V → V
kept none v = v
kept (some w) v = w

module _ {ℓ κ} {K : Type ℓ} {V : Type κ} (key_eq : Discrete K) where
  unfoldable pub find : K → List (K × V) → Option V
  find k [] = none
  find k ((j, v) ∷ m) = if decide (key_eq j k) then some v else find k m

  add_absent : Option V → K → V → List (K × V) → List (K × V)
  add_absent none k v m = (k, v) ∷ m
  add_absent (some _) k v m = m

  -- `emplace`: a key that is there keeps its value.
  unfoldable pub emplace : K → V → List (K × V) → List (K × V)
  unfolding add_absent
  emplace k v m = add_absent (find k m) k v m

  unfoldable pub erase : K → List (K × V) → List (K × V)
  erase k [] = []
  erase k ((j, v) ∷ m) = let rest = erase k m in if decide (key_eq j k) then rest else (j, v) ∷ rest

  -- No key stands twice.
  abbrev pub Distinct : List (K × V) → Type κ
  Distinct [] = Unit {κ}
  Distinct ((k, v) ∷ m) = (find k m ≡ none) × Distinct m

  pub find-erase :
      (k j : K) (m : List (K × V))
      → find j (erase k m) ≡ (if decide (key_eq k j) then none else find j m)
  unfolding find erase
  find-erase k j [] = ground arith
  find-erase k j ((i, v) ∷ m) = ground (
    arith,
    find-erase k j m,
    decide_iff (key_eq i k),
    decide_iff (key_eq i j),
    decide_iff (key_eq k j),
  )

  pub find-emplace :
      (k j : K) (v : V) (m : List (K × V))
      → find k m ≡ none
      → find j (emplace k v m) ≡ (if decide (key_eq k j) then some v else find j m)
  unfolding find emplace
  find-emplace k j v m e = rw (e, add_absent)

  pub find-emplace_self :
      (k : K) (v : V) (m : List (K × V)) → find k m ≡ none → find k (emplace k v m) ≡ some v
  find-emplace_self k v m e = rw (find-emplace k k v m e, (decide_iff (key_eq k k)).1 refl)

  -- A key that is there keeps its value.
  pub emplace_present : (k : K) (v w : V) (m : List (K × V)) → find k m ≡ some w → emplace k v m ≡ m
  unfolding emplace
  emplace_present k v w m e = rw (e, add_absent)

  pub find-emplace_any :
      (k j : K) (v : V) (m : List (K × V))
      → find j (emplace k v m)
        ≡ (if decide (key_eq k j) then some (kept (find k m) v) else find j m)
  find-emplace_any k j v m = elim (Option-cases (find k m)) [
    | inl e ↦ rw e (find-emplace k j v m e)
    | inr (w, e) ↦
        ap (find j) (emplace_present k v w m e)
        ∙ elim (key_eq k j)
            as (λ d. find j m ≡ (if decide d then some (kept (find k m) v) else find j m)) [
              | yes same ↦ ap (λ i. find i m) (sym same) ∙ e ∙ sym (ap (λ o. some (kept o v)) e)
              | no _ ↦ refl
            ]
  ]

  pub is_some-find-emplace :
      (k : K) (v : V) (m : List (K × V)) → is_some (find k (emplace k v m)) ≡ true
  is_some-find-emplace k v m = elim (Option-cases (find k m)) [
    | inl e ↦ rw (find-emplace_self k v m e)
    | inr (w, e) ↦ rw (emplace_present k v w m e, e)
  ]

  pub find-emplace_ne :
      (k j : K) (v : V) (m : List (K × V)) → k ≢ j → find j (emplace k v m) ≡ find j m
  unfolding find emplace
  find-emplace_ne k j v m n = elim (Option-cases (find k m)) [
    | inl e ↦ rw (e, add_absent) (ground (arith, decide_iff (key_eq k j)))
    | inr (w, e) ↦ rw (e, add_absent)
  ]

  pub emplace-Distinct : (k : K) (v : V) (m : List (K × V)) → Distinct m → Distinct (emplace k v m)
  unfolding emplace
  emplace-Distinct k v m h = elim (Option-cases (find k m)) [
    | inl e ↦ rw (e, add_absent) (e, h)
    | inr (w, e) ↦ rw (e, add_absent) h
  ]

  find-none-erase : (k j : K) (m : List (K × V)) → find j m ≡ none → find j (erase k m) ≡ none
  find-none-erase k j m h = ground (arith, find-erase k j m)

  pub erase-Distinct : (k : K) (m : List (K × V)) → Distinct m → Distinct (erase k m)
  unfolding erase
  erase-Distinct k [] h = tt
  erase-Distinct k ((j, v) ∷ m) h =
      let absent : find j (erase k m) ≡ none = find-none-erase k j m h.0 in
      elim (Bool-cases (decide (key_eq j k))) [
        | inl e ↦ rw e (erase-Distinct k m h.1)
        | inr e ↦ rw e (absent, erase-Distinct k m h.1)
      ]

  pub All-emplace {μ} :
      (P : K × V → Type μ) (k : K) (v : V) (m : List (K × V))
      → P (k, v)
      → All P m
      → All P (emplace k v m)
  unfolding emplace
  All-emplace P k v m p h = elim (Option-cases (find k m)) [
    | inl e ↦ rw (e, add_absent) (p, h)
    | inr (w, e) ↦ rw (e, add_absent) h
  ]

  pub All-erase {μ} : (P : K × V → Type μ) (k : K) (m : List (K × V)) → All P m → All P (erase k m)
  unfolding erase
  All-erase P k [] h = tt
  All-erase P k ((j, v) ∷ m) h = elim (Bool-cases (decide (key_eq j k))) [
    | inl e ↦ rw e (All-erase P k m h.1)
    | inr e ↦ rw e (h.0, All-erase P k m h.1)
  ]

  -- What holds of every entry holds of the one that is found.
  pub All-find {μ} :
      (P : K × V → Type μ) (k : K) (v : V) (m : List (K × V))
      → All P m
      → find k m ≡ some v
      → P (k, v)
  unfolding find
  All-find P k v [] h e = cc
  All-find P k v ((j, w) ∷ m) h e =
      elim (key_eq j k) as (λ b. (if decide b then some w else find k m) ≡ some v → P (k, v)) [
        | yes i ↦ λ f. subst (λ x. P (x, v)) i (subst (λ y. P (j, y)) (cc) h.0)
        | no n ↦ λ f. All-find P k v m h.1 f
      ]
        e

  pub length-erase_le : (k : K) (m : List (K × V)) → length (erase k m) ≤ length m
  unfolding erase
  length-erase_le k [] = omega arith
  length-erase_le k ((j, v) ∷ m) = ground (arith, length-erase_le k m)
