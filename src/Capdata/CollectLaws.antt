-- ===== src/Capdata/CollectLaws.antt =====
-- The arrays of the collected capability data are never overrun, and what their sizes leave out.
use sc_control.Base.{
  ℕ, zero, suc, ◌+◌, ◌≤◌, ◌<◌, ◌≡◌, ◌≢◌, refl, sym, ◌∙◌, subst, ap, ◌==◌, ltb, Bool, true, false,
  if◌then◌else◌, List, [], ◌∷◌, Option, none, some, ◌⊎◌, inl, inr, length, length-append, All, ℤ,
  arith, signed32,
}
use sc_control.Capdata.{Capdata01, DiscreteFeature}
use sc_control.Capdata.Collect.{
  Block, entry_of, pair_of, collect, add_value, add_entry, group, count_of, collect_capdata,
  collect_features, max_discrete_entries,
}

-- A collected list fits into the room and has at most an element for each instance.
pub collect-fits :
    {A : Type 0} (read : Option Block → Option A) (query : ℕ → Option Block) (room n idx : ℕ)
    → (length (collect read query room n idx) ≤ room) × (length (collect read query room n idx) ≤ n)
unfolding collect
collect-fits read query room zero idx = (omega arith, omega arith)
collect-fits read query zero (suc n) idx = (omega arith, omega arith)
collect-fits {A = A} read query (suc room) (suc n) idx =
    let skip = collect-fits read query (suc room) n (idx + 1) in
    let keep = collect-fits read query room n (idx + 1) in
    elim (read (query idx))
      as (λ o.
        let l = length (elim o as (λ _. List A) [
          | none ↦ collect read query (suc room) n (idx + 1)
          | some a ↦ a ∷ collect read query room n (idx + 1)
        ]) in
        (l ≤ suc room) × (l ≤ suc n)) [
          | none ↦ (omega (arith, skip.0), omega (arith, skip.1))
          | some a ↦ (omega (arith, keep.0), omega (arith, keep.1))
        ]

-- The features fit into their array, and the values of each into its own, with at least one of them.
pub record IsFeatures (fs : List DiscreteFeature) : Type 0 where
  pub few : length fs ≤ 8
  pub sized : All (λ f. (1 ≤ length f.values) × (length f.values ≤ 32)) fs

abbrev Filled : DiscreteFeature → Type 0
Filled f = (1 ≤ length f.values) × (length f.values ≤ 32)

add_value-Filled : (f : DiscreteFeature) (v : ℕ) → Filled f → Filled (add_value f v)
unfolding add_value
add_value-Filled f v h = ground (arith, length-append f.values (signed32 v ∷ []))

add_entry-Filled :
    (id v : ℕ) (fs : List DiscreteFeature) → All Filled fs → All Filled (add_entry (id, v) fs)
unfolding add_entry
add_entry-Filled id v [] h = ((omega arith, omega arith), tt)
add_entry-Filled id v (f ∷ fs) h =
    elim (f.feature_id == id)
      as (λ b. All Filled (if b then add_value f v ∷ fs else f ∷ add_entry (id, v) fs)) [
        | true ↦ (add_value-Filled f v h.0, h.1)
        | false ↦ (h.0, add_entry-Filled id v fs h.1)
      ]

length-add_entry :
    (id v : ℕ) (fs : List DiscreteFeature)
    → (length fs ≤ length (add_entry (id, v) fs))
      × (length (add_entry (id, v) fs) ≤ suc (length fs))
unfolding add_entry
length-add_entry id v [] = (omega arith, omega arith)
length-add_entry id v (f ∷ fs) =
    let rest = length-add_entry id v fs in
    elim (f.feature_id == id)
      as (λ b.
        let l = length (if b then add_value f v ∷ fs else f ∷ add_entry (id, v) fs) in
        (suc (length fs) ≤ l) × (l ≤ suc (suc (length fs)))) [
          | true ↦ (omega arith, omega arith)
          | false ↦ (omega (arith, rest.0), omega (arith, rest.1))
        ]

flag_cases : (b : Bool) → (b ≡ true) ⊎ (b ≡ false)
flag_cases true = inl refl
flag_cases false = inr refl

ltb_cases : (a b : ℕ) → ((ltb a b ≡ true) × (a < b)) ⊎ ((ltb a b ≡ false) × (b ≤ a))
ltb_cases a b = elim (flag_cases (ltb a b)) [
  | inl e ↦ inl (e, ground arith)
  | inr e ↦ inr (e, ground arith)
]

-- The loop, one step at a time: it ends when the array is full.
group-full : (fs : List DiscreteFeature) (es : List (ℕ × ℕ)) → length fs ≡ 8 → group fs es ≡ fs
unfolding group
group-full fs [] h = refl
group-full fs (e ∷ es) h = ap (λ n. if ltb n 8 then group (add_entry e fs) es else fs) h

group-IsFeatures :
    (fs : List DiscreteFeature) (es : List (ℕ × ℕ)) → IsFeatures fs → IsFeatures (group fs es)
unfolding group
group-IsFeatures fs [] h = h
group-IsFeatures fs ((id, v) ∷ es) h = elim (ltb_cases (length fs) 8) [
  | inl less ↦ rw (less.0) (
      group-IsFeatures (add_entry (id, v) fs) es (record {
        few = omega (arith, (length-add_entry id v fs).1, less.1);
        sized = add_entry-Filled id v fs h.sized;
      }))
  | inr more ↦ rw (more.0) h
]

-- The list after a collection: a new one, of which `P` holds, where the interface is there and has
-- instances, and else the old one.
abbrev pub Replaced : {A : Type 0} → Bool → ℤ → (List A → Type 0) → List A → List A → Type 0
Replaced present n P before after =
    ((present ≡ true) × (count_of n ≢ 0) × P after)
    ⊎ (((present ≡ false) ⊎ (count_of n ≡ 0)) × (after ≡ before))

collect_or_keep :
    {A : Type 0} (n : ℤ) (P : List A → Type 0) (before made : List A)
    → P made
    → Replaced true n P before (if count_of n == 0 then before else made)
collect_or_keep n P before made h = elim (flag_cases (count_of n == 0)) [
  | inl e ↦ rw e (inr (inr (ground arith), refl))
  | inr e ↦ rw e (inl (refl, (λ z. ground arith), h))
]

-- For any answers of the firmware: where the first interface is there and has instances, at most 80
-- entries are collected and at most one for each instance; where the second is and has, at most 8 features,
-- each with between one and 32 values; otherwise the entries, or the features, are the old ones.
pub collected_sizes :
    (present present' : Bool) (n m : ℤ) (blocks pairs : ℕ → Option Block) (capdata : List Capdata01)
    (features : List DiscreteFeature)
    → Replaced present n
        (λ l. (length l ≤ 80) × (length l ≤ count_of n))
        capdata
        (collect_capdata present n blocks capdata)
      × Replaced present' m IsFeatures features (collect_features present' m pairs features)
unfolding collect_capdata collect_features
collected_sizes present present' n m blocks pairs capdata features =
    (entries present, sets present')
  where
    entries :
        (b : Bool)
        → Replaced b n
            (λ l. (length l ≤ 80) × (length l ≤ count_of n))
            capdata
            (collect_capdata b n blocks capdata)
    entries false = inr (inl refl, refl)
    entries true =
        collect_or_keep n (λ l. (length l ≤ 80) × (length l ≤ count_of n)) capdata
          (collect entry_of blocks 80 (count_of n) 0)
          (collect-fits entry_of blocks 80 (count_of n) 0)

    sets : (b : Bool) → Replaced b m IsFeatures features (collect_features b m pairs features)
    sets false = inr (inl refl, refl)
    sets true =
        collect_or_keep m IsFeatures features (group [] (collect pair_of pairs 64 (count_of m) 0)) (
          group-IsFeatures [] (collect pair_of pairs 64 (count_of m) 0)
            (record { few = omega arith; sized = tt }))

-- The number of values of the last feature.
abbrev pub last_count : ℕ → List DiscreteFeature → ℕ
last_count d [] = d
last_count d (f ∷ fs) = last_count (length f.values) fs

new_feature :
    (d id v : ℕ) (fs : List DiscreteFeature)
    → length (add_entry (id, v) fs) ≡ suc (length fs)
    → last_count d (add_entry (id, v) fs) ≡ 1
unfolding add_entry
new_feature d id v [] = λ h. refl
new_feature d id v (f ∷ fs) =
    elim (f.feature_id == id)
      as (λ b.
        let r = if b then add_value f v ∷ fs else f ∷ add_entry (id, v) fs in
        length r ≡ suc (suc (length fs)) → last_count d r ≡ 1) [
          | true ↦ λ h. absurd (omega (arith, h))
          | false ↦ λ h. new_feature (length f.values) id v fs (omega (arith, h))
        ]

group-step :
    (fs : List DiscreteFeature) (e : ℕ × ℕ) (es : List (ℕ × ℕ))
    → length fs < 8
    → group fs (e ∷ es) ≡ group (add_entry e fs) es
unfolding group
group-step fs e es l =
    ap (λ b. if b then group (add_entry e fs) es else fs)
      (elim (ltb_cases (length fs) 8) [
        | inl less ↦ less.0
        | inr more ↦ absurd (omega (arith, more.1, l))
      ])

eighth_from :
    (fs : List DiscreteFeature) (es : List (ℕ × ℕ))
    → length fs < 8
    → length (group fs es) ≡ 8
    → last_count 0 (group fs es) ≡ 1
unfolding group
eighth_from fs [] l h = absurd (omega (arith, l, h))
eighth_from fs ((id, v) ∷ es) l h =
    let fs' = add_entry (id, v) fs in
    let grown = length-add_entry id v fs in
    let step = group-step fs (id, v) es l in
    let same : length (group fs' es) ≡ 8 = ap length (sym step) ∙ h in
    ap (last_count 0) step ∙ elim (ltb_cases (length fs') 8) [
      | inl less ↦ eighth_from fs' es less.1 same
      | inr more ↦
          ap (last_count 0) (group-full fs' es (omega (arith, more.1, grown.1, l)))
          ∙ new_feature 0 id v fs (omega (arith, more.1, grown.1, l))
    ]

nonzero : (n : ℕ) → n ≢ 0 → (n == 0) ≡ false
nonzero n h = ground arith

-- When eight features are collected, the last one has a single value, whatever values of it follow.
pub eighth_feature_single :
    (n : ℤ) (pairs : ℕ → Option Block) (features : List DiscreteFeature)
    → count_of n ≢ 0
    → length (collect_features true n pairs features) ≡ 8
    → last_count 0 (collect_features true n pairs features) ≡ 1
unfolding collect_features
eighth_feature_single n pairs features c h =
    let es = collect pair_of pairs max_discrete_entries (count_of n) 0 in
    let some_instance : (count_of n == 0) ≡ false = nonzero (count_of n) c in
    subst (λ b. let r = if b then features else group [] es in length r ≡ 8 → last_count 0 r ≡ 1)
      (sym some_instance) (eighth_from [] es (omega arith)) h
