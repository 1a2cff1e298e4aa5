-- ===== src/Capdata/Collect.antt =====
-- The collection of the capability data when the driver is added: the entries of the first WMI block list
-- and the features of the second, each into an array of fixed size. The loops are over the instances
-- that are left, with the room that is left in the array.
use sc_control.Base.{
  ℕ, zero, suc, ◌+◌, ◌*◌, ◌==◌, ltb, Bool, if◌then◌else◌, List, [], ◌∷◌, ◌++◌, Option, none, some,
  length, get_or, ℤ, pos, negsuc, signed32, u32,
}
use sc_control.Capdata.{Capdata01, DiscreteFeature}

abbrev pub max_capdata_entries : ℕ
max_capdata_entries = 80

abbrev pub max_discrete_entries : ℕ
max_discrete_entries = 64

abbrev pub max_discrete_features : ℕ
max_discrete_features = 8

abbrev pub max_feature_values : ℕ
max_feature_values = 32

-- What the driver tells apart in the object of `wmi_query_block`: a buffer, a package whose first two
-- elements are integers, and anything else.
pub data Block : Type 0 where
  bytes : List ℕ → Block
  two_integers : ℕ → ℕ → Block
  other_block : Block

-- A `u32` of the buffer, by its index.
abbrev word_of : List ℕ → ℕ → ℕ
word_of b i =
    get_or b (4 * i) 0
    + get_or b (4 * i + 1) 0 * 256
    + get_or b (4 * i + 2) 0 * 65536
    + get_or b (4 * i + 3) 0 * 16777216

-- The entry in an object, which is a copy of the beginning of a buffer that is long enough.
unfoldable pub entry_of : Option Block → Option Capdata01
entry_of (some (bytes b)) =
    if ltb (length b) 24
    then none
    else some (record {
      id = word_of b 0;
      supported = word_of b 1;
      default_value = word_of b 2;
      step = word_of b 3;
      min_value = word_of b 4;
      max_value = word_of b 5;
    })
entry_of _ = none

-- The id and the value in an object.
unfoldable pub pair_of : Option Block → Option (ℕ × ℕ)
pair_of (some (two_integers id value)) = some (u32 id, u32 value)
pair_of _ = none

-- The loop over the instances from `idx` on, with `room` free places: an instance that is no entry is
-- passed over.
unfoldable pub collect :
    {A : Type 0} → (Option Block → Option A) → (ℕ → Option Block) → ℕ → ℕ → ℕ → List A
collect read query room zero idx = []
collect read query zero (suc n) idx = []
collect read query (suc room) (suc n) idx = elim (read (query idx)) [
  | none ↦ collect read query (suc room) n (idx + 1)
  | some a ↦ a ∷ collect read query room n (idx + 1)
]

-- A value at the end of a feature's array, if it has a free place.
unfoldable pub add_value : DiscreteFeature → ℕ → DiscreteFeature
add_value f value =
    if ltb (length f.values) max_feature_values
    then record f { values = f.values ++ (signed32 value ∷ []) }
    else f

-- The search for the feature with the id and the assignment to it, or a new feature at the end.
unfoldable pub add_entry : ℕ × ℕ → List DiscreteFeature → List DiscreteFeature
unfolding add_value
add_entry (id, value) [] = record { feature_id = id; values = signed32 value ∷ [] } ∷ []
add_entry (id, value) (f ∷ fs) =
    let rest = add_entry (id, value) fs in
    if f.feature_id == id then add_value f value ∷ fs else f ∷ rest

-- The loop over the pairs, which ends as soon as the array of features is full.
unfoldable pub group : List DiscreteFeature → List (ℕ × ℕ) → List DiscreteFeature
unfolding add_entry
group features [] = features
group features (e ∷ es) =
    let rest = group (add_entry e features) es in
    if ltb (length features) max_discrete_features then rest else features

abbrev pub count_of : ℤ → ℕ
count_of (pos n) = n
count_of (negsuc n) = 0

-- The capability data after the collection: as it was where there is no instance.
unfoldable pub collect_capdata : Bool → ℤ → (ℕ → Option Block) → List Capdata01 → List Capdata01
unfolding collect
collect_capdata present instances query before =
    if present
    then (if count_of instances == 0
        then before
        else collect entry_of query max_capdata_entries (count_of instances) 0)
    else before

-- The features after the collection.
unfoldable pub collect_features :
    Bool → ℤ → (ℕ → Option Block) → List DiscreteFeature → List DiscreteFeature
unfolding group
collect_features present instances query before =
    if present
    then (if count_of instances == 0
        then before
        else group [] (collect pair_of query max_discrete_entries (count_of instances) 0))
    else before
