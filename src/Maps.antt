-- ===== src/Maps.antt =====
-- BPF hash maps as the programs use them: `bpf_map_lookup_elem`, `bpf_map_update_elem` with
-- `BPF_ANY` or `BPF_NOEXIST`, and `bpf_map_delete_elem`. The kernel's table is an association list
-- with the limit `max_entries` of the map's declaration; an update past the limit fails and changes
-- nothing, and the programs ignore its result. `write` is a store through the pointer that a lookup
-- returned.
pub mod Laws
pub mod Entries
use erda_agent.Base.{ℕ, List, [], ◌∷◌, Option, none, some, Bool, Eq, ltb, if◌then◌else◌, length}

pub record HashMap {ℓ κ} (K : Type ℓ) (V : Type κ) : Type (ℓ ⊔ κ) where
  pub max_entries : ℕ
  pub entries : List (K × V)

module _ {ℓ κ} {K : Type ℓ} {V : Type κ} ⦃e : Eq K⦄ where
  unfoldable pub find : K → List (K × V) → Option V
  find k [] = none
  find k ((j, v) ∷ es) = if e.beq j k then some v else find k es

  unfoldable pub replace : K → V → List (K × V) → List (K × V)
  replace k v [] = []
  replace k v ((j, w) ∷ es) = if e.beq j k then (j, v) ∷ replace k v es else (j, w) ∷ replace k v es

  unfoldable pub remove : K → List (K × V) → List (K × V)
  remove k [] = []
  remove k ((j, w) ∷ es) = let rest = remove k es in if e.beq j k then rest else (j, w) ∷ rest

  unfoldable pub lookup : HashMap K V → K → Option V
  unfolding find
  lookup m k = find k m.entries

  unfoldable pub insert : HashMap K V → K → V → HashMap K V
  insert m k v =
      if ltb (length m.entries) m.max_entries then record m { entries = (k, v) ∷ m.entries } else m

  -- `bpf_map_update_elem(&m, &k, &v, BPF_ANY)`
  unfoldable pub update : HashMap K V → K → V → HashMap K V
  unfolding lookup insert replace
  update m k v = elim (lookup m k) [
    | none ↦ insert m k v
    | some _ ↦ record m { entries = replace k v m.entries }
  ]

  -- `bpf_map_update_elem(&m, &k, &v, BPF_NOEXIST)`
  unfoldable pub update_noexist : HashMap K V → K → V → HashMap K V
  unfolding lookup insert
  update_noexist m k v = elim (lookup m k) [ none ↦ insert m k v | some _ ↦ m ]

  unfoldable pub delete : HashMap K V → K → HashMap K V
  unfolding remove
  delete m k = record m { entries = remove k m.entries }

  -- `*p = v` for a `p` that `bpf_map_lookup_elem(&m, &k)` returned.
  unfoldable pub write : HashMap K V → K → V → HashMap K V
  unfolding replace
  write m k v = record m { entries = replace k v m.entries }

abbrev pub empty {ℓ κ} : {K : Type ℓ} {V : Type κ} → ℕ → HashMap K V
empty n = record { max_entries = n; entries = [] }
