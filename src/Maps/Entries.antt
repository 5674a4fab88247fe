-- ===== src/Maps/Entries.antt =====
-- What holds of every entry of a map, and of their number, holds after each operation.
use erda_agent.Base.{
  ◌≤◌, ◌≡◌, subst, inl, inr, List, [], ◌∷◌, some, Bool-cases, Option-cases, Eq, length, All, ltb,
  arith,
}
use erda_agent.Maps.{
  HashMap, find, replace, remove, lookup, insert, update, update_noexist, delete, write,
}
use erda_agent.Maps.Laws.{length-replace, length-remove-le}

-- A map within its limit, each of whose values satisfies P.
pub record Holds {ℓ κ ι} {K : Type ℓ} {V : Type κ} (P : V → Type ι) (m : HashMap K V) : Type ι where
  pub each : All (λ (entry : K × V). P entry.1) m.entries
  pub limit : length m.entries ≤ m.max_entries

module _ {ℓ κ ι} {K : Type ℓ} {V : Type κ} ⦃e : Eq K⦄ (P : V → Type ι) where
  abbrev Each : List (K × V) → Type ι
  Each = All (λ (entry : K × V). P entry.1)

  find-Each : (k : K) (v : V) (es : List (K × V)) → Each es → find k es ≡ some v → P v
  unfolding find
  find-Each k v [] all h = ground arith
  find-Each k v ((j, w) ∷ es) (p, all) h = elim (Bool-cases (e.beq j k)) [
    | inl t ↦ let same : w ≡ v = ground (arith, t, h) in subst P same p
    | inr t ↦ let rest : find k es ≡ some v = ground (arith, t, h) in find-Each k v es all rest
  ]

  replace-Each : (k : K) (v : V) (es : List (K × V)) → Each es → P v → Each (replace k v es)
  unfolding replace
  replace-Each k v [] all p = tt
  replace-Each k v ((j, w) ∷ es) (q, all) p = elim (Bool-cases (e.beq j k)) [
    | inl t ↦ rw t (p, replace-Each k v es all p)
    | inr t ↦ rw t (q, replace-Each k v es all p)
  ]

  remove-Each : (k : K) (es : List (K × V)) → Each es → Each (remove k es)
  unfolding remove
  remove-Each k [] all = tt
  remove-Each k ((j, w) ∷ es) (q, all) = elim (Bool-cases (e.beq j k)) [
    | inl t ↦ rw t (remove-Each k es all)
    | inr t ↦ rw t (q, remove-Each k es all)
  ]

  pub lookup-Holds : (m : HashMap K V) (k : K) (v : V) → Holds P m → lookup m k ≡ some v → P v
  unfolding lookup
  lookup-Holds m k v h e' = find-Each k v m.entries h.each e'

  pub write-Holds : (m : HashMap K V) (k : K) (v : V) → Holds P m → P v → Holds P (write m k v)
  unfolding write
  write-Holds m k v h p = record {
    each = replace-Each k v m.entries h.each p;
    limit = omega (arith, length-replace k v m.entries, h.limit);
  }

  pub delete-Holds : (m : HashMap K V) (k : K) → Holds P m → Holds P (delete m k)
  unfolding delete
  delete-Holds m k h = record {
    each = remove-Each k m.entries h.each;
    limit = omega (arith, length-remove-le k m.entries, h.limit);
  }

  pub insert-Holds : (m : HashMap K V) (k : K) (v : V) → Holds P m → P v → Holds P (insert m k v)
  unfolding insert
  insert-Holds m k v h p = elim (Bool-cases (ltb (length m.entries) m.max_entries)) [
    | inl room ↦ rw (insert, room) (record { each = (p, h.each); limit = ground (arith, room) })
    | inr full ↦ rw (insert, full) h
  ]

  pub update-Holds : (m : HashMap K V) (k : K) (v : V) → Holds P m → P v → Holds P (update m k v)
  unfolding update
  update-Holds m k v h p = elim (Option-cases (lookup m k)) [
    | inl e' ↦ rw (update, e') (insert-Holds m k v h p)
    | inr (_, e') ↦
        rw (update, e')
          (record {
            each = replace-Each k v m.entries h.each p;
            limit = omega (arith, length-replace k v m.entries, h.limit);
          })
  ]

  pub update_noexist-Holds :
      (m : HashMap K V) (k : K) (v : V) → Holds P m → P v → Holds P (update_noexist m k v)
  unfolding update_noexist
  update_noexist-Holds m k v h p = elim (Option-cases (lookup m k)) [
    | inl e' ↦ rw (update_noexist, e') (insert-Holds m k v h p)
    | inr (_, e') ↦ rw (update_noexist, e') h
  ]
