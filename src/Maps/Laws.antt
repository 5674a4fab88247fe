-- ===== src/Maps/Laws.antt =====
-- What a lookup finds after each operation on a map, and that no operation passes the limit.
use erda_agent.Base.{
  ◌≤◌, ◌<◌, ◌≡◌, refl, ap, inl, inr, List, [], ◌∷◌, none, some, false, Eq, length, arith,
  Option-cases,
}
use erda_agent.Maps.{HashMap, find, replace, remove, lookup, update, update_noexist, delete, write}

module _ {ℓ κ} {K : Type ℓ} {V : Type κ} ⦃e : Eq K⦄ where
  find-remove_self : (k : K) (es : List (K × V)) → find k (remove k es) ≡ none
  unfolding find remove
  find-remove_self k [] = refl
  find-remove_self k ((j, w) ∷ es) = ground (arith, find-remove_self k es)

  find-remove_other :
      (k j : K) (es : List (K × V)) → e.beq k j ≡ false → find j (remove k es) ≡ find j es
  unfolding find remove
  find-remove_other k j [] h = refl
  find-remove_other k j ((i, w) ∷ es) h =
      ground (arith, e.beq_iff i j, e.beq_iff i k, e.beq_iff k j, find-remove_other k j es h)

  find-replace_self :
      (k : K) (v w : V) (es : List (K × V)) → find k es ≡ some w → find k (replace k v es) ≡ some v
  unfolding find replace
  find-replace_self k v w [] h = ground arith
  find-replace_self k v w ((j, x) ∷ es) h = ground (arith, find-replace_self k v w es)

  find-replace_other :
      (k j : K) (v : V) (es : List (K × V))
      → e.beq k j ≡ false
      → find j (replace k v es) ≡ find j es
  unfolding find replace
  find-replace_other k j v [] h = refl
  find-replace_other k j v ((i, w) ∷ es) h =
      ground (arith, e.beq_iff i j, e.beq_iff i k, e.beq_iff k j, find-replace_other k j v es h)

  pub length-replace : (k : K) (v : V) (es : List (K × V)) → length (replace k v es) ≡ length es
  unfolding replace
  length-replace k v [] = refl
  length-replace k v ((j, w) ∷ es) = ground (arith, length-replace k v es)

  pub length-remove-le : (k : K) (es : List (K × V)) → length (remove k es) ≤ length es
  unfolding remove
  length-remove-le k [] = omega arith
  length-remove-le k ((j, w) ∷ es) = ground (arith, length-remove-le k es)

  pub lookup-delete_self : (m : HashMap K V) (k : K) → lookup (delete m k) k ≡ none
  unfolding lookup delete
  lookup-delete_self m k = find-remove_self k m.entries

  pub lookup-delete_other :
      (m : HashMap K V) (k j : K) → e.beq k j ≡ false → lookup (delete m k) j ≡ lookup m j
  unfolding lookup delete
  lookup-delete_other m k j h = find-remove_other k j m.entries h

  pub lookup-write_self :
      (m : HashMap K V) (k : K) (v w : V) → lookup m k ≡ some w → lookup (write m k v) k ≡ some v
  unfolding lookup write
  lookup-write_self m k v w h = find-replace_self k v w m.entries h

  pub lookup-write_other :
      (m : HashMap K V) (k j : K) (v : V) → e.beq k j ≡ false → lookup (write m k v) j ≡ lookup m j
  unfolding lookup write
  lookup-write_other m k j v h = find-replace_other k j v m.entries h

  -- Where there is room or the key is bound already, an update takes.
  pub lookup-update_self :
      (m : HashMap K V) (k : K) (v : V)
      → length m.entries < m.max_entries
      → lookup (update m k v) k ≡ some v
  unfolding update
  lookup-update_self m k v room = elim (Option-cases (find k m.entries)) [
    | inl e' ↦ ground (arith, e.beq_iff k k)
    | inr (w, e') ↦ ground (arith, find-replace_self k v w m.entries)
  ]

  -- An update of a bound key always takes.
  pub lookup-update_bound :
      (m : HashMap K V) (k : K) (v w : V) → lookup m k ≡ some w → lookup (update m k v) k ≡ some v
  unfolding update
  lookup-update_bound m k v w h = ground (arith, find-replace_self k v w m.entries)

  pub lookup-update_other :
      (m : HashMap K V) (k j : K) (v : V) → e.beq k j ≡ false → lookup (update m k v) j ≡ lookup m j
  unfolding update
  lookup-update_other m k j v h = ground (arith, find-replace_other k j v m.entries)

  pub lookup-update_noexist_other :
      (m : HashMap K V) (k j : K) (v : V)
      → e.beq k j ≡ false
      → lookup (update_noexist m k v) j ≡ lookup m j
  unfolding update_noexist
  lookup-update_noexist_other m k j v h = ground arith

  -- A bound key keeps its first value.
  pub lookup-update_noexist_bound :
      (m : HashMap K V) (k : K) (v w : V) → lookup m k ≡ some w → update_noexist m k v ≡ m
  unfolding update_noexist
  lookup-update_noexist_bound m k v w h = ground arith

  pub lookup-update_noexist_fresh :
      (m : HashMap K V) (k : K) (v : V)
      → lookup m k ≡ none
      → length m.entries < m.max_entries
      → lookup (update_noexist m k v) k ≡ some v
  unfolding update_noexist
  lookup-update_noexist_fresh m k v h room = ground (arith, e.beq_iff k k)

  remove-replace : (k : K) (v : V) (es : List (K × V)) → remove k (replace k v es) ≡ remove k es
  unfolding remove replace
  remove-replace k v [] = refl
  remove-replace k v ((j, w) ∷ es) = ground (arith, remove-replace k v es)

  -- What is written to an entry that is deleted next is lost.
  pub delete-write : (m : HashMap K V) (k : K) (v : V) → delete (write m k v) k ≡ delete m k
  unfolding delete write
  delete-write m k v =
      ap (λ (es : List (K × V)). record m { entries = es }) (remove-replace k v m.entries)
