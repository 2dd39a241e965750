-- ===== src/Session/Memory.antt =====
-- frame/pkg/session/session.go: the store in memory.
use landc_go.Session.{StoreOps, IsStore, delete, insert, lookup, Map, ℕ}
use landc_go.Prelude.{
  Bool, Map, Option, String, [], delete, false, if◌then◌else◌, insert, lookup, ltb, none, not, ok,
  some, suc, ℕ, ◌+◌, ◌∷◌, arith, eq_refl, lookup-delete, lookup-insert, true,
}

pub record Entry (V : Type 0) : Type 0 where
  pub entries : Map V
  pub expires_at : ℕ

module _ {V : Type 0} where
  abbrev is_over : ℕ → Entry V → Bool
  is_over now e = ltb e.expires_at now

  unfoldable pub load_entry : (now : ℕ) → String → Map (Entry V) → Option (Map V)
  unfolding lookup
  load_entry now id m = elim (lookup id m) [
    | none ↦ none
    | some e ↦ if is_over now e then none else some e.entries
  ]

  unfoldable pub save_entry :
      (now : ℕ) → String → Map V → (max_age : ℕ) → Map (Entry V) → Map (Entry V)
  unfolding insert
  save_entry now id entries max_age m =
      insert id (record { entries = entries; expires_at = now + max_age }) m

  unfoldable pub delete_entry : String → Map (Entry V) → Map (Entry V)
  unfolding delete
  delete_entry id m = delete id m

  unfoldable pub exists_entry : (now : ℕ) → String → Map (Entry V) → Bool
  unfolding lookup
  exists_entry now id m = elim (lookup id m) [ none ↦ false | some e ↦ not (is_over now e) ]

  -- One round of `cleanup`.
  unfoldable pub cleanup_entries : (now : ℕ) → Map (Entry V) → Map (Entry V)
  cleanup_entries now [] = []
  cleanup_entries now ((id, e) ∷ rest) =
      if is_over now e then cleanup_entries now rest else (id, e) ∷ cleanup_entries now rest

  -- `Size`
  unfoldable pub live_count : (now : ℕ) → Map (Entry V) → ℕ
  live_count now [] = 0
  live_count now ((id, e) ∷ rest) =
      if ltb now e.expires_at then suc (live_count now rest) else live_count now rest

  unfoldable pub memory_store : StoreOps V (Map (Entry V))
  unfolding load_entry save_entry delete_entry
  memory_store = record {
    load = λ now id m. (m, ok (load_entry now id m));
    save = λ now id entries max_age m. (save_entry now id entries max_age m, true);
    destroy = λ now id m. (delete_entry id m, true);
  }

  -- The store in memory keeps a saved session until its time has run out, and forgets a deleted one.
  pub memory_store-IsStore : IsStore memory_store
  unfolding memory_store load_entry save_entry delete_entry
  memory_store-IsStore = record {
    loads = λ now later id entries max_age m soon. ground (
      arith,
      lookup-insert id id (record { entries = entries; expires_at = now + max_age }) m,
      eq_refl id,
    );
    forgets = λ now later id m. ground (arith, lookup-delete id id m, eq_refl id);
  }
