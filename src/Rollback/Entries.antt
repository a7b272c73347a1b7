-- ===== src/Rollback/Entries.antt =====
-- The bounded list of rollback entries.
use secret_rotation_kit.Prelude.{
  length-drop, ℕ, zero, suc, ◌-◌, ◌≤◌, ◌<◌, ◌≡◌, Bool, true, none, some, List, [], ◌∷◌, ◌++◌, ◌==◌,
  string_eq, arith, length, length-append, find, drop, beq_self,
}
use secret_rotation_kit.World.{RollbackEntry}
use secret_rotation_kit.Rollback.{push_entry, get_entry}

module _ {ℓ} {A : Type ℓ} (p : A → Bool) where
  find-append :
      (xs : List A) (a : A) → find p xs ≡ none → p a ≡ true → find p (xs ++ a ∷ []) ≡ some a
  find-append [] a h t = rw t
  find-append (x ∷ xs) a h t = ground (arith, find-append xs a)

  -- The last entry is found in every suffix that still holds it.
  find-drop :
      (k : ℕ) (xs : List A) (a : A)
      → k ≤ length xs
      → find p xs ≡ none
      → p a ≡ true
      → find p (drop k (xs ++ a ∷ [])) ≡ some a
  find-drop zero xs a l h t = find-append xs a h t
  find-drop (suc k) [] a l h t = absurd (omega arith)
  find-drop (suc k) (x ∷ xs) a l h t = find-drop k xs a (omega arith) (ground arith) t

-- A new entry is found by its id, whatever `maxEntries` is, unless an older entry has that id.
pub get_entry-push_entry :
    (m : ℕ) (es : List RollbackEntry) (e : RollbackEntry)
    → get_entry es e.id ≡ none
    → get_entry (push_entry m es e) e.id ≡ some e
unfolding get_entry push_entry
get_entry-push_entry zero es e h =
    ground (arith, find-append (λ x. x.id == e.id) es e, beq_self e.id)
get_entry-push_entry (suc m) es e h = ground (
  arith,
  find-append (λ x. x.id == e.id) es e,
  find-drop (λ x. x.id == e.id) (length (es ++ e ∷ []) - suc m) es e,
  length-append es (e ∷ []),
  beq_self e.id,
)

-- With a positive `maxEntries` the list never grows past it.
pub push_entry_bounded :
    (m : ℕ) (es : List RollbackEntry) (e : RollbackEntry)
    → 0 < m
    → length es ≤ m
    → length (push_entry m es e) ≤ m
unfolding push_entry
push_entry_bounded m es e pos h =
    ground
      (arith, length-append es (e ∷ []), length-drop (length (es ++ e ∷ []) - m) (es ++ e ∷ []))

-- With `maxEntries` 0 nothing is ever dropped: `slice(-0)` is the whole list.
pub push_entry_unbounded :
    (es : List RollbackEntry) (e : RollbackEntry) → push_entry 0 es e ≡ es ++ e ∷ []
unfolding push_entry
push_entry_unbounded es e = ground arith
