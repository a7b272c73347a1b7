-- ===== src/Tests/Keys.antt =====
-- The key lifecycle and the list of rollback entries at concrete inputs.
use secret_rotation_kit.Prelude.{
  of_some, ◌≡◌, refl, sym, ◌∙◌, ◌⊎◌, inl, inr, none, some, [], ◌∷◌, String, ◌==◌, ◌&&◌, string_eq,
  arith, Bool-cases, eq_of_beq, and-true, beq_self,
}
use secret_rotation_kit.Map
use secret_rotation_kit.Effect.{after, returned, thrown}
use secret_rotation_kit.Types.{SecretKey, active, revoked, failed}
use secret_rotation_kit.KeyStore.InMemory.{Store, save, get, list}
use secret_rotation_kit.KeyStore.InMemory
use secret_rotation_kit.KeyStore.InMemory.Laws.{
  in_memory, in_memory-KeyStoreLaws, Valid, get_saved, saved_valid, empty_valid,
}
use secret_rotation_kit.KeyStore.InMemory.Listing.{list_empty_name}
use secret_rotation_kit.Lifecycle.{compromised, activate, cannot_activate}
use secret_rotation_kit.Lifecycle.Handover.{HandsOver, activate-HandsOver}
use secret_rotation_kit.Lifecycle.Machine.{Call, here, next, perform, Change, perform-Change}
use secret_rotation_kit.Lifecycle.Machine.Moves.{Inv}
use secret_rotation_kit.Lifecycle.Machine.Traces.{Reach-Inv, Reach-revoked, Reach-failed}
use secret_rotation_kit.Tests.Samples.{key_with, old_key, new_key}

abbrev pub revoked_key : SecretKey
revoked_key = key_with "db" "k0" revoked

abbrev pub failed_key : SecretKey
failed_key = key_with "db" "k0" failed

-- A store with one key.
abbrev pub single_of : SecretKey → Store
single_of k = save k []

found_in :
    (k : SecretKey) (n i : String) {x : SecretKey}
    → get (single_of k) n i ≡ some x
    → (i ≡ k.key_id) × (x ≡ k)
unfolding get Map.get
found_in k n i {x = x} g = elim (Bool-cases (k.secret_name == n && k.key_id == i)) [
  | inl e ↦ (
    sym (eq_of_beq k.key_id i (and-true (k.secret_name == n) (k.key_id == i) e).1),
    sym (of_some (rw (get_saved k [] n i, e) at g)),
  )
  | inr e ↦ absurd (ground (arith, get_saved k [] n i))
]

pub single_of-Inv : (k : SecretKey) → Inv in_memory in_memory-KeyStoreLaws (single_of k)
single_of-Inv k = record {
  valid = saved_valid k [] empty_valid;
  single = λ n i j x y gi gj ai aj. (found_in k n i gi).0 ∙ sym (found_in k n j gj).0;
}

-- A second key, which is pending.
pub two_keys-Inv : Inv in_memory in_memory-KeyStoreLaws (save new_key (single_of old_key))
two_keys-Inv = record {
  valid = saved_valid new_key (single_of old_key) (single_of-Inv old_key).valid;
  single = λ n i j x y gi gj ai aj. old n i gi ai ∙ sym (old n j gj aj);
}
  where
    old :
        (n i : String) {x : SecretKey}
        → get (save new_key (single_of old_key)) n i ≡ some x
        → x.status ≡ active
        → i ≡ "k1"
    old n i {x = x} g a = elim (Bool-cases ("db" == n && "k2" == i)) [
      | inl e ↦
          let q : some new_key ≡ some x = rw (get_saved new_key (single_of old_key) n i, e) at g in
          absurd (ground (arith, of_some q))
      | inr e ↦ (found_in old_key n i (rw (get_saved new_key (single_of old_key) n i, e) at g)).0
    ]

abbrev two_keys : Store
two_keys = save new_key (single_of old_key)

new_found : get two_keys "db" "k2" ≡ some new_key
unfolding get save Map.get Map.set
new_found = refl

activate-HandsOver_example :
    (t : Store) × (activate in_memory "db" "k2" (some 60000) 100 110 two_keys
      ≡ returned (record new_key { status = active; rotated_at = some 110 }) t)
    × Valid t
    × HandsOver in_memory two_keys t "db" new_key (some 60000) 100 110
activate-HandsOver_example =
    activate-HandsOver in_memory in_memory-KeyStoreLaws two_keys "db" "k2" (some 60000) 100 110
      new_key two_keys-Inv.valid new_found refl (two_keys-Inv.single "db")

abbrev hand_over : Call
hand_over = Call.activates "db" "k2" none 100 110

abbrev mark : Call
mark = Call.marks_failed "db" "k0" "lost" 120

abbrev take_back : Call
take_back = Call.revokes "db" "k0" compromised 130 131

perform-Change_example :
    Change in_memory two_keys hand_over (after (perform in_memory hand_over two_keys))
perform-Change_example =
    perform-Change in_memory in_memory-KeyStoreLaws two_keys hand_over two_keys-Inv.valid

old_again :
    perform in_memory (Call.activates "db" "k1" none 100 110) (single_of old_key)
    ≡ thrown (cannot_activate active) (single_of old_key)
unfolding perform activate InMemory.get save Map.get Map.set
old_again = refl

Reach-Inv_example :
    Inv in_memory in_memory-KeyStoreLaws (after (perform in_memory hand_over two_keys))
Reach-Inv_example = Reach-Inv in_memory in_memory-KeyStoreLaws (next here hand_over tt) two_keys-Inv

found_single : (k : SecretKey) → get (single_of k) k.secret_name k.key_id ≡ some k
found_single k =
    rw (get_saved k [] k.secret_name k.key_id)
      (ground (arith, beq_self k.secret_name, beq_self k.key_id))

Reach-revoked_example :
    get (after (perform in_memory mark (single_of revoked_key))) "db" "k0" ≡ some revoked_key
Reach-revoked_example =
    Reach-revoked in_memory in_memory-KeyStoreLaws "db" "k0" revoked_key (next here mark tt)
      (single_of-Inv revoked_key) (found_single revoked_key) refl

Reach-failed_example :
    (x : SecretKey) × (get (after (perform in_memory take_back (single_of failed_key))) "db" "k0"
      ≡ some x)
    × ((x.status ≡ failed) ⊎ (x.status ≡ revoked))
Reach-failed_example =
    Reach-failed in_memory in_memory-KeyStoreLaws "db" "k0" failed_key (next here take_back tt)
      (single_of-Inv failed_key) (found_single failed_key) refl

abbrev unnamed : Store
unnamed = ("", []) ∷ []

list_empty_name_example : (list 5 unnamed none ≡ none) × (list 5 unnamed (some "") ≡ none)
unfolding Map.has
list_empty_name_example = list_empty_name 5 unnamed refl
