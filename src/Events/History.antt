-- ===== src/Events/History.antt =====
-- What the history holds after a sequence of emitted events.
use secret_rotation_kit.Prelude.{
  length-drop, drop-append, append_assoc, append_nil, ℕ, zero, suc, ◌+◌, ◌-◌, ◌≤◌, ◌≡◌, refl, sym,
  ap, ◌∙◌, List, [], ◌∷◌, ◌++◌, arith, length, length-append, drop, ltb, inl, inr, Bool-cases,
}
use secret_rotation_kit.Types.{RotationEvent}
use secret_rotation_kit.Events.{Emitter, emit, bounded}

module _ {ℓ} {A : Type ℓ} where
  drop-nil : (k : ℕ) → drop {A = A} k [] ≡ []
  drop-nil zero = refl
  drop-nil (suc k) = refl

  drop-drop : (k j : ℕ) (xs : List A) → drop j (drop k xs) ≡ drop (k + j) xs
  drop-drop zero j xs = ap (λ z. drop z xs) (omega arith)
  drop-drop (suc k) j [] = drop-nil j ∙ sym (drop-nil (suc k + j))
  drop-drop (suc k) j (x ∷ xs) =
      let e : suc k + j ≡ suc (k + j) = omega arith in
      drop-drop k j xs ∙ ap (λ z. drop z (x ∷ xs)) (sym e)

  -- The last `m` entries, all of them where there are fewer.
  abbrev pub last_of : ℕ → List A → List A
  last_of m xs = drop (length xs - m) xs

  last_of-append : (m : ℕ) (xs ys : List A) → last_of m (last_of m xs ++ ys) ≡ last_of m (xs ++ ys)
  last_of-append m xs ys =
      let k = length xs - m in
      let cut : drop k (xs ++ ys) ≡ drop k xs ++ ys = drop-append k xs ys (omega arith) in
      let left : length (drop k xs ++ ys) ≡ (length xs - k) + length ys =
        length-append (drop k xs) ys ∙ ap (λ z. z + length ys) (length-drop k xs) in
      let n : k + (length (drop k xs ++ ys) - m) ≡ length (xs ++ ys) - m =
        omega (arith, left, length-append xs ys) in
      ap (drop (length (drop k xs ++ ys) - m)) (sym cut)
      ∙ drop-drop k (length (drop k xs ++ ys) - m) (xs ++ ys)
      ∙ ap (λ z. drop z (xs ++ ys)) n

unfoldable pub emit_all : ℕ → List RotationEvent → Emitter → Emitter
emit_all m [] s = s
emit_all m (e ∷ es) s = emit_all m es (emit m e s)

bounded_lem : (m : ℕ) (xs : List RotationEvent) → bounded m xs ≡ last_of m xs
bounded_lem m xs = elim (Bool-cases (ltb m (length xs))) [
  | inl e ↦ rw e refl
  | inr e ↦ let n : length xs - m ≡ 0 = ground arith in rw e (sym (ap (λ z. drop z xs) n))
]

-- From a history that is not longer than `maxHistory`, after any sequence of emitted events, the
-- history is the last `maxHistory` of the former and the new events, in their order.
history-emit_all :
    (m : ℕ) (es : List RotationEvent) (s : Emitter)
    → length s.history ≤ m
    → (emit_all m es s).history ≡ last_of m (s.history ++ es)
unfolding emit_all emit
history-emit_all m es s h = go es s.history s (ap (λ z. drop z s.history) (sym none_lost))
  where
    none_lost : length s.history - m ≡ 0
    none_lost = omega (arith, h)

    go :
        (es past : List RotationEvent) (s : Emitter)
        → s.history ≡ last_of m past
        → (emit_all m es s).history ≡ last_of m (past ++ es)
    go [] past s e = e ∙ ap (last_of m) (sym (append_nil past))
    go (x ∷ es) past s e =
        go es (past ++ x ∷ []) (emit m x s) (
          bounded_lem m (s.history ++ x ∷ [])
          ∙ ap (λ z. last_of m (z ++ x ∷ [])) e
          ∙ last_of-append m past (x ∷ []))
        ∙ ap (last_of m) (append_assoc past (x ∷ []) es)
