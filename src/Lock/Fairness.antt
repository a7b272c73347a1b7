-- ===== src/Lock/Fairness.antt =====
-- Who holds the lock, in any interleaving of arriving and leaving calls.
use secret_rotation_kit.Prelude.{
  drop-append, append_nil, ℕ, zero, suc, ◌≤◌, ◌≡◌, refl, sym, ap, ◌∙◌, subst, false, some, List, [],
  ◌∷◌, ◌++◌, String, ◌==◌, string_eq, if◌then◌else◌, length, length-append, take, drop, nat_beq,
  arith, inl, inr, Bool-cases, eq_of_beq, beq_self,
}
use secret_rotation_kit.Map
use secret_rotation_kit.Lock.{Queues, queue_of, acquire, release}

module _ {ℓ} {A : Type ℓ} where
  take_all : (k : ℕ) (xs : List A) → length xs ≤ k → take k xs ≡ xs
  take_all zero [] h = refl
  take_all zero (x ∷ xs) h = absurd (omega arith)
  take_all (suc k) [] h = refl
  take_all (suc k) (x ∷ xs) h = ap (λ t. x ∷ t) (take_all k xs (omega arith))

  take-append : (k : ℕ) (xs ys : List A) → k ≤ length xs → take k (xs ++ ys) ≡ take k xs
  take-append zero xs ys h = refl
  take-append (suc k) [] ys h = absurd (omega arith)
  take-append (suc k) (x ∷ xs) ys h = ap (λ t. x ∷ t) (take-append k xs ys (omega arith))

  -- The next entry after the first `k`.
  take_next : (k : ℕ) (xs : List A) → take (suc k) xs ≡ take k xs ++ take 1 (drop k xs)
  take_next zero [] = refl
  take_next zero (x ∷ xs) = refl
  take_next (suc k) [] = refl
  take_next (suc k) (x ∷ xs) = ap (λ t. x ∷ t) (take_next k xs)

  drop_next :
      (k : ℕ) (xs rest : List A) (x : A)
      → drop k xs ≡ x ∷ rest
      → (drop (suc k) xs ≡ rest) × (suc k ≤ length xs)
  drop_next zero [] rest x h = absurd (cc)
  drop_next zero (y ∷ ys) rest x h = (cc, omega arith)
  drop_next (suc k) [] rest x h = absurd (cc)
  drop_next (suc k) (y ∷ ys) rest x h =
      let (a, b) = drop_next k ys rest x h in (a, omega (arith, b))

  drop_nil : (k : ℕ) (xs : List A) → drop k xs ≡ [] → length xs ≤ k
  drop_nil zero [] h = omega arith
  drop_nil zero (y ∷ ys) h = absurd (cc)
  drop_nil (suc k) [] h = omega arith
  drop_nil (suc k) (y ∷ ys) h = omega (arith, drop_nil k ys h)

-- What has happened at each name: the calls that arrived, those that were granted the lock, and how
-- many have left.
pub record History : Type 0 where
  pub arrived : String → List ℕ
  pub granted : String → List ℕ
  pub left : String → ℕ

abbrev pub at_name {ℓ} : {B : Type ℓ} → String → (B → B) → (String → B) → String → B
at_name n f g m = if n == m then f (g m) else g m

-- The states that are reached: a call arrives at any time, and the call at the head of a queue leaves.
pub data Reach : Queues → History → Type 0 where
  start : Reach [] (record { arrived = λ n. []; granted = λ n. []; left = λ n. 0 })
  arrives :
      {s : Queues} {h : History} (n : String) (i : ℕ)
      → Reach s h
      → Reach (acquire n i s).0 (record {
        arrived = at_name n (λ xs. xs ++ i ∷ []) h.arrived;
        granted = at_name n (λ xs. xs ++ (acquire n i s).1) h.granted;
        left = h.left;
      })
  leaves :
      {s : Queues} {h : History} (n : String) (i : ℕ) (rest : List ℕ)
      → Map.get s n ≡ some (i ∷ rest)
      → Reach s h
      → Reach (release n s).0 (record {
        arrived = h.arrived;
        granted = at_name n (λ xs. xs ++ (release n s).1) h.granted;
        left = at_name n suc h.left;
      })

-- The queue of a name is what arrived, without those that left; and those that were granted the lock
-- are those that left and the next one, in the order of arrival.
pub record IsFair (s : Queues) (h : History) (m : String) : Type 0 where
  pub waiting : queue_of (Map.get s m) ≡ drop (h.left m) (h.arrived m)
  pub served : h.granted m ≡ take (suc (h.left m)) (h.arrived m)
  pub bounded : h.left m ≤ length (h.arrived m)

-- A call that arrives is granted the lock if nobody waits, and it is then the next one.
serve :
    (c i : ℕ) (xs g q : List ℕ)
    → q ≡ drop c xs
    → c ≤ length xs
    → g ≡ take (suc c) xs
    → g ++ (if nat_beq (length (q ++ i ∷ [])) 1 then i ∷ [] else []) ≡ take (suc c) (xs ++ i ∷ [])
serve c i xs g [] e b h =
    let n = drop_nil c xs (sym e) in
    ap (λ z. z ++ i ∷ []) (h ∙ take_all (suc c) xs (omega (arith, n)))
    ∙ sym (take_all (suc c) (xs ++ i ∷ []) (omega (arith, n, length-append xs (i ∷ []))))
serve c i xs g (y ∷ ys) e b h =
    let n = (drop_next c xs ys y (sym e)).1 in
    let f : nat_beq (length (y ∷ ys ++ i ∷ [])) 1 ≡ false =
      ground (arith, length-append ys (i ∷ [])) in
    rw f (append_nil g ∙ h ∙ sym (take-append (suc c) xs (i ∷ []) n))

module _ (s : Queues) (h : History) (n : String) where
  arrives-IsFair :
      (i : ℕ)
      → IsFair s h n
      → IsFair
          (acquire n i s).0
          (record {
            arrived = at_name n (λ xs. xs ++ i ∷ []) h.arrived;
            granted = at_name n (λ xs. xs ++ (acquire n i s).1) h.granted;
            left = h.left;
          })
          n
  unfolding acquire
  arrives-IsFair i f = record {
    waiting =
        rw (Map.get-set_self s n (queue_of (Map.get s n) ++ i ∷ []), beq_self n)
          (ap (λ z. z ++ i ∷ []) f.waiting
            ∙ sym (drop-append (h.left n) (h.arrived n) (i ∷ []) f.bounded));
    served = rw (beq_self n) (
        serve (h.left n) i (h.arrived n) (h.granted n) (queue_of (Map.get s n)) f.waiting f.bounded
          f.served);
    bounded = rw (beq_self n) (omega (arith, f.bounded, length-append (h.arrived n) (i ∷ [])));
  }

  leaves-IsFair :
      (i : ℕ) (rest : List ℕ)
      → Map.get s n ≡ some (i ∷ rest)
      → IsFair s h n
      → IsFair
          (release n s).0
          (record {
            arrived = h.arrived;
            granted = at_name n (λ xs. xs ++ (release n s).1) h.granted;
            left = at_name n suc h.left;
          })
          n
  unfolding release
  leaves-IsFair i rest g f =
      let (e, b) = drop_next (h.left n) (h.arrived n) rest i (sym f.waiting ∙ ap queue_of g) in
      record {
        waiting = rw (g, beq_self n) (rw (Map.get-set_self s n rest) (sym e));
        served =
            rw (g, beq_self n)
              (ap (λ z. z ++ take 1 rest) f.served
                ∙ ap (λ z. take (suc (h.left n)) (h.arrived n) ++ take 1 z) (sym e)
                ∙ sym (take_next (suc (h.left n)) (h.arrived n)));
        bounded = rw (beq_self n) b;
      }

moved-IsFair : {s : Queues} {h : History} {n m : String} → n ≡ m → IsFair s h n → IsFair s h m
moved-IsFair {s} {h} e f = subst (IsFair s h) e f

-- Whatever the order in which calls arrive and the heads of the queues leave: at each name the lock is
-- granted in the order of arrival, to each call once, and to at most one that has not left.
pub Reach-IsFair : {s : Queues} {h : History} → Reach s h → (m : String) → IsFair s h m
unfolding acquire release Map.get
Reach-IsFair start m = record { waiting = refl; served = refl; bounded = omega arith }
Reach-IsFair (arrives {s} {h} n i r) m = elim (Bool-cases (n == m)) [
  | inl e ↦ moved-IsFair (eq_of_beq n m e) (arrives-IsFair s h n i (Reach-IsFair r n))
  | inr e ↦
      let f = Reach-IsFair r m in
      record {
        waiting = rw (Map.get-set s n m (queue_of (Map.get s n) ++ i ∷ []), e) f.waiting;
        served = rw e f.served;
        bounded = rw e f.bounded;
      }
]
Reach-IsFair (leaves {s} {h} n i rest g r) m = elim (Bool-cases (n == m)) [
  | inl e ↦ moved-IsFair (eq_of_beq n m e) (leaves-IsFair s h n i rest g (Reach-IsFair r n))
  | inr e ↦
      let f = Reach-IsFair r m in
      record {
        waiting = rw (g, e) (rw (Map.get-set s n m rest, e) f.waiting);
        served = rw e f.served;
        bounded = rw e f.bounded;
      }
]
