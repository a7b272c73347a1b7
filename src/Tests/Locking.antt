-- ===== src/Tests/Locking.antt =====
-- The lock at a concrete interleaving.
use secret_rotation_kit.Prelude.{suc, ◌≡◌, refl, [], ◌∷◌, ◌++◌, some, string_eq}
use secret_rotation_kit.Map
use secret_rotation_kit.Lock.{Queues, acquire, release}
use secret_rotation_kit.Lock.Fairness.{at_name, start, arrives, leaves, IsFair, Reach-IsFair}

-- Two calls arrive, and the first one leaves.
abbrev both : Queues
both = (acquire "db" 2 (acquire "db" 1 []).0).0

head_of_both : Map.get both "db" ≡ some (1 ∷ 2 ∷ [])
unfolding acquire Map.get Map.set
head_of_both = refl

Reach-IsFair_example :
    IsFair
      (release "db" both).0
      (record {
        arrived = at_name "db" (λ xs. xs ++ 2 ∷ []) (at_name "db" (λ xs. xs ++ 1 ∷ []) (λ n. []));
        granted =
            at_name "db"
              (λ xs. xs ++ (release "db" both).1)
              (at_name "db"
                (λ xs. xs ++ (acquire "db" 2 (acquire "db" 1 []).0).1)
                (at_name "db" (λ xs. xs ++ (acquire "db" 1 []).1) (λ n. [])));
        left = at_name "db" suc (λ n. 0);
      })
      "db"
Reach-IsFair_example =
    Reach-IsFair (leaves "db" 1 (2 ∷ []) head_of_both (arrives "db" 2 (arrives "db" 1 start))) "db"
