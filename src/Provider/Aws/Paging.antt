-- ===== src/Provider/Aws/Paging.antt =====
-- The bound on the pages of a listing.
use secret_rotation_kit.Prelude.{
  ℕ, zero, suc, ◌≡◌, inl, inr, Option, some, List, ◌++◌, String, map, Option-cases,
}
use secret_rotation_kit.Effect.{returned, Outcome-cases}
use secret_rotation_kit.Provider.{SecretVersion, Host, non_empty}
use secret_rotation_kit.Provider.Aws.{SecretsManagerClient, list_pages, or_nothing, version_of}

module _ {O : Type 0} (host : Host O) (client : SecretsManagerClient O) (name : String) where
  -- Where a listing is complete within a bound, a bound of one page more gives the same one.
  list_pages-more :
      (n : ℕ) (token : Option String) (vs r : List SecretVersion) (s t : O)
      → list_pages host client n name token vs s ≡ returned (some r) t
      → list_pages host client (suc n) name token vs s ≡ returned (some r) t
  unfolding list_pages
  list_pages-more zero token vs r s t h = cc
  list_pages-more (suc n) token vs r s t h =
      elim (Outcome-cases (client.list_secret_version_ids name token s)) [
        | inr (x, u, e) ↦ let h' = rw (list_pages, e) at h in absurd cc
        | inl (page, u, e) ↦ elim (Option-cases (non_empty page.next_token)) [
          | inl f ↦ let h' = rw (list_pages, e, f) at h in rw (list_pages, e, f) h'
          | inr (next, f) ↦
              let h' = rw (list_pages, e, f) at h in
              rw (list_pages, e, f)
                (list_pages-more n (some next)
                  (vs ++ map (version_of host client u) (or_nothing page.versions)) r u t h')
        ]
      ]
