-- ===== src/Http/Origin/Laws.antt =====
-- Which origins the allowlist lets in.
use run_bot_backend.Prelude.{
  String, ◌≡◌, ◌≢◌, refl, Option, some, Bool, true, false, ◌||◌, List, [], ◌∷◌, any, ◌==◌, eq_iff,
  eq_refl, is_text, Option-cases, inl, inr, arith,
}
use run_bot_backend.Http.Origin.{
  Url, distinct_from, normalize_origin, normalized, build_allowed_origins, allow_request,
}

abbrev has : String → List String → Bool
has o = any (λ x. x == o)

has-distinct_from :
    (o : String) (seen xs : List String)
    → (has o seen || has o (distinct_from seen xs)) ≡ (has o seen || has o xs)
unfolding distinct_from
has-distinct_from o seen [] = refl
has-distinct_from o seen (x ∷ xs) =
    ground (arith, has-distinct_from o seen xs, has-distinct_from o (x ∷ seen) xs, eq_iff x o)

-- No text of the list stands in it twice.
abbrev pub NoRepeats : List String → Type 0
NoRepeats [] = Unit
NoRepeats (x ∷ xs) = (has x xs ≡ false) × NoRepeats xs

unseen :
    (o : String) (seen xs : List String) → has o seen ≡ true → has o (distinct_from seen xs) ≡ false
unfolding distinct_from
unseen o seen [] h = refl
unseen o seen (x ∷ xs) h = ground (arith, unseen o seen xs h, unseen o (x ∷ seen) xs, eq_iff x o)

distinct_from-NoRepeats : (seen xs : List String) → NoRepeats (distinct_from seen xs)
unfolding distinct_from
distinct_from-NoRepeats seen [] = tt
distinct_from-NoRepeats seen (x ∷ xs) = ground (
  arith,
  distinct_from-NoRepeats seen xs,
  distinct_from-NoRepeats (x ∷ seen) xs,
  unseen x (x ∷ seen) xs,
  eq_refl x,
)

module _ (parse_url : String → Option Url) (to_lower : String → String) where
  has-normalized :
      (o : String) (list : List (Option String))
      → o ≢ ""
      → has o (normalized parse_url to_lower list)
        ≡ any (λ x. is_text (normalize_origin parse_url to_lower x) o) list
  unfolding normalized
  has-normalized o [] ne = refl
  has-normalized o (x ∷ rest) ne = elim (Option-cases (normalize_origin parse_url to_lower x)) [
    | inl bad ↦ ground (arith, has-normalized o rest ne)
    | inr (s, good) ↦ ground (arith, has-normalized o rest ne, eq_iff s "", eq_iff s o)
  ]

  -- Against the allowlist that is built from configured addresses, a browser's origin is let in
  -- exactly when one of those addresses normalizes to it; and the allowlist holds no origin twice.
  allow_request_lem :
      (list : List (Option String)) (origin : String)
      → origin ≢ ""
      → (allow_request (build_allowed_origins parse_url to_lower list) (some origin)
          ≡ any (λ x. is_text (normalize_origin parse_url to_lower x) origin) list)
        × NoRepeats (build_allowed_origins parse_url to_lower list)
  unfolding allow_request build_allowed_origins
  allow_request_lem list origin ne = (
    ground (
      arith,
      eq_iff origin "",
      has-distinct_from origin [] (normalized parse_url to_lower list),
      has-normalized origin list ne,
    ),
    distinct_from-NoRepeats [] (normalized parse_url to_lower list),
  )
