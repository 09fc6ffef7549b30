-- ===== src/Token/Bearer.antt =====
-- The header that a client sends, and the token that the program reads from it.
use Prim.Native.String.{◌++◌}
use text.Mathlib.TextLemmas.{append-ne-nil_of_right_ne-nil, cons-ne-nil}
use run_bot_backend.Prelude.{String, ◌≡◌, ◌≢◌, refl, some, true, ne_test}
use run_bot_backend.Text.{cons, lower_codes, same_codes}
use run_bot_backend.Text.Laws.{Lacks, IsSolid, split-Lacks, split-append, trim_solid, Lacks-space}
use run_bot_backend.Token.{bearer_value, extract_bearer_token}

value_solid :
    (scheme token : String)
    → same_codes (lower_codes scheme) (lower_codes "bearer") ≡ true
    → token ≢ ""
    → IsSolid token
    → bearer_value (some scheme) (some token) ≡ some token
unfolding bearer_value
value_solid scheme token b ne solid = rw (b, ne_test token "" ne) (rw (trim_solid token solid) refl)

-- A header of a scheme that is "bearer" in any mix of cases, one blank and a token of one or more
-- characters none of which is white space gives back that token.
pub extract_bearer_token_lem :
    (scheme token : String)
    → Lacks b' ' scheme
    → same_codes (lower_codes scheme) (lower_codes "bearer") ≡ true
    → token ≢ ""
    → IsSolid token
    → extract_bearer_token (some (scheme ++ cons " " token)) ≡ some token
unfolding extract_bearer_token
extract_bearer_token_lem scheme token plain b ne solid =
    rw
      (
        ne_test (scheme ++ cons " " token) ""
            (append-ne-nil_of_right_ne-nil scheme (cons-ne-nil " " token)),
        split-append b' ' scheme " " token plain refl,
        split-Lacks b' ' token (Lacks-space token solid),
      )
      (value_solid scheme token b ne solid)
