-- ===== src/Service/Settings/Laws.antt =====
-- Which settings are let through, and what a push leaves behind.
use run_bot_backend.Prelude.{
  subst, String, ◌≡◌, refl, inl, inr, ◌↔◌, Bool, true, false, not, List, [], ◌∷◌, ◌==◌, eq_iff,
  select, arith, All, Bool-cases,
}
use run_bot_backend.Json.{Fields, keys}
use run_bot_backend.Platform.{Platform}
use run_bot_backend.Platform.Exec.{World, ok}
use run_bot_backend.Service.Settings.{
  allowed_settings_keys, restart_required_keys, has, validate_settings_keys, reject_restart,
  reject_unknown,
}

-- No key that needs a restart is among those that may change live.
disjoint : All (λ k. has allowed_settings_keys k ≡ false) restart_required_keys
unfolding has
disjoint = (refl, (refl, (refl, (refl, (refl, (refl, (refl, (refl, (refl, (refl, tt))))))))))

has_All :
    (Q : String → Type 0) (set : List String) (k : String) → All Q set → has set k ≡ true → Q k
unfolding has
has_All Q [] k h e = cc
has_All Q (j ∷ rest) k h e = elim (Bool-cases (j == k)) [
  | inl same ↦ subst Q ((eq_iff j k).0 same) h.0
  | inr other ↦ has_All Q rest k h.1 (ground arith)
]

not_restart :
    (k : String) → has allowed_settings_keys k ≡ true → has restart_required_keys k ≡ false
not_restart k e = elim (Bool-cases (has restart_required_keys k)) [
  | inl restart ↦
      let never =
        has_All (λ j. has allowed_settings_keys j ≡ false) restart_required_keys k disjoint
          restart in
      cc
  | inr fine ↦ fine
]

select_none : (p : String → Bool) (ks : List String) → All (λ k. p k ≡ false) ks → select p ks ≡ []
select_none p [] h = refl
select_none p (k ∷ ks) h = ground (arith, select_none p ks h.1)

none_select : (p : String → Bool) (ks : List String) → select p ks ≡ [] → All (λ k. p k ≡ false) ks
none_select p [] h = tt
none_select p (k ∷ ks) h = ground (arith, none_select p ks)

map_All :
    (Q R : String → Type 0) (ks : List String) → ((k : String) → Q k → R k) → All Q ks → All R ks
map_All Q R [] f h = tt
map_All Q R (k ∷ ks) f h = (f k h.0, map_All Q R ks f h.1)

of_not : (b : Bool) → not b ≡ false → b ≡ true
of_not true h = refl
of_not false h = cc

abbrev pub IsLive : String → Type 0
IsLive k = has allowed_settings_keys k ≡ true

module _ {P : Platform} (settings : Fields) (w : World P) where
  rejected_nonempty : (ks : List String) → (reject_unknown ks w).0 ≡ ok tt → ks ≡ []
  unfolding reject_unknown
  rejected_nonempty [] e = refl
  rejected_nonempty (k ∷ rest) e = cc

  restart_nonempty :
      (all ks : List String)
      → (reject_restart all ks w).0 ≡ ok tt
      → (reject_unknown (select (λ k. not (has allowed_settings_keys k)) all) w).0 ≡ ok tt
  unfolding reject_restart
  restart_nonempty all [] e = e
  restart_nonempty all (k ∷ rest) e = cc

  -- Settings are let through exactly when every key is one that may change while the EA runs; keys
  -- that need a restart and unknown keys are all refused.
  pub validate_settings_keys_iff :
      ((validate_settings_keys settings w).0 ≡ ok tt) ↔ All IsLive (keys settings)
  unfolding validate_settings_keys
  validate_settings_keys_iff = (to, from)
    where
      to : (validate_settings_keys settings w).0 ≡ ok tt → All IsLive (keys settings)
      to e =
          map_All (λ k. not (has allowed_settings_keys k) ≡ false) IsLive (keys settings)
            (λ k. of_not (has allowed_settings_keys k))
            (none_select _ (keys settings)
              (rejected_nonempty _ (restart_nonempty (keys settings) _ e)))

      from : All IsLive (keys settings) → (validate_settings_keys settings w).0 ≡ ok tt
      from h = rw (
        select_none (has restart_required_keys) (keys settings)
            (map_All IsLive _ (keys settings) not_restart h),
        reject_restart,
        select_none (λ k. not (has allowed_settings_keys k)) (keys settings)
            (map_All IsLive _ (keys settings) (λ k e. rw e refl) h),
      )
