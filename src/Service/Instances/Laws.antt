-- ===== src/Service/Instances/Laws.antt =====
-- Hiding an EA, and the list that a user sees.
use run_bot_backend.Prelude.{
  ℕ, String, ◌≡◌, ◌≢◌, refl, ◌∙◌, ap, sym, inl, inr, Option, some, true, false, List, [], ◌∷◌, map,
  ◌==◌, eq_iff, some-is_text, subst, Option-cases, Bool-cases, arith, any, select, head?, All,
}
use run_bot_backend.Data.{EaInstance, EaAuditLog, AuditEvent, AuditPayload}
use run_bot_backend.Platform.{Platform, Laws, update_first}
use run_bot_backend.Platform.Documents.{found-document}
use run_bot_backend.Platform.Exec.{World, Exec, ok, err, conflict, query, pure, ◌>>=◌, ◌>>◌}
use run_bot_backend.Gateway.{by_agent}
use run_bot_backend.Service.Access.{stranger, stranger-eq-none, looked_at, Gate}
use run_bot_backend.Service.Instances.{
  InstanceListItem, list_item, is_null, visible_to, idle_of, hide, is_online, hide_offline,
  hide_instance, get_all_instances,
}

-- The collection's unique index: no two documents have one agent.
abbrev pub UniqueAgents : List EaInstance → Type 0
UniqueAgents [] = Unit
UniqueAgents (x ∷ xs) = (any (by_agent x.agent_id) xs ≡ false) × UniqueAgents xs

-- No document of the agent is visible.
abbrev IsHidden : String → EaInstance → Type 0
IsHidden a i = (i.agent_id ≡ a) → is_null i.hidden_at ≡ false

absent : (a : String) (xs : List EaInstance) → any (by_agent a) xs ≡ false → All (IsHidden a) xs
absent a [] h = tt
absent a (x ∷ xs) h =
    (λ e. absurd (ground (arith, eq_iff x.agent_id a)), absent a xs (ground arith))

first-IsHidden :
    (a u : String) (now : ℕ) (i : EaInstance) (xs : List EaInstance)
    → UniqueAgents xs
    → head? (select (by_agent a) xs) ≡ some i
    → i.user_id ≡ some u
    → i.online ≡ false
    → All (IsHidden a) (update_first (idle_of a u) (hide now) xs)
first-IsHidden a u now i [] uniq f own off = tt
first-IsHidden a u now i (x ∷ xs) uniq f own off = elim (Bool-cases (x.agent_id == a)) [
  | inl here ↦
      let e : x ≡ i = ground arith in
      let idle : idle_of a u x ≡ true = ground (arith, some-is_text i.user_id u own) in
      let same : x.agent_id ≡ a = (eq_iff x.agent_id a).0 here in
      rw idle ((λ k. refl), absent a xs (rw (← same) uniq.0))
  | inr there ↦
      let busy : idle_of a u x ≡ false = ground arith in
      rw busy (
        (λ k. absurd (ground (arith, eq_iff x.agent_id a))),
        first-IsHidden a u now i xs uniq.1 (rw there at f) own off,
      )
]

listed_visible :
    (a u : String) (xs : List EaInstance)
    → All (IsHidden a) xs
    → All (λ item. item.agent_id ≢ a) (map list_item (select (visible_to u) xs))
listed_visible a u [] h = tt
listed_visible a u (x ∷ xs) h = elim (Bool-cases (visible_to u x)) [
  | inl seen ↦ rw seen ((λ e. absurd (ground (arith, h.0 e))), listed_visible a u xs h.1)
  | inr unseen ↦ rw unseen (listed_visible a u xs h.1)
]

abbrev pub hidden_entry : String → String → EaAuditLog
hidden_entry agent_id user_id = record {
  agent_id = agent_id;
  event = AuditEvent.instance_hidden;
  payload = AuditPayload.nothing;
  user_id = some user_id;
}

module _ {P : Platform} where
  hide_checked : ℕ → String → String → Exec P String
  unfolding hide_offline
  hide_checked now agent_id user_id = do
    found ← query (P.find_one (by_agent agent_id))
    hide_offline now agent_id user_id found
    pure agent_id

  hide-Gate :
      (now : ℕ) (agent_id user_id : String) (w : World P)
      → Gate agent_id
          (stranger agent_id user_id)
          (hide_checked now agent_id user_id)
          w
          (hide_instance now agent_id user_id w)
  unfolding hide_instance hide_checked
  hide-Gate now agent_id user_id w =
      looked_at agent_id user_id (hide_checked now agent_id user_id) w

  hide_checked_ok :
      (now : ℕ) (agent_id user_id id : String) (w : World P)
      → (hide_checked now agent_id user_id w).0 ≡ ok id
      → (found : Option EaInstance) × (P.find_one (by_agent agent_id) w.db ≡ some found)
        × (is_online found ≡ false)
        × ((db : P.Db) × (P.update_one (idle_of agent_id user_id) (hide now) w.db ≡ some db)
            × (P.create_audit_log (hidden_entry agent_id user_id) db
                ≡ some (hide_checked now agent_id user_id w).1.db))
  unfolding hide_checked
  hide_checked_ok now agent_id user_id id w h =
      elim (Option-cases (P.find_one (by_agent agent_id) w.db)) [
        | inl down ↦ absurd (ground arith)
        | inr (found, f) ↦
            elim (Option-cases (P.update_one (idle_of agent_id user_id) (hide now) w.db)) [
              | inl down ↦ absurd (ground arith)
              | inr (db, e) ↦ (found, f, ground arith, (db, e, ground arith))
            ]
      ]

  -- An EA that is online is not hidden: its owner gets the conflict, and nothing changes.
  pub hide_online :
      (now : ℕ) (agent_id user_id : String) (i : EaInstance) (w : World P)
      → P.find_one (by_agent agent_id) w.db ≡ some (some i)
      → i.user_id ≡ some user_id
      → i.online ≡ true
      → hide_instance now agent_id user_id w
        ≡ (err (conflict "EA instance is online; stop it before removing"), w)
  unfolding hide_instance
  hide_online now agent_id user_id i w f own on = ground (arith, some-is_text i.user_id user_id own)

  listed :
      (user_id : String) (w : World P) (items : List InstanceListItem)
      → (get_all_instances user_id w).0 ≡ ok items
      → (xs : List EaInstance) × (P.find (visible_to user_id) w.db ≡ some xs)
        × (items ≡ map list_item xs)
  unfolding get_all_instances
  listed user_id w items h = elim (Option-cases (P.find (visible_to user_id) w.db)) [
    | inl down ↦ absurd (ground arith)
    | inr (xs, found) ↦ (xs, found, ground arith)
  ]

module _ {P : Platform} (laws : Laws P) where
  after-IsHidden :
      (now : ℕ) (agent_id user_id id : String) (w w' : World P)
      → UniqueAgents (P.instances w.db)
      → hide_instance now agent_id user_id w ≡ (ok id, w')
      → All (IsHidden agent_id) (P.instances w'.db)
  after-IsHidden now agent_id user_id id w w' uniq h = elim (hide-Gate now agent_id user_id w) [
    | inl (down, r) ↦ absurd (cc (ap (λ x. x.0) (sym r ∙ h)))
    | inr (found, f, inl (why, refused, r)) ↦ absurd (cc (ap (λ x. x.0) (sym r ∙ h)))
    | inr (found, f, inr (allowed, r)) ↦
        let (i, is_i, own) = stranger-eq-none agent_id user_id found allowed in
        let (found', f', off, (db, e, e')) =
          hide_checked_ok now agent_id user_id id w (ap (λ x. x.0) (sym r ∙ h)) in
        let same : found' ≡ some i = ground arith in
        let idle : i.online ≡ false = ap is_online (sym same) ∙ off in
        let doc = sym (found-document laws agent_id w.db (some i) (f ∙ ap some is_i)) in
        let at_end : P.create_audit_log (hidden_entry agent_id user_id) db ≡ some w'.db =
          e' ∙ ap (λ x. some x.1.db) (sym r ∙ h) in
        subst (All (IsHidden agent_id))
          (sym (
            laws.instances-create_audit_log (hidden_entry agent_id user_id) db w'.db at_end
            ∙ laws.instances-update_one (idle_of agent_id user_id) (hide now) w.db db e))
          (first-IsHidden agent_id user_id now i (P.instances w.db) uniq doc own idle)
  ]

  -- After an EA is hidden, the list of instances that any user gets, in the state left, does not hold
  -- it. The agents' ids are taken to be unique, as the collection's index makes them.
  pub get_all_instances-hide_instance :
      (now : ℕ) (agent_id user_id reader id : String) (w w' : World P)
      (items : List InstanceListItem)
      → UniqueAgents (P.instances w.db)
      → hide_instance now agent_id user_id w ≡ (ok id, w')
      → (get_all_instances reader w').0 ≡ ok items
      → All (λ item. item.agent_id ≢ agent_id) items
  get_all_instances-hide_instance now agent_id user_id reader id w w' items uniq h got =
      let (xs, found, same) = listed reader w' items got in
      rw (same, laws.find_lem (visible_to reader) w'.db xs found)
        (listed_visible agent_id reader (P.instances w'.db)
          (after-IsHidden now agent_id user_id id w w' uniq h))
