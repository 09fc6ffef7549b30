-- ===== src/Service/Isolation.antt =====
-- What an action for one user leaves of an EA of others: its documents, its audit entries and what was
-- sent to its rooms.
use run_bot_backend.Prelude.{
  String, ◌≡◌, ◌≢◌, refl, sym, ◌∙◌, ap, Option, some, Bool, true, false, ◌||◌, List, [], ◌∷◌, ◌++◌,
  ◌==◌, eq_iff, some-is_text, ne_test, differs, any, select, head?, All, Bool-cases, Option-cases,
  subst, inl, inr, if◌then◌else◌, arith,
}
use run_bot_backend.Data.{
  EaInstance, EaAuditLog, AuditEvent, AuditPayload, Effect, emit_room, emit_client, disconnect,
  join, leave,
}
use run_bot_backend.Platform.{Platform, Laws, update_first}
use run_bot_backend.Platform.Documents.{by_agent, KeepsAgent}
use run_bot_backend.Platform.Keeps.{Facts, Holds, Keeps, Keeps-change, Keeps-bind}
use run_bot_backend.Platform.Exec.{World, Result, Exec, change, query, ◌>>=◌, ◌>>◌}
use run_bot_backend.Gateway.{agent_room, bridge_room, send_command_to_bridge}
use run_bot_backend.Gateway.Rooms.{bridge_room_injective, bridge_room-ne-agent_room}
use run_bot_backend.Service.Keeps.{require_ownership-Keeps}
use run_bot_backend.Service.{log_event, require_ownership}
use run_bot_backend.Service.Access.{looked_at, stranger-eq-none}
use run_bot_backend.Service.Bulk.{by_user}

abbrev pub entry_about : String → EaAuditLog → Bool
entry_about a e = e.agent_id == a

abbrev pub in_rooms_of : String → Effect → Bool
in_rooms_of a (emit_room room event) = room == bridge_room a || room == agent_room a
in_rooms_of a (emit_client id event) = false
in_rooms_of a (disconnect id) = false
in_rooms_of a (join id room) = false
in_rooms_of a (leave id room) = false

-- What there is of an agent: its documents, its audit entries, and what was sent to its rooms.
abbrev pub Spared :
    (P : Platform) → String → List EaInstance → List EaAuditLog → List Effect → Facts P
Spared P a docs logs told db b t c =
    (select (by_agent a) (P.instances db) ≡ docs)
    × (select (entry_about a) (P.audit_logs db) ≡ logs)
    × (select (in_rooms_of a) t ≡ told)

-- A query that matches documents of one agent only.
abbrev pub IsAbout : String → (EaInstance → Bool) → Type 0
IsAbout b p = (i : EaInstance) → p i ≡ true → i.agent_id ≡ b

pub by_agent-IsAbout : (b : String) → IsAbout b (by_agent b)
by_agent-IsAbout b i h = (eq_iff i.agent_id b).0 h

select-update_first :
    (a b : String) (p : EaInstance → Bool) (f : EaInstance → EaInstance)
    → IsAbout b p
    → KeepsAgent f
    → b ≢ a
    → (xs : List EaInstance) → select (by_agent a) (update_first p f xs) ≡ select (by_agent a) xs
select-update_first a b p f about keep apart [] = refl
select-update_first a b p f about keep apart (x ∷ xs) =
    let rest = select-update_first a b p f about keep apart xs in
    elim (Bool-cases (p x)) [
      | inl here ↦
          let other = ne_test x.agent_id a (λ e. apart (sym (about x here) ∙ e)) in
          rw (here, keep x, other) refl
      | inr there ↦ rw (there, rest) refl
    ]

select-append :
    {A : Type 0} (q : A → Bool) (xs : List A) (e : A)
    → q e ≡ false
    → select q (xs ++ e ∷ []) ≡ select q xs
select-append q [] e h = rw h refl
select-append q (x ∷ xs) e h = ap (λ r. if q x then x ∷ r else r) (select-append q xs e h)

module _ {P : Platform} (laws : Laws P) (a : String) (docs : List EaInstance)
    (logs : List EaAuditLog) (told : List Effect) where
  abbrev J : Facts P
  J = Spared P a docs logs told

  -- What is written and sent for another agent.
  pub update-Spared :
      (b : String) (p : EaInstance → Bool) (f : EaInstance → EaInstance)
      → IsAbout b p
      → KeepsAgent f
      → b ≢ a
      → Keeps P J (change (P.update_one p f))
  update-Spared b p f about keep apart = Keeps-change (P.update_one p f) λ db db' e bs t c h. (
    ap (select (by_agent a)) (laws.instances-update_one p f db db' e)
        ∙ select-update_first a b p f about keep apart (P.instances db)
        ∙ h.0,
    ap (select (entry_about a)) (laws.audit_logs-update_one p f db db' e) ∙ h.1,
    h.2,
  )

  pub log_event-Spared :
      (b : String) (event : AuditEvent) (payload : AuditPayload) (u : Option String)
      → b ≢ a
      → Keeps P J (log_event b event payload u)
  unfolding log_event
  log_event-Spared b event payload u apart =
      let e : EaAuditLog = record { agent_id = b; event = event; payload = payload; user_id = u } in
      Keeps-change (P.create_audit_log e) λ db db' written bs t c h. (
        ap (select (by_agent a)) (laws.instances-create_audit_log e db db' written) ∙ h.0,
        ap (select (entry_about a)) (laws.audit_logs-create_audit_log e db db' written)
            ∙ select-append (entry_about a) (P.audit_logs db) e (ne_test b a apart)
            ∙ h.1,
        h.2,
      )

  pub send-Spared :
      (b id verb : String) (value : Option String)
      → b ≢ a
      → Keeps P J (send_command_to_bridge b id verb value)
  unfolding send_command_to_bridge
  send-Spared b id verb value apart = record {
    at = λ w h.
        let rooms =
          ne_test (bridge_room b) (bridge_room a) (λ e. apart (bridge_room_injective b a e)) in
        let listeners = ne_test (bridge_room b) (agent_room a) (bridge_room-ne-agent_room a b) in
        (h.0, h.1, rw (rooms, listeners) h.2);
  }

any-head :
    (p : EaInstance → Bool) (xs : List EaInstance) (i : EaInstance)
    → head? xs ≡ some i
    → p i ≡ true
    → any p xs ≡ true
any-head p [] i h mine = cc
any-head p (x ∷ xs) i h mine = ground (arith, ap p (some_injective h))
  where
    some_injective : {x y : EaInstance} → some x ≡ some y → x ≡ y
    some_injective e = cc

-- The documents of one user are about no agent that another user has.
others_only :
    (a v : String) (p : EaInstance → Bool)
    → ((i : EaInstance) → p i ≡ true → by_user v i ≡ true)
    → (xs : List EaInstance) → any (by_user v) (select (by_agent a) xs) ≡ false
    → All (λ i. i.agent_id ≢ a) (select p xs)
others_only a v p mine [] h = tt
others_only a v p mine (x ∷ xs) h = elim (Bool-cases (p x)) [
  | inl here ↦
      let user = mine x here in
      elim (Bool-cases (by_agent a x)) [
        | inl same ↦ absurd (ground arith)
        | inr other ↦ rw here (differs x.agent_id a other, others_only a v p mine xs (ground arith))
      ]
  | inr there ↦ rw there (
      others_only a v p mine xs
        (elim (Bool-cases (by_agent a x)) [ inl same ↦ ground arith | inr other ↦ ground arith ]))
]

module _ {P : Platform} (laws : Laws P) (a v : String) (docs : List EaInstance)
    (logs : List EaAuditLog) (told : List Effect) (others : any (by_user v) docs ≡ false)
    {A : Type 0} where
  -- Behind the check of the owner there is no action on the EA of another user.
  pub owned-Spared :
      (b : String) (rest : Exec P A)
      → (b ≢ a → Keeps P (Spared P a docs logs told) rest)
      → Keeps P (Spared P a docs logs told) (require_ownership b v >> rest)
  owned-Spared b rest k = elim (Bool-cases (b == a)) [
    | inl same ↦ record {
      at = λ w h. elim (looked_at b v rest w) [
        | inl (down, r) ↦ left_alone w _ r h
        | inr (found, f, inl (e, why, r)) ↦ left_alone w _ r h
        | inr (found, f, inr (granted, r)) ↦
            let (i, is, mine) = stranger-eq-none b v found granted in
            let first : head? docs ≡ some i =
              sym (
                ap head?
                  (ap (λ x. select (by_agent x) (P.instances w.db)) ((eq_iff b a).0 same) ∙ h.0))
              ∙ sym (laws.find_one_lem (by_agent b) w.db found f)
              ∙ is in
            let his = any-head (by_user v) docs i first (some-is_text i.user_id v mine) in
            absurd (ground arith)
      ];
    }
    | inr other ↦ Keeps-bind (require_ownership-Keeps b v) (λ _. k (differs b a other))
  ]
    where
      left_alone :
          (w : World P) (x : Result A) {r : Result A × World P}
          → r ≡ (x, w)
          → Holds {P = P} (Spared P a docs logs told) w
          → Holds {P = P} (Spared P a docs logs told) r.1
      left_alone w x e h = rw e h

  -- Nor behind a query of the user's own.
  pub queried-Spared :
      (p : EaInstance → Bool) (g : List EaInstance → Exec P A)
      → ((i : EaInstance) → p i ≡ true → by_user v i ≡ true)
      → ((xs : List EaInstance)
          → All (λ i. i.agent_id ≢ a) xs
          → Keeps P (Spared P a docs logs told) (g xs))
      → Keeps P (Spared P a docs logs told) (query (P.find p) >>= g)
  queried-Spared p g mine k = record {
    at = λ w h. elim (Option-cases (P.find p w.db)) [
      | inl down ↦ rw down h
      | inr (xs, f) ↦
          let none_his = ap (any (by_user v)) h.0 ∙ others in
          let apart : All (λ i. i.agent_id ≢ a) xs =
            subst (All (λ i. i.agent_id ≢ a)) (sym (laws.find_lem p w.db xs f))
              (others_only a v p mine (P.instances w.db) none_his) in
          rw f ((k xs apart).at w h)
    ];
  }
