-- ===== src/Service/Bulk/Laws.antt =====
-- What a bulk command sends and reports.
use run_bot_backend.Prelude.{
  ◌≢◌, ◌⊎◌, ◌<◌, subst, ℕ, suc, ◌+◌, String, ◌≡◌, refl, Option, none, some, true, false, List, [],
  ◌∷◌, ◌&&◌, ◌==◌, is_text, inl, inr, if◌then◌else◌, length, select, arith, All, Option-cases,
  Bool-cases,
}
use run_bot_backend.Data.{EaInstance, AuditEvent, Effect, emit_room, bridge_command}
use run_bot_backend.Platform.{Platform, Laws}
use run_bot_backend.Platform.Exec.{World, Result, ok, err, rejected}
use run_bot_backend.Gateway.{bridge_room}
use run_bot_backend.Service.Bulk.{
  BulkCommandResult, BulkCommandSummary, offline_result, sent_result, fan_out_one, fan_out_results,
  fan_out_command, by_account, by_user, stop_account, kill_all,
}

abbrev pub online_count : List EaInstance → ℕ
online_count xs = length (select (λ i. i.online) xs)

module _ (P : Platform) where
  -- The results that a fan-out promises, where `n` calls of `uuidv4` went before.
  abbrev pub promised_results : ℕ → List EaInstance → List BulkCommandResult
  promised_results n [] = []
  promised_results n (i ∷ rest) =
      let later = promised_results (suc n) rest in
      let same = promised_results n rest in
      if i.online
      then record { agent_id = i.agent_id; ok = true; command_id = some (P.uuid n); error = none }
        ∷ later
      else record { agent_id = i.agent_id; ok = false; command_id = none; error = some "offline" }
        ∷ same

  -- The trace after it: one command to the bridge of each online EA, in order.
  abbrev pub promised_trace :
      String → Option String → ℕ → List EaInstance → List Effect → List Effect
  promised_trace verb value n [] trace = trace
  promised_trace verb value n (i ∷ rest) trace =
      let later =
        promised_trace verb value (suc n) rest
          (emit_room (bridge_room i.agent_id) (bridge_command (P.uuid n) verb value) ∷ trace) in
      let same = promised_trace verb value n rest trace in if i.online then later else same

  sent_count :
      (n : ℕ) (xs : List EaInstance)
      → length (select (λ r. r.ok) (promised_results n xs)) ≡ online_count xs
  sent_count n [] = refl
  sent_count n (i ∷ rest) = ground (arith, sent_count (suc n) rest, sent_count n rest)

module _ {P : Platform} (verb : String) (value : Option String) (event : AuditEvent)
    (user_id : String) where
  fan_out_one_online :
      (i : EaInstance) (w : World P)
      → i.online ≡ true
      → ((fan_out_one i verb value event user_id w).0
          ≡ ok (sent_result i.agent_id (P.uuid w.uuids)))
        × ((fan_out_one i verb value event user_id w).1.uuids ≡ suc w.uuids)
        × ((fan_out_one i verb value event user_id w).1.trace
            ≡ emit_room (bridge_room i.agent_id) (bridge_command (P.uuid w.uuids) verb value)
              ∷ w.trace)
  unfolding fan_out_one
  fan_out_one_online i w on = ground arith

  fan_out_one_offline :
      (i : EaInstance) (w : World P)
      → i.online ≡ false
      → fan_out_one i verb value event user_id w ≡ (ok (offline_result i.agent_id), w)
  unfolding fan_out_one
  fan_out_one_offline i w off = ground arith

  fan_out_results_lem :
      (xs : List EaInstance) (w : World P)
      → ((fan_out_results xs verb value event user_id w).0 ≡ ok (promised_results P w.uuids xs))
        × ((fan_out_results xs verb value event user_id w).1.uuids ≡ w.uuids + online_count xs)
        × ((fan_out_results xs verb value event user_id w).1.trace
            ≡ promised_trace P verb value w.uuids xs w.trace)
  unfolding fan_out_results
  fan_out_results_lem [] w = (refl, omega arith, refl)
  fan_out_results_lem (i ∷ rest) w = elim (Bool-cases i.online) [
    | inl on ↦ ground (
      arith,
      fan_out_one_online i w on,
      fan_out_results_lem rest (fan_out_one i verb value event user_id w).1,
    )
    | inr off ↦ ground (arith, fan_out_one_offline i w off, fan_out_results_lem rest w)
  ]

  -- A fan-out always answers, whatever the audit writes do: with one result for each EA, in order,
  -- "offline" for those that are offline and a fresh command id for the others, the right counts, and
  -- one command on the bridge room of each online EA, in order, and nothing else.
  pub fan_out_command_lem :
      (xs : List EaInstance) (w : World P)
      → ((fan_out_command xs verb value event user_id w).0
          ≡ ok (record {
            total = length xs;
            sent = online_count xs;
            results = promised_results P w.uuids xs;
          }))
        × ((fan_out_command xs verb value event user_id w).1.uuids ≡ w.uuids + online_count xs)
        × ((fan_out_command xs verb value event user_id w).1.trace
            ≡ promised_trace P verb value w.uuids xs w.trace)
  unfolding fan_out_command
  fan_out_command_lem xs w = ground (arith, fan_out_results_lem xs w, sent_count P w.uuids xs)

module _ (P : Platform) (injective : (m n : ℕ) → P.uuid m ≡ P.uuid n → m ≡ n) where
  abbrev Other : String → BulkCommandResult → Type 0
  Other id r = r.command_id ≢ some id

  promised_results-Other :
      (m n : ℕ) (xs : List EaInstance) → m < n → All (Other (P.uuid m)) (promised_results P n xs)
  promised_results-Other m n [] h = tt
  promised_results-Other m n (i ∷ rest) h = elim (Bool-cases i.online) [
    | inl on ↦ rw on (
      (λ e. absurd (omega (arith, injective n m (cc)))),
      promised_results-Other m (suc n) rest (omega arith),
    )
    | inr off ↦ rw off ((λ e. cc), promised_results-Other m n rest h)
  ]

  -- No command id stands twice.
  abbrev pub DistinctIds : List BulkCommandResult → Type 0
  DistinctIds [] = Unit
  DistinctIds (r ∷ rest) =
      ((id : String) → r.command_id ≡ some id → All (Other id) rest) × DistinctIds rest

  promised_results-DistinctIds :
      (n : ℕ) (xs : List EaInstance) → DistinctIds (promised_results P n xs)
  promised_results-DistinctIds n [] = tt
  promised_results-DistinctIds n (i ∷ rest) = elim (Bool-cases i.online) [
    | inl on ↦ rw on (
      (λ id e.
          subst (λ x. All (Other x) (promised_results P (suc n) rest)) (cc)
            (promised_results-Other n (suc n) rest (omega arith))),
      promised_results-DistinctIds (suc n) rest,
    )
    | inr off ↦ rw off ((λ id e. cc), promised_results-DistinctIds n rest)
  ]

  -- If `uuidv4` never repeats itself, no two results of a bulk command share a command id.
  pub fan_out_command-DistinctIds :
      (xs : List EaInstance) (verb : String) (value : Option String) (event : AuditEvent)
      (user_id : String) (w : World P) (s : BulkCommandSummary)
      → (fan_out_command xs verb value event user_id w).0 ≡ ok s
      → DistinctIds s.results
  fan_out_command-DistinctIds xs verb value event user_id w s e =
      subst DistinctIds (ground (arith, fan_out_command_lem verb value event user_id xs w, e))
        (promised_results-DistinctIds w.uuids xs)

-- What a bulk command over the documents `xs` does, or nothing where the query is rejected.
abbrev pub Reaches :
    (P : Platform)
    → String
    → Option String
    → List EaInstance
    → World P
    → Result BulkCommandSummary × World P
    → Type 0
Reaches P verb value xs w r =
    (r ≡ (err rejected, w))
    ⊎ ((r.0
          ≡ ok (record {
            total = length xs;
            sent = online_count xs;
            results = promised_results P w.uuids xs;
          }))
        × (r.1.trace ≡ promised_trace P verb value w.uuids xs w.trace))

module _ {P : Platform} (laws : Laws P) where
  -- Stopping an account either finds the database down and does nothing, or reports on exactly the
  -- caller's EAs of that account and sends MASTER_ENABLE 0 to exactly those of them that are online.
  pub stop_account_lem :
      (account_login user_id : String) (w : World P)
      → Reaches P "MASTER_ENABLE"
          (some "0")
          (select
            (λ i. is_text i.user_id user_id && i.account_login == account_login)
            (P.instances w.db))
          w
          (stop_account account_login user_id w)
  unfolding stop_account
  stop_account_lem account_login user_id w =
      elim (Option-cases (P.find (by_account account_login user_id) w.db)) [
        | inl down ↦ inl (rw (down, stop_account) refl)
        | inr (xs, found) ↦
            let same = laws.find_lem (by_account account_login user_id) w.db xs found in
            inr (
              ground (
                arith,
                same,
                found,
                fan_out_command_lem "MASTER_ENABLE" (some "0") AuditEvent.master_enable user_id xs
                    w,
              ))
      ]

  -- Killing all either finds the database down and does nothing, or reports on exactly the caller's
  -- EAs and sends KILL_SWITCH to exactly those of them that are online.
  pub kill_all_lem :
      (user_id : String) (w : World P)
      → Reaches P "KILL_SWITCH" none
          (select (λ i. is_text i.user_id user_id) (P.instances w.db))
          w
          (kill_all user_id w)
  unfolding kill_all
  kill_all_lem user_id w = elim (Option-cases (P.find (by_user user_id) w.db)) [
    | inl down ↦ inl (rw (down, kill_all) refl)
    | inr (xs, found) ↦
        let same = laws.find_lem (by_user user_id) w.db xs found in
        inr (
          ground (
            arith,
            same,
            found,
            fan_out_command_lem "KILL_SWITCH" none AuditEvent.kill_switch user_id xs w,
          ))
  ]
