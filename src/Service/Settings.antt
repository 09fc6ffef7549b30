-- ===== src/Service/Settings.antt =====
-- The settings of an EA: the keys that may change while it runs, and the push.
pub mod Isolation
pub mod Keeps
pub mod Laws
pub mod Push
use Prim.Native.String.{◌++◌}
use run_bot_backend.Prelude.{
  String, Option, none, some, Bool, true, false, not, ◌||◌, List, [], ◌∷◌, ◌==◌, if◌then◌else◌,
  select, any,
}
use run_bot_backend.Json.{Json, obj, Fields, keys}
use run_bot_backend.Data.{EaInstance, AuditEvent, AuditPayload}
use run_bot_backend.Platform.{Platform}
use run_bot_backend.Platform.Exec.{
  World, Exec, not_found, bad_request, pure, raise, query, change, skip, ◌>>=◌, ◌>>◌,
}
use run_bot_backend.Gateway.{by_agent, send_command_to_bridge}
use run_bot_backend.Service.{no_instance, uuid_v4, require_ownership, require_online, log_event}

abbrev pub allowed_settings_keys : List String
allowed_settings_keys =
    "EnableBuy" ∷ "EnableSell" ∷ "StartingLots" ∷ "LayerMultiplier" ∷ "MaximumLotSizeCap"
    ∷ "UseOpenCandle" ∷ "PipStep" ∷ "MaxTrades" ∷ "PipStepMode" ∷ "ATRSimpleMultiplier"
    ∷ "ATRPercentileLookback" ∷ "MinAdaptiveStepPips" ∷ "MaxAdaptiveStepPips" ∷ "p_G01" ∷ "p_G06"
    ∷ "p_G07" ∷ "p_G08" ∷ "EnableBasketTakeProfit" ∷ "BasketTakeProfitMode" ∷ "BasketTP_FixedPips"
    ∷ "BasketTP_ATRMultiplierK" ∷ "EnableEquityProtection" ∷ "StopLossDrawdownPercent"
    ∷ "CheckMarginBeforeTrade" ∷ "MinFreeMarginPercentRequired" ∷ "EnableSpreadFilter"
    ∷ "MaxSpreadPips" ∷ "PauseOnExtremeVolatility" ∷ "PauseIfATRMulAboveNormal"
    ∷ "ATRNormalLookbackBars" ∷ "UseDailyProfitLimit" ∷ "DailyProfitMode" ∷ "DailyGrossProfitLimit"
    ∷ "DailyProfitMoneyTarget" ∷ "TargetEquityAmount" ∷ "CloseAllWhenLimitReached"
    ∷ "EnableSessionFilter" ∷ "CloseAllOutsideSession" ∷ "BrokerGMTOffset" ∷ "TradeAsiaSession"
    ∷ "AsiaSessionLocal" ∷ "TradeLondonSession" ∷ "LondonSessionLocal" ∷ "TradeNewYorkSession"
    ∷ "NewYorkSessionLocal" ∷ []

abbrev pub restart_required_keys : List String
restart_required_keys =
    "ATRPeriod" ∷ "BBPeriod" ∷ "BBDeviation" ∷ "p_G02" ∷ "p_G03" ∷ "p_G04" ∷ "p_G05"
    ∷ "BasketTP_ATRSmoothPeriod" ∷ "BuyMagicNumber" ∷ "SellMagicNumber" ∷ []

unfoldable pub has : List String → String → Bool
has set key = any (λ k. k == key) set

unfoldable pub join_keys : List String → String
join_keys [] = ""
join_keys (k ∷ []) = k
join_keys (k ∷ j ∷ rest) = k ++ ", " ++ join_keys (j ∷ rest)

abbrev pub set_settings : Fields → EaInstance → EaInstance
set_settings settings i = record i { current_settings = some settings }

module _ {P : Platform} where
  reject_unknown : List String → Exec P Unit
  reject_unknown [] = skip
  reject_unknown (k ∷ rest) =
      raise (bad_request ("Unknown settings keys: " ++ join_keys (k ∷ rest)))

  reject_restart : List String → List String → Exec P Unit
  unfolding reject_unknown has
  reject_restart ks [] = reject_unknown (select (λ k. not (has allowed_settings_keys k)) ks)
  reject_restart ks (k ∷ rest) =
      raise
        (bad_request ("Restart-required settings cannot be changed live: " ++ join_keys (k ∷ rest)))

  unfoldable pub validate_settings_keys : Fields → Exec P Unit
  unfolding reject_restart
  validate_settings_keys settings =
      reject_restart (keys settings) (select (has restart_required_keys) (keys settings))

  unfoldable pub push_settings : String → Fields → String → Exec P String
  unfolding require_ownership require_online uuid_v4 send_command_to_bridge log_event
  push_settings agent_id settings user_id = do
    require_ownership agent_id user_id
    require_online agent_id
    validate_settings_keys settings
    command_id ← uuid_v4
    send_command_to_bridge agent_id command_id "SETTINGS"
        (some (P.to_base64 (P.stringify (obj settings))))
    change (P.update_one (by_agent agent_id) (set_settings settings))
    log_event agent_id AuditEvent.settings_change
        (AuditPayload.settings_keys command_id (keys settings)) (some user_id)
    pure command_id

  settings_of : String → Option EaInstance → Exec P (Option Fields)
  settings_of agent_id none = raise (not_found (no_instance agent_id))
  settings_of agent_id (some i) = pure i.current_settings

  unfoldable pub get_current_settings : String → String → Exec P (Option Fields)
  unfolding require_ownership settings_of
  get_current_settings agent_id user_id = do
    require_ownership agent_id user_id
    found ← query (P.find_one (by_agent agent_id))
    settings_of agent_id found
