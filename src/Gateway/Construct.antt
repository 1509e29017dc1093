-- ===== src/Gateway/Construct.antt =====
-- secretagent/src/gateway.rs: the connector of a binding, with its tokens from the vault.
use secretagent_rust_agent.Base.{
  String, [], ◌∷◌, Option, none, some, Outcome, ok, ◌>>=◌, ok_or, unwrap_or, ◌==◌, format,
  if◌then◌else◌,
}
use secretagent_rust_agent.Connectors.Telegram.{TelegramConnector}
use secretagent_rust_agent.Connectors.Telegram
use secretagent_rust_agent.Connectors.Slack.{SlackConnector}
use secretagent_rust_agent.Connectors.Slack
use secretagent_rust_agent.Connectors.Email.{EmailConfig, EmailConnector}
use secretagent_rust_agent.Gateway.{ConnectorConfig}

pub data Connector : Type 0 where
  telegram : TelegramConnector → Connector
  discord : String → String → Connector
  email : EmailConnector → Connector
  slack : SlackConnector → Connector

-- `vault.get(key_id)?` and a secret that has to be there
abbrev pub secret_of : (String → Outcome (Option String)) → String → Outcome String
secret_of vault key_id =
    vault key_id >>= λ o. ok_or o (format ("vault has no token under '" ∷ key_id ∷ "'" ∷ []))

unfoldable pub load_token : (String → Outcome (Option String)) → ConnectorConfig → Outcome String
load_token vault binding =
    ok_or binding.token_ref
      (format ("connector '" ∷ binding.name ∷ "' needs a token_ref (vault key-id)" ∷ []))
    >>= secret_of vault

abbrev pub email_config : ConnectorConfig → String → EmailConfig
email_config binding password = record {
  id = binding.name;
  imap_host = unwrap_or binding.imap_host "";
  imap_port = unwrap_or binding.imap_port 993;
  smtp_host = unwrap_or binding.smtp_host "";
  smtp_port = unwrap_or binding.smtp_port 465;
  username = unwrap_or binding.username "";
  from = unwrap_or binding.from "";
  password = password;
}

abbrev pub telegram_of :
    (String → Outcome (Option String)) → ConnectorConfig → Outcome (Option Connector)
unfolding load_token Telegram.with_base
telegram_of vault binding = load_token vault binding >>= λ token.
    ok (some (telegram (Telegram.with_base binding.name token "https://api.telegram.org")))

abbrev pub discord_of :
    (String → Outcome (Option String)) → ConnectorConfig → Outcome (Option Connector)
unfolding load_token
discord_of vault binding =
    load_token vault binding >>= λ token. ok (some (discord binding.name token))

abbrev pub email_of :
    (String → Outcome (Option String)) → ConnectorConfig → Outcome (Option Connector)
unfolding load_token
email_of vault binding = load_token vault binding >>= λ password.
    ok (some (email (record { cfg = email_config binding password; buf = [] })))

abbrev pub slack_of :
    (String → Outcome (Option String)) → ConnectorConfig → Outcome (Option Connector)
unfolding load_token Slack.with_base
slack_of vault binding = load_token vault binding >>= λ bot.
    ok_or binding.app_token_ref (
      format
        ("slack connector '" ∷ binding.name ∷ "' needs an app_token_ref (xapp- vault key-id)" ∷ []))
    >>= secret_of vault
    >>= λ app. ok (some (slack (Slack.with_base binding.name bot app "https://slack.com/api")))

unfoldable pub construct_connector :
    (String → Outcome (Option String)) → ConnectorConfig → Outcome (Option Connector)
unfolding telegram_of discord_of email_of slack_of
construct_connector vault binding =
    if binding.kind == "telegram"
    then telegram_of vault binding
    else if binding.kind == "discord"
    then discord_of vault binding
    else if binding.kind == "email"
    then email_of vault binding
    else if binding.kind == "slack"
    then slack_of vault binding
    else ok none
