-- ===== src/Connectors/Email.antt =====
-- crates/sa-connectors/src/email.rs: reading the inbox. The mail parser is a parameter, and what the
-- server answers is a list of sessions; sending is a request.
use secretagent_rust_agent.Base.{
  ℕ, String, List, [], ◌∷◌, ◌++◌, Option, none, some, Outcome, ok, err, unwrap_or, if◌then◌else◌,
}
use secretagent_rust_agent.Text.Words.{is_empty}
use secretagent_rust_agent.Connectors.{InboundMsg}
use secretagent_rust_agent.Connectors.Received.{Received, message, failed, waiting}

pub record EmailConfig : Type 0 where
  pub id : String
  pub imap_host : String
  pub imap_port : ℕ
  pub smtp_host : String
  pub smtp_port : ℕ
  pub username : String
  pub from : String
  pub password : String

pub record EmailConnector : Type 0 where
  pub cfg : EmailConfig
  pub buf : List InboundMsg

unfoldable pub reply_from : EmailConnector → String
reply_from c = if is_empty c.cfg.from then c.cfg.username else c.cfg.from

-- An address of a From header.
pub data MailAddr : Type 0 where
  single : String → MailAddr
  group : MailAddr

-- A mail as the parser reads it; `addrparse` is the addresses of its From header, if they parse.
pub record Mail : Type 0 where
  pub from_header : Option String
  pub addrparse : String → Option (List MailAddr)
  pub body : Option String

abbrev pub first_single : List MailAddr → Option String
first_single [] = none
first_single (single addr ∷ addrs) = some addr
first_single (group ∷ addrs) = first_single addrs

abbrev pub mail_from : String → Mail → Option String → Option InboundMsg
mail_from connector mail none = none
mail_from connector mail (some addr) =
    if is_empty addr
    then none
    else some (record {
      connector = connector;
      sender = addr;
      chat = addr;
      text = unwrap_or mail.body "";
    })

abbrev pub address_in : Option (List MailAddr) → Option String
address_in none = none
address_in (some addrs) = first_single addrs

abbrev pub address_of : Mail → Option String → Option String
address_of mail none = none
address_of mail (some header) = address_in (mail.addrparse header)

-- `none` is a mail that the parser does not read.
unfoldable pub parse_inbound_email : Option Mail → String → Option InboundMsg
parse_inbound_email none connector = none
parse_inbound_email (some mail) connector =
    mail_from connector mail (address_of mail mail.from_header)

-- What the fetch of one unseen mail brings: an item with a body or without one, or an error; and
-- whether the mail was then marked as seen.
pub record Fetched : Type 0 where
  pub items : List (Outcome (Option (Option Mail)))
  pub marked : Outcome (Unit {0})

abbrev pub buffered : Option InboundMsg → EmailConnector → EmailConnector
buffered none c = c
buffered (some m) c = record c { buf = c.buf ++ (m ∷ []) }

abbrev pub body_item : Option (Option Mail) → EmailConnector → EmailConnector
unfolding parse_inbound_email
body_item none c = c
body_item (some mail) c = buffered (parse_inbound_email mail c.cfg.id) c

-- The items of one mail in turn; an error ends the poll and keeps what is buffered.
unfoldable pub fetch_items :
    EmailConnector → List (Outcome (Option (Option Mail))) → Outcome (Unit {0}) × EmailConnector
unfolding body_item
fetch_items c [] = (ok tt, c)
fetch_items c (err e ∷ items) = (err e, c)
fetch_items c (ok item ∷ items) = fetch_items (body_item item c) items

abbrev pub then_mark :
    Outcome (Unit {0}) → Outcome (Unit {0}) × EmailConnector → Outcome (Unit {0}) × EmailConnector
then_mark marked (err e, c) = (err e, c)
then_mark marked (ok u, c) = (marked, c)

abbrev pub go_on :
    (EmailConnector → Outcome (Unit {0}) × EmailConnector)
    → Outcome (Unit {0}) × EmailConnector
    → Outcome (Unit {0}) × EmailConnector
go_on next (err e, c) = (err e, c)
go_on next (ok u, c) = next c

unfoldable pub fetch_unseen : EmailConnector → List Fetched → Outcome (Unit {0}) × EmailConnector
unfolding fetch_items
fetch_unseen c [] = (ok tt, c)
fetch_unseen c (f ∷ unseen) =
    go_on (λ d. fetch_unseen d unseen) (then_mark f.marked (fetch_items c f.items))

-- One poll: the session with its unseen mails, or the error of opening it. The result of the logout
-- is not looked at.
unfoldable pub poll_inbox :
    EmailConnector → Outcome (List Fetched) → Outcome (Unit {0}) × EmailConnector
unfolding fetch_unseen
poll_inbox c (err e) = (err e, c)
poll_inbox c (ok unseen) = fetch_unseen c unseen

abbrev pub pop_or :
    EmailConnector
    → List (Outcome (List Fetched))
    → List InboundMsg
    → Received × EmailConnector × List (Outcome (List Fetched))
    → Received × EmailConnector × List (Outcome (List Fetched))
pop_or c polls [] rest = rest
pop_or c polls (m ∷ buf) rest = (message m, record c { buf = buf }, polls)

-- A poll from an empty buffer, in front of the next turn; the pause after one without mail is no more
-- than a pause.
abbrev pub after_poll :
    List (Outcome (List Fetched))
    → Outcome (Unit {0}) × EmailConnector
    → (EmailConnector → Received × EmailConnector × List (Outcome (List Fetched)))
    → Received × EmailConnector × List (Outcome (List Fetched))
after_poll polls (err e, c) later = (failed e, c, polls)
after_poll polls (ok u, c) later = later c

unfoldable pub recv :
    EmailConnector
    → List (Outcome (List Fetched))
    → Received × EmailConnector × List (Outcome (List Fetched))
unfolding poll_inbox
recv c [] = pop_or c [] c.buf (waiting, c, [])
recv c (p ∷ polls) =
    pop_or c (p ∷ polls) c.buf (after_poll polls (poll_inbox c p) (λ d. recv d polls))
