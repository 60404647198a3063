-- ===== src/Audit.antt =====
-- monitor/src/api/ws/audit.rs: the rows of the access log. The write to the database is best effort, so a row is a value
-- that the caller returns; the order of a list of rows is the order of the writes.
use azad_server_box.Prelude.{Option, none, Text, codes}

pub data Kind : Type 0 where
  ticket terminal exec fs custom_cmd : Kind

pub data Action : Type 0 where
  opens attaches detaches closes denied : Action

pub data Outcome : Type 0 where
  ok denied error : Outcome

unfoldable pub kind_str : Kind → Text
kind_str Kind.ticket = codes "ticket"
kind_str Kind.terminal = codes "terminal"
kind_str Kind.exec = codes "exec"
kind_str Kind.fs = codes "fs"
kind_str Kind.custom_cmd = codes "custom_cmd"

unfoldable pub action_str : Action → Text
action_str Action.opens = codes "open"
action_str Action.attaches = codes "attach"
action_str Action.detaches = codes "detach"
action_str Action.closes = codes "close"
action_str Action.denied = codes "denied"

unfoldable pub outcome_str : Outcome → Text
outcome_str Outcome.ok = codes "ok"
outcome_str Outcome.denied = codes "denied"
outcome_str Outcome.error = codes "error"

-- The columns that are bound, in their order.
pub record Event : Type 0 where
  pub kind : Kind
  pub action : Action
  pub outcome : Outcome
  pub subject : Option Text
  pub remote_ip : Option Text
  pub ssh_user : Option Text
  pub detail : Option Text

unfoldable pub new_event : Kind → Action → Outcome → Event
new_event kind action outcome = record {
  kind = kind;
  action = action;
  outcome = outcome;
  subject = none;
  remote_ip = none;
  ssh_user = none;
  detail = none;
}

-- `INSERT INTO access_log`: kind, action, subject, remote_ip, ssh_user, result, detail.
pub record AccessLogRow : Type 0 where
  pub kind : Text
  pub action : Text
  pub subject : Option Text
  pub remote_ip : Option Text
  pub ssh_user : Option Text
  pub result : Text
  pub detail : Option Text

unfoldable pub row_of : Event → AccessLogRow
unfolding kind_str action_str outcome_str
row_of e = record {
  kind = kind_str e.kind;
  action = action_str e.action;
  subject = e.subject;
  remote_ip = e.remote_ip;
  ssh_user = e.ssh_user;
  result = outcome_str e.outcome;
  detail = e.detail;
}
