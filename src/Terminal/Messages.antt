-- ===== src/Terminal/Messages.antt =====
-- What monitor/src/api/ws/terminal.rs and monitor/src/ssh/client.rs say to each other and to the client. A message is the value that is serialised, not its JSON. An SSH connection and a
-- local shell are their identities.
use azad_server_box.Prelude.{ℕ, Bool, Option, none, some, List, ◌++◌, Text, codes}
use azad_server_box.Session.Attachment.{Sender, SessionInput, Effect}
use azad_server_box.Audit.{Event}

pub data Credential : Type 0 where
  password : Text → Credential
  key : (pem : Text) (passphrase : Option Text) → Credential
  keyboard_interactive : Credential

pub data AuthPayload : Type 0 where
  password : Text → AuthPayload
  key : (pem : Text) (passphrase : Option Text) → AuthPayload
  interactive local : AuthPayload

unfoldable pub into_credential : AuthPayload → Option Credential
into_credential (AuthPayload.password p) = some (Credential.password p)
into_credential (AuthPayload.key pem passphrase) = some (Credential.key pem passphrase)
into_credential AuthPayload.interactive = some Credential.keyboard_interactive
into_credential AuthPayload.local = none

-- The columns, the rows and the kind of terminal that a client asks for.
pub record Geometry : Type 0 where
  pub cols : ℕ
  pub rows : ℕ
  pub term : Text

pub data ClientMsg : Type 0 where
  open_msg : (user : Text) (auth : AuthPayload) (geometry : Geometry) → ClientMsg
  attach_msg : (session : Text) (since cols rows : ℕ) → ClientMsg
  answer_msg : (answers : List Text) → ClientMsg
  resize_msg : (cols rows : ℕ) → ClientMsg
  close_msg : ClientMsg

pub record InteractivePrompt : Type 0 where
  pub prompt : Text
  pub echo : Bool

pub data AuthStep : Type 0 where
  authenticated failed : AuthStep
  needs_answers : (instructions : Text) (prompts : List InteractivePrompt) → AuthStep

pub data ServerMsg : Type 0 where
  ready : (session : Text) (since : ℕ) → ServerMsg
  prompt_msg : (instructions : Text) (prompts : List InteractivePrompt) → ServerMsg
  error_msg : (code message : Text) → ServerMsg
  exit_msg : Option ℕ → ServerMsg
  hb : ServerMsg

pub data Message : Type 0 where
  text_frame : ServerMsg → Message
  binary_frame pong_frame : List ℕ → Message
  close_normal close_unsupported : Message

pub data SshError : Type 0 where
  connect : Text → SshError
  host_key_mismatch : (expected actual : Text) → SshError
  auth_failed auth_timeout : SshError
  bad_key protocol : Text → SshError

unfoldable pub code : SshError → Text
code (connect _) = codes "connect_failed"
code (host_key_mismatch _ _) = codes "host_key_mismatch"
code auth_failed = codes "auth_failed"
code auth_timeout = codes "auth_timeout"
code (bad_key _) = codes "bad_key"
code (protocol _) = codes "protocol_error"

unfoldable pub message : SshError → Text
message (connect e) = codes "Could not reach the SSH server: " ++ e
message (host_key_mismatch expected actual) =
    codes "The SSH host key changed (expected "
    ++ (expected
        ++ (codes ", got "
            ++ (actual
                ++ codes
                    "). Refusing to connect; remove the pinned key only if this change was expected.")))
message auth_failed = codes "Authentication failed"
message auth_timeout = codes "SSH authentication timed out"
message (bad_key e) = codes "Could not read the private key: " ++ e
message (protocol e) = codes "SSH error: " ++ e

abbrev pub SshSession : Type 0
SshSession = ℕ

abbrev pub LocalShell : Type 0
LocalShell = ℕ

-- What a turn of the connection does besides changing its state.
pub data Act : Type 0 where
  sends : Message → Act
  feeds : Sender → SessionInput → Act
  channel : Effect → Act
  records : Event → Act
  dials : (addr : Text) → Act
  authenticates : SshSession → (user : Text) → Credential → Act
  answers_prompts : SshSession → (answers : List Text) → Act
  requests_shell : SshSession → Geometry → Act
  spawns_shell : Geometry → Act
  disconnects : SshSession → Act
  kills : LocalShell → Act
  drives : (handle : Text) → Act
  pumps : (receiver : Sender) → Act
  arms_timeout : (deadline : ℕ) → Act

abbrev pub error_frame : Text → Text → Message
error_frame code message = text_frame (error_msg code message)
