-- ===== src/Privacy.antt =====
-- internal/privacy/filter.go, and PrivacyFilter of internal/robust/robust.go: what the status pages
-- and the dump tool show of messages and snapshots.
pub mod Hidden
use robustirc.Base.{
  Bool, List, Option, [], if◌then◌else◌, map, none, some, true, false, ◌==◌, ◌||◌, ◌∷◌, not, ◌&&◌,
}
use robustirc.Irc.{Env, Msg}
use robustirc.Robust.{Message, MessageType}
use robustirc.Snapshot.{ServerSnapshot, SnapshotSession}
use robustirc.Text.{Text, has_suffix, text, text_eq, to_upper}

abbrev pub filtered : Text
filtered = text "<privacy filtered>"

abbrev pub hide_pass : SnapshotSession → SnapshotSession
hide_pass session = record session { pass = filtered }

-- FilterSnapshot
unfoldable pub filter_snapshot : ServerSnapshot → ServerSnapshot
filter_snapshot snapshot = record snapshot { sessions = map hide_pass snapshot.sessions }

-- message.Params[len(message.Params)-1] = "<privacy filtered>", unless there are none
unfoldable pub hide_last : List Text → List Text
hide_last [] = []
hide_last (p ∷ []) = filtered ∷ []
hide_last (p ∷ q ∷ ps) = p ∷ hide_last (q ∷ ps)

-- FilterIrcmsg
unfoldable pub filter_ircmsg : Option Msg → Option Msg
filter_ircmsg none = none
filter_ircmsg (some message) =
    if message.command == text "PRIVMSG"
      || message.command == text "NOTICE"
      || message.command == text "PASS"
    then some (record message { params = hide_last message.params })
    else some message

abbrev pub is_irc : MessageType → Bool
is_irc MessageType.irc_to_client = true
is_irc MessageType.irc_from_client = true
is_irc _ = false

-- The commands whose last parameter PrivacyFilter hides.
unfoldable pub is_private : Text → Bool
is_private command =
    command == text "PRIVMSG"
    || command == text "NOTICE"
    || command == text "PASS"
    || has_suffix command (text "serv")

-- The irc.Message as a line: its method Bytes, and String.
module _ ⦃env : Env⦄ (line_of : Msg → Text) where
  -- FilterMsg; none where String dereferences nil. The fields that it does not set are zero.
  unfoldable pub filter_msg : Message → Option Message
  filter_msg message = elim (filter_ircmsg (env.parse_message message.payload)) [
    | none ↦ none
    | some ircmsg ↦ some (record {
      id = message.id;
      session = message.session;
      type = message.type;
      payload = line_of ircmsg;
      unix_nano = 0;
      servers = [];
      current_master = [];
      client_message_id = 0;
      revision = 0;
      remote_addr = [];
    })
  ]

  -- Message.PrivacyFilter
  unfoldable pub privacy_filter : Message → Text
  privacy_filter m =
      if is_irc m.type
      then elim (env.parse_message m.payload) [
        | none ↦ m.payload
        | some msg ↦
            if is_private (to_upper msg.command)
            then line_of (record msg { params = hide_last msg.params })
            else m.payload
      ]
      else m.payload
