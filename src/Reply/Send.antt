-- ===== src/Reply/Send.antt =====
-- What the functions of Send do to the reply context.
use robustirc.Base.{
  Bool-cases, List, [], ap, arith, inl, inr, length, length-append, refl, suc, sym, ℕ, ◌%◌, ◌++◌,
  ◌+◌, ◌^◌, ◌∙◌, ◌∷◌, ◌≡◌,
}
use robustirc.Irc.{Msg, Prefix}
use robustirc.Run.{M, OutMsg, St, modify, update_session}
use robustirc.Run.Keeps.{Keeps, keeps_rules}
use robustirc.Send.{
  MsgPtr, bare_msg, channel_at, find_channel, find_nick, interest_but, interest_channel,
  interest_members, interested, is_chanop, is_last, mark_last, new_msg, new_robust_msg,
  prefixed_msg, replies, reply_services, reply_user, send, send_channel, send_channel_but_one,
  send_common_channels, send_services, send_user, server_msg, session_of_nick, update_channel,
}
use robustirc.Server.{Channel, IrcServer, Session}
use robustirc.Text.{Text}

-- The ids of the messages of a reply to `msgid`, from a count on.
abbrev pub NumberedFrom : ℕ → ℕ → List OutMsg → Type 0
NumberedFrom msgid n [] = Unit
NumberedFrom msgid n (m ∷ ms) =
    (m.id ≡ record { id = msgid; reply = (n + 1) % 2 ^ 64 }) × NumberedFrom msgid (n + 1) ms

-- The messages are numbered 1, 2, … under the id of the input message, and replyid counts them.
pub record IsNumbered (msgid : ℕ) (st : St) : Type 0 where
  pub same_input : st.reply.msgid ≡ msgid
  pub counted : st.reply.replyid ≡ length st.reply.messages % 2 ^ 64
  pub numbered : NumberedFrom msgid 0 st.reply.messages

mod_step : (n : ℕ) → (n % 2 ^ 64 + 1) % 2 ^ 64 ≡ (n + 1) % 2 ^ 64
mod_step n = omega arith

NumberedFrom-append :
    (msgid n : ℕ) (ms : List OutMsg) (m : OutMsg)
    → NumberedFrom msgid n ms
    → m.id ≡ record { id = msgid; reply = (n + length ms + 1) % 2 ^ 64 }
    → NumberedFrom msgid n (ms ++ m ∷ [])
NumberedFrom-append msgid n [] m h e =
    (e ∙ ap (λ k. record { id = msgid; reply = (k + 1) % 2 ^ 64 }) (omega arith), tt)
NumberedFrom-append msgid n (x ∷ ms) m h e = (
  h.0,
  NumberedFrom-append msgid (n + 1) ms m h.1
      (e ∙ ap (λ k. record { id = msgid; reply = (k + 1) % 2 ^ 64 }) (omega arith)),
)

length-mark_last : (session : ℕ) (ms : List OutMsg) → length (mark_last session ms) ≡ length ms
unfolding mark_last
length-mark_last session [] = refl
length-mark_last session (m ∷ []) = refl
length-mark_last session (m ∷ n ∷ ms) = ap suc (length-mark_last session (n ∷ ms))

NumberedFrom-mark_last :
    (msgid n session : ℕ) (ms : List OutMsg)
    → NumberedFrom msgid n ms
    → NumberedFrom msgid n (mark_last session ms)
unfolding mark_last
NumberedFrom-mark_last msgid n session [] h = tt
NumberedFrom-mark_last msgid n session (m ∷ []) h = h
NumberedFrom-mark_last msgid n session (m ∷ x ∷ ms) h =
    (h.0, NumberedFrom-mark_last msgid (n + 1) session (x ∷ ms) h.1)

module _ {msgid : ℕ} where
  pub Keeps-new_msg : (msg : Msg) → Keeps (IsNumbered msgid) (new_msg msg)
  unfolding new_msg
  Keeps-new_msg msg = record {
    at = λ st h. record { same_input = h.same_input; counted = h.counted; numbered = h.numbered };
  }

  send_new :
      (p : MsgPtr) (st : St)
      → IsNumbered msgid st
      → IsNumbered msgid (record st { reply = new_robust_msg st.reply p })
  unfolding new_robust_msg
  send_new p st h = record {
    same_input = h.same_input;
    counted =
        ap (λ k. (k + 1) % 2 ^ 64) h.counted
        ∙ mod_step (length st.reply.messages)
        ∙ ap (λ k. k % 2 ^ 64) (sym (length-append st.reply.messages (_ ∷ [])));
    numbered =
        NumberedFrom-append msgid 0 st.reply.messages _ h.numbered
          (ground (arith, h.same_input, h.counted, mod_step (length st.reply.messages)));
  }

  pub Keeps-send : (p : MsgPtr) → Keeps (IsNumbered msgid) (send p)
  unfolding send
  Keeps-send p = record {
    at = λ st h. elim (Bool-cases (is_last st.reply.lastmsg p.addr)) [
      | inl e ↦ rw e h
      | inr e ↦ rw e (send_new p st h)
    ];
  }

  pub Keeps-interested : (session : ℕ) → Keeps (IsNumbered msgid) (interested session)
  unfolding interested
  Keeps-interested session = record {
    at = λ st h. record {
      same_input = h.same_input;
      counted = h.counted ∙ ap (λ k. k % 2 ^ 64) (sym (length-mark_last session st.reply.messages));
      numbered = NumberedFrom-mark_last msgid 0 session st.reply.messages h.numbered;
    };
  }

  pub Keeps-modify : (f : IrcServer → IrcServer) → Keeps (IsNumbered msgid) (modify f)
  unfolding modify
  Keeps-modify f = record {
    at = λ st h. record { same_input = h.same_input; counted = h.counted; numbered = h.numbered };
  }

  pub Keeps-replies : Keeps (IsNumbered msgid) replies
  unfolding replies
  Keeps-replies = record { at = λ st h. h }

  pub Keeps-update_session :
      (r : ℕ) (f : Session → Session) → Keeps (IsNumbered msgid) (update_session r f)
  unfolding update_session
  Keeps-update_session r f = Keeps-modify _

  pub Keeps-update_channel :
      (key : Text) (f : Channel → Channel) → Keeps (IsNumbered msgid) (update_channel key f)
  unfolding update_channel
  Keeps-update_channel key f = Keeps-modify _

  pub ruleset send_rules = (
    keeps_rules, Keeps-send, Keeps-interested, Keeps-modify, Keeps-new_msg, Keeps-update_session,
    Keeps-update_channel, Keeps-replies,
  )

  pub Keeps-session_of_nick : (nick : Text) → Keeps (IsNumbered msgid) (session_of_nick nick)
  unfolding session_of_nick
  Keeps-session_of_nick nick = search send_rules

  pub Keeps-interest_members : (c : Channel) → Keeps (IsNumbered msgid) (interest_members c)
  unfolding interest_members
  Keeps-interest_members c = search (send_rules, Keeps-session_of_nick)

  pub Keeps-interest_channel : (name : Text) → Keeps (IsNumbered msgid) (interest_channel name)
  unfolding interest_channel
  Keeps-interest_channel name = search (send_rules, Keeps-interest_members)

  pub Keeps-channel_at : (key : Text) → Keeps (IsNumbered msgid) (channel_at key)
  unfolding channel_at
  Keeps-channel_at key = search send_rules

  pub Keeps-interest_but :
      (user : ℕ) (nick : Text) → Keeps (IsNumbered msgid) (interest_but user nick)
  unfolding interest_but
  Keeps-interest_but user nick = search send_rules

  pub ruleset interest_rules = (
    send_rules, Keeps-session_of_nick, Keeps-interest_members, Keeps-interest_channel,
    Keeps-channel_at, Keeps-interest_but,
  )

  pub Keeps-send_user :
      (user : ℕ) (m : M MsgPtr)
      → Keeps (IsNumbered msgid) m
      → Keeps (IsNumbered msgid) (send_user user m)
  unfolding send_user
  Keeps-send_user user m k = search interest_rules depth 9

  pub Keeps-send_common_channels :
      (user : ℕ) (m : M MsgPtr)
      → Keeps (IsNumbered msgid) m
      → Keeps (IsNumbered msgid) (send_common_channels user m)
  unfolding send_common_channels
  Keeps-send_common_channels user m k = search interest_rules depth 9

  pub Keeps-send_channel :
      (key : Text) (m : M MsgPtr)
      → Keeps (IsNumbered msgid) m
      → Keeps (IsNumbered msgid) (send_channel key m)
  unfolding send_channel
  Keeps-send_channel key m k = search interest_rules depth 9

  pub Keeps-send_channel_but_one :
      (key : Text) (user : ℕ) (m : M MsgPtr)
      → Keeps (IsNumbered msgid) m
      → Keeps (IsNumbered msgid) (send_channel_but_one key user m)
  unfolding send_channel_but_one
  Keeps-send_channel_but_one key user m k = search interest_rules depth 9

  pub Keeps-send_services :
      (m : M MsgPtr) → Keeps (IsNumbered msgid) m → Keeps (IsNumbered msgid) (send_services m)
  unfolding send_services
  Keeps-send_services m k = search interest_rules depth 9

  pub Keeps-server_msg :
      (command : Text) (params : List Text) → Keeps (IsNumbered msgid) (server_msg command params)
  unfolding server_msg
  Keeps-server_msg command params = search send_rules

  pub Keeps-bare_msg :
      (command : Text) (params : List Text) → Keeps (IsNumbered msgid) (bare_msg command params)
  unfolding bare_msg
  Keeps-bare_msg command params = search send_rules

  pub Keeps-prefixed_msg :
      (prefix : Prefix) (command : Text) (params : List Text)
      → Keeps (IsNumbered msgid) (prefixed_msg prefix command params)
  unfolding prefixed_msg
  Keeps-prefixed_msg prefix command params = search send_rules

  pub Keeps-reply_user :
      (user : ℕ) (command : Text) (params : List Text)
      → Keeps (IsNumbered msgid) (reply_user user command params)
  unfolding reply_user
  Keeps-reply_user user command params = search (send_rules, Keeps-send_user, Keeps-server_msg)

  pub Keeps-reply_services :
      (command : Text) (params : List Text)
      → Keeps (IsNumbered msgid) (reply_services command params)
  unfolding reply_services
  Keeps-reply_services command params = search (send_rules, Keeps-send_services, Keeps-server_msg)

  pub Keeps-find_channel : (name : Text) → Keeps (IsNumbered msgid) (find_channel name)
  unfolding find_channel
  Keeps-find_channel name = search send_rules

  pub Keeps-find_nick : (name : Text) → Keeps (IsNumbered msgid) (find_nick name)
  unfolding find_nick
  Keeps-find_nick name = search send_rules

  pub Keeps-is_chanop : (c : Channel) (nick : Text) → Keeps (IsNumbered msgid) (is_chanop c nick)
  unfolding is_chanop
  Keeps-is_chanop c nick = search send_rules

  pub ruleset reply_rules = (
    interest_rules, Keeps-send_user, Keeps-send_common_channels, Keeps-send_channel,
    Keeps-send_channel_but_one, Keeps-send_services, Keeps-server_msg, Keeps-bare_msg,
    Keeps-prefixed_msg, Keeps-reply_user, Keeps-reply_services, Keeps-find_channel, Keeps-find_nick,
    Keeps-is_chanop,
  )
