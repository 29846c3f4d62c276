-- ===== src/Fsm/Log.antt =====
-- statemachine.go: what the output stream holds after any log of messages.
use robustirc.Base.{
  List, Option, [], ap, arith, inl, inr, nat_eq, none, some, suc, ℕ, ◌++◌, ◌<◌, ◌∷◌, ◌≡◌, ◌≤◌,
}
use robustirc.Config.{Network}
use robustirc.Fsm.{
  Applied, Node, applied, apply_delete_session, apply_irc_from_client, apply_robust_message,
  message_of_death_panic, process, send_messages,
}
use robustirc.Irc.{Env, Msg}
use robustirc.OutputStream.{
  OutputStream, add, delete_input, get_next, key_of, max_uint64, new_output_stream,
}
use robustirc.Reply.Dispatch.{process_message-IsNumbered}
use robustirc.Reply.Send.{IsNumbered, NumberedFrom}
use robustirc.Robust.{Message, RobustId, id_eq, timestamp}
use robustirc.Run.{OutMsg, Res, ok, panic}
use robustirc.Run.Keeps.{After}
use robustirc.Server.{IrcServer}
use robustirc.Sessions.{
  SessionError, create_session, get_session, maybe_delete_session, set_last_processed,
  update_last_client_message_id,
}
use robustirc.Text.{Text, text, text_eq}
use mathlib.Core.Path.{subst}
use robustirc.Robust.{MessageType}
use robustirc.OutputStream.Order.{IsStream}
use robustirc.OutputStream.Steps.{IsStream-new, IsStream-add, IsStream-delete_input}
use robustirc.OutputStream.Reader.{Answers, get_next-Answers, delete_input-lastseen}

-- The stream of a node is in order, and its last batch stands below an id.
abbrev pub IsOrdered : ℕ → Option OutputStream → Type 0
IsOrdered next none = Unit
IsOrdered next (some os) = IsStream os × (key_of os.lastseen < next)

abbrev pub Yields : (Node → Type 0) → Applied → Type 0
Yields P (applied n err) = P n
Yields P message_of_death_panic = Unit

IsOrdered-later : (a b : ℕ) (o : Option OutputStream) → a ≤ b → IsOrdered a o → IsOrdered b o
IsOrdered-later a b none le h = tt
IsOrdered-later a b (some os) le h = (h.0, omega (arith, le, h.1))

added-below :
    (m : OutMsg) (ms : List OutMsg) (os : OutputStream) (id : ℕ)
    → m.id.id ≡ id
    → key_of (add m ms os).lastseen < suc id
unfolding add
added-below m ms os id e = omega (arith, e)

send_messages-IsOrdered :
    (id : ℕ) (ms : List OutMsg) (o : Option OutputStream)
    → NumberedFrom id 0 ms
    → IsOrdered id o
    → id < max_uint64
    → IsOrdered (suc id) (send_messages ms o)
unfolding send_messages
send_messages-IsOrdered id [] o h k bound = IsOrdered-later id (suc id) o (omega arith) k
send_messages-IsOrdered id (m ∷ ms) none h k bound = tt
send_messages-IsOrdered id (m ∷ ms) (some os) h k bound =
    let e : m.id.id ≡ id = ap (λ (x : RobustId). x.id) h.0 in
    (
      IsStream-add m ms os k.0 (omega (arith, e, k.1)) (omega (arith, e, bound)),
      added-below m ms os id e,
    )

-- The end of `process`, after ProcessMessage.
abbrev pub finish : Message → RobustId → Node → Res (Unit {0}) → Applied
finish msg last n r = elim r [
  | panic ↦ message_of_death_panic
  | ok _ st ↦
      applied
        (record {
          server = maybe_delete_session msg.session (set_last_processed last st.server);
          output = send_messages st.reply.messages n.output;
        })
        none
]

finish-IsOrdered :
    (msg : Message) (last : RobustId) (n : Node) (r : Res (Unit {0}))
    → After (IsNumbered msg.id.id) r
    → IsOrdered msg.id.id n.output
    → msg.id.id < max_uint64
    → Yields (λ n'. IsOrdered (suc msg.id.id) n'.output) (finish msg last n r)
finish-IsOrdered msg last n panic h k bound = tt
finish-IsOrdered msg last n (ok a st) h k bound =
    send_messages-IsOrdered msg.id.id st.reply.messages n.output h.numbered k bound

module _ ⦃env : Env⦄ (msg : Message) (bound : msg.id.id < max_uint64) (n : Node)
    (ordered : IsOrdered msg.id.id n.output) where
  abbrev Kept : Applied → Type 0
  Kept = Yields (λ n'. IsOrdered (suc msg.id.id) n'.output)

  kept : (i : IrcServer) (err : Option SessionError) → Kept (applied (record n { server = i }) err)
  kept i err = IsOrdered-later msg.id.id (suc msg.id.id) n.output (omega arith) ordered

  process-IsOrdered :
      (ircmsg : Option Msg) (last : RobustId) (i : IrcServer)
      → Kept (process msg ircmsg last (record n { server = i }))
  unfolding process
  process-IsOrdered ircmsg last i =
      finish-IsOrdered msg last (record n { server = i }) _
        (process_message-IsNumbered msg ircmsg i) ordered bound

  delete-IsOrdered : Kept (apply_delete_session msg n)
  unfolding apply_delete_session
  delete-IsOrdered =
      elim (get_session msg.session n.server)
        as (λ found. Kept (elim found [
          | inr err ↦ applied n none
          | inl r ↦
              process msg (env.parse_message (text "QUIT :" ++ msg.payload))
                (record { id = msg.id.id; reply = 0 }) n
        ])) [ inr err ↦ kept n.server none | inl r ↦ process-IsOrdered _ _ n.server ]

  client-IsOrdered : Kept (apply_irc_from_client msg n)
  unfolding apply_irc_from_client
  client-IsOrdered =
      let updated = update_last_client_message_id msg n.server in
      elim updated.1
        as (λ err. Kept (elim err [
          | none ↦
              process msg (env.parse_message msg.payload)
                (record { id = msg.session.id; reply = 0 }) (record n { server = updated.0 })
          | some e ↦ applied n none
        ])) [ none ↦ process-IsOrdered _ _ updated.0 | some e ↦ kept n.server none ]

  config-IsOrdered :
      (from_string : Text → Option Network)
      → Kept (apply_robust_message from_string msg MessageType.config n)
  unfolding apply_robust_message
  config-IsOrdered from_string =
      elim (from_string msg.payload)
        as (λ cfg. Kept (elim cfg [
          | none ↦ applied n none
          | some cfg ↦
              applied
                (record n {
                  server = record n.server { config = record cfg { revision = msg.revision } };
                })
                none
        ])) [
          | none ↦ kept n.server none
          | some cfg ↦
              kept (record n.server { config = record cfg { revision = msg.revision } }) none
        ]

  apply-IsOrdered :
      (from_string : Text → Option Network) (type : MessageType)
      → Kept (apply_robust_message from_string msg type n)
  unfolding apply_robust_message
  apply-IsOrdered from_string MessageType.create_session =
      let made = create_session msg.id msg.payload (timestamp msg) n.server in kept made.0 made.1
  apply-IsOrdered from_string MessageType.delete_session = delete-IsOrdered
  apply-IsOrdered from_string MessageType.irc_from_client = client-IsOrdered
  apply-IsOrdered from_string MessageType.irc_to_client = kept n.server none
  apply-IsOrdered from_string MessageType.ping = kept n.server none
  apply-IsOrdered from_string MessageType.message_of_death =
      kept (update_last_client_message_id msg n.server).0 none
  apply-IsOrdered from_string MessageType.config = config-IsOrdered from_string
  apply-IsOrdered from_string MessageType.state = kept n.server none
  apply-IsOrdered from_string MessageType.any = kept n.server none

-- A node that has applied the messages of a log, whose ids grow and are below the given one. It
-- starts with any server and an empty output stream. Between two messages, old output may be
-- deleted.
pub data Applies ⦃env : Env⦄ (from_string : Text → Option Network) : ℕ → Node → Type 0 where
  fresh :
      (i : IrcServer)
      → Applies from_string 1 (record { server = i; output = some new_output_stream })
  apply :
      (next : ℕ) (n n' : Node) (msg : Message) (err : Option SessionError)
      → Applies from_string next n
      → next ≤ msg.id.id
      → msg.id.id < max_uint64
      → apply_robust_message from_string msg msg.type n ≡ applied n' err
      → Applies from_string (suc msg.id.id) n'
  compact :
      (next input : ℕ) (n : Node) (os os' : OutputStream)
      → Applies from_string next n
      → n.output ≡ some os
      → delete_input input os ≡ some os'
      → Applies from_string next (record n { output = some os' })

Applies-IsOrdered :
    ⦃env : Env⦄ (from_string : Text → Option Network) (next : ℕ) (n : Node)
    → Applies from_string next n
    → IsOrdered next n.output
unfolding new_output_stream
Applies-IsOrdered from_string _ _ (fresh i) = (IsStream-new, omega arith)
Applies-IsOrdered from_string _ n' (apply next n _ msg err before le bound e) =
    subst (Yields (λ n'. IsOrdered (suc msg.id.id) n'.output)) e (
      apply-IsOrdered msg bound n
        (IsOrdered-later next msg.id.id n.output le (Applies-IsOrdered from_string next n before))
        from_string msg.type)
Applies-IsOrdered from_string next _ (compact _ input n os os' before e d) =
    let h = subst (IsOrdered next) e (Applies-IsOrdered from_string next n before) in
    (
      IsStream-delete_input input os h.0 d,
      omega (arith, h.1, delete_input-lastseen input os os' h.0 d),
    )

-- Whatever messages a node has applied without a panic, of whatever types and from whatever state of
-- the server, with ids that grow and are below 2 ^ 64 - 1, and whatever old output it has deleted in
-- between: for every id below 2 ^ 64 - 1, GetNext on its output stream gives a reader the batch
-- with the least key above the id, or waits at the last batch where there is none.
pub Applies-Answers :
    ⦃env : Env⦄ (from_string : Text → Option Network) (next : ℕ) (n : Node) (os : OutputStream)
    (id : ℕ)
    → Applies from_string next n
    → n.output ≡ some os
    → id < max_uint64
    → Answers id os (get_next id os)
Applies-Answers from_string next n os id h e bound =
    get_next-Answers os id (subst (IsOrdered next) e (Applies-IsOrdered from_string next n h)).0
      bound
