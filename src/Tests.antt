-- ===== src/Tests.antt =====
-- The theorems at concrete inputs.
pub mod Api
pub mod Apply
pub mod Batch
pub mod Compaction
pub mod Delivery
pub mod Faults
pub mod Quit
pub mod LevelDb
pub mod RaftStore
pub mod Snapshot
pub mod State
pub mod Wire
use robustirc.Base.{
  All, Bool, [], arith, elem, false, length, nat_eq, none, refl, some, true, ◌*◌, ◌++◌, ◌+◌, ◌-◌,
  ◌<◌, ◌↔◌, ◌∷◌, ◌≡◌, ◌≤◌, ◌⊎◌,
}
use robustirc.Command.Mode.{cmd_mode}
use robustirc.Command.Nick.{cmd_nick}
use robustirc.Command.Oper.{cmd_gline, cmd_kill, cmd_oper}
use robustirc.Command.Part.{cmd_kick}
use robustirc.Command.Topic.{cmd_topic}
use robustirc.Config.{minute}
use robustirc.Dispatch.{dispatch, new_reply, process_message}
use robustirc.Examples.{
  chan, client_line, kick_bob, kill_bob, last_test, later_stream, near, oper_msg, set_secret,
  set_topic_msg, take_alice, test_env, test_modes, test_msg, test_out, test_server, test_state,
}
use robustirc.Modes.{adds, irc_params, is_sign, normalize_modes, removes, takes_arg}
use robustirc.Modes.RoundTrip.{IsMode, normalize_modes-irc_params}
use robustirc.Nickname.{is_digit, is_letter, is_special, is_valid_nickname, max_nick_len}
use robustirc.Nickname.LowerCase.{is_valid_nickname-nick_to_lower}
use robustirc.OutputStream.{
  add, before_last, del, delete_input, find, first_batch, get_next, max_uint64, new_output_stream,
  next_batch, poll, put, search_next, wait_at,
}
use robustirc.OutputStream.Order.{IsStream, get_next-search_next}
use robustirc.OutputStream.Reader.{Answers, add-wakes, delete-breaks-wait, get_next-Answers}
use robustirc.OutputStream.Steps.{Reachable, Reachable-IsStream, added, after, initial}
use robustirc.Privilege.Channel.{IsChanopOf, MayTopic, cmd_kick-IsChanopOf, cmd_topic-MayTopic}
use robustirc.Privilege.Mode.{MayMode, cmd_mode-MayMode}
use robustirc.Privilege.Network.{
  HasPassword, HasService, cmd_kill-operator, cmd_oper-HasPassword, dispatch-not_registered,
}
use robustirc.Privilege.Nick.{MayTake, cmd_nick-MayTake, wanted}
use robustirc.Reply.Dispatch.{process_message-IsNumbered}
use robustirc.Reply.Send.{IsNumbered}
use robustirc.Robust.{id_eq, unix}
use robustirc.Run.Guarded.{IsSame}
use robustirc.Run.Keeps.{After}
use robustirc.Server.{set_session}
use robustirc.ServerCommand.Server.{cmd_server}
use robustirc.Text.{text, text_beq, text_eq}
use robustirc.Text.Case.{nick_to_lower}
use robustirc.TimeSafeguard.{
  non_zero_results, synchronized_with_network, time_in_sync, worst_case_drift,
}
use robustirc.TimeSafeguard.Drift.{IsClose, IsGood, synchronized-IsClose, synchronized-IsGood}

later-Reachable : Reachable later_stream
unfolding new_output_stream
later-Reachable =
    after _ _ initial (added (test_out 5) [] new_output_stream (omega arith) (omega arith))

later-IsStream : IsStream later_stream
later-IsStream = Reachable-IsStream later_stream later-Reachable

waits_at_last : get_next 5 later_stream ≡ wait_at (some last_test)
unfolding add new_output_stream put get_next find
waits_at_last = refl

deleted_last :
    delete_input 5 later_stream
    ≡ some (record { db = (0, first_batch) ∷ []; lastseen = first_batch })
unfolding add new_output_stream put delete_input before_last del
deleted_last = refl

near_accepted : synchronized_with_network false (near ∷ []) ≡ none
unfolding synchronized_with_network time_in_sync non_zero_results worst_case_drift
near_accepted = refl

test_modes-IsMode : All IsMode test_modes
unfolding is_sign takes_arg text_beq text
test_modes-IsMode = (
  record { ascii = omega arith; letter = refl; argument = refl },
  (
    record { ascii = omega arith; letter = refl; argument = refl },
    (record { ascii = omega arith; letter = refl; argument = refl }, tt),
  ),
)

process_message-IsNumbered_example : After (IsNumbered 9) (
    process_message ⦃env = test_env⦄
      (client_line 9 1)
      (some (test_msg (text "PING") (text "x" ∷ [])))
      (record { server = test_server; reply = new_reply 9 }))
process_message-IsNumbered_example =
    process_message-IsNumbered ⦃env = test_env⦄ (client_line 9 1)
      (some (test_msg (text "PING") (text "x" ∷ []))) test_server

cmd_kick-IsChanopOf_example :
    After
      (λ st'. IsSame test_server st' ⊎ IsChanopOf test_server 1 kick_bob 0)
      (cmd_kick ⦃env = test_env⦄ 1 kick_bob test_state)
cmd_kick-IsChanopOf_example = cmd_kick-IsChanopOf ⦃env = test_env⦄ 1 kick_bob test_state

cmd_topic-MayTopic_example :
    After
      (λ st'. IsSame test_server st' ⊎ MayTopic test_server 1 set_topic_msg)
      (cmd_topic ⦃env = test_env⦄ 1 set_topic_msg test_state)
cmd_topic-MayTopic_example = cmd_topic-MayTopic ⦃env = test_env⦄ 1 set_topic_msg test_state

cmd_mode-MayMode_example :
    After
      (λ st'. IsSame test_server st' ⊎ MayMode test_server 1 set_secret)
      (cmd_mode ⦃env = test_env⦄ 1 set_secret test_state)
cmd_mode-MayMode_example = cmd_mode-MayMode ⦃env = test_env⦄ 1 set_secret test_state

cmd_kill-operator_example :
    After
      (λ st'. IsSame test_server st' ⊎ ((test_server.heap 0).operator ≡ true))
      (cmd_kill ⦃env = test_env⦄ 0 kill_bob test_state)
    × After
        (λ st'. IsSame test_server st' ⊎ ((test_server.heap 0).operator ≡ true))
        (cmd_gline ⦃env = test_env⦄ 0 kill_bob test_state)
cmd_kill-operator_example = cmd_kill-operator ⦃env = test_env⦄ 0 kill_bob test_state

cmd_oper-HasPassword_example :
    After
      (λ st'. IsSame test_server st' ⊎ HasPassword test_server oper_msg)
      (cmd_oper ⦃env = test_env⦄ 0 oper_msg test_state)
    × After
        (λ st'.
          IsSame test_server st'
          ⊎ HasService (test_server.heap 0).pass test_server.config.irc.services)
        (cmd_server ⦃env = test_env⦄ 0 oper_msg test_state)
cmd_oper-HasPassword_example = cmd_oper-HasPassword ⦃env = test_env⦄ 0 oper_msg test_state

dispatch-not_registered_example :
    After
      (λ st'.
        IsSame test_server st'
        ⊎ (10 * minute < (test_server.heap 2).last_activity - unix (test_server.heap 2).created))
      (dispatch ⦃env = test_env⦄ 2 kick_bob (text "KICK") test_state)
unfolding set_session text elem text_beq
dispatch-not_registered_example =
    dispatch-not_registered ⦃env = test_env⦄ 2 kick_bob (text "KICK") test_state refl refl refl

get_next-search_next_example : get_next 3 later_stream ≡ search_next 3 later_stream
get_next-search_next_example = get_next-search_next later_stream 3 later-IsStream

get_next-Answers_example : Answers 3 later_stream (get_next 3 later_stream)
get_next-Answers_example = get_next-Answers later_stream 3 later-IsStream (omega arith)

Reachable-IsStream_example : IsStream later_stream
Reachable-IsStream_example = Reachable-IsStream later_stream later-Reachable

add-wakes_example :
    (poll 5 (add (test_out 8) [] later_stream)
      ≡ some (some (record { first = test_out 8; rest = []; next_id = max_uint64 })))
    × (get_next 5 (add (test_out 8) [] later_stream)
        ≡ next_batch (record { first = test_out 8; rest = []; next_id = max_uint64 }))
unfolding add new_output_stream
add-wakes_example =
    add-wakes later_stream 5 last_test (test_out 8) [] later-IsStream (omega arith) waits_at_last
      (omega arith) (omega arith)

delete-breaks-wait_example :
    poll 5 (record { db = (0, first_batch) ∷ []; lastseen = first_batch }) ≡ none
unfolding add new_output_stream
delete-breaks-wait_example =
    delete-breaks-wait later_stream (record { db = (0, first_batch) ∷ []; lastseen = first_batch })
      5 last_test later-IsStream (omega arith) waits_at_last deleted_last

synchronized-IsGood_example :
    (synchronized_with_network false (near ∷ []) ≡ none)
    ↔ (◌≡◌ {A = Bool} false true ⊎ All IsGood (near ∷ []))
synchronized-IsGood_example = synchronized-IsGood false (near ∷ [])

synchronized-IsClose_example : All (λ t. (t.result ≡ 0) ⊎ IsClose t) (near ∷ [])
synchronized-IsClose_example = synchronized-IsClose (near ∷ []) near_accepted

is_valid_nickname-nick_to_lower_example :
    (is_valid_nickname (nick_to_lower (text "sECuRE[]")) ≡ true)
    × (length (nick_to_lower (text "sECuRE[]")) ≤ max_nick_len + 1)
    × (nick_to_lower (nick_to_lower (text "sECuRE[]")) ≡ nick_to_lower (text "sECuRE[]"))
unfolding is_valid_nickname is_letter is_special is_digit text
is_valid_nickname-nick_to_lower_example = is_valid_nickname-nick_to_lower (text "sECuRE[]") refl

normalize_modes-irc_params_example :
    normalize_modes (chan ∷ irc_params test_modes) ≡ adds test_modes ++ removes test_modes
normalize_modes-irc_params_example = normalize_modes-irc_params chan test_modes test_modes-IsMode

cmd_nick-MayTake_example :
    After
      (λ st'. IsSame test_server st' ⊎ MayTake test_server 1 (wanted take_alice))
      (cmd_nick ⦃env = test_env⦄ 1 take_alice test_state)
cmd_nick-MayTake_example = cmd_nick-MayTake ⦃env = test_env⦄ 1 take_alice test_state
