-- ===== src/Sessions/Delete.antt =====
-- deleteSessionLocked of internal/ircserver/ircserver.go: nothing refers to the nickname any more.
use robustirc.Base.{
  ==_refl, Bool-cases, List, Option, Option-cases, [], ap, arith, elem, if◌then◌else◌, inl, inr,
  list_case, nat_eq, none, some, sym, true, ℕ, ◌==◌, ◌∙◌, ◌∷◌, ◌≡◌, ◌⊎◌,
}
use robustirc.Base.Assoc.{Map, delete, insert, keys, lookup, lookup-delete, lookup-insert, values}
use robustirc.Robust.{id_eq}
use robustirc.Server.{Channel, IrcServer, Perms, set_session}
use robustirc.Sessions.{
  delete_session, forget_invites, leave_channel, leave_channels, maybe_delete_channel,
}
use robustirc.Text.{Text, text_beq_iff, text_eq}
use robustirc.Text.Case.{chan_to_lower, nick_to_lower}
use mathlib.Core.Path.{subst}

-- The nickname is on no channel but those with a key of the list.
abbrev OnlyOn : Text → List Text → Map Text Channel → Type 0
OnlyOn nick waiting channels =
    (key : Text) (c : Channel)
    → lookup key channels ≡ some c
    → (lookup nick c.nicks ≡ none) ⊎ (elem key waiting ≡ true)

elem-keys :
    (key : Text) (c : Channel) (channels : Map Text Channel)
    → lookup key channels ≡ some c
    → elem key (keys channels) ≡ true
unfolding lookup elem
elem-keys key c [] e = cc
elem-keys key c ((other, d) ∷ channels) e = elim (Bool-cases (other == key)) [
  | inl t ↦ ground (arith, t)
  | inr t ↦ ground (arith, t, elem-keys key c channels (ground (arith, t, e)))
]

lookup-delete_same : (nick : Text) (nicks : Map Text Perms) → lookup nick (delete nick nicks) ≡ none
lookup-delete_same nick nicks = lookup-delete nick nick nicks ∙ ground (arith, ==_refl nick)

-- After the nickname has left the channel with the key, the key need not be in the list.
module _ (nick key : Text) (rest : List Text) (i : IrcServer) where
  abbrev left : Channel → Channel
  left c = record c { nicks = delete nick c.nicks }

  OnlyOn-insert :
      (c : Channel)
      → OnlyOn nick (key ∷ rest) i.channels
      → OnlyOn nick rest (insert key (left c) i.channels)
  unfolding elem
  OnlyOn-insert c h other d e = elim (Bool-cases (key == other)) [
    | inl t ↦
        let q : left c ≡ d = ground (arith, e, t, lookup-insert key other (left c) i.channels) in
        inl
          (subst (λ (d : Channel). lookup nick d.nicks ≡ none) q (lookup-delete_same nick c.nicks))
    | inr t ↦
        let q : lookup other i.channels ≡ some d =
          ground (arith, e, t, lookup-insert key other (left c) i.channels) in
        elim (h other d q) [ inl a ↦ inl a | inr b ↦ inr (ground (arith, b, t)) ]
  ]

  OnlyOn-delete :
      (name : Text) (channels : Map Text Channel)
      → OnlyOn nick rest channels
      → OnlyOn nick rest (delete name channels)
  OnlyOn-delete name channels h other d e =
      h other d (ground (arith, e, lookup-delete name other channels))

  OnlyOn-none :
      lookup key i.channels ≡ none
      → OnlyOn nick (key ∷ rest) i.channels
      → OnlyOn nick rest i.channels
  unfolding elem
  OnlyOn-none absent h other d e = elim (h other d e) [
    | inl a ↦ inl a
    | inr b ↦ elim (Bool-cases (key == other)) [
      | inl t ↦
          let q = (text_beq_iff key other).0 t in
          absurd (let r = subst (λ (k : Text). lookup k i.channels ≡ none) q absent in cc)
      | inr t ↦ inr (ground (arith, b, t))
    ]
  ]

  abbrev deleted_channel : Channel → IrcServer → IrcServer
  deleted_channel c j = record j {
    channels = delete (chan_to_lower c.name) j.channels;
    heap = forget_invites (chan_to_lower c.name) (values j.sessions) j.heap;
  }

  maybe_delete-OnlyOn :
      (c : Channel) (j : IrcServer)
      → OnlyOn nick rest j.channels
      → OnlyOn nick rest (maybe_delete_channel c j).channels
  unfolding maybe_delete_channel
  maybe_delete-OnlyOn c j h =
      elim c.nicks
        as (λ nicks.
          OnlyOn nick rest
            (elim nicks as (λ _. IrcServer) [ [] ↦ deleted_channel c j | _ ∷ _ ↦ j ]).channels) [
              | [] ↦ OnlyOn-delete (chan_to_lower c.name) j.channels h
              | _ ∷ _ ↦ h
            ]

  leave_channel-none : lookup key i.channels ≡ none → leave_channel nick key i ≡ i
  unfolding leave_channel
  leave_channel-none e = ground (arith, e)

  leave_channel-some :
      (c : Channel)
      → lookup key i.channels ≡ some c
      → leave_channel nick key i
        ≡ maybe_delete_channel (left c) (record i { channels = insert key (left c) i.channels })
  unfolding leave_channel
  leave_channel-some c e = ground (arith, e)

  leave_channel-OnlyOn :
      OnlyOn nick (key ∷ rest) i.channels → OnlyOn nick rest (leave_channel nick key i).channels
  leave_channel-OnlyOn h = elim (Option-cases (lookup key i.channels)) [
    | inl e ↦
        subst (λ (j : IrcServer). OnlyOn nick rest j.channels) (sym (leave_channel-none e))
          (OnlyOn-none e h)
    | inr (c, e) ↦
        subst (λ (j : IrcServer). OnlyOn nick rest j.channels) (sym (leave_channel-some c e))
          (maybe_delete-OnlyOn (left c) (record i { channels = insert key (left c) i.channels })
            (OnlyOn-insert c h))
  ]

leave_channels-OnlyOn :
    (nick : Text) (waiting : List Text) (i : IrcServer)
    → OnlyOn nick waiting i.channels
    → OnlyOn nick [] (leave_channels nick waiting i).channels
unfolding leave_channels
leave_channels-OnlyOn nick [] i h = h
leave_channels-OnlyOn nick (key ∷ rest) i h =
    leave_channels-OnlyOn nick rest (leave_channel nick key i)
      (leave_channel-OnlyOn nick key rest i h)

-- Nothing of the server refers to the nickname.
pub record IsGone (nick : Text) (i : IrcServer) : Type 0 where
  pub no_session : lookup nick i.nicks ≡ none
  pub no_member :
      (key : Text) (c : Channel) → lookup key i.channels ≡ some c → lookup nick c.nicks ≡ none

-- For every server and every session: after deleteSessionLocked the lower-case nickname of the
-- session is neither in the map of nicknames nor on any channel, and the session is marked as
-- deleted.
pub delete_session-IsGone :
    (r : ℕ) (i : IrcServer)
    → IsGone (nick_to_lower (i.heap r).nick) (delete_session r i)
      × (((delete_session r i).heap r).deleted ≡ true)
unfolding delete_session elem set_session
delete_session-IsGone r i =
    let nick = nick_to_lower (i.heap r).nick in
    let i' = leave_channels nick (keys i.channels) i in
    (
      record {
        no_session = lookup-delete nick nick i'.nicks ∙ ground (arith, ==_refl nick);
        no_member = λ key c e.
            elim (leave_channels-OnlyOn nick (keys i.channels) i
              (λ key c e. inr (elem-keys key c i.channels e)) key c e) [
                | inl a ↦ a
                | inr b ↦ absurd (cc)
              ];
      },
      ground arith,
    )

module _ (nick key : Text) (i : IrcServer) (c : Channel) (named : chan_to_lower c.name ≡ key) where
  -- what the channel is after the nickname has left
  abbrev after_leave : Option Channel
  after_leave =
      list_case (delete nick c.nicks) none (λ _ _. some (record c { nicks = delete nick c.nicks }))

  lookup-maybe_delete :
      (k : Text)
      → lookup k
          (maybe_delete_channel
            (record c { nicks = delete nick c.nicks })
            (record i {
              channels = insert key (record c { nicks = delete nick c.nicks }) i.channels;
            })).channels
        ≡ (if key == k then after_leave else lookup k i.channels)
  unfolding maybe_delete_channel
  lookup-maybe_delete k =
      let put = lookup-insert key k (record c { nicks = delete nick c.nicks }) i.channels in
      let del =
        lookup-delete key k (insert key (record c { nicks = delete nick c.nicks }) i.channels) in
      ground (arith, put, del, named)

-- A nickname leaves a channel that stands at the lower-case form of its name (the end of PART, KICK
-- and a deleted session): the channel loses the nickname and nothing else, it vanishes exactly if
-- nobody is left on it, and every other channel is as before.
pub lookup-leave_channel :
    (nick key k : Text) (i : IrcServer) (c : Channel)
    → chan_to_lower c.name ≡ key
    → lookup key i.channels ≡ some c
    → lookup k (leave_channel nick key i).channels ≡ (
        if key == k
        then list_case
            (delete nick c.nicks)
            none
            (λ _ _. some (record c { nicks = delete nick c.nicks }))
        else lookup k i.channels)
lookup-leave_channel nick key k i c named found =
    ap (λ (j : IrcServer). lookup k j.channels) (leave_channel-some nick key [] i c found)
    ∙ lookup-maybe_delete nick key i c named k
