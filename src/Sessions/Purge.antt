-- ===== src/Sessions/Purge.antt =====
-- MaybeDeleteSession of internal/ircserver/ircserver.go.
use robustirc.Base.{
  ==_refl, Bool-cases, Option-cases, [], ap, arith, false, inl, inr, nat_eq, none, some, sym, true,
  ℕ, ◌==◌, ◌∙◌, ◌∷◌, ◌≡◌,
}
use robustirc.Base.Assoc.{Map, delete, lookup, lookup-delete}
use robustirc.Robust.{RobustId, id_beq_iff, id_eq}
use robustirc.Server.{IrcServer, Session}
use robustirc.Sessions.{maybe_delete_session, purge_deleted}
use robustirc.Text.{text_eq}
use mathlib.Core.Option.{some-injective}

module _ (heap : ℕ → Session) where
  lookup-purge_deleted :
      (id : RobustId) (r : ℕ) (m : Map RobustId ℕ)
      → lookup id m ≡ some r
      → (heap r).deleted ≡ false
      → lookup id (purge_deleted heap m) ≡ some r
  unfolding lookup purge_deleted
  lookup-purge_deleted id r [] e live = cc
  lookup-purge_deleted id r ((j, q) ∷ m) e live = elim (Bool-cases (j == id)) [
    | inl t ↦
        let same : q ≡ r = ground (arith, t, e) in
        ground (arith, t, same, live, ap (λ (k : ℕ). (heap k).deleted) same)
    | inr t ↦
        let ih = lookup-purge_deleted id r m (ground (arith, t, e)) live in ground (arith, t, ih)
  ]

delete-other :
    (id other : RobustId) (m : Map RobustId ℕ)
    → (id == other) ≡ false
    → lookup other (delete id m) ≡ lookup other m
delete-other id other m ne = lookup-delete id other m ∙ ground (arith, ne)

-- MaybeDeleteSession, for every server, whether or not it knows the session, and whether or not the
-- session belongs to the services or an operator: a session that is not marked as deleted
-- is found afterwards as before.
pub maybe_delete_session-live :
    (session other : RobustId) (r : ℕ) (i : IrcServer)
    → lookup other i.sessions ≡ some r
    → (i.heap r).deleted ≡ false
    → lookup other (maybe_delete_session session i).sessions ≡ some r
unfolding maybe_delete_session
maybe_delete_session-live session other r i e live =
    elim (Option-cases (lookup session i.sessions)) [
      | inl f ↦ ground (arith, e, f)
      | inr (q, f) ↦
          let kept = lookup-purge_deleted i.heap other r i.sessions e live in
          elim (Bool-cases (i.heap q).deleted) [
            | inl gone ↦ elim (Bool-cases (session == other)) [
              | inl t ↦
                  let same : q ≡ r = some-injective q r (
                    sym f
                    ∙ ap (λ (k : RobustId). lookup k i.sessions) ((id_beq_iff session other).0 t)
                    ∙ e) in
                  absurd (ground (arith, gone, live, ap (λ (k : ℕ). (i.heap k).deleted) same))
              | inr t ↦ ground (
                arith,
                e,
                f,
                gone,
                kept,
                delete-other session other i.sessions t,
                delete-other session other (purge_deleted i.heap i.sessions) t,
              )
            ]
            | inr stays ↦ ground (arith, e, f, stays, kept)
          ]
    ]

-- A session that is marked as deleted is not found under its id after MaybeDeleteSession of that id.
pub maybe_delete_session-gone :
    (session : RobustId) (r : ℕ) (i : IrcServer)
    → lookup session i.sessions ≡ some r
    → (i.heap r).deleted ≡ true
    → lookup session (maybe_delete_session session i).sessions ≡ none
unfolding maybe_delete_session
maybe_delete_session-gone session r i e gone = ground (
  arith,
  e,
  gone,
  ==_refl session,
  lookup-delete session session i.sessions,
  lookup-delete session session (purge_deleted i.heap i.sessions),
)
