-- ===== src/Modes/RoundTrip.antt =====
-- internal/ircserver/modes.go: reading back the parameters that IRCParams writes.
use robustirc.Base.{
  All, Bool, Bool-cases, List, [], ap, arith, drop, false, get_elem?, inl, inr, keep, nat_eq, not,
  refl, some, suc, sym, true, zero, ℕ, ◌++◌, ◌<◌, ◌==◌, ◌∙◌, ◌∷◌, ◌≡◌,
}
use robustirc.Modes.{
  ModeCmd, adds, irc_params, is_sign, mode_args, mode_char, mode_letters, normalize_modes, removes,
  scan_modes, signed, takes_arg,
}
use robustirc.Robust.{id_eq}
use robustirc.Text.{Text, text_beq_iff, text_eq}
use mathlib.Core.List.{append-nil}
use mathlib.Core.Path.{subst}

-- A mode that a MODE message can hold: an ASCII letter that is not a sign, with a parameter
-- exactly if the mode takes one.
pub record IsMode (m : ModeCmd) : Type 0 where
  pub ascii : m.rune < 128
  pub letter : is_sign m.rune ≡ false
  pub argument : (m.arg == []) ≡ not (takes_arg m.rune)

-- The parameters that the modes of a list take, one for each letter that wants one.
drop-get : (n : ℕ) (params : List Text) → get_elem? params n ≡ get_elem? (drop n params) 0
drop-get zero [] = refl
drop-get zero (p ∷ params) = refl
drop-get (suc n) [] = refl
drop-get (suc n) (p ∷ params) = drop-get n params

drop-suc :
    (n : ℕ) (params rest : List Text) (p : Text)
    → drop n params ≡ p ∷ rest
    → drop (suc n) params ≡ rest
drop-suc zero [] rest p e = cc
drop-suc zero (q ∷ params) rest p e = ground (arith, e)
drop-suc (suc n) [] rest p e = cc
drop-suc (suc n) (q ∷ params) rest p e = drop-suc n params rest p e

mode_char-ascii : (m : ModeCmd) → IsMode m → mode_char m ≡ m.rune
unfolding mode_char
mode_char-ascii m h = ground (arith, h.ascii)

-- One letter of a mode that takes no parameter.
scan-letter :
    (params : List Text) (n : ℕ) (m : ModeCmd) (rest : Text)
    → IsMode m
    → takes_arg m.rune ≡ false
    → scan_modes params m.adding n (mode_char m ∷ rest) ≡ m ∷ scan_modes params m.adding n rest
unfolding scan_modes
scan-letter params n m rest h t =
    let empty : m.arg ≡ [] = (text_beq_iff m.arg []).0 (ground (arith, h.argument, t)) in
    rw (mode_char-ascii m h, h.letter, t)
      (ap (λ a. record m { arg = a } ∷ scan_modes params m.adding n rest) (sym empty))

-- One letter of a mode that takes the next parameter.
scan-argument :
    (params : List Text) (n : ℕ) (m : ModeCmd) (rest : Text)
    → IsMode m
    → takes_arg m.rune ≡ true
    → get_elem? params n ≡ some m.arg
    → scan_modes params m.adding n (mode_char m ∷ rest)
      ≡ m ∷ scan_modes params m.adding (suc n) rest
unfolding scan_modes
scan-argument params n m rest h t e =
    rw (mode_char-ascii m h, h.letter, t, e)
      (ap (λ k. m ∷ scan_modes params m.adding k rest) (omega arith))

-- The rest of the scan, behind modes that are all added or all removed.
record Scanned (params : List Text) (b : Bool) (n : ℕ) (ms : List ModeCmd) (args : List Text)
    : Type 0 where
  next : ℕ
  args_from : drop next params ≡ args
  scanned :
      (rest : Text)
      → scan_modes params b n (mode_letters ms ++ rest) ≡ ms ++ scan_modes params b next rest

Scanned-letter :
    (params : List Text) (n : ℕ) (m : ModeCmd) (ms : List ModeCmd) (args : List Text)
    → IsMode m
    → ((k : ℕ) → drop k params ≡ mode_args ms ++ args → Scanned params m.adding k ms args)
    → drop n params ≡ mode_args (m ∷ ms) ++ args
    → Scanned params m.adding n (m ∷ ms) args
unfolding mode_letters mode_args
Scanned-letter params n m ms args h ih d = elim (Bool-cases (takes_arg m.rune)) [
  | inl t ↦
      let some_arg : (m.arg == []) ≡ false = ground (arith, h.argument, t) in
      let d' : drop n params ≡ m.arg ∷ (mode_args ms ++ args) = ground (arith, d, some_arg) in
      let r = ih (suc n) (drop-suc n params _ m.arg d') in
      let at : get_elem? params n ≡ some m.arg = drop-get n params ∙ ap (λ l. get_elem? l 0) d' in
      record {
        next = r.next;
        args_from = r.args_from;
        scanned = λ rest.
            scan-argument params n m (mode_letters ms ++ rest) h t at
            ∙ ap (λ l. m ∷ l) (r.scanned rest);
      }
  | inr t ↦
      let no_arg : (m.arg == []) ≡ true = ground (arith, h.argument, t) in
      let r = ih n (ground (arith, d, no_arg)) in
      record {
        next = r.next;
        args_from = r.args_from;
        scanned = λ rest.
            scan-letter params n m (mode_letters ms ++ rest) h t ∙ ap (λ l. m ∷ l) (r.scanned rest);
      }
]

Scanned-letters :
    (params : List Text) (b : Bool) (n : ℕ) (ms : List ModeCmd) (args : List Text)
    → All IsMode ms
    → All (λ m. m.adding ≡ b) ms
    → drop n params ≡ mode_args ms ++ args
    → Scanned params b n ms args
unfolding mode_letters mode_args
Scanned-letters params b n [] args h e d = record {
  next = n;
  args_from = d;
  scanned = λ rest. refl;
}
Scanned-letters params b n (m ∷ ms) args h e d =
    subst (λ b. Scanned params b n (m ∷ ms) args) e.0
      (Scanned-letter params n m ms args h.0
        (λ k q.
          subst (λ b. Scanned params b k ms args) (sym e.0)
            (Scanned-letters params b k ms args h.1 e.1 q))
        d)

All-keep : (p : ModeCmd → Bool) (ms : List ModeCmd) → All IsMode ms → All IsMode (keep p ms)
All-keep p [] h = tt
All-keep p (m ∷ ms) h = elim (Bool-cases (p m)) [
  | inl e ↦ rw e (h.0, All-keep p ms h.1)
  | inr e ↦ rw e (All-keep p ms h.1)
]

All-adds : (ms : List ModeCmd) → All (λ m. m.adding ≡ true) (adds ms)
All-adds [] = tt
All-adds (m ∷ ms) = elim (Bool-cases m.adding) [
  | inl e ↦ rw e (refl, All-adds ms)
  | inr e ↦ rw e (All-adds ms)
]

All-removes : (ms : List ModeCmd) → All (λ m. m.adding ≡ false) (removes ms)
All-removes [] = tt
All-removes (m ∷ ms) = elim (Bool-cases m.adding) [
  | inl e ↦ rw e (All-removes ms)
  | inr e ↦ rw e (refl, All-removes ms)
]

scan-plus :
    (params : List Text) (n : ℕ) (ms : List ModeCmd) (args : List Text) (rest : Text)
    → (r : Scanned params true n ms args) → drop n params ≡ mode_args ms ++ args
    → (k : ℕ) × (drop k params ≡ args)
      × (scan_modes params true n (signed b'+' ms ++ rest) ≡ ms ++ scan_modes params true k rest)
unfolding signed scan_modes is_sign takes_arg mode_args
scan-plus params n [] args rest r d = (n, d, refl)
scan-plus params n (m ∷ ms) args rest r d = (r.next, r.args_from, r.scanned rest)

scan-minus :
    (params : List Text) (n : ℕ) (ms : List ModeCmd) (args : List Text)
    → Scanned params false n ms args
    → scan_modes params true n (signed b'-' ms) ≡ ms
unfolding signed scan_modes is_sign takes_arg
scan-minus params n [] args r = refl
scan-minus params n (m ∷ ms) args r =
    ap (scan_modes params false n) (sym (append-nil (mode_letters (m ∷ ms))))
    ∙ r.scanned []
    ∙ append-nil (m ∷ ms)

-- For every list of modes whose characters are ASCII and no signs, and which have a parameter
-- exactly if their character takes one: normalizeModes of a MODE message with the parameters that
-- IRCParams writes for the list gives the list again, with the added modes before the removed ones.
pub normalize_modes-irc_params :
    (target : Text) (ms : List ModeCmd)
    → All IsMode ms
    → normalize_modes (target ∷ irc_params ms) ≡ adds ms ++ removes ms
unfolding normalize_modes irc_params
normalize_modes-irc_params target ms h =
    let params = target ∷ irc_params ms in
    let p =
      scan-plus params 2 (adds ms) (mode_args (removes ms)) (signed b'-' (removes ms))
        (Scanned-letters params true 2 (adds ms) (mode_args (removes ms)) (All-keep _ ms h)
          (All-adds ms) refl)
        refl in
    p.2
    ∙ ap (λ l. adds ms ++ l)
        (scan-minus params p.0 (removes ms) [] (
          Scanned-letters params false p.0 (removes ms) [] (All-keep _ ms h) (All-removes ms)
            (p.1 ∙ sym (append-nil (mode_args (removes ms))))))
