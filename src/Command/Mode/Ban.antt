-- ===== src/Command/Mode/Ban.antt =====
-- cmd_mode.go: bans.
use robustirc.Base.{
  Bool, List, Option, [], add_elem, drop, elem, if◌then◌else◌, keep, nat_beq, nat_eq, none, not,
  some, ℕ, ◌&&◌, ◌++◌, ◌==◌, ◌∷◌,
}
use robustirc.Base.Assoc.{lookup}
use robustirc.Irc.{Env}
use robustirc.Robust.{id_eq}
use robustirc.Server.{BanPattern, Channel, IrcServer}
use robustirc.Text.{Text, has_prefix, sort_texts, text, text_eq}

abbrev meta_chars : List ℕ
meta_chars = 92 ∷ 46 ∷ 43 ∷ 42 ∷ 63 ∷ 40 ∷ 41 ∷ 124 ∷ 91 ∷ 93 ∷ 123 ∷ 125 ∷ 94 ∷ 36 ∷ []

-- regexp.QuoteMeta
unfoldable pub quote_meta : Text → Text
quote_meta [] = []
quote_meta (c ∷ s) =
    let rest = quote_meta s in if elem c meta_chars then 92 ∷ c ∷ rest else c ∷ rest

-- strings.Replace(pattern, "\\*", ".*", -1)
unfoldable pub replace_stars : Text → Text
replace_stars [] = []
replace_stars (c ∷ []) = c ∷ []
replace_stars (c ∷ d ∷ s) =
    let matched = b'.' ∷ b'*' ∷ replace_stars s in
    let skipped = c ∷ replace_stars (d ∷ s) in
    if nat_beq c 92 && nat_beq d b'*' then matched else skipped

-- The pattern of case 'b'.
unfoldable pub ban_pattern : Text → Text
ban_pattern banmask = replace_stars (quote_meta banmask)

-- strings.Index, as the text before the first occurrence and the text from it on
unfoldable pub find_sub : Text → Text → Option (Text × Text)
find_sub sub [] = if sub == [] then some ([], []) else none
find_sub sub (c ∷ s) =
    let later = find_sub sub s in
    if has_prefix (c ∷ s) sub
    then some ([], c ∷ s)
    else elim later [ none ↦ none | some (before, from) ↦ some (c ∷ before, from) ]

module _ ⦃env : Env⦄ where
  -- resolveSessionToRemoteAddrLocked
  unfoldable pub resolve_session_to_remote_addr : IrcServer → Text → Text
  resolve_session_to_remote_addr i pattern = elim (find_sub (text "@robust/0x") pattern) [
    | none ↦ pattern
    | some (before, from) ↦ elim (env.parse_int (drop 8 from)) [
      | none ↦ pattern
      | some id ↦ elim (lookup (record { id = id; reply = 0 }) i.sessions) [
        | none ↦ pattern
        | some r ↦
            let addr = (i.heap r).remote_addr in
            if addr == [] then pattern else before ++ (b'@' ∷ addr)
      ]
    ]
  ]

  unfoldable pub without_ban : Text → List BanPattern → List BanPattern
  without_ban banmask bans = keep (λ b. not (b.pattern == banmask)) bans

  -- ban, with the error
  unfoldable pub ban : Channel → Bool → Text → Text → Channel × Option Text
  ban c add banmask pattern = elim (env.compile_error pattern) [
    | some e ↦ (c, some e)
    | none ↦ (
      record c {
        bans =
            if add
            then c.bans ++ record { source = pattern; pattern = banmask } ∷ []
            else without_ban banmask c.bans;
      },
      none,
    )
  ]

  -- banBoth
  unfoldable pub ban_both : Channel → Bool → Text → Text → Text → Channel × Option Text
  ban_both c add banmask pattern pattern_addr =
      let (c', err) = ban c add banmask pattern in
      elim err [
        | some e ↦ (c', some e)
        | none ↦
            if not (pattern_addr == pattern) then ban c' add banmask pattern_addr else (c', none)
      ]

-- the patterns that are banned, once each
unfoldable pub seen_patterns : List Text → List BanPattern → List Text
seen_patterns seen [] = seen
seen_patterns seen (b ∷ bans) = seen_patterns (add_elem b.pattern seen) bans

unfoldable pub ban_list : List BanPattern → List Text
ban_list bans = sort_texts (seen_patterns [] bans)
