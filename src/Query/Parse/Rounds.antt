-- ===== src/Query/Parse/Rounds.antt =====
-- The rounds of the loop on a printed filter.
use shellspectre.Base.{
  ◌≡◌, refl, sym, ap, ◌∙◌, Bool, true, false, none, List, [], ◌∷◌, ◌++◌, Text, All, arith,
  contains_char, split_once, strip_prefix, text_eq,
}
use mathlib.Core.List.{append-nil, append_assoc}
use shellspectre.Query.Parse.{
  Keyword, user_key, comm_key, exit_key, session_key, pid_key, ppid_key, gid_key, euid_key, tty_key,
  file_key, cmd_key, keyword_named, apply_keyword, negation, negated_rest, Parsing, push_bare,
  parse_token, parse_tokens,
}
use shellspectre.Query.Parse.Print.{key_text, bang, token}

-- A token with a known key sets the key's field, or warns.
pub parse_token-token :
    (k : Keyword) (neg : Bool) (v : Text) (p : Parsing)
    → parse_token (token k neg v) p ≡ record p { filter = apply_keyword k neg v p.filter }
unfolding parse_token token key_text bang negation keyword_named split_once strip_prefix text_eq
parse_token-token user_key true v p = refl
parse_token-token user_key false v p = refl
parse_token-token comm_key true v p = refl
parse_token-token comm_key false v p = refl
parse_token-token exit_key true v p = refl
parse_token-token exit_key false v p = refl
parse_token-token session_key true v p = refl
parse_token-token session_key false v p = refl
parse_token-token pid_key true v p = refl
parse_token-token pid_key false v p = refl
parse_token-token ppid_key true v p = refl
parse_token-token ppid_key false v p = refl
parse_token-token gid_key true v p = refl
parse_token-token gid_key false v p = refl
parse_token-token euid_key true v p = refl
parse_token-token euid_key false v p = refl
parse_token-token tty_key true v p = refl
parse_token-token tty_key false v p = refl
parse_token-token file_key true v p = refl
parse_token-token file_key false v p = refl
parse_token-token cmd_key true v p = refl
parse_token-token cmd_key false v p = refl

pub parse_tokens-append :
    (ts us : List Text) (p : Parsing)
    → parse_tokens (ts ++ us) p ≡ parse_tokens us (parse_tokens ts p)
unfolding parse_tokens
parse_tokens-append [] us p = refl
parse_tokens-append (t ∷ ts) us p = parse_tokens-append ts us (parse_token t p)

-- A word that no colon makes a keyword.
abbrev pub IsBare : Text → Type 0
IsBare w = contains_char b':' w ≡ false

split_once-IsBare : (w : Text) → IsBare w → split_once b':' w ≡ none
unfolding split_once
split_once-IsBare [] h = refl
split_once-IsBare (c ∷ w) h = ground (arith, split_once-IsBare w)

parse_token-IsBare : (w : Text) (p : Parsing) → IsBare w → parse_token w p ≡ push_bare w p
unfolding parse_token negation strip_prefix split_once negated_rest
parse_token-IsBare [] p h = refl
parse_token-IsBare (c ∷ w) p h = ground (arith, split_once-IsBare (c ∷ w))

pub parse_tokens-IsBare :
    (ws : List Text) (p : Parsing)
    → All IsBare ws
    → parse_tokens ws p ≡ record p { bare_words = p.bare_words ++ ws }
unfolding parse_tokens push_bare
parse_tokens-IsBare [] p h = ap (λ b. record p { bare_words = b }) (sym (append-nil p.bare_words))
parse_tokens-IsBare (w ∷ ws) p h =
    ap (parse_tokens ws) (parse_token-IsBare w p h.0)
    ∙ parse_tokens-IsBare ws (push_bare w p) h.1
    ∙ ap (λ b. record p { bare_words = b }) (append_assoc p.bare_words (w ∷ []) ws)
