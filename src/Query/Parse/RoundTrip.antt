-- ===== src/Query/Parse/RoundTrip.antt =====
-- Reading a printed filter.
use shellspectre.Base.{
  ℕ, zero, suc, ◌+◌, ◌/◌, ◌%◌, ◌≡◌, refl, ap, ◌∙◌, Bool, true, false, Option, none, some, List, [],
  ◌∷◌, ◌++◌, ℤ, pos, negsuc, Text, codes, any, All, All-append, arith, is_empty, is_whitespace,
  if◌then◌else◌, IsWord, join, split_whitespace-join, trim-join,
}
use shellspectre.Query.Parse.{
  FilterValue, EventFilter, Keyword, user_key, comm_key, exit_key, session_key, pid_key, ppid_key,
  gid_key, euid_key, tty_key, file_key, cmd_key, parse_tokens, start_parsing, finish_parsing,
  parse_trimmed, parse,
}
use shellspectre.Query.Parse.Print.{
  digits, decimal, decimal_int, key_text, bang, token, tokens_of, filter_tokens, as_is,
}
use shellspectre.Query.Parse.Rounds.{IsBare, parse_tokens-IsBare}
use shellspectre.Query.Parse.Fields.{OnValue, AreInRange, fields_read}

abbrev pub IsUnspaced : Text → Type 0
IsUnspaced s = any is_whitespace s ≡ false

digits-IsUnspaced : (fuel n : ℕ) (out : Text) → IsUnspaced out → IsUnspaced (digits fuel n out)
unfolding digits is_whitespace
digits-IsUnspaced zero n out h = h
digits-IsUnspaced (suc fuel) n out h =
    ground (arith, digits-IsUnspaced fuel (n / 10) ((b'0' + n % 10) ∷ out))

decimal-IsUnspaced : (n : ℕ) → IsUnspaced (decimal n)
unfolding decimal
decimal-IsUnspaced n = digits-IsUnspaced 10 n [] refl

decimal_int-IsUnspaced : (n : ℤ) → IsUnspaced (decimal_int n)
unfolding decimal_int is_whitespace
decimal_int-IsUnspaced (pos n) = decimal-IsUnspaced n
decimal_int-IsUnspaced (negsuc n) = decimal-IsUnspaced (suc n)

token-IsWord : (k : Keyword) (neg : Bool) (v : Text) → IsUnspaced v → IsWord (token k neg v)
unfolding token key_text bang is_whitespace
token-IsWord user_key true v h = (refl, h)
token-IsWord user_key false v h = (refl, h)
token-IsWord comm_key true v h = (refl, h)
token-IsWord comm_key false v h = (refl, h)
token-IsWord exit_key true v h = (refl, h)
token-IsWord exit_key false v h = (refl, h)
token-IsWord session_key true v h = (refl, h)
token-IsWord session_key false v h = (refl, h)
token-IsWord pid_key true v h = (refl, h)
token-IsWord pid_key false v h = (refl, h)
token-IsWord ppid_key true v h = (refl, h)
token-IsWord ppid_key false v h = (refl, h)
token-IsWord gid_key true v h = (refl, h)
token-IsWord gid_key false v h = (refl, h)
token-IsWord euid_key true v h = (refl, h)
token-IsWord euid_key false v h = (refl, h)
token-IsWord tty_key true v h = (refl, h)
token-IsWord tty_key false v h = (refl, h)
token-IsWord file_key true v h = (refl, h)
token-IsWord file_key false v h = (refl, h)
token-IsWord cmd_key true v h = (refl, h)
token-IsWord cmd_key false v h = (refl, h)

tokens_of-IsWord {ℓ} :
    {A : Type ℓ} (show : A → Text) (k : Keyword) (o : Option (FilterValue A))
    → OnValue (λ v. IsUnspaced (show v)) o
    → All IsWord (tokens_of show k o)
unfolding tokens_of
tokens_of-IsWord show k none h = tt
tokens_of-IsWord show k (some fv) h = (token-IsWord k fv.negated (show fv.value) h, tt)

-- Numbers have no white space.
shown_number {ℓ} :
    {A : Type ℓ} (show : A → Text) (o : Option (FilterValue A))
    → ((v : A) → IsUnspaced (show v))
    → OnValue (λ v. IsUnspaced (show v)) o
shown_number show none h = tt
shown_number show (some fv) h = h fv.value

-- No text of the filter has white space.
abbrev pub AreUnspaced : EventFilter → Type 0
AreUnspaced f =
    OnValue IsUnspaced f.user
    × OnValue IsUnspaced f.comm
    × OnValue IsUnspaced f.session_id
    × OnValue IsUnspaced f.file
    × OnValue IsUnspaced f.cmd

filter_tokens-IsWord : (f : EventFilter) → AreUnspaced f → All IsWord (filter_tokens f)
unfolding filter_tokens
filter_tokens-IsWord f h = both _ _ (text user_key f.user h.0) (
    both _ _ (text comm_key f.comm h.1) (
      both _ _
        (tokens_of-IsWord decimal_int exit_key f.exit_code
          (shown_number decimal_int f.exit_code decimal_int-IsUnspaced))
        (both _ _ (text session_key f.session_id h.2) (
          both _ _ (number pid_key f.pid) (
            both _ _ (number ppid_key f.ppid) (
              both _ _ (number gid_key f.gid) (
                both _ _ (number euid_key f.euid) (
                  both _ _ (number tty_key f.tty)
                    (both _ _ (text file_key f.file h.3) (text cmd_key f.cmd h.4))))))))))
  where
    both : (xs ys : List Text) → All IsWord xs → All IsWord ys → All IsWord (xs ++ ys)
    both = All-append IsWord

    text :
        (k : Keyword) (o : Option (FilterValue Text))
        → OnValue IsUnspaced o
        → All IsWord (tokens_of as_is k o)
    text = tokens_of-IsWord as_is

    number : (k : Keyword) (o : Option (FilterValue ℕ)) → All IsWord (tokens_of decimal k o)
    number k o = tokens_of-IsWord decimal k o (shown_number decimal o decimal-IsUnspaced)

-- The query that a filter and bare words are written as.
abbrev pub query_text : EventFilter → List Text → Text
query_text f words = join (codes " ") (filter_tokens f ++ words)

abbrev pub joined : List Text → Option Text
joined words = if is_empty words then none else some (join (codes " ") words)

parse-words :
    (ts : List Text)
    → All IsWord ts
    → is_empty ts ≡ false
    → parse (join (codes " ") ts)
      ≡ finish_parsing (parse_tokens ts (start_parsing (join (codes " ") ts)))
unfolding parse parse_trimmed
parse-words [] h k = ground arith
parse-words (t ∷ ts) h k =
    let (trimmed, filled) = trim-join (codes " ") t ts h in
    let pieces = split_whitespace-join t ts h in rw (trimmed, filled, pieces)

finish_words :
    (q : Text) (f : EventFilter) (words : List Text)
    → finish_parsing (record {
      filter = record f { raw = some q; warnings = []; text = none };
      bare_words = words;
    })
      ≡ record f { raw = some q; warnings = []; text = joined words }
unfolding finish_parsing
finish_words q f [] = refl
finish_words q f (w ∷ words) = refl

-- A filter with at least one token, written as a query, is read back: its fields, if its numbers are
-- in range and its texts have no white space, and its bare words, if none has a colon.
pub parse-query_text :
    (f : EventFilter) (words : List Text)
    → AreInRange f
    → AreUnspaced f
    → All IsWord words
    → All IsBare words
    → is_empty (filter_tokens f ++ words) ≡ false
    → parse (query_text f words)
      ≡ record f { raw = some (query_text f words); warnings = []; text = joined words }
parse-query_text f words range unspaced are_words bare filled =
    let q = query_text f words in
    let all_words =
      All-append IsWord (filter_tokens f) words (filter_tokens-IsWord f unspaced) are_words in
    parse-words (filter_tokens f ++ words) all_words filled
    ∙ ap finish_parsing (fields_read q f words range ∙ parse_tokens-IsBare words _ bare)
    ∙ finish_words q f words
